-- ===== src/Updater/Tests.antt =====
-- The updater on small inputs: a redirect to a mirror on the same machine, a release list, and an
-- install whose second database cannot go in.
use xray_runner.Prelude.{
  ℕ, ◌+◌, ◌≡◌, Bool, true, false, Option, none, some, String, List, [], ◌∷◌, refl, All, codes,
  Runes, runes_eq, is_space, length,
}
use xray_runner.Prelude.Outcome.{ok}
use xray_runner.Updater.Transport.{Url, new_get}
use xray_runner.Updater.SafeTransport.{AreSafe, new_get-AreSafe}
use xray_runner.Updater.Releases.{Release, parse_sha256_sum}
use xray_runner.Updater.Install.{FileName, database, staged, aside, Dir, commit_all}
use xray_runner.Updater.Undo.{AreDifferent, failure_restores}
use xray_runner.Updater.Geo.{
  Checksum, published, unpublished, Fetched, install_geo, stage_one, check_sum,
}
use xray_runner.Updater.Verified.{IsVerified, install_geo-IsVerified}
use xray_runner.Updater.CoreInstall.{
  CoreFetched, CoreLeft, install_core, install_core-CoreLeft, checked_binary,
}
use xray_runner.Updater.Success.{success_installs}

abbrev no_fold : ℕ → ℕ
no_fold c = c

abbrev is_v6_loopback : Runes → Bool
is_v6_loopback host = runes_eq host (codes "::1")

abbrev mirror : Url
mirror = record { scheme = "http"; hostname = codes "localhost"; rest = "/geoip.dat" }

abbrev panel : Url
panel = record { scheme = "https"; hostname = codes "panel.example"; rest = "/geoip.dat" }

new_get-AreSafe_example :
    AreSafe no_fold is_v6_loopback (new_get no_fold is_v6_loopback mirror (panel ∷ mirror ∷ [])).0
new_get-AreSafe_example = new_get-AreSafe no_fold is_v6_loopback mirror (panel ∷ mirror ∷ [])

-- the mirror sends to the panel, the panel not back
two_requests : length (new_get no_fold is_v6_loopback mirror (panel ∷ mirror ∷ [])).0 ≡ 2
unfolding new_get
two_requests = refl

abbrev version : String → Bool → Release
version tag prerelease = record { tag = tag; name = tag; prerelease = prerelease; assets = [] }

abbrev versions : List Release
versions = version "v26.7.0" true ∷ version "v26.6.27" false ∷ version "v26.6.1" false ∷ []

abbrev sum : Runes
sum = codes "0123456789abcdef0123456789abcdef0123456789abcdef0123456789abcdef"

abbrev sum_file : Runes
sum_file = codes "0123456789abcdef0123456789abcdef0123456789abcdef0123456789abcdef  geoip.dat"

sum_is_read : parse_sha256_sum sum_file ≡ ok sum
unfolding parse_sha256_sum is_space
sum_is_read = refl

abbrev geo : Release
geo = record {
  tag = "202606";
  name = "202606";
  prerelease = false;
  assets =
      record { name = "geosite.dat"; url = "https://x/2"; size = 5 }
      ∷ record { name = "rules.zip"; url = "https://x/3"; size = 5 }
      ∷ record { name = "geoip.dat"; url = "https://x/1"; size = 5 }
      ∷ [];
}

-- both databases are there, and both temps
abbrev old_files : FileName → Option ℕ
old_files (database name) = some 1
old_files (staged k) = some (2 + k)
old_files (aside k) = none

abbrev pair : List (String × ℕ)
pair = ("geoip.dat", 0) ∷ ("geosite.dat", 1) ∷ []

-- the rename of the second temp fails
abbrev held_open : Dir
held_open = record {
  files = old_files;
  fresh = 0;
  faults = false ∷ false ∷ false ∷ false ∷ false ∷ true ∷ [];
}

pair-AreDifferent : AreDifferent pair
pair-AreDifferent = ((refl, tt), (tt, tt))

failure_restores_example : (commit_all pair held_open).1.files (database "geoip.dat") ≡ some 1
unfolding commit_all
failure_restores_example =
    failure_restores held_open pair "geoip.dat" pair-AreDifferent (λ h. absurd (cc)) refl

abbrev calm : Dir
calm = record held_open { faults = [] }

success_installs_example :
    All (λ a. (commit_all pair calm).1.files (database a.0) ≡ old_files (staged a.1)) pair
    × ((commit_all pair calm).1.files (database "other.dat") ≡ some 1)
unfolding commit_all
success_installs_example =
    success_installs calm pair "other.dat" pair-AreDifferent ((refl, tt), (tt, tt))
      (refl, (refl, tt)) refl

-- a digest of the content's number
abbrev toy_digest : ℕ → Runes
toy_digest content = content ∷ []

abbrev from_panel : String → ℕ → Checksum → Fetched
from_panel name content checksum = record {
  name = name;
  is_https = true;
  download_fails = false;
  content = content;
  checksum = checksum;
  read_fails = false;
  seal_fails = false;
}

abbrev new_ip : Fetched
new_ip = from_panel "geoip.dat" 8 (published (8 ∷ []))

abbrev new_site : Fetched
new_site = from_panel "geosite.dat" 9 unpublished

install_geo-IsVerified_example :
    IsVerified no_fold toy_digest true new_ip
    × IsVerified no_fold toy_digest true new_site
    × ((install_geo no_fold toy_digest true new_ip new_site calm).1.files (database "geoip.dat")
        ≡ some 8)
    × ((install_geo no_fold toy_digest true new_ip new_site calm).1.files (database "geosite.dat")
        ≡ some 9)
unfolding install_geo stage_one check_sum commit_all
install_geo-IsVerified_example =
    install_geo-IsVerified no_fold toy_digest true new_ip new_site calm "geoip.dat" refl

abbrev core_release : Release
core_release = record {
  tag = "v26.7.28";
  name = "v26.7.28";
  prerelease = false;
  assets =
      record { name = "Xray-linux-32.zip"; url = "https://x/4"; size = 5 }
      ∷ record { name = "Xray-linux-64.zip"; url = "https://x/5"; size = 5 }
      ∷ [];
}

abbrev fetched_core : CoreFetched
fetched_core = record {
  right_name = true;
  download_fails = false;
  archive = 8;
  dgst = some (8 ∷ []);
  stage_fails = false;
  binary = some 80;
  seal_fails = false;
}

install_core-CoreLeft_example :
    CoreLeft no_fold toy_digest fetched_core calm
      (install_core no_fold toy_digest fetched_core calm).0
      (install_core no_fold toy_digest fetched_core calm).1
install_core-CoreLeft_example = install_core-CoreLeft no_fold toy_digest fetched_core calm

core_goes_in : (install_core no_fold toy_digest fetched_core calm).0 ≡ none
unfolding install_core checked_binary commit_all
core_goes_in = refl
