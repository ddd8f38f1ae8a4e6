-- ===== src/Updater/Geo.antt =====
-- installGeo, InstallReleaseGeo and InstallPanelGeo of internal/updater/updater.go, on what the
-- network gives for each database. What a file holds is a number; `digest` is its SHA-256 in hex.
use xray_runner.Prelude.{
  ℕ, Bool, true, false, ◌&&◌, ◌||◌, not, Option, none, some, String, List, [], ◌∷◌, str_eq,
  if◌then◌else◌, Runes,
}
use xray_runner.Xraycfg.Config.{equal_fold}
use xray_runner.Updater.Install.{staged, Dir, InstallError, put, commit_all}

-- what fetchChecksum says
pub data Checksum : Type 0 where
  published : Runes → Checksum
  -- a 404
  unpublished : Checksum
  unreadable : Checksum

pub record Fetched : Type 0 where
  pub name : String
  pub is_https : Bool
  pub download_fails : Bool
  pub content : ℕ
  pub checksum : Checksum
  -- the temp cannot be read back for its sum
  pub read_fails : Bool
  pub seal_fails : Bool

pub data GeoFailure : Type 0 where
  wrong_names not_https : GeoFailure
  download_failed no_checksum wrong_checksum not_read not_sealed : String → GeoFailure
  not_committed : List InstallError → GeoFailure

-- the names of the databases and their temps
abbrev pub geo_pair : Fetched → Fetched → List (String × ℕ)
geo_pair geoip geosite = (geoip.name, 0) ∷ (geosite.name, 1) ∷ []

-- the names that installGeo takes
abbrev pub right_names : Fetched → Fetched → Bool
right_names geoip geosite = str_eq geoip.name "geoip.dat" && str_eq geosite.name "geosite.dat"

module _ (fold : ℕ → ℕ) (digest : ℕ → Runes) where
  -- the switch on the checksum; `allow` is allowUnpublished
  unfoldable pub check_sum : Bool → Fetched → Option GeoFailure
  check_sum allow a = elim a.checksum [
    | published want ↦
        if a.read_fails
        then some (not_read a.name)
        else if equal_fold fold (digest a.content) want
        then none
        else some (wrong_checksum a.name)
    | unpublished ↦ if allow then none else some (no_checksum a.name)
    | unreadable ↦ some (no_checksum a.name)
  ]

  -- one round of the loop: the temp is staged k
  unfoldable pub stage_one : Bool → ℕ → Fetched → Dir → Option GeoFailure × Dir
  stage_one allow k a d =
      let downloaded = record d { files = put (staged k) (some a.content) d.files } in
      let verdict = check_sum allow a in
      if a.download_fails then (some (download_failed a.name), d) else elim verdict [
        | some e ↦ (some e, downloaded)
        | none ↦ if a.seal_fails then (some (not_sealed a.name), downloaded) else (none, downloaded)
      ]

  -- discard of both temps
  abbrev discard_all : Dir → Dir
  discard_all d = record d { files = put (staged 0) none (put (staged 1) none d.files) }

  -- installGeo, without an error if the first component is none
  unfoldable pub install_geo : Bool → Fetched → Fetched → Dir → Option GeoFailure × Dir
  install_geo allow geoip geosite d =
      let (first, d1) = stage_one allow 0 geoip d in
      let (second, d2) = stage_one allow 1 geosite d1 in
      let (errs, d3) = commit_all (geo_pair geoip geosite) d2 in
      if not (right_names geoip geosite) then (some wrong_names, d) else elim first [
        | some e ↦ (some e, discard_all d1)
        | none ↦ elim second [
          | some e ↦ (some e, discard_all d2)
          | none ↦ elim errs [
            | [] ↦ (none, d3)
            | e ∷ more ↦ (some (not_committed (e ∷ more)), discard_all d3)
          ]
        ]
      ]

  -- InstallReleaseGeo
  abbrev pub install_release_geo : Fetched → Fetched → Dir → Option GeoFailure × Dir
  install_release_geo geoip geosite d = install_geo false geoip geosite d

  -- InstallPanelGeo
  unfoldable pub install_panel_geo : Fetched → Fetched → Dir → Option GeoFailure × Dir
  install_panel_geo geoip geosite d =
      if not geoip.is_https || not geosite.is_https
      then (some not_https, d)
      else install_geo true geoip geosite d
