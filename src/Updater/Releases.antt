-- ===== src/Updater/Releases.antt =====
-- The releases that internal/updater/updater.go knows: their cache, the choice among them, their
-- assets, and the checksum files beside the assets. Texts that are walked are code points; `lower`
-- is the table of strings.ToLower.
use xray_runner.Prelude.{
  ℕ, ◌-◌, Bool, true, false, ◌&&◌, ◌||◌, Option, none, some, String, List, [], ◌∷◌, length, ltb,
  not, leb, ◌==◌, all, str_eq, if◌then◌else◌, Runes, codes, runes_eq, trim_space, split_runes, map,
  is_space,
}
use Prim.Native.String.{◌++◌}
use xray_runner.Prelude.Outcome.{Outcome, fail, ok}

pub record Asset : Type 0 where
  pub name : String
  pub url : String
  pub size : ℕ

pub record Release : Type 0 where
  pub tag : String
  pub name : String
  pub prerelease : Bool
  pub assets : List Asset

-- strings.TrimPrefix and strings.CutPrefix
abbrev cut_prefix : Runes → Runes → Option Runes
cut_prefix [] s = some s
cut_prefix (c ∷ p) [] = none
cut_prefix (c ∷ p) (d ∷ s) = if c == d then cut_prefix p s else none

abbrev trim_prefix : Runes → Runes → Runes
trim_prefix p s = elim (cut_prefix p s) [ none ↦ s | some r ↦ r ]

-- `norm` in SameVersion
abbrev pub norm : (ℕ → ℕ) → Runes → Runes
norm lower s = trim_prefix (codes "v") (map lower (trim_space s))

-- SameVersion
unfoldable pub same_version : (ℕ → ℕ) → Runes → Runes → Bool
same_version lower tag installed =
    if runes_eq (trim_space installed) []
    then false
    else runes_eq (norm lower tag) (norm lower installed)

-- nanoseconds
abbrev pub cache_ttl : ℕ
cache_ttl = 600_000_000_000

module _ {ℓ κ} {A : Type ℓ} {E : Type κ} where
  -- what a fetch does to the slot when it ends at `later`; a failed one is not stored
  abbrev store_fetched : Option (A × ℕ) → ℕ → Outcome E A → Outcome E A × Option (A × ℕ) × Bool
  store_fetched slot later (fail e) = (fail e, slot, true)
  store_fetched slot later (ok v) = (ok v, some (v, later), true)

  -- cached, on a slot and the moment it was stored, if it was; the clock says `now`, and `later`
  -- when the fetch has ended. The last component says whether anything was fetched.
  unfoldable pub cached :
      Option (A × ℕ) → (now later : ℕ) → Outcome E A → Outcome E A × Option (A × ℕ) × Bool
  cached slot now later fetch = elim slot [
    | none ↦ store_fetched none later fetch
    | some (v, stored) ↦
        if ltb (now - stored) cache_ttl
        then (ok v, some (v, stored), false)
        else store_fetched (some (v, stored)) later fetch
  ]

-- GeoInstalled and MarkGeoInstalled, on the tag kept
unfoldable pub geo_installed : String → String → Bool
geo_installed geo_tag tag = not (str_eq tag "") && str_eq geo_tag tag

abbrev pub mark_geo_installed : String → String → String
mark_geo_installed geo_tag tag = tag

-- TrimToLatestStable: `none` while the loop has met no stable release
unfoldable pub to_first_stable : List Release → Option (List Release)
to_first_stable [] = none
to_first_stable (r ∷ rels) =
    let rest = to_first_stable rels in
    if not r.prerelease then some (r ∷ []) else elim rest [ none ↦ none | some l ↦ some (r ∷ l) ]

unfoldable pub trim_to_latest_stable : List Release → List Release
unfolding to_first_stable
trim_to_latest_stable rels = elim (to_first_stable rels) [ none ↦ rels | some l ↦ l ]

abbrev asset_name : String → String → String
asset_name plat arch = "Xray-" ++ plat ++ "-" ++ arch ++ ".zip"

-- coreAssetName
unfoldable pub core_asset_name : String → String → String
core_asset_name goos goarch =
    let name = λ (plat : String).
      if str_eq goarch "amd64"
      then asset_name plat "64"
      else if str_eq goarch "386"
      then asset_name plat "32"
      else if str_eq goarch "arm64"
      then asset_name plat "arm64-v8a"
      else "" in
    if str_eq goos "linux"
    then name "linux"
    else if str_eq goos "darwin"
    then name "macos"
    else if str_eq goos "windows"
    then name "windows"
    else ""

unfoldable pub find_asset : String → List Asset → Option Asset
find_asset want [] = none
find_asset want (a ∷ assets) =
    let rest = find_asset want assets in if str_eq a.name want then some a else rest

-- CoreAsset
unfoldable pub core_asset : String → String → Release → Option Asset
unfolding core_asset_name find_asset
core_asset goos goarch r =
    let want = core_asset_name goos goarch in
    if str_eq want "" then none else find_asset want r.assets

abbrev pub no_asset : Asset
no_asset = record { name = ""; url = ""; size = 0 }

-- the loop of GeoAssets
unfoldable pub pick_geo : List Asset → Asset × Asset → Asset × Asset
pick_geo [] picked = picked
pick_geo (a ∷ assets) picked = pick_geo assets (
    if str_eq a.name "geoip.dat"
    then (a, picked.1)
    else if str_eq a.name "geosite.dat"
    then (picked.0, a)
    else picked)

-- GeoAssets
unfoldable pub geo_assets : Release → Asset × Asset × Bool
unfolding pick_geo
geo_assets r =
    let picked = pick_geo r.assets (no_asset, no_asset) in
    (picked.0, picked.1, not (str_eq picked.0.url "") && not (str_eq picked.1.url ""))

pub data ChecksumError : Type 0 where
  no_line no_field not_sha256 : ChecksumError

abbrev pub is_hex : ℕ → Bool
is_hex c = (leb b'0' c && leb c b'9') || (leb b'a' c && leb c b'f') || (leb b'A' c && leb c b'F')

-- sha256Hex: hex.DecodeString takes pairs of hex digits, and the sum has 32 bytes
unfoldable pub sha256_hex : Runes → Outcome ChecksumError Runes
sha256_hex h = if all is_hex h && (length h == 64) then ok h else fail not_sha256

-- a line behind its label
unfoldable pub dgst_sum : Runes → Option Runes
dgst_sum line = elim (cut_prefix (codes "SHA2-256=") (trim_space line)) [
  | none ↦ none
  | some r ↦ if not (runes_eq (trim_space r) []) then some (trim_space r) else none
]

unfoldable pub dgst_lines : List Runes → Outcome ChecksumError Runes
unfolding sha256_hex dgst_sum
dgst_lines [] = fail no_line
dgst_lines (line ∷ lines) =
    let rest = dgst_lines lines in elim (dgst_sum line) [ none ↦ rest | some h ↦ sha256_hex h ]

-- parseDgst
unfoldable pub parse_dgst : Runes → Outcome ChecksumError Runes
unfolding dgst_lines
parse_dgst body = dgst_lines (split_runes b'\n' body)

abbrev until_space : Runes → Runes
until_space [] = []
until_space (c ∷ s) = let rest = until_space s in if is_space c then [] else c ∷ rest

-- the first of strings.Fields
unfoldable pub first_field : Runes → Option Runes
first_field [] = none
first_field (c ∷ s) =
    let rest = first_field s in if is_space c then rest else some (c ∷ until_space s)

-- parseSha256Sum
unfoldable pub parse_sha256_sum : Runes → Outcome ChecksumError Runes
unfolding first_field sha256_hex
parse_sha256_sum body = elim (first_field body) [ none ↦ fail no_field | some h ↦ sha256_hex h ]
