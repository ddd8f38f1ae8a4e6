-- ===== src/Updater/Platforms.antt =====
-- Which core internal/updater/updater.go takes from a release.
use xray_runner.Prelude.{
  ◌≡◌, inl, inr, false, Option, none, some, String, List, [], ◌∷◌, str_eq, eq_iff, arith, refl, All,
  Bool-cases,
}
use xray_runner.Updater.Releases.{Asset, Release, core_asset_name, find_asset, core_asset}
use xray_runner.Updater.Picks.{IsAmong}

-- a search by name
abbrev pub Found : String → List Asset → Option Asset → Type 0
Found want assets none = All (λ a. str_eq a.name want ≡ false) assets
Found want assets (some a) = (a.name ≡ want) × IsAmong a assets

Found-later :
    (want : String) (b : Asset) (assets : List Asset) (o : Option Asset)
    → str_eq b.name want ≡ false
    → Found want assets o
    → Found want (b ∷ assets) o
Found-later want b assets none n f = (n, f)
Found-later want b assets (some a) n (e, f) = (e, inr f)

find_asset-Found :
    (want : String) (assets : List Asset) → Found want assets (find_asset want assets)
unfolding find_asset
find_asset-Found want [] = tt
find_asset-Found want (b ∷ assets) = elim (Bool-cases (str_eq b.name want)) [
  | inl q ↦ rw (find_asset, q) (ground (arith, q, eq_iff b.name want), inl refl)
  | inr q ↦
      rw (find_asset, q)
        (Found-later want b assets (find_asset want assets) q (find_asset-Found want assets))
]

-- On a platform that has a core, CoreAsset gives an asset of the release under the name that the
-- platform's core has, or nothing if no asset has that name.
pub core_asset-Found :
    (goos goarch : String) (r : Release)
    → str_eq (core_asset_name goos goarch) "" ≡ false
    → Found (core_asset_name goos goarch) r.assets (core_asset goos goarch r)
unfolding core_asset
core_asset-Found goos goarch r h =
    rw (core_asset, h) (find_asset-Found (core_asset_name goos goarch) r.assets)
