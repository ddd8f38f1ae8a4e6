-- ===== src/Updater/Picks.antt =====
-- What internal/updater/updater.go picks: releases, assets, checksums and cached answers.
use xray_runner.Prelude.{
  ℕ, ◌+◌, ◌-◌, ◌≤◌, ◌<◌, ◌≡◌, ◌⊎◌, inl, inr, true, false, Option, none, some, String, List, [], ◌∷◌,
  ◌++◌, length, ltb, all, All, str_eq, Runes, arith, Option-cases, Bool-cases, refl, split_runes,
  eq_iff, ap,
}
use xray_runner.Prelude.Outcome.{Outcome, fail, ok}
use xray_runner.Updater.Releases.{
  Asset, Release, cached, cache_ttl, to_first_stable, trim_to_latest_stable, pick_geo, geo_assets,
  is_hex, sha256_hex, dgst_sum, dgst_lines, parse_dgst, first_field, parse_sha256_sum, no_asset,
}

abbrev pub IsUpToStable : List Release → List Release → Type 0
IsUpToStable rels picked =
    (newer : List Release) × (stable : Release) × (older : List Release) × (rels
      ≡ newer ++ (stable ∷ older))
    × (all (λ r. r.prerelease) newer ≡ true)
    × (stable.prerelease ≡ false)
    × (picked ≡ newer ++ (stable ∷ []))

to_first_stable-cases :
    (rels : List Release)
    → ((to_first_stable rels ≡ none) × (all (λ r. r.prerelease) rels ≡ true))
      ⊎ ((picked : List Release) × (to_first_stable rels ≡ some picked) × IsUpToStable rels picked)
unfolding to_first_stable
to_first_stable-cases [] = inl (refl, refl)
to_first_stable-cases (r ∷ rels) = elim (Bool-cases r.prerelease) [
  | inr s ↦ inr (r ∷ [], ground arith, ([], r, rels, refl, refl, s, refl))
  | inl p ↦ elim (to_first_stable-cases rels) [
    | inl (eq, every) ↦ inl (ground arith, ground arith)
    | inr (picked, eq, (newer, stable, older, split, pre, s, same)) ↦ inr (
      r ∷ picked,
      ground arith,
      (r ∷ newer, stable, older, ap (◌∷◌ r) split, ground arith, s, ap (◌∷◌ r) same),
    )
  ]
]

-- TrimToLatestStable gives the releases up to and with the first stable one, or all of them when
-- none is stable.
pub trim_to_latest_stable_lem :
    (rels : List Release)
    → ((trim_to_latest_stable rels ≡ rels) × (all (λ r. r.prerelease) rels ≡ true))
      ⊎ IsUpToStable rels (trim_to_latest_stable rels)
unfolding trim_to_latest_stable
trim_to_latest_stable_lem rels = elim (to_first_stable-cases rels) [
  | inl (eq, every) ↦ inl (rw (trim_to_latest_stable, eq) refl, every)
  | inr (picked, eq, up) ↦ inr (rw (trim_to_latest_stable, eq) up)
]

abbrev pub IsSum : Runes → Type 0
IsSum h = (length h ≡ 64) × (all is_hex h ≡ true)

sha256_hex-IsSum : (s h : Runes) → sha256_hex s ≡ ok h → IsSum h
unfolding sha256_hex
sha256_hex-IsSum s h e = ground arith

dgst_lines-IsSum : (lines : List Runes) (h : Runes) → dgst_lines lines ≡ ok h → IsSum h
unfolding dgst_lines
dgst_lines-IsSum [] h e = absurd (cc)
dgst_lines-IsSum (line ∷ lines) h e = elim (Option-cases (dgst_sum line)) [
  | inl q ↦ dgst_lines-IsSum lines h (rw (dgst_lines, q) at e)
  | inr (s, q) ↦ sha256_hex-IsSum s h (rw (dgst_lines, q) at e)
]

first_field-IsSum : (body h : Runes) → parse_sha256_sum body ≡ ok h → IsSum h
unfolding parse_sha256_sum
first_field-IsSum body h e = elim (Option-cases (first_field body)) [
  | inl q ↦ absurd (ground arith)
  | inr (f, q) ↦ sha256_hex-IsSum f h (ground arith)
]

-- A checksum that either of the two kinds of files gives is 64 hex digits.
pub checksum-IsSum :
    (body h : Runes) → (parse_dgst body ≡ ok h) ⊎ (parse_sha256_sum body ≡ ok h) → IsSum h
unfolding parse_dgst
checksum-IsSum body h (inl e) = dgst_lines-IsSum (split_runes b'\n' body) h e
checksum-IsSum body h (inr e) = first_field-IsSum body h e

-- an asset of the release
abbrev pub IsAmong : Asset → List Asset → Type 0
IsAmong a [] = ⊥
IsAmong a (b ∷ assets) = (a ≡ b) ⊎ IsAmong a assets

IsAmong-more :
    (b : Asset) (assets more : List Asset)
    → All (λ a. IsAmong a assets) more
    → All (λ a. IsAmong a (b ∷ assets)) more
IsAmong-more b assets [] h = tt
IsAmong-more b assets (a ∷ more) (h, hs) = (inr h, IsAmong-more b assets more hs)

All-IsAmong : (assets : List Asset) → All (λ a. IsAmong a assets) assets
All-IsAmong [] = tt
All-IsAmong (a ∷ assets) = (inl refl, IsAmong-more a assets assets (All-IsAmong assets))

-- nothing picked, or an asset of that name
abbrev IsPicked : String → List Asset → Asset → Type 0
IsPicked name from a = (a ≡ no_asset) ⊎ ((a.name ≡ name) × IsAmong a from)

pick_geo-IsPicked :
    (from assets : List Asset) (picked : Asset × Asset)
    → All (λ a. IsAmong a from) assets
    → IsPicked "geoip.dat" from picked.0
    → IsPicked "geosite.dat" from picked.1
    → IsPicked "geoip.dat" from (pick_geo assets picked).0
      × IsPicked "geosite.dat" from (pick_geo assets picked).1
unfolding pick_geo
pick_geo-IsPicked from [] picked h p q = (p, q)
pick_geo-IsPicked from (a ∷ assets) picked (h, hs) p q =
    elim (Bool-cases (str_eq a.name "geoip.dat")) [
      | inl ip ↦
          rw (pick_geo, ip)
            (pick_geo-IsPicked from assets (a, picked.1) hs
              (inr (ground (arith, eq_iff a.name "geoip.dat"), h)) q)
      | inr ip ↦ elim (Bool-cases (str_eq a.name "geosite.dat")) [
        | inl site ↦
            rw (pick_geo, ip, site)
              (pick_geo-IsPicked from assets (picked.0, a) hs p
                (inr (ground (arith, eq_iff a.name "geosite.dat"), h)))
        | inr site ↦ rw (pick_geo, ip, site) (pick_geo-IsPicked from assets picked hs p q)
      ]
    ]

picked_with_url :
    (name : String) (from : List Asset) (a : Asset)
    → IsPicked name from a
    → str_eq a.url "" ≡ false
    → (a.name ≡ name) × IsAmong a from
picked_with_url name from a (inl e) u = absurd (ground (arith, ap (λ x. str_eq x.url "") e))
picked_with_url name from a (inr h) u = h

-- When GeoAssets reports success, the two assets are the release's own, under the names of the
-- two databases.
pub geo_assets_lem :
    (r : Release)
    → (geo_assets r).2 ≡ true
    → ((geo_assets r).0.name ≡ "geoip.dat")
      × IsAmong (geo_assets r).0 r.assets
      × ((geo_assets r).1.name ≡ "geosite.dat")
      × IsAmong (geo_assets r).1 r.assets
unfolding geo_assets
geo_assets_lem r h =
    let picked = pick_geo r.assets (no_asset, no_asset) in
    let (ip, site) =
      pick_geo-IsPicked r.assets r.assets (no_asset, no_asset) (All-IsAmong r.assets) (inl refl)
        (inl refl) in
    let (ip_name, ip_from) = picked_with_url "geoip.dat" r.assets picked.0 ip (ground arith) in
    let (site_name, site_from) =
      picked_with_url "geosite.dat" r.assets picked.1 site (ground arith) in
    (ip_name, ip_from, site_name, site_from)

module _ {ℓ κ} {A : Type ℓ} {E : Type κ} where
  -- An answer that a call fetched, at `later`, is what every call gets in the next ten minutes,
  -- with no fetch of its own; a failed fetch leaves the slot as it was.
  pub cached_lem :
      (slot : Option (A × ℕ)) (now later now_2 later_2 : ℕ) (v : A) (e : E) (fetch : Outcome E A)
      → (cached {E = E} slot now later (ok v)).2 ≡ true
      → later ≤ now_2
      → now_2 < later + cache_ttl
      → (cached (cached {E = E} slot now later (ok v)).1 now_2 later_2 fetch
          ≡ (ok v, some (v, later), false))
        × ((cached slot now later (fail e)).1 ≡ slot)
  unfolding cached
  cached_lem none now later now_2 later_2 v e fetch f h k = (ground arith, refl)
  cached_lem (some (w, t)) now later now_2 later_2 v e fetch f h k =
      elim (Bool-cases (ltb (now - t) cache_ttl)) [
        | inl young ↦ absurd (ground arith)
        | inr old ↦ (rw old (ground arith), rw old refl)
      ]
