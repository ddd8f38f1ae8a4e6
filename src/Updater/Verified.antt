-- ===== src/Updater/Verified.antt =====
-- Which databases internal/updater/updater.go installs.
use xray_runner.Prelude.{
  ℕ, ◌≡◌, ◌⊎◌, inl, inr, Bool, true, String, Option, all, none, some, List, [], ◌∷◌, Runes, arith,
  refl, Option-cases, Bool-cases, eq_iff, ◌∙◌, ap, sym,
}
use xray_runner.Xraycfg.Config.{equal_fold}
use xray_runner.Updater.Install.{database, staged, Dir, InstallError, put, commit_all}
use xray_runner.Updater.Restores.{is_settled}
use xray_runner.Updater.Undo.{AreDifferent, failure_restores}
use xray_runner.Updater.Success.{success_installs}
use xray_runner.Updater.Geo.{
  GeoFailure, not_committed, published, unpublished, Fetched, geo_pair, right_names, check_sum,
  stage_one, install_geo,
}

errors-cases :
    (errs : List InstallError)
    → (errs ≡ []) ⊎ ((e : InstallError) × (es : List InstallError) × (errs ≡ e ∷ es))
errors-cases [] = inl refl
errors-cases (e ∷ es) = inr (e, es, refl)

geoip-name : (geoip geosite : Fetched) → right_names geoip geosite ≡ true → geoip.name ≡ "geoip.dat"
geoip-name geoip geosite h = ground (arith, eq_iff geoip.name "geoip.dat")

geosite-name :
    (geoip geosite : Fetched) → right_names geoip geosite ≡ true → geosite.name ≡ "geosite.dat"
geosite-name geoip geosite h = ground (arith, eq_iff geosite.name "geosite.dat")

pair_different :
    (geoip geosite : Fetched)
    → right_names geoip geosite ≡ true
    → AreDifferent (geo_pair geoip geosite)
pair_different geoip geosite n =
    rw (geoip-name geoip geosite n, geosite-name geoip geosite n) ((refl, tt), (tt, tt))

pair_in :
    (geoip geosite : Fetched) (d : Dir)
    → right_names geoip geosite ≡ true
    → (commit_all (geo_pair geoip geosite) d).0 ≡ []
    → ((commit_all (geo_pair geoip geosite) d).1.files (database "geoip.dat") ≡ d.files (staged 0))
      × ((commit_all (geo_pair geoip geosite) d).1.files (database "geosite.dat")
          ≡ d.files (staged 1))
pair_in geoip geosite d n h =
    let ip = geoip-name geoip geosite n in
    let site = geosite-name geoip geosite n in
    let (both, other) =
      success_installs d (geo_pair geoip geosite) "" (rw (ip, site) ((refl, tt), (tt, tt)))
        ((refl, tt), (tt, tt)) (rw (ip, site) (refl, (refl, tt))) h in
    (
      ap (λ n. (commit_all (geo_pair geoip geosite) d).1.files (database n)) (sym ip) ∙ both.0,
      ap (λ n. (commit_all (geo_pair geoip geosite) d).1.files (database n)) (sym site) ∙ both.1.0,
    )

module _ (fold : ℕ → ℕ) (digest : ℕ → Runes) where
  -- the sum that its source publishes, or none where that is allowed
  abbrev pub IsVerified : Bool → Fetched → Type 0
  IsVerified allow a = elim a.checksum [
    | published want ↦ equal_fold fold (digest a.content) want ≡ true
    | unpublished ↦ allow ≡ true
    | _ ↦ ⊥
  ]

  check_sum-IsVerified :
      (allow : Bool) (a : Fetched) → check_sum fold digest allow a ≡ none → IsVerified allow a
  unfolding check_sum
  check_sum-IsVerified allow a h = ground arith

  stage_one_lem :
      (allow : Bool) (k : ℕ) (a : Fetched) (d : Dir)
      → (stage_one fold digest allow k a d).0 ≡ none
      → IsVerified allow a
        × ((stage_one fold digest allow k a d).1
            ≡ record d { files = put (staged k) (some a.content) d.files })
  unfolding stage_one check_sum put
  stage_one_lem allow k a d h = elim (Bool-cases a.download_fails) [
    | inl f ↦ absurd (ground arith)
    | inr f ↦ elim (Option-cases (check_sum fold digest allow a)) [
      | inr (e, q) ↦ absurd (ground arith)
      | inl q ↦ elim (Bool-cases a.seal_fails) [
        | inl s ↦ absurd (ground arith)
        | inr s ↦ (check_sum-IsVerified allow a q, rw (stage_one, f, q, s) refl)
      ]
    ]
  ]

  stages_lem :
      (allow : Bool) (geoip geosite : Fetched) (d : Dir)
      → (stage_one fold digest allow 0 geoip d).0 ≡ none
      → (stage_one fold digest allow 1 geosite (stage_one fold digest allow 0 geoip d).1).0 ≡ none
      → IsVerified allow geoip
        × IsVerified allow geosite
        × ((stage_one fold digest allow 1 geosite (stage_one fold digest allow 0 geoip d).1).1.files
              (staged 0)
            ≡ some geoip.content)
        × ((stage_one fold digest allow 1 geosite (stage_one fold digest allow 0 geoip d).1).1.files
              (staged 1)
            ≡ some geosite.content)
  unfolding put
  stages_lem allow geoip geosite d p q =
      let (v, e) = stage_one_lem allow 0 geoip d p in
      let (w, f) = stage_one_lem allow 1 geosite (stage_one fold digest allow 0 geoip d).1 q in
      (
        v,
        w,
        ap (λ (x : Dir). x.files (staged 0)) f ∙ ap (λ (x : Dir). x.files (staged 0)) e,
        ap (λ (x : Dir). x.files (staged 1)) f,
      )

  install_geo_success :
      (allow : Bool) (geoip geosite : Fetched) (d : Dir)
      → (install_geo fold digest allow geoip geosite d).0 ≡ none
      → IsVerified allow geoip
        × IsVerified allow geosite
        × ((install_geo fold digest allow geoip geosite d).1.files (database "geoip.dat")
            ≡ some geoip.content)
        × ((install_geo fold digest allow geoip geosite d).1.files (database "geosite.dat")
            ≡ some geosite.content)
  unfolding install_geo
  install_geo_success allow geoip geosite d h =
      let d1 = (stage_one fold digest allow 0 geoip d).1 in
      let d2 = (stage_one fold digest allow 1 geosite d1).1 in
      elim (Bool-cases (right_names geoip geosite)) [
        | inr n ↦ absurd (ground arith)
        | inl n ↦ elim (Option-cases (stage_one fold digest allow 0 geoip d).0) [
          | inr (e, q) ↦ absurd (ground arith)
          | inl q ↦ elim (Option-cases (stage_one fold digest allow 1 geosite d1).0) [
            | inr (e, r) ↦ absurd (ground arith)
            | inl r ↦ elim (errors-cases (commit_all (geo_pair geoip geosite) d2).0) [
              | inr (e, es, c) ↦ absurd (ground arith)
              | inl c ↦
                  let (v, w, ip, site) = stages_lem allow geoip geosite d q r in
                  let (ip_in, site_in) = pair_in geoip geosite d2 n c in
                  (
                    v,
                    w,
                    rw (install_geo, n, q, r, c) (ip_in ∙ ip),
                    rw (install_geo, n, q, r, c) (site_in ∙ site),
                  )
            ]
          ]
        ]
      ]

  -- staging and the removal of the temps leave the databases alone
  stage_one_keeps :
      (allow : Bool) (k : ℕ) (a : Fetched) (d : Dir) (m : String)
      → (stage_one fold digest allow k a d).1.files (database m) ≡ d.files (database m)
  unfolding stage_one put
  stage_one_keeps allow k a d m = ground arith

  -- every error of a commit is of a file that was put back or removed again
  abbrev pub is_clean : Option GeoFailure → Bool
  is_clean (some (not_committed errs)) = all is_settled errs
  is_clean _ = true

  install_geo_failure :
      (allow : Bool) (geoip geosite : Fetched) (d : Dir) (m : String) (e : GeoFailure)
      → is_clean (install_geo fold digest allow geoip geosite d).0 ≡ true
      → (install_geo fold digest allow geoip geosite d).0 ≡ some e
      → (install_geo fold digest allow geoip geosite d).1.files (database m) ≡ d.files (database m)
  unfolding install_geo put
  install_geo_failure allow geoip geosite d m e s h =
      let d1 = (stage_one fold digest allow 0 geoip d).1 in
      let d2 = (stage_one fold digest allow 1 geosite d1).1 in
      let first = stage_one_keeps allow 0 geoip d m in
      let second = stage_one_keeps allow 1 geosite d1 m in
      elim (Bool-cases (right_names geoip geosite)) [
        | inr n ↦ rw (install_geo, n) refl
        | inl n ↦ elim (Option-cases (stage_one fold digest allow 0 geoip d).0) [
          | inr (e, q) ↦ rw (install_geo, n, q) first
          | inl q ↦ elim (Option-cases (stage_one fold digest allow 1 geosite d1).0) [
            | inr (e, r) ↦ rw (install_geo, n, q, r) (second ∙ first)
            | inl r ↦ elim (errors-cases (commit_all (geo_pair geoip geosite) d2).0) [
              | inl c ↦ absurd (ground (arith, rw (install_geo, n, q, r, c) at h))
              | inr (e, es, c) ↦
                  let settled = rw (install_geo, n, q, r, c) at s in
                  rw (install_geo, n, q, r, c)
                    (failure_restores d2 (geo_pair geoip geosite) m (pair_different geoip geosite n)
                        (λ none. absurd (cc (none, c))) (rw c settled)
                      ∙ second
                      ∙ first)
            ]
          ]
        ]
      ]

  -- what an installation has left behind, by its error
  abbrev pub GeoLeft : Bool → Fetched → Fetched → Dir → Dir → String → Option GeoFailure → Type 0
  GeoLeft allow geoip geosite before after m none =
      IsVerified allow geoip
      × IsVerified allow geosite
      × (after.files (database "geoip.dat") ≡ some geoip.content)
      × (after.files (database "geosite.dat") ≡ some geosite.content)
  GeoLeft allow geoip geosite before after m (some _) =
      after.files (database m) ≡ before.files (database m)

  -- If installGeo reports no error, both databases are in under their two names, each as it was
  -- downloaded, and each has the checksum that its source publishes, or has none where that is
  -- allowed, as it is for a panel's. If it reports an error, whichever call failed, every database is
  -- as it was before, unless the error is one of a commit and names a file that could not be put
  -- back or removed.
  pub install_geo-IsVerified :
      (allow : Bool) (geoip geosite : Fetched) (d : Dir) (m : String)
      → is_clean (install_geo fold digest allow geoip geosite d).0 ≡ true
      → GeoLeft allow geoip geosite d
          (install_geo fold digest allow geoip geosite d).1
          m
          (install_geo fold digest allow geoip geosite d).0
  install_geo-IsVerified allow geoip geosite d m s =
      elim (Option-cases (install_geo fold digest allow geoip geosite d).0) [
        | inl q ↦ rw q (install_geo_success allow geoip geosite d q)
        | inr (e, q) ↦ rw q (install_geo_failure allow geoip geosite d m e s q)
      ]
