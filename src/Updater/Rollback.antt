-- ===== src/Updater/Rollback.antt =====
-- What rollback of internal/updater/updater.go puts back, if none of its steps fails.
use xray_runner.Prelude.{
  ℕ, ◌<◌, ◌≡◌, ◌≢◌, inl, inr, Bool, true, false, Option, none, some, String, List, [], ◌∷◌, ◌++◌,
  all, any, All, str_eq, if◌then◌else◌, arith, refl, eq_iff, Option-cases,
}
use xray_runner.Updater.Install.{database, aside, Dir, InstallError, Installed, put_back, rollback}
use xray_runner.Updater.Restores.{rename_lem, remove_lem, Backed, is_settled, files-name_eq}

-- put_back on a database, if nothing fails
abbrev PutBack : Installed → String → Option ℕ → Dir → List InstallError → Dir → Type 0
PutBack i m contents d [] d2 =
    d2.files (database m) ≡ (if str_eq m i.dst then contents else d.files (database m))
PutBack i m contents d (e ∷ errs) d2 = all is_settled (e ∷ errs) ≡ false

put_back_lem :
    (i : Installed) (m : String) (contents : Option ℕ) (d : Dir)
    → Backed i.backup contents d
    → PutBack i m contents d (put_back i d).0 (put_back i d).1
unfolding put_back
put_back_lem i m contents d b = elim (Option-cases i.backup) [
  | inl q ↦
      ground (arith, files-name_eq (database m) i.dst d, remove_lem (database i.dst) (database m) d)
  | inr (k, q) ↦ ground (arith, rename_lem (aside k) (database i.dst) (database m) d)
]

put_back-Backed :
    (i : Installed) (backup contents : Option ℕ) (d : Dir)
    → ((k : ℕ) → i.backup ≡ some k → backup ≢ some k)
    → Backed backup contents d
    → Backed backup contents (put_back i d).1
unfolding put_back
put_back-Backed i none contents d h b = b
put_back-Backed i (some j) contents d h b = elim (Option-cases i.backup) [
  | inl q ↦ ground (arith, remove_lem (database i.dst) (aside j) d)
  | inr (k, q) ↦ ground (arith, h k q, rename_lem (aside k) (database i.dst) (aside j) d)
]

put_back-settled :
    (i : Installed) (d : Dir) → all is_settled (put_back i d).0 ≡ true → (put_back i d).0 ≡ []
unfolding put_back
put_back-settled i d h = ground arith

abbrev pub AllBacked : Dir → Dir → List Installed → Type 0
AllBacked o d done = All (λ i. Backed i.backup (o.files (database i.dst)) d) done

-- a later one's file was moved to a later place
abbrev pub IsAbove : Option ℕ → Option ℕ → Type 0
IsAbove (some n) (some k) = n < k
IsAbove _ _ = Unit

abbrev pub Ordered : List Installed → Type 0
Ordered [] = Unit
Ordered (i ∷ done) = All (λ j. IsAbove i.backup j.backup) done × Ordered done

abbrev pub is_among : String → List Installed → Bool
is_among name done = any (λ i. str_eq name i.dst) done

put_back-AllBacked :
    (i : Installed) (o d : Dir) (done : List Installed)
    → All (λ j. IsAbove i.backup j.backup) done
    → AllBacked o d done
    → AllBacked o (put_back i d).1 done
put_back-AllBacked i o d [] a b = tt
put_back-AllBacked i o d (j ∷ done) (a, above) (b, backed) = (
  put_back-Backed i j.backup (o.files (database j.dst)) d
      (λ k q r. absurd (ground (arith, rw (q, r) at a))) b,
  put_back-AllBacked i o d done above backed,
)

pub append-settled :
    (xs ys : List InstallError)
    → all is_settled (xs ++ ys) ≡ true
    → (all is_settled xs ≡ true) × (all is_settled ys ≡ true)
append-settled [] ys h = (refl, h)
append-settled (x ∷ xs) ys h = ground (arith, append-settled xs ys)

pub append-nil : (xs ys : List InstallError) → xs ++ ys ≡ [] → (xs ≡ []) × (ys ≡ [])
append-nil [] ys h = (refl, h)
append-nil (x ∷ xs) ys h = absurd (cc)

pub rollback-settled :
    (done : List Installed) (d : Dir)
    → all is_settled (rollback done d).0 ≡ true
    → (rollback done d).0 ≡ []
unfolding rollback
rollback-settled [] d h = refl
rollback-settled (i ∷ done) d h =
    let (s, r) = append-settled (put_back i d).0 (rollback done (put_back i d).1).0 h in
    rw (put_back-settled i d s) (rollback-settled done (put_back i d).1 r)

pub rollback_lem :
    (o d : Dir) (done : List Installed) (m : String)
    → AllBacked o d done
    → Ordered done
    → (rollback done d).0 ≡ []
    → (rollback done d).1.files (database m)
      ≡ (if is_among m done then o.files (database m) else d.files (database m))
unfolding rollback
rollback_lem o d [] m b r h = refl
rollback_lem o d (i ∷ done) m (b, backed) (above, r) h =
    let d1 = (put_back i d).1 in
    let (e, es) = append-nil (put_back i d).0 (rollback done d1).0 h in
    let rest = rollback_lem o d1 done m (put_back-AllBacked i o d done above backed) r es in
    ground (
      arith,
      eq_iff m i.dst,
      files-name_eq (database m) i.dst o,
      rw e at (put_back_lem i m (o.files (database i.dst)) d b),
    )
