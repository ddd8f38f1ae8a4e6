-- ===== src/Updater/Undo.antt =====
-- A failed install of databases puts them back (internal/updater/updater.go, commitAll).
use xray_runner.Prelude.{
  ℕ, ◌≡◌, ◌≢◌, inl, inr, true, false, ◌||◌, String, List, [], ◌∷◌, ◌++◌, all, All, All-append,
  str_eq, arith, refl, sym, ◌∙◌, Option-cases, ap, subst,
}
use xray_runner.Prelude.Outcome.{Outcome, fail, ok}
use xray_runner.Updater.Install.{
  FileName, database, aside, Dir, InstallError, Installed, commit, rollback, commit_rest,
  commit_all,
}
use xray_runner.Updater.Restores.{commit_lem, Backed, IsOld, Committed, is_settled}
use xray_runner.Updater.Rollback.{
  AllBacked, Ordered, is_among, IsAbove, rollback_lem, rollback-settled, append-settled,
}

-- where the loop of commitAll stands, from the directory `o` it found
abbrev Progress : Dir → Dir → List Installed → Type 0
Progress o d done =
    AllBacked o d done
    × Ordered done
    × ((m : String) → is_among m done ≡ false → d.files (database m) ≡ o.files (database m))

-- what a commit left
abbrev pub LeftBy : String × ℕ → Dir → Outcome (List InstallError) Installed → Dir → Type 0
LeftBy a d result d2 = (n : FileName) → IsOld n d.fresh → Committed a.1 a.0 n d result d2

failed-AllBacked :
    (o d d2 : Dir) (a : String × ℕ) (errs : List InstallError) (done : List Installed)
    → all is_settled errs ≡ true
    → LeftBy a d (fail errs) d2
    → AllBacked o d done
    → AllBacked o d2 done
failed-AllBacked o d d2 a errs [] s left b = tt
failed-AllBacked o d d2 a errs (i ∷ done) s left (b, backed) = (
  elim (Option-cases i.backup) [
    | inl q ↦ ground arith
    | inr (k, q) ↦ ground (arith, left (aside k))
  ],
  failed-AllBacked o d d2 a errs done s left backed,
)

entered-AllBacked :
    (o d d2 : Dir) (a : String × ℕ) (new : Installed) (done : List Installed)
    → LeftBy a d (ok new) d2
    → AllBacked o d done
    → AllBacked o d2 done
entered-AllBacked o d d2 a new [] left b = tt
entered-AllBacked o d d2 a new (i ∷ done) left (b, backed) = (
  elim (Option-cases i.backup) [
    | inl q ↦ ground arith
    | inr (k, q) ↦ ground (arith, left (aside k))
  ],
  entered-AllBacked o d d2 a new done left backed,
)

entered-Ordered :
    (o d d2 : Dir) (a : String × ℕ) (new : Installed) (done : List Installed)
    → LeftBy a d (ok new) d2
    → AllBacked o d done
    → Ordered done
    → Ordered (done ++ (new ∷ []))
entered-Ordered o d d2 a new [] left b r = (tt, tt)
entered-Ordered o d d2 a new (i ∷ done) left (b, backed) (above, r) =
    let (fr, dst, eq, bk, low) = left (database a.0) tt in
    (
      All-append (λ j. IsAbove i.backup j.backup) done (new ∷ []) above
          (
            elim (Option-cases i.backup) [
              | inl q ↦ rw q tt
              | inr (n, q) ↦ elim (Option-cases new.backup) [
                | inl p ↦ rw (q, p) tt
                | inr (k, p) ↦ rw (q, p) (ground (arith, low k p))
              ]
            ],
            tt,
          ),
      entered-Ordered o d d2 a new done left backed r,
    )

is_among-append :
    (m : String) (done : List Installed) (i : Installed)
    → is_among m (done ++ (i ∷ [])) ≡ (is_among m done || str_eq m i.dst)
is_among-append m [] i = ground arith
is_among-append m (j ∷ done) i = ground (arith, is_among-append m done i)

entered-Progress :
    (o d d2 : Dir) (a : String × ℕ) (new : Installed) (done : List Installed)
    → is_among a.0 done ≡ false
    → LeftBy a d (ok new) d2
    → Progress o d done
    → Progress o d2 (done ++ (new ∷ []))
entered-Progress o d d2 a new done apart left (b, r, same) =
    let (fr, dst, eq, bk, low) = left (database a.0) tt in
    (
      All-append (λ i. Backed i.backup (o.files (database i.dst)) d2) done (new ∷ [])
          (entered-AllBacked o d d2 a new done left b)
          (
            subst (λ x. Backed new.backup x d2)
                (same a.0 apart ∙ sym (ap (λ x. o.files (database x)) dst)) bk,
            tt,
          ),
      entered-Ordered o d d2 a new done left b r,
      λ m h. ground (arith, is_among-append m done new, left (database m) tt, same m),
    )

-- each database is installed once
abbrev pub AreDifferent : List (String × ℕ) → Type 0
AreDifferent [] = Unit
AreDifferent (a ∷ assets) = All (λ b. str_eq b.0 a.0 ≡ false) assets × AreDifferent assets

still_apart :
    (new : Installed) (a : String × ℕ) (done : List Installed) (assets : List (String × ℕ))
    → new.dst ≡ a.0
    → All (λ b. is_among b.0 done ≡ false) assets
    → All (λ b. str_eq b.0 a.0 ≡ false) assets
    → All (λ b. is_among b.0 (done ++ (new ∷ [])) ≡ false) assets
still_apart new a done [] e h k = tt
still_apart new a done (b ∷ assets) e (h, hs) (k, ks) =
    (rw (is_among-append b.0 done new, e) (ground arith), still_apart new a done assets e hs ks)

All-apart : (assets : List (String × ℕ)) → All (λ b. is_among b.0 [] ≡ false) assets
All-apart [] = tt
All-apart (a ∷ assets) = (refl, All-apart assets)

-- the databases are as they were, unless an error says where one was left
abbrev Restored : String → Dir → List InstallError × Dir → Type 0
Restored m o r =
    r.0 ≢ [] → all is_settled r.0 ≡ true → r.1.files (database m) ≡ o.files (database m)

after_failure :
    (o d d2 : Dir) (a : String × ℕ) (errs : List InstallError) (done : List Installed) (m : String)
    → LeftBy a d (fail errs) d2
    → Progress o d done
    → Restored m o (errs ++ (rollback done d2).0, (rollback done d2).1)
after_failure o d d2 a errs done m left (b, r, same) some_error settled =
    let (s, t) = append-settled errs (rollback done d2).0 settled in
    ground (
      arith,
      rollback_lem o d2 done m (failed-AllBacked o d d2 a errs done s left b) r
          (rollback-settled done d2 t),
      left (database m) tt,
      same m,
    )

after_commit :
    (o d : Dir) (a : String × ℕ) (assets : List (String × ℕ)) (done : List Installed) (m : String)
    (result : Outcome (List InstallError) Installed)
    → (commit a.1 a.0 d).0 ≡ result
    → LeftBy a d result (commit a.1 a.0 d).1
    → Progress o d done
    → is_among a.0 done ≡ false
    → ((new : Installed)
        → LeftBy a d (ok new) (commit a.1 a.0 d).1
        → Restored m o (commit_rest (done ++ (new ∷ [])) assets (commit a.1 a.0 d).1))
    → Restored m o (commit_rest done (a ∷ assets) d)
unfolding commit_rest
after_commit o d a assets done m (fail errs) e left p apart next =
    rw (commit_rest, e) (after_failure o d (commit a.1 a.0 d).1 a errs done m left p)
after_commit o d a assets done m (ok new) e left p apart next = rw (commit_rest, e) (next new left)

commit_rest-Restored :
    (o d : Dir) (done : List Installed) (assets : List (String × ℕ)) (m : String)
    → Progress o d done
    → All (λ b. is_among b.0 done ≡ false) assets
    → AreDifferent assets
    → Restored m o (commit_rest done assets d)
unfolding commit_rest
commit_rest-Restored o d done [] m p apart differ = λ e s. absurd (e refl)
commit_rest-Restored o d done (a ∷ assets) m p (apart, aparts) (differ, differs) =
    after_commit o d a assets done m (commit a.1 a.0 d).0 refl (λ n old. commit_lem a.1 a.0 n d old)
      p apart
      (λ new left.
        commit_rest-Restored o (commit a.1 a.0 d).1 (done ++ (new ∷ [])) assets m
          (entered-Progress o d (commit a.1 a.0 d).1 a new done apart left p)
          (still_apart new a done assets (left (database a.0) tt).1 aparts differ) differs)

-- Whatever system calls fail: if commitAll on different databases returns an error, and none of
-- its errors is of a file that could not be put back or removed, every database holds what it
-- held before.
pub failure_restores :
    (d : Dir) (assets : List (String × ℕ)) (m : String)
    → AreDifferent assets
    → (commit_all assets d).0 ≢ []
    → all is_settled (commit_all assets d).0 ≡ true
    → (commit_all assets d).1.files (database m) ≡ d.files (database m)
unfolding commit_all
failure_restores d assets m differ e s =
    commit_rest-Restored d d [] assets m (tt, tt, λ n h. refl) (All-apart assets) differ e s
