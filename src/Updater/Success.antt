-- ===== src/Updater/Success.antt =====
-- A successful install of databases has put each in (internal/updater/updater.go, commitAll).
use xray_runner.Prelude.{
  ℕ, ◌≡◌, inl, inr, false, String, List, [], ◌∷◌, ◌++◌, ◌==◌, All, str_eq, str_eq_refl, str_eq_comm,
  arith, refl, ◌∙◌, Option-cases,
}
use xray_runner.Prelude.Outcome.{Outcome, fail, ok}
use xray_runner.Updater.Install.{
  database, staged, aside, Dir, InstallError, Installed, remove, commit, drop_backups, commit_rest,
  commit_all,
}
use xray_runner.Updater.Restores.{remove_lem, commit_lem}
use xray_runner.Updater.Rollback.{append-nil}
use xray_runner.Updater.Undo.{LeftBy, AreDifferent}

remove-other :
    (k : ℕ) (m : String) (d : Dir)
    → (remove (aside k) d).1.files (database m) ≡ d.files (database m)
remove-other k m d = ground (arith, remove_lem (aside k) (database m) d)

drop_backups_lem :
    (done : List Installed) (d : Dir) (m : String)
    → (drop_backups done d).files (database m) ≡ d.files (database m)
unfolding drop_backups
drop_backups_lem [] d m = refl
drop_backups_lem (i ∷ done) d m = elim (Option-cases i.backup) [
  | inl q ↦ rw (drop_backups, q) (drop_backups_lem done d m)
  | inr (k, q) ↦
      rw (drop_backups, q) (drop_backups_lem done (remove (aside k) d).1 m ∙ remove-other k m d)
]

-- the sealed temps are of different files
abbrev pub AreOwn : List (String × ℕ) → Type 0
AreOwn [] = Unit
AreOwn (a ∷ assets) = All (λ b. (b.1 == a.1) ≡ false) assets × AreOwn assets

-- what holds of a round of the loop that is followed by a success
abbrev Entered : Dir → String × ℕ → Dir → Type 0
Entered d a d2 =
    (d2.files (database a.0) ≡ d.files (staged a.1))
    × ((m : String) → str_eq m a.0 ≡ false → d2.files (database m) ≡ d.files (database m))
    × ((s : ℕ) → (s == a.1) ≡ false → d2.files (staged s) ≡ d.files (staged s))

entered : (d d2 : Dir) (a : String × ℕ) (new : Installed) → LeftBy a d (ok new) d2 → Entered d a d2
entered d d2 a new left = (
  ground (arith, left (database a.0) tt, str_eq_refl a.0),
  λ m h. ground (arith, left (database m) tt),
  λ s h. ground (arith, left (staged s) tt),
)

-- a round of the loop with the result of its commit
round :
    (d : Dir) (a : String × ℕ) (done : List Installed) (assets : List (String × ℕ))
    (holds : Dir → Type 0) (result : Outcome (List InstallError) Installed)
    → (commit a.1 a.0 d).0 ≡ result
    → LeftBy a d result (commit a.1 a.0 d).1
    → ((new : Installed)
        → Entered d a (commit a.1 a.0 d).1
        → (commit_rest (done ++ (new ∷ [])) assets (commit a.1 a.0 d).1).0 ≡ []
        → holds (commit_rest (done ++ (new ∷ [])) assets (commit a.1 a.0 d).1).1)
    → (commit_rest done (a ∷ assets) d).0 ≡ []
    → holds (commit_rest done (a ∷ assets) d).1
unfolding commit_rest
round d a done assets holds (fail errs) e left next h =
    absurd ((left (database a.0) tt).1 (append-nil errs _ (rw (commit_rest, e) at h)).0)
round d a done assets holds (ok new) e left next h =
    rw (commit_rest, e)
      (next new (entered d (commit a.1 a.0 d).1 a new left) (rw (commit_rest, e) at h))

commit_rest-apart :
    (d : Dir) (done : List Installed) (assets : List (String × ℕ)) (m : String)
    → All (λ b. str_eq m b.0 ≡ false) assets
    → (commit_rest done assets d).0 ≡ []
    → (commit_rest done assets d).1.files (database m) ≡ d.files (database m)
unfolding commit_rest
commit_rest-apart d done [] m p h = drop_backups_lem done d m
commit_rest-apart d done (a ∷ assets) m (p, ps) h =
    round d a done assets (λ r. r.files (database m) ≡ d.files (database m)) (commit a.1 a.0 d).0
      refl (λ n old. commit_lem a.1 a.0 n d old)
      (λ new (at_own, at_other, at_staged) k.
        commit_rest-apart (commit a.1 a.0 d).1 (done ++ (new ∷ [])) assets m ps k ∙ at_other m p)
      h

unmoved :
    (d d2 final : Dir) (a : String × ℕ) (assets : List (String × ℕ))
    → Entered d a d2
    → All (λ b. (b.1 == a.1) ≡ false) assets
    → All (λ b. final.files (database b.0) ≡ d2.files (staged b.1)) assets
    → All (λ b. final.files (database b.0) ≡ d.files (staged b.1)) assets
unmoved d d2 final a [] e p h = tt
unmoved d d2 final a (b ∷ assets) e (p, ps) (h, hs) =
    (h ∙ e.2 b.1 p, unmoved d d2 final a assets e ps hs)

flip :
    (a : String × ℕ) (assets : List (String × ℕ))
    → All (λ b. str_eq b.0 a.0 ≡ false) assets
    → All (λ b. str_eq a.0 b.0 ≡ false) assets
flip a [] h = tt
flip a (b ∷ assets) (h, hs) = (str_eq_comm a.0 b.0 ∙ h, flip a assets hs)

commit_rest-IsIn :
    (d : Dir) (done : List Installed) (assets : List (String × ℕ))
    → AreDifferent assets
    → AreOwn assets
    → (commit_rest done assets d).0 ≡ []
    → All (λ a. (commit_rest done assets d).1.files (database a.0) ≡ d.files (staged a.1)) assets
unfolding commit_rest
commit_rest-IsIn d done [] p q h = tt
commit_rest-IsIn d done (a ∷ assets) (p, ps) (q, qs) h =
    round d a done assets
      (λ r. All (λ b. r.files (database b.0) ≡ d.files (staged b.1)) (a ∷ assets))
      (commit a.1 a.0 d).0 refl (λ n old. commit_lem a.1 a.0 n d old)
      (λ new e k. (
        commit_rest-apart (commit a.1 a.0 d).1 (done ++ (new ∷ [])) assets a.0 (flip a assets p) k
            ∙ e.0,
        unmoved d (commit a.1 a.0 d).1
            (commit_rest (done ++ (new ∷ [])) assets (commit a.1 a.0 d).1).1 a assets e q
            (commit_rest-IsIn (commit a.1 a.0 d).1 (done ++ (new ∷ [])) assets ps qs k),
      ))
      h

-- If commitAll on different databases and different temps returns no error, each database holds
-- what its sealed temp held, and a database not among them what it held before.
pub success_installs :
    (d : Dir) (assets : List (String × ℕ)) (m : String)
    → AreDifferent assets
    → AreOwn assets
    → All (λ a. str_eq m a.0 ≡ false) assets
    → (commit_all assets d).0 ≡ []
    → All (λ a. (commit_all assets d).1.files (database a.0) ≡ d.files (staged a.1)) assets
      × ((commit_all assets d).1.files (database m) ≡ d.files (database m))
unfolding commit_all
success_installs d assets m p q k h =
    (commit_rest-IsIn d [] assets p q h, commit_rest-apart d [] assets m k h)
