-- ===== src/Updater/CoreInstall.antt =====
-- InstallCore of internal/updater/updater.go, on what the network and the archive give.
use xray_runner.Prelude.{
  ℕ, ◌≡◌, ◌∙◌, ◌⊎◌, inl, inr, Bool, true, not, Option, none, some, if◌then◌else◌, Runes, arith,
  refl, Option-cases,
}
use xray_runner.Prelude.Outcome.{Outcome, fail, ok}
use xray_runner.Xraycfg.Config.{equal_fold}
use xray_runner.Updater.Install.{database, staged, Dir, SystemError, put, rename}
use xray_runner.Updater.Restores.{rename_lem}

pub record CoreFetched : Type 0 where
  -- whether xrayPath ends in the core's own file name
  pub right_name : Bool
  pub download_fails : Bool
  -- the archive, and the sum of the .dgst file if it could be fetched and read
  pub archive : ℕ
  pub dgst : Option Runes
  pub stage_fails : Bool
  -- the binary in the archive
  pub binary : Option ℕ
  pub seal_fails : Bool

pub data CoreFailure : Type 0 where
  wrong_file no_download no_sum wrong_archive no_temp no_binary no_seal no_swap : CoreFailure

-- without the temps that are discarded at the end, whatever happens
abbrev without_temps : Dir → Dir
without_temps d = record d { files = put (staged 0) none (put (staged 1) none d.files) }

abbrev with_binary : ℕ → Dir → Dir
with_binary b d = record d { files = put (staged 1) (some b) d.files }

temps_apart : (d : Dir) → (without_temps d).files (database "xray") ≡ d.files (database "xray")
unfolding put
temps_apart d = refl

Outcome-cases {ℓ κ} :
    {E : Type ℓ} {A : Type κ} (o : Outcome E A) → ((e : E) × (o ≡ fail e)) ⊎ ((a : A) × (o ≡ ok a))
Outcome-cases (fail e) = inl (e, refl)
Outcome-cases (ok a) = inr (a, refl)

-- the swap of a binary into its place
abbrev Swapped : ℕ → Dir → Option SystemError → Dir → Type 0
Swapped b d none d2 = d2.files (database "xray") ≡ some b
Swapped b d (some e) d2 = d2.files (database "xray") ≡ d.files (database "xray")

swap_lem :
    (b : ℕ) (d : Dir)
    → Swapped b d
        (rename (staged 1) (database "xray") (with_binary b d)).0
        (rename (staged 1) (database "xray") (with_binary b d)).1
unfolding put
swap_lem b d =
    ground (arith, rename_lem (staged 1) (database "xray") (database "xray") (with_binary b d))

module _ (fold : ℕ → ℕ) (digest : ℕ → Runes) where
  -- what stands between the download and the swap: the binary that is going in
  unfoldable pub checked_binary : CoreFetched → Outcome CoreFailure ℕ
  checked_binary c =
      if not c.right_name
      then fail wrong_file
      else if c.download_fails
      then fail no_download
      else elim c.dgst [
        | none ↦ fail no_sum
        | some want ↦
            if not (equal_fold fold (digest c.archive) want)
            then fail wrong_archive
            else if c.stage_fails
            then fail no_temp
            else elim c.binary [
              | none ↦ fail no_binary
              | some b ↦ if c.seal_fails then fail no_seal else ok b
            ]
      ]

  -- InstallCore
  unfoldable pub install_core : CoreFetched → Dir → Option CoreFailure × Dir
  install_core c d = elim (checked_binary c) [
    | fail e ↦ (some e, without_temps d)
    | ok b ↦
        let (err, moved) = rename (staged 1) (database "xray") (with_binary b d) in
        (elim err [ none ↦ none | some e ↦ some no_swap ], without_temps moved)
  ]

  -- an archive with the published sum, and the binary in it
  abbrev pub IsChecked : CoreFetched → ℕ → Type 0
  IsChecked c b = elim c.dgst [
    | none ↦ ⊥
    | some want ↦ (equal_fold fold (digest c.archive) want ≡ true) × (c.binary ≡ some b)
  ]

  checked_binary-IsChecked : (c : CoreFetched) (b : ℕ) → checked_binary c ≡ ok b → IsChecked c b
  unfolding checked_binary
  checked_binary-IsChecked c b h = ground arith

  -- how InstallCore leaves the core
  abbrev pub CoreLeft : CoreFetched → Dir → Option CoreFailure → Dir → Type 0
  CoreLeft c d none d2 = (b : ℕ) × IsChecked c b × (d2.files (database "xray") ≡ some b)
  CoreLeft c d (some e) d2 = d2.files (database "xray") ≡ d.files (database "xray")

  after_swap :
      (c : CoreFetched) (d : Dir) (b : ℕ)
      → IsChecked c b
      → CoreLeft c d
          (elim (rename (staged 1) (database "xray") (with_binary b d)).0 [
            | none ↦ none
            | some e ↦ some no_swap
          ])
          (without_temps (rename (staged 1) (database "xray") (with_binary b d)).1)
  after_swap c d b checked =
      let moved = rename (staged 1) (database "xray") (with_binary b d) in
      elim (Option-cases moved.0) [
        | inl r ↦ rw r (b, checked, temps_apart moved.1 ∙ (rw r at (swap_lem b d)))
        | inr (e, r) ↦ rw r (temps_apart moved.1 ∙ (rw r at (swap_lem b d)))
      ]

  -- If InstallCore reports no error, the core is the binary of an archive that has the published
  -- sum; if it reports one, the core is what it was.
  pub install_core-CoreLeft :
      (c : CoreFetched) (d : Dir) → CoreLeft c d (install_core c d).0 (install_core c d).1
  unfolding install_core
  install_core-CoreLeft c d = elim (Outcome-cases (checked_binary c)) [
    | inl (e, q) ↦ rw (install_core, q) (temps_apart d)
    | inr (b, q) ↦ rw (install_core, q) (after_swap c d b (checked_binary-IsChecked c b q))
  ]
