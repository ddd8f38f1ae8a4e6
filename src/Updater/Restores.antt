-- ===== src/Updater/Restores.antt =====
-- What the system calls of an install and commit of internal/updater/updater.go leave under a name.
use xray_runner.Prelude.{
  ℕ, suc, ◌≤◌, ◌<◌, ◌≡◌, ◌≢◌, Bool, true, false, Option, none, some, String, List, [], all,
  if◌then◌else◌, arith, refl, eq_iff, ap,
}
use xray_runner.Prelude.Outcome.{Outcome, fail, ok}
use xray_runner.Updater.Install.{
  FileName, database, staged, aside, name_eq, Dir, SystemError, not_exist, InstallError, no_backup,
  not_replaced, Installed, put, next_fault, rename, remove, create_temp, move_aside, commit,
}

-- what a system call leaves under a name n, when it fails and when it does not
abbrev pub Renamed : FileName → FileName → FileName → Dir → Option SystemError → Dir → Type 0
Renamed from to n d none d2 =
    (d2.fresh ≡ d.fresh)
    × (d.files from ≢ none)
    × (d2.files n
        ≡ (if name_eq n from then none else if name_eq n to then d.files from else d.files n))
Renamed from to n d (some e) d2 =
    (d2.fresh ≡ d.fresh) × (d2.files n ≡ d.files n) × (e ≡ not_exist → d.files from ≡ none)

pub rename_lem :
    (from to n : FileName) (d : Dir) → Renamed from to n d (rename from to d).0 (rename from to d).1
unfolding rename put next_fault
rename_lem from to n d = ground arith

abbrev pub Removed : FileName → FileName → Dir → Option SystemError → Dir → Type 0
Removed name n d none d2 =
    (d2.fresh ≡ d.fresh) × (d2.files n ≡ (if name_eq n name then none else d.files n))
Removed name n d (some e) d2 =
    (d2.fresh ≡ d.fresh) × (d2.files n ≡ d.files n) × (e ≡ not_exist → d.files name ≡ none)

pub remove_lem :
    (name n : FileName) (d : Dir) → Removed name n d (remove name d).0 (remove name d).1
unfolding remove put next_fault
remove_lem name n d = ground arith

abbrev Created : FileName → Dir → Option ℕ → Dir → Type 0
Created n d none d2 = (d2.fresh ≡ d.fresh) × (d2.files n ≡ d.files n)
Created n d (some k) d2 =
    (k ≡ d.fresh)
    × (d2.fresh ≡ suc d.fresh)
    × (d2.files n ≡ (if name_eq n (aside d.fresh) then some 0 else d.files n))

create_temp_lem : (n : FileName) (d : Dir) → Created n d (create_temp d).0 (create_temp d).1
unfolding create_temp put next_fault
create_temp_lem n d = ground arith

-- a name that is not one of those to come
abbrev pub IsOld : FileName → ℕ → Type 0
IsOld (aside k) fresh = k < fresh
IsOld _ fresh = Unit

old_not_new : (n : FileName) (k fresh : ℕ) → IsOld n fresh → fresh ≤ k → name_eq n (aside k) ≡ false
old_not_new (database a) k fresh h l = refl
old_not_new (staged a) k fresh h l = refl
old_not_new (aside a) k fresh h l = ground arith

-- what moveAside leaves under an old name, and where the file went
abbrev MovedAside : String → FileName → Dir → Outcome InstallError (Option ℕ) → Dir → Type 0
MovedAside name n d (fail e) d2 =
    (d.fresh ≤ d2.fresh) × (d2.files n ≡ d.files n) × (e ≡ no_backup name)
MovedAside name n d (ok none) d2 =
    (d.fresh ≤ d2.fresh) × (d2.files n ≡ d.files n) × (d.files (database name) ≡ none)
MovedAside name n d (ok (some k)) d2 =
    (k ≡ d.fresh)
    × (d2.fresh ≡ suc k)
    × (d2.files n ≡ (if name_eq n (database name) then none else d.files n))
    × (d2.files (aside k) ≡ d.files (database name))

move_aside_lem :
    (name : String) (n : FileName) (d : Dir)
    → IsOld n d.fresh
    → MovedAside name n d (move_aside name d).0 (move_aside name d).1
unfolding move_aside
move_aside_lem name n d old =
    let d1 = (create_temp d).1 in
    let d2 = (rename (database name) (aside d.fresh) d1).1 in
    ground (
      arith,
      old_not_new n d.fresh d.fresh old,
      create_temp_lem n d,
      create_temp_lem (database name) d,
      rename_lem (database name) (aside d.fresh) n d1,
      rename_lem (database name) (aside d.fresh) (aside d.fresh) d1,
      remove_lem (aside d.fresh) n d2,
    )

pub files-name_eq :
    (n : FileName) (name : String) (d : Dir)
    → name_eq n (database name) ≡ true
    → d.files n ≡ d.files (database name)
files-name_eq (database a) name d h = ap (λ x. d.files (database x)) (ground (arith, eq_iff a name))
files-name_eq (staged a) name d h = absurd (cc)
files-name_eq (aside a) name d h = absurd (cc)

-- the errors of an install that has put back all it had moved
abbrev pub is_settled : InstallError → Bool
is_settled (no_backup name) = true
is_settled (not_replaced name) = true
is_settled _ = false

abbrev pub Backed : Option ℕ → Option ℕ → Dir → Type 0
Backed none contents d = contents ≡ none
Backed (some k) contents d = (k < d.fresh) × (d.files (aside k) ≡ contents)

-- what commit leaves under an old name
abbrev pub Committed :
    ℕ → String → FileName → Dir → Outcome (List InstallError) Installed → Dir → Type 0
Committed src name n d (fail errs) d2 =
    (d.fresh ≤ d2.fresh) × (errs ≢ []) × (all is_settled errs ≡ true → d2.files n ≡ d.files n)
Committed src name n d (ok i) d2 =
    (d.fresh ≤ d2.fresh)
    × (i.dst ≡ name)
    × (d2.files n ≡ (
        if name_eq n (staged src)
        then none
        else if name_eq n (database name)
        then d.files (staged src)
        else d.files n))
    × Backed i.backup (d.files (database name)) d2
    × ((k : ℕ) → i.backup ≡ some k → d.fresh ≤ k)

pub commit_lem :
    (src : ℕ) (name : String) (n : FileName) (d : Dir)
    → IsOld n d.fresh
    → Committed src name n d (commit src name d).0 (commit src name d).1
unfolding commit
commit_lem src name n d old =
    let d1 = (move_aside name d).1 in
    let d2 = (rename (staged src) (database name) d1).1 in
    ground (
      arith,
      old_not_new n d.fresh d.fresh old,
      files-name_eq n name d,
      move_aside_lem name n d old,
      move_aside_lem name (staged src) d tt,
      move_aside_lem name (database name) d tt,
      rename_lem (staged src) (database name) n d1,
      rename_lem (staged src) (database name) (aside d.fresh) d1,
      rename_lem (aside d.fresh) (database name) n d2,
    )
