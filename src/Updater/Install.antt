-- ===== src/Updater/Install.antt =====
-- commitAll of internal/updater/updater.go and what it calls, on a directory whose system calls
-- may each fail.
use xray_runner.Prelude.{
  ℕ, suc, Bool, false, Option, none, some, String, List, [], ◌∷◌, ◌++◌, ◌==◌, str_eq, if◌then◌else◌,
}
use xray_runner.Prelude.Outcome.{Outcome, fail, ok}

-- the names that an install uses: a database, a sealed temp (.name-*.tmp), and the place that
-- CreateTemp gave for an old file (.name-*.old)
pub data FileName : Type 0 where
  database : String → FileName
  staged aside : ℕ → FileName

abbrev pub name_eq : FileName → FileName → Bool
name_eq (database a) (database b) = str_eq a b
name_eq (staged a) (staged b) = a == b
name_eq (aside a) (aside b) = a == b
name_eq _ _ = false

-- what each name holds, the number of the next new name, and which of the coming system calls
-- fail; after those listed none does
pub record Dir : Type 0 where
  pub files : FileName → Option ℕ
  pub fresh : ℕ
  pub faults : List Bool

pub data SystemError : Type 0 where
  not_exist io_error : SystemError

pub data InstallError : Type 0 where
  no_backup not_replaced not_removed : String → InstallError
  kept_aside : String → ℕ → InstallError

-- a database that is in, and where the file it replaced was moved
pub record Installed : Type 0 where
  pub dst : String
  pub backup : Option ℕ

unfoldable pub put : FileName → Option ℕ → (FileName → Option ℕ) → FileName → Option ℕ
put name contents files n = if name_eq n name then contents else files n

-- whether the next system call fails
unfoldable pub next_fault : List Bool → Bool × List Bool
next_fault [] = (false, [])
next_fault (f ∷ fs) = (f, fs)

unfoldable pub rename : FileName → FileName → Dir → Option SystemError × Dir
unfolding next_fault put
rename from to d =
    let (fault, faults) = next_fault d.faults in
    if fault then (some io_error, record d { faults = faults }) else elim (d.files from) [
      | none ↦ (some not_exist, record d { faults = faults })
      | some c ↦
          (none, record d { files = put from none (put to (some c) d.files); faults = faults })
    ]

unfoldable pub remove : FileName → Dir → Option SystemError × Dir
unfolding next_fault put
remove name d =
    let (fault, faults) = next_fault d.faults in
    if fault then (some io_error, record d { faults = faults }) else elim (d.files name) [
      | none ↦ (some not_exist, record d { faults = faults })
      | some c ↦ (none, record d { files = put name none d.files; faults = faults })
    ]

-- os.CreateTemp: an empty file under a new name
unfoldable pub create_temp : Dir → Option ℕ × Dir
unfolding next_fault put
create_temp d =
    let (fault, faults) = next_fault d.faults in
    if fault then (none, record d { faults = faults }) else (
      some d.fresh,
      record { files = put (aside d.fresh) (some 0) d.files; fresh = suc d.fresh; faults = faults },
    )

-- moveAside
unfoldable pub move_aside : String → Dir → Outcome InstallError (Option ℕ) × Dir
unfolding create_temp rename remove
move_aside name d =
    let (created, d) = create_temp d in
    elim created [
      | none ↦ (fail (no_backup name), d)
      | some k ↦
          let (err, d) = rename (database name) (aside k) d in
          elim err [
            | none ↦ (ok (some k), d)
            | some not_exist ↦ (ok none, (remove (aside k) d).1)
            | some io_error ↦ (fail (no_backup name), (remove (aside k) d).1)
          ]
    ]

-- commit, on the sealed temp `src`
unfoldable pub commit : ℕ → String → Dir → Outcome (List InstallError) Installed × Dir
unfolding move_aside rename
commit src name d =
    let (moved, d) = move_aside name d in
    elim moved [
      | fail e ↦ (fail (e ∷ []), d)
      | ok backup ↦
          let (err, d) = rename (staged src) (database name) d in
          elim err [
            | none ↦ (ok (record { dst = name; backup = backup }), d)
            | some e ↦ elim backup [
              | none ↦ (fail (not_replaced name ∷ []), d)
              | some k ↦
                  let (err, d) = rename (aside k) (database name) d in
                  elim err [
                    | none ↦ (fail (not_replaced name ∷ []), d)
                    | some e ↦ (fail (not_replaced name ∷ kept_aside name k ∷ []), d)
                  ]
            ]
          ]
    ]

-- one round of rollback
unfoldable pub put_back : Installed → Dir → List InstallError × Dir
unfolding remove rename
put_back i d = elim i.backup [
  | none ↦
      let (err, d) = remove (database i.dst) d in
      elim err [ some io_error ↦ (not_removed i.dst ∷ [], d) | _ ↦ ([], d) ]
  | some k ↦
      let (err, d) = rename (aside k) (database i.dst) d in
      elim err [ none ↦ ([], d) | some e ↦ (kept_aside i.dst k ∷ [], d) ]
]

-- rollback
unfoldable pub rollback : List Installed → Dir → List InstallError × Dir
unfolding put_back
rollback [] d = ([], d)
rollback (i ∷ done) d =
    let (errs, d) = put_back i d in let (more, d) = rollback done d in (errs ++ more, d)

-- the moved-aside copies go once everything is in
unfoldable pub drop_backups : List Installed → Dir → Dir
unfolding remove
drop_backups [] d = d
drop_backups (i ∷ done) d =
    drop_backups done (elim i.backup [ none ↦ d | some k ↦ (remove (aside k) d).1 ])

-- the loop of commitAll; `done` are the databases that are in. No errors is Go's nil.
unfoldable pub commit_rest : List Installed → List (String × ℕ) → Dir → List InstallError × Dir
unfolding commit rollback drop_backups
commit_rest done [] d = ([], drop_backups done d)
commit_rest done (a ∷ assets) d =
    let (result, d) = commit a.1 a.0 d in
    elim result [
      | fail errs ↦ let (more, d) = rollback done d in (errs ++ more, d)
      | ok i ↦ commit_rest (done ++ (i ∷ [])) assets d
    ]

-- commitAll, on the names of the databases and their sealed temps
unfoldable pub commit_all : List (String × ℕ) → Dir → List InstallError × Dir
unfolding commit_rest
commit_all assets d = commit_rest [] assets d
