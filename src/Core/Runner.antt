-- ===== src/Core/Runner.antt =====
-- internal/xray/runner.go: one core process with its hooks, and the loop that starts the next one.
-- Times are nanoseconds.
use xray_runner.Prelude.{
  ℕ, suc, ◌*◌, ◌^◌, ◌%◌, ◌-◌, Bool, Option, none, some, List, [], ◌∷◌, not, ltb, if◌then◌else◌,
}
use xray_runner.Prelude.Int.{ℤ, pos, negsuc}

module _ {ℓ} (E : Type ℓ) where
  -- what happens around one process: Start's error, AfterStart's, whether the process or the
  -- session was over by then, how the process ended, AfterStop's error
  pub record Process : Type ℓ where
    pub start_err : Option E
    pub setup_err : Option E
    pub over : Bool
    pub exit : Option E
    pub stop_err : Option E

  -- why a run ends without a retry
  pub data Fatal : Type ℓ where
    no_start setup_failed cleanup_failed : E → Fatal
    setup_and_cleanup : E → E → Fatal

  -- what a round of the loop meets: the process, whether the session was cancelled by its end, a
  -- restart that was asked for, the age of the process at the two looks at the clock, and whether
  -- the session is cancelled during the wait
  pub record Round : Type ℓ where
    pub process : Process
    pub cancelled : Bool
    pub restart : Bool
    pub age : ℕ
    pub age_later : ℕ
    pub cancelled_waiting : Bool

  pub data End : Type ℓ where
    cancelled_end : End
    fatal_end : Fatal → End
    -- Option: an exit with status 0 is an error of its own
    exited_immediately : Option E → End
    gave_up : ℕ → Option (Option E) → End
    -- the rounds given are over, the loop is not
    running : End

  pub record Run : Type ℓ where
    pub end : End
    -- processes started, and the waits between them
    pub started : ℕ
    pub delays : List ℤ

abbrev pub second : ℕ
second = 1_000_000_000

-- an int64, which wraps around
abbrev pub to_int64 : ℕ → ℤ
to_int64 n = let r = n % 2 ^ 64 in if ltb r (2 ^ 63) then pos r else negsuc (2 ^ 64 - 1 - r)

-- time.Duration(1<<attempt) * time.Second
unfoldable pub backoff : ℕ → ℤ
backoff attempt = to_int64 (2 ^ attempt * second)

module _ {ℓ} {E : Type ℓ} where
  -- the setup's error counts only under a live core
  abbrev pub setup_error : Process E → Option E
  setup_error p = if p.over then none else p.setup_err

  abbrev pub join_fatal : Option E → Option E → Option (Fatal E)
  join_fatal none none = none
  join_fatal none (some c) = some (cleanup_failed c)
  join_fatal (some s) none = some (setup_failed s)
  join_fatal (some s) (some c) = some (setup_and_cleanup s c)

  -- generation
  unfoldable pub generation : Process E → Option E × Option (Fatal E)
  generation p = elim p.start_err [
    | some e ↦ (none, some (no_start e))
    | none ↦ (p.exit, join_fatal (setup_error p) p.stop_err)
  ]

  abbrev pub one_more : Run E → Run E
  one_more r = record r { started = suc r.started }

  abbrev pub after_delay : ℤ → Run E → Run E
  after_delay d r = record r { started = suc r.started; delays = d ∷ r.delays }

  abbrev pub stop_run : ℕ → End E → Run E
  stop_run n e = record { end = e; started = n; delays = [] }

  -- the body of RunWithRetryHooks once the process is gone and nothing fatal happened; `again` is
  -- the loop behind it, from a number of attempts and the last error
  unfoldable pub after_exit :
      ℕ → Option (Option E) → Round E → (ℕ → Option (Option E) → Run E) → Run E
  after_exit attempt last g again =
      let exit = (generation g.process).0 in
      let tried = if ltb (60 * second) g.age_later then 0 else attempt in
      if g.cancelled
      then stop_run 1 cancelled_end
      else if g.restart
      then one_more (again 0 last)
      else if ltb g.age (2 * second)
      then stop_run 1 (exited_immediately exit)
      else if g.cancelled_waiting
      then record { end = cancelled_end; started = 1; delays = backoff tried ∷ [] }
      else after_delay (backoff tried) (again (suc tried) (some exit))

  -- RunWithRetryHooks on the rounds that it meets
  unfoldable pub run_rounds : ℕ → ℕ → Option (Option E) → List (Round E) → Run E
  unfolding after_exit generation
  run_rounds limit attempt last [] =
      if ltb attempt limit then stop_run 0 running else stop_run 0 (gave_up limit last)
  run_rounds limit attempt last (g ∷ gs) =
      let next = λ (a : ℕ) (l : Option (Option E)). run_rounds limit a l gs in
      if not (ltb attempt limit)
      then stop_run 0 (gave_up limit last)
      else elim (generation g.process).1 [
        | some f ↦ stop_run 1 (fatal_end f)
        | none ↦ after_exit attempt last g next
      ]

  -- RunWithRetry starts with no attempt made
  abbrev pub run_with_retry : ℕ → List (Round E) → Run E
  run_with_retry limit = run_rounds limit 0 none
