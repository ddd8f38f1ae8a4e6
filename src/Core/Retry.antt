-- ===== src/Core/Retry.antt =====
-- What RunWithRetryHooks (internal/xray/runner.go) guarantees about the processes it starts.
use xray_runner.Prelude.{
  ℕ, zero, suc, ◌+◌, ◌*◌, ◌^◌, ◌≤◌, ◌<◌, ◌≡◌, inl, inr, Bool, true, false, ◌||◌, Option, none, some,
  List, [], ◌∷◌, ltb, arith, any, All, length, Bool-cases, Option-cases,
}
use native.Mathlib.Nat.{pow-le-pow_right}
use xray_runner.Prelude.Int.{ℤ, pos}
use xray_runner.Core.Runner.{
  backoff, second, Round, End, cancelled_end, running, Run, generation, second, after_exit,
  run_rounds, run_with_retry,
}

-- a wait of 2 ^ k seconds, after k crashes that were counted
unfoldable pub IsBackoff : ℕ → ℤ → Type 0
IsBackoff limit d = (k : ℕ) × (k < limit) × (d ≡ pos (2 ^ k * second))

-- the waits of 2 ^ k seconds from one k on
abbrev pub doubling : ℕ → ℕ → List ℤ
doubling k zero = []
doubling k (suc n) = pos (2 ^ k * second) ∷ doubling (suc k) n

pow_below : (k n : ℕ) → k ≤ n → 2 ^ k ≤ 2 ^ n
pow_below k n h = pow-le-pow_right (omega arith) h

-- no wait of less than 2 ^ 34 seconds overflows
backoff_fits : (k : ℕ) → k < 34 → backoff k ≡ pos (2 ^ k * second)
unfolding backoff
backoff_fits k h = ground (arith, pow_below k 33 (omega arith))

is_backoff : (limit k : ℕ) → limit ≤ 34 → k < limit → IsBackoff limit (backoff k)
unfolding IsBackoff
is_backoff limit k l lt = (k, lt, backoff_fits k (omega arith))

module _ {ℓ} {E : Type ℓ} where
  abbrev pub is_cancelled : Round E → Bool
  is_cancelled g = g.cancelled || g.cancelled_waiting

  -- the loop ends with no error
  abbrev pub ends_clean : End E → Bool
  ends_clean cancelled_end = true
  ends_clean _ = false

  -- the rounds are over before the loop is
  abbrev pub still_runs : End E → Bool
  still_runs running = true
  still_runs _ = false

  clean_rounds :
      (limit attempt : ℕ) (last : Option (Option E)) (gs : List (Round E))
      → ends_clean (run_rounds limit attempt last gs).end ≡ true
      → any is_cancelled gs ≡ true
  unfolding run_rounds
  clean_rounds limit attempt last [] h = absurd (ground arith)
  clean_rounds limit attempt last (g ∷ gs) h = ground (
    arith,
    clean_rounds limit 0 last gs,
    clean_rounds limit (suc attempt) (some (generation g.process).0) gs,
    clean_rounds limit 1 (some (generation g.process).0) gs,
  )

  -- The run ends with no error only if the session was cancelled, however the core exits.
  pub clean_needs_cancel :
      (limit : ℕ) (gs : List (Round E))
      → ends_clean (run_with_retry limit gs).end ≡ true
      → any is_cancelled gs ≡ true
  clean_needs_cancel limit gs h = clean_rounds limit 0 none gs h

  -- whatever the loop does next, its waits stay in bounds
  after_exit-waits :
      (limit attempt : ℕ) (last : Option (Option E)) (g : Round E)
      (again : ℕ → Option (Option E) → Run E)
      → limit ≤ 34
      → attempt < limit
      → ((a : ℕ) (l : Option (Option E)) → All (IsBackoff limit) (again a l).delays)
      → All (IsBackoff limit) (after_exit attempt last g again).delays
  unfolding after_exit
  after_exit-waits limit attempt last g again top lt w = ground (
    arith,
    is_backoff limit 0 top (ground arith),
    is_backoff limit attempt top lt,
    w 0 last,
    w (suc attempt) (some (generation g.process).0),
    w 1 (some (generation g.process).0),
  )

  rounds_wait :
      (limit attempt : ℕ) (last : Option (Option E)) (gs : List (Round E))
      → limit ≤ 34
      → All (IsBackoff limit) (run_rounds limit attempt last gs).delays
  unfolding run_rounds
  rounds_wait limit attempt last [] top = ground arith
  rounds_wait limit attempt last (g ∷ gs) top = elim (Bool-cases (ltb attempt limit)) [
    | inr e ↦ rw e tt
    | inl e ↦ elim (Option-cases (generation g.process).1) [
      | inr (f, q) ↦ rw (e, q) tt
      | inl q ↦
          rw (e, q)
            (after_exit-waits limit attempt last g (λ a l. run_rounds limit a l gs) top
              (ground arith) (λ a l. rounds_wait limit a l gs top))
    ]
  ]

  -- a crash that nobody asked for, after 2 to 60 seconds
  abbrev pub IsCrash : Round E → Type ℓ
  IsCrash g =
      ((generation g.process).1 ≡ none)
      × (g.cancelled ≡ false)
      × (g.restart ≡ false)
      × (2 * second ≤ g.age)
      × (g.age_later ≤ 60 * second)
      × (g.cancelled_waiting ≡ false)

  crash_rounds :
      (limit attempt : ℕ) (last : Option (Option E)) (gs : List (Round E))
      → All IsCrash gs
      → attempt ≤ limit
      → limit ≤ attempt + length gs
      → (still_runs (run_rounds limit attempt last gs).end ≡ false)
        × (attempt + length (run_rounds limit attempt last gs).delays ≡ limit)
        × (attempt + (run_rounds limit attempt last gs).started ≡ limit)
  unfolding run_rounds
  crash_rounds limit attempt last [] c a l = ground arith
  crash_rounds limit attempt last (g ∷ gs) (c, cs) a l =
      ground (arith, crash_rounds limit (suc attempt) (some (generation g.process).0) gs cs)

  crash_waits :
      (limit attempt left : ℕ) (last : Option (Option E)) (cs : List (Round E))
      → All IsCrash cs
      → limit ≤ 34
      → limit ≡ attempt + left
      → left ≤ length cs
      → (run_rounds limit attempt last cs).delays ≡ doubling attempt left
  unfolding run_rounds
  crash_waits limit attempt zero last [] c top l n = ground arith
  crash_waits limit attempt zero last (g ∷ cs) c top l n = ground arith
  crash_waits limit attempt (suc left) last [] c top l n = absurd (omega arith)
  crash_waits limit attempt (suc left) last (g ∷ cs) (c, more) top l n = ground (
    arith,
    backoff_fits attempt (omega arith),
    crash_waits limit (suc attempt) left (some (generation g.process).0) cs more top,
  )

  -- With at most 34 attempts allowed, every wait between two processes is 2 ^ k seconds for a k below
  -- that number, whatever the ages of the processes; and over crashes that each come after 2 to 60
  -- seconds the waits are 1 second, 2 seconds and so on, each the double of the one before.
  pub waits_bounded :
      (limit : ℕ) (gs cs : List (Round E))
      → limit ≤ 34
      → All IsCrash cs
      → limit ≤ length cs
      → All (IsBackoff limit) (run_with_retry limit gs).delays
        × ((run_with_retry limit cs).delays ≡ doubling 0 limit)
  waits_bounded limit gs cs top c l =
      (rounds_wait limit 0 none gs top, crash_waits limit 0 limit none cs c top (omega arith) l)

  -- When the core crashes over and over, each time after 2 to 60 seconds, the loop gives up after
  -- as many processes as it is allowed, and waits once after each.
  pub crashes_give_up :
      (limit : ℕ) (gs : List (Round E))
      → All IsCrash gs
      → limit ≤ length gs
      → (still_runs (run_with_retry limit gs).end ≡ false)
        × (length (run_with_retry limit gs).delays ≡ limit)
        × ((run_with_retry limit gs).started ≡ limit)
  crashes_give_up limit gs c l = ground (arith, crash_rounds limit 0 none gs c)
