-- ===== src/Service/Interleavings.antt =====
-- Every interleaving keeps the invariant.
use xray_runner.Prelude.{ℕ, ◌≡◌, refl, Option, none, some, List, [], ◌∷◌, String}
use xray_runner.Prelude.Int.{ℤ}
use xray_runner.Service.State.{Peer}
use xray_runner.Service.Threads.{
  CallEnd, Holder, finish_at, wait_done, drop_at, refresh_at, enable_at, install_at, System,
  initial, Action, resume_by, detach_by, start_tun, stop_by, refresh_by, enable_by, tun_ends, fire,
  callback, close_begin, teardown, proceed, run_section, acquire, go_on, turn, contend, step, run,
}
use xray_runner.Service.Invariant.{Inv, initial-Inv}
use xray_runner.Service.Preservation.{
  resume-Inv, detach-Inv, fire-Inv, close_begin-Inv, start_tun-Inv, tun_ends-Inv,
}
use xray_runner.Service.Turns.{
  stop-Inv, refresh-Inv, enable-Inv, teardown-Inv, callback-Inv, finish-go, wait-go, drop-go,
  refresh-go, enable-go, install-go,
}

module _ (peer : ℕ → Peer) where
  section-Inv : (y : System) (a : Action) → Inv peer y → Inv peer (run_section peer a y)
  section-Inv y (resume_by c token) v = resume-Inv peer y v c token
  section-Inv y (detach_by c) v = detach-Inv peer y v c
  section-Inv y (start_tun c title token) v = start_tun-Inv peer y v c title token
  section-Inv y (tun_ends i err) v = tun_ends-Inv peer y v i err
  section-Inv y (fire i) v = fire-Inv peer y v i
  section-Inv y close_begin v = close_begin-Inv peer y v
  section-Inv y _ v = unfold run_section in v

  acquire-Inv : (y : System) (a : Action) → Inv peer y → y.op ≡ none → Inv peer (acquire peer a y)
  acquire-Inv y (stop_by c only) v free = stop-Inv peer y v free c only
  acquire-Inv y (refresh_by c) v free = refresh-Inv peer y v free c
  acquire-Inv y (enable_by c names) v free = enable-Inv peer y v free c names
  acquire-Inv y (callback i) v free = callback-Inv peer y v free i
  acquire-Inv y teardown v free = teardown-Inv peer y v free
  acquire-Inv y _ v free = unfold acquire in v

  go_on-Inv :
      (y : System) (h : Holder) (tcp udp : List ℤ) (token : Option String) (r : CallEnd)
      → Inv peer y
      → y.op ≡ some h
      → Inv peer (go_on peer h tcp udp token r y)
  go_on-Inv y (finish_at i) tcp udp token r v e = finish-go peer y v tcp udp token r i e
  go_on-Inv y (wait_done i) tcp udp token r v e = wait-go peer y v tcp udp token r i e
  go_on-Inv y (drop_at i) tcp udp token r v e = drop-go peer y v tcp udp token r i e
  go_on-Inv y (refresh_at c i) tcp udp token r v e = refresh-go peer y v tcp udp token r c i e
  go_on-Inv y (enable_at c m names) tcp udp token r v e =
      enable-go peer y v tcp udp token r c m names e
  go_on-Inv y (install_at c i names) tcp udp token r v e =
      install-go peer y v tcp udp token r c i names e

  turn-Inv :
      (o : Option Holder) (y : System) (tcp udp : List ℤ) (token : Option String) (r : CallEnd)
      → Inv peer y
      → y.op ≡ o
      → Inv peer (turn peer o tcp udp token r y)
  unfolding turn
  turn-Inv none y tcp udp token r v e = v
  turn-Inv (some h) y tcp udp token r v e = go_on-Inv y h tcp udp token r v e

  contend-Inv :
      (o : Option Holder) (a : Action) (y : System)
      → Inv peer y
      → y.op ≡ o
      → Inv peer (contend peer o a y)
  unfolding contend
  contend-Inv none a y v e = acquire-Inv y a v e
  contend-Inv (some h) a y v e = v

  -- an action keeps the invariant, whoever holds `op`
  pub step-Inv : (y : System) (a : Action) → Inv peer y → Inv peer (step peer a y)
  unfolding step
  step-Inv y (proceed tcp udp token r) v = turn-Inv y.op y tcp udp token r v refl
  step-Inv y a v = let z = run_section peer a y in contend-Inv z.op a z (section-Inv y a v) refl

  pub run-Inv_from :
      (actions : List Action) (y : System) → Inv peer y → Inv peer (run peer actions y)
  unfolding run
  run-Inv_from [] y v = v
  run-Inv_from (a ∷ actions) y v = run-Inv_from actions (step peer a y) (step-Inv y a v)

  -- Whatever the interleaving of connections, session goroutines, timers and the holder of `op`,
  -- a service that starts with no session keeps the invariant.
  pub run-Inv : (actions : List Action) → Inv peer (run peer actions initial)
  run-Inv actions = run-Inv_from actions initial (initial-Inv peer)
