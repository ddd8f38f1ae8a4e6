-- ===== src/Service/Endings.antt =====
-- How sessions end: an orphan is taken down, a closing service starts nothing, and the one way in
-- which a grace period is cut short.
use xray_runner.Prelude.{
  ℕ, ◌≡◌, ◌≢◌, true, false, Option, none, some, List, [], ◌∷◌, String, arith, refl,
}
use xray_runner.Prelude.Int.{ℤ}
use xray_runner.Service.State.{Peer, Kind, tun, split, armed}
use xray_runner.Service.Threads.{
  CallEnd, finish_at, wait_done, drop_at, System, initial, Action, detach_by, enable_by, tun_ends,
  fire, callback, proceed, step, run, take_callback,
}
use xray_runner.Service.Invariant.{Inv, mem}
use xray_runner.Service.Interleavings.{step-Inv, run-Inv}

take_callback-ne-none : (i : ℕ) (js : List ℕ) → mem i js ≡ true → take_callback i js ≢ none
unfolding take_callback
take_callback-ne-none i [] h = cc
take_callback-ne-none i (j ∷ js) h = ground (arith, take_callback-ne-none i js)

-- a session without a connection, `op` free, and a timer's function waiting for it
abbrev IsOrphan : System → ℕ → Type 0
IsOrphan y i =
    (y.op ≡ none)
    × (y.svc.sess ≡ some i)
    × ((y.svc.heap i).conn ≡ none)
    × (mem i y.callbacks ≡ true)

abbrev pub IsGone : System → ℕ → Type 0
IsGone y i =
    (y.op ≡ none) × (y.svc.sess ≡ none) × (y.split_up ≡ y.left_up) × ((y.svc.heap i).done ≡ true)

-- the three steps that end a marked session: finish, with how DisableSplit ends, the goroutine of a
-- tun one, the release
abbrev pub ending : ℕ → CallEnd → Option String → List Action
ending i r err = proceed [] [] none r ∷ tun_ends i err ∷ proceed [] [] none r ∷ []

module _ (peer : ℕ → Peer) where
  -- After Serve stopped accepting and the session is gone, there is never one again.
  closed-step :
      (a : Action) (y : System)
      → Inv peer y
      → y.svc.closing ≡ true
      → y.svc.sess ≡ none
      → ((step peer a y).svc.closing ≡ true) × ((step peer a y).svc.sess ≡ none)
  unfolding step
  closed-step (proceed tcp udp token r) y v c n = ground arith
  closed-step (enable_by d []) y v c n = ground arith
  closed-step (enable_by d (x ∷ names)) y v c n = ground arith
  closed-step _ y v c n = ground arith

  fire-IsOrphan :
      (y : System) (i : ℕ)
      → Inv peer y
      → y.op ≡ none
      → y.svc.sess ≡ some i
      → (y.svc.heap i).conn ≡ none
      → IsOrphan (step peer (fire i) y) i
  unfolding step
  fire-IsOrphan y i v free cur lost = ground arith

  callback-finish_at :
      (y : System) (i : ℕ)
      → Inv peer y
      → IsOrphan y i
      → ((step peer (callback i) y).op ≡ some (finish_at i))
        × ((step peer (callback i) y).svc.sess ≡ some i)
  unfolding step
  callback-finish_at y i v o = ground (arith, take_callback-ne-none i y.callbacks)

  finish_tun :
      (y : System) (i : ℕ) (tcp udp : List ℤ) (token : Option String) (r : CallEnd)
      → Inv peer y
      → y.op ≡ some (finish_at i)
      → y.svc.sess ≡ some i
      → (y.svc.heap i).kind ≡ tun
      → let z = step peer (proceed tcp udp token r) y in
        (z.op ≡ some (wait_done i)) × (z.svc.sess ≡ some i) × ((z.svc.heap i).kind ≡ tun)
  unfolding step
  finish_tun y i tcp udp token r v o cur k = ground arith

  end_tun :
      (y : System) (i : ℕ) (err : Option String)
      → Inv peer y
      → y.op ≡ some (wait_done i)
      → y.svc.sess ≡ some i
      → (y.svc.heap i).kind ≡ tun
      → let z = step peer (tun_ends i err) y in
        (z.op ≡ some (wait_done i))
        × (z.svc.sess ≡ none)
        × (z.split_up ≡ z.left_up)
        × ((z.svc.heap i).done ≡ true)
  unfolding step
  end_tun y i err v o cur k = ground arith

  release_tun :
      (y : System) (i : ℕ) (tcp udp : List ℤ) (token : Option String) (r : CallEnd)
      → y.op ≡ some (wait_done i)
      → y.svc.sess ≡ none
      → y.split_up ≡ y.left_up
      → (y.svc.heap i).done ≡ true
      → IsGone (step peer (proceed tcp udp token r) y) i
  unfolding step
  release_tun y i tcp udp token r o cur up d = ground arith

  finish_split :
      (y : System) (i : ℕ) (tcp udp : List ℤ) (token : Option String) (r : CallEnd)
      (err : Option String)
      → Inv peer y
      → y.op ≡ some (finish_at i)
      → y.svc.sess ≡ some i
      → (y.svc.heap i).kind ≡ split
      → let z = step peer (tun_ends i err) (step peer (proceed tcp udp token r) y) in
        (z.op ≡ some (drop_at i)) × (z.svc.sess ≡ some i) × (z.split_up ≡ z.left_up)
  unfolding step
  finish_split y i tcp udp token r err v o cur k = ground arith

  end_split :
      (y : System) (i : ℕ) (tcp udp : List ℤ) (token : Option String) (r : CallEnd)
      → y.op ≡ some (drop_at i)
      → y.svc.sess ≡ some i
      → y.split_up ≡ y.left_up
      → IsGone (step peer (proceed tcp udp token r) y) i
  unfolding step
  end_split y i tcp udp token r o cur up = ground arith

  ending_by_kind :
      (k : Kind) (y : System) (i : ℕ) (r : CallEnd) (err : Option String)
      → Inv peer y
      → y.op ≡ some (finish_at i)
      → y.svc.sess ≡ some i
      → (y.svc.heap i).kind ≡ k
      → IsGone (run peer (ending i r err) y) i
  unfolding run
  ending_by_kind tun y i r err v o cur k =
      let z = step peer (proceed [] [] none r) y in
      let (o', cur', k') = finish_tun y i [] [] none r v o cur k in
      let (o'', cur'', up, d) =
        end_tun z i err (step-Inv peer y (proceed [] [] none r) v) o' cur' k' in
      release_tun (step peer (tun_ends i err) z) i [] [] none r o'' cur'' up d
  ending_by_kind split y i r err v o cur k =
      let z = step peer (tun_ends i err) (step peer (proceed [] [] none r) y) in
      let (o', cur', up) = finish_split y i [] [] none r err v o cur k in
      end_split z i [] [] none r o' cur' up

  -- A session that lost its connection is taken down once its timer fires and nothing else comes in
  -- between: by the timer's function, the steps of finish and, for a tun session, the end of its
  -- goroutine. However DisableSplit ends: rules of a split are then on the machine only where the
  -- last call that should have removed them has left them.
  pub orphan_ends :
      (actions : List Action) (i : ℕ) (r : CallEnd) (err : Option String)
      → (run peer actions initial).op ≡ none
      → (run peer actions initial).svc.sess ≡ some i
      → ((run peer actions initial).svc.heap i).conn ≡ none
      → IsGone (run peer (fire i ∷ callback i ∷ ending i r err) (run peer actions initial)) i
  unfolding run
  orphan_ends actions i r err free cur lost =
      let y = run peer actions initial in
      let v = run-Inv peer actions in
      let o = fire-IsOrphan y i v free cur lost in
      let v' = step-Inv peer y (fire i) v in
      let (marked, cur') = callback-finish_at (step peer (fire i) y) i v' o in
      let z = step peer (callback i) (step peer (fire i) y) in
      ending_by_kind (z.svc.heap i).kind z i r err (step-Inv peer _ (callback i) v') marked cur'
        refl

  closed-run :
      (actions : List Action) (y : System)
      → Inv peer y
      → y.svc.closing ≡ true
      → y.svc.sess ≡ none
      → (run peer actions y).svc.sess ≡ none
  unfolding run
  closed-run [] y v c n = n
  closed-run (a ∷ actions) y v c n =
      let (c', n') = closed-step a y v c n in
      closed-run actions (step peer a y) (step-Inv peer y a v) c' n'

  -- Once Serve stopped accepting and no session is left, none is ever started or handed back.
  pub closed_for_good :
      (before later : List Action)
      → (run peer before initial).svc.closing ≡ true
      → (run peer before initial).svc.sess ≡ none
      → (run peer later (run peer before initial)).svc.sess ≡ none
  closed_for_good before later c n = closed-run later _ (run-Inv peer before) c n

  -- A timer that fired before its session was resumed still waits for `op`: if the new connection
  -- drops before its function runs, the session is marked for the end although the timer of this
  -- disconnect has just been started.
  pub stale_timer :
      (y : System) (i c : ℕ)
      → y.op ≡ none
      → y.svc.sess ≡ some i
      → (y.svc.heap i).conn ≡ some c
      → (y.svc.heap i).stopping ≡ false
      → mem i y.callbacks ≡ true
      → (((step peer (detach_by c) y).svc.heap i).grace ≡ armed)
        × ((step peer (callback i) (step peer (detach_by c) y)).op ≡ some (finish_at i))
  unfolding step
  stale_timer y i c o cur held s m = ground (arith, take_callback-ne-none i y.callbacks)
