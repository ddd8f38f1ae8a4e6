-- ===== src/Service/Guarantees.antt =====
-- What every run of the service guarantees.
use xray_runner.Prelude.{
  ℕ, ◌≡◌, ◌↔◌, ◌⊎◌, Bool, true, false, ◌||◌, none, some, List, String, arith, eq_iff,
}
use xray_runner.Service.State.{Peer, armed, Service}
use xray_runner.Service.Sections.{is_split, resume}
use xray_runner.Service.Threads.{initial, Action, run}
use xray_runner.Service.Invariant.{mem}
use xray_runner.Service.Interleavings.{run-Inv}

abbrev pub runs_split : Service → Bool
runs_split s = elim s.sess [ none ↦ false | some i ↦ is_split (s.heap i).kind ]

module _ (peer : ℕ → Peer) where
  -- Once nobody holds `op`, the machine has the rules of a split exactly while the current session
  -- is a split one, or where the last call that should have removed them, of DisableSplit or of an
  -- EnableSplit that failed, has left them behind.
  pub rules_iff_split :
      (actions : List Action)
      → (run peer actions initial).op ≡ none
      → (run peer actions initial).split_up
        ≡ (runs_split (run peer actions initial).svc || (run peer actions initial).left_up)
  rules_iff_split actions free = ground (arith, run-Inv peer actions)

  -- Once nobody holds `op`, a session with no connection is not being stopped, and a timer that
  -- has not fired, or one whose function is yet to run, will take it down.
  pub never_abandoned :
      (actions : List Action) (i : ℕ)
      → (run peer actions initial).op ≡ none
      → (run peer actions initial).svc.sess ≡ some i
      → ((run peer actions initial).svc.heap i).conn ≡ none
      → (((run peer actions initial).svc.heap i).stopping ≡ false)
        × ((((run peer actions initial).svc.heap i).grace ≡ armed)
            ⊎ (mem i (run peer actions initial).callbacks ≡ true))
  never_abandoned actions i free cur lost = ground (arith, run-Inv peer actions)

  -- The connection that holds the session is its owner's, and it is the one that gets the
  -- session's log.
  pub holder_is_owner :
      (actions : List Action) (i c : ℕ)
      → (run peer actions initial).svc.sess ≡ some i
      → ((run peer actions initial).svc.heap i).conn ≡ some c
      → ((peer c).key ≡ ((run peer actions initial).svc.heap i).owner)
        × ((run peer actions initial).svc.log_to ≡ some c)
  holder_is_owner actions i c cur held = ground (arith, run-Inv peer actions)

  -- A session is handed back exactly to a connection of its owner that names its token, while
  -- neither the session nor the service is on its way down.
  pub resume_iff :
      (c i : ℕ) (token : String) (s : Service)
      → s.sess ≡ some i
      → ((resume peer c token s).1 ≡ true) ↔ (
          ((s.heap i).stopping ≡ false)
          × (s.closing ≡ false)
          × ((s.heap i).owner ≡ (peer c).key)
          × ((s.heap i).token ≡ token))
  unfolding resume
  resume_iff c i token s cur =
      ground (arith, eq_iff (s.heap i).owner (peer c).key, eq_iff (s.heap i).token token)
