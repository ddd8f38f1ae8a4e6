-- ===== src/Service/Threads.antt =====
-- internal/service/service.go as interleavings: connections, session goroutines, timers and the
-- one holder of `op`. An action is one section under `mu`, or one thing that the holder of `op`
-- does between two of them; what the environment decides is an argument of the action. An action
-- that cannot happen in a state leaves it as it is.
use xray_runner.Prelude.{
  ℕ, Bool, true, false, not, ◌&&◌, Option, none, some, String, List, [], ◌∷◌, ltb, ◌==◌,
  if◌then◌else◌,
}
use xray_runner.Prelude.Int.{ℤ}
use xray_runner.Service.State.{
  Peer, Kind, tun, split, Grace, armed, spent, Service, eq_opt, new_session, new_service,
}
use xray_runner.Service.Sections.{
  set_session, is_split, Claim, claimed, refused, Stop, marked, mark_stop, drop_session, tun_over,
  resume, detach, claim, stop_begin, my_split,
}
use xray_runner.Service.Requests.{redirect_owned_by}

-- where the holder of `op` stands
pub data Holder : Type 0 where
  -- finish is about to start
  finish_at : ℕ → Holder
  -- finish of a tun session waits for its goroutine
  wait_done : ℕ → Holder
  -- finish of a split session has called DisableSplit
  drop_at : ℕ → Holder
  -- split, past its first section: a refresh of the session, or an enable, of an own session or not
  refresh_at : ℕ → ℕ → Holder
  enable_at : ℕ → Option ℕ → List String → Holder
  -- split, before it calls EnableSplit
  install_at : ℕ → ℕ → List String → Holder

pub record System : Type 0 where
  pub svc : Service
  pub op : Option Holder
  -- the functions of fired grace timers, waiting for `op`, by their sessions
  pub callbacks : List ℕ
  -- the machine has the rules of a split
  pub split_up : Bool
  -- they are what the last call that should have removed them left behind
  pub left_up : Bool
  -- the session that Serve takes down at its end
  pub shutting : Option ℕ

abbrev pub initial : System
initial = record {
  svc = new_service;
  op = none;
  callbacks = [];
  split_up = false;
  left_up = false;
  shutting = none;
}

-- how EnableSplit or DisableSplit ends: an error with no rules left behind, or with some
pub data CallEnd : Type 0 where
  succeeded failed failed_dirty : CallEnd

abbrev pub leaves_rules : CallEnd → Bool
leaves_rules failed_dirty = true
leaves_rules _ = false

pub data Action : Type 0 where
  -- handle
  resume_by : ℕ → String → Action
  detach_by : ℕ → Action
  start_tun : ℕ → String → Option String → Action
  stop_by : ℕ → Bool → Action
  refresh_by : ℕ → Action
  enable_by : ℕ → List String → Action
  -- the goroutine of a tun session ends, with Tun's error
  tun_ends : ℕ → Option String → Action
  -- a grace timer fires; its function gets `op`
  fire callback : ℕ → Action
  -- Serve, at its end
  close_begin teardown : Action
  -- the holder of `op` goes on: the owners of the redirect ports, newToken, and how the call of
  -- EnableSplit or DisableSplit ends
  proceed : (tcp_owners udp_owners : List ℤ) → Option String → CallEnd → Action

abbrev pub is_armed : Grace → Bool
is_armed armed = true
is_armed _ = false

abbrev is_none {ℓ} : {A : Type ℓ} → Option A → Bool
is_none none = true
is_none (some _) = false

-- a timer's function runs once
unfoldable pub take_callback : ℕ → List ℕ → Option (List ℕ)
take_callback i [] = none
take_callback i (j ∷ js) =
    if i == j
    then some js
    else elim (take_callback i js) [ none ↦ none | some rest ↦ some (j ∷ rest) ]

-- whoever marked the session first finishes it
finish_if_first : System → ℕ → Service × Bool → System
finish_if_first y i (t, true) = record y { svc = t; op = some (finish_at i) }
finish_if_first y i (t, false) = record y { svc = t; op = none }

-- the function of detach's timer, with `op` held
pub run_callback : System → ℕ → System
unfolding finish_if_first mark_stop
run_callback y i =
    if eq_opt y.svc.sess (some i) && is_none (y.svc.heap i).conn
    then finish_if_first y i (mark_stop i none y.svc)
    else y

after_stop : System → Service × Stop → System
after_stop y (t, marked i true) = record y { svc = t; op = some (finish_at i) }
after_stop y (t, _) = record y { svc = t }

begin_enable : System → ℕ → List String → System
begin_enable y c [] = y
begin_enable y c names = record y { op = some (enable_at c (my_split c y.svc) names) }

begin_refresh : System → ℕ → Option ℕ → System
begin_refresh y c none = y
begin_refresh y c (some i) = record y { op = some (refresh_at c i) }

claim_split : System → ℕ → List String → Service × Claim → System
claim_split y c names (t, claimed i) = record y { svc = t; op = some (install_at c i names) }
claim_split y c names (t, refused _) = record y { svc = t; op = none }

-- the rules after a call that should leave none
rules_after : CallEnd → System → System
rules_after r y = record y { split_up = leaves_rules r; left_up = leaves_rules r }

-- EnableSplit failed
after_failure : System → ℕ → CallEnd → Service × Bool → System
unfolding drop_session rules_after
after_failure y i r (t, true) = rules_after r (record y { svc = drop_session i t; op = none })
after_failure y i r (t, false) = rules_after r (record y { svc = t; op = none })

release : System → System
release y = record y { op = none }

-- finish, at its switch
begin_finish : System → ℕ → CallEnd → Kind → System
unfolding rules_after
begin_finish y i r tun = record y {
  svc = set_session i (record (y.svc.heap i) { cancelled = true }) y.svc;
  op = some (wait_done i);
}
begin_finish y i r split = rules_after r (record y { op = some (drop_at i) })

module _ (peer : ℕ → Peer) where
  unfoldable pub go_on : Holder → List ℤ → List ℤ → Option String → CallEnd → System → System
  unfolding begin_finish release drop_session finish_if_first mark_stop claim_split claim
      after_failure redirect_owned_by
  go_on (finish_at i) tcp udp token r y = begin_finish y i r (y.svc.heap i).kind
  go_on (wait_done i) tcp udp token r y = if (y.svc.heap i).done then release y else y
  go_on (drop_at i) tcp udp token r y = record y { svc = drop_session i y.svc; op = none }
  go_on (refresh_at c i) tcp udp token r y = elim (redirect_owned_by (peer c).uid false tcp udp) [
    | none ↦ release y
    | some _ ↦ finish_if_first y i (mark_stop i (some c) y.svc)
  ]
  go_on (enable_at c mine names) tcp udp token r y =
      elim (redirect_owned_by (peer c).uid true tcp udp) [
        | some _ ↦ release y
        | none ↦ elim mine [
          | some i ↦ record y { op = some (install_at c i names) }
          | none ↦ claim_split y c names (claim peer c (new_session split "split") token y.svc)
        ]
      ]
  go_on (install_at c i names) tcp udp token succeeded y = record y {
    svc = set_session i (record (y.svc.heap i) { names = names }) y.svc;
    op = none;
    split_up = true;
    left_up = false;
  }
  go_on (install_at c i names) tcp udp token r y = after_failure y i r (mark_stop i (some c) y.svc)

  -- an action that takes `op`, when nobody has it
  unfoldable pub acquire : Action → System → System
  unfolding after_stop stop_begin mark_stop begin_refresh begin_enable take_callback run_callback
      finish_if_first
  acquire (stop_by c only_split) y = after_stop y (stop_begin c only_split y.svc)
  acquire (refresh_by c) y = begin_refresh y c (my_split c y.svc)
  acquire (enable_by c names) y = begin_enable y c names
  acquire (callback i) y = elim (take_callback i y.callbacks) [
    | none ↦ y
    | some rest ↦ run_callback (record y { callbacks = rest }) i
  ]
  acquire teardown y = elim y.shutting [
    | none ↦ y
    | some i ↦ finish_if_first y i (mark_stop i none y.svc)
  ]
  acquire _ y = y

  -- an action of one section under `mu`
  unfoldable pub run_section : Action → System → System
  unfolding resume detach claim tun_over
  run_section (resume_by c token) y = record y { svc = (resume peer c token y.svc).0 }
  run_section (detach_by c) y = record y { svc = detach peer c y.svc }
  run_section (start_tun c title token) y = record y {
    svc = (claim peer c (new_session tun title) token y.svc).0;
  }
  run_section (tun_ends i err) y =
      let x = y.svc.heap i in
      if ltb i y.svc.fresh && not (is_split x.kind) && not x.done
      then record y { svc = tun_over i err y.svc }
      else y
  run_section (fire i) y =
      let x = y.svc.heap i in
      if is_armed x.grace
      then record y {
        svc = set_session i (record x { grace = spent }) y.svc;
        callbacks = i ∷ y.callbacks;
      }
      else y
  run_section close_begin y =
      if y.svc.closing
      then y
      else record y { svc = record y.svc { closing = true }; shutting = y.svc.sess }
  run_section _ y = y

  -- the holder of `op`, if there is one, goes on
  unfoldable pub turn : Option Holder → List ℤ → List ℤ → Option String → CallEnd → System → System
  turn none tcp udp token r y = y
  turn (some h) tcp udp token r y = go_on h tcp udp token r y

  -- an action gets `op`, if nobody has it
  unfoldable pub contend : Option Holder → Action → System → System
  contend none a y = acquire a y
  contend (some _) a y = y

  unfoldable pub step : Action → System → System
  unfolding run_section acquire go_on turn contend
  step (proceed tcp udp token r) y = turn y.op tcp udp token r y
  step a y = let z = run_section a y in contend z.op a z

  -- any interleaving
  unfoldable pub run : List Action → System → System
  unfolding step
  run [] y = y
  run (a ∷ later) y = run later (step a y)
