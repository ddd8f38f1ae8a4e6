-- ===== src/App/Lifecycle.antt =====
-- tunLifecycle of internal/app/session.go with enableTunKillSwitch and releaseSession: how a TUN
-- session is set up around every core process, and taken down.
use xray_runner.Prelude.{
  ℕ, suc, Bool, true, false, not, ◌&&◌, ◌||◌, Option, none, some, List, [], ◌∷◌, ◌++◌, ltb,
  if◌then◌else◌,
}

-- the settings of the session
pub record SessionConfig : Type 0 where
  pub kill_switch : Bool
  pub split : Bool

-- why a setup failed; the flag of two of them says that there is no route out (ErrNoRoute)
pub data SetupError : Type 0 where
  adapter_changed no_interface no_server_ip no_endpoints kill_switch_failed : SetupError
  no_bind no_routes : Bool → SetupError

-- what EnableTunRouting does: nil, or an error after which entries of ours may be left
pub data Routes : Type 0 where
  routes_in : Routes
  routes_failed : Bool → Bool → Routes

-- what the calls of one run of setUp meet: the error of directBind, whether its adapter is the one
-- that the config was built for, whether the interface came up, whether an address of a server
-- was found, what the routes do, whether the kill switch has an endpoint and whether it comes up;
-- and whether the session is cancelled in the wait behind it
pub record Attempt : Type 0 where
  pub bind_err : Option Bool
  pub same_adapter : Bool
  pub interface_up : Bool
  pub server_ip : Bool
  pub routes : Routes
  pub endpoints : Bool
  pub kill_switch_up : Bool
  pub cancelled_waiting : Bool

-- the fields of tunLifecycle and App, and, of the host, whether entries of ours may be in its
-- routes and whether the kill switch is up
pub record Life : Type 0 where
  pub gen : ℕ
  pub route : Bool
  pub health : Option ℕ
  pub ready : List (Option SetupError)
  pub sent : Bool
  pub failed : Option SetupError
  pub tun_routed : Bool
  pub kill_switch_on : Bool
  pub host_routes : Bool
  pub host_kill_switch : Bool

-- newTunLifecycle, on a host with nothing of ours
abbrev pub new_life : Life
new_life = record {
  gen = 0;
  route = false;
  health = none;
  ready = [];
  sent = false;
  failed = none;
  tun_routed = false;
  kill_switch_on = false;
  host_routes = false;
  host_kill_switch = false;
}

-- enableTunKillSwitch
unfoldable pub enable_tun_kill_switch : SessionConfig → Attempt → Life → Option SetupError × Life
enable_tun_kill_switch cfg a l =
    if not cfg.kill_switch || cfg.split
    then (none, l)
    else if not a.endpoints
    then (some no_endpoints, l)
    else if not a.kill_switch_up
    then (some kill_switch_failed, l)
    else (none, record l { kill_switch_on = true; host_kill_switch = true })

-- setUp from its claim of the routes on
unfoldable pub claim_routes : SessionConfig → Attempt → Life → Option SetupError × Life
unfolding enable_tun_kill_switch
claim_routes cfg a l = elim a.routes [
  | routes_failed no_route left ↦
      (some (no_routes no_route), record l { tun_routed = true; host_routes = left })
  | routes_in ↦
      let claimed = record l { tun_routed = true; host_routes = true } in
      if l.sent then (none, claimed) else enable_tun_kill_switch cfg a claimed
]

-- setUp behind its look at the adapter
unfoldable pub resolve_route : SessionConfig → Attempt → Life → Option SetupError × Life
unfolding claim_routes
resolve_route cfg a l =
    if not a.interface_up
    then (some no_interface, l)
    else if not l.route && not a.server_ip
    then (some no_server_ip, l)
    else claim_routes cfg a (record l { route = true })

-- setUp
unfoldable pub set_up : SessionConfig → Attempt → Life → Option SetupError × Life
unfolding resolve_route
set_up cfg a l =
    if ltb 1 l.gen
    then elim a.bind_err [
      | some no_route ↦ (some (no_bind no_route), l)
      | none ↦ if not a.same_adapter then (some adapter_changed, l) else resolve_route cfg a l
    ]
    else resolve_route cfg a l

-- errors.Is(err, system.ErrNoRoute)
abbrev pub is_no_route : SetupError → Bool
is_no_route (no_bind flag) = flag
is_no_route (no_routes flag) = flag
is_no_route _ = false

abbrev pub waits : Option SetupError → Bool → Bool
waits none sent = false
waits (some why) sent = sent && is_no_route why

-- setUpOnline on the attempts that its loop makes; `none` is a loop that is not over
unfoldable pub set_up_online :
    SessionConfig → List Attempt → Life → Option (Option SetupError) × Life
unfolding set_up
set_up_online cfg [] l = (none, l)
set_up_online cfg (a ∷ attempts) l =
    let (err, m) = set_up cfg a l in
    let later = set_up_online cfg attempts m in
    if not (waits err m.sent) || a.cancelled_waiting then (some err, m) else later

-- afterStart behind setUpOnline
unfoldable pub finish_start : Bool → Option SetupError → Life → Option SetupError × Life
finish_start cancelled (some why) l = if cancelled then (some why, l) else (
  some why,
  record l {
    failed = some why;
    sent = true;
    ready = if l.sent then l.ready else l.ready ++ (some why ∷ []);
  },
)
finish_start cancelled none l = (
  none,
  record l {
    health = some l.gen;
    sent = true;
    ready = if l.sent then l.ready else l.ready ++ (none ∷ []);
  },
)

abbrev pub finish_online :
    Bool → Option (Option SetupError) × Life → Option (Option SetupError) × Life
finish_online cancelled (none, l) = (none, l)
finish_online cancelled (some err, l) =
    (some (finish_start cancelled err l).0, (finish_start cancelled err l).1)

-- afterStart; the flag says whether the session is cancelled when its setup has returned
unfoldable pub after_start :
    SessionConfig → List Attempt → Bool → Life → Option (Option SetupError) × Life
unfolding set_up_online finish_start
after_start cfg attempts cancelled l =
    finish_online cancelled
      (set_up_online cfg attempts (record l { gen = suc l.gen; failed = none }))

-- disableTunRouting, that may fail and then leave entries
abbrev pub disable_routing : Bool → Life → Life
disable_routing true l = l
disable_routing false l = record l { tun_routed = false; host_routes = false }

-- afterStop; the flag is an error of disableTunRouting
unfoldable pub after_stop : Bool → Life → Bool × Life
after_stop fails l =
    let m = record l { health = none } in
    if not m.tun_routed then (false, m) else (fails, disable_routing fails m)

-- releaseSession, less the proxy, the split and the core; the flags are errors of
-- disableTunRouting and disableKillSwitch
unfoldable pub release_session : Bool → Bool → Life → Life
release_session routes_fail kill_fails l =
    let m = if l.tun_routed then disable_routing routes_fail l else l in
    if m.kill_switch_on && not kill_fails
    then record m { kill_switch_on = false; host_kill_switch = false }
    else m

-- one core process of the session, whose hooks RunWithRetryHooks calls: afterStart once it has
-- started, afterStop once it is gone
pub record CoreRun : Type 0 where
  pub attempts : List Attempt
  pub cancelled : Bool
  pub stop_fails : Bool

unfoldable pub run_core : SessionConfig → CoreRun → Life → Life
unfolding after_start after_stop
run_core cfg c l = (after_stop c.stop_fails (after_start cfg c.attempts c.cancelled l).1).1

unfoldable pub run_cores : SessionConfig → List CoreRun → Life → Life
unfolding run_core
run_cores cfg [] l = l
run_cores cfg (c ∷ cores) l = run_cores cfg cores (run_core cfg c l)

-- the releases that follow: the session's own, the next session's start, the exit
unfoldable pub release_all : List (Bool × Bool) → Life → Life
unfolding release_session
release_all [] l = l
release_all (f ∷ fails) l = release_all fails (release_session f.0 f.1 l)
