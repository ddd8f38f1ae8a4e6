-- ===== src/App/Sessions.antt =====
-- A TUN session of internal/app/session.go from its first core to its release.
use xray_runner.Prelude.{
  &&_split, subst, Bool, true, false, not, ◌&&◌, ◌≡◌, refl, Option, none, some, List, [], ◌∷◌,
  implies, if_lem, arith, if◌then◌else◌, ap,
}
use xray_runner.App.Lifecycle.{
  SessionConfig, SetupError, Life, new_life, after_start, disable_routing, release_session, CoreRun,
  run_core, run_cores, release_all,
}
use xray_runner.App.Protection.{is_claimed, wants_kill_switch}
use xray_runner.App.Steady.{IsUp, is_steady, ready_ok, after_start-Started, after_stop-steady}

run_core-steady :
    (cfg : SessionConfig) (c : CoreRun) (l : Life)
    → is_steady cfg l ≡ true
    → is_steady cfg (run_core cfg c l) ≡ true
unfolding run_core
run_core-steady cfg c l h =
    after_stop-steady cfg c.stop_fails (after_start cfg c.attempts c.cancelled l).1
      (after_start-Started cfg c.attempts c.cancelled l h).0

run_cores-kept :
    (cfg : SessionConfig) (cores : List CoreRun) (l : Life)
    → is_steady cfg l ≡ true
    → is_steady cfg (run_cores cfg cores l) ≡ true
unfolding run_cores
run_cores-kept cfg [] l h = h
run_cores-kept cfg (c ∷ cores) l h =
    run_cores-kept cfg cores (run_core cfg c l) (run_core-steady cfg c l h)

-- After any number of core processes, however their setups, their cleanups and the network went: the
-- result of bring-up was sent at most once, and exactly if it counts as sent; once a success was
-- sent, a kill switch that was asked for outside split mode is up; and what may be on the host
-- is marked as to be taken down.
pub run_cores-steady :
    (cfg : SessionConfig) (cores : List CoreRun)
    → is_steady cfg (run_cores cfg cores new_life) ≡ true
run_cores-steady cfg cores = run_cores-kept cfg cores new_life refl

ready_ok-success :
    (wanted : Bool) (ready : List (Option SetupError)) (sent kill : Bool)
    → ready_ok wanted ready sent kill ≡ true
    → ready ≡ none ∷ []
    → implies wanted kill ≡ true
ready_ok-success wanted ready sent kill h q =
    ground (arith, ap (λ r. ready_ok wanted r sent kill) q)

-- In every core process of a session whose bring-up was reported as a success: when the setup of
-- that core ends without an error, then the routes are in, the health of this core is watched,
-- and a kill switch that was asked for outside split mode is up.
pub connected_is_protected :
    (cfg : SessionConfig) (cores : List CoreRun) (c : CoreRun)
    → (after_start cfg c.attempts c.cancelled (run_cores cfg cores new_life)).0 ≡ some none
    → (after_start cfg c.attempts c.cancelled (run_cores cfg cores new_life)).1.ready ≡ none ∷ []
    → ((after_start cfg c.attempts c.cancelled (run_cores cfg cores new_life)).1.host_routes ≡ true)
      × ((after_start cfg c.attempts c.cancelled (run_cores cfg cores new_life)).1.health
          ≡ some (after_start cfg c.attempts c.cancelled (run_cores cfg cores new_life)).1.gen)
      × (implies
            (wants_kill_switch cfg)
            (after_start cfg c.attempts c.cancelled
              (run_cores cfg cores new_life)).1.host_kill_switch
          ≡ true)
connected_is_protected cfg cores c h q =
    let r = after_start cfg c.attempts c.cancelled (run_cores cfg cores new_life) in
    let (steady, up) =
      after_start-Started cfg c.attempts c.cancelled (run_cores cfg cores new_life)
        (run_cores-steady cfg cores) in
    let (routes, health) = subst (IsUp r.1) h up in
    (
      routes,
      health,
      ready_ok-success (wants_kill_switch cfg) r.1.ready r.1.sent r.1.host_kill_switch
          (&&_split _ (is_claimed r.1) steady).0 q,
    )

disable_routing-claimed :
    (f : Bool) (l : Life) → is_claimed l ≡ true → is_claimed (disable_routing f l) ≡ true
disable_routing-claimed true l h = h
disable_routing-claimed false l h = ground arith

release-claimed :
    (f g : Bool) (l : Life) → is_claimed l ≡ true → is_claimed (release_session f g l) ≡ true
unfolding release_session
release-claimed f g l h =
    let m = if l.tun_routed then disable_routing f l else l in
    let c : is_claimed m ≡ true =
      if_lem (λ x. is_claimed x ≡ true) l.tun_routed (disable_routing f l) l
        (λ q. disable_routing-claimed f l h) (λ q. h) in
    if_lem (λ x. is_claimed x ≡ true) (m.kill_switch_on && not g) _ m (λ q. ground (arith, c))
      (λ q. c)

release_all-claimed :
    (fails : List (Bool × Bool)) (l : Life)
    → is_claimed l ≡ true
    → is_claimed (release_all fails l) ≡ true
unfolding release_all
release_all-claimed [] l h = h
release_all-claimed (f ∷ fails) l h =
    release_all-claimed fails (release_session f.0 f.1 l) (release-claimed f.0 f.1 l h)

-- a release whose calls succeed leaves nothing that was claimed
release-clean :
    (l : Life)
    → is_claimed l ≡ true
    → ((release_session false false l).host_routes ≡ false)
      × ((release_session false false l).host_kill_switch ≡ false)
unfolding release_session
release-clean l h =
    let m = if l.tun_routed then disable_routing false l else l in
    let c : is_claimed m ≡ true =
      if_lem (λ x. is_claimed x ≡ true) l.tun_routed (disable_routing false l) l
        (λ q. disable_routing-claimed false l h) (λ q. h) in
    let gone : m.host_routes ≡ false =
      if_lem (λ x. x.host_routes ≡ false) l.tun_routed (disable_routing false l) l (λ q. refl)
        (λ q. ground (arith, h, q)) in
    if_lem (λ x. (x.host_routes ≡ false) × (x.host_kill_switch ≡ false))
      (m.kill_switch_on && not false) _ m (λ q. (gone, refl)) (λ q. (gone, ground (arith, c, q)))

-- After any number of core processes, and any number of releases whose calls may have failed, a
-- release whose calls succeed leaves neither routes nor the kill switch of the session on the
-- host.
pub release_cleans :
    (cfg : SessionConfig) (cores : List CoreRun) (fails : List (Bool × Bool))
    → ((release_session false false (release_all fails (run_cores cfg cores new_life))).host_routes
        ≡ false)
      × ((release_session false false
            (release_all fails (run_cores cfg cores new_life))).host_kill_switch
          ≡ false)
release_cleans cfg cores fails =
    let l = run_cores cfg cores new_life in
    release-clean (release_all fails l) (
      release_all-claimed fails l
        (&&_split (ready_ok (wants_kill_switch cfg) l.ready l.sent l.host_kill_switch) _
          (run_cores-steady cfg cores)).1)
