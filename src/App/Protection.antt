-- ===== src/App/Protection.antt =====
-- What a setup of internal/app/session.go that succeeds has brought up, and what no setup takes
-- down.
use xray_runner.Prelude.{
  Bool, true, false, not, ◌&&◌, ◌||◌, ◌≡◌, refl, Option, none, some, ltb, if◌then◌else◌, implies,
  if_lem, arith,
}
use xray_runner.App.Lifecycle.{
  SessionConfig, SetupError, no_bind, adapter_changed, Routes, routes_in, routes_failed, Attempt,
  Life, enable_tun_kill_switch, claim_routes, resolve_route, set_up,
}

-- what may be on the host is marked as to be taken down
abbrev pub is_claimed : Life → Bool
is_claimed l = implies l.host_routes l.tun_routed && implies l.host_kill_switch l.kill_switch_on

-- the session asks for a kill switch
abbrev pub wants_kill_switch : SessionConfig → Bool
wants_kill_switch cfg = cfg.kill_switch && not cfg.split

-- a setup's success needs the routes, and at first the kill switch
abbrev pub is_sound : SessionConfig → Life → Option SetupError → Life → Bool
is_sound cfg l (some why) m = true
is_sound cfg l none m =
    m.host_routes && (l.sent || implies (wants_kill_switch cfg) m.host_kill_switch)

pub record Advances (cfg : SessionConfig) (l : Life) (err : Option SetupError) (m : Life)
    : Type 0 where
  pub same_ready : m.ready ≡ l.ready
  pub same_sent : m.sent ≡ l.sent
  pub same_gen : m.gen ≡ l.gen
  pub same_health : m.health ≡ l.health
  pub keeps_kill : implies l.host_kill_switch m.host_kill_switch ≡ true
  pub keeps_claims : implies (is_claimed l) (is_claimed m) ≡ true
  pub sound : is_sound cfg l err m ≡ true

module _ (cfg : SessionConfig) (l : Life) where
  abbrev pub Advanced : Option SetupError × Life → Type 0
  Advanced r = Advances cfg l r.0 r.1

  abbrev claimed : Life
  claimed = record l { route = true; tun_routed = true; host_routes = true }

  kill_switch-Advances :
      (a : Attempt) → l.sent ≡ false → Advanced (enable_tun_kill_switch cfg a claimed)
  unfolding enable_tun_kill_switch
  kill_switch-Advances a s =
      if_lem Advanced (not cfg.kill_switch || cfg.split) _ _
        (λ q. record {
          same_ready = refl;
          same_sent = refl;
          same_gen = refl;
          same_health = refl;
          keeps_kill = ground arith;
          keeps_claims = ground arith;
          sound = ground arith;
        })
        (λ q.
          if_lem Advanced (not a.endpoints) _ _
            (λ r. record {
              same_ready = refl;
              same_sent = refl;
              same_gen = refl;
              same_health = refl;
              keeps_kill = ground arith;
              keeps_claims = ground arith;
              sound = ground arith;
            })
            (λ r.
              if_lem Advanced (not a.kill_switch_up) _ _
                (λ t. record {
                  same_ready = refl;
                  same_sent = refl;
                  same_gen = refl;
                  same_health = refl;
                  keeps_kill = ground arith;
                  keeps_claims = ground arith;
                  sound = ground arith;
                })
                (λ t. record {
                  same_ready = refl;
                  same_sent = refl;
                  same_gen = refl;
                  same_health = refl;
                  keeps_kill = ground arith;
                  keeps_claims = ground arith;
                  sound = ground arith;
                })))

  claim_routes-Advances :
      (a : Attempt) (r : Routes)
      → a.routes ≡ r
      → Advanced (claim_routes cfg a (record l { route = true }))
  unfolding claim_routes
  claim_routes-Advances a (routes_failed no_route left) q = rw q (record {
    same_ready = refl;
    same_sent = refl;
    same_gen = refl;
    same_health = refl;
    keeps_kill = ground arith;
    keeps_claims = ground arith;
    sound = ground arith;
  })
  claim_routes-Advances a routes_in q = rw q (
      if_lem Advanced l.sent _ _
        (λ s. record {
          same_ready = refl;
          same_sent = refl;
          same_gen = refl;
          same_health = refl;
          keeps_kill = ground arith;
          keeps_claims = ground arith;
          sound = ground arith;
        })
        (λ s. kill_switch-Advances a s))

  resolve_route-Advances : (a : Attempt) → Advanced (resolve_route cfg a l)
  unfolding resolve_route
  resolve_route-Advances a =
      if_lem Advanced (not a.interface_up) _ _
        (λ q. record {
          same_ready = refl;
          same_sent = refl;
          same_gen = refl;
          same_health = refl;
          keeps_kill = ground arith;
          keeps_claims = ground arith;
          sound = ground arith;
        })
        (λ q.
          if_lem Advanced (not l.route && not a.server_ip) _ _
            (λ r. record {
              same_ready = refl;
              same_sent = refl;
              same_gen = refl;
              same_health = refl;
              keeps_kill = ground arith;
              keeps_claims = ground arith;
              sound = ground arith;
            })
            (λ r. claim_routes-Advances a a.routes refl))

  bound-Advances :
      (a : Attempt) (bind : Option Bool)
      → Advanced (elim bind [
        | some no_route ↦ (some (no_bind no_route), l)
        | none ↦ if not a.same_adapter then (some adapter_changed, l) else resolve_route cfg a l
      ])
  bound-Advances a (some no_route) = record {
    same_ready = refl;
    same_sent = refl;
    same_gen = refl;
    same_health = refl;
    keeps_kill = ground arith;
    keeps_claims = ground arith;
    sound = ground arith;
  }
  bound-Advances a none =
      if_lem Advanced (not a.same_adapter) _ _
        (λ q. record {
          same_ready = refl;
          same_sent = refl;
          same_gen = refl;
          same_health = refl;
          keeps_kill = ground arith;
          keeps_claims = ground arith;
          sound = ground arith;
        })
        (λ q. resolve_route-Advances a)

  pub set_up-Advances : (a : Attempt) → Advanced (set_up cfg a l)
  unfolding set_up
  set_up-Advances a =
      if_lem Advanced (ltb 1 l.gen) _ _ (λ q. bound-Advances a a.bind_err)
        (λ q. resolve_route-Advances a)
