-- ===== src/Core/Freshness.antt =====
-- What the status screen shows of the health of cores that have stopped (internal/app/health.go,
-- internal/tui/status.go).
use xray_runner.Prelude.{
  ℕ, ◌≤◌, ◌≡◌, ◌⊎◌, inl, inr, Bool, true, false, Option, none, some, List, [], ◌∷◌, String, arith,
  refl, sym, subst, ◌∙◌, ◌==◌, Bool-cases,
}
use xray_runner.Core.Health.{
  StatusUpdate, Health, World, HealthEvent, core_started, checked, core_stopped, published, shown,
  send, send_status, record_health, reset_health_to, take_update, health_step, health_run,
  health_update,
}
use xray_runner.Core.Views.{
  View, view, is_notice, view-take_update, read_all, IsLive, QueueInv, reset_keeps, send_keeps,
  higher, read_keeps,
}

-- cores are numbered upwards, and only notices are published
abbrev pub IsForward : HealthEvent → Health → Type 0
IsForward (core_started gen) h = h.health_gen ≤ gen
IsForward (checked gen ok latency now) h = Unit
IsForward (core_stopped next) h = h.health_gen ≤ next
IsForward (published u) h = (u.reset_health ≡ false) × (is_notice u ≡ true)
IsForward (shown now) h = Unit

unfoldable pub AllForward : ℕ → List HealthEvent → World → Type 0
unfolding health_step
AllForward size [] w = Unit
AllForward size (e ∷ es) w =
    IsForward e w.health
    × elim (health_step size e w) [ none ↦ Unit | some v ↦ AllForward size es v ]

abbrev HealthInv : ℕ → View → Health → Type 0
HealthInv low v h = (q : List StatusUpdate) × (h.status_ch ≡ some q) × QueueInv low h.health_gen q v

abbrev pub WorldInv : World → Type 0
WorldInv w = HealthInv w.first_live (view w.screen) w.health

send_status-Inv :
    (size low : ℕ) (u : StatusUpdate) (v : View) (h : Health)
    → u.reset_health ≡ false
    → (is_notice u ≡ true) ⊎ ((low ≤ u.generation) × (u.generation ≤ h.health_gen))
    → HealthInv low v h
    → HealthInv low v (send_status size u h)
unfolding send_status
send_status-Inv size low u v h r n (q, eq, inv) =
    (send size u q, rw eq refl, rw eq (send_keeps size low h.health_gen u q v r n inv))

record_health-Inv :
    (size low gen : ℕ) (ok : Bool) (latency now : ℕ) (v : View) (h : Health)
    → HealthInv low v h
    → HealthInv low v (record_health size gen ok latency now h)
unfolding record_health
record_health-Inv size low gen ok latency now v h (q, eq, inv) =
    elim (Bool-cases (gen == h.health_gen)) [
      | inr stale ↦ rw stale (q, eq, inv)
      | inl live ↦ rw live (
          send_status-Inv size low (health_update gen ok latency) v
            (record h { last_check = some now; last_check_ok = ok }) refl (inr (ground arith))
            (q, eq, inv))
    ]

reset-Inv :
    (size low next : ℕ) (v : View) (h : Health)
    → 1 ≤ size
    → h.health_gen ≤ next
    → HealthInv low v h
    → (g : Health) × (reset_health_to size next h ≡ some g) × HealthInv next v g
unfolding reset_health_to
reset-Inv size low next v h s hn (q, eq, inv) =
    let (r, sent, kept) = reset_keeps size low h.health_gen next q v s hn inv in
    (
      record h { health_gen = next; last_check = none; last_check_ok = false; status_ch = some r },
      rw (reset_health_to, eq, sent) refl,
      (r, refl, kept),
    )

health_step-Inv :
    (size : ℕ) (e : HealthEvent) (w : World)
    → 1 ≤ size
    → IsForward e w.health
    → WorldInv w
    → (v : World) × (health_step size e w ≡ some v) × WorldInv v
unfolding health_step
health_step-Inv size (core_started gen) w h f (q, eq, inv) =
    (_, refl, (q, eq, higher w.first_live w.health.health_gen gen q (view w.screen) f inv))
health_step-Inv size (checked gen ok latency now) w h f inv =
    (_, refl, record_health-Inv size w.first_live gen ok latency now (view w.screen) w.health inv)
health_step-Inv size (core_stopped next) w h f inv =
    let (g, eq, kept) = reset-Inv size w.first_live next (view w.screen) w.health h f inv in
    (record w { health = g; first_live = next }, rw (health_step, eq) refl, kept)
health_step-Inv size (published u) w h (r, n) inv =
    (_, refl, send_status-Inv size w.first_live u (view w.screen) w.health r (inl n) inv)
health_step-Inv size (shown now) w h f ([], eq, inv) = (w, rw eq refl, ([], eq, inv))
health_step-Inv size (shown now) w h f (u ∷ q, eq, inv) = (
  record w { health = record w.health { status_ch = some q }; screen = take_update now u w.screen },
  rw eq refl,
  (
    q,
    refl,
    subst (QueueInv w.first_live w.health.health_gen q) (sym (view-take_update now u w.screen))
        (read_keeps w.first_live w.health.health_gen u q (view w.screen) inv),
  ),
)

health_run-Inv :
    (size : ℕ) (es : List HealthEvent) (w : World)
    → 1 ≤ size
    → AllForward size es w
    → WorldInv w
    → (v : World) × (health_run size es w ≡ some v) × WorldInv v
unfolding health_run AllForward
health_run-Inv size [] w h f inv = (w, refl, inv)
health_run-Inv size (e ∷ es) w h (f, fs) inv =
    let (v, eq, kept) = health_step-Inv size e w h f inv in
    rw (health_run, eq) (health_run-Inv size es v h (rw eq at fs) kept)

drained :
    (w : World)
    → WorldInv w
    → w.health.status_ch ≡ some []
    → (w.screen.gen ≡ w.first_live) × IsLive w.first_live w.health.health_gen w.screen.last
unfolding read_all
drained w ([], eq, (lh, vl, e, g, l)) s = (g, l)
drained w (u ∷ q, eq, inv) s = absurd (cc)

-- a session's screen has just come up
abbrev pub new_world : List String → ℕ → World
new_world apps gen = record {
  health = record {
    health_gen = gen;
    last_check = none;
    last_check_ok = false;
    status_ch = some [];
  };
  screen = record { apps = apps; started = none; last = none; note = ""; gen = 0 };
  first_live = 0;
}

-- Over a channel that has a place, with cores numbered upwards and only notices published, no
-- reset waits for ever: every sequence of events from a new screen goes through.
pub health_run_total :
    (size gen : ℕ) (apps : List String) (es : List HealthEvent)
    → 1 ≤ size
    → AllForward size es (new_world apps gen)
    → (w : World) × (health_run size es (new_world apps gen) ≡ some w) × WorldInv w
unfolding read_all
health_run_total size gen apps es h f =
    health_run-Inv size es (new_world apps gen) h f
      ([], refl, (omega arith, omega arith, tt, refl, tt))

same_world : (v w : World) → ◌≡◌ {A = Option World} (some v) (some w) → v ≡ w
same_world v w e = cc e

-- After any sequence of events from a new screen, over a channel that has a place, with cores
-- numbered upwards and only notices published: if the screen has read all that is in the channel,
-- the result it shows, if any, is of no core that was stopped before the last reset.
pub no_stale_health :
    (size gen : ℕ) (apps : List String) (es : List HealthEvent) (w : World)
    → 1 ≤ size
    → AllForward size es (new_world apps gen)
    → health_run size es (new_world apps gen) ≡ some w
    → w.health.status_ch ≡ some []
    → (w.screen.gen ≡ w.first_live) × IsLive w.first_live w.health.health_gen w.screen.last
no_stale_health size gen apps es w h f e s =
    let (v, eq, inv) = health_run_total size gen apps es h f in
    drained w (subst WorldInv (same_world v w (sym eq ∙ e)) inv) s
