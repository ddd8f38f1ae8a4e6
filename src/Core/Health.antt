-- ===== src/Core/Health.antt =====
-- internal/app/health.go and internal/tui/status.go: the results of the health checks, the
-- channel that takes them to the status screen, and the screen. A moment is a natural number,
-- `none` Go's zero time.
use xray_runner.Prelude.{
  ℕ, suc, Bool, true, false, Option, none, some, List, [], ◌∷◌, ◌++◌, String, length, ltb, ◌==◌,
  not, str_eq, if◌then◌else◌,
}
use Prim.Native.Nat.{max}

pub record StatusUpdate : Type 0 where
  pub ok : Bool
  pub latency : ℕ
  pub note : String
  pub err : Bool
  pub apps : Option (List String)
  pub reset_health : Bool
  pub generation : ℕ

-- the fields of App that statusMu guards; the channel's queue is oldest first
pub record Health : Type 0 where
  pub health_gen : ℕ
  pub last_check : Option ℕ
  pub last_check_ok : Bool
  pub status_ch : Option (List StatusUpdate)

-- what statusModel keeps of the updates
pub record Screen : Type 0 where
  pub apps : List String
  pub started : Option ℕ
  pub last : Option StatusUpdate
  pub note : String
  pub gen : ℕ

abbrev pub health_update : ℕ → Bool → ℕ → StatusUpdate
health_update gen ok latency = record {
  ok = ok;
  latency = if ok then latency else 0;
  note = "";
  err = false;
  apps = none;
  reset_health = false;
  generation = gen;
}

abbrev pub reset_update : ℕ → StatusUpdate
reset_update next = record {
  ok = false;
  latency = 0;
  note = "";
  err = false;
  apps = none;
  reset_health = true;
  generation = next;
}

-- a send that does not wait, to a channel of `size` places
unfoldable pub send : ℕ → StatusUpdate → List StatusUpdate → List StatusUpdate
send size u q = if ltb (length q) size then q ++ (u ∷ []) else q

-- sendStatusLocked, and publishStatus
unfoldable pub send_status : ℕ → StatusUpdate → Health → Health
unfolding send
send_status size u h = elim h.status_ch [
  | none ↦ h
  | some q ↦ record h { status_ch = some (send size u q) }
]

-- recordHealth
unfoldable pub record_health : ℕ → ℕ → Bool → ℕ → ℕ → Health → Health
unfolding send_status
record_health size gen ok latency now h =
    if not (gen == h.health_gen)
    then h
    else send_status size (health_update gen ok latency)
        (record h { last_check = some now; last_check_ok = ok })

-- the loop of resetHealth: `none` if it never ends, which takes a channel of no places
unfoldable pub send_evicting : ℕ → StatusUpdate → List StatusUpdate → Option (List StatusUpdate)
send_evicting size u [] = if ltb 0 size then some (u ∷ []) else none
send_evicting size u (v ∷ q) =
    let rest = send_evicting size u q in
    if ltb (length (v ∷ q)) size then some (v ∷ q ++ (u ∷ [])) else rest

-- resetHealth
unfoldable pub reset_health_to : ℕ → ℕ → Health → Option Health
unfolding send_evicting
reset_health_to size next h =
    let cleared = record h { health_gen = next; last_check = none; last_check_ok = false } in
    elim h.status_ch [
      | none ↦ some cleared
      | some q ↦ elim (send_evicting size (reset_update next) q) [
        | none ↦ none
        | some r ↦ some (record cleared { status_ch = some r })
      ]
    ]

-- the case StatusUpdate of statusModel.Update
unfoldable pub take_update : ℕ → StatusUpdate → Screen → Screen
take_update now u m =
    if u.reset_health
    then record m { last = none; started = none; gen = max m.gen u.generation }
    else elim u.apps [
      | some names ↦ record m { apps = names }
      | none ↦
          if not (str_eq u.note "")
          then record m { note = u.note }
          else if ltb u.generation m.gen
          then m
          else record m {
            last = some u;
            started = elim m.started [ some t ↦ some t | none ↦ if u.ok then some now else none ];
          }
    ]

-- one check of healthCheckLoop: the failed checks in a row, and whether a restart is asked for
unfoldable pub count_check : Bool → ℕ → ℕ × Bool
count_check ok fails =
    if not ok
    then (let failed = suc fails in if not (ltb failed 3) then (0, true) else (failed, false))
    else (0, false)

-- the counter of the loop after a sequence of checks
unfoldable pub fails_after : List Bool → ℕ
unfolding count_check
fails_after [] = 0
fails_after (ok ∷ earlier) = (count_check ok (fails_after earlier)).0

pub data HealthEvent : Type 0 where
  -- startTunHealth: the checks of a new core begin
  core_started : ℕ → HealthEvent
  -- a check of core gen: ok, latency, moment
  checked : ℕ → Bool → ℕ → ℕ → HealthEvent
  -- a core has stopped, the argument is the next one
  core_stopped : ℕ → HealthEvent
  published : StatusUpdate → HealthEvent
  -- the screen takes the oldest update
  shown : ℕ → HealthEvent

-- the two sides of the channel, and the first core whose results count since the last reset
pub record World : Type 0 where
  pub health : Health
  pub screen : Screen
  pub first_live : ℕ

unfoldable pub health_step : ℕ → HealthEvent → World → Option World
unfolding record_health send_status reset_health_to take_update
health_step size (core_started gen) w =
    some (record w { health = record w.health { health_gen = gen } })
health_step size (checked gen ok latency now) w =
    some (record w { health = record_health size gen ok latency now w.health })
health_step size (core_stopped next) w = elim (reset_health_to size next w.health) [
  | none ↦ none
  | some h ↦ some (record w { health = h; first_live = next })
]
health_step size (published u) w = some (record w { health = send_status size u w.health })
health_step size (shown now) w = elim w.health.status_ch [
  | some (u ∷ q) ↦ some (record w {
    health = record w.health { status_ch = some q };
    screen = take_update now u w.screen;
  })
  | _ ↦ some w
]

unfoldable pub health_run : ℕ → List HealthEvent → World → Option World
unfolding health_step
health_run size [] w = some w
health_run size (e ∷ es) w = elim (health_step size e w) [
  | none ↦ none
  | some v ↦ health_run size es v
]
