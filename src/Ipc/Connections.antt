-- ===== src/Ipc/Connections.antt =====
-- internal/ipc/server.go: how many connections the service serves at once.
use xray_runner.Prelude.{
  ℕ, suc, ◌-◌, ◌≤◌, ◌≡◌, Bool, true, false, List, [], ◌∷◌, ltb, if◌then◌else◌, arith,
}

abbrev pub max_conns : ℕ
max_conns = 64

-- admit: whether the connection is served, and the count after it
unfoldable pub admit : ℕ → ℕ → Bool × ℕ
admit max_open live =
    let added = suc live in if ltb max_open added then (false, added - 1) else (true, added)

pub data ConnEvent : Type 0 where
  arrives : ConnEvent
  -- the rw of a served connection is closed
  closes : ConnEvent

-- the count, and the connections that are served and not closed
unfoldable pub run_conns : ℕ → List ConnEvent → ℕ × ℕ
unfolding admit
run_conns max_open [] = (0, 0)
run_conns max_open (arrives ∷ earlier) =
    let (live, served) = run_conns max_open earlier in
    let (taken, counted) = admit max_open live in (counted, if taken then suc served else served)
run_conns max_open (closes ∷ earlier) =
    let (live, served) = run_conns max_open earlier in
    if ltb 0 served then (live - 1, served - 1) else (live, served)

-- After any sequence of arrivals and closes, the newest first, the count is the number of
-- connections that are served, and that is at most the limit.
pub run_conns-bound :
    (max_open : ℕ) (events : List ConnEvent)
    → ((run_conns max_open events).0 ≡ (run_conns max_open events).1)
      × ((run_conns max_open events).1 ≤ max_open)
unfolding run_conns admit
run_conns-bound max_open [] = ground arith
run_conns-bound max_open (arrives ∷ earlier) = ground (arith, run_conns-bound max_open earlier)
run_conns-bound max_open (closes ∷ earlier) = ground (arith, run_conns-bound max_open earlier)
