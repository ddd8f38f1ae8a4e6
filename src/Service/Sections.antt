-- ===== src/Service/Sections.antt =====
-- What internal/service/service.go does under one hold of `mu`: each function is one such
-- section, so no other step falls inside it.
use xray_runner.Prelude.{
  ℕ, suc, Bool, true, false, not, ◌&&◌, ◌||◌, Option, none, some, String, List, ◌∷◌, if◌then◌else◌,
  str_eq,
}
use xray_runner.Service.State.{
  Peer, Kind, tun, split, Grace, no_timer, armed, spent, Session, Service, update, eq_opt,
}

-- attached
abbrev pub holder : (ℕ → Session) → Option ℕ → Option ℕ
holder heap none = none
holder heap (some i) = (heap i).conn

abbrev pub attached : Service → Service
attached s = record s { log_to = holder s.heap s.sess }

abbrev pub set_session : ℕ → Session → Service → Service
set_session i x s = record s { heap = update s.heap i x }

abbrev pub close_old : Option ℕ → List ℕ → List ℕ
close_old none closed = closed
close_old (some old) closed = old ∷ closed

-- `grace.Stop()` on a timer that is there
abbrev pub stop_timer : Grace → Grace
stop_timer no_timer = no_timer
stop_timer _ = spent

abbrev pub is_split : Kind → Bool
is_split split = true
is_split tun = false

-- why claim refuses
pub data Refusal : Type 0 where
  service_closing : Refusal
  already_running : Kind → Refusal
  yours_elsewhere other_user no_random : Refusal

pub data Claim : Type 0 where
  claimed : ℕ → Claim
  refused : Refusal → Claim

-- what the first section of stop found
pub data Stop : Type 0 where
  nothing not_yours : Stop
  marked : ℕ → Bool → Stop

-- markStop
unfoldable pub mark_stop : ℕ → Option ℕ → Service → Service × Bool
mark_stop i by s =
    let x = s.heap i in
    if x.stopping
    then (s, false)
    else (set_session i (record x { stopping = true; stopped_by = by; grace = no_timer }) s, true)

-- the session is forgotten, if it is the current one
abbrev pub forget : ℕ → Service → Service
forget i s = if eq_opt s.sess (some i) then attached (record s { sess = none }) else s

-- drop
unfoldable pub drop_session : ℕ → Service → Service
drop_session i s = let t = forget i s in set_session i (record (t.heap i) { done = true }) t

-- the section at the end of startTun's goroutine, and the close of `done` behind it
unfoldable pub tun_over : ℕ → Option String → Service → Service
tun_over i err s =
    let t = forget i s in
    let x = t.heap i in
    let told = not (eq_opt x.conn x.stopped_by) in
    set_session i
      (record x {
        grace = stop_timer x.grace;
        ended_to = if told then x.conn else x.ended_to;
        ended_err = if told then err else x.ended_err;
        cancelled = true;
        done = true;
      })
      t

module _ (peer : ℕ → Peer) where
  -- the guard of resume
  abbrev pub may_resume : ℕ → String → Service → Session → Bool
  may_resume c token s x =
      not
        (x.stopping || s.closing || not (str_eq x.owner (peer c).key) || not (str_eq x.token token))

  unfoldable pub resume : ℕ → String → Service → Service × Bool
  resume c token s = elim s.sess [
    | none ↦ (s, false)
    | some i ↦
        let x = s.heap i in
        if may_resume c token s x
        then (
          attached (record s {
            heap = update s.heap i (record x { grace = no_timer; conn = some c });
            closed = close_old x.conn s.closed;
          }),
          true,
        )
        else (s, false)
  ]

  -- detach, up to the timer's own function
  unfoldable pub detach : ℕ → Service → Service
  detach c s = elim s.sess [
    | none ↦ s
    | some i ↦
        let x = s.heap i in
        if eq_opt x.conn (some c)
        then attached (set_session i (record x { conn = none; grace = armed }) s)
        else s
  ]

  -- claim; `token` is what newToken gave, none on its error
  unfoldable pub claim : ℕ → Session → Option String → Service → Service × Claim
  claim c x token s = if s.closing then (s, refused service_closing) else elim s.sess [
    | some i ↦
        let cur = s.heap i in
        if eq_opt cur.conn (some c)
        then (s, refused (already_running cur.kind))
        else if str_eq cur.owner (peer c).key
        then (s, refused yours_elsewhere)
        else (s, refused other_user)
    | none ↦ elim token [
      | none ↦ (s, refused no_random)
      | some t ↦ (
        attached (record s {
          heap =
              update s.heap s.fresh
                (record x { token = t; owner = (peer c).key; uid = (peer c).uid; conn = some c });
          fresh = suc s.fresh;
          sess = some s.fresh;
        }),
        claimed s.fresh,
      )
    ]
  ]

-- the first section of stop; `only_split` is kind "split"
unfoldable pub stop_begin : ℕ → Bool → Service → Service × Stop
unfolding mark_stop
stop_begin c only_split s = elim s.sess [
  | none ↦ (s, nothing)
  | some i ↦
      let x = s.heap i in
      if only_split && not (is_split x.kind)
      then (s, nothing)
      else if not (eq_opt x.conn (some c))
      then (s, not_yours)
      else let (t, first) = mark_stop i (some c) s in (t, marked i first)
]

-- `mine` of split and closeConns
abbrev pub my_split : ℕ → Service → Option ℕ
my_split c s = elim s.sess [
  | none ↦ none
  | some i ↦
      let x = s.heap i in
      if is_split x.kind && eq_opt x.conn (some c) && not x.stopping then some i else none
]
