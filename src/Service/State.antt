-- ===== src/Service/State.antt =====
-- The state of `Service` and `session` in internal/service/service.go. A pointer is a number: of
-- a session, its place in the heap of sessions; of a connection, its name.
use xray_runner.Prelude.{
  ℕ, Bool, true, false, Option, none, some, String, List, [], ◌==◌, if◌then◌else◌,
}
use xray_runner.Prelude.Int.{ℤ}

-- ipc.Peer, less the name for the log
pub record Peer : Type 0 where
  pub key : String
  pub uid : ℤ

pub data Kind : Type 0 where
  tun split : Kind

-- `sess.grace`: nil, a timer that has not fired, or one that has fired or was stopped
pub data Grace : Type 0 where
  no_timer armed spent : Grace

pub record Session : Type 0 where
  pub kind : Kind
  pub title : String
  pub owner : String
  pub uid : ℤ
  pub token : String
  pub conn : Option ℕ
  pub grace : Grace
  pub stopping : Bool
  pub stopped_by : Option ℕ
  pub done : Bool
  pub cancelled : Bool
  pub ended_to : Option ℕ
  pub ended_err : Option String
  pub names : List String

pub record Service : Type 0 where
  pub heap : ℕ → Session
  -- sessions 0 .. fresh - 1 were made
  pub fresh : ℕ
  pub sess : Option ℕ
  pub closing : Bool
  pub log_to : Option ℕ
  -- the connections that the service closed itself
  pub closed : List ℕ

module _ {ℓ} {A : Type ℓ} where
  abbrev pub update : (ℕ → A) → ℕ → A → ℕ → A
  update h i v j = if i == j then v else h j

abbrev pub eq_opt : Option ℕ → Option ℕ → Bool
eq_opt none none = true
eq_opt (some a) (some b) = a == b
eq_opt _ _ = false

-- the literal that startTun and split make, before claim fills it in
abbrev pub new_session : Kind → String → Session
new_session kind title = record {
  kind = kind;
  title = title;
  owner = "";
  uid = ℤ.pos 0;
  token = "";
  conn = none;
  grace = no_timer;
  stopping = false;
  stopped_by = none;
  done = false;
  cancelled = false;
  ended_to = none;
  ended_err = none;
  names = [];
}

-- New
abbrev pub new_service : Service
new_service = record {
  heap = λ _. new_session tun "";
  fresh = 0;
  sess = none;
  closing = false;
  log_to = none;
  closed = [];
}
