-- ===== src/Service/Invariant.antt =====
-- What holds of the service between two sections, whoever runs them.
use xray_runner.Prelude.{
  ℕ, ◌<◌, ◌≡◌, ◌⊎◌, Bool, true, false, ◌||◌, Option, none, some, List, [], ◌∷◌, ◌==◌, arith,
  is_some,
}
use xray_runner.Service.State.{Peer, Kind, tun, split, Session}
use xray_runner.Service.Sections.{holder}
use xray_runner.Service.Threads.{
  Holder, finish_at, wait_done, drop_at, refresh_at, enable_at, install_at, System, initial,
  is_armed,
}

abbrev pub mem : ℕ → List ℕ → Bool
mem i [] = false
mem i (j ∷ js) = (i == j) || mem i js

-- the holder of `op` is taking this session down
abbrev pub finishing : Option Holder → ℕ → Bool
finishing (some (finish_at j)) i = i == j
finishing (some (wait_done j)) i = i == j
finishing (some (drop_at j)) i = i == j
finishing _ i = false

abbrev pub SameUser : (ℕ → Peer) → Option ℕ → Session → Type 0
SameUser peer none x = Unit
SameUser peer (some c) x = (peer c).key ≡ x.owner

-- The rules are up with a split session, but for what the holder of `op` is about to do, and
-- otherwise where a call has left them behind.
abbrev pub Rules : Kind → Option Holder → Bool → Bool → Type 0
Rules tun op up left = up ≡ left
Rules split (some (install_at c j names)) up left = Unit
Rules split (some (drop_at j)) up left = up ≡ left
Rules split _ up left = up ≡ true

-- what is known of the current session
pub record Sound (peer : ℕ → Peer) (y : System) (i : ℕ) (x : Session) : Type 0 where
  pub made : i < y.svc.fresh
  pub alive : x.done ≡ false
  pub owned : SameUser peer x.conn x
  pub watched : (x.stopping || is_some x.conn || is_armed x.grace || mem i y.callbacks) ≡ true
  pub finished : x.stopping ≡ true → finishing y.op i ≡ true
  pub rules : Rules x.kind y.op y.split_up y.left_up

abbrev CurrentOk : (ℕ → Peer) → System → Option ℕ → Type 0
CurrentOk peer y none = y.split_up ≡ y.left_up
CurrentOk peer y (some i) = Sound peer y i (y.svc.heap i)

abbrev IsCurrentSplit : System → ℕ → Type 0
IsCurrentSplit y i = (y.svc.sess ≡ some i) × ((y.svc.heap i).kind ≡ split)

-- a session that is marked or was marked, and is a split's only while it is the current one
abbrev IsFinishable : System → ℕ → Type 0
IsFinishable y i = (i < y.svc.fresh) × (((y.svc.heap i).kind ≡ tun) ⊎ (y.svc.sess ≡ some i))

abbrev HolderOk : System → Option Holder → Type 0
HolderOk y none = Unit
HolderOk y (some (finish_at i)) = IsFinishable y i × ((y.svc.heap i).stopping ≡ true)
HolderOk y (some (wait_done i)) = (i < y.svc.fresh) × ((y.svc.heap i).kind ≡ tun)
HolderOk y (some (drop_at i)) = IsCurrentSplit y i × ((y.svc.heap i).stopping ≡ true)
HolderOk y (some (refresh_at c i)) = IsCurrentSplit y i × ((y.svc.heap i).stopping ≡ false)
HolderOk y (some (enable_at c none names)) = Unit
HolderOk y (some (enable_at c (some i) names)) =
    IsCurrentSplit y i × ((y.svc.heap i).stopping ≡ false)
HolderOk y (some (install_at c i names)) = IsCurrentSplit y i × ((y.svc.heap i).stopping ≡ false)

abbrev ShuttingOk : System → Option ℕ → Type 0
ShuttingOk y none = Unit
ShuttingOk y (some i) = (i < y.svc.fresh) × (IsFinishable y i ⊎ ((y.svc.heap i).stopping ≡ true))

pub record Inv (peer : ℕ → Peer) (y : System) : Type 0 where
  pub logged : y.svc.log_to ≡ holder y.svc.heap y.svc.sess
  pub current : CurrentOk peer y y.svc.sess
  pub held : HolderOk y y.op
  pub shut : ShuttingOk y y.shutting

pub initial-Inv : (peer : ℕ → Peer) → Inv peer initial
initial-Inv peer = ground arith
