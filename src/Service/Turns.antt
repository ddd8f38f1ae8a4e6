-- ===== src/Service/Turns.antt =====
-- The holder of `op` keeps the invariant.
use xray_runner.Prelude.{
  ℕ, ◌≡◌, inl, inr, Bool, false, Option, none, some, String, List, [], ◌∷◌, ◌==◌, arith,
  Option-cases,
}
use xray_runner.Prelude.Int.{ℤ}
use xray_runner.Service.State.{Peer}
use xray_runner.Service.Threads.{
  CallEnd, succeeded, failed, failed_dirty, finish_at, wait_done, drop_at, refresh_at, enable_at,
  install_at, System, acquire, go_on, stop_by, refresh_by, enable_by, callback, teardown,
  take_callback,
}
use xray_runner.Service.Invariant.{Inv, mem}

-- taking one timer's function leaves those of the other sessions
take_callback-mem :
    (i j : ℕ) (js rest : List ℕ)
    → take_callback i js ≡ some rest
    → (i == j) ≡ false
    → mem j js ≡ mem j rest
unfolding take_callback
take_callback-mem i j [] rest h ne = cc
take_callback-mem i j (k ∷ js) rest h ne = elim (Option-cases (take_callback i js)) [
  | inl e ↦ ground arith
  | inr (r, e) ↦ ground (arith, take_callback-mem i j js r e ne)
]

module _ (peer : ℕ → Peer) (y : System) (v : Inv peer y) (free : y.op ≡ none) where
  pub stop-Inv : (c : ℕ) (only : Bool) → Inv peer (acquire peer (stop_by c only) y)
  unfolding acquire
  stop-Inv c only = ground arith

  pub refresh-Inv : (c : ℕ) → Inv peer (acquire peer (refresh_by c) y)
  unfolding acquire
  refresh-Inv c = ground arith

  pub enable-Inv : (c : ℕ) (names : List String) → Inv peer (acquire peer (enable_by c names) y)
  unfolding acquire
  enable-Inv c [] = v
  enable-Inv c (n ∷ names) = ground arith

  pub teardown-Inv : Inv peer (acquire peer teardown y)
  unfolding acquire
  teardown-Inv = ground arith

  pub callback-Inv : (i : ℕ) → Inv peer (acquire peer (callback i) y)
  unfolding acquire
  callback-Inv i = elim (Option-cases (take_callback i y.callbacks)) [
    | inl e ↦ ground arith
    | inr (rest, e) ↦ elim (Option-cases y.svc.sess) [
      | inl n ↦ ground arith
      | inr (j, m) ↦ ground (arith, take_callback-mem i j y.callbacks rest e)
    ]
  ]

module _ (peer : ℕ → Peer) (y : System) (v : Inv peer y) (tcp udp : List ℤ) (token : Option String)
    (r : CallEnd) where
  pub finish-go :
      (i : ℕ) → y.op ≡ some (finish_at i) → Inv peer (go_on peer (finish_at i) tcp udp token r y)
  unfolding go_on
  finish-go i e = ground arith

  pub wait-go :
      (i : ℕ) → y.op ≡ some (wait_done i) → Inv peer (go_on peer (wait_done i) tcp udp token r y)
  unfolding go_on
  wait-go i e = ground arith

  pub drop-go :
      (i : ℕ) → y.op ≡ some (drop_at i) → Inv peer (go_on peer (drop_at i) tcp udp token r y)
  unfolding go_on
  drop-go i e = ground arith

  pub refresh-go :
      (c i : ℕ)
      → y.op ≡ some (refresh_at c i)
      → Inv peer (go_on peer (refresh_at c i) tcp udp token r y)
  unfolding go_on
  refresh-go c i e = ground arith

  pub enable-go :
      (c : ℕ) (m : Option ℕ) (names : List String)
      → y.op ≡ some (enable_at c m names)
      → Inv peer (go_on peer (enable_at c m names) tcp udp token r y)
  unfolding go_on
  enable-go c m names e = ground arith

module _ (peer : ℕ → Peer) (y : System) (v : Inv peer y) (tcp udp : List ℤ)
    (token : Option String) where
  pub install-go :
      (r : CallEnd) (c i : ℕ) (names : List String)
      → y.op ≡ some (install_at c i names)
      → Inv peer (go_on peer (install_at c i names) tcp udp token r y)
  unfolding go_on
  install-go succeeded c i names e = ground arith
  install-go failed c i names e = ground arith
  install-go failed_dirty c i names e = ground arith
