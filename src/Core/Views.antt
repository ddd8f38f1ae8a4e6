-- ===== src/Core/Views.antt =====
-- What the status screen reads from the channel of its updates (internal/app/health.go,
-- internal/tui/status.go), and what a send or a reset does to it.
use xray_runner.Prelude.{
  ℕ, ◌≤◌, ◌≡◌, ◌⊎◌, inl, inr, Bool, true, false, Option, none, some, List, [], ◌∷◌, ◌++◌, arith,
  refl, All, All-append, length, ltb, str_eq, if◌then◌else◌, Bool-cases, not,
}
use xray_runner.Core.Health.{StatusUpdate, Screen, reset_update, send, send_evicting, take_update}
use Prim.Native.Nat.{max}

-- what a reading of the screen depends on
abbrev pub View : Type 0
View = ℕ × Option StatusUpdate

abbrev pub view : Screen → View
view m = (m.gen, m.last)

abbrev pub is_notice : StatusUpdate → Bool
is_notice u = elim u.apps [ some _ ↦ true | none ↦ not (str_eq u.note "") ]

unfoldable pub view_update : StatusUpdate → View → View
view_update u v =
    if u.reset_health
    then (max v.0 u.generation, none)
    else if is_notice u
    then v
    else if ltb u.generation v.0
    then v
    else (v.0, some u)

pub view-take_update :
    (now : ℕ) (u : StatusUpdate) (m : Screen) → view (take_update now u m) ≡ view_update u (view m)
unfolding take_update view_update
view-take_update now u m = ground arith

unfoldable pub read_all : List StatusUpdate → View → View
read_all [] v = v
read_all (u ∷ q) v = read_all q (view_update u v)

pub read_all-append :
    (q : List StatusUpdate) (u : StatusUpdate) (v : View)
    → read_all (q ++ (u ∷ [])) v ≡ view_update u (read_all q v)
unfolding read_all
read_all-append [] u v = refl
read_all-append (w ∷ q) u v = read_all-append q u (view_update w v)

-- no reset in the channel is of a later core
abbrev pub IsEarly : ℕ → StatusUpdate → Type 0
IsEarly n u = u.reset_health ≡ true → u.generation ≤ n

pub gen-read_all :
    (n : ℕ) (q : List StatusUpdate) (v : View) → v.0 ≤ n → All (IsEarly n) q → (read_all q v).0 ≤ n
unfolding read_all view_update
gen-read_all n [] v h e = h
gen-read_all n (u ∷ q) v h (e, es) = gen-read_all n q (view_update u v) (ground arith) es

-- what a reset leaves of the channel: some of the newest updates, then the reset
pub evicting :
    (size n : ℕ) (u : StatusUpdate) (q : List StatusUpdate)
    → 1 ≤ size
    → All (IsEarly n) q
    → (kept : List StatusUpdate) × (send_evicting size u q ≡ some (kept ++ (u ∷ [])))
      × All (IsEarly n) kept
unfolding send_evicting
evicting size n u [] h e = ([], ground arith, tt)
evicting size n u (v ∷ q) h (e, es) = elim (Bool-cases (ltb (length (v ∷ q)) size)) [
  | inl full ↦ (v ∷ q, rw full refl, (e, es))
  | inr full ↦ let (kept, eq, k) = evicting size n u q h es in (kept, rw full eq, k)
]

-- a result that counts
abbrev pub IsLive : ℕ → ℕ → Option StatusUpdate → Type 0
IsLive low high last = elim last [
  | none ↦ Unit
  | some u ↦ (low ≤ u.generation) × (u.generation ≤ high)
]

-- once everything in the channel is read, the screen is at the last reset
abbrev pub QueueInv : ℕ → ℕ → List StatusUpdate → View → Type 0
QueueInv low high q v =
    (low ≤ high)
    × (v.0 ≤ low)
    × All (IsEarly low) q
    × ((read_all q v).0 ≡ low)
    × IsLive low high (read_all q v).1

-- an update that is no reset and no result of a stopped core keeps the invariant
pub IsEarly-weaken :
    (n m : ℕ) (q : List StatusUpdate) → n ≤ m → All (IsEarly n) q → All (IsEarly m) q
IsEarly-weaken n m [] h e = tt
IsEarly-weaken n m (u ∷ q) h (e, es) = (λ r. ground (arith, e r), IsEarly-weaken n m q h es)

pub append_keeps :
    (low high : ℕ) (u : StatusUpdate) (q : List StatusUpdate) (v : View)
    → u.reset_health ≡ false
    → (is_notice u ≡ true) ⊎ ((low ≤ u.generation) × (u.generation ≤ high))
    → QueueInv low high q v
    → QueueInv low high (q ++ (u ∷ [])) v
unfolding view_update
append_keeps low high u q v r n (lh, vl, e, g, l) = (
  lh,
  vl,
  All-append (IsEarly low) q (u ∷ []) e (λ h. absurd (cc), tt),
  ground (arith, read_all-append q u v),
  rw (read_all-append q u v) (ground arith),
)

pub reset_keeps :
    (size low high next : ℕ) (q : List StatusUpdate) (v : View)
    → 1 ≤ size
    → high ≤ next
    → QueueInv low high q v
    → (r : List StatusUpdate) × (send_evicting size (reset_update next) q ≡ some r)
      × QueueInv next next r v
unfolding view_update
reset_keeps size low high next q v h hn (lh, vl, e, g, l) =
    let (kept, eq, k) = evicting size low (reset_update next) q h e in
    let below = gen-read_all low kept v vl k in
    (
      kept ++ (reset_update next ∷ []),
      eq,
      (
        omega arith,
        omega arith,
        All-append (IsEarly next) kept (reset_update next ∷ [])
            (IsEarly-weaken low next kept (omega arith) k) (λ _. omega arith, tt),
        rw (read_all-append kept (reset_update next) v) (ground arith),
        rw (read_all-append kept (reset_update next) v) tt,
      ),
    )

pub send_keeps :
    (size low high : ℕ) (u : StatusUpdate) (q : List StatusUpdate) (v : View)
    → u.reset_health ≡ false
    → (is_notice u ≡ true) ⊎ ((low ≤ u.generation) × (u.generation ≤ high))
    → QueueInv low high q v
    → QueueInv low high (send size u q) v
unfolding send
send_keeps size low high u q v r n inv = elim (Bool-cases (ltb (length q) size)) [
  | inl room ↦ rw room (append_keeps low high u q v r n inv)
  | inr full ↦ rw full inv
]

pub higher :
    (low high more : ℕ) (q : List StatusUpdate) (v : View)
    → high ≤ more
    → QueueInv low high q v
    → QueueInv low more q v
higher low high more q v h (lh, vl, e, g, l) = (omega arith, vl, e, g, ground arith)

pub read_keeps :
    (low high : ℕ) (u : StatusUpdate) (q : List StatusUpdate) (v : View)
    → QueueInv low high (u ∷ q) v
    → QueueInv low high q (view_update u v)
unfolding read_all view_update
read_keeps low high u q v (lh, vl, (e, es), g, l) = (lh, ground arith, es, g, l)
