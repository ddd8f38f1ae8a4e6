-- ===== src/System/Reversal.antt =====
-- What the reversals in DisableTunRouting (internal/system/route_linux.go) keep.
use mathlib.Core.List.{reverse_aux}
use xray_runner.Prelude.{true, false, ◌||◌, ◌≡◌, refl, List, [], ◌∷◌, ◌++◌, reverse, All, arith}
use xray_runner.System.Entries.{TunEntry}
use xray_runner.System.Host.{entry_eq, entry_eq_comm, bare, mem, Apart, Distinct}
use xray_runner.System.Removal.{Apart-more}

mem-reverse_aux :
    (m : TunEntry) (xs done : List TunEntry)
    → mem m (reverse_aux xs done) ≡ (mem m xs || mem m done)
mem-reverse_aux m [] done = refl
mem-reverse_aux m (x ∷ xs) done = ground (arith, mem-reverse_aux m xs (x ∷ done))

pub mem-reverse : (m : TunEntry) (xs : List TunEntry) → mem m (reverse xs) ≡ mem m xs
mem-reverse m xs = ground (arith, mem-reverse_aux m xs [])

Distinct-reverse_aux :
    (xs done : List TunEntry)
    → Distinct xs
    → Distinct done
    → Apart (λ n. mem n done) xs
    → Distinct (reverse_aux xs done)
Distinct-reverse_aux [] done h d a = d
Distinct-reverse_aux (x ∷ xs) done (q, h) d (p, a) =
    Distinct-reverse_aux xs (x ∷ done) h (p, d) (Apart-more true x xs (λ n. mem n done) a q)

Apart-none : (xs : List TunEntry) → Apart (λ n. mem n []) xs
Apart-none [] = tt
Apart-none (x ∷ xs) = (refl, Apart-none xs)

pub Distinct-reverse : (xs : List TunEntry) → Distinct xs → Distinct (reverse xs)
Distinct-reverse xs h = Distinct-reverse_aux xs [] h tt (Apart-none xs)

module _ (P : TunEntry → Type 0) where
  All-reverse_aux : (xs done : List TunEntry) → All P xs → All P done → All P (reverse_aux xs done)
  All-reverse_aux [] done h d = d
  All-reverse_aux (x ∷ xs) done (p, h) d = All-reverse_aux xs (x ∷ done) h (p, d)

  pub All-reverse : (xs : List TunEntry) → All P xs → All P (reverse xs)
  All-reverse xs h = All-reverse_aux xs [] h tt

-- an entry that is put behind the others
pub mem-snoc :
    (m e : TunEntry) (xs : List TunEntry)
    → mem m (xs ++ (e ∷ [])) ≡ (entry_eq m (bare e) || mem m xs)
mem-snoc m e [] = refl
mem-snoc m e (x ∷ xs) = ground (arith, mem-snoc m e xs)

pub Distinct-snoc :
    (e : TunEntry) (xs : List TunEntry)
    → mem (bare e) xs ≡ false
    → Distinct xs
    → Distinct (xs ++ (e ∷ []))
Distinct-snoc e [] q h = (refl, tt)
Distinct-snoc e (x ∷ xs) q (p, h) = (
  ground (arith, mem-snoc (bare x) e xs, entry_eq_comm (bare x) (bare e)),
  Distinct-snoc e xs (ground arith) h,
)
