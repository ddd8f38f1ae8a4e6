-- ===== src/Prelude/Outcome.antt =====
-- Results of code that may fail: a value, or why there is none.
use mathlib.Core.Path.{◌≡◌, refl}
use mathlib.Core.Option.{Option, none, some}
use mathlib.Core.Logic.{◌⊎◌, inl, inr}

pub data Outcome {ℓ κ} (E : Type κ) (A : Type ℓ) : Type (ℓ ⊔ κ) where
  fail : E → Outcome E A
  ok : A → Outcome E A

module _ {ℓ κ} {E : Type κ} {A : Type ℓ} where
  pub Outcome-cases :
      (o : Outcome E A) → ((why : E) × (o ≡ fail why)) ⊎ ((found : A) × (o ≡ ok found))
  Outcome-cases (fail why) = inl (why, refl)
  Outcome-cases (ok found) = inr (found, refl)

  pub from_ok : (x y : A) → ◌≡◌ {A = Outcome E A} (ok x) (ok y) → x ≡ y
  from_ok x y h = cc h

module _ {ℓ κ ι} {E : Type ι} {A : Type ℓ} {B : Type κ} where
  infixl 5 ◌>>=◌
  abbrev pub ◌>>=◌ : Outcome E A → (A → Outcome E B) → Outcome E B
  attempt >>= next = elim attempt [ fail why ↦ fail why | ok found ↦ next found ]

  -- a chain that succeeds has an intermediate value
  pub split_chain :
      (next : A → Outcome E B) {last : B} (attempt : Outcome E A)
      → attempt >>= next ≡ ok last
      → (found : A) × (attempt ≡ ok found) × (next found ≡ ok last)
  split_chain next (fail why) h = absurd (cc)
  split_chain next (ok found) h = (found, refl, h)

-- what follows a failure and what follows a success
module _ {ℓ κ ι} {E : Type ι} {A : Type ℓ} {B : Type κ} where
  abbrev pub handle : Outcome E A → (E → B) → (A → B) → B
  handle (fail why) f g = f why
  handle (ok found) f g = g found

  pub handle_lem :
      (P : B → Type 0) (o : Outcome E A) (f : E → B) (g : A → B)
      → ((why : E) → o ≡ fail why → P (f why))
      → ((found : A) → o ≡ ok found → P (g found))
      → P (handle o f g)
  handle_lem P (fail why) f g h k = h why refl
  handle_lem P (ok found) f g h k = k found refl

module _ {ℓ ι} {E : Type ι} {B : Type ℓ} where
  abbrev pub on_error : Option E → (E → B) → B → B
  on_error none f b = b
  on_error (some why) f b = f why

  pub on_error_lem :
      (P : B → Type 0) (o : Option E) (f : E → B) (b : B)
      → ((why : E) → o ≡ some why → P (f why))
      → (o ≡ none → P b)
      → P (on_error o f b)
  on_error_lem P none f b h k = k refl
  on_error_lem P (some why) f b h k = h why refl

module _ {ℓ κ ι υ} {E : Type ι} {A : Type ℓ} {B : Type κ} {D : Type υ} where
  -- a step behind a wrapped failure
  pub split_handle :
      (wrap : E → D) (next : A → Outcome D B) {last : B} (attempt : Outcome E A)
      → handle attempt (λ why. fail (wrap why)) next ≡ ok last
      → (found : A) × (attempt ≡ ok found) × (next found ≡ ok last)
  split_handle wrap next (fail why) h = absurd (cc)
  split_handle wrap next (ok found) h = (found, refl, h)
