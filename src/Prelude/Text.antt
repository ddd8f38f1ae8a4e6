-- ===== src/Prelude/Text.antt =====
-- Texts: native strings where the program only compares them, lists of code points where it
-- walks them.
use Prim.Native.Nat.{ℕ, compare, Ordering}
use Prim.Native.Char.{code}
use Prim.Native.String.{String}
use mathlib.Core.Path.{◌≡◌, refl}
use mathlib.Core.Logic.{◌↔◌}
use mathlib.Core.Bool.{Bool, true, false, ◌&&◌, ◌||◌}
use mathlib.Core.List.{List, [], ◌∷◌}
use native.Mathlib.Omega.{arith}
use text.Mathlib.Text
use text.Mathlib.TextEquality.{eq_iff}
use text.Mathlib.TextPositions.{eq_refl}

abbrev pub Runes : Type 0
Runes = List ℕ

abbrev pub codes : String → Runes
codes String.[] = []
codes (String.◌∷◌ c s) = code c ∷ codes s

abbrev pub str_eq : String → String → Bool
str_eq a b = Text.◌==◌ a b

pub str_eq_refl : (a : String) → str_eq a a ≡ true
str_eq_refl a = eq_refl a

abbrev pub mem_str : String → List String → Bool
mem_str a [] = false
mem_str a (b ∷ bs) = str_eq a b || mem_str a bs

-- Equality of texts given as code points.
abbrev pub runes_eq : Runes → Runes → Bool
runes_eq [] [] = true
runes_eq (x ∷ xs) (y ∷ ys) = elim (compare x y) [ Ordering.eq ↦ true | _ ↦ false ] && runes_eq xs ys
runes_eq _ _ = false

pub runes_eq_iff : (a b : Runes) → (runes_eq a b ≡ true) ↔ (a ≡ b)
runes_eq_iff (x ∷ a) (y ∷ b) = ground (arith, runes_eq_iff a b)
runes_eq_iff _ _ = ground arith

abbrev one_of : ℕ → List ℕ → Bool
one_of c [] = false
one_of c (d ∷ ds) = elim (compare c d) [ Ordering.eq ↦ true | _ ↦ one_of c ds ]

-- a rune in front of what trimming left of the rest
abbrev put_rune : Bool → ℕ → Runes → Runes
put_rune true c [] = []
put_rune true c (d ∷ s) = c ∷ d ∷ s
put_rune false c s = c ∷ s

-- a separator starts a new part, any other rune joins the first one
abbrev cut_or_push : Bool → ℕ → List Runes → List Runes
cut_or_push true c parts = [] ∷ parts
cut_or_push false c [] = (c ∷ []) ∷ []
cut_or_push false c (p ∷ parts) = (c ∷ p) ∷ parts

-- unicode.IsSpace
unfoldable pub is_space : ℕ → Bool
is_space c =
    elim (compare c 9) [
      | Ordering.lt ↦ false
      | _ ↦ elim (compare c 13) [ Ordering.gt ↦ false | _ ↦ true ]
    ]
    || one_of c (32 ∷ 0x85 ∷ 0xa0 ∷ 0x1680 ∷ 0x2028 ∷ 0x2029 ∷ 0x202f ∷ 0x205f ∷ 0x3000 ∷ [])
    || elim (compare c 0x2000) [
      | Ordering.lt ↦ false
      | _ ↦ elim (compare c 0x200a) [ Ordering.gt ↦ false | _ ↦ true ]
    ]

-- strings.TrimSpace
unfoldable pub trim_right : Runes → Runes
trim_right [] = []
trim_right (c ∷ s) = put_rune (is_space c) c (trim_right s)

unfoldable pub trim_left : Runes → Runes
trim_left [] = []
trim_left (c ∷ s) = let rest = trim_left s in elim (is_space c) [ true ↦ rest | false ↦ c ∷ s ]

unfoldable pub trim_space : Runes → Runes
unfolding trim_left trim_right is_space
trim_space s = trim_right (trim_left s)

-- strings.Split on one character
unfoldable pub split_runes : ℕ → Runes → List Runes
split_runes sep [] = [] ∷ []
split_runes sep (c ∷ s) =
    cut_or_push (elim (compare c sep) [ Ordering.eq ↦ true | _ ↦ false ]) c (split_runes sep s)

pub str_eq_comm : (a b : String) → str_eq a b ≡ str_eq b a
str_eq_comm a b = ground (arith, eq_iff a b, eq_iff b a)

trim_right_idem : (s : Runes) → trim_right (trim_right s) ≡ trim_right s
unfolding trim_right
trim_right_idem [] = refl
trim_right_idem (c ∷ s) = ground (arith, trim_right_idem s)

trim_left-trim_right : (s : Runes) → trim_left (trim_right (trim_left s)) ≡ trim_right (trim_left s)
unfolding trim_left trim_right
trim_left-trim_right [] = refl
trim_left-trim_right (c ∷ s) = ground (arith, trim_left-trim_right s)

pub trim_space_idem : (s : Runes) → trim_space (trim_space s) ≡ trim_space s
unfolding trim_space
trim_space_idem s = ground (arith, trim_left-trim_right s, trim_right_idem (trim_left s))
