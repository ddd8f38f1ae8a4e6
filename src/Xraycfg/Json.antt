-- ===== src/Xraycfg/Json.antt =====
-- JSON objects as internal/xraycfg edits them: maps from a key to a value, and the keys that the
-- core takes for one field (foldKey, sameKey, soleField of clientparts.go, setField of mark.go).
use xray_runner.Prelude.{
  ℕ, Bool, true, false, not, List, [], ◌∷◌, map, Option, none, some, Runes, runes_eq, if◌then◌else◌,
}
use xray_runner.Prelude.Outcome.{Outcome, ok, fail}
use xray_runner.Prelude.Int.{ℤ}

mutual
  pub data Json : Type 0 where
    null : Json
    flag : Bool → Json
    number : ℤ → Json
    text : Runes → Json
    array : Items → Json
    object : Members → Json

  pub data Items : Type 0 where
    no_items : Items
    item : Json → Items → Items

  pub data Members : Type 0 where
    no_members : Members
    member : Runes → Json → Members → Members

-- m[k], which Go reads as nothing where the key is missing
unfoldable pub at_key : Runes → Members → Option Json
at_key k no_members = none
at_key k (member k' v m) = let rest = at_key k m in if runes_eq k' k then some v else rest

unfoldable pub delete_key : Runes → Members → Members
delete_key k no_members = no_members
delete_key k (member k' v m) =
    let rest = delete_key k m in if runes_eq k' k then rest else member k' v rest

-- m[k] = v
unfoldable pub put : Runes → Json → Members → Members
unfolding delete_key
put k v m = member k v (delete_key k m)

-- sameKey, over the table of unicode.ToUpper after unicode.ToLower
unfoldable pub same_key : (ℕ → ℕ) → Runes → Runes → Bool
same_key fold k name = runes_eq (map fold k) (map fold name)

abbrev pub is_found : Runes → Bool
is_found [] = false
is_found (_ ∷ _) = true

-- the loop of soleField, with `found`
unfoldable pub sole_from : (ℕ → ℕ) → Runes → Runes → Members → Outcome Runes Runes
unfolding same_key
sole_from fold name found no_members = ok found
sole_from fold name found (member k v m) =
    let skipped = sole_from fold name found m in
    let taken = sole_from fold name k m in
    if not (same_key fold k name) then skipped else if is_found found then fail name else taken

-- soleField
unfoldable pub sole_field : (ℕ → ℕ) → Members → Runes → Outcome Runes Runes
unfolding sole_from
sole_field fold m name = sole_from fold name [] m

-- the loop of setField
unfoldable pub drop_field : (ℕ → ℕ) → Runes → Members → Members
drop_field fold name no_members = no_members
drop_field fold name (member k v m) =
    let rest = drop_field fold name m in if same_key fold k name then rest else member k v rest

-- setField
unfoldable pub set_field : (ℕ → ℕ) → Members → Runes → Json → Members
unfolding drop_field
set_field fold m name v = put name v (drop_field fold name m)

-- what the core finds for a field
unfoldable pub values_of : (ℕ → ℕ) → Runes → Members → List Json
values_of fold name no_members = []
values_of fold name (member k v m) =
    let rest = values_of fold name m in if same_key fold k name then v ∷ rest else rest
