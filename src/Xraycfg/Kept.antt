-- ===== src/Xraycfg/Kept.antt =====
-- What the edits of a JSON object leave alone: every field but the one that is written.
use xray_runner.Prelude.{
  ℕ, true, ◌≡◌, refl, sym, ap, ◌∙◌, List, [], ◌∷◌, none, some, Runes, codes, if◌then◌else◌, inl,
  inr, Bool-cases, arith,
}
use xray_runner.Prelude.Outcome.{ok, from_ok}
use xray_runner.Prelude.Int.{ℤ}
use xray_runner.Xraycfg.Json.{
  Json, null, flag, object, array, text, number, Members, no_members, member, at_key, delete_key,
  put, same_key, sole_field, drop_field, set_field, is_found, values_of,
}
use xray_runner.Xraycfg.Keys.{same_key_refl, same_key_of, one_found, none_found, sole_reads}
use xray_runner.Xraycfg.Bind.{
  DirectBind, BindError, is_zero, object_of, set_mark, set_interface, or_name,
}

-- the object that the core finds as the one value of a field, or an empty one
abbrev pub members_of : List Json → Members
members_of (object m ∷ []) = m
members_of _ = no_members

abbrev pub without_mark : (ℕ → ℕ) → ℤ → Members → Members
without_mark fold n m = if is_zero n then m else drop_field fold (codes "mark") m

abbrev pub without_interface : (ℕ → ℕ) → Runes → Members → Members
without_interface fold i m = if is_found i then drop_field fold (codes "interface") m else m

-- the socket options that the binding does not set
abbrev pub unbound : (ℕ → ℕ) → DirectBind → Members → Members
unbound fold bind m = without_mark fold bind.mark (without_interface fold bind.interface m)

decoded_one :
    (why : BindError) (v : Json) (old : Members)
    → object_of why (some v) ≡ ok old
    → old ≡ members_of (v ∷ [])
decoded_one why null old h = sym (from_ok no_members old h)
decoded_one why (object m) old h = sym (from_ok m old h)
decoded_one why (flag _) old h = absurd (cc)
decoded_one why (number _) old h = absurd (cc)
decoded_one why (text _) old h = absurd (cc)
decoded_one why (array _) old h = absurd (cc)

decoded_none : (why : BindError) (old : Members) → object_of why none ≡ ok old → old ≡ members_of []
decoded_none why old h = sym (from_ok no_members old h)

module _ (fold : ℕ → ℕ) (name : Runes) where
  drop_field-delete_key :
      (k : Runes) (m : Members)
      → same_key fold k name ≡ true
      → drop_field fold name (delete_key k m) ≡ drop_field fold name m
  unfolding drop_field delete_key
  drop_field-delete_key k no_members s = refl
  drop_field-delete_key k (member k' v m) s =
      ground (arith, s, same_key_of fold k' k name, drop_field-delete_key k m s)

  pub drop_field-put :
      (k : Runes) (v : Json) (m : Members)
      → same_key fold k name ≡ true
      → drop_field fold name (put k v m) ≡ drop_field fold name m
  unfolding drop_field put
  drop_field-put k v m s = ground (arith, s, drop_field-delete_key k m s)

  drop_field_twice :
      (m : Members) → drop_field fold name (drop_field fold name m) ≡ drop_field fold name m
  unfolding drop_field
  drop_field_twice no_members = refl
  drop_field_twice (member k v m) = ground (arith, drop_field_twice m)

  drop_field-set_field :
      (m : Members) (v : Json)
      → drop_field fold name (set_field fold m name v) ≡ drop_field fold name m
  unfolding set_field
  drop_field-set_field m v =
      drop_field-put name v (drop_field fold name m) (same_key_refl fold name) ∙ drop_field_twice m

  drop_field_comm :
      (other : Runes) (m : Members)
      → drop_field fold name (drop_field fold other m)
        ≡ drop_field fold other (drop_field fold name m)
  unfolding drop_field
  drop_field_comm other no_members = refl
  drop_field_comm other (member k v m) = ground (arith, drop_field_comm other m)

  nothing_there : (m : Members) → values_of fold name m ≡ [] → at_key name m ≡ none
  unfolding values_of at_key
  nothing_there no_members h = refl
  nothing_there (member k v m) h =
      ground (arith, nothing_there m, same_key_of fold k name name, same_key_refl fold name)

  module _ (named : is_found name ≡ true) where
    -- the key that is written is one of the field
    pub same_key-or_name :
        (k : Runes) (m : Members)
        → sole_field fold m name ≡ ok k
        → same_key fold (or_name k name) name ≡ true
    unfolding sole_field
    same_key-or_name k m h = elim (Bool-cases (is_found k)) [
      | inl f ↦ rw f (one_found fold name named k m h f).0
      | inr f ↦ rw f (same_key_refl fold name)
    ]

    -- what the code decodes there is what the core finds
    pub object_of-sole :
        (why : BindError) (k : Runes) (m old : Members)
        → sole_field fold m name ≡ ok k
        → object_of why (at_key (or_name k name) m) ≡ ok old
        → old ≡ members_of (values_of fold name m)
    unfolding sole_field
    object_of-sole why k m old h decoded = elim (sole_reads fold name named k m h) [
      | inl (v, found, only) ↦ elim (Bool-cases (is_found k)) [
        | inl f ↦
            let there : at_key (or_name k name) m ≡ some v = rw f found in
            decoded_one why v old (ap (object_of why) (sym there) ∙ decoded)
            ∙ ap members_of (sym only)
        | inr f ↦ absurd (ground (arith, only, none_found fold name named k m h f))
      ]
      | inr (e, nothing) ↦
          decoded_none why old (
            ap (object_of why)
              (sym (ap (λ k. at_key (or_name k name) m) e ∙ nothing_there m nothing))
            ∙ decoded)
          ∙ ap members_of (sym nothing)
    ]

module _ (fold : ℕ → ℕ) (bind : DirectBind) where
  interface_kept :
      (i : Runes) (m : Members)
      → without_interface fold i (set_interface fold i m) ≡ without_interface fold i m
  interface_kept [] m = refl
  interface_kept (c ∷ i) m = drop_field-set_field fold (codes "interface") m (text (c ∷ i))

  mark_kept_out :
      (n : ℤ) (m : Members) → without_mark fold n (set_mark fold n m) ≡ without_mark fold n m
  mark_kept_out n m = elim (Bool-cases (is_zero n)) [
    | inl q ↦ rw q refl
    | inr q ↦ rw q (drop_field-set_field fold (codes "mark") m (number n))
  ]

  without_comm :
      (n : ℤ) (i : Runes) (m : Members)
      → without_mark fold n (without_interface fold i m)
        ≡ without_interface fold i (without_mark fold n m)
  without_comm n [] m = refl
  without_comm n (c ∷ i) m = elim (Bool-cases (is_zero n)) [
    | inl q ↦ rw q refl
    | inr q ↦ rw q (drop_field_comm fold (codes "mark") (codes "interface") m)
  ]

  -- the other socket options stay
  pub unbound-set :
      (m : Members)
      → unbound fold bind (set_interface fold bind.interface (set_mark fold bind.mark m))
        ≡ unbound fold bind m
  unbound-set m =
      ap (without_mark fold bind.mark) (interface_kept bind.interface (set_mark fold bind.mark m))
      ∙ without_comm bind.mark bind.interface (set_mark fold bind.mark m)
      ∙ ap (without_interface fold bind.interface) (mark_kept_out bind.mark m)
      ∙ sym (without_comm bind.mark bind.interface m)
