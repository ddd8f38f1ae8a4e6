-- ===== src/Xraycfg/Keys.antt =====
-- Setting and deleting keys of a JSON object, against what the core finds for a field.
use xray_runner.Prelude.{
  ℕ, true, false, ◌≡◌, refl, sym, ap, ◌∙◌, subst, [], ◌∷◌, map, length, some, Runes, runes_eq,
  runes_eq_iff, inl, inr, ◌⊎◌, Bool-cases, arith,
}
use xray_runner.Prelude.Outcome.{ok}
use xray_runner.Xraycfg.Bind.{or_name}
use xray_runner.Xraycfg.Json.{
  Json, Members, no_members, member, at_key, delete_key, put, same_key, is_found, sole_from,
  sole_field, drop_field, set_field, values_of,
}

pub same_key_refl : (fold : ℕ → ℕ) (k : Runes) → same_key fold k k ≡ true
unfolding same_key
same_key_refl fold k = (runes_eq_iff (map fold k) (map fold k)).1 refl

same_key_trans :
    (fold : ℕ → ℕ) (k a b : Runes)
    → same_key fold k a ≡ true
    → same_key fold a b ≡ false
    → same_key fold k b ≡ false
unfolding same_key
same_key_trans fold k a b h d =
    ap (λ x. runes_eq x (map fold b)) ((runes_eq_iff (map fold k) (map fold a)).0 h) ∙ d

pub same_key_of :
    (fold : ℕ → ℕ) (k a b : Runes) → runes_eq k a ≡ true → same_key fold k b ≡ same_key fold a b
same_key_of fold k a b h = ap (λ x. same_key fold x b) ((runes_eq_iff k a).0 h)

length-map : (f : ℕ → ℕ) (k : Runes) → length (map f k) ≡ length k
length-map f [] = refl
length-map f (c ∷ k) = omega (arith, length-map f k)

pub same_key-length : (fold : ℕ → ℕ) (a b : Runes) → same_key fold a b ≡ true → length a ≡ length b
unfolding same_key
same_key-length fold a b h =
    sym (length-map fold a)
    ∙ ap length ((runes_eq_iff (map fold a) (map fold b)).0 h)
    ∙ length-map fold b

module _ (fold : ℕ → ℕ) (name : Runes) where
  values_of-drop_field : (m : Members) → values_of fold name (drop_field fold name m) ≡ []
  unfolding values_of drop_field
  values_of-drop_field no_members = refl
  values_of-drop_field (member k v m) = ground (arith, values_of-drop_field m)

  pub values_of-delete_key :
      (k : Runes) (m : Members)
      → values_of fold name m ≡ []
      → values_of fold name (delete_key k m) ≡ []
  unfolding values_of delete_key
  values_of-delete_key k no_members h = refl
  values_of-delete_key k (member k' v m) h = ground (arith, values_of-delete_key k m)

  pub values_of-put :
      (k : Runes) (v : Json) (m : Members)
      → same_key fold k name ≡ true
      → values_of fold name (delete_key k m) ≡ []
      → values_of fold name (put k v m) ≡ v ∷ []
  unfolding values_of put
  values_of-put k v m s h = ground (arith)

  pub values_of-set_field :
      (m : Members) (v : Json) → values_of fold name (set_field fold m name v) ≡ v ∷ []
  unfolding set_field
  values_of-set_field m v =
      values_of-put name v (drop_field fold name m) (same_key_refl fold name)
        (values_of-delete_key name (drop_field fold name m) (values_of-drop_field m))

module _ (fold : ℕ → ℕ) (name other : Runes) (distinct : same_key fold other name ≡ false) where
  kept_by_drop :
      (m : Members) → values_of fold name (drop_field fold other m) ≡ values_of fold name m
  unfolding values_of drop_field
  kept_by_drop no_members = refl
  kept_by_drop (member k v m) = ground (arith, kept_by_drop m, same_key_trans fold k other name)

  kept_by_delete : (m : Members) → values_of fold name (delete_key other m) ≡ values_of fold name m
  unfolding values_of delete_key
  kept_by_delete no_members = refl
  kept_by_delete (member k v m) = ground (arith, kept_by_delete m, same_key_of fold k other name)

  pub values_of-set_other :
      (m : Members) (v : Json)
      → values_of fold name (set_field fold m other v) ≡ values_of fold name m
  unfolding set_field put values_of
  values_of-set_other m v = ground (arith, kept_by_delete (drop_field fold other m), kept_by_drop m)

module _ (fold : ℕ → ℕ) (name : Runes) where
  found_first :
      (found k : Runes) (m : Members)
      → is_found found ≡ true
      → sole_from fold name found m ≡ ok k
      → (k ≡ found) × (values_of fold name m ≡ [])
  unfolding sole_from values_of
  found_first found k no_members f h = (cc, refl)
  found_first found k (member k' v m) f h = elim (Bool-cases (same_key fold k' name)) [
    | inl s ↦ absurd (ground arith)
    | inr s ↦ let (e, n) = found_first found k m f (ground arith) in (e, ground arith)
  ]

  module _ (named : is_found name ≡ true) where
    pub same-found : (k : Runes) → same_key fold k name ≡ true → is_found k ≡ true
    same-found [] s = absurd (ground (arith, same_key-length fold [] name s))
    same-found (c ∷ k) s = refl

    pub none_found :
        (k : Runes) (m : Members)
        → sole_from fold name [] m ≡ ok k
        → is_found k ≡ false
        → values_of fold name m ≡ []
    unfolding sole_from values_of
    none_found k no_members h f = refl
    none_found k (member k' v m) h f = elim (Bool-cases (same_key fold k' name)) [
      | inl s ↦
          let (e, n) = found_first k' k m (same-found k' s) (ground arith) in
          let q = ap is_found e in let t = same-found k' s in absurd (ground (arith, q, t))
      | inr s ↦ ground (arith, none_found k m (ground arith) f)
    ]

    pub one_found :
        (k : Runes) (m : Members)
        → sole_from fold name [] m ≡ ok k
        → is_found k ≡ true
        → (same_key fold k name ≡ true) × (values_of fold name (delete_key k m) ≡ [])
    unfolding sole_from values_of delete_key
    one_found k no_members h f = absurd (ground arith)
    one_found k (member k' v m) h f = elim (Bool-cases (same_key fold k' name)) [
      | inl s ↦
          let (e, n) = found_first k' k m (same-found k' s) (ground arith) in
          (
            ap (λ x. same_key fold x name) e ∙ s,
            ground (arith, e, runes_eq_iff k' k, values_of-delete_key fold name k m n),
          )
      | inr s ↦ let (same, gone) = one_found k m (ground arith) f in (same, ground (arith, gone))
    ]

    -- what is written under the key that soleField found, or under the name, is what the core reads
    pub values_of-sole :
        (k : Runes) (v : Json) (m : Members)
        → sole_field fold m name ≡ ok k
        → values_of fold name (put (or_name k name) v m) ≡ v ∷ []
    unfolding sole_field
    values_of-sole k v m h = elim (Bool-cases (is_found k)) [
      | inl f ↦
          let (same, gone) = one_found k m h f in
          subst (λ x. values_of fold name (put x v m) ≡ v ∷ []) (ground (arith, f))
            (values_of-put fold name k v m same gone)
      | inr f ↦
          subst (λ x. values_of fold name (put x v m) ≡ v ∷ []) (ground (arith, f))
            (values_of-put fold name name v m (same_key_refl fold name)
              (values_of-delete_key fold name name m (none_found k m h f)))
    ]

    -- soleField finds the one value that the core reads, or nothing
    pub sole_reads :
        (k : Runes) (m : Members)
        → sole_from fold name [] m ≡ ok k
        → ((v : Json) × (at_key k m ≡ some v) × (values_of fold name m ≡ v ∷ []))
          ⊎ ((k ≡ []) × (values_of fold name m ≡ []))
    unfolding sole_from values_of at_key
    sole_reads k no_members h = inr (cc, refl)
    sole_reads k (member k' v m) h = elim (Bool-cases (same_key fold k' name)) [
      | inl s ↦
          let (e, n) = found_first k' k m (same-found k' s) (ground arith) in
          inl (v, ground (arith, e, runes_eq_iff k' k), ground (arith, s, n))
      | inr s ↦ elim (sole_reads k m (ground arith)) [
        | inl (w, found, only) ↦ elim (Bool-cases (is_found k)) [
          | inl f ↦
              let (same, gone) = one_found k m (ground arith) f in
              inl (w, ground (arith, same, same_key_of fold k' k name), ground (arith, only))
          | inr f ↦ absurd (ground (arith, only, none_found k m (ground arith) f))
        ]
        | inr (e, n) ↦ inr (e, ground (arith, n))
      ]
    ]
