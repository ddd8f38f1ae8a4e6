-- ===== src/Xraycfg/Secure.antt =====
-- What ApplySecurityPolicy leaves of allowInsecure.
use xray_runner.Prelude.{
  ℕ, ◌+◌, Bool, true, false, ◌||◌, ◌≡◌, refl, sym, ap, ◌∙◌, List, [], ◌∷◌, any, Option, none, some,
  Runes, codes, ltb, leb, inl, inr, ◌⊎◌, Bool-cases, arith,
}
use xray_runner.Prelude.Outcome.{ok, from_ok}
use xray_runner.Xraycfg.Json.{
  Json, null, flag, object, array, text, number, Items, item, no_items, Members, no_members, member,
  at_key, delete_key, put, same_key, sole_from, is_found, values_of,
}
use xray_runner.Xraycfg.Keys.{
  same_key_refl, same-found, values_of-delete_key, values_of-put, one_found, none_found, sole_reads,
}
use xray_runner.Xraycfg.Policy

-- what the core finds for a field of a value
abbrev pub fields_of : (ℕ → ℕ) → Runes → Json → List Json
fields_of fold name (object m) = values_of fold name m
fields_of fold name _ = []

abbrev pub is_there : List Json → Bool
is_there [] = false
is_there (_ ∷ _) = true

abbrev pub tls_has_flag : (ℕ → ℕ) → Json → Bool
tls_has_flag fold tls = is_there (fields_of fold (codes "allowInsecure") tls)

abbrev pub stream_has_flag : (ℕ → ℕ) → Json → Bool
stream_has_flag fold stream = any (tls_has_flag fold) (fields_of fold (codes "tlsSettings") stream)

-- the core finds the flag in one of the outbound's TLS settings
abbrev pub has_flag : (ℕ → ℕ) → Json → Bool
has_flag fold ob = any (stream_has_flag fold) (fields_of fold (codes "streamSettings") ob)

abbrev pub any_item : (Json → Bool) → Items → Bool
any_item p no_items = false
any_item p (item j more) = p j || any_item p more

abbrev pub any_of : (Json → Bool) → Json → Bool
any_of p (array obs) = any_item p obs
any_of p _ = false

abbrev pub is_insecure : (ℕ → ℕ) → Json → Bool
is_insecure fold cfg = any (any_of (has_flag fold)) (fields_of fold (codes "outbounds") cfg)

module _ (fold : ℕ → ℕ) (name : Runes) where
  count_grows :
      (seen : ℕ) (found : Runes) (m : Members)
      → leb seen (Policy.count_keys fold name seen found m).0 ≡ true
  unfolding Policy.count_keys
  count_grows seen found no_members = ground arith
  count_grows seen found (member k v m) =
      ground (arith, count_grows (seen + 1) k m, count_grows seen found m)

  -- a loop that has counted one key goes on as soleField's does
  counted_one :
      (found : Runes) (m : Members)
      → is_found found ≡ true
      → ltb 1 (Policy.count_keys fold name 1 found m).0 ≡ false
      → sole_from fold name found m ≡ ok (Policy.count_keys fold name 1 found m).1
  unfolding Policy.count_keys sole_from
  counted_one found no_members f h = refl
  counted_one found (member k v m) f h = ground (arith, count_grows 2 k m, counted_one found m f)

  counted_none :
      (m : Members)
      → is_found name ≡ true
      → ltb 1 (Policy.count_keys fold name 0 [] m).0 ≡ false
      → sole_from fold name [] m ≡ ok (Policy.count_keys fold name 0 [] m).1
  unfolding Policy.count_keys sole_from
  counted_none no_members n h = refl
  counted_none (member k v m) n h = elim (Bool-cases (same_key fold k name)) [
    | inl s ↦ ground (arith, s, counted_one k m (same-found fold name n k s))
    | inr s ↦ ground (arith, s, counted_none m n)
  ]

  counted_sole :
      (k : Runes) (m : Members)
      → is_found name ≡ true
      → Policy.sole_key fold name (some (object m)) ≡ ok k
      → sole_from fold name [] m ≡ ok k
  unfolding Policy.sole_key
  counted_sole k m n h = elim (Bool-cases (ltb 1 (Policy.count_keys fold name 0 [] m).0)) [
    | inl c ↦ absurd (ground (arith, c, h))
    | inr c ↦ counted_none m n c ∙ ground (arith, c, h)
  ]

  -- nothing is there, or one value at the key that was found
  abbrev pub Sole : Json → Runes → Type 0
  Sole j k =
      ((is_found k ≡ false) × (fields_of fold name j ≡ []))
      ⊎ ((m : Members) × (v : Json) × (j ≡ object m)
          × (is_found k ≡ true)
          × (at_key k m ≡ some v)
          × (values_of fold name m ≡ v ∷ [])
          × (values_of fold name (delete_key k m) ≡ []))

  pub sole_key_lem :
      (j : Json) (k : Runes)
      → is_found name ≡ true
      → Policy.sole_key fold name (some j) ≡ ok k
      → Sole j k
  unfolding Policy.sole_key
  sole_key_lem (object m) k n h =
      let sole = counted_sole k m n h in
      elim (sole_reads fold name n k m sole) [
        | inl (v, found, only) ↦ elim (Bool-cases (is_found k)) [
          | inl f ↦ inr (m, v, refl, f, found, only, (one_found fold name n k m sole f).1)
          | inr f ↦ absurd (ground (arith, only, none_found fold name n k m sole f))
        ]
        | inr (e, nothing) ↦ inl (ap is_found e, nothing)
      ]
  sole_key_lem null k n h = inl (ap is_found (sym (from_ok [] k h)), refl)
  sole_key_lem (flag _) k n h = inl (ap is_found (sym (from_ok [] k h)), refl)
  sole_key_lem (number _) k n h = inl (ap is_found (sym (from_ok [] k h)), refl)
  sole_key_lem (text _) k n h = inl (ap is_found (sym (from_ok [] k h)), refl)
  sole_key_lem (array _) k n h = inl (ap is_found (sym (from_ok [] k h)), refl)

module _ (fold : ℕ → ℕ) where
  pub put_anew :
      (name k : Runes) (v : Json) (m : Members)
      → values_of fold name (delete_key k m) ≡ []
      → values_of fold name (put name v (delete_key k m)) ≡ v ∷ []
  put_anew name k v m h =
      values_of-put fold name name v (delete_key k m) (same_key_refl fold name)
        (values_of-delete_key fold name name (delete_key k m) h)

  pub without_flag_lem :
      (p : Policy.Path3)
      → values_of fold (codes "streamSettings") (delete_key p.stream_key p.ob) ≡ []
      → values_of fold (codes "tlsSettings") (delete_key p.tls_key p.stream) ≡ []
      → values_of fold (codes "allowInsecure") (delete_key p.flag_key p.tls) ≡ []
      → has_flag fold (Policy.without_flag p) ≡ false
  without_flag_lem p h1 h2 h3 =
      let tls = object (delete_key p.flag_key p.tls) in
      let stream = object (put (codes "tlsSettings") tls (delete_key p.tls_key p.stream)) in
      ap (any (stream_has_flag fold))
        (put_anew (codes "streamSettings") p.stream_key stream p.ob h1)
      ∙ ap (λ vs. any (tls_has_flag fold) vs || false)
          (put_anew (codes "tlsSettings") p.tls_key tls p.stream h2)
      ∙ ap (λ vs. (is_there vs || false) || false) h3

pub unless_other_lem :
    (o : Option Json) (raw : Json) (r : Json × Bool)
    → Policy.unless_other o raw ≡ ok r
    → r ≡ (raw, false)
unless_other_lem none raw r h = sym (from_ok (raw, false) r h)
unless_other_lem (some null) raw r h = sym (from_ok (raw, false) r h)
unless_other_lem (some (object _)) raw r h = sym (from_ok (raw, false) r h)
unless_other_lem (some _) raw r h = absurd (cc)
