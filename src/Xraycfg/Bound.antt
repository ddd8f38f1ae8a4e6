-- ===== src/Xraycfg/Bound.antt =====
-- withBind puts the binding where the core reads it.
use xray_runner.Prelude.{
  ℕ, Bool, true, false, ◌≡◌, refl, sym, ap, ◌∙◌, subst, [], ◌∷◌, Option, codes, if◌then◌else◌, inl,
  inr, Bool-cases, if_lem, arith,
}
use xray_runner.Prelude.Outcome.{ok, from_ok, split_handle}
use xray_runner.Xraycfg.Json.{
  Json, object, text, number, Members, at_key, put, same_key, sole_field, set_field, is_found,
  values_of, drop_field,
}
use xray_runner.Xraycfg.Keys.{
  same_key-length, values_of-set_field, values_of-set_other, values_of-sole,
}
use xray_runner.Xraycfg.Kept.{
  members_of, unbound, drop_field-put, same_key-or_name, object_of-sole, unbound-set,
}
use xray_runner.Xraycfg.Bind.{
  DirectBind, repeated_key, bad_stream, bad_sockopt, is_zero, object_of, set_mark, set_interface,
  or_name, write_sockopt, bind_sockopt, bind_members, with_bind,
}

-- the core reads the mark of the binding, if it has one
abbrev pub HasMark : (ℕ → ℕ) → DirectBind → Members → Type 0
HasMark fold bind sockopt =
    if is_zero bind.mark
    then Unit
    else (values_of fold (codes "mark") sockopt ≡ number bind.mark ∷ [])

abbrev pub HasInterface : (ℕ → ℕ) → DirectBind → Members → Type 0
HasInterface fold bind sockopt =
    if is_found bind.interface
    then (values_of fold (codes "interface") sockopt ≡ text bind.interface ∷ [])
    else Unit

-- the core reads the binding in the one sockopt of a stream; the stream's other settings, and the
-- sockopt's but for the binding, are those that it found before
abbrev pub IsBound : (ℕ → ℕ) → DirectBind → Members → Json → Type 0
IsBound fold bind before stream =
    (m sockopt : Members) × (stream ≡ object m)
    × (values_of fold (codes "sockopt") m ≡ object sockopt ∷ [])
    × HasMark fold bind sockopt
    × HasInterface fold bind sockopt
    × (drop_field fold (codes "sockopt") m ≡ drop_field fold (codes "sockopt") before)
    × (unbound fold bind sockopt
        ≡ unbound fold bind (members_of (values_of fold (codes "sockopt") before)))

distinct : (fold : ℕ → ℕ) → same_key fold (codes "interface") (codes "mark") ≡ false
distinct fold = elim (Bool-cases (same_key fold (codes "interface") (codes "mark"))) [
  | inl h ↦ absurd (omega (arith, same_key-length fold (codes "interface") (codes "mark") h))
  | inr h ↦ h
]

set_unless :
    (P : Members → Type 0) (b : Bool) (m m' : Members)
    → P m'
    → if b then Unit else P (if b then m else m')
set_unless P true m m' p = tt
set_unless P false m m' p = p

set_when :
    (P : Members → Type 0) (b : Bool) (m m' : Members)
    → P m'
    → if b then P (if b then m' else m) else Unit
set_when P true m m' p = p
set_when P false m m' p = tt

module _ (fold : ℕ → ℕ) (bind : DirectBind) where
  mark_kept :
      (m : Members)
      → values_of fold (codes "mark") (set_interface fold bind.interface m)
        ≡ values_of fold (codes "mark") m
  mark_kept m =
      if_lem (λ x. values_of fold (codes "mark") x ≡ values_of fold (codes "mark") m)
        (is_found bind.interface) (set_field fold m (codes "interface") (text bind.interface)) m
        (λ h.
          values_of-set_other fold (codes "mark") (codes "interface") (distinct fold) m
            (text bind.interface))
        (λ h. refl)

  has_mark :
      (m : Members)
      → HasMark fold bind (set_interface fold bind.interface (set_mark fold bind.mark m))
  has_mark m =
      subst (λ vs. if is_zero bind.mark then Unit else (vs ≡ number bind.mark ∷ []))
        (sym (mark_kept (set_mark fold bind.mark m)))
        (set_unless (λ x. values_of fold (codes "mark") x ≡ number bind.mark ∷ [])
          (is_zero bind.mark) m (set_field fold m (codes "mark") (number bind.mark))
          (values_of-set_field fold (codes "mark") m (number bind.mark)))

  has_interface : (m : Members) → HasInterface fold bind (set_interface fold bind.interface m)
  has_interface m =
      set_when (λ x. values_of fold (codes "interface") x ≡ text bind.interface ∷ [])
        (is_found bind.interface) m (set_field fold m (codes "interface") (text bind.interface))
        (values_of-set_field fold (codes "interface") m (text bind.interface))

  pub with_bind-IsBound :
      (raw : Option Json) (stream : Json)
      → with_bind fold raw bind ≡ ok stream
      → (m : Members) × (object_of bad_stream raw ≡ ok m) × IsBound fold bind m stream
  unfolding with_bind
  with_bind-IsBound raw stream h =
      let name = codes "sockopt" in
      let (m, read, h) =
        split_handle (λ e. e) (bind_members fold bind) (object_of bad_stream raw) h in
      let (found, sole, h) =
        split_handle repeated_key (bind_sockopt fold bind m) (sole_field fold m name) h in
      let key = or_name found name in
      let (old, decoded, h) =
        split_handle (λ e. e) (write_sockopt fold bind m key) (object_of bad_sockopt (at_key key m))
          h in
      let sockopt = set_interface fold bind.interface (set_mark fold bind.mark old) in
      let was = object_of-sole fold name refl bad_sockopt found m old sole decoded in
      (
        m,
        read,
        (
          put key (object sockopt) m,
          sockopt,
          sym (from_ok (object (put key (object sockopt) m)) stream h),
          values_of-sole fold name refl found (object sockopt) m sole,
          has_mark old,
          has_interface (set_mark fold bind.mark old),
          drop_field-put fold name key (object sockopt) m
              (same_key-or_name fold name refl found m sole),
          unbound-set fold bind old ∙ ap (unbound fold bind) was,
        ),
      )
