-- ===== src/Xraycfg/Escapes.antt =====
-- What BindDirectOutbounds makes of a config: no freedom outbound goes back into the tunnel.
use xray_runner.Prelude.{
  ℕ, Bool, true, false, not, ◌&&◌, ◌≡◌, refl, sym, ap, ◌∙◌, subst, List, [], ◌∷◌, Option, none,
  some, codes, if◌then◌else◌, inl, inr, Bool-cases, arith,
}
use xray_runner.Prelude.Outcome.{ok, fail, handle, from_ok, split_handle}
use xray_runner.Xraycfg.Json.{
  Json, null, object, array, Items, item, no_items, Members, at_key, put, sole_field, is_found,
  values_of, drop_field,
}
use xray_runner.Xraycfg.Keys.{values_of-sole, sole_reads}
use xray_runner.Xraycfg.Kept.{members_of, drop_field-put, same_key-or_name, object_of-sole}
use xray_runner.Xraycfg.Bind.{
  bad_stream, DirectBind, repeated_key, is_zero, or_name, with_bind, put_stream, bind_at_key,
  if_freedom, with_object, is_freedom, bind_stream, bind_outbound, bind_items, are_objects,
  bind_list, bind_at, as_array, put_outbounds, bad_outbounds, bind_direct_outbounds,
}
use xray_runner.Xraycfg.Bound.{IsBound, with_bind-IsBound}

-- the core reads the binding in the one stream of an outbound, whose other fields are as before
abbrev pub Escapes : (ℕ → ℕ) → DirectBind → Members → Members → Type 0
Escapes fold bind before after =
    (stream : Json) × (values_of fold (codes "streamSettings") after ≡ stream ∷ [])
    × (drop_field fold (codes "streamSettings") after
        ≡ drop_field fold (codes "streamSettings") before)
    × IsBound fold bind (members_of (values_of fold (codes "streamSettings") before)) stream

-- what the core reads for one value
abbrev pub sole_value : List Json → Option Json
sole_value (v ∷ []) = some v
sole_value _ = none

-- what becomes of an outbound, by the one value of its field `protocol`
abbrev pub Rebound : (ℕ → ℕ) → DirectBind → Members → Members → Type 0
Rebound fold bind before after =
    if is_freedom (sole_value (values_of fold (codes "protocol") before))
    then Escapes fold bind before after
    else if is_freedom (at_key [] before)
    then Unit
    else (after ≡ before)

abbrev pub Rebounds : (ℕ → ℕ) → DirectBind → Items → Items → Type 0
Rebounds fold bind no_items no_items = Unit
Rebounds fold bind (item (object b) more) (item (object a) more') =
    Rebound fold bind b a × Rebounds fold bind more more'
Rebounds fold bind (item null more) (item null more') = Rebounds fold bind more more'
Rebounds fold bind _ _ = ⊥

module _ (fold : ℕ → ℕ) (bind : DirectBind) where
  bind_stream-Escapes :
      (ob after : Members) → bind_stream fold bind ob ≡ ok after → Escapes fold bind ob after
  unfolding bind_stream
  bind_stream-Escapes ob after h =
      let name = codes "streamSettings" in
      let (found, sole, h) =
        split_handle repeated_key (bind_at_key fold bind ob) (sole_field fold ob name) h in
      let key = or_name found name in
      let (stream, bound, h) =
        split_handle (λ e. e) (put_stream ob key) (with_bind fold (at_key key ob) bind) h in
      let (m, read, is_bound) = with_bind-IsBound fold bind (at_key key ob) stream bound in
      let was = object_of-sole fold name refl bad_stream found ob m sole read in
      subst (Escapes fold bind ob) (from_ok (put key stream ob) after h) (
        stream,
        values_of-sole fold name refl found stream ob sole,
        drop_field-put fold name key stream ob (same_key-or_name fold name refl found ob sole),
        subst (λ x. IsBound fold bind x stream) was is_bound,
      )

  -- of the two branches of the body, by the protocol and by the empty key
  freedom_lem :
      (b c : Bool) (ob after : Members)
      → (if b then bind_stream fold bind ob else ok ob) ≡ ok after
      → if b then Escapes fold bind ob after else if c then Unit else (after ≡ ob)
  freedom_lem true c ob after h = bind_stream-Escapes ob after h
  freedom_lem false true ob after h = tt
  freedom_lem false false ob after h = sym (from_ok ob after h)

  other_lem :
      (c : Bool) (ob after : Members)
      → (if c then bind_stream fold bind ob else ok ob) ≡ ok after
      → if c then Unit else (after ≡ ob)
  other_lem true ob after h = tt
  other_lem false ob after h = sym (from_ok ob after h)

  bind_outbound-Rebound :
      (ob after : Members) → bind_outbound fold bind ob ≡ ok after → Rebound fold bind ob after
  unfolding bind_outbound sole_field
  bind_outbound-Rebound ob after h =
      let (key, sole, h) =
        split_handle repeated_key (if_freedom fold bind ob) (sole_field fold ob (codes "protocol"))
          h in
      elim (sole_reads fold (codes "protocol") refl key ob sole) [
        | inl (v, found, only) ↦
            subst
              (λ b.
                if is_freedom b
                then Escapes fold bind ob after
                else if is_freedom (at_key [] ob)
                then Unit
                else (after ≡ ob))
              (found ∙ ap sole_value (sym only))
              (freedom_lem (is_freedom (at_key key ob)) (is_freedom (at_key [] ob)) ob after h)
        | inr (e, nothing) ↦
            subst
              (λ vs.
                if is_freedom (sole_value vs)
                then Escapes fold bind ob after
                else if is_freedom (at_key [] ob)
                then Unit
                else (after ≡ ob))
              (sym nothing)
              (other_lem (is_freedom (at_key [] ob)) ob after (
                subst
                  (λ k.
                    (if is_freedom (at_key k ob) then bind_stream fold bind ob else ok ob)
                    ≡ ok after)
                  e h))
      ]

  bind_items-Rebounds :
      (obs obs' : Items) → bind_items fold bind obs ≡ ok obs' → Rebounds fold bind obs obs'
  unfolding bind_items
  bind_items-Rebounds no_items obs' h =
      subst (Rebounds fold bind no_items) (from_ok no_items obs' h) tt
  bind_items-Rebounds (item (object ob) more) obs' h =
      let (after, one, h) =
        split_handle (λ e. e) (with_object (bind_items fold bind more)) (bind_outbound fold bind ob)
          h in
      let (more', all, h) =
        split_handle (λ e. e) (λ m. ok (item (object after) m)) (bind_items fold bind more) h in
      subst (Rebounds fold bind (item (object ob) more))
        (from_ok (item (object after) more') obs' h)
        (bind_outbound-Rebound ob after one, bind_items-Rebounds more more' all)
  bind_items-Rebounds (item null more) obs' h =
      let (more', all, h) =
        split_handle (λ e. e) (λ m. ok (item null m)) (bind_items fold bind more) h in
      subst (Rebounds fold bind (item null more)) (from_ok (item null more') obs' h)
        (bind_items-Rebounds more more' all)
  bind_items-Rebounds (item _ more) obs' h = absurd (cc)

bind_list_lem :
    (fold : ℕ → ℕ) (bind : DirectBind) (obs : Items) (l : Json)
    → bind_list fold bind (array obs) ≡ ok l
    → (obs' : Items) × (bind_items fold bind obs ≡ ok obs') × (l ≡ array obs')
bind_list_lem fold bind obs l h = elim (Bool-cases (are_objects obs)) [
  | inl b ↦
      let h =
        subst
          (λ b.
            (if b then handle (bind_items fold bind obs) fail as_array else fail bad_outbounds)
            ≡ ok l)
          b h in
      let (obs', bound, h) = split_handle (λ e. e) as_array (bind_items fold bind obs) h in
      (obs', bound, sym (from_ok (array obs') l h))
  | inr b ↦ absurd (ground (arith, b, h))
]

-- When a binding that is not zero is put on a config whose outbounds are a list, and that succeeds,
-- then nothing but the outbounds changes, and one by one. Of an outbound whose protocol, under any
-- spelling of that key, is the text "freedom", the core now reads exactly the mark and the interface
-- of the binding, whichever they were before; its other fields, its stream's other settings and the
-- sockopt's other options are as they were. Any other outbound is as it was, unless it says freedom
-- under an empty key, which the code takes for the protocol of one that has none.
pub bind_direct_outbounds-Rebounds :
    (fold : ℕ → ℕ) (bind : DirectBind) (cfg : Members) (obs : Items) (out : Json)
    → at_key (codes "outbounds") cfg ≡ some (array obs)
    → (is_zero bind.mark && not (is_found bind.interface)) ≡ false
    → bind_direct_outbounds fold (object cfg) bind ≡ ok out
    → (obs' : Items) × (out ≡ object (put (codes "outbounds") (array obs') cfg))
      × Rebounds fold bind obs obs'
unfolding bind_direct_outbounds
bind_direct_outbounds-Rebounds fold bind cfg obs out listed nonzero h =
    let h =
      subst
        (λ b.
          (if b then ok (object cfg) else bind_at fold bind cfg (at_key (codes "outbounds") cfg))
          ≡ ok out)
        nonzero h in
    let h = subst (λ l. bind_at fold bind cfg l ≡ ok out) listed h in
    let (l, decoded, h) =
      split_handle (λ e. e) (put_outbounds cfg) (bind_list fold bind (array obs)) h in
    let (obs', bound, same) = bind_list_lem fold bind obs l decoded in
    (
      obs',
      sym (from_ok (object (put (codes "outbounds") l cfg)) out h)
          ∙ ap (λ x. object (put (codes "outbounds") x cfg)) same,
      bind_items-Rebounds fold bind obs obs' bound,
    )
