-- ===== src/Xraycfg/Clearing.antt =====
-- clearInsecure finds the flag of an outbound and takes it out.
use xray_runner.Prelude.{
  Option, List, ℕ, Bool, true, false, ◌||◌, ◌≡◌, refl, sym, ap, ◌∙◌, subst, [], any, some, Runes,
  codes, if◌then◌else◌, ◌∷◌, ◌⊎◌, inl, inr,
}
use xray_runner.Prelude.Outcome.{Outcome, ok, fail, handle, from_ok, split_handle}
use xray_runner.Xraycfg.Json.{
  Json, null, flag, object, array, text, number, Members, no_members, at_key, delete_key, is_found,
  values_of,
}
use xray_runner.Xraycfg.Policy
use xray_runner.Xraycfg.Secure.{
  fields_of, is_there, tls_has_flag, stream_has_flag, has_flag, sole_key_lem, without_flag_lem,
  unless_other_lem,
}

abbrev path : Runes → Runes → Runes → Members → Members → Members → Policy.Path3
path k1 k2 k3 ob stream tls = record {
  stream_key = k1;
  tls_key = k2;
  flag_key = k3;
  ob = ob;
  stream = stream;
  tls = tls;
}

-- a result without the flag, which is the outbound as it came where nothing was removed
abbrev pub Cleared : (ℕ → ℕ) → Json → Json × Bool → Type 0
Cleared fold raw r = (has_flag fold r.0 ≡ false) × (r.1 ≡ false → r.0 ≡ raw)

as_it_came :
    (fold : ℕ → ℕ) (raw : Json) (r : Json × Bool)
    → has_flag fold raw ≡ false
    → r ≡ (raw, false)
    → Cleared fold raw r
as_it_came fold raw r clean e = subst (Cleared fold raw) (sym e) (clean, λ h. refl)

removed :
    (fold : ℕ → ℕ) (raw : Json) (p : Policy.Path3) (found : Json) (r : Json × Bool)
    → has_flag fold (Policy.without_flag p) ≡ false
    → Policy.clear_flag false raw p (some found) ≡ ok r
    → Cleared fold raw r
removed fold raw p (flag b) r clean h =
    subst (Cleared fold raw) (from_ok (Policy.without_flag p, true) r h) (clean, λ t. absurd (cc))
removed fold raw p null r clean h = absurd (cc)
removed fold raw p (number _) r clean h = absurd (cc)
removed fold raw p (text _) r clean h = absurd (cc)
removed fold raw p (array _) r clean h = absurd (cc)
removed fold raw p (object _) r clean h = absurd (cc)

-- One step of the descent: the field is not there and the other result is given, or the code goes
-- on with the object that has it.
descend :
    (fold : ℕ → ℕ) (name : Runes) (o : Option Json) (v : Json)
    (next : Runes → Members → Outcome Policy.PolicyError (Json × Bool))
    (other : Outcome Policy.PolicyError (Json × Bool)) (r : Json × Bool)
    → is_found name ≡ true
    → o ≡ some v
    → handle
        (Policy.sole_key fold name o)
        fail
        (λ k. if is_found k then handle (Policy.read_object o) fail (next k) else other)
      ≡ ok r
    → ((fields_of fold name v ≡ []) × (other ≡ ok r))
      ⊎ ((k : Runes) × (m : Members) × (w : Json) × (at_key k m ≡ some w)
          × (fields_of fold name v ≡ w ∷ [])
          × (values_of fold name (delete_key k m) ≡ [])
          × (next k m ≡ ok r))
descend fold name o v next other r n at h =
    let step = λ (o : Option Json) (k : Runes).
      if is_found k then handle (Policy.read_object o) fail (next k) else other in
    let h = subst (λ o. handle (Policy.sole_key fold name o) fail (step o) ≡ ok r) at h in
    let (k, sole, h) =
      split_handle (λ e. e) (step (some v)) (Policy.sole_key fold name (some v)) h in
    let branch =
      λ (b : Bool). if b then handle (Policy.read_object (some v)) fail (next k) else other in
    elim (sole_key_lem fold name v k n sole) [
      | inl (f, nothing) ↦ inl (nothing, subst (λ b. branch b ≡ ok r) f h)
      | inr (m, w, e, f, there, only, gone) ↦
          let h = subst (λ b. branch b ≡ ok r) f h in
          inr (
            k,
            m,
            w,
            there,
            ap (fields_of fold name) e ∙ only,
            gone,
            subst (λ j. handle (Policy.read_object (some j)) fail (next k) ≡ ok r) e h,
          )
    ]

module _ (fold : ℕ → ℕ) (raw : Json) (r : Json × Bool) (k1 : Runes) (ob : Members) where
  module _ (gone1 : values_of fold (codes "streamSettings") (delete_key k1 ob) ≡ []) where
    in_tls_lem :
        (k2 : Runes) (stream : Members) (t : Json)
        → at_key k2 stream ≡ some t
        → has_flag fold raw ≡ ((tls_has_flag fold t || false) || false)
        → values_of fold (codes "tlsSettings") (delete_key k2 stream) ≡ []
        → Policy.find_flag fold false raw (path k1 k2 [] ob no_members no_members) stream ≡ ok r
        → Cleared fold raw r
    in_tls_lem k2 stream t at2 has gone2 h =
        let next = λ (k3 : Runes). Policy.in_flags false raw (path k1 k2 k3 ob stream no_members) in
        let other = Policy.unless_other (at_key k2 stream) raw in
        elim (descend fold (codes "allowInsecure") (at_key k2 stream) t next other r refl at2 h) [
          | inl (nothing, h) ↦
              as_it_came fold raw r (has ∙ ap (λ vs. (is_there vs || false) || false) nothing)
                (unless_other_lem (at_key k2 stream) raw r h)
          | inr (k3, tls, found, at3, only, gone3, h) ↦
              let p = path k1 k2 k3 ob stream tls in
              removed fold raw p found r (without_flag_lem fold p gone1 gone2 gone3)
                (subst (λ o. Policy.clear_flag false raw p o ≡ ok r) at3 h)
        ]

    in_stream_lem :
        (v : Json)
        → at_key k1 ob ≡ some v
        → has_flag fold raw ≡ (stream_has_flag fold v || false)
        → Policy.find_tls fold false raw k1 ob ≡ ok r
        → Cleared fold raw r
    in_stream_lem v at1 has h =
        let next = λ (k2 : Runes).
          Policy.find_flag fold false raw (path k1 k2 [] ob no_members no_members) in
        let other = Policy.unless_other (at_key k1 ob) raw in
        let has_one = λ (vs : List Json). any (tls_has_flag fold) vs || false in
        elim (descend fold (codes "tlsSettings") (at_key k1 ob) v next other r refl at1 h) [
          | inl (nothing, h) ↦
              as_it_came fold raw r (has ∙ ap has_one nothing)
                (unless_other_lem (at_key k1 ob) raw r h)
          | inr (k2, stream, t, at2, only, gone2, h) ↦
              in_tls_lem k2 stream t at2 (has ∙ ap has_one only) gone2 h
        ]

pub clear_insecure-Cleared :
    (fold : ℕ → ℕ) (raw : Json) (r : Json × Bool)
    → Policy.clear_insecure fold raw false ≡ ok r
    → Cleared fold raw r
unfolding Policy.clear_insecure
clear_insecure-Cleared fold raw r h =
    let next = Policy.find_tls fold false raw in
    let has_one = any (stream_has_flag fold) in
    elim (descend fold (codes "streamSettings") (some raw) raw next (ok (raw, false)) r refl refl
      h) [
        | inl (nothing, h) ↦
            as_it_came fold raw r (ap has_one nothing) (sym (from_ok (raw, false) r h))
        | inr (k1, ob, v, at1, only, gone1, h) ↦
            in_stream_lem fold raw r k1 ob gone1 v at1 (ap has_one only) h
      ]
