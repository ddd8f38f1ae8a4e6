-- ===== src/Xraycfg/NoInsecure.antt =====
-- A config that ApplySecurityPolicy lets through, with all its outbounds.
use xray_runner.Prelude.{
  ℕ, ◌+◌, Bool, true, false, ◌||◌, ◌≡◌, refl, sym, ap, ◌∙◌, subst, [], any, some, Runes, codes,
  if◌then◌else◌, inl, inr, ◌⊎◌, arith,
}
use xray_runner.Prelude.Outcome.{ok, from_ok, split_handle}
use xray_runner.Xraycfg.Json.{
  Json, null, flag, object, array, text, number, Items, item, no_items, Members, no_members, at_key,
  delete_key, put, values_of,
}
use xray_runner.Xraycfg.Policy
use xray_runner.Xraycfg.Secure.{
  fields_of, has_flag, any_item, any_of, is_insecure, sole_key_lem, put_anew,
}
use xray_runner.Xraycfg.Clearing.{clear_insecure-Cleared}

both_same :
    (one : Json × Bool) (others : Items × Bool) (src : Json) (more : Items)
    → (one.1 || others.1) ≡ false
    → (one.1 ≡ false → one.0 ≡ src)
    → (others.1 ≡ false → others.0 ≡ more)
    → item one.0 others.0 ≡ item src more
both_same (a, false) (l, false) src more t f g =
    ap (item a) (g refl) ∙ ap (λ x. item x more) (f refl)
both_same (a, true) (l, _) src more t f g = absurd (cc)
both_same (a, false) (l, true) src more t f g = absurd (cc)

clear_items_lem :
    (fold : ℕ → ℕ) (i : ℕ) (obs : Items) (r : Items × Bool)
    → Policy.clear_items fold false i obs ≡ ok r
    → (any_item (has_flag fold) r.0 ≡ false) × (r.1 ≡ false → r.0 ≡ obs)
unfolding Policy.clear_items
clear_items_lem fold i no_items r h =
    subst (λ x. (any_item (has_flag fold) x.0 ≡ false) × (x.1 ≡ false → x.0 ≡ no_items))
      (from_ok (no_items, false) r h) (refl, λ t. refl)
clear_items_lem fold i (item src more) r h =
    let rest = Policy.clear_items fold false (i + 1) more in
    let (one, cleared, h) =
      split_handle (Policy.at_outbound i) (Policy.and_items rest)
        (Policy.clear_insecure fold src false) h in
    let (others, all, h) = split_handle (λ e. e) (Policy.and_item one) rest h in
    let (clean, same) = clear_insecure-Cleared fold src one cleared in
    let (cleans, sames) = clear_items_lem fold (i + 1) more others all in
    subst (λ x. (any_item (has_flag fold) x.0 ≡ false) × (x.1 ≡ false → x.0 ≡ item src more))
      (from_ok (item one.0 others.0, one.1 || others.1) r h)
      (ground (arith, clean, cleans), λ t. both_same one others src more t same sames)

written :
    (fold : ℕ → ℕ) (raw : Json) (k : Runes) (cfg : Members) (obs obs' : Items) (changed : Bool)
    (out : Json)
    → is_insecure fold raw ≡ (any_item (has_flag fold) obs || false)
    → values_of fold (codes "outbounds") (delete_key k cfg) ≡ []
    → any_item (has_flag fold) obs' ≡ false
    → (changed ≡ false → obs' ≡ obs)
    → Policy.write_back raw k cfg (obs', changed) ≡ ok out
    → is_insecure fold out ≡ false
written fold raw k cfg obs obs' true out has gone clean same h =
    subst (λ j. is_insecure fold j ≡ false)
      (from_ok (object (put (codes "outbounds") (array obs') (delete_key k cfg))) out h)
      (ap (any (any_of (has_flag fold))) (put_anew fold (codes "outbounds") k (array obs') cfg gone)
        ∙ ap (λ b. b || false) clean)
written fold raw k cfg obs obs' false out has gone clean same h =
    subst (λ j. is_insecure fold j ≡ false) (from_ok raw out h)
      (has
        ∙ ap (λ l. any_item (has_flag fold) l || false) (sym (same refl))
        ∙ ap (λ b. b || false) clean)

list_lem :
    (fold : ℕ → ℕ) (raw : Json) (k : Runes) (cfg : Members) (l out : Json)
    → is_insecure fold raw ≡ (any_of (has_flag fold) l || false)
    → values_of fold (codes "outbounds") (delete_key k cfg) ≡ []
    → Policy.clear_list fold false raw k cfg (some l) ≡ ok out
    → is_insecure fold out ≡ false
list_lem fold raw k cfg (array obs) out has gone h =
    let (done, cleared, h) =
      split_handle (λ e. e) (Policy.write_back raw k cfg) (Policy.clear_items fold false 0 obs) h in
    let (clean, same) = clear_items_lem fold 0 obs done cleared in
    written fold raw k cfg obs done.0 done.1 out has gone clean same h
list_lem fold raw k cfg null out has gone h =
    subst (λ j. is_insecure fold j ≡ false) (from_ok raw out h) has
list_lem fold raw k cfg (flag _) out has gone h = absurd (cc)
list_lem fold raw k cfg (number _) out has gone h = absurd (cc)
list_lem fold raw k cfg (text _) out has gone h = absurd (cc)
list_lem fold raw k cfg (object _) out has gone h = absurd (cc)

apply_lem :
    (fold : ℕ → ℕ) (raw out : Json) (cfg : Members)
    → (raw ≡ null) ⊎ (raw ≡ object cfg)
    → Policy.apply_to fold false raw cfg ≡ ok out
    → is_insecure fold out ≡ false
apply_lem fold raw out cfg shape h =
    let name = codes "outbounds" in
    let (k, sole, h) =
      split_handle (λ e. e) (Policy.at_outbounds fold false raw cfg)
        (Policy.sole_key fold name (some raw)) h in
    elim (sole_key_lem fold name raw k refl sole) [
      | inl (f, nothing) ↦
          subst (λ j. is_insecure fold j ≡ false)
            (from_ok raw out (
              subst
                (λ b.
                  (if b then Policy.clear_list fold false raw k cfg (at_key k cfg) else ok raw)
                  ≡ ok out)
                f h))
            (ap (any (any_of (has_flag fold))) nothing)
      | inr (m, l, e, f, found, only, gone) ↦
          let h =
            subst
              (λ b.
                (if b then Policy.clear_list fold false raw k cfg (at_key k cfg) else ok raw)
                ≡ ok out)
              f h in
          let same = elim shape as (λ _. m ≡ cfg) [ inl n ↦ absurd (cc) | inr o ↦ cc ] in
          let found = subst (λ x. at_key k x ≡ some l) same found in
          let gone = subst (λ x. values_of fold name (delete_key k x) ≡ []) same gone in
          let h = subst (λ o. Policy.clear_list fold false raw k cfg o ≡ ok out) found h in
          list_lem fold raw k cfg l out
            (ap (any (any_of (has_flag fold))) (ap (fields_of fold name) e ∙ only)) gone h
    ]

-- Where the user has not allowed insecure TLS: in a config that ApplySecurityPolicy lets through, the
-- core finds no allowInsecure in the TLS settings of any outbound, whichever way the keys on the
-- path are spelled.
pub no_insecure_left :
    (fold : ℕ → ℕ) (raw out : Json)
    → Policy.apply_security_policy fold raw false ≡ ok out
    → is_insecure fold out ≡ false
unfolding Policy.apply_security_policy
no_insecure_left fold (object cfg) out h = apply_lem fold (object cfg) out cfg (inr refl) h
no_insecure_left fold null out h = apply_lem fold null out no_members (inl refl) h
no_insecure_left fold (flag _) out h = absurd (cc)
no_insecure_left fold (number _) out h = absurd (cc)
no_insecure_left fold (text _) out h = absurd (cc)
no_insecure_left fold (array _) out h = absurd (cc)
