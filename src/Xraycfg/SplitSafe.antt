-- ===== src/Xraycfg/SplitSafe.antt =====
-- What ApplySplitRouting (internal/xraycfg/split.go) does to connections: the unlisted stay out of
-- the tunnel, the listed go where they went before.
use xray_runner.Prelude.{
  ℕ, Bool, true, false, ◌||◌, Option, none, some, String, List, [], ◌∷◌, ◌++◌, mem_str, Runes, any,
  trim_space, ◌≡◌, ◌⊎◌, inl, inr, is_some, arith, All, refl, Bool-cases, ◌∙◌, Option-cases,
}
use xray_runner.Prelude.Outcome.{ok, split_chain}
use xray_runner.Xraycfg.Config.{
  Field, absent, malformed, value, Strings, Rule, equal_fold, string_list,
}
use xray_runner.Xraycfg.Split.{
  rule_outbound_tag, has_balancer, listed_names, process_names, with_names, for_processes,
  narrow_rule, rewrite_rule, rewrite_rules, emit,
}
use xray_runner.Xraycfg.Routing.{outbound, target, rule_matches, route}

-- Spellings that fold to the same name stand for the same program.
abbrev pub FoldSound : (ℕ → ℕ) → (Runes → Bool) → Type 0
FoldSound fold named = (a b : Runes) → equal_fold fold a b ≡ true → named a ≡ named b

module _ (fold : ℕ → ℕ) (named : Runes → Bool) (sound : FoldSound fold named) where
  unlisted_name :
      (processes : List Runes) (t : Runes)
      → any named processes ≡ false
      → any (λ l. equal_fold fold l t) processes ≡ true
      → named t ≡ false
  unlisted_name [] t h k = cc
  unlisted_name (p ∷ ps) t h k = ground (arith, sound p t, unlisted_name ps t)

  unlisted_names :
      (processes names : List Runes)
      → any named processes ≡ false
      → any named (listed_names fold processes names) ≡ false
  unfolding listed_names
  unlisted_names processes [] h = refl
  unlisted_names processes (p ∷ ps) h =
      ground (arith, unlisted_name processes (trim_space p) h, unlisted_names processes ps h)

  unlisted_process :
      (processes : List Runes) (own : Field Strings) (names : List Runes)
      → any named processes ≡ false
      → process_names fold processes own ≡ ok (some names)
      → any named names ≡ false
  unfolding process_names
  unlisted_process processes absent names h e = ground arith
  unlisted_process processes malformed names h e = cc
  unlisted_process processes (value own) names h e = elim (Option-cases (string_list (value own))) [
    | inl n ↦ ground arith
    | inr (l, n) ↦ ground (arith, unlisted_names processes l h)
  ]

-- what a successful round of the loop found
pub rewrite_rules-cons {ℓ} :
    {R : Type ℓ} (fold : ℕ → ℕ) (processes : List Runes) (locals : List String) (r : Rule R)
    (rs out : List (Rule R)) (tunnel : Bool)
    → rewrite_rules fold processes locals (r ∷ rs) ≡ ok (out, tunnel)
    → (o : Option (Rule R)) × (u : Bool) × (os : List (Rule R)) × (us : Bool) × (rewrite_rule fold
          processes locals r
        ≡ ok (o, u))
      × (rewrite_rules fold processes locals rs ≡ ok (os, us))
      × (out ≡ emit o os)
      × (tunnel ≡ (u || us))
unfolding rewrite_rules
rewrite_rules-cons fold processes locals r rs out tunnel h =
    let (head, e, h') = split_chain _ (rewrite_rule fold processes locals r) h in
    let (tail, e', h'') = split_chain _ (rewrite_rules fold processes locals rs) h' in
    (head.0, head.1, tail.0, tail.1, e, e', ground arith, ground arith)

-- a rule that an unlisted connection does not meet, or that leads to a local outbound
abbrev pub Harmless {ℓ} : {R : Type ℓ} → (R → Bool) → (Runes → Bool) → List String → Rule R → Type 0
Harmless holds named locals r =
    (rule_matches holds named r ≡ false)
    ⊎ ((tag : String) × (target r ≡ outbound tag) × (mem_str tag locals ≡ true))

module _ {ℓ} {R : Type ℓ} (fold : ℕ → ℕ) (holds : R → Bool) (named : Runes → Bool)
    (sound : FoldSound fold named) (processes : List Runes) (unlisted : any named processes ≡ false)
    (locals : List String) (no_empty : mem_str "" locals ≡ false) where
  for_processes_unlisted :
      (r r' : Rule R)
      → for_processes fold processes r ≡ ok (some r')
      → rule_matches holds named r' ≡ false
  unfolding for_processes
  for_processes_unlisted r r' h =
      let (names, e, f) =
        split_chain (λ n. ok (with_names r n)) (process_names fold processes r.process) h in
      elim (Option-cases names) [
        | inl n ↦ ground arith
        | inr (l, n) ↦
            ground (arith, unlisted_process fold named sound processes r.process l unlisted)
      ]

  narrow_rule_unlisted :
      (r r' : Rule R) (tunnel : Bool)
      → narrow_rule fold processes r ≡ ok (some r', tunnel)
      → rule_matches holds named r' ≡ false
  unfolding narrow_rule
  narrow_rule_unlisted r r' tunnel h =
      let (narrowed, e, f) =
        split_chain (λ n. ok (n, is_some n)) (for_processes fold processes r) h in
      for_processes_unlisted r r' (ground arith)

  kept_target :
      (r : Rule R) (tag : String)
      → has_balancer r ≡ false
      → rule_outbound_tag r ≡ ok tag
      → mem_str tag locals ≡ true
      → target r ≡ outbound tag
  kept_target r tag b t m = ground (arith, no_empty)

  rewrite_rule-Harmless :
      (r r' : Rule R) (tunnel : Bool)
      → rewrite_rule fold processes locals r ≡ ok (some r', tunnel)
      → Harmless holds named locals r'
  unfolding rewrite_rule
  rewrite_rule-Harmless r r' tunnel h = elim (Bool-cases (has_balancer r)) [
    | inl b ↦ inl (narrow_rule_unlisted r r' tunnel (rw (b) at h))
    | inr b ↦
        let (tag, t, k) = split_chain _ (rule_outbound_tag r) (rw b at h) in
        elim (Bool-cases (mem_str tag locals)) [
          | inl m ↦ inr (tag, ground (arith, kept_target r tag b t m), m)
          | inr m ↦ inl (narrow_rule_unlisted r r' tunnel (ground arith))
        ]
  ]

  emit-Harmless :
      (o : Option (Rule R)) (rules : List (Rule R))
      → ((r' : Rule R) → o ≡ some r' → Harmless holds named locals r')
      → All (Harmless holds named locals) rules
      → All (Harmless holds named locals) (emit o rules)
  emit-Harmless none rules f h = h
  emit-Harmless (some r) rules f h = (f r refl, h)

  pub rewrite_rules-Harmless :
      (rs out : List (Rule R)) (tunnel : Bool)
      → rewrite_rules fold processes locals rs ≡ ok (out, tunnel)
      → All (Harmless holds named locals) out
  rewrite_rules-Harmless [] out tunnel h = unfold rewrite_rules in ground arith
  rewrite_rules-Harmless (r ∷ rs) out tunnel h =
      let (o, u, os, us, e, e', eq, _) =
        rewrite_rules-cons fold processes locals r rs out tunnel h in
      rw eq (
        emit-Harmless o os (λ r' n. rewrite_rule-Harmless r r' u (e ∙ rw n))
          (rewrite_rules-Harmless rs os us e'))

  pub route-Harmless :
      (rules rest : List (Rule R))
      → All (Harmless holds named locals) rules
      → (route holds named (rules ++ rest) ≡ route holds named rest)
        ⊎ ((tag : String) × (route holds named (rules ++ rest) ≡ some (outbound tag))
            × (mem_str tag locals ≡ true))
  unfolding route
  route-Harmless [] rest h = inl refl
  route-Harmless (r ∷ rules) rest (p, h) = elim (Bool-cases (rule_matches holds named r)) [
    | inl m ↦ elim p [ inl n ↦ absurd (cc) | inr (tag, t, k) ↦ inr (tag, ground arith, k) ]
    | inr m ↦ elim (route-Harmless rules rest h) [
      | inl e ↦ inl (ground arith)
      | inr (tag, e, k) ↦ inr (tag, ground arith, k)
    ]
  ]
