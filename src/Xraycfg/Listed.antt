-- ===== src/Xraycfg/Listed.antt =====
-- ApplySplitRouting (internal/xraycfg/split.go) sends a listed connection where it went before.
use xray_runner.Prelude.{
  ℕ, Bool, true, false, Option, none, some, String, List, [], ◌∷◌, ◌++◌, str_eq, mem_str, Runes,
  any, trim_space, ◌≡◌, ◌⊎◌, inl, inr, is_some, arith, All, refl, Bool-cases, split_runes, ◌∙◌, ap,
  Option-cases,
}
use xray_runner.Prelude.Outcome.{ok, split_chain}
use xray_runner.Xraycfg.Config.{
  Field, absent, malformed, value, Strings, listed, single, Rule, Config, equal_fold, string_list,
}
use xray_runner.Xraycfg.Split.{
  local_tags, default_tag, rule_outbound_tag, has_balancer, listed_names, process_names, with_names,
  for_processes, narrow_rule, rewrite_rule, rewrite_rules, ensure_direct, all_locals,
  apply_split_routing, emit, catch_all_rule, default_rules,
}
use xray_runner.Xraycfg.Routing.{Target, outbound, target, process_matches, rule_matches, route}
use xray_runner.Xraycfg.SplitSafe.{FoldSound}
use xray_runner.Xraycfg.SplitSafe.{rewrite_rules-cons}
use xray_runner.Xraycfg.Unlisted.{apply_ok}

-- What the core's process names are taken for: spellings that fold to the same name, but for
-- spaces round them, and only those, stand for one program.
pub record NamesOneProgram (fold : ℕ → ℕ) (named : Runes → Bool) : Type 0 where
  pub sound : FoldSound fold named
  pub complete :
      (a b : Runes)
      → named a ≡ true
      → named b ≡ true
      → equal_fold fold (trim_space a) (trim_space b) ≡ true
  pub trimmed : (a : Runes) → named (trim_space a) ≡ named a

-- a rule that says where it leads
abbrev pub HasTarget {ℓ} : {R : Type ℓ} → Rule R → Type 0
HasTarget r =
    (has_balancer r ≡ true)
    ⊎ ((tag : String) × (r.outbound_tag ≡ value tag) × (str_eq tag "" ≡ false))

module _ (fold : ℕ → ℕ) (named : Runes → Bool) (one : NamesOneProgram fold named) where
  listed_name :
      (processes : List Runes) (t : Runes)
      → All (λ l. trim_space l ≡ l) processes
      → any named processes ≡ true
      → named t ≡ true
      → any (λ l. equal_fold fold l (trim_space t)) processes ≡ true
  listed_name [] t c h k = cc
  listed_name (p ∷ ps) t (c, cs) h k = elim (Bool-cases (named p)) [
    | inl n ↦ ground (arith, rw c at (one.complete p t n k))
    | inr n ↦ ground (arith, listed_name ps t cs)
  ]

  unlisted_own :
      (processes : List Runes) (t : Runes)
      → All (λ l. trim_space l ≡ l) processes
      → any (λ l. equal_fold fold l (trim_space t)) processes ≡ false
      → any named processes ≡ true
      → named t ≡ false
  unlisted_own processes t c h k = ground (arith, listed_name processes t c)

  listed_names-any :
      (processes names : List Runes)
      → All (λ l. trim_space l ≡ l) processes
      → any named processes ≡ true
      → any named (listed_names fold processes names) ≡ any named names
  unfolding listed_names
  listed_names-any processes [] c h = refl
  listed_names-any processes (p ∷ ps) c h =
      ground (arith, one.trimmed p, unlisted_own processes p c, listed_names-any processes ps c h)

-- what a rule becomes leads where the rule did, for those that it matched
abbrev SameRoute {ℓ} :
    {R : Type ℓ} → (R → Bool) → (Runes → Bool) → Option (Rule R) → Rule R → Type 0
SameRoute holds named none r = rule_matches holds named r ≡ false
SameRoute holds named (some r') r =
    (rule_matches holds named r' ≡ rule_matches holds named r) × (target r' ≡ target r)

-- the first target found, or that of the rules behind
abbrev pub or_else : Option Target → Option Target → Option Target
or_else none later = later
or_else (some t) later = some t

module _ {ℓ} {R : Type ℓ} (fold : ℕ → ℕ) (holds : R → Bool) (named : Runes → Bool)
    (one : NamesOneProgram fold named) (processes : List Runes)
    (clean : All (λ l. trim_space l ≡ l) processes) (is_listed : any named processes ≡ true)
    (locals : List String) where
  -- what a rule is narrowed to matches when it did
  process_names-matches :
      (own : Field Strings) (names : Option (List Runes))
      → process_names fold processes own ≡ ok names
      → process_matches holds named own ≡ elim names [ none ↦ false | some l ↦ any named l ]
  unfolding process_names
  process_names-matches absent names h = ground arith
  process_names-matches malformed names h = cc
  process_names-matches (value (listed l)) names h =
      unfold string_list in
      ground (arith, listed_names-any fold named one processes l clean is_listed)
  process_names-matches (value (single l)) names h =
      unfold string_list in
      ground (arith, listed_names-any fold named one processes (split_runes b',' l) clean is_listed)

  for_processes-Same :
      (r : Rule R) (o : Option (Rule R))
      → for_processes fold processes r ≡ ok o
      → SameRoute holds named o r
  unfolding for_processes
  for_processes-Same r o h =
      let (names, e, f) =
        split_chain (λ n. ok (with_names r n)) (process_names fold processes r.process) h in
      elim (Option-cases names) [
        | inl n ↦ ground (arith, process_names-matches r.process none)
        | inr (l, n) ↦ ground (arith, process_names-matches r.process (some l))
      ]

  narrow_rule-Same :
      (r : Rule R) (o : Option (Rule R)) (u : Bool)
      → narrow_rule fold processes r ≡ ok (o, u)
      → SameRoute holds named o r
  unfolding narrow_rule
  narrow_rule-Same r o u h =
      let (narrowed, e, f) =
        split_chain (λ n. ok (n, is_some n)) (for_processes fold processes r) h in
      for_processes-Same r o (ground arith)

  rewrite_rule-Same :
      (r : Rule R) (o : Option (Rule R)) (u : Bool)
      → HasTarget r
      → rewrite_rule fold processes locals r ≡ ok (o, u)
      → SameRoute holds named o r
  unfolding rewrite_rule
  rewrite_rule-Same r o u t h = elim (Bool-cases (has_balancer r)) [
    | inl b ↦ narrow_rule-Same r o u (rw b at h)
    | inr b ↦
        let (tag, e, k) = split_chain _ (rule_outbound_tag r) (rw b at h) in
        elim (Bool-cases (mem_str tag locals)) [
          | inl m ↦ ground arith
          | inr m ↦ narrow_rule-Same r o u (ground arith)
        ]
  ]

  emit-route :
      (o : Option (Rule R)) (r : Rule R) (os rs rest : List (Rule R))
      → SameRoute holds named o r
      → route holds named (os ++ rest) ≡ or_else (route holds named rs) (route holds named rest)
      → route holds named (emit o os ++ rest)
        ≡ or_else (route holds named (r ∷ rs)) (route holds named rest)
  unfolding route
  emit-route none r os rs rest s h = ground arith
  emit-route (some r') r os rs rest s h = ground arith

  rewrite_rules-route :
      (rs out : List (Rule R)) (u : Bool) (rest : List (Rule R))
      → All HasTarget rs
      → rewrite_rules fold processes locals rs ≡ ok (out, u)
      → route holds named (out ++ rest) ≡ or_else (route holds named rs) (route holds named rest)
  rewrite_rules-route [] out u rest t h = unfold rewrite_rules route in ground arith
  rewrite_rules-route (r ∷ rs) out u rest (t, ts) h =
      let (o, v, os, w, e, e', eq, _) = rewrite_rules-cons fold processes locals r rs out u h in
      rw eq (
        emit-route o r os rs rest (rewrite_rule-Same r o v t e)
          (rewrite_rules-route rs os w rest ts e'))

module _ {ℓ} {R : Type ℓ} (fold : ℕ → ℕ) (plain networks : R) (holds : R → Bool)
    (named : Runes → Bool) where
  first_rules :
      (processes : List Runes) (fallback : String) (rest : List (Rule R))
      → any named processes ≡ true
      → holds plain ≡ true
      → str_eq fallback "" ≡ false
      → route holds named (default_rules fold plain networks processes fallback ++ rest)
        ≡ some (outbound fallback)
  unfolding route
  first_rules processes fallback rest l p n = ground arith

  -- In a config whose first outbound is a server and whose rules all say where they lead, a
  -- connection of a listed program goes where it went before: to the target of the first rule of
  -- the panel that matches it, or else to the first outbound.
  pub listed_goes_on :
      (processes : List Runes) (cfg out : Config R)
      → NamesOneProgram fold named
      → All (λ l. trim_space l ≡ l) processes
      → any named processes ≡ true
      → holds plain ≡ true
      → str_eq (default_tag cfg.outbounds (local_tags cfg.outbounds)) "" ≡ false
      → All HasTarget cfg.rules
      → apply_split_routing fold plain networks processes cfg ≡ ok out
      → route holds named out.rules
        ≡ or_else
            (route holds named cfg.rules)
            (some (outbound (default_tag cfg.outbounds (local_tags cfg.outbounds))))
  listed_goes_on processes cfg out one clean is_listed p fallback targets h =
      let (rules, tunnel, e, os, rs) = apply_ok fold plain networks processes cfg out h in
      let first = default_tag cfg.outbounds (local_tags cfg.outbounds) in
      let rest = catch_all_rule fold plain networks (ensure_direct cfg.outbounds).0 ∷ [] in
      rw rs (
        rewrite_rules-route fold holds named one processes clean is_listed
          (all_locals cfg.outbounds) cfg.rules rules tunnel
          (default_rules fold plain networks processes first ++ rest) targets e
        ∙ ap (or_else (route holds named cfg.rules))
            (first_rules processes first rest is_listed p fallback))
