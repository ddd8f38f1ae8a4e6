-- ===== src/Xraycfg/Split.antt =====
-- internal/xraycfg/split.go: ApplySplitRouting.
use xray_runner.Prelude.{
  ℕ, Bool, true, false, not, ◌&&◌, ◌||◌, Option, none, some, String, List, [], ◌∷◌, ◌++◌, str_eq,
  mem_str, Runes, any, trim_space, if◌then◌else◌, is_some,
}
use xray_runner.Prelude.Outcome.{Outcome, ok, fail, ◌>>=◌}
use xray_runner.Xraycfg.Config.{
  Field, absent, malformed, value, Outbound, Strings, listed, Rule, Config, equal_fold, string_list,
  is_local_protocol,
}

pub data SplitError : Type 0 where
  no_processes bad_field no_tunnel_target : SplitError

-- the error of each function here, or its result
abbrev pub Result {ℓ} : Type ℓ → Type ℓ
Result A = Outcome SplitError A

-- the loop that fills `local`
unfoldable pub local_tags : List Outbound → List String
local_tags [] = []
local_tags (o ∷ os) =
    let rest = local_tags os in
    if not (str_eq o.tag "") && is_local_protocol o.protocol then o.tag ∷ rest else rest

-- and `directTag`, "" when there is no freedom outbound
unfoldable pub direct_tag : List Outbound → String
direct_tag [] = ""
direct_tag (o ∷ os) =
    let rest = direct_tag os in
    if not (str_eq o.tag "") && str_eq o.protocol "freedom" then o.tag else rest

abbrev pub direct_outbound_tag : String
direct_outbound_tag = "direct"

-- what appendDirectOutbound adds
abbrev pub direct_outbound : Outbound
direct_outbound = record { tag = direct_outbound_tag; protocol = "freedom" }

-- `defaultTag`, "" when unmatched traffic does not go to the tunnel
unfoldable pub default_tag : List Outbound → List String → String
default_tag [] locals = ""
default_tag (o ∷ os) locals =
    if not (str_eq o.tag "") && not (mem_str o.tag locals) then o.tag else ""

-- ruleOutboundTag
abbrev pub rule_outbound_tag {ℓ} : {R : Type ℓ} → Rule R → Result String
rule_outbound_tag r = elim r.outbound_tag [
  | absent ↦ ok ""
  | malformed ↦ fail bad_field
  | value tag ↦ ok tag
]

abbrev pub has_balancer {ℓ} : {R : Type ℓ} → Rule R → Bool
has_balancer r = elim r.balancer_tag [ absent ↦ false | _ ↦ true ]

abbrev none_if_empty : List Runes → Option (List Runes)
none_if_empty [] = none
none_if_empty (n ∷ ns) = some (n ∷ ns)

abbrev pub with_names {ℓ} : {R : Type ℓ} → Rule R → Option (List Runes) → Option (Rule R)
with_names r none = none
with_names r (some names) = some (record r { process = value (listed names) })

abbrev pub emit {ℓ} : {R : Type ℓ} → Option (Rule R) → List (Rule R) → List (Rule R)
emit none rules = rules
emit (some r) rules = r ∷ rules

module _ (fold : ℕ → ℕ) where
  -- the names of a rule of its own that are listed, trimmed
  unfoldable pub listed_names : List Runes → List Runes → List Runes
  listed_names processes [] = []
  listed_names processes (p ∷ ps) =
      let rest = listed_names processes ps in
      let t = trim_space p in if any (λ l. equal_fold fold l t) processes then t ∷ rest else rest

  -- the names that forProcesses narrows a rule to; none is "drop the rule"
  unfoldable pub process_names : List Runes → Field Strings → Result (Option (List Runes))
  unfolding listed_names
  process_names processes absent = ok (some processes)
  process_names processes malformed = fail bad_field
  process_names processes (value own) = elim (string_list (value own)) [
    | none ↦ fail bad_field
    | some names ↦ ok (none_if_empty (listed_names processes names))
  ]

  -- forProcesses
  unfoldable pub for_processes {ℓ} : {R : Type ℓ} → List Runes → Rule R → Result (Option (Rule R))
  unfolding process_names
  for_processes processes r = process_names processes r.process >>= λ names. ok (with_names r names)

  -- one round of the loop over the panel's rules: the rule to emit, if any, and whether it leads
  -- into the tunnel
  unfoldable pub narrow_rule {ℓ} :
      {R : Type ℓ} → List Runes → Rule R → Result (Option (Rule R) × Bool)
  unfolding for_processes
  narrow_rule processes r = do narrowed ← for_processes processes r; ok (narrowed, is_some narrowed)

  unfoldable pub rewrite_rule {ℓ} :
      {R : Type ℓ} → List Runes → List String → Rule R → Result (Option (Rule R) × Bool)
  unfolding narrow_rule
  rewrite_rule processes locals r =
      if has_balancer r
      then narrow_rule processes r
      else rule_outbound_tag r >>= λ tag.
          if mem_str tag locals
          then ok (some r, false)
          else if str_eq tag ""
          then ok (none, false)
          else narrow_rule processes r

  unfoldable pub rewrite_rules {ℓ} :
      {R : Type ℓ} → List Runes → List String → List (Rule R) → Result (List (Rule R) × Bool)
  unfolding rewrite_rule
  rewrite_rules processes locals [] = ok ([], false)
  rewrite_rules processes locals (r ∷ rs) = rewrite_rule processes locals r >>= λ head.
      rewrite_rules processes locals rs >>= λ tail. ok (emit head.0 tail.0, head.1 || tail.1)

-- `directTag` and the outbounds, once a freedom outbound is there
unfoldable pub ensure_direct : List Outbound → String × List Outbound
unfolding direct_tag
ensure_direct os =
    if str_eq (direct_tag os) ""
    then (direct_outbound_tag, os ++ direct_outbound ∷ [])
    else (direct_tag os, os)

-- `local`, with the tag of the outbound that was added
unfoldable pub all_locals : List Outbound → List String
unfolding local_tags direct_tag
all_locals os =
    if str_eq (direct_tag os) "" then direct_outbound_tag ∷ local_tags os else local_tags os

-- `plain` are the other conditions of a rule that has none, `networks` those of the catch-all
module _ {ℓ} {R : Type ℓ} (fold : ℕ → ℕ) (plain networks : R) where
  -- splitRule, for the default outbound
  abbrev pub split_rule : List Runes → String → Rule R
  split_rule processes tag = record {
    rest = plain;
    process = value (listed processes);
    outbound_tag = value tag;
    balancer_tag = absent;
  }

  -- catchAllRule
  abbrev pub catch_all_rule : String → Rule R
  catch_all_rule tag = record {
    rest = networks;
    process = absent;
    outbound_tag = value tag;
    balancer_tag = absent;
  }

  abbrev pub default_rules : List Runes → String → List (Rule R)
  default_rules processes tag = if str_eq tag "" then [] else split_rule processes tag ∷ []

  -- the rest of ApplySplitRouting, behind the loop
  unfoldable pub finish_rules :
      List Runes → String → String × List Outbound → List (Rule R) × Bool → Result (Config R)
  finish_rules processes fallback direct rewritten =
      if rewritten.1 || not (str_eq fallback "")
      then ok (record {
        outbounds = direct.1;
        rules = rewritten.0 ++ (default_rules processes fallback ++ catch_all_rule direct.0 ∷ []);
      })
      else fail no_tunnel_target

  unfoldable pub apply_split_routing : List Runes → Config R → Result (Config R)
  apply_split_routing [] cfg = fail no_processes
  apply_split_routing (p ∷ ps) cfg =
      rewrite_rules fold (p ∷ ps) (all_locals cfg.outbounds) cfg.rules
      >>= finish_rules (p ∷ ps) (default_tag cfg.outbounds (local_tags cfg.outbounds))
          (ensure_direct cfg.outbounds)
