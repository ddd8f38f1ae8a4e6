-- ===== src/Xraycfg/Routing.antt =====
-- Where the core sends a connection: the first rule that matches, and the first outbound where
-- none does. The core is not part of the repository; what is assumed of its process rule is that
-- a name stands for a program, however it is spelled.
use xray_runner.Prelude.{
  Bool, true, false, ◌&&◌, Option, none, some, String, List, [], ◌∷◌, Runes, any, if◌then◌else◌,
}
use xray_runner.Xraycfg.Config.{
  Field, absent, malformed, value, Strings, listed, single, Rule, string_list,
}

-- where a rule leads
pub data Target : Type 0 where
  outbound balancer : String → Target
  nowhere : Target

abbrev pub target {ℓ} : {R : Type ℓ} → Rule R → Target
target r = elim r.balancer_tag [
  | value b ↦ balancer b
  | malformed ↦ nowhere
  | absent ↦ elim r.outbound_tag [ value t ↦ outbound t | _ ↦ nowhere ]
]

-- A connection, as the rules see it: whether the other conditions of a rule hold for it, and
-- whether a process name is its program's.
module _ {ℓ} {R : Type ℓ} (holds : R → Bool) (named : Runes → Bool) where
  abbrev pub process_matches : Field Strings → Bool
  process_matches absent = true
  process_matches malformed = false
  process_matches (value (listed l)) = any named l
  process_matches (value (single s)) = elim (string_list (value (single s))) [
    | none ↦ false
    | some l ↦ any named l
  ]

  abbrev pub rule_matches : Rule R → Bool
  rule_matches r = holds r.rest && process_matches r.process

  -- none: no rule matches
  unfoldable pub route : List (Rule R) → Option Target
  route [] = none
  route (r ∷ rs) = let rest = route rs in if rule_matches r then some (target r) else rest
