-- ===== src/Xraycfg/Bypass.antt =====
-- internal/xraycfg/directrules.go: HasBypassRules, on a config that has been decoded.
use xray_runner.Prelude.{
  Bool, true, false, not, ◌&&◌, ◌||◌, Option, none, some, String, List, [], ◌∷◌, str_eq,
  if◌then◌else◌,
}
use xray_runner.Xraycfg.Config.{Field, malformed, value, Outbound, Rule, Config}
use xray_runner.Xraycfg.Routing.{Target, outbound}

-- bypassProtocol
unfoldable pub bypass_protocol : String → Bool
bypass_protocol p = str_eq p "freedom" || str_eq p "blackhole"

-- `protocols`: that of the first outbound of each tag
unfoldable pub protocol_of : List Outbound → String → Option String
protocol_of [] t = none
protocol_of (o ∷ os) t =
    let rest = protocol_of os t in if str_eq o.tag t then some o.protocol else rest

unfoldable pub is_bypass_name : String → Bool
is_bypass_name t = str_eq t "direct" || str_eq t "block" || str_eq t "blocked"

-- a decoded text field: what is absent is empty
abbrev pub text_of : Field String → String
text_of (value t) = t
text_of _ = ""

-- encoding/json refuses the whole config for one field of another type
abbrev pub is_malformed {ℓ} : {A : Type ℓ} → Field A → Bool
is_malformed malformed = true
is_malformed _ = false

abbrev pub decodes {ℓ} : {R : Type ℓ} → List (Rule R) → Bool
decodes [] = true
decodes (r ∷ rs) = not (is_malformed r.balancer_tag || is_malformed r.outbound_tag) && decodes rs

-- the tag of an outbound is judged by its protocol, or by its name when nothing carries it
unfoldable pub tag_bypasses : List Outbound → String → Bool
unfolding protocol_of
tag_bypasses os t = elim (protocol_of os t) [ some p ↦ bypass_protocol p | none ↦ is_bypass_name t ]

-- one round of the loop over the rules
unfoldable pub fields_bypass : List Outbound → Field String → Field String → Bool
fields_bypass os group tag =
    if not (str_eq (text_of group) "") || str_eq (text_of tag) ""
    then false
    else tag_bypasses os (text_of tag)

abbrev pub rule_bypasses {ℓ} : {R : Type ℓ} → List Outbound → Rule R → Bool
rule_bypasses os r = fields_bypass os r.balancer_tag r.outbound_tag

unfoldable pub first_bypasses : List Outbound → Bool
first_bypasses [] = false
first_bypasses (o ∷ os) = bypass_protocol o.protocol

unfoldable pub any_bypasses {ℓ} : {R : Type ℓ} → List Outbound → List (Rule R) → Bool
any_bypasses os [] = false
any_bypasses os (r ∷ rs) = rule_bypasses os r || any_bypasses os rs

unfoldable pub has_bypass_rules {ℓ} : {R : Type ℓ} → Config R → Bool
has_bypass_rules cfg =
    decodes cfg.rules && (first_bypasses cfg.outbounds || any_bypasses cfg.outbounds cfg.rules)

-- the outbound that the core finds for a tag
abbrev pub outbound_of : List Outbound → String → Option Outbound
outbound_of [] t = none
outbound_of (o ∷ os) t = let rest = outbound_of os t in if str_eq o.tag t then some o else rest

abbrev pub first_of : List Outbound → Option Outbound
first_of [] = none
first_of (o ∷ os) = some o

-- the outbound that a target names; a balancer's choice is left open
abbrev pub outbound_at : List Outbound → Option Target → Option Outbound
outbound_at os none = first_of os
outbound_at os (some (outbound t)) = if str_eq t "" then none else outbound_of os t
outbound_at os (some _) = none

-- no protocol that takes traffic off the tunnel
abbrev pub stays : Outbound → Bool
stays o = not (str_eq o.protocol "freedom") && not (str_eq o.protocol "blackhole")

abbrev protocol_in : Option Outbound → Option String
protocol_in none = none
protocol_in (some o) = some o.protocol
