-- ===== src/Xraycfg/Policy.antt =====
-- ApplySecurityPolicy of internal/xraycfg/tls_policy.go. Of a key outside its path that an object
-- has twice, Go keeps the last value where an object is rewritten, and this model both.
use xray_runner.Prelude.{
  ℕ, ◌+◌, Bool, true, false, not, ◌||◌, Option, none, some, Runes, codes, ltb, if◌then◌else◌, [],
}
use xray_runner.Prelude.Outcome.{Outcome, ok, fail, handle}
use xray_runner.Xraycfg.Json.{
  Json, null, flag, object, array, Items, item, no_items, Members, no_members, member, at_key,
  delete_key, put, same_key, is_found,
}

pub data PolicyError : Type 0 where
  not_object not_boolean : PolicyError
  repeated : Runes → PolicyError
  at_outbound : ℕ → PolicyError → PolicyError

-- the loop of soleKey, with `seen` and `found`; strings.EqualFold compares as sameKey does, over its
-- own table
unfoldable pub count_keys : (ℕ → ℕ) → Runes → ℕ → Runes → Members → ℕ × Runes
unfolding same_key
count_keys fold field seen found no_members = (seen, found)
count_keys fold field seen found (member k v m) =
    let counted = count_keys fold field (seen + 1) k m in
    let skipped = count_keys fold field seen found m in
    if same_key fold k field then counted else skipped

abbrev pub at_most_one : Runes → ℕ × Runes → Outcome PolicyError Runes
at_most_one field counted = if ltb 1 counted.0 then fail (repeated field) else ok counted.1

-- soleKey
unfoldable pub sole_key : (ℕ → ℕ) → Runes → Option Json → Outcome PolicyError Runes
unfolding count_keys
sole_key fold field (some (object m)) = at_most_one field (count_keys fold field 0 [] m)
sole_key fold field _ = ok []

-- Unmarshal into a map
abbrev pub read_object : Option Json → Outcome PolicyError Members
read_object (some (object m)) = ok m
read_object (some null) = ok no_members
read_object _ = fail not_object

-- checkObject, and what the caller returns behind it
abbrev pub unless_other : Option Json → Json → Outcome PolicyError (Json × Bool)
unless_other none raw = ok (raw, false)
unless_other (some null) raw = ok (raw, false)
unless_other (some (object _)) raw = ok (raw, false)
unless_other (some _) raw = fail not_object

-- where the three keys are, and what they lead to
pub record Path3 : Type 0 where
  pub stream_key : Runes
  pub tls_key : Runes
  pub flag_key : Runes
  pub ob : Members
  pub stream : Members
  pub tls : Members

-- the outbound without its flag
abbrev pub without_flag : Path3 → Json
without_flag p =
    let tls = object (delete_key p.flag_key p.tls) in
    let stream = object (put (codes "tlsSettings") tls (delete_key p.tls_key p.stream)) in
    object (put (codes "streamSettings") stream (delete_key p.stream_key p.ob))

abbrev pub clear_flag : Bool → Json → Path3 → Option Json → Outcome PolicyError (Json × Bool)
clear_flag allow raw p (some (flag _)) =
    if allow then ok (raw, false) else ok (without_flag p, true)
clear_flag allow raw p _ = fail not_boolean

abbrev pub in_flags : Bool → Json → Path3 → Members → Outcome PolicyError (Json × Bool)
in_flags allow raw p tls = clear_flag allow raw (record p { tls = tls }) (at_key p.flag_key tls)

abbrev pub in_tls : Bool → Json → Path3 → Runes → Outcome PolicyError (Json × Bool)
in_tls allow raw p key =
    let tls = at_key p.tls_key p.stream in
    if is_found key
    then handle (read_object tls) fail (in_flags allow raw (record p { flag_key = key }))
    else unless_other tls raw

abbrev pub find_flag : (ℕ → ℕ) → Bool → Json → Path3 → Members → Outcome PolicyError (Json × Bool)
find_flag fold allow raw p stream =
    handle (sole_key fold (codes "allowInsecure") (at_key p.tls_key stream)) fail
      (in_tls allow raw (record p { stream = stream }))

abbrev pub in_stream : (ℕ → ℕ) → Bool → Json → Path3 → Runes → Outcome PolicyError (Json × Bool)
in_stream fold allow raw p key =
    let stream = at_key p.stream_key p.ob in
    if is_found key
    then handle (read_object stream) fail (find_flag fold allow raw (record p { tls_key = key }))
    else unless_other stream raw

abbrev pub find_tls : (ℕ → ℕ) → Bool → Json → Runes → Members → Outcome PolicyError (Json × Bool)
find_tls fold allow raw key ob = handle (sole_key fold (codes "tlsSettings") (at_key key ob)) fail (
    in_stream fold allow raw (record {
      stream_key = key;
      tls_key = [];
      flag_key = [];
      ob = ob;
      stream = no_members;
      tls = no_members;
    }))

abbrev pub in_outbound : (ℕ → ℕ) → Bool → Json → Runes → Outcome PolicyError (Json × Bool)
in_outbound fold allow raw key =
    if is_found key
    then handle (read_object (some raw)) fail (find_tls fold allow raw key)
    else ok (raw, false)

-- clearInsecure
unfoldable pub clear_insecure : (ℕ → ℕ) → Json → Bool → Outcome PolicyError (Json × Bool)
unfolding sole_key at_key
clear_insecure fold raw allow =
    handle (sole_key fold (codes "streamSettings") (some raw)) fail (in_outbound fold allow raw)

abbrev pub and_item : Json × Bool → Items × Bool → Outcome PolicyError (Items × Bool)
and_item one rest = ok (item one.0 rest.0, one.1 || rest.1)

abbrev pub and_items :
    Outcome PolicyError (Items × Bool) → Json × Bool → Outcome PolicyError (Items × Bool)
and_items rest one = handle rest fail (and_item one)

-- the loop, with `changed`; the label of an outbound in an error is its place
unfoldable pub clear_items : (ℕ → ℕ) → Bool → ℕ → Items → Outcome PolicyError (Items × Bool)
unfolding clear_insecure
clear_items fold allow i no_items = ok (no_items, false)
clear_items fold allow i (item src more) =
    let rest = clear_items fold allow (i + 1) more in
    handle (clear_insecure fold src allow) (λ why. fail (at_outbound i why)) (and_items rest)

abbrev pub write_back : Json → Runes → Members → Items × Bool → Outcome PolicyError Json
write_back raw key cfg done =
    if not done.1
    then ok raw
    else ok (object (put (codes "outbounds") (array done.0) (delete_key key cfg)))

abbrev pub clear_list :
    (ℕ → ℕ) → Bool → Json → Runes → Members → Option Json → Outcome PolicyError Json
clear_list fold allow raw key cfg (some (array obs)) =
    handle (clear_items fold allow 0 obs) fail (write_back raw key cfg)
clear_list fold allow raw key cfg (some null) = ok raw
clear_list fold allow raw key cfg none = ok raw
clear_list fold allow raw key cfg (some _) = fail not_object

abbrev pub at_outbounds : (ℕ → ℕ) → Bool → Json → Members → Runes → Outcome PolicyError Json
at_outbounds fold allow raw cfg key =
    if is_found key then clear_list fold allow raw key cfg (at_key key cfg) else ok raw

abbrev pub apply_to : (ℕ → ℕ) → Bool → Json → Members → Outcome PolicyError Json
apply_to fold allow raw cfg =
    handle (sole_key fold (codes "outbounds") (some raw)) fail (at_outbounds fold allow raw cfg)

-- ApplySecurityPolicy
unfoldable pub apply_security_policy : (ℕ → ℕ) → Json → Bool → Outcome PolicyError Json
unfolding clear_items
apply_security_policy fold raw allow =
    handle (read_object (some raw)) fail (apply_to fold allow raw)
