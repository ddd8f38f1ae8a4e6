-- ===== src/Xraycfg/Bind.antt =====
-- BindDirectOutbounds of internal/xraycfg/mark.go. An object is the Go map that the text is decoded
-- into, so that no key stands in it twice.
use xray_runner.Prelude.{
  ℕ, Bool, true, false, not, ◌&&◌, ◌==◌, Option, none, some, Runes, codes, runes_eq, if◌then◌else◌,
}
use xray_runner.Prelude.Outcome.{Outcome, ok, fail, handle}
use xray_runner.Prelude.Int.{ℤ, pos, negsuc}
use xray_runner.Xraycfg.Json.{
  Json, null, object, array, text, number, Items, item, no_items, Members, no_members, at_key, put,
  sole_field, set_field, is_found,
}

-- DirectBind
pub record DirectBind : Type 0 where
  pub mark : ℤ
  pub interface : Runes

abbrev pub is_zero : ℤ → Bool
is_zero (pos n) = n == 0
is_zero (negsuc _) = false

pub data BindError : Type 0 where
  bad_config bad_outbounds bad_stream bad_sockopt : BindError
  repeated_key : Runes → BindError

-- Unmarshal into a map that is empty at first, where nothing or null leaves one
abbrev pub object_of : BindError → Option Json → Outcome BindError Members
object_of why none = ok no_members
object_of why (some null) = ok no_members
object_of why (some (object m)) = ok m
object_of why (some _) = fail why

abbrev pub set_mark : (ℕ → ℕ) → ℤ → Members → Members
set_mark fold n m = if is_zero n then m else set_field fold m (codes "mark") (number n)

abbrev pub set_interface : (ℕ → ℕ) → Runes → Members → Members
set_interface fold i m = if is_found i then set_field fold m (codes "interface") (text i) else m

abbrev pub or_name : Runes → Runes → Runes
or_name k name = if is_found k then k else name

abbrev pub write_sockopt : (ℕ → ℕ) → DirectBind → Members → Runes → Members → Outcome BindError Json
write_sockopt fold bind stream key sockopt =
    let bound = set_interface fold bind.interface (set_mark fold bind.mark sockopt) in
    ok (object (put key (object bound) stream))

abbrev pub bind_sockopt : (ℕ → ℕ) → DirectBind → Members → Runes → Outcome BindError Json
bind_sockopt fold bind stream found =
    let key = or_name found (codes "sockopt") in
    handle (object_of bad_sockopt (at_key key stream)) fail (write_sockopt fold bind stream key)

abbrev pub bind_members : (ℕ → ℕ) → DirectBind → Members → Outcome BindError Json
bind_members fold bind stream =
    handle (sole_field fold stream (codes "sockopt")) (λ k. fail (repeated_key k))
      (bind_sockopt fold bind stream)

-- withBind
unfoldable pub with_bind : (ℕ → ℕ) → Option Json → DirectBind → Outcome BindError Json
unfolding at_key sole_field
with_bind fold raw bind = handle (object_of bad_stream raw) fail (bind_members fold bind)

-- the test of the decoded protocol, which leaves "" where it is missing, null or no text
abbrev pub is_freedom : Option Json → Bool
is_freedom (some (text s)) = runes_eq s (codes "freedom")
is_freedom _ = false

abbrev pub put_stream : Members → Runes → Json → Outcome BindError Members
put_stream ob key stream = ok (put key stream ob)

abbrev pub bind_at_key : (ℕ → ℕ) → DirectBind → Members → Runes → Outcome BindError Members
bind_at_key fold bind ob found =
    let key = or_name found (codes "streamSettings") in
    handle (with_bind fold (at_key key ob) bind) fail (put_stream ob key)

-- the loop's body for a freedom outbound
unfoldable pub bind_stream : (ℕ → ℕ) → DirectBind → Members → Outcome BindError Members
unfolding with_bind
bind_stream fold bind ob =
    handle (sole_field fold ob (codes "streamSettings")) (λ k. fail (repeated_key k))
      (bind_at_key fold bind ob)

abbrev pub if_freedom : (ℕ → ℕ) → DirectBind → Members → Runes → Outcome BindError Members
if_freedom fold bind ob key = if is_freedom (at_key key ob) then bind_stream fold bind ob else ok ob

-- the loop's body
unfoldable pub bind_outbound : (ℕ → ℕ) → DirectBind → Members → Outcome BindError Members
unfolding bind_stream
bind_outbound fold bind ob =
    handle (sole_field fold ob (codes "protocol")) (λ k. fail (repeated_key k))
      (if_freedom fold bind ob)

abbrev pub with_first : Outcome BindError Items → Json → Outcome BindError Items
with_first rest ob = handle rest fail (λ more. ok (item ob more))

abbrev pub with_object : Outcome BindError Items → Members → Outcome BindError Items
with_object rest ob = with_first rest (object ob)

-- the loop; an outbound of null is a nil map, which is written as null again
unfoldable pub bind_items : (ℕ → ℕ) → DirectBind → Items → Outcome BindError Items
unfolding bind_outbound
bind_items fold bind no_items = ok no_items
bind_items fold bind (item (object ob) more) =
    let rest = bind_items fold bind more in
    handle (bind_outbound fold bind ob) fail (with_object rest)
bind_items fold bind (item null more) = with_first (bind_items fold bind more) null
bind_items fold bind (item _ more) = fail bad_outbounds

-- what Unmarshal takes for a list of maps
unfoldable pub are_objects : Items → Bool
are_objects no_items = true
are_objects (item (object ob) more) = are_objects more
are_objects (item null more) = are_objects more
are_objects (item _ more) = false

abbrev pub as_array : Items → Outcome BindError Json
as_array obs = ok (array obs)

abbrev pub put_outbounds : Members → Json → Outcome BindError Json
put_outbounds cfg l = ok (object (put (codes "outbounds") l cfg))

abbrev pub bind_list : (ℕ → ℕ) → DirectBind → Json → Outcome BindError Json
bind_list fold bind null = ok null
bind_list fold bind (array obs) =
    if are_objects obs then handle (bind_items fold bind obs) fail as_array else fail bad_outbounds
bind_list fold bind _ = fail bad_outbounds

abbrev pub bind_at : (ℕ → ℕ) → DirectBind → Members → Option Json → Outcome BindError Json
bind_at fold bind cfg none = ok (object cfg)
bind_at fold bind cfg (some l) = handle (bind_list fold bind l) fail (put_outbounds cfg)

abbrev pub bind_config : (ℕ → ℕ) → DirectBind → Json → Outcome BindError Json
bind_config fold bind null = ok null
bind_config fold bind (object cfg) = bind_at fold bind cfg (at_key (codes "outbounds") cfg)
bind_config fold bind _ = fail bad_config

-- BindDirectOutbounds
unfoldable pub bind_direct_outbounds : (ℕ → ℕ) → Json → DirectBind → Outcome BindError Json
unfolding bind_items are_objects
bind_direct_outbounds fold raw bind =
    let bound = bind_config fold bind raw in
    if is_zero bind.mark && not (is_found bind.interface) then ok raw else bound
