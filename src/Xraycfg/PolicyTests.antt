-- ===== src/Xraycfg/PolicyTests.antt =====
-- Configs with allowInsecure in other letters, for internal/xraycfg/tls_policy.go.
use xray_runner.Prelude.{ℕ, ◌-◌, ◌&&◌, true, false, ◌≡◌, refl, codes, leb, if◌then◌else◌}
use xray_runner.Prelude.Outcome.{Outcome, ok, fail}
use xray_runner.Xraycfg.Json.{
  Json, null, flag, object, array, item, no_items, Members, member, no_members,
}
use xray_runner.Xraycfg.Policy.{PolicyError, at_outbound, repeated, apply_security_policy}
use xray_runner.Xraycfg.Secure.{is_insecure}
use xray_runner.Xraycfg.NoInsecure.{no_insecure_left}

abbrev to_upper : ℕ → ℕ
to_upper c = if leb 97 c && leb c 122 then c - 32 else c

abbrev tls : Members
tls = member (codes "AllowInsecure") (flag true) no_members

abbrev with_tls : Members → Json
with_tls settings = object (
    member (codes "streamSettings")
      (object (member (codes "TlsSettings") (object settings) no_members)) no_members)

abbrev config_of : Members → Json
config_of settings =
    object (
      member (codes "Outbounds") (array (item null (item (with_tls settings) no_items))) no_members)

abbrev value_of : Outcome PolicyError Json → Json
value_of (ok j) = j
value_of (fail _) = null

abbrev cleared : Json
cleared = value_of (apply_security_policy to_upper (config_of tls) false)

no_insecure_left_example : is_insecure to_upper cleared ≡ false
unfolding apply_security_policy
no_insecure_left_example = no_insecure_left to_upper (config_of tls) cleared refl

was_insecure : is_insecure to_upper (config_of tls) ≡ true
unfolding xray_runner.Xraycfg.Json.values_of xray_runner.Xraycfg.Json.same_key
was_insecure = refl

-- a flag in two spellings
two_flags :
    apply_security_policy to_upper
      (config_of (member (codes "allowInsecure") (flag false) tls))
      false
    ≡ fail (at_outbound 1 (repeated (codes "allowInsecure")))
unfolding apply_security_policy
two_flags = refl
