-- ===== src/System/Setup/Free.antt =====
-- checkTunRoutingFree of internal/system/route_linux.go, the check before the first change.
use Prim.Native.Nat.{bit_and, bit_xor}
use xray_runner.Prelude.{
  ℕ, ◌-◌, Bool, true, false, not, ◌&&◌, ◌||◌, Option, none, some, String, List, [], ◌∷◌, ◌++◌, any,
  ltb, ◌==◌, str_eq, if◌then◌else◌,
}
use xray_runner.Prelude.Outcome.{◌>>=◌, Outcome, fail, ok, handle}
use xray_runner.System.Entries.{
  Prefix, Netip, TunEntry, IpRoute, IpRule, direct_table, prefix_eq, route_dst,
}
use xray_runner.System.Teardown.{
  NetOps, RouteError, no_priority, unread, bad_entry, no_address, bad_mark, taken, read_routes6,
  Conflict, in_direct_table, on_prefix, on_rule,
}
use xray_runner.System.Setup.Wanted.{TunRouteConfig, direct_fw_mark}

-- catchesDirectMark; the argument is strconv.ParseUint(_, 0, 32)
unfoldable pub catches_direct_mark : (String → Option ℕ) → IpRule → Outcome RouteError Bool
catches_direct_mark parse_uint r =
    if str_eq r.fw_mark "" then ok false else elim (parse_uint r.fw_mark) [
      | none ↦ fail (bad_mark r.priority)
      | some mark ↦ elim (if str_eq r.fw_mask "" then some 0xffffffff else parse_uint r.fw_mask) [
        | none ↦ fail (bad_mark r.priority)
        | some mask ↦ ok (bit_and (bit_xor mark direct_fw_mark) mask == 0)
      ]
    ]

-- `own`: the prefixes of the entries that land in the main table
unfoldable pub owns : List TunEntry → Prefix → Bool
unfolding prefix_eq
owns want p = any (λ e. not e.is_rule && str_eq e.table "" && prefix_eq e.prefix p) want

abbrev pub and_conflict : Option Conflict → List Conflict → List Conflict
and_conflict none more = more
and_conflict (some c) more = c ∷ more

-- one round of the preflight's loop over the routes
unfoldable pub route_conflict :
    Netip → List TunEntry → Bool → IpRoute → Outcome RouteError (Option Conflict)
unfolding route_dst owns
route_conflict ip want v6 r =
    if not v6 && str_eq r.table direct_table
    then ok (some (in_direct_table r))
    else if not (str_eq r.table "")
    then ok none
    else handle (route_dst ip r.dst v6) (λ why. fail (bad_entry why))
        (λ p. if owns want p then ok (some (on_prefix r)) else ok none)

-- its loop over one family's routes
unfoldable pub route_conflicts :
    Netip → List TunEntry → Bool → List IpRoute → Outcome RouteError (List Conflict)
unfolding route_conflict
route_conflicts ip want v6 [] = ok []
route_conflicts ip want v6 (r ∷ routes) = route_conflict ip want v6 r >>= λ c.
    route_conflicts ip want v6 routes >>= λ more. ok (and_conflict c more)

-- its loop over the rules
unfoldable pub rule_conflicts :
    (String → Option ℕ) → List IpRule → Outcome RouteError (List Conflict)
unfolding catches_direct_mark
rule_conflicts parse_uint [] = ok []
rule_conflicts parse_uint (r ∷ rules) = catches_direct_mark parse_uint r >>= λ catches.
    rule_conflicts parse_uint rules >>= λ more.
    ok (
      and_conflict (if catches || str_eq r.table direct_table then some (on_rule r) else none) more)

-- the conflicts of all that is listed, in both families if the entries need them, with the rules
unfoldable pub all_conflicts :
    {K : Type 0}
    → Netip
    → NetOps K
    → (String → Option ℕ)
    → List TunEntry
    → K
    → Outcome RouteError (List Conflict × List IpRule)
unfolding read_routes6 route_conflicts rule_conflicts
all_conflicts ip ops parse_uint want k =
    handle (ops.list_routes false k) (λ why. fail (unread why))
      (λ r4. route_conflicts ip want false r4 >>= λ c4.
        handle (read_routes6 ops want k) (λ why. fail (unread why))
          (λ r6. route_conflicts ip want true r6 >>= λ c6.
            handle (ops.list_rules k) (λ why. fail (unread why))
              (λ rules. rule_conflicts parse_uint rules >>= λ more. ok (c4 ++ c6 ++ more, rules))))

-- rules[1].Priority - 1, if there is one
unfoldable pub free_priority : List IpRule → ℕ
free_priority (_ ∷ second ∷ _) = second.priority - 1
free_priority _ = 0

abbrev pub choose_priority : List Conflict → ℕ → Outcome RouteError ℕ
choose_priority (c ∷ more) pref = fail (taken (c ∷ more))
choose_priority [] pref = if ltb pref 1 then fail no_priority else ok pref

-- checkTunRoutingFree: the priority for the mark rule
unfoldable pub check_tun_routing_free :
    {K : Type 0}
    → Netip
    → NetOps K
    → (String → Option ℕ)
    → TunRouteConfig
    → List TunEntry
    → K
    → Outcome RouteError ℕ
unfolding all_conflicts free_priority
check_tun_routing_free ip ops parse_uint cfg want k =
    handle (ops.link_addrs cfg.iface k) (λ why. fail (unread why))
      (λ addrs.
        if not (any (λ a. str_eq a cfg.addr) addrs)
        then fail (no_address cfg.iface)
        else (all_conflicts ip ops parse_uint want k >>= λ found.
            choose_priority found.0 (free_priority found.1)))
