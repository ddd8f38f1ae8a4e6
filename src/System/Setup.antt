-- ===== src/System/Setup.antt =====
-- EnableTunRouting of internal/system/route_linux.go, with its check after the last change.
mod Wanted
mod Free
pub use Wanted.*
pub use Free.*
unfoldable pub use Wanted.{server_entries, want_entries}
unfoldable pub use Free.{
  catches_direct_mark, owns, route_conflict, route_conflicts, rule_conflicts, all_conflicts,
  free_priority, check_tun_routing_free,
}
use Prim.Native.Nat.{bit_and, bit_xor}
use xray_runner.Prelude.{
  ℕ, ◌-◌, Bool, true, false, not, ◌&&◌, ◌||◌, Option, none, some, String, List, [], ◌∷◌, ◌++◌, map,
  any, ltb, ◌==◌, str_eq, if◌then◌else◌,
}
use xray_runner.Prelude.Outcome.{◌>>=◌, Outcome, fail, ok, handle, on_error}
use xray_runner.System.Entries.{
  EntryError, Addr, Prefix, Netip, TunEntry, IpRoute, IpRule, direct_table, tun_metric, prefix_eq,
  unspecified, route_dst, owns_prefix,
}
use xray_runner.System.Teardown.{
  NetOps, Routing, RouteError, no_server, no_priority, unread, bad_entry, no_route, no_address,
  bad_mark, taken, lost, not_added, not_undone, read_routes6, disable_tun_routing, Listing,
  routes_of, Conflict, in_direct_table, on_prefix, on_rule,
}

-- one round of the loop of checkTunRoutingOwned, on what ownsPrefix said and the later rounds
abbrev pub and_lost :
    Outcome EntryError (Bool × Bool)
    → Prefix
    → Outcome RouteError (List Prefix)
    → Outcome RouteError (List Prefix)
and_lost (fail why) p rest = fail (bad_entry why)
and_lost (ok found) p rest =
    if found.1 || not found.0 then handle rest (λ why. fail why) (λ more. ok (p ∷ more)) else rest

-- the loop of checkTunRoutingOwned
unfoldable pub lost_prefixes : Netip → Listing → List TunEntry → Outcome RouteError (List Prefix)
unfolding owns_prefix
lost_prefixes ip l [] = ok []
lost_prefixes ip l (e ∷ entries) =
    let rest = lost_prefixes ip l entries in
    if e.is_rule then rest else and_lost (owns_prefix ip e (routes_of l e)) e.prefix rest

-- checkTunRoutingOwned; `none` is Go's nil
unfoldable pub check_tun_routing_owned :
    {K : Type 0} → Netip → NetOps K → Routing K → Option RouteError
unfolding read_routes6 lost_prefixes
check_tun_routing_owned ip ops s =
    handle (ops.list_routes false s.host) (λ why. some (unread why))
      (λ r4.
        handle (read_routes6 ops s.installed s.host) (λ why. some (unread why))
          (λ r6.
            handle
              (lost_prefixes ip (record { routes4 = r4; routes6 = r6; rules = [] }) s.installed)
              (λ why. some why)
              (λ found. elim found [ [] ↦ none | p ∷ more ↦ some (lost (p ∷ more)) ])))

-- what both failures after the first change do
unfoldable pub undo :
    {K : Type 0} → Netip → NetOps K → RouteError → Routing K → Option RouteError × Routing K
unfolding disable_tun_routing
undo ip ops why s =
    let (err, s) = disable_tun_routing ip ops s in
    (some (elim err [ none ↦ why | some more ↦ not_undone why more ]), s)

-- the rule gets the priority that the preflight found
abbrev pub with_pref : ℕ → TunEntry → TunEntry
with_pref pref e = if e.is_rule then record e { pref = pref } else e

-- the loop of the adds, and the check behind it
unfoldable pub install_all :
    {K : Type 0} → Netip → NetOps K → List TunEntry → Routing K → Option RouteError × Routing K
unfolding undo check_tun_routing_owned
install_all ip ops [] s =
    on_error (check_tun_routing_owned ip ops s) (λ why. undo ip ops why s) (none, s)
install_all ip ops (e ∷ want) s =
    let written = s.installed ++ (e ∷ []) in
    let (err, k) = ops.add e (ops.journal_routes written s.host) in
    on_error err
      (λ why. undo ip ops (not_added e.what why) (record { host = k; installed = s.installed }))
      (install_all ip ops want (record { host = k; installed = written }))

abbrev pub is_empty : List String → Bool
is_empty [] = true
is_empty (_ ∷ _) = false

-- EnableTunRouting after its own teardown
unfoldable pub enable_from :
    {K : Type 0}
    → Netip
    → NetOps K
    → (String → Option ℕ)
    → Bool
    → TunRouteConfig
    → Routing K
    → Option RouteError × Routing K
unfolding want_entries check_tun_routing_free install_all
enable_from ip ops parse_uint ipv6_stack cfg s =
    handle (want_entries ip ops ipv6_stack cfg s.host) (λ why. (some why, s))
      (λ want.
        handle (check_tun_routing_free ip ops parse_uint cfg want s.host) (λ why. (some why, s))
          (λ pref. install_all ip ops (map (with_pref pref) want) s))

-- EnableTunRouting
unfoldable pub enable_tun_routing :
    {K : Type 0}
    → Netip
    → NetOps K
    → (String → Option ℕ)
    → Bool
    → TunRouteConfig
    → Routing K
    → Option RouteError × Routing K
unfolding disable_tun_routing enable_from
enable_tun_routing ip ops parse_uint ipv6_stack cfg s =
    if is_empty cfg.server_ips
    then (some no_server, s)
    else let (err, t) = disable_tun_routing ip ops s in
      on_error err (λ why. (some why, t)) (enable_from ip ops parse_uint ipv6_stack cfg t)
