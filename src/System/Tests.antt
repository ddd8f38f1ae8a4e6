-- ===== src/System/Tests.antt =====
-- A host that takes all entries, and one that takes only one, for runs of the code of
-- internal/system.
use xray_runner.Prelude.{
  ap, ◌≤◌, ℕ, Bool, true, false, not, ◌&&◌, ◌||◌, ◌≡◌, refl, ◌∙◌, Option, none, some, String, List,
  [], ◌∷◌, ◌++◌, map, All, any, ◌==◌, str_eq, if◌then◌else◌, arith, Bool-cases, inl, inr, eq_iff,
}
use xray_runner.Prelude.Outcome.{ok, from_ok}
use xray_runner.System.Entries.{
  Prefix, Netip, TunEntry, IpRoute, IpRule, find, owns_prefix, same_rule,
}
use xray_runner.System.Teardown.{
  NetOps, Routing, RouteError, not_added, is_v6, read_routes6, disable_tun_routing,
}
use xray_runner.System.Setup.{
  TunRouteConfig, server_entry, want_entries, check_tun_routing_free, with_pref, enable_tun_routing,
}
use xray_runner.System.Host.{entry_eq, entry_eq_iff, bare, Lawful, Accounts, spells}
use xray_runner.System.Lookup.{find-owns_prefix}
use xray_runner.System.Undoing.{enable-Accounts}
use xray_runner.System.Failures.{is_undone, enable_failure_restores}
use xray_runner.System.Ready.{IsAlone, enable-Prepared}
use xray_runner.System.Preflight.{IsFree, IsAside, IsBeforeSecond, check_free_lem}

abbrev pub v4 : ℕ → ℕ → Prefix
v4 value bits = record { addr = record { v6 = false; value = value }; bits = bits }

-- the few texts that these hosts print
abbrev pub few : Netip
few = record {
  parse_addr = λ s.
      if str_eq s "203.0.113.7" then some (record { v6 = false; value = 3405803783 }) else none;
  parse_prefix = λ s.
      if str_eq s "0.0.0.0/1"
      then some (v4 0 1)
      else if str_eq s "128.0.0.0/1"
      then some (v4 0x80000000 1)
      else none;
}

abbrev pub print_prefix : Prefix → String
print_prefix p =
    if p.bits == 0
    then "default"
    else if p.bits == 32
    then "203.0.113.7"
    else if p.addr.value == 0
    then "0.0.0.0/1"
    else "128.0.0.0/1"

abbrev pub print_route : TunEntry → IpRoute
print_route e = record {
  dst = print_prefix e.prefix;
  gateway = e.via;
  dev = e.dev;
  table = e.table;
  metric = e.metric;
  typ = e.typ;
}

abbrev print_all : List TunEntry → List IpRoute
print_all [] = []
print_all (e ∷ entries) =
    let rest = print_all entries in if e.is_rule then rest else print_route e ∷ rest

abbrev rule_at : ℕ → String → IpRule
rule_at priority table = record { priority = priority; fw_mark = ""; fw_mask = ""; table = table }

-- a host without IPv6 that takes every entry, as the list of those it has
abbrev open_host : NetOps (List TunEntry)
open_host = record {
  route_get = λ a k. ok ("192.0.2.1", "eth0");
  list_routes = λ v6 k. if v6 then ok [] else ok (print_all k);
  list_rules = λ k. ok (rule_at 0 "255" ∷ rule_at 32766 "" ∷ []);
  link_addrs = λ dev k. ok ("198.18.0.1" ∷ []);
  add = λ e k. (none, k ++ (e ∷ []));
  del = λ e k. (some 1, k);
  journal_routes = λ entries k. k;
}

abbrev pub cfg : TunRouteConfig
cfg = record {
  iface = "xray-tun";
  addr = "198.18.0.1";
  server_ips = "203.0.113.7" ∷ [];
  addr6 = "";
}

abbrev pub no_marks : String → Option ℕ
no_marks s = none

abbrev idle : Routing (List TunEntry)
idle = record { host = []; installed = [] }

abbrev is_nothing : Option RouteError → Bool
is_nothing none = true
is_nothing (some _) = false

succeeds : is_nothing (enable_tun_routing few open_host no_marks false cfg idle).0 ≡ true
unfolding enable_tun_routing
succeeds = refl

-- the way out and the halves are what it has at the end
enable-Prepared_example :
    (want : List TunEntry) × (pref : ℕ) × (want_entries few open_host false cfg
        (disable_tun_routing few open_host idle).1.host
      ≡ ok want)
    × (check_tun_routing_free few open_host no_marks cfg want
          (disable_tun_routing few open_host idle).1.host
        ≡ ok pref)
    × ((enable_tun_routing few open_host no_marks false cfg idle).1.installed
        ≡ map (with_pref pref) want)
    × All
        (IsAlone few open_host (enable_tun_routing few open_host no_marks false cfg idle).1.host)
        (enable_tun_routing few open_host no_marks false cfg idle).1.installed
unfolding enable_tun_routing
enable-Prepared_example = enable-Prepared few open_host no_marks false cfg idle refl

abbrev pub server : TunEntry
server = server_entry (v4 3405803783 32) "192.0.2.1" "eth0"

-- a route that is not alone
find-owns_prefix_example :
    find few server (print_route (record server { metric = 0 }) ∷ print_route server ∷ []) []
    ≡ ok (true, false)
unfolding owns_prefix
find-owns_prefix_example =
    find-owns_prefix few server
      (print_route (record server { metric = 0 }) ∷ print_route server ∷ []) [] true true refl refl

check_free_lem_example :
    (addrs : List String) × (r4 : List IpRoute) × (r6 : List IpRoute) × (rules : List IpRule)
    × (open_host.link_addrs "xray-tun" [] ≡ ok addrs)
    × (any (λ a. str_eq a "198.18.0.1") addrs ≡ true)
    × (open_host.list_routes false [] ≡ ok r4)
    × All (IsFree few (server ∷ []) false) r4
    × (read_routes6 open_host (server ∷ []) [] ≡ ok r6)
    × All (IsFree few (server ∷ []) true) r6
    × (open_host.list_rules [] ≡ ok rules)
    × All (IsAside no_marks) rules
    × (1 ≤ 32765)
    × IsBeforeSecond 32765 rules
unfolding check_tun_routing_free
check_free_lem_example = check_free_lem few open_host no_marks cfg (server ∷ []) [] 32765 refl

-- a host that takes only the exception of the server: whether it is there
abbrev pub narrow_host : NetOps Bool
narrow_host = record {
  route_get = λ a k. ok ("192.0.2.1", "eth0");
  list_routes = λ v6 k. ok (if not v6 && k then print_route server ∷ [] else []);
  list_rules = λ k. ok (rule_at 0 "255" ∷ rule_at 32766 "" ∷ []);
  link_addrs = λ dev k. ok ("198.18.0.1" ∷ []);
  add = λ e k. if entry_eq (bare e) (bare server) && not k then (none, true) else (some 1, k);
  del = λ e k. if entry_eq (bare e) (bare server) then (none, false) else (some 1, k);
  journal_routes = λ entries k. k;
}

abbrev pub has_server : TunEntry → Bool → Bool
has_server m k = entry_eq m (bare server) && k

spells-server :
    (e : TunEntry)
    → e.is_rule ≡ false
    → e.v6 ≡ false
    → spells few e (print_route server) ≡ entry_eq (bare e) (bare server)
unfolding spells entry_eq
spells-server e r v = ground (
  arith,
  eq_iff "" e.typ,
  eq_iff e.typ "",
  eq_iff "192.0.2.1" e.via,
  eq_iff e.via "192.0.2.1",
  eq_iff "eth0" e.dev,
  eq_iff e.dev "eth0",
  eq_iff "" e.table,
  eq_iff e.table "",
)

abbrev is_server : TunEntry → Bool
is_server e = entry_eq (bare e) (bare server)

has_bare : (m e : TunEntry) → is_server e ≡ true → entry_eq m (bare e) ≡ entry_eq m (bare server)
has_bare m e h = rw ((entry_eq_iff (bare e) (bare server)).0 h) refl

narrow_add :
    (e m : TunEntry) (k : Bool)
    → (narrow_host.add e k).0 ≡ none
    → (has_server m (narrow_host.add e k).1 ≡ (entry_eq m (bare e) || has_server m k))
      × (has_server (bare e) k ≡ false)
narrow_add e m true h = elim (Bool-cases (is_server e)) [
  | inl q ↦ absurd (cc (rw q at h))
  | inr q ↦ absurd (cc (rw q at h))
]
narrow_add e m false h = elim (Bool-cases (is_server e)) [
  | inl q ↦ rw (q, has_bare m e q) (ground arith)
  | inr q ↦ absurd (cc (rw q at h))
]

narrow_add_failed :
    (e m : TunEntry) (k : Bool) (why : ℕ)
    → (narrow_host.add e k).0 ≡ some why
    → has_server m (narrow_host.add e k).1 ≡ has_server m k
narrow_add_failed e m k why h = elim (Bool-cases (is_server e && not k)) [
  | inl q ↦ absurd (cc (rw q at h))
  | inr q ↦ rw q refl
]

narrow_del :
    (e m : TunEntry) (k : Bool)
    → (narrow_host.del e k).0 ≡ none
    → has_server m (narrow_host.del e k).1 ≡ (not (entry_eq m (bare e)) && has_server m k)
narrow_del e m k h = elim (Bool-cases (is_server e)) [
  | inl q ↦ rw (q, has_bare m e q) (ground arith)
  | inr q ↦ absurd (cc (rw q at h))
]

narrow_del_failed :
    (e m : TunEntry) (k : Bool) (why : ℕ)
    → (narrow_host.del e k).0 ≡ some why
    → has_server m (narrow_host.del e k).1 ≡ has_server m k
narrow_del_failed e m k why h = elim (Bool-cases (is_server e)) [
  | inl q ↦ absurd (cc (rw q at h))
  | inr q ↦ rw q refl
]

not_server6 : (e : TunEntry) → e.is_rule ≡ false → e.v6 ≡ true → is_server e ≡ false
unfolding entry_eq
not_server6 e r v = ground arith

not_server_rule : (e : TunEntry) → e.is_rule ≡ true → is_server e ≡ false
unfolding entry_eq
not_server_rule e r = ground arith

listed_as :
    (e : TunEntry) (k : Bool)
    → e.is_rule ≡ false
    → has_server (bare e) k
      ≡ any (spells few e) (if not e.v6 && k then print_route server ∷ [] else [])
listed_as e true r = elim (Bool-cases e.v6) [
  | inl v ↦ ground (arith, not_server6 e r v)
  | inr v ↦ ground (arith, spells-server e r v)
]
listed_as e false r = ground arith

narrow_routes :
    (e : TunEntry) (routes : List IpRoute) (k : Bool)
    → e.is_rule ≡ false
    → narrow_host.list_routes e.v6 k ≡ ok routes
    → has_server (bare e) k ≡ any (spells few e) routes
narrow_routes e routes k r h = listed_as e k r ∙ ap (any (spells few e)) (from_ok _ routes h)

narrow_rules :
    (e : TunEntry) (rules : List IpRule) (k : Bool)
    → e.is_rule ≡ true
    → narrow_host.list_rules k ≡ ok rules
    → has_server (bare e) k ≡ any (same_rule e) rules
unfolding same_rule
narrow_rules e rules k r h =
    ground (arith, not_server_rule e r) ∙ ap (any (same_rule e)) (from_ok _ rules h)

pub narrow_laws : Lawful few narrow_host has_server
narrow_laws = record {
  add_done = narrow_add;
  add_failed = narrow_add_failed;
  del_done = narrow_del;
  del_failed = narrow_del_failed;
  journal_keeps = λ entries m k. refl;
  lists_routes = narrow_routes;
  lists_rules = narrow_rules;
}

abbrev quiet : Routing Bool
quiet = record { host = false; installed = [] }

-- the second add fails, and the first one is taken back
enable_failure_restores_example :
    ((enable_tun_routing few narrow_host no_marks false cfg quiet).1.installed ≡ [])
    × ((m : TunEntry)
        → has_server m (enable_tun_routing few narrow_host no_marks false cfg quiet).1.host
          ≡ has_server m false)
unfolding enable_tun_routing is_undone entry_eq xray_runner.System.Teardown.remove_one find
enable_failure_restores_example =
    enable_failure_restores few narrow_host has_server no_marks false cfg quiet
      (not_added "direct" 1) narrow_laws refl refl refl

quiet-Accounts : Accounts has_server (λ m. false) quiet
quiet-Accounts = record { adds_up = λ m. ground arith; apart = tt; distinct = tt }

enable-Accounts_example :
    Accounts has_server (λ m. false) (enable_tun_routing few narrow_host no_marks false cfg quiet).1
enable-Accounts_example =
    enable-Accounts few narrow_host has_server narrow_laws (λ m. false) no_marks false cfg quiet
      quiet-Accounts
