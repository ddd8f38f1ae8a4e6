-- ===== src/System/Teardown.antt =====
-- DisableTunRouting of internal/system/route_linux.go, and the interface netOps to the host.
use xray_runner.Prelude.{
  ℕ, Bool, true, false, Option, none, some, String, List, [], ◌∷◌, reverse, any, if◌then◌else◌,
}
use xray_runner.Prelude.Outcome.{Outcome, fail, ok, ◌>>=◌}
use xray_runner.System.Entries.{
  Addr, Prefix, Netip, TunEntry, IpRoute, IpRule, EntryError, not_deleted, find,
}

-- the calls on a host `K`, less the one that only asks for a path; a number is what the system
-- said. journal_routes is the write of the record of this process.
pub record NetOps (K : Type 0) : Type 0 where
  pub route_get : Addr → K → Outcome ℕ (String × String)
  pub list_routes : Bool → K → Outcome ℕ (List IpRoute)
  pub list_rules : K → Outcome ℕ (List IpRule)
  pub link_addrs : String → K → Outcome ℕ (List String)
  pub add : TunEntry → K → Option ℕ × K
  pub del : TunEntry → K → Option ℕ × K
  pub journal_routes : List TunEntry → K → K

-- the host, and the variable `installed`
pub record Routing (K : Type 0) : Type 0 where
  pub host : K
  pub installed : List TunEntry

-- what the preflight found in the place of an entry
pub data Conflict : Type 0 where
  in_direct_table on_prefix : IpRoute → Conflict
  on_rule : IpRule → Conflict

pub data RouteError : Type 0 where
  no_server no_priority : RouteError
  unread : ℕ → RouteError
  bad_entry : EntryError → RouteError
  no_route no_address : String → RouteError
  bad_mark : ℕ → RouteError
  taken : List Conflict → RouteError
  lost : List Prefix → RouteError
  not_added : String → ℕ → RouteError
  not_removed : List EntryError → RouteError
  not_undone : RouteError → RouteError → RouteError

-- what a teardown reads first: the routes of both families, and the rules
pub record Listing : Type 0 where
  pub routes4 : List IpRoute
  pub routes6 : List IpRoute
  pub rules : List IpRule

abbrev pub is_v6 : TunEntry → Bool
is_v6 e = e.v6

abbrev pub is_a_rule : TunEntry → Bool
is_a_rule e = e.is_rule

-- `routes6` and `rules` stay nil where no entry needs them
unfoldable pub read_routes6 : {K : Type 0} → NetOps K → List TunEntry → K → Outcome ℕ (List IpRoute)
read_routes6 ops entries k = if any is_v6 entries then ops.list_routes true k else ok []

unfoldable pub read_rules : {K : Type 0} → NetOps K → List TunEntry → K → Outcome ℕ (List IpRule)
read_rules ops entries k = if any is_a_rule entries then ops.list_rules k else ok []

unfoldable pub read_listing : {K : Type 0} → NetOps K → List TunEntry → K → Outcome ℕ Listing
unfolding read_routes6 read_rules
read_listing ops entries k = ops.list_routes false k >>= λ r4. read_routes6 ops entries k >>= λ r6.
    read_rules ops entries k >>= λ rules. ok (record { routes4 = r4; routes6 = r6; rules = rules })

abbrev pub routes_of : Listing → TunEntry → List IpRoute
routes_of l e = if e.v6 then l.routes6 else l.routes4

-- one round of the loop, on what the lookup said: why the entry is kept, if it is
abbrev pub after_del : {K : Type 0} → TunEntry → Option ℕ → K → Option EntryError × K
after_del e none k = (none, k)
after_del e (some why) k = (some (not_deleted e why), k)

abbrev pub remove_found :
    {K : Type 0}
    → NetOps K
    → TunEntry
    → K
    → Outcome EntryError (Bool × Bool)
    → Option EntryError × K
remove_found ops e k (fail why) = (some why, k)
remove_found ops e k (ok found) =
    if found.0 then after_del e (ops.del e k).0 (ops.del e k).1 else (none, k)

unfoldable pub remove_one :
    {K : Type 0} → Netip → NetOps K → Listing → TunEntry → K → Option EntryError × K
remove_one ip ops l e k = remove_found ops e k (find ip e (routes_of l e) l.rules)

abbrev pub keep_one :
    {K : Type 0}
    → Option EntryError
    → TunEntry
    → List EntryError × List TunEntry × K
    → List EntryError × List TunEntry × K
keep_one none e rest = rest
keep_one (some why) e rest = (why ∷ rest.0, e ∷ rest.1, rest.2)

-- the loop, on the entries in the order that it visits them
unfoldable pub remove_all :
    {K : Type 0}
    → Netip
    → NetOps K
    → Listing
    → List TunEntry
    → K
    → List EntryError × List TunEntry × K
remove_all ip ops l [] k = ([], [], k)
remove_all ip ops l (e ∷ entries) k =
    keep_one (remove_one ip ops l e k).0 e (remove_all ip ops l entries (remove_one ip ops l e k).1)

-- DisableTunRouting behind its reads
unfoldable pub take_down :
    {K : Type 0} → Netip → NetOps K → Routing K → Outcome ℕ Listing → Option RouteError × Routing K
unfolding remove_all
take_down ip ops s (fail why) = (some (unread why), s)
take_down ip ops s (ok l) =
    let (errs, kept, k) = remove_all ip ops l (reverse s.installed) s.host in
    (
      elim errs [ [] ↦ none | e ∷ more ↦ some (not_removed (e ∷ more)) ],
      record { host = ops.journal_routes (reverse kept) k; installed = reverse kept },
    )

-- DisableTunRouting, with the entries that it starts from
unfoldable pub disable_on :
    {K : Type 0} → Netip → NetOps K → Routing K → List TunEntry → Option RouteError × Routing K
unfolding read_listing take_down
disable_on ip ops s [] = (none, s)
disable_on ip ops s (_ ∷ _) = take_down ip ops s (read_listing ops s.installed s.host)

-- DisableTunRouting
unfoldable pub disable_tun_routing :
    {K : Type 0} → Netip → NetOps K → Routing K → Option RouteError × Routing K
unfolding disable_on
disable_tun_routing ip ops s = disable_on ip ops s s.installed
