-- ===== src/System/Setup/Wanted.antt =====
-- The entries that EnableTunRouting of internal/system/route_linux.go decides on. The text `what` of
-- an entry is a short word here.
use xray_runner.Prelude.{
  ℕ, Bool, true, false, not, ◌&&◌, String, List, [], ◌∷◌, ◌++◌, map, str_eq, if◌then◌else◌,
}
use xray_runner.Prelude.Outcome.{Outcome, fail, ok}
use xray_runner.System.Entries.{
  Addr, Prefix, Netip, TunEntry, direct_table, tun_metric, unspecified, route_dst,
}
use xray_runner.System.Teardown.{NetOps, RouteError, bad_entry, no_route}

pub record TunRouteConfig : Type 0 where
  pub iface : String
  pub addr : String
  pub server_ips : List String
  pub addr6 : String

-- xraycfg.DirectFwMark
abbrev pub direct_fw_mark : ℕ
direct_fw_mark = 255

-- markProbe, 1.1.1.1
abbrev pub mark_probe : Addr
mark_probe = record { v6 = false; value = 0x1010101 }

-- splitDefault and blockDefault6
abbrev pub split_default : List Prefix
split_default =
    record { addr = record { v6 = false; value = 0 }; bits = 1 }
    ∷ record { addr = record { v6 = false; value = 0x80000000 }; bits = 1 }
    ∷ []

abbrev pub block_default6 : List Prefix
block_default6 =
    record { addr = record { v6 = true; value = 0 }; bits = 1 }
    ∷ record { addr = record { v6 = true; value = 0x80000000000000000000000000000000 }; bits = 1 }
    ∷ []

abbrev pub unicast : String → Prefix → String → String → String → TunEntry
unicast what prefix via dev table = record {
  what = what;
  is_rule = false;
  pref = 0;
  v6 = false;
  typ = "";
  prefix = prefix;
  via = via;
  dev = dev;
  table = table;
  metric = tun_metric;
}

abbrev pub server_entry : Prefix → String → String → TunEntry
server_entry prefix via dev = unicast "server" prefix via dev ""

abbrev pub direct_entry : String → String → TunEntry
direct_entry via dev = unicast "direct" (unspecified false) via dev direct_table

abbrev pub half_entry : String → Prefix → TunEntry
half_entry iface half = unicast "split" half "" iface ""

abbrev pub rule_entry : TunEntry
rule_entry = record {
  what = "mark";
  is_rule = true;
  pref = 0;
  v6 = false;
  typ = "";
  prefix = unspecified false;
  via = "";
  dev = "";
  table = "";
  metric = 0;
}

abbrev pub block_entry : Prefix → TunEntry
block_entry half = record {
  what = "block";
  is_rule = false;
  pref = 0;
  v6 = true;
  typ = "unreachable";
  prefix = half;
  via = "";
  dev = "lo";
  table = "";
  metric = 1024;
}

-- the loop over the servers
unfoldable pub server_entries :
    {K : Type 0} → Netip → NetOps K → K → List String → Outcome RouteError (List TunEntry)
unfolding route_dst
server_entries ip ops k [] = ok []
server_entries ip ops k (server ∷ servers) = elim (route_dst ip server false) [
  | fail why ↦ fail (bad_entry why)
  | ok prefix ↦ elim (ops.route_get prefix.addr k) [
    | fail _ ↦ fail (no_route server)
    | ok path ↦ elim (server_entries ip ops k servers) [
      | fail why ↦ fail why
      | ok entries ↦ ok (server_entry prefix path.0 path.1 ∷ entries)
    ]
  ]
]

-- `want`: the exceptions and the way out for marked traffic, the IPv6 block, the split default
unfoldable pub want_entries :
    {K : Type 0} → Netip → NetOps K → Bool → TunRouteConfig → K → Outcome RouteError (List TunEntry)
unfolding server_entries
want_entries ip ops ipv6_stack cfg k = elim (server_entries ip ops k cfg.server_ips) [
  | fail why ↦ fail why
  | ok servers ↦ elim (ops.route_get mark_probe k) [
    | fail _ ↦ fail (no_route "")
    | ok path ↦ ok (
        servers
        ++ (direct_entry path.0 path.1 ∷ rule_entry ∷ [])
        ++ (if not (str_eq cfg.addr6 "") && ipv6_stack then map block_entry block_default6 else [])
        ++ map (half_entry cfg.iface) split_default)
  ]
]
