-- ===== src/System/Filters.antt =====
-- killSwitchRules of internal/system/wfprules.go, the kill switch of Windows, with what its filters
-- match. A permit stands above every block.
use xray_runner.Prelude.{
  ℕ, Bool, true, false, not, ◌&&◌, ◌||◌, Option, none, some, List, [], ◌∷◌, ◌++◌, map, any, all,
  ◌==◌, str_eq, if◌then◌else◌,
}
use xray_runner.System.Entries.{Addr, Netip, addr_eq}
use xray_runner.System.Firewall.{
  Endpoint, Flow, proto_tcp, proto_udp, proto_icmpv6, endpoint_target,
}

pub data WfpLayer : Type 0 where
  connect4 connect6 accept4 accept6 : WfpLayer

-- wfpCond, with its field as the constructor; the program is the core
pub data WfpCond : Type 0 where
  loopback app : WfpCond
  local_addr remote_addr : Addr → WfpCond
  protocol_is local_port_is remote_port_is : ℕ → WfpCond

-- wfpRule, without its name
pub record WfpRule : Type 0 where
  pub layer : WfpLayer
  pub permit : Bool
  pub conds : List WfpCond

abbrev pub layer_eq : WfpLayer → WfpLayer → Bool
layer_eq connect4 connect4 = true
layer_eq connect6 connect6 = true
layer_eq accept4 accept4 = true
layer_eq accept6 accept6 = true
layer_eq _ _ = false

-- the local port is the ICMP type for ICMP
unfoldable pub holds : Flow → WfpCond → Bool
unfolding addr_eq
holds f loopback = str_eq f.device "lo"
holds f app = f.from_core
holds f (local_addr a) = addr_eq f.local a
holds f (remote_addr a) = addr_eq f.remote a
holds f (protocol_is n) = f.protocol == n
holds f (local_port_is n) = (if f.protocol == proto_icmpv6 then f.icmp_type else f.local_port) == n
holds f (remote_port_is n) = f.remote_port == n

unfoldable pub wfp_matches : WfpLayer → Flow → WfpRule → Bool
unfolding holds
wfp_matches layer f r = layer_eq r.layer layer && all (holds f) r.conds

-- a flow goes on if a permit matches, or no block does
unfoldable pub wfp_passes : WfpLayer → Flow → List WfpRule → Bool
unfolding wfp_matches
wfp_passes layer f rules =
    any (λ r. r.permit && wfp_matches layer f r) rules
    || not (any (λ r. not r.permit && wfp_matches layer f r) rules)

-- the closure `both`
abbrev pub both : Bool → List WfpLayer → List WfpCond → List WfpRule
both permit layers conds = map (λ l. record { layer = l; permit = permit; conds = conds }) layers

abbrev pub all4 : List WfpLayer
all4 = connect4 ∷ accept4 ∷ []

abbrev pub all6 : List WfpLayer
all6 = connect6 ∷ accept6 ∷ []

abbrev pub every_layer : List WfpLayer
every_layer = connect4 ∷ accept4 ∷ connect6 ∷ accept6 ∷ []

-- xraycfg.TunAddr and xraycfg.TunAddr6
abbrev pub tun_addr4 : Addr
tun_addr4 = record { v6 = false; value = 0x0a000001 }

abbrev pub tun_addr6 : Addr
tun_addr6 = record { v6 = true; value = 0xfdfedcba987600000000000000000001 }

abbrev pub server_filter : Bool → Addr × ℕ → WfpRule
server_filter udp t = record {
  layer = if (t.0).v6 then connect6 else connect4;
  permit = true;
  conds =
      remote_addr t.0
      ∷ protocol_is (if udp then proto_udp else proto_tcp)
      ∷ remote_port_is t.1
      ∷ [];
}

abbrev pub and_filter : Bool → Option (Addr × ℕ) → Option (List WfpRule) → Option (List WfpRule)
and_filter udp none rules = none
and_filter udp (some t) none = none
and_filter udp (some t) (some rules) = some (server_filter udp t ∷ rules)

-- the loop over the endpoints
unfoldable pub server_filters : Netip → List Endpoint → Option (List WfpRule)
unfolding endpoint_target
server_filters ip [] = some []
server_filters ip (e ∷ endpoints) =
    and_filter e.udp (endpoint_target ip e) (server_filters ip endpoints)

abbrev pub first_filters : Bool → List WfpRule
first_filters core =
    both true every_layer (loopback ∷ [])
    ++ both true all4 (local_addr tun_addr4 ∷ [])
    ++ both true all6 (local_addr tun_addr6 ∷ [])
    ++ (if core then both true (connect4 ∷ connect6 ∷ []) (app ∷ []) else [])

abbrev pub neighbour_filters : List ℕ → List WfpRule
neighbour_filters [] = []
neighbour_filters (t ∷ types) =
    both true all6 (protocol_is proto_icmpv6 ∷ local_port_is t ∷ []) ++ neighbour_filters types

abbrev pub last_filters : List WfpRule
last_filters =
    both true (connect4 ∷ connect6 ∷ []) (protocol_is proto_udp ∷ remote_port_is 53 ∷ [])
    ++ both true (connect4 ∷ connect6 ∷ []) (protocol_is proto_tcp ∷ remote_port_is 53 ∷ [])
    ++ both true all4 (protocol_is proto_udp ∷ local_port_is 68 ∷ remote_port_is 67 ∷ [])
    ++ both true all6 (protocol_is proto_udp ∷ local_port_is 546 ∷ remote_port_is 547 ∷ [])
    ++ neighbour_filters (133 ∷ 134 ∷ 135 ∷ 136 ∷ 137 ∷ [])
    ++ both false every_layer []

abbrev pub with_servers : Bool → Option (List WfpRule) → Option (List WfpRule)
with_servers core none = none
with_servers core (some servers) = some (first_filters core ++ servers ++ last_filters)

-- killSwitchRules
unfoldable pub kill_switch_rules : Netip → List Endpoint → Bool → Option (List WfpRule)
unfolding server_filters
kill_switch_rules ip endpoints core = with_servers core (server_filters ip endpoints)
