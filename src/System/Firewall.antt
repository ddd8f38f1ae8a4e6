-- ===== src/System/Firewall.antt =====
-- The kill switch of internal/system: killSwitchRuleset of firewall_linux.go and killSwitchRules of
-- wfprules.go, with what their rules match of a packet.
use xray_runner.Prelude.{
  ℕ, ◌/◌, ◌%◌, ◌^◌, Bool, true, false, ◌&&◌, ◌||◌, Option, none, some, String, List, [], ◌∷◌, ◌++◌,
  map, ltb, ◌==◌, str_eq, if◌then◌else◌,
}
use xray_runner.Prelude.Int.{ℤ, pos, negsuc}
use xray_runner.System.Entries.{Addr, Netip, addr_eq}

pub record Endpoint : Type 0 where
  pub ip : String
  pub port : ℤ
  pub udp : Bool

-- A packet that leaves, or for the accept layers one that comes in: the device, the mark of its
-- socket, whether the program behind it is the core, and its header
pub record Flow : Type 0 where
  pub device : String
  pub mark : ℕ
  pub from_core : Bool
  pub local : Addr
  pub remote : Addr
  pub protocol : ℕ
  pub local_port : ℕ
  pub remote_port : ℕ
  pub icmp_type : ℕ

abbrev pub proto_tcp : ℕ
proto_tcp = 6

abbrev pub proto_udp : ℕ
proto_udp = 17

abbrev pub proto_icmpv6 : ℕ
proto_icmpv6 = 58

-- netip.Addr.Unmap
unfoldable pub unmap : Addr → Addr
unmap a =
    if a.v6 && (a.value / 2 ^ 32 == 0xffff)
    then record { v6 = false; value = a.value % 2 ^ 32 }
    else a

abbrev pub port_target : Addr → ℤ → Option (Addr × ℕ)
port_target a (negsuc _) = none
port_target a (pos n) = if (n == 0) || ltb 65535 n then none else some (a, n)

abbrev pub addr_target : Option Addr → ℤ → Option (Addr × ℕ)
addr_target none port = none
addr_target (some a) port = port_target a port

abbrev pub map_unmap : Option Addr → Option Addr
map_unmap none = none
map_unmap (some a) = some (unmap a)

-- the check of an endpoint that both kill switches make, with the address and the port that they
-- take; an address with a zone, which they refuse, counts as one that does not parse
unfoldable pub endpoint_target : Netip → Endpoint → Option (Addr × ℕ)
unfolding unmap
endpoint_target ip e = addr_target (map_unmap (ip.parse_addr e.ip)) e.port

-- nftRule, without the fields that only the split uses; 0, "" and `none` match anything
pub record NftRule : Type 0 where
  pub nfproto : ℕ
  pub oif : String
  pub mark : ℕ
  pub daddr : Option Addr
  pub l4proto : ℕ
  pub dport : ℕ
  pub icmp_type : Option ℕ
  pub accepts : Bool

abbrev pub nft_any : NftRule
nft_any = record {
  nfproto = 0;
  oif = "";
  mark = 0;
  daddr = none;
  l4proto = 0;
  dport = 0;
  icmp_type = none;
  accepts = true;
}

-- exprs: the comparisons that a rule is made of
unfoldable pub nft_matches : Flow → NftRule → Bool
unfolding addr_eq
nft_matches f r =
    ((r.nfproto == 0) || (r.nfproto == (if f.remote.v6 then 6 else 4)))
    && (str_eq r.oif "" || str_eq f.device r.oif)
    && ((r.mark == 0) || (f.mark == r.mark))
    && (elim r.daddr [ none ↦ true | some a ↦ addr_eq f.remote a ])
    && ((r.l4proto == 0) || (f.protocol == r.l4proto))
    && ((r.dport == 0) || (f.remote_port == r.dport))
    && (elim r.icmp_type [ none ↦ true | some t ↦ f.icmp_type == t ])

-- a chain gives the verdict of the first rule that matches, and lets through what none matches
unfoldable pub nft_passes : Flow → List NftRule → Bool
unfolding nft_matches
nft_passes f [] = true
nft_passes f (r ∷ rules) =
    let rest = nft_passes f rules in if nft_matches f r then r.accepts else rest

abbrev pub server_rule : Bool → Addr × ℕ → NftRule
server_rule udp t = record nft_any {
  nfproto = if (t.0).v6 then 6 else 4;
  daddr = some t.0;
  l4proto = if udp then proto_udp else proto_tcp;
  dport = t.1;
}

abbrev pub and_server : Bool → Option (Addr × ℕ) → Option (List NftRule) → Option (List NftRule)
and_server udp none rules = none
and_server udp (some t) none = none
and_server udp (some t) (some rules) = some (server_rule udp t ∷ rules)

-- the loop over the endpoints
unfoldable pub server_rules : Netip → List Endpoint → Option (List NftRule)
server_rules ip [] = some []
server_rules ip (e ∷ endpoints) =
    and_server e.udp (endpoint_target ip e) (server_rules ip endpoints)

abbrev pub exempt_rules : List NftRule
exempt_rules =
    record nft_any { oif = "lo" }
    ∷ record nft_any { oif = "xray-tun" }
    ∷ record nft_any { mark = 255 }
    ∷ []

abbrev pub neighbour_rule : ℕ → NftRule
neighbour_rule t = record nft_any { nfproto = 6; l4proto = proto_icmpv6; icmp_type = some t }

abbrev pub last_rules : List NftRule
last_rules =
    record nft_any { l4proto = proto_udp; dport = 53 }
      ∷ record nft_any { l4proto = proto_tcp; dport = 53 }
      ∷ record nft_any { nfproto = 6; l4proto = proto_udp; dport = 547 }
      ∷ map neighbour_rule (133 ∷ 134 ∷ 135 ∷ 136 ∷ 137 ∷ [])
    ++ (record nft_any { accepts = false } ∷ [])

abbrev pub around : Option (List NftRule) → Option (List NftRule)
around none = none
around (some servers) = some (exempt_rules ++ servers ++ last_rules)

-- killSwitchRuleset
unfoldable pub kill_switch_ruleset : Netip → List Endpoint → Option (List NftRule)
unfolding server_rules
kill_switch_ruleset ip endpoints = around (server_rules ip endpoints)
