-- ===== src/System/KillSwitch.antt =====
-- What the kill switch of internal/system/firewall_linux.go lets through.
use xray_runner.Prelude.{
  append_assoc, ℕ, Bool, true, false, ◌&&◌, ◌||◌, ◌≡◌, refl, sym, ap, ◌∙◌, Option, none, some, List,
  [], ◌∷◌, ◌++◌, any, leb, ltb, ◌==◌, str_eq, if◌then◌else◌, arith, Bool-cases, inl, inr,
}
use xray_runner.Prelude.Int.{ℤ, pos, negsuc}
use xray_runner.System.Entries.{Addr, Netip, addr_eq}
use xray_runner.System.Firewall.{
  port_target, map_unmap, addr_target, and_server, around, Endpoint, Flow, proto_tcp, proto_udp,
  proto_icmpv6, endpoint_target, NftRule, nft_matches, nft_passes, server_rule, server_rules,
  neighbour_rule, exempt_rules, last_rules, kill_switch_ruleset,
}

-- to the address and port of a server, by its protocol
abbrev pub is_to : Flow → Bool → Option (Addr × ℕ) → Bool
is_to f udp none = false
is_to f udp (some t) =
    addr_eq f.remote t.0
    && (f.protocol == (if udp then proto_udp else proto_tcp))
    && (f.remote_port == t.1)

abbrev pub is_to_server : Netip → Flow → List Endpoint → Bool
is_to_server ip f endpoints = any (λ e. is_to f e.udp (endpoint_target ip e)) endpoints

abbrev pub is_dns : Flow → Bool
is_dns f = ((f.protocol == proto_udp) || (f.protocol == proto_tcp)) && (f.remote_port == 53)

-- DHCPv6 and neighbour discovery
abbrev pub keeps_ipv6 : Flow → Bool
keeps_ipv6 f =
    f.remote.v6
    && (((f.protocol == proto_udp) && (f.remote_port == 547))
        || ((f.protocol == proto_icmpv6) && leb 133 f.icmp_type && leb f.icmp_type 137))

abbrev pub is_exempt : Flow → Bool
is_exempt f = str_eq f.device "lo" || str_eq f.device "xray-tun" || (f.mark == 255)

neighbour_lem :
    (f : Flow) (t : ℕ)
    → nft_matches f (neighbour_rule t)
      ≡ (f.remote.v6 && (f.protocol == proto_icmpv6) && (f.icmp_type == t))
unfolding nft_matches
neighbour_lem f t = ground arith

last_rules_lem : (f : Flow) → nft_passes f last_rules ≡ (is_dns f || keeps_ipv6 f)
unfolding nft_passes
last_rules_lem f = ground arith

exempt_rules_lem :
    (f : Flow) (rules : List NftRule)
    → nft_passes f (exempt_rules ++ rules) ≡ (is_exempt f || nft_passes f rules)
unfolding nft_passes
exempt_rules_lem f rules = ground arith

server_rule_lem :
    (f : Flow) (udp : Bool) (t : Addr × ℕ)
    → ltb 0 t.1 ≡ true
    → nft_matches f (server_rule udp t) ≡ is_to f udp (some t)
unfolding nft_matches addr_eq
server_rule_lem f udp t h = ground arith

port_target_lem :
    (a : Addr) (port : ℤ) (t : Addr × ℕ) → port_target a port ≡ some t → ltb 0 t.1 ≡ true
port_target_lem a (negsuc n) t h = absurd (cc)
port_target_lem a (pos n) t h = elim (Bool-cases ((n == 0) || ltb 65535 n)) [
  | inl q ↦ absurd (cc (rw q at h))
  | inr q ↦
      let same : (a, n) ≡ t = cc (rw q at h) in ap (λ x. ltb 0 x.1) (sym same) ∙ ground (arith, q)
]

addr_target_lem :
    (a : Option Addr) (port : ℤ) (t : Addr × ℕ) → addr_target a port ≡ some t → ltb 0 t.1 ≡ true
addr_target_lem none port t h = absurd (cc)
addr_target_lem (some a) port t h = port_target_lem a port t h

endpoint_lem :
    (ip : Netip) (e : Endpoint)
    → addr_target (map_unmap (ip.parse_addr e.ip)) e.port ≡ endpoint_target ip e
unfolding endpoint_target
endpoint_lem ip e = refl

or_assoc : (a b c : Bool) → (a || (b || c)) ≡ ((a || b) || c)
or_assoc a b c = ground arith

some_inj : (x y : List NftRule) → some x ≡ some y → x ≡ y
some_inj x y h = cc h

and_server_split :
    (udp : Bool) (t : Option (Addr × ℕ)) (later : Option (List NftRule)) (rules : List NftRule)
    → and_server udp t later ≡ some rules
    → (target : Addr × ℕ) × (more : List NftRule) × (t ≡ some target)
      × (later ≡ some more)
      × (server_rule udp target ∷ more ≡ rules)
and_server_split udp none later rules h = absurd (cc)
and_server_split udp (some target) none rules h = absurd (cc)
and_server_split udp (some target) (some more) rules h = (target, more, refl, refl, cc h)

nft_passes-accept :
    (f : Flow) (r : NftRule) (rules : List NftRule)
    → r.accepts ≡ true
    → nft_passes f (r ∷ rules) ≡ (nft_matches f r || nft_passes f rules)
unfolding nft_passes
nft_passes-accept f r rules a = elim (Bool-cases (nft_matches f r)) [
  | inl q ↦
      ap (λ b. if b then r.accepts else nft_passes f rules) q
      ∙ a
      ∙ ap (λ b. b || nft_passes f rules) (sym q)
  | inr q ↦
      ap (λ b. if b then r.accepts else nft_passes f rules) q
      ∙ ap (λ b. b || nft_passes f rules) (sym q)
]

-- the rules of the servers, before others
servers_lem :
    (ip : Netip) (f : Flow) (endpoints : List Endpoint) (rules rest : List NftRule)
    → server_rules ip endpoints ≡ some rules
    → nft_passes f (rules ++ rest) ≡ (is_to_server ip f endpoints || nft_passes f rest)
unfolding server_rules
servers_lem ip f [] rules rest h = ap (λ rs. nft_passes f (rs ++ rest)) (sym (some_inj [] rules h))
servers_lem ip f (e ∷ endpoints) rules rest h =
    let (t, more, target, later, same) =
      and_server_split e.udp (endpoint_target ip e) (server_rules ip endpoints) rules h in
    let port =
      addr_target_lem (map_unmap (ip.parse_addr e.ip)) e.port t (endpoint_lem ip e ∙ target) in
    ap (λ rs. nft_passes f (rs ++ rest)) (sym same)
    ∙ nft_passes-accept f (server_rule e.udp t) (more ++ rest) refl
    ∙ ap (λ b. b || nft_passes f (more ++ rest))
        (server_rule_lem f e.udp t port ∙ ap (is_to f e.udp) (sym target))
    ∙ ap (λ b. is_to f e.udp (endpoint_target ip e) || b)
        (servers_lem ip f endpoints more rest later)
    ∙ or_assoc (is_to f e.udp (endpoint_target ip e)) (is_to_server ip f endpoints)
        (nft_passes f rest)

around_split :
    (servers : Option (List NftRule)) (rules : List NftRule)
    → around servers ≡ some rules
    → (more : List NftRule) × (servers ≡ some more) × (exempt_rules ++ more ++ last_rules ≡ rules)
around_split none rules h = absurd (cc)
around_split (some more) rules h = (more, refl, cc h)

-- A packet passes the rules that EnableKillSwitch of Linux makes exactly if it leaves by the
-- loopback or the tun device, carries the mark of direct traffic, goes to the address and port of a
-- server by its protocol, is a name lookup, or keeps the host's IPv6 alive (DHCPv6 and neighbour
-- discovery).
pub kill_switch_iff :
    (ip : Netip) (endpoints : List Endpoint) (rules : List NftRule) (f : Flow)
    → kill_switch_ruleset ip endpoints ≡ some rules
    → nft_passes f rules
      ≡ (is_exempt f || (is_to_server ip f endpoints || (is_dns f || keeps_ipv6 f)))
unfolding kill_switch_ruleset
kill_switch_iff ip endpoints rules f h =
    let (servers, made, same) = around_split (server_rules ip endpoints) rules h in
    ap (nft_passes f) (sym same)
    ∙ ap (nft_passes f) (append_assoc exempt_rules servers last_rules)
    ∙ exempt_rules_lem f (servers ++ last_rules)
    ∙ ap (λ b. is_exempt f || b)
        (servers_lem ip f endpoints servers last_rules made
          ∙ ap (λ b. is_to_server ip f endpoints || b) (last_rules_lem f))
