-- ===== src/System/Permits.antt =====
-- What the kill switch of internal/system/wfprules.go lets through, and that it lets out no more than
-- the one of Linux.
use xray_runner.Prelude.{
  ℕ, Bool, true, false, not, ◌&&◌, ◌||◌, ◌≡◌, refl, sym, ap, ◌∙◌, Option, none, some, List, [], ◌∷◌,
  ◌++◌, any, leb, ◌==◌, str_eq, if◌then◌else◌, arith, implies,
}
use xray_runner.System.Entries.{Addr, Netip, addr_eq}
use xray_runner.System.Firewall.{
  Endpoint, Flow, proto_udp, proto_icmpv6, endpoint_target, NftRule, nft_passes,
  kill_switch_ruleset,
}
use xray_runner.System.KillSwitch.{is_exempt, kill_switch_iff, is_to, is_to_server, is_dns}
use xray_runner.System.Filters.{
  WfpLayer, connect4, connect6, WfpRule, tun_addr4, tun_addr6, wfp_matches, wfp_passes,
  server_filter, and_filter, server_filters, first_filters, last_filters, with_servers,
  kill_switch_rules,
}

-- the layer at which a connection out is decided
abbrev pub out_layer : Flow → WfpLayer
out_layer f = if f.remote.v6 then connect6 else connect4

permitted : Flow → List WfpRule → Bool
permitted f rules = any (λ r. r.permit && wfp_matches (out_layer f) f r) rules

-- loopback, the tun's own address of the family, or the core, if it is let through
abbrev pub is_permitted_source : Bool → Flow → Bool
is_permitted_source core f =
    str_eq f.device "lo"
    || addr_eq f.local (if f.remote.v6 then tun_addr6 else tun_addr4)
    || (core && f.from_core)

-- DHCP of the family, and neighbour discovery
abbrev pub keeps_uplink : Flow → Bool
keeps_uplink f =
    if f.remote.v6
    then ((f.protocol == proto_udp) && (f.local_port == 546) && (f.remote_port == 547))
      || ((f.protocol == proto_icmpv6) && leb 133 f.icmp_type && leb f.icmp_type 137)
    else (f.protocol == proto_udp) && (f.local_port == 68) && (f.remote_port == 67)

first_lem : (core : Bool) (f : Flow) → permitted f (first_filters core) ≡ is_permitted_source core f
unfolding permitted wfp_matches
first_lem core f = ground arith

last_lem : (f : Flow) → permitted f last_filters ≡ (is_dns f || keeps_uplink f)
unfolding permitted wfp_matches
last_lem f = ground arith

blocked : (f : Flow) → any (λ r. not r.permit && wfp_matches (out_layer f) f r) last_filters ≡ true
unfolding wfp_matches
blocked f = ground arith

permitted-nil : (f : Flow) → permitted f [] ≡ false
unfolding permitted
permitted-nil f = refl

permitted-cons :
    (f : Flow) (r : WfpRule) (rules : List WfpRule)
    → r.permit ≡ true
    → permitted f (r ∷ rules) ≡ (wfp_matches (out_layer f) f r || permitted f rules)
unfolding permitted
permitted-cons f r rules p = ap (λ b. (b && wfp_matches (out_layer f) f r) || permitted f rules) p

closed_passes :
    (f : Flow) (rules : List WfpRule)
    → any (λ r. not r.permit && wfp_matches (out_layer f) f r) rules ≡ true
    → wfp_passes (out_layer f) f rules ≡ permitted f rules
unfolding wfp_passes permitted
closed_passes f rules h = ground (arith, h)

permitted-append :
    (f : Flow) (xs ys : List WfpRule) → permitted f (xs ++ ys) ≡ (permitted f xs || permitted f ys)
unfolding permitted
permitted-append f [] ys = refl
permitted-append f (x ∷ xs) ys = ground (arith, permitted-append f xs ys)

blocks-append :
    (f : Flow) (xs ys : List WfpRule)
    → any (λ r. not r.permit && wfp_matches (out_layer f) f r) ys ≡ true
    → any (λ r. not r.permit && wfp_matches (out_layer f) f r) (xs ++ ys) ≡ true
blocks-append f [] ys h = h
blocks-append f (x ∷ xs) ys h = ground (arith, blocks-append f xs ys h)

and_filter_split :
    (udp : Bool) (t : Option (Addr × ℕ)) (later : Option (List WfpRule)) (rules : List WfpRule)
    → and_filter udp t later ≡ some rules
    → (target : Addr × ℕ) × (more : List WfpRule) × (t ≡ some target)
      × (later ≡ some more)
      × (server_filter udp target ∷ more ≡ rules)
and_filter_split udp none later rules h = absurd (cc)
and_filter_split udp (some target) none rules h = absurd (cc)
and_filter_split udp (some target) (some more) rules h = (target, more, refl, refl, cc h)

server_filter_lem :
    (f : Flow) (udp : Bool) (t : Addr × ℕ)
    → wfp_matches (out_layer f) f (server_filter udp t) ≡ is_to f udp (some t)
unfolding wfp_matches addr_eq
server_filter_lem f udp t = ground arith

filters_inj : (x y : List WfpRule) → some x ≡ some y → x ≡ y
filters_inj x y h = cc h

servers_permitted :
    (ip : Netip) (f : Flow) (endpoints : List Endpoint) (rules : List WfpRule)
    → server_filters ip endpoints ≡ some rules
    → permitted f rules ≡ is_to_server ip f endpoints
unfolding server_filters
servers_permitted ip f [] rules h =
    ap (permitted f) (sym (filters_inj [] rules h)) ∙ permitted-nil f
servers_permitted ip f (e ∷ endpoints) rules h =
    let (t, more, target, later, same) =
      and_filter_split e.udp (endpoint_target ip e) (server_filters ip endpoints) rules h in
    ap (permitted f) (sym same)
    ∙ permitted-cons f (server_filter e.udp t) more refl
    ∙ ap (λ b. b || permitted f more)
        (server_filter_lem f e.udp t ∙ ap (is_to f e.udp) (sym target))
    ∙ ap (λ b. is_to f e.udp (endpoint_target ip e) || b)
        (servers_permitted ip f endpoints more later)

with_servers_split :
    (core : Bool) (servers : Option (List WfpRule)) (rules : List WfpRule)
    → with_servers core servers ≡ some rules
    → (more : List WfpRule) × (servers ≡ some more)
      × (first_filters core ++ more ++ last_filters ≡ rules)
with_servers_split core none rules h = absurd (cc)
with_servers_split core (some more) rules h = (more, refl, cc h)

-- A connection out passes the filters that killSwitchRules makes exactly if it is on loopback, has
-- the address of the tun of its family, is of the core where the core is let through, goes to the address
-- and port of a server by its protocol, is a name lookup, or keeps the host's lease or neighbours
-- (DHCP, DHCPv6, neighbour discovery).
pub permits_iff :
    (ip : Netip) (endpoints : List Endpoint) (core : Bool) (rules : List WfpRule) (f : Flow)
    → kill_switch_rules ip endpoints core ≡ some rules
    → wfp_passes (out_layer f) f rules ≡ (
        is_permitted_source core f || (is_to_server ip f endpoints || (is_dns f || keeps_uplink f)))
unfolding kill_switch_rules wfp_passes
permits_iff ip endpoints core rules f h =
    let (servers, made, same) = with_servers_split core (server_filters ip endpoints) rules h in
    let closed = blocks-append f (first_filters core ++ servers) last_filters (blocked f) in
    ap (wfp_passes (out_layer f) f) (sym same)
    ∙ closed_passes f (first_filters core ++ servers ++ last_filters) closed
    ∙ permitted-append f (first_filters core ++ servers) last_filters
    ∙ ap (λ b. b || permitted f last_filters) (permitted-append f (first_filters core) servers)
    ∙ ground (arith, first_lem core f, last_lem f, servers_permitted ip f endpoints servers made)

-- Where what Windows takes for loopback, the tunnel's or the core's traffic is what Linux takes for
-- it by device and mark, the Windows kill switch lets out nothing that the Linux one does not, but
-- for DHCP of IPv4, which does not pass the Linux chain at all.
pub windows_within_linux :
    (ip : Netip) (endpoints : List Endpoint) (core : Bool) (filters : List WfpRule)
    (rules : List NftRule) (f : Flow)
    → kill_switch_rules ip endpoints core ≡ some filters
    → kill_switch_ruleset ip endpoints ≡ some rules
    → implies (is_permitted_source core f) (is_exempt f) ≡ true
    → implies (not f.remote.v6 && (f.protocol == proto_udp)) (not (f.remote_port == 67)) ≡ true
    → implies (wfp_passes (out_layer f) f filters) (nft_passes f rules) ≡ true
windows_within_linux ip endpoints core filters rules f w l s d =
    ap (λ b. implies b (nft_passes f rules)) (permits_iff ip endpoints core filters f w)
    ∙ ap
        (λ b.
          implies
            (is_permitted_source core f
              || (is_to_server ip f endpoints || (is_dns f || keeps_uplink f)))
            b)
        (kill_switch_iff ip endpoints rules f l)
    ∙ ground (arith, s, d)
