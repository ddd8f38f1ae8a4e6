-- ===== src/System/FirewallTests.antt =====
-- Packets at the kill switches of internal/system.
use xray_runner.Prelude.{
  true, false, ◌||◌, ◌≡◌, refl, Option, none, some, List, [], ◌∷◌, str_eq, if◌then◌else◌,
}
use xray_runner.Prelude.Int.{ℤ}
use xray_runner.System.Entries.{Addr, Netip}
use xray_runner.System.Firewall.{
  Endpoint, Flow, NftRule, proto_udp, nft_passes, kill_switch_ruleset,
}
use xray_runner.System.KillSwitch.{is_exempt, is_to_server, is_dns, keeps_ipv6, kill_switch_iff}
use xray_runner.System.Filters.{WfpRule, wfp_passes, kill_switch_rules}
use xray_runner.System.Permits.{out_layer, is_permitted_source, keeps_uplink, permits_iff}

abbrev server_addr : Addr
server_addr = record { v6 = false; value = 3405803783 }

abbrev one_addr : Netip
one_addr = record {
  parse_addr = λ s. if str_eq s "203.0.113.7" then some server_addr else none;
  parse_prefix = λ s. none;
}

abbrev servers : List Endpoint
servers = record { ip = "203.0.113.7"; port = ℤ.pos 443; udp = false } ∷ []

abbrev list_of : {A : Type 0} → Option (List A) → List A
list_of none = []
list_of (some xs) = xs

abbrev rules : List NftRule
rules = list_of (kill_switch_ruleset one_addr servers)

abbrev filters : List WfpRule
filters = list_of (kill_switch_rules one_addr servers true)

-- past the tunnel to the server
abbrev uplink : Flow
uplink = record {
  device = "eth0";
  mark = 0;
  from_core = false;
  local = record { v6 = false; value = 3232235777 };
  remote = server_addr;
  protocol = 6;
  local_port = 50000;
  remote_port = 443;
  icmp_type = 0;
}

kill_switch_iff_example : nft_passes uplink rules ≡ (
    is_exempt uplink
    || (is_to_server one_addr uplink servers || (is_dns uplink || keeps_ipv6 uplink)))
unfolding kill_switch_ruleset xray_runner.System.Firewall.endpoint_target
kill_switch_iff_example = kill_switch_iff one_addr servers rules uplink refl

permits_iff_example : wfp_passes (out_layer uplink) uplink filters ≡ (
    is_permitted_source true uplink
    || (is_to_server one_addr uplink servers || (is_dns uplink || keeps_uplink uplink)))
unfolding kill_switch_rules
permits_iff_example = permits_iff one_addr servers true filters uplink refl

-- to the same server by another port
leak : nft_passes (record uplink { remote_port = 80 }) rules ≡ false
unfolding kill_switch_ruleset nft_passes xray_runner.System.Firewall.endpoint_target
leak = refl
