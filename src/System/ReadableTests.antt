-- ===== src/System/ReadableTests.antt =====
-- The record of a session with both families, and its entries read back.
use xray_runner.Prelude.{
  ℕ, true, false, ◌≡◌, refl, none, some, String, List, [], ◌∷◌, map, str_eq, ◌==◌, subst,
  if◌then◌else◌,
}
use xray_runner.Prelude.Outcome.{ok, from_ok}
use xray_runner.System.Entries.{Addr, Prefix, Netip, TunEntry}
use xray_runner.System.Teardown.{NetOps}
use xray_runner.System.Setup.{TunRouteConfig, want_entries, with_pref}
use xray_runner.System.Journal.{entry_record, restore_routes}
use xray_runner.System.Restored.{as_read}
use xray_runner.System.Readable.{is_way, restore_routes-want_entries}

abbrev v4 : ℕ → Addr
v4 value = record { v6 = false; value = value }

abbrev v6 : ℕ → Addr
v6 value = record { v6 = true; value = value }

abbrev prefix : Addr → ℕ → Prefix
prefix a bits = record { addr = a; bits = bits }

-- the texts of this session
abbrev texts : Netip
texts = record {
  parse_addr = λ s.
      if str_eq s "203.0.113.7"
      then some (v4 3405803783)
      else if str_eq s "192.0.2.1"
      then some (v4 3221225985)
      else none;
  parse_prefix = λ s.
      if str_eq s "203.0.113.7/32"
      then some (prefix (v4 3405803783) 32)
      else if str_eq s "0.0.0.0/0"
      then some (prefix (v4 0) 0)
      else if str_eq s "0.0.0.0/1"
      then some (prefix (v4 0) 1)
      else if str_eq s "128.0.0.0/1"
      then some (prefix (v4 0x80000000) 1)
      else if str_eq s "::/1"
      then some (prefix (v6 0) 1)
      else if str_eq s "8000::/1"
      then some (prefix (v6 0x80000000000000000000000000000000) 1)
      else none;
}

abbrev print_text : Prefix → String
print_text p =
    if p.addr.v6
    then (if p.addr.value == 0 then "::/1" else "8000::/1")
    else if p.bits == 32
    then "203.0.113.7/32"
    else if p.bits == 0
    then "0.0.0.0/0"
    else if p.addr.value == 0
    then "0.0.0.0/1"
    else "128.0.0.0/1"

-- one way out
abbrev one_way : NetOps ℕ
one_way = record {
  route_get = λ a k. ok ("192.0.2.1", "eth0");
  list_routes = λ v6 k. ok [];
  list_rules = λ k. ok [];
  link_addrs = λ dev k. ok [];
  add = λ e k. (none, k);
  del = λ e k. (none, k);
  journal_routes = λ entries k. k;
}

abbrev both_families : TunRouteConfig
both_families = record {
  iface = "xray-tun";
  addr = "10.0.0.1";
  server_ips = "203.0.113.7" ∷ [];
  addr6 = "fdfe:dcba:9876::1";
}

abbrev wanted : List TunEntry
wanted = elim (want_entries texts one_way true both_families 0) [ ok l ↦ l | _ ↦ [] ]

restore_routes-want_entries_example :
    restore_routes texts (map (entry_record print_text) (map (with_pref 9000) wanted))
    ≡ some (map as_read (map (with_pref 9000) wanted))
unfolding want_entries xray_runner.System.Journal.is_dev_name xray_runner.System.Journal.is_gateway
    xray_runner.System.Entries.prefix_eq
restore_routes-want_entries_example =
    restore_routes-want_entries texts print_text one_way 0 true both_families wanted 9000
      (λ a path h. subst (λ p. is_way texts p ≡ true) (from_ok ("192.0.2.1", "eth0") path h) refl)
      (refl, tt) refl refl refl (refl, (refl, (refl, (refl, (refl, (refl, (refl, tt)))))))
