-- ===== src/System/Readable.antt =====
-- What EnableTunRouting writes into the journal of internal/system, the next run reads.
use xray_runner.Prelude.{
  ℕ, Bool, true, false, not, ◌&&◌, ◌||◌, ◌≡◌, refl, subst, none, some, String, List, [], ◌∷◌, ◌++◌,
  map, str_eq, ltb, codes, if◌then◌else◌, inl, inr, All, All-append, arith, Bool-cases,
  Option-cases,
}
use xray_runner.Prelude.Outcome.{ok, Outcome-cases, from_ok}
use xray_runner.System.Entries.{Addr, Prefix, Netip, TunEntry, route_dst}
use xray_runner.System.Teardown.{NetOps}
use xray_runner.System.Setup.{
  TunRouteConfig, mark_probe, split_default, block_default6, server_entry, direct_entry, half_entry,
  rule_entry, block_entry, server_entries, want_entries,
}
use xray_runner.System.Setup.{with_pref}
use xray_runner.System.Journal.{
  entry_record, is_ours, is_gateway, is_dev_name, is_int, is_masked, restore_routes,
}
use xray_runner.System.Restored.{as_read, parses_as, is_readable, restore_routes-map}

-- a way that the kernel may give: an IPv4 gateway or none, and a device
abbrev pub is_way : Netip → String × String → Bool
is_way ip path = is_gateway ip path.0 false && is_dev_name (codes path.1)

-- an IPv4 address
abbrev pub is_v4_address : Netip → String → Bool
is_v4_address ip s =
    not (str_eq s "default") && elim (ip.parse_addr s) [ none ↦ false | some a ↦ not a.v6 ]

-- the checks of the reader on an entry that is written
abbrev passes : Netip → (Prefix → String) → TunEntry → Bool
passes ip print e = e.is_rule || is_ours ip e.prefix (entry_record print e)

module _ (ip : Netip) (print : Prefix → String) where
  server_passes :
      (a : Addr) (path : String × String)
      → a.v6 ≡ false
      → is_way ip path ≡ true
      → passes ip print
          (server_entry (record { addr = a; bits = if a.v6 then 128 else 32 }) path.0 path.1)
        ≡ true
  unfolding entry_record is_ours is_gateway is_masked
  server_passes a path v w = ground (arith, v, w)

  direct_passes :
      (path : String × String)
      → is_way ip path ≡ true
      → passes ip print (direct_entry path.0 path.1) ≡ true
  unfolding entry_record is_ours is_gateway is_masked is_int
  direct_passes path w = ground (arith, w)

  halves_pass :
      (iface : String)
      → is_dev_name (codes iface) ≡ true
      → All (λ e. passes ip print e ≡ true) (map (half_entry iface) split_default)
  unfolding entry_record is_ours is_gateway is_masked
  halves_pass iface d = (ground (arith, d), (ground (arith, d), tt))

  blocks_pass : All (λ e. passes ip print e ≡ true) (map block_entry block_default6)
  unfolding entry_record is_ours is_gateway is_masked is_dev_name
  blocks_pass = (refl, (refl, tt))

  module _ {K : Type 0} (ops : NetOps K) (k : K)
      (ways : (a : Addr) (path : String × String)
        → ops.route_get a k ≡ ok path
        → is_way ip path ≡ true) where
    servers_pass :
        (servers : List String) (entries : List TunEntry)
        → All (λ s. is_v4_address ip s ≡ true) servers
        → server_entries ip ops k servers ≡ ok entries
        → All (λ e. passes ip print e ≡ true) entries
    unfolding server_entries route_dst
    servers_pass [] entries v h =
        subst (All (λ e. passes ip print e ≡ true)) (from_ok [] entries h) tt
    servers_pass (s ∷ servers) entries (v, vs) h = elim (Option-cases (ip.parse_addr s)) [
      | inl q ↦ absurd (ground (arith, rw q at v))
      | inr (a, q) ↦
          let not_default : str_eq s "default" ≡ false = ground (arith, v) in
          let v4 : a.v6 ≡ false = ground (arith, rw q at v) in
          let p : Prefix = record { addr = a; bits = if a.v6 then 128 else 32 } in
          elim (Outcome-cases (ops.route_get a k)) [
            | inl (why, g) ↦ absurd (cc (rw (server_entries, route_dst, not_default, q, g) at h))
            | inr (path, g) ↦ elim (Outcome-cases (server_entries ip ops k servers)) [
              | inl (why, t) ↦
                  absurd (cc (rw (server_entries, route_dst, not_default, q, g, t) at h))
              | inr (more, t) ↦
                  subst (All (λ e. passes ip print e ≡ true))
                    (from_ok (server_entry p path.0 path.1 ∷ more) entries
                      (rw (server_entries, route_dst, not_default, q, g, t) at h))
                    (server_passes a path v4 (ways a path g), servers_pass servers more vs t)
            ]
          ]
    ]

    blocks_if :
        (b : Bool)
        → All (λ e. passes ip print e ≡ true) (if b then map block_entry block_default6 else [])
    blocks_if true = blocks_pass
    blocks_if false = tt

    want_passes :
        (ipv6_stack : Bool) (cfg : TunRouteConfig) (want : List TunEntry)
        → All (λ s. is_v4_address ip s ≡ true) cfg.server_ips
        → is_dev_name (codes cfg.iface) ≡ true
        → want_entries ip ops ipv6_stack cfg k ≡ ok want
        → All (λ e. passes ip print e ≡ true) want
    unfolding want_entries
    want_passes ipv6_stack cfg want vs d h =
        elim (Outcome-cases (server_entries ip ops k cfg.server_ips)) [
          | inl (why, q) ↦ absurd (cc (rw (want_entries, q) at h))
          | inr (servers, q) ↦ elim (Outcome-cases (ops.route_get mark_probe k)) [
            | inl (why, g) ↦ absurd (cc (rw (want_entries, q, g) at h))
            | inr (path, g) ↦
                let P = λ (e : TunEntry). passes ip print e ≡ true in
                let blocks =
                  if not (str_eq cfg.addr6 "") && ipv6_stack
                  then map block_entry block_default6
                  else [] in
                let halves = map (half_entry cfg.iface) split_default in
                let middle = direct_entry path.0 path.1 ∷ rule_entry ∷ [] in
                subst (All P)
                  (from_ok (servers ++ middle ++ blocks ++ halves) want
                    (rw (want_entries, q, g) at h))
                  (All-append P (servers ++ middle ++ blocks) halves
                    (All-append P (servers ++ middle) blocks
                      (All-append P servers middle (servers_pass cfg.server_ips servers vs q)
                        (direct_passes path (ways mark_probe path g), (refl, tt)))
                      (blocks_if (not (str_eq cfg.addr6 "") && ipv6_stack)))
                    (halves_pass cfg.iface d))
          ]
        ]

  with_pref-is_readable :
      (pref : ℕ) (e : TunEntry)
      → ltb 0 pref ≡ true
      → passes ip print e ≡ true
      → parses_as (ip.parse_prefix (print e.prefix)) e.prefix ≡ true
      → is_readable ip print (with_pref pref e) ≡ true
  with_pref-is_readable pref e l p r = elim (Bool-cases e.is_rule) [
    | inl q ↦ rw q l
    | inr q ↦ ground (arith, q, p, r)
  ]

  each_readable :
      (pref : ℕ) (want : List TunEntry)
      → ltb 0 pref ≡ true
      → All (λ e. passes ip print e ≡ true) want
      → All (λ e. parses_as (ip.parse_prefix (print e.prefix)) e.prefix ≡ true) want
      → All (λ e. is_readable ip print e ≡ true) (map (with_pref pref) want)
  each_readable pref [] l h r = tt
  each_readable pref (e ∷ want) l (p, h) (s, r) =
      (with_pref-is_readable pref e l p s, each_readable pref want l h r)

  -- Where the servers are IPv4 addresses, the kernel gives IPv4 gateways and device names that are
  -- ones, so is the interface's, and net/netip reads each prefix back as it printed it: what
  -- restoreRoutes makes of the records of the entries that EnableTunRouting decides on, with the
  -- priority of at least 1 that the rule got, are these entries, in their order, as the host has them.
  pub restore_routes-want_entries :
      {K : Type 0} (ops : NetOps K) (k : K) (ipv6_stack : Bool) (cfg : TunRouteConfig)
      (want : List TunEntry) (pref : ℕ)
      → ((a : Addr) (path : String × String) → ops.route_get a k ≡ ok path → is_way ip path ≡ true)
      → All (λ s. is_v4_address ip s ≡ true) cfg.server_ips
      → is_dev_name (codes cfg.iface) ≡ true
      → ltb 0 pref ≡ true
      → want_entries ip ops ipv6_stack cfg k ≡ ok want
      → All (λ e. parses_as (ip.parse_prefix (print e.prefix)) e.prefix ≡ true) want
      → restore_routes ip (map (entry_record print) (map (with_pref pref) want))
        ≡ some (map as_read (map (with_pref pref) want))
  restore_routes-want_entries ops k ipv6_stack cfg want pref ways vs d l h r =
      restore_routes-map ip print (map (with_pref pref) want)
        (each_readable pref want l (want_passes ops k ways ipv6_stack cfg want vs d h) r)
