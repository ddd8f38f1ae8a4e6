-- ===== src/System/Undoing.antt =====
-- What EnableTunRouting (internal/system/route_linux.go) leaves on the host, on every way out.
use xray_runner.Prelude.{
  Bool-cases, ℕ, Bool, false, ◌≡◌, sym, ◌∙◌, Option, none, some, String, List, [], ◌∷◌, ◌++◌, map,
  arith, inl, inr,
}
use xray_runner.Prelude.Outcome.{handle_lem, on_error_lem}
use xray_runner.System.Entries.{Netip, TunEntry}
use xray_runner.System.Teardown.{NetOps, Routing, RouteError, not_added, disable_tun_routing}
use xray_runner.System.Setup.{
  TunRouteConfig, want_entries, check_tun_routing_free, check_tun_routing_owned, undo, with_pref,
  install_all, is_empty, enable_from, enable_tun_routing,
}
use xray_runner.System.Host.{bare, Lawful, Apart, Accounts}
use xray_runner.System.Reversal.{mem-snoc, Distinct-snoc}
use xray_runner.System.Accounting.{disable-Accounts}

Apart-snoc :
    (base : TunEntry → Bool) (e : TunEntry) (xs : List TunEntry)
    → base (bare e) ≡ false
    → Apart base xs
    → Apart base (xs ++ (e ∷ []))
Apart-snoc base e [] q h = (q, tt)
Apart-snoc base e (x ∷ xs) q (p, h) = (p, Apart-snoc base e xs q h)

module _ {K : Type 0} (ip : Netip) (ops : NetOps K) (has : TunEntry → K → Bool)
    (laws : Lawful ip ops has) (base : TunEntry → Bool) where
  abbrev Left : Option RouteError × Routing K → Type 0
  Left r = Accounts has base r.1

  undo-Accounts :
      (why : RouteError) (s : Routing K)
      → Accounts has base s
      → Accounts has base (undo ip ops why s).1
  unfolding undo
  undo-Accounts why s a = disable-Accounts ip ops has laws base s a

  -- an add that went through, after its entry was written down
  pub added-Accounts :
      (e : TunEntry) (written : List TunEntry) (s : Routing K)
      → Accounts has base s
      → (ops.add e (ops.journal_routes written s.host)).0 ≡ none
      → Accounts has base (record {
        host = (ops.add e (ops.journal_routes written s.host)).1;
        installed = s.installed ++ (e ∷ []);
      })
  added-Accounts e written s a h =
      let k = ops.journal_routes written s.host in
      let new = sym (laws.journal_keeps written (bare e) s.host) ∙ (laws.add_done e e k h).1 in
      let there =
        sym (a.adds_up (bare e))
        ∙ sym (laws.journal_keeps written (bare e) s.host)
        ∙ (laws.add_done e e k h).1 in
      record {
        adds_up = λ m.
            (laws.add_done e m k h).0
            ∙ ground
                (arith, laws.journal_keeps written m s.host, a.adds_up m, mem-snoc m e s.installed);
        apart = Apart-snoc base e s.installed (ground (arith, there)) a.apart;
        distinct = Distinct-snoc e s.installed (ground (arith, there)) a.distinct;
      }

  pub not_added-Accounts :
      (e : TunEntry) (written : List TunEntry) (s : Routing K) (why : ℕ)
      → Accounts has base s
      → (ops.add e (ops.journal_routes written s.host)).0 ≡ some why
      → Accounts has base (record {
        host = (ops.add e (ops.journal_routes written s.host)).1;
        installed = s.installed;
      })
  not_added-Accounts e written s why a h = record {
    adds_up = λ m.
        laws.add_failed e m (ops.journal_routes written s.host) why h
        ∙ laws.journal_keeps written m s.host
        ∙ a.adds_up m;
    apart = a.apart;
    distinct = a.distinct;
  }

  install_all-Accounts :
      (want : List TunEntry) (s : Routing K)
      → Accounts has base s
      → Accounts has base (install_all ip ops want s).1
  unfolding install_all
  install_all-Accounts [] s a =
      on_error_lem Left (check_tun_routing_owned ip ops s) (λ why. undo ip ops why s) (none, s)
        (λ why q. undo-Accounts why s a) (λ q. a)
  install_all-Accounts (e ∷ want) s a =
      let written = s.installed ++ (e ∷ []) in
      let (err, k) = ops.add e (ops.journal_routes written s.host) in
      on_error_lem Left err
        (λ why. undo ip ops (not_added e.what why) (record { host = k; installed = s.installed }))
        (install_all ip ops want (record { host = k; installed = written }))
        (λ why q.
          undo-Accounts (not_added e.what why) (record { host = k; installed = s.installed })
            (not_added-Accounts e written s why a q))
        (λ q.
          install_all-Accounts want (record { host = k; installed = written })
            (added-Accounts e written s a q))

  enable_from-Accounts :
      (parse_uint : String → Option ℕ) (ipv6_stack : Bool) (cfg : TunRouteConfig) (s : Routing K)
      → Accounts has base s
      → Accounts has base (enable_from ip ops parse_uint ipv6_stack cfg s).1
  unfolding enable_from
  enable_from-Accounts parse_uint ipv6_stack cfg s a =
      handle_lem Left (want_entries ip ops ipv6_stack cfg s.host) _ _ (λ why q. a)
        (λ want q.
          handle_lem Left (check_tun_routing_free ip ops parse_uint cfg want s.host) _ _
            (λ why r. a) (λ pref r. install_all-Accounts (map (with_pref pref) want) s a))

  -- On a host that keeps its promises and that no other program changes meanwhile: if what is on it
  -- is what it had at first and, apart from that and each once, the entries in `installed`, then
  -- the same holds after EnableTunRouting, whatever it returns and whatever of its calls, or of the
  -- calls of the teardown that takes a failure back, fails.
  pub enable-Accounts :
      (parse_uint : String → Option ℕ) (ipv6_stack : Bool) (cfg : TunRouteConfig) (s : Routing K)
      → Accounts has base s
      → Accounts has base (enable_tun_routing ip ops parse_uint ipv6_stack cfg s).1
  unfolding enable_tun_routing
  enable-Accounts parse_uint ipv6_stack cfg s a = elim (Bool-cases (is_empty cfg.server_ips)) [
    | inl q ↦ rw q a
    | inr q ↦ rw q (
        let (err, t) = disable_tun_routing ip ops s in
        let b = disable-Accounts ip ops has laws base s a in
        on_error_lem Left err (λ why. (some why, t))
          (enable_from ip ops parse_uint ipv6_stack cfg t) (λ why r. b)
          (λ r. enable_from-Accounts parse_uint ipv6_stack cfg t b))
  ]
