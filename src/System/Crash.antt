-- ===== src/System/Crash.antt =====
-- The journal covers the host when a process is killed anywhere in EnableTunRouting or
-- DisableTunRouting (internal/system/route_linux.go).
use xray_runner.Prelude.{
  implies, implies_of, String, ℕ, zero, suc, Bool, true, ◌||◌, ◌≡◌, refl, sym, ◌∙◌, Option, none,
  some, List, [], ◌∷◌, ◌++◌, map, reverse, arith, Option-cases, Bool-cases, inl, inr,
}
use xray_runner.Prelude.Outcome.{Outcome, fail, ok, handle_lem, on_error_lem}
use xray_runner.System.Entries.{Netip, TunEntry}
use xray_runner.System.Teardown.{
  NetOps, Routing, RouteError, not_added, Listing, read_listing, remove_all, take_down, disable_on,
  disable_tun_routing,
}
use xray_runner.System.Setup.{
  TunRouteConfig, want_entries, check_tun_routing_free, check_tun_routing_owned, undo, with_pref,
  install_all, is_empty, enable_from, enable_tun_routing,
}
use xray_runner.System.Host.{entry_eq, entry_eq_iff, bare, Lawful, mem, Accounts}
use xray_runner.System.Reversal.{mem-snoc}
use xray_runner.System.Accounting.{take_down-Accounts}
use xray_runner.System.Undoing.{added-Accounts, not_added-Accounts}
use xray_runner.System.Mortal.{
  mortal, Journaling, IsCovered, alive, remove_all-Covers, remove_all-Survive,
}

abbrev at_host : {K : Type 0} → Routing (K × ℕ) → Routing K
at_host s = record { host = s.host.0; installed = s.installed }

-- the journal covers the host, and while the process lives its entries account for it
pub record Safe {K : Type 0} (has : TunEntry → K → Bool) (journal : K → List TunEntry)
    (base : TunEntry → Bool) (s : Routing (K × ℕ)) : Type 0 where
  pub covered : IsCovered has journal base s.host.0
  pub accounts : alive s.host.1 ≡ true → Accounts has base (at_host s)

module _ {K : Type 0} (ip : Netip) (ops : NetOps K) (has : TunEntry → K → Bool)
    (journal : K → List TunEntry) (laws : Lawful ip ops has) (writing : Journaling ops journal)
    (base : TunEntry → Bool) where
  IsCovered-written :
      (s : Routing K)
      → Accounts has base s
      → journal s.host ≡ s.installed
      → IsCovered has journal base s.host
  IsCovered-written s a j m h = rw j (sym (a.adds_up m) ∙ h)

  written-Safe :
      (entries : List TunEntry) (k : K × ℕ)
      → IsCovered has journal base k.0
      → (alive k.1 ≡ true
          → Accounts has base
              (record { host = ops.journal_routes entries k.0; installed = entries }))
      → Safe has journal base
          (record { host = (mortal ops).journal_routes entries k; installed = entries })
  written-Safe entries (k, zero) c a = record { covered = c; accounts = λ h. absurd (cc) }
  written-Safe entries (k, suc n) c a = record {
    covered =
        IsCovered-written (record { host = ops.journal_routes entries k; installed = entries })
          (a refl) (writing.writes entries k);
    accounts = λ h. a refl;
  }

  take_down-Safe :
      (s : Routing (K × ℕ)) (l : Listing)
      → Safe has journal base s
      → read_listing ops s.installed s.host.0 ≡ ok l
      → Safe has journal base (take_down ip (mortal ops) s (ok l)).1
  unfolding take_down
  take_down-Safe s l a h =
      let order = reverse s.installed in
      let k = (remove_all ip (mortal ops) l order s.host).2 in
      let kept = (remove_all ip (mortal ops) l order s.host).1 in
      written-Safe (reverse kept) k
        (remove_all-Covers ip ops has journal laws writing base l order s.host a.covered)
        (λ lives.
          let (before, same, host) = remove_all-Survive ip ops l order s.host lives in
          rw (same, host)
            (take_down-Accounts ip ops has laws base (at_host s) l (a.accounts before) h))

  take_down_any-Safe :
      (s : Routing (K × ℕ)) (l : Outcome ℕ Listing)
      → Safe has journal base s
      → read_listing ops s.installed s.host.0 ≡ l
      → Safe has journal base (take_down ip (mortal ops) s l).1
  unfolding take_down
  take_down_any-Safe s (fail why) a h = a
  take_down_any-Safe s (ok l) a h = take_down-Safe s l a h

  disable_on-Safe :
      (s : Routing (K × ℕ)) (entries : List TunEntry)
      → Safe has journal base s
      → Safe has journal base (disable_on ip (mortal ops) s entries).1
  unfolding disable_on read_listing
  disable_on-Safe s [] a = a
  disable_on-Safe s (_ ∷ _) a = take_down_any-Safe s (read_listing ops s.installed s.host.0) a refl

  pub disable-Safe :
      (s : Routing (K × ℕ))
      → Safe has journal base s
      → Safe has journal base (disable_tun_routing ip (mortal ops) s).1
  unfolding disable_tun_routing
  disable-Safe s a = disable_on-Safe s s.installed a

  -- the entry that is about to be added is written down with the others
  pending :
      (e : TunEntry) (s : Routing K)
      → Accounts has base s
      → IsCovered has journal base (ops.journal_routes (s.installed ++ (e ∷ [])) s.host)
  pending e s a m h =
      let written = s.installed ++ (e ∷ []) in
      rw (writing.writes written s.host, mem-snoc m e s.installed)
        (ground (arith, laws.journal_keeps written m s.host, a.adds_up m))

  add-IsCovered :
      (e : TunEntry) (k : K)
      → IsCovered has journal base k
      → mem (bare e) (journal k) ≡ true
      → IsCovered has journal base (ops.add e k).1
  add-IsCovered e k c w m h = rw (writing.add_keeps e k) (elim (Option-cases (ops.add e k).0) [
    | inr (why, q) ↦ c m (sym (laws.add_failed e m k why q) ∙ h)
    | inl q ↦ elim (Bool-cases (entry_eq m (bare e))) [
      | inl t ↦ rw ((entry_eq_iff m (bare e)).0 t, w) refl
      | inr t ↦ c m (ground (arith, laws.add_done e m k q))
    ]
  ])

  IsCovered-added :
      (e : TunEntry) (s : Routing K)
      → Accounts has base s
      → IsCovered has journal base
          (ops.add e (ops.journal_routes (s.installed ++ (e ∷ [])) s.host)).1
  IsCovered-added e s a =
      let written = s.installed ++ (e ∷ []) in
      add-IsCovered e (ops.journal_routes written s.host) (pending e s a) (
        rw
          (
            writing.writes written s.host,
            mem-snoc (bare e) e s.installed,
            (entry_eq_iff (bare e) (bare e)).1 refl,
          )
          refl)

  add_done-Safe :
      (e : TunEntry) (installed : List TunEntry) (k : K × ℕ)
      → Safe has journal base (record { host = k; installed = installed })
      → ((mortal ops).add e ((mortal ops).journal_routes (installed ++ (e ∷ [])) k)).0 ≡ none
      → Safe has journal base (record {
        host = ((mortal ops).add e ((mortal ops).journal_routes (installed ++ (e ∷ [])) k)).1;
        installed = installed ++ (e ∷ []);
      })
  add_done-Safe e installed (k, zero) a h = record {
    covered = a.covered;
    accounts = λ l. absurd (cc);
  }
  add_done-Safe e installed (k, suc zero) a h = record {
    covered = pending e (record { host = k; installed = installed }) (a.accounts refl);
    accounts = λ l. absurd (cc);
  }
  add_done-Safe e installed (k, suc (suc n)) a h =
      let s : Routing K = record { host = k; installed = installed } in
      record {
        covered = IsCovered-added e s (a.accounts refl);
        accounts = λ l.
            added-Accounts ip ops has laws base e (installed ++ (e ∷ [])) s (a.accounts refl) h;
      }

  add_failed-Safe :
      (e : TunEntry) (installed : List TunEntry) (k : K × ℕ) (why : ℕ)
      → Safe has journal base (record { host = k; installed = installed })
      → ((mortal ops).add e ((mortal ops).journal_routes (installed ++ (e ∷ [])) k)).0 ≡ some why
      → Safe has journal base (record {
        host = ((mortal ops).add e ((mortal ops).journal_routes (installed ++ (e ∷ [])) k)).1;
        installed = installed;
      })
  add_failed-Safe e installed (k, zero) why a h = absurd (cc)
  add_failed-Safe e installed (k, suc zero) why a h = absurd (cc)
  add_failed-Safe e installed (k, suc (suc n)) why a h =
      let s : Routing K = record { host = k; installed = installed } in
      record {
        covered = IsCovered-added e s (a.accounts refl);
        accounts = λ l.
            not_added-Accounts ip ops has laws base e (installed ++ (e ∷ [])) s why
              (a.accounts refl) h;
      }

  abbrev IsSafe : Option RouteError × Routing (K × ℕ) → Type 0
  IsSafe r = Safe has journal base r.1

  undo-Safe :
      (why : RouteError) (s : Routing (K × ℕ))
      → Safe has journal base s
      → IsSafe (undo ip (mortal ops) why s)
  unfolding undo
  undo-Safe why s a = disable-Safe s a

  install_all-Safe :
      (want : List TunEntry) (s : Routing (K × ℕ))
      → Safe has journal base s
      → IsSafe (install_all ip (mortal ops) want s)
  unfolding install_all
  install_all-Safe [] s a =
      on_error_lem IsSafe (check_tun_routing_owned ip (mortal ops) s)
        (λ why. undo ip (mortal ops) why s) (none, s) (λ why q. undo-Safe why s a) (λ q. a)
  install_all-Safe (e ∷ want) s a =
      let written = s.installed ++ (e ∷ []) in
      let (err, k) = (mortal ops).add e ((mortal ops).journal_routes written s.host) in
      on_error_lem IsSafe err
        (λ why.
          undo ip (mortal ops) (not_added e.what why)
            (record { host = k; installed = s.installed }))
        (install_all ip (mortal ops) want (record { host = k; installed = written }))
        (λ why q.
          undo-Safe (not_added e.what why) (record { host = k; installed = s.installed })
            (add_failed-Safe e s.installed s.host why a q))
        (λ q.
          install_all-Safe want (record { host = k; installed = written })
            (add_done-Safe e s.installed s.host a q))

  enable_from-Safe :
      (parse_uint : String → Option ℕ) (ipv6_stack : Bool) (cfg : TunRouteConfig)
      (s : Routing (K × ℕ))
      → Safe has journal base s
      → IsSafe (enable_from ip (mortal ops) parse_uint ipv6_stack cfg s)
  unfolding enable_from
  enable_from-Safe parse_uint ipv6_stack cfg s a =
      handle_lem IsSafe (want_entries ip (mortal ops) ipv6_stack cfg s.host) _ _ (λ why q. a)
        (λ want q.
          handle_lem IsSafe (check_tun_routing_free ip (mortal ops) parse_uint cfg want s.host) _ _
            (λ why r. a) (λ pref r. install_all-Safe (map (with_pref pref) want) s a))

  -- the state is safe on every way out, and where the process is killed
  pub enable-Safe :
      (parse_uint : String → Option ℕ) (ipv6_stack : Bool) (cfg : TunRouteConfig)
      (s : Routing (K × ℕ))
      → Safe has journal base s
      → Safe has journal base (enable_tun_routing ip (mortal ops) parse_uint ipv6_stack cfg s).1
  unfolding enable_tun_routing
  enable-Safe parse_uint ipv6_stack cfg s a = elim (Bool-cases (is_empty cfg.server_ips)) [
    | inl q ↦ rw q a
    | inr q ↦ rw q (
        let (err, t) = disable_tun_routing ip (mortal ops) s in
        let b = disable-Safe s a in
        on_error_lem IsSafe err (λ why. (some why, t))
          (enable_from ip (mortal ops) parse_uint ipv6_stack cfg t) (λ why r. b)
          (λ r. enable_from-Safe parse_uint ipv6_stack cfg t b))
  ]

-- the host k when a process that began on it with nothing installed is killed after n changes
abbrev pub killed_in_enable :
    {K : Type 0} → Netip → NetOps K → (String → Option ℕ) → Bool → TunRouteConfig → K → ℕ → K
killed_in_enable ip ops parse_uint ipv6_stack cfg k n =
    (enable_tun_routing ip (mortal ops) parse_uint ipv6_stack cfg
      (record { host = (k, n); installed = [] })).1.host.0

-- On a host that keeps its promises, that no other program changes meanwhile, and whose writes of
-- the journal do not fail: when a process with nothing installed is killed after any number of its
-- changes in EnableTunRouting, or never, then every entry that is on the host, and was not there
-- at first, is in the journal.
pub journal-covers :
    {K : Type 0} (ip : Netip) (ops : NetOps K) (has : TunEntry → K → Bool)
    (journal : K → List TunEntry) (parse_uint : String → Option ℕ) (ipv6_stack : Bool)
    (cfg : TunRouteConfig) (k : K) (n : ℕ) (m : TunEntry)
    → Lawful ip ops has
    → Journaling ops journal
    → implies
        (has m (killed_in_enable ip ops parse_uint ipv6_stack cfg k n))
        (mem m (journal (killed_in_enable ip ops parse_uint ipv6_stack cfg k n)) || has m k)
      ≡ true
journal-covers ip ops has journal parse_uint ipv6_stack cfg k n m laws writing =
    let base : TunEntry → Bool = λ x. has x k in
    let first : Safe has journal base (record { host = (k, n); installed = [] }) = record {
      covered = λ x y. ground (arith, y);
      accounts = λ a. record { adds_up = λ x. refl; apart = tt; distinct = tt };
    } in
    let safe =
      enable-Safe ip ops has journal laws writing base parse_uint ipv6_stack cfg
        (record { host = (k, n); installed = [] }) first in
    let k2 = killed_in_enable ip ops parse_uint ipv6_stack cfg k n in
    implies_of (has m k2) (mem m (journal k2) || has m k) (safe.covered m)
