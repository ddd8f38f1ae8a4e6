-- ===== src/System/Failures.antt =====
-- What a failed EnableTunRouting (internal/system/route_linux.go) leaves, and what one that
-- succeeds has made.
use xray_runner.Prelude.{
  ◌≢◌, subst, append_nil, append_assoc, ℕ, Bool, true, false, ◌≡◌, refl, sym, ap, Option, none,
  some, String, List, [], ◌∷◌, ◌++◌, map, arith, Bool-cases, inl, inr,
}
use xray_runner.Prelude.Outcome.{handle_lem, on_error_lem}
use xray_runner.System.Entries.{Netip, TunEntry}
use xray_runner.System.Teardown.{
  NetOps, Routing, RouteError, not_added, not_undone, disable_on, disable_tun_routing,
}
use xray_runner.System.Setup.{
  TunRouteConfig, want_entries, check_tun_routing_free, check_tun_routing_owned, undo, with_pref,
  install_all, is_empty, enable_from, enable_tun_routing,
}
use xray_runner.System.Host.{Lawful, Accounts}
use xray_runner.System.Accounting.{disable-settled}
use xray_runner.System.Undoing.{enable-Accounts}

-- the teardown behind the failure, if there was one, went through
unfoldable pub is_undone : RouteError → Bool
is_undone (not_undone _ _) = false
is_undone _ = true

abbrev Emptied : {K : Type 0} → Option RouteError × Routing K → Type 0
Emptied r = (why : RouteError) → r.0 ≡ some why → is_undone why ≡ true → r.1.installed ≡ []

module _ {K : Type 0} (ip : Netip) (ops : NetOps K) where
  undo_err :
      (why : RouteError) (err : Option RouteError) (t : Routing K)
      → (err ≡ none → t.installed ≡ [])
      → Emptied (some (elim err [ none ↦ why | some more ↦ not_undone why more ]), t)
  unfolding is_undone
  undo_err why none t h w q u = h refl
  undo_err why (some more) t h w q u = absurd (ground arith)

  undo-Emptied : (why : RouteError) (s : Routing K) → Emptied (undo ip ops why s)
  unfolding undo
  undo-Emptied why s =
      undo_err why (disable_tun_routing ip ops s).0 (disable_tun_routing ip ops s).1
        (disable-settled ip ops s)

  install_all-Emptied : (want : List TunEntry) (s : Routing K) → Emptied (install_all ip ops want s)
  unfolding install_all
  install_all-Emptied [] s =
      on_error_lem (Emptied {K = K}) (check_tun_routing_owned ip ops s) (λ why. undo ip ops why s)
        (none, s) (λ why q. undo-Emptied why s) (λ q why h. absurd (cc))
  install_all-Emptied (e ∷ want) s =
      let written = s.installed ++ (e ∷ []) in
      let (err, k) = ops.add e (ops.journal_routes written s.host) in
      on_error_lem (Emptied {K = K}) err
        (λ why. undo ip ops (not_added e.what why) (record { host = k; installed = s.installed }))
        (install_all ip ops want (record { host = k; installed = written }))
        (λ why q.
          undo-Emptied (not_added e.what why) (record { host = k; installed = s.installed }))
        (λ q. install_all-Emptied want (record { host = k; installed = written }))

  enable_from-Emptied :
      (parse_uint : String → Option ℕ) (ipv6_stack : Bool) (cfg : TunRouteConfig) (s : Routing K)
      → s.installed ≡ []
      → Emptied (enable_from ip ops parse_uint ipv6_stack cfg s)
  unfolding enable_from
  enable_from-Emptied parse_uint ipv6_stack cfg s z =
      handle_lem (Emptied {K = K}) (want_entries ip ops ipv6_stack cfg s.host) _ _
        (λ why q w r u. z)
        (λ want q.
          handle_lem (Emptied {K = K}) (check_tun_routing_free ip ops parse_uint cfg want s.host) _
            _ (λ why r w t u. z) (λ pref r. install_all-Emptied (map (with_pref pref) want) s))

  disable_on-empty :
      (s : Routing K) (entries : List TunEntry)
      → entries ≡ []
      → disable_on ip ops s entries ≡ (none, s)
  unfolding disable_on
  disable_on-empty s [] q = refl
  disable_on-empty s (_ ∷ _) q = absurd (cc)

  disable-empty : (s : Routing K) → s.installed ≡ [] → disable_tun_routing ip ops s ≡ (none, s)
  unfolding disable_tun_routing
  disable-empty s q = disable_on-empty s s.installed q

  pub enable-Emptied :
      (parse_uint : String → Option ℕ) (ipv6_stack : Bool) (cfg : TunRouteConfig) (s : Routing K)
      → s.installed ≡ []
      → Emptied (enable_tun_routing ip ops parse_uint ipv6_stack cfg s)
  unfolding enable_tun_routing
  enable-Emptied parse_uint ipv6_stack cfg s z = elim (Bool-cases (is_empty cfg.server_ips)) [
    | inl q ↦ rw q (λ w r u. z)
    | inr q ↦ rw q (
        let (err, t) = disable_tun_routing ip ops s in
        on_error_lem (Emptied {K = K}) err (λ why. (some why, t))
          (enable_from ip ops parse_uint ipv6_stack cfg t)
          (λ why r. absurd (cc (r, ap (λ x. x.0) (disable-empty s z))))
          (λ r. enable_from-Emptied parse_uint ipv6_stack cfg t (disable-settled ip ops s r)))
  ]

-- On a host that keeps its promises and that no other program changes meanwhile, with nothing
-- installed by this process: if EnableTunRouting returns an error that does not say that its
-- teardown failed too, then nothing is installed, and the host has exactly the entries that it
-- had before, whatever of its calls failed.
pub enable_failure_restores :
    {K : Type 0} (ip : Netip) (ops : NetOps K) (has : TunEntry → K → Bool)
    (parse_uint : String → Option ℕ) (ipv6_stack : Bool) (cfg : TunRouteConfig) (s : Routing K)
    (why : RouteError)
    → Lawful ip ops has
    → s.installed ≡ []
    → (enable_tun_routing ip ops parse_uint ipv6_stack cfg s).0 ≡ some why
    → is_undone why ≡ true
    → ((enable_tun_routing ip ops parse_uint ipv6_stack cfg s).1.installed ≡ [])
      × ((m : TunEntry)
          → has m (enable_tun_routing ip ops parse_uint ipv6_stack cfg s).1.host ≡ has m s.host)
enable_failure_restores ip ops has parse_uint ipv6_stack cfg s why laws z h u =
    let left = enable_tun_routing ip ops parse_uint ipv6_stack cfg s in
    let first : Accounts has (λ m. has m s.host) s = record {
      adds_up = λ m. rw z refl;
      apart = rw z tt;
      distinct = rw z tt;
    } in
    let a = enable-Accounts ip ops has laws (λ m. has m s.host) parse_uint ipv6_stack cfg s first in
    let none_left = enable-Emptied ip ops parse_uint ipv6_stack cfg s z why h u in
    (none_left, λ m. rw none_left at (a.adds_up m))

-- without an error, all entries that were wanted are installed, and the last check passed
abbrev pub Completed :
    {K : Type 0} → Netip → NetOps K → List TunEntry → Option RouteError × Routing K → Type 0
Completed ip ops entries r =
    r.0 ≡ none → (r.1.installed ≡ entries) × (check_tun_routing_owned ip ops r.1 ≡ none)

module _ {K : Type 0} (ip : Netip) (ops : NetOps K) where
  undo_fails : (why : RouteError) (s : Routing K) → (undo ip ops why s).0 ≢ none
  unfolding undo
  undo_fails why s h = absurd (cc)

  pub install_all-Completed :
      (want : List TunEntry) (s : Routing K)
      → Completed ip ops (s.installed ++ want) (install_all ip ops want s)
  unfolding install_all
  install_all-Completed [] s =
      on_error_lem (Completed ip ops (s.installed ++ [])) (check_tun_routing_owned ip ops s)
        (λ why. undo ip ops why s) (none, s) (λ why q h. absurd (undo_fails why s h))
        (λ q h. (sym (append_nil s.installed), q))
  install_all-Completed (e ∷ want) s =
      let written = s.installed ++ (e ∷ []) in
      let (err, k) = ops.add e (ops.journal_routes written s.host) in
      on_error_lem (Completed ip ops (s.installed ++ (e ∷ want))) err
        (λ why. undo ip ops (not_added e.what why) (record { host = k; installed = s.installed }))
        (install_all ip ops want (record { host = k; installed = written }))
        (λ why q h.
          absurd
            (undo_fails (not_added e.what why) (record { host = k; installed = s.installed }) h))
        (λ q.
          subst
            (λ xs.
              Completed ip ops xs
                (install_all ip ops want (record { host = k; installed = written })))
            (append_assoc s.installed (e ∷ []) want)
            (install_all-Completed want (record { host = k; installed = written })))
