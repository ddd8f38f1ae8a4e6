-- ===== src/System/Ready.antt =====
-- What is on the host once EnableTunRouting (internal/system/route_linux.go) has succeeded.
use xray_runner.Prelude.{
  ℕ, Bool, true, false, ◌≡◌, refl, ◌∙◌, ap, ◌⊎◌, Option, none, some, String, List, [], ◌∷◌, ◌++◌,
  map, All, any, arith, Bool-cases, inl, inr,
}
use xray_runner.Prelude.Outcome.{Outcome, fail, ok, handle_lem, on_error_lem, Outcome-cases}
use xray_runner.System.Entries.{EntryError, Netip, Prefix, TunEntry, IpRoute, owns_prefix}
use xray_runner.System.Teardown.{
  NetOps, Routing, RouteError, Listing, routes_of, is_v6, read_routes6, disable_tun_routing,
}
use xray_runner.System.Setup.{
  TunRouteConfig, want_entries, check_tun_routing_free, check_tun_routing_owned, lost_prefixes,
  and_lost, with_pref, install_all, is_empty, enable_from, enable_tun_routing,
}
use xray_runner.System.Accounting.{disable-settled}
use xray_runner.System.Failures.{install_all-Completed}

-- a route that is listed, and alone on its prefix
abbrev pub IsAlone : {K : Type 0} → Netip → NetOps K → K → TunEntry → Type 0
IsAlone ip ops k e =
    (e.is_rule ≡ true)
    ⊎ ((routes : List IpRoute) × (ops.list_routes e.v6 k ≡ ok routes)
        × (owns_prefix ip e routes ≡ ok (true, false)))

abbrev OwnsIt : Netip → Listing → TunEntry → Type 0
OwnsIt ip l e = (e.is_rule ≡ true) ⊎ (owns_prefix ip e (routes_of l e) ≡ ok (true, false))

and_lost-none :
    (found : Outcome EntryError (Bool × Bool)) (p : Prefix)
    (rest : Outcome RouteError (List Prefix))
    → and_lost found p rest ≡ ok []
    → (found ≡ ok (true, false)) × (rest ≡ ok [])
and_lost-none (fail why) p rest h = absurd (cc)
and_lost-none (ok (true, false)) p rest h = (refl, h)
and_lost-none (ok (false, false)) p (fail why) h = absurd (cc)
and_lost-none (ok (false, false)) p (ok more) h = absurd (ground arith)
and_lost-none (ok (mine, true)) p (fail why) h = absurd (cc)
and_lost-none (ok (mine, true)) p (ok more) h = absurd (ground arith)

lost_none :
    (ip : Netip) (l : Listing) (entries : List TunEntry)
    → lost_prefixes ip l entries ≡ ok []
    → All (OwnsIt ip l) entries
unfolding lost_prefixes owns_prefix
lost_none ip l [] h = tt
lost_none ip l (e ∷ entries) h = elim (Bool-cases e.is_rule) [
  | inl q ↦ (inl q, lost_none ip l entries (rw q at h))
  | inr q ↦
      let (o, rest) =
        and_lost-none (owns_prefix ip e (routes_of l e)) e.prefix (lost_prefixes ip l entries)
          (rw q at h) in
      (inr o, lost_none ip l entries rest)
]

module _ {K : Type 0} (ip : Netip) (ops : NetOps K) where
  IsAlone-listed :
      (entries all_entries : List TunEntry) (l : Listing) (k : K)
      → ops.list_routes false k ≡ ok l.routes4
      → read_routes6 ops all_entries k ≡ ok l.routes6
      → (any is_v6 entries ≡ true → any is_v6 all_entries ≡ true)
      → All (OwnsIt ip l) entries
      → All (IsAlone ip ops k) entries
  unfolding read_routes6
  IsAlone-listed [] all_entries l k q4 q6 v h = tt
  IsAlone-listed (e ∷ entries) all_entries l k q4 q6 v (inl r, h) =
      (inl r, IsAlone-listed entries all_entries l k q4 q6 (λ q. v (ground arith)) h)
  IsAlone-listed (e ∷ entries) all_entries l k q4 q6 v (inr o, h) = (
    inr (
      routes_of l e,
      elim (Bool-cases e.v6) [ inl q ↦ rw q (rw (v (rw q refl)) at q6) | inr q ↦ rw q q4 ],
      o,
    ),
    IsAlone-listed entries all_entries l k q4 q6 (λ q. v (ground arith)) h,
  )

  check_owned_lem :
      (s : Routing K)
      → check_tun_routing_owned ip ops s ≡ none
      → All (IsAlone ip ops s.host) s.installed
  unfolding check_tun_routing_owned
  check_owned_lem s h = elim (Outcome-cases (ops.list_routes false s.host)) [
    | inl (why, q) ↦ absurd (cc (rw q at h))
    | inr (r4, q4) ↦ elim (Outcome-cases (read_routes6 ops s.installed s.host)) [
      | inl (why, q) ↦ absurd (cc (rw (q4, q) at h))
      | inr (r6, q6) ↦
          let l : Listing = record { routes4 = r4; routes6 = r6; rules = [] } in
          elim (Outcome-cases (lost_prefixes ip l s.installed)) [
            | inl (why, q) ↦ absurd (cc (rw (q4, q6, q) at h))
            | inr ([], q) ↦
                IsAlone-listed s.installed s.installed l s.host q4 q6 (λ v. v)
                  (lost_none ip l s.installed q)
            | inr (p ∷ more, q) ↦ absurd (cc (rw (q4, q6, q) at h))
          ]
    ]
  ]

  -- what a run of EnableTunRouting without an error has decided on and done
  abbrev Prepared :
      (String → Option ℕ) → Bool → TunRouteConfig → K → Option RouteError × Routing K → Type 0
  Prepared parse_uint ipv6_stack cfg k r =
      r.0 ≡ none
      → (want : List TunEntry) × (pref : ℕ) × (want_entries ip ops ipv6_stack cfg k ≡ ok want)
        × (check_tun_routing_free ip ops parse_uint cfg want k ≡ ok pref)
        × (r.1.installed ≡ map (with_pref pref) want)
        × All (IsAlone ip ops r.1.host) r.1.installed

  enable_from-Prepared :
      (parse_uint : String → Option ℕ) (ipv6_stack : Bool) (cfg : TunRouteConfig) (s : Routing K)
      → s.installed ≡ []
      → Prepared parse_uint ipv6_stack cfg s.host (enable_from ip ops parse_uint ipv6_stack cfg s)
  unfolding enable_from
  enable_from-Prepared parse_uint ipv6_stack cfg s z =
      handle_lem (Prepared parse_uint ipv6_stack cfg s.host)
        (want_entries ip ops ipv6_stack cfg s.host) _ _ (λ why q h. absurd (cc))
        (λ want q.
          handle_lem (Prepared parse_uint ipv6_stack cfg s.host)
            (check_tun_routing_free ip ops parse_uint cfg want s.host) _ _ (λ why r h. absurd (cc))
            (λ pref r h.
              let (i, o) = install_all-Completed ip ops (map (with_pref pref) want) s h in
              (
                want,
                pref,
                q,
                r,
                i ∙ ap (λ xs. xs ++ map (with_pref pref) want) z,
                check_owned_lem (install_all ip ops (map (with_pref pref) want) s).1 o,
              )))

  -- If EnableTunRouting returns no error, then the entries that it made out from the host, after its
  -- own teardown, passed the preflight there; they are what is installed, in their order, the mark
  -- rule under the priority that the preflight chose; and the last listing showed each of their
  -- routes with no other route on its prefix.
  pub enable-Prepared :
      (parse_uint : String → Option ℕ) (ipv6_stack : Bool) (cfg : TunRouteConfig) (s : Routing K)
      → (enable_tun_routing ip ops parse_uint ipv6_stack cfg s).0 ≡ none
      → (want : List TunEntry) × (pref : ℕ) × (want_entries ip ops ipv6_stack cfg
            (disable_tun_routing ip ops s).1.host
          ≡ ok want)
        × (check_tun_routing_free ip ops parse_uint cfg want (disable_tun_routing ip ops s).1.host
            ≡ ok pref)
        × ((enable_tun_routing ip ops parse_uint ipv6_stack cfg s).1.installed
            ≡ map (with_pref pref) want)
        × All
            (IsAlone ip ops (enable_tun_routing ip ops parse_uint ipv6_stack cfg s).1.host)
            (enable_tun_routing ip ops parse_uint ipv6_stack cfg s).1.installed
  unfolding enable_tun_routing
  enable-Prepared parse_uint ipv6_stack cfg s = elim (Bool-cases (is_empty cfg.server_ips)) [
    | inl q ↦ rw q (λ h. absurd (cc))
    | inr q ↦ rw q (
        let (err, t) = disable_tun_routing ip ops s in
        on_error_lem (Prepared parse_uint ipv6_stack cfg t.host) err (λ why. (some why, t))
          (enable_from ip ops parse_uint ipv6_stack cfg t) (λ why r h. absurd (cc))
          (λ r. enable_from-Prepared parse_uint ipv6_stack cfg t (disable-settled ip ops s r)))
  ]
