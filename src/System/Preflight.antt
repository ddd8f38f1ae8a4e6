-- ===== src/System/Preflight.antt =====
-- What checkTunRoutingFree (internal/system/route_linux.go) has found out when it lets
-- EnableTunRouting go on.
use xray_runner.Prelude.{
  implies, sym, ◌∙◌, ltb, ℕ, ◌≤◌, ◌<◌, Bool, true, false, not, ◌&&◌, ◌||◌, ◌≡◌, refl, ap, Option,
  none, some, String, List, [], ◌∷◌, ◌++◌, All, any, str_eq, if◌then◌else◌, arith, Bool-cases, inl,
  inr,
}
use xray_runner.Prelude.Outcome.{Outcome, fail, ok, handle, split_handle, split_chain, from_ok}
use xray_runner.System.Entries.{
  EntryError, Netip, Prefix, TunEntry, IpRoute, IpRule, direct_table, route_dst,
}
use xray_runner.System.Teardown.{
  NetOps, RouteError, Conflict, on_prefix, bad_entry, on_rule, read_routes6,
}
use xray_runner.System.Setup.{
  TunRouteConfig, owns, route_conflict, route_conflicts, catches_direct_mark, rule_conflicts,
  all_conflicts, free_priority, choose_priority, and_conflict, check_tun_routing_free,
}

-- a readable prefix that is none of the wanted entries'
abbrev pub is_clear : List TunEntry → Outcome EntryError Prefix → Bool
is_clear want (fail _) = false
is_clear want (ok p) = not (owns want p)

-- a route that is in the way of nothing: an IPv4 route is not in the direct table, and one of the
-- main table has such a prefix
abbrev pub is_free : Netip → List TunEntry → Bool → IpRoute → Bool
is_free ip want v6 r =
    implies (not v6) (not (str_eq r.table direct_table))
    && implies (str_eq r.table "") (is_clear want (route_dst ip r.dst v6))

abbrev pub IsFree : Netip → List TunEntry → Bool → IpRoute → Type 0
IsFree ip want v6 r = is_free ip want v6 r ≡ true

-- a rule that neither takes marked traffic nor leads into the direct table
abbrev pub IsAside : (String → Option ℕ) → IpRule → Type 0
IsAside parse_uint r =
    (catches_direct_mark parse_uint r ≡ ok false) × (str_eq r.table direct_table ≡ false)

and_conflict-none :
    (c : Option Conflict) (more : List Conflict)
    → ◌≡◌ {A = Outcome RouteError (List Conflict)} (ok (and_conflict c more)) (ok [])
    → (c ≡ none) × (more ≡ [])
and_conflict-none none more h = (refl, from_ok more [] h)
and_conflict-none (some c) more h = absurd (cc (from_ok (c ∷ more) [] h))

clear_of :
    (want : List TunEntry) (r : IpRoute) (dst : Outcome EntryError Prefix)
    → handle dst
        (λ why. fail (bad_entry why))
        (λ p. if owns want p then ok (some (on_prefix r)) else ok none)
      ≡ ok none
    → is_clear want dst ≡ true
clear_of want r (fail why) h = absurd (cc)
clear_of want r (ok p) h = elim (Bool-cases (owns want p)) [
  | inl o ↦ absurd (cc (from_ok _ _ (rw o at h)))
  | inr o ↦ rw o refl
]

route_conflict-none :
    (ip : Netip) (want : List TunEntry) (v6 : Bool) (r : IpRoute)
    → route_conflict ip want v6 r ≡ ok none
    → IsFree ip want v6 r
unfolding route_conflict
route_conflict-none ip want v6 r h = elim (Bool-cases (not v6 && str_eq r.table direct_table)) [
  | inl q ↦ absurd (cc (from_ok _ _ (rw q at h)))
  | inr q ↦ elim (Bool-cases (str_eq r.table "")) [
    | inl t ↦ ground (arith, q, t, clear_of want r (route_dst ip r.dst v6) (rw (q, t) at h))
    | inr t ↦ ground (arith, q, t)
  ]
]

route_conflicts-none :
    (ip : Netip) (want : List TunEntry) (v6 : Bool) (routes : List IpRoute)
    → route_conflicts ip want v6 routes ≡ ok []
    → All (IsFree ip want v6) routes
unfolding route_conflicts
route_conflicts-none ip want v6 [] h = tt
route_conflicts-none ip want v6 (r ∷ routes) h =
    let (c, q, h2) = split_chain _ (route_conflict ip want v6 r) h in
    let (more, s, h3) = split_chain _ (route_conflicts ip want v6 routes) h2 in
    let (x, y) = and_conflict-none c more h3 in
    (
      route_conflict-none ip want v6 r (rw x at q),
      route_conflicts-none ip want v6 routes (rw y at s),
    )

IsAside-found :
    (parse_uint : String → Option ℕ) (catches : Bool) (r : IpRule)
    → ◌≡◌ {A = Option Conflict}
        (if catches || str_eq r.table direct_table then some (on_rule r) else none)
        none
    → catches_direct_mark parse_uint r ≡ ok catches
    → IsAside parse_uint r
IsAside-found parse_uint true r h q = absurd (cc)
IsAside-found parse_uint false r h q = (
  q,
  elim (Bool-cases (str_eq r.table direct_table)) [ inl t ↦ absurd (cc (rw t at h)) | inr t ↦ t ],
)

rule_conflicts-none :
    (parse_uint : String → Option ℕ) (rules : List IpRule)
    → rule_conflicts parse_uint rules ≡ ok []
    → All (IsAside parse_uint) rules
unfolding rule_conflicts
rule_conflicts-none parse_uint [] h = tt
rule_conflicts-none parse_uint (r ∷ rules) h =
    let (catches, q, h2) = split_chain _ (catches_direct_mark parse_uint r) h in
    let (more, s, h3) = split_chain _ (rule_conflicts parse_uint rules) h2 in
    let (x, y) = and_conflict-none _ more h3 in
    (IsAside-found parse_uint catches r x q, rule_conflicts-none parse_uint rules (rw y at s))

append_empty : (xs ys : List Conflict) → xs ++ ys ≡ [] → (xs ≡ []) × (ys ≡ [])
append_empty [] ys h = (refl, h)
append_empty (x ∷ xs) ys h = absurd (cc)

priority_lem :
    (conflicts : List Conflict) (given pref : ℕ)
    → choose_priority conflicts given ≡ ok pref
    → (conflicts ≡ []) × (pref ≡ given) × (1 ≤ pref)
priority_lem (c ∷ more) given pref h = absurd (cc)
priority_lem [] given pref h = elim (Bool-cases (ltb given 1)) [
  | inl q ↦ absurd (cc (rw q at h))
  | inr q ↦ let e = from_ok given pref (rw q at h) in (refl, sym e, ground (arith, e))
]

-- before the second rule of the list
abbrev pub IsBeforeSecond : ℕ → List IpRule → Type 0
IsBeforeSecond pref (_ ∷ second ∷ _) = pref < second.priority
IsBeforeSecond pref _ = ⊥

before_second :
    (rules : List IpRule) (pref : ℕ)
    → pref ≡ free_priority rules
    → 1 ≤ pref
    → IsBeforeSecond pref rules
unfolding free_priority
before_second (_ ∷ second ∷ _) pref q l = omega (arith, q, l)
before_second (_ ∷ []) pref q l = absurd (omega (arith, q, l))
before_second [] pref q l = absurd (omega (arith, q, l))

-- If checkTunRoutingFree returns a priority, then the address was on the interface; no listed IPv4
-- route is in the direct table; every listed route of the main table, of IPv4 and, where an entry
-- is of IPv6, of IPv6 too, has a readable prefix that is none of the wanted entries'; every listed
-- rule is readable, does not take marked traffic, and does not lead into the direct table; and the
-- priority is at least 1 and below that of the second rule.
pub check_free_lem :
    {K : Type 0} (ip : Netip) (ops : NetOps K) (parse_uint : String → Option ℕ)
    (cfg : TunRouteConfig) (want : List TunEntry) (k : K) (pref : ℕ)
    → check_tun_routing_free ip ops parse_uint cfg want k ≡ ok pref
    → (addrs : List String) × (r4 : List IpRoute) × (r6 : List IpRoute) × (rules : List IpRule)
      × (ops.link_addrs cfg.iface k ≡ ok addrs)
      × (any (λ a. str_eq a cfg.addr) addrs ≡ true)
      × (ops.list_routes false k ≡ ok r4)
      × All (IsFree ip want false) r4
      × (read_routes6 ops want k ≡ ok r6)
      × All (IsFree ip want true) r6
      × (ops.list_rules k ≡ ok rules)
      × All (IsAside parse_uint) rules
      × (1 ≤ pref)
      × IsBeforeSecond pref rules
unfolding check_tun_routing_free all_conflicts
check_free_lem ip ops parse_uint cfg want k pref h =
    let (addrs, qa, h0) = split_handle _ _ (ops.link_addrs cfg.iface k) h in
    elim (Bool-cases (any (λ a. str_eq a cfg.addr) addrs)) [
      | inr n ↦ absurd (cc (rw n at h0))
      | inl y ↦
          let (found, qf, h1) =
            split_chain _ (all_conflicts ip ops parse_uint want k) (rw y at h0) in
          let (r4, q4, h2) = split_handle _ _ (ops.list_routes false k) qf in
          let (c4, s4, h3) = split_chain _ (route_conflicts ip want false r4) h2 in
          let (r6, q6, h4) = split_handle _ _ (read_routes6 ops want k) h3 in
          let (c6, s6, h5) = split_chain _ (route_conflicts ip want true r6) h4 in
          let (rules, qr, h6) = split_handle _ _ (ops.list_rules k) h5 in
          let (more, sr, h7) = split_chain _ (rule_conflicts parse_uint rules) h6 in
          let same = from_ok (c4 ++ c6 ++ more, rules) found h7 in
          let (z, e, l) = priority_lem found.0 (free_priority found.1) pref h1 in
          let (zr, zm) = append_empty (c4 ++ c6) more (ap (λ x. x.0) same ∙ z) in
          let (z4, z6) = append_empty c4 c6 zr in
          (
            addrs,
            r4,
            r6,
            rules,
            qa,
            y,
            q4,
            route_conflicts-none ip want false r4 (rw z4 at s4),
            q6,
            route_conflicts-none ip want true r6 (rw z6 at s6),
            qr,
            rule_conflicts-none parse_uint rules (rw zm at sr),
            l,
            before_second rules pref (e ∙ ap (λ x. free_priority (x.1)) (sym same)) l,
          )
    ]
