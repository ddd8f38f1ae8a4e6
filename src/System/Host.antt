-- ===== src/System/Host.antt =====
-- What is relied on of the host that internal/system/route_linux.go changes, and what it means that
-- the entries of this process account for the difference.
use xray_runner.Prelude.{
  ◌∙◌, sym, inl, inr, Bool-cases, ℕ, Bool, true, false, not, ◌&&◌, ◌||◌, ◌≡◌, ◌↔◌, none, some, List,
  [], ◌∷◌, All, any, ◌==◌, str_eq, if◌then◌else◌, arith, eq_iff,
}
use xray_runner.Prelude.Outcome.{Outcome, fail, ok}
use xray_runner.System.Entries.{
  EntryError, unspecified, Prefix, Netip, TunEntry, IpRoute, IpRule, prefix_eq, addr_eq, route_dst,
  same_route, same_rule,
}
use xray_runner.System.Teardown.{NetOps, Routing}

abbrev same_bool : Bool → Bool → Bool
same_bool a b = if a then b else not b

unfoldable pub entry_eq : TunEntry → TunEntry → Bool
unfolding prefix_eq addr_eq
entry_eq a b =
    str_eq a.what b.what
    && same_bool a.is_rule b.is_rule
    && (a.pref == b.pref)
    && same_bool a.v6 b.v6
    && str_eq a.typ b.typ
    && prefix_eq a.prefix b.prefix
    && str_eq a.via b.via
    && str_eq a.dev b.dev
    && str_eq a.table b.table
    && (a.metric == b.metric)

pub prefix_eq_iff : (p q : Prefix) → (prefix_eq p q ≡ true) ↔ (p ≡ q)
unfolding prefix_eq addr_eq
prefix_eq_iff p q = ground arith

pub entry_eq_iff : (a b : TunEntry) → (entry_eq a b ≡ true) ↔ (a ≡ b)
unfolding entry_eq
entry_eq_iff a b = ground (
  arith,
  eq_iff a.what b.what,
  eq_iff a.typ b.typ,
  prefix_eq_iff a.prefix b.prefix,
  eq_iff a.via b.via,
  eq_iff a.dev b.dev,
  eq_iff a.table b.table,
)

pub entry_eq_comm : (a b : TunEntry) → entry_eq a b ≡ entry_eq b a
entry_eq_comm a b = elim (Bool-cases (entry_eq a b)) [
  | inl p ↦ p ∙ sym ((entry_eq_iff b a).1 (sym ((entry_eq_iff a b).0 p)))
  | inr p ↦ elim (Bool-cases (entry_eq b a)) [
    | inl q ↦ absurd (cc (p, (entry_eq_iff a b).1 (sym ((entry_eq_iff b a).0 q))))
    | inr q ↦ p ∙ sym q
  ]
]

-- the entry as the host has it: a rule is named by its priority, and a route by all but that
abbrev pub bare : TunEntry → TunEntry
bare e = record {
  what = "";
  is_rule = e.is_rule;
  pref = if e.is_rule then e.pref else 0;
  v6 = if e.is_rule then false else e.v6;
  typ = if e.is_rule then "" else e.typ;
  prefix = if e.is_rule then unspecified false else e.prefix;
  via = if e.is_rule then "" else e.via;
  dev = if e.is_rule then "" else e.dev;
  table = if e.is_rule then "" else e.table;
  metric = if e.is_rule then 0 else e.metric;
}

-- a listed route that is spelled like the entry
abbrev pub is_at : Outcome EntryError Prefix → Prefix → Bool
is_at (fail _) p = false
is_at (ok q) p = prefix_eq q p

unfoldable pub spells : Netip → TunEntry → IpRoute → Bool
unfolding route_dst same_route
spells ip e r = str_eq r.table e.table && is_at (route_dst ip r.dst e.v6) e.prefix && same_route e r

-- `has e k`: the host k has the entry e. An add puts in its entry, if there was none, a delete
-- takes out its entry, a call that fails changes nothing, nor does the journal, and the lists
-- show exactly the entries that are there. No other program changes the host.
pub record Lawful {K : Type 0} (ip : Netip) (ops : NetOps K) (has : TunEntry → K → Bool)
    : Type 0 where
  pub add_done :
      (e m : TunEntry) (k : K)
      → (ops.add e k).0 ≡ none
      → (has m (ops.add e k).1 ≡ (entry_eq m (bare e) || has m k)) × (has (bare e) k ≡ false)
  pub add_failed :
      (e m : TunEntry) (k : K) (why : ℕ)
      → (ops.add e k).0 ≡ some why
      → has m (ops.add e k).1 ≡ has m k
  pub del_done :
      (e m : TunEntry) (k : K)
      → (ops.del e k).0 ≡ none
      → has m (ops.del e k).1 ≡ (not (entry_eq m (bare e)) && has m k)
  pub del_failed :
      (e m : TunEntry) (k : K) (why : ℕ)
      → (ops.del e k).0 ≡ some why
      → has m (ops.del e k).1 ≡ has m k
  pub journal_keeps :
      (entries : List TunEntry) (m : TunEntry) (k : K)
      → has m (ops.journal_routes entries k) ≡ has m k
  pub lists_routes :
      (e : TunEntry) (routes : List IpRoute) (k : K)
      → e.is_rule ≡ false
      → ops.list_routes e.v6 k ≡ ok routes
      → has (bare e) k ≡ any (spells ip e) routes
  pub lists_rules :
      (e : TunEntry) (rules : List IpRule) (k : K)
      → e.is_rule ≡ true
      → ops.list_rules k ≡ ok rules
      → has (bare e) k ≡ any (same_rule e) rules

abbrev pub mem : TunEntry → List TunEntry → Bool
mem m entries = any (λ e. entry_eq m (bare e)) entries

abbrev pub Apart : (TunEntry → Bool) → List TunEntry → Type 0
Apart base entries = All (λ e. base (bare e) ≡ false) entries

abbrev pub Distinct : List TunEntry → Type 0
Distinct [] = Unit
Distinct (e ∷ entries) = (mem (bare e) entries ≡ false) × Distinct entries

-- the host has what it had at first, `base`, and what this process installed, and that is not
-- the same twice
pub record Accounts {K : Type 0} (has : TunEntry → K → Bool) (base : TunEntry → Bool)
    (s : Routing K) : Type 0 where
  pub adds_up : (m : TunEntry) → has m s.host ≡ (mem m s.installed || base m)
  pub apart : Apart base s.installed
  pub distinct : Distinct s.installed
