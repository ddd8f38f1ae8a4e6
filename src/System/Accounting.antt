-- ===== src/System/Accounting.antt =====
-- Every change that EnableTunRouting and DisableTunRouting (internal/system/route_linux.go) leave
-- on the host is in `installed`.
use xray_runner.Prelude.{
  ap, ℕ, Bool, true, false, ◌≡◌, refl, sym, ◌∙◌, none, some, List, [], ◌∷◌, reverse, All, any,
  if◌then◌else◌, arith, Bool-cases, inl, inr,
}
use xray_runner.Prelude.Outcome.{Outcome, fail, ok, split_chain, from_ok}
use xray_runner.System.Entries.{same_rule, EntryError, Netip, TunEntry, find}
use xray_runner.System.Teardown.{
  NetOps, Routing, not_removed, Listing, is_v6, is_a_rule, routes_of, read_routes6, read_rules,
  read_listing, remove_all, take_down, disable_on, disable_tun_routing,
}
use xray_runner.System.Host.{entry_eq_iff, bare, Lawful, mem, Accounts, spells}
use xray_runner.System.Lookup.{find_present}
use xray_runner.System.Removal.{
  IsSeen, All-remove_all, Distinct-remove_all, remove_all-adds, remove_all-settled,
}
use xray_runner.System.Reversal.{mem-reverse, Distinct-reverse, All-reverse}

-- what holds of each entry that is in the list and makes the reads that its kind needs
module _ (P : TunEntry → Type 0) where
  All-own :
      (entries : List TunEntry)
      → ((e : TunEntry)
          → mem (bare e) entries ≡ true
          → (e.v6 ≡ true → any is_v6 entries ≡ true)
          → (e.is_rule ≡ true → any is_a_rule entries ≡ true)
          → P e)
      → All P entries
  All-own [] f = tt
  All-own (e ∷ entries) f = (
    f e (rw ((entry_eq_iff (bare e) (bare e)).1 refl) refl) (λ q. rw q refl) (λ q. rw q refl),
    All-own entries
        (λ x m v r. f x (ground arith) (λ q. ground (arith, v q)) (λ q. ground (arith, r q))),
  )

-- a lookup that succeeds says whether the host has the entry
abbrev pub IsTruthful :
    {K : Type 0} → Netip → (TunEntry → K → Bool) → Listing → K → TunEntry → Type 0
IsTruthful ip has l k e =
    (found : Bool × Bool) → find ip e (routes_of l e) l.rules ≡ ok found → found.0 ≡ has (bare e) k

module _ {K : Type 0} (ip : Netip) (ops : NetOps K) (has : TunEntry → K → Bool)
    (laws : Lawful ip ops has) where
  lists_own_routes :
      (entries : List TunEntry) (e : TunEntry) (l : Listing) (k : K)
      → (e.v6 ≡ true → any is_v6 entries ≡ true)
      → ops.list_routes false k ≡ ok l.routes4
      → read_routes6 ops entries k ≡ ok l.routes6
      → ops.list_routes e.v6 k ≡ ok (routes_of l e)
  unfolding read_routes6
  lists_own_routes entries e l k v q4 q6 = elim (Bool-cases e.v6) [
    | inl q ↦ rw q (rw (v q) at q6)
    | inr q ↦ rw q q4
  ]

  IsTruthful-own :
      (entries : List TunEntry) (e : TunEntry) (l : Listing) (k : K)
      → ops.list_routes e.v6 k ≡ ok (routes_of l e)
      → (e.is_rule ≡ true → any is_a_rule entries ≡ true)
      → read_rules ops entries k ≡ ok l.rules
      → IsTruthful ip has l k e
  unfolding read_rules
  IsTruthful-own entries e l k routes r q found f =
      let shown : Bool → Bool =
        λ b. if b then any (same_rule e) l.rules else any (spells ip e) (routes_of l e) in
      find_present ip e (routes_of l e) l.rules found f ∙ elim (Bool-cases e.is_rule) [
        | inl t ↦ ap shown t ∙ sym (laws.lists_rules e l.rules k t (rw (r t) at q))
        | inr t ↦ ap shown t ∙ sym (laws.lists_routes e (routes_of l e) k t routes)
      ]

  pub IsTruthful-listed :
      (entries : List TunEntry) (l : Listing) (k : K)
      → read_listing ops entries k ≡ ok l
      → All (IsTruthful ip has l k) entries
  unfolding read_listing
  IsTruthful-listed entries l k h =
      let (r4, q4, h4) = split_chain _ (ops.list_routes false k) h in
      let (r6, q6, h6) = split_chain _ (read_routes6 ops entries k) h4 in
      let (rules, q, same) = split_chain _ (read_rules ops entries k) h6 in
      let p = from_ok (record { routes4 = r4; routes6 = r6; rules = rules }) l same in
      All-own (IsTruthful ip has l k) entries (λ e m v r.
        IsTruthful-own entries e l k
          (lists_own_routes entries e l k v (q4 ∙ ap (λ x. ok (x.routes4)) p)
            (q6 ∙ ap (λ x. ok (x.routes6)) p))
          r (q ∙ ap (λ x. ok (x.rules)) p))

IsSeen-truthful :
    {K : Type 0} (ip : Netip) (has : TunEntry → K → Bool) (l : Listing) (k : K)
    (entries : List TunEntry)
    → All (IsTruthful ip has l k) entries
    → All (λ e. has (bare e) k ≡ true) entries
    → All (IsSeen ip l) entries
IsSeen-truthful ip has l k [] t h = tt
IsSeen-truthful ip has l k (e ∷ entries) (t, ts) (h, hs) =
    (λ found f. t found f ∙ h, IsSeen-truthful ip has l k entries ts hs)

module _ {K : Type 0} (ip : Netip) (ops : NetOps K) (has : TunEntry → K → Bool)
    (laws : Lawful ip ops has) (base : TunEntry → Bool) where
  IsSeen-installed :
      (s : Routing K) (l : Listing)
      → Accounts has base s
      → read_listing ops s.installed s.host ≡ ok l
      → All (IsSeen ip l) s.installed
  IsSeen-installed s l a h =
      IsSeen-truthful ip has l s.host s.installed
        (IsTruthful-listed ip ops has laws s.installed l s.host h)
        (All-own (λ e. has (bare e) s.host ≡ true) s.installed
          (λ e m v r. a.adds_up (bare e) ∙ rw m refl))

  pub take_down-Accounts :
      (s : Routing K) (l : Listing)
      → Accounts has base s
      → read_listing ops s.installed s.host ≡ ok l
      → Accounts has base (take_down ip ops s (ok l)).1
  unfolding take_down
  take_down-Accounts s l a h =
      let order = reverse s.installed in
      let kept = (remove_all ip ops l order s.host).1 in
      record {
        adds_up = λ m.
            laws.journal_keeps (reverse kept) m (remove_all ip ops l order s.host).2
            ∙ remove_all-adds ip ops has laws l order base s.host
                (λ n. rw (mem-reverse n s.installed) (a.adds_up n))
                (All-reverse (λ e. base (bare e) ≡ false) s.installed a.apart)
                (Distinct-reverse s.installed a.distinct)
                (All-reverse (IsSeen ip l) s.installed (IsSeen-installed s l a h)) m
            ∙ rw (mem-reverse m kept) refl;
        apart =
            All-reverse (λ e. base (bare e) ≡ false) kept
              (All-remove_all ip ops (λ e. base (bare e) ≡ false) l order s.host
                (All-reverse (λ e. base (bare e) ≡ false) s.installed a.apart));
        distinct =
            Distinct-reverse kept
              (Distinct-remove_all ip ops l order s.host (Distinct-reverse s.installed a.distinct));
      }

  take_down_any-Accounts :
      (s : Routing K) (l : Outcome ℕ Listing)
      → Accounts has base s
      → read_listing ops s.installed s.host ≡ l
      → Accounts has base (take_down ip ops s l).1
  unfolding take_down
  take_down_any-Accounts s (fail why) a h = a
  take_down_any-Accounts s (ok l) a h = take_down-Accounts s l a h

  disable_on-Accounts :
      (s : Routing K) (entries : List TunEntry)
      → Accounts has base s
      → Accounts has base (disable_on ip ops s entries).1
  unfolding disable_on
  disable_on-Accounts s [] a = a
  disable_on-Accounts s (_ ∷ _) a =
      take_down_any-Accounts s (read_listing ops s.installed s.host) a refl

  -- a teardown keeps the account, whatever fails
  pub disable-Accounts :
      (s : Routing K) → Accounts has base s → Accounts has base (disable_tun_routing ip ops s).1
  unfolding disable_tun_routing
  disable-Accounts s a = disable_on-Accounts s s.installed a

module _ {K : Type 0} (ip : Netip) (ops : NetOps K) where
  pub errors_settled :
      (errs : List EntryError) (kept : List TunEntry)
      → (errs ≡ [] → kept ≡ [])
      → elim errs [ [] ↦ none | e ∷ more ↦ some (not_removed (e ∷ more)) ] ≡ none
      → reverse kept ≡ []
  errors_settled [] kept h q = rw (h refl) refl
  errors_settled (e ∷ more) kept h q = absurd (cc)

  take_down-settled :
      (s : Routing K) (l : Outcome ℕ Listing)
      → (take_down ip ops s l).0 ≡ none
      → (take_down ip ops s l).1.installed ≡ []
  unfolding take_down
  take_down-settled s (fail why) h = absurd (cc)
  take_down-settled s (ok l) h =
      let order = reverse s.installed in
      errors_settled (remove_all ip ops l order s.host).0 (remove_all ip ops l order s.host).1
        (remove_all-settled ip ops l order s.host) h

  pub disable_on-settled :
      (s : Routing K) (entries : List TunEntry)
      → s.installed ≡ entries
      → (disable_on ip ops s entries).0 ≡ none
      → (disable_on ip ops s entries).1.installed ≡ []
  unfolding disable_on
  disable_on-settled s [] q h = q
  disable_on-settled s (_ ∷ _) q h = take_down-settled s (read_listing ops s.installed s.host) h

  -- a teardown without an error leaves nothing
  pub disable-settled :
      (s : Routing K)
      → (disable_tun_routing ip ops s).0 ≡ none
      → (disable_tun_routing ip ops s).1.installed ≡ []
  unfolding disable_tun_routing
  disable-settled s h = disable_on-settled s s.installed refl h
