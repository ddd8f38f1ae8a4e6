-- ===== src/System/Leftovers.antt =====
-- What the teardown of a dead run's entries leaves, for RecoverJournal of
-- internal/system/journal.go: nothing that was not there before that run.
use xray_runner.Prelude.{
  implies, implies_of, String, ap, subst, is_some, ℕ, Bool, true, false, ◌&&◌, ◌||◌, ◌≡◌, refl, sym,
  ◌∙◌, Option, none, some, List, [], ◌∷◌, map, reverse, All, arith, Bool-cases, inl, inr,
}
use xray_runner.Prelude.Outcome.{Outcome, fail, ok}
use xray_runner.System.Entries.{Netip, TunEntry, EntryError, find}
use xray_runner.System.Teardown.{
  NetOps, Routing, Listing, routes_of, read_listing, after_del, remove_found, remove_one, keep_one,
  remove_all, take_down, disable_on, disable_tun_routing,
}
use xray_runner.System.Setup.{TunRouteConfig}
use xray_runner.System.Host.{entry_eq, entry_eq_iff, bare, Lawful, mem}
use xray_runner.System.Removal.{remove_all-settled}
use xray_runner.System.Reversal.{mem-reverse, All-reverse}
use xray_runner.System.Accounting.{IsTruthful-listed, IsTruthful, errors_settled}
use xray_runner.System.Mortal.{Journaling}
use xray_runner.System.Crash.{killed_in_enable, journal-covers}
use xray_runner.System.Restored.{as_read}

module _ {K : Type 0} (ip : Netip) (ops : NetOps K) (has : TunEntry → K → Bool)
    (laws : Lawful ip ops has) where
  -- an entry that the lookup does not see is not there
  abbrev IsTold : Listing → K → TunEntry → Type 0
  IsTold l k e =
      (foreign : Bool)
      → find ip e (routes_of l e) l.rules ≡ ok (false, foreign)
      → has (bare e) k ≡ false

  abbrev Shrinks : TunEntry → TunEntry → K → Option EntryError → K → Type 0
  Shrinks e m k err k2 =
      (has m k2 ≡ true → has m k ≡ true)
      × (err ≡ none → has m k2 ≡ true → entry_eq m (bare e) ≡ false)

  after_del-Shrinks :
      (e m : TunEntry) (k : K) (err : Option ℕ)
      → (ops.del e k).0 ≡ err
      → Shrinks e m k (after_del e err (ops.del e k).1).0 (after_del e err (ops.del e k).1).1
  after_del-Shrinks e m k none q =
      (λ h. ground (arith, laws.del_done e m k q), λ z h. ground (arith, laws.del_done e m k q))
  after_del-Shrinks e m k (some why) q =
      (λ h. sym (laws.del_failed e m k why q) ∙ h, λ z h. absurd (cc))

  remove_found-Shrinks :
      (e m : TunEntry) (k : K) (found : Outcome EntryError (Bool × Bool))
      → ((foreign : Bool) → found ≡ ok (false, foreign) → has (bare e) k ≡ false)
      → Shrinks e m k (remove_found ops e k found).0 (remove_found ops e k found).1
  remove_found-Shrinks e m k (fail why) t = (λ h. h, λ z h. absurd (cc))
  remove_found-Shrinks e m k (ok (false, foreign)) t = (
    λ h. h,
    λ z h. elim (Bool-cases (entry_eq m (bare e))) [
      | inr n ↦ n
      | inl y ↦ absurd (
          cc (
            h,
            subst (λ n. has n k ≡ false) (sym ((entry_eq_iff m (bare e)).0 y)) (t foreign refl),
          ))
    ],
  )
  remove_found-Shrinks e m k (ok (true, foreign)) t = after_del-Shrinks e m k (ops.del e k).0 refl

  IsTold-later :
      (l : Listing) (entries : List TunEntry) (k k2 : K)
      → ((m : TunEntry) → has m k2 ≡ true → has m k ≡ true)
      → All (IsTold l k) entries
      → All (IsTold l k2) entries
  IsTold-later l [] k k2 s t = tt
  IsTold-later l (e ∷ entries) k k2 s (t, ts) = (
    λ foreign f. elim (Bool-cases (has (bare e) k2)) [
      | inr n ↦ n
      | inl y ↦ absurd (cc (s (bare e) y, t foreign f))
    ],
    IsTold-later l entries k k2 s ts,
  )

  -- what is left is kept, or was no entry of this run
  abbrev IsKept : (TunEntry → Bool) → TunEntry → List EntryError × List TunEntry × K → Type 0
  IsKept rest m r = has m r.2 ≡ true → (mem m r.1 || rest m) ≡ true

  keep_one-IsKept :
      (err : Option EntryError) (e m : TunEntry) (rest : TunEntry → Bool)
      (r : List EntryError × List TunEntry × K)
      → IsKept (λ n. (is_some err && entry_eq n (bare e)) || rest n) m r
      → IsKept rest m (keep_one err e r)
  keep_one-IsKept none e m rest r h = h
  keep_one-IsKept (some why) e m rest r h = λ a. ground (arith, h a)

  shrunk_rest :
      (err : Option EntryError) (e m : TunEntry) (entries : List TunEntry) (rest : TunEntry → Bool)
      (k k2 : K)
      → (has m k ≡ true → (mem m (e ∷ entries) || rest m) ≡ true)
      → Shrinks e m k err k2
      → has m k2 ≡ true
      → (mem m entries || ((is_some err && entry_eq m (bare e)) || rest m)) ≡ true
  shrunk_rest none e m entries rest k k2 a (s, t) h = ground (arith, a (s h), t refl h)
  shrunk_rest (some why) e m entries rest k k2 a (s, t) h = ground (arith, a (s h))

  remove_all-IsKept :
      (l : Listing) (entries : List TunEntry) (rest : TunEntry → Bool) (k : K)
      → ((m : TunEntry) → has m k ≡ true → (mem m entries || rest m) ≡ true)
      → All (IsTold l k) entries
      → (m : TunEntry) → IsKept rest m (remove_all ip ops l entries k)
  unfolding remove_all remove_one
  remove_all-IsKept l [] rest k a t m = a m
  remove_all-IsKept l (e ∷ entries) rest k a (t, ts) m =
      let found = find ip e (routes_of l e) l.rules in
      let (err, k2) = remove_found ops e k found in
      let shrinks = λ (n : TunEntry). remove_found-Shrinks e n k found t in
      keep_one-IsKept err e m rest (remove_all ip ops l entries k2) (
        remove_all-IsKept l entries (λ n. (is_some err && entry_eq n (bare e)) || rest n) k2
          (λ n. shrunk_rest err e n entries rest k k2 (a n) (shrinks n))
          (IsTold-later l entries k k2 (λ n. (shrinks n).0) ts) m)

  IsTold-truthful :
      (l : Listing) (k : K) (entries : List TunEntry)
      → All (IsTruthful ip has l k) entries
      → All (IsTold l k) entries
  IsTold-truthful l k [] t = tt
  IsTold-truthful l k (e ∷ entries) (t, ts) =
      (λ foreign f. sym (t (false, foreign) f), IsTold-truthful l k entries ts)

  take_down_left :
      (s : Routing K) (l : Outcome ℕ Listing) (base : TunEntry → Bool)
      → ((m : TunEntry) → has m s.host ≡ true → (mem m s.installed || base m) ≡ true)
      → read_listing ops s.installed s.host ≡ l
      → (take_down ip ops s l).0 ≡ none
      → (m : TunEntry) → has m (take_down ip ops s l).1.host ≡ true
      → base m ≡ true
  unfolding take_down
  take_down_left s (fail why) base a q h m t = absurd (cc)
  take_down_left s (ok l) base a q h m t =
      let order = reverse s.installed in
      let (errs, kept, k) = remove_all ip ops l order s.host in
      let t2 = sym (laws.journal_keeps (reverse kept) m k) ∙ t in
      let left =
        remove_all-IsKept l order base s.host (λ n g. rw (mem-reverse n s.installed) (a n g))
          (IsTold-truthful l s.host order (
            All-reverse (IsTruthful ip has l s.host) s.installed
              (IsTruthful-listed ip ops has laws s.installed l s.host q)))
          m t2 in
      let gone = errors_settled ip ops errs kept (remove_all-settled ip ops l order s.host) h in
      ground (arith, left, rw (gone) at (sym (mem-reverse m kept)))

  disable_on_left :
      (s : Routing K) (entries : List TunEntry) (base : TunEntry → Bool)
      → s.installed ≡ entries
      → ((m : TunEntry) → has m s.host ≡ true → (mem m s.installed || base m) ≡ true)
      → (disable_on ip ops s entries).0 ≡ none
      → (m : TunEntry) → has m (disable_on ip ops s entries).1.host ≡ true
      → base m ≡ true
  unfolding disable_on
  disable_on_left s [] base q a h m t = ground (arith, a m t, ap (mem m) q)
  disable_on_left s (_ ∷ _) base q a h m t =
      take_down_left s (read_listing ops s.installed s.host) base a refl h m t

  pub disable_left :
      (s : Routing K) (base : TunEntry → Bool)
      → ((m : TunEntry) → has m s.host ≡ true → (mem m s.installed || base m) ≡ true)
      → (disable_tun_routing ip ops s).0 ≡ none
      → (m : TunEntry) → has m (disable_tun_routing ip ops s).1.host ≡ true
      → base m ≡ true
  unfolding disable_tun_routing
  disable_left s base a h m t = disable_on_left s s.installed base refl a h m t

-- what the next run finds when one that began on the host k was killed after n changes
abbrev pub left_to_recover :
    {K : Type 0}
    → Netip
    → NetOps K
    → (K → List TunEntry)
    → (String → Option ℕ)
    → Bool
    → TunRouteConfig
    → K
    → ℕ
    → Routing K
left_to_recover ip ops journal parse_uint ipv6_stack cfg k n =
    let k2 = killed_in_enable ip ops parse_uint ipv6_stack cfg k n in
    record { host = k2; installed = map as_read (journal k2) }

bare-as_read : (e : TunEntry) → bare (as_read e) ≡ bare e
bare-as_read e = elim (Bool-cases e.is_rule) [ inl q ↦ rw q refl | inr q ↦ rw q refl ]

mem-as_read : (m : TunEntry) (entries : List TunEntry) → mem m (map as_read entries) ≡ mem m entries
mem-as_read m [] = refl
mem-as_read m (e ∷ entries) = rw (bare-as_read e, mem-as_read m entries) refl

-- On a host that keeps its promises, that no other program changes meanwhile, and whose writes of
-- the journal do not fail: a process with nothing installed is killed after any number of its
-- changes in EnableTunRouting, or never; the next run has the entries of the journal that is there,
-- as they are read back, for its own. If its teardown returns no error, then the host has no
-- entry that it had not before the first run.
pub crash-recovery :
    {K : Type 0} (ip : Netip) (ops : NetOps K) (has : TunEntry → K → Bool)
    (journal : K → List TunEntry) (parse_uint : String → Option ℕ) (ipv6_stack : Bool)
    (cfg : TunRouteConfig) (k : K) (n : ℕ) (m : TunEntry)
    → Lawful ip ops has
    → Journaling ops journal
    → (disable_tun_routing ip ops (left_to_recover ip ops journal parse_uint ipv6_stack cfg k n)).0
      ≡ none
    → implies
        (has m
          (disable_tun_routing ip ops
            (left_to_recover ip ops journal parse_uint ipv6_stack cfg k n)).1.host)
        (has m k)
      ≡ true
crash-recovery ip ops has journal parse_uint ipv6_stack cfg k n m laws writing h =
    let s = left_to_recover ip ops journal parse_uint ipv6_stack cfg k n in
    let covered = journal-covers ip ops has journal parse_uint ipv6_stack cfg k n in
    implies_of (has m (disable_tun_routing ip ops s).1.host) (has m k) (
      disable_left ip ops has laws s (λ x. has x k)
        (λ x y. rw (mem-as_read x (journal s.host)) (ground (arith, y, covered x laws writing))) h
        m)
