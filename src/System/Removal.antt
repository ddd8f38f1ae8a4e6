-- ===== src/System/Removal.antt =====
-- What the loop of DisableTunRouting (internal/system/route_linux.go) leaves on the host, and which
-- entries it keeps.
use xray_runner.Prelude.{
  subst, is_some, ℕ, Bool, true, false, not, ◌&&◌, ◌||◌, ◌≡◌, refl, sym, Option, none, some, List,
  [], ◌∷◌, All, arith, Bool-cases, inl, inr,
}
use xray_runner.Prelude.Outcome.{Outcome, fail, ok}
use xray_runner.System.Entries.{Netip, TunEntry, EntryError, find}
use xray_runner.System.Teardown.{
  NetOps, Listing, routes_of, after_del, remove_found, remove_one, keep_one, remove_all,
}
use xray_runner.System.Host.{
  entry_eq, entry_eq_iff, entry_eq_comm, bare, Lawful, mem, Apart, Distinct,
}

-- a lookup that succeeds says that the entry is there
abbrev pub IsSeen : Netip → Listing → TunEntry → Type 0
IsSeen ip l e =
    (found : Bool × Bool) → find ip e (routes_of l e) l.rules ≡ ok found → found.0 ≡ true

pub Apart-more :
    (b : Bool) (e : TunEntry) (entries : List TunEntry) (rest : TunEntry → Bool)
    → Apart rest entries
    → mem (bare e) entries ≡ false
    → Apart (λ n. (b && entry_eq n (bare e)) || rest n) entries
Apart-more b e [] rest a q = tt
Apart-more b e (x ∷ entries) rest (h, a) q =
    (ground (arith, entry_eq_comm (bare x) (bare e)), Apart-more b e entries rest a (ground arith))

module _ {K : Type 0} (ip : Netip) (ops : NetOps K) where
  module _ (P : TunEntry → Type 0) where
    All-keep_one :
        (err : Option EntryError) (e : TunEntry) (result : List EntryError × List TunEntry × K)
        → P e
        → All P result.1
        → All P (keep_one err e result).1
    All-keep_one none e result p h = h
    All-keep_one (some why) e result p h = (p, h)

    -- what holds of all entries holds of those that are kept
    pub All-remove_all :
        (l : Listing) (entries : List TunEntry) (k : K)
        → All P entries
        → All P (remove_all ip ops l entries k).1
    unfolding remove_all
    All-remove_all l [] k h = tt
    All-remove_all l (e ∷ entries) k (p, h) =
        All-keep_one (remove_one ip ops l e k).0 e
          (remove_all ip ops l entries (remove_one ip ops l e k).1) p
          (All-remove_all l entries (remove_one ip ops l e k).1 h)

  mem-keep_one :
      (n : TunEntry) (err : Option EntryError) (e : TunEntry)
      (result : List EntryError × List TunEntry × K)
      → entry_eq n (bare e) ≡ false
      → mem n result.1 ≡ false
      → mem n (keep_one err e result).1 ≡ false
  mem-keep_one n none e result p h = h
  mem-keep_one n (some why) e result p h = ground arith

  mem-remove_all :
      (n : TunEntry) (l : Listing) (entries : List TunEntry) (k : K)
      → mem n entries ≡ false
      → mem n (remove_all ip ops l entries k).1 ≡ false
  unfolding remove_all
  mem-remove_all n l [] k h = refl
  mem-remove_all n l (e ∷ entries) k h =
      mem-keep_one n (remove_one ip ops l e k).0 e
        (remove_all ip ops l entries (remove_one ip ops l e k).1) (ground arith)
        (mem-remove_all n l entries (remove_one ip ops l e k).1 (ground arith))

  Distinct-keep_one :
      (err : Option EntryError) (e : TunEntry) (result : List EntryError × List TunEntry × K)
      → mem (bare e) result.1 ≡ false
      → Distinct result.1
      → Distinct (keep_one err e result).1
  Distinct-keep_one none e result p h = h
  Distinct-keep_one (some why) e result p h = (p, h)

  pub Distinct-remove_all :
      (l : Listing) (entries : List TunEntry) (k : K)
      → Distinct entries
      → Distinct (remove_all ip ops l entries k).1
  unfolding remove_all
  Distinct-remove_all l [] k h = tt
  Distinct-remove_all l (e ∷ entries) k (q, h) =
      let k2 = (remove_one ip ops l e k).1 in
      Distinct-keep_one (remove_one ip ops l e k).0 e (remove_all ip ops l entries k2)
        (mem-remove_all (bare e) l entries k2 q) (Distinct-remove_all l entries k2 h)

  -- what no error leaves is nothing
  keep_one-settled :
      (err : Option EntryError) (e : TunEntry) (result : List EntryError × List TunEntry × K)
      → (result.0 ≡ [] → result.1 ≡ [])
      → (keep_one err e result).0 ≡ []
      → (keep_one err e result).1 ≡ []
  keep_one-settled none e result h q = h q
  keep_one-settled (some why) e result h q = absurd (cc)

  pub remove_all-settled :
      (l : Listing) (entries : List TunEntry) (k : K)
      → (remove_all ip ops l entries k).0 ≡ []
      → (remove_all ip ops l entries k).1 ≡ []
  unfolding remove_all
  remove_all-settled l [] k h = refl
  remove_all-settled l (e ∷ entries) k h =
      keep_one-settled (remove_one ip ops l e k).0 e
        (remove_all ip ops l entries (remove_one ip ops l e k).1)
        (remove_all-settled l entries (remove_one ip ops l e k).1) h

module _ {K : Type 0} (ip : Netip) (ops : NetOps K) (has : TunEntry → K → Bool)
    (laws : Lawful ip ops has) where
  abbrev Removed : TunEntry → TunEntry → K → Option EntryError → K → Type 0
  Removed e m k none k2 = has m k2 ≡ (not (entry_eq m (bare e)) && has m k)
  Removed e m k (some _) k2 = has m k2 ≡ has m k

  after_del-Removed :
      (e m : TunEntry) (k : K) (err : Option ℕ)
      → (ops.del e k).0 ≡ err
      → Removed e m k (after_del e err (ops.del e k).1).0 (after_del e err (ops.del e k).1).1
  after_del-Removed e m k none h = laws.del_done e m k h
  after_del-Removed e m k (some why) h = laws.del_failed e m k why h

  remove_found-Removed :
      (e m : TunEntry) (k : K) (found : Outcome EntryError (Bool × Bool))
      → ((v : Bool × Bool) → found ≡ ok v → v.0 ≡ true)
      → Removed e m k (remove_found ops e k found).0 (remove_found ops e k found).1
  remove_found-Removed e m k (fail why) seen = refl
  remove_found-Removed e m k (ok v) seen =
      rw (seen v refl) (after_del-Removed e m k (ops.del e k).0 refl)

  remove_one-Removed :
      (l : Listing) (e m : TunEntry) (k : K)
      → IsSeen ip l e
      → Removed e m k (remove_one ip ops l e k).0 (remove_one ip ops l e k).1
  unfolding remove_one
  remove_one-Removed l e m k seen =
      remove_found-Removed e m k (find ip e (routes_of l e) l.rules) seen

  -- an entry that goes or is kept: the host still has what the kept ones and `rest` account for
  abbrev pub Kept : (TunEntry → Bool) → TunEntry → List EntryError × List TunEntry × K → Type 0
  Kept rest m result = has m result.2 ≡ (mem m result.1 || rest m)

  keep_one-Kept :
      (err : Option EntryError) (e m : TunEntry) (rest : TunEntry → Bool)
      (result : List EntryError × List TunEntry × K)
      → Kept (λ n. (is_some err && entry_eq n (bare e)) || rest n) m result
      → Kept rest m (keep_one err e result)
  keep_one-Kept none e m rest result h = h
  keep_one-Kept (some why) e m rest result h = ground (arith, h)

  -- Removed in terms of what accounts for the host before and after
  Removed-adds :
      (err : Option EntryError) (e m : TunEntry) (entries : List TunEntry) (rest : TunEntry → Bool)
      (k k2 : K)
      → has m k ≡ ((entry_eq m (bare e) || mem m entries) || rest m)
      → rest (bare e) ≡ false
      → mem (bare e) entries ≡ false
      → Removed e m k err k2
      → has m k2 ≡ (mem m entries || ((is_some err && entry_eq m (bare e)) || rest m))
  Removed-adds none e m entries rest k k2 a r q h = elim (Bool-cases (entry_eq m (bare e))) [
    | inl s ↦
        let p = (entry_eq_iff m (bare e)).0 s in
        ground (
          arith,
          subst (λ n. rest n ≡ false) (sym p) r,
          subst (λ n. mem n entries ≡ false) (sym p) q,
        )
    | inr s ↦ ground (arith)
  ]
  Removed-adds (some why) e m entries rest k k2 a r q h = ground (arith)

  pub remove_all-adds :
      (l : Listing) (entries : List TunEntry) (rest : TunEntry → Bool) (k : K)
      → ((m : TunEntry) → has m k ≡ (mem m entries || rest m))
      → Apart rest entries
      → Distinct entries
      → All (IsSeen ip l) entries
      → (m : TunEntry) → Kept rest m (remove_all ip ops l entries k)
  unfolding remove_all
  remove_all-adds l [] rest k a r d s m = a m
  remove_all-adds l (e ∷ entries) rest k a (r, apart) (q, d) (t, seen) m =
      let err = (remove_one ip ops l e k).0 in
      let k2 = (remove_one ip ops l e k).1 in
      let rest2 : TunEntry → Bool = λ n. (is_some err && entry_eq n (bare e)) || rest n in
      keep_one-Kept err e m rest (remove_all ip ops l entries k2) (
        remove_all-adds l entries rest2 k2
          (λ n. Removed-adds err e n entries rest k k2 (a n) r q (remove_one-Removed l e n k t))
          (Apart-more (is_some err) e entries rest apart q) d seen m)
