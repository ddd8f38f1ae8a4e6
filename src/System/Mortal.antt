-- ===== src/System/Mortal.antt =====
-- A run that is killed in the middle of EnableTunRouting or DisableTunRouting
-- (internal/system/route_linux.go): the host of a process that has so many calls left to live.
use xray_runner.Prelude.{
  ℕ, zero, suc, Bool, true, false, ◌||◌, ◌≡◌, refl, sym, ◌∙◌, ap, Option, none, some, List, [], ◌∷◌,
  arith, Option-cases, inl, inr,
}
use xray_runner.Prelude.Outcome.{Outcome, fail, ok}
use xray_runner.System.Entries.{Netip, TunEntry, EntryError, find}
use xray_runner.System.Teardown.{
  NetOps, Listing, routes_of, after_del, remove_found, remove_one, keep_one, remove_all,
}
use xray_runner.System.Host.{Lawful, mem}

-- the change that a call makes, while the process lives
abbrev living : {K : Type 0} → (K → Option ℕ × K) → K × ℕ → Option ℕ × (K × ℕ)
living call (k, zero) = (none, (k, zero))
living call (k, suc n) = ((call k).0, ((call k).1, n))

abbrev living_write : {K : Type 0} → (K → K) → K × ℕ → K × ℕ
living_write call (k, zero) = (k, zero)
living_write call (k, suc n) = (call k, n)

abbrev pub mortal : {K : Type 0} → NetOps K → NetOps (K × ℕ)
mortal ops = record {
  route_get = λ a k. ops.route_get a k.0;
  list_routes = λ v6 k. ops.list_routes v6 k.0;
  list_rules = λ k. ops.list_rules k.0;
  link_addrs = λ dev k. ops.link_addrs dev k.0;
  add = λ e. living (ops.add e);
  del = λ e. living (ops.del e);
  journal_routes = λ entries. living_write (ops.journal_routes entries);
}

-- the journal as the next run will read it: a write replaces it, if it does not fail, and no other
-- call changes it
pub record Journaling {K : Type 0} (ops : NetOps K) (journal : K → List TunEntry) : Type 0 where
  pub writes : (entries : List TunEntry) (k : K) → journal (ops.journal_routes entries k) ≡ entries
  pub add_keeps : (e : TunEntry) (k : K) → journal (ops.add e k).1 ≡ journal k
  pub del_keeps : (e : TunEntry) (k : K) → journal (ops.del e k).1 ≡ journal k

-- what is on the host, and was not there at first, is in the journal
abbrev pub IsCovered :
    {K : Type 0} → (TunEntry → K → Bool) → (K → List TunEntry) → (TunEntry → Bool) → K → Type 0
IsCovered has journal base k =
    (m : TunEntry) → has m k ≡ true → (mem m (journal k) || base m) ≡ true

module _ {K : Type 0} (ip : Netip) (ops : NetOps K) (has : TunEntry → K → Bool)
    (journal : K → List TunEntry) (laws : Lawful ip ops has) (writing : Journaling ops journal)
    (base : TunEntry → Bool) where
  abbrev pub Covers : K × ℕ → Type 0
  Covers k = IsCovered has journal base k.0

  del-IsCovered :
      (e : TunEntry) (k : K)
      → IsCovered has journal base k
      → IsCovered has journal base (ops.del e k).1
  del-IsCovered e k c m h = rw (writing.del_keeps e k) (
      c m (elim (Option-cases (ops.del e k).0) [
        | inl q ↦ ground (arith, laws.del_done e m k q)
        | inr (why, q) ↦ sym (laws.del_failed e m k why q) ∙ h
      ]))

  mortal_del-Covers : (e : TunEntry) (k : K × ℕ) → Covers k → Covers ((mortal ops).del e k).1
  mortal_del-Covers e (k, zero) c = c
  mortal_del-Covers e (k, suc n) c = del-IsCovered e k c

  after_del-Covers :
      (e : TunEntry) (err : Option ℕ) (k : K × ℕ) → Covers k → Covers (after_del e err k).1
  after_del-Covers e none k c = c
  after_del-Covers e (some why) k c = c

  remove_found-Covers :
      (e : TunEntry) (k : K × ℕ) (found : Outcome EntryError (Bool × Bool))
      → Covers k
      → Covers (remove_found (mortal ops) e k found).1
  remove_found-Covers e k (fail why) c = c
  remove_found-Covers e k (ok (false, foreign)) c = c
  remove_found-Covers e k (ok (true, foreign)) c =
      after_del-Covers e ((mortal ops).del e k).0 ((mortal ops).del e k).1 (mortal_del-Covers e k c)

  keep_one-Covers :
      (err : Option EntryError) (e : TunEntry) (r : List EntryError × List TunEntry × (K × ℕ))
      → Covers r.2
      → Covers (keep_one err e r).2
  keep_one-Covers none e r c = c
  keep_one-Covers (some why) e r c = c

  -- wherever the removal is cut off
  pub remove_all-Covers :
      (l : Listing) (entries : List TunEntry) (k : K × ℕ)
      → Covers k
      → Covers (remove_all ip (mortal ops) l entries k).2
  unfolding remove_all remove_one
  remove_all-Covers l [] k c = c
  remove_all-Covers l (e ∷ entries) k c =
      let one = remove_found (mortal ops) e k (find ip e (routes_of l e) l.rules) in
      keep_one-Covers one.0 e (remove_all ip (mortal ops) l entries one.1) (
        remove_all-Covers l entries one.1
          (remove_found-Covers e k (find ip e (routes_of l e) l.rules) c))

abbrev pub alive : ℕ → Bool
alive zero = false
alive (suc n) = true

-- a removal that the process survives does what it does on the host itself
module _ {K : Type 0} (ip : Netip) (ops : NetOps K) where
  abbrev Survives : (k : K × ℕ) → Option EntryError × (K × ℕ) → Option EntryError × K → Type 0
  Survives k r q = alive r.1.1 ≡ true → (alive k.1 ≡ true) × (r.0 ≡ q.0) × (r.1.0 ≡ q.1)

  after_del-Survives :
      (e : TunEntry) (err : Option ℕ) (k : K) (n : ℕ)
      → Survives (k, suc n) (after_del e err ((ops.del e k).1, n)) (after_del e err (ops.del e k).1)
  after_del-Survives e none k n h = (refl, refl, refl)
  after_del-Survives e (some why) k n h = (refl, refl, refl)

  remove_found-Survives :
      (e : TunEntry) (k : K × ℕ) (found : Outcome EntryError (Bool × Bool))
      → Survives k (remove_found (mortal ops) e k found) (remove_found ops e k.0 found)
  remove_found-Survives e (k, zero) (fail why) h = absurd (cc)
  remove_found-Survives e (k, suc n) (fail why) h = (refl, refl, refl)
  remove_found-Survives e (k, zero) (ok (false, foreign)) h = absurd (cc)
  remove_found-Survives e (k, suc n) (ok (false, foreign)) h = (refl, refl, refl)
  remove_found-Survives e (k, zero) (ok (true, foreign)) h = absurd (cc)
  remove_found-Survives e (k, suc n) (ok (true, foreign)) h =
      after_del-Survives e (ops.del e k).0 k n h

  abbrev AllSurvive :
      (k : K × ℕ)
      → List EntryError × List TunEntry × (K × ℕ)
      → List EntryError × List TunEntry × K
      → Type 0
  AllSurvive k r q = alive r.2.1 ≡ true → (alive k.1 ≡ true) × (r.1 ≡ q.1) × (r.2.0 ≡ q.2)

  keep_one-alive :
      (err : Option EntryError) (e : TunEntry) (r : List EntryError × List TunEntry × (K × ℕ))
      → alive (keep_one err e r).2.1 ≡ alive r.2.1
  keep_one-alive none e r = refl
  keep_one-alive (some why) e r = refl

  keep_one-same :
      (err : Option EntryError) (e : TunEntry) (r : List EntryError × List TunEntry × (K × ℕ))
      (q : List EntryError × List TunEntry × K)
      → r.1 ≡ q.1
      → r.2.0 ≡ q.2
      → ((keep_one err e r).1 ≡ (keep_one err e q).1)
        × ((keep_one err e r).2.0 ≡ (keep_one err e q).2)
  keep_one-same none e r q y z = (y, z)
  keep_one-same (some why) e r q y z = (ap (◌∷◌ e) y, z)

  pub remove_all-Survive :
      (l : Listing) (entries : List TunEntry) (k : K × ℕ)
      → AllSurvive k (remove_all ip (mortal ops) l entries k) (remove_all ip ops l entries k.0)
  unfolding remove_all remove_one
  remove_all-Survive l [] k h = (h, refl, refl)
  remove_all-Survive l (e ∷ entries) k h =
      let found = find ip e (routes_of l e) l.rules in
      let one = remove_found (mortal ops) e k found in
      let later = remove_all ip (mortal ops) l entries one.1 in
      let (a, kept, host) =
        remove_all-Survive l entries one.1 (sym (keep_one-alive one.0 e later) ∙ h) in
      let (b, err, same) = remove_found-Survives e k found a in
      let (x, y) = keep_one-same one.0 e later (remove_all ip ops l entries one.1.0) kept host in
      let joined : Option EntryError → K → List EntryError × List TunEntry × K =
        λ r k2. keep_one r e (remove_all ip ops l entries k2) in
      (
        b,
        x
            ∙ ap (λ r. (joined r one.1.0).1) err
            ∙ ap (λ k2. (joined (remove_found ops e k.0 found).0 k2).1) same,
        y
            ∙ ap (λ r. (joined r one.1.0).2) err
            ∙ ap (λ k2. (joined (remove_found ops e k.0 found).0 k2).2) same,
      )
