-- ===== src/System/Takeover.antt =====
-- Which records RecoverJournal of internal/system/journal.go takes over, and what it takes from
-- them.
use xray_runner.Prelude.{
  implies, implies_of, if_lem, ap, ap, ℕ, Bool, true, false, not, ◌&&◌, ◌||◌, ◌≡◌, refl, Option,
  none, some, String, List, [], ◌∷◌, ◌++◌, any, ◌==◌, str_eq, arith, Bool-cases, inl, inr,
}
use xray_runner.System.Entries.{Netip, TunEntry}
use xray_runner.System.Host.{entry_eq}
use xray_runner.System.Journal.{restore_routes}
use xray_runner.System.Recover.{
  Journal, Recovery, has_entry, add_missing, give_up, take_restored, take_journal, take_record,
  take_records,
}

-- no process of this boot that still runs has written the record under its own number
abbrev pub is_left : String → (ℕ → ℕ → Bool) → ℕ → Option Journal → Bool
is_left boot alive pid none = true
is_left boot alive pid (some j) =
    not (j.pid == pid) || not (str_eq j.boot boot) || not (alive j.pid j.start)

abbrev pub is_among : TunEntry → Option (List TunEntry) → Bool
is_among e none = false
is_among e (some routes) = has_entry routes e

-- a record of this boot whose process is gone names the entry
abbrev pub names : Netip → String → (ℕ → ℕ → Bool) → TunEntry → ℕ → Option Journal → Bool
names ip boot alive e pid none = false
names ip boot alive e pid (some j) =
    (j.pid == pid)
    && str_eq j.boot boot
    && not (alive j.pid j.start)
    && is_among e (restore_routes ip j.routes)

abbrev pub listed : ℕ → List ℕ → Bool
listed pid taken = any (λ p. p == pid) taken

listed-snoc :
    (pid p : ℕ) (taken : List ℕ) → listed pid (taken ++ (p ∷ [])) ≡ (listed pid taken || (p == pid))
listed-snoc pid p [] = ground arith
listed-snoc pid p (q ∷ taken) = ground (arith, listed-snoc pid p taken)

has_entry-snoc :
    (installed : List TunEntry) (x e : TunEntry)
    → has_entry (installed ++ (x ∷ [])) e ≡ (has_entry installed e || entry_eq e x)
has_entry-snoc [] x e = ground arith
has_entry-snoc (y ∷ installed) x e = ground (arith, has_entry-snoc installed x e)

add_missing_lem :
    (installed routes : List TunEntry) (e : TunEntry)
    → has_entry (add_missing installed routes) e ≡ true
    → (has_entry installed e || has_entry routes e) ≡ true
unfolding add_missing
add_missing_lem installed [] e h = ground arith
add_missing_lem installed (x ∷ routes) e h = elim (Bool-cases (has_entry installed x)) [
  | inl q ↦ ground (arith, add_missing_lem installed routes e (rw q at h))
  | inr q ↦ ground (
    arith,
    has_entry-snoc installed x e,
    add_missing_lem (installed ++ (x ∷ [])) routes e (rw q at h),
  )
]

-- what one record adds
abbrev Justified :
    Netip → String → (ℕ → ℕ → Bool) → ℕ → Option Journal → Recovery → Recovery → Type 0
Justified ip boot alive pid x r t =
    ((p : ℕ)
      → listed p t.taken ≡ true
      → (listed p r.taken || ((pid == p) && is_left boot alive pid x)) ≡ true)
    × ((e : TunEntry)
        → has_entry t.installed e ≡ true
        → (has_entry r.installed e || names ip boot alive e pid x) ≡ true)

give_up_lem :
    (ip : Netip) (boot : String) (alive : ℕ → ℕ → Bool) (pid : ℕ) (x : Option Journal)
    (r : Recovery)
    → is_left boot alive pid x ≡ true
    → Justified ip boot alive pid x r (give_up pid r)
give_up_lem ip boot alive pid x r l =
    (λ p h. ground (arith, listed-snoc p pid r.taken), λ e h. ground arith)

take_restored_lem :
    (ip : Netip) (boot : String) (alive : ℕ → ℕ → Bool) (pid : ℕ) (j : Journal) (r : Recovery)
    (routes : Option (List TunEntry))
    → not (j.pid == pid) || not (str_eq j.boot boot) ≡ false
    → alive j.pid j.start ≡ false
    → restore_routes ip j.routes ≡ routes
    → Justified ip boot alive pid (some j) r (take_restored pid j r routes)
take_restored_lem ip boot alive pid j r none q a o =
    give_up_lem ip boot alive pid (some j) r (ground arith)
take_restored_lem ip boot alive pid j r (some routes) q a o = (
  λ p h. ground (arith, listed-snoc p pid r.taken),
  λ e h. ground (arith, add_missing_lem r.installed routes e h, ap (is_among e) o),
)

take_journal_lem :
    (ip : Netip) (boot : String) (alive : ℕ → ℕ → Bool) (pid : ℕ) (j : Journal) (r : Recovery)
    → Justified ip boot alive pid (some j) r (take_journal ip boot alive pid j r)
unfolding take_journal
take_journal_lem ip boot alive pid j r =
    if_lem (Justified ip boot alive pid (some j) r) (not (j.pid == pid) || not (str_eq j.boot boot))
      _ _ (λ q. give_up_lem ip boot alive pid (some j) r (ground arith))
      (λ q.
        if_lem (Justified ip boot alive pid (some j) r) (alive j.pid j.start) _ _
          (λ a. (λ p h. ground arith, λ e h. ground arith))
          (λ a. take_restored_lem ip boot alive pid j r (restore_routes ip j.routes) q a refl))

take_record_lem :
    (ip : Netip) (boot : String) (alive : ℕ → ℕ → Bool) (pid : ℕ) (x : Option Journal)
    (r : Recovery)
    → Justified ip boot alive pid x r (take_record ip boot alive pid x r)
unfolding take_record
take_record_lem ip boot alive pid none r = give_up_lem ip boot alive pid none r refl
take_record_lem ip boot alive pid (some j) r = take_journal_lem ip boot alive pid j r

records_justified :
    (ip : Netip) (boot : String) (alive : ℕ → ℕ → Bool) (records : List (ℕ × Option Journal))
    (r : Recovery)
    → ((p : ℕ)
        → listed p (take_records ip boot alive records r).taken ≡ true
        → (listed p r.taken || any (λ x. (x.0 == p) && is_left boot alive x.0 x.1) records) ≡ true)
      × ((e : TunEntry)
          → has_entry (take_records ip boot alive records r).installed e ≡ true
          → (has_entry r.installed e || any (λ x. names ip boot alive e x.0 x.1) records) ≡ true)
unfolding take_records
records_justified ip boot alive [] r = (λ p h. ground arith, λ e h. ground arith)
records_justified ip boot alive (x ∷ records) r =
    let (one, names_one) = take_record_lem ip boot alive x.0 x.1 r in
    let (more, names_more) =
      records_justified ip boot alive records (take_record ip boot alive x.0 x.1 r) in
    (λ p h. ground (arith, more p h, one p), λ e h. ground (arith, names_more e h, names_one e))

-- In any order of the records, RecoverJournal drops the record of a process only if it does not
-- decode, has another number than its name says, is of another boot, or its process is gone; and
-- what it adds to the installed entries is named by a record of this boot, under its own number,
-- whose process is gone.
pub take_records_lem :
    (ip : Netip) (boot : String) (alive : ℕ → ℕ → Bool) (records : List (ℕ × Option Journal))
    (r : Recovery) (p : ℕ) (e : TunEntry)
    → (implies
          (listed p (take_records ip boot alive records r).taken)
          (listed p r.taken || any (λ x. (x.0 == p) && is_left boot alive x.0 x.1) records)
        ≡ true)
      × (implies
            (has_entry (take_records ip boot alive records r).installed e)
            (has_entry r.installed e || any (λ x. names ip boot alive e x.0 x.1) records)
          ≡ true)
take_records_lem ip boot alive records r p e =
    let (drops, adds) = records_justified ip boot alive records r in
    (implies_of _ _ (drops p), implies_of _ _ (adds e))
