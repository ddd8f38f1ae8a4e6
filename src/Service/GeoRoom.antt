-- ===== src/Service/GeoRoom.antt =====
-- What making room does to the databases of internal/service/geostore.go: sizes, and which stay.
use xray_runner.Prelude.{
  ℕ, ◌+◌, ◌-◌, ◌≤◌, ◌≡◌, inl, inr, Bool, true, false, ◌||◌, not, Option, List, [], ◌∷◌, ◌++◌,
  length, leb, Runes, runes_eq, runes_eq_iff, ap, ◌∙◌, arith, refl, All, All-append, Bool-cases,
}
use xray_runner.Service.GeoStore.{
  Blob, GeoRef, GeoStore, Faults, has_blob, evict, room, is_pinned, is_held, seen_size, keep_if,
  sort_blobs, insert_blob, total_size,
}

total_size-append : (a b : List Blob) → total_size (a ++ b) ≡ total_size a + total_size b
total_size-append [] b = omega arith
total_size-append (x ∷ a) b = omega (arith, total_size-append a b)

keep_if-total :
    (p : Blob → Bool) (blobs : List Blob)
    → total_size (keep_if p blobs) + total_size (keep_if (λ b. not (p b)) blobs) ≡ total_size blobs
unfolding keep_if
keep_if-total p [] = omega arith
keep_if-total p (b ∷ blobs) = ground (arith, keep_if-total p blobs)

insert_blob-total :
    (b : Blob) (blobs : List Blob) → total_size (insert_blob b blobs) ≡ total_size (b ∷ blobs)
unfolding insert_blob
insert_blob-total b [] = refl
insert_blob-total b (c ∷ blobs) = ground (arith, insert_blob-total b blobs)

sort_blobs-total : (blobs : List Blob) → total_size (sort_blobs blobs) ≡ total_size blobs
unfolding sort_blobs
sort_blobs-total [] = refl
sort_blobs-total (b ∷ blobs) =
    omega (arith, sort_blobs-total blobs, insert_blob-total b (sort_blobs blobs))

evict-total :
    (max_store : ℕ) (faults : Faults) (need total others : ℕ) (spare : List Blob)
    → total ≡ others + total_size spare
    → ((evict max_store faults need total spare).1
        ≡ others + total_size (evict max_store faults need total spare).0)
      × ((evict max_store faults need total spare).1 ≤ total)
unfolding evict
evict-total max_store faults need total others [] h = ground arith
evict-total max_store faults need total others (b ∷ spare) h = ground (
  arith,
  evict-total max_store faults need total (others + length b.content) spare (omega arith),
  evict-total max_store faults need (total - length b.content) others spare (omega arith),
)

-- every database of the folder is read
abbrev pub SeesAll : Faults → Type 0
SeesAll faults = (sha : Runes) → faults.unseen sha ≡ false

keep_if-all :
    (faults : Faults) (blobs : List Blob)
    → SeesAll faults
    → keep_if (λ b. not (faults.unseen b.sha)) blobs ≡ blobs
unfolding keep_if
keep_if-all faults [] h = refl
keep_if-all faults (b ∷ blobs) h = rw (h b.sha) (ap (◌∷◌ b) (keep_if-all faults blobs h))

-- Making room never makes the store larger, and if it reports success the bytes asked for fit.
pub room-total :
    (max_store : ℕ) (faults : Faults) (need : ℕ) (g : GeoStore)
    → SeesAll faults
    → (total_size (room max_store faults need g).1.blobs ≤ total_size g.blobs)
      × ((room max_store faults need g).0 ≡ true
          → total_size (room max_store faults need g).1.blobs + need ≤ max_store)
unfolding room
room-total max_store faults need g sees =
    let pinned = keep_if (is_held faults g.active) g.blobs in
    let unpinned = keep_if (λ b. not (is_held faults g.active b)) g.blobs in
    let total = seen_size faults g.blobs in
    let counted : total ≡ total_size g.blobs = ap total_size (keep_if-all faults g.blobs sees) in
    ground (
      arith,
      counted,
      keep_if-total (is_held faults g.active) g.blobs,
      sort_blobs-total unpinned,
      evict-total max_store faults need total (total_size pinned) (sort_blobs unpinned) (
          omega (
            arith,
            counted,
            keep_if-total (is_held faults g.active) g.blobs,
            sort_blobs-total unpinned,
          )),
      total_size-append pinned (evict max_store faults need total (sort_blobs unpinned)).0,
    )

module _ {ℓ} (P : Blob → Type ℓ) where
  pub keep_if-All : (p : Blob → Bool) (blobs : List Blob) → All P blobs → All P (keep_if p blobs)
  unfolding keep_if
  keep_if-All p [] h = tt
  keep_if-All p (b ∷ blobs) (h, hs) = elim (Bool-cases (p b)) [
    | inl q ↦ rw (keep_if, q) (h, keep_if-All p blobs hs)
    | inr q ↦ rw (keep_if, q) (keep_if-All p blobs hs)
  ]

  insert_blob-All : (b : Blob) (blobs : List Blob) → P b → All P blobs → All P (insert_blob b blobs)
  unfolding insert_blob
  insert_blob-All b [] h hs = (h, tt)
  insert_blob-All b (c ∷ blobs) h (k, ks) = elim (Bool-cases (leb b.mod_time c.mod_time)) [
    | inl q ↦ rw (insert_blob, q) (h, (k, ks))
    | inr q ↦ rw (insert_blob, q) (k, insert_blob-All b blobs h ks)
  ]

  sort_blobs-All : (blobs : List Blob) → All P blobs → All P (sort_blobs blobs)
  unfolding sort_blobs
  sort_blobs-All [] h = tt
  sort_blobs-All (b ∷ blobs) (h, hs) =
      insert_blob-All b (sort_blobs blobs) h (sort_blobs-All blobs hs)

  evict-All :
      (max_store : ℕ) (faults : Faults) (need total : ℕ) (spare : List Blob)
      → All P spare
      → All P (evict max_store faults need total spare).0
  unfolding evict
  evict-All max_store faults need total [] h = tt
  evict-All max_store faults need total (b ∷ spare) (h, hs) =
      elim (Bool-cases (leb (total + need) max_store)) [
        | inl q ↦ rw (evict, q) (h, hs)
        | inr q ↦ elim (Bool-cases (faults.blob_stays b.sha)) [
          | inl s ↦ rw (evict, q, s) (h, evict-All max_store faults need total spare hs)
          | inr s ↦
              rw (evict, q, s) (evict-All max_store faults need (total - length b.content) spare hs)
        ]
      ]

  pub room-All :
      (max_store : ℕ) (faults : Faults) (need : ℕ) (g : GeoStore)
      → All P g.blobs
      → All P (room max_store faults need g).1.blobs
  unfolding room
  room-All max_store faults need g h =
      All-append P (keep_if (is_held faults g.active) g.blobs)
        (evict max_store faults need (seen_size faults g.blobs)
          (sort_blobs (keep_if (λ b. not (is_held faults g.active b)) g.blobs))).0
        (keep_if-All (is_held faults g.active) g.blobs h)
        (evict-All max_store faults need (seen_size faults g.blobs)
          (sort_blobs (keep_if (λ b. not (is_held faults g.active b)) g.blobs))
          (sort_blobs-All (keep_if (λ b. not (is_held faults g.active b)) g.blobs)
            (keep_if-All (λ b. not (is_held faults g.active b)) g.blobs h)))

has_blob-append :
    (sha : Runes) (a b : List Blob) → has_blob sha (a ++ b) ≡ (has_blob sha a || has_blob sha b)
has_blob-append sha [] b = refl
has_blob-append sha (x ∷ a) b = ground (arith, has_blob-append sha a b)

-- a removal that spares every file of a name leaves it
pub keep_if-has_blob :
    (p : Blob → Bool) (sha : Runes) (blobs : List Blob)
    → ((b : Blob) → runes_eq b.sha sha ≡ true → p b ≡ true)
    → has_blob sha blobs ≡ true
    → has_blob sha (keep_if p blobs) ≡ true
unfolding keep_if
keep_if-has_blob p sha [] h k = k
keep_if-has_blob p sha (b ∷ blobs) h k = elim (Bool-cases (runes_eq b.sha sha)) [
  | inl q ↦ rw (keep_if, h b q) (ground (arith, q))
  | inr q ↦ elim (Bool-cases (p b)) [
    | inl s ↦ rw (keep_if, s) (ground (arith, keep_if-has_blob p sha blobs h))
    | inr s ↦ rw (keep_if, s) (keep_if-has_blob p sha blobs h (ground arith))
  ]
]

pub same_pinned :
    (active : Option GeoRef) (a sha : Runes)
    → is_pinned active sha ≡ true
    → runes_eq a sha ≡ true
    → is_pinned active a ≡ true
same_pinned active a sha p e = ap (is_pinned active) ((runes_eq_iff a sha).0 e) ∙ p

pinned_held :
    (faults : Faults) (active : Option GeoRef) (b : Blob)
    → is_pinned active b.sha ≡ true
    → is_held faults active b ≡ true
pinned_held faults active b h = ground (arith, h)

-- Making room removes no database of the active pair.
pub room-has_blob :
    (max_store : ℕ) (faults : Faults) (need : ℕ) (g : GeoStore) (sha : Runes)
    → is_pinned g.active sha ≡ true
    → has_blob sha g.blobs ≡ true
    → has_blob sha (room max_store faults need g).1.blobs ≡ true
unfolding room
room-has_blob max_store faults need g sha p h =
    let pinned = keep_if (is_held faults g.active) g.blobs in
    let rest =
      (evict max_store faults need (seen_size faults g.blobs)
        (sort_blobs (keep_if (λ b. not (is_held faults g.active b)) g.blobs))).0 in
    ground (
      arith,
      has_blob-append sha pinned rest,
      keep_if-has_blob (is_held faults g.active) sha g.blobs
          (λ b e. pinned_held faults g.active b (same_pinned g.active b.sha sha p e)) h,
    )
