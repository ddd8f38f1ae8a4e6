-- ===== src/Service/GeoPinned.antt =====
-- The pair that the session runs on stays in the store (internal/service/geostore.go).
use xray_runner.Prelude.{
  ℕ, ◌+◌, ◌-◌, ◌≡◌, inl, inr, Bool, true, ◌||◌, Option, none, some, List, ◌++◌, length, any, ltb,
  ◌==◌, Runes, runes_eq, runes_eq_iff, ap, ◌∙◌, arith, refl, Bool-cases, Option-cases,
}
use xray_runner.Prelude.Outcome.{Outcome, fail, ok}
use xray_runner.Service.GeoStore.{
  GeoRef, GeoStore, GeoUpload, GeoPut, Faults, GeoError, valid_sha, has_blob, release, abort, room,
  begin, is_pinned, geo_keep,
}
use xray_runner.Service.GeoUploads.{
  keep, put_piece, put_first, max_geo_file, put, use_pair, make_set, prune, eq_ref,
}
use xray_runner.Service.GeoRoom.{room-has_blob, keep_if-has_blob, same_pinned}

-- a store whose active pair is `a`, with a database
abbrev Holds : Option GeoRef → Runes → GeoStore → Type 0
Holds a sha g = (g.active ≡ a) × (has_blob sha g.blobs ≡ true)

room-Holds :
    (max_store : ℕ) (faults : Faults) (need : ℕ) (a : Option GeoRef) (sha : Runes) (g : GeoStore)
    → is_pinned a sha ≡ true
    → Holds a sha g
    → Holds a sha (room max_store faults need g).1
unfolding room
room-Holds max_store faults need a sha g p (e, h) =
    (e, room-has_blob max_store faults need g sha (ap (λ x. is_pinned x sha) e ∙ p) h)

release-Holds :
    (a : Option GeoRef) (sha : Runes) (g : GeoStore) → Holds a sha g → Holds a sha (release g)
unfolding release
release-Holds a sha g h = h

abort-Holds :
    (cur : Option GeoUpload) (a : Option GeoRef) (sha : Runes) (g : GeoStore)
    → Holds a sha g
    → Holds a sha (abort cur g)
unfolding abort
abort-Holds none a sha g h = h
abort-Holds (some u) a sha g h = release-Holds a sha g h

begin-Holds :
    (max_store : ℕ) (faults : Faults) (name : Runes) (size : ℕ) (a : Option GeoRef) (sha : Runes)
    (g : GeoStore)
    → is_pinned a sha ≡ true
    → Holds a sha g
    → Holds a sha (begin max_store faults name size g).1
unfolding begin
begin-Holds max_store faults name size a sha g p h =
    ground (arith, h, room-Holds max_store faults size a sha g p h)

module _ (sha256 : List ℕ → Runes) (is_database : List ℕ → Bool) (max_store : ℕ) where
  keep-Holds :
      (now : ℕ) (faults : Faults) (u : GeoUpload) (a : Option GeoRef) (sha : Runes) (g : GeoStore)
      → is_pinned a sha ≡ true
      → Holds a sha g
      → Holds a sha (keep sha256 is_database max_store now faults u g).1
  unfolding keep
  keep-Holds now faults u a sha g p h = ground (
    arith,
    release-Holds a sha g h,
    room-Holds max_store faults u.size a sha (release g) p (release-Holds a sha g h),
  )

  put_piece-Holds :
      (now : ℕ) (faults : Faults) (u : GeoUpload) (q : GeoPut) (a : Option GeoRef) (sha : Runes)
      (g : GeoStore)
      → is_pinned a sha ≡ true
      → Holds a sha g
      → Holds a sha (put_piece sha256 is_database max_store now faults u q g).2
  unfolding put_piece
  put_piece-Holds now faults u q a sha g p h =
      let more = record u { received = u.received ++ q.piece; off = u.off + length q.piece } in
      ground (arith, h, abort-Holds (some u) a sha g h, keep-Holds now faults more a sha g p h)

  put_first-Holds :
      (now : ℕ) (faults : Faults) (begun : Outcome GeoError GeoUpload) (q : GeoPut)
      (a : Option GeoRef) (sha : Runes) (g : GeoStore)
      → is_pinned a sha ≡ true
      → Holds a sha g
      → Holds a sha (put_first sha256 is_database max_store now faults begun q g).2
  put_first-Holds now faults (fail e) q a sha g p h = h
  put_first-Holds now faults (ok u) q a sha g p h = put_piece-Holds now faults u q a sha g p h

  -- No piece that comes in, and no room made for one, removes a database of the active pair or
  -- changes which pair is active, whatever calls of the file system fail.
  pub put-Holds :
      (now : ℕ) (faults : Faults) (cur : Option GeoUpload) (q : GeoPut) (sha : Runes) (g : GeoStore)
      → is_pinned g.active sha ≡ true
      → has_blob sha g.blobs ≡ true
      → ((put sha256 is_database max_store now faults cur q g).2.active ≡ g.active)
        × (has_blob sha (put sha256 is_database max_store now faults cur q g).2.blobs ≡ true)
  unfolding put
  put-Holds now faults cur q sha g p h =
      let dropped = abort cur g in
      let kept = abort-Holds cur g.active sha g (refl, h) in
      let start = begin max_store faults q.sha256 q.size dropped in
      elim (Bool-cases (q.offset == 0)) [
        | inl z ↦ elim (Bool-cases (valid_sha q.sha256)) [
          | inr v ↦ rw (put, z, v) kept
          | inl v ↦ elim (Bool-cases ((q.size == 0) || ltb max_geo_file q.size)) [
            | inl s ↦ rw (put, z, v, s) kept
            | inr s ↦
                rw (put, z, v, s)
                  (put_first-Holds now faults start.0 q g.active sha start.1 p
                    (begin-Holds max_store faults q.sha256 q.size g.active sha dropped p kept))
          ]
        ]
        | inr z ↦ elim (Option-cases cur) [
          | inl c ↦ rw (put, z, c) (refl, h)
          | inr (u, c) ↦ rw (put, z, c) (put_piece-Holds now faults u q g.active sha g p (refl, h))
        ]
      ]

prune-Holds :
    (now : ℕ) (faults : Faults) (a : Option GeoRef) (sha : Runes) (g : GeoStore)
    → is_pinned a sha ≡ true
    → Holds a sha g
    → Holds a sha (prune now faults g)
unfolding prune
prune-Holds now faults a sha g p (e, h) = (
  e,
  keep_if-has_blob
      (λ b. is_pinned g.active b.sha || ltb (now - b.mod_time) geo_keep || faults.blob_stays b.sha)
      sha g.blobs
      (λ b q. rw (same_pinned g.active b.sha sha (ap (λ x. is_pinned x sha) e ∙ p) q) refl) h,
)

runes_eq_refl : (s : Runes) → runes_eq s s ≡ true
runes_eq_refl s = (runes_eq_iff s s).1 refl

make_set-blobs :
    (faults : Faults) (r : GeoRef) (g : GeoStore)
    → ((make_set faults r g).0 ≡ none)
    → ((make_set faults r g).1.blobs ≡ g.blobs)
      × (any (eq_ref r) (make_set faults r g).1.sets ≡ true)
unfolding make_set
make_set-blobs faults r g h = ground (arith, runes_eq_refl r.ip, runes_eq_refl r.site)

-- When a session gets a pair, that pair is the active one, and neither of its databases goes in
-- the pruning.
pub use_pair-Holds :
    (now : ℕ) (faults : Faults) (r : GeoRef) (g : GeoStore) (sha : Runes)
    → (use_pair now faults (some r) g).0 ≡ none
    → is_pinned (some r) sha ≡ true
    → has_blob sha g.blobs ≡ true
    → ((use_pair now faults (some r) g).1.active ≡ some r)
      × (has_blob sha (use_pair now faults (some r) g).1.blobs ≡ true)
unfolding use_pair
use_pair-Holds now faults r g sha e p h = elim (Option-cases (make_set faults r g).0) [
  | inr (err, q) ↦ absurd (ground arith)
  | inl q ↦
      rw (use_pair, q)
        (prune-Holds now faults (some r) sha (record (make_set faults r g).1 { active = some r }) p
          (refl, ap (λ x. has_blob sha x) (make_set-blobs faults r g q).0 ∙ h))
]
