-- ===== src/Service/GeoPlaces.antt =====
-- The places of uploads in internal/service/geostore.go: none is lost, none taken twice.
use xray_runner.Prelude.{
  ℕ, suc, ◌+◌, ◌-◌, ◌≤◌, ◌≡◌, inl, inr, Bool, ◌||◌, Option, none, some, List, ◌++◌, length, ltb,
  ◌==◌, Runes, arith, refl, Bool-cases, Option-cases,
}
use xray_runner.Prelude.Outcome.{Outcome, fail, ok}
use xray_runner.Service.GeoStore.{
  GeoStore, GeoUpload, GeoPut, Faults, GeoError, max_geo_uploads, valid_sha, release, abort, room,
  begin,
}
use xray_runner.Service.GeoUploads.{keep, put_piece, put_first, max_geo_file, put}

-- the upload in progress counts
abbrev pub count : Option GeoUpload → ℕ
count none = 0
count (some u) = 1

-- what becomes of the places taken, by a connection that had `old` of them
abbrev pub Balanced : ℕ → ℕ → Option GeoUpload → ℕ → Type 0
Balanced old before new after = (after + old ≡ before + count new) × (after ≤ max_geo_uploads)

room-uploading :
    (max_store : ℕ) (faults : Faults) (need : ℕ) (g : GeoStore)
    → (room max_store faults need g).1.uploading ≡ g.uploading
unfolding room
room-uploading max_store faults need g = refl

release-uploading : (g : GeoStore) → (release g).uploading ≡ g.uploading - 1
unfolding release
release-uploading g = refl

abort-uploading :
    (cur : Option GeoUpload) (g : GeoStore) → (abort cur g).uploading ≡ g.uploading - count cur
unfolding abort
abort-uploading none g = omega arith
abort-uploading (some u) g = release-uploading g

-- what a begin takes, by its result
abbrev Taken : Outcome GeoError GeoUpload → ℕ → ℕ → Type 0
Taken (fail e) before after = after ≡ before
Taken (ok u) before after = (after ≡ suc before) × (after ≤ max_geo_uploads)

begin-uploading :
    (max_store : ℕ) (faults : Faults) (sha : Runes) (size : ℕ) (g : GeoStore)
    → Taken
        (begin max_store faults sha size g).0
        g.uploading
        (begin max_store faults sha size g).1.uploading
unfolding begin
begin-uploading max_store faults sha size g = ground (arith, room-uploading max_store faults size g)

module _ (sha256 : List ℕ → Runes) (is_database : List ℕ → Bool) (max_store : ℕ) where
  keep-uploading :
      (now : ℕ) (faults : Faults) (u : GeoUpload) (g : GeoStore)
      → (keep sha256 is_database max_store now faults u g).1.uploading ≡ g.uploading - 1
  unfolding keep
  keep-uploading now faults u g =
      ground (arith, release-uploading g, room-uploading max_store faults u.size (release g))

  put_piece-balances :
      (now : ℕ) (faults : Faults) (u : GeoUpload) (p : GeoPut) (g : GeoStore)
      → 1 ≤ g.uploading
      → g.uploading ≤ max_geo_uploads
      → Balanced 1 g.uploading
          (put_piece sha256 is_database max_store now faults u p g).0
          (put_piece sha256 is_database max_store now faults u p g).2.uploading
  unfolding put_piece
  put_piece-balances now faults u p g h k =
      let more = record u { received = u.received ++ p.piece; off = u.off + length p.piece } in
      ground (arith, abort-uploading (some u) g, keep-uploading now faults more g)

  put_first-balances :
      (now : ℕ) (faults : Faults) (begun : Outcome GeoError GeoUpload) (p : GeoPut) (before : ℕ)
      (g : GeoStore)
      → before ≤ max_geo_uploads
      → Taken begun before g.uploading
      → Balanced 0 before
          (put_first sha256 is_database max_store now faults begun p g).0
          (put_first sha256 is_database max_store now faults begun p g).2.uploading
  put_first-balances now faults (fail e) p before g l h = ground arith
  put_first-balances now faults (ok u) p before g l (h, k) =
      ground (arith, put_piece-balances now faults u p g)

  -- Of two places at most, a piece that comes in gives back the connection's if its upload is
  -- over, takes one if an upload has just begun, and changes nothing else: the places taken with
  -- those of this connection's old upload are those taken before with its new one's.
  pub put_balances :
      (now : ℕ) (faults : Faults) (cur : Option GeoUpload) (p : GeoPut) (g : GeoStore)
      → count cur ≤ g.uploading
      → g.uploading ≤ max_geo_uploads
      → Balanced
          (count cur)
          g.uploading
          (put sha256 is_database max_store now faults cur p g).0
          (put sha256 is_database max_store now faults cur p g).2.uploading
  unfolding put
  put_balances now faults cur p g h k =
      let dropped = abort cur g in
      let start = begin max_store faults p.sha256 p.size dropped in
      let left = abort-uploading cur g in
      elim (Bool-cases (p.offset == 0)) [
        | inl z ↦ elim (Bool-cases (valid_sha p.sha256)) [
          | inr v ↦ rw (put, z, v) (omega (arith, left), omega (arith, left))
          | inl v ↦ elim (Bool-cases ((p.size == 0) || ltb max_geo_file p.size)) [
            | inl s ↦ rw (put, z, v, s) (omega (arith, left), omega (arith, left))
            | inr s ↦
                rw (put, z, v, s)
                  (let (moved, bounded) =
                      put_first-balances now faults start.0 p dropped.uploading start.1
                        (omega (arith, left))
                        (begin-uploading max_store faults p.sha256 p.size dropped) in
                    (omega (arith, left, moved), bounded))
          ]
        ]
        | inr z ↦ elim (Option-cases cur) [
          | inl c ↦ rw (put, z, c) (refl, k)
          | inr (u, c) ↦ rw (put, z, c) (put_piece-balances now faults u p g (rw c at h) k)
        ]
      ]
