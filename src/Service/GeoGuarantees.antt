-- ===== src/Service/GeoGuarantees.antt =====
-- What holds of the geo databases of the service (internal/service/geostore.go).
use xray_runner.Prelude.{
  ℕ, ◌+◌, ◌≤◌, ◌≡◌, inl, inr, Bool, true, ◌||◌, Option, none, some, List, ◌++◌, length, ltb, ◌==◌,
  Runes, runes_eq_iff, arith, refl, All, Bool-cases, Option-cases, length-append,
}
use xray_runner.Prelude.Outcome.{Outcome, fail, ok}
use xray_runner.Service.GeoStore.{
  Blob, GeoStore, GeoUpload, GeoPut, Faults, GeoError, valid_sha, release, abort, room, begin,
  total_size,
}
use xray_runner.Service.GeoUploads.{keep, put_piece, put_first, max_geo_file, put}
use xray_runner.Service.GeoRoom.{SeesAll, room-All, room-total}

module _ (sha256 : List ℕ → Runes) (is_database : List ℕ → Bool) (max_store : ℕ) where
  -- a database under the name it must have
  abbrev pub IsHonest : Blob → Type 0
  IsHonest b =
      (valid_sha b.sha ≡ true) × (sha256 b.content ≡ b.sha) × (is_database b.content ≡ true)

  abbrev pub StoreInv : GeoStore → Type 0
  StoreInv g = All IsHonest g.blobs × (total_size g.blobs ≤ max_store)

  abbrev pub UploadInv : Option GeoUpload → Type 0
  UploadInv none = Unit
  UploadInv (some u) = (valid_sha u.sha ≡ true) × (length u.received ≡ u.off) × (u.off ≤ u.size)

  room-StoreInv :
      (faults : Faults) (sees : SeesAll faults) (need : ℕ) (g : GeoStore)
      → StoreInv g
      → StoreInv (room max_store faults need g).1
  room-StoreInv faults sees need g (h, t) = (
    room-All IsHonest max_store faults need g h,
    omega (arith, (room-total max_store faults need g sees).0),
  )

  release-StoreInv : (g : GeoStore) → StoreInv g → StoreInv (release g)
  unfolding release
  release-StoreInv g h = h

  abort-StoreInv : (cur : Option GeoUpload) (g : GeoStore) → StoreInv g → StoreInv (abort cur g)
  unfolding abort
  abort-StoreInv none g h = h
  abort-StoreInv (some u) g h = release-StoreInv g h

  -- a database that is whole is kept only under its own name, and only if it fits
  keep-StoreInv :
      (now : ℕ) (faults : Faults) (sees : SeesAll faults) (u : GeoUpload) (g : GeoStore)
      → valid_sha u.sha ≡ true
      → length u.received ≡ u.size
      → StoreInv g
      → StoreInv (keep sha256 is_database max_store now faults u g).1
  unfolding keep
  keep-StoreInv now faults sees u g v l inv = ground (
    arith,
    runes_eq_iff (sha256 u.received) u.sha,
    release-StoreInv g inv,
    room-StoreInv faults sees u.size (release g) (release-StoreInv g inv),
    room-total max_store faults u.size (release g) sees,
  )

  put_piece-Inv :
      (now : ℕ) (faults : Faults) (sees : SeesAll faults) (u : GeoUpload) (p : GeoPut)
      (g : GeoStore)
      → UploadInv (some u)
      → StoreInv g
      → UploadInv (put_piece sha256 is_database max_store now faults u p g).0
        × StoreInv (put_piece sha256 is_database max_store now faults u p g).2
  unfolding put_piece
  put_piece-Inv now faults sees u p g (v, l, o) inv =
      let more = record u { received = u.received ++ p.piece; off = u.off + length p.piece } in
      ground (
        arith,
        length-append u.received p.piece,
        abort-StoreInv (some u) g inv,
        keep-StoreInv now faults sees more g v,
      )

  begin-StoreInv :
      (faults : Faults) (sees : SeesAll faults) (sha : Runes) (size : ℕ) (g : GeoStore)
      → StoreInv g
      → StoreInv (begin max_store faults sha size g).1
  unfolding begin
  begin-StoreInv faults sees sha size g inv =
      ground (arith, inv, room-StoreInv faults sees size g inv)

  begin-UploadInv :
      (faults : Faults) (sha : Runes) (size : ℕ) (g : GeoStore) (u : GeoUpload)
      → valid_sha sha ≡ true
      → (begin max_store faults sha size g).0 ≡ ok u
      → UploadInv (some u)
  unfolding begin
  begin-UploadInv faults sha size g u v e = ground arith

  put_first-Inv :
      (now : ℕ) (faults : Faults) (sees : SeesAll faults) (begun : Outcome GeoError GeoUpload)
      (p : GeoPut) (g : GeoStore)
      → ((u : GeoUpload) → begun ≡ ok u → UploadInv (some u))
      → StoreInv g
      → UploadInv (put_first sha256 is_database max_store now faults begun p g).0
        × StoreInv (put_first sha256 is_database max_store now faults begun p g).2
  put_first-Inv now faults sees (fail e) p g h inv = (tt, inv)
  put_first-Inv now faults sees (ok u) p g h inv =
      put_piece-Inv now faults sees u p g (h u refl) inv

  -- Whatever a client sends and whatever calls of the file system fail but the reading of the
  -- folder, of which the code ignores the errors: if each database of the store has the SHA-256 it is
  -- named by and passed the check, and all fit the store's bound, then so after a piece; and an
  -- upload in progress still counts what it has received.
  pub put-StoreInv :
      (now : ℕ) (faults : Faults) (sees : SeesAll faults) (cur : Option GeoUpload) (p : GeoPut)
      (g : GeoStore)
      → UploadInv cur
      → StoreInv g
      → UploadInv (put sha256 is_database max_store now faults cur p g).0
        × StoreInv (put sha256 is_database max_store now faults cur p g).2
  unfolding put
  put-StoreInv now faults sees cur p g ui inv =
      let dropped = abort cur g in
      let start = begin max_store faults p.sha256 p.size dropped in
      elim (Bool-cases (p.offset == 0)) [
        | inl z ↦ elim (Bool-cases (valid_sha p.sha256)) [
          | inr v ↦ rw (put, z, v) (tt, abort-StoreInv cur g inv)
          | inl v ↦ elim (Bool-cases ((p.size == 0) || ltb max_geo_file p.size)) [
            | inl s ↦ rw (put, z, v, s) (tt, abort-StoreInv cur g inv)
            | inr s ↦
                rw (put, z, v, s)
                  (put_first-Inv now faults sees start.0 p start.1
                    (λ u e. begin-UploadInv faults p.sha256 p.size dropped u v e)
                    (begin-StoreInv faults sees p.sha256 p.size dropped (abort-StoreInv cur g inv)))
          ]
        ]
        | inr z ↦ elim (Option-cases cur) [
          | inl c ↦ rw (put, z, c) (tt, inv)
          | inr (u, c) ↦ rw (put, z, c) (put_piece-Inv now faults sees u p g (rw c at ui) inv)
        ]
      ]
