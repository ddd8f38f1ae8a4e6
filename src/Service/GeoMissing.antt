-- ===== src/Service/GeoMissing.antt =====
-- What internal/service/geostore.go answers to an interface that asks for databases.
use xray_runner.Prelude.{
  ℕ, ◌≡◌, inl, inr, Bool, true, ◌&&◌, not, List, [], ◌∷◌, any, Runes, runes_eq, runes_eq_iff, arith,
  refl, Bool-cases, ap,
}
use xray_runner.Prelude.Outcome.{ok}
use xray_runner.Service.GeoStore.{Blob, GeoStore, has_blob, touch, missing, missing_from}

touch-has_blob :
    (sha h : Runes) (now : ℕ) (blobs : List Blob)
    → has_blob sha (touch h now blobs) ≡ has_blob sha blobs
touch-has_blob sha h now [] = refl
touch-has_blob sha h now (b ∷ blobs) = elim (Bool-cases (runes_eq b.sha h)) [
  | inl q ↦ ground (arith, q, touch-has_blob sha h now blobs)
  | inr q ↦ ground (arith, q, touch-has_blob sha h now blobs)
]

abbrev pub mem_sha : Runes → List Runes → Bool
mem_sha sha shas = any (λ h. runes_eq h sha) shas

same_has_blob :
    (h sha : Runes) (blobs : List Blob)
    → runes_eq h sha ≡ true
    → has_blob h blobs ≡ has_blob sha blobs
same_has_blob h sha blobs e = ap (λ x. has_blob x blobs) ((runes_eq_iff h sha).0 e)

missing_from_lem :
    (sha : Runes) (shas : List Runes) (now : ℕ) (blobs : List Blob)
    → (mem_sha sha (missing_from shas now blobs).0 ≡ (mem_sha sha shas && not (has_blob sha blobs)))
      × (has_blob sha (missing_from shas now blobs).1 ≡ has_blob sha blobs)
unfolding missing_from
missing_from_lem sha [] now blobs = ground arith
missing_from_lem sha (h ∷ shas) now blobs = ground (
  arith,
  same_has_blob h sha blobs,
  touch-has_blob sha h now blobs,
  missing_from_lem sha shas now (touch h now blobs),
  missing_from_lem sha shas now blobs,
)

-- The answer to a question that is accepted names exactly those of the databases asked for that
-- the store lacks, and asking takes no database out.
pub missing_lem :
    (shas out : List Runes) (now : ℕ) (g : GeoStore) (sha : Runes)
    → (missing shas now g).0 ≡ ok out
    → (mem_sha sha out ≡ (mem_sha sha shas && not (has_blob sha g.blobs)))
      × (has_blob sha (missing shas now g).1.blobs ≡ has_blob sha g.blobs)
unfolding missing
missing_lem shas out now g sha h = ground (arith, missing_from_lem sha shas now g.blobs)
