-- ===== src/Service/GeoUploads.antt =====
-- internal/service/geostore.go: a database that comes in by pieces, and the pair that a session
-- runs on.
use xray_runner.Prelude.{
  ℕ, ◌+◌, ◌-◌, Bool, false, ◌&&◌, ◌||◌, not, Option, none, some, List, [], ◌∷◌, ◌++◌, length, any,
  ltb, ◌==◌, if◌then◌else◌, Runes, runes_eq,
}
use xray_runner.Prelude.Outcome.{Outcome, fail, ok}
use xray_runner.Service.GeoStore.{
  GeoRef, GeoStore, GeoUpload, GeoPut, Faults, GeoError, bad_sha, bad_size, geo_full, io_error,
  out_of_order, bad_piece, wrong_sum, not_a_database, no_blob, valid_sha, has_blob, release, abort,
  room, begin, is_pinned, keep_if, geo_keep,
}

abbrev pub max_geo_file : ℕ
max_geo_file = 134_217_728

abbrev pub geo_chunk : ℕ
geo_chunk = 1_048_576

module _ (sha256 : List ℕ → Runes) (is_database : List ℕ → Bool) (max_store : ℕ) where
  -- keep, at the moment `now`
  unfoldable pub keep : ℕ → Faults → GeoUpload → GeoStore → Option GeoError × GeoStore
  unfolding release room
  keep now faults u g =
      let freed = release g in
      let (fits, made) = room max_store faults u.size freed in
      if faults.close_fails
      then (some io_error, freed)
      else if not (runes_eq (sha256 u.received) u.sha)
      then (some wrong_sum, freed)
      else if not (is_database u.received)
      then (some not_a_database, freed)
      else if has_blob u.sha freed.blobs
      then (none, freed)
      else if not fits
      then (some geo_full, made)
      else if faults.rename_fails
      then (some io_error, made)
      else (
        none,
        record made {
          blobs = record { sha = u.sha; content = u.received; mod_time = now } ∷ made.blobs;
        },
      )

  -- put on an upload in progress
  unfoldable pub put_piece :
      ℕ → Faults → GeoUpload → GeoPut → GeoStore → Option GeoUpload × Option GeoError × GeoStore
  unfolding keep abort
  put_piece now faults u p g =
      let more = record u { received = u.received ++ p.piece; off = u.off + length p.piece } in
      let (err, kept) = keep now faults more g in
      if not (runes_eq p.sha256 u.sha) || not (p.size == u.size) || not (p.offset == u.off)
      then (none, some out_of_order, abort (some u) g)
      else if (length p.piece == 0)
          || ltb geo_chunk (length p.piece)
          || ltb (u.size - u.off) (length p.piece)
      then (none, some bad_piece, abort (some u) g)
      else if faults.write_fails
      then (none, some io_error, abort (some u) g)
      else if ltb more.off u.size
      then (some more, none, g)
      else (none, err, kept)

  -- the rest of put after a begin
  abbrev pub put_first :
      ℕ
      → Faults
      → Outcome GeoError GeoUpload
      → GeoPut
      → GeoStore
      → Option GeoUpload × Option GeoError × GeoStore
  put_first now faults (fail e) p g = (none, some e, g)
  put_first now faults (ok u) p g = put_piece now faults u p g

  -- put
  unfoldable pub put :
      ℕ
      → Faults
      → Option GeoUpload
      → GeoPut
      → GeoStore
      → Option GeoUpload × Option GeoError × GeoStore
  unfolding put_piece abort begin valid_sha
  put now faults cur p g =
      let dropped = abort cur g in
      let (begun, started) = begin max_store faults p.sha256 p.size dropped in
      if p.offset == 0
      then (if not (valid_sha p.sha256)
          then (none, some bad_sha, dropped)
          else if (p.size == 0) || ltb max_geo_file p.size
          then (none, some bad_size, dropped)
          else put_first now faults begun p started)
      else elim cur [ none ↦ (none, some out_of_order, g) | some u ↦ put_piece now faults u p g ]

-- the files of a folder that a loop of removals leaves: those it spares, and those that stay
unfoldable pub keep_sets : (GeoRef → Bool) → List GeoRef → List GeoRef
keep_sets p [] = []
keep_sets p (r ∷ sets) = let rest = keep_sets p sets in if p r then r ∷ rest else rest

abbrev pub eq_ref : GeoRef → GeoRef → Bool
eq_ref a b = runes_eq a.ip b.ip && runes_eq a.site b.site

abbrev is_active : Option GeoRef → GeoRef → Bool
is_active none r = false
is_active (some a) r = eq_ref a r

-- prune
unfoldable pub prune : ℕ → Faults → GeoStore → GeoStore
unfolding keep_sets keep_if is_pinned
prune now faults g = record g {
  sets = keep_sets (λ r. is_active g.active r || faults.set_stays r) g.sets;
  blobs =
      keep_if
        (λ b.
          is_pinned g.active b.sha || ltb (now - b.mod_time) geo_keep || faults.blob_stays b.sha)
        g.blobs;
}

-- makeSet
unfoldable pub make_set : Faults → GeoRef → GeoStore → Option GeoError × GeoStore
unfolding valid_sha
make_set faults r g =
    if not (valid_sha r.ip) || not (valid_sha r.site)
    then (some bad_sha, g)
    else if any (eq_ref r) g.sets
    then (none, g)
    else if not (has_blob r.ip g.blobs) || not (has_blob r.site g.blobs)
    then (some no_blob, g)
    else if faults.temp_fails || faults.link_fails || faults.rename_fails
    then (some io_error, g)
    else (none, record g { sets = r ∷ g.sets })

-- use
unfoldable pub use_pair : ℕ → Faults → Option GeoRef → GeoStore → Option GeoError × GeoStore
unfolding make_set prune
use_pair now faults none g = (none, prune now faults (record g { active = none }))
use_pair now faults (some r) g =
    let (err, made) = make_set faults r g in
    elim err [
      | some e ↦ (some e, made)
      | none ↦ (none, prune now faults (record made { active = some r }))
    ]
