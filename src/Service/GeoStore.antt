-- ===== src/Service/GeoStore.antt =====
-- internal/service/geostore.go: the geo databases that interfaces hand to the service. The folder
-- is the list of its files; a hash and the check of a database are arguments, and `Faults` says
-- which calls of the file system fail.
use xray_runner.Prelude.{
  ℕ, suc, ◌+◌, ◌-◌, Bool, false, ◌&&◌, ◌||◌, not, Option, none, some, List, [], ◌∷◌, ◌++◌, length,
  any, all, ltb, leb, ◌==◌, if◌then◌else◌, Runes, runes_eq,
}
use xray_runner.Prelude.Outcome.{Outcome, fail, ok}

abbrev pub max_geo_uploads : ℕ
max_geo_uploads = 2

-- nanoseconds
abbrev pub geo_keep : ℕ
geo_keep = 600_000_000_000

-- a file in blobs/
pub record Blob : Type 0 where
  pub sha : Runes
  pub content : List ℕ
  pub mod_time : ℕ

-- a folder in sets/, named by its two databases
pub record GeoRef : Type 0 where
  pub ip : Runes
  pub site : Runes

pub record GeoStore : Type 0 where
  pub blobs : List Blob
  pub sets : List GeoRef
  pub uploading : ℕ
  pub active : Option GeoRef

pub record GeoUpload : Type 0 where
  pub sha : Runes
  pub size : ℕ
  pub off : ℕ
  pub received : List ℕ

-- one piece; the offset and size of a request may be negative, which no check lets through
pub record GeoPut : Type 0 where
  pub sha256 : Runes
  pub size : ℕ
  pub offset : ℕ
  pub piece : List ℕ

pub record Faults : Type 0 where
  pub temp_fails : Bool
  pub write_fails : Bool
  pub close_fails : Bool
  pub rename_fails : Bool
  pub link_fails : Bool
  -- the databases that os.ReadDir leaves out, or whose size cannot be read
  pub unseen : Runes → Bool
  pub blob_stays : Runes → Bool
  pub set_stays : GeoRef → Bool

pub data GeoError : Type 0 where
  bad_sha bad_size too_many_uploads geo_full io_error out_of_order bad_piece wrong_sum
        not_a_database :
      GeoError
  too_many_asked no_blob : GeoError

abbrev is_sha_digit : ℕ → Bool
is_sha_digit c = (leb b'0' c && leb c b'9') || (leb b'a' c && leb c b'f')

-- validSHA
unfoldable pub valid_sha : Runes → Bool
valid_sha s = (length s == 64) && all is_sha_digit s

abbrev pub has_blob : Runes → List Blob → Bool
has_blob sha blobs = any (λ b. runes_eq b.sha sha) blobs

abbrev pub touch : Runes → ℕ → List Blob → List Blob
touch sha now [] = []
touch sha now (b ∷ blobs) =
    (if runes_eq b.sha sha then record b { mod_time = now } else b) ∷ touch sha now blobs

unfoldable pub missing_from : List Runes → ℕ → List Blob → List Runes × List Blob
missing_from [] now blobs = ([], blobs)
missing_from (h ∷ shas) now blobs =
    if has_blob h blobs
    then missing_from shas now (touch h now blobs)
    else (let (out, blobs) = missing_from shas now blobs in (h ∷ out, blobs))

-- missing
unfoldable pub missing : List Runes → ℕ → GeoStore → Outcome GeoError (List Runes) × GeoStore
unfolding missing_from valid_sha
missing shas now g =
    if ltb 2 (length shas)
    then (fail too_many_asked, g)
    else if not (all valid_sha shas)
    then (fail bad_sha, g)
    else (let (out, blobs) = missing_from shas now g.blobs in (ok out, record g { blobs = blobs }))

-- pinned
unfoldable pub is_pinned : Option GeoRef → Runes → Bool
is_pinned none sha = false
is_pinned (some r) sha = runes_eq r.ip sha || runes_eq r.site sha

abbrev pub total_size : List Blob → ℕ
total_size [] = 0
total_size (b ∷ blobs) = length b.content + total_size blobs

unfoldable pub keep_if : (Blob → Bool) → List Blob → List Blob
keep_if p [] = []
keep_if p (b ∷ blobs) = let rest = keep_if p blobs in if p b then b ∷ rest else rest

-- the oldest first
unfoldable pub insert_blob : Blob → List Blob → List Blob
insert_blob b [] = b ∷ []
insert_blob b (c ∷ blobs) =
    let rest = insert_blob b blobs in if leb b.mod_time c.mod_time then b ∷ c ∷ blobs else c ∷ rest

unfoldable pub sort_blobs : List Blob → List Blob
unfolding insert_blob
sort_blobs [] = []
sort_blobs (b ∷ blobs) = insert_blob b (sort_blobs blobs)

-- release
unfoldable pub release : GeoStore → GeoStore
release g = record g { uploading = g.uploading - 1 }

-- abort
unfoldable pub abort : Option GeoUpload → GeoStore → GeoStore
unfolding release
abort none g = g
abort (some u) g = release g

-- the loop of room over the databases that may go
unfoldable pub evict : ℕ → Faults → ℕ → ℕ → List Blob → List Blob × ℕ
evict max_store faults need total [] = ([], total)
evict max_store faults need total (b ∷ spare) =
    let (stuck, left) = evict max_store faults need total spare in
    let gone = evict max_store faults need (total - length b.content) spare in
    if leb (total + need) max_store
    then (b ∷ spare, total)
    else if faults.blob_stays b.sha
    then (b ∷ stuck, left)
    else gone

-- what room does not touch: what it does not see, and the active pair
abbrev pub is_held : Faults → Option GeoRef → Blob → Bool
is_held faults active b = faults.unseen b.sha || is_pinned active b.sha

-- `total`, of the databases that room sees
abbrev pub seen_size : Faults → List Blob → ℕ
seen_size faults blobs = total_size (keep_if (λ b. not (faults.unseen b.sha)) blobs)

-- room
unfoldable pub room : ℕ → Faults → ℕ → GeoStore → Bool × GeoStore
unfolding evict sort_blobs keep_if is_pinned
room max_store faults need g =
    let held = keep_if (is_held faults g.active) g.blobs in
    let spare = sort_blobs (keep_if (λ b. not (is_held faults g.active b)) g.blobs) in
    let (rest, total) = evict max_store faults need (seen_size faults g.blobs) spare in
    (leb (total + need) max_store, record g { blobs = held ++ rest })

-- begin
unfoldable pub begin : ℕ → Faults → Runes → ℕ → GeoStore → Outcome GeoError GeoUpload × GeoStore
unfolding room
begin max_store faults sha size g =
    let (fits, made) = room max_store faults size g in
    if leb max_geo_uploads g.uploading
    then (fail too_many_uploads, g)
    else if not fits
    then (fail geo_full, made)
    else if faults.temp_fails
    then (fail io_error, made)
    else (
      ok (record { sha = sha; size = size; off = 0; received = [] }),
      record made { uploading = suc made.uploading },
    )
