-- ===== src/Service/GeoTests.antt =====
-- A small geo database that comes in, and the pair it becomes part of.
use xray_runner.Prelude.{
  ℕ, ◌≡◌, Bool, true, false, none, some, List, [], ◌∷◌, length, ◌==◌, if◌then◌else◌, Runes, codes,
  arith, refl,
}
use xray_runner.Service.GeoStore.{GeoRef, GeoStore, GeoPut, Faults, has_blob, is_pinned, valid_sha}
use xray_runner.Service.GeoUploads.{put}
use xray_runner.Service.GeoGuarantees.{StoreInv, UploadInv, put-StoreInv}
use xray_runner.Service.GeoPlaces.{Balanced, put_balances}
use xray_runner.Service.GeoPinned.{put-Holds}

abbrev short_sum : Runes
short_sum = codes "1111111111111111111111111111111111111111111111111111111111111111"

abbrev other_sum : Runes
other_sum = codes "2222222222222222222222222222222222222222222222222222222222222222"

-- a hash of the length alone
abbrev length_hash : List ℕ → Runes
length_hash bytes = if length bytes == 3 then short_sum else other_sum

abbrev any_file : List ℕ → Bool
any_file bytes = true

abbrev no_faults : Faults
no_faults = record {
  temp_fails = false;
  write_fails = false;
  close_fails = false;
  rename_fails = false;
  link_fails = false;
  unseen = λ sha. false;
  blob_stays = λ sha. false;
  set_stays = λ r. false;
}

abbrev lone : GeoRef
lone = record { ip = other_sum; site = other_sum }

abbrev store : GeoStore
store = record {
  blobs = record { sha = other_sum; content = 7 ∷ 7 ∷ []; mod_time = 5 } ∷ [];
  sets = lone ∷ [];
  uploading = 0;
  active = some lone;
}

abbrev whole : GeoPut
whole = record { sha256 = short_sum; size = 3; offset = 0; piece = 1 ∷ 2 ∷ 3 ∷ [] }

put_balances_example :
    Balanced 0 0
      (put length_hash any_file 10 100 no_faults none whole store).0
      (put length_hash any_file 10 100 no_faults none whole store).2.uploading
put_balances_example =
    put_balances length_hash any_file 10 100 no_faults none whole store (omega arith) (omega arith)

-- it is kept
comes_in :
    has_blob short_sum (put length_hash any_file 10 100 no_faults none whole store).2.blobs ≡ true
unfolding put
comes_in = refl

store-Inv : StoreInv length_hash any_file 10 store
unfolding valid_sha
store-Inv = (((refl, refl, refl), tt), omega arith)

put-StoreInv_example :
    UploadInv length_hash any_file 10 (put length_hash any_file 10 100 no_faults none whole store).0
    × StoreInv length_hash any_file 10
        (put length_hash any_file 10 100 no_faults none whole store).2
put-StoreInv_example =
    put-StoreInv length_hash any_file 10 100 no_faults (λ sha. refl) none whole store tt store-Inv

-- no room beside the active pair: the piece is refused, the pair stays
put-Holds_example :
    ((put length_hash any_file 4 100 no_faults none whole store).2.active ≡ some lone)
    × (has_blob other_sum (put length_hash any_file 4 100 no_faults none whole store).2.blobs
        ≡ true)
unfolding is_pinned
put-Holds_example =
    put-Holds length_hash any_file 4 100 no_faults none whole other_sum store refl refl
