-- ===== src/Pdb/Tests.antt =====
-- Concrete PDB structures, and the theorems about src/pdb/pdb.c applied to them.
mod Edits
pub mod Pairs
use palm_sync_daemon.Base.{
  ℕ, ◌+◌, ◌≤◌, ◌≡◌, ◌≢◌, ◌^◌, ◌<◌, ◌⊎◌, refl, subst, inl, inr, true, false, Option, none, some,
  List, [], ◌∷◌, ◌++◌, map, replicate, arith, length, if◌then◌else◌, ltb, take, get_or,
}
use palm_sync_daemon.File.{File}
use palm_sync_daemon.File.Writes.{put}
use palm_sync_daemon.Libc.Strings.{cstr}
use palm_sync_daemon.Libc.Insertion.{insertion}
use palm_sync_daemon.Pdb.Types.{Ptr, PdbRecord, PdbCategories, Pdb}
use palm_sync_daemon.Pdb.Time.{
  pdb_mac_unix_epoch_start_diff, time_palm_to_unix, time_unix_to_palm, palm_to_unix-unix_to_palm,
  unix_to_palm-palm_to_unix,
}
use palm_sync_daemon.Pdb.Image.{image, record_list_bytes, CategoriesFit, PdbFits}
use palm_sync_daemon.Pdb.ReadFile.{pdb_read}
use palm_sync_daemon.Pdb.ReadFile.Garbage.{InfoPruned}
use palm_sync_daemon.Pdb.ReadFile.Whole.{loaded, IsSaved, InfoIs, pdb_read-image}
use palm_sync_daemon.Pdb.WriteFile.{drop_dirty, pdb_write, write_record_list}
use palm_sync_daemon.Pdb.WriteFile.Whole.{opened, saved, marked?, IsWritable, pdb_write-image}
use palm_sync_daemon.Pdb.WriteFile.Prints.{write_record_list-puts}
use palm_sync_daemon.Pdb.RoundTrip.{reread, InfoAsked, pdb_read-pdb_write}

abbrev pub memo_categories : PdbCategories
memo_categories = record {
  renamed_categories = 3;
  names = (87 ∷ replicate 15 0) ∷ (65 ∷ 66 ∷ replicate 14 0) ∷ replicate 14 (replicate 16 0);
  ids = 0 ∷ 1 ∷ replicate 14 0;
  last_unique_id = 15;
  padding = 0;
}

abbrev dirty_record : PdbRecord
dirty_record = record {
  offset = 400;
  attributes = 0x41;
  id0 = 1;
  id1 = 2;
  id2 = 3;
  payload = none;
  address = 1;
}

abbrev pub memo_pdb : Pdb
memo_pdb = record {
  dbname = 77 ∷ 101 ∷ replicate 30 0;
  attributes = 8;
  version = 1;
  ctime = 1000000000;
  mtime = 1600000000;
  btime = 0;
  modification_number = 5;
  app_info_offset = 90;
  sort_info_offset = 0;
  database_type_id = 0x44415441;
  creator_id = 0x6d656d6f;
  seed = 0;
  next_record_list_offset = 0;
  records_qty = 1;
  records = dirty_record ∷ [];
  record_list_padding = 0;
  categories = some memo_categories;
}

memo_categories-Fit : CategoriesFit memo_categories
memo_categories-Fit = record {
  renamed_fits = omega arith;
  names_len = refl;
  name_len = (
    refl,
    (
      refl,
      (
        refl,
        (
          refl,
          (
            refl,
            (
              refl,
              (refl, (refl, (refl, (refl, (refl, (refl, (refl, (refl, (refl, (refl, tt)))))))))),
            ),
          ),
        ),
      ),
    ),
  );
  ids_len = refl;
}

memo_pdb-Fits : PdbFits memo_pdb
memo_pdb-Fits = record {
  dbname_len = refl;
  attributes_fit = omega arith;
  version_fits = omega arith;
  ctime_fits = omega arith;
  mtime_fits = omega arith;
  btime_fits = omega arith;
  number_fits = omega arith;
  app_fits = omega arith;
  sort_fits = omega arith;
  type_fits = omega arith;
  creator_fits = omega arith;
  seed_fits = omega arith;
  next_fits = omega arith;
  qty_fits = omega arith;
  records_fit = (record { offset_fits = omega arith; attributes_fit = omega arith }, tt);
  padding_fits = omega arith;
}

pub its-CategoriesFit : (c : PdbCategories) → some memo_categories ≡ some c → CategoriesFit c
its-CategoriesFit c e =
    subst (λ (o : Option PdbCategories). elim o [ none ↦ Unit | some k ↦ CategoriesFit k ]) e
      memo_categories-Fit

memo_pdb-Writable : IsWritable memo_pdb
memo_pdb-Writable = record {
  dbname_len = refl;
  next_is_zero = refl;
  few_records = omega arith;
  categories_fit = its-CategoriesFit;
}

abbrev empty_file : File
empty_file = record { bytes = 9 ∷ []; pos = 1; room = 1000; readable = true }

abbrev pub address_of : ℕ → Ptr
address_of n = n + 100

abbrev pub allocate : ℕ → Option Ptr
allocate i = some (address_of i)

pub works : (i : ℕ) → allocate i ≡ some (address_of i)
works i = refl

memo_room : length (image (saved memo_pdb)) ≤ 1000
memo_room = omega arith

pdb_read-pdb_write_example :
    ((pdb_read allocate true (pdb_write (opened memo_pdb empty_file)).1.file).0
      ≡ some (reread address_of memo_pdb))
    × InfoPruned (marked? memo_pdb.categories) (reread address_of memo_pdb).categories
pdb_read-pdb_write_example =
    pdb_read-pdb_write {calloc = allocate} {at = address_of} works true memo_pdb empty_file
      memo_pdb-Fits memo_pdb-Writable refl refl memo_room

pdb_write-image_example : pdb_write (opened memo_pdb empty_file) ≡ (
  some tt,
  opened (saved memo_pdb) (put (image (saved memo_pdb)) (record empty_file { pos = 0 })),
)
pdb_write-image_example = pdb_write-image memo_pdb empty_file memo_pdb-Writable memo_room

-- A structure as it stands in a file: Palm times, and the category information behind the padding.
abbrev stored_pdb : Pdb
stored_pdb = record memo_pdb { ctime = 3000000000; mtime = 5; app_info_offset = 88 }

stored_pdb-Saved : IsSaved stored_pdb
stored_pdb-Saved = record {
  fits = record {
    dbname_len = refl;
    attributes_fit = omega arith;
    version_fits = omega arith;
    ctime_fits = omega arith;
    mtime_fits = omega arith;
    btime_fits = omega arith;
    number_fits = omega arith;
    app_fits = omega arith;
    sort_fits = omega arith;
    type_fits = omega arith;
    creator_fits = omega arith;
    seed_fits = omega arith;
    next_fits = omega arith;
    qty_fits = omega arith;
    records_fit = (record { offset_fits = omega arith; attributes_fit = omega arith }, tt);
    padding_fits = omega arith;
  };
  counted = refl;
  next_is_zero = refl;
}

abbrev stored_file : File
stored_file = record {
  bytes = image stored_pdb ++ (1 ∷ 2 ∷ []);
  pos = 7;
  room = 1000;
  readable = true;
}

pdb_read-image_example :
    ((pdb_read allocate true stored_file).0 ≡ some (loaded address_of stored_pdb))
    × InfoPruned stored_pdb.categories (loaded address_of stored_pdb).categories
pdb_read-image_example =
    pdb_read-image {calloc = allocate} {at = address_of} works true stored_pdb stored_file
      (1 ∷ 2 ∷ []) stored_pdb-Saved (refl, refl, memo_categories-Fit, refl) refl refl
