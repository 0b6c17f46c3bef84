-- ===== src/Pdb/Tests/Pairs.antt =====
-- A PDB structure with two records at any two offsets, and what the theorems ask of it.
use palm_sync_daemon.Base.{ℕ, ◌<◌, ◌≢◌, refl, none, [], ◌∷◌, arith}
use palm_sync_daemon.Pdb.Types.{PdbRecord, Pdb}
use palm_sync_daemon.Pdb.Image.{PdbFits}
use palm_sync_daemon.Pdb.Places.{DistinctRecords}
use palm_sync_daemon.Pdb.WriteFile.Whole.{IsWritable}
use palm_sync_daemon.Pdb.Tests.{memo_pdb, its-CategoriesFit}

abbrev pub record_at : (offset id address : ℕ) → PdbRecord
record_at offset id address = record {
  offset = offset;
  attributes = 0;
  id0 = id;
  id1 = 0;
  id2 = 0;
  payload = none;
  address = address;
}

abbrev pub with_records : ℕ → ℕ → ℕ → ℕ → Pdb
with_records first second a b = record memo_pdb {
  records_qty = 2;
  records = record_at first 7 a ∷ record_at second 8 b ∷ [];
}

pub distinct_pair :
    (first second a b : ℕ) → b ≢ a → DistinctRecords (with_records first second a b).records
distinct_pair first second a b other = (((other, λ e. omega arith), tt), (tt, tt))

pub pair-IsWritable : (first second a b : ℕ) → IsWritable (with_records first second a b)
pair-IsWritable first second a b = record {
  dbname_len = refl;
  next_is_zero = refl;
  few_records = omega arith;
  categories_fit = its-CategoriesFit;
}

pub pair-PdbFits :
    (first second a b : ℕ) → first < 1000 → second < 1000 → PdbFits (with_records first second a b)
pair-PdbFits first second a b h k = record {
  dbname_len = refl;
  attributes_fit = omega arith;
  version_fits = omega arith;
  ctime_fits = omega arith;
  mtime_fits = omega arith;
  btime_fits = omega arith;
  number_fits = omega arith;
  app_fits = omega arith;
  sort_fits = omega arith;
  type_fits = omega arith;
  creator_fits = omega arith;
  seed_fits = omega arith;
  next_fits = omega arith;
  qty_fits = omega arith;
  records_fit = (
    record { offset_fits = omega arith; attributes_fit = omega arith },
    (record { offset_fits = omega arith; attributes_fit = omega arith }, tt),
  );
  padding_fits = omega arith;
}
