-- ===== src/Pdb/ReadFile/Whole.antt =====
-- pdb_read on a file that begins with the image of a PDB structure.
use palm_sync_daemon.Base.{
  ℕ, suc, ◌+◌, refl, ◌≡◌, Bool, true, false, Option, none, some, List, [], ◌∷◌, ◌++◌, length, All,
  ==_refl, arith, append_assoc, ltb, lt→ltb, ◌∙◌, ◌==◌, not, ◌&&◌, if◌then◌else◌, drop,
  drop-length_append, length-append, ==_iff,
}
use palm_sync_daemon.File.{File, pure, seek_set}
use palm_sync_daemon.File.Reads.{
  Reads, skip, pure-Reads, >>=-Reads, map-value, map-Reads, rewind_lem,
}
use palm_sync_daemon.Pdb.Types.{Ptr, PdbRecord, PdbCategories, Pdb, pdb_categories_std_qty}
use palm_sync_daemon.Pdb.Time.{times_to_unix}
use palm_sync_daemon.Pdb.Fields.{bytes16}
use palm_sync_daemon.Pdb.Image.{
  header_bytes, record_list_bytes, app_info_bytes, categories_bytes, image, RecordFits,
  CategoriesFit, PdbFits, length-record_list_bytes,
}
use palm_sync_daemon.Pdb.WriteFile.{app_info_position}
use palm_sync_daemon.Pdb.ReadFile.Garbage.{
  InfoPruned, prune_garbage-GarbageGone, prune_garbage-others,
}
use palm_sync_daemon.Pdb.ReadFile.{
  read_record_list, read_front, read_app_info, prune_garbage, pdb_read,
}
use palm_sync_daemon.Pdb.ReadFile.Parses.{
  read_exactly-Reads, read_header-Reads, read_record_list-Reads, read_categories-Reads, fresh_from,
  header_of,
}

-- The bytes in front of the padding, and in front of the application info block.
abbrev pub front_bytes : Pdb → List ℕ
front_bytes p = p.dbname ++ (header_bytes p ++ record_list_bytes p.records)

abbrev pub block_bytes : Pdb → List ℕ
block_bytes p = front_bytes p ++ bytes16 p.record_list_padding

image-front :
    (p : Pdb) (rest : List ℕ)
    → image p ++ rest
      ≡ front_bytes p ++ (bytes16 p.record_list_padding ++ (app_info_bytes p.categories ++ rest))
image-front p rest = simp append_assoc

image-block :
    (p : Pdb) (rest : List ℕ)
    → image p ++ rest ≡ block_bytes p ++ (app_info_bytes p.categories ++ rest)
image-block p rest = simp append_assoc

-- A structure that can stand in a file: the count is that of the records, and the category
-- information stands directly behind the padding.
pub record IsSaved (p : Pdb) : Type 0 where
  pub fits : PdbFits p
  pub counted : p.records_qty ≡ length p.records
  pub next_is_zero : p.next_record_list_offset ≡ 0

module _ {calloc : ℕ → Option Ptr} {at : ℕ → Ptr} (works : (i : ℕ) → calloc i ≡ some (at i)) where
  read_records-Reads :
      (n : ℕ) (rs : List PdbRecord)
      → n ≡ length rs
      → All RecordFits rs
      → Reads
          (if ltb 0 n then read_record_list calloc 1 n else pure [])
          (record_list_bytes rs)
          (fresh_from at 1 rs)
  read_records-Reads n [] e fits = rw e (pure-Reads [])
  read_records-Reads n (r ∷ rs) e fits =
      rw (e, lt→ltb 0 (suc (length rs)) (omega arith))
        (read_record_list-Reads works 1 (r ∷ rs) fits)

  pub read_front-Reads :
      (p : Pdb)
      → IsSaved p
      → Reads
          (read_front calloc)
          (front_bytes p)
          (record (header_of p) { records = fresh_from at 1 p.records })
  unfolding read_front
  read_front-Reads p s =
      let zero_next : (p.next_record_list_offset == 0) ≡ true = (==_iff _ _).1 s.next_is_zero in
      >>=-Reads _ (read_exactly-Reads p.dbname s.fits.dbname_len) (
        >>=-Reads _ (read_header-Reads p s.fits) (
          rw zero_next (
            map-Reads _ (read_records-Reads p.records_qty p.records s.counted s.fits.records_fit))))

-- The position where the application info block begins, if the record list is written in front of it.
pub length-block_bytes :
    (p : Pdb) → IsSaved p → length (block_bytes p) ≡ app_info_position p.records_qty
length-block_bytes p s = omega (
  arith,
  length-append (front_bytes p) (bytes16 p.record_list_padding),
  length-append p.dbname (header_bytes p ++ record_list_bytes p.records),
  length-append (header_bytes p) (record_list_bytes p.records),
  length-record_list_bytes p.records,
  s.fits.dbname_len,
  s.counted,
)

-- Which category information is read.
abbrev pub InfoIs : Bool → Pdb → Option PdbCategories → Type 0
InfoIs std p none = (not (p.app_info_offset == 0) && std) ≡ false
InfoIs std p (some c) =
    ((not (p.app_info_offset == 0) && std) ≡ true)
    × (p.app_info_offset ≡ app_info_position p.records_qty)
    × CategoriesFit c
    × (c.padding ≡ 0)

abbrev pub pruned : Option PdbCategories → Option PdbCategories
pruned none = none
pruned (some c) = some (prune_garbage pdb_categories_std_qty c)

-- The structure that pdb_read makes: the records are new objects, the garbage loop has gone over the
-- categories, and the times are Unix times.
abbrev pub loaded : (ℕ → Ptr) → Pdb → Pdb
loaded at p =
    times_to_unix (record (header_of p) {
      records = fresh_from at 1 p.records;
      categories = pruned p.categories;
    })

pub pruned-InfoPruned :
    (std : Bool) (p : Pdb) (c : Option PdbCategories) → InfoIs std p c → InfoPruned c (pruned c)
pruned-InfoPruned std p none i = refl
pruned-InfoPruned std p (some c) i =
    let others = prune_garbage-others 16 c in
    (
      prune_garbage 16 c,
      refl,
      prune_garbage-GarbageGone 16 c (omega (arith, i.2.ids_len)) (omega (arith, i.2.names_len)),
      others.0,
      others.1,
    )

module _ {calloc : ℕ → Option Ptr} {at : ℕ → Ptr} (works : (i : ℕ) → calloc i ≡ some (at i)) where
  read_app_info-gets :
      (std : Bool) (p : Pdb) (c : Option PdbCategories) (f : File) (block rest : List ℕ)
      → f.readable ≡ true
      → f.bytes ≡ block ++ (app_info_bytes c ++ rest)
      → length block ≡ app_info_position p.records_qty
      → InfoIs std p c
      → (read_app_info calloc std (record p { categories = none }) f).0
        ≡ some (record p { categories = pruned c })
  unfolding read_app_info seek_set
  read_app_info-gets std p none f block rest r h l i = rw i
  read_app_info-gets std p (some c) f block rest r h l i =
      let here : drop p.app_info_offset f.bytes ≡ categories_bytes c ++ rest =
        rw (i.1, ← l, h) (drop-length_append block (categories_bytes c ++ rest)) in
      let info =
        (read_categories-Reads (at (p.records_qty + 1)) c i.2 i.3).run
          (record f { pos = p.app_info_offset }) rest r here in
      rw (i.0, works (p.records_qty + 1), ==_refl p.app_info_offset) (rw info)

  -- As an equation.
  pub pdb_read-loaded :
      (std : Bool) (p : Pdb) (f : File) (rest : List ℕ)
      → IsSaved p
      → InfoIs std p p.categories
      → f.readable ≡ true
      → f.bytes ≡ image p ++ rest
      → (pdb_read calloc std f).0 ≡ some (loaded at p)
  unfolding pdb_read
  pdb_read-loaded std p f rest s i r h =
      let q = record (header_of p) { records = fresh_from at 1 p.records } in
      let front =
        (read_front-Reads works p s).run (record f { pos = 0 }) _ r (h ∙ image-front p rest) in
      rw (works 0, rewind_lem f, front)
        (map-value times_to_unix
          (read_app_info calloc std q (skip (length (front_bytes p)) (record f { pos = 0 })))
          (read_app_info-gets std q p.categories _ (block_bytes p) rest r (h ∙ image-block p rest)
            (length-block_bytes p s) i))

  -- pdb_read on a readable file that begins with the image of a structure gives that structure,
  -- with new record objects, Unix times, and the category information with the garbage entries
  -- behind the last entry that is none removed: their IDs are 0 and their names blanked, the index
  -- of that last entry becomes the last unique ID, and all else, garbage in front of it too,
  -- stays. Conditions: every allocation succeeds, the fields fit, the record count is right, the
  -- next record list offset is 0, and the category information is there exactly if it is asked
  -- for, directly behind the padding and with a zero padding byte.
  pub pdb_read-image :
      (std : Bool) (p : Pdb) (f : File) (rest : List ℕ)
      → IsSaved p
      → InfoIs std p p.categories
      → f.readable ≡ true
      → f.bytes ≡ image p ++ rest
      → ((pdb_read calloc std f).0 ≡ some (loaded at p))
        × InfoPruned p.categories (loaded at p).categories
  pdb_read-image std p f rest s i r h =
      (pdb_read-loaded std p f rest s i r h, pruned-InfoPruned std p p.categories i)
