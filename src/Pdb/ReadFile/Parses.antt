-- ===== src/Pdb/ReadFile/Parses.antt =====
-- What pdb_read and its helpers get from the bytes of a PDB file.
use palm_sync_daemon.Base.{
  ℕ, ◌+◌, ◌≡◌, Option, none, some, List, [], ◌∷◌, ◌++◌, length, All, ==_refl, append_assoc,
}
use palm_sync_daemon.File.{pure, ◌<*>◌, from_option}
use palm_sync_daemon.File.Reads.{
  Reads, read-Reads, pure-Reads, >>=-Reads, <*>-Reads, map-Reads, keep-Reads,
}
use palm_sync_daemon.Pdb.Types.{Ptr, PdbRecord, PdbCategories, Pdb, pdb_categories_std_qty}
use palm_sync_daemon.Pdb.Fields.{read8_field, read8-Reads, read16-Reads, read32-Reads}
use palm_sync_daemon.Pdb.Image.{
  header_bytes, record_bytes, record_list_bytes, names_bytes, categories_bytes, RecordFits,
  CategoriesFit, PdbFits,
}
use palm_sync_daemon.Pdb.ReadFile.{
  read_exactly, header, read_header, record_at, read_record, read_record_list, read_names, read_ids,
  read_category_fields, categories_of, read_categories, prune_garbage,
}

pub read_exactly-Reads : {n : ℕ} (xs : List ℕ) → length xs ≡ n → Reads (read_exactly n) xs xs
unfolding read_exactly
read_exactly-Reads xs e = record {
  run = λ f rest r h. rw (← e) (rw ((read-Reads xs).run f rest r h) (rw (==_refl (length xs))));
}

-- The header that the bytes describe, with no records yet.
abbrev pub header_of : Pdb → Pdb
header_of p =
    header p.dbname p.attributes p.version p.ctime p.mtime p.btime p.modification_number
      p.app_info_offset p.sort_info_offset p.database_type_id p.creator_id p.seed
      p.next_record_list_offset p.records_qty

pub read_header-Reads :
    (p : Pdb) → PdbFits p → Reads (read_header p.dbname) (header_bytes p) (header_of p)
unfolding read_header
read_header-Reads p fits =
    <*>-Reads
      (<*>-Reads
        (<*>-Reads
          (<*>-Reads
            (<*>-Reads
              (<*>-Reads
                (<*>-Reads
                  (<*>-Reads
                    (<*>-Reads
                      (<*>-Reads
                        (<*>-Reads
                          (<*>-Reads
                            (<*>-Reads (pure-Reads (header p.dbname))
                              (read16-Reads p.attributes fits.attributes_fit))
                            (read16-Reads p.version fits.version_fits))
                          (read32-Reads p.ctime fits.ctime_fits))
                        (read32-Reads p.mtime fits.mtime_fits))
                      (read32-Reads p.btime fits.btime_fits))
                    (read32-Reads p.modification_number fits.number_fits))
                  (read32-Reads p.app_info_offset fits.app_fits))
                (read32-Reads p.sort_info_offset fits.sort_fits))
              (read32-Reads p.database_type_id fits.type_fits))
            (read32-Reads p.creator_id fits.creator_fits))
          (read32-Reads p.seed fits.seed_fits))
        (read32-Reads p.next_record_list_offset fits.next_fits))
      (read16-Reads p.records_qty fits.qty_fits)

-- A record as it comes from the file: no application data, at its own new address.
abbrev pub fresh : Ptr → PdbRecord → PdbRecord
fresh a r = record r { payload = none; address = a }

pub read_record-Reads :
    (a : Ptr) (r : PdbRecord) → RecordFits r → Reads (read_record a) (record_bytes r) (fresh a r)
unfolding read_record
read_record-Reads a r fits =
    <*>-Reads
      (<*>-Reads
        (<*>-Reads
          (<*>-Reads (<*>-Reads (pure-Reads (record_at a)) (read32-Reads r.offset fits.offset_fits))
            (read8-Reads r.attributes))
          (read8-Reads r.id0))
        (read8-Reads r.id1))
      (read8-Reads r.id2)

abbrev pub fresh_from : (ℕ → Ptr) → ℕ → List PdbRecord → List PdbRecord
fresh_from at i [] = []
fresh_from at i (r ∷ rs) = fresh (at i) r ∷ fresh_from at (i + 1) rs

module _ {calloc : ℕ → Option Ptr} {at : ℕ → Ptr} (works : (i : ℕ) → calloc i ≡ some (at i)) where
  pub read_record_list-Reads :
      (i : ℕ) (rs : List PdbRecord)
      → All RecordFits rs
      → Reads (read_record_list calloc i (length rs)) (record_list_bytes rs) (fresh_from at i rs)
  unfolding read_record_list
  read_record_list-Reads i [] fits = pure-Reads []
  read_record_list-Reads i (r ∷ rs) fits = rw (works i) (
      >>=-Reads _ (read_record-Reads (at i) r fits.0)
        (map-Reads (λ rs'. fresh (at i) r ∷ rs') (read_record_list-Reads (i + 1) rs fits.1)))

pub read_names-Reads :
    (names : List (List ℕ))
    → All (λ name. length name ≡ 16) names
    → Reads (read_names (length names)) (names_bytes names) names
unfolding read_names
read_names-Reads [] h = pure-Reads []
read_names-Reads (n ∷ names) h =
    >>=-Reads _ (read_exactly-Reads n h.0)
      (map-Reads (λ names'. n ∷ names') (read_names-Reads names h.1))

pub read_ids-Reads : (ids : List ℕ) → Reads (read_ids (length ids)) ids ids
unfolding read_ids
read_ids-Reads [] = pure-Reads []
read_ids-Reads (i ∷ is) = <*>-Reads (<*>-Reads (pure-Reads ◌∷◌) (read8-Reads i)) (read_ids-Reads is)

last_fields-Reads :
    (c : PdbCategories)
    → CategoriesFit c
    → Reads
        (pure categories_of
          <*> from_option (some c.renamed_categories)
          <*> pure c.names
          <*> read_ids pdb_categories_std_qty
          <*> read8_field
          <*> read8_field)
        (c.ids ++ (c.last_unique_id ∷ c.padding ∷ []))
        c
last_fields-Reads c fits =
    let ids : Reads (read_ids pdb_categories_std_qty) c.ids c.ids =
      rw fits.ids_len at (read_ids-Reads c.ids) in
    rw (← append_assoc c.ids (c.last_unique_id ∷ []) (c.padding ∷ [])) (
      <*>-Reads
        (<*>-Reads
          (<*>-Reads
            (<*>-Reads (<*>-Reads (pure-Reads categories_of) (pure-Reads c.renamed_categories))
              (pure-Reads c.names))
            ids)
          (read8-Reads c.last_unique_id))
        (read8-Reads c.padding))

pub read_category_fields-Reads :
    (c : PdbCategories) → CategoriesFit c → Reads read_category_fields (categories_bytes c) c
unfolding read_category_fields
read_category_fields-Reads c fits =
    let names : Reads (read_names pdb_categories_std_qty) (names_bytes c.names) c.names =
      rw fits.names_len at (read_names-Reads c.names fits.name_len) in
    >>=-Reads _ (keep-Reads (read16-Reads c.renamed_categories fits.renamed_fits))
      (>>=-Reads _ names (last_fields-Reads c fits))

pub read_categories-Reads :
    (a : Ptr) (c : PdbCategories)
    → CategoriesFit c
    → c.padding ≡ 0
    → Reads (read_categories (some a)) (categories_bytes c) (prune_garbage pdb_categories_std_qty c)
unfolding read_categories
read_categories-Reads a c fits e = record {
  run = λ f rest r h. rw ((read_category_fields-Reads c fits).run f rest r h) (rw e);
}
