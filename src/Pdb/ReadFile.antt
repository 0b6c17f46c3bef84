-- ===== src/Pdb/ReadFile.antt =====
-- pdb_read of src/pdb/pdb.c, with _read_record_list and _read_categories. `calloc n` is the outcome
-- of the n-th allocation of the call: 0 is the PDB structure, 1 and on are the records, and the one
-- behind them is the structure of the categories.
pub mod Garbage
pub mod Parses
pub mod Whole
pub mod Keeps
use palm_sync_daemon.Base.{
  ℕ, zero, suc, ◌+◌, Bool, false, Option, none, some, List, [], ◌∷◌, length, get_or, set, ltb, ◌==◌,
  if◌then◌else◌, ◌&&◌, not,
}
use palm_sync_daemon.File.{
  Io, pure, ◌>>=◌, ◌>>◌, guard, from_option, keep, ◌<*>◌, read, seek_set, rewind,
}
use palm_sync_daemon.Pdb.Types.{
  Ptr, PdbRecord, PdbCategories, Pdb, pdb_dbname_len, pdb_categories_std_qty, pdb_category_len,
}
use palm_sync_daemon.Pdb.Fields.{read8_field, read16_field, read32_field}
use palm_sync_daemon.Pdb.Time.{times_to_unix}

-- `read(fd, buf, n) != n` is an error.
unfoldable pub read_exactly : ℕ → Io (List ℕ)
read_exactly n = do xs ← read n; guard (length xs == n); pure xs

abbrev pub header : List ℕ → ℕ → ℕ → ℕ → ℕ → ℕ → ℕ → ℕ → ℕ → ℕ → ℕ → ℕ → ℕ → ℕ → Pdb
header name attributes version ctime mtime btime number app sort type_id creator seed next qty =
    record {
      dbname = name;
      attributes = attributes;
      version = version;
      ctime = ctime;
      mtime = mtime;
      btime = btime;
      modification_number = number;
      app_info_offset = app;
      sort_info_offset = sort;
      database_type_id = type_id;
      creator_id = creator;
      seed = seed;
      next_record_list_offset = next;
      records_qty = qty;
      records = [];
      record_list_padding = 0;
      categories = none;
    }

-- The thirteen calls whose results are added up.
unfoldable pub read_header : List ℕ → Io Pdb
read_header name =
    pure (header name)
    <*> read16_field
    <*> read16_field
    <*> read32_field
    <*> read32_field
    <*> read32_field
    <*> read32_field
    <*> read32_field
    <*> read32_field
    <*> read32_field
    <*> read32_field
    <*> read32_field
    <*> read32_field
    <*> read16_field

abbrev pub record_at : Ptr → ℕ → ℕ → ℕ → ℕ → ℕ → PdbRecord
record_at p offset attributes id0 id1 id2 = record {
  offset = offset;
  attributes = attributes;
  id0 = id0;
  id1 = id1;
  id2 = id2;
  payload = none;
  address = p;
}

unfoldable pub read_record : Ptr → Io PdbRecord
read_record p =
    pure (record_at p)
    <*> read32_field
    <*> read8_field
    <*> read8_field
    <*> read8_field
    <*> read8_field

-- `i` is the number of the next allocation, `qty` the number of records still to come.
unfoldable pub read_record_list : (ℕ → Option Ptr) → ℕ → ℕ → Io (List PdbRecord)
unfolding read_record
read_record_list calloc i zero = pure []
read_record_list calloc i (suc qty) = do
  p ← from_option (calloc i)
  r ← read_record p
  rs ← read_record_list calloc (i + 1) qty
  pure (r ∷ rs)

-- The names end the call at the first short read.
unfoldable pub read_names : ℕ → Io (List (List ℕ))
unfolding read_exactly
read_names zero = pure []
read_names (suc n) = do
  name ← read_exactly pdb_category_len
  names ← read_names n
  pure (name ∷ names)

unfoldable pub read_ids : ℕ → Io (List ℕ)
read_ids zero = pure []
read_ids (suc n) = pure ◌∷◌ <*> read8_field <*> read_ids n

abbrev pub categories_of : ℕ → List (List ℕ) → List ℕ → ℕ → ℕ → PdbCategories
categories_of renamed names ids last padding = record {
  renamed_categories = renamed;
  names = names;
  ids = ids;
  last_unique_id = last;
  padding = padding;
}

unfoldable pub read_category_fields : Io PdbCategories
unfolding read_names read_ids
read_category_fields = do
  renamed ← keep read16_field
  names ← read_names pdb_categories_std_qty
  pure categories_of
      <*> from_option renamed
      <*> pure names
      <*> read_ids pdb_categories_std_qty
      <*> read8_field
      <*> read8_field

-- strlen(names[i]) > 0
abbrev pub has_text : List ℕ → Bool
has_text [] = false
has_text (b ∷ bs) = not (b == 0)

-- explicit_bzero(name, strlen(name))
abbrev pub bzero_text : List ℕ → List ℕ
bzero_text [] = []
bzero_text (b ∷ bs) = let rest = bzero_text bs in if b == 0 then b ∷ bs else 0 ∷ rest

abbrev pub is_garbage : ℕ → PdbCategories → Bool
is_garbage i c = not (get_or c.ids i 0 == i) && has_text (get_or c.names i [])

abbrev pub remove_category : ℕ → PdbCategories → PdbCategories
remove_category i c = record c {
  ids = set c.ids i 0;
  names = set c.names i (bzero_text (get_or c.names i []));
}

-- The loop of _read_categories that removes garbage, from index `n - 1` down. It ends at the first
-- entry that is none.
unfoldable pub prune_garbage : ℕ → PdbCategories → PdbCategories
prune_garbage zero c = c
prune_garbage (suc i) c =
    let rest = prune_garbage i (remove_category i c) in
    if is_garbage i c then rest else record c { last_unique_id = i }

unfoldable pub read_categories : Option Ptr → Io PdbCategories
unfolding read_category_fields prune_garbage
read_categories calloc = do
  _ ← from_option calloc
  c ← read_category_fields
  guard (c.padding == 0)
  pure (prune_garbage pdb_categories_std_qty c)

-- The standard category information is read if there is any and the caller asks for it.
unfoldable pub read_app_info : (ℕ → Option Ptr) → Bool → Pdb → Io Pdb
unfolding read_categories
read_app_info calloc std_cat_info p =
    if not (p.app_info_offset == 0) && std_cat_info
    then (do
      at ← seek_set p.app_info_offset
      guard (p.app_info_offset == at)
      c ← read_categories (calloc (p.records_qty + 1))
      pure (record p { categories = some c }))
    else pure p

-- The name, the header and the record list.
unfoldable pub read_front : (ℕ → Option Ptr) → Io Pdb
unfolding read_exactly read_header read_record_list
read_front calloc = do
  name ← read_exactly pdb_dbname_len
  p ← read_header name
  guard (p.next_record_list_offset == 0)
  rs ← if ltb 0 p.records_qty then read_record_list calloc 1 p.records_qty else pure []
  pure (record p { records = rs })

unfoldable pub pdb_read : (ℕ → Option Ptr) → Bool → Io Pdb
unfolding read_front read_app_info
pdb_read calloc std_cat_info = do
  _ ← from_option (calloc 0)
  rewind
  p ← read_front calloc
  p' ← read_app_info calloc std_cat_info p
  pure (times_to_unix p')
