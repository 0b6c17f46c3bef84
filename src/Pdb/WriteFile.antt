-- ===== src/Pdb/WriteFile.antt =====
-- pdb_write of src/pdb/pdb.c, with _write_record_list and _write_categories. The call changes the
-- PDB structure too (times, counts, offsets, flags), so its state is the structure and the file.
pub mod Prints
pub mod Whole
use palm_sync_daemon.Base.{
  ℕ, ◌+◌, ◌*◌, ◌%◌, ◌^◌, Bool, true, false, Option, none, some, List, [], ◌∷◌, length, ltb, ◌==◌,
  if◌then◌else◌, bit_and,
}
use palm_sync_daemon.File.{
  File, Act, Io, pure, ◌>>=◌, ◌>>◌, guard, from_option, keep, ◌&&&◌, seek_set, rewind,
}
use palm_sync_daemon.File.Writes.{write_all}
use palm_sync_daemon.Pdb.Types.{PdbRecord, PdbCategories, Pdb, pdb_record_item_size}
use palm_sync_daemon.Pdb.Fields.{write8_field, write16_field, write32_field}
use palm_sync_daemon.Pdb.Time.{times_to_palm}

abbrev pub pdb_record_list_offset : ℕ
pdb_record_list_offset = 0x48

abbrev pub pdb_record_list_header_size : ℕ
pdb_record_list_header_size = 6

pub record Opened : Type 0 where
  pub pdb : Pdb
  pub file : File

abbrev pub on_file_end : {A : Type 0} → Pdb → Option A × File → Option A × Opened
on_file_end p (r, f) = (r, record { pdb = p; file = f })

unfoldable pub on_file : {A : Type 0} → Io A → Act Opened A
on_file m s = on_file_end s.pdb (m s.file)

unfoldable pub modify : (Pdb → Pdb) → Act Opened (Unit {0})
modify g s = (some tt, record s { pdb = g s.pdb })

-- A uint16_t that is counted up once for each record.
abbrev pub count_records : List PdbRecord → ℕ
count_records rs = length rs % 2 ^ 16

unfoldable pub fix_records_qty : Pdb → Pdb
fix_records_qty p =
    let qty = count_records p.records in
    if qty == p.records_qty then p else record p { records_qty = qty }

-- Where the application info block begins: behind the header, the record list and its padding.
abbrev pub app_info_position : ℕ → ℕ
app_info_position qty =
    pdb_record_list_offset + pdb_record_list_header_size + qty * pdb_record_item_size + 2

unfoldable pub fix_app_info_offset : Pdb → Pdb
fix_app_info_offset p = elim p.categories [
  | none ↦ p
  | some c ↦
      (let offset = app_info_position p.records_qty in
        if offset == p.app_info_offset then p else record p { app_info_offset = offset })
]

unfoldable pub write_header : Pdb → Io (Unit {0})
write_header p =
    write16_field p.attributes
    &&& write16_field p.version
    &&& write32_field p.ctime
    &&& write32_field p.mtime
    &&& write32_field p.btime
    &&& write32_field p.modification_number
    &&& write32_field p.app_info_offset
    &&& write32_field p.sort_info_offset
    &&& write32_field p.database_type_id
    &&& write32_field p.creator_id
    &&& write32_field p.seed
    &&& write32_field p.next_record_list_offset
    &&& write16_field p.records_qty

-- `attributes &= ~PDB_RECORD_ATTR_DIRTY` on a uint8_t.
abbrev pub drop_dirty : PdbRecord → PdbRecord
drop_dirty r = record r { attributes = bit_and r.attributes 0xbf }

unfoldable pub write_record : PdbRecord → Io (Unit {0})
write_record r =
    write32_field r.offset
    &&& write8_field r.attributes
    &&& write8_field r.id0
    &&& write8_field r.id1
    &&& write8_field r.id2

-- The loop over the queue: the first record that is not written ends it. What comes back are the
-- outcome, the records as they are now, and the file.
abbrev pub record_written :
    PdbRecord
    → List PdbRecord
    → (Io (List PdbRecord × Bool))
    → Option (Unit {0}) × File
    → Option (List PdbRecord × Bool) × File
record_written r rs more (none, f) = (some (r ∷ rs, false), f)
record_written r rs more (some _, f) = more f

unfoldable pub write_record_list : List PdbRecord → Io (List PdbRecord × Bool)
unfolding write_record
write_record_list [] = pure ([], true)
write_record_list (r ∷ rs) = λ f.
    let r' = drop_dirty r in
    let more = (do (rs', done) ← write_record_list rs; pure (r' ∷ rs', done)) in
    record_written r' rs more (write_record r' f)

unfoldable pub write_records : Act Opened (Unit {0})
unfolding write_record_list on_file modify
write_records s =
    (do
      (rs, done) ← on_file (write_record_list s.pdb.records)
      modify (λ p. record p { records = rs })
      guard done)
      s

unfoldable pub write_names : List (List ℕ) → Io (Unit {0})
write_names [] = pure tt
write_names (name ∷ names) = write_all name >> write_names names

unfoldable pub write_ids : List ℕ → Io (Unit {0})
write_ids [] = pure tt
write_ids (i ∷ is) = write8_field i &&& write_ids is

unfoldable pub get : Act Opened Pdb
get s = (some s.pdb, s)

-- The result of each call is added up, but a name that is not written whole ends the call at once,
-- before the last two fields are set.
unfoldable pub write_categories : PdbCategories → Act Opened (Unit {0})
unfolding write_names write_ids on_file modify
write_categories c = do
  renamed ← on_file (keep (write16_field c.renamed_categories))
  on_file (write_names c.names)
  ids ← on_file (keep (write_ids c.ids))
  modify (λ p. record p { categories = some (record c { last_unique_id = 0x0f; padding = 0x00 }) })
  on_file (from_option renamed &&& from_option ids &&& write8_field 0x0f &&& write8_field 0x00)

unfoldable pub write_app_info : Option PdbCategories → ℕ → Act Opened (Unit {0})
unfolding write_categories
write_app_info none offset = pure tt
write_app_info (some c) offset = do
  at ← on_file (seek_set offset)
  guard (offset == at)
  write_categories c

-- What pdb_write does to the structure before it writes.
unfoldable pub prepare : Act Opened Pdb
unfolding modify get
prepare = do
  modify times_to_palm
  p ← get
  guard (p.next_record_list_offset == 0)
  modify fix_records_qty
  modify fix_app_info_offset
  get

-- Everything that is written, for the structure as it is after the preparation.
unfoldable pub write_body : Pdb → Act Opened (Unit {0})
unfolding write_header write_records write_app_info
write_body p = do
  on_file (write_all p.dbname)
  on_file (write_header p)
  if ltb 0 p.records_qty then write_records else pure tt
  on_file (write16_field p.record_list_padding)
  write_app_info p.categories p.app_info_offset

unfoldable pub pdb_write : Act Opened (Unit {0})
unfolding prepare write_body
pdb_write = do on_file rewind; p ← prepare; at ← on_file (seek_set 0); guard (at == 0); write_body p
