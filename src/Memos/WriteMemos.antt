-- ===== src/Memos/WriteMemos.antt =====
-- memos_write and _memos_write_memo of src/pdb/memos.c. The queue of memos does not change, so that the
-- state is that of pdb_write, the PDB structure and the file.
pub mod Laws
use palm_sync_daemon.Base.{
  ℕ, ◌+◌, ◌-◌, ◌%◌, ◌^◌, Option, none, some, List, [], ◌∷◌, ◌==◌, if◌then◌else◌,
}
use palm_sync_daemon.File.{Act, Io, pure, ◌>>=◌, ◌>>◌, guard, from_option, seek_set, tell, rewind}
use palm_sync_daemon.File.Writes.{write_all}
use palm_sync_daemon.Pdb.Types.{Ptr, PdbRecord}
use palm_sync_daemon.Pdb.WriteFile.{Opened, on_file, get, pdb_write}
use palm_sync_daemon.Helper.Chunks.{write_chunks}
use palm_sync_daemon.Memos.Types.{Memo}

abbrev pub six_byte_gap : ℕ
six_byte_gap = 6

abbrev pub first : {A : Type 0} → List A → Option A
first [] = none
first (x ∷ xs) = some x

-- memo->_record->offset
abbrev pub offset_of : Ptr → List PdbRecord → Option ℕ
offset_of a [] = none
offset_of a (r ∷ rs) = let rest = offset_of a rs in if r.address == a then some r.offset else rest

-- `offset - position` on unsigned int.
abbrev pub gap : ℕ → ℕ → ℕ
gap offset at = (offset + 2 ^ 32 - at % 2 ^ 32) % 2 ^ 32

module _ (to_cp1251 : List ℕ → Option (List ℕ)) where
  unfoldable pub write_text : Option (List ℕ) → ℕ → Io (Unit {0})
  write_text none len = pure tt
  write_text (some text) len = do
    bytes ← from_option (to_cp1251 text)
    write_chunks (some bytes) len

  -- The header, a newline, the text and a NUL.
  unfoldable pub write_strings : Memo → Io (Unit {0})
  unfolding write_text
  write_strings m = do
    bytes ← from_option (to_cp1251 m.header)
    write_chunks (some bytes) m.header_cp1251_len
    write_all (10 ∷ [])
    write_text m.text m.text_cp1251_len
    write_all (0 ∷ [])

  unfoldable pub memos_write_memo : List PdbRecord → Memo → Io (Unit {0})
  unfolding write_strings
  memos_write_memo rs m = do
    offset ← from_option (offset_of m.record_ptr rs)
    at ← seek_set offset
    guard (at == offset)
    write_strings m

  unfoldable pub write_queue : List PdbRecord → List Memo → Io (Unit {0})
  unfolding memos_write_memo
  write_queue rs [] = pure tt
  write_queue rs (m ∷ ms) = do memos_write_memo rs m; write_queue rs ms

  -- From the first record on: the gap of six zeroes, and the memos.
  unfoldable pub write_memos : List PdbRecord → List Memo → Io (Unit {0})
  unfolding write_queue
  write_memos rs ms = do
    r ← from_option (first rs)
    at ← tell
    guard (gap r.offset at == six_byte_gap)
    write_all (0 ∷ 0 ∷ 0 ∷ 0 ∷ 0 ∷ 0 ∷ [])
    write_queue rs ms

  unfoldable pub memos_write : List Memo → Act Opened (Unit {0})
  unfolding write_memos
  memos_write ms = do on_file rewind; pdb_write; p ← get; on_file (write_memos p.records ms)
