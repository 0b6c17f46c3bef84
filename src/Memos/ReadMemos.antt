-- ===== src/Memos/ReadMemos.antt =====
-- memos_read and _memos_read_memo of src/pdb/memos.c: the sizes of header and text are found by scanning the file in
-- chunks, and then both are read. The outcomes of calloc and the function of iconv are parameters. A
-- converted buffer is taken without the bytes behind it that calloc gave too few of.
pub mod Scan
pub mod Laws
use palm_sync_daemon.Base.{
  ℕ, zero, suc, ◌+◌, ◌-◌, true, Option, none, some, List, [], ◌∷◌, length, bit_and, not, ◌==◌,
  if◌then◌else◌,
}
use palm_sync_daemon.File.{Io, pure, fail, ◌>>=◌, ◌>>◌, guard, from_option, read, seek_set, rewind}
use palm_sync_daemon.Libc.Strings.{cstr}
use palm_sync_daemon.Pdb.Types.{Ptr, PdbRecord, PdbCategories}
use palm_sync_daemon.Pdb.ReadFile.{pdb_read}
use palm_sync_daemon.Pdb.Records.{pdb_record_get_unique_id}
use palm_sync_daemon.Pdb.Categories.{pdb_category_get_name}
use palm_sync_daemon.Helper.Chunks.{chunk_size, read_chunks}
use palm_sync_daemon.Memos.Types.{Memo, Memos}

-- memchr(3), by the index of what it finds.
abbrev pub index_of : ℕ → List ℕ → Option ℕ
index_of c [] = none
index_of c (b ∷ bs) =
    let rest = index_of c bs in
    if b == c then some 0 else elim rest [ none ↦ none | some i ↦ some (suc i) ]

-- lseek(fd, -back + extra, SEEK_CUR)
unfoldable pub seek_back : (back extra : ℕ) → Io (Unit {0})
seek_back back extra f = (some tt, record f { pos = f.pos + extra - back })

-- One turn, with the bytes that were read and the place of `c` among them: at the end of the file, with
-- a `c`, and without one. `more` are the turns behind it.
abbrev pub scan_chunk : (extra : ℕ) → Io ℕ → List ℕ → Option ℕ → Io ℕ
scan_chunk extra more [] found = pure 0
scan_chunk extra more (b ∷ bs) (some i) = do seek_back (length (b ∷ bs) - i) extra; pure i
scan_chunk extra more (b ∷ bs) none = do n ← more; pure (length (b ∷ bs) + n)

-- One of the two loops: the number of bytes in front of the first `c`, or up to the end of the file.
-- Behind it the position is that of the `c`, plus `extra`.
unfoldable pub scan_loop : (c extra fuel : ℕ) → Io ℕ
unfolding seek_back
scan_loop c extra zero = fail
scan_loop c extra (suc fuel) = do
  got ← read chunk_size
  scan_chunk extra (scan_loop c extra fuel) got (index_of c got)

-- Every turn but the last two reads a byte at least, so that two more than the bytes of the file are
-- enough.
unfoldable pub scan : (c extra : ℕ) → Io ℕ
unfolding scan_loop
scan c extra f = scan_loop c extra (length f.bytes + 2) f

-- The outcomes of calloc.
pub record MemoBuffers : Type 0 where
  pub header_buf : Option Ptr
  pub text_buf : Option Ptr
  pub memo_buf : Option Ptr
  pub category_buf : Option Ptr

-- The name of the category of a record; without categories the code would follow a NULL pointer, and the
-- model fails.
abbrev pub category_name : PdbRecord → Option PdbCategories → Option (List ℕ)
category_name r none = none
category_name r (some c) = pdb_category_get_name (bit_and r.attributes 0x0f) c

-- lseek(fd, 1, SEEK_CUR)
unfoldable pub skip_one : Io (Unit {0})
skip_one f = (some tt, record f { pos = f.pos + 1 })

abbrev pub memo_of : PdbRecord → List ℕ → List ℕ → List ℕ → ℕ → ℕ → Memo
memo_of r header text category header_size text_size = record {
  id = pdb_record_get_unique_id r;
  header = header;
  text = some text;
  category = cstr category;
  record_ptr = r.address;
  header_cp1251_len = header_size;
  text_cp1251_len = text_size;
}

unfoldable pub memos_read_memo :
    (to_utf8 : List ℕ → Option (List ℕ)) → MemoBuffers → Option PdbCategories → PdbRecord → Io Memo
unfolding scan skip_one
memos_read_memo to_utf8 bufs categories r = do
  at ← seek_set r.offset
  guard (at == r.offset)
  header_size ← scan 10 1
  text_size ← scan 0 0
  at ← seek_set r.offset
  guard (at == r.offset)
  header_bytes ← read_chunks bufs.header_buf header_size
  header ← from_option (to_utf8 header_bytes)
  skip_one
  text_bytes ← read_chunks bufs.text_buf text_size
  text ← from_option (to_utf8 text_bytes)
  category ← from_option (category_name r categories)
  _ ← from_option bufs.memo_buf
  _ ← from_option bufs.category_buf
  guard (not (pdb_record_get_unique_id r == 0))
  pure (memo_of r header text category header_size text_size)

-- The loop over the records.
unfoldable pub read_memos :
    (to_utf8 : List ℕ → Option (List ℕ))
    → (PdbRecord → MemoBuffers)
    → Option PdbCategories
    → List PdbRecord
    → Io (List Memo)
unfolding memos_read_memo
read_memos to_utf8 bufs categories [] = pure []
read_memos to_utf8 bufs categories (r ∷ rs) = do
  m ← memos_read_memo to_utf8 (bufs r) categories r
  ms ← read_memos to_utf8 bufs categories rs
  pure (m ∷ ms)

unfoldable pub memos_read :
    (to_utf8 : List ℕ → Option (List ℕ))
    → (memos_buf : Option Ptr) → (calloc : ℕ → Option Ptr) → (PdbRecord → MemoBuffers)
    → Io Memos
unfolding read_memos
memos_read to_utf8 memos_buf calloc bufs = do
  _ ← from_option memos_buf
  rewind
  p ← pdb_read calloc true
  queue ← read_memos to_utf8 bufs p.categories p.records
  pure (record { pdb = p; queue = queue })
