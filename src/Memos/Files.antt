-- ===== src/Memos/Files.antt =====
-- memos_read of src/pdb/memos.c on the file that memos_write has written.
use palm_sync_daemon.Base.{
  ℕ, ◌+◌, ◌^◌, ◌≤◌, ◌<◌, ◌≡◌, ◌≢◌, ◌∙◌, refl, sym, ap, true, Option, none, some, List, [], ◌∷◌,
  ◌++◌, map, length, drop, append_assoc, All, arith,
}
use palm_sync_daemon.File.{File, overwrite-zero}
use palm_sync_daemon.File.Reads.{rewind_lem, ahead-skip}
use palm_sync_daemon.File.Writes.{put}
use palm_sync_daemon.Pdb.Types.{Ptr, PdbRecord, PdbCategories, Pdb}
use palm_sync_daemon.Pdb.Records.{pdb_record_get_unique_id}
use palm_sync_daemon.Pdb.Image.{image, PdbFits}
use palm_sync_daemon.Pdb.Places.{Offsets}
use palm_sync_daemon.Pdb.ReadFile.Parses.{fresh_from}
use palm_sync_daemon.Pdb.WriteFile.{drop_dirty}
use palm_sync_daemon.Pdb.WriteFile.Whole.{opened, saved, IsWritable}
use palm_sync_daemon.Pdb.RoundTrip.{InfoAsked, reread, pdb_read-saved}
use palm_sync_daemon.Memos.Types.{Memo}
use palm_sync_daemon.Memos.Edit.{memo_size, text_len}
use palm_sync_daemon.Memos.Layout.{Layout}
use palm_sync_daemon.Memos.Delete.Laws.{Distinct}
use palm_sync_daemon.Memos.WriteMemos.{memos_write}
use palm_sync_daemon.Memos.WriteMemos.Laws.{
  encode, text_bytes, memo_bytes, queue_bytes, IsMeasured, length-text_bytes, length-memo_bytes,
  six_zeroes, memos_write-image,
}
use palm_sync_daemon.Memos.ReadMemos.{MemoBuffers, memo_of, read_memos, memos_read}
use palm_sync_daemon.Memos.ReadMemos.Laws.{name_of, HasName, memos_read_memo-gets}
use palm_sync_daemon.Memos.RoundTrip.{memo_split}

abbrev pub text_or_empty : Option (List ℕ) → List ℕ
text_or_empty none = []
text_or_empty (some text) = text

-- A memo as it is read: a missing text has become an empty one.
abbrev pub read_back : Memo → PdbRecord → (category : List ℕ) → Memo
read_back m r category =
    memo_of r m.header (text_or_empty m.text) category m.header_cp1251_len (text_len m)

abbrev pub queue_back : Option PdbCategories → List Memo → List PdbRecord → List Memo
queue_back categories [] rs = []
queue_back categories (m ∷ ms) [] = []
queue_back categories (m ∷ ms) (r ∷ rs) =
    read_back m r (name_of categories r) ∷ queue_back categories ms rs

abbrev pub HasId : PdbRecord → Type 0
HasId r = pdb_record_get_unique_id r ≢ 0

abbrev pub all_allocated : Ptr → Ptr → Ptr → Ptr → MemoBuffers
all_allocated a b c d = record {
  header_buf = some a;
  text_buf = some b;
  memo_buf = some c;
  category_buf = some d;
}

-- The strings of a memo come back from their CP1251 bytes, which do not hold the byte that ends them.
pub record ReadsBack (to_cp1251 to_utf8 : List ℕ → Option (List ℕ)) (m : Memo) : Type 0 where
  pub header_back : to_utf8 (encode to_cp1251 m.header) ≡ some m.header
  pub text_back : to_utf8 (text_bytes to_cp1251 m.text) ≡ some (text_or_empty m.text)
  pub no_newline : All (λ x. x ≢ 10) (encode to_cp1251 m.header)
  pub no_nul : All (λ x. x ≢ 0) (text_bytes to_cp1251 m.text)

fresh-Offsets :
    (new : ℕ → Ptr) (i at : ℕ) (ms : List Memo) (rs : List PdbRecord)
    → Layout at ms rs
    → Offsets memo_size at ms (fresh_from new i (map drop_dirty rs))
fresh-Offsets new i at [] [] l = tt
fresh-Offsets new i at [] (r ∷ rs) l = elim l [ ]
fresh-Offsets new i at (m ∷ ms) [] l = elim l [ ]
fresh-Offsets new i at (m ∷ ms) (r ∷ rs) l =
    (l.0.offset_is, fresh-Offsets new (i + 1) (at + memo_size m) ms rs l.1)

module _ (to_cp1251 to_utf8 : List ℕ → Option (List ℕ)) (a b c d : Ptr) where
  read_memos-gets :
      (categories : Option PdbCategories) (ms : List Memo) (rs : List PdbRecord) (at : ℕ)
      (rest : List ℕ) (f : File)
      → Offsets memo_size at ms rs
      → All (IsMeasured to_cp1251) ms
      → All (ReadsBack to_cp1251 to_utf8) ms
      → All (HasName categories) rs
      → All HasId rs
      → f.readable ≡ true
      → drop at f.bytes ≡ queue_bytes to_cp1251 ms ++ rest
      → (k : ℕ) × (read_memos to_utf8 (λ _. all_allocated a b c d) categories rs f
          ≡ (some (queue_back categories ms rs), record f { pos = k }))
  unfolding read_memos
  read_memos-gets categories [] [] at rest f o measured back named ids readable h = (f.pos, refl)
  read_memos-gets categories [] (r ∷ rs) at rest f o measured back named ids readable h = elim o [ ]
  read_memos-gets categories (m ∷ ms) [] at rest f o measured back named ids readable h = elim o [ ]
  read_memos-gets categories (m ∷ ms) (r ∷ rs) at rest f o measured back named ids readable h =
      let bytes = memo_bytes to_cp1251 m in
      let xs = encode to_cp1251 m.header in
      let ys = text_bytes to_cp1251 m.text in
      let tail = queue_bytes to_cp1251 ms ++ rest in
      let here : drop at f.bytes ≡ bytes ++ tail =
        h ∙ append_assoc bytes (queue_bytes to_cp1251 ms) rest in
      let there : drop r.offset f.bytes ≡ xs ++ (10 ∷ (ys ++ (0 ∷ tail))) =
        ap (λ n. drop n f.bytes) o.0 ∙ here ∙ memo_split xs ys tail in
      let behind : drop (at + memo_size m) f.bytes ≡ tail =
        ap (λ n. drop (at + n) f.bytes) (sym (length-memo_bytes to_cp1251 m measured.0))
        ∙ ahead-skip (record f { pos = at }) bytes tail here in
      let (k, one) =
        memos_read_memo-gets to_utf8 (all_allocated a b c d) categories r a b c d xs ys m.header
          (text_or_empty m.text) (name_of categories r) tail f readable there back.0.no_newline
          back.0.no_nul back.0.header_back back.0.text_back named.0 refl ids.0 in
      let (j, others) =
        read_memos-gets categories ms rs (at + memo_size m) rest (record f { pos = k }) o.1
          measured.1 back.1 named.1 ids.1 readable behind in
      (j, rw (one, others, (measured.0).0.counted, length-text_bytes to_cp1251 m (measured.0).1))

  module _ {calloc : ℕ → Option Ptr} {new : ℕ → Ptr} (works : (i : ℕ) → calloc i ≡ some (new i))
      (memos_ptr : Ptr) where
    -- memos_read on the file that memos_write has written gives the PDB structure back and every
    -- memo with its strings, its lengths and its new record; a missing text comes back empty.
    -- Conditions: the structure can be written and its fields fit, the layout begins six bytes
    -- behind its image, memos have IDs and records of their own and the CP1251 lengths of their
    -- strings, iconv turns back what it has converted, no newline in a header, no NUL in a text,
    -- categories with names, IDs other than 0, a readable file with room, and every allocation
    -- succeeds.
    pub memos_read-memos_write :
        (m : Memo) (ms : List Memo) (p : Pdb) (f : File)
        → PdbFits p
        → IsWritable p
        → InfoAsked true p p.categories
        → let front = image (saved p) in
          Layout (length front + 6) (m ∷ ms) p.records
          → Distinct (m ∷ ms)
          → All (IsMeasured to_cp1251) (m ∷ ms)
          → All (ReadsBack to_cp1251 to_utf8) (m ∷ ms)
          → All (HasName (reread new p).categories) (reread new p).records
          → All HasId (reread new p).records
          → f.readable ≡ true
          → length front + 6 < 2 ^ 32
          → length front + 6 + length (queue_bytes to_cp1251 (m ∷ ms)) ≤ f.room
          → (memos_read to_utf8
              (some memos_ptr)
              calloc
              (λ _. all_allocated a b c d)
              (memos_write to_cp1251 (m ∷ ms) (opened p f)).1.file).0
            ≡ some (record {
              pdb = reread new p;
              queue = queue_back (reread new p).categories (m ∷ ms) (reread new p).records;
            })
    unfolding memos_read
    memos_read-memos_write m ms p f fits w info l d measured back named ids readable small room =
        let front = image (saved p) in
        let body = queue_bytes to_cp1251 (m ∷ ms) in
        let contents = front ++ (six_zeroes ++ body) in
        let g = put contents (record f { pos = 0 }) in
        let rest = drop (length contents) f.bytes in
        let whole : g.bytes ≡ front ++ (six_zeroes ++ (body ++ rest)) =
          overwrite-zero contents f.bytes
          ∙ append_assoc front (six_zeroes ++ body) rest
          ∙ ap (λ t. front ++ t) (append_assoc six_zeroes body rest) in
        let (k, first) =
          pdb_read-saved works true p (record g { pos = 0 }) _ fits w info readable whole in
        let zeroes : drop (length front) g.bytes ≡ six_zeroes ++ (body ++ rest) =
          ap (λ n. drop n g.bytes) {y = 0 + length front} (omega arith)
          ∙ ahead-skip (record g { pos = 0 }) front (six_zeroes ++ (body ++ rest)) whole in
        let there : drop (length front + 6) g.bytes ≡ body ++ rest =
          ahead-skip (record g { pos = length front }) six_zeroes (body ++ rest) zeroes in
        let (j, memos) =
          read_memos-gets (reread new p).categories (m ∷ ms) (reread new p).records
            (length front + 6) rest (record g { pos = k })
            (fresh-Offsets new 1 (length front + 6) (m ∷ ms) p.records l) measured back named ids
            readable there in
        rw (
          memos_write-image to_cp1251 m ms p f w l d measured small room,
          rewind_lem g,
          first,
          memos,
        )
