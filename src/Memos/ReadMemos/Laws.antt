-- ===== src/Memos/ReadMemos/Laws.antt =====
-- What _memos_read_memo gets from a file with a memo at the offset of the record.
use palm_sync_daemon.Base.{
  ℕ, ◌+◌, ◌≡◌, ◌≢◌, ◌∙◌, ap, true, Option, none, some, List, [], ◌∷◌, ◌++◌, length, drop, drop-drop,
  All, ◌==◌, ==_refl, not, arith,
}
use palm_sync_daemon.File.{File, seek_set}
use palm_sync_daemon.File.Reads.{ahead, skip, ahead-skip}
use palm_sync_daemon.Pdb.Types.{Ptr, PdbRecord, PdbCategories}
use palm_sync_daemon.Pdb.Records.{pdb_record_get_unique_id}
use palm_sync_daemon.Helper.Chunks.Laws.{read_chunks-Reads}
use palm_sync_daemon.Memos.ReadMemos.{
  MemoBuffers, category_name, skip_one, memo_of, memos_read_memo,
}
use palm_sync_daemon.Memos.ReadMemos.Scan.{scan-finds}

abbrev bytes_or_nil : Option (List ℕ) → List ℕ
bytes_or_nil none = []
bytes_or_nil (some bs) = bs

-- The name of a record's category, which is there.
abbrev pub name_of : Option PdbCategories → PdbRecord → List ℕ
name_of categories r = bytes_or_nil (category_name r categories)

abbrev pub HasName : Option PdbCategories → PdbRecord → Type 0
HasName categories r = category_name r categories ≡ some (name_of categories r)

-- Where the bytes at the offset of the record are a header, a newline, a text and a NUL,
-- _memos_read_memo gives the memo with both converted, and their lengths in the file. Conditions:
-- no newline in the header, no NUL in the text, every allocation and conversion succeeds, the
-- record has a category and an ID other than 0.
pub memos_read_memo-gets :
    (to_utf8 : List ℕ → Option (List ℕ)) (bufs : MemoBuffers) (categories : Option PdbCategories)
    (r : PdbRecord) (a b c d : Ptr) (xs ys header text category rest : List ℕ) (f : File)
    → f.readable ≡ true
    → drop r.offset f.bytes ≡ xs ++ (10 ∷ (ys ++ (0 ∷ rest)))
    → All (λ x. x ≢ 10) xs
    → All (λ x. x ≢ 0) ys
    → to_utf8 xs ≡ some header
    → to_utf8 ys ≡ some text
    → category_name r categories ≡ some category
    → bufs
      ≡ record { header_buf = some a; text_buf = some b; memo_buf = some c; category_buf = some d }
    → pdb_record_get_unique_id r ≢ 0
    → (k : ℕ) × (memos_read_memo to_utf8 bufs categories r f
        ≡ (some (memo_of r header text category (length xs) (length ys)), record f { pos = k }))
unfolding memos_read_memo seek_set skip_one
memos_read_memo-gets to_utf8 bufs categories r a b c d xs ys header text category rest f readable e
      no_newline no_nul eh et ec eb id =
    let at_start = record f { pos = r.offset } in
    let tail = ys ++ (0 ∷ rest) in
    let newline = ahead-skip at_start xs (10 ∷ tail) e in
    let text_file = record f { pos = r.offset + length xs + 1 } in
    let text_there : ahead text_file ≡ tail =
      drop-drop 1 (r.offset + length xs) f.bytes ∙ ap (drop 1) newline in
    let behind : ahead (skip (length xs + 1) at_start) ≡ tail =
      ap (λ n. drop n f.bytes) {y = r.offset + length xs + 1} (omega arith) ∙ text_there in
    let nonzero : not (pdb_record_get_unique_id r == 0) ≡ true = ground (arith, id) in
    (
      r.offset + length xs + 1 + length ys,
      rw (
        eb,
        ==_refl r.offset,
        scan-finds 10 1 xs tail at_start no_newline readable e,
        scan-finds 0 0 ys rest (skip (length xs + 1) at_start) no_nul readable behind,
        ==_refl r.offset,
        (read_chunks-Reads a xs).run at_start (10 ∷ tail) readable e,
        eh,
        (read_chunks-Reads b ys).run text_file (0 ∷ rest) readable text_there,
        et,
        ec,
        nonzero,
      ),
    )
