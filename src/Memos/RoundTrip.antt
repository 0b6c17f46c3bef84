-- ===== src/Memos/RoundTrip.antt =====
-- _memos_read_memo after _memos_write_memo.
use palm_sync_daemon.Base.{
  ℕ, ◌+◌, ◌≤◌, ◌<◌, ◌≡◌, ◌≢◌, ◌∙◌, ap, subst, true, Option, some, List, [], ◌∷◌, ◌++◌, length, drop,
  All, arith, append_assoc, length-append,
}
use palm_sync_daemon.File.{File, overwrite, drop-overwrite}
use palm_sync_daemon.File.Writes.{put}
use palm_sync_daemon.Pdb.Types.{Ptr, PdbRecord, PdbCategories}
use palm_sync_daemon.Pdb.Records.{pdb_record_get_unique_id}
use palm_sync_daemon.Memos.Types.{Memo}
use palm_sync_daemon.Memos.WriteMemos.{offset_of, memos_write_memo}
use palm_sync_daemon.Memos.WriteMemos.Laws.{
  encode, text_bytes, TextEncodes, memo_bytes, IsMeasured, write_memo-seeks,
}
use palm_sync_daemon.Memos.ReadMemos.{MemoBuffers, category_name, memo_of, memos_read_memo}
use palm_sync_daemon.Memos.ReadMemos.Laws.{memos_read_memo-gets}

pub drop_put :
    (k : ℕ) (xs bs : List ℕ)
    → 0 < length xs
    → drop k (overwrite k xs bs) ≡ xs ++ drop (length xs) (drop k bs)
drop_put k [] bs h = absurd (omega arith)
drop_put k (x ∷ xs) bs h = drop-overwrite k x xs bs

pub memo_split :
    (header text rest : List ℕ)
    → (header ++ ((10 ∷ []) ++ (text ++ (0 ∷ [])))) ++ rest ≡ header ++ (10 ∷ (text ++ (0 ∷ rest)))
memo_split header text rest = simp append_assoc

module _ (to_cp1251 to_utf8 : List ℕ → Option (List ℕ)) (bufs : MemoBuffers)
    (categories : Option PdbCategories) (a b c d : Ptr)
    (succeed : bufs ≡ record {
      header_buf = some a;
      text_buf = some b;
      memo_buf = some c;
      category_buf = some d;
    }) where
  -- A memo with a text that _memos_write_memo writes at the offset of its record is read back by
  -- _memos_read_memo with the same strings. Conditions: iconv turns back what it has converted,
  -- the memo has the CP1251 lengths of its strings, no newline in the header, no NUL in the text,
  -- a readable file with room, successful allocations, and a record with a category and an ID
  -- other than 0.
  pub memos_read_memo-memos_write_memo :
      (rs : List PdbRecord) (m : Memo) (r : PdbRecord) (text category : List ℕ) (f : File)
      → IsMeasured to_cp1251 m
      → m.text ≡ some text
      → to_utf8 (encode to_cp1251 m.header) ≡ some m.header
      → to_utf8 (encode to_cp1251 text) ≡ some text
      → All (λ x. x ≢ 10) (encode to_cp1251 m.header)
      → All (λ x. x ≢ 0) (encode to_cp1251 text)
      → offset_of m.record_ptr rs ≡ some r.offset
      → category_name r categories ≡ some category
      → pdb_record_get_unique_id r ≢ 0
      → f.readable ≡ true
      → r.offset + length (memo_bytes to_cp1251 m) ≤ f.room
      → (memos_read_memo to_utf8 bufs categories r (memos_write_memo to_cp1251 rs m f).1).0
        ≡ some (memo_of r m.header text category m.header_cp1251_len m.text_cp1251_len)
  memos_read_memo-memos_write_memo rs m r text category f measured has_text back_header back_text
        no_newline no_nul place cat id readable room =
      let bytes = memo_bytes to_cp1251 m in
      let rest = drop (length bytes) (drop r.offset f.bytes) in
      let texts : TextEncodes to_cp1251 (some text) m.text_cp1251_len =
        subst (λ t. TextEncodes to_cp1251 t m.text_cp1251_len) has_text measured.1 in
      let size =
        length-append (encode to_cp1251 m.header)
          ((10 ∷ []) ++ (text_bytes to_cp1251 m.text ++ (0 ∷ []))) in
      let there : drop r.offset (overwrite r.offset bytes f.bytes)
          ≡ encode to_cp1251 m.header ++ (10 ∷ (encode to_cp1251 text ++ (0 ∷ rest))) =
        drop_put r.offset bytes f.bytes (omega (arith, size))
        ∙ ap
            (λ t.
              (encode to_cp1251 m.header ++ ((10 ∷ []) ++ (text_bytes to_cp1251 t ++ (0 ∷ []))))
              ++ rest)
            has_text
        ∙ memo_split (encode to_cp1251 m.header) (encode to_cp1251 text) rest in
      rw
        (
          write_memo-seeks to_cp1251 rs m r.offset f measured place room,
          ← measured.0.counted,
          ← texts.counted,
        )
        (ap (λ (x : Option Memo × File). x.0)
          (memos_read_memo-gets to_utf8 bufs categories r a b c d (encode to_cp1251 m.header)
            (encode to_cp1251 text) m.header text category rest
            (put bytes (record f { pos = r.offset })) readable there no_newline no_nul back_header
            back_text cat succeed id).1)
