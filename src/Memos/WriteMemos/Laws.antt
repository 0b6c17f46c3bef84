-- ===== src/Memos/WriteMemos/Laws.antt =====
-- The bytes that memos_write of src/pdb/memos.c puts into the file.
use palm_sync_daemon.Base.{
  ℕ, ◌+◌, ◌^◌, ◌≤◌, ◌<◌, ◌≡◌, ◌≢◌, ◌∙◌, refl, sym, ap, true, false, Option, none, some, List, [],
  ◌∷◌, ◌++◌, map, length, length-append, All, ◌==◌, ==_iff, ==_refl, arith,
}
use palm_sync_daemon.File.{File, seek_set, tell}
use palm_sync_daemon.File.Reads.{rewind_lem}
use palm_sync_daemon.File.Writes.{
  Writes, put, put-nil, put-append, write_all-Writes, pure-Writes, >>-Writes,
}
use palm_sync_daemon.Pdb.Types.{Ptr, PdbRecord, Pdb}
use palm_sync_daemon.Pdb.Image.{image}
use palm_sync_daemon.Pdb.WriteFile.{drop_dirty, on_file, get}
use palm_sync_daemon.Pdb.WriteFile.Whole.{opened, saved, IsWritable, pdb_write-image}
use palm_sync_daemon.Helper.Chunks.Laws.{write_chunks-Writes}
use palm_sync_daemon.Memos.Types.{Memo}
use palm_sync_daemon.Memos.Edit.{memo_size, text_len}
use palm_sync_daemon.Memos.Layout.{Layout}
use palm_sync_daemon.Memos.Delete.Laws.{Distinct}
use palm_sync_daemon.Memos.WriteMemos.{
  offset_of, gap, write_text, write_strings, memos_write_memo, write_queue, write_memos,
  memos_write,
}

-- The bytes and their number as the memo has noted it.
pub record Encodes (to_cp1251 : List ℕ → Option (List ℕ)) (s bytes : List ℕ) (len : ℕ)
    : Type 0 where
  pub encoded : to_cp1251 s ≡ some bytes
  pub counted : length bytes ≡ len

module _ (to_cp1251 : List ℕ → Option (List ℕ)) where
  abbrev pub bytes_or_none : Option (List ℕ) → List ℕ
  bytes_or_none none = []
  bytes_or_none (some bytes) = bytes

  abbrev pub encode : List ℕ → List ℕ
  encode s = bytes_or_none (to_cp1251 s)

  abbrev pub text_bytes : Option (List ℕ) → List ℕ
  text_bytes none = []
  text_bytes (some t) = encode t

  abbrev pub memo_bytes : Memo → List ℕ
  memo_bytes m = encode m.header ++ ((10 ∷ []) ++ (text_bytes m.text ++ (0 ∷ [])))

  abbrev pub queue_bytes : List Memo → List ℕ
  queue_bytes [] = []
  queue_bytes (m ∷ ms) = memo_bytes m ++ queue_bytes ms

  abbrev pub TextEncodes : Option (List ℕ) → ℕ → Type 0
  TextEncodes none len = Unit
  TextEncodes (some t) len = Encodes to_cp1251 t (encode t) len

  -- The strings can be converted, and the memo has the lengths of the results.
  abbrev pub IsMeasured : Memo → Type 0
  IsMeasured m =
      Encodes to_cp1251 m.header (encode m.header) m.header_cp1251_len
      × TextEncodes m.text m.text_cp1251_len

  write_text-Writes :
      (text : Option (List ℕ)) (len : ℕ)
      → TextEncodes text len
      → Writes (write_text to_cp1251 text len) (text_bytes text)
  unfolding write_text
  write_text-Writes none len h = pure-Writes
  write_text-Writes (some t) len h = rw h.encoded (write_chunks-Writes (encode t) len h.counted)

  write_strings-Writes :
      (m : Memo) → IsMeasured m → Writes (write_strings to_cp1251 m) (memo_bytes m)
  unfolding write_strings
  write_strings-Writes m h = rw h.0.encoded (
      >>-Writes (write_chunks-Writes (encode m.header) m.header_cp1251_len h.0.counted) (
        >>-Writes (write_all-Writes 10 [])
          (>>-Writes (write_text-Writes m.text m.text_cp1251_len h.1) (write_all-Writes 0 []))))

  pub length-text_bytes :
      (m : Memo) → TextEncodes m.text m.text_cp1251_len → length (text_bytes m.text) ≡ text_len m
  length-text_bytes m h = by_text m.text h
    where
      by_text :
          (text : Option (List ℕ))
          → TextEncodes text m.text_cp1251_len
          → length (text_bytes text) ≡ elim text [ none ↦ 0 | some t ↦ m.text_cp1251_len ]
      by_text none h = refl
      by_text (some t) h = h.counted

  pub length-memo_bytes : (m : Memo) → IsMeasured m → length (memo_bytes m) ≡ memo_size m
  length-memo_bytes m h = omega (
    arith,
    length-append (encode m.header) ((10 ∷ []) ++ (text_bytes m.text ++ (0 ∷ []))),
    length-append (text_bytes m.text) (0 ∷ []),
    h.0.counted,
    length-text_bytes m h.1,
  )

-- Every memo finds its record, and stands behind the memo in front of it.
abbrev Placed : List PdbRecord → ℕ → List Memo → Type 0
Placed rs at [] = Unit
Placed rs at (m ∷ ms) = (offset_of m.record_ptr rs ≡ some at) × Placed rs (at + memo_size m) ms

Placed-cons :
    (r : PdbRecord) (rs : List PdbRecord) (at : ℕ) (ms : List Memo)
    → All (λ q. q.record_ptr ≢ r.address) ms
    → Placed rs at ms
    → Placed (r ∷ rs) at ms
Placed-cons r rs at [] h p = tt
Placed-cons r rs at (m ∷ ms) h p =
    let other : (r.address == m.record_ptr) ≡ false = ground (arith, h.0) in
    (rw (other, p.0), Placed-cons r rs (at + memo_size m) ms h.1 p.1)

apart_from :
    (m : Memo) (a : Ptr) (ms : List Memo)
    → m.record_ptr ≡ a
    → All (λ q. (q.id ≢ m.id) × (q.record_ptr ≢ m.record_ptr)) ms
    → All (λ q. q.record_ptr ≢ a) ms
apart_from m a [] e h = tt
apart_from m a (q ∷ qs) e h = (λ f. h.0.1 (f ∙ sym e), apart_from m a qs e h.1)

Layout-Placed :
    (at : ℕ) (ms : List Memo) (rs : List PdbRecord)
    → Layout at ms rs
    → Distinct ms
    → Placed rs at ms
Layout-Placed at [] rs l d = tt
Layout-Placed at (m ∷ ms) [] l d = elim l [ ]
Layout-Placed at (m ∷ ms) (r ∷ rs) l d =
    let here : (r.address == m.record_ptr) ≡ true = (==_iff _ _).1 (sym l.0.points_to) in
    (
      rw here (ap some l.0.offset_is),
      Placed-cons r rs (at + memo_size m) ms (apart_from m r.address ms l.0.points_to d.0)
          (Layout-Placed (at + memo_size m) ms rs l.1 d.1),
    )

drop_dirty-Layout :
    (at : ℕ) (ms : List Memo) (rs : List PdbRecord)
    → Layout at ms rs
    → Layout at ms (map drop_dirty rs)
drop_dirty-Layout at [] [] l = tt
drop_dirty-Layout at [] (r ∷ rs) l = elim l [ ]
drop_dirty-Layout at (m ∷ ms) [] l = elim l [ ]
drop_dirty-Layout at (m ∷ ms) (r ∷ rs) l = (
  record { offset_is = l.0.offset_is; points_to = l.0.points_to; id_is = l.0.id_is },
  drop_dirty-Layout (at + memo_size m) ms rs l.1,
)

module _ (to_cp1251 : List ℕ → Option (List ℕ)) (rs : List PdbRecord) where
  -- At the place of the memo the seek changes nothing.
  -- A memo is written at the offset of its record, wherever the position was.
  pub write_memo-seeks :
      (m : Memo) (at : ℕ) (f : File)
      → IsMeasured to_cp1251 m
      → offset_of m.record_ptr rs ≡ some at
      → at + length (memo_bytes to_cp1251 m) ≤ f.room
      → memos_write_memo to_cp1251 rs m f
        ≡ (some tt, put (memo_bytes to_cp1251 m) (record f { pos = at }))
  unfolding memos_write_memo seek_set
  write_memo-seeks m at f h e room =
      rw (e, ==_refl at)
        ((write_strings-Writes to_cp1251 m h).run (record f { pos = at }) (omega arith))

  write_memo-puts :
      (m : Memo) (at : ℕ) (f : File)
      → IsMeasured to_cp1251 m
      → offset_of m.record_ptr rs ≡ some at
      → f.pos ≡ at
      → at + length (memo_bytes to_cp1251 m) ≤ f.room
      → memos_write_memo to_cp1251 rs m f ≡ (some tt, put (memo_bytes to_cp1251 m) f)
  write_memo-puts m at f h e same room =
      write_memo-seeks m at f h e room
      ∙ ap (λ n. (some tt, put (memo_bytes to_cp1251 m) (record f { pos = n }))) (sym same)

  write_queue-puts :
      (ms : List Memo) (at : ℕ) (f : File)
      → Placed rs at ms
      → All (IsMeasured to_cp1251) ms
      → f.pos ≡ at
      → at + length (queue_bytes to_cp1251 ms) ≤ f.room
      → write_queue to_cp1251 rs ms f ≡ (some tt, put (queue_bytes to_cp1251 ms) f)
  unfolding write_queue
  write_queue-puts [] at f p h same room = ap (λ g. (some tt, g)) (sym (put-nil f))
  write_queue-puts (m ∷ ms) at f p h same room =
      let one = memo_bytes to_cp1251 m in
      let others = queue_bytes to_cp1251 ms in
      let size = length-memo_bytes to_cp1251 m h.0 in
      rw
        (
          write_memo-puts m at f h.0 p.0 same (omega (arith, length-append one others)),
          ← put-append f one others,
        )
        (write_queue-puts ms (at + memo_size m) (put one f) p.1 h.1 (omega (arith, size))
          (omega (arith, size, length-append one others)))

abbrev pub six_zeroes : List ℕ
six_zeroes = 0 ∷ 0 ∷ 0 ∷ 0 ∷ 0 ∷ 0 ∷ []

gap_lem : (offset at : ℕ) → offset ≡ at + 6 → offset < 2 ^ 32 → (gap offset at == 6) ≡ true
gap_lem offset at e h = ground arith

module _ (to_cp1251 : List ℕ → Option (List ℕ)) where
  write_memos-puts :
      (m : Memo) (ms : List Memo) (rs : List PdbRecord) (at : ℕ) (f : File)
      → Layout (at + 6) (m ∷ ms) rs
      → Distinct (m ∷ ms)
      → All (IsMeasured to_cp1251) (m ∷ ms)
      → f.pos ≡ at
      → at + 6 < 2 ^ 32
      → at + 6 + length (queue_bytes to_cp1251 (m ∷ ms)) ≤ f.room
      → write_memos to_cp1251 rs (m ∷ ms) f
        ≡ (some tt, put (six_zeroes ++ queue_bytes to_cp1251 (m ∷ ms)) f)
  unfolding write_memos tell
  write_memos-puts m ms [] at f l d h same small room = elim l [ ]
  write_memos-puts m ms (r ∷ rs) at f l d h same small room =
      let bytes = queue_bytes to_cp1251 (m ∷ ms) in
      rw
        (
          gap_lem r.offset f.pos (omega (arith, l.0.offset_is)) (omega (arith, l.0.offset_is)),
          (write_all-Writes 0 (0 ∷ 0 ∷ 0 ∷ 0 ∷ 0 ∷ [])).run f (omega arith),
          ← put-append f six_zeroes bytes,
        )
        (write_queue-puts to_cp1251 (r ∷ rs) (m ∷ ms) (at + 6) (put six_zeroes f)
          (Layout-Placed (at + 6) (m ∷ ms) (r ∷ rs) l d) h (omega arith) (omega arith))

  -- memos_write makes the start of the file the image of the PDB structure, the gap of six zeroes
  -- and the memos, each as its header, a newline, its text and a NUL. Conditions: the structure
  -- can be written, there is a memo, the layout begins six bytes behind the image, memos have IDs
  -- and records of their own and the CP1251 lengths of their strings, and the file has room.
  pub memos_write-image :
      (m : Memo) (ms : List Memo) (p : Pdb) (f : File)
      → IsWritable p
      → let front = image (saved p) in
        Layout (length front + 6) (m ∷ ms) p.records
        → Distinct (m ∷ ms)
        → All (IsMeasured to_cp1251) (m ∷ ms)
        → length front + 6 < 2 ^ 32
        → length front + 6 + length (queue_bytes to_cp1251 (m ∷ ms)) ≤ f.room
        → memos_write to_cp1251 (m ∷ ms) (opened p f) ≡ (
          some tt,
          opened (saved p) (
              put (front ++ (six_zeroes ++ queue_bytes to_cp1251 (m ∷ ms))) (record f { pos = 0 })),
        )
  unfolding memos_write on_file get
  memos_write-image m ms p f w l d h small room =
      let front = image (saved p) in
      let start = record f { pos = 0 } in
      rw (
        rewind_lem f,
        pdb_write-image p start w (omega (arith, room)),
        write_memos-puts m ms (saved p).records (length front) (put front start)
            (drop_dirty-Layout (length front + 6) (m ∷ ms) p.records l) d h (omega arith) small
            room,
        put-append start front (six_zeroes ++ queue_bytes to_cp1251 (m ∷ ms)),
      )
