-- ===== src/Memos/Change/Laws.antt =====
-- The layout of the memos under memos_memo_edit of src/pdb/memos.c.
use palm_sync_daemon.Base.{
  ℕ, ◌+◌, ◌-◌, ◌%◌, ◌^◌, ◌<◌, ◌≡◌, ◌≢◌, inl, inr, refl, sym, ap, subst, true, false, Option, none,
  some, List, [], ◌∷◌, map, length, ◌==◌, ==_iff, ==_refl, Bool-cases, if◌then◌else◌, arith,
}
use palm_sync_daemon.File.Ensures.{Ensures, after_option, after_guard, ensured}
use palm_sync_daemon.Libc.SortSearch.{SortSearch, In}
use palm_sync_daemon.Pdb.Types.{Ptr, PdbRecord}
use palm_sync_daemon.Memos.Types.{Memo, Memos}
use palm_sync_daemon.Memos.Find.{memos_memo_get}
use palm_sync_daemon.Memos.Find.Laws.{memos_memo_get-cases}
use palm_sync_daemon.Memos.Edit.{memo_size, text_len, shift_by}
use palm_sync_daemon.Memos.Layout.{Belongs, Layout, layout_end, end_grows}
use palm_sync_daemon.Memos.Delete.Laws.{Distinct, all_of_In}
use palm_sync_daemon.Memos.Change.{
  header_room, text_room, new_category, diff_of, size_diff, rewritten, rewrite_memo, recategorised,
  rewrite_records, memos_memo_edit,
}

shift_Layout :
    (a b d : ℕ) (ms : List Memo) (rs : List PdbRecord)
    → Layout a ms rs
    → (a + d) % 2 ^ 32 ≡ b
    → layout_end b ms < 2 ^ 32
    → Layout b ms (map (shift_by d) rs)
shift_Layout a b d [] [] l e h = tt
shift_Layout a b d [] (r ∷ rs) l e h = elim l [ ]
shift_Layout a b d (m ∷ ms) [] l e h = elim l [ ]
shift_Layout a b d (m ∷ ms) (r ∷ rs) l e h =
    let grown = end_grows (b + memo_size m) ms in
    (
      record { offset_is = rw l.0.offset_is e; points_to = l.0.points_to; id_is = l.0.id_is },
      shift_Layout (a + memo_size m) (b + memo_size m) d ms rs l.1 (omega (arith, grown, h, e)) h,
    )

-- The memo with the lengths of its strings.
abbrev pub measured : ℕ → ℕ → Memo → Memo
measured header_len text_len m = record m {
  header_cp1251_len = header_len;
  text_cp1251_len = text_len;
}

abbrev pub measure_memo : ℕ → ℕ → Ptr → List Memo → List Memo
measure_memo header_len text_len a [] = []
measure_memo header_len text_len a (m ∷ ms) =
    let rest = measure_memo header_len text_len a ms in
    if m.record_ptr == a then measured header_len text_len m ∷ ms else m ∷ rest

recategorised-Belongs :
    (category : Option ℕ) (at : ℕ) (m : Memo) (r : PdbRecord)
    → Belongs at m r
    → Belongs at m (recategorised category r)
recategorised-Belongs none at m r b = b
recategorised-Belongs (some c) at m r b = record {
  offset_is = b.offset_is;
  points_to = b.points_to;
  id_is = b.id_is;
}

module _ (header text : Option (List ℕ)) (category : Option ℕ) (header_len new_text_len : ℕ) where
  abbrev pub edited : Memo → Memo
  edited m = measured header_len new_text_len (rewritten header text m)

  abbrev pub edit_queue : Memo → List Memo → List Memo
  edit_queue m ms =
      measure_memo header_len new_text_len m.record_ptr (rewrite_memo header text m.record_ptr ms)

  first_Layout :
      (at d : ℕ) (m : Memo) (ms : List Memo) (r : PdbRecord) (rs : List PdbRecord)
      → Layout at (m ∷ ms) (r ∷ rs)
      → (memo_size m + d) % 2 ^ 32 ≡ memo_size (edited m)
      → layout_end at (edit_queue m (m ∷ ms)) < 2 ^ 32
      → Layout at (edit_queue m (m ∷ ms)) (rewrite_records category d m.record_ptr (r ∷ rs))
  first_Layout at d m ms r rs l e h =
      let there : (r.address == m.record_ptr) ≡ true = (==_iff _ _).1 (sym l.0.points_to) in
      let own = ==_refl m.record_ptr in
      let whole : edit_queue m (m ∷ ms) ≡ edited m ∷ ms = rw (own, own) in
      let end_fits : layout_end (at + memo_size (edited m)) ms < 2 ^ 32 =
        subst (λ q. layout_end at q < 2 ^ 32) whole h in
      let grown = end_grows (at + memo_size (edited m)) ms in
      let behind =
        shift_Layout (at + memo_size m) (at + memo_size (edited m)) d ms rs l.1
          (omega (arith, e, grown, end_fits)) end_fits in
      let changed : Belongs at (edited m) r = record {
        offset_is = l.0.offset_is;
        points_to = l.0.points_to;
        id_is = l.0.id_is;
      } in
      subst (λ q. Layout at q (rewrite_records category d m.record_ptr (r ∷ rs))) (sym whole)
        (rw there (recategorised-Belongs category at (edited m) r changed, behind))

  rewrite_Layout :
      (at d : ℕ) (ms : List Memo) (rs : List PdbRecord) (m : Memo)
      → Layout at ms rs
      → Distinct ms
      → In m ms
      → (memo_size m + d) % 2 ^ 32 ≡ memo_size (edited m)
      → layout_end at (edit_queue m ms) < 2 ^ 32
      → Layout at (edit_queue m ms) (rewrite_records category d m.record_ptr rs)
  rewrite_Layout at d [] rs m l dis i e h = elim i [ ]
  rewrite_Layout at d (m' ∷ ms) [] m l dis i e h = elim l [ ]
  rewrite_Layout at d (m' ∷ ms) (r ∷ rs) m l dis (inl same) e h =
      subst
        (λ q.
          (memo_size q + d) % 2 ^ 32 ≡ memo_size (edited q)
          → layout_end at (edit_queue q (m' ∷ ms)) < 2 ^ 32
          → Layout at (edit_queue q (m' ∷ ms)) (rewrite_records category d q.record_ptr (r ∷ rs)))
        (sym same) (first_Layout at d m' ms r rs l) e h
  rewrite_Layout at d (m' ∷ ms) (r ∷ rs) m l dis (inr i) e h =
      let apart = all_of_In (λ q. (q.id ≢ m'.id) × (q.record_ptr ≢ m'.record_ptr)) ms m dis.0 i in
      let other : (m'.record_ptr == m.record_ptr) ≡ false = ground (arith, apart.1) in
      let passed : (r.address == m.record_ptr) ≡ false = ground (arith, apart.1, l.0.points_to) in
      let whole : edit_queue m (m' ∷ ms) ≡ m' ∷ edit_queue m ms = rw (other, other) in
      subst (λ q. Layout at q (rewrite_records category d m.record_ptr (r ∷ rs))) (sym whole)
        (rw passed (
          l.0,
          rewrite_Layout (at + memo_size m') d ms rs m l.1 dis.1 i e
              (subst (λ q. layout_end at q < 2 ^ 32) whole h),
        ))

abbrev pub len_of : Option (List ℕ) → ℕ → ℕ
len_of none old = old
len_of (some bytes) old = length bytes

-- The length in CP1251 of the new string, or the old length if there is none.
abbrev pub new_len : (List ℕ → Option (List ℕ)) → Option (List ℕ) → ℕ → ℕ
new_len to_cp1251 none old = old
new_len to_cp1251 (some s) old = len_of (to_cp1251 s) old

diff_of_lem :
    (o : Option (List ℕ)) (old d : ℕ)
    → old < 2 ^ 32
    → diff_of o old ≡ some d
    → (old + d) % 2 ^ 32 ≡ len_of o old % 2 ^ 32
diff_of_lem none old d h e = absurd cc
diff_of_lem (some bytes) old d h e =
    let is : (length bytes + 2 ^ 32 - old % 2 ^ 32) % 2 ^ 32 ≡ d = cc in omega (arith, is)

size_diff_lem :
    (to_cp1251 : List ℕ → Option (List ℕ)) (new : Option (List ℕ)) (old d : ℕ)
    → old < 2 ^ 32
    → size_diff to_cp1251 new old ≡ some d
    → (old + d) % 2 ^ 32 ≡ new_len to_cp1251 new old % 2 ^ 32
unfolding size_diff
size_diff_lem to_cp1251 none old d h e = let is : 0 ≡ d = cc in omega (arith, is)
size_diff_lem to_cp1251 (some s) old d h e = diff_of_lem (to_cp1251 s) old d h e

text_len-edited :
    (to_cp1251 : List ℕ → Option (List ℕ)) (header text : Option (List ℕ)) (header_len : ℕ)
    (m : Memo)
    → text_len m ≡ m.text_cp1251_len
    → text_len (edited header text none header_len (new_len to_cp1251 text m.text_cp1251_len) m)
      ≡ new_len to_cp1251 text m.text_cp1251_len
text_len-edited to_cp1251 header none header_len m counted = counted
text_len-edited to_cp1251 header (some t) header_len m counted = refl

got_In :
    (lib : SortSearch) (id : ℕ) (m : Memos) (memo : Memo)
    → m.pdb.records_qty ≡ length m.queue % 2 ^ 16
    → memos_memo_get lib id m ≡ some memo
    → In memo m.queue
got_In lib id m memo qty e = elim (memos_memo_get-cases lib id m qty) [
  | inl (found, f, i, own) ↦ (let same : found ≡ memo = cc in subst (λ q. In q m.queue) same i)
  | inr (f, other) ↦ absurd cc
]

-- The two lengths that a memo keeps.
abbrev pub noted_lengths : Memo → ℕ × ℕ
noted_lengths m = (m.header_cp1251_len, m.text_cp1251_len)

rewrite_memo-lengths :
    (header text : Option (List ℕ)) (a : Ptr) (ms : List Memo)
    → map noted_lengths (rewrite_memo header text a ms) ≡ map noted_lengths ms
rewrite_memo-lengths header text a [] = refl
rewrite_memo-lengths header text a (m ∷ ms) = elim (Bool-cases (m.record_ptr == a)) [
  | inl here ↦ rw here
  | inr other ↦ rw other (ap (◌∷◌ (noted_lengths m)) (rewrite_memo-lengths header text a ms))
]

module _ (lib : SortSearch) (to_cp1251 : List ℕ → Option (List ℕ)) (id : ℕ)
    (header text category : Option (List ℕ)) (at : ℕ) (m : Memos) (memo : Memo) where
  -- The queue as it is with the lengths of the new strings noted in the memo.
  abbrev pub recounted : List Memo → List Memo
  recounted ms =
      measure_memo (new_len to_cp1251 header memo.header_cp1251_len)
        (new_len to_cp1251 text memo.text_cp1251_len) memo.record_ptr ms

  Relaid : Unit {0} → Memos → Type 0
  Relaid _ m' =
      Layout at (recounted m'.queue) m'.pdb.records
      × (map noted_lengths m'.queue ≡ map noted_lengths m.queue)

  edit-Ensures :
      (header_buf text_buf : Option Ptr)
      → Layout at m.queue m.pdb.records
      → Distinct m.queue
      → m.pdb.records_qty ≡ length m.queue % 2 ^ 16
      → memos_memo_get lib id m ≡ some memo
      → text_len memo ≡ memo.text_cp1251_len
      → memo_size memo < 2 ^ 32
      → layout_end at (recounted (rewrite_memo header text memo.record_ptr m.queue)) < 2 ^ 32
      → new_len to_cp1251 header memo.header_cp1251_len
          + new_len to_cp1251 text memo.text_cp1251_len
          + 2
        < 2 ^ 32
      → Ensures Relaid (memos_memo_edit lib to_cp1251 header_buf text_buf id header text category m)
  unfolding memos_memo_edit Relaid
  edit-Ensures header_buf text_buf l dis qty e counted small fits new_small = rw e (
      after_guard Relaid (header_room header memo.header header_buf) m _ (λ _.
        after_guard Relaid (text_room text memo.text text_buf) m _ (λ _.
          after_option Relaid (new_category lib category m.pdb.categories) m _ (λ category_id _.
            after_option Relaid (size_diff to_cp1251 header memo.header_cp1251_len) m _ (λ hd eh.
              after_option Relaid (size_diff to_cp1251 text memo.text_cp1251_len) m _ (λ td et.
                let header_len = new_len to_cp1251 header memo.header_cp1251_len in
                let text_len' = new_len to_cp1251 text memo.text_cp1251_len in
                (
                  rewrite_Layout header text category_id header_len text_len' at
                      ((hd + td) % 2 ^ 32) m.queue m.pdb.records memo l dis
                      (got_In lib id m memo qty e)
                      (omega (
                        arith,
                        size_diff_lem to_cp1251 header memo.header_cp1251_len hd
                            (omega (arith, small)) eh,
                        size_diff_lem to_cp1251 text memo.text_cp1251_len td
                            (omega (arith, small, counted)) et,
                        text_len-edited to_cp1251 header text header_len memo counted,
                        counted,
                        new_small,
                        small,
                      ))
                      fits,
                  rewrite_memo-lengths header text memo.record_ptr m.queue,
                )))))))

  -- A successful memos_memo_edit puts every record where it belongs for the new strings: with
  -- their CP1251 lengths noted in the memo the layout is right, while the memo itself keeps the
  -- lengths of the old strings. Conditions: IDs and records of their own, a right record count,
  -- text length 0 for a memo without text, and sizes and offsets of 32 bits.
  pub memos_memo_edit-Layout :
      (header_buf text_buf : Option Ptr) (m' : Memos)
      → Layout at m.queue m.pdb.records
      → Distinct m.queue
      → m.pdb.records_qty ≡ length m.queue % 2 ^ 16
      → memos_memo_get lib id m ≡ some memo
      → text_len memo ≡ memo.text_cp1251_len
      → memo_size memo < 2 ^ 32
      → layout_end at (recounted (rewrite_memo header text memo.record_ptr m.queue)) < 2 ^ 32
      → new_len to_cp1251 header memo.header_cp1251_len
          + new_len to_cp1251 text memo.text_cp1251_len
          + 2
        < 2 ^ 32
      → memos_memo_edit lib to_cp1251 header_buf text_buf id header text category m ≡ (some tt, m')
      → Layout at (recounted m'.queue) m'.pdb.records
        × (map noted_lengths m'.queue ≡ map noted_lengths m.queue)
  unfolding Relaid
  memos_memo_edit-Layout header_buf text_buf m' l dis qty e counted small fits new_small edit =
      ensured Relaid (memos_memo_edit lib to_cp1251 header_buf text_buf id header text category m)
        tt m' (edit-Ensures header_buf text_buf l dis qty e counted small fits new_small) edit
