-- ===== src/Memos/Layout.antt =====
-- Where the memos stand in the file: the offset of each record is the place behind the memo in front
-- of it. Here for memos_memo_add of src/pdb/memos.c.
use palm_sync_daemon.Base.{
  last, ℕ, ◌+◌, ◌^◌, ◌≤◌, ◌<◌, ◌≡◌, refl, sym, ap, subst, Option, none, some, List, [], ◌∷◌, ◌++◌,
  bit_and, ◌==◌, Bool-cases, inl, inr, arith, map, length, ◌%◌, ◌∙◌,
}
use palm_sync_daemon.File.Ensures.{Ensures, after_call, after_option, ensured}
use palm_sync_daemon.Libc.SortSearch.{SortSearch}
use palm_sync_daemon.Pdb.Types.{Ptr, PdbRecord, PdbCategories, Pdb}
use palm_sync_daemon.Pdb.Records.{
  id_of_long, new_record, pdb_record_create, pdb_record_get_unique_id,
}
use palm_sync_daemon.Pdb.Categories.{pdb_category_get_id}
use palm_sync_daemon.Memos.Types.{Memo, Memos, on_pdb, on_pdb_end}
use palm_sync_daemon.Memos.Edit.{
  Outside, category_or_default, category_in, category_for, memo_size, offset_behind, next_offset,
  shift_by, shift_all_but_last, insert_memo, converted_text, memos_memo_add,
}

-- The record of a memo that stands at the offset.
pub record Belongs (at : ℕ) (m : Memo) (r : PdbRecord) : Type 0 where
  pub offset_is : r.offset ≡ at
  pub points_to : m.record_ptr ≡ r.address
  pub id_is : m.id ≡ pdb_record_get_unique_id r

abbrev pub Layout : ℕ → List Memo → List PdbRecord → Type 0
Layout at [] [] = Unit
Layout at (m ∷ ms) (r ∷ rs) = Belongs at m r × Layout (at + memo_size m) ms rs
Layout at _ _ = ⊥

-- The place behind the last memo.
abbrev pub layout_end : ℕ → List Memo → ℕ
layout_end at [] = at
layout_end at (m ∷ ms) = layout_end (at + memo_size m) ms

pub end_grows : (at : ℕ) (ms : List Memo) → at ≤ layout_end at ms
end_grows at [] = omega arith
end_grows at (m ∷ ms) = omega (arith, end_grows (at + memo_size m) ms)

shift_in_front :
    (d : ℕ) (r new : PdbRecord) (rs : List PdbRecord)
    → shift_all_but_last d (r ∷ (rs ++ (new ∷ [])))
      ≡ shift_by d r ∷ shift_all_but_last d (rs ++ (new ∷ []))
shift_in_front d r new [] = refl
shift_in_front d r new (q ∷ qs) = refl

shift_all_but_last-append :
    (d : ℕ) (rs : List PdbRecord) (new : PdbRecord)
    → shift_all_but_last d (rs ++ (new ∷ [])) ≡ map (shift_by d) rs ++ (new ∷ [])
shift_all_but_last-append d [] new = refl
shift_all_but_last-append d (r ∷ rs) new =
    shift_in_front d r new rs ∙ ap (◌∷◌ (shift_by d r)) (shift_all_but_last-append d rs new)

append_Layout :
    (at : ℕ) (ms : List Memo) (rs : List PdbRecord) (memo : Memo) (new : PdbRecord)
    → Layout at ms rs
    → Belongs (layout_end at ms + 8) memo new
    → layout_end at ms + 8 < 2 ^ 32
    → Layout (at + 8) (ms ++ (memo ∷ [])) (shift_all_but_last 8 (rs ++ (new ∷ [])))
append_Layout at [] [] memo new l b h = (b, tt)
append_Layout at [] (r ∷ rs) memo new l b h = elim l [ ]
append_Layout at (m ∷ ms) [] memo new l b h = elim l [ ]
append_Layout at (m ∷ ms) (r ∷ rs) memo new l b h =
    let grown = end_grows (at + memo_size m) ms in
    let others : Layout (at + memo_size m + 8) (ms ++ (memo ∷ []))
        (shift_all_but_last 8 (rs ++ (new ∷ []))) =
      append_Layout (at + memo_size m) ms rs memo new l.1 b h in
    let moved : at + memo_size m + 8 ≡ at + 8 + memo_size m = omega arith in
    rw (shift_in_front 8 r new rs) (
      record {
        offset_is = omega (arith, l.0.offset_is, grown);
        points_to = l.0.points_to;
        id_is = l.0.id_is;
      },
      subst (λ n. Layout n (ms ++ (memo ∷ [])) (shift_all_but_last 8 (rs ++ (new ∷ [])))) moved
          others,
    )

last_end :
    (at : ℕ) (ms : List Memo) (rs : List PdbRecord) (m : Memo) (r : PdbRecord)
    → Layout at ms rs
    → last ms ≡ some m
    → last rs ≡ some r
    → r.offset + memo_size m ≡ layout_end at ms
last_end at [] rs m r l e f = absurd cc
last_end at (m' ∷ ms) [] m r l e f = absurd cc
last_end at (m' ∷ []) (r' ∷ []) m r l e f =
    let same_m : m' ≡ m = cc in
    let same_r : r' ≡ r = cc in rw (← same_m, ← same_r) (omega (arith, l.0.offset_is))
last_end at (m' ∷ []) (r' ∷ (r'' ∷ rs)) m r l e f = elim l.1 [ ]
last_end at (m' ∷ (m'' ∷ ms)) (r' ∷ []) m r l e f = elim l.1 [ ]
last_end at (m' ∷ (m'' ∷ ms)) (r' ∷ (r'' ∷ rs)) m r l e f =
    last_end (at + memo_size m') (m'' ∷ ms) (r'' ∷ rs) m r l.1 e f

pub category_in-records :
    (lib : SortSearch) (calloc : Option Ptr) (name : List ℕ) (c : Option PdbCategories) (p : Pdb)
    → ((category_in lib calloc name c p).1).records ≡ p.records
unfolding category_in
category_in-records lib calloc name none p = refl
category_in-records lib calloc name (some c) p =
    elim (Bool-cases (pdb_category_get_id lib name c == 255)) [
      | inl missing ↦ rw missing
      | inr there ↦ rw there
    ]

-- The queue and the records are those of `m`.
abbrev Untouched : {A : Type 0} → Memos → A → Memos → Type 0
Untouched m a m' = (m'.queue ≡ m.queue) × (m'.pdb.records ≡ m.pdb.records)

on_pdb_end-Untouched :
    {A : Type 0} (m : Memos) (r : Option A × Pdb)
    → (r.1).records ≡ m.pdb.records
    → Ensures (Untouched {A = A} m) (on_pdb_end m r)
on_pdb_end-Untouched m (none, p) e = tt
on_pdb_end-Untouched m (some a, p) e = (refl, e)

category_for-Untouched :
    (lib : SortSearch) (calloc : Option Ptr) (name : List ℕ) (m : Memos)
    → Ensures (Untouched {A = ℕ} m) (on_pdb (category_for lib calloc name) m)
unfolding on_pdb category_for
category_for-Untouched lib calloc name m =
    on_pdb_end-Untouched m (category_in lib calloc name m.pdb.categories m.pdb)
      (category_in-records lib calloc name m.pdb.categories m.pdb)

offset_behind_lem :
    (at : ℕ) (ms : List Memo) (rs : List PdbRecord) (last_r : Option PdbRecord)
    (last_m : Option Memo) (offset : ℕ)
    → Layout at ms rs
    → layout_end at ms + 8 < 2 ^ 32
    → last rs ≡ last_r
    → last ms ≡ last_m
    → offset_behind last_r last_m ≡ some offset
    → offset ≡ layout_end at ms + 8
offset_behind_lem at ms rs none last_m offset l h er em e = absurd cc
offset_behind_lem at ms rs (some r) none offset l h er em e = absurd cc
offset_behind_lem at ms rs (some r) (some m) offset l h er em e =
    let place = last_end at ms rs m r l em er in
    elim (Bool-cases (m.record_ptr == r.address)) [
      | inl same ↦ ground (arith, place)
      | inr other ↦ absurd (ground arith)
    ]

-- The queue is that of `m`, and one record has come to the end of its list.
abbrev Created : Memos → ℕ → ℕ → ℕ → Option Ptr → Ptr → Memos → Type 0
Created m offset attributes random_id payload a m' =
    (m'.queue ≡ m.queue)
    × (m'.pdb.records
        ≡ m.pdb.records ++ (new_record a offset attributes (id_of_long random_id) payload ∷ []))

create-Created :
    (calloc : Option Ptr) (random_id offset attributes : ℕ) (payload : Option Ptr) (m : Memos)
    → Ensures
        (Created m offset attributes random_id payload)
        (on_pdb (pdb_record_create calloc random_id offset attributes payload) m)
unfolding on_pdb pdb_record_create
create-Created none random_id offset attributes payload m = tt
create-Created (some a) random_id offset attributes payload m = (refl, refl)

-- The old queue and then a memo with the header and the text, and the old records, each moved by
-- eight bytes, and then a record. They stand at offsets from `at + 8` on.
abbrev pub AddedLast :
    (at : ℕ) → (header text : Option (List ℕ)) → (before : Memos) → (id : ℕ) → Memos → Type 0
AddedLast at header text before id after =
    (memo : Memo) × (new : PdbRecord) × (after.queue ≡ before.queue ++ (memo ∷ []))
    × (after.pdb.records
        ≡ map (λ (r : PdbRecord). record r { offset = (r.offset + 8) % 2 ^ 32 }) before.pdb.records
          ++ (new ∷ []))
    × (header ≡ some memo.header)
    × (memo.text ≡ text)
    × (memo.id ≡ id)
    × Layout (at + 8) after.queue after.pdb.records

module _ (lib : SortSearch) (to_cp1251 : List ℕ → Option (List ℕ)) (at : ℕ) where
  add-Ensures :
      (out : Outside) (header text category : Option (List ℕ)) (m : Memos)
      → Layout at m.queue m.pdb.records
      → layout_end at m.queue + 8 < 2 ^ 32
      → Ensures
          (AddedLast at header text m)
          (memos_memo_add lib to_cp1251 out header text category m)
  unfolding memos_memo_add next_offset insert_memo
  add-Ensures out header? text category m l h =
      let Laid = AddedLast at header? text m in
      after_option Laid header? m _ (λ header eh.
        after_call Laid (Untouched {A = ℕ} m) _ _
          (category_for-Untouched lib out.truncated_name _ m)
          (λ category_id m1 same.
            after_option Laid (offset_behind (last m1.pdb.records) (last m1.queue)) m1 _
              (λ offset e. after_option Laid out.header_copy m1 _ (λ _ _.
                after_option Laid (to_cp1251 header) m1 _ (λ header_bytes _.
                  after_option Laid (converted_text to_cp1251 out.text_copy text) m1 _
                    (λ text_bytes _. after_option Laid out.category_copy m1 _ (λ _ _.
                      after_option Laid out.memo_struct m1 _ (λ memo_ptr _.
                        after_call Laid
                          (Created m1 offset (bit_and 0x0f category_id) out.random_id
                            (some memo_ptr))
                          (on_pdb
                            (pdb_record_create out.record_struct out.random_id offset
                              (bit_and 0x0f category_id) (some memo_ptr))
                            m1)
                          _
                          (create-Created out.record_struct out.random_id offset
                            (bit_and 0x0f category_id) (some memo_ptr) m1)
                          (λ r m2 new.
                            let attributes = bit_and 0x0f category_id in
                            let new_r =
                              new_record r offset attributes (id_of_long out.random_id)
                                (some memo_ptr) in
                            let memo : Memo = record {
                              id = pdb_record_get_unique_id new_r;
                              header = header;
                              text = text;
                              category = category_or_default category;
                              record_ptr = r;
                              header_cp1251_len = length header_bytes;
                              text_cp1251_len = text_bytes;
                            } in
                            (
                              memo,
                              new_r,
                              ap (λ q. q ++ (memo ∷ [])) (new.0 ∙ same.0),
                              ap (shift_all_but_last 8) (new.1 ∙ ap (λ q. q ++ (new_r ∷ [])) same.1)
                                  ∙ shift_all_but_last-append 8 m.pdb.records new_r,
                              eh,
                              refl,
                              refl,
                              rw (new.0, same.0, new.1, same.1)
                                  (append_Layout at m.queue m.pdb.records _ _ l
                                    (record {
                                      offset_is =
                                          offset_behind_lem at m.queue m.pdb.records _ _ offset l h
                                            (ap last (sym same.1)) (ap last (sym same.0)) e;
                                      points_to = refl;
                                      id_is = refl;
                                    })
                                    h),
                            ))))))))))

  -- A successful memos_memo_add puts a memo with the given header and text and the ID that it
  -- returns behind the old queue, and a record behind the old records, which move by the eight
  -- bytes of the new item in the record list and stay as they are otherwise. If before it every
  -- record belonged to its memo and stood right behind the memo in front of it, this holds behind
  -- it, the new one included, as long as the offsets fit in 32 bits.
  pub memos_memo_add-Layout :
      (out : Outside) (header text category : Option (List ℕ)) (id : ℕ) (m m' : Memos)
      → Layout at m.queue m.pdb.records
      → layout_end at m.queue + 8 < 2 ^ 32
      → memos_memo_add lib to_cp1251 out header text category m ≡ (some id, m')
      → AddedLast at header text m id m'
  memos_memo_add-Layout out header text category id m m' l h e =
      ensured (AddedLast at header text m) (memos_memo_add lib to_cp1251 out header text category m)
        id m' (add-Ensures out header text category m l h) e
