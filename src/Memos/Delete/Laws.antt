-- ===== src/Memos/Delete/Laws.antt =====
-- The layout of the memos under memos_memo_delete of src/pdb/memos.c.
use palm_sync_daemon.Base.{
  ℕ, ◌+◌, ◌%◌, ◌^◌, ◌≤◌, ◌<◌, ◌≡◌, ◌≢◌, ◌∙◌, ◌⊎◌, inl, inr, refl, sym, subst, true, false, none,
  some, List, [], ◌∷◌, map, length, All, ◌==◌, ==_iff, ==_refl, Bool-cases, arith,
}
use palm_sync_daemon.Libc.SortSearch.{SortSearch, In}
use palm_sync_daemon.Pdb.Types.{PdbRecord}
use palm_sync_daemon.Pdb.Records.{
  id_of_long, has_id, remove_record, pdb_record_delete, pdb_record_get_unique_id,
}
use palm_sync_daemon.Memos.Types.{Memo, Memos, on_pdb}
use palm_sync_daemon.Memos.Find.{memos_memo_get}
use palm_sync_daemon.Memos.Find.Laws.{memos_memo_get-cases}
use palm_sync_daemon.Memos.Edit.{memo_size}
use palm_sync_daemon.Memos.Layout.{Belongs, Layout, layout_end, end_grows}
use palm_sync_daemon.Memos.Delete.{
  utf8_size, pull_by, pull_behind, remove_memo, take_out, memos_memo_delete,
}

-- The bytes of an ID.
abbrev pub IdFits : PdbRecord → Type 0
IdFits r = (r.id0 < 256) × (r.id1 < 256) × (r.id2 < 256)

-- No two memos share an ID or a record.
abbrev pub Distinct : List Memo → Type 0
Distinct [] = Unit
Distinct (m ∷ ms) = All (λ q. (q.id ≢ m.id) × (q.record_ptr ≢ m.record_ptr)) ms × Distinct ms

pub has_own_id :
    (r : PdbRecord) → IdFits r → has_id (id_of_long (pdb_record_get_unique_id r)) r ≡ true
has_own_id r fits =
    let id = id_of_long (pdb_record_get_unique_id r) in
    let same0 : r.id0 ≡ id.b0 = omega arith in
    let same1 : r.id1 ≡ id.b1 = omega arith in
    let same2 : r.id2 ≡ id.b2 = omega arith in
    rw (← same0, ← same1, ← same2, ==_refl r.id0, ==_refl r.id1, ==_refl r.id2)

-- A record with the bytes of an ID has that ID.
pub id_of_bytes :
    (n : ℕ) (r : PdbRecord)
    → n < 2 ^ 24
    → has_id (id_of_long n) r ≡ true
    → pdb_record_get_unique_id r ≡ n
id_of_bytes n r small h = ground arith

pub all_of_In : {A : Type 0} (P : A → Type 0) (xs : List A) (x : A) → All P xs → In x xs → P x
all_of_In P [] x h i = elim i [ ]
all_of_In P (y ∷ ys) x h (inl e) = subst P (sym e) h.0
all_of_In P (y ∷ ys) x h (inr i) = all_of_In P ys x h.1 i

pull_Layout :
    (at d : ℕ) (ms : List Memo) (rs : List PdbRecord)
    → Layout (at + d) ms rs
    → layout_end (at + d) ms < 2 ^ 32
    → Layout at ms (map (pull_by d) rs)
pull_Layout at d [] [] l h = tt
pull_Layout at d [] (r ∷ rs) l h = elim l [ ]
pull_Layout at d (m ∷ ms) [] l h = elim l [ ]
pull_Layout at d (m ∷ ms) (r ∷ rs) l h =
    let swapped : at + d + memo_size m ≡ at + memo_size m + d = omega arith in
    let grown = end_grows (at + d + memo_size m) ms in
    (
      record {
        offset_is = omega (arith, l.0.offset_is, grown, h);
        points_to = l.0.points_to;
        id_is = l.0.id_is;
      },
      pull_Layout (at + memo_size m) d ms rs (subst (λ n. Layout n ms rs) swapped l.1)
          (subst (λ n. layout_end n ms < 2 ^ 32) swapped h),
    )

end_mono : (at d : ℕ) (ms : List Memo) → layout_end at ms ≤ layout_end (at + d) ms
end_mono at d [] = omega arith
end_mono at d (m ∷ ms) =
    let swapped : at + memo_size m + d ≡ at + d + memo_size m = omega arith in
    subst (λ n. layout_end (at + memo_size m) ms ≤ layout_end n ms) swapped
      (end_mono (at + memo_size m) d ms)

id_small :
    (at : ℕ) (ms : List Memo) (rs : List PdbRecord) (m : Memo)
    → Layout at ms rs
    → In m ms
    → m.id < 2 ^ 24
id_small at [] rs m l i = elim i [ ]
id_small at (m' ∷ ms) [] m l i = elim l [ ]
id_small at (m' ∷ ms) (r ∷ rs) m l (inl e) = rw e (omega (arith, l.0.id_is))
id_small at (m' ∷ ms) (r ∷ rs) m l (inr i) = id_small (at + memo_size m') ms rs m l.1 i

-- The records of the memos behind `m`, moved, are what is left of the list.
abbrev Left : ℕ → Memo → List Memo → List PdbRecord → Type 0
Left base m ms rs =
    (rs' : List PdbRecord) × (remove_record (id_of_long m.id)
        (map (pull_by 8) (pull_behind m.record_ptr (utf8_size m) rs))
      ≡ some rs')
    × Layout base (remove_memo m.record_ptr ms) rs'

first_Left :
    (base : ℕ) (m : Memo) (ms : List Memo) (r : PdbRecord) (rs : List PdbRecord)
    → Layout (base + 8) (m ∷ ms) (r ∷ rs)
    → layout_end (base + 8) (m ∷ ms) < 2 ^ 32
    → IdFits r
    → utf8_size m ≡ memo_size m
    → Left base m (m ∷ ms) (r ∷ rs)
unfolding remove_record
first_Left base m ms r rs l h fits same =
    let here : (r.address == m.record_ptr) ≡ true = (==_iff _ _).1 (sym l.0.points_to) in
    let own : has_id (id_of_long m.id) r ≡ true = rw l.0.id_is (has_own_id r fits) in
    let closed : Layout (base + 8) ms (map (pull_by (utf8_size m)) rs) =
      pull_Layout (base + 8) (utf8_size m) ms rs (rw same l.1) (rw same h) in
    let moved =
      pull_Layout base 8 ms (map (pull_by (utf8_size m)) rs) closed
        (omega (arith, end_mono (base + 8) (memo_size m) ms)) in
    (
      map (pull_by 8) (map (pull_by (utf8_size m)) rs),
      rw (here, own),
      rw (==_refl m.record_ptr) moved,
    )

later_Left :
    (base : ℕ) (m m' : Memo) (ms : List Memo) (r : PdbRecord) (rs : List PdbRecord)
    → Belongs (base + 8) m' r
    → base + 8 < 2 ^ 32
    → m.id < 2 ^ 24
    → m.id ≢ m'.id
    → m.record_ptr ≢ m'.record_ptr
    → Left (base + memo_size m') m ms rs
    → Left base m (m' ∷ ms) (r ∷ rs)
unfolding remove_record
later_Left base m m' ms r rs b fits small other_id other_ptr (rs', e, l) =
    let passed : (r.address == m.record_ptr) ≡ false = ground (arith, b.points_to) in
    let kept : (m'.record_ptr == m.record_ptr) ≡ false = ground arith in
    elim (Bool-cases (has_id (id_of_long m.id) r)) [
      | inl same ↦ absurd (other_id (sym (b.id_is ∙ id_of_bytes m.id r small same)))
      | inr other ↦ (
        pull_by 8 r ∷ rs',
        rw (passed, other, e),
        rw kept (
          record {
            offset_is = omega (arith, b.offset_is);
            points_to = b.points_to;
            id_is = b.id_is;
          },
          l,
        ),
      )
    ]

delete_Left :
    (base : ℕ) (ms : List Memo) (rs : List PdbRecord) (m : Memo)
    → Layout (base + 8) ms rs
    → layout_end (base + 8) ms < 2 ^ 32
    → Distinct ms
    → All IdFits rs
    → In m ms
    → utf8_size m ≡ memo_size m
    → Left base m ms rs
delete_Left base [] rs m l h d fits i same = elim i [ ]
delete_Left base (m' ∷ ms) [] m l h d fits i same = elim l [ ]
delete_Left base (m' ∷ ms) (r ∷ rs) m l h d fits (inl e) same =
    subst (λ q. utf8_size q ≡ memo_size q → Left base q (m' ∷ ms) (r ∷ rs)) (sym e)
      (first_Left base m' ms r rs l h fits.0) same
delete_Left base (m' ∷ ms) (r ∷ rs) m l h d fits (inr i) same =
    let swapped : base + 8 + memo_size m' ≡ base + memo_size m' + 8 = omega arith in
    let apart = all_of_In (λ q. (q.id ≢ m'.id) × (q.record_ptr ≢ m'.record_ptr)) ms m d.0 i in
    later_Left base m m' ms r rs l.0 (omega (arith, end_grows (base + 8 + memo_size m') ms, h))
      (id_small (base + 8 + memo_size m') ms rs m l.1 i) apart.0 apart.1
      (delete_Left (base + memo_size m') ms rs m (subst (λ n. Layout n ms rs) swapped l.1)
        (subst (λ n. layout_end n ms < 2 ^ 32) swapped h) d.1 fits.1 i same)

delete_at :
    (lib : SortSearch) (id base : ℕ) (m : Memos) (memo : Memo)
    → memos_memo_get lib id m ≡ some memo
    → Left base memo m.queue m.pdb.records
    → let (r, m') = memos_memo_delete lib id m in
      (r ≡ some tt)
      × (m'.queue ≡ remove_memo memo.record_ptr m.queue)
      × Layout base m'.queue m'.pdb.records
unfolding memos_memo_delete on_pdb take_out pdb_record_delete
delete_at lib id base m memo e (rs', gone, l) = rw (e, gone) (refl, refl, l)

-- memos_memo_delete takes out a memo with the ID and its record, and the memos left, moved by the
-- eight bytes of the record list item, have the layout again; if no memo has the ID it fails and
-- changes nothing. Conditions: IDs and records of their own, as many records as counted, 32-bit
-- offsets, and sizes that are the same in UTF-8 and CP1251.
pub memos_memo_delete-Layout :
    (lib : SortSearch) (id base : ℕ) (m : Memos)
    → Layout (base + 8) m.queue m.pdb.records
    → layout_end (base + 8) m.queue < 2 ^ 32
    → Distinct m.queue
    → All IdFits m.pdb.records
    → All (λ q. utf8_size q ≡ memo_size q) m.queue
    → m.pdb.records_qty ≡ length m.queue % 2 ^ 16
    → let (r, m') = memos_memo_delete lib id m in
      ((memo : Memo) × In memo m.queue
        × (memo.id ≡ id)
        × (r ≡ some tt)
        × (m'.queue ≡ remove_memo memo.record_ptr m.queue)
        × Layout base m'.queue m'.pdb.records)
      ⊎ (All (λ q. q.id ≢ id) m.queue × (r ≡ none) × (m' ≡ m))
unfolding memos_memo_delete
memos_memo_delete-Layout lib id base m l h d fits same qty =
    elim (memos_memo_get-cases lib id m qty) [
      | inl (memo, e, i, own) ↦
          (let left =
              delete_Left base m.queue m.pdb.records memo l h d fits i
                (all_of_In (λ q. utf8_size q ≡ memo_size q) m.queue memo same i) in
            let (done, queue, laid) = delete_at lib id base m memo e left in
            inl (memo, i, own, done, queue, laid))
      | inr (e, none_has) ↦ inr (none_has, rw e, rw e)
    ]
