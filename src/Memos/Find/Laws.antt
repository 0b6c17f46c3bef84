-- ===== src/Memos/Find/Laws.antt =====
-- The results of memos_memo_get of src/pdb/memos.c.
use Prim.Native.Nat.{compare, eq}
use palm_sync_daemon.Base.{
  ℕ, ◌%◌, ◌^◌, ◌≡◌, ◌≢◌, ◌⊎◌, ◌∙◌, inl, inr, refl, sym, ap, true, none, some, List, [], ◌∷◌, map,
  length, All, ◌==◌, ==_iff, arith,
}
use palm_sync_daemon.Libc.SortSearch.{In, IsOrder, SortSearch, find_sorted-cases}
use palm_sync_daemon.Memos.Types.{Memo, Memos}
use palm_sync_daemon.Memos.Find.{SortedMemo, compare_ids, sorted_memo, memos_memo_get}

compare_ids-IsOrder : IsOrder compare_ids
compare_ids-IsOrder = record { total = λ x y e. ground arith; trans = λ x y z e f. ground arith }

equal_ids : (x y : ℕ) → compare x y ≡ eq → x ≡ y
equal_ids x y e = ground arith

memo_of_In :
    (ms : List Memo) (s : SortedMemo)
    → In s (map sorted_memo ms)
    → (m : Memo) × In m ms × (s ≡ sorted_memo m)
memo_of_In [] s i = elim i [ ]
memo_of_In (m ∷ ms) s (inl e) = (m, inl refl, e)
memo_of_In (m ∷ ms) s (inr i) = let (q, j, e) = memo_of_In ms s i in (q, inr j, e)

none_equal :
    (id : ℕ) (ms : List Memo)
    → ((s : SortedMemo) → In s (map sorted_memo ms) → compare id s.id ≢ eq)
    → All (λ m. m.id ≢ id) ms
none_equal id [] h = tt
none_equal id (m ∷ ms) h =
    (λ e. h (sorted_memo m) (inl refl) (ground arith), none_equal id ms (λ s i. h s (inr i)))

-- Where the record count is the number of memos, memos_memo_get gives a memo with the ID, or NULL
-- and no memo has the ID.
pub memos_memo_get-cases :
    (lib : SortSearch) (id : ℕ) (m : Memos)
    → m.pdb.records_qty ≡ length m.queue % 2 ^ 16
    → ((memo : Memo) × (memos_memo_get lib id m ≡ some memo) × In memo m.queue × (memo.id ≡ id))
      ⊎ ((memos_memo_get lib id m ≡ none) × All (λ q. q.id ≢ id) m.queue)
unfolding memos_memo_get
memos_memo_get-cases lib id m qty =
    let key : SortedMemo = record { id = id; memo = none } in
    let counted : (m.pdb.records_qty == length m.queue % 2 ^ 16) ≡ true = (==_iff _ _).1 qty in
    elim (find_sorted-cases lib compare_ids key (map sorted_memo m.queue) compare_ids-IsOrder) [
      | inl (s, e, i, same) ↦
          (let (memo, j, is) = memo_of_In m.queue s i in
            inl (
              memo,
              rw (counted, e) (ap (λ (x : SortedMemo). x.memo) is),
              j,
              sym (ap (λ (x : SortedMemo). x.id) is) ∙ sym (equal_ids id s.id same),
            ))
      | inr (e, other) ↦ inr (rw (counted, e), none_equal id m.queue other)
    ]
