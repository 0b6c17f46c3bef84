-- ===== src/Memos/Find.antt =====
-- memos_memo_get of src/pdb/memos.c: a memo by its ID, by qsort and bsearch on an array of the memos.
-- With more memos than the count of the PDB structure says, the array overflows before the check;
-- the model has the check alone.
pub mod Laws
use Prim.Native.Nat.{Ordering, compare}
use palm_sync_daemon.Base.{ℕ, ◌%◌, ◌^◌, Option, none, some, map, length, ◌==◌, if◌then◌else◌}
use palm_sync_daemon.Libc.SortSearch.{SortSearch, find_sorted}
use palm_sync_daemon.Memos.Types.{Memo, Memos}

-- An element of the array; the key that is searched for has no memo.
pub record SortedMemo : Type 0 where
  pub id : ℕ
  pub memo : Option Memo

abbrev pub compare_ids : SortedMemo → SortedMemo → Ordering
compare_ids a b = compare a.id b.id

abbrev pub sorted_memo : Memo → SortedMemo
sorted_memo m = record { id = m.id; memo = some m }

abbrev pub found_memo : Option SortedMemo → Option Memo
found_memo none = none
found_memo (some s) = s.memo

-- `index` is an unsigned short.
unfoldable pub memos_memo_get : SortSearch → ℕ → Memos → Option Memo
memos_memo_get lib id m =
    if m.pdb.records_qty == length m.queue % 2 ^ 16
    then found_memo
        (find_sorted lib compare_ids (record { id = id; memo = none }) (map sorted_memo m.queue))
    else none
