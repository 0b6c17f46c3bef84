-- ===== src/Memos/Change.antt =====
-- memos_memo_edit of src/pdb/memos.c, on the strings as values: what the copies do to memory behind
-- a buffer that is too small is not modelled. `none` is -1. A new text of NULL for a memo with a text
-- makes the code take the length of NULL; the model fails there. An empty text for a memo without
-- one, whose buffer cannot be had, fails here before the header is set, in the code behind that.
pub mod Laws
use palm_sync_daemon.Base.{
  ℕ, ◌+◌, ◌-◌, ◌%◌, ◌^◌, ltb, Bool, true, false, Option, none, some, List, [], ◌∷◌, map, length,
  bit_and, bit_or, ◌==◌, if◌then◌else◌,
}
use palm_sync_daemon.File.{Act, ◌>>=◌, ◌>>◌, guard, from_option}
use palm_sync_daemon.Libc.SortSearch.{SortSearch}
use palm_sync_daemon.Pdb.Types.{Ptr, PdbRecord, PdbCategories}
use palm_sync_daemon.Pdb.Categories.{pdb_category_get_id}
use palm_sync_daemon.Memos.Types.{Memo, Memos}
use palm_sync_daemon.Memos.Find.{memos_memo_get}
use palm_sync_daemon.Memos.Edit.{shift_by}

-- A buffer for the new header is needed if it is longer than the old one.
abbrev pub header_room : Option (List ℕ) → List ℕ → Option Ptr → Bool
header_room none old calloc = true
header_room (some new) old none = if ltb (length old) (length new) then false else true
header_room (some new) old (some _) = true

-- The same for the text: the code compares the new text with itself if there is an old one, so that
-- it asks for a buffer only if there is none.
abbrev pub text_room : Option (List ℕ) → Option (List ℕ) → Option Ptr → Bool
text_room none none calloc = true
text_room none (some old) calloc = false
text_room (some new) (some old) calloc = true
text_room (some new) none none = false
text_room (some new) none (some _) = true

-- `none` in front is the failure, `some none` no category asked for.
abbrev pub found_category : ℕ → Option (Option ℕ)
found_category id = if id == 255 then none else some (some id)

unfoldable pub new_category :
    SortSearch → Option (List ℕ) → Option PdbCategories → Option (Option ℕ)
new_category lib none c = some none
new_category lib (some name) none = none
new_category lib (some name) (some c) = found_category (pdb_category_get_id lib name c)

abbrev pub diff_of : Option (List ℕ) → ℕ → Option ℕ
diff_of none old_len = none
diff_of (some bytes) old_len = some ((length bytes + 2 ^ 32 - old_len % 2 ^ 32) % 2 ^ 32)

-- The difference in CP1251, on a uint32_t. The result of iconv is used without a check, so that a
-- failed conversion is the end; the model fails there.
unfoldable pub size_diff : (List ℕ → Option (List ℕ)) → Option (List ℕ) → ℕ → Option ℕ
size_diff to_cp1251 none old_len = some 0
size_diff to_cp1251 (some new) old_len = diff_of (to_cp1251 new) old_len

abbrev pub or_old : {A : Type 0} → Option A → A → A
or_old none old = old
or_old (some new) old = new

abbrev pub or_old_text : Option (List ℕ) → Option (List ℕ) → Option (List ℕ)
or_old_text none old = old
or_old_text (some new) old = some new

-- The lengths in CP1251 and the name of the category stay as they were.
abbrev pub rewritten : Option (List ℕ) → Option (List ℕ) → Memo → Memo
rewritten header text m = record m {
  header = or_old header m.header;
  text = or_old_text text m.text;
}

abbrev pub rewrite_memo : Option (List ℕ) → Option (List ℕ) → Ptr → List Memo → List Memo
rewrite_memo header text a [] = []
rewrite_memo header text a (m ∷ ms) =
    let rest = rewrite_memo header text a ms in
    if m.record_ptr == a then rewritten header text m ∷ ms else m ∷ rest

abbrev pub recategorised : Option ℕ → PdbRecord → PdbRecord
recategorised none r = r
recategorised (some id) r = record r { attributes = bit_or (bit_and r.attributes 0xf0) id }

-- The record gets the category, and those behind it move.
abbrev pub rewrite_records : Option ℕ → ℕ → Ptr → List PdbRecord → List PdbRecord
rewrite_records category d a [] = []
rewrite_records category d a (r ∷ rs) =
    let rest = rewrite_records category d a rs in
    if r.address == a then recategorised category r ∷ map (shift_by d) rs else r ∷ rest

abbrev pub rewrite_all : Option (List ℕ) → Option (List ℕ) → Option ℕ → ℕ → Ptr → Memos → Memos
rewrite_all header text category d a m = record {
  pdb = record (m.pdb) { records = rewrite_records category d a m.pdb.records };
  queue = rewrite_memo header text a m.queue;
}

unfoldable pub memos_memo_edit :
    SortSearch
    → (List ℕ → Option (List ℕ))
    → (header_buf text_buf : Option Ptr) → ℕ
    → (header text category : Option (List ℕ)) → Act Memos (Unit {0})
unfolding new_category size_diff
memos_memo_edit lib to_cp1251 header_buf text_buf id header text category m =
    (do
      memo ← from_option (memos_memo_get lib id m)
      guard (header_room header memo.header header_buf)
      guard (text_room text memo.text text_buf)
      category_id ← from_option (new_category lib category m.pdb.categories)
      header_diff ← from_option (size_diff to_cp1251 header memo.header_cp1251_len)
      text_diff ← from_option (size_diff to_cp1251 text memo.text_cp1251_len)
      λ s. (
        some tt,
        rewrite_all header text category_id ((header_diff + text_diff) % 2 ^ 32) memo.record_ptr s,
      ))
      m
