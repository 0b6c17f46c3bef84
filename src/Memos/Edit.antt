-- ===== src/Memos/Edit.antt =====
-- memos_memo_add of src/pdb/memos.c. `none` is the result 0. The functions `lib` and `to_cp1251`, qsort with bsearch and iconv, are parameters,
-- and so are the outcomes of calloc and random. A NULL structure is an error before anything else.
use palm_sync_daemon.Base.{
  last, ℕ, ◌+◌, ◌%◌, ◌^◌, Option, none, some, List, [], ◌∷◌, ◌++◌, length, bit_and, ◌==◌,
  if◌then◌else◌,
}
use palm_sync_daemon.File.{Act, pure, ◌>>=◌, ◌>>◌, from_option}
use palm_sync_daemon.Libc.SortSearch.{SortSearch}
use palm_sync_daemon.Pdb.Types.{Ptr, PdbRecord, PdbCategories, Pdb, pdb_record_item_size}
use palm_sync_daemon.Pdb.Records.{
  id_of_long, new_record, pdb_record_create, pdb_record_get_unique_id,
}
use palm_sync_daemon.Pdb.Categories.{pdb_category_get_id, pdb_category_add}
use palm_sync_daemon.Memos.Types.{Memo, Memos, on_pdb}

-- "Unfiled"
abbrev pub pdb_default_category : List ℕ
pdb_default_category = 85 ∷ 110 ∷ 102 ∷ 105 ∷ 108 ∷ 101 ∷ 100 ∷ []

abbrev pub category_or_default : Option (List ℕ) → List ℕ
category_or_default none = pdb_default_category
category_or_default (some name) = name

-- What the outside does during a call: the allocations succeed or not, and random gives a number.
pub record Outside : Type 0 where
  pub truncated_name : Option Ptr
  pub header_copy : Option Ptr
  pub text_copy : Option Ptr
  pub category_copy : Option Ptr
  pub memo_struct : Option Ptr
  pub record_struct : Option Ptr
  pub random_id : ℕ

abbrev with_categories : Pdb → ℕ × PdbCategories → Option ℕ × Pdb
with_categories p (id, c) = (if id == 255 then none else some id, record p { categories = some c })

unfoldable pub category_in : SortSearch → Option Ptr → List ℕ → Option PdbCategories → Act Pdb ℕ
category_in lib calloc name none p = (none, p)
category_in lib calloc name (some c) p =
    let id = pdb_category_get_id lib name c in
    let added = with_categories p (pdb_category_add calloc name c) in
    if id == 255 then added else (some id, p)

-- The ID of the category, which is added if it is not there. Without categories the call fails (the
-- code would follow a NULL pointer).
unfoldable pub category_for : SortSearch → Option Ptr → List ℕ → Act Pdb ℕ
unfolding category_in
category_for lib calloc name p = category_in lib calloc name p.categories p

-- The bytes of a memo in the file: the header, a newline, the text if there is any, and a NUL.
abbrev pub text_len : Memo → ℕ
text_len m = elim m.text [ none ↦ 0 | some t ↦ m.text_cp1251_len ]

abbrev pub memo_size : Memo → ℕ
memo_size m = m.header_cp1251_len + 1 + (text_len m + 1)

-- The offset of a new memo, from the last record and the last memo, which have to belong together.
abbrev pub offset_behind : Option PdbRecord → Option Memo → Option ℕ
offset_behind none memo = none
offset_behind (some r) none = none
offset_behind (some r) (some m) =
    if m.record_ptr == r.address
    then some ((r.offset + memo_size m + pdb_record_item_size) % 2 ^ 32)
    else none

unfoldable pub next_offset : Act Memos ℕ
next_offset m = (offset_behind (last m.pdb.records) (last m.queue), m)

-- The text, if any, is copied and converted for its length.
abbrev pub converted_text : (List ℕ → Option (List ℕ)) → Option Ptr → Option (List ℕ) → Option ℕ
converted_text to_cp1251 copy none = some 0
converted_text to_cp1251 none (some text) = none
converted_text to_cp1251 (some a) (some text) = elim (to_cp1251 text) [
  | none ↦ none
  | some bytes ↦ some (length bytes)
]

abbrev pub shift_by : ℕ → PdbRecord → PdbRecord
shift_by d r = record r { offset = (r.offset + d) % 2 ^ 32 }

-- Every record but the last is shifted: the walk with TAILQ_PREV from the new record.
abbrev pub shift_all_but_last : ℕ → List PdbRecord → List PdbRecord
shift_all_but_last d [] = []
shift_all_but_last d (r ∷ []) = r ∷ []
shift_all_but_last d (r ∷ (q ∷ qs)) = shift_by d r ∷ shift_all_but_last d (q ∷ qs)

-- The new memo goes to the end of the queue, and the records in front of the new one move.
unfoldable pub insert_memo : Memo → Act Memos (Unit {0})
insert_memo memo m = (
  some tt,
  record {
    pdb = record (m.pdb) { records = shift_all_but_last pdb_record_item_size m.pdb.records };
    queue = m.queue ++ (memo ∷ []);
  },
)

module _ (lib : SortSearch) (to_cp1251 : List ℕ → Option (List ℕ)) where
  unfoldable pub memos_memo_add : Outside → (header text category : Option (List ℕ)) → Act Memos ℕ
  unfolding on_pdb category_for next_offset insert_memo
  memos_memo_add out header? text category? = do
    header ← from_option header?
    category ← pure (category_or_default category?)
    category_id ← on_pdb (category_for lib out.truncated_name category)
    offset ← next_offset
    _ ← from_option out.header_copy
    header_bytes ← from_option (to_cp1251 header)
    text_bytes ← from_option (converted_text to_cp1251 out.text_copy text)
    _ ← from_option out.category_copy
    memo_ptr ← from_option out.memo_struct
    attributes ← pure (bit_and 0x0f category_id)
    r ← on_pdb (pdb_record_create out.record_struct out.random_id offset attributes (some memo_ptr))
    id ← pure (
        pdb_record_get_unique_id
          (new_record r offset attributes (id_of_long out.random_id) (some memo_ptr)))
    insert_memo (record {
      id = id;
      header = header;
      text = text;
      category = category;
      record_ptr = r;
      header_cp1251_len = length header_bytes;
      text_cp1251_len = text_bytes;
    })
    pure id
