-- ===== src/Memos/Tests.antt =====
-- Memos of a concrete file, and the theorems on src/pdb/memos.c applied to them.
mod Reading
use palm_sync_daemon.Base.{
  ℕ, ◌+◌, ◌≡◌, ◌≢◌, ◌⊎◌, All, refl, Option, none, some, List, [], ◌∷◌, replicate, arith, map, ◌++◌,
  true,
}
use palm_sync_daemon.Libc.Insertion.{insertion, sort, insert, search_list}
use palm_sync_daemon.Libc.Strings.{strcmp}
use palm_sync_daemon.Libc.SortSearch.{In, find_sorted}
use palm_sync_daemon.Pdb.Records.{pdb_record_create}
use palm_sync_daemon.Pdb.Categories.{pdb_category_get_id}
use palm_sync_daemon.Pdb.Types.{PdbRecord, PdbCategories, Pdb}
use palm_sync_daemon.Memos.Types.{Memo, Memos, on_pdb}
use palm_sync_daemon.Memos.Edit.{Outside, category_for, next_offset, insert_memo, memos_memo_add}
use palm_sync_daemon.Memos.Find.{memos_memo_get}
use palm_sync_daemon.Memos.Find.Laws.{memos_memo_get-cases}
use palm_sync_daemon.Memos.Change.{memos_memo_edit}
use palm_sync_daemon.Memos.Change.Laws.{recounted, noted_lengths, memos_memo_edit-Layout}
use palm_sync_daemon.File.{File}
use palm_sync_daemon.File.Writes.{put}
use palm_sync_daemon.Pdb.Image.{image}
use palm_sync_daemon.Pdb.WriteFile.Whole.{opened, saved, IsWritable}
use palm_sync_daemon.Memos.WriteMemos.{memos_write}
use palm_sync_daemon.Memos.WriteMemos.Laws.{six_zeroes, queue_bytes, memos_write-image}
use palm_sync_daemon.Memos.Delete.{remove_memo, memos_memo_delete}
use palm_sync_daemon.Memos.Delete.Laws.{IdFits, Distinct, memos_memo_delete-Layout}
use palm_sync_daemon.Memos.Layout.{Layout, AddedLast, memos_memo_add-Layout}

abbrev two_categories : PdbCategories
two_categories = record {
  renamed_categories = 0;
  names = (85 ∷ 110 ∷ 0 ∷ []) ∷ (65 ∷ 0 ∷ 0 ∷ []) ∷ [];
  ids = 0 ∷ 1 ∷ [];
  last_unique_id = 15;
  padding = 0;
}

abbrev record_at : (offset id address : ℕ) → PdbRecord
record_at offset id address = record {
  offset = offset;
  attributes = 1;
  id0 = id;
  id1 = 0;
  id2 = 0;
  payload = none;
  address = address;
}

abbrev memo_with : (id address : ℕ) (header : List ℕ) (text : Option (List ℕ)) (text_len : ℕ) → Memo
memo_with id address header text text_len = record {
  id = id;
  header = header;
  text = text;
  category = 65 ∷ [];
  record_ptr = address;
  header_cp1251_len = 2;
  text_cp1251_len = text_len;
}

abbrev two_memos : Memos
two_memos = record {
  pdb = record {
    dbname = replicate 32 0;
    attributes = 0;
    version = 0;
    ctime = 0;
    mtime = 0;
    btime = 0;
    modification_number = 0;
    app_info_offset = 96;
    sort_info_offset = 0;
    database_type_id = 0;
    creator_id = 0;
    seed = 0;
    next_record_list_offset = 0;
    records_qty = 2;
    records = record_at 400 7 1 ∷ record_at 407 8 2 ∷ [];
    record_list_padding = 0;
    categories = some two_categories;
  };
  queue =
      memo_with 7 1 (72 ∷ 105 ∷ []) (some (1 ∷ 2 ∷ 3 ∷ [])) 3
      ∷ memo_with 8 2 (72 ∷ 111 ∷ []) none 0
      ∷ [];
}

abbrev keep_bytes : List ℕ → Option (List ℕ)
keep_bytes xs = some xs

abbrev all_succeed : Outside
all_succeed = record {
  truncated_name = some 50;
  header_copy = some 51;
  text_copy = some 52;
  category_copy = some 53;
  memo_struct = some 54;
  record_struct = some 55;
  random_id = 0x1000009;
}

two_memos-Layout : Layout 400 two_memos.queue two_memos.pdb.records
two_memos-Layout = (
  record { offset_is = refl; points_to = refl; id_is = refl },
  (record { offset_is = refl; points_to = refl; id_is = refl }, tt),
)

abbrev after_add : Memos
after_add =
    (memos_memo_add insertion keep_bytes all_succeed (some (78 ∷ [])) (some (9 ∷ []))
      (some (65 ∷ [])) two_memos).1

it_is_added :
    memos_memo_add insertion keep_bytes all_succeed
      (some (78 ∷ []))
      (some (9 ∷ []))
      (some (65 ∷ []))
      two_memos
    ≡ (some 9, after_add)
unfolding memos_memo_add on_pdb category_for next_offset pdb_record_create insert_memo
    pdb_category_get_id find_sorted insertion sort insert search_list strcmp
it_is_added = refl

memos_memo_add-Layout_example : AddedLast 400 (some (78 ∷ [])) (some (9 ∷ [])) two_memos 9 after_add
memos_memo_add-Layout_example =
    memos_memo_add-Layout insertion keep_bytes 400 all_succeed (some (78 ∷ [])) (some (9 ∷ []))
      (some (65 ∷ [])) 9 two_memos after_add two_memos-Layout (omega arith) it_is_added

two_memos-Distinct : Distinct two_memos.queue
two_memos-Distinct = (((λ e. omega arith, λ e. omega arith), tt), (tt, tt))

two_memos-IdFits : All IdFits two_memos.pdb.records
two_memos-IdFits =
    ((omega arith, omega arith, omega arith), ((omega arith, omega arith, omega arith), tt))

memos_memo_get-cases_example :
    ((memo : Memo) × (memos_memo_get insertion 8 two_memos ≡ some memo)
      × In memo two_memos.queue
      × (memo.id ≡ 8))
    ⊎ ((memos_memo_get insertion 8 two_memos ≡ none) × All (λ q. q.id ≢ 8) two_memos.queue)
memos_memo_get-cases_example = memos_memo_get-cases insertion 8 two_memos refl

memos_memo_delete-Layout_example :
    let (r, m') = memos_memo_delete insertion 7 two_memos in
    ((memo : Memo) × In memo two_memos.queue
      × (memo.id ≡ 7)
      × (r ≡ some tt)
      × (m'.queue ≡ remove_memo memo.record_ptr two_memos.queue)
      × Layout 392 m'.queue m'.pdb.records)
    ⊎ (All (λ q. q.id ≢ 7) two_memos.queue × (r ≡ none) × (m' ≡ two_memos))
memos_memo_delete-Layout_example =
    memos_memo_delete-Layout insertion 7 392 two_memos two_memos-Layout (omega arith)
      two_memos-Distinct two_memos-IdFits (refl, (refl, tt)) refl

abbrev new_header : Option (List ℕ)
new_header = some (65 ∷ 66 ∷ 67 ∷ 68 ∷ [])

abbrev new_text : Option (List ℕ)
new_text = some (5 ∷ [])

abbrev first_memo : Memo
first_memo = memo_with 7 1 (72 ∷ 105 ∷ []) (some (1 ∷ 2 ∷ 3 ∷ [])) 3

it_is_found : memos_memo_get insertion 7 two_memos ≡ some first_memo
unfolding memos_memo_get find_sorted insertion sort insert search_list
it_is_found = refl

abbrev after_edit : Memos
after_edit =
    (memos_memo_edit insertion keep_bytes (some 60) none 7 new_header new_text none two_memos).1

it_is_edited :
    memos_memo_edit insertion keep_bytes (some 60) none 7 new_header new_text none two_memos
    ≡ (some tt, after_edit)
unfolding memos_memo_edit memos_memo_get find_sorted insertion sort insert search_list
it_is_edited = refl

memos_memo_edit-Layout_example :
    Layout 400
      (recounted insertion keep_bytes 7 new_header new_text none 400 two_memos first_memo
        after_edit.queue)
      after_edit.pdb.records
    × (map noted_lengths after_edit.queue ≡ map noted_lengths two_memos.queue)
memos_memo_edit-Layout_example =
    memos_memo_edit-Layout insertion keep_bytes 7 new_header new_text none 400 two_memos first_memo
      (some 60) none after_edit two_memos-Layout two_memos-Distinct refl it_is_found refl
      (omega arith) (omega arith) (omega arith) it_is_edited

-- The same memos in a file without categories.
abbrev plain_pdb : Pdb
plain_pdb = record (two_memos.pdb) {
  app_info_offset = 0;
  records = record_at 102 7 1 ∷ record_at 109 8 2 ∷ [];
  categories = none;
}

plain_pdb-Writable : IsWritable plain_pdb
plain_pdb-Writable = record {
  dbname_len = refl;
  next_is_zero = refl;
  few_records = omega arith;
  categories_fit = λ c e. absurd cc;
}

abbrev old_file : File
old_file = record { bytes = 9 ∷ 9 ∷ []; pos = 2; room = 200; readable = true }

memos_write-image_example : memos_write keep_bytes two_memos.queue (opened plain_pdb old_file) ≡ (
  some tt,
  opened (saved plain_pdb) (
      put
        (image (saved plain_pdb) ++ (six_zeroes ++ queue_bytes keep_bytes two_memos.queue))
        (record old_file { pos = 0 })),
)
memos_write-image_example =
    memos_write-image keep_bytes first_memo (memo_with 8 2 (72 ∷ 111 ∷ []) none 0 ∷ []) plain_pdb
      old_file plain_pdb-Writable
      (
        record { offset_is = refl; points_to = refl; id_is = refl },
        (record { offset_is = refl; points_to = refl; id_is = refl }, tt),
      )
      two_memos-Distinct
      (
        (record { encoded = refl; counted = refl }, record { encoded = refl; counted = refl }),
        ((record { encoded = refl; counted = refl }, tt), tt),
      )
      (omega arith) (omega arith)
