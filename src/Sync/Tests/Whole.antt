-- ===== src/Sync/Tests/Whole.antt =====
-- The theorems on _sync_memos of src/sync.c applied to concrete files.
use palm_sync_daemon.Base.{ℕ, ◌≡◌, Option, some, none, true, false, List, [], ◌∷◌}
use palm_sync_daemon.File.{File}
use palm_sync_daemon.Pdb.Types.{PdbCategories}
use palm_sync_daemon.Sync.Status.{SyncRecord, added, compute_record_statuses}
use palm_sync_daemon.Sync.Whole.{MemosCalls, MemosFiles, sync_memos_files}
use palm_sync_daemon.Sync.Whole.Laws.{sync_memos_files-dry}
use palm_sync_daemon.OrgNotes.{tag_of}
use palm_sync_daemon.OrgNotes.FirstLoop.{write_note_of, entries_of}
use palm_sync_daemon.Sync.Tests.{record_of, list_device, write_nothing, example_notes}

abbrev keep_bytes : List ℕ → Option (List ℕ)
keep_bytes xs = some xs

abbrev keep_records : List SyncRecord → List SyncRecord
keep_records rs = rs

abbrev two_categories : PdbCategories
two_categories = record {
  renamed_categories = 0;
  names = (85 ∷ 110 ∷ 0 ∷ []) ∷ (65 ∷ 0 ∷ 0 ∷ []) ∷ [];
  ids = 0 ∷ 1 ∷ [];
  last_unique_id = 15;
  padding = 0;
}

-- A memo that the OrgMode file does not have.
abbrev new_memo : SyncRecord
new_memo = record {
  base = record_of 1 1;
  hash = 77;
  status = added;
  header = 66 ∷ [];
  text = 7 ∷ [];
}

abbrev first_calls : MemosCalls
first_calls = record {
  memos = some (new_memo ∷ [], two_categories);
  previous = none;
  notes = some example_notes;
  org_opens = true;
  org_closes = true;
  memos_written = true;
}

abbrev org_file : File
org_file = record { bytes = 35 ∷ []; pos = 1; room = 100; readable = false }

abbrev dry_files : MemosFiles list_device keep_records write_nothing
dry_files = record { org_file = org_file; memos_file = some []; report = none }

sync_memos_files-dry_example :
    let f' =
      (sync_memos_files list_device keep_records write_nothing 5 first_calls true dry_files).1 in
    (f'.org_file ≡ org_file) × (f'.memos_file ≡ some [])
sync_memos_files-dry_example =
    sync_memos_files-dry list_device keep_records write_nothing 5 first_calls dry_files

abbrev first_files : MemosFiles list_device keep_records (write_note_of list_device keep_bytes 1)
first_files = record { org_file = org_file; memos_file = some []; report = none }

abbrev statused : List SyncRecord
statused = compute_record_statuses none (new_memo ∷ [])

abbrev new_entries : List ℕ
new_entries = entries_of keep_bytes tag_of two_categories example_notes statused
