-- ===== src/Sync/Tests.antt =====
-- A handheld whose memos are a list, and the theorems on the synchronisation (src/sync.c) applied
-- to concrete records and notes.
mod Whole
use palm_sync_daemon.Base.{
  Bool, ℕ, Option, if◌then◌else◌, ◌≡◌, ◌≢◌, refl, inl, inr, true, false, none, some, List, [], ◌∷◌,
  ◌++◌, All, arith, ◌==◌, ◌⊎◌, ◌↔◌, last,
}
use palm_sync_daemon.File.{Io, pure}
use palm_sync_daemon.Pdb.Types.{PdbRecord, PdbCategories}
use palm_sync_daemon.Sync.Status.{
  SyncRecord, added, compute_status, with_status, compute_record_statuses,
}
use palm_sync_daemon.Sync.Status.Table.{
  present, dirty, gone, table, last_match, compute_status-table, compute_status-gone,
}
use palm_sync_daemon.Sync.Memos.{OrgNote, Handheld, Counts, Sync, first_of, sync_record, sync_both}
use palm_sync_daemon.Sync.Memos.Laws.{
  OnHandheld, dry_run-org, hidden_record-stays, sync_both_complete,
}
use palm_sync_daemon.Libc.SortSearch.{In}
use palm_sync_daemon.Sync.Session.{
  Call, palm_open, check_previous_pdbs, palm_read, sync_memos, palm_write, save_as_previous_pdbs,
  palm_close, synced, failed, sync_this,
}
use palm_sync_daemon.Sync.Session.Laws.{
  all_stages, sync_this-synced, sync_this-saves, sync_this-closes,
}

abbrev record_of : (id attributes : ℕ) → PdbRecord
record_of id attributes = record {
  offset = 0;
  attributes = attributes;
  id0 = id;
  id1 = 0;
  id2 = 0;
  payload = none;
  address = id;
}

compute_status-table_example :
    compute_status (record_of 2 0x00 ∷ record_of 1 0x01 ∷ []) (record_of 1 0x42)
    ≡ table dirty present
unfolding last_match
compute_status-table_example =
    compute_status-table dirty present (record_of 1 0x42) (record_of 2 0x00 ∷ record_of 1 0x01 ∷ [])
      (omega arith) refl (refl, omega arith) (λ e. cc)

compute_status-gone_example :
    (compute_status (record_of 1 0x80 ∷ []) (record_of 1 0x42) ≡ table dirty present)
    × (compute_status (record_of 1 0x80 ∷ []) (record_of 1 0x42) ≢ table dirty gone)
unfolding last_match
compute_status-gone_example =
    compute_status-gone dirty (record_of 1 0x42) (record_of 1 0x80 ∷ []) (omega arith) refl
      (refl, omega arith) (λ e. cc)

abbrev memo_of : OrgNote → SyncRecord
memo_of n = record {
  base = record_of 9 0;
  hash = n.header_hash;
  status = added;
  header = n.header;
  text = [];
}

-- The record behind the one at the address.
abbrev behind : ℕ → List SyncRecord → Option SyncRecord
behind address [] = none
behind address (r ∷ rs) = if r.base.address == address then first_of rs else behind address rs

abbrev list_device : Handheld
list_device = record {
  State = List SyncRecord;
  records = λ rs. rs;
  next = λ r rs. behind r.base.address rs;
  memo_add = λ n rs. (true, rs ++ (memo_of n ∷ []));
  memo_edit = λ r n rs. (false, rs);
  memo_delete = λ r rs. (false, rs);
}

abbrev write_nothing : List ℕ → List ℕ → List ℕ → Io (Unit {0})
write_nothing header text category = pure tt

abbrev example_notes : List OrgNote
example_notes =
    record { header = 65 ∷ []; text = none; category = none; header_hash = 11 }
    ∷ record { header = 66 ∷ []; text = some (1 ∷ []); category = none; header_hash = 12 }
    ∷ []

abbrev no_counts : Counts
no_counts = record {
  desktop_added = 0;
  handheld_added = 0;
  handheld_replaced = 0;
  handheld_deleted = 0;
  errors = 0;
}

abbrev secret_memo : SyncRecord
secret_memo = record {
  base = record_of 1 0x51;
  hash = 12;
  status = added;
  header = 66 ∷ [];
  text = [];
}

abbrev example_sync : Sync list_device write_nothing
example_sync = record {
  handheld = secret_memo ∷ [];
  org = record { bytes = 35 ∷ []; pos = 1; room = 100; readable = false };
  counts = no_counts;
}

abbrev no_categories : PdbCategories
no_categories = record {
  renamed_categories = 0;
  names = [];
  ids = [];
  last_unique_id = 0;
  padding = 0;
}

abbrev hidden_memo : SyncRecord
hidden_memo = with_status (compute_status [] (record_of 1 0x51)) secret_memo

it_is_there : In hidden_memo (compute_record_statuses (some []) (secret_memo ∷ []))
unfolding compute_record_statuses
it_is_there = inl refl

hidden_record-stays_example :
    let s' =
      sync_record list_device write_nothing false no_categories example_notes hidden_memo
        example_sync in
    (s'.org ≡ example_sync.org)
    × (s'.counts.desktop_added ≡ 0)
    × (s'.counts.handheld_replaced ≡ 0)
    × (s'.counts.handheld_deleted ≡ 0)
hidden_record-stays_example =
    hidden_record-stays list_device write_nothing false no_categories example_notes []
      (secret_memo ∷ []) hidden_memo example_sync it_is_there (inl refl)

-- The memos cannot be synchronised; all else works.
abbrev no_memos : Call → Bool
no_memos sync_memos = false
no_memos _ = true

abbrev all_work : Call → Bool
all_work _ = true

-- Neither the memos nor the handheld can be written.
abbrev no_write : Call → Bool
no_write sync_memos = false
no_write palm_write = false
no_write _ = true

sync_this-synced_example :
    (((sync_this no_write true).0 ≡ synced) ↔ (
      (no_write palm_open ≡ true)
      × (no_write check_previous_pdbs ≡ true)
      × (no_write palm_read ≡ true)
      × (no_write sync_memos ≡ true)
      × ((true ≡ true) ⊎ ((no_write palm_write ≡ true) × (no_write save_as_previous_pdbs ≡ true)))
      × (no_write palm_close ≡ true)
      × ((sync_this no_write true).1 ≡ all_stages true)))
    × ((true ≡ false)
        ⊎ ((¬ In palm_write (sync_this no_write true).1)
            × (¬ In save_as_previous_pdbs (sync_this no_write true).1)))
sync_this-synced_example = sync_this-synced no_write true

it_writes : In palm_write (sync_this all_work false).1
unfolding sync_this
it_writes = inr (inr (inr (inr (inl refl))))

it_saves : In save_as_previous_pdbs (sync_this all_work false).1
unfolding sync_this
it_saves = inr (inr (inr (inr (inr (inl refl)))))

sync_this-closes_example :
    ((no_memos check_previous_pdbs ≡ true) × (last (sync_this no_memos false).1 ≡ some palm_close))
    ⊎ ((no_memos check_previous_pdbs ≡ false)
        × (sync_this no_memos false ≡ (failed, palm_open ∷ check_previous_pdbs ∷ [])))
sync_this-closes_example = sync_this-closes no_memos false refl
