-- ===== src/Sync/Whole.antt =====
-- _sync_memos of src/sync.c around its two loops. What pdb_memos_read, the previous PDB file,
-- org_notes_parse, org_notes_open, org_notes_close and pdb_memos_write give is a parameter. `none` is -1.
pub mod Laws
use palm_sync_daemon.Base.{ℕ, Bool, true, false, Option, none, some, List, if◌then◌else◌}
use palm_sync_daemon.File.{File, Io, Act, ◌>>=◌, ◌>>◌, guard, from_option}
use palm_sync_daemon.Pdb.Types.{PdbRecord, PdbCategories}
use palm_sync_daemon.Sync.Status.{SyncRecord, compute_record_statuses}
use palm_sync_daemon.Sync.Memos.{OrgNote, Handheld, Counts, Sync, sync_both}

abbrev pub no_counts : Counts
no_counts = record {
  desktop_added = 0;
  handheld_added = 0;
  handheld_replaced = 0;
  handheld_deleted = 0;
  errors = 0;
}

pub record MemosCalls : Type 0 where
  pub memos : Option (List SyncRecord × PdbCategories)
  pub previous : Option (List PdbRecord)
  pub notes : Option (List OrgNote)
  pub org_opens : Bool
  pub org_closes : Bool
  pub memos_written : Bool

-- `queue_of` is the structure that holds the records.
module _ (device : Handheld) (queue_of : List SyncRecord → device.State)
    (org_notes_write : List ℕ → List ℕ → List ℕ → Io (Unit {0})) where
  -- The two files, the PDB file by the structure that was written to it; `none` where that failed.
  -- The report is the last one that went to the handheld.
  pub record MemosFiles : Type 0 where
    pub org_file : File
    pub memos_file : Option device.State
    pub report : Option Counts

  -- The report goes out behind the loops.
  abbrev pub after_loops :
      MemosFiles
      → Option (Unit {0}) × Sync device org_notes_write
      → Option device.State × MemosFiles
  after_loops f (none, s) = (none, record f { org_file = s.org })
  after_loops f (some _, s) =
      (some s.handheld, record f { org_file = s.org; report = some s.counts })

  unfoldable pub sync_loops :
      (turns : ℕ)
      → Bool
      → PdbCategories
      → List OrgNote
      → List SyncRecord
      → Act MemosFiles device.State
  sync_loops turns dry_run categories notes rs f = after_loops f (
      sync_both device org_notes_write dry_run categories notes turns
        (record { handheld = queue_of rs; org = f.org_file; counts = no_counts }))

  abbrev pub write_memos_back : (dry_run works : Bool) → device.State → Act MemosFiles (Unit {0})
  write_memos_back true works h f = (some tt, f)
  write_memos_back false true h f = (some tt, record f { memos_file = some h })
  write_memos_back false false h f = (none, record f { memos_file = none })

  -- _compute_record_statuses always returns 0. `none` is also that the turns do not suffice for the
  -- first loop.
  unfoldable pub sync_memos_files : (turns : ℕ) → MemosCalls → Bool → Act MemosFiles (Unit {0})
  unfolding sync_loops
  sync_memos_files turns calls dry_run = do
    read ← from_option calls.memos
    notes ← from_option calls.notes
    guard calls.org_opens
    h ← sync_loops turns dry_run read.1 notes (compute_record_statuses calls.previous read.0)
    guard calls.org_closes
    write_memos_back dry_run calls.memos_written h
