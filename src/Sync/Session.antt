-- ===== src/Sync/Session.antt =====
-- sync_this of src/sync.c: one synchronisation as the sequence of its calls. Whether a call succeeds
-- is given by `works`; what comes out is the result and the calls that were made, in their order. Every
-- function is called once at most.
pub mod Laws
use palm_sync_daemon.Base.{Bool, true, false, List, [], ◌∷◌, ◌++◌, if◌then◌else◌}

pub data Call : Type 0 where
  palm_open check_previous_pdbs palm_read sync_memos palm_write save_as_previous_pdbs : Call
  palm_free palm_close : Call

-- 0, -1 and PALM_NOT_CONNECTED.
pub data SyncResult : Type 0 where
  synced failed not_connected : SyncResult

module _ (works : Call → Bool) (dry_run : Bool) where
  -- sync_this_error: whether the device can be closed makes no difference.
  unfoldable pub sync_this_error : List Call → SyncResult × List Call
  sync_this_error calls = (failed, calls ++ (palm_free ∷ palm_close ∷ []))

  unfoldable pub finish : List Call → SyncResult × List Call
  finish calls =
      (if works palm_close then synced else failed, calls ++ (palm_free ∷ palm_close ∷ []))

  unfoldable pub save_stage : List Call → SyncResult × List Call
  unfolding finish sync_this_error
  save_stage calls =
      if dry_run
      then finish calls
      else (if works save_as_previous_pdbs
          then finish (calls ++ (save_as_previous_pdbs ∷ []))
          else sync_this_error (calls ++ (save_as_previous_pdbs ∷ [])))

  unfoldable pub write_stage : List Call → SyncResult × List Call
  unfolding save_stage sync_this_error
  write_stage calls =
      if dry_run
      then save_stage calls
      else (if works palm_write
          then save_stage (calls ++ (palm_write ∷ []))
          else sync_this_error (calls ++ (palm_write ∷ [])))

  unfoldable pub memos_stage : List Call → SyncResult × List Call
  unfolding write_stage sync_this_error
  memos_stage calls =
      if works sync_memos
      then write_stage (calls ++ (sync_memos ∷ []))
      else sync_this_error (calls ++ (sync_memos ∷ []))

  -- Without data there is nothing to free.
  unfoldable pub read_stage : List Call → SyncResult × List Call
  unfolding memos_stage
  read_stage calls =
      if works palm_read
      then memos_stage (calls ++ (palm_read ∷ []))
      else (failed, calls ++ (palm_read ∷ palm_close ∷ []))

  -- If the files of the previous synchronisation cannot be used, the device stays open.
  unfoldable pub check_stage : List Call → SyncResult × List Call
  unfolding read_stage
  check_stage calls =
      if works check_previous_pdbs
      then read_stage (calls ++ (check_previous_pdbs ∷ []))
      else (failed, calls ++ (check_previous_pdbs ∷ []))

  unfoldable pub sync_this : SyncResult × List Call
  unfolding check_stage
  sync_this =
      if works palm_open then check_stage (palm_open ∷ []) else (not_connected, palm_open ∷ [])
