-- ===== src/Sync/Action.antt =====
-- SyncAction and _compute_action_for_record of src/sync.c.
use palm_sync_daemon.Base.{Bool, if◌then◌else◌}
use palm_sync_daemon.Sync.Status.{RecordStatus, no_record, added, not_changed, changed, deleted}

pub data SyncAction : Type 0 where
  error do_nothing add_to_desktop add_to_handheld copy_to_desktop : SyncAction
  replace_on_handheld delete_on_handheld : SyncAction

-- The switch covers every status, so its default, ACTION_ERROR, is never the result.
unfoldable pub compute_action_for_record : RecordStatus → Bool → SyncAction
compute_action_for_record no_record org = if org then add_to_handheld else do_nothing
compute_action_for_record added org = if org then copy_to_desktop else add_to_desktop
compute_action_for_record not_changed org = if org then replace_on_handheld else add_to_desktop
compute_action_for_record changed org = if org then copy_to_desktop else add_to_desktop
compute_action_for_record deleted org = if org then do_nothing else delete_on_handheld
