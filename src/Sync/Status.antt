-- ===== src/Sync/Status.antt =====
-- _compute_record_statuses of src/sync.c.
pub mod Table
use palm_sync_daemon.Base.{
  ℕ, Bool, true, false, Option, none, some, List, [], ◌∷◌, map, bit_and, ◌==◌, ◌&&◌, ◌||◌, not,
  if◌then◌else◌,
}
use palm_sync_daemon.Pdb.Types.{
  PdbRecord, pdb_record_attr_secret, pdb_record_attr_locked, pdb_record_attr_dirty,
  pdb_record_attr_deleted,
}

pub data RecordStatus : Type 0 where
  no_record added not_changed changed deleted : RecordStatus

-- A record of the handheld with the hash of its header, its status, and the memo behind its data
-- pointer.
pub record SyncRecord : Type 0 where
  pub base : PdbRecord
  pub hash : ℕ
  pub status : RecordStatus
  pub header : List ℕ
  pub text : List ℕ

abbrev pub same_id : PdbRecord → PdbRecord → Bool
same_id r q = r.id0 == q.id0 && (r.id1 == q.id1 && r.id2 == q.id2)

abbrev pub is_set : ℕ → ℕ → Bool
is_set attribute flag = not (bit_and attribute flag == 0)

-- The two inner switches, on the attribute of the record.
abbrev pub status_after_deleted : ℕ → RecordStatus
status_after_deleted attribute =
    if attribute == pdb_record_attr_deleted
    then deleted
    else (if attribute == pdb_record_attr_dirty then added else added)

abbrev pub status_after_existing : ℕ → RecordStatus
status_after_existing attribute =
    if attribute == pdb_record_attr_deleted
    then deleted
    else (if attribute == pdb_record_attr_dirty then changed else not_changed)

-- The outer switch, on the attribute of the record of the previous synchronisation, of which the
-- code keeps the low four bits.
abbrev pub status_after : ℕ → ℕ → RecordStatus
status_after prev_attribute attribute =
    if prev_attribute == pdb_record_attr_deleted
    then status_after_deleted attribute
    else (if prev_attribute == pdb_record_attr_dirty
        then status_after_existing attribute
        else status_after_existing attribute)

-- The loop over the previous records: each one with the same ID sets the status, so the last counts.
unfoldable pub matched_status :
    PdbRecord → List PdbRecord → Option RecordStatus → Option RecordStatus
matched_status r [] found = found
matched_status r (q ∷ qs) found = matched_status r qs (
    if same_id r q
    then some (status_after (bit_and q.attributes 0x0f) (bit_and r.attributes 0xf0))
    else found)

abbrev pub status_or_new : ℕ → Option RecordStatus → RecordStatus
status_or_new attribute (some status) = status
status_or_new attribute none = if is_set attribute pdb_record_attr_deleted then no_record else added

unfoldable pub compute_status : List PdbRecord → PdbRecord → RecordStatus
unfolding matched_status
compute_status prev r =
    let attribute = bit_and r.attributes 0xf0 in
    if is_set attribute pdb_record_attr_secret || is_set attribute pdb_record_attr_locked
    then no_record
    else status_or_new attribute (matched_status r prev none)

abbrev pub with_status : RecordStatus → SyncRecord → SyncRecord
with_status status r = record r { status = status }

-- `none`: there is no PDB file of a previous synchronisation that can be read.
unfoldable pub compute_record_statuses : Option (List PdbRecord) → List SyncRecord → List SyncRecord
unfolding compute_status
compute_record_statuses none rs = map (with_status added) rs
compute_record_statuses (some prev) rs = map (λ r. with_status (compute_status prev r.base) r) rs
