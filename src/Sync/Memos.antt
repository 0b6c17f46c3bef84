-- ===== src/Sync/Memos.antt =====
-- The two loops of _sync_memos in src/sync.c. The functions on the memos of the handheld come from a
-- header that is not in the repository: they are the operations of `Handheld`. The first loop goes
-- over the queue as those functions leave it: behind each turn it takes the record that is next
-- then. `turns` bounds the number of turns, as new records may come to the end without an end. The
-- texts for the log are left out.
pub mod Laws
use palm_sync_daemon.Base.{
  ℕ, zero, suc, ◌+◌, ◌%◌, ◌^◌, Bool, true, false, Option, none, some, List, [], ◌∷◌, bit_and, ◌==◌,
  if◌then◌else◌,
}
use palm_sync_daemon.File.{File, Io, Act, and_then}
use palm_sync_daemon.Pdb.Types.{PdbCategories}
use palm_sync_daemon.Pdb.Categories.{pdb_category_get_name}
use palm_sync_daemon.Sync.Status.{SyncRecord}
use palm_sync_daemon.Sync.Action.{
  SyncAction, error, do_nothing, add_to_desktop, add_to_handheld, copy_to_desktop,
  replace_on_handheld, delete_on_handheld, compute_action_for_record,
}

-- A note of the OrgMode file, src/include/org_notes.h.
pub record OrgNote : Type 0 where
  pub header : List ℕ
  pub text : Option (List ℕ)
  pub category : Option (List ℕ)
  pub header_hash : ℕ

-- pdb_memos_memo_add, pdb_memos_memo_edit and pdb_memos_memo_delete, and the queue of records that
-- they work on, with TAILQ_NEXT (for a record that is not in the queue any more, what its memory
-- holds). The Boolean says whether the call succeeds.
pub record Handheld : Type 1 where
  pub State : Type 0
  pub records : State → List SyncRecord
  pub next : SyncRecord → State → Option SyncRecord
  pub memo_add : OrgNote → State → Bool × State
  pub memo_edit : SyncRecord → OrgNote → State → Bool × State
  pub memo_delete : SyncRecord → State → Bool × State

pub record Counts : Type 0 where
  pub desktop_added : ℕ
  pub handheld_added : ℕ
  pub handheld_replaced : ℕ
  pub handheld_deleted : ℕ
  pub errors : ℕ

-- `++` on an unsigned int.
abbrev pub one_more : ℕ → ℕ
one_more n = (n + 1) % 2 ^ 32

abbrev pub find_note : ℕ → List OrgNote → Option OrgNote
find_note hash [] = none
find_note hash (n ∷ ns) = if n.header_hash == hash then some n else find_note hash ns

abbrev pub has_record : ℕ → List SyncRecord → Bool
has_record hash [] = false
has_record hash (r ∷ rs) = if hash == r.hash then true else has_record hash rs

abbrev pub is_some : {A : Type 0} → Option A → Bool
is_some none = false
is_some (some a) = true

-- TAILQ_FIRST
abbrev pub first_of : List SyncRecord → Option SyncRecord
first_of [] = none
first_of (r ∷ rs) = some r

module _ (device : Handheld) (org_notes_write : List ℕ → List ℕ → List ℕ → Io (Unit {0})) where
  open device use {State, records, next, memo_add, memo_edit, memo_delete}

  pub record Sync : Type 0 where
    pub handheld : State
    pub org : File
    pub counts : Counts

  -- `break` comes before the count if there is no such category or the run is a dry one; a note
  -- that cannot be written is counted all the same.
  unfoldable pub to_desktop : Bool → PdbCategories → SyncRecord → Sync → Sync
  to_desktop dry_run categories r s =
      elim (pdb_category_get_name (bit_and r.base.attributes 0x0f) categories) [
        | none ↦ s
        | some category ↦
            (if dry_run then s else record s {
              org = (org_notes_write r.header r.text category s.org).1;
              counts = record (s.counts) { desktop_added = one_more s.counts.desktop_added };
            })
      ]

  unfoldable pub to_handheld : OrgNote → Sync → Sync
  to_handheld n s = record s {
    handheld = (memo_add n s.handheld).1;
    counts = record (s.counts) { handheld_added = one_more s.counts.handheld_added };
  }

  unfoldable pub replace : SyncRecord → OrgNote → Sync → Sync
  replace r n s = record s {
    handheld = (memo_edit r n s.handheld).1;
    counts = record (s.counts) { handheld_replaced = one_more s.counts.handheld_replaced };
  }

  unfoldable pub remove : SyncRecord → Sync → Sync
  remove r s = record s {
    handheld = (memo_delete r s.handheld).1;
    counts = record (s.counts) { handheld_deleted = one_more s.counts.handheld_deleted };
  }

  unfoldable pub count_error : Sync → Sync
  count_error s = record s { counts = record (s.counts) { errors = one_more s.counts.errors } }

  -- The switch. Without a note the two actions that need one do not arise.
  unfoldable pub perform :
      Bool → PdbCategories → SyncRecord → Option OrgNote → SyncAction → Sync → Sync
  unfolding to_desktop to_handheld replace remove count_error
  perform dry_run categories r found do_nothing s = s
  perform dry_run categories r found add_to_desktop s = to_desktop dry_run categories r s
  perform dry_run categories r found copy_to_desktop s = to_desktop dry_run categories r s
  perform dry_run categories r (some n) add_to_handheld s = to_handheld n s
  perform dry_run categories r none add_to_handheld s = s
  perform dry_run categories r (some n) replace_on_handheld s = replace r n s
  perform dry_run categories r none replace_on_handheld s = s
  perform dry_run categories r found delete_on_handheld s = remove r s
  perform dry_run categories r found error s = count_error s

  unfoldable pub sync_record : Bool → PdbCategories → List OrgNote → SyncRecord → Sync → Sync
  unfolding perform compute_action_for_record
  sync_record dry_run categories notes r s =
      let note = find_note r.hash notes in
      perform dry_run categories r note (compute_action_for_record r.status (is_some note)) s

  -- `none`: the turns do not suffice.
  unfoldable pub sync_records :
      Bool → PdbCategories → List OrgNote → (turns : ℕ) → Option SyncRecord → Act Sync (Unit {0})
  unfolding sync_record
  sync_records dry_run categories notes turns none s = (some tt, s)
  sync_records dry_run categories notes zero (some r) s = (none, s)
  sync_records dry_run categories notes (suc turns) (some r) s =
      let s' = sync_record dry_run categories notes r s in
      sync_records dry_run categories notes turns (next r s'.handheld) s'

  -- Notes that the handheld does not have yet.
  unfoldable pub sync_notes : List OrgNote → Sync → Sync
  unfolding to_handheld
  sync_notes [] s = s
  sync_notes (n ∷ ns) s =
      sync_notes ns (if has_record n.header_hash (records s.handheld) then s else to_handheld n s)

  unfoldable pub sync_both : Bool → PdbCategories → List OrgNote → (turns : ℕ) → Act Sync (Unit {0})
  unfolding sync_records sync_notes
  sync_both dry_run categories notes turns s =
      and_then (sync_records dry_run categories notes turns (first_of (records s.handheld)) s)
        (λ _ s'. (some tt, sync_notes notes s'))
