-- ===== src/Sync/Memos/Laws.antt =====
-- What a synchronisation of memos does to the OrgMode file, to the handheld and to the counts.
use palm_sync_daemon.Base.{
  ℕ, zero, suc, ◌≡◌, ◌∙◌, ◌⊎◌, inl, inr, refl, sym, subst, ap, Bool, true, false, Option, none,
  some, List, [], ◌∷◌, bit_and, All, arith, Bool-cases,
}
use palm_sync_daemon.File.{Io}
use palm_sync_daemon.File.Ensures.{Ensures, after_call, always}
use palm_sync_daemon.Pdb.Types.{PdbRecord, PdbCategories}
use palm_sync_daemon.Libc.SortSearch.{In}
use palm_sync_daemon.Sync.Status.{
  SyncRecord, no_record, is_set, compute_status, with_status, compute_record_statuses,
}
use palm_sync_daemon.Sync.Status.Table.{compute_status_hidden}
use palm_sync_daemon.Sync.Action.{
  SyncAction, error, do_nothing, add_to_desktop, add_to_handheld, copy_to_desktop,
  replace_on_handheld, delete_on_handheld, compute_action_for_record,
}
use palm_sync_daemon.Sync.Memos.{
  OrgNote, Handheld, Sync, find_note, has_record, is_some, to_desktop, to_handheld, perform,
  sync_record, sync_records, sync_notes, sync_both, first_of,
}

module _ (device : Handheld) (org_notes_write : List ℕ → List ℕ → List ℕ → Io (Unit {0})) where
  open device use {State, records, memo_add}

  dry_to_desktop :
      (c : PdbCategories) (r : SyncRecord) (s : Sync device org_notes_write)
      → to_desktop device org_notes_write true c r s ≡ s
  unfolding to_desktop
  dry_to_desktop c r s = ground arith

  dry_perform :
      (c : PdbCategories) (r : SyncRecord) (found : Option OrgNote) (a : SyncAction)
      (s : Sync device org_notes_write)
      → (perform device org_notes_write true c r found a s).org ≡ s.org
  unfolding perform
  dry_perform c r found do_nothing s = refl
  dry_perform c r found add_to_desktop s = rw (dry_to_desktop c r s)
  dry_perform c r found copy_to_desktop s = rw (dry_to_desktop c r s)
  dry_perform c r (some n) add_to_handheld s = refl
  dry_perform c r none add_to_handheld s = refl
  dry_perform c r (some n) replace_on_handheld s = refl
  dry_perform c r none replace_on_handheld s = refl
  dry_perform c r found delete_on_handheld s = refl
  dry_perform c r found error s = refl

  dry_sync_records :
      (c : PdbCategories) (notes : List OrgNote) (turns : ℕ) (o : Option SyncRecord)
      (s : Sync device org_notes_write)
      → (sync_records device org_notes_write true c notes turns o s).1.org ≡ s.org
  unfolding sync_records
  dry_sync_records c notes zero none s = refl
  dry_sync_records c notes (suc turns) none s = refl
  dry_sync_records c notes zero (some r) s = refl
  dry_sync_records c notes (suc turns) (some r) s =
      dry_sync_records c notes turns _ _
      ∙ dry_perform c r (find_note r.hash notes)
          (compute_action_for_record r.status (is_some (find_note r.hash notes))) s

  pub sync_notes-org :
      (notes : List OrgNote) (s : Sync device org_notes_write)
      → (sync_notes device org_notes_write notes s).org ≡ s.org
  unfolding sync_notes
  sync_notes-org [] s = refl
  sync_notes-org (n ∷ ns) s = elim (Bool-cases (has_record n.header_hash (records s.handheld))) [
    | inl old ↦ rw (old, sync_notes) (sync_notes-org ns s)
    | inr new ↦ rw (new, sync_notes) (sync_notes-org ns (to_handheld device org_notes_write n s))
  ]

  -- A dry run leaves the OrgMode file as it is.
  pub dry_run-org :
      (c : PdbCategories) (notes : List OrgNote) (turns : ℕ) (s : Sync device org_notes_write)
      → (sync_both device org_notes_write true c notes turns s).1.org ≡ s.org
  unfolding sync_both
  dry_run-org c notes turns s =
      always (λ (s' : Sync device org_notes_write). s'.org ≡ s.org)
        (sync_records device org_notes_write true c notes turns (first_of (records s.handheld)) s) _
        (dry_sync_records c notes turns (first_of (records s.handheld)) s)
        (λ _ s' h. sync_notes-org notes s' ∙ h)

  status_of_one :
      (prev : List PdbRecord) (rs : List SyncRecord) (r : SyncRecord)
      → In r (compute_record_statuses (some prev) rs)
      → r.status ≡ compute_status prev r.base
  unfolding compute_record_statuses
  status_of_one prev [] r i = elim i [ ]
  status_of_one prev (q ∷ qs) r (inl e) =
      ap (λ (x : SyncRecord). x.status) e
      ∙ ap (λ (x : SyncRecord). compute_status prev x.base) (sym e)
  status_of_one prev (q ∷ qs) r (inr i) = status_of_one prev qs r i

  -- If there is a PDB file of a previous synchronisation that can be read, then the turn of the
  -- first loop for a secret or locked record, with the status that _compute_record_statuses has
  -- given it, neither writes to the OrgMode file nor counts the record as added to the desktop or
  -- as replaced or deleted on the handheld, whatever the previous file holds.
  pub hidden_record-stays :
      (dry_run : Bool) (c : PdbCategories) (notes : List OrgNote) (prev : List PdbRecord)
      (rs : List SyncRecord) (r : SyncRecord) (s : Sync device org_notes_write)
      → In r (compute_record_statuses (some prev) rs)
      → (is_set (bit_and r.base.attributes 0xf0) 0x10 ≡ true)
        ⊎ (is_set (bit_and r.base.attributes 0xf0) 0x20 ≡ true)
      → let s' = sync_record device org_notes_write dry_run c notes r s in
        (s'.org ≡ s.org)
        × (s'.counts.desktop_added ≡ s.counts.desktop_added)
        × (s'.counts.handheld_replaced ≡ s.counts.handheld_replaced)
        × (s'.counts.handheld_deleted ≡ s.counts.handheld_deleted)
  unfolding sync_record
  hidden_record-stays dry_run c notes prev rs r s i h =
      rw (status_of_one prev rs r i, compute_status_hidden r.base prev h)
        (by_note (find_note r.hash notes))
    where
      by_note :
          (found : Option OrgNote)
          → let s' =
              perform device org_notes_write dry_run c
                (with_status no_record r)
                found
                (compute_action_for_record no_record (is_some found))
                s in
            (s'.org ≡ s.org)
            × (s'.counts.desktop_added ≡ s.counts.desktop_added)
            × (s'.counts.handheld_replaced ≡ s.counts.handheld_replaced)
            × (s'.counts.handheld_deleted ≡ s.counts.handheld_deleted)
      by_note none = (refl, refl, refl, refl)
      by_note (some n) = (refl, refl, refl, refl)

-- What pdb_memos_memo_add has to do for the second loop to end with every note on the handheld: it
-- succeeds, a record with the hash of the note is there then, and no record is lost.
pub record AddsRecord (device : Handheld) : Type 0 where
  pub succeeds : (n : OrgNote) (h : device.State) → (device.memo_add n h).0 ≡ true
  pub present :
      (n : OrgNote) (h : device.State)
      → (device.memo_add n h).0 ≡ true
      → has_record n.header_hash (device.records (device.memo_add n h).1) ≡ true
  pub kept :
      (n : OrgNote) (h : device.State) (hash : ℕ)
      → has_record hash (device.records h) ≡ true
      → has_record hash (device.records (device.memo_add n h).1) ≡ true

module _ (device : Handheld) (org_notes_write : List ℕ → List ℕ → List ℕ → Io (Unit {0}))
    (adds : AddsRecord device) where
  sync_notes-kept :
      (notes : List OrgNote) (s : Sync device org_notes_write) (hash : ℕ)
      → has_record hash (device.records s.handheld) ≡ true
      → has_record hash (device.records (sync_notes device org_notes_write notes s).handheld) ≡ true
  unfolding sync_notes
  sync_notes-kept [] s hash h = h
  sync_notes-kept (n ∷ ns) s hash h =
      elim (Bool-cases (has_record n.header_hash (device.records s.handheld))) [
        | inl old ↦ rw (old, sync_notes) (sync_notes-kept ns s hash h)
        | inr new ↦
            rw (new, sync_notes)
              (sync_notes-kept ns (to_handheld device org_notes_write n s) hash
                (adds.kept n s.handheld hash h))
      ]

  any-Ensures : (r : Option (Unit {0}) × Sync device org_notes_write) → Ensures (λ _ s'. Unit) r
  any-Ensures (none, s) = tt
  any-Ensures (some a, s) = tt

  abbrev pub OnHandheld : Sync device org_notes_write → OrgNote → Type 0
  OnHandheld s n = has_record n.header_hash (device.records s.handheld) ≡ true

  skip_old :
      (n : OrgNote) (ns : List OrgNote) (s : Sync device org_notes_write)
      → has_record n.header_hash (device.records s.handheld) ≡ true
      → sync_notes device org_notes_write (n ∷ ns) s ≡ sync_notes device org_notes_write ns s
  unfolding sync_notes
  skip_old n ns s h = rw (h, sync_notes)

  add_new :
      (n : OrgNote) (ns : List OrgNote) (s : Sync device org_notes_write)
      → has_record n.header_hash (device.records s.handheld) ≡ false
      → sync_notes device org_notes_write (n ∷ ns) s
        ≡ sync_notes device org_notes_write ns (to_handheld device org_notes_write n s)
  unfolding sync_notes
  add_new n ns s h = rw (h, sync_notes)

  pub sync_notes_complete :
      (notes : List OrgNote) (s : Sync device org_notes_write)
      → All (OnHandheld (sync_notes device org_notes_write notes s)) notes
  sync_notes_complete [] s = tt
  sync_notes_complete (n ∷ ns) s =
      elim (Bool-cases (has_record n.header_hash (device.records s.handheld))) [
        | inl old ↦
            subst (λ t. OnHandheld t n × All (OnHandheld t) ns) (sym (skip_old n ns s old))
              (sync_notes-kept ns s n.header_hash old, sync_notes_complete ns s)
        | inr new ↦
            (let s' = to_handheld device org_notes_write n s in
              let there = adds.present n s.handheld (adds.succeeds n s.handheld) in
              subst (λ t. OnHandheld t n × All (OnHandheld t) ns) (sym (add_new n ns s new))
                (
                  sync_notes-kept ns s' n.header_hash (unfold to_handheld in there),
                  sync_notes_complete ns s',
                ))
      ]

  -- Where both loops of _sync_memos have ended, every note of the OrgMode file has a record on the handheld
  -- with the hash of its header, if adding a memo succeeds, adds a record with the note's hash and
  -- loses none.
  pub sync_both_complete :
      (dry_run : Bool) (c : PdbCategories) (notes : List OrgNote) (turns : ℕ)
      (s : Sync device org_notes_write)
      → Ensures
          (λ _ s'. All (OnHandheld s') notes)
          (sync_both device org_notes_write dry_run c notes turns s)
  unfolding sync_both
  sync_both_complete dry_run c notes turns s =
      after_call (λ _ s'. All (OnHandheld s') notes) (λ _ s'. Unit)
        (sync_records device org_notes_write dry_run c notes turns
          (first_of (device.records s.handheld)) s)
        _ (any-Ensures _) (λ _ s' h. sync_notes_complete notes s')

  sync_notes-idle :
      (notes : List OrgNote) (s : Sync device org_notes_write)
      → All (OnHandheld s) notes
      → sync_notes device org_notes_write notes s ≡ s
  unfolding sync_notes
  sync_notes-idle [] s h = refl
  sync_notes-idle (n ∷ ns) s h = skip_old n ns s h.0 ∙ sync_notes-idle ns s h.1

  -- The loop over the notes, made a second time, changes nothing, under the same condition on
  -- adding memos.
  pub sync_notes-sync_notes :
      (notes : List OrgNote) (s : Sync device org_notes_write)
      → let s' = sync_notes device org_notes_write notes s in
        sync_notes device org_notes_write notes s' ≡ s'
  sync_notes-sync_notes notes s =
      sync_notes-idle notes (sync_notes device org_notes_write notes s)
        (sync_notes_complete notes s)
