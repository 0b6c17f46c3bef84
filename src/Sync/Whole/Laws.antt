-- ===== src/Sync/Whole/Laws.antt =====
-- What _sync_memos of src/sync.c leaves in the OrgMode file and in the PDB file of the handheld.
use palm_sync_daemon.Base.{ℕ, ◌≡◌, ◌∙◌, refl, true, Option, none, some, List, All}
use palm_sync_daemon.File.Ensures.{always, always_guarded}
use palm_sync_daemon.File.{File, Io, guard, ◌>>◌}
use palm_sync_daemon.Pdb.Types.{Ptr, PdbCategories}
use palm_sync_daemon.Sync.Status.{SyncRecord, compute_record_statuses}
use palm_sync_daemon.Sync.Memos.{OrgNote, Handheld, Sync, has_record, sync_both}
use palm_sync_daemon.Sync.Memos.Laws.{AddsRecord, dry_run-org}
use palm_sync_daemon.Sync.Whole.{
  no_counts, MemosCalls, MemosFiles, after_loops, write_memos_back, sync_loops, sync_memos_files,
}
use palm_sync_daemon.OrgNotes.Laws.{IsTag, appended}
use palm_sync_daemon.OrgNotes.FirstLoop.{write_note_of, IsLinked, EditKeepsQueue}

module _ (device : Handheld) (queue_of : List SyncRecord → device.State)
    (org_notes_write : List ℕ → List ℕ → List ℕ → Io (Unit {0})) where
  abbrev Same :
      MemosFiles device queue_of org_notes_write
      → MemosFiles device queue_of org_notes_write
      → Type 0
  Same f f' = (f'.org_file ≡ f.org_file) × (f'.memos_file ≡ f.memos_file)

  dry_after_loops :
      (f f' : MemosFiles device queue_of org_notes_write)
      (r : Option (Unit {0}) × Sync device org_notes_write)
      → (r.1).org ≡ f.org_file
      → Same f' f
      → Same f' (after_loops device queue_of org_notes_write f r).1
  dry_after_loops f f' (none, s) e same = (e ∙ same.0, same.1)
  dry_after_loops f f' (some _, s) e same = (e ∙ same.0, same.1)

  dry_loops :
      (turns : ℕ) (c : PdbCategories) (notes : List OrgNote) (rs : List SyncRecord)
      (f f' : MemosFiles device queue_of org_notes_write)
      → Same f' f
      → Same f' (sync_loops device queue_of org_notes_write turns true c notes rs f).1
  unfolding sync_loops
  dry_loops turns c notes rs f f' same =
      let start : Sync device org_notes_write = record {
        handheld = queue_of rs;
        org = f.org_file;
        counts = no_counts;
      } in
      dry_after_loops f f' (sync_both device org_notes_write true c notes turns start)
        (dry_run-org device org_notes_write c notes turns start) same

  -- A dry run of _sync_memos leaves the OrgMode file and the PDB file as they are, whatever fails
  -- and whatever the bound on the turns of the first loop is.
  pub sync_memos_files-dry :
      (turns : ℕ) (calls : MemosCalls) (f : MemosFiles device queue_of org_notes_write)
      → let f' = (sync_memos_files device queue_of org_notes_write turns calls true f).1 in
        (f'.org_file ≡ f.org_file) × (f'.memos_file ≡ f.memos_file)
  unfolding sync_memos_files
  sync_memos_files-dry turns calls f =
      always (Same f) (calls.memos, f) _ (refl, refl)
        (λ read s h.
          always (Same f) (calls.notes, s) _ h
            (λ notes s h. always_guarded (Same f) calls.org_opens s _ h (
              always (Same f)
                (sync_loops device queue_of org_notes_write turns true read.1 notes
                  (compute_record_statuses calls.previous read.0) s)
                (λ q.
                  guard calls.org_closes
                  >> write_memos_back device queue_of org_notes_write true calls.memos_written q)
                (dry_loops turns read.1 notes (compute_record_statuses calls.previous read.0) s f h)
                (λ q s h.
                  always_guarded (Same f) calls.org_closes s
                    (write_memos_back device queue_of org_notes_write true calls.memos_written q) h
                    h))))

module _ (device : Handheld) (queue_of : List SyncRecord → device.State)
    (to_utf8 : List ℕ → Option (List ℕ)) (a : Ptr) where
  abbrev pub write_note : List ℕ → List ℕ → List ℕ → Io (Unit {0})
  write_note = write_note_of device to_utf8 a

  -- Everything else works.
  pub record AllWork (calls : MemosCalls) (rs : List SyncRecord) (c : PdbCategories)
      (notes : List OrgNote) : Type 0 where
    pub memos_read : calls.memos ≡ some (rs, c)
    pub notes_parsed : calls.notes ≡ some notes
    pub opens : calls.org_opens ≡ true
    pub closes : calls.org_closes ≡ true
    pub written : calls.memos_written ≡ true

  -- The queue that is made of the records holds them in order.
  pub record IsQueue (rs : List SyncRecord) : Type 0 where
    pub holds : device.records (queue_of rs) ≡ rs
    pub linked : IsLinked device rs (queue_of rs)

  module _ (adds : AddsRecord device) (keeps : EditKeepsQueue device)
      (tag : Option (List ℕ) → Option (List ℕ))
      (tags : (c : Option (List ℕ)) → IsTag c (tag c)) where
    -- What the two loops come to.
    Looped : List ℕ → List OrgNote → File → Option (Unit {0}) × Sync device write_note → Type 0
    Looped entries notes org (r, s) =
        (r ≡ some tt)
        × (s.org ≡ appended entries org)
        × All (λ n. has_record n.header_hash (device.records s.handheld) ≡ true) notes

    Done :
        List ℕ
        → List OrgNote
        → File
        → Option (Unit {0}) × MemosFiles device queue_of write_note
        → Type 0
    Done entries notes org (r, f') =
        (r ≡ some tt)
        × (f'.org_file ≡ appended entries org)
        × ((h : device.State) × (f'.memos_file ≡ some h)
            × All (λ n. has_record n.header_hash (device.records h) ≡ true) notes)
