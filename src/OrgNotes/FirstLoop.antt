-- ===== src/OrgNotes/FirstLoop.antt =====
-- The first loop of _sync_memos in src/sync.c with org_notes_write of src/orgmode/org_notes.c: the notes
-- that it puts into the OrgMode file.
use palm_sync_daemon.Base.{
  ℕ, zero, suc, refl, ◌+◌, ◌^◌, ◌≤◌, ◌<◌, ◌≡◌, ◌∙◌, sym, ap, subst, false, Option, none, some, List,
  [], ◌∷◌, ◌++◌, length, length-append, append_assoc, append-nil, All, bit_and, arith, Option-cases,
  inl, inr,
}
use palm_sync_daemon.File.{File, Io}
use palm_sync_daemon.Libc.Strings.{cstr}
use palm_sync_daemon.Pdb.Types.{Ptr, PdbCategories}
use palm_sync_daemon.Pdb.Categories.{pdb_category_get_name}
use palm_sync_daemon.Sync.Status.{SyncRecord}
use palm_sync_daemon.Sync.Action.{
  SyncAction, error, do_nothing, add_to_desktop, add_to_handheld, copy_to_desktop,
  replace_on_handheld, delete_on_handheld, compute_action_for_record,
}
use palm_sync_daemon.Sync.Memos.{
  OrgNote, Handheld, Sync, find_note, is_some, to_desktop, perform, sync_record, sync_records,
  first_of,
}
use palm_sync_daemon.OrgNotes.{org_notes_write}
use palm_sync_daemon.OrgNotes.Laws.{org_entry, IsTag, IsAppended, appended, org_notes_write-appends}

module _ (device : Handheld) (to_utf8 : List ℕ → Option (List ℕ)) (a : Ptr) where
  -- As the loop calls it, with the buffer of a category as a string.
  abbrev pub write_note_of : List ℕ → List ℕ → List ℕ → Io (Unit {0})
  write_note_of header text category =
      org_notes_write to_utf8 (some a) header (some text) (some (cstr category))

module _ (to_utf8 : List ℕ → Option (List ℕ)) (tag : Option (List ℕ) → Option (List ℕ)) where
  abbrev pub utf8_of : List ℕ → List ℕ
  utf8_of s = elim (to_utf8 s) [ none ↦ [] | some u ↦ u ]

  -- The entry of one record that goes to the desktop, where it has a category.
  abbrev pub desktop_entry : Option (List ℕ) → SyncRecord → List ℕ
  desktop_entry none r = []
  desktop_entry (some category) r =
      org_entry (utf8_of r.header) (to_utf8 r.text) (tag (some (cstr category)))

  abbrev pub entry_for : Option (List ℕ) → SyncRecord → SyncAction → List ℕ
  entry_for category r do_nothing = []
  entry_for category r add_to_desktop = desktop_entry category r
  entry_for category r copy_to_desktop = desktop_entry category r
  entry_for category r add_to_handheld = []
  entry_for category r replace_on_handheld = []
  entry_for category r delete_on_handheld = []
  entry_for category r error = []

  module _ (c : PdbCategories) (notes : List OrgNote) where
    abbrev pub entry_of : SyncRecord → List ℕ
    entry_of r =
        entry_for (pdb_category_get_name (bit_and r.base.attributes 0x0f) c) r
          (compute_action_for_record r.status (is_some (find_note r.hash notes)))

    abbrev pub entries_of : List SyncRecord → List ℕ
    entries_of [] = []
    entries_of (r ∷ rs) = entry_of r ++ entries_of rs

-- An action that leaves the queue of records as it is.
abbrev pub IsSteady : SyncAction → Type 0
IsSteady do_nothing = Unit
IsSteady add_to_desktop = Unit
IsSteady copy_to_desktop = Unit
IsSteady add_to_handheld = ⊥
IsSteady replace_on_handheld = Unit
IsSteady delete_on_handheld = ⊥
IsSteady error = Unit

abbrev pub Converts : (to_utf8 : List ℕ → Option (List ℕ)) → SyncRecord → Type 0
Converts to_utf8 r = (u : List ℕ) × (to_utf8 r.header ≡ some u)

-- The header can be converted and the turn of the record leaves the queue as it is.
abbrev pub IsReady :
    (to_utf8 : List ℕ → Option (List ℕ)) → (notes : List OrgNote) → SyncRecord → Type 0
IsReady to_utf8 notes r =
    Converts to_utf8 r
    × IsSteady (compute_action_for_record r.status (is_some (find_note r.hash notes)))

-- Each record of the list is followed by the next one, and the last by none.
abbrev pub IsLinked : (device : Handheld) → List SyncRecord → device.State → Type 0
IsLinked device [] h = Unit
IsLinked device (r ∷ rs) h = (device.next r h ≡ first_of rs) × IsLinked device rs h

-- An edit of a memo changes no pointer of the queue.
abbrev pub EditKeepsQueue : Handheld → Type 0
EditKeepsQueue device =
    (r : SyncRecord) (n : OrgNote) (h : device.State) (q : SyncRecord)
    → device.next q (device.memo_edit r n h).1 ≡ device.next q h

module _ (device : Handheld) (to_utf8 : List ℕ → Option (List ℕ)) (a : Ptr)
    (tag : Option (List ℕ) → Option (List ℕ)) (tags : (c : Option (List ℕ)) → IsTag c (tag c))
    (keeps : EditKeepsQueue device) where
  appended-nil : (f : File) → IsAppended f → appended [] f ≡ f
  appended-nil f e =
      ap (λ bs. record f { bytes = bs; pos = length f.bytes + 0 }) (append-nil f.bytes)
      ∙ ap (λ n. record f { pos = n }) {x = length f.bytes + 0} (omega (arith, e))

  record_Converts :
      (r : SyncRecord) → Converts to_utf8 r → to_utf8 r.header ≡ some (utf8_of to_utf8 tag r.header)
  record_Converts r (u, e) =
      e ∙ ap (λ (o : Option (List ℕ)). some (elim o [ none ↦ [] | some v ↦ v ])) (sym e)

  to_desktop-handheld :
      (c : PdbCategories) (r : SyncRecord) (s : Sync device (write_note_of device to_utf8 a))
      → (to_desktop device (write_note_of device to_utf8 a) false c r s).handheld ≡ s.handheld
  unfolding to_desktop
  to_desktop-handheld c r s =
      elim (Option-cases (pdb_category_get_name (bit_and r.base.attributes 0x0f) c)) [
        | inl e ↦ rw (to_desktop, e) refl
        | inr (category, e) ↦ rw (to_desktop, e) refl
      ]

  edit-IsLinked :
      (r : SyncRecord) (n : OrgNote) (h : device.State) (rs : List SyncRecord)
      → IsLinked device rs h
      → IsLinked device rs (device.memo_edit r n h).1
  edit-IsLinked r n h [] l = tt
  edit-IsLinked r n h (q ∷ rs) l = (keeps r n h q ∙ l.0, edit-IsLinked r n h rs l.1)

  to_desktop-appends :
      (c : PdbCategories) (r : SyncRecord) (s : Sync device (write_note_of device to_utf8 a))
      → Converts to_utf8 r
      → IsAppended s.org
      → let entry =
          desktop_entry to_utf8 tag (pdb_category_get_name (bit_and r.base.attributes 0x0f) c) r in
        length entry + 1 < 2 ^ 32
        → length s.org.bytes + length entry ≤ s.org.room
        → (to_desktop device (write_note_of device to_utf8 a) false c r s).org
          ≡ appended entry s.org
  unfolding to_desktop
  to_desktop-appends c r s converts end small room =
      elim (Option-cases (pdb_category_get_name (bit_and r.base.attributes 0x0f) c)) [
        | inl e ↦ rw (to_desktop, e) (sym (appended-nil s.org end))
        | inr (category, e) ↦
            rw (to_desktop, e)
              (ap (λ (x : Option (Unit {0}) × File). x.1)
                (org_notes_write-appends to_utf8 a r.header (utf8_of to_utf8 tag r.header)
                  (some r.text) (some (cstr category)) (to_utf8 r.text) (tag (some (cstr category)))
                  s.org (record_Converts r converts) refl (tags (some (cstr category))) end
                  (subst (λ o. length (desktop_entry to_utf8 tag o r) + 1 < 2 ^ 32) e small)
                  (subst
                    (λ o. length s.org.bytes + length (desktop_entry to_utf8 tag o r) ≤ s.org.room)
                    e room)))
      ]

  -- What one turn appends.
  abbrev Appends :
      Sync device (write_note_of device to_utf8 a)
      → List ℕ
      → Sync device (write_note_of device to_utf8 a)
      → Type 0
  Appends s entry s' =
      IsAppended s.org
      → length entry + 1 < 2 ^ 32
      → length s.org.bytes + length entry ≤ s.org.room
      → s'.org ≡ appended entry s.org

  perform-Appends :
      (c : PdbCategories) (r : SyncRecord) (found : Option OrgNote) (action : SyncAction)
      (s : Sync device (write_note_of device to_utf8 a))
      → Converts to_utf8 r
      → Appends s
          (entry_for to_utf8 tag
            (pdb_category_get_name (bit_and r.base.attributes 0x0f) c)
            r
            action)
          (perform device (write_note_of device to_utf8 a) false c r found action s)
  unfolding perform
  perform-Appends c r found do_nothing s converts end small room = sym (appended-nil s.org end)
  perform-Appends c r found add_to_desktop s converts end small room =
      to_desktop-appends c r s converts end small room
  perform-Appends c r found copy_to_desktop s converts end small room =
      to_desktop-appends c r s converts end small room
  perform-Appends c r (some n) add_to_handheld s converts end small room =
      sym (appended-nil s.org end)
  perform-Appends c r none add_to_handheld s converts end small room = sym (appended-nil s.org end)
  perform-Appends c r (some n) replace_on_handheld s converts end small room =
      sym (appended-nil s.org end)
  perform-Appends c r none replace_on_handheld s converts end small room =
      sym (appended-nil s.org end)
  perform-Appends c r found delete_on_handheld s converts end small room =
      sym (appended-nil s.org end)
  perform-Appends c r found error s converts end small room = sym (appended-nil s.org end)

  appended-appended :
      (xs ys : List ℕ) (f : File) → appended ys (appended xs f) ≡ appended (xs ++ ys) f
  appended-appended xs ys f =
      ap (λ bs. record f { bytes = bs; pos = length (f.bytes ++ xs) + length ys })
        (append_assoc f.bytes xs ys)
      ∙ ap (λ n. record f { bytes = f.bytes ++ (xs ++ ys); pos = n })
          {x = length (f.bytes ++ xs) + length ys}
          (omega (arith, length-append f.bytes xs, length-append xs ys))

  appended-IsAppended : (xs : List ℕ) (f : File) → IsAppended (appended xs f)
  appended-IsAppended xs f = sym (length-append f.bytes xs)

  perform-IsLinked :
      (c : PdbCategories) (r : SyncRecord) (found : Option OrgNote) (action : SyncAction)
      (s : Sync device (write_note_of device to_utf8 a)) (rs : List SyncRecord)
      → IsSteady action
      → IsLinked device rs s.handheld
      → IsLinked device rs
          (perform device (write_note_of device to_utf8 a) false c r found action s).handheld
  unfolding perform
  perform-IsLinked c r found do_nothing s rs h l = l
  perform-IsLinked c r found add_to_desktop s rs h l =
      subst (IsLinked device rs) (sym (to_desktop-handheld c r s)) l
  perform-IsLinked c r found copy_to_desktop s rs h l =
      subst (IsLinked device rs) (sym (to_desktop-handheld c r s)) l
  perform-IsLinked c r (some n) replace_on_handheld s rs h l = edit-IsLinked r n s.handheld rs l
  perform-IsLinked c r none replace_on_handheld s rs h l = l
  perform-IsLinked c r found add_to_handheld s rs h l = elim h [ ]
  perform-IsLinked c r found delete_on_handheld s rs h l = elim h [ ]
  perform-IsLinked c r found error s rs h l = l

  -- Without an action that changes the queue the first loop goes over it once and ends.
  pub sync_records-appends :
      (c : PdbCategories) (notes : List OrgNote) (rs : List SyncRecord) (turns : ℕ)
      (s : Sync device (write_note_of device to_utf8 a))
      → length rs ≤ turns
      → All (IsReady to_utf8 notes) rs
      → IsLinked device rs s.handheld
      → IsAppended s.org
      → length (entries_of to_utf8 tag c notes rs) + 1 < 2 ^ 32
      → length s.org.bytes + length (entries_of to_utf8 tag c notes rs) ≤ s.org.room
      → let (r, s') =
          sync_records device
            (write_note_of device to_utf8 a)
            false
            c
            notes
            turns
            (first_of rs)
            s in
        (r ≡ some tt) × (s'.org ≡ appended (entries_of to_utf8 tag c notes rs) s.org)
  unfolding sync_records sync_record
  sync_records-appends c notes [] zero s enough ready l end small room =
      (refl, sym (appended-nil s.org end))
  sync_records-appends c notes [] (suc turns) s enough ready l end small room =
      (refl, sym (appended-nil s.org end))
  sync_records-appends c notes (r ∷ rs) zero s enough ready l end small room = absurd (omega arith)
  sync_records-appends c notes (r ∷ rs) (suc turns) s enough ready l end small room =
      let entry = entry_of to_utf8 tag c notes r in
      let others = entries_of to_utf8 tag c notes rs in
      let sum = length-append entry others in
      let note = find_note r.hash notes in
      let action = compute_action_for_record r.status (is_some note) in
      let s' = sync_record device (write_note_of device to_utf8 a) false c notes r s in
      let one : s'.org ≡ appended entry s.org =
        perform-Appends c r note action s ready.0.0 end (omega (arith, sum))
          (omega (arith, sum, room)) in
      let linked : IsLinked device (r ∷ rs) s'.handheld =
        perform-IsLinked c r note action s (r ∷ rs) ready.0.1 l in
      let rest =
        sync_records-appends c notes rs turns s' (omega arith) ready.1 linked.1
          (subst IsAppended (sym one) (appended-IsAppended entry s.org)) (omega (arith, sum))
          (subst (λ f. length f.bytes + length others ≤ f.room) (sym one)
            (omega (arith, length-append s.org.bytes entry, sum, room))) in
      rw linked.0 (rest.0, rest.1 ∙ ap (appended others) one ∙ appended-appended entry others s.org)
