-- ===== src/Sync/Status/Table.antt =====
-- The statuses against the table "How to determine record statuses on handheld" of
-- docs/tex/technical_description.tex.
use palm_sync_daemon.Base.{
  ℕ, ◌/◌, ◌<◌, ◌≡◌, ◌≢◌, ◌⊎◌, inl, inr, refl, ap, ◌∙◌, true, Option, none, some, List, [], ◌∷◌,
  bit_and, arith, Bool-cases, ◌||◌, if◌then◌else◌,
}
use palm_sync_daemon.Base.Bits.{low_nibble, high_nibble}
use palm_sync_daemon.Pdb.Types.{PdbRecord}
use palm_sync_daemon.Sync.Status.{
  RecordStatus, no_record, added, not_changed, changed, deleted, same_id, status_after,
  status_after_existing, status_or_new, is_set, matched_status, compute_status,
}

-- What the two sides of the table distinguish.
pub data Presence : Type 0 where
  absent present dirty gone : Presence

-- The table, row by row.
abbrev pub table : (now before : Presence) → RecordStatus
table absent absent = no_record
table present absent = added
table dirty absent = added
table gone absent = no_record
table absent present = deleted
table present present = not_changed
table dirty present = changed
table gone present = deleted
table absent dirty = deleted
table present dirty = not_changed
table dirty dirty = changed
table gone dirty = deleted
table absent gone = deleted
table present gone = added
table dirty gone = added
table gone gone = deleted

-- The attribute flags of a record in the words of the table; a category in the low half does not
-- matter. Other combinations of flags are not in the table.
abbrev pub Shows : Presence → PdbRecord → Type 0
Shows absent r = ⊥
Shows present r = r.attributes / 16 ≡ 0
Shows dirty r = r.attributes / 16 ≡ 4
Shows gone r = r.attributes / 16 ≡ 8

-- The record of the previous synchronisation that counts: the last with the same ID.
unfoldable pub last_match : PdbRecord → List PdbRecord → Option PdbRecord → Option PdbRecord
last_match r [] found = found
last_match r (q ∷ qs) found = last_match r qs (if same_id r q then some q else found)

abbrev pub Showed : Presence → Option PdbRecord → Type 0
Showed before none = before ≡ absent
Showed before (some q) = Shows before q × (q.attributes < 256)

status_from : PdbRecord → Option PdbRecord → Option RecordStatus
status_from r none = none
status_from r (some q) = some (status_after (bit_and q.attributes 0x0f) (bit_and r.attributes 0xf0))

matched_status-last_match :
    (r : PdbRecord) (qs : List PdbRecord) (found : Option PdbRecord)
    → matched_status r qs (status_from r found) ≡ status_from r (last_match r qs found)
unfolding matched_status last_match status_from
matched_status-last_match r [] found = refl
matched_status-last_match r (q ∷ qs) found = elim (Bool-cases (same_id r q)) [
  | inl same ↦ rw same (matched_status-last_match r qs (some q))
  | inr other ↦ rw other (matched_status-last_match r qs found)
]

-- The low half of a byte is no flag: the outer switch always takes its default.
status_after-low :
    (q attribute : ℕ)
    → q < 256
    → status_after (bit_and q 0x0f) attribute ≡ status_after_existing attribute
status_after-low q attribute h = rw (low_nibble q h) (ground arith)

flags : Presence → ℕ
flags dirty = 64
flags gone = 128
flags _ = 0

attribute_lem :
    (now : Presence) (r : PdbRecord)
    → r.attributes < 256
    → Shows now r
    → bit_and r.attributes 0xf0 ≡ flags now
unfolding flags
attribute_lem absent r h e = elim e [ ]
attribute_lem present r h e = rw (high_nibble r.attributes h) (omega arith)
attribute_lem dirty r h e = rw (high_nibble r.attributes h) (omega arith)
attribute_lem gone r h e = rw (high_nibble r.attributes h) (omega arith)

-- Neither secret nor locked, as no presence of the table is.
status_of : (attribute : ℕ) → Option PdbRecord → RecordStatus
status_of attribute none = status_or_new attribute none
status_of attribute (some q) = status_after_existing attribute

open_record :
    (now : Presence) (s : RecordStatus)
    → (if is_set (flags now) 0x10 || is_set (flags now) 0x20 then no_record else s) ≡ s
unfolding flags
open_record absent s = refl
open_record present s = refl
open_record dirty s = refl
open_record gone s = refl

module _ (now : Presence) (r : PdbRecord) (h : r.attributes < 256) (e : Shows now r) where
  after_match :
      (o : Option PdbRecord)
      → ((q : PdbRecord) → o ≡ some q → q.attributes < 256)
      → status_or_new (flags now) (status_from r o) ≡ status_of (flags now) o
  unfolding status_from status_of
  after_match none small = refl
  after_match (some q) small =
      rw (attribute_lem now r h e) (status_after-low q.attributes (flags now) (small q refl))

  compute_status-match :
      (prev : List PdbRecord)
      → ((q : PdbRecord) → last_match r prev none ≡ some q → q.attributes < 256)
      → compute_status prev r ≡ status_of (flags now) (last_match r prev none)
  unfolding compute_status status_from
  compute_status-match prev small = rw (attribute_lem now r h e) (
      open_record now (status_or_new (flags now) (matched_status r prev none))
      ∙ ap (status_or_new (flags now)) (matched_status-last_match r prev none)
      ∙ after_match (last_match r prev none) small)

Showed-small :
    (before : Presence) (o : Option PdbRecord)
    → Showed before o
    → (q : PdbRecord) → o ≡ some q
    → q.attributes < 256
Showed-small before none h q e = cc
Showed-small before (some p) h q e = ground arith

status_of-table :
    (now before : Presence) (r : PdbRecord) (o : Option PdbRecord)
    → Shows now r
    → Showed before o
    → before ≢ gone
    → status_of (flags now) o ≡ table now before
unfolding status_of flags
status_of-table absent before r o h k ne = elim h [ ]
status_of-table present before r none h k ne = rw k
status_of-table dirty before r none h k ne = rw k
status_of-table gone before r none h k ne = rw k
status_of-table now absent r (some q) h k ne = elim k.0 [ ]
status_of-table now gone r (some q) h k ne = absurd (ne refl)
status_of-table present present r (some q) h k ne = refl
status_of-table dirty present r (some q) h k ne = refl
status_of-table gone present r (some q) h k ne = refl
status_of-table present dirty r (some q) h k ne = refl
status_of-table dirty dirty r (some q) h k ne = refl
status_of-table gone dirty r (some q) h k ne = refl

-- A record gets the status of the table in the technical description, if the PDB file of the
-- previous synchronisation can be read, the attributes are bytes with flags among those of the
-- table, and the previous record is not one marked as deleted.
pub compute_status-table :
    (now before : Presence) (r : PdbRecord) (prev : List PdbRecord)
    → r.attributes < 256
    → Shows now r
    → Showed before (last_match r prev none)
    → before ≢ gone
    → compute_status prev r ≡ table now before
compute_status-table now before r prev h e showed ne =
    compute_status-match now r h e prev (Showed-small before (last_match r prev none) showed)
    ∙ status_of-table now before r (last_match r prev none) e showed ne

status_of-gone :
    (now : Presence) (r : PdbRecord) (o : Option PdbRecord)
    → Shows now r
    → Showed gone o
    → now ≢ gone
    → (status_of (flags now) o ≡ table now present) × (table now present ≢ table now gone)
unfolding status_of flags
status_of-gone absent r o h k ne = elim h [ ]
status_of-gone now r none h k ne = absurd (grind arith)
status_of-gone gone r (some q) h k ne = absurd (ne refl)
status_of-gone present r (some q) h k ne = (refl, λ e. cc)
status_of-gone dirty r (some q) h k ne = (refl, λ e. cc)

-- On byte attributes with flags among those of the table, where the previous record is marked as
-- deleted and the record is not, the status is the one for a previous record that exists, and
-- differs from the table of the technical description.
pub compute_status-gone :
    (now : Presence) (r : PdbRecord) (prev : List PdbRecord)
    → r.attributes < 256
    → Shows now r
    → Showed gone (last_match r prev none)
    → now ≢ gone
    → (compute_status prev r ≡ table now present) × (compute_status prev r ≢ table now gone)
compute_status-gone now r prev h e showed ne =
    let found = status_of-gone now r (last_match r prev none) e showed ne in
    let same =
      compute_status-match now r h e prev (Showed-small gone (last_match r prev none) showed) in
    (same ∙ found.0, rw (same, found.0) found.1)

-- A secret or locked record has the status "no record", whatever the previous records are.
pub compute_status_hidden :
    (r : PdbRecord) (prev : List PdbRecord)
    → ((is_set (bit_and r.attributes 0xf0) 0x10 ≡ true)
        ⊎ (is_set (bit_and r.attributes 0xf0) 0x20 ≡ true))
    → compute_status prev r ≡ no_record
unfolding compute_status
compute_status_hidden r prev (inl e) = rw e
compute_status_hidden r prev (inr e) = ground arith
