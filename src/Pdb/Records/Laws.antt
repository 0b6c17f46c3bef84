-- ===== src/Pdb/Records/Laws.antt =====
-- The counts and offsets of a PDB structure under pdb_record_create and pdb_record_delete of
-- src/pdb/pdb.c.
use palm_sync_daemon.Base.{
  ℕ, ◌+◌, ◌-◌, ◌%◌, ◌^◌, ◌<◌, ◌≡◌, ◌⊎◌, inl, inr, refl, true, false, Option, none, some, List, [],
  ◌∷◌, ◌++◌, length, length-append, All, arith, Bool-cases, ==_refl,
}
use palm_sync_daemon.Pdb.Types.{Ptr, PdbRecord, Pdb}
use palm_sync_daemon.Pdb.WriteFile.{app_info_position}
use palm_sync_daemon.Pdb.Records.{
  RecordId, id_of_long, has_id, shift_up, shift_down, new_record, pdb_record_create, remove_record,
  pdb_record_delete, pdb_record_get_unique_id,
}

-- The count is that of the records, and the application info block, where there is one, stands
-- behind the record list.
pub record IsConsistent (p : Pdb) : Type 0 where
  pub few : length p.records < 2 ^ 16
  pub counted : p.records_qty ≡ length p.records
  pub placed : (p.app_info_offset ≡ 0) ⊎ (p.app_info_offset ≡ app_info_position (length p.records))

-- The unique ID of a created record is the low 24 bits of the random number.
pub get_unique_id-create :
    (a : Ptr) (n offset attributes : ℕ) (payload : Option Ptr)
    → pdb_record_get_unique_id (new_record a offset attributes (id_of_long n) payload) ≡ n % 2 ^ 24
get_unique_id-create a n offset attributes payload = omega arith

-- If the allocation succeeds, pdb_record_create adds one record with the given fields at the end
-- and keeps the record count and the offset of the application info consistent with the record
-- list, while the list stays below 65536 records.
pub create-IsConsistent :
    (a : Ptr) (n offset attributes : ℕ) (payload : Option Ptr) (p : Pdb)
    → IsConsistent p
    → length p.records + 1 < 2 ^ 16
    → let (r, p') = pdb_record_create (some a) n offset attributes payload p in
      (r ≡ some a)
      × (p'.records ≡ p.records ++ (new_record a offset attributes (id_of_long n) payload ∷ []))
      × IsConsistent p'
unfolding pdb_record_create
create-IsConsistent a n offset attributes payload p c h =
    let r = new_record a offset attributes (id_of_long n) payload in
    let l = length-append p.records (r ∷ []) in
    (
      refl,
      refl,
      record {
        few = omega (arith, l);
        counted = omega (arith, l, c.counted);
        placed = ground (arith, l, c.placed);
      },
    )

-- A failed allocation changes nothing.
pub create_fails :
    (n offset attributes : ℕ) (payload : Option Ptr) (p : Pdb)
    → pdb_record_create none n offset attributes payload p ≡ (none, p)
unfolding pdb_record_create
create_fails n offset attributes payload p = refl

abbrev pub NoneHas : RecordId → List PdbRecord → Type 0
NoneHas id rs = All (λ r. has_id id r ≡ false) rs

-- `rs'` is `rs` less its first record with the ID.
pub data Removed (id : RecordId) : List PdbRecord → List PdbRecord → Type 0 where
  here : {r : PdbRecord} {rs : List PdbRecord} → has_id id r ≡ true → Removed id (r ∷ rs) rs
  there :
      {r : PdbRecord} {rs rs' : List PdbRecord}
      → has_id id r ≡ false
      → Removed id rs rs'
      → Removed id (r ∷ rs) (r ∷ rs')

pub length-Removed :
    {id : RecordId} {rs rs' : List PdbRecord} → Removed id rs rs' → length rs ≡ length rs' + 1
length-Removed (here h) = omega arith
length-Removed (there h d) = omega (arith, length-Removed d)

-- Either the record is found, and the first such goes, or no record has the ID.
pub remove_record-cases :
    (id : RecordId) (rs : List PdbRecord)
    → ((rs' : List PdbRecord) × (remove_record id rs ≡ some rs') × Removed id rs rs')
      ⊎ ((remove_record id rs ≡ none) × NoneHas id rs)
unfolding remove_record
remove_record-cases id [] = inr (refl, tt)
remove_record-cases id (r ∷ rs) = elim (Bool-cases (has_id id r)) [
  | inl found ↦ inl (rs, rw found, here found)
  | inr other ↦ elim (remove_record-cases id rs) [
    | inl (rs', e, d) ↦ inl (r ∷ rs', rw (other, e), there other d)
    | inr (e, h) ↦ inr (rw (other, e), (other, h))
  ]
]

-- pdb_record_delete on a consistent structure removes the first record with the ID and keeps the
-- structure consistent, or, where no record has the ID, fails and changes nothing.
pub delete_lem :
    (n : ℕ) (p : Pdb)
    → IsConsistent p
    → let (r, p') = pdb_record_delete n p in
      ((r ≡ some tt) × Removed (id_of_long n) p.records p'.records × IsConsistent p')
      ⊎ ((r ≡ none) × NoneHas (id_of_long n) p.records × (p' ≡ p))
unfolding pdb_record_delete
delete_lem n p c = elim (remove_record-cases (id_of_long n) p.records) [
  | inl (rs', e, d) ↦ inl (
      let l = length-Removed d in
      rw e (
        refl,
        d,
        record {
          few = omega (arith, l);
          counted = omega (arith, l, c.counted);
          placed = ground (arith, l, c.placed);
        },
      ))
  | inr (e, h) ↦ inr (rw e (refl, h, refl))
]

remove_record-append :
    (id : RecordId) (rs : List PdbRecord) (r : PdbRecord)
    → NoneHas id rs
    → has_id id r ≡ true
    → remove_record id (rs ++ (r ∷ [])) ≡ some rs
unfolding remove_record
remove_record-append id [] r h e = rw e
remove_record-append id (q ∷ rs) r h e = rw (h.0, remove_record-append id rs r h.1 e)

has_id-new :
    (a : Ptr) (offset attributes : ℕ) (id : RecordId) (payload : Option Ptr)
    → has_id id (new_record a offset attributes id payload) ≡ true
has_id-new a offset attributes id payload = rw (==_refl id.b0, ==_refl id.b1, ==_refl id.b2)

shift_down-shift_up : (o : ℕ) → o + 8 < 2 ^ 32 → shift_down (shift_up o) ≡ o
shift_down-shift_up o h = ground arith

count_down_up : (n : ℕ) → n < 2 ^ 16 → ((n + 1) % 2 ^ 16 + 2 ^ 16 - 1) % 2 ^ 16 ≡ n
count_down_up n h = omega arith

-- Deleting a record that was just created under an unused ID gives back the structure as it was,
-- if the two offsets do not overflow.
pub delete-create :
    (a : Ptr) (n offset attributes : ℕ) (payload : Option Ptr) (p : Pdb)
    → NoneHas (id_of_long n) p.records
    → p.records_qty < 2 ^ 16
    → p.app_info_offset + 8 < 2 ^ 32
    → p.sort_info_offset + 8 < 2 ^ 32
    → pdb_record_delete n (pdb_record_create (some a) n offset attributes payload p).1
      ≡ (some tt, p)
unfolding pdb_record_delete pdb_record_create
delete-create a n offset attributes payload p fresh few app sort =
    let id = id_of_long n in
    let r = new_record a offset attributes id payload in
    rw (
      remove_record-append id p.records r fresh (has_id-new a offset attributes id payload),
      shift_down-shift_up p.app_info_offset app,
      shift_down-shift_up p.sort_info_offset sort,
      count_down_up p.records_qty few,
    )
