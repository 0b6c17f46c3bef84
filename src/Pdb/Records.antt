-- ===== src/Pdb/Records.antt =====
-- pdb_record_create, pdb_record_create_with_id, pdb_record_delete and pdb_record_get_unique_id of
-- src/pdb/pdb.c. `none` is NULL or -1. Each function that takes a PDB structure first sees whether
-- the pointer to it is NULL; that check is `null_checked`, around the function on a structure.
pub mod Laws
use palm_sync_daemon.Base.{
  ℕ, ◌+◌, ◌-◌, ◌*◌, ◌/◌, ◌%◌, ◌^◌, Bool, Option, none, some, List, [], ◌∷◌, ◌++◌, ◌==◌, ◌&&◌,
  if◌then◌else◌,
}
use palm_sync_daemon.File.{Act}
use palm_sync_daemon.Pdb.Types.{Ptr, PdbRecord, Pdb, pdb_record_item_size}

unfoldable pub null_checked : {A : Type 0} → Act Pdb A → Act (Option Pdb) A
null_checked m none = (none, none)
null_checked m (some p) = let (r, p') = m p in (r, some p')

-- The three bytes of an ID, the lowest first.
pub record RecordId : Type 0 where
  pub b0 : ℕ
  pub b1 : ℕ
  pub b2 : ℕ

abbrev pub id_of_long : ℕ → RecordId
id_of_long n = record { b0 = n % 256; b1 = n / 2 ^ 8 % 256; b2 = n / 2 ^ 16 % 256 }

-- `offset += offset != 0 ? PDB_RECORD_ITEM_SIZE : 0` and the same with `-=`, on a uint32_t.
abbrev pub shift_up : ℕ → ℕ
shift_up offset = (offset + (if offset == 0 then 0 else pdb_record_item_size)) % 2 ^ 32

abbrev pub shift_down : ℕ → ℕ
shift_down offset = (offset + 2 ^ 32 - (if offset == 0 then 0 else pdb_record_item_size)) % 2 ^ 32

abbrev pub new_record : Ptr → ℕ → ℕ → RecordId → Option Ptr → PdbRecord
new_record a offset attributes id payload = record {
  offset = offset;
  attributes = attributes;
  id0 = id.b0;
  id1 = id.b1;
  id2 = id.b2;
  payload = payload;
  address = a;
}

abbrev pub append_record : PdbRecord → Pdb → Pdb
append_record r p = record p {
  records = p.records ++ (r ∷ []);
  app_info_offset = shift_up p.app_info_offset;
  sort_info_offset = shift_up p.sort_info_offset;
  records_qty = (p.records_qty + 1) % 2 ^ 16;
}

-- The result is the address of the new record, which `calloc` has given.
unfoldable pub pdb_record_create_with_id :
    (calloc : Option Ptr) (offset attributes : ℕ) (id : RecordId) (payload : Option Ptr)
    → Act Pdb Ptr
pdb_record_create_with_id none offset attributes id payload p = (none, p)
pdb_record_create_with_id (some a) offset attributes id payload p =
    (some a, append_record (new_record a offset attributes id payload) p)

-- `random_id` is what random(3) has returned.
unfoldable pub pdb_record_create :
    (calloc : Option Ptr) (random_id offset attributes : ℕ) (payload : Option Ptr) → Act Pdb Ptr
unfolding pdb_record_create_with_id
pdb_record_create calloc random_id offset attributes payload =
    pdb_record_create_with_id calloc offset attributes (id_of_long random_id) payload

abbrev pub has_id : RecordId → PdbRecord → Bool
has_id id r = r.id0 == id.b0 && (r.id1 == id.b1 && r.id2 == id.b2)

-- The loop of pdb_record_delete: the first record with the ID goes.
unfoldable pub remove_record : RecordId → List PdbRecord → Option (List PdbRecord)
remove_record id [] = none
remove_record id (r ∷ rs) =
    let rest = remove_record id rs in
    if has_id id r then some rs else elim rest [ none ↦ none | some rs' ↦ some (r ∷ rs') ]

abbrev pub with_removed : Option (List PdbRecord) → Act Pdb (Unit {0})
with_removed none p = (none, p)
with_removed (some rs) p = (
  some tt,
  record p {
    records = rs;
    app_info_offset = shift_down p.app_info_offset;
    sort_info_offset = shift_down p.sort_info_offset;
    records_qty = (p.records_qty + 2 ^ 16 - 1) % 2 ^ 16;
  },
)

unfoldable pub pdb_record_delete : ℕ → Act Pdb (Unit {0})
unfolding remove_record
pdb_record_delete unique_id p = with_removed (remove_record (id_of_long unique_id) p.records) p

-- The three bytes do not overlap, so that `|` adds them.
abbrev pub pdb_record_get_unique_id : PdbRecord → ℕ
pdb_record_get_unique_id r = r.id2 % 256 * 2 ^ 16 + r.id1 % 256 * 2 ^ 8 + r.id0 % 256
