-- ===== src/Pdb/Types.antt =====
-- The structures and constants of src/include/pdb/pdb.h. A record list is a tail queue of objects
-- that the other modules point into, so a record carries the address that calloc gave it.
use palm_sync_daemon.Base.{ℕ, Option, List}

abbrev pub Ptr : Type 0
Ptr = ℕ

abbrev pub pdb_record_attr_empty : ℕ
pdb_record_attr_empty = 0x00

abbrev pub pdb_record_attr_secret : ℕ
pdb_record_attr_secret = 0x10

abbrev pub pdb_record_attr_locked : ℕ
pdb_record_attr_locked = 0x20

abbrev pub pdb_record_attr_dirty : ℕ
pdb_record_attr_dirty = 0x40

abbrev pub pdb_record_attr_deleted : ℕ
pdb_record_attr_deleted = 0x80

abbrev pub pdb_dbname_len : ℕ
pdb_dbname_len = 32

abbrev pub pdb_categories_std_qty : ℕ
pdb_categories_std_qty = 16

abbrev pub pdb_category_len : ℕ
pdb_category_len = 16

abbrev pub pdb_record_item_size : ℕ
pdb_record_item_size = 8

-- `payload` is the `void * data` of the application.
pub record PdbRecord : Type 0 where
  pub offset : ℕ
  pub attributes : ℕ
  pub id0 : ℕ
  pub id1 : ℕ
  pub id2 : ℕ
  pub payload : Option Ptr
  pub address : Ptr

pub record PdbCategories : Type 0 where
  pub renamed_categories : ℕ
  pub names : List (List ℕ)
  pub ids : List ℕ
  pub last_unique_id : ℕ
  pub padding : ℕ

pub record Pdb : Type 0 where
  pub dbname : List ℕ
  pub attributes : ℕ
  pub version : ℕ
  pub ctime : ℕ
  pub mtime : ℕ
  pub btime : ℕ
  pub modification_number : ℕ
  pub app_info_offset : ℕ
  pub sort_info_offset : ℕ
  pub database_type_id : ℕ
  pub creator_id : ℕ
  pub seed : ℕ
  pub next_record_list_offset : ℕ
  pub records_qty : ℕ
  pub records : List PdbRecord
  pub record_list_padding : ℕ
  pub categories : Option PdbCategories
