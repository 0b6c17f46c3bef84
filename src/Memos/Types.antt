-- ===== src/Memos/Types.antt =====
-- The structures of src/include/pdb/memos.h. A string is the list of its bytes, without the NUL at
-- its end; a memo points to its record by the address of the record.
use palm_sync_daemon.Base.{ℕ, Option, List}
use palm_sync_daemon.File.{Act}
use palm_sync_daemon.Pdb.Types.{Ptr, Pdb}

pub record Memo : Type 0 where
  pub id : ℕ
  pub header : List ℕ
  pub text : Option (List ℕ)
  pub category : List ℕ
  pub record_ptr : Ptr
  pub header_cp1251_len : ℕ
  pub text_cp1251_len : ℕ

pub record Memos : Type 0 where
  pub pdb : Pdb
  pub queue : List Memo

abbrev pub on_pdb_end : {A : Type 0} → Memos → Option A × Pdb → Option A × Memos
on_pdb_end m (r, p) = (r, record m { pdb = p })

-- A call on the PDB structure of the memos.
unfoldable pub on_pdb : {A : Type 0} → Act Pdb A → Act Memos A
on_pdb c m = on_pdb_end m (c m.pdb)
