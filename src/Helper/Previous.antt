-- ===== src/Helper/Previous.antt =====
-- check_previous_pdbs, _check_previous_pdb, save_as_previous_pdbs and _save_as_previous_pdb of
-- src/helper.c: where the files of the previous synchronisation are, and how they are kept for the next
-- one. `none` is -1. The outcomes of access, calloc and _cp are parameters. A path longer than
-- MAX_PATH_LEN would overflow its array; the model has the path.
pub mod Laws
use palm_sync_daemon.Base.{
  ℕ, Bool, true, false, Option, none, some, List, [], ◌∷◌, ◌++◌, if◌then◌else◌,
}
use palm_sync_daemon.File.{Act, pure, ◌>>=◌, ◌>>◌, from_option}
use palm_sync_daemon.Pdb.Types.{Ptr}
use palm_sync_daemon.Helper.Copy.{Files, CopyCalls, cp}

-- The fields of the structure that these functions use.
pub record SyncSettings : Type 0 where
  pub data_dir : List ℕ
  pub prev_datebook_pdb : Option (List ℕ)
  pub prev_memos_pdb : Option (List ℕ)
  pub prev_todo_pdb : Option (List ℕ)

pub record PalmData : Type 0 where
  pub datebook_db_path : List ℕ
  pub memo_db_path : List ℕ
  pub todo_db_path : List ℕ

-- "previousDatebook.pdb", "previousMemos.pdb" and "previousTodo.pdb"
abbrev pub previous_of : List ℕ → List ℕ
previous_of name =
    (112 ∷ 114 ∷ 101 ∷ 118 ∷ 105 ∷ 111 ∷ 117 ∷ 115 ∷ []) ++ (name ++ (46 ∷ 112 ∷ 100 ∷ 98 ∷ []))

abbrev pub prev_datebook_name : List ℕ
prev_datebook_name = previous_of (68 ∷ 97 ∷ 116 ∷ 101 ∷ 98 ∷ 111 ∷ 111 ∷ 107 ∷ [])

abbrev pub prev_memos_name : List ℕ
prev_memos_name = previous_of (77 ∷ 101 ∷ 109 ∷ 111 ∷ 115 ∷ [])

abbrev pub prev_todo_name : List ℕ
prev_todo_name = previous_of (84 ∷ 111 ∷ 100 ∷ 111 ∷ [])

-- The path where there is a file, or NULL. If the file cannot be used, the result stays as it was, and if
-- there is no memory it is NULL.
abbrev pub check_found :
    (accessible : Bool) → Option Ptr → (path : List ℕ) → Act (Option (List ℕ)) (Unit {0})
check_found false calloc path result = (none, result)
check_found true none path result = (none, none)
check_found true (some a) path result = (some tt, some path)

abbrev pub check_file :
    Option (List ℕ) → (accessible : Bool) → Option Ptr → List ℕ → Act (Option (List ℕ)) (Unit {0})
check_file none accessible calloc path result = (some tt, none)
check_file (some bytes) accessible calloc path result = check_found accessible calloc path result

unfoldable pub check_previous_pdb :
    Files → (List ℕ → Bool) → Option Ptr → (dir name : List ℕ) → Act (Option (List ℕ)) (Unit {0})
check_previous_pdb fs accessible calloc dir name =
    check_file (fs (dir ++ name)) (accessible (dir ++ name)) calloc (dir ++ name)

-- The outcomes of calloc for the three paths.
pub record PathBuffers : Type 0 where
  pub datebook_buf : Option Ptr
  pub memos_buf : Option Ptr
  pub todo_buf : Option Ptr

-- One of the three fields, and how it is set.
pub record Field : Type 0 where
  pub get : SyncSettings → Option (List ℕ)
  pub put : Option (List ℕ) → SyncSettings → SyncSettings

abbrev pub datebook_field : Field
datebook_field = record {
  get = λ s. s.prev_datebook_pdb;
  put = λ path s. record s { prev_datebook_pdb = path };
}

abbrev pub memos_field : Field
memos_field = record {
  get = λ s. s.prev_memos_pdb;
  put = λ path s. record s { prev_memos_pdb = path };
}

abbrev pub todo_field : Field
todo_field = record {
  get = λ s. s.prev_todo_pdb;
  put = λ path s. record s { prev_todo_pdb = path };
}

abbrev pub into_field :
    Field → SyncSettings → Option (Unit {0}) × Option (List ℕ) → Option (Unit {0}) × SyncSettings
into_field field s (r, path) = (r, field.put path s)

unfoldable pub check_field :
    Files → (List ℕ → Bool) → Option Ptr → List ℕ → Field → Act SyncSettings (Unit {0})
unfolding check_previous_pdb
check_field fs accessible calloc name field s =
    into_field field s (check_previous_pdb fs accessible calloc s.data_dir name (field.get s))

unfoldable pub check_previous_pdbs :
    Files → (List ℕ → Bool) → PathBuffers → Act SyncSettings (Unit {0})
unfolding check_field
check_previous_pdbs fs accessible bufs = do
  check_field fs accessible bufs.datebook_buf prev_datebook_name datebook_field
  check_field fs accessible bufs.memos_buf prev_memos_name memos_field
  check_field fs accessible bufs.todo_buf prev_todo_name todo_field

-- The path that is kept, or a new one.
abbrev pub path_or_new : Option (List ℕ) → Option Ptr → (path : List ℕ) → Option (List ℕ)
path_or_new (some old) calloc path = some old
path_or_new none none path = none
path_or_new none (some a) path = some path

pub record Kept : Type 0 where
  pub path : Option (List ℕ)
  pub files : Files

abbrev pub keep_copy :
    CopyCalls → (current : List ℕ) → Option (List ℕ) → Files → Option (Unit {0}) × Kept
keep_copy calls current none fs = (none, record { path = none; files = fs })
keep_copy calls current (some path) fs =
    let (r, fs') = cp calls current path fs in (r, record { path = some path; files = fs' })

unfoldable pub save_as_previous_pdb :
    CopyCalls → Option Ptr → (current dir name : List ℕ) → Act Kept (Unit {0})
save_as_previous_pdb calls calloc current dir name k =
    keep_copy calls current (path_or_new k.path calloc (dir ++ name)) k.files

pub record Saved : Type 0 where
  pub settings : SyncSettings
  pub saved_files : Files

abbrev pub kept_in : Field → SyncSettings → Option (Unit {0}) × Kept → Option (Unit {0}) × Saved
kept_in field s (r, k) = (r, record { settings = field.put k.path s; saved_files = k.files })

unfoldable pub save_field :
    CopyCalls → Option Ptr → (current name : List ℕ) → Field → Act Saved (Unit {0})
unfolding save_as_previous_pdb
save_field calls calloc current name field s = kept_in field s.settings (
    save_as_previous_pdb calls calloc current s.settings.data_dir name
      (record { path = field.get s.settings; files = s.saved_files }))

-- How the three calls of _cp end.
pub record SaveCalls : Type 0 where
  pub datebook_cp : CopyCalls
  pub memos_cp : CopyCalls
  pub todo_cp : CopyCalls

unfoldable pub save_as_previous_pdbs : SaveCalls → PathBuffers → PalmData → Act Saved (Unit {0})
unfolding save_field
save_as_previous_pdbs calls bufs palm = do
  save_field calls.datebook_cp bufs.datebook_buf palm.datebook_db_path prev_datebook_name
      datebook_field
  save_field calls.memos_cp bufs.memos_buf palm.memo_db_path prev_memos_name memos_field
  save_field calls.todo_cp bufs.todo_buf palm.todo_db_path prev_todo_name todo_field
