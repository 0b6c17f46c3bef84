-- ===== src/Pdb/ReadFile/Keeps.antt =====
-- pdb_read of src/pdb/pdb.c leaves the bytes of the file alone.
use palm_sync_daemon.Base.{ℕ, zero, suc, ◌+◌, Bool, Option, List, length, ltb, ◌==◌, ◌&&◌, not}
use palm_sync_daemon.File.Keeps.{
  Keeps, pure-Keeps, if-Keeps, guard-Keeps, from_option-Keeps, >>=-Keeps, <*>-Keeps, read-Keeps,
  seek_set-Keeps, keep-Keeps, rewind-Keeps,
}
use palm_sync_daemon.Pdb.Types.{Ptr, Pdb, pdb_dbname_len, pdb_categories_std_qty, pdb_category_len}
use palm_sync_daemon.Pdb.Fields.{read8-Keeps, read16-Keeps, read32-Keeps}
use palm_sync_daemon.Pdb.ReadFile.{
  read_exactly, read_header, read_record, read_record_list, read_names, read_ids,
  read_category_fields, read_categories, read_app_info, read_front, pdb_read,
}

read_exactly-Keeps : (n : ℕ) → Keeps (read_exactly n)
unfolding read_exactly
read_exactly-Keeps n =
    >>=-Keeps (read-Keeps n) (λ xs. >>=-Keeps (guard-Keeps (length xs == n)) (λ _. pure-Keeps xs))

ruleset fields = (pure-Keeps, <*>-Keeps, read8-Keeps, read16-Keeps, read32-Keeps)

read_header-Keeps : (name : List ℕ) → Keeps (read_header name)
unfolding read_header
read_header-Keeps name = search fields depth 20

read_record-Keeps : (p : Ptr) → Keeps (read_record p)
unfolding read_record
read_record-Keeps p = search fields depth 20

read_record_list-Keeps : (calloc : ℕ → Option Ptr) (i n : ℕ) → Keeps (read_record_list calloc i n)
unfolding read_record_list
read_record_list-Keeps calloc i zero = pure-Keeps _
read_record_list-Keeps calloc i (suc n) = >>=-Keeps (from_option-Keeps (calloc i)) (λ p.
    >>=-Keeps (read_record-Keeps p)
      (λ r. >>=-Keeps (read_record_list-Keeps calloc (i + 1) n) (λ rs. pure-Keeps _)))

read_names-Keeps : (n : ℕ) → Keeps (read_names n)
unfolding read_names
read_names-Keeps zero = pure-Keeps _
read_names-Keeps (suc n) =
    >>=-Keeps (read_exactly-Keeps pdb_category_len)
      (λ name. >>=-Keeps (read_names-Keeps n) (λ names. pure-Keeps _))

read_ids-Keeps : (n : ℕ) → Keeps (read_ids n)
unfolding read_ids
read_ids-Keeps zero = pure-Keeps _
read_ids-Keeps (suc n) = <*>-Keeps (<*>-Keeps (pure-Keeps _) read8-Keeps) (read_ids-Keeps n)

read_category_fields-Keeps : Keeps read_category_fields
unfolding read_category_fields
read_category_fields-Keeps = >>=-Keeps (keep-Keeps read16-Keeps) (λ renamed.
    >>=-Keeps (read_names-Keeps pdb_categories_std_qty) (λ names.
      <*>-Keeps
        (<*>-Keeps
          (<*>-Keeps
            (<*>-Keeps (<*>-Keeps (pure-Keeps _) (from_option-Keeps renamed)) (pure-Keeps names))
            (read_ids-Keeps pdb_categories_std_qty))
          read8-Keeps)
        read8-Keeps))

read_categories-Keeps : (calloc : Option Ptr) → Keeps (read_categories calloc)
unfolding read_categories
read_categories-Keeps calloc = >>=-Keeps (from_option-Keeps calloc) (λ _.
    >>=-Keeps read_category_fields-Keeps
      (λ c. >>=-Keeps (guard-Keeps (c.padding == 0)) (λ _. pure-Keeps _)))

read_app_info-Keeps :
    (calloc : ℕ → Option Ptr) (std : Bool) (p : Pdb) → Keeps (read_app_info calloc std p)
unfolding read_app_info
read_app_info-Keeps calloc std p =
    if-Keeps (not (p.app_info_offset == 0) && std)
      (>>=-Keeps (seek_set-Keeps p.app_info_offset) (λ at.
        >>=-Keeps (guard-Keeps (p.app_info_offset == at)) (λ _.
          >>=-Keeps (read_categories-Keeps (calloc (p.records_qty + 1))) (λ c. pure-Keeps _))))
      (pure-Keeps p)

read_front-Keeps : (calloc : ℕ → Option Ptr) → Keeps (read_front calloc)
unfolding read_front
read_front-Keeps calloc = >>=-Keeps (read_exactly-Keeps pdb_dbname_len) (λ name.
    >>=-Keeps (read_header-Keeps name) (λ p.
      >>=-Keeps (guard-Keeps (p.next_record_list_offset == 0)) (λ _.
        >>=-Keeps
          (if-Keeps (ltb 0 p.records_qty) (read_record_list-Keeps calloc 1 p.records_qty)
            (pure-Keeps _))
          (λ rs. pure-Keeps _))))

pub pdb_read-Keeps : (calloc : ℕ → Option Ptr) (std : Bool) → Keeps (pdb_read calloc std)
unfolding pdb_read
pdb_read-Keeps calloc std = >>=-Keeps (from_option-Keeps (calloc 0)) (λ _.
    >>=-Keeps rewind-Keeps (λ _.
      >>=-Keeps (read_front-Keeps calloc)
        (λ p. >>=-Keeps (read_app_info-Keeps calloc std p) (λ p'. pure-Keeps _))))
