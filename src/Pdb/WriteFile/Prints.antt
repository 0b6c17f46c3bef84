-- ===== src/Pdb/WriteFile/Prints.antt =====
-- What the writing helpers of pdb_write put into the file.
use palm_sync_daemon.Base.{
  ℕ, ◌+◌, ◌≤◌, ◌≡◌, ap, sym, true, some, List, [], ◌∷◌, map, length, All, arith, length-append,
}
use palm_sync_daemon.File.{File}
use palm_sync_daemon.File.Writes.{
  Writes, put, put-nil, put-append, pure-Writes, >>-Writes, &&&-Writes, write_all-Writes,
}
use palm_sync_daemon.Pdb.Types.{PdbRecord, Pdb}
use palm_sync_daemon.Pdb.Fields.{write8-Writes, write16-Writes, write32-Writes}
use palm_sync_daemon.Pdb.Image.{header_bytes, record_bytes, record_list_bytes, names_bytes}
use palm_sync_daemon.Pdb.WriteFile.{
  write_header, drop_dirty, write_record, write_record_list, write_names, write_ids,
}

pub write_header-Writes : (p : Pdb) → Writes (write_header p) (header_bytes p)
unfolding write_header
write_header-Writes p =
    &&&-Writes
      (&&&-Writes
        (&&&-Writes
          (&&&-Writes
            (&&&-Writes
              (&&&-Writes
                (&&&-Writes
                  (&&&-Writes
                    (&&&-Writes
                      (&&&-Writes
                        (&&&-Writes
                          (&&&-Writes (write16-Writes p.attributes) (write16-Writes p.version))
                          (write32-Writes p.ctime))
                        (write32-Writes p.mtime))
                      (write32-Writes p.btime))
                    (write32-Writes p.modification_number))
                  (write32-Writes p.app_info_offset))
                (write32-Writes p.sort_info_offset))
              (write32-Writes p.database_type_id))
            (write32-Writes p.creator_id))
          (write32-Writes p.seed))
        (write32-Writes p.next_record_list_offset))
      (write16-Writes p.records_qty)

pub write_record-Writes : (r : PdbRecord) → Writes (write_record r) (record_bytes r)
unfolding write_record
write_record-Writes r =
    &&&-Writes
      (&&&-Writes
        (&&&-Writes (&&&-Writes (write32-Writes r.offset) (write8-Writes r.attributes))
          (write8-Writes r.id0))
        (write8-Writes r.id1))
      (write8-Writes r.id2)

-- Where there is room, _write_record_list writes eight bytes for every record, without its dirty
-- flag, and clears that flag in memory too.
pub write_record_list-puts :
    (rs : List PdbRecord) (f : File)
    → f.pos + length (record_list_bytes (map drop_dirty rs)) ≤ f.room
    → write_record_list rs f
      ≡ (some (map drop_dirty rs, true), put (record_list_bytes (map drop_dirty rs)) f)
unfolding write_record_list
write_record_list-puts [] f h = ap (λ g. (some ([], true), g)) (sym (put-nil f))
write_record_list-puts (r ∷ rs) f h =
    let one = record_bytes (drop_dirty r) in
    let others = record_list_bytes (map drop_dirty rs) in
    rw (
      (write_record-Writes (drop_dirty r)).run f (omega (arith, length-append one others)),
      write_record_list-puts rs (put one f) (omega (arith, length-append one others)),
      put-append f one others,
    )

pub write_names-Writes :
    (names : List (List ℕ))
    → All (λ name. length name ≡ 16) names
    → Writes (write_names names) (names_bytes names)
unfolding write_names
write_names-Writes [] h = pure-Writes
write_names-Writes ([] ∷ names) h = absurd (omega arith)
write_names-Writes ((b ∷ bs) ∷ names) h =
    >>-Writes (write_all-Writes b bs) (write_names-Writes names h.1)

pub write_ids-Writes : (ids : List ℕ) → Writes (write_ids ids) ids
unfolding write_ids
write_ids-Writes [] = pure-Writes
write_ids-Writes (i ∷ is) = &&&-Writes (write8-Writes i) (write_ids-Writes is)
