-- ===== src/Tasks/WriteTasks/Laws.antt =====
-- The bytes that tasks_write of src/pdb/tasks.c puts into the files.
use palm_sync_daemon.Base.{
  ℕ, ◌+◌, ◌≤◌, ◌≡◌, ◌∙◌, sym, ap, subst, some, List, [], ◌∷◌, ◌++◌, length, length-append,
  append-nil, All, ==_refl, arith,
}
use palm_sync_daemon.File.{File, seek_set}
use palm_sync_daemon.File.Reads.{rewind_lem}
use palm_sync_daemon.File.Writes.{put, put-append, write_all-Writes, >>-Writes}
use palm_sync_daemon.Pdb.Types.{Ptr, PdbRecord, Pdb}
use palm_sync_daemon.Pdb.Image.{image}
use palm_sync_daemon.Pdb.WriteFile.{on_file}
use palm_sync_daemon.Pdb.WriteFile.Whole.{opened, saved, IsWritable, pdb_write-image}
use palm_sync_daemon.Pdb.Places.{Places, DistinctRecords}
use palm_sync_daemon.Memos.WriteMemos.{offset_of}
use palm_sync_daemon.Tasks.Types.{Task}
use palm_sync_daemon.Tasks.Sizes.{todo_size, ptod_size, todo_ptr, ptod_ptr}
use palm_sync_daemon.Tasks.WriteTasks.{
  seek_record, write_todo, write_ptod, TasksFd, on_todo, on_ptod, tasks_write_task, write_queue,
  tasks_write,
}
use palm_sync_daemon.Tasks.WriteTasks.Bytes.{
  todo_bytes, ptod_bytes, all_bytes, write_strings-Writes, write_due-Writes, write_alarm-Writes,
  write_repeat-Writes, RepeatsDated, length-todo_bytes, length-ptod_bytes,
}
use palm_sync_daemon.Tasks.WriteTasks.Found.{FoundAt, Found, Places-Found}

seek_record_lem :
    (a : Ptr) (rs : List PdbRecord) (at : ℕ) (f : File)
    → offset_of a rs ≡ some at
    → seek_record a rs f ≡ (some tt, record f { pos = at })
unfolding seek_record seek_set
seek_record_lem a rs at f e = rw (e, ==_refl at)

-- A task is written where its record says, wherever the position was.
pub write_todo-puts :
    (rs : List PdbRecord) (t : Task) (at : ℕ) (f : File)
    → FoundAt todo_size todo_ptr rs at t
    → at + length (todo_bytes t) ≤ f.room
    → write_todo rs t f ≡ (some tt, put (todo_bytes t) (record f { pos = at }))
unfolding write_todo
write_todo-puts rs t at f place room =
    let own : offset_of t.record_todo rs ≡ some at =
      subst (λ a. offset_of a rs ≡ some at) (sym (cc place.points)) place.found in
    rw (seek_record_lem t.record_todo rs at f own) (
      (>>-Writes (write_all-Writes _ _)
          (>>-Writes (write_all-Writes _ _) (write_strings-Writes t))).run
        (record f { pos = at }) (omega arith))

pub write_ptod-puts :
    (rs : List PdbRecord) (t : Task) (at : ℕ) (f : File)
    → FoundAt ptod_size ptod_ptr rs at t
    → at + length (ptod_bytes t) ≤ f.room
    → write_ptod rs t f ≡ (some tt, put (ptod_bytes t) (record f { pos = at }))
unfolding write_ptod
write_ptod-puts rs t at f place room =
    rw (place.points, seek_record_lem place.address rs at f place.found)
      ((>>-Writes (write_all-Writes _ _) (
          >>-Writes (write_all-Writes _ _) (
            >>-Writes (write_all-Writes _ _) (
              >>-Writes (write_due-Writes t) (
                >>-Writes (write_alarm-Writes t.alarm)
                  (>>-Writes (write_repeat-Writes t t.repeat) (write_strings-Writes t))))))).run
        (record f { pos = at }) (omega arith))

-- The state of the two files and their structures.
abbrev pub both : (p : Pdb) (f : File) (q : Pdb) (g : File) → TasksFd
both p f q g = record { todo = opened p f; ptod = opened q g }

module _ (rs qs : List PdbRecord) (p q : Pdb) where
  pub write_task-puts :
      (t : Task) (at at' : ℕ) (f g : File)
      → FoundAt todo_size todo_ptr rs at t
      → FoundAt ptod_size ptod_ptr qs at' t
      → at + length (todo_bytes t) ≤ f.room
      → at' + length (ptod_bytes t) ≤ g.room
      → tasks_write_task rs qs t (both p f q g) ≡ (
        some tt,
        both p
            (put (todo_bytes t) (record f { pos = at }))
            q
            (put (ptod_bytes t) (record g { pos = at' })),
      )
  unfolding tasks_write_task on_todo on_ptod on_file
  write_task-puts t at at' f g place place' room room' =
      rw (write_todo-puts rs t at f place room, write_ptod-puts qs t at' g place' room')

  -- The first task is written where its records say, and the others behind it.
  pub write_queue-seeks :
      (t : Task) (ts : List Task) (at at' : ℕ) (f g : File)
      → Found todo_size todo_ptr rs at (t ∷ ts)
      → Found ptod_size ptod_ptr qs at' (t ∷ ts)
      → All RepeatsDated (t ∷ ts)
      → at + length (all_bytes todo_bytes (t ∷ ts)) ≤ f.room
      → at' + length (all_bytes ptod_bytes (t ∷ ts)) ≤ g.room
      → write_queue rs qs (t ∷ ts) (both p f q g) ≡ (
        some tt,
        both p
            (put (all_bytes todo_bytes (t ∷ ts)) (record f { pos = at }))
            q
            (put (all_bytes ptod_bytes (t ∷ ts)) (record g { pos = at' })),
      )
  unfolding write_queue
  write_queue-seeks t [] at at' f g found found' dated room room' =
      let sum = length-append (todo_bytes t) [] in
      let sum' = length-append (ptod_bytes t) [] in
      let start = record f { pos = at } in
      let start' = record g { pos = at' } in
      rw (write_task-puts t at at' f g found.0 found'.0 (omega (arith, sum)) (omega (arith, sum')))
        (ap (λ bs. (some tt, both p (put bs start) q (put (ptod_bytes t) start')))
            (sym (append-nil (todo_bytes t)))
          ∙ ap (λ bs. (some tt, both p (put (todo_bytes t ++ []) start) q (put bs start')))
              (sym (append-nil (ptod_bytes t))))
  write_queue-seeks t (u ∷ us) at at' f g found found' dated room room' =
      let rest = all_bytes todo_bytes (u ∷ us) in
      let rest' = all_bytes ptod_bytes (u ∷ us) in
      let next = put (todo_bytes t) (record f { pos = at }) in
      let next' = put (ptod_bytes t) (record g { pos = at' }) in
      let size = length-todo_bytes t in
      let size' = length-ptod_bytes t dated.0 in
      let sum = length-append (todo_bytes t) rest in
      let sum' = length-append (ptod_bytes t) rest' in
      rw
        (
          write_task-puts t at at' f g found.0 found'.0 (omega (arith, sum)) (omega (arith, sum')),
          ← put-append (record f { pos = at }) (todo_bytes t) rest,
          ← put-append (record g { pos = at' }) (ptod_bytes t) rest',
        )
        (write_queue-seeks u us (at + todo_size t) (at' + ptod_size t) next next' found.1 found'.1
            dated.1 (omega (arith, size, sum)) (omega (arith, size', sum'))
          ∙ ap
              (λ n. (
                some tt,
                both p (put rest (record next { pos = n })) q
                    (put rest' (record next' { pos = at' + ptod_size t })),
              ))
              {y = at + length (todo_bytes t)} (omega (arith, size))
          ∙ ap (λ n. (some tt, both p (put rest next) q (put rest' (record next' { pos = n }))))
              {y = at' + length (ptod_bytes t)} (omega (arith, size')))

-- tasks_write makes the start of each of the two files the image of its PDB structure and puts the
-- bytes of the tasks behind each other from the place of the first task on. Conditions: the
-- structures can be written, there is a task, the records stand where the sizes of the tasks put
-- them and are distinct, a task that repeats has a due date, and the files have room.
pub tasks_write-image :
    (t : Task) (ts : List Task) (p q : Pdb) (f g : File) (at at' : ℕ)
    → IsWritable p
    → IsWritable q
    → Places todo_size todo_ptr at (t ∷ ts) p.records
    → Places ptod_size ptod_ptr at' (t ∷ ts) q.records
    → DistinctRecords p.records
    → DistinctRecords q.records
    → All RepeatsDated (t ∷ ts)
    → length (image (saved p)) ≤ f.room
    → length (image (saved q)) ≤ g.room
    → at + length (all_bytes todo_bytes (t ∷ ts)) ≤ f.room
    → at' + length (all_bytes ptod_bytes (t ∷ ts)) ≤ g.room
    → tasks_write (t ∷ ts) (both p f q g) ≡ (
      some tt,
      both
          (saved p)
          (put
            (all_bytes todo_bytes (t ∷ ts))
            (record (put (image (saved p)) (record f { pos = 0 })) { pos = at }))
          (saved q)
          (put
            (all_bytes ptod_bytes (t ∷ ts))
            (record (put (image (saved q)) (record g { pos = 0 })) { pos = at' })),
    )
unfolding tasks_write on_todo on_ptod on_file
tasks_write-image t ts p q f g at at' w w' laid laid' distinct distinct' dated front front' room
      room' =
    rw (
      rewind_lem f,
      rewind_lem g,
      pdb_write-image p (record f { pos = 0 }) w front,
      pdb_write-image q (record g { pos = 0 }) w' front',
      write_queue-seeks (saved p).records (saved q).records (saved p) (saved q) t ts at at'
          (put (image (saved p)) (record f { pos = 0 }))
          (put (image (saved q)) (record g { pos = 0 }))
          (Places-Found todo_size todo_ptr p.records at (t ∷ ts) laid distinct)
          (Places-Found ptod_size ptod_ptr q.records at' (t ∷ ts) laid' distinct') dated room room',
    )
