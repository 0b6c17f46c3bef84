-- ===== src/Tasks/RoundTrip.antt =====
-- The two loops of tasks_read of src/pdb/tasks.c after those of tasks_write.
use palm_sync_daemon.Base.{
  ℕ, ◌+◌, ◌%◌, ◌^◌, ◌<◌, ◌≡◌, ◌≢◌, ◌∙◌, refl, sym, ap, subst, true, Option, some, List, [], ◌∷◌,
  ◌++◌, length, drop, drop-drop, All, append_assoc, length-append, arith,
}
use palm_sync_daemon.File.{File}
use palm_sync_daemon.File.Reads.{ahead-skip}
use palm_sync_daemon.Libc.SortSearch.{SortSearch}
use palm_sync_daemon.Pdb.Types.{Ptr, PdbRecord, PdbCategories}
use palm_sync_daemon.Pdb.Places.{Offsets, places_end, places_end-ge}
use palm_sync_daemon.Memos.ReadMemos.Laws.{name_of, HasName}
use palm_sync_daemon.Tasks.Types.{Task, Tasks}
use palm_sync_daemon.Tasks.Sizes.{todo_size, ptod_size}
use palm_sync_daemon.Tasks.WriteTasks.Bytes.{
  note_bytes, todo_bytes, ptod_bytes, all_bytes, length-todo_bytes, length-ptod_bytes,
}
use palm_sync_daemon.Tasks.ReadTasks.{read_tasks, append_tasks}
use palm_sync_daemon.Tasks.ReadTasks.Todo.{task_buffers, read_task-gets}
use palm_sync_daemon.Tasks.ReadTasks.Ptod.{PtodFits, data_buffers}
use palm_sync_daemon.Tasks.ReadTasks.Append.{
  half_read, read_whole, AllDiffer, same_differ, append_task-gets,
}

abbrev pub IsCText : Task → Type 0
IsCText t = All (λ x. x ≢ 0) t.header × All (λ x. x ≢ 0) (note_bytes t.text)

module _ (categories : Option PdbCategories) where
  -- The tasks as they are behind the first loop, and behind the second.
  abbrev pub half_queue : List Task → List PdbRecord → List Task
  half_queue [] rs = []
  half_queue (t ∷ ts) [] = []
  half_queue (t ∷ ts) (r ∷ rs) = half_read t r (name_of categories r) ∷ half_queue ts rs

  abbrev pub whole_queue : List Task → List PdbRecord → List PdbRecord → List Task
  whole_queue [] rs qs = []
  whole_queue (t ∷ ts) [] qs = []
  whole_queue (t ∷ ts) (r ∷ rs) [] = []
  whole_queue (t ∷ ts) (r ∷ rs) (q ∷ qs) =
      read_whole t r q (name_of categories r) ∷ whole_queue ts rs qs

todo_split :
    (t : Task) (rest : List ℕ)
    → drop 3 (todo_bytes t ++ rest) ≡ t.header ++ (0 ∷ (note_bytes t.text ++ (0 ∷ rest)))
todo_split t rest = simp append_assoc

-- What is behind the bytes of the first task.
drop_first :
    (bytes : Task → List ℕ) (size : Task → ℕ) (t : Task) (ts : List Task) (rest contents : List ℕ)
    (at : ℕ)
    → length (bytes t) ≡ size t
    → drop at contents ≡ all_bytes bytes (t ∷ ts) ++ rest
    → drop (at + size t) contents ≡ all_bytes bytes ts ++ rest
drop_first bytes size t ts rest contents at e h =
    let f : File = record { bytes = contents; pos = at; room = 0; readable = true } in
    ap (λ n. drop (at + n) contents) (sym e)
    ∙ ahead-skip f (bytes t) (all_bytes bytes ts ++ rest)
        (h ∙ append_assoc (bytes t) (all_bytes bytes ts) rest)

module _ (a b c d : Ptr) (categories : Option PdbCategories) where
  pub read_tasks-gets :
      (ts : List Task) (rs : List PdbRecord) (at : ℕ) (rest : List ℕ) (f : File)
      → Offsets todo_size at ts rs
      → All IsCText ts
      → All (HasName categories) rs
      → places_end todo_size at ts < 2 ^ 32
      → f.readable ≡ true
      → drop at f.bytes ≡ all_bytes todo_bytes ts ++ rest
      → (k : ℕ) × (read_tasks (λ _. task_buffers a b c d) categories rs f
          ≡ (some (half_queue categories ts rs), record f { pos = k }))
  unfolding read_tasks
  read_tasks-gets [] [] at rest f o text named small readable h = (f.pos, refl)
  read_tasks-gets [] (r ∷ rs) at rest f o text named small readable h = elim o [ ]
  read_tasks-gets (t ∷ ts) [] at rest f o text named small readable h = elim o [ ]
  read_tasks-gets (t ∷ ts) (r ∷ rs) at rest f o text named small readable h =
      let tail = all_bytes todo_bytes ts ++ rest in
      let there : drop (r.offset + 3) f.bytes
          ≡ t.header ++ (0 ∷ (note_bytes t.text ++ (0 ∷ tail))) =
        drop-drop 3 r.offset f.bytes
        ∙ ap (λ n. drop 3 (drop n f.bytes)) o.0
        ∙ ap (drop 3) (h ∙ append_assoc (todo_bytes t) (all_bytes todo_bytes ts) rest)
        ∙ todo_split t tail in
      let (k, one) =
        read_task-gets a b c d categories r t.header (note_bytes t.text) (name_of categories r) tail
          f readable (omega (arith, o.0, places_end-ge todo_size (at + todo_size t) ts)) there
          text.0.0 text.0.1 named.0 in
      let (j, others) =
        read_tasks-gets ts rs (at + todo_size t) rest (record f { pos = k }) o.1 text.1 named.1
          small readable
          (drop_first todo_bytes todo_size t ts rest f.bytes at (length-todo_bytes t) h) in
      (j, rw (one, others))

length_middle :
    (front : List Task) (x x' : Task) (back : List Task)
    → length (front ++ (x' ∷ back)) ≡ length (front ++ (x ∷ back))
length_middle front x x' back =
    omega (arith, length-append front (x' ∷ back), length-append front (x ∷ back))

module _ (lib : SortSearch) (a b c d e g : Ptr) (categories : Option PdbCategories) where
  pub append_tasks-gets :
      (front ts : List Task) (rs qs : List PdbRecord) (at at' : ℕ) (rest : List ℕ) (m : Tasks)
      (f : File)
      → Offsets todo_size at ts rs
      → Offsets ptod_size at' ts qs
      → All PtodFits ts
      → m.queue ≡ front ++ half_queue categories ts rs
      → AllDiffer (front ++ half_queue categories ts rs)
      → m.pdb_tododb.records_qty ≡ length m.queue % 2 ^ 16
      → f.readable ≡ true
      → drop at' f.bytes ≡ all_bytes ptod_bytes ts ++ rest
      → (k : ℕ) × (append_tasks lib (λ _. data_buffers a b c d e g) m qs f ≡ (
        some (record m { queue = front ++ whole_queue categories ts rs qs }),
        record f { pos = k },
      ))
  unfolding append_tasks
  append_tasks-gets front [] [] [] at at' rest m f o o' fits queue apart qty readable h =
      (f.pos, ap (λ ts. (some (record m { queue = ts }), f)) queue)
  append_tasks-gets front [] [] (q ∷ qs) at at' rest m f o o' fits queue apart qty readable h =
      elim o' [ ]
  append_tasks-gets front [] (r ∷ rs) qs at at' rest m f o o' fits queue apart qty readable h =
      elim o [ ]
  append_tasks-gets front (t ∷ ts) [] qs at at' rest m f o o' fits queue apart qty readable h =
      elim o [ ]
  append_tasks-gets front (t ∷ ts) (r ∷ rs) [] at at' rest m f o o' fits queue apart qty readable
        h =
      elim o' [ ]
  append_tasks-gets front (t ∷ ts) (r ∷ rs) (q ∷ qs) at at' rest m f o o' fits queue apart qty
        readable h =
      let name = name_of categories r in
      let half = half_read t r name in
      let whole = read_whole t r q name in
      let back = half_queue categories ts rs in
      let there : drop q.offset f.bytes ≡ ptod_bytes t ++ (all_bytes ptod_bytes ts ++ rest) =
        ap (λ n. drop n f.bytes) o'.0
        ∙ h
        ∙ append_assoc (ptod_bytes t) (all_bytes ptod_bytes ts) rest in
      let (k, one) =
        append_task-gets lib a b c d e g m front t back r q name (all_bytes ptod_bytes ts ++ rest) f
          fits.0 queue apart qty readable there in
      let m' = record m { queue = front ++ (whole ∷ back) } in
      let regrouped : front ++ (whole ∷ back) ≡ (front ++ (whole ∷ [])) ++ back =
        sym (append_assoc front (whole ∷ []) back) in
      let (j, others) =
        append_tasks-gets (front ++ (whole ∷ [])) ts rs qs (at + todo_size t) (at' + ptod_size t)
          rest m' (record f { pos = k }) o.1 o'.1 fits.1 regrouped
          (subst AllDiffer regrouped (same_differ front half whole back refl refl apart))
          (qty ∙ ap (λ n. n % 2 ^ 16) (ap length queue ∙ length_middle front whole half back))
          readable
          (drop_first ptod_bytes ptod_size t ts rest f.bytes at'
            (length-ptod_bytes t fits.0.repeats_dated) h) in
      (
        j,
        rw (one, others)
            (ap (λ ts. (some (record m { queue = ts }), record f { pos = j }))
              (append_assoc front (whole ∷ []) (whole_queue categories ts rs qs))),
      )
