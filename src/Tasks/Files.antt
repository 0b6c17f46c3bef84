-- ===== src/Tasks/Files.antt =====
-- tasks_read of src/pdb/tasks.c on the two files that tasks_write has written.
use palm_sync_daemon.Base.{
  ℕ, suc, ◌+◌, ◌-◌, ◌%◌, ◌^◌, ◌≤◌, ◌<◌, ◌≡◌, ◌∙◌, refl, sym, ap, true, Option, some, List, [], ◌∷◌,
  ◌++◌, map, length, drop, All, arith,
}
use palm_sync_daemon.File.{File, overwrite, overwrite-zero, overwrite-behind}
use palm_sync_daemon.File.Reads.{rewind_lem}
use palm_sync_daemon.File.Writes.{put}
use palm_sync_daemon.Libc.SortSearch.{SortSearch}
use palm_sync_daemon.Pdb.Types.{Ptr, PdbRecord, PdbCategories, Pdb}
use palm_sync_daemon.Pdb.Image.{image, PdbFits}
use palm_sync_daemon.Memos.ReadMemos.Laws.{HasName}
use palm_sync_daemon.Pdb.Places.{Offsets, Places, places_end, DistinctRecords}
use palm_sync_daemon.Pdb.ReadFile.{pdb_read}
use palm_sync_daemon.Pdb.ReadFile.Parses.{fresh_from}
use palm_sync_daemon.Pdb.WriteFile.{drop_dirty}
use palm_sync_daemon.Pdb.WriteFile.Whole.{saved, IsWritable}
use palm_sync_daemon.Pdb.RoundTrip.{InfoAsked, reread, pdb_read-saved}
use palm_sync_daemon.Memos.RoundTrip.{drop_put}
use palm_sync_daemon.Tasks.Types.{Task}
use palm_sync_daemon.Tasks.Sizes.{todo_size, ptod_size, todo_ptr, ptod_ptr}
use palm_sync_daemon.Tasks.WriteTasks.{tasks_write}
use palm_sync_daemon.Tasks.WriteTasks.Laws.{both, tasks_write-image}
use palm_sync_daemon.Tasks.WriteTasks.Bytes.{todo_bytes, ptod_bytes, all_bytes, RepeatsDated}
use palm_sync_daemon.Tasks.ReadTasks.{ReadOutcomes, from_todo, from_ptod, read_queue, tasks_read}
use palm_sync_daemon.Tasks.ReadTasks.Todo.{task_buffers}
use palm_sync_daemon.Tasks.ReadTasks.Ptod.{PtodFits, data_buffers}
use palm_sync_daemon.Tasks.ReadTasks.Append.{AllDiffer}
use palm_sync_daemon.Tasks.RoundTrip.{
  IsCText, half_queue, whole_queue, read_tasks-gets, append_tasks-gets,
}

-- A file with an image at its start and bytes put behind it.
written_behind :
    (front body bs : List ℕ) (at : ℕ)
    → length front ≤ at
    → overwrite at body (overwrite 0 front bs)
      ≡ front ++ overwrite (at - length front) body (drop (length front) bs)
written_behind front body bs at h =
    ap (λ n. overwrite n body (overwrite 0 front bs)) {y = length front + (at - length front)}
      (omega arith)
    ∙ ap (overwrite (length front + (at - length front)) body) (overwrite-zero front bs)
    ∙ overwrite-behind (at - length front) front body (drop (length front) bs)

fresh-Offsets :
    (size : Task → ℕ) (ptr : Task → Option Ptr) (new : ℕ → Ptr) (i at : ℕ) (ts : List Task)
    (rs : List PdbRecord)
    → Places size ptr at ts rs
    → Offsets size at ts (fresh_from new i (map drop_dirty rs))
fresh-Offsets size ptr new i at [] [] p = tt
fresh-Offsets size ptr new i at [] (r ∷ rs) p = elim p [ ]
fresh-Offsets size ptr new i at (t ∷ ts) [] p = elim p [ ]
fresh-Offsets size ptr new i at (t ∷ ts) (r ∷ rs) p =
    (p.0.offset_is, fresh-Offsets size ptr new (i + 1) (at + size t) ts rs p.1)

places-length :
    (size : Task → ℕ) (ptr : Task → Option Ptr) (at : ℕ) (ts : List Task) (rs : List PdbRecord)
    → Places size ptr at ts rs
    → length rs ≡ length ts
places-length size ptr at [] [] p = refl
places-length size ptr at [] (r ∷ rs) p = elim p [ ]
places-length size ptr at (t ∷ ts) [] p = elim p [ ]
places-length size ptr at (t ∷ ts) (r ∷ rs) p =
    ap suc (places-length size ptr (at + size t) ts rs p.1)

half_queue-length :
    (c : Option PdbCategories) (at : ℕ) (ts : List Task) (rs : List PdbRecord)
    → Offsets todo_size at ts rs
    → length (half_queue c ts rs) ≡ length ts
half_queue-length c at [] rs o = refl
half_queue-length c at (t ∷ ts) [] o = elim o [ ]
half_queue-length c at (t ∷ ts) (r ∷ rs) o =
    ap suc (half_queue-length c (at + todo_size t) ts rs o.1)

todo_nonempty : (t : Task) (ts : List Task) → 0 < length (all_bytes todo_bytes (t ∷ ts))
todo_nonempty t ts = omega arith

ptod_nonempty : (t : Task) (ts : List Task) → 0 < length (all_bytes ptod_bytes (t ∷ ts))
ptod_nonempty t ts = omega arith

All-dated : (ts : List Task) → All PtodFits ts → All RepeatsDated ts
All-dated [] h = tt
All-dated (t ∷ ts) h = (h.0.repeats_dated, All-dated ts h.1)

-- One of the two files: what is written, with the PDB structure that it belongs to.
pub record Stored (size : Task → ℕ) (ptr : Task → Option Ptr) (bytes : Task → List ℕ)
    (ts : List Task) (p : Pdb) (f : File) (at : ℕ) : Type 0 where
  pub fits : PdbFits p
  pub writable : IsWritable p
  pub info : InfoAsked true p p.categories
  pub placed : Places size ptr at ts p.records
  pub distinct : DistinctRecords p.records
  pub readable : f.readable ≡ true
  pub behind : length (image (saved p)) ≤ at
  pub room : at + length (all_bytes bytes ts) ≤ f.room
  pub small : places_end size at ts < 2 ^ 32

abbrev pub file_after : (List ℕ) → ℕ → List ℕ → File → File
file_after front at body f = put body (record (put front (record f { pos = 0 })) { pos = at })

module _ (size : Task → ℕ) (ptr : Task → Option Ptr) (bytes : Task → List ℕ) (ts : List Task)
    (p : Pdb) (f : File) (at : ℕ) (stored : Stored size ptr bytes ts p f at)
    (some_bytes : 0 < length (all_bytes bytes ts)) {calloc : ℕ → Option Ptr} {new : ℕ → Ptr}
    (works : (i : ℕ) → calloc i ≡ some (new i)) where
  -- The structure comes back, and the bytes of the tasks are where the records say.
  stored_back :
      let g = file_after (image (saved p)) at (all_bytes bytes ts) f in
      (n : ℕ)
      → (k : ℕ) × (pdb_read calloc true (record g { pos = n })
          ≡ (some (reread new p), record g { pos = k }))
  stored_back n =
      pdb_read-saved works true p
        (record (file_after (image (saved p)) at (all_bytes bytes ts) f) { pos = n }) _ stored.fits
        stored.writable stored.info stored.readable
        (written_behind (image (saved p)) (all_bytes bytes ts) f.bytes at stored.behind)

  tasks_there :
      drop at (file_after (image (saved p)) at (all_bytes bytes ts) f).bytes
      ≡ all_bytes bytes ts
        ++ drop (length (all_bytes bytes ts)) (drop at (overwrite 0 (image (saved p)) f.bytes))
  tasks_there = drop_put at (all_bytes bytes ts) (overwrite 0 (image (saved p)) f.bytes) some_bytes

module _ (lib : SortSearch) (a b c d a' b' c' d' e' g' tasks_ptr : Ptr)
    {calloc calloc' : ℕ → Option Ptr} {new new' : ℕ → Ptr}
    (works : (i : ℕ) → calloc i ≡ some (new i)) (works' : (i : ℕ) → calloc' i ≡ some (new' i)) where
  abbrev pub all_work : ReadOutcomes
  all_work = record {
    tasks_buf = some tasks_ptr;
    todo_calloc = calloc;
    ptod_calloc = calloc';
    task_bufs = λ _. task_buffers a b c d;
    data_bufs = λ _. data_buffers a' b' c' d' e' g';
  }

  -- The two loops.
  read_queue-gets :
      (ts : List Task) (p q : Pdb) (f g : File) (at at' : ℕ) (rest rest' : List ℕ)
      → Offsets todo_size at ts p.records
      → Offsets ptod_size at' ts q.records
      → All IsCText ts
      → All PtodFits ts
      → All (HasName p.categories) p.records
      → AllDiffer (half_queue p.categories ts p.records)
      → p.records_qty ≡ length ts % 2 ^ 16
      → places_end todo_size at ts < 2 ^ 32
      → f.readable ≡ true
      → g.readable ≡ true
      → drop at f.bytes ≡ all_bytes todo_bytes ts ++ rest
      → drop at' g.bytes ≡ all_bytes ptod_bytes ts ++ rest'
      → (read_queue lib all_work p q (record { todo_file = f; ptod_file = g })).0
        ≡ some (record {
          pdb_tododb = p;
          pdb_tasks = q;
          queue = whole_queue p.categories ts p.records q.records;
        })
  unfolding read_queue from_todo from_ptod
  read_queue-gets ts p q f g at at' rest rest' o o' text fits named apart qty small r r' there
        there' =
      let half = half_queue p.categories ts p.records in
      let (k, one) =
        read_tasks-gets a b c d p.categories ts p.records at rest f o text named small r there in
      let counted : p.records_qty ≡ length half % 2 ^ 16 =
        qty ∙ ap (λ n. n % 2 ^ 16) (sym (half_queue-length p.categories at ts p.records o)) in
      let (j, two) =
        append_tasks-gets lib a' b' c' d' e' g' p.categories [] ts p.records q.records at at' rest'
          (record { pdb_tododb = p; pdb_tasks = q; queue = half }) g o o' fits refl apart counted r'
          there' in
      rw (one, two)

  -- tasks_read on the two files that tasks_write has written gives both structures and every task
  -- back, with its strings, category, priority, due date, alarm and repetition, each with its
  -- records. Conditions: the structures can be written, the layouts fit the files and begin behind
  -- the images, strings without NUL, no empty text, dates and numbers that fit their fields, a due
  -- date where a task repeats, categories with names, headers that differ, and every allocation
  -- succeeds.
  pub tasks_read-tasks_write :
      (t : Task) (us : List Task) (p q : Pdb) (f g : File) (at at' : ℕ)
      → Stored todo_size todo_ptr todo_bytes (t ∷ us) p f at
      → Stored ptod_size ptod_ptr ptod_bytes (t ∷ us) q g at'
      → All IsCText (t ∷ us)
      → All PtodFits (t ∷ us)
      → All (HasName (reread new p).categories) (reread new p).records
      → AllDiffer (half_queue (reread new p).categories (t ∷ us) (reread new p).records)
      → let s = (tasks_write (t ∷ us) (both p f q g)).1 in
        (tasks_read lib all_work (record { todo_file = s.todo.file; ptod_file = s.ptod.file })).0
        ≡ some (record {
          pdb_tododb = reread new p;
          pdb_tasks = reread new' q;
          queue =
              whole_queue
                (reread new p).categories
                (t ∷ us)
                (reread new p).records
                (reread new' q).records;
        })
  unfolding tasks_read from_todo from_ptod
  tasks_read-tasks_write t us p q f g at at' stored stored' text fits named apart =
      let ts = t ∷ us in
      let fa = file_after (image (saved p)) at (all_bytes todo_bytes ts) f in
      let ga = file_after (image (saved q)) at' (all_bytes ptod_bytes ts) g in
      let (k, first) =
        stored_back todo_size todo_ptr todo_bytes ts p f at stored (todo_nonempty t us) works 0 in
      let (j, second) =
        stored_back ptod_size ptod_ptr ptod_bytes ts q g at' stored' (ptod_nonempty t us) works'
          0 in
      let counted : length p.records ≡ length ts % 2 ^ 16 = omega (
        arith,
        places-length todo_size todo_ptr at ts p.records stored.placed,
        stored.writable.few_records,
      ) in
      rw
        (
          tasks_write-image t us p q f g at at' stored.writable stored'.writable stored.placed
              stored'.placed stored.distinct stored'.distinct (All-dated ts fits)
              (omega (arith, stored.behind, stored.room))
              (omega (arith, stored'.behind, stored'.room)) stored.room stored'.room,
          rewind_lem fa,
          rewind_lem ga,
          first,
          second,
        )
        (read_queue-gets ts (reread new p) (reread new' q) (record fa { pos = k })
          (record ga { pos = j }) at at' _ _
          (fresh-Offsets todo_size todo_ptr new 1 at ts p.records stored.placed)
          (fresh-Offsets ptod_size ptod_ptr new' 1 at' ts q.records stored'.placed) text fits named
          apart counted stored.small stored.readable stored'.readable
          (tasks_there todo_size todo_ptr todo_bytes ts p f at stored (todo_nonempty t us) works)
          (tasks_there ptod_size ptod_ptr ptod_bytes ts q g at' stored' (ptod_nonempty t us)
            works'))
