-- ===== src/Tasks/Tests.antt =====
-- Tasks of two concrete files, and the theorems on src/pdb/tasks.c applied to them.
use palm_sync_daemon.Base.{
  ℕ, ◌+◌, ◌-◌, ◌%◌, ap, get_or, ◌≡◌, inl, inr, All, refl, true, Option, none, some, [], ◌∷◌, ◌++◌,
  arith,
}
use palm_sync_daemon.File.{File}
use palm_sync_daemon.File.Writes.{put}
use palm_sync_daemon.Libc.Insertion.{insertion}
use palm_sync_daemon.Libc.Strings.{strcmp}
use palm_sync_daemon.Libc.SortSearch.{find_sorted}
use palm_sync_daemon.Libc.Insertion.{sort, insert, search_list}
use palm_sync_daemon.Pdb.Types.{Pdb}
use palm_sync_daemon.Pdb.Image.{image}
use palm_sync_daemon.Pdb.Tests.Pairs.{with_records, distinct_pair, pair-IsWritable, pair-PdbFits}
use palm_sync_daemon.Pdb.Tests.{address_of, allocate, works}
use palm_sync_daemon.Pdb.Categories.{pdb_category_get_name, pdb_category_get_id}
use palm_sync_daemon.Pdb.ReadFile.{prune_garbage}
use palm_sync_daemon.Pdb.RoundTrip.{reread}
use palm_sync_daemon.Pdb.WriteFile.Whole.{saved}
use palm_sync_daemon.Memos.Edit.{category_for}
use palm_sync_daemon.Tasks.Types.{priority_1, priority_3, Alarm, n_weeks, Task, Tasks}
use palm_sync_daemon.Tasks.Dates.{Date, pack_date, unpack_date, unpack_date-pack_date}
use palm_sync_daemon.Tasks.Sizes.{todo_size, ptod_size, todo_ptr, ptod_ptr}
use palm_sync_daemon.Tasks.Layout.{Laid}
use palm_sync_daemon.Tasks.WriteTasks.{tasks_write}
use palm_sync_daemon.Tasks.WriteTasks.Laws.{both, tasks_write-image}
use palm_sync_daemon.Tasks.WriteTasks.Bytes.{todo_bytes, ptod_bytes, all_bytes}
use palm_sync_daemon.Tasks.ReadTasks.{replace_task, tasks_read}
use palm_sync_daemon.Tasks.ReadTasks.Ptod.{PtodFits}
use palm_sync_daemon.Tasks.ReadTasks.Append.{AllDiffer}
use palm_sync_daemon.Memos.ReadMemos.Laws.{HasName}
use palm_sync_daemon.Tasks.RoundTrip.{IsCText, half_queue, whole_queue}
use palm_sync_daemon.Tasks.Files.{Stored, all_work, tasks_read-tasks_write}
use palm_sync_daemon.Tasks.Add.{new_task, tasks_task_add}
use palm_sync_daemon.Tasks.Add.Laws.{all_succeed, tasks_task_add-adds}
use palm_sync_daemon.Tasks.Delete.{remove_task, tasks_task_delete}
use palm_sync_daemon.Tasks.Delete.Laws.{tasks_task_delete-Layout}
use palm_sync_daemon.Tasks.Change.{
  with_date, tasks_task_set_due, tasks_task_set_alarm, tasks_task_set_repeat,
}
use palm_sync_daemon.Tasks.Change.Laws.{
  tasks_task_set_due-Layout, tasks_task_set_due-overlaps, tasks_task_set_alarm-Layout,
  tasks_task_set_repeat-Layout,
}
use palm_sync_daemon.Tasks.Change.Moves.{Changed}
use palm_sync_daemon.Tasks.Change.DueFits.{given}

abbrev plain_task : Task
plain_task = record {
  header = 72 ∷ 105 ∷ [];
  text = some (1 ∷ 2 ∷ 3 ∷ []);
  category = 87 ∷ [];
  priority = priority_3;
  due_day = 0;
  due_month = 0;
  due_year = 0;
  alarm = none;
  repeat = none;
  record_todo = 1;
  record_tasks = some 11;
}

abbrev weekly_task : Task
weekly_task = record {
  header = 72 ∷ 111 ∷ [];
  text = none;
  category = 87 ∷ [];
  priority = priority_1;
  due_day = 17;
  due_month = 5;
  due_year = 2024;
  alarm = some (record { alarm_hour = 9; alarm_minute = 30; days_earlier = 1 });
  repeat = some (record { range = n_weeks; day = 0; month = 0; year = 0; interval = 2 });
  record_todo = 2;
  record_tasks = some 12;
}

abbrev todo_pdb : Pdb
todo_pdb = with_records 400 410 1 2

abbrev tasks_pdb : Pdb
tasks_pdb = with_records 400 413 11 12

abbrev two_tasks : Tasks
two_tasks = record {
  pdb_tododb = todo_pdb;
  pdb_tasks = tasks_pdb;
  queue = plain_task ∷ weekly_task ∷ [];
}

two_tasks-Laid : Laid 400 400 two_tasks
two_tasks-Laid = (
  (
    record { offset_is = refl; points_to = refl },
    (record { offset_is = refl; points_to = refl }, tt),
  ),
  (
    record { offset_is = refl; points_to = refl },
    (record { offset_is = refl; points_to = refl }, tt),
  ),
)

abbrev empty_file : File
empty_file = record { bytes = 9 ∷ []; pos = 1; room = 1000; readable = true }

Stored-todo : Stored todo_size todo_ptr todo_bytes two_tasks.queue todo_pdb empty_file 400
Stored-todo = record {
  fits = pair-PdbFits 400 410 1 2 (omega arith) (omega arith);
  writable = pair-IsWritable 400 410 1 2;
  info = refl;
  placed = two_tasks-Laid.0;
  distinct = distinct_pair 400 410 1 2 (λ e. omega arith);
  readable = refl;
  behind = omega arith;
  room = omega arith;
  small = omega arith;
}

Stored-tasks : Stored ptod_size ptod_ptr ptod_bytes two_tasks.queue tasks_pdb empty_file 400
Stored-tasks = record {
  fits = pair-PdbFits 400 413 11 12 (omega arith) (omega arith);
  writable = pair-IsWritable 400 413 11 12;
  info = refl;
  placed = two_tasks-Laid.1;
  distinct = distinct_pair 400 413 11 12 (λ e. omega arith);
  readable = refl;
  behind = omega arith;
  room = omega arith;
  small = omega arith;
}

tasks_write-image_example :
    tasks_write two_tasks.queue (both todo_pdb empty_file tasks_pdb empty_file) ≡ (
      some tt,
      both
          (saved todo_pdb)
          (put
            (all_bytes todo_bytes two_tasks.queue)
            (record (put (image (saved todo_pdb)) (record empty_file { pos = 0 })) { pos = 400 }))
          (saved tasks_pdb)
          (put
            (all_bytes ptod_bytes two_tasks.queue)
            (record (put (image (saved tasks_pdb)) (record empty_file { pos = 0 })) { pos = 400 })),
    )
tasks_write-image_example =
    tasks_write-image plain_task (weekly_task ∷ []) todo_pdb tasks_pdb empty_file empty_file 400 400
      (pair-IsWritable 400 410 1 2) (pair-IsWritable 400 413 11 12) two_tasks-Laid.0
      two_tasks-Laid.1 (distinct_pair 400 410 1 2 (λ e. omega arith))
      (distinct_pair 400 413 11 12 (λ e. omega arith)) (inl refl, (inr refl, tt)) (omega arith)
      (omega arith) (omega arith) (omega arith)

two_tasks-IsCText : All IsCText two_tasks.queue
two_tasks-IsCText = (
  (
    (λ e. omega arith, (λ e. omega arith, tt)),
    (λ e. omega arith, (λ e. omega arith, (λ e. omega arith, tt))),
  ),
  (((λ e. omega arith, (λ e. omega arith, tt)), tt), tt),
)

two_tasks-PtodFits : All PtodFits two_tasks.queue
two_tasks-PtodFits = (
  record {
    due_fits = inl refl;
    alarm_fits = tt;
    repeat_fits = tt;
    repeats_dated = inl refl;
    header_text = (λ e. omega arith, (λ e. omega arith, tt));
  },
  (
    record {
      due_fits = inr (refl, omega arith, omega arith, omega arith, omega arith);
      alarm_fits = (omega arith, omega arith, omega arith);
      repeat_fits = (inl refl, λ real. absurd cc);
      repeats_dated = inr refl;
      header_text = (λ e. omega arith, (λ e. omega arith, tt));
    },
    tt,
  ),
)

abbrev back : Pdb
back = reread address_of todo_pdb

their_names : All (HasName back.categories) back.records
unfolding prune_garbage pdb_category_get_name
their_names = (refl, (refl, tt))

two_tasks-AllDiffer : AllDiffer (half_queue back.categories two_tasks.queue back.records)
two_tasks-AllDiffer =
    (((λ e. omega (arith, ap (λ xs. get_or xs 1 0) e), λ e. omega arith), tt), (tt, tt))

tasks_read-tasks_write_example :
    let s = (tasks_write two_tasks.queue (both todo_pdb empty_file tasks_pdb empty_file)).1 in
    (tasks_read insertion
      (all_work insertion 1 2 3 4 5 6 7 8 9 10 11 {calloc = allocate} {calloc' = allocate}
        {new = address_of} {new' = address_of} works works)
      (record { todo_file = s.todo.file; ptod_file = s.ptod.file })).0
    ≡ some (record {
      pdb_tododb = back;
      pdb_tasks = reread address_of tasks_pdb;
      queue =
          whole_queue back.categories two_tasks.queue back.records
            (reread address_of tasks_pdb).records;
    })
tasks_read-tasks_write_example =
    tasks_read-tasks_write insertion 1 2 3 4 5 6 7 8 9 10 11 {calloc = allocate}
      {calloc' = allocate} {new = address_of} {new' = address_of} works works plain_task
      (weekly_task ∷ []) todo_pdb tasks_pdb empty_file empty_file 400 400 Stored-todo Stored-tasks
      two_tasks-IsCText two_tasks-PtodFits their_names two_tasks-AllDiffer

unpack_date-pack_date_example :
    unpack_date (pack_date (record { day = 31; month = 12; year = 2040 }))
    ≡ record { day = 31; month = 12; year = 1904 + (2040 - 1904) % 128 }
unpack_date-pack_date_example =
    unpack_date-pack_date (record { day = 31; month = 12; year = 2040 }) refl (omega arith)
      (omega arith) (omega arith) (omega arith)

-- The name "W" of the first category.
its_category :
    (first second a b : ℕ)
    → category_for insertion (some 50) (87 ∷ []) (with_records first second a b)
      ≡ (some 0, with_records first second a b)
unfolding category_for pdb_category_get_id find_sorted insertion sort insert search_list strcmp
its_category first second a b = refl

tasks_task_add-adds_example :
    let (r, m') =
      tasks_task_add insertion
        (all_succeed 50 50 51 52 53 54 55 56 9)
        (some (78 ∷ []))
        (some (9 ∷ []))
        (some (87 ∷ []))
        priority_3
        two_tasks in
    (r ≡ some 55)
    × (m'.queue
        ≡ two_tasks.queue ++ (new_task (78 ∷ []) (some (9 ∷ [])) (87 ∷ []) priority_3 55 56 ∷ []))
    × Laid (400 + 8) (400 + 8) m'
tasks_task_add-adds_example =
    tasks_task_add-adds insertion 50 50 51 52 53 54 55 56 9 400 400 (78 ∷ []) (some (9 ∷ []))
      (some (87 ∷ [])) priority_3 two_tasks weekly_task 0 todo_pdb tasks_pdb two_tasks-Laid refl
      (omega arith) (omega arith) (its_category 400 410 1 2) (its_category 400 413 11 12)

tasks_task_delete-Layout_example :
    let (r, m') = tasks_task_delete (some 1) two_tasks in
    (r ≡ some tt) × (m'.queue ≡ remove_task 1 two_tasks.queue) × Laid 392 392 m'
tasks_task_delete-Layout_example =
    tasks_task_delete-Layout 392 392 1 plain_task two_tasks two_tasks-Laid refl
      (distinct_pair 400 410 1 2 (λ e. omega arith))
      (distinct_pair 400 413 11 12 (λ e. omega arith))
      ((omega arith, omega arith, omega arith), ((omega arith, omega arith, omega arith), tt))
      ((omega arith, omega arith, omega arith), ((omega arith, omega arith, omega arith), tt))
      (omega arith) (omega arith)

abbrev early_alarm : Option Alarm
early_alarm = some (record { alarm_hour = 7; alarm_minute = 0; days_earlier = 0 })

tasks_task_set_alarm-Layout_example :
    Changed 400 400 1
      (record plain_task { alarm = early_alarm })
      two_tasks
      (tasks_task_set_alarm (some 60) (some 1) early_alarm two_tasks)
tasks_task_set_alarm-Layout_example =
    tasks_task_set_alarm-Layout 400 400 1 plain_task two_tasks two_tasks-Laid
      (distinct_pair 400 413 11 12 (λ e. omega arith)) refl 60 early_alarm refl (omega arith)

tasks_task_set_repeat-Layout_example :
    Changed 400 400 2
      (record weekly_task { repeat = none })
      two_tasks
      (tasks_task_set_repeat (some 60) (some 2) none two_tasks)
tasks_task_set_repeat-Layout_example =
    tasks_task_set_repeat-Layout 400 400 2 weekly_task two_tasks two_tasks-Laid
      (distinct_pair 400 413 11 12 (λ e. omega arith)) refl 60 none (omega arith)

abbrev next_week : Date
next_week = record { day = 24; month = 5; year = 2024 }

tasks_task_set_due-Layout_example :
    Changed 400 400 2
      (with_date (given next_week) weekly_task)
      two_tasks
      (tasks_task_set_due (some 2) next_week two_tasks)
tasks_task_set_due-Layout_example =
    tasks_task_set_due-Layout 400 400 2 weekly_task two_tasks two_tasks-Laid
      (distinct_pair 400 413 11 12 (λ e. omega arith)) refl next_week (inr refl) (inr refl)
      (omega arith)

tasks_task_set_due-overlaps_example :
    let (r, m') = tasks_task_set_due (some 1) next_week two_tasks in
    (r ≡ some tt)
    × (m'.queue ≡ replace_task 1 (with_date next_week plain_task) two_tasks.queue)
    × (m'.pdb_tasks ≡ two_tasks.pdb_tasks)
    × (ptod_size (with_date next_week plain_task) ≡ ptod_size plain_task + 2)
tasks_task_set_due-overlaps_example =
    tasks_task_set_due-overlaps 1 plain_task two_tasks next_week 11 refl refl refl refl refl
