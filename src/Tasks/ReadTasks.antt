-- ===== src/Tasks/ReadTasks.antt =====
-- tasks_read of src/pdb/tasks.c with _tasks_read_task, which reads a task from ToDoDB, and
-- _tasks_append_task and __parse_taskdb_data, which read the rest of it from TasksDB-PTod. The outcomes
-- of calloc are parameters. A task that cannot be read ends the call, and everything is freed.
pub mod Todo
pub mod Flags
pub mod RepeatData
pub mod HeaderData
pub mod Ptod
pub mod Append
use palm_sync_daemon.Base.{
  ℕ, zero, suc, ◌+◌, ◌*◌, ◌/◌, ◌%◌, ◌^◌, Bool, true, Option, none, some, List, [], ◌∷◌, length, not,
  ◌==◌, if◌then◌else◌,
}
use palm_sync_daemon.File.{
  File, Act, Io, pure, fail, ◌>>=◌, ◌>>◌, guard, from_option, read, seek_set, tell, rewind,
}
use palm_sync_daemon.Libc.Strings.{cstr}
use palm_sync_daemon.Libc.SortSearch.{SortSearch}
use palm_sync_daemon.Pdb.Types.{Ptr, PdbRecord, PdbCategories, Pdb}
use palm_sync_daemon.Pdb.Fields.{read8_field, read16_field}
use palm_sync_daemon.Pdb.ReadFile.{pdb_read}
use palm_sync_daemon.Helper.Chunks.{chunk_size, read_chunks}
use palm_sync_daemon.Memos.ReadMemos.{index_of, scan, category_name, skip_one}
use palm_sync_daemon.Tasks.Types.{
  TaskPriority, priority_1, priority_2, priority_3, priority_4, priority_5, Alarm, RepeatRange,
  n_days, n_weeks, n_months_by_day, n_months_by_date, n_years, Repeat, Task, Tasks,
}
use palm_sync_daemon.Tasks.Dates.{Date, is_date, no_date, unpack_date}
use palm_sync_daemon.Tasks.WriteTasks.{
  header_present, due_date_present, alarm_present, repeat_present, repeat_type,
}
use palm_sync_daemon.Tasks.Find.{tasks_task_get}
use palm_sync_daemon.Tasks.ParseData.{
  has_flag, zero_date, TaskData, DataBuffers, read_due, read_alarm, range_of, until_date, repeat_of,
  skip_bytes, read_unknown, repeat_end, read_repeat_data, read_repeat, size_chunk, size_loop,
  read_header, parse_taskdb_data,
}

-- The outcomes of calloc in _tasks_read_task.
pub record TaskBuffers : Type 0 where
  pub task_buf : Option Ptr
  pub header_buf : Option Ptr
  pub text_buf : Option Ptr
  pub category_buf : Option Ptr

-- Two of the scans of memos.c over again, for a NUL.
abbrev pub header_size : Io ℕ
header_size = scan 0 1

abbrev pub text_size : Io ℕ
text_size = scan 0 0

-- A buffer for the text is only asked for if there is one.
abbrev pub text_allocated : Option Ptr → ℕ → Bool
text_allocated none size = size == 0
text_allocated (some a) size = true

unfoldable pub read_note : Option Ptr → ℕ → Io (Option (List ℕ))
read_note buf zero = pure none
read_note buf (suc n) = do bytes ← read_chunks buf (suc n); pure (some bytes)

abbrev pub task_of : PdbRecord → List ℕ → Option (List ℕ) → List ℕ → Task
task_of r header text category = record {
  header = header;
  text = text;
  category = cstr category;
  priority = priority_1;
  due_day = 0;
  due_month = 0;
  due_year = 0;
  alarm = none;
  repeat = none;
  record_todo = r.address;
  record_tasks = none;
}

unfoldable pub tasks_read_task : TaskBuffers → Option PdbCategories → PdbRecord → Io Task
unfolding read_note skip_one
tasks_read_task bufs categories r = do
  at ← seek_set ((r.offset + 3) % 2 ^ 32)
  guard (at == (r.offset + 3) % 2 ^ 32)
  header_len ← header_size
  text_len ← text_size
  at ← seek_set ((r.offset + 3) % 2 ^ 32)
  guard (at == (r.offset + 3) % 2 ^ 32)
  _ ← from_option bufs.task_buf
  _ ← from_option bufs.header_buf
  guard (text_allocated bufs.text_buf text_len)
  _ ← from_option bufs.category_buf
  header ← read_chunks bufs.header_buf header_len
  skip_one
  text ← read_note bufs.text_buf text_len
  category ← from_option (category_name r categories)
  pure (task_of r header text category)

-- An unexpected priority becomes the first.
abbrev pub priority_of : ℕ → TaskPriority
priority_of raw =
    if raw == 2
    then priority_2
    else if raw == 3
    then priority_3
    else if raw == 4
    then priority_4
    else if raw == 5
    then priority_5
    else priority_1

-- A copy of what was parsed, if there is any; else what the task has stays.
abbrev pub copied : {A : Type 0} → Option Ptr → Option A → Option A → Option (Option A)
copied buf none old = some old
copied none (some a) old = none
copied (some p) (some a) old = some (some a)

abbrev pub with_due : Date → Task → Task
with_due d t =
    if is_date d then record t { due_day = d.day; due_month = d.month; due_year = d.year } else t

-- The task at the address takes a new value.
abbrev pub replace_task : Ptr → Task → List Task → List Task
replace_task a t' [] = []
replace_task a t' (t ∷ ts) =
    let rest = replace_task a t' ts in if t.record_todo == a then t' ∷ ts else t ∷ rest

-- The queue with the data of one record put in.
unfoldable pub tasks_append_task : SortSearch → DataBuffers → Tasks → PdbRecord → Io (List Task)
unfolding skip_bytes parse_taskdb_data
tasks_append_task lib bufs m r = do
  at ← seek_set r.offset
  guard (at == r.offset)
  type ← read8_field
  skip_bytes 4
  raw ← read8_field
  parsed ← parse_taskdb_data bufs type
  t ← from_option (tasks_task_get lib parsed.header m)
  alarm ← from_option (copied bufs.alarm_copy parsed.alarm t.alarm)
  repeat ← from_option (copied bufs.repeat_copy parsed.repeat t.repeat)
  pure (
      replace_task t.record_todo
        (record (with_due parsed.due t) {
          priority = priority_of raw;
          alarm = alarm;
          repeat = repeat;
          record_tasks = some r.address;
        })
        m.queue)

unfoldable pub read_tasks :
    (PdbRecord → TaskBuffers) → Option PdbCategories → List PdbRecord → Io (List Task)
unfolding tasks_read_task
read_tasks bufs categories [] = pure []
read_tasks bufs categories (r ∷ rs) = do
  t ← tasks_read_task (bufs r) categories r
  ts ← read_tasks bufs categories rs
  pure (t ∷ ts)

unfoldable pub append_tasks :
    SortSearch → (PdbRecord → DataBuffers) → Tasks → List PdbRecord → Io Tasks
unfolding tasks_append_task
append_tasks lib bufs m [] = pure m
append_tasks lib bufs m (r ∷ rs) = do
  queue ← tasks_append_task lib (bufs r) m r
  append_tasks lib bufs (record m { queue = queue }) rs

pub record TasksFiles : Type 0 where
  pub todo_file : File
  pub ptod_file : File

abbrev pub todo_read : {A : Type 0} → File → Option A × File → Option A × TasksFiles
todo_read g (r, f) = (r, record { todo_file = f; ptod_file = g })

abbrev pub ptod_read : {A : Type 0} → File → Option A × File → Option A × TasksFiles
ptod_read f (r, g) = (r, record { todo_file = f; ptod_file = g })

unfoldable pub from_todo : {A : Type 0} → Io A → Act TasksFiles A
from_todo c s = todo_read s.ptod_file (c s.todo_file)

unfoldable pub from_ptod : {A : Type 0} → Io A → Act TasksFiles A
from_ptod c s = ptod_read s.todo_file (c s.ptod_file)

-- The outcomes of calloc in tasks_read and the calls that it makes.
pub record ReadOutcomes : Type 0 where
  pub tasks_buf : Option Ptr
  pub todo_calloc : ℕ → Option Ptr
  pub ptod_calloc : ℕ → Option Ptr
  pub task_bufs : PdbRecord → TaskBuffers
  pub data_bufs : PdbRecord → DataBuffers

-- The two loops of tasks_read.
unfoldable pub read_queue : SortSearch → ReadOutcomes → Pdb → Pdb → Act TasksFiles Tasks
unfolding from_todo from_ptod read_tasks append_tasks
read_queue lib out p q = do
  queue ← from_todo (read_tasks out.task_bufs p.categories p.records)
  from_ptod (
      append_tasks lib out.data_bufs (record { pdb_tododb = p; pdb_tasks = q; queue = queue })
        q.records)

unfoldable pub tasks_read : SortSearch → ReadOutcomes → Act TasksFiles Tasks
unfolding from_todo from_ptod read_queue
tasks_read lib out = do
  _ ← from_option out.tasks_buf
  from_todo rewind
  from_ptod rewind
  p ← from_todo (pdb_read out.todo_calloc true)
  q ← from_ptod (pdb_read out.ptod_calloc true)
  read_queue lib out p q
