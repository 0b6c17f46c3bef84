-- ===== src/Tasks/Types.antt =====
-- The structures of src/include/pdb/tasks.h. A string is the list of its bytes, without the NUL at its
-- end; a task points to its records by their addresses, to the one in TasksDB-PTod only once that
-- file has been read.
use palm_sync_daemon.Base.{ℕ, Option, none, some, List, [], ◌∷◌, ◌==◌, if◌then◌else◌}
use palm_sync_daemon.File.{Act}
use palm_sync_daemon.Pdb.Types.{Ptr, Pdb}

pub data TaskPriority : Type 0 where
  priority_1 : TaskPriority
  priority_2 : TaskPriority
  priority_3 : TaskPriority
  priority_4 : TaskPriority
  priority_5 : TaskPriority

pub record Alarm : Type 0 where
  pub alarm_hour : ℕ
  pub alarm_minute : ℕ
  pub days_earlier : ℕ

pub data RepeatRange : Type 0 where
  n_days : RepeatRange
  n_weeks : RepeatRange
  n_months_by_day : RepeatRange
  n_months_by_date : RepeatRange
  n_years : RepeatRange

pub record Repeat : Type 0 where
  pub range : RepeatRange
  pub day : ℕ
  pub month : ℕ
  pub year : ℕ
  pub interval : ℕ

pub record Task : Type 0 where
  pub header : List ℕ
  pub text : Option (List ℕ)
  pub category : List ℕ
  pub priority : TaskPriority
  pub due_day : ℕ
  pub due_month : ℕ
  pub due_year : ℕ
  pub alarm : Option Alarm
  pub repeat : Option Repeat
  pub record_todo : Ptr
  pub record_tasks : Option Ptr

pub record Tasks : Type 0 where
  pub pdb_tododb : Pdb
  pub pdb_tasks : Pdb
  pub queue : List Task

abbrev pub on_tododb_end : {A : Type 0} → Tasks → Option A × Pdb → Option A × Tasks
on_tododb_end m (r, p) = (r, record m { pdb_tododb = p })

abbrev pub on_tasksdb_end : {A : Type 0} → Tasks → Option A × Pdb → Option A × Tasks
on_tasksdb_end m (r, p) = (r, record m { pdb_tasks = p })

-- A call on one of the two PDB structures.
unfoldable pub on_tododb : {A : Type 0} → Act Pdb A → Act Tasks A
on_tododb c m = on_tododb_end m (c m.pdb_tododb)

unfoldable pub on_tasksdb : {A : Type 0} → Act Pdb A → Act Tasks A
on_tasksdb c m = on_tasksdb_end m (c m.pdb_tasks)

-- The task at the address that its callers hold, which is told apart by its record in ToDoDB.
abbrev pub task_at : Ptr → List Task → Option Task
task_at a [] = none
task_at a (t ∷ ts) = let rest = task_at a ts in if t.record_todo == a then some t else rest
