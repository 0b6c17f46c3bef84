-- ===== src/Tasks/Change.antt =====
-- tasks_task_set_due, tasks_task_set_alarm, tasks_task_set_repeat and tasks_task_edit of src/pdb/tasks.c.
-- `none` is -1. A task is given by the address of its record in ToDoDB; a pointer to no task of the
-- queue would be followed outside, and the model fails.
pub mod Moves
pub mod Fits
pub mod DueFits
pub mod Laws
use palm_sync_daemon.Base.{
  ℕ, ◌+◌, ◌-◌, ◌^◌, Bool, Option, none, some, List, [], ◌∷◌, map, not, ◌==◌, ◌&&◌, if◌then◌else◌,
}
use palm_sync_daemon.File.{Act, fail, pure, ◌>>=◌, ◌>>◌, from_option}
use palm_sync_daemon.Pdb.Types.{Ptr, PdbRecord}
use palm_sync_daemon.Pdb.Places.{move_by}
use palm_sync_daemon.Tasks.Types.{TaskPriority, Alarm, Repeat, Task, Tasks, task_at}
use palm_sync_daemon.Tasks.Dates.{Date, is_date}
use palm_sync_daemon.Tasks.WriteTasks.{flag_if}
use palm_sync_daemon.Tasks.ReadTasks.{replace_task}

-- The walk with TAILQ_NEXT from the record of the task.
abbrev pub move_behind : Ptr → ℕ → List PdbRecord → List PdbRecord
move_behind a d [] = []
move_behind a d (r ∷ rs) =
    let rest = move_behind a d rs in if r.address == a then r ∷ map (move_by d) rs else r ∷ rest

abbrev pub moved_records : ℕ → Option Ptr → List PdbRecord → Option (List PdbRecord)
moved_records d none rs = if d == 0 then some rs else none
moved_records d (some a) rs = if d == 0 then some rs else some (move_behind a d rs)

-- The new value of a task, and what its size in TasksDB-PTod changes by: an int32_t, added to the offsets
-- as a uint32_t, so that -n is 2 ^ 32 - n.
pub record TaskChange : Type 0 where
  pub new : Task
  pub delta : ℕ

unfoldable pub change_task : Ptr → TaskChange → Act Tasks (Unit {0})
change_task a c m =
    (do
      records ← from_option (moved_records c.delta c.new.record_tasks m.pdb_tasks.records)
      λ m. (
        some tt,
        record m {
          pdb_tasks = record (m.pdb_tasks) { records = records };
          queue = replace_task a c.new m.queue;
        },
      ))
      m

abbrev pub no_due : Task → Bool
no_due t = t.due_day == 0 && (t.due_month == 0 && t.due_year == 0)

abbrev pub with_date : Date → Task → Task
with_date d t = record t { due_day = d.day; due_month = d.month; due_year = d.year }

-- With a date that has a zero in it the due date goes.
abbrev pub due_change : Task → Date → TaskChange
due_change t d =
    if is_date d
    then record { new = with_date d t; delta = if no_due t then flag_if 2 t.repeat else 0 }
    else if no_due t
    then record { new = t; delta = 0 }
    else record {
      new = with_date (record { day = 0; month = 0; year = 0 }) t;
      delta = flag_if (2 ^ 32 - 2) t.repeat;
    }

unfoldable pub tasks_task_set_due : Option Ptr → Date → Act Tasks (Unit {0})
unfolding change_task
tasks_task_set_due task d m =
    (do a ← from_option task; t ← from_option (task_at a m.queue); change_task a (due_change t d)) m

-- `dueYear == 0 && dueMonth == 0 && dueDay`
abbrev pub refuses_alarm : Task → Bool
refuses_alarm t = t.due_year == 0 && (t.due_month == 0 && not (t.due_day == 0))

abbrev pub with_alarm : Task → Option Alarm → ℕ → TaskChange
with_alarm t alarm delta = record { new = record t { alarm = alarm }; delta = delta }

-- The alarm that the task has, and the one that it is to have.
abbrev pub alarm_change : Option Ptr → Task → Option Alarm → Option Alarm → Option TaskChange
alarm_change calloc t none none = some (record { new = t; delta = 0 })
alarm_change calloc t (some a) none = some (with_alarm t none (2 ^ 32 - 4))
alarm_change none t none (some a) = none
alarm_change (some p) t none (some a) = some (with_alarm t (some a) 4)
alarm_change calloc t (some old) (some a) = some (with_alarm t (some a) 0)

unfoldable pub tasks_task_set_alarm :
    (calloc : Option Ptr) → Option Ptr → Option Alarm → Act Tasks (Unit {0})
unfolding change_task
tasks_task_set_alarm calloc task alarm m =
    (do
      a ← from_option task
      t ← from_option (task_at a m.queue)
      c ← from_option (if refuses_alarm t then none else alarm_change calloc t t.alarm alarm)
      change_task a c)
      m

abbrev pub with_repeat : Task → Option Repeat → ℕ → TaskChange
with_repeat t repeat delta = record { new = record t { repeat = repeat }; delta = delta }

abbrev pub repeat_change : Option Ptr → Task → Option Repeat → Option Repeat → Option TaskChange
repeat_change calloc t none none = some (record { new = t; delta = 0 })
repeat_change calloc t (some r) none = some (with_repeat t none (2 ^ 32 - 10))
repeat_change none t none (some r) = none
repeat_change (some p) t none (some r) = some (with_repeat t (some r) 10)
repeat_change calloc t (some old) (some r) = some (with_repeat t (some r) 0)

unfoldable pub tasks_task_set_repeat :
    (calloc : Option Ptr) → Option Ptr → Option Repeat → Act Tasks (Unit {0})
unfolding change_task
tasks_task_set_repeat calloc task repeat m =
    (do
      a ← from_option task
      t ← from_option (task_at a m.queue)
      c ← from_option (repeat_change calloc t t.repeat repeat)
      change_task a c)
      m

-- `if(task == NULL);` ends with the semicolon, so that the block behind it returns -1 for every task. The
-- code below it is never reached.
unfoldable pub tasks_task_edit :
    Option Ptr
    → (header text category : Option (List ℕ)) → Option TaskPriority
    → Act (Option Tasks) (Unit {0})
tasks_task_edit task header text category priority none = (none, none)
tasks_task_edit task header text category priority (some m) = (none, some m)
