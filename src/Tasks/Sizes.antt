-- ===== src/Tasks/Sizes.antt =====
-- The sizes of a task in the two files, as tasks_task_add and tasks_task_delete of src/pdb/tasks.c count
-- them. A repeat interval counts ten bytes, two of them for the due date that is written again.
use palm_sync_daemon.Base.{ℕ, ◌+◌, Option, none, some, List, length, if◌then◌else◌}
use palm_sync_daemon.Pdb.Types.{Ptr}
use palm_sync_daemon.Tasks.Types.{Task}
use palm_sync_daemon.Tasks.Dates.{is_date}
use palm_sync_daemon.Tasks.WriteTasks.{due_of, flag_if}

abbrev pub note_size : Option (List ℕ) → ℕ
note_size none = 0
note_size (some text) = length text

abbrev pub strings_size : Task → ℕ
strings_size t = length t.header + 1 + (note_size t.text + 1)

abbrev pub todo_size : Task → ℕ
todo_size t = 2 + 1 + strings_size t

abbrev pub ptod_size : Task → ℕ
ptod_size t =
    1
    + 4
    + 1
    + (if is_date (due_of t) then 2 else 0)
    + flag_if 4 t.alarm
    + flag_if 10 t.repeat
    + strings_size t

abbrev pub todo_ptr : Task → Option Ptr
todo_ptr t = some t.record_todo

abbrev pub ptod_ptr : Task → Option Ptr
ptod_ptr t = t.record_tasks
