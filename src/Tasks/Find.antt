-- ===== src/Tasks/Find.antt =====
-- tasks_task_get of src/pdb/tasks.c: a task by its header, by qsort and bsearch on an array of the tasks.
-- With more tasks than the count of the PDB structure says, the array overflows before the check; the
-- model has the check alone.
pub mod Laws
use Prim.Native.Nat.{Ordering}
use palm_sync_daemon.Base.{ℕ, ◌%◌, ◌^◌, Option, none, some, List, map, length, ◌==◌, if◌then◌else◌}
use palm_sync_daemon.Libc.Strings.{strcmp}
use palm_sync_daemon.Libc.SortSearch.{SortSearch, find_sorted}
use palm_sync_daemon.Tasks.Types.{Task, Tasks}

-- An element of the array; the key that is searched for has no task.
pub record SortedTask : Type 0 where
  pub header : List ℕ
  pub task : Option Task

abbrev pub compare_headers : SortedTask → SortedTask → Ordering
compare_headers a b = strcmp a.header b.header

abbrev pub sorted_task : Task → SortedTask
sorted_task t = record { header = t.header; task = some t }

abbrev pub found_task : Option SortedTask → Option Task
found_task none = none
found_task (some s) = s.task

-- `index` is an unsigned short.
unfoldable pub tasks_task_get : SortSearch → List ℕ → Tasks → Option Task
tasks_task_get lib header m =
    if m.pdb_tododb.records_qty == length m.queue % 2 ^ 16
    then found_task (
        find_sorted lib compare_headers (record { header = header; task = none })
          (map sorted_task m.queue))
    else none
