-- ===== src/Tasks/Delete.antt =====
-- tasks_task_delete of src/pdb/tasks.c. `none` is -1. A task is given by the address of its record in
-- ToDoDB; a pointer that leads nowhere would be followed outside, and the model fails.
pub mod Laws
use palm_sync_daemon.Base.{ℕ, ◌+◌, Option, none, some, List, [], ◌∷◌, map, ◌==◌, if◌then◌else◌}
use palm_sync_daemon.File.{Act, ◌>>=◌, ◌>>◌, from_option}
use palm_sync_daemon.Pdb.Types.{Ptr, PdbRecord, pdb_record_item_size}
use palm_sync_daemon.Pdb.Records.{pdb_record_get_unique_id, pdb_record_delete}
use palm_sync_daemon.Memos.Delete.{pull_by}
use palm_sync_daemon.Tasks.Types.{Task, Tasks, on_tododb, on_tasksdb, task_at}
use palm_sync_daemon.Tasks.Sizes.{todo_size, ptod_size}

-- The walks with TAILQ_NEXT and TAILQ_PREV from the record of the task: those behind it move by `back`,
-- those in front of it by `front`.
abbrev pub pull_around : Ptr → (front back : ℕ) → List PdbRecord → List PdbRecord
pull_around a front back [] = []
pull_around a front back (r ∷ rs) =
    let rest = pull_around a front back rs in
    if r.address == a then r ∷ map (pull_by back) rs else pull_by front r ∷ rest

abbrev pub record_of : Ptr → List PdbRecord → Option PdbRecord
record_of a [] = none
record_of a (r ∷ rs) = let rest = record_of a rs in if r.address == a then some r else rest

abbrev pub remove_task : Ptr → List Task → List Task
remove_task a [] = []
remove_task a (t ∷ ts) = let rest = remove_task a ts in if t.record_todo == a then ts else t ∷ rest

-- Task `t`, which has the record `q` in TasksDB-PTod, leaves the queue and the records move.
unfoldable pub take_out : Task → (q : Ptr) → Act Tasks (Unit {0})
take_out t q m = (
  some tt,
  record {
    pdb_tododb = record (m.pdb_tododb) {
      records =
          pull_around t.record_todo pdb_record_item_size (todo_size t + pdb_record_item_size)
            m.pdb_tododb.records;
    };
    pdb_tasks = record (m.pdb_tasks) {
      records =
          pull_around q pdb_record_item_size (ptod_size t + pdb_record_item_size)
            m.pdb_tasks.records;
    };
    queue = remove_task t.record_todo m.queue;
  },
)

unfoldable pub tasks_task_delete : Option Ptr → Act Tasks (Unit {0})
unfolding take_out on_tododb on_tasksdb
tasks_task_delete task m =
    (do
      a ← from_option task
      t ← from_option (task_at a m.queue)
      b ← from_option t.record_tasks
      r ← from_option (record_of t.record_todo m.pdb_tododb.records)
      q ← from_option (record_of b m.pdb_tasks.records)
      take_out t b
      on_tododb (pdb_record_delete (pdb_record_get_unique_id r))
      on_tasksdb (pdb_record_delete (pdb_record_get_unique_id q)))
      m
