-- ===== src/Tasks/Layout.antt =====
-- Where the tasks of src/pdb/tasks.c stand in their two files, and the queue split at one of them.
use palm_sync_daemon.Base.{
  ℕ, ◌≡◌, refl, ap, some, List, [], ◌∷◌, ◌++◌, ◌==◌, ==_iff, Bool-cases, inl, inr, arith,
}
use palm_sync_daemon.Pdb.Types.{Ptr}
use palm_sync_daemon.Pdb.Places.{Places}
use palm_sync_daemon.Tasks.Types.{Task, Tasks, task_at}
use palm_sync_daemon.Tasks.Sizes.{todo_size, ptod_size, todo_ptr, ptod_ptr}
use palm_sync_daemon.Tasks.ReadTasks.{replace_task}
use palm_sync_daemon.Tasks.Delete.{remove_task}

-- From `at` on in ToDoDB and from `at'` on in TasksDB-PTod.
abbrev pub Laid : (at at' : ℕ) → Tasks → Type 0
Laid at at' m =
    Places todo_size todo_ptr at m.queue m.pdb_tododb.records
    × Places ptod_size ptod_ptr at' m.queue m.pdb_tasks.records

pub record TaskSplit (a : Ptr) (t : Task) (ts : List Task) : Type 0 where
  pub front : List Task
  pub back : List Task
  pub whole : ts ≡ front ++ (t ∷ back)
  pub address : t.record_todo ≡ a
  pub replaced : (t' : Task) → replace_task a t' ts ≡ front ++ (t' ∷ back)
  pub removed : remove_task a ts ≡ front ++ back

pub task_at-split : (a : Ptr) (t : Task) (ts : List Task) → task_at a ts ≡ some t → TaskSplit a t ts
task_at-split a t [] e = absurd cc
task_at-split a t (u ∷ us) e = elim (Bool-cases (u.record_todo == a)) [
  | inl here ↦
      (let same : u ≡ t = ground (arith, e, here) in
        rw (← same) (record {
          front = [];
          back = us;
          whole = refl;
          address = (==_iff _ _).0 here;
          replaced = λ t'. rw here refl;
          removed = rw here refl;
        }))
  | inr other ↦
      (let later : task_at a us ≡ some t = rw other at e in
        let s = task_at-split a t us later in
        record {
          front = u ∷ s.front;
          back = s.back;
          whole = ap (◌∷◌ u) s.whole;
          address = s.address;
          replaced = λ t'. rw other (ap (◌∷◌ u) (s.replaced t'));
          removed = rw other (ap (◌∷◌ u) s.removed);
        })
]
