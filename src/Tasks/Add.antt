-- ===== src/Tasks/Add.antt =====
-- tasks_task_add of src/pdb/tasks.c. `none` is NULL; a new task is given by the address of its record in
-- ToDoDB. qsort with bsearch are a parameter, and so are the outcomes of calloc and random. A NULL
-- structure is an error before anything else.
pub mod Laws
use palm_sync_daemon.Base.{
  ℕ, ◌+◌, ◌%◌, ◌^◌, Bool, false, Option, none, some, List, [], ◌∷◌, ◌++◌, last, bit_and, ◌==◌, ◌&&◌,
  if◌then◌else◌,
}
use palm_sync_daemon.File.{Act, pure, ◌>>=◌, ◌>>◌, guard, from_option}
use palm_sync_daemon.Libc.SortSearch.{SortSearch}
use palm_sync_daemon.Pdb.Types.{Ptr, PdbRecord, pdb_record_item_size}
use palm_sync_daemon.Pdb.Records.{id_of_long, pdb_record_create, pdb_record_create_with_id}
use palm_sync_daemon.Memos.Edit.{category_or_default, category_for, shift_all_but_last}
use palm_sync_daemon.Tasks.Types.{TaskPriority, Task, Tasks, on_tododb, on_tasksdb}
use palm_sync_daemon.Tasks.Sizes.{todo_size, ptod_size}

pub record AddOutcomes : Type 0 where
  pub todo_name : Option Ptr
  pub tasks_name : Option Ptr
  pub task_struct : Option Ptr
  pub header_copy : Option Ptr
  pub text_copy : Option Ptr
  pub category_copy : Option Ptr
  pub todo_record : Option Ptr
  pub tasks_record : Option Ptr
  pub random_id : ℕ

-- The ID of the category in both files, which is added where it is not there. The IDs have to agree.
unfoldable pub category_in_both : SortSearch → AddOutcomes → List ℕ → Act Tasks ℕ
unfolding on_tododb on_tasksdb
category_in_both lib out name = do
  id ← on_tododb (category_for lib out.todo_name name)
  id' ← on_tasksdb (category_for lib out.tasks_name name)
  guard (id == id')
  pure id

abbrev pub points_to : Option Ptr → Ptr → Bool
points_to none b = false
points_to (some a) b = a == b

-- The offsets of the new task, from the last task and the last records, which have to belong together.
abbrev pub offsets_behind : Option PdbRecord → Option PdbRecord → Option Task → Option (ℕ × ℕ)
offsets_behind none q t = none
offsets_behind (some r) none t = none
offsets_behind (some r) (some q) none = none
offsets_behind (some r) (some q) (some t) =
    if t.record_todo == r.address && points_to t.record_tasks q.address
    then some (
      (r.offset + todo_size t + pdb_record_item_size) % 2 ^ 32,
      (q.offset + ptod_size t + pdb_record_item_size) % 2 ^ 32,
    )
    else none

unfoldable pub next_offsets : Act Tasks (ℕ × ℕ)
next_offsets m =
    (offsets_behind (last m.pdb_tododb.records) (last m.pdb_tasks.records) (last m.queue), m)

-- A copy of the text is only asked for if there is one.
abbrev pub text_copied : Option Ptr → Option (List ℕ) → Option (Option (List ℕ))
text_copied copy none = some none
text_copied none (some text) = none
text_copied (some a) (some text) = some (some text)

abbrev pub new_task :
    (header : List ℕ) (text : Option (List ℕ)) (category : List ℕ)
    → TaskPriority
    → (r q : Ptr) → Task
new_task header text category priority r q = record {
  header = header;
  text = text;
  category = category;
  priority = priority;
  due_day = 0;
  due_month = 0;
  due_year = 0;
  alarm = none;
  repeat = none;
  record_todo = r;
  record_tasks = some q;
}

-- The new task goes to the end of the queue, and the records in front of the new ones move.
unfoldable pub insert_task : Task → Act Tasks (Unit {0})
insert_task t m = (
  some tt,
  record {
    pdb_tododb = record (m.pdb_tododb) {
      records = shift_all_but_last pdb_record_item_size m.pdb_tododb.records;
    };
    pdb_tasks = record (m.pdb_tasks) {
      records = shift_all_but_last pdb_record_item_size m.pdb_tasks.records;
    };
    queue = m.queue ++ (t ∷ []);
  },
)

unfoldable pub tasks_task_add :
    SortSearch
    → AddOutcomes
    → (header text category : Option (List ℕ)) → TaskPriority
    → Act Tasks Ptr
unfolding category_in_both next_offsets on_tododb on_tasksdb insert_task
tasks_task_add lib out header? text category? priority = do
  header ← from_option header?
  category ← pure (category_or_default category?)
  id ← category_in_both lib out category
  (offset, offset') ← next_offsets
  task_ptr ← from_option out.task_struct
  _ ← from_option out.header_copy
  text ← from_option (text_copied out.text_copy text)
  _ ← from_option out.category_copy
  r ←
      on_tododb
        (pdb_record_create out.todo_record out.random_id offset (bit_and 0x0f id) (some task_ptr))
  q ← on_tasksdb (
      pdb_record_create_with_id out.tasks_record offset' (bit_and 0x0f id)
        (id_of_long out.random_id) (some task_ptr))
  insert_task (new_task header text category priority r q)
  pure r
