-- ===== src/Tasks/Change/Laws.antt =====
-- The layout of the tasks under tasks_task_set_due, tasks_task_set_alarm and tasks_task_set_repeat of
-- src/pdb/tasks.c.
use palm_sync_daemon.Base.{
  ℕ, ◌+◌, ◌^◌, ◌<◌, ◌≡◌, ◌≢◌, ◌⊎◌, refl, sym, ap, subst, true, false, Option, none, some, List,
  if◌then◌else◌, arith,
}
use palm_sync_daemon.Pdb.Types.{Ptr}
use palm_sync_daemon.Pdb.Places.{places_end, DistinctRecords}
use palm_sync_daemon.Tasks.Types.{TaskPriority, Alarm, Repeat, Task, Tasks, task_at}
use palm_sync_daemon.Tasks.Dates.{Date, is_date}
use palm_sync_daemon.Tasks.WriteTasks.{due_of, flag_if}
use palm_sync_daemon.Tasks.ReadTasks.{replace_task}
use palm_sync_daemon.Tasks.Sizes.{ptod_size}
use palm_sync_daemon.Tasks.Layout.{Laid}
use palm_sync_daemon.Tasks.Change.{
  change_task, no_due, with_date, due_change, tasks_task_set_due, refuses_alarm,
  tasks_task_set_alarm, tasks_task_set_repeat, tasks_task_edit,
}
use palm_sync_daemon.Tasks.Change.Moves.{Changed, moves_none, change_task_lem, change_task-Laid}
use palm_sync_daemon.Tasks.Change.Fits.{alarm_change-fits, repeat_change-fits}
use palm_sync_daemon.Tasks.Change.DueFits.{given, DueWhole, none_before-not_date, due_change-fits}

module _ (at at' : ℕ) (a : Ptr) (t : Task) (m : Tasks) (laid : Laid at at' m)
    (distinct : DistinctRecords m.pdb_tasks.records) (there : task_at a m.queue ≡ some t) where
  -- Setting, changing or clearing an alarm that is not refused, with a successful allocation,
  -- succeeds and moves the records behind in TasksDB-PTod so that the layout of both files is
  -- right for the changed task, while offsets fit in 32 bits.
  pub tasks_task_set_alarm-Layout :
      (p : Ptr) (alarm : Option Alarm)
      → refuses_alarm t ≡ false
      → places_end ptod_size at' (replace_task a (record t { alarm = alarm }) m.queue) < 2 ^ 32
      → Changed at at' a
          (record t { alarm = alarm })
          m
          (tasks_task_set_alarm (some p) (some a) alarm m)
  unfolding tasks_task_set_alarm
  tasks_task_set_alarm-Layout p alarm allowed small =
      let (c, e, new, fit) = alarm_change-fits p t t.alarm alarm refl in
      rw (there, allowed, e)
        (subst (λ t'. Changed at at' a t' m (change_task a c m)) new
          (change_task-Laid at at' a t c m laid distinct there fit (
            subst (λ t'. places_end ptod_size at' (replace_task a t' m.queue) < 2 ^ 32) (sym new)
              small)))

  -- Setting, changing or clearing the repetition, with a successful allocation, succeeds and moves
  -- the records behind in TasksDB-PTod so that the layout of both files is right for the changed
  -- task, while offsets fit in 32 bits.
  pub tasks_task_set_repeat-Layout :
      (p : Ptr) (repeat : Option Repeat)
      → places_end ptod_size at' (replace_task a (record t { repeat = repeat }) m.queue) < 2 ^ 32
      → Changed at at' a
          (record t { repeat = repeat })
          m
          (tasks_task_set_repeat (some p) (some a) repeat m)
  unfolding tasks_task_set_repeat
  tasks_task_set_repeat-Layout p repeat small =
      let (c, e, new, fit) = repeat_change-fits p t t.repeat repeat refl in
      rw (there, e)
        (subst (λ t'. Changed at at' a t' m (change_task a c m)) new
          (change_task-Laid at at' a t c m laid distinct there fit (
            subst (λ t'. places_end ptod_size at' (replace_task a t' m.queue) < 2 ^ 32) (sym new)
              small)))

  -- tasks_task_set_due succeeds and keeps the layout of both files right in the sizes that
  -- tasks_task_add counts, where offsets fit in 32 bits and the fields of the old date are all
  -- zero or none is, if the task repeats, or if the due date is neither put in nor taken out.
  pub tasks_task_set_due-Layout :
      (d : Date)
      → DueWhole t
      → (t.repeat ≢ none) ⊎ (is_date d ≡ is_date (due_of t))
      → places_end ptod_size at' (replace_task a (with_date (given d) t) m.queue) < 2 ^ 32
      → Changed at at' a (with_date (given d) t) m (tasks_task_set_due (some a) d m)
  unfolding tasks_task_set_due
  tasks_task_set_due-Layout d whole right small =
      let (c, e, new, fit) = due_change-fits t d whole right in
      let is : due_change t d ≡ c = cc in
      rw (there, is)
        (subst (λ t'. Changed at at' a t' m (change_task a c m)) new
          (change_task-Laid at at' a t c m laid distinct there fit (
            subst (λ t'. places_end ptod_size at' (replace_task a t' m.queue) < 2 ^ 32) (sym new)
              small)))

-- Giving a due date to a task that has none and does not repeat moves no record, though the size
-- of the task in TasksDB-PTod grows by the two bytes of the date.
pub tasks_task_set_due-overlaps :
    (a : Ptr) (t : Task) (m : Tasks) (d : Date) (b : Ptr)
    → task_at a m.queue ≡ some t
    → t.record_tasks ≡ some b
    → t.repeat ≡ none
    → no_due t ≡ true
    → is_date d ≡ true
    → let (r, m') = tasks_task_set_due (some a) d m in
      (r ≡ some tt)
      × (m'.queue ≡ replace_task a (with_date d t) m.queue)
      × (m'.pdb_tasks ≡ m.pdb_tasks)
      × (ptod_size (with_date d t) ≡ ptod_size t + 2)
unfolding tasks_task_set_due
tasks_task_set_due-overlaps a t m d b there points no_repeat none_before real =
    let is : due_change t d ≡ record { new = with_date d t; delta = 0 } =
      rw (real, none_before)
        (ap (λ o. record { new = with_date d t; delta = flag_if 2 o }) no_repeat) in
    let done =
      change_task_lem a (record { new = with_date d t; delta = 0 }) m m.pdb_tasks.records
        (moves_none 0 t.record_tasks b m.pdb_tasks.records points refl) in
    let longer : ptod_size (with_date d t) ≡ ptod_size t + 2 = omega (
      arith,
      ap {B = ℕ} (λ b. if b then 2 else 0) real,
      ap {B = ℕ} (λ b. if b then 2 else 0) (none_before-not_date t none_before),
    ) in
    rw (there, is, done) (refl, refl, refl, longer)

pub tasks_task_edit-fails :
    (task : Option Ptr) (header text category : Option (List ℕ)) (priority : Option TaskPriority)
    (m : Option Tasks)
    → tasks_task_edit task header text category priority m ≡ (none, m)
unfolding tasks_task_edit
tasks_task_edit-fails task header text category priority none = refl
tasks_task_edit-fails task header text category priority (some m) = refl
