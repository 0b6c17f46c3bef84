-- ===== src/Tasks/ReadTasks/Append.antt =====
-- One record of TasksDB-PTod put into the queue by _tasks_append_task of src/pdb/tasks.c, and the loop over
-- all of them, where no two tasks share a header or a record.
use palm_sync_daemon.Base.{
  ℕ, ◌+◌, ◌%◌, ◌^◌, ◌≡◌, ◌≢◌, ◌∙◌, inl, inr, refl, sym, ap, subst, true, false, Option, none, some,
  List, [], ◌∷◌, ◌++◌, length, drop, drop-drop, All, append_assoc, ◌==◌, ==_refl, arith,
}
use palm_sync_daemon.File.{File, seek_set}
use palm_sync_daemon.File.Reads.{ahead, skip, ahead-skip}
use palm_sync_daemon.Libc.SortSearch.{SortSearch, In}
use palm_sync_daemon.Pdb.Types.{Ptr, PdbRecord}
use palm_sync_daemon.Pdb.Fields.{read8-Reads}
use palm_sync_daemon.Tasks.Types.{
  TaskPriority, priority_1, priority_2, priority_3, priority_4, priority_5, Task, Tasks,
}
use palm_sync_daemon.Tasks.Dates.{Date, is_date}
use palm_sync_daemon.Tasks.WriteTasks.{due_of, priority_byte, entry_type}
use palm_sync_daemon.Tasks.WriteTasks.Bytes.{
  due_bytes, alarm_bytes, repeat_bytes, note_bytes, ptod_bytes,
}
use palm_sync_daemon.Tasks.Find.{tasks_task_get}
use palm_sync_daemon.Tasks.Find.Laws.{tasks_task_get-cases}
use palm_sync_daemon.Tasks.ReadTasks.{
  priority_of, copied, with_due, replace_task, task_of, tasks_append_task,
}
use palm_sync_daemon.Tasks.ParseData.{skip_bytes}
use palm_sync_daemon.Tasks.ReadTasks.Todo.{note_of}
use palm_sync_daemon.Tasks.ReadTasks.Ptod.{PtodFits, data_buffers, parse-gets}
use palm_sync_daemon.Tasks.ReadTasks.Flags.{DateFits}

priority_of-priority_byte : (p : TaskPriority) → priority_of (priority_byte p) ≡ p
priority_of-priority_byte priority_1 = refl
priority_of-priority_byte priority_2 = refl
priority_of-priority_byte priority_3 = refl
priority_of-priority_byte priority_4 = refl
priority_of-priority_byte priority_5 = refl

-- A task as _tasks_read_task leaves it, and as it is with the data of its other record.
abbrev pub half_read : Task → PdbRecord → List ℕ → Task
half_read t r category = task_of r t.header (note_of (note_bytes t.text)) category

abbrev pub read_whole : Task → PdbRecord → PdbRecord → List ℕ → Task
read_whole t r q category = record (half_read t r category) {
  priority = t.priority;
  due_day = t.due_day;
  due_month = t.due_month;
  due_year = t.due_year;
  alarm = t.alarm;
  repeat = t.repeat;
  record_tasks = some q.address;
}

copied_lem : {A : Type 0} (a : Ptr) (o : Option A) → copied (some a) o none ≡ some o
copied_lem a none = refl
copied_lem a (some x) = refl

filled :
    (t : Task) (r q : PdbRecord) (category : List ℕ)
    → DateFits (due_of t)
    → (record (with_due (due_of t) (half_read t r category)) {
      priority = t.priority;
      alarm = t.alarm;
      repeat = t.repeat;
      record_tasks = some q.address;
    })
      ≡ read_whole t r q category
filled t r q category (inl e) =
    let not_real : is_date (due_of t) ≡ false = ap is_date e in
    rw not_real (
      ap
        (λ (d : Date). record (read_whole t r q category) {
          due_day = d.day;
          due_month = d.month;
          due_year = d.year;
        })
        (sym e))
filled t r q category (inr fits) = rw fits.0

-- Two tasks that are told apart by the search and by the address.
abbrev pub Differs : Task → Task → Type 0
Differs x y = (y.header ≢ x.header) × (y.record_todo ≢ x.record_todo)

abbrev pub AllDiffer : List Task → Type 0
AllDiffer [] = Unit
AllDiffer (x ∷ xs) = All (Differs x) xs × AllDiffer xs

differ_in_front :
    (front : List Task) (x : Task) (back : List Task)
    → AllDiffer (front ++ (x ∷ back))
    → All (Differs x) front
differ_in_front [] x back d = tt
differ_in_front (y ∷ front) x back d =
    let other = middle y front x back d.0 in
    ((λ e. other.0 (sym e), λ e. other.1 (sym e)), differ_in_front front x back d.1)
  where
    middle :
        (y : Task) (front : List Task) (x : Task) (back : List Task)
        → All (Differs y) (front ++ (x ∷ back))
        → Differs y x
    middle y [] x back h = h.0
    middle y (z ∷ front) x back h = middle y front x back h.1

differ_behind :
    (front : List Task) (x : Task) (back : List Task)
    → AllDiffer (front ++ (x ∷ back))
    → All (Differs x) back
differ_behind [] x back d = d.0
differ_behind (y ∷ front) x back d = differ_behind front x back d.1

-- Only the header and the record count.
pub same_differ :
    (front : List Task) (x x' : Task) (back : List Task)
    → x'.header ≡ x.header
    → x'.record_todo ≡ x.record_todo
    → AllDiffer (front ++ (x ∷ back))
    → AllDiffer (front ++ (x' ∷ back))
same_differ [] x x' back e f d = (others back d.0, d.1)
  where
    others : (ys : List Task) → All (Differs x) ys → All (Differs x') ys
    others [] h = tt
    others (y ∷ ys) h = ((λ g. h.0.0 (g ∙ e), λ g. h.0.1 (g ∙ f)), others ys h.1)
same_differ (y ∷ front) x x' back e f d = (among front d.0, same_differ front x x' back e f d.1)
  where
    among :
        (zs : List Task) → All (Differs y) (zs ++ (x ∷ back)) → All (Differs y) (zs ++ (x' ∷ back))
    among [] h = ((λ g. h.0.0 (sym e ∙ g), λ g. h.0.1 (sym f ∙ g)), h.1)
    among (z ∷ zs) h = (h.0, among zs h.1)

-- The task that the search finds is the one with the header.
found_is :
    (front : List Task) (x y : Task) (back : List Task)
    → All (Differs x) front
    → All (Differs x) back
    → In y (front ++ (x ∷ back))
    → y.header ≡ x.header
    → y ≡ x
found_is [] x y back h k (inl e) same = e
found_is [] x y back h k (inr i) same = absurd (not_there back k i)
  where
    not_there : (zs : List Task) → All (Differs x) zs → In y zs → ⊥
    not_there [] k i = i
    not_there (z ∷ zs) k (inl e) = k.0.0 (sym (ap (λ (t : Task). t.header) e) ∙ same)
    not_there (z ∷ zs) k (inr i) = not_there zs k.1 i
found_is (z ∷ front) x y back h k (inl e) same =
    absurd (h.0.0 (sym (ap (λ (t : Task). t.header) e) ∙ same))
found_is (z ∷ front) x y back h k (inr i) same = found_is front x y back h.1 k i same

some_has :
    (front : List Task) (x : Task) (back : List Task)
    → All (λ t. t.header ≢ x.header) (front ++ (x ∷ back))
    → ⊥
some_has [] x back h = h.0 refl
some_has (y ∷ front) x back h = some_has front x back h.1

get_finds :
    (lib : SortSearch) (m : Tasks) (front : List Task) (x : Task) (back : List Task)
    → m.queue ≡ front ++ (x ∷ back)
    → AllDiffer (front ++ (x ∷ back))
    → m.pdb_tododb.records_qty ≡ length m.queue % 2 ^ 16
    → tasks_task_get lib x.header m ≡ some x
get_finds lib m front x back e d qty = elim (tasks_task_get-cases lib x.header m qty) [
  | inl (t, found, i, same) ↦
      found
      ∙ ap some (
          found_is front x t back (differ_in_front front x back d) (differ_behind front x back d)
            (subst (In t) e i) same)
  | inr (missing, none_has) ↦
      absurd (some_has front x back (subst (All (λ t. t.header ≢ x.header)) e none_has))
]

replace_middle :
    (front : List Task) (x x' : Task) (back : List Task)
    → All (Differs x) front
    → replace_task x.record_todo x' (front ++ (x ∷ back)) ≡ front ++ (x' ∷ back)
replace_middle [] x x' back h = rw (==_refl x.record_todo)
replace_middle (y ∷ front) x x' back h =
    let other : (y.record_todo == x.record_todo) ≡ false = ground (arith, h.0.1) in
    rw (other, replace_middle front x x' back h.1)

ptod_behind :
    (t : Task) (rest : List ℕ)
    → drop 6 (ptod_bytes t ++ rest)
      ≡ due_bytes t
        ++ (alarm_bytes t.alarm
            ++ (repeat_bytes t t.repeat
                ++ (t.header ++ (0 ∷ ((note_bytes t.text ++ (0 ∷ [])) ++ rest)))))
ptod_behind t rest = simp append_assoc

module _ (lib : SortSearch) (a b c d e g : Ptr) where
  -- One record: the task with its header is found and filled.
  pub append_task-gets :
      (m : Tasks) (front : List Task) (t : Task) (back : List Task) (r q : PdbRecord)
      (category rest : List ℕ) (f : File)
      → PtodFits t
      → m.queue ≡ front ++ (half_read t r category ∷ back)
      → AllDiffer (front ++ (half_read t r category ∷ back))
      → m.pdb_tododb.records_qty ≡ length m.queue % 2 ^ 16
      → f.readable ≡ true
      → drop q.offset f.bytes ≡ ptod_bytes t ++ rest
      → (k : ℕ) × (tasks_append_task lib (data_buffers a b c d e g) m q f
          ≡ (some (front ++ (read_whole t r q category ∷ back)), record f { pos = k }))
  unfolding tasks_append_task seek_set skip_bytes
  append_task-gets m front t back r q category rest f fits queue apart qty readable there =
      let x = half_read t r category in
      let at_start = record f { pos = q.offset } in
      let zeroes = skip 1 at_start in
      let raw_at = record f { pos = q.offset + 1 + 4 } in
      let parse_at = skip 1 raw_at in
      let tail = drop 1 (ptod_bytes t ++ rest) in
      let there1 : ahead at_start ≡ (entry_type t ∷ []) ++ tail = there in
      let there5 : ahead raw_at ≡ (priority_byte t.priority ∷ []) ++ drop 6 (ptod_bytes t ++ rest) =
        ap (λ n. drop n f.bytes) {y = q.offset + 5} (omega arith)
        ∙ drop-drop 5 q.offset f.bytes
        ∙ ap (drop 5) there in
      let there6 =
        ahead-skip raw_at (priority_byte t.priority ∷ []) _ there5 ∙ ptod_behind t rest in
      let (k, parsed) =
        parse-gets a b c d e g t ((note_bytes t.text ++ (0 ∷ [])) ++ rest) parse_at fits readable
          there6 in
      let found = get_finds lib m front x back queue apart qty in
      (
        k,
        rw
            (
              ==_refl q.offset,
              (read8-Reads (entry_type t)).run at_start tail readable there1,
              (read8-Reads (priority_byte t.priority)).run raw_at _ readable there5,
              parsed,
              found,
              copied_lem e t.alarm,
              copied_lem g t.repeat,
              priority_of-priority_byte t.priority,
            )
            (ap (λ bs. (some (replace_task x.record_todo bs m.queue), record f { pos = k }))
                (filled t r q category fits.due_fits)
              ∙ ap
                  (λ ts. (
                    some (replace_task x.record_todo (read_whole t r q category) ts),
                    record f { pos = k },
                  ))
                  queue
              ∙ ap (λ ts. (some ts, record f { pos = k }))
                  (replace_middle front x (read_whole t r q category) back
                    (differ_in_front front x back apart))),
      )
