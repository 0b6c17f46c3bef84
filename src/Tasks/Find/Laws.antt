-- ===== src/Tasks/Find/Laws.antt =====
-- The results of tasks_task_get of src/pdb/tasks.c.
use Prim.Native.Nat.{eq}
use palm_sync_daemon.Base.{
  ℕ, ◌%◌, ◌^◌, ◌≡◌, ◌≢◌, ◌⊎◌, ◌∙◌, inl, inr, refl, sym, ap, true, none, some, List, [], ◌∷◌, map,
  length, All, ◌==◌, ==_iff, subst,
}
use palm_sync_daemon.Libc.Strings.{strcmp, strcmp_refl, eq_of_strcmp, strcmp_total, strcmp_trans}
use palm_sync_daemon.Libc.SortSearch.{In, IsOrder, SortSearch, find_sorted-cases}
use palm_sync_daemon.Tasks.Types.{Task, Tasks}
use palm_sync_daemon.Tasks.Find.{SortedTask, compare_headers, sorted_task, tasks_task_get}

compare_headers-IsOrder : IsOrder compare_headers
compare_headers-IsOrder = record {
  total = λ x y e. strcmp_total x.header y.header e;
  trans = λ x y z e f. strcmp_trans x.header y.header z.header e f;
}

task_of_In :
    (ts : List Task) (s : SortedTask)
    → In s (map sorted_task ts)
    → (t : Task) × In t ts × (s ≡ sorted_task t)
task_of_In [] s i = elim i [ ]
task_of_In (t ∷ ts) s (inl e) = (t, inl refl, e)
task_of_In (t ∷ ts) s (inr i) = let (q, j, e) = task_of_In ts s i in (q, inr j, e)

none_equal :
    (header : List ℕ) (ts : List Task)
    → ((s : SortedTask) → In s (map sorted_task ts) → strcmp header s.header ≢ eq)
    → All (λ t. t.header ≢ header) ts
none_equal header [] h = tt
none_equal header (t ∷ ts) h = (
  λ e.
      h (sorted_task t) (inl refl) (subst (λ xs. strcmp xs t.header ≡ eq) e (strcmp_refl t.header)),
  none_equal header ts (λ s i. h s (inr i)),
)

-- tasks_task_get gives a task with the header, or NULL and no task has it, where the record count is the
-- number of tasks in 16 bits.
pub tasks_task_get-cases :
    (lib : SortSearch) (header : List ℕ) (m : Tasks)
    → m.pdb_tododb.records_qty ≡ length m.queue % 2 ^ 16
    → ((t : Task) × (tasks_task_get lib header m ≡ some t) × In t m.queue × (t.header ≡ header))
      ⊎ ((tasks_task_get lib header m ≡ none) × All (λ t. t.header ≢ header) m.queue)
unfolding tasks_task_get
tasks_task_get-cases lib header m qty =
    let key : SortedTask = record { header = header; task = none } in
    let counted : (m.pdb_tododb.records_qty == length m.queue % 2 ^ 16) ≡ true =
      (==_iff _ _).1 qty in
    elim (find_sorted-cases lib compare_headers key (map sorted_task m.queue)
      compare_headers-IsOrder) [
        | inl (s, e, i, same) ↦
            (let (t, j, is) = task_of_In m.queue s i in
              inl (
                t,
                rw (counted, e) (ap (λ (x : SortedTask). x.task) is),
                j,
                sym (ap (λ (x : SortedTask). x.header) is)
                    ∙ sym (eq_of_strcmp header s.header same),
              ))
        | inr (e, other) ↦ inr (rw (counted, e), none_equal header m.queue other)
      ]
