-- ===== src/Tasks/Add/Laws.antt =====
-- What tasks_task_add of src/pdb/tasks.c leaves behind.
use palm_sync_daemon.Base.{
  ℕ, ◌+◌, ◌%◌, ◌^◌, ◌<◌, ◌≡◌, ◌∙◌, refl, sym, ap, subst, true, Option, none, some, List, [], ◌∷◌,
  ◌++◌, map, last, bit_and, ◌==◌, ==_refl, arith,
}
use palm_sync_daemon.Libc.SortSearch.{SortSearch}
use palm_sync_daemon.Pdb.Types.{Ptr, PdbRecord, Pdb}
use palm_sync_daemon.Pdb.Records.{
  id_of_long, new_record, pdb_record_create, pdb_record_create_with_id,
}
use palm_sync_daemon.Pdb.Places.{Places, places_end, Places-append, Places-move, places_end-add}
use palm_sync_daemon.Memos.Edit.{category_or_default, category_for, shift_by, shift_all_but_last}
use palm_sync_daemon.Memos.Layout.{category_in-records}
use palm_sync_daemon.Tasks.Types.{TaskPriority, Task, Tasks, on_tododb, on_tasksdb}
use palm_sync_daemon.Tasks.Sizes.{todo_size, ptod_size, todo_ptr, ptod_ptr}
use palm_sync_daemon.Tasks.Layout.{Laid}
use palm_sync_daemon.Tasks.Add.{
  AddOutcomes, category_in_both, points_to, next_offsets, text_copied, new_task, insert_task,
  tasks_task_add,
}

shift-append :
    (d : ℕ) (rs : List PdbRecord) (r : PdbRecord)
    → shift_all_but_last d (rs ++ (r ∷ [])) ≡ map (shift_by d) rs ++ (r ∷ [])
shift-append d [] r = refl
shift-append d (q ∷ []) r = refl
shift-append d (q ∷ (q' ∷ qs)) r = ap (◌∷◌ (shift_by d q)) (shift-append d (q' ∷ qs) r)

module _ (size : Task → ℕ) (ptr : Task → Option Ptr) where
  -- The last task has the last record.
  pub record LastOf (at : ℕ) (ts : List Task) (t : Task) (rs : List PdbRecord) : Type 0 where
    pub own : PdbRecord
    pub is_last : last rs ≡ some own
    pub points : ptr t ≡ some own.address
    pub ends : own.offset + size t ≡ places_end size at ts

  last_of :
      (at : ℕ) (ts : List Task) (t : Task) (rs : List PdbRecord)
      → Places size ptr at ts rs
      → last ts ≡ some t
      → LastOf at ts t rs
  last_of at [] t rs p e = absurd cc
  last_of at (u ∷ us) t [] p e = elim p [ ]
  last_of at (u ∷ []) t (r ∷ []) p e =
      let same : u ≡ t = cc in
      rw (← same) (record {
        own = r;
        is_last = refl;
        points = p.0.points_to;
        ends = omega (arith, p.0.offset_is);
      })
  last_of at (u ∷ []) t (r ∷ (q ∷ rs)) p e = elim p.1 [ ]
  last_of at (u ∷ (v ∷ us)) t (r ∷ []) p e = elim p.1 [ ]
  last_of at (u ∷ (v ∷ us)) t (r ∷ (q ∷ rs)) p e =
      let l = last_of (at + size u) (v ∷ us) t (q ∷ rs) p.1 e in
      record { own = l.own; is_last = l.is_last; points = l.points; ends = l.ends }

  -- One record more at the end, the others moved.
  one_more :
      (at : ℕ) (ts : List Task) (t : Task) (rs : List PdbRecord) (r : PdbRecord)
      → Places size ptr at ts rs
      → r.offset ≡ places_end size at ts + 8
      → ptr t ≡ some r.address
      → places_end size at ts + 8 < 2 ^ 32
      → Places size ptr (at + 8) (ts ++ (t ∷ [])) (shift_all_but_last 8 (rs ++ (r ∷ [])))
  one_more at ts t rs r p offset points small = rw (shift-append 8 rs r) (
      Places-append size ptr (at + 8) ts (t ∷ []) (map (shift_by 8) rs) (r ∷ [])
        (Places-move size ptr at (at + 8) 8 0 ts rs p (omega arith)
          (omega (arith, places_end-add size at 8 ts)))
        (record { offset_is = offset ∙ sym (places_end-add size at 8 ts); points_to = points }, tt))

category_for-records :
    (lib : SortSearch) (calloc : Option Ptr) (name : List ℕ) (p p' : Pdb) (id : ℕ)
    → category_for lib calloc name p ≡ (some id, p')
    → p'.records ≡ p.records
unfolding category_for
category_for-records lib calloc name p p' id e =
    ap (λ (x : Option ℕ × Pdb). (x.1).records) (sym e)
    ∙ category_in-records lib calloc name p.categories p

text_copied_lem : (a : Ptr) (text : Option (List ℕ)) → text_copied (some a) text ≡ some text
text_copied_lem a none = refl
text_copied_lem a (some text) = refl

abbrev pub all_succeed : (a b c d e f g h random_id : ℕ) → AddOutcomes
all_succeed a b c d e f g h random_id = record {
  todo_name = some a;
  tasks_name = some b;
  task_struct = some c;
  header_copy = some d;
  text_copy = some e;
  category_copy = some f;
  todo_record = some g;
  tasks_record = some h;
  random_id = random_id;
}

module _ (lib : SortSearch) (a b c d e f g h random_id : ℕ) (at at' : ℕ) where
  -- tasks_task_add succeeds where the layout is right, there is a last task, the category can be
  -- found or added under one ID in both files, the allocations succeed and the offsets fit in 32
  -- bits; the queue then ends with the new task and the layout of both files is right, moved by
  -- the eight bytes of the new record list item.
  pub tasks_task_add-adds :
      (header : List ℕ) (text category : Option (List ℕ)) (priority : TaskPriority) (m : Tasks)
      (t : Task) (id : ℕ) (p' q' : Pdb)
      → Laid at at' m
      → last m.queue ≡ some t
      → places_end todo_size at m.queue + 8 < 2 ^ 32
      → places_end ptod_size at' m.queue + 8 < 2 ^ 32
      → category_for lib (some a) (category_or_default category) m.pdb_tododb ≡ (some id, p')
      → category_for lib (some b) (category_or_default category) m.pdb_tasks ≡ (some id, q')
      → let (r, m') =
          tasks_task_add lib
            (all_succeed a b c d e f g h random_id)
            (some header)
            text
            category
            priority
            m in
        (r ≡ some g)
        × (m'.queue
            ≡ m.queue ++ (new_task header text (category_or_default category) priority g h ∷ []))
        × Laid (at + 8) (at' + 8) m'
  unfolding tasks_task_add category_in_both next_offsets on_tododb on_tasksdb insert_task
      pdb_record_create pdb_record_create_with_id
  tasks_task_add-adds header text category priority m t id p' q' laid last_t small small' found
        found' =
      let same =
        category_for-records lib (some a) (category_or_default category) m.pdb_tododb p' id found in
      let same' =
        category_for-records lib (some b) (category_or_default category) m.pdb_tasks q' id found' in
      let l = last_of todo_size todo_ptr at m.queue t m.pdb_tododb.records laid.0 last_t in
      let l' = last_of ptod_size ptod_ptr at' m.queue t m.pdb_tasks.records laid.1 last_t in
      let attributes = bit_and 0x0f id in
      let offset = (l.own.offset + todo_size t + 8) % 2 ^ 32 in
      let offset' = (l'.own.offset + ptod_size t + 8) % 2 ^ 32 in
      let r = new_record g offset attributes (id_of_long random_id) (some c) in
      let q = new_record h offset' attributes (id_of_long random_id) (some c) in
      let task = new_task header text (category_or_default category) priority g h in
      let last_r : last p'.records ≡ some l.own = ap last same ∙ l.is_last in
      let last_q : last q'.records ≡ some l'.own = ap last same' ∙ l'.is_last in
      let own : (t.record_todo == l.own.address) ≡ true = ground (arith, l.points) in
      let own' : points_to t.record_tasks l'.own.address ≡ true =
        rw l'.points (==_refl l'.own.address) in
      let laid_todo =
        one_more todo_size todo_ptr at m.queue task m.pdb_tododb.records r laid.0
          (omega (arith, l.ends)) refl small in
      let laid_tasks =
        one_more ptod_size ptod_ptr at' m.queue task m.pdb_tasks.records q laid.1
          (omega (arith, l'.ends)) refl small' in
      rw (found, found', ==_refl id, last_r, last_q, last_t, own, own', text_copied_lem e text)
        (
          refl,
          refl,
          (
            subst
                (λ rs.
                  Places todo_size todo_ptr (at + 8) (m.queue ++ (task ∷ []))
                    (shift_all_but_last 8 (rs ++ (r ∷ []))))
                (sym same) laid_todo,
            subst
                (λ rs.
                  Places ptod_size ptod_ptr (at' + 8) (m.queue ++ (task ∷ []))
                    (shift_all_but_last 8 (rs ++ (q ∷ []))))
                (sym same') laid_tasks,
          ),
        )
