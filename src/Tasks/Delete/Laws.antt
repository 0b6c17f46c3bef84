-- ===== src/Tasks/Delete/Laws.antt =====
-- The layout of the tasks under tasks_task_delete of src/pdb/tasks.c.
use palm_sync_daemon.Base.{
  ℕ, ◌+◌, ◌^◌, ◌<◌, ◌≡◌, ◌∙◌, refl, sym, ap, subst, false, Option, some, List, [], ◌∷◌, ◌++◌, map,
  All, ◌==◌, ==_refl, Bool-cases, inl, inr, arith,
}
use palm_sync_daemon.Pdb.Types.{Ptr, PdbRecord, Pdb}
use palm_sync_daemon.Pdb.Records.{
  id_of_long, has_id, remove_record, with_removed, pdb_record_delete, pdb_record_get_unique_id,
}
use palm_sync_daemon.Pdb.Places.{
  Places, places_end, places_end-ge, places_end-add, places_end-append, Places-Split, Places-append,
  Apart, DistinctRecords, Distinct-before,
}
use palm_sync_daemon.Memos.Delete.{pull_by}
use palm_sync_daemon.Memos.Delete.Laws.{IdFits, has_own_id, id_of_bytes}
use palm_sync_daemon.Tasks.Types.{Task, Tasks, on_tododb, on_tasksdb, task_at}
use palm_sync_daemon.Tasks.Sizes.{todo_size, ptod_size, todo_ptr, ptod_ptr}
use palm_sync_daemon.Tasks.Layout.{Laid, task_at-split}
use palm_sync_daemon.Tasks.Delete.{pull_around, record_of, remove_task, take_out, tasks_task_delete}

module _ (size : Task → ℕ) (ptr : Task → Option Ptr) where
  pull_Places :
      (at d : ℕ) (ts : List Task) (rs : List PdbRecord)
      → Places size ptr (at + d) ts rs
      → places_end size (at + d) ts < 2 ^ 32
      → Places size ptr at ts (map (pull_by d) rs)
  pull_Places at d [] [] p h = tt
  pull_Places at d [] (r ∷ rs) p h = elim p [ ]
  pull_Places at d (t ∷ ts) [] p h = elim p [ ]
  pull_Places at d (t ∷ ts) (r ∷ rs) p h =
      let swapped : at + d + size t ≡ at + size t + d = omega arith in
      (
        record {
          offset_is = omega (arith, p.0.offset_is, places_end-ge size (at + d + size t) ts);
          points_to = p.0.points_to;
        },
        pull_Places (at + size t) d ts rs (subst (λ n. Places size ptr n ts rs) swapped p.1)
            (subst (λ n. places_end size n ts < 2 ^ 32) swapped h),
      )

pull_around-middle :
    (f b : ℕ) (before : List PdbRecord) (own : PdbRecord) (behind : List PdbRecord)
    → All (Apart own) before
    → pull_around own.address f b (before ++ (own ∷ behind))
      ≡ map (pull_by f) before ++ (own ∷ map (pull_by b) behind)
pull_around-middle f b [] own behind h = rw (==_refl own.address)
pull_around-middle f b (r ∷ before) own behind h =
    let other : (r.address == own.address) ≡ false = ground (arith, h.0.0) in
    rw (other, ap (◌∷◌ (pull_by f r)) (pull_around-middle f b before own behind h.1))

record_of-middle :
    (before : List PdbRecord) (own : PdbRecord) (behind : List PdbRecord)
    → All (Apart own) before
    → record_of own.address (before ++ (own ∷ behind)) ≡ some own
record_of-middle [] own behind h = rw (==_refl own.address)
record_of-middle (r ∷ before) own behind h =
    let other : (r.address == own.address) ≡ false = ground (arith, h.0.0) in
    rw (other, record_of-middle before own behind h.1)

unique_id-lt : (r : PdbRecord) → pdb_record_get_unique_id r < 2 ^ 24
unique_id-lt r = omega arith

remove_record-middle :
    (f : ℕ) (before : List PdbRecord) (own : PdbRecord) (behind : List PdbRecord)
    → All (Apart own) before
    → IdFits own
    → remove_record
        (id_of_long (pdb_record_get_unique_id own))
        (map (pull_by f) before ++ (own ∷ behind))
      ≡ some (map (pull_by f) before ++ behind)
unfolding remove_record
remove_record-middle f [] own behind h fits = rw (has_own_id own fits)
remove_record-middle f (r ∷ before) own behind h fits =
    let id = id_of_long (pdb_record_get_unique_id own) in
    elim (Bool-cases (has_id id (pull_by f r))) [
      | inl same ↦
          absurd (
            h.0.1
              (id_of_bytes (pdb_record_get_unique_id own) (pull_by f r) (unique_id-lt own) same))
      | inr other ↦ rw (other, remove_record-middle f before own behind h.1 fits)
    ]

-- In one file: the record is found, and without it, the others moved, the tasks left are laid out again.
module _ (size : Task → ℕ) (ptr : Task → Option Ptr) where
  pub record TakenOut (base : ℕ) (front : List Task) (t : Task) (back : List Task)
      (rs : List PdbRecord) : Type 0 where
    pub own : PdbRecord
    pub points : ptr t ≡ some own.address
    pub found : record_of own.address rs ≡ some own
    pub left : List PdbRecord
    pub gone :
        remove_record
          (id_of_long (pdb_record_get_unique_id own))
          (pull_around own.address 8 (size t + 8) rs)
        ≡ some left
    pub laid : Places size ptr base (front ++ back) left

  take_out-Places :
      (base : ℕ) (front : List Task) (t : Task) (back : List Task) (rs : List PdbRecord)
      → Places size ptr (base + 8) (front ++ (t ∷ back)) rs
      → DistinctRecords rs
      → All IdFits rs
      → places_end size (base + 8) (front ++ (t ∷ back)) < 2 ^ 32
      → TakenOut base front t back rs
  take_out-Places base front t back rs p distinct fits small =
      let s = Places-Split size ptr (base + 8) front t back rs p in
      let apart =
        Distinct-before s.before s.own s.behind (subst DistinctRecords s.whole distinct) in
      let ids = own_fits s.before s.own s.behind (subst (All IdFits) s.whole fits) in
      let end = places_end-append size (base + 8) front (t ∷ back) in
      let here = places_end-add size base 8 front in
      let pulled = map (pull_by 8) s.before in
      let behind = map (pull_by (size t + 8)) s.behind in
      let at_back : places_end size (base + 8) front + size t
          ≡ places_end size base front + (size t + 8) =
        omega (arith, here) in
      record {
        own = s.own;
        points = s.here.points_to;
        found =
            ap (record_of s.own.address) s.whole ∙ record_of-middle s.before s.own s.behind apart;
        left = pulled ++ behind;
        gone =
            ap
              (λ qs.
                remove_record (id_of_long (pdb_record_get_unique_id s.own))
                  (pull_around s.own.address 8 (size t + 8) qs))
              s.whole
            ∙ ap (remove_record (id_of_long (pdb_record_get_unique_id s.own)))
                (pull_around-middle 8 (size t + 8) s.before s.own s.behind apart)
            ∙ remove_record-middle 8 s.before s.own behind apart ids;
        laid =
            Places-append size ptr base front back pulled behind
              (pull_Places size ptr base 8 front s.before s.in_front (
                omega
                  (arith, end, places_end-ge size (places_end size (base + 8) front) (t ∷ back))))
              (pull_Places size ptr (places_end size base front) (size t + 8) back s.behind
                (subst (λ n. Places size ptr n back s.behind) at_back s.at_back)
                (subst (λ n. places_end size n back < 2 ^ 32) at_back (omega (arith, end))));
      }
    where
      own_fits :
          (before : List PdbRecord) (own : PdbRecord) (behind : List PdbRecord)
          → All IdFits (before ++ (own ∷ behind))
          → IdFits own
      own_fits [] own behind h = h.0
      own_fits (r ∷ before) own behind h = own_fits before own behind h.1

abbrev without : List PdbRecord → Pdb → Pdb
without rs p = (with_removed (some rs) p).1

delete_steps :
    (a b : Ptr) (t : Task) (r q : PdbRecord) (rs qs : List PdbRecord) (m : Tasks)
    → task_at a m.queue ≡ some t
    → t.record_tasks ≡ some b
    → record_of t.record_todo m.pdb_tododb.records ≡ some r
    → record_of b m.pdb_tasks.records ≡ some q
    → remove_record
        (id_of_long (pdb_record_get_unique_id r))
        (pull_around t.record_todo 8 (todo_size t + 8) m.pdb_tododb.records)
      ≡ some rs
    → remove_record
        (id_of_long (pdb_record_get_unique_id q))
        (pull_around b 8 (ptod_size t + 8) m.pdb_tasks.records)
      ≡ some qs
    → tasks_task_delete (some a) m ≡ (
      some tt,
      record {
        pdb_tododb = without rs m.pdb_tododb;
        pdb_tasks = without qs m.pdb_tasks;
        queue = remove_task t.record_todo m.queue;
      },
    )
unfolding tasks_task_delete take_out on_tododb on_tasksdb pdb_record_delete
delete_steps a b t r q rs qs m there points found found' gone gone' =
    rw (there, points, found, found', gone, gone') refl

-- tasks_task_delete of a task in the queue succeeds, takes out the task and its two records, and
-- the tasks left have the layout again in both files, moved by the eight bytes of the record list
-- item, where the layout was right, records are distinct with IDs that fit, and offsets fit in 32
-- bits.
pub tasks_task_delete-Layout :
    (base base' : ℕ) (a : Ptr) (t : Task) (m : Tasks)
    → Laid (base + 8) (base' + 8) m
    → task_at a m.queue ≡ some t
    → DistinctRecords m.pdb_tododb.records
    → DistinctRecords m.pdb_tasks.records
    → All IdFits m.pdb_tododb.records
    → All IdFits m.pdb_tasks.records
    → places_end todo_size (base + 8) m.queue < 2 ^ 32
    → places_end ptod_size (base' + 8) m.queue < 2 ^ 32
    → let (r, m') = tasks_task_delete (some a) m in
      (r ≡ some tt) × (m'.queue ≡ remove_task a m.queue) × Laid base base' m'
tasks_task_delete-Layout base base' a t m laid there distinct distinct' fits fits' small small' =
    let s = task_at-split a t m.queue there in
    let o =
      take_out-Places todo_size todo_ptr base s.front t s.back m.pdb_tododb.records
        (subst (λ ts. Places todo_size todo_ptr (base + 8) ts m.pdb_tododb.records) s.whole laid.0)
        distinct fits (subst (λ ts. places_end todo_size (base + 8) ts < 2 ^ 32) s.whole small) in
    let o' =
      take_out-Places ptod_size ptod_ptr base' s.front t s.back m.pdb_tasks.records
        (subst (λ ts. Places ptod_size ptod_ptr (base' + 8) ts m.pdb_tasks.records) s.whole laid.1)
        distinct' fits'
        (subst (λ ts. places_end ptod_size (base' + 8) ts < 2 ^ 32) s.whole small') in
    let left : s.front ++ s.back ≡ remove_task t.record_todo m.queue =
      sym (ap (λ n. remove_task n m.queue) s.address ∙ s.removed) in
    let own : t.record_todo ≡ o.own.address = cc (o.points) in
    let steps =
      delete_steps a o'.own.address t o.own o'.own o.left o'.left m there o'.points
        (ap (λ n. record_of n m.pdb_tododb.records) own ∙ o.found) o'.found
        (ap
            (λ n.
              remove_record (id_of_long (pdb_record_get_unique_id o.own))
                (pull_around n 8 (todo_size t + 8) m.pdb_tododb.records))
            own
          ∙ o.gone)
        o'.gone in
    subst
      (λ (x : Option (Unit {0}) × Tasks).
        (x.0 ≡ some tt) × ((x.1).queue ≡ remove_task a m.queue) × Laid base base' x.1)
      (sym steps)
      (
        refl,
        ap (λ n. remove_task n m.queue) s.address,
        (
          subst (λ ts. Places todo_size todo_ptr base ts o.left) left o.laid,
          subst (λ ts. Places ptod_size ptod_ptr base' ts o'.left) left o'.laid,
        ),
      )
