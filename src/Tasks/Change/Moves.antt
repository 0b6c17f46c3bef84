-- ===== src/Tasks/Change/Moves.antt =====
-- The records of TasksDB-PTod behind a changed task, for src/pdb/tasks.c: how they move keeps the layout.
use palm_sync_daemon.Base.{
  ℕ, ◌+◌, ◌*◌, ◌^◌, ◌<◌, ◌≡◌, ◌∙◌, inl, inr, refl, sym, ap, subst, true, false, Option, none, some,
  List, [], ◌∷◌, ◌++◌, map, All, ◌==◌, ==_iff, ==_refl, Bool-cases, arith,
}
use palm_sync_daemon.File.{and_then}
use palm_sync_daemon.Pdb.Types.{Ptr, PdbRecord}
use palm_sync_daemon.Pdb.Places.{
  Places, places_end, places_end-append, Places-Split, Places-append, Places-move, move_by, Apart,
  DistinctRecords, Distinct-before,
}
use palm_sync_daemon.Tasks.Types.{Task, Tasks, task_at}
use palm_sync_daemon.Tasks.ReadTasks.{replace_task}
use palm_sync_daemon.Tasks.Sizes.{todo_size, ptod_size, todo_ptr, ptod_ptr}
use palm_sync_daemon.Tasks.Layout.{Laid, task_at-split}
use palm_sync_daemon.Tasks.Change.{move_behind, moved_records, TaskChange, change_task}

pub move_behind-middle :
    (d : ℕ) (before : List PdbRecord) (own : PdbRecord) (behind : List PdbRecord)
    → All (Apart own) before
    → move_behind own.address d (before ++ (own ∷ behind))
      ≡ before ++ (own ∷ map (move_by d) behind)
move_behind-middle d [] own behind h = rw (==_refl own.address)
move_behind-middle d (r ∷ before) own behind h =
    let other : (r.address == own.address) ≡ false = ground (arith, h.0.0) in
    rw (other, ap (◌∷◌ r) (move_behind-middle d before own behind h.1))

-- One task becomes another whose size is the old one plus `d`, and the records behind it move by `d`.
module _ (size : Task → ℕ) (ptr : Task → Option Ptr) where
  pub change_Places :
      (at : ℕ) (front : List Task) (t t' : Task) (back : List Task) (rs : List PdbRecord)
      (d wraps : ℕ)
      → Places size ptr at (front ++ (t ∷ back)) rs
      → DistinctRecords rs
      → ptr t' ≡ ptr t
      → size t + d ≡ size t' + wraps * 2 ^ 32
      → places_end size at (front ++ (t' ∷ back)) < 2 ^ 32
      → (a : Ptr) × (ptr t' ≡ some a)
        × Places size ptr at (front ++ (t' ∷ back)) (move_behind a d rs)
  change_Places at front t t' back rs d wraps p distinct same_ptr grows small =
      let s = Places-Split size ptr at front t back rs p in
      let apart =
        Distinct-before s.before s.own s.behind (subst DistinctRecords s.whole distinct) in
      let moved : move_behind s.own.address d rs ≡ s.before ++ (s.own ∷ map (move_by d) s.behind) =
        ap (move_behind s.own.address d) s.whole
        ∙ move_behind-middle d s.before s.own s.behind apart in
      let end = places_end-append size at front (t' ∷ back) in
      (
        s.own.address,
        same_ptr ∙ s.here.points_to,
        subst (Places size ptr at (front ++ (t' ∷ back))) (sym moved) (
            Places-append size ptr at front (t' ∷ back) s.before (s.own ∷ map (move_by d) s.behind)
              s.in_front
              (
                record { offset_is = s.here.offset_is; points_to = same_ptr ∙ s.here.points_to },
                Places-move size ptr (places_end size at front + size t)
                    (places_end size at front + size t') d wraps back s.behind s.at_back
                    (omega (arith, grows)) (omega (arith, end)),
              )),
      )

  -- A change that moves nothing.
  pub keep_Places :
      (at : ℕ) (front : List Task) (t t' : Task) (back : List Task) (rs : List PdbRecord)
      → Places size ptr at (front ++ (t ∷ back)) rs
      → ptr t' ≡ ptr t
      → size t' ≡ size t
      → Places size ptr at (front ++ (t' ∷ back)) rs
  keep_Places at front t t' back rs p same_ptr same =
      let s = Places-Split size ptr at front t back rs p in
      subst (Places size ptr at (front ++ (t' ∷ back))) (sym s.whole) (
        Places-append size ptr at front (t' ∷ back) s.before (s.own ∷ s.behind) s.in_front (
          record { offset_is = s.here.offset_is; points_to = same_ptr ∙ s.here.points_to },
          subst (λ n. Places size ptr (places_end size at front + n) back s.behind) (sym same)
              s.at_back,
        ))

-- What a change has to be for the layout to stay right: the records behind move by what the size in
-- TasksDB-PTod changes by, and in ToDoDB the size stays.
pub record IsFitting (t : Task) (c : TaskChange) : Type 0 where
  pub todo_same : c.new.record_todo ≡ t.record_todo
  pub tasks_same : c.new.record_tasks ≡ t.record_tasks
  pub todo_size_same : todo_size c.new ≡ todo_size t
  pub wraps : ℕ
  pub still : c.delta ≡ 0 → ptod_size c.new ≡ ptod_size t
  pub grows : ptod_size t + c.delta ≡ ptod_size c.new + wraps * 2 ^ 32

-- A change with the new value in place of the old one, and the layout right again.
abbrev pub Changed : (at at' : ℕ) → Ptr → Task → Tasks → Option (Unit {0}) × Tasks → Type 0
Changed at at' a t' m r =
    (r.0 ≡ some tt) × ((r.1).queue ≡ replace_task a t' m.queue) × Laid at at' r.1

abbrev pub after_change : Ptr → Task → List PdbRecord → Tasks → Tasks
after_change a t' records m = record m {
  pdb_tasks = record (m.pdb_tasks) { records = records };
  queue = replace_task a t' m.queue;
}

pub moves_none :
    (d : ℕ) (o : Option Ptr) (b : Ptr) (rs : List PdbRecord)
    → o ≡ some b
    → (d == 0) ≡ true
    → moved_records d o rs ≡ some rs
moves_none d none b rs e zero_d = absurd cc
moves_none d (some a) b rs e zero_d = rw zero_d

pub moves_behind :
    (d : ℕ) (o : Option Ptr) (b : Ptr) (rs : List PdbRecord)
    → o ≡ some b
    → (d == 0) ≡ false
    → moved_records d o rs ≡ some (move_behind b d rs)
moves_behind d none b rs e other = absurd cc
moves_behind d (some a) b rs e other =
    let same : a ≡ b = cc in rw other (ap (λ x. some (move_behind x d rs)) same)

pub change_task_lem :
    (a : Ptr) (c : TaskChange) (m : Tasks) (records : List PdbRecord)
    → moved_records c.delta c.new.record_tasks m.pdb_tasks.records ≡ some records
    → change_task a c m ≡ (some tt, after_change a c.new records m)
unfolding change_task
change_task_lem a c m records e =
    ap (λ o. and_then (o, m) (λ rs (s : Tasks). (some tt, after_change a c.new rs s))) e

pub change_task-Laid :
    (at at' : ℕ) (a : Ptr) (t : Task) (c : TaskChange) (m : Tasks)
    → Laid at at' m
    → DistinctRecords m.pdb_tasks.records
    → task_at a m.queue ≡ some t
    → IsFitting t c
    → places_end ptod_size at' (replace_task a c.new m.queue) < 2 ^ 32
    → Changed at at' a c.new m (change_task a c m)
change_task-Laid at at' a t c m laid distinct there fit small =
    let s = task_at-split a t m.queue there in
    let replaced = s.replaced c.new in
    let rs = m.pdb_tasks.records in
    let todo =
      keep_Places todo_size todo_ptr at s.front t c.new s.back m.pdb_tododb.records
        (subst (λ ts. Places todo_size todo_ptr at ts m.pdb_tododb.records) s.whole laid.0)
        (ap some fit.todo_same) fit.todo_size_same in
    let tasks = subst (λ ts. Places ptod_size ptod_ptr at' ts rs) s.whole laid.1 in
    let todo' =
      subst (λ ts. Places todo_size todo_ptr at ts m.pdb_tododb.records) (sym replaced) todo in
    let (b, points, moved) =
      change_Places ptod_size ptod_ptr at' s.front t c.new s.back rs c.delta fit.wraps tasks
        distinct fit.tasks_same fit.grows
        (subst (λ ts. places_end ptod_size at' ts < 2 ^ 32) replaced small) in
    elim (Bool-cases (c.delta == 0)) [
      | inl zero_delta ↦
          (let kept =
              keep_Places ptod_size ptod_ptr at' s.front t c.new s.back rs tasks fit.tasks_same
                (fit.still ((==_iff _ _).0 zero_delta)) in
            subst (Changed at at' a c.new m)
              (sym (
                change_task_lem a c m rs
                  (moves_none c.delta c.new.record_tasks b rs points zero_delta)))
              (
                refl,
                refl,
                (todo', subst (λ ts. Places ptod_size ptod_ptr at' ts rs) (sym replaced) kept),
              ))
      | inr other ↦
          subst (Changed at at' a c.new m)
            (sym (
              change_task_lem a c m (move_behind b c.delta rs)
                (moves_behind c.delta c.new.record_tasks b rs points other)))
            (
              refl,
              refl,
              (
                todo',
                subst (λ ts. Places ptod_size ptod_ptr at' ts (move_behind b c.delta rs))
                    (sym replaced) moved,
              ),
            )
    ]
