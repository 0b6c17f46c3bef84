-- ===== src/Tasks/Change/DueFits.antt =====
-- The change of a due date in src/pdb/tasks.c, where it moves the records by what the size changes.
use palm_sync_daemon.Base.{
  ℕ, ◌-◌, ◌^◌, ◌≡◌, ◌≢◌, ◌⊎◌, inl, inr, refl, sym, ap, true, false, Option, none, some, Bool-cases,
  if◌then◌else◌, arith,
}
use palm_sync_daemon.Tasks.Types.{Repeat, Task}
use palm_sync_daemon.Tasks.Dates.{Date, is_date}
use palm_sync_daemon.Tasks.WriteTasks.{due_of, flag_if}
use palm_sync_daemon.Tasks.Sizes.{ptod_size}
use palm_sync_daemon.Tasks.Change.{no_due, with_date, due_change}
use palm_sync_daemon.Tasks.Change.Moves.{IsFitting}
use palm_sync_daemon.Tasks.Change.Fits.{FitsTo}

-- The due date that tasks_task_set_due leaves: none, if there is a zero in the one that is given.
abbrev pub given : Date → Date
given d = if is_date d then d else record { day = 0; month = 0; year = 0 }

-- A due date is there with all its parts or with none.
abbrev pub DueWhole : Task → Type 0
DueWhole t = (no_due t ≡ true) ⊎ (is_date (due_of t) ≡ true)

pub none_before-not_date : (t : Task) → no_due t ≡ true → is_date (due_of t) ≡ false
none_before-not_date t h = ground arith

pub date-not_none_before : (t : Task) → is_date (due_of t) ≡ true → no_due t ≡ false
date-not_none_before t h = ground arith

pub cleared :
    (t : Task) → no_due t ≡ true → with_date (record { day = 0; month = 0; year = 0 }) t ≡ t
cleared t h = ground arith

-- The date comes, and the repeat interval takes it up as well.
pub comes :
    (t : Task) (d : Date) (repeat : Option Repeat)
    → t.repeat ≡ repeat
    → is_date d ≡ true
    → no_due t ≡ true
    → (repeat ≢ none) ⊎ (is_date d ≡ is_date (due_of t))
    → IsFitting t (record { new = with_date d t; delta = flag_if 2 repeat })
comes t d none e real before (inl other) = absurd (other refl)
comes t d none e real before (inr same) = let not_date = none_before-not_date t before in absurd cc
comes t d (some r) e real before right = record {
  todo_same = refl;
  tasks_same = refl;
  todo_size_same = refl;
  wraps = 0;
  still = λ z. absurd (omega arith);
  grows = omega (
    arith,
    ap {B = ℕ} (λ b. if b then 2 else 0) real,
    ap {B = ℕ} (λ b. if b then 2 else 0) (none_before-not_date t before),
  );
}

-- The date goes.
pub goes :
    (t : Task) (d : Date) (repeat : Option Repeat)
    → t.repeat ≡ repeat
    → is_date d ≡ false
    → is_date (due_of t) ≡ true
    → (repeat ≢ none) ⊎ (is_date d ≡ is_date (due_of t))
    → IsFitting t (record {
      new = with_date (record { day = 0; month = 0; year = 0 }) t;
      delta = flag_if (2 ^ 32 - 2) repeat;
    })
goes t d none e not_real before (inl other) = absurd (other refl)
goes t d none e not_real before (inr same) = absurd cc
goes t d (some r) e not_real before right = record {
  todo_same = refl;
  tasks_same = refl;
  todo_size_same = refl;
  wraps = 1;
  still = λ z. absurd (omega arith);
  grows = omega (arith, ap {B = ℕ} (λ b. if b then 2 else 0) before);
}

pub stays :
    (t : Task) (d : Date)
    → is_date d ≡ true
    → is_date (due_of t) ≡ true
    → IsFitting t (record { new = with_date d t; delta = 0 })
stays t d real before =
    let same : ptod_size (with_date d t) ≡ ptod_size t = omega (
      arith,
      ap {B = ℕ} (λ b. if b then 2 else 0) real,
      ap {B = ℕ} (λ b. if b then 2 else 0) before,
    ) in
    record {
      todo_same = refl;
      tasks_same = refl;
      todo_size_same = refl;
      wraps = 0;
      still = λ _. same;
      grows = omega (arith, same);
    }

pub due_change-fits :
    (t : Task) (d : Date)
    → DueWhole t
    → (t.repeat ≢ none) ⊎ (is_date d ≡ is_date (due_of t))
    → FitsTo t (with_date (given d) t) (some (due_change t d))
due_change-fits t d (inl before) right = elim (Bool-cases (is_date d)) [
  | inl real ↦ (
    record { new = with_date d t; delta = flag_if 2 t.repeat },
    rw (real, before) refl,
    rw real refl,
    comes t d t.repeat refl real before right,
  )
  | inr not_real ↦ (
    record { new = t; delta = 0 },
    rw (not_real, before) refl,
    rw not_real (sym (cleared t before)),
    record {
      todo_same = refl;
      tasks_same = refl;
      todo_size_same = refl;
      wraps = 0;
      still = λ _. refl;
      grows = omega arith;
    },
  )
]
due_change-fits t d (inr before) right =
    let some_due = date-not_none_before t before in
    elim (Bool-cases (is_date d)) [
      | inl real ↦ (
        record { new = with_date d t; delta = 0 },
        rw (real, some_due) refl,
        rw real refl,
        stays t d real before,
      )
      | inr not_real ↦ (
        record {
          new = with_date (record { day = 0; month = 0; year = 0 }) t;
          delta = flag_if (2 ^ 32 - 2) t.repeat;
        },
        rw (not_real, some_due) refl,
        rw not_real refl,
        goes t d t.repeat refl not_real before right,
      )
    ]
