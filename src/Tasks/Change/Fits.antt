-- ===== src/Tasks/Change/Fits.antt =====
-- The changes of an alarm and of a repetition in src/pdb/tasks.c move the records by what the size changes.
use palm_sync_daemon.Base.{◌-◌, ◌^◌, ◌≡◌, refl, ap, Option, none, some, arith}
use palm_sync_daemon.Pdb.Types.{Ptr}
use palm_sync_daemon.Tasks.Types.{Alarm, Repeat, Task}
use palm_sync_daemon.Tasks.WriteTasks.{flag_if}
use palm_sync_daemon.Tasks.Change.{TaskChange, with_alarm, alarm_change, with_repeat, repeat_change}
use palm_sync_daemon.Tasks.Change.Moves.{IsFitting}

-- A change that fits, with the new value that it gives.
abbrev pub FitsTo : Task → Task → Option TaskChange → Type 0
FitsTo t t' o = (c : TaskChange) × (o ≡ some c) × (c.new ≡ t') × IsFitting t c

pub alarm_change-fits :
    (p : Ptr) (t : Task) (old alarm : Option Alarm)
    → t.alarm ≡ old
    → FitsTo t (record t { alarm = alarm }) (alarm_change (some p) t old alarm)
alarm_change-fits p t none none e = (
  record { new = t; delta = 0 },
  refl,
  ap (λ o. record t { alarm = o }) e,
  record {
    todo_same = refl;
    tasks_same = refl;
    todo_size_same = refl;
    wraps = 0;
    still = λ _. refl;
    grows = omega arith;
  },
)
alarm_change-fits p t (some old) none e = (
  with_alarm t none (2 ^ 32 - 4),
  refl,
  refl,
  record {
    todo_same = refl;
    tasks_same = refl;
    todo_size_same = refl;
    wraps = 1;
    still = λ z. absurd (omega arith);
    grows = omega (arith, ap (flag_if 4) e);
  },
)
alarm_change-fits p t none (some a) e = (
  with_alarm t (some a) 4,
  refl,
  refl,
  record {
    todo_same = refl;
    tasks_same = refl;
    todo_size_same = refl;
    wraps = 0;
    still = λ z. absurd (omega arith);
    grows = omega (arith, ap (flag_if 4) e);
  },
)
alarm_change-fits p t (some old) (some a) e = (
  with_alarm t (some a) 0,
  refl,
  refl,
  record {
    todo_same = refl;
    tasks_same = refl;
    todo_size_same = refl;
    wraps = 0;
    still = λ z. omega (arith, ap (flag_if 4) e);
    grows = omega (arith, ap (flag_if 4) e);
  },
)

pub repeat_change-fits :
    (p : Ptr) (t : Task) (old repeat : Option Repeat)
    → t.repeat ≡ old
    → FitsTo t (record t { repeat = repeat }) (repeat_change (some p) t old repeat)
repeat_change-fits p t none none e = (
  record { new = t; delta = 0 },
  refl,
  ap (λ o. record t { repeat = o }) e,
  record {
    todo_same = refl;
    tasks_same = refl;
    todo_size_same = refl;
    wraps = 0;
    still = λ _. refl;
    grows = omega arith;
  },
)
repeat_change-fits p t (some old) none e = (
  with_repeat t none (2 ^ 32 - 10),
  refl,
  refl,
  record {
    todo_same = refl;
    tasks_same = refl;
    todo_size_same = refl;
    wraps = 1;
    still = λ z. absurd (omega arith);
    grows = omega (arith, ap (flag_if 10) e);
  },
)
repeat_change-fits p t none (some r) e = (
  with_repeat t (some r) 10,
  refl,
  refl,
  record {
    todo_same = refl;
    tasks_same = refl;
    todo_size_same = refl;
    wraps = 0;
    still = λ z. absurd (omega arith);
    grows = omega (arith, ap (flag_if 10) e);
  },
)
repeat_change-fits p t (some old) (some r) e = (
  with_repeat t (some r) 0,
  refl,
  refl,
  record {
    todo_same = refl;
    tasks_same = refl;
    todo_size_same = refl;
    wraps = 0;
    still = λ z. omega (arith, ap (flag_if 10) e);
    grows = omega (arith, ap (flag_if 10) e);
  },
)
