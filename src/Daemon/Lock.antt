-- ===== src/Daemon/Lock.antt =====
-- _process_lock, _process_init, _process_on_exit_actions and _process_unlock of src/palm-sync-daemon.c,
-- for any number of processes whose calls come in any order. How a call ends is part of the step.
pub mod Laws
pub mod Stale
use palm_sync_daemon.Base.{ℕ, Bool, true, false, List, [], ◌∷◌, ◌==◌, if◌then◌else◌}

-- How far a process is: in front of _process_lock; with the lock file just created; behind
-- _process_lock; behind _process_setup_sig_handler; behind atexit; and at its end.
pub data Phase : Type 0 where
  starting opened locked handled running gone : Phase

-- The next call of a process and whether it succeeds. `quits` is the end by exit or by return, `killed`
-- an end without the functions for the exit.
pub data Event : Type 0 where
  opens writes_pid sets_handlers sets_exit : (ok : Bool) → Event
  quits killed : Event

pub record World : Type 0 where
  pub lock_file : Bool
  pub phase : ℕ → Phase

abbrev pub set_phase : ℕ → Phase → (ℕ → Phase) → ℕ → Phase
set_phase p x phases q = if q == p then x else phases q

-- A process moves on, and the lock file is there behind it or not.
abbrev pub moved_to : ℕ → Phase → (lock_file : Bool) → World → World
moved_to p x lock_file w = record { lock_file = lock_file; phase = set_phase p x w.phase }

-- open with O_EXCL; where the file is there already, the process ends. Another error of open is the event
-- `opens false`, and the process ends too.
abbrev pub open_lock : ℕ → (lock_file : Bool) → World → World
open_lock p true w = moved_to p gone true w
open_lock p false w = moved_to p opened true w

-- What the process is at, and what comes. A call that is not the next one changes nothing. Only where
-- the process ID cannot be written, and at an exit behind atexit, the file is removed.
abbrev pub step_of : ℕ → Phase → Event → World → World
step_of p starting (opens true) w = open_lock p w.lock_file w
step_of p starting (opens false) w = moved_to p gone w.lock_file w
step_of p opened (writes_pid true) w = moved_to p locked w.lock_file w
step_of p opened (writes_pid false) w = moved_to p gone false w
step_of p locked (sets_handlers true) w = moved_to p handled w.lock_file w
step_of p locked (sets_handlers false) w = moved_to p gone w.lock_file w
step_of p handled (sets_exit true) w = moved_to p running w.lock_file w
step_of p handled (sets_exit false) w = moved_to p gone w.lock_file w
step_of p running quits w = moved_to p gone false w
step_of p _ killed w = moved_to p gone w.lock_file w
step_of p _ _ w = w

abbrev pub step : ℕ → Event → World → World
step p e w = step_of p (w.phase p) e w

-- Steps of several processes in a row.
abbrev pub run : List (ℕ × Event) → World → World
run [] w = w
run (s ∷ ss) w = run ss (step s.0 s.1 w)

abbrev pub first_world : World
first_world = record { lock_file = false; phase = λ p. starting }

-- Between the creation of the file and the end.
abbrev pub holds : Phase → Bool
holds starting = false
holds opened = true
holds locked = true
holds handled = true
holds running = true
holds gone = false
