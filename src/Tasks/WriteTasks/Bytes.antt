-- ===== src/Tasks/WriteTasks/Bytes.antt =====
-- The bytes of a task in the two files of src/pdb/tasks.c, and their number.
use palm_sync_daemon.Base.{
  ℕ, ◌+◌, ◌*◌, ◌%◌, ◌≡◌, ◌⊎◌, inl, inr, refl, true, Option, none, some, List, [], ◌∷◌, ◌++◌, length,
  length-append, Bool-cases, if◌then◌else◌, arith,
}
use palm_sync_daemon.File.Writes.{Writes, write_all-Writes, pure-Writes, >>-Writes}
use palm_sync_daemon.Pdb.Fields.{bytes16}
use palm_sync_daemon.Helper.Chunks.Laws.{write_chunks-Writes}
use palm_sync_daemon.Tasks.Types.{Alarm, Repeat, Task}
use palm_sync_daemon.Tasks.Dates.{is_date, pack_date}
use palm_sync_daemon.Tasks.Sizes.{note_size, strings_size, todo_size, ptod_size}
use palm_sync_daemon.Tasks.WriteTasks.{
  due_of, until_of, priority_byte, repeat_type, entry_type, write_note, write_strings, flag_if,
  write_due, write_alarm, write_repeat,
}

abbrev pub note_bytes : Option (List ℕ) → List ℕ
note_bytes none = []
note_bytes (some text) = text

abbrev pub strings_bytes : Task → List ℕ
strings_bytes t = t.header ++ ((0 ∷ []) ++ (note_bytes t.text ++ (0 ∷ [])))

abbrev pub todo_bytes : Task → List ℕ
todo_bytes t =
    bytes16 (pack_date (due_of t)) ++ ((priority_byte t.priority ∷ []) ++ strings_bytes t)

abbrev pub due_bytes : Task → List ℕ
due_bytes t = if is_date (due_of t) then bytes16 (pack_date (due_of t)) else []

abbrev pub alarm_bytes : Option Alarm → List ℕ
alarm_bytes none = []
alarm_bytes (some a) =
    bytes16 (a.alarm_hour % 256 * 256 + a.alarm_minute % 256) ++ bytes16 a.days_earlier

abbrev pub repeat_bytes : Task → Option Repeat → List ℕ
repeat_bytes t none = []
repeat_bytes t (some r) =
    due_bytes t
    ++ (bytes16 (repeat_type r.range)
        ++ (bytes16 (pack_date (until_of r)) ++ ((r.interval ∷ []) ++ (0 ∷ 0 ∷ 0 ∷ []))))

abbrev pub ptod_bytes : Task → List ℕ
ptod_bytes t =
    (entry_type t ∷ [])
    ++ ((0 ∷ 0 ∷ 0 ∷ 0 ∷ [])
        ++ ((priority_byte t.priority ∷ [])
            ++ (due_bytes t
                ++ (alarm_bytes t.alarm ++ (repeat_bytes t t.repeat ++ strings_bytes t)))))

-- The bytes of all tasks, in one of the two forms.
abbrev pub all_bytes : (Task → List ℕ) → List Task → List ℕ
all_bytes bytes [] = []
all_bytes bytes (t ∷ ts) = bytes t ++ all_bytes bytes ts

pub write_note-Writes : (text : Option (List ℕ)) → Writes (write_note text) (note_bytes text)
unfolding write_note
write_note-Writes none = pure-Writes
write_note-Writes (some text) = write_chunks-Writes text (length text) refl

pub write_strings-Writes : (t : Task) → Writes (write_strings t) (strings_bytes t)
unfolding write_strings
write_strings-Writes t = >>-Writes (write_chunks-Writes t.header (length t.header) refl) (
    >>-Writes (write_all-Writes 0 [])
      (>>-Writes (write_note-Writes t.text) (write_all-Writes 0 [])))

pub write_due-Writes : (t : Task) → Writes (write_due t) (due_bytes t)
unfolding write_due
write_due-Writes t = elim (Bool-cases (is_date (due_of t))) [
  | inl real ↦ rw real (write_all-Writes _ _)
  | inr other ↦ rw other pure-Writes
]

pub write_alarm-Writes : (a : Option Alarm) → Writes (write_alarm a) (alarm_bytes a)
unfolding write_alarm
write_alarm-Writes none = pure-Writes
write_alarm-Writes (some a) = >>-Writes (write_all-Writes _ _) (write_all-Writes _ _)

pub write_repeat-Writes :
    (t : Task) (r : Option Repeat) → Writes (write_repeat t r) (repeat_bytes t r)
unfolding write_repeat
write_repeat-Writes t none = pure-Writes
write_repeat-Writes t (some r) = >>-Writes (write_due-Writes t) (
    >>-Writes (write_all-Writes _ _)
      (>>-Writes (write_all-Writes _ _) (>>-Writes (write_all-Writes _ _) (write_all-Writes _ _))))

-- The number of the bytes is the size that the code counts; in TasksDB-PTod that needs a due date where
-- the task repeats.
abbrev pub RepeatsDated : Task → Type 0
RepeatsDated t = (t.repeat ≡ none) ⊎ (is_date (due_of t) ≡ true)

pub length-strings_bytes : (t : Task) → length (strings_bytes t) ≡ strings_size t
length-strings_bytes t = omega (
  arith,
  length-append t.header ((0 ∷ []) ++ (note_bytes t.text ++ (0 ∷ []))),
  length-append (note_bytes t.text) (0 ∷ []),
  note t.text,
)
  where
    note : (text : Option (List ℕ)) → length (note_bytes text) ≡ note_size text
    note none = refl
    note (some text) = refl

pub length-todo_bytes : (t : Task) → length (todo_bytes t) ≡ todo_size t
length-todo_bytes t = omega (arith, length-strings_bytes t)

pub length-due_bytes : (t : Task) → length (due_bytes t) ≡ (if is_date (due_of t) then 2 else 0)
length-due_bytes t = elim (Bool-cases (is_date (due_of t))) [
  | inl real ↦ rw real refl
  | inr other ↦ rw other refl
]

pub length-alarm_bytes : (a : Option Alarm) → length (alarm_bytes a) ≡ flag_if 4 a
length-alarm_bytes none = refl
length-alarm_bytes (some a) = refl

pub length-repeat_bytes :
    (t : Task) (r : Option Repeat)
    → (r ≡ none) ⊎ (is_date (due_of t) ≡ true)
    → length (repeat_bytes t r) ≡ flag_if 10 r
length-repeat_bytes t none h = refl
length-repeat_bytes t (some r) (inl e) = absurd cc
length-repeat_bytes t (some r) (inr real) = rw real refl

pub length-ptod_bytes : (t : Task) → RepeatsDated t → length (ptod_bytes t) ≡ ptod_size t
length-ptod_bytes t h =
    let due = due_bytes t in
    let alarm = alarm_bytes t.alarm in
    let repeat = repeat_bytes t t.repeat in
    omega (
      arith,
      length-append due (alarm ++ (repeat ++ strings_bytes t)),
      length-append alarm (repeat ++ strings_bytes t),
      length-append repeat (strings_bytes t),
      length-due_bytes t,
      length-alarm_bytes t.alarm,
      length-repeat_bytes t t.repeat h,
      length-strings_bytes t,
    )
