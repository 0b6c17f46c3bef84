-- ===== src/Tasks/WriteTasks.antt =====
-- tasks_write and _tasks_write_task of src/pdb/tasks.c, on the two files. The queue does not change, so
-- that the state is that of two calls of pdb_write: the PDB structures and the files.
pub mod Bytes
pub mod Found
pub mod Laws
use palm_sync_daemon.Base.{
  ℕ, ◌+◌, ◌*◌, ◌%◌, Bool, true, false, Option, none, some, List, [], ◌∷◌, length, ◌==◌,
  if◌then◌else◌,
}
use palm_sync_daemon.File.{File, Act, Io, pure, ◌>>=◌, ◌>>◌, guard, from_option, seek_set, rewind}
use palm_sync_daemon.File.Writes.{write_all}
use palm_sync_daemon.Pdb.Types.{Ptr, PdbRecord}
use palm_sync_daemon.Pdb.Fields.{bytes16}
use palm_sync_daemon.Pdb.WriteFile.{Opened, on_file, pdb_write}
use palm_sync_daemon.Helper.Chunks.{write_chunks}
use palm_sync_daemon.Memos.WriteMemos.{offset_of}
use palm_sync_daemon.Tasks.Types.{
  TaskPriority, priority_1, priority_2, priority_3, priority_4, priority_5, Alarm, RepeatRange,
  n_days, n_weeks, n_months_by_day, n_months_by_date, n_years, Repeat, Task,
}
use palm_sync_daemon.Tasks.Dates.{Date, is_date, pack_date}

abbrev pub header_present : ℕ
header_present = 0x08

abbrev pub note_present : ℕ
note_present = 0x04

abbrev pub due_date_present : ℕ
due_date_present = 0x80

abbrev pub alarm_present : ℕ
alarm_present = 0x20

abbrev pub repeat_present : ℕ
repeat_present = 0x10

abbrev pub due_of : Task → Date
due_of t = record { day = t.due_day; month = t.due_month; year = t.due_year }

abbrev pub until_of : Repeat → Date
until_of r = record { day = r.day; month = r.month; year = r.year }

abbrev pub priority_byte : TaskPriority → ℕ
priority_byte priority_1 = 1
priority_byte priority_2 = 2
priority_byte priority_3 = 3
priority_byte priority_4 = 4
priority_byte priority_5 = 5

abbrev pub repeat_type : RepeatRange → ℕ
repeat_type n_days = 0x0100
repeat_type n_weeks = 0x0200
repeat_type n_months_by_day = 0x0300
repeat_type n_months_by_date = 0x0400
repeat_type n_years = 0x0500

abbrev pub flag_if : {A : Type 0} → ℕ → Option A → ℕ
flag_if bit none = 0
flag_if bit (some a) = bit

-- Each bit is set once, so that `|=` adds it.
abbrev pub entry_type : Task → ℕ
entry_type t =
    header_present
    + flag_if note_present t.text
    + (if is_date (due_of t) then due_date_present else 0)
    + flag_if alarm_present t.alarm
    + flag_if repeat_present t.repeat

unfoldable pub write_note : Option (List ℕ) → Io (Unit {0})
write_note none = pure tt
write_note (some text) = write_chunks (some text) (length text)

-- The header, a NUL, the note if there is any, and a NUL.
unfoldable pub write_strings : Task → Io (Unit {0})
unfolding write_note
write_strings t = do
  write_chunks (some t.header) (length t.header)
  write_all (0 ∷ [])
  write_note t.text
  write_all (0 ∷ [])

unfoldable pub seek_record : Ptr → List PdbRecord → Io (Unit {0})
seek_record a rs = do
  offset ← from_option (offset_of a rs)
  at ← seek_set offset
  guard (at == offset)

-- To ToDoDB.
unfoldable pub write_todo : List PdbRecord → Task → Io (Unit {0})
unfolding seek_record write_strings
write_todo rs t = do
  seek_record t.record_todo rs
  write_all (bytes16 (pack_date (due_of t)))
  write_all (priority_byte t.priority ∷ [])
  write_strings t

-- The due date, where there is one.
unfoldable pub write_due : Task → Io (Unit {0})
write_due t = if is_date (due_of t) then write_all (bytes16 (pack_date (due_of t))) else pure tt

unfoldable pub write_alarm : Option Alarm → Io (Unit {0})
write_alarm none = pure tt
write_alarm (some a) = do
  write_all (bytes16 (a.alarm_hour % 256 * 256 + a.alarm_minute % 256))
  write_all (bytes16 a.days_earlier)

unfoldable pub write_repeat : Task → Option Repeat → Io (Unit {0})
unfolding write_due
write_repeat t none = pure tt
write_repeat t (some r) = do
  write_due t
  write_all (bytes16 (repeat_type r.range))
  write_all (bytes16 (pack_date (until_of r)))
  write_all (r.interval ∷ [])
  write_all (0 ∷ 0 ∷ 0 ∷ [])

-- To TasksDB-PTod.
unfoldable pub write_ptod : List PdbRecord → Task → Io (Unit {0})
unfolding seek_record write_due write_alarm write_repeat write_strings
write_ptod rs t = do
  a ← from_option t.record_tasks
  seek_record a rs
  write_all (entry_type t ∷ [])
  write_all (0 ∷ 0 ∷ 0 ∷ 0 ∷ [])
  write_all (priority_byte t.priority ∷ [])
  write_due t
  write_alarm t.alarm
  write_repeat t t.repeat
  write_strings t

-- The two files, each with its PDB structure.
pub record TasksFd : Type 0 where
  pub todo : Opened
  pub ptod : Opened

abbrev pub on_todo_end : {A : Type 0} → Opened → Option A × Opened → Option A × TasksFd
on_todo_end other (r, s) = (r, record { todo = s; ptod = other })

abbrev pub on_ptod_end : {A : Type 0} → Opened → Option A × Opened → Option A × TasksFd
on_ptod_end other (r, s) = (r, record { todo = other; ptod = s })

unfoldable pub on_todo : {A : Type 0} → Act Opened A → Act TasksFd A
on_todo c s = on_todo_end s.ptod (c s.todo)

unfoldable pub on_ptod : {A : Type 0} → Act Opened A → Act TasksFd A
on_ptod c s = on_ptod_end s.todo (c s.ptod)

unfoldable pub tasks_write_task : List PdbRecord → List PdbRecord → Task → Act TasksFd (Unit {0})
unfolding on_todo on_ptod on_file write_todo write_ptod
tasks_write_task rs qs t = do
  on_todo (on_file (write_todo rs t))
  on_ptod (on_file (write_ptod qs t))

unfoldable pub write_queue : List PdbRecord → List PdbRecord → List Task → Act TasksFd (Unit {0})
unfolding tasks_write_task
write_queue rs qs [] = pure tt
write_queue rs qs (t ∷ ts) = do tasks_write_task rs qs t; write_queue rs qs ts

unfoldable pub tasks_write : List Task → Act TasksFd (Unit {0})
unfolding on_todo on_ptod on_file write_queue
tasks_write ts = do
  on_todo (on_file rewind)
  on_ptod (on_file rewind)
  on_todo pdb_write
  on_ptod pdb_write
  λ s. write_queue s.todo.pdb.records s.ptod.pdb.records ts s
