-- ===== src/Tasks/ParseData.antt =====
-- __parse_taskdb_data of src/pdb/tasks.c: the data of a task in TasksDB-PTod.
use palm_sync_daemon.Base.{
  ℕ, zero, suc, ◌+◌, ◌/◌, ◌%◌, Bool, Option, none, some, List, [], ◌∷◌, length, not, ◌==◌,
  if◌then◌else◌,
}
use palm_sync_daemon.File.{Io, pure, fail, ◌>>=◌, ◌>>◌, guard, from_option, read, seek_set, tell}
use palm_sync_daemon.Pdb.Types.{Ptr}
use palm_sync_daemon.Pdb.Fields.{read8_field, read16_field}
use palm_sync_daemon.Helper.Chunks.{chunk_size, read_chunks}
use palm_sync_daemon.Memos.ReadMemos.{index_of}
use palm_sync_daemon.Tasks.Types.{
  Alarm, RepeatRange, n_days, n_weeks, n_months_by_day, n_months_by_date, n_years, Repeat,
}
use palm_sync_daemon.Tasks.Dates.{Date, no_date, unpack_date}
use palm_sync_daemon.Tasks.WriteTasks.{
  header_present, due_date_present, alarm_present, repeat_present, repeat_type,
}

-- `type & bit`, where `bit` is a power of two.
abbrev pub has_flag : ℕ → ℕ → Bool
has_flag type bit = not (type / bit % 2 == 0)

abbrev pub zero_date : Date
zero_date = record { day = 0; month = 0; year = 0 }

-- What __parse_taskdb_data sets in its temporary task.
pub record TaskData : Type 0 where
  pub header : List ℕ
  pub due : Date
  pub alarm : Option Alarm
  pub repeat : Option Repeat

-- The outcomes of calloc in __parse_taskdb_data, and in _tasks_append_task behind it.
pub record DataBuffers : Type 0 where
  pub data_buf : Option Ptr
  pub alarm_buf : Option Ptr
  pub repeat_buf : Option Ptr
  pub header_buf : Option Ptr
  pub alarm_copy : Option Ptr
  pub repeat_copy : Option Ptr

unfoldable pub read_due : ℕ → Io Date
read_due type =
    if has_flag type due_date_present
    then (do w ← read16_field; pure (unpack_date w))
    else pure zero_date

unfoldable pub read_alarm : Option Ptr → ℕ → Io (Option Alarm)
read_alarm buf type =
    if has_flag type alarm_present
    then (do
      _ ← from_option buf
      time ← read16_field
      days ← read16_field
      pure (
          some (record {
            alarm_hour = time / 256 % 256;
            alarm_minute = time % 256;
            days_earlier = days;
          })))
    else pure none

abbrev pub range_of : ℕ → Option RepeatRange
range_of w =
    if w == repeat_type n_days
    then some n_days
    else if w == repeat_type n_weeks
    then some n_weeks
    else if w == repeat_type n_months_by_day
    then some n_months_by_day
    else if w == repeat_type n_months_by_date
    then some n_months_by_date
    else if w == repeat_type n_years
    then some n_years
    else none

abbrev pub until_date : ℕ → Date
until_date w = if w == no_date then zero_date else unpack_date w

abbrev pub repeat_of : RepeatRange → Date → ℕ → Repeat
repeat_of range until interval = record {
  range = range;
  day = until.day;
  month = until.month;
  year = until.year;
  interval = interval;
}

-- lseek(fd, n, SEEK_CUR)
unfoldable pub skip_bytes : ℕ → Io (Unit {0})
skip_bytes n f = (some tt, record f { pos = f.pos + n })

unfoldable pub read_unknown : Io (Unit {0})
read_unknown = do got ← read 3; guard (length got == 3)

-- Behind the three numbers: the unknown bytes, and the switch over the type.
unfoldable pub repeat_end : (type until interval : ℕ) → Io (Option Repeat)
unfolding read_unknown
repeat_end type until interval = do
  read_unknown
  range ← from_option (range_of type)
  pure (some (repeat_of range (until_date until) interval))

unfoldable pub read_repeat_data : Io (Option Repeat)
unfolding skip_bytes repeat_end
read_repeat_data = do
  skip_bytes 2
  type ← read16_field
  until ← read16_field
  interval ← read8_field
  repeat_end type until interval

unfoldable pub read_repeat : Option Ptr → ℕ → Io (Option Repeat)
unfolding read_repeat_data
read_repeat buf type =
    if has_flag type repeat_present then (do _ ← from_option buf; read_repeat_data) else pure none

-- One turn of the loop that looks for the end of the header, as in `scan_chunk`, but the position stays.
abbrev pub size_chunk : Io ℕ → List ℕ → Option ℕ → Io ℕ
size_chunk more [] found = pure 0
size_chunk more (b ∷ bs) (some i) = pure i
size_chunk more (b ∷ bs) none = do n ← more; pure (length (b ∷ bs) + n)

unfoldable pub size_loop : (fuel : ℕ) → Io ℕ
size_loop zero = fail
size_loop (suc fuel) = do got ← read chunk_size; size_chunk (size_loop fuel) got (index_of 0 got)

unfoldable pub read_header : Option Ptr → ℕ → Io (List ℕ)
unfolding size_loop
read_header buf type =
    if has_flag type header_present
    then (do
      here ← tell
      size ← λ f. size_loop (length f.bytes + 2) f
      at ← seek_set here
      guard (at == here)
      read_chunks buf size)
    else fail

unfoldable pub parse_taskdb_data : DataBuffers → ℕ → Io TaskData
unfolding read_due read_alarm read_repeat read_header
parse_taskdb_data bufs type = do
  _ ← from_option bufs.data_buf
  due ← read_due type
  alarm ← read_alarm bufs.alarm_buf type
  repeat ← read_repeat bufs.repeat_buf type
  header ← read_header bufs.header_buf type
  pure (record { header = header; due = due; alarm = alarm; repeat = repeat })
