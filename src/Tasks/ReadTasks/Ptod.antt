-- ===== src/Tasks/ReadTasks/Ptod.antt =====
-- What __parse_taskdb_data of src/pdb/tasks.c gets from the bytes of a task in TasksDB-PTod.
use palm_sync_daemon.Base.{ℕ, ◌+◌, ◌≡◌, ◌≢◌, true, some, List, ◌∷◌, ◌++◌, length, All}
use palm_sync_daemon.File.{File}
use palm_sync_daemon.File.Reads.{ahead, skip, ahead-skip}
use palm_sync_daemon.Pdb.Types.{Ptr}
use palm_sync_daemon.Tasks.Types.{Task}
use palm_sync_daemon.Tasks.WriteTasks.{due_of, entry_type}
use palm_sync_daemon.Tasks.WriteTasks.Bytes.{due_bytes, alarm_bytes, repeat_bytes, RepeatsDated}
use palm_sync_daemon.Tasks.ParseData.{TaskData, DataBuffers, parse_taskdb_data}
use palm_sync_daemon.Tasks.ReadTasks.Flags.{
  flags_of, DateFits, AlarmFits, RepeatFits, read_due-Reads, read_alarm-Reads,
}
use palm_sync_daemon.Tasks.ReadTasks.RepeatData.{read_repeat-Reads}
use palm_sync_daemon.Tasks.ReadTasks.HeaderData.{read_header-gets}

-- What a task has in TasksDB-PTod, in the form of the parser.
abbrev pub data_of : Task → TaskData
data_of t = record { header = t.header; due = due_of t; alarm = t.alarm; repeat = t.repeat }

-- What the fields can hold.
pub record PtodFits (t : Task) : Type 0 where
  pub due_fits : DateFits (due_of t)
  pub alarm_fits : AlarmFits t.alarm
  pub repeat_fits : RepeatFits t.repeat
  pub repeats_dated : RepeatsDated t
  pub header_text : All (λ x. x ≢ 0) t.header

abbrev pub data_buffers : Ptr → Ptr → Ptr → Ptr → Ptr → Ptr → DataBuffers
data_buffers a b c d e f = record {
  data_buf = some a;
  alarm_buf = some b;
  repeat_buf = some c;
  header_buf = some d;
  alarm_copy = some e;
  repeat_copy = some f;
}

pub parse-gets :
    (a b c d e f : Ptr) (t : Task) (rest : List ℕ) (file : File)
    → PtodFits t
    → file.readable ≡ true
    → ahead file
      ≡ due_bytes t
        ++ (alarm_bytes t.alarm ++ (repeat_bytes t t.repeat ++ (t.header ++ (0 ∷ rest))))
    → (k : ℕ) × (parse_taskdb_data (data_buffers a b c d e f) (entry_type t) file
        ≡ (some (data_of t), record file { pos = k }))
unfolding parse_taskdb_data
parse-gets a b c d e f t rest file fits readable there =
    let due = due_bytes t in
    let alarm = alarm_bytes t.alarm in
    let repeat = repeat_bytes t t.repeat in
    let file1 = skip (length due) file in
    let file2 = skip (length alarm) file1 in
    let file3 = skip (length repeat) file2 in
    let tail3 = t.header ++ (0 ∷ rest) in
    let tail2 = repeat ++ tail3 in
    let tail1 = alarm ++ tail2 in
    let there1 = ahead-skip file due tail1 there in
    let there2 = ahead-skip file1 alarm tail2 there1 in
    let there3 = ahead-skip file2 repeat tail3 there2 in
    (
      file3.pos + length t.header,
      rw (
        (read_due-Reads t fits.due_fits).run file tail1 readable there,
        (read_alarm-Reads b (entry_type t) t.alarm (flags_of t).1 fits.alarm_fits).run file1 tail2
            readable there1,
        (read_repeat-Reads c t fits.repeats_dated fits.repeat_fits).run file2 tail3 readable there2,
        read_header-gets d (entry_type t) t.header rest file3 (flags_of t).3 fits.header_text
            readable there3,
      ),
    )
