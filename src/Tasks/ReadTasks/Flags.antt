-- ===== src/Tasks/ReadTasks/Flags.antt =====
-- The flags of the entry type, the due date and the alarm, as __parse_taskdb_data of src/pdb/tasks.c reads them.
use palm_sync_daemon.Base.{
  ℕ, ◌+◌, ◌*◌, ◌/◌, ◌%◌, ◌^◌, ◌≤◌, ◌<◌, ◌≡◌, ◌≢◌, ◌⊎◌, inl, inr, ap, refl, sym, subst, Bool, true,
  false, Option, none, some, List, [], if◌then◌else◌, arith,
}
use palm_sync_daemon.File.{Io}
use palm_sync_daemon.File.Reads.{Reads, pure-Reads, >>=-Reads, map-Reads}
use palm_sync_daemon.Pdb.Types.{Ptr}
use palm_sync_daemon.Pdb.Fields.{bytes16, read16-Reads}
use palm_sync_daemon.Tasks.Types.{Alarm, Repeat, Task}
use palm_sync_daemon.Tasks.Dates.{
  Date, is_date, no_date, pack_date, unpack_date, unpack_date-back, pack_date-lt,
}
use palm_sync_daemon.Tasks.WriteTasks.{
  header_present, note_present, due_date_present, alarm_present, repeat_present, due_of, until_of,
  flag_if, entry_type,
}
use palm_sync_daemon.Tasks.WriteTasks.Bytes.{due_bytes, alarm_bytes}
use palm_sync_daemon.Tasks.ParseData.{has_flag, zero_date, read_due, read_alarm}

-- The flags of the type byte are those of the parts.
abbrev pub type_sum : {A B C : Type 0} → Option A → Bool → Option B → Option C → ℕ
type_sum text real alarm repeat =
    header_present
    + flag_if note_present text
    + (if real then due_date_present else 0)
    + flag_if alarm_present alarm
    + flag_if repeat_present repeat

abbrev pub is_some : {A : Type 0} → Option A → Bool
is_some none = false
is_some (some a) = true

pub flags :
    {A B C : Type 0} (text : Option A) (real : Bool) (alarm : Option B) (repeat : Option C)
    → (has_flag (type_sum text real alarm repeat) due_date_present ≡ real)
      × (has_flag (type_sum text real alarm repeat) alarm_present ≡ is_some alarm)
      × (has_flag (type_sum text real alarm repeat) repeat_present ≡ is_some repeat)
      × (has_flag (type_sum text real alarm repeat) header_present ≡ true)
flags none true none none = (refl, refl, refl, refl)
flags none true none (some c) = (refl, refl, refl, refl)
flags none true (some b) none = (refl, refl, refl, refl)
flags none true (some b) (some c) = (refl, refl, refl, refl)
flags none false none none = (refl, refl, refl, refl)
flags none false none (some c) = (refl, refl, refl, refl)
flags none false (some b) none = (refl, refl, refl, refl)
flags none false (some b) (some c) = (refl, refl, refl, refl)
flags (some a) true none none = (refl, refl, refl, refl)
flags (some a) true none (some c) = (refl, refl, refl, refl)
flags (some a) true (some b) none = (refl, refl, refl, refl)
flags (some a) true (some b) (some c) = (refl, refl, refl, refl)
flags (some a) false none none = (refl, refl, refl, refl)
flags (some a) false none (some c) = (refl, refl, refl, refl)
flags (some a) false (some b) none = (refl, refl, refl, refl)
flags (some a) false (some b) (some c) = (refl, refl, refl, refl)

pub flags_of :
    (t : Task)
    → (has_flag (entry_type t) due_date_present ≡ is_date (due_of t))
      × (has_flag (entry_type t) alarm_present ≡ is_some t.alarm)
      × (has_flag (entry_type t) repeat_present ≡ is_some t.repeat)
      × (has_flag (entry_type t) header_present ≡ true)
flags_of t = flags t.text (is_date (due_of t)) t.alarm t.repeat

-- A date that the sixteen bits can hold, or none at all.
abbrev pub DateFits : Date → Type 0
DateFits d =
    (d ≡ zero_date)
    ⊎ ((is_date d ≡ true) × (d.day < 32) × (d.month < 16) × (1904 ≤ d.year) × (d.year < 2032))

abbrev pub AlarmFits : Option Alarm → Type 0
AlarmFits none = Unit
AlarmFits (some a) = (a.alarm_hour < 256) × (a.alarm_minute < 256) × (a.days_earlier < 2 ^ 16)

-- The end of a repetition must not look like "forever".
abbrev pub RepeatFits : Option Repeat → Type 0
RepeatFits none = Unit
RepeatFits (some r) =
    DateFits (until_of r) × ((is_date (until_of r) ≡ true) → pack_date (until_of r) ≢ no_date)

pub read_due-Reads :
    (t : Task) → DateFits (due_of t) → Reads (read_due (entry_type t)) (due_bytes t) (due_of t)
unfolding read_due
read_due-Reads t (inl e) =
    let not_real : is_date (due_of t) ≡ false = ap is_date e in
    rw ((flags_of t).0, not_real) (subst (Reads _ []) (sym e) (pure-Reads zero_date))
read_due-Reads t (inr (real, day, month, from, to)) =
    rw ((flags_of t).0, real)
      (subst (Reads _ (bytes16 (pack_date (due_of t))))
        (unpack_date-back (due_of t) real day month from to)
        (map-Reads unpack_date (read16-Reads (pack_date (due_of t)) (pack_date-lt (due_of t)))))

pub same_value :
    {A : Type 0} {m : Io A} {xs : List ℕ} {a b : A} → a ≡ b → Reads m xs a → Reads m xs b
same_value {m} {xs} e p = subst (Reads m xs) e p

pub read_alarm-Reads :
    (b : Ptr) (type : ℕ) (alarm : Option Alarm)
    → has_flag type alarm_present ≡ is_some alarm
    → AlarmFits alarm
    → Reads (read_alarm (some b) type) (alarm_bytes alarm) alarm
unfolding read_alarm
read_alarm-Reads b type none flag fits = rw flag (pure-Reads none)
read_alarm-Reads b type (some a) flag fits =
    let time = a.alarm_hour % 256 * 256 + a.alarm_minute % 256 in
    let same : (record {
      alarm_hour = time / 256 % 256;
      alarm_minute = time % 256;
      days_earlier = a.days_earlier;
    })
        ≡ a =
      ground arith in
    rw flag (
      same_value (ap some same) (
        >>=-Reads _ (read16-Reads time (omega arith)) (
          map-Reads
            (λ days. some (record {
              alarm_hour = time / 256 % 256;
              alarm_minute = time % 256;
              days_earlier = days;
            }))
            (read16-Reads a.days_earlier fits.2))))
