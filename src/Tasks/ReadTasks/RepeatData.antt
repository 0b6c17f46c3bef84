-- ===== src/Tasks/ReadTasks/RepeatData.antt =====
-- The repetition of a task, as __parse_taskdb_data of src/pdb/tasks.c reads it.
use palm_sync_daemon.Base.{
  ℕ, ◌+◌, ◌^◌, ◌<◌, ◌≡◌, ◌≢◌, ◌⊎◌, inl, inr, ap, refl, sym, subst, true, false, Option, none, some,
  List, [], ◌∷◌, length, ◌==◌, arith,
}
use palm_sync_daemon.File.{pure, ◌>>=◌, from_option}
use palm_sync_daemon.File.Reads.{Reads, read-Reads, pure-Reads, >>=-Reads}
use palm_sync_daemon.Pdb.Types.{Ptr}
use palm_sync_daemon.Pdb.Fields.{read8_field, read16_field, read8-Reads, read16-Reads}
use palm_sync_daemon.Tasks.Types.{
  RepeatRange, n_days, n_weeks, n_months_by_day, n_months_by_date, n_years, Repeat, Task,
}
use palm_sync_daemon.Tasks.Dates.{Date, is_date, no_date, pack_date, unpack_date-back, pack_date-lt}
use palm_sync_daemon.Tasks.WriteTasks.{repeat_present, due_of, until_of, repeat_type, entry_type}
use palm_sync_daemon.Tasks.WriteTasks.Bytes.{due_bytes, repeat_bytes, RepeatsDated}
use palm_sync_daemon.Tasks.ParseData.{
  has_flag, zero_date, range_of, until_date, repeat_of, skip_bytes, repeat_end, read_unknown,
  read_repeat_data, read_repeat,
}
use palm_sync_daemon.Tasks.ReadTasks.Flags.{is_some, flags_of, DateFits, RepeatFits, same_value}

pub range_of-repeat_type : (range : RepeatRange) → range_of (repeat_type range) ≡ some range
range_of-repeat_type n_days = refl
range_of-repeat_type n_weeks = refl
range_of-repeat_type n_months_by_day = refl
range_of-repeat_type n_months_by_date = refl
range_of-repeat_type n_years = refl

pub range_then :
    {A : Type 0} (g : RepeatRange → A) (range : RepeatRange)
    → Reads (from_option (range_of (repeat_type range)) >>= λ x. pure (g x)) [] (g range)
range_then g range =
    subst (λ o. Reads (from_option o >>= λ x. pure (g x)) [] (g range))
      (sym (range_of-repeat_type range)) (pure-Reads (g range))

pub repeat_type-lt : (range : RepeatRange) → repeat_type range < 2 ^ 16
repeat_type-lt n_days = omega arith
repeat_type-lt n_weeks = omega arith
repeat_type-lt n_months_by_day = omega arith
repeat_type-lt n_months_by_date = omega arith
repeat_type-lt n_years = omega arith

pub zero_back : until_date (pack_date zero_date) ≡ zero_date
unfolding pack_date
zero_back = refl

pub until_date-back :
    (d : Date)
    → DateFits d
    → ((is_date d ≡ true) → pack_date d ≢ no_date)
    → until_date (pack_date d) ≡ d
until_date-back d (inl e) other =
    subst (λ (x : Date). until_date (pack_date x) ≡ x) (sym e) zero_back
until_date-back d (inr (real, day, month, from, to)) other =
    let not_forever : (pack_date d == no_date) ≡ false = ground (arith, other real) in
    rw not_forever (unpack_date-back d real day month from to)

-- The repetition of the due date is skipped.
pub skip_bytes-Reads : (xs : List ℕ) (n : ℕ) → length xs ≡ n → Reads (skip_bytes n) xs tt
unfolding skip_bytes
skip_bytes-Reads xs n e = record {
  run = λ f rest r h. ap (λ k. (some tt, record f { pos = f.pos + k })) (sym e);
}

pub read_unknown-Reads : Reads read_unknown (0 ∷ 0 ∷ 0 ∷ []) tt
unfolding read_unknown
read_unknown-Reads = record {
  run = λ f rest r h. rw ((read-Reads (0 ∷ 0 ∷ 0 ∷ [])).run f rest r h);
}

pub repeat_end-Reads :
    (range : RepeatRange) (until interval : ℕ)
    → Reads
        (repeat_end (repeat_type range) until interval)
        (0 ∷ 0 ∷ 0 ∷ [])
        (some (repeat_of range (until_date until) interval))
unfolding repeat_end
repeat_end-Reads range until interval =
    >>=-Reads
      (λ _. from_option (range_of (repeat_type range)) >>= λ x.
        pure (some (repeat_of x (until_date until) interval)))
      read_unknown-Reads (range_then (λ x. some (repeat_of x (until_date until) interval)) range)

pub read_repeat_data-Reads :
    (t : Task) (r : Repeat)
    → is_date (due_of t) ≡ true
    → RepeatFits (some r)
    → Reads read_repeat_data (repeat_bytes t (some r)) (some r)
unfolding read_repeat_data
read_repeat_data-Reads t r real fits =
    let until = pack_date (until_of r) in
    let two : length (due_bytes t) ≡ 2 = rw real refl in
    let same : repeat_of r.range (until_date until) r.interval ≡ r =
      ap (λ d. repeat_of r.range d r.interval) (until_date-back (until_of r) fits.0 fits.1) in
    same_value (ap some same) (
      >>=-Reads
        (λ _. read16_field >>= λ type. read16_field >>= λ u. read8_field >>= repeat_end type u)
        (skip_bytes-Reads (due_bytes t) 2 two)
        (>>=-Reads (λ type. read16_field >>= λ u. read8_field >>= repeat_end type u)
          (read16-Reads (repeat_type r.range) (repeat_type-lt r.range))
          (>>=-Reads (λ u. read8_field >>= repeat_end (repeat_type r.range) u)
            (read16-Reads until (pack_date-lt (until_of r)))
            (>>=-Reads (repeat_end (repeat_type r.range) until) (read8-Reads r.interval)
              (repeat_end-Reads r.range until r.interval)))))

pub read_repeat-Reads :
    (b : Ptr) (t : Task)
    → RepeatsDated t
    → RepeatFits t.repeat
    → Reads (read_repeat (some b) (entry_type t)) (repeat_bytes t t.repeat) t.repeat
unfolding read_repeat
read_repeat-Reads b t dated fits = by_flag t.repeat (entry_type t) dated fits ((flags_of t).2)
  where
    by_flag :
        (repeat : Option Repeat) (type : ℕ)
        → (repeat ≡ none) ⊎ (is_date (due_of t) ≡ true)
        → RepeatFits repeat
        → has_flag type repeat_present ≡ is_some repeat
        → Reads (read_repeat (some b) type) (repeat_bytes t repeat) repeat
    by_flag none type dated fits flag = rw flag (pure-Reads none)
    by_flag (some r) type (inl e) fits flag = absurd cc
    by_flag (some r) type (inr real) fits flag = rw flag (read_repeat_data-Reads t r real fits)
