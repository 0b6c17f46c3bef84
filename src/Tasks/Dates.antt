-- ===== src/Tasks/Dates.antt =====
-- The packed dates of src/pdb/tasks.c, in __parse_taskdb_data and _tasks_write_task: seven bits of the
-- year from 1904 on, four of the month and five of the day. The fields do not overlap, so that `|`
-- adds them; a mask keeps a remainder.
use palm_sync_daemon.Base.{
  ℕ, ◌+◌, ◌-◌, ◌*◌, ◌/◌, ◌%◌, ◌^◌, ◌≤◌, ◌<◌, ◌≡◌, true, Bool, ◌&&◌, not, ◌==◌, if◌then◌else◌, arith,
}

pub record Date : Type 0 where
  pub day : ℕ
  pub month : ℕ
  pub year : ℕ

-- `day && month && year`
abbrev pub is_date : Date → Bool
is_date d = not (d.day == 0) && (not (d.month == 0) && not (d.year == 0))

abbrev pub no_date : ℕ
no_date = 0xffff

-- 2 ^ 16 is a multiple of 128, so that years before 1904 wrap as in the code.
abbrev pub pack_fields : Date → ℕ
pack_fields d = (d.year + 2 ^ 16 - 1904) % 128 * 512 + d.month % 16 * 32 + d.day % 32

unfoldable pub pack_date : Date → ℕ
pack_date d = if is_date d then pack_fields d else no_date

abbrev pub unpack_date : ℕ → Date
unpack_date w = record { day = w % 32; month = w / 32 % 16; year = w / 512 % 128 + 1904 }

pub pack_date-lt : (d : Date) → pack_date d < 2 ^ 16
unfolding pack_date
pack_date-lt d = ground arith

-- A date packed into 16 bits is unpacked to the same day and month, and to the year modulo 128
-- from 1904 on, if no field is 0, the day is below 32, the month below 16 and the year not before
-- 1904.
pub unpack_date-pack_date :
    (d : Date)
    → is_date d ≡ true
    → d.day < 32
    → d.month < 16
    → 1904 ≤ d.year
    → d.year < 2 ^ 16
    → unpack_date (pack_date d) ≡ record d { year = 1904 + (d.year - 1904) % 128 }
unfolding pack_date
unpack_date-pack_date d real day month from to = rw real (ground arith)

pub unpack_date-back :
    (d : Date)
    → is_date d ≡ true
    → d.day < 32
    → d.month < 16
    → 1904 ≤ d.year
    → d.year < 2032
    → unpack_date (pack_date d) ≡ d
unfolding pack_date
unpack_date-back d real day month from to = rw real (ground arith)

pub pack_date-unpack_date :
    (w : ℕ) → w < 2 ^ 16 → is_date (unpack_date w) ≡ true → pack_date (unpack_date w) ≡ w
unfolding pack_date
pack_date-unpack_date w h real = rw real (omega arith)
