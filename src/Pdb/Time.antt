-- ===== src/Pdb/Time.antt =====
-- _time_palm_to_unix and _time_unix_to_palm of src/pdb/pdb.c: seconds since 1904 against seconds
-- since 1970, each kept in a uint32_t field.
use palm_sync_daemon.Base.{ℕ, ◌+◌, ◌-◌, ◌%◌, ◌^◌, ◌<◌, ◌≡◌, arith, ltb, if◌then◌else◌}
use palm_sync_daemon.Pdb.Types.{Pdb}

abbrev pub pdb_mac_unix_epoch_start_diff : ℕ
pdb_mac_unix_epoch_start_diff = 2082844800

-- The subtraction is one of unsigned 32-bit numbers, and wraps.
unfoldable pub time_palm_to_unix : ℕ → ℕ
time_palm_to_unix time =
    let result = (time + 2 ^ 32 - pdb_mac_unix_epoch_start_diff) % 2 ^ 32 in
    if ltb time pdb_mac_unix_epoch_start_diff then 0 else result

unfoldable pub time_unix_to_palm : ℕ → ℕ
time_unix_to_palm time = (time + pdb_mac_unix_epoch_start_diff) % 2 ^ 32

-- The three conversions at the end of pdb_read and at the start of pdb_write.
abbrev pub times_to_unix : Pdb → Pdb
times_to_unix p = record p {
  ctime = time_palm_to_unix p.ctime;
  mtime = time_palm_to_unix p.mtime;
  btime = time_palm_to_unix p.btime;
}

abbrev pub times_to_palm : Pdb → Pdb
times_to_palm p = record p {
  ctime = time_unix_to_palm p.ctime;
  mtime = time_unix_to_palm p.mtime;
  btime = time_unix_to_palm p.btime;
}

-- A 32-bit Unix time survives the conversion to Palm time and back if it lies before the end of
-- the Palm epoch in 2040; a later one comes back as 0.
pub palm_to_unix-unix_to_palm :
    (t : ℕ)
    → t < 2 ^ 32
    → time_palm_to_unix (time_unix_to_palm t)
      ≡ (if ltb (t + pdb_mac_unix_epoch_start_diff) (2 ^ 32) then t else 0)
unfolding time_palm_to_unix time_unix_to_palm
palm_to_unix-unix_to_palm t h = ground arith

-- A Palm time survives the conversion to Unix time and back if it is not before 1970; an earlier
-- one comes back as the start of 1970.
pub unix_to_palm-palm_to_unix :
    (t : ℕ)
    → t < 2 ^ 32
    → time_unix_to_palm (time_palm_to_unix t)
      ≡ (if ltb t pdb_mac_unix_epoch_start_diff then pdb_mac_unix_epoch_start_diff else t)
unfolding time_palm_to_unix time_unix_to_palm
unix_to_palm-palm_to_unix t h = ground arith
