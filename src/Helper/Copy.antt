-- ===== src/Helper/Copy.antt =====
-- _cp of src/helper.c: a file copied in pieces. The state of its loops is a state machine that moves on
-- by the outcome of the next call of read(2) or write(2), which may move fewer bytes than asked for.
pub mod Holds
pub mod Progress
pub mod Laws
use palm_sync_daemon.Base.{
  ℕ, suc, min, Bool, true, false, Option, none, some, List, [], ◌∷◌, ◌++◌, take, drop, ◌&&◌,
  if◌then◌else◌,
}
use Prim.Native.Nat.{Ordering, lt, eq, gt}
use palm_sync_daemon.Libc.Strings.{strcmp}

abbrev pub copy_buffer_length : ℕ
copy_buffer_length = 4096

-- `moves n`: n + 1 bytes, or as many as there are. A call that moves no byte of a write changes nothing,
-- like one that is interrupted.
pub data Outcome : Type 0 where
  moves : (n : ℕ) → Outcome
  interrupted fails : Outcome

-- In front of a read, in the inner loop with bytes left in the buffer, and behind the loops: with
-- `readed` 0, or on the way to cp_error. `rest` is the source behind the position.
pub data CopyState : Type 0 where
  reading : (rest target : List ℕ) → CopyState
  writing : (chunk rest target : List ℕ) → CopyState
  ended : (whole : Bool) (target : List ℕ) → CopyState

-- The position in the target is its end.
abbrev pub after_read : (got rest target : List ℕ) → CopyState
after_read [] rest target = ended true target
after_read (b ∷ bs) rest target = writing (b ∷ bs) rest target

abbrev pub after_write : (left rest target : List ℕ) → CopyState
after_write [] rest target = reading rest target
after_write (b ∷ bs) rest target = writing (b ∷ bs) rest target

-- A write that a signal interrupts is made again; a read is not.
abbrev pub copy_step : Outcome → CopyState → CopyState
copy_step (moves n) (reading rest target) =
    after_read (take (min (suc n) copy_buffer_length) rest)
      (drop (min (suc n) copy_buffer_length) rest) target
copy_step interrupted (reading rest target) = ended false target
copy_step fails (reading rest target) = ended false target
copy_step (moves n) (writing chunk rest target) =
    after_write (drop (suc n) chunk) rest (target ++ take (suc n) chunk)
copy_step interrupted (writing chunk rest target) = writing chunk rest target
copy_step fails (writing chunk rest target) = ended false target
copy_step o (ended whole target) = ended whole target

abbrev pub copy_loop : List Outcome → CopyState → CopyState
copy_loop [] s = s
copy_loop (o ∷ os) s = copy_loop os (copy_step o s)

abbrev pub target_of : CopyState → List ℕ
target_of (reading rest target) = target
target_of (writing chunk rest target) = target
target_of (ended whole target) = target

-- The files of the system by their paths.
abbrev pub Files : Type 0
Files = List ℕ → Option (List ℕ)

abbrev pub is_eq : Ordering → Bool
is_eq lt = false
is_eq eq = true
is_eq gt = false

abbrev pub same_path : List ℕ → List ℕ → Bool
same_path p q = is_eq (strcmp p q)

unfoldable pub put_file : (path bytes : List ℕ) → Files → Files
put_file path bytes fs p = if same_path p path then some bytes else fs p

-- How the calls of _cp end.
pub record CopyCalls : Type 0 where
  pub to_opens : Bool
  pub outcomes : List Outcome
  pub to_closes : Bool
  pub from_closes : Bool

-- The result 0 takes all bytes and both calls of close.
abbrev pub copy_result : CopyCalls → CopyState → Option (Unit {0})
copy_result calls (reading rest target) = none
copy_result calls (writing chunk rest target) = none
copy_result calls (ended whole target) =
    if whole && (calls.to_closes && calls.from_closes) then some tt else none

abbrev pub copied : CopyCalls → (to : List ℕ) → CopyState → Files → Option (Unit {0}) × Files
copied calls to s fs = (copy_result calls s, put_file to (target_of s) fs)

abbrev pub start_of : Option (List ℕ) → CopyState
start_of none = ended false []
start_of (some source) = reading source []

-- open with O_TRUNC empties the target first.
abbrev pub truncated_copy : CopyCalls → (from to : List ℕ) → Files → Option (Unit {0}) × Files
truncated_copy calls from to fs = copied calls to (copy_loop calls.outcomes (start_of (fs from))) fs

abbrev pub cp_opened :
    CopyCalls → (from to : List ℕ) → Option (List ℕ) → Files → Option (Unit {0}) × Files
cp_opened calls from to none fs = (none, fs)
cp_opened calls from to (some source) fs =
    if calls.to_opens then truncated_copy calls from to (put_file to [] fs) else (none, fs)

-- `none` is -1, or that the outcomes end before the call does.
unfoldable pub cp : CopyCalls → (from to : List ℕ) → Files → Option (Unit {0}) × Files
cp calls from to fs = cp_opened calls from to (fs from) fs
