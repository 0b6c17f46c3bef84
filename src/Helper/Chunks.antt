-- ===== src/Helper/Chunks.antt =====
-- read_chunks and write_chunks of src/helper.c: reading and writing at most CHUNK_SIZE bytes at a
-- time until all are there. Each turn of the loop moves at least one byte, so that as much fuel as
-- there are bytes is enough.
pub mod Laws
use palm_sync_daemon.Base.{
  ℕ, zero, suc, ◌-◌, Option, List, [], ◌++◌, length, take, drop, ltb, ◌==◌, not, if◌then◌else◌,
}
use palm_sync_daemon.File.{Io, pure, fail, ◌>>=◌, ◌>>◌, guard, from_option, read, write}
use palm_sync_daemon.Pdb.Types.{Ptr}

abbrev pub chunk_size : ℕ
chunk_size = 10

abbrev pub chunk : ℕ → ℕ
chunk n = if ltb n chunk_size then n else chunk_size

unfoldable pub read_loop : (fuel n : ℕ) → Io (List ℕ)
read_loop fuel zero = pure []
read_loop zero (suc n) = fail
read_loop (suc fuel) (suc n) = do
  got ← read (chunk (suc n))
  guard (not (length got == 0))
  rest ← read_loop fuel (suc n - length got)
  pure (got ++ rest)

-- The bytes that the buffer holds afterwards; a NULL buffer is an error.
unfoldable pub read_chunks : Option Ptr → ℕ → Io (List ℕ)
unfolding read_loop
read_chunks buf n = do _ ← from_option buf; read_loop n n

unfoldable pub write_loop : (fuel : ℕ) → List ℕ → ℕ → Io (Unit {0})
write_loop fuel xs zero = pure tt
write_loop zero xs (suc n) = fail
write_loop (suc fuel) xs (suc n) = do
  written ← write (take (chunk (suc n)) xs)
  guard (not (written == 0))
  write_loop fuel (drop written xs) (suc n - written)

-- `xs` is the buffer, from which `n` bytes are written; `none` is NULL.
unfoldable pub write_chunks : Option (List ℕ) → ℕ → Io (Unit {0})
unfolding write_loop
write_chunks buf n = do xs ← from_option buf; write_loop n xs n
