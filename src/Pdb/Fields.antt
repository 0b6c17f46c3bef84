-- ===== src/Pdb/Fields.antt =====
-- The fixed-width fields of src/pdb/pdb.c: _read8_field, _read16_field, _read32_field and their
-- _write counterparts. All numbers in a file are big-endian. The tracing of offsets, which the
-- debug level of the log turns on, moves nothing and is left out.
use palm_sync_daemon.Base.{
  ℕ, ◌+◌, ◌*◌, ◌/◌, ◌%◌, ◌^◌, ◌<◌, Option, none, some, List, [], ◌∷◌, length, ap, arith,
}
use palm_sync_daemon.File.{Io, ◌>>=◌, from_option, read}
use palm_sync_daemon.File.Keeps.{Keeps, read-Keeps, from_option-Keeps, >>=-Keeps}
use palm_sync_daemon.File.Reads.{Reads, skip, read-Reads}
use palm_sync_daemon.File.Writes.{Writes, write_all, write_all-Writes}

-- be16toh and be32toh of what read(2) has put into the buffer; a short read is an error.
byte_of : List ℕ → Option ℕ
byte_of (a ∷ []) = some a
byte_of _ = none

be16 : List ℕ → Option ℕ
be16 (a ∷ b ∷ []) = some (a * 256 + b)
be16 _ = none

be32 : List ℕ → Option ℕ
be32 (a ∷ b ∷ c ∷ d ∷ []) = some (a * 2 ^ 24 + b * 2 ^ 16 + c * 256 + d)
be32 _ = none

pub read8_field : Io ℕ
unfolding byte_of
read8_field = read 1 >>= λ xs. from_option (byte_of xs)

pub read16_field : Io ℕ
unfolding be16
read16_field = read 2 >>= λ xs. from_option (be16 xs)

pub read32_field : Io ℕ
unfolding be32
read32_field = read 4 >>= λ xs. from_option (be32 xs)

-- The bytes of htobe16 and htobe32.
abbrev pub bytes16 : ℕ → List ℕ
bytes16 v = (v / 256 % 256) ∷ (v % 256) ∷ []

abbrev pub bytes32 : ℕ → List ℕ
bytes32 v = (v / 2 ^ 24 % 256) ∷ (v / 2 ^ 16 % 256) ∷ (v / 256 % 256) ∷ (v % 256) ∷ []

pub write8_field : ℕ → Io (Unit {0})
write8_field v = write_all (v ∷ [])

pub write16_field : ℕ → Io (Unit {0})
write16_field v = write_all (bytes16 v)

pub write32_field : ℕ → Io (Unit {0})
write32_field v = write_all (bytes32 v)

pub read8-Reads : (v : ℕ) → Reads read8_field (v ∷ []) v
unfolding read8_field
read8-Reads v = record { run = λ f rest r h. rw ((read-Reads (v ∷ [])).run f rest r h) }

pub read16-Reads : (v : ℕ) → v < 2 ^ 16 → Reads read16_field (bytes16 v) v
unfolding read16_field
read16-Reads v w = record {
  run = λ f rest r h.
      rw ((read-Reads (bytes16 v)).run f rest r h)
        (ap (λ n. (some n, skip (length (bytes16 v)) f)) (omega arith));
}

pub read32-Reads : (v : ℕ) → v < 2 ^ 32 → Reads read32_field (bytes32 v) v
unfolding read32_field
read32-Reads v w = record {
  run = λ f rest r h.
      rw ((read-Reads (bytes32 v)).run f rest r h)
        (ap (λ n. (some n, skip (length (bytes32 v)) f)) (omega arith));
}

pub write8-Writes : (v : ℕ) → Writes (write8_field v) (v ∷ [])
unfolding write8_field
write8-Writes v = write_all-Writes v []

pub write16-Writes : (v : ℕ) → Writes (write16_field v) (bytes16 v)
unfolding write16_field
write16-Writes v = write_all-Writes _ _

pub write32-Writes : (v : ℕ) → Writes (write32_field v) (bytes32 v)
unfolding write32_field
write32-Writes v = write_all-Writes _ _

pub read8-Keeps : Keeps read8_field
unfolding read8_field
read8-Keeps = >>=-Keeps (read-Keeps 1) (λ xs. from_option-Keeps (byte_of xs))

pub read16-Keeps : Keeps read16_field
unfolding read16_field
read16-Keeps = >>=-Keeps (read-Keeps 2) (λ xs. from_option-Keeps (be16 xs))

pub read32-Keeps : Keeps read32_field
unfolding read32_field
read32-Keeps = >>=-Keeps (read-Keeps 4) (λ xs. from_option-Keeps (be32 xs))
