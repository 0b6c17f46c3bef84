-- ===== src/File.antt =====
-- An open file descriptor of a regular file: what the kernel keeps for the calls lseek(2), read(2)
-- and write(2), which src/pdb/pdb.c, src/pdb/memos.c and src/helper.c make. The file holds `room`
-- bytes at most, as a full device or a size limit of the process allows; beyond that a write is
-- short or fails. On a descriptor that is not open for reading, read(2) fails.
pub mod Overwrite
pub mod Monad
pub mod Reads
pub mod Writes
pub mod Ensures
pub mod Keeps
unfoldable pub use Overwrite.*
unfoldable pub use Monad.*
