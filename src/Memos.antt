-- ===== src/Memos.antt =====
-- src/pdb/memos.c and src/include/pdb/memos.h: the memos of a PDB file.
pub mod Types
pub mod Find
pub mod Edit
pub mod Delete
pub mod Change
pub mod Layout
pub mod WriteMemos
pub mod ReadMemos
pub mod RoundTrip
pub mod Files
mod Tests
