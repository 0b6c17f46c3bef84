-- ===== src/Sync.antt =====
-- src/sync.c: the synchronisation of memos. The file is written against headers that the repository
-- no longer has (pdb_memos.h, and a PDB record with a status and a hash); the model follows the
-- text of sync.c, and takes the functions of those headers as parameters.
pub mod Status
pub mod Action
pub mod Memos
pub mod Session
pub mod Whole
mod Tests
