-- ===== src/Helper.antt =====
-- src/helper.c: the helpers that the modules for PDB files share.
pub mod Chunks
pub mod Copy
pub mod Previous
mod Tests
