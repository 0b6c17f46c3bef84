-- ===== src/Pdb.antt =====
-- src/pdb/pdb.c and src/include/pdb/pdb.h: the low-level access to PDB files.
pub mod Fields
pub mod Types
pub mod Time
pub mod ReadFile
pub mod WriteFile
pub mod Image
pub mod RoundTrip
pub mod Records
pub mod Categories
pub mod Places
pub mod Tests
