-- ===== src/Libc.antt =====
-- What the program uses of the C library for strings, sorting and searching.
pub mod Strings
pub mod SortSearch
pub mod Insertion
