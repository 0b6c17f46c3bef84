-- ===== src/Tasks.antt =====
-- src/pdb/tasks.c and src/include/pdb/tasks.h: the tasks of two PDB files, ToDoDB and TasksDB-PTod.
pub mod Types
pub mod Dates
pub mod Sizes
pub mod WriteTasks
pub mod Find
pub mod ParseData
pub mod ReadTasks
pub mod RoundTrip
pub mod Files
pub mod Layout
pub mod Add
pub mod Change
pub mod Delete
mod Tests
