-- ===== src/Lib.antt =====
-- palm-sync-daemon synchronises the memos of a Palm handheld with an OrgMode file. It downloads the
-- PDB files of the handheld, reads them (src/pdb/pdb.c), decides record by record from the flags,
-- the previous synchronisation and the notes of the OrgMode file what is to be done (src/sync.c),
-- does it, and writes the files back.
--
-- Parts and files:
-- * Base holds the shared names: Boolean tests on native numbers (Base/Tests), lists (Base/Lists),
--   and the bit masks of a byte as arithmetic (Base/Bits).
-- * Libc is what the program uses of the C library. Libc/Strings: strlen and strcmp on byte lists.
--   Libc/SortSearch: qsort and bsearch, a record of operations with what the C standard says of
--   them; Libc/Insertion is one that fulfils it, for the examples.
-- * File is an open descriptor of a regular file: the bytes, the position, a bound `room` on the
--   size, so that a write can be short or fail, and whether reading is allowed. File/Monad has read,
--   write and lseek and the two ways in which the code strings fallible calls together;
--   File/Reads and File/Writes say what a call reads or writes, in a form that composes, File/Keeps which
--   calls only move, and File/Overwrite what stays when the middle of a file is written.
-- * Pdb is src/pdb/pdb.c with the structures of src/include/pdb/pdb.h (Pdb/Types). Pdb/Fields:
--   _read8_field to _write32_field. Pdb/Time: the two conversions of times. Pdb/ReadFile: pdb_read,
--   _read_record_list, _read_categories. Pdb/WriteFile: pdb_write, _write_record_list,
--   _write_categories. Pdb/ReadFile/Garbage says which entries of the categories
--   _read_categories removes. Pdb/Image is the format of the file as a function to bytes, the reference for
--   both; Pdb/RoundTrip joins them. Pdb/Records: pdb_record_create, pdb_record_create_with_id,
--   pdb_record_delete, pdb_record_get_unique_id. Pdb/Categories: the four pdb_category functions.
-- * Helper is src/helper.c. Helper/Chunks: read_chunks and write_chunks. Helper/Copy: _cp, a state
--   machine that moves on by the outcomes of read and write, on the files of the system as a function
--   from paths to bytes. Helper/Previous: check_previous_pdbs and save_as_previous_pdbs with their helpers.
-- * Memos is src/pdb/memos.c. Memos/Types: Memo and Memos. Memos/Find: memos_memo_get. Memos/Edit:
--   memos_memo_add. Memos/Delete: memos_memo_delete. Memos/Change: memos_memo_edit.
--   Memos/WriteMemos: memos_write and _memos_write_memo.
--   Memos/ReadMemos: memos_read and _memos_read_memo; Memos/RoundTrip joins reading and writing for one
--   memo, Memos/Files for the file. Memos/Layout says where the memos stand in the file; iconv is a parameter.
-- * Tasks is src/pdb/tasks.c on its two files, ToDoDB and TasksDB-PTod. Tasks/Types: Task and Tasks.
--   Tasks/Dates: the dates packed into 16 bits. Tasks/Sizes: the sizes that the code counts.
--   Tasks/WriteTasks: tasks_write and _tasks_write_task. Tasks/ReadTasks: tasks_read,
--   _tasks_read_task and _tasks_append_task; Tasks/ParseData: __parse_taskdb_data; Tasks/RoundTrip and Tasks/Files join
--   reading and writing. Tasks/Find: tasks_task_get. Tasks/Add: tasks_task_add. Tasks/Change:
--   tasks_task_set_due, tasks_task_set_alarm, tasks_task_set_repeat and tasks_task_edit. Tasks/Delete:
--   tasks_task_delete. Tasks/Layout says where the tasks stand in both files, in the words of
--   Pdb/Places, which knows of neither memos nor tasks.
-- * Sync is src/sync.c. Sync/Status: _compute_record_statuses, and in Sync/Status/Table the table of
--   docs/tex/technical_description.tex. Sync/Action: _compute_action_for_record. Sync/Memos: the two
--   loops of _sync_memos; Sync/Whole: what is around them. Sync/Session: sync_this.
-- * OrgNotes is src/orgmode/org_notes.c: org_notes_write and org_notes_parse. OrgNotes/FirstLoop puts
--   org_notes_write into the first loop of _sync_memos.
-- * Daemon is src/palm-sync-daemon.c. Daemon/Lock: the lock file, as steps of any number of processes
--   in any order. Daemon/DataDir: the path of the data directory.
--
-- State: a call is a function from a state to an optional result and a state; no result is the -1
-- or NULL of the code, and the state has moved all the same. Most calls are on a file; pdb_write is on
-- the structure and the file, because it changes both.
--
-- Conventions and bounds: numbers are natural numbers; a field of w bits has its wrap-around written
-- out where the code adds to it or subtracts from it, and "fits" is a hypothesis where a field is
-- written. A record carries the address that calloc gave it, because the program compares and keeps
-- pointers to records. The outcomes of calloc and random are arguments. Loops are structural
-- recursion on a list or a count; the loops of read_chunks and write_chunks have as much fuel as there
-- are bytes to move, which is enough because each turn moves one at least, and the scan for the end of
-- a header or a text, of a memo or a task, as many turns as the file has bytes, and two more. The first
-- loop of _sync_memos walks the queue of records as its own turns leave it, and need not end if they
-- add records; it takes a bound on its turns, and where no turn changes the queue as many as there
-- are records are enough.
--
-- Not modelled: memos_memo_get_id, whose second search sorts one element more than its array has;
-- writing on a full file by a call that neither fails nor moves a byte; lseek on a descriptor that
-- cannot seek; the log, and the calls of lseek that only serve it; memory that is freed or leaked;
-- category names without a NUL in their sixteen bytes, on which strlen runs on into the next entry
-- (the model stops at the end of the entry); buffers of memos that are too small for what is
-- copied into them; the categories of a structure without any, which the category functions would
-- dereference. sync.c is written against headers that are not in the repository: the functions on
-- memos of that header, with what they do to the queue of records, and the PDB file of the
-- previous synchronisation are parameters.
pub mod Base
pub mod Daemon
pub mod File
pub mod Helper
pub mod Libc
pub mod Memos
pub mod OrgNotes
pub mod Pdb
pub mod Sync
pub mod Tasks
