-- ===== src/Tasks/ReadTasks/Todo.antt =====
-- What _tasks_read_task of src/pdb/tasks.c gets from a file with a task behind the offset of the record.
use palm_sync_daemon.Base.{
  ℕ, ◌+◌, ◌%◌, ◌^◌, ◌<◌, ◌≡◌, ◌≢◌, ◌∙◌, ap, refl, true, Option, none, some, List, [], ◌∷◌, ◌++◌,
  length, drop, drop-drop, All, ==_refl, arith,
}
use palm_sync_daemon.File.{File, seek_set}
use palm_sync_daemon.File.Reads.{ahead, skip, ahead-skip}
use palm_sync_daemon.Pdb.Types.{Ptr, PdbRecord, PdbCategories}
use palm_sync_daemon.Helper.Chunks.Laws.{read_chunks-Reads}
use palm_sync_daemon.Memos.ReadMemos.{category_name, skip_one}
use palm_sync_daemon.Memos.ReadMemos.Scan.{scan-finds}
use palm_sync_daemon.Tasks.ReadTasks.{TaskBuffers, read_note, task_of, tasks_read_task}

-- An empty text comes back as none.
abbrev pub note_of : List ℕ → Option (List ℕ)
note_of [] = none
note_of (x ∷ xs) = some (x ∷ xs)

read_note_lem :
    (a : Ptr) (ys rest : List ℕ) (f : File)
    → f.readable ≡ true
    → ahead f ≡ ys ++ rest
    → (k : ℕ) × (read_note (some a) (length ys) f ≡ (some (note_of ys), record f { pos = k }))
unfolding read_note
read_note_lem a [] rest f readable e = (f.pos, refl)
read_note_lem a (y ∷ ys) rest f readable e =
    (f.pos + length (y ∷ ys), rw ((read_chunks-Reads a (y ∷ ys)).run f rest readable e))

abbrev pub task_buffers : Ptr → Ptr → Ptr → Ptr → TaskBuffers
task_buffers a b c d = record {
  task_buf = some a;
  header_buf = some b;
  text_buf = some c;
  category_buf = some d;
}

pub read_task-gets :
    (a b c d : Ptr) (categories : Option PdbCategories) (r : PdbRecord)
    (xs ys category rest : List ℕ) (f : File)
    → f.readable ≡ true
    → r.offset + 3 < 2 ^ 32
    → drop (r.offset + 3) f.bytes ≡ xs ++ (0 ∷ (ys ++ (0 ∷ rest)))
    → All (λ x. x ≢ 0) xs
    → All (λ x. x ≢ 0) ys
    → category_name r categories ≡ some category
    → (k : ℕ) × (tasks_read_task (task_buffers a b c d) categories r f
        ≡ (some (task_of r xs (note_of ys) category), record f { pos = k }))
unfolding tasks_read_task seek_set skip_one
read_task-gets a b c d categories r xs ys category rest f readable small e no_nul no_nul' ec =
    let start = r.offset + 3 in
    let fits : start % 2 ^ 32 ≡ start = omega arith in
    let at_start = record f { pos = start } in
    let tail = ys ++ (0 ∷ rest) in
    let newline = ahead-skip at_start xs (0 ∷ tail) e in
    let text_file = record f { pos = start + length xs + 1 } in
    let text_there : ahead text_file ≡ tail =
      drop-drop 1 (start + length xs) f.bytes ∙ ap (drop 1) newline in
    let behind : ahead (skip (length xs + 1) at_start) ≡ tail =
      ap (λ n. drop n f.bytes) {y = start + length xs + 1} (omega arith) ∙ text_there in
    let (k, noted) = read_note_lem c ys (0 ∷ rest) text_file readable text_there in
    (
      k,
      rw (
        fits,
        ==_refl start,
        scan-finds 0 1 xs tail at_start no_nul readable e,
        scan-finds 0 0 ys rest (skip (length xs + 1) at_start) no_nul' readable behind,
        ==_refl start,
        (read_chunks-Reads b xs).run at_start (0 ∷ tail) readable e,
        noted,
        ec,
      ),
    )
