-- ===== src/Tasks/ReadTasks/HeaderData.antt =====
-- The header of a task, as __parse_taskdb_data of src/pdb/tasks.c reads it.
use palm_sync_daemon.Base.{
  ℕ, zero, suc, ◌+◌, ◌≤◌, ◌<◌, ◌≡◌, ◌≢◌, ◌∙◌, inl, inr, ap, refl, true, none, some, List, [], ◌∷◌,
  ◌++◌, length, take, drop, drop-drop, length-append, length-take, length-drop, All, ==_refl, ltb,
  Bool-cases, arith,
}
use palm_sync_daemon.File.{File, Io, seek_set, tell}
use palm_sync_daemon.File.Reads.{ahead, skip, read_gets}
use palm_sync_daemon.Pdb.Types.{Ptr}
use palm_sync_daemon.Helper.Chunks.Laws.{read_chunks-Reads}
use palm_sync_daemon.Memos.ReadMemos.{index_of}
use palm_sync_daemon.Memos.ReadMemos.Scan.{index_of-here, index_of-later, drop_in_front, All-drop}
use palm_sync_daemon.Tasks.WriteTasks.{header_present}
use palm_sync_daemon.Tasks.ParseData.{has_flag, size_chunk, size_loop, read_header}

-- The loop for the size of the header finds the NUL and leaves the bytes alone.
pub size_loop-finds :
    (fuel : ℕ) (xs rest : List ℕ) (f : File)
    → All (λ b. b ≢ 0) xs
    → f.readable ≡ true
    → ahead f ≡ xs ++ (0 ∷ rest)
    → length xs < fuel
    → (k : ℕ) × (size_loop fuel f ≡ (some (length xs), record f { pos = k }))
unfolding size_loop
size_loop-finds zero xs rest f h r e enough = absurd (omega arith)
size_loop-finds (suc fuel) xs rest f h r e enough =
    let got = take 10 (ahead f) in
    let all : length (ahead f) ≡ length xs + suc (length rest) =
      ap length e ∙ length-append xs (0 ∷ rest) in
    let size = length-take 10 (ahead f) in
    elim (Bool-cases (ltb (length xs) 10)) [
      | inl near ↦
          (let found : index_of 0 got ≡ some (length xs) =
              rw e (index_of-here 0 10 xs rest h (ground arith)) in
            let less : length xs < 10 = ground arith in
            (
              f.pos + length got,
              rw (read_gets 10 f r, found)
                  (chunk-here (size_loop fuel) got (length xs) (skip (length got) f)
                    (omega (arith, size, all, less))),
            ))
      | inr far ↦
          (let more : 10 ≤ length xs = ground arith in
            let ten : length got ≡ 10 = omega (arith, size, all, more) in
            let none_found : index_of 0 got ≡ none =
              rw e (index_of-later 0 10 xs (0 ∷ rest) h more) in
            let next : ahead (skip (length got) f) ≡ drop 10 xs ++ (0 ∷ rest) =
              rw ten (
                drop-drop 10 f.pos f.bytes
                ∙ ap (drop 10) e
                ∙ drop_in_front 10 xs (0 ∷ rest) more) in
            let left = length-drop 10 xs in
            let (k, found) =
              size_loop-finds fuel (drop 10 xs) rest (skip (length got) f)
                (All-drop (λ b. b ≢ 0) 10 xs h) r next (omega (arith, left, more, enough)) in
            (
              k,
              rw (read_gets 10 f r, none_found)
                  (chunk-later (size_loop fuel) got (length (drop 10 xs)) (skip (length got) f) _
                      (omega (arith, ten)) found
                    ∙ ap (λ n. (some n, record f { pos = k })) {y = length xs}
                        (omega (arith, ten, left, more))),
            ))
    ]
  where
    chunk-here :
        (more : Io ℕ) (got : List ℕ) (i : ℕ) (f : File)
        → i < length got
        → size_chunk more got (some i) f ≡ (some i, f)
    chunk-here more [] i f h = absurd (omega arith)
    chunk-here more (b ∷ bs) i f h = refl

    chunk-later :
        (more : Io ℕ) (got : List ℕ) (n : ℕ) (f g : File)
        → 0 < length got
        → more f ≡ (some n, g)
        → size_chunk more got none f ≡ (some (length got + n), g)
    chunk-later more [] n f g h e = absurd (omega arith)
    chunk-later more (b ∷ bs) n f g h e = rw e

pub read_header-gets :
    (b : Ptr) (type : ℕ) (xs rest : List ℕ) (f : File)
    → has_flag type header_present ≡ true
    → All (λ x. x ≢ 0) xs
    → f.readable ≡ true
    → ahead f ≡ xs ++ (0 ∷ rest)
    → read_header (some b) type f ≡ (some xs, skip (length xs) f)
unfolding read_header tell seek_set
read_header-gets b type xs rest f flag no_nul readable e =
    let enough : length xs < length f.bytes + 2 =
      omega (arith, ap length e, length-append xs (0 ∷ rest), length-drop f.pos f.bytes) in
    let (k, found) = size_loop-finds (length f.bytes + 2) xs rest f no_nul readable e enough in
    rw (flag, found, ==_refl f.pos) ((read_chunks-Reads b xs).run f (0 ∷ rest) readable e)
