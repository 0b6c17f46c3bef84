-- ===== src/Helper/Chunks/Laws.antt =====
-- The bytes that read_chunks and write_chunks of src/helper.c move.
use palm_sync_daemon.Base.{
  ℕ, zero, suc, ◌+◌, ◌-◌, ◌≤◌, ◌<◌, ◌≡◌, ◌∙◌, refl, sym, ap, subst, true, Option, none, some, List,
  [], ◌∷◌, ◌++◌, length, take, drop, length-take, length-drop, drop-drop, take-append-drop,
  take_add, take-all, ◌==◌, not, arith, Bool-cases, inl, inr,
}
use palm_sync_daemon.File.{File, Io, pure, and_then, read, write}
use palm_sync_daemon.File.Reads.{
  read_gets, Reads, skip, ahead, read-Reads, pure-Reads, >>=-Reads, map-Reads,
}
use palm_sync_daemon.File.Writes.{Writes, put, put-append, put-nil, write_fits}
use palm_sync_daemon.Pdb.Types.{Ptr}
use palm_sync_daemon.Helper.Chunks.{chunk, read_loop, read_chunks, write_loop, write_chunks}

chunk_bounds : (n : ℕ) → (chunk (suc n) ≤ suc n) × (0 < chunk (suc n))
chunk_bounds n = (ground arith, ground arith)

some_read :
    (n : ℕ) (xs : List ℕ) → suc n ≤ length xs → length (take (chunk (suc n)) xs) ≡ chunk (suc n)
some_read n xs h = omega (arith, length-take (chunk (suc n)) xs, chunk_bounds n)

nonzero : (n : ℕ) → 0 < n → not (n == 0) ≡ true
nonzero n h = ground arith

read_loop-Reads :
    (fuel n : ℕ) (xs : List ℕ) → n ≤ fuel → length xs ≡ n → Reads (read_loop fuel n) xs xs
unfolding read_loop
read_loop-Reads fuel zero [] h e = pure-Reads []
read_loop-Reads fuel zero (x ∷ xs) h e = absurd (omega arith)
read_loop-Reads zero (suc n) xs h e = absurd (omega arith)
read_loop-Reads (suc fuel) (suc n) xs h e =
    let k = chunk (suc n) in
    let got = take k xs in
    let size : length got ≡ k = some_read n xs (omega arith) in
    let left = length-drop k xs in
    subst (λ ys. Reads (read_loop (suc fuel) (suc n)) ys ys) (take-append-drop k xs)
      (>>=-Reads _ (subst (λ j. Reads (read j) got got) size (read-Reads got)) (
        rw (nonzero (length got) (omega (arith, size, chunk_bounds n))) (
          map-Reads (λ rest. got ++ rest)
            (read_loop-Reads fuel (suc n - length got) (drop k xs)
              (omega (arith, size, chunk_bounds n)) (omega (arith, size, chunk_bounds n, left))))))

-- read_chunks into a buffer gets exactly the bytes asked for, where a readable file has them from
-- its position on, and moves behind them.
pub read_chunks-Reads : (a : Ptr) (xs : List ℕ) → Reads (read_chunks (some a) (length xs)) xs xs
unfolding read_chunks
read_chunks-Reads a xs = record {
  run = (read_loop-Reads (length xs) (length xs) xs (omega arith) refl).run;
}

and_then_fails :
    {A B : Type 0} (r : Option A × File) (k : A → Io B) → r.0 ≡ none → (and_then r k).0 ≡ none
and_then_fails (none, f) k h = refl
and_then_fails (some a, f) k h = absurd cc

read_loop-short :
    (fuel n : ℕ) (f : File)
    → n ≤ fuel
    → f.readable ≡ true
    → length (ahead f) < n
    → (read_loop fuel n f).0 ≡ none
unfolding read_loop
read_loop-short fuel zero f h r short = absurd (omega arith)
read_loop-short zero (suc n) f h r short = absurd (omega arith)
read_loop-short (suc fuel) (suc n) f h r short =
    let k = chunk (suc n) in
    let got = take k (ahead f) in
    rw (read_gets k f r) (elim (Bool-cases (length got == 0)) [
      | inl empty ↦ rw empty
      | inr some_bytes ↦
          (let rest = skip (length got) f in
            let left : length (ahead rest) ≡ length (ahead f) - length got =
              ap length (drop-drop (length got) f.pos f.bytes)
              ∙ length-drop (length got) (ahead f) in
            let some_there : 0 < length got = ground arith in
            rw some_bytes (
              and_then_fails (read_loop fuel (suc n - length got) rest) (λ more. pure (got ++ more))
                (read_loop-short fuel (suc n - length got) rest (omega arith) r
                  (omega (arith, length-take k (ahead f))))))
    ])

-- read_chunks reports an error if the readable file ends before all the bytes asked for.
pub read_chunks-short :
    (a : Ptr) (n : ℕ) (f : File)
    → f.readable ≡ true
    → length (ahead f) < n
    → (read_chunks (some a) n f).0 ≡ none
unfolding read_chunks
read_chunks-short a n f r short = read_loop-short n n f (omega arith) r short

write-some :
    (xs : List ℕ) (f : File)
    → 0 < length xs
    → f.pos + length xs ≤ f.room
    → write xs f ≡ (some (length xs), put xs f)
write-some [] f h k = absurd (omega arith)
write-some (x ∷ xs) f h k = write_fits x xs f k

write_loop-puts :
    (fuel n : ℕ) (xs : List ℕ) (f : File)
    → n ≤ fuel
    → n ≤ length xs
    → f.pos + n ≤ f.room
    → write_loop fuel xs n f ≡ (some tt, put (take n xs) f)
unfolding write_loop
write_loop-puts fuel zero xs f h long room = ap (λ g. (some tt, g)) (sym (put-nil f))
write_loop-puts zero (suc n) xs f h long room = absurd (omega arith)
write_loop-puts (suc fuel) (suc n) xs f h long room =
    let k = chunk (suc n) in
    let size : length (take k xs) ≡ k = some_read n xs long in
    let w = length (take k xs) in
    let more : 0 < w = omega (arith, chunk_bounds n) in
    let less : w ≤ suc n = omega (arith, chunk_bounds n) in
    let whole : take k xs ++ take (suc n - w) (drop w xs) ≡ take (suc n) xs = rw size (
      take_add k (suc n - k) xs
      ∙ ap (λ j. take j xs) {y = suc n} (omega (arith, chunk_bounds n))) in
    rw
      (
        write-some (take k xs) f more (omega arith),
        nonzero w more,
        ← whole,
        ← put-append f (take k xs) (take (suc n - w) (drop w xs)),
      )
      (write_loop-puts fuel (suc n - w) (drop w xs) (put (take k xs) f) (omega arith)
        (omega (arith, length-drop w xs)) (omega arith))

-- Where there is room, write_chunks puts the first n bytes of a buffer of n bytes or more into the
-- file, ten at a time, and succeeds.
pub write_chunks-puts :
    (xs : List ℕ) (n : ℕ) (f : File)
    → n ≤ length xs
    → f.pos + n ≤ f.room
    → write_chunks (some xs) n f ≡ (some tt, put (take n xs) f)
unfolding write_chunks
write_chunks-puts xs n f long room = write_loop-puts n n xs f (omega arith) long room

-- A buffer written whole.
pub write_chunks-Writes :
    (xs : List ℕ) (n : ℕ) → length xs ≡ n → Writes (write_chunks (some xs) n) xs
write_chunks-Writes xs n e = record {
  run = λ f h.
      write_chunks-puts xs n f (omega arith) (omega (arith, e, h))
      ∙ ap (λ ys. (some tt, put ys f)) (take-all n xs (omega arith));
}
