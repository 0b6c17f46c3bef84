-- ===== src/File/Reads.antt =====
-- Reading code by what it reads: `Reads m xs a` says that from bytes which begin with `xs` the
-- action `m` gets the value `a`, moves behind them and leaves the rest alone.
use native.Mathlib.Nat.{add-zero, add_assoc}
use palm_sync_daemon.Base.{
  ℕ, ◌+◌, ◌≡◌, true, Option, none, some, List, arith, [], ◌++◌, length, take, drop, append_assoc,
  length-append, take-length_append, drop-length_append, drop-drop, arith,
}
use palm_sync_daemon.File.Monad.{File, Io, pure, and_then, ◌>>=◌, ◌<*>◌, read, keep, rewind}

abbrev pub skip : ℕ → File → File
skip n f = record f { pos = f.pos + n }

-- The bytes ahead of the position.
abbrev pub ahead : File → List ℕ
ahead f = drop f.pos f.bytes

pub record Reads {A : Type 0} (m : Io A) (xs : List ℕ) (a : A) : Type 0 where
  pub run :
      (f : File) (rest : List ℕ)
      → f.readable ≡ true
      → ahead f ≡ xs ++ rest
      → m f ≡ (some a, skip (length xs) f)

pub ahead-skip :
    (f : File) (xs rest : List ℕ) → ahead f ≡ xs ++ rest → ahead (skip (length xs) f) ≡ rest
ahead-skip f xs rest h = rw (drop-drop (length xs) f.pos f.bytes, h) (drop-length_append xs rest)

skip-append :
    (f : File) (xs ys : List ℕ) → skip (length ys) (skip (length xs) f) ≡ skip (length (xs ++ ys)) f
skip-append f xs ys = rw (length-append xs ys, add_assoc)

pub read_gets :
    (k : ℕ) (f : File)
    → f.readable ≡ true
    → read k f ≡ (some (take k (ahead f)), skip (length (take k (ahead f))) f)
unfolding read
read_gets k f r = rw r

pub read-Reads : (xs : List ℕ) → Reads (read (length xs)) xs xs
unfolding read
read-Reads xs = record { run = λ f rest r h. rw (r, h, take-length_append xs rest) }

pub pure-Reads : {A : Type 0} (a : A) → Reads (pure a) [] a
pure-Reads a = record { run = λ f rest r h. rw add-zero }

module _ {A B : Type 0} where
  pub >>=-Reads :
      {m : Io A} (k : A → Io B) {xs ys : List ℕ} {a : A} {b : B}
      → Reads m xs a
      → Reads (k a) ys b
      → Reads (m >>= k) (xs ++ ys) b
  >>=-Reads {m} k {xs} {ys} {a} {b} p q = record {
    run = λ f rest r h.
        (let h' : ahead f ≡ xs ++ (ys ++ rest) = rw (← append_assoc xs ys rest) h in
          rw (p.run f (ys ++ rest) r h', ← skip-append f xs ys)
            (q.run (skip (length xs) f) rest r (ahead-skip f xs (ys ++ rest) h')));
  }

  -- A call whose value is only passed through a function.
  pub map-Reads :
      (g : A → B) {m : Io A} {xs : List ℕ} {a : A}
      → Reads m xs a
      → Reads (m >>= λ x. pure (g x)) xs (g a)
  map-Reads g p = record { run = λ f rest r h. rw (p.run f rest r h) }

  pub <*>-Reads :
      {m : Io (A → B)} {n : Io A} {xs ys : List ℕ} {g : A → B} {a : A}
      → Reads m xs g
      → Reads n ys a
      → Reads (m <*> n) (xs ++ ys) (g a)
  unfolding ◌<*>◌
  <*>-Reads {m} {n} {xs} {ys} {g} {a} p q = record {
    run = λ f rest r h.
        (let h' : ahead f ≡ xs ++ (ys ++ rest) = rw (← append_assoc xs ys rest) h in
          rw (
            p.run f (ys ++ rest) r h',
            q.run (skip (length xs) f) rest r (ahead-skip f xs (ys ++ rest) h'),
            skip-append f xs ys,
          ));
  }

pub keep-Reads :
    {A : Type 0} {m : Io A} {xs : List ℕ} {a : A} → Reads m xs a → Reads (keep m) xs (some a)
unfolding keep
keep-Reads p = record { run = λ f rest r h. rw (p.run f rest r h) }

-- Reading after a move back to the start.
pub rewind_lem : (f : File) → rewind f ≡ (some tt, record f { pos = 0 })
unfolding rewind
rewind_lem f = ground arith

-- The value of a call that is only passed through a function.
pub map-value :
    {S A B : Type 0} (g : A → B) (r : Option A × S) {a : A}
    → r.0 ≡ some a
    → (and_then r (λ x. pure (g x))).0 ≡ some (g a)
map-value g (some x, s) e = ground arith
map-value g (none, s) e = cc
