-- ===== src/File/Writes.antt =====
-- Writing code by what it writes: `Writes m xs` says that, where the file has room, the action `m`
-- puts exactly the bytes `xs` at the position, moves behind them and succeeds.
use native.Mathlib.Nat.{add-zero, add_assoc}
use palm_sync_daemon.Base.{
  ℕ, suc, ◌+◌, ◌-◌, ◌≤◌, ◌≡◌, some, none, List, [], ◌∷◌, ◌++◌, length, take-all, length-append,
  arith, ◌==◌, if◌then◌else◌, Option, ==_refl,
}
use palm_sync_daemon.File.Overwrite.{overwrite, overwrite-append}
use palm_sync_daemon.File.Monad.{File, Io, pure, ◌>>◌, ◌&&&◌, write}

abbrev pub put : List ℕ → File → File
put xs f = record f { bytes = overwrite f.pos xs f.bytes; pos = f.pos + length xs }

pub record Writes (m : Io (Unit {0})) (xs : List ℕ) : Type 0 where
  pub run : (f : File) → f.pos + length xs ≤ f.room → m f ≡ (some tt, put xs f)

pub put-append : (f : File) (xs ys : List ℕ) → put ys (put xs f) ≡ put (xs ++ ys) f
put-append f xs ys = rw (overwrite-append f.pos xs ys f.bytes, length-append xs ys, add_assoc)

whole : ℕ → Option ℕ × File → Option (Unit {0}) × File
whole n (none, f) = (none, f)
whole n (some k, f) = (if k == n then some tt else none, f)

-- A call that counts as a success only if every byte was written.
unfoldable pub write_all : List ℕ → Io (Unit {0})
unfolding whole
write_all xs f = whole (length xs) (write xs f)

pub write_fits :
    (x : ℕ) (xs : List ℕ) (f : File)
    → f.pos + length (x ∷ xs) ≤ f.room
    → write (x ∷ xs) f ≡ (some (length (x ∷ xs)), put (x ∷ xs) f)
unfolding write
write_fits x xs f h = rw (take-all (f.room - f.pos) (x ∷ xs) (omega arith)) (ground arith)

pub write_all-Writes : (x : ℕ) (xs : List ℕ) → Writes (write_all (x ∷ xs)) (x ∷ xs)
unfolding write_all
write_all-Writes x xs = record { run = λ f h. rw (write_fits x xs f h, ==_refl (suc (length xs))) }

pub put-nil : (f : File) → put [] f ≡ f
unfolding overwrite
put-nil f = rw add-zero

pub pure-Writes : Writes (pure tt) []
unfolding overwrite
pure-Writes = record { run = λ f h. rw add-zero }

module _ {m n : Io (Unit {0})} {xs ys : List ℕ} where
  pub >>-Writes : Writes m xs → Writes n ys → Writes (m >> n) (xs ++ ys)
  >>-Writes p q = record {
    run = λ f h.
        rw (p.run f (omega (arith, length-append xs ys)), ← put-append f xs ys)
          (q.run (put xs f) (omega (arith, length-append xs ys)));
  }

  pub &&&-Writes : Writes m xs → Writes n ys → Writes (m &&& n) (xs ++ ys)
  unfolding ◌&&&◌
  &&&-Writes p q = record {
    run = λ f h. rw (
      p.run f (omega (arith, length-append xs ys)),
      q.run (put xs f) (omega (arith, length-append xs ys)),
      put-append f xs ys,
    );
  }
