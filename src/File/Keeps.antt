-- ===== src/File/Keeps.antt =====
-- Calls that only move the position of a file: reading, seeking and what is put together from them.
use palm_sync_daemon.Base.{
  ℕ, ◌+◌, ◌≡◌, ◌∙◌, refl, ap, Bool, true, false, Option, none, some, length, take, drop, ◌==◌,
  Bool-cases, inl, inr, if◌then◌else◌,
}
use palm_sync_daemon.File.Monad.{
  File, Io, pure, fail, and_then, ◌>>=◌, guard, from_option, keep, ◌<*>◌, read, seek_set, tell,
  rewind,
}

pub record Keeps {A : Type 0} (m : Io A) : Type 0 where
  pub run : (f : File) → (k : ℕ) × ((m f).1 ≡ record f { pos = k })

module _ {A : Type 0} where
  pub pure-Keeps : (a : A) → Keeps (pure a)
  pure-Keeps a = record { run = λ f. (f.pos, refl) }

  pub fail-Keeps : Keeps (fail {A = A})
  fail-Keeps = record { run = λ f. (f.pos, refl) }

  pub from_option-Keeps : (o : Option A) → Keeps (from_option o)
  from_option-Keeps o = record { run = λ f. (f.pos, refl) }

  pub keep-Keeps : {m : Io A} → Keeps m → Keeps (keep m)
  unfolding keep
  keep-Keeps p = record { run = λ f. p.run f }

  pub if-Keeps : (b : Bool) {m n : Io A} → Keeps m → Keeps n → Keeps (if b then m else n)
  if-Keeps true p q = p
  if-Keeps false p q = q

pub guard-Keeps : (b : Bool) → Keeps (guard b)
guard-Keeps true = record { run = λ f. (f.pos, refl) }
guard-Keeps false = record { run = λ f. (f.pos, refl) }

pub read-Keeps : (n : ℕ) → Keeps (read n)
unfolding read
read-Keeps n = record {
  run = λ f. elim (Bool-cases f.readable) [
    | inl yes_readable ↦ (f.pos + length (take n (drop f.pos f.bytes)), rw yes_readable refl)
    | inr not_readable ↦ (f.pos, rw not_readable refl)
  ];
}

pub seek_set-Keeps : (n : ℕ) → Keeps (seek_set n)
unfolding seek_set
seek_set-Keeps n = record { run = λ f. (n, refl) }

pub tell-Keeps : Keeps tell
unfolding tell
tell-Keeps = record { run = λ f. (f.pos, refl) }

module _ {A B : Type 0} where
  after :
      (f : File) (r : Option A × File) (k : A → Io B)
      → (j : ℕ) × (r.1 ≡ record f { pos = j })
      → ((a : A) → Keeps (k a))
      → (j : ℕ) × ((and_then r k).1 ≡ record f { pos = j })
  after f (none, g) k h next = h
  after f (some a, g) k (j, e) next =
      let (i, d) = (next a).run g in (i, d ∙ ap (λ (x : File). record x { pos = i }) e)

  pub >>=-Keeps : {m : Io A} {k : A → Io B} → Keeps m → ((a : A) → Keeps (k a)) → Keeps (m >>= k)
  >>=-Keeps {m} {k} p next = record { run = λ f. after f (m f) k (p.run f) next }

  pub <*>-Keeps : {m : Io (A → B)} {n : Io A} → Keeps m → Keeps n → Keeps (m <*> n)
  unfolding ◌<*>◌
  <*>-Keeps {m} {n} p q = record {
    run = λ f.
        (let (j, e) = p.run f in
          let (i, d) = q.run (m f).1 in (i, d ∙ ap (λ (x : File). record x { pos = i }) e));
  }

pub rewind-Keeps : Keeps rewind
unfolding rewind
rewind-Keeps = >>=-Keeps tell-Keeps (λ at.
    if-Keeps (at == 0) (pure-Keeps tt) (>>=-Keeps (seek_set-Keeps 0) (λ s. guard-Keeps (s == 0))))

pub ruleset keeps = (
  pure-Keeps, fail-Keeps, from_option-Keeps, keep-Keeps, guard-Keeps, read-Keeps, seek_set-Keeps,
  tell-Keeps, rewind-Keeps, >>=-Keeps, <*>-Keeps,
)
