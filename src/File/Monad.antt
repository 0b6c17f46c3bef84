-- ===== src/File/Monad.antt =====
-- The descriptor, the system calls on it, and the two ways in which the code strings fallible
-- calls together: it returns at the first failure (`do`), or it makes every call, adds the results
-- up and looks at the sum behind the last one (`<*>`, `&&&`).
use palm_sync_daemon.Base.{
  ℕ, ◌+◌, ◌-◌, Bool, true, false, Option, none, some, List, length, take, drop, ◌==◌, if◌then◌else◌,
}
use palm_sync_daemon.File.Overwrite.{overwrite}

pub record File : Type 0 where
  pub bytes : List ℕ
  pub pos : ℕ
  pub room : ℕ
  pub readable : Bool

-- A call on a state. `none` is the result that reports an error, -1 or NULL; the state has moved
-- all the same.
abbrev pub Act : Type 0 → Type 0 → Type 0
Act S A = S → Option A × S

abbrev pub Io : Type 0 → Type 0
Io A = Act File A

module _ {S : Type 0} where
  abbrev pub pure : {A : Type 0} → A → Act S A
  pure a s = (some a, s)

  abbrev pub fail : {A : Type 0} → Act S A
  fail s = (none, s)

  abbrev pub and_then : {A B : Type 0} → Option A × S → (A → Act S B) → Option B × S
  and_then (none, s) k = (none, s)
  and_then (some a, s) k = k a s

  infixl 5 ◌>>=◌ ◌>>◌
  abbrev pub ◌>>=◌ : {A B : Type 0} → Act S A → (A → Act S B) → Act S B
  m >>= k = λ s. and_then (m s) k

  abbrev pub ◌>>◌ : {B : Type 0} → Act S (Unit {0}) → Act S B → Act S B
  m >> k = m >>= λ _. k

  abbrev pub guard : Bool → Act S (Unit {0})
  guard true = pure tt
  guard false = fail

  abbrev pub from_option : {A : Type 0} → Option A → Act S A
  from_option o s = (o, s)

  -- The result of a call is kept for later, whatever it is.
  unfoldable pub keep : {A : Type 0} → Act S A → Act S (Option A)
  keep m s = let (r, s') = m s in (some r, s')

abbrev pub apply? : {A B : Type 0} → Option (A → B) → Option A → Option B
apply? (some g) (some a) = some (g a)
apply? (some g) none = none
apply? none o = none

abbrev pub both? : Option (Unit {0}) → Option (Unit {0}) → Option (Unit {0})
both? (some _) o = o
both? none o = none

module _ {S : Type 0} where
  apply_second : {A B : Type 0} → Option (A → B) → Option A × S → Option B × S
  apply_second g (a, s) = (apply? g a, s)

  infixl 6 ◌<*>◌ ◌&&&◌
  unfoldable pub ◌<*>◌ : {A B : Type 0} → Act S (A → B) → Act S A → Act S B
  unfolding apply_second
  ◌<*>◌ m n s = let (g, s') = m s in apply_second g (n s')

  both_second : Option (Unit {0}) → Option (Unit {0}) × S → Option (Unit {0}) × S
  both_second a (b, s) = (both? a b, s)

  unfoldable pub ◌&&&◌ : Act S (Unit {0}) → Act S (Unit {0}) → Act S (Unit {0})
  unfolding both_second
  ◌&&&◌ m n s = let (a, s') = m s in both_second a (n s')

-- read(fd, buf, n): at the end of the file fewer bytes come, or none.
unfoldable pub read : ℕ → Io (List ℕ)
read n f =
    if f.readable
    then (let got = take n (drop f.pos f.bytes) in
        (some got, record f { pos = f.pos + length got }))
    else (none, f)

-- write(fd, buf, n): the number of bytes that found room; -1 if there was room for none.
unfoldable pub write : List ℕ → Io ℕ
write xs f =
    let fits = take (f.room - f.pos) xs in
    if length fits == 0 then (if length xs == 0 then (some 0, f) else (none, f)) else (
      some (length fits),
      record f { bytes = overwrite f.pos fits f.bytes; pos = f.pos + length fits },
    )

-- lseek(fd, n, SEEK_SET), which succeeds on a regular file, behind its end too.
unfoldable pub seek_set : ℕ → Io ℕ
seek_set n f = (some n, record f { pos = n })

-- lseek(fd, 0, SEEK_CUR)
unfoldable pub tell : Io ℕ
tell f = (some f.pos, f)

-- `(lseek(fd, 0, SEEK_CUR) != 0) && (lseek(fd, 0, SEEK_SET) != 0)` is an error.
unfoldable pub rewind : Io (Unit {0})
unfolding tell seek_set
rewind = do at ← tell; if at == 0 then pure tt else (do start ← seek_set 0; guard (start == 0))
