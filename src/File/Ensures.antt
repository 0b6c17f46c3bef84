-- ===== src/File/Ensures.antt =====
-- What a call ensures where it succeeds, and how that goes through a chain of calls.
use palm_sync_daemon.Base.{◌≡◌, refl, subst, Bool, true, false, Option, none, some}
use palm_sync_daemon.File.Monad.{Act, and_then, guard}

-- What holds of the value and the state of a call that succeeds.
abbrev pub Ensures : {S A : Type 0} → (A → S → Type 0) → Option A × S → Type 0
Ensures Q (none, s) = Unit
Ensures Q (some a, s) = Q a s

pub after_call :
    {S A B : Type 0} (Q : B → S → Type 0) (P : A → S → Type 0) (r : Option A × S) (k : A → Act S B)
    → Ensures P r
    → ((a : A) (s : S) → P a s → Ensures Q (k a s))
    → Ensures Q (and_then r k)
after_call Q P (none, s) k h step = tt
after_call Q P (some a, s) k h step = step a s h

pub after_option :
    {S A B : Type 0} (Q : B → S → Type 0) (o : Option A) (s : S) (k : A → Act S B)
    → ((a : A) → o ≡ some a → Ensures Q (k a s))
    → Ensures Q (and_then (o, s) k)
after_option Q none s k step = tt
after_option Q (some a) s k step = step a refl

-- What holds of the state whether the calls succeed or not.
pub always :
    {S A B : Type 0} (P : S → Type 0) (r : Option A × S) (k : A → Act S B)
    → P r.1
    → ((a : A) (s : S) → P s → P (k a s).1)
    → P (and_then r k).1
always P (none, s) k h step = h
always P (some a, s) k h step = step a s h

pub always_guarded :
    {S B : Type 0} (P : S → Type 0) (b : Bool) (s : S) (k : Act S B)
    → P s
    → P (k s).1
    → P (and_then (guard b s) (λ _. k)).1
always_guarded P true s k h step = step
always_guarded P false s k h step = h

pub ensured :
    {S A : Type 0} (Q : A → S → Type 0) (r : Option A × S) (a : A) (s : S)
    → Ensures Q r
    → r ≡ (some a, s)
    → Q a s
ensured Q r a s h e = subst (Ensures Q) e h

pub after_guard :
    {S B : Type 0} (Q : B → S → Type 0) (b : Bool) (s : S) (k : Act S B)
    → (b ≡ true → Ensures Q (k s))
    → Ensures Q (and_then (guard b s) (λ _. k))
after_guard Q true s k step = step refl
after_guard Q false s k step = tt
