-- ===== src/Daemon/Lock/Laws.antt =====
-- At most one daemon of src/palm-sync-daemon.c runs.
use palm_sync_daemon.Base.{
  ℕ, ◌≡◌, ◌≢◌, ◌⊎◌, ◌∙◌, refl, sym, ap, subst, Bool, true, false, List, [], ◌∷◌, ◌==◌, ==_iff,
  Bool-cases, inl, inr, if◌then◌else◌,
}
use palm_sync_daemon.Daemon.Lock.{
  Phase, starting, opened, locked, handled, running, gone, Event, opens, writes_pid, sets_handlers,
  sets_exit, quits, killed, World, moved_to, open_lock, step_of, step, run, first_world, holds,
}

abbrev pub Holds : World → ℕ → Type 0
Holds w p = holds (w.phase p) ≡ true

pub record IsExclusive (w : World) : Type 0 where
  pub one : (p q : ℕ) → Holds w p → Holds w q → p ≡ q
  pub file_there : (p : ℕ) → Holds w p → w.lock_file ≡ true

at_moved :
    (p q : ℕ) (x : Phase) (lock : Bool) (w : World)
    → Holds (moved_to p x lock w) q
    → ((q ≡ p) × (holds x ≡ true)) ⊎ ((q ≢ p) × Holds w q)
at_moved p q x lock w h = elim (Bool-cases (q == p)) [
  | inl same ↦
      inl ((==_iff q p).0 same, subst (λ b. holds (if b then x else w.phase q) ≡ true) same h)
  | inr other ↦ inr (
    λ e. (let same = (==_iff q p).1 e in cc),
    subst (λ b. holds (if b then x else w.phase q) ≡ true) other h,
  )
]

-- A process that holds after the step has held before it.
was_holding :
    (p q : ℕ) (x : Phase) (lock : Bool) (w : World)
    → (holds x ≡ true → Holds w p)
    → Holds (moved_to p x lock w) q
    → Holds w q
was_holding p q x lock w before h = elim (at_moved p q x lock w h) [
  | inl (same, held) ↦ subst (Holds w) (sym same) (before held)
  | inr (other, held) ↦ held
]

move-IsExclusive :
    (p : ℕ) (x : Phase) (w : World)
    → (holds x ≡ true → Holds w p)
    → IsExclusive w
    → IsExclusive (moved_to p x w.lock_file w)
move-IsExclusive p x w before ex = record {
  one = λ q r h k.
      ex.one q r (was_holding p q x w.lock_file w before h)
        (was_holding p r x w.lock_file w before k);
  file_there = λ q h. ex.file_there q (was_holding p q x w.lock_file w before h);
}

-- The process that holds gives the file back.
none_after :
    (p q : ℕ) (w : World) → Holds w p → IsExclusive w → Holds (moved_to p gone false w) q → ⊥
none_after p q w held ex h = elim (at_moved p q gone false w h) [
  | inl (same, never) ↦ cc
  | inr (other, also) ↦ other (ex.one q p also held)
]

release-IsExclusive :
    (p : ℕ) (w : World) → Holds w p → IsExclusive w → IsExclusive (moved_to p gone false w)
release-IsExclusive p w held ex = record {
  one = λ q r h k. absurd (none_after p q w held ex h);
  file_there = λ q h. absurd (none_after p q w held ex h);
}

-- Where there is no file, no process holds, and one may take it.
alone_after :
    (p q : ℕ) (w : World)
    → w.lock_file ≡ false
    → IsExclusive w
    → Holds (moved_to p opened true w) q
    → q ≡ p
alone_after p q w free ex h = elim (at_moved p q opened true w h) [
  | inl (same, held) ↦ same
  | inr (other, held) ↦ (let there = ex.file_there q held in absurd cc)
]

open-IsExclusive :
    (p : ℕ) (b : Bool) (w : World) → w.lock_file ≡ b → IsExclusive w → IsExclusive (open_lock p b w)
open-IsExclusive p true w there ex =
    subst (λ b. IsExclusive (moved_to p gone b w)) there
      (move-IsExclusive p gone w (λ never. absurd cc) ex)
open-IsExclusive p false w free ex = record {
  one = λ q r h k. alone_after p q w free ex h ∙ sym (alone_after p r w free ex k);
  file_there = λ q h. refl;
}

step_of-IsExclusive :
    (p : ℕ) (x : Phase) (e : Event) (w : World)
    → w.phase p ≡ x
    → IsExclusive w
    → IsExclusive (step_of p x e w)
step_of-IsExclusive p starting (opens true) w at ex = open-IsExclusive p w.lock_file w refl ex
step_of-IsExclusive p starting (opens false) w at ex =
    move-IsExclusive p gone w (λ never. absurd cc) ex
step_of-IsExclusive p starting (writes_pid true) w at ex = ex
step_of-IsExclusive p starting (writes_pid false) w at ex = ex
step_of-IsExclusive p starting (sets_handlers true) w at ex = ex
step_of-IsExclusive p starting (sets_handlers false) w at ex = ex
step_of-IsExclusive p starting (sets_exit true) w at ex = ex
step_of-IsExclusive p starting (sets_exit false) w at ex = ex
step_of-IsExclusive p starting quits w at ex = ex
step_of-IsExclusive p starting killed w at ex = move-IsExclusive p gone w (λ never. absurd cc) ex
step_of-IsExclusive p opened (opens ok) w at ex = ex
step_of-IsExclusive p opened (writes_pid true) w at ex =
    move-IsExclusive p locked w (λ h. ap holds at) ex
step_of-IsExclusive p opened (writes_pid false) w at ex = release-IsExclusive p w (ap holds at) ex
step_of-IsExclusive p opened (sets_handlers true) w at ex = ex
step_of-IsExclusive p opened (sets_handlers false) w at ex = ex
step_of-IsExclusive p opened (sets_exit true) w at ex = ex
step_of-IsExclusive p opened (sets_exit false) w at ex = ex
step_of-IsExclusive p opened quits w at ex = ex
step_of-IsExclusive p opened killed w at ex = move-IsExclusive p gone w (λ never. absurd cc) ex
step_of-IsExclusive p locked (opens ok) w at ex = ex
step_of-IsExclusive p locked (writes_pid true) w at ex = ex
step_of-IsExclusive p locked (writes_pid false) w at ex = ex
step_of-IsExclusive p locked (sets_handlers true) w at ex =
    move-IsExclusive p handled w (λ h. ap holds at) ex
step_of-IsExclusive p locked (sets_handlers false) w at ex =
    move-IsExclusive p gone w (λ never. absurd cc) ex
step_of-IsExclusive p locked (sets_exit true) w at ex = ex
step_of-IsExclusive p locked (sets_exit false) w at ex = ex
step_of-IsExclusive p locked quits w at ex = ex
step_of-IsExclusive p locked killed w at ex = move-IsExclusive p gone w (λ never. absurd cc) ex
step_of-IsExclusive p handled (opens ok) w at ex = ex
step_of-IsExclusive p handled (writes_pid true) w at ex = ex
step_of-IsExclusive p handled (writes_pid false) w at ex = ex
step_of-IsExclusive p handled (sets_handlers true) w at ex = ex
step_of-IsExclusive p handled (sets_handlers false) w at ex = ex
step_of-IsExclusive p handled (sets_exit true) w at ex =
    move-IsExclusive p running w (λ h. ap holds at) ex
step_of-IsExclusive p handled (sets_exit false) w at ex =
    move-IsExclusive p gone w (λ never. absurd cc) ex
step_of-IsExclusive p handled quits w at ex = ex
step_of-IsExclusive p handled killed w at ex = move-IsExclusive p gone w (λ never. absurd cc) ex
step_of-IsExclusive p running (opens ok) w at ex = ex
step_of-IsExclusive p running (writes_pid true) w at ex = ex
step_of-IsExclusive p running (writes_pid false) w at ex = ex
step_of-IsExclusive p running (sets_handlers true) w at ex = ex
step_of-IsExclusive p running (sets_handlers false) w at ex = ex
step_of-IsExclusive p running (sets_exit true) w at ex = ex
step_of-IsExclusive p running (sets_exit false) w at ex = ex
step_of-IsExclusive p running quits w at ex = release-IsExclusive p w (ap holds at) ex
step_of-IsExclusive p running killed w at ex = move-IsExclusive p gone w (λ never. absurd cc) ex
step_of-IsExclusive p gone (opens ok) w at ex = ex
step_of-IsExclusive p gone (writes_pid true) w at ex = ex
step_of-IsExclusive p gone (writes_pid false) w at ex = ex
step_of-IsExclusive p gone (sets_handlers true) w at ex = ex
step_of-IsExclusive p gone (sets_handlers false) w at ex = ex
step_of-IsExclusive p gone (sets_exit true) w at ex = ex
step_of-IsExclusive p gone (sets_exit false) w at ex = ex
step_of-IsExclusive p gone quits w at ex = ex
step_of-IsExclusive p gone killed w at ex = move-IsExclusive p gone w (λ never. absurd cc) ex

run-IsExclusive : (ss : List (ℕ × Event)) (w : World) → IsExclusive w → IsExclusive (run ss w)
run-IsExclusive [] w ex = ex
run-IsExclusive (s ∷ ss) w ex =
    run-IsExclusive ss (step s.0 s.1 w) (step_of-IsExclusive s.0 (w.phase s.0) s.1 w refl ex)

first-IsExclusive : IsExclusive first_world
first-IsExclusive = record { one = λ p q h k. absurd cc; file_there = λ p h. absurd cc }

-- Whatever calls any number of daemons make, in whatever order and however they end, two that are
-- both past their initialisation and not at their end are the same one, and the lock file is
-- there.
pub run-exclusive :
    (ss : List (ℕ × Event)) (p q : ℕ)
    → (run ss first_world).phase p ≡ running
    → (run ss first_world).phase q ≡ running
    → (p ≡ q) × ((run ss first_world).lock_file ≡ true)
run-exclusive ss p q h k =
    let ex = run-IsExclusive ss first_world first-IsExclusive in
    (ex.one p q (ap holds h) (ap holds k), ex.file_there p (ap holds h))
