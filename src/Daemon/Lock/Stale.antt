-- ===== src/Daemon/Lock/Stale.antt =====
-- A lock file that no process of src/palm-sync-daemon.c will remove.
use palm_sync_daemon.Base.{
  ℕ, ◌≡◌, ◌≢◌, ◌∙◌, refl, sym, ap, subst, true, false, List, [], ◌∷◌, ◌==◌, Bool-cases, inl, inr,
  if◌then◌else◌,
}
use palm_sync_daemon.Daemon.Lock.{
  Phase, starting, opened, locked, handled, running, gone, Event, opens, writes_pid, sets_handlers,
  sets_exit, quits, killed, World, moved_to, open_lock, step_of, step, run, holds,
}

-- The file is there, and no process holds the lock.
pub record IsStale (w : World) : Type 0 where
  pub file_there : w.lock_file ≡ true
  pub none_holds : (p : ℕ) → holds (w.phase p) ≡ false

gone-IsStale : (p : ℕ) (w : World) → IsStale w → IsStale (moved_to p gone w.lock_file w)
gone-IsStale p w stale = record {
  file_there = stale.file_there;
  none_holds = λ q. elim (Bool-cases (q == p)) [
    | inl same ↦ subst (λ b. holds (if b then gone else w.phase q) ≡ false) (sym same) refl
    | inr other ↦
        subst (λ b. holds (if b then gone else w.phase q) ≡ false) (sym other) (stale.none_holds q)
  ];
}

not_holding :
    {A : Type 0} (p : ℕ) (x : Phase) (w : World) → w.phase p ≡ x → IsStale w → holds x ≡ true → A
not_holding p x w at stale h =
    let no : holds x ≡ false = ap holds (sym at) ∙ stale.none_holds p in absurd cc

step_of-IsStale :
    (p : ℕ) (x : Phase) (e : Event) (w : World)
    → w.phase p ≡ x
    → IsStale w
    → IsStale (step_of p x e w)
step_of-IsStale p starting (opens false) w at stale = gone-IsStale p w stale
step_of-IsStale p starting (opens true) w at stale =
    subst (λ b. IsStale (open_lock p b w)) (sym stale.file_there)
      (subst (λ b. IsStale (moved_to p gone b w)) stale.file_there (gone-IsStale p w stale))
step_of-IsStale p starting (writes_pid ok) w at stale = stale
step_of-IsStale p starting (sets_handlers ok) w at stale = stale
step_of-IsStale p starting (sets_exit ok) w at stale = stale
step_of-IsStale p starting quits w at stale = stale
step_of-IsStale p starting killed w at stale = gone-IsStale p w stale
step_of-IsStale p gone (opens ok) w at stale = stale
step_of-IsStale p gone (writes_pid ok) w at stale = stale
step_of-IsStale p gone (sets_handlers ok) w at stale = stale
step_of-IsStale p gone (sets_exit ok) w at stale = stale
step_of-IsStale p gone quits w at stale = stale
step_of-IsStale p gone killed w at stale = gone-IsStale p w stale
step_of-IsStale p opened e w at stale = not_holding p opened w at stale refl
step_of-IsStale p locked e w at stale = not_holding p locked w at stale refl
step_of-IsStale p handled e w at stale = not_holding p handled w at stale refl
step_of-IsStale p running e w at stale = not_holding p running w at stale refl

run-IsStale : (ss : List (ℕ × Event)) (w : World) → IsStale w → IsStale (run ss w)
run-IsStale [] w stale = stale
run-IsStale (s ∷ ss) w stale =
    run-IsStale ss (step s.0 s.1 w) (step_of-IsStale s.0 (w.phase s.0) s.1 w refl stale)

-- Where the lock file is there and no process holds the lock, no process ever gets past its
-- initialisation, whatever steps follow.
pub run-stale :
    (ss : List (ℕ × Event)) (w : World) (p : ℕ) → IsStale w → (run ss w).phase p ≢ running
run-stale ss w p stale at = not_holding p running (run ss w) at (run-IsStale ss w stale) refl
