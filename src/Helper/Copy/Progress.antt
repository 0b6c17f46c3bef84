-- ===== src/Helper/Copy/Progress.antt =====
-- The calls that _cp of src/helper.c still needs, and that they run out.
use palm_sync_daemon.Base.{
  ℕ, zero, suc, ◌+◌, ◌-◌, ◌*◌, ◌≤◌, ◌≡◌, refl, min, true, false, List, [], ◌∷◌, ◌++◌, length, take,
  drop, length-take, length-drop, arith,
}
use palm_sync_daemon.Helper.Copy.{
  Outcome, moves, interrupted, fails, CopyState, reading, writing, ended, after_read, after_write,
  copy_step, copy_loop, copy_buffer_length,
}

-- Nothing fails, and no signal interrupts a read.
abbrev pub Lets : Outcome → CopyState → Type 0
Lets (moves n) s = Unit
Lets interrupted (reading rest target) = ⊥
Lets interrupted (writing chunk rest target) = Unit
Lets interrupted (ended whole target) = Unit
Lets fails s = ⊥

abbrev pub AllLet : List Outcome → CopyState → Type 0
AllLet [] s = Unit
AllLet (o ∷ os) s = Lets o s × AllLet os (copy_step o s)

abbrev pub moves_in : List Outcome → ℕ
moves_in [] = 0
moves_in (moves n ∷ os) = suc (moves_in os)
moves_in (interrupted ∷ os) = moves_in os
moves_in (fails ∷ os) = moves_in os

-- The calls that may still be needed: every byte is read and written, and the end of the file is read.
abbrev pub calls_left : CopyState → ℕ
calls_left (reading rest target) = 2 * length rest + 1
calls_left (writing chunk rest target) = length chunk + 2 * length rest + 1
calls_left (ended whole target) = 0

-- On the way to the end, or there; the buffer in the inner loop is never empty.
abbrev pub Whole : CopyState → Type 0
Whole (reading rest target) = Unit
Whole (writing [] rest target) = ⊥
Whole (writing (b ∷ bs) rest target) = Unit
Whole (ended true target) = Unit
Whole (ended false target) = ⊥

pub after_read-left :
    (got rest target : List ℕ)
    → calls_left (after_read got rest target) ≤ length got + 2 * length rest + 1
after_read-left [] rest target = omega arith
after_read-left (b ∷ bs) rest target = omega arith

pub after_read-Whole : (got rest target : List ℕ) → Whole (after_read got rest target)
after_read-Whole [] rest target = tt
after_read-Whole (b ∷ bs) rest target = tt

pub after_write-left :
    (left rest target : List ℕ)
    → calls_left (after_write left rest target) ≡ length left + 2 * length rest + 1
after_write-left [] rest target = omega arith
after_write-left (b ∷ bs) rest target = omega arith

pub after_write-Whole : (left rest target : List ℕ) → Whole (after_write left rest target)
after_write-Whole [] rest target = tt
after_write-Whole (b ∷ bs) rest target = tt

pub take-nil : (n : ℕ) → take {A = ℕ} n [] ≡ []
take-nil zero = refl
take-nil (suc n) = refl

pub read_turn-left :
    (n : ℕ) (rest target : List ℕ)
    → calls_left (copy_step (moves n) (reading rest target)) + 1 ≤ 2 * length rest + 1
read_turn-left n [] target = let k = min (suc n) copy_buffer_length in rw (take-nil k) (omega arith)
read_turn-left n (b ∷ bs) target =
    let k = min (suc n) copy_buffer_length in
    omega (
      arith,
      after_read-left (take k (b ∷ bs)) (drop k (b ∷ bs)) target,
      length-take k (b ∷ bs),
      length-drop k (b ∷ bs),
    )

-- A turn that moves bytes leaves fewer calls, and every turn that is let through stays on the way.
pub copy_step-left :
    (o : Outcome) (s : CopyState)
    → Lets o s
    → Whole s
    → Whole (copy_step o s) × (calls_left (copy_step o s) ≤ calls_left s - moves_in (o ∷ []))
copy_step-left (moves n) (reading rest target) l w =
    (after_read-Whole _ _ target, omega (arith, read_turn-left n rest target))
copy_step-left (moves n) (writing [] rest target) l w = elim w [ ]
copy_step-left (moves n) (writing (b ∷ bs) rest target) l w = (
  after_write-Whole (drop n bs) rest (target ++ (b ∷ take n bs)),
  omega (arith, after_write-left (drop n bs) rest (target ++ (b ∷ take n bs)), length-drop n bs),
)
copy_step-left (moves n) (ended true target) l w = (tt, omega arith)
copy_step-left (moves n) (ended false target) l w = elim w [ ]
copy_step-left interrupted (reading rest target) l w = elim l [ ]
copy_step-left interrupted (writing chunk rest target) l w = (w, omega arith)
copy_step-left interrupted (ended true target) l w = (tt, omega arith)
copy_step-left interrupted (ended false target) l w = elim w [ ]
copy_step-left fails s l w = elim l [ ]

pub no_calls_left :
    (s : CopyState) → Whole s → calls_left s ≡ 0 → (target : List ℕ) × (s ≡ ended true target)
no_calls_left (reading rest target) w h = absurd (omega arith)
no_calls_left (writing chunk rest target) w h = absurd (omega arith)
no_calls_left (ended true target) w h = (target, refl)
no_calls_left (ended false target) w h = elim w [ ]

pub copy_loop-ends :
    (os : List Outcome) (s : CopyState)
    → AllLet os s
    → Whole s
    → calls_left s ≤ moves_in os
    → (target : List ℕ) × (copy_loop os s ≡ ended true target)
copy_loop-ends [] s l w h = no_calls_left s w (omega arith)
copy_loop-ends (o ∷ os) s l w h =
    let (w', less) = copy_step-left o s l.0 w in
    copy_loop-ends os (copy_step o s) l.1 w' (omega (arith, less, count o os))
  where
    count : (o : Outcome) (os : List Outcome) → moves_in (o ∷ os) ≡ moves_in (o ∷ []) + moves_in os
    count (moves n) os = omega arith
    count interrupted os = omega arith
    count fails os = omega arith
