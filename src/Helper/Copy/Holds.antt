-- ===== src/Helper/Copy/Holds.antt =====
-- Every step of _cp of src/helper.c keeps the bytes of the source.
use palm_sync_daemon.Base.{
  ℕ, suc, ◌≡◌, ◌≢◌, ◌∙◌, refl, sym, ap, min, true, false, some, List, [], ◌∷◌, ◌++◌, length, take,
  drop, drop-nil, append_assoc, append-nil, take-append-drop, length-take, arith,
}
use Prim.Native.Nat.{Ordering, lt, eq, gt}
use palm_sync_daemon.Libc.Strings.{strcmp, strcmp_refl, eq_of_strcmp}
use palm_sync_daemon.Helper.Copy.{
  Outcome, moves, interrupted, fails, CopyState, reading, writing, ended, after_read, after_write,
  copy_step, copy_loop, Files, is_eq, same_path, put_file, copy_buffer_length,
}

pub same_path_refl : (p : List ℕ) → same_path p p ≡ true
same_path_refl p = ap is_eq (strcmp_refl p)

pub same_path_other : (p q : List ℕ) → p ≢ q → same_path p q ≡ false
same_path_other p q h = by_order (strcmp p q) refl
  where
    by_order : (o : Ordering) → strcmp p q ≡ o → same_path p q ≡ false
    by_order lt e = ap is_eq e
    by_order eq e = absurd (h (eq_of_strcmp p q e))
    by_order gt e = ap is_eq e

pub put_file_here : (p bytes : List ℕ) (fs : Files) → put_file p bytes fs p ≡ some bytes
unfolding put_file
put_file_here p bytes fs = rw (same_path_refl p) refl

pub put_file_other : (p bytes q : List ℕ) (fs : Files) → q ≢ p → put_file p bytes fs q ≡ fs q
unfolding put_file
put_file_other p bytes q fs other = rw (same_path_other q p other) refl

-- What is in the target, in the buffer and behind the position is the source.
abbrev pub Holds : List ℕ → CopyState → Type 0
Holds source (reading rest target) = target ++ rest ≡ source
Holds source (writing chunk rest target) = target ++ (chunk ++ rest) ≡ source
Holds source (ended true target) = target ≡ source
Holds source (ended false target) = (rest : List ℕ) × (target ++ rest ≡ source)

pub after_read-Holds :
    (source got rest target : List ℕ)
    → target ++ (got ++ rest) ≡ source
    → (got ≡ [] → rest ≡ [])
    → Holds source (after_read got rest target)
after_read-Holds source [] rest target h no_more =
    sym (append-nil target) ∙ ap (λ t. target ++ t) (sym (no_more refl)) ∙ h
after_read-Holds source (b ∷ bs) rest target h no_more = h

pub after_write-Holds :
    (source left rest target : List ℕ)
    → target ++ (left ++ rest) ≡ source
    → Holds source (after_write left rest target)
after_write-Holds source [] rest target h = h
after_write-Holds source (b ∷ bs) rest target h = h

pub nothing_read :
    (n : ℕ) (rest : List ℕ)
    → take (min (suc n) copy_buffer_length) rest ≡ []
    → drop (min (suc n) copy_buffer_length) rest ≡ []
nothing_read n rest h = by_rest rest h
  where
    by_rest :
        (rest : List ℕ)
        → take (min (suc n) copy_buffer_length) rest ≡ []
        → drop (min (suc n) copy_buffer_length) rest ≡ []
    by_rest [] h = drop-nil (min (suc n) copy_buffer_length)
    by_rest (b ∷ bs) h =
        absurd (omega (arith, length-take (min (suc n) copy_buffer_length) (b ∷ bs), ap length h))

-- Every turn keeps the bytes.
pub copy_step-Holds :
    (source : List ℕ) (o : Outcome) (s : CopyState) → Holds source s → Holds source (copy_step o s)
copy_step-Holds source (moves n) (reading rest target) h =
    after_read-Holds source _ _ target
      (ap (λ t. target ++ t) (take-append-drop (min (suc n) copy_buffer_length) rest) ∙ h)
      (nothing_read n rest)
copy_step-Holds source interrupted (reading rest target) h = (rest, h)
copy_step-Holds source fails (reading rest target) h = (rest, h)
copy_step-Holds source (moves n) (writing chunk rest target) h =
    after_write-Holds source (drop (suc n) chunk) rest (target ++ take (suc n) chunk) (
      append_assoc target (take (suc n) chunk) (drop (suc n) chunk ++ rest)
      ∙ ap (λ t. target ++ t)
          (sym (append_assoc (take (suc n) chunk) (drop (suc n) chunk) rest)
            ∙ ap (λ t. t ++ rest) (take-append-drop (suc n) chunk))
      ∙ h)
copy_step-Holds source interrupted (writing chunk rest target) h = h
copy_step-Holds source fails (writing chunk rest target) h = (chunk ++ rest, h)
copy_step-Holds source (moves n) (ended whole target) h = h
copy_step-Holds source interrupted (ended whole target) h = h
copy_step-Holds source fails (ended whole target) h = h

pub copy_loop-Holds :
    (source : List ℕ) (os : List Outcome) (s : CopyState)
    → Holds source s
    → Holds source (copy_loop os s)
copy_loop-Holds source [] s h = h
copy_loop-Holds source (o ∷ os) s h =
    copy_loop-Holds source os (copy_step o s) (copy_step-Holds source o s h)
