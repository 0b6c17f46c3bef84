-- ===== src/Helper/Copy/Laws.antt =====
-- What _cp of src/helper.c leaves in the target, and when it ends.
use palm_sync_daemon.Base.{
  ℕ, ◌+◌, ◌*◌, ◌≤◌, ◌≡◌, ◌≢◌, ◌∙◌, refl, sym, ap, subst, true, false, Option, none, some, List, [],
  length, Bool-cases, inl, inr,
}
use palm_sync_daemon.Helper.Copy.{
  CopyState, reading, writing, ended, copy_loop, target_of, Files, put_file, CopyCalls, copy_result,
  cp,
}
use palm_sync_daemon.Helper.Copy.Holds.{
  same_path_other, put_file_here, put_file_other, Holds, copy_loop-Holds,
}
use palm_sync_daemon.Helper.Copy.Progress.{AllLet, moves_in, copy_loop-ends}

module _ (calls : CopyCalls) (from to source : List ℕ) (fs : Files) (there : fs from ≡ some source)
    (apart : from ≢ to) where
  -- The loops, on a target that was opened.
  abbrev loop_end : CopyState
  loop_end = copy_loop calls.outcomes (reading source [])

  cp_lem :
      calls.to_opens ≡ true
      → cp calls from to fs
        ≡ (copy_result calls loop_end, put_file to (target_of loop_end) (put_file to [] fs))
  unfolding cp put_file
  cp_lem opens = rw (there, opens, same_path_other from to apart, there) refl

  cp_closed : calls.to_opens ≡ false → (cp calls from to fs).0 ≡ none
  unfolding cp
  cp_closed opens = rw (there, opens) refl

  result_of :
      (s : CopyState) → copy_result calls s ≡ some tt → (target : List ℕ) × (s ≡ ended true target)
  result_of (reading rest target) h = absurd cc
  result_of (writing chunk rest target) h = absurd cc
  result_of (ended true target) h = (target, refl)
  result_of (ended false target) h = absurd cc

  -- If _cp on two different paths returns 0, the target has exactly the bytes of the source and
  -- every other file is as before, whatever pieces read and write move, and whichever writes a
  -- signal interrupts.
  pub cp-copies :
      (cp calls from to fs).0 ≡ some tt
      → ((cp calls from to fs).1 to ≡ some source)
        × ((p : List ℕ) → p ≢ to → (cp calls from to fs).1 p ≡ fs p)
  cp-copies done = elim (Bool-cases calls.to_opens) [
    | inl opens ↦
        (let whole = cp_lem opens in
          let (target, ends) =
            result_of loop_end (ap (λ (x : Option (Unit {0}) × Files). x.0) (sym whole) ∙ done) in
          let same : target ≡ source =
            subst (Holds source) ends
              (copy_loop-Holds source calls.outcomes (reading source []) refl) in
          (
            ap (λ (x : Option (Unit {0}) × Files). x.1 to) whole
                ∙ put_file_here to (target_of loop_end) (put_file to [] fs)
                ∙ ap some (ap target_of ends ∙ same),
            λ p other.
                ap (λ (x : Option (Unit {0}) × Files). x.1 p) whole
                ∙ put_file_other to (target_of loop_end) p (put_file to [] fs) other
                ∙ put_file_other to [] p fs other,
          ))
    | inr opens ↦ (let no = cp_closed opens in absurd cc)
  ]

  -- _cp comes to its end and returns 0, if both files open and close, no call fails, no signal
  -- interrupts a read, and there are as many calls that move bytes as twice the size of the source
  -- and one more.
  pub cp-ends :
      calls.to_opens ≡ true
      → calls.to_closes ≡ true
      → calls.from_closes ≡ true
      → AllLet calls.outcomes (reading source [])
      → 2 * length source + 1 ≤ moves_in calls.outcomes
      → (cp calls from to fs).0 ≡ some tt
  cp-ends opens to_closes from_closes lets enough =
      let (target, ends) = copy_loop-ends calls.outcomes (reading source []) lets tt enough in
      rw (cp_lem opens, ends, to_closes, from_closes) refl
