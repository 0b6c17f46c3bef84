-- ===== src/File/Overwrite.antt =====
-- The contents of a file after bytes are put at a position.
use Prim.Native.Nat.add
use native.Mathlib.Nat.{add-zero}
use palm_sync_daemon.Base.{
  ℕ, zero, suc, ◌+◌, ◌≤◌, ◌≡◌, refl, sym, ap, List, [], ◌∷◌, ◌++◌, length, take, drop, get_or,
  drop-nil, arith,
}

-- `xs` at position `k`; a gap behind the old end is filled with zeroes.
unfoldable pub overwrite : ℕ → List ℕ → List ℕ → List ℕ
overwrite k [] bs = bs
overwrite zero (x ∷ xs) bs = x ∷ overwrite zero xs (drop 1 bs)
overwrite (suc k) (x ∷ xs) bs = get_or bs 0 0 ∷ overwrite k (x ∷ xs) (drop 1 bs)

pub overwrite-suc :
    (k : ℕ) (b : ℕ) (xs bs : List ℕ) → overwrite (suc k) xs (b ∷ bs) ≡ b ∷ overwrite k xs bs
unfolding overwrite
overwrite-suc k b [] bs = refl
overwrite-suc k b (x ∷ xs) bs = refl

-- Two writes in a row are one write of both.
pub overwrite-append :
    (k : ℕ) (xs ys bs : List ℕ)
    → overwrite (k + length xs) ys (overwrite k xs bs) ≡ overwrite k (xs ++ ys) bs
unfolding overwrite
overwrite-append k [] ys bs = rw add-zero
overwrite-append zero (x ∷ xs) ys bs =
    rw (add.zero, overwrite-suc, ← add.zero (length xs))
      (ap (◌∷◌ x) (overwrite-append zero xs ys (drop 1 bs)))
overwrite-append (suc k) (x ∷ xs) ys bs =
    rw (add.suc, overwrite-suc)
      (ap (◌∷◌ (get_or bs 0 0)) (overwrite-append k (x ∷ xs) ys (drop 1 bs)))

drop-suc : (k : ℕ) (bs : List ℕ) → drop (suc k) bs ≡ drop k (drop 1 bs)
drop-suc k [] = sym (drop-nil k)
drop-suc k (b ∷ bs) = refl

-- At the start of the file nothing stands in front.
pub overwrite-zero : (xs bs : List ℕ) → overwrite 0 xs bs ≡ xs ++ drop (length xs) bs
unfolding overwrite
overwrite-zero [] bs = refl
overwrite-zero (x ∷ xs) bs =
    rw (drop-suc (length xs) bs) (ap (◌∷◌ x) (overwrite-zero xs (drop 1 bs)))

-- What is read back at the position: the bytes written, and then the old ones.
pub drop-overwrite :
    (k : ℕ) (x : ℕ) (xs bs : List ℕ)
    → drop k (overwrite k (x ∷ xs) bs) ≡ (x ∷ xs) ++ drop (length (x ∷ xs)) (drop k bs)
unfolding overwrite
drop-overwrite zero x xs bs = overwrite-zero (x ∷ xs) bs
drop-overwrite (suc k) x xs bs = rw (drop-suc k bs) (drop-overwrite k x xs (drop 1 bs))

-- What stands in front of the position stays.
pub take-overwrite :
    (k : ℕ) (xs bs : List ℕ) → k ≤ length bs → take k (overwrite k xs bs) ≡ take k bs
unfolding overwrite
take-overwrite k [] bs h = refl
take-overwrite zero (x ∷ xs) bs h = refl
take-overwrite (suc k) (x ∷ xs) [] h = absurd (omega arith)
take-overwrite (suc k) (x ∷ xs) (b ∷ bs) h = ap (◌∷◌ b) (take-overwrite k (x ∷ xs) bs (omega arith))

-- Bytes put behind a prefix leave the prefix.
pub overwrite-behind :
    (k : ℕ) (xs ys bs : List ℕ) → overwrite (length xs + k) ys (xs ++ bs) ≡ xs ++ overwrite k ys bs
unfolding overwrite
overwrite-behind k [] ys bs = rw add.zero
overwrite-behind k (x ∷ xs) ys bs =
    rw (add.suc, overwrite-suc (length xs + k) x ys (xs ++ bs))
      (ap (◌∷◌ x) (overwrite-behind k xs ys bs))
