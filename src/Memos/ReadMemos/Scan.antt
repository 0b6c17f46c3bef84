-- ===== src/Memos/ReadMemos/Scan.antt =====
-- The scan of _memos_read_memo of src/pdb/memos.c, where the byte that it looks for is ahead.
use palm_sync_daemon.Base.{
  ℕ, zero, suc, ◌+◌, ◌-◌, ◌≤◌, ◌<◌, ◌≡◌, ◌≢◌, ◌∙◌, ap, refl, true, false, none, some, List, [], ◌∷◌,
  ◌++◌, length, take, drop, length-append, All, ◌==◌, ==_refl, ==_iff, subst, sym, Option, arith,
  ltb, Bool-cases, inl, inr, length-take, length-drop, drop-drop,
}
use palm_sync_daemon.File.{File, Io}
use palm_sync_daemon.File.Reads.{map-value, ahead, skip, read_gets}
use palm_sync_daemon.Memos.ReadMemos.{index_of, seek_back, scan_loop, scan_chunk, scan}

pub index_of-here :
    (c n : ℕ) (xs rest : List ℕ)
    → All (λ b. b ≢ c) xs
    → length xs < n
    → index_of c (take n (xs ++ (c ∷ rest))) ≡ some (length xs)
index_of-here c zero xs rest h k = absurd (omega arith)
index_of-here c (suc n) [] rest h k = rw (==_refl c)
index_of-here c (suc n) (x ∷ xs) rest h k =
    let other : (x == c) ≡ false = ground (arith, h.0) in
    rw (other, index_of-here c n xs rest h.1 (omega arith))

pub index_of-later :
    (c n : ℕ) (xs rest : List ℕ)
    → All (λ b. b ≢ c) xs
    → n ≤ length xs
    → index_of c (take n (xs ++ rest)) ≡ none
index_of-later c zero xs rest h k = refl
index_of-later c (suc n) [] rest h k = absurd (omega arith)
index_of-later c (suc n) (x ∷ xs) rest h k =
    let other : (x == c) ≡ false = ground (arith, h.0) in
    rw (other, index_of-later c n xs rest h.1 (omega arith))

-- One turn.
scan_chunk-here :
    (extra : ℕ) (more : Io ℕ) (got : List ℕ) (i : ℕ) (f : File)
    → i < length got
    → scan_chunk extra more got (some i) f
      ≡ (some i, record f { pos = f.pos + extra - (length got - i) })
unfolding seek_back
scan_chunk-here extra more [] i f h = absurd (omega arith)
scan_chunk-here extra more (b ∷ bs) i f h = refl

scan_chunk-later :
    (extra : ℕ) (more : Io ℕ) (got : List ℕ) (n : ℕ) (f g : File)
    → 0 < length got
    → more f ≡ (some n, g)
    → scan_chunk extra more got none f ≡ (some (length got + n), g)
scan_chunk-later extra more [] n f g h e = absurd (omega arith)
scan_chunk-later extra more (b ∷ bs) n f g h e = rw e

pub drop_in_front : (n : ℕ) (xs ys : List ℕ) → n ≤ length xs → drop n (xs ++ ys) ≡ drop n xs ++ ys
drop_in_front zero xs ys h = refl
drop_in_front (suc n) [] ys h = absurd (omega arith)
drop_in_front (suc n) (x ∷ xs) ys h = drop_in_front n xs ys (omega arith)

pub All-drop : (P : ℕ → Type 0) (n : ℕ) (xs : List ℕ) → All P xs → All P (drop n xs)
All-drop P zero xs h = h
All-drop P (suc n) [] h = tt
All-drop P (suc n) (x ∷ xs) h = All-drop P n xs h.1

scan_loop-finds :
    (c extra fuel : ℕ) (xs rest : List ℕ) (f : File)
    → All (λ b. b ≢ c) xs
    → f.readable ≡ true
    → ahead f ≡ xs ++ (c ∷ rest)
    → length xs < fuel
    → scan_loop c extra fuel f ≡ (some (length xs), skip (length xs + extra) f)
unfolding scan_loop
scan_loop-finds c extra zero xs rest f h r e enough = absurd (omega arith)
scan_loop-finds c extra (suc fuel) xs rest f h r e enough =
    let got = take 10 (ahead f) in
    let all : length (ahead f) ≡ length xs + suc (length rest) =
      ap length e ∙ length-append xs (c ∷ rest) in
    let size = length-take 10 (ahead f) in
    elim (Bool-cases (ltb (length xs) 10)) [
      | inl near ↦
          (let found : index_of c got ≡ some (length xs) =
              rw e (index_of-here c 10 xs rest h (ground arith)) in
            let less : length xs < 10 = ground arith in
            let inside : length xs < length got = omega (arith, size, all, less) in
            rw
              (
                read_gets 10 f r,
                found,
                scan_chunk-here extra (scan_loop c extra fuel) got (length xs) (skip (length got) f)
                    inside,
              )
              (ap (λ n. (some (length xs), record f { pos = n })) (omega (arith, inside))))
      | inr far ↦
          (let more : 10 ≤ length xs = ground arith in
            let ten : length got ≡ 10 = omega (arith, size, all, more) in
            let none_found : index_of c got ≡ none =
              rw e (index_of-later c 10 xs (c ∷ rest) h more) in
            let next : ahead (skip (length got) f) ≡ drop 10 xs ++ (c ∷ rest) =
              rw ten (
                drop-drop 10 f.pos f.bytes
                ∙ ap (drop 10) e
                ∙ drop_in_front 10 xs (c ∷ rest) more) in
            let left = length-drop 10 xs in
            rw (read_gets 10 f r, none_found)
              (scan_chunk-later extra (scan_loop c extra fuel) got (length (drop 10 xs))
                  (skip (length got) f) _ (omega (arith, ten))
                  (scan_loop-finds c extra fuel (drop 10 xs) rest (skip (length got) f)
                    (All-drop (λ b. b ≢ c) 10 xs h) r next (omega (arith, left, more, enough)))
                ∙ ap (λ n. (some (length got + length (drop 10 xs)), record f { pos = n }))
                    {y = f.pos + (length got + length (drop 10 xs) + extra)} (omega arith)
                ∙ ap (λ n. (some n, skip (n + extra) f)) {y = length xs}
                    (omega (arith, ten, left, more))))
    ]

-- Where the byte is ahead, a scan gives its distance and goes to it, plus `extra`; the turns are enough.
pub scan-finds :
    (c extra : ℕ) (xs rest : List ℕ) (f : File)
    → All (λ b. b ≢ c) xs
    → f.readable ≡ true
    → ahead f ≡ xs ++ (c ∷ rest)
    → scan c extra f ≡ (some (length xs), skip (length xs + extra) f)
unfolding scan
scan-finds c extra xs rest f h r e =
    scan_loop-finds c extra (length f.bytes + 2) xs rest f h r e
      (omega (arith, ap length e, length-append xs (c ∷ rest), length-drop f.pos f.bytes))

index_of-none : (c n : ℕ) (xs : List ℕ) → All (λ b. b ≢ c) xs → index_of c (take n xs) ≡ none
index_of-none c zero xs h = refl
index_of-none c (suc n) [] h = refl
index_of-none c (suc n) (x ∷ xs) h =
    let other : (x == c) ≡ false = ground (arith, h.0) in rw (other, index_of-none c n xs h.1)

scan_chunk-end :
    (extra : ℕ) (more : Io ℕ) (got : List ℕ) (found : Option ℕ) (f : File)
    → length got ≡ 0
    → scan_chunk extra more got found f ≡ (some 0, f)
scan_chunk-end extra more [] found f h = refl
scan_chunk-end extra more (b ∷ bs) found f h = absurd (omega arith)

scan_chunk-value :
    (extra : ℕ) (more : Io ℕ) (got : List ℕ) (n : ℕ) (f : File)
    → 0 < length got
    → (more f).0 ≡ some n
    → (scan_chunk extra more got none f).0 ≡ some (length got + n)
scan_chunk-value extra more [] n f h e = absurd (omega arith)
scan_chunk-value extra more (b ∷ bs) n f h e = map-value (λ k. length (b ∷ bs) + k) (more f) e

scan_loop-ends :
    (c extra fuel : ℕ) (f : File)
    → All (λ b. b ≢ c) (ahead f)
    → f.readable ≡ true
    → length (ahead f) < fuel
    → (scan_loop c extra fuel f).0 ≡ some (length (ahead f))
unfolding scan_loop
scan_loop-ends c extra zero f h r enough = absurd (omega arith)
scan_loop-ends c extra (suc fuel) f h r enough =
    let got = take 10 (ahead f) in
    let size = length-take 10 (ahead f) in
    let none_found = index_of-none c 10 (ahead f) h in
    elim (Bool-cases (length got == 0)) [
      | inl empty ↦
          (let zero_got : length got ≡ 0 = (==_iff _ _).0 empty in
            rw
              (
                read_gets 10 f r,
                scan_chunk-end extra (scan_loop c extra fuel) got (index_of c got)
                    (skip (length got) f) zero_got,
              )
              (ap some (omega (arith, size, zero_got))))
      | inr more ↦
          (let some_got : 0 < length got = ground arith in
            let next : ahead (skip (length got) f) ≡ drop (length got) (ahead f) =
              drop-drop (length got) f.pos f.bytes in
            let left : length (ahead (skip (length got) f)) ≡ length (ahead f) - length got =
              ap length next ∙ length-drop (length got) (ahead f) in
            let others : All (λ b. b ≢ c) (ahead (skip (length got) f)) =
              subst (λ xs. All (λ b. b ≢ c) xs) (sym next)
                (All-drop (λ b. b ≢ c) (length got) (ahead f) h) in
            let rest =
              scan_loop-ends c extra fuel (skip (length got) f) others r
                (omega (arith, left, some_got)) in
            rw (read_gets 10 f r, none_found)
              (scan_chunk-value extra (scan_loop c extra fuel) got _ (skip (length got) f) some_got
                  rest
                ∙ ap some (omega (arith, left, size))))
    ]

-- The scan for the end of a header or a text ends on a readable file in which the byte is not
-- ahead, and then has counted all the bytes ahead.
pub scan-ends :
    (c extra : ℕ) (f : File)
    → All (λ b. b ≢ c) (ahead f)
    → f.readable ≡ true
    → (scan c extra f).0 ≡ some (length (ahead f))
unfolding scan
scan-ends c extra f h r =
    scan_loop-ends c extra (length f.bytes + 2) f h r (omega (arith, length-drop f.pos f.bytes))
