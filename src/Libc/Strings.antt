-- ===== src/Libc/Strings.antt =====
-- C strings: the bytes of a buffer up to its first NUL, and strcmp(3) on them, by its sign.
use Prim.Native.Nat.{compare, Ordering, lt, eq, gt}
use palm_sync_daemon.Base.{ℕ, ◌≡◌, ◌≢◌, refl, List, [], ◌∷◌, ◌++◌, ◌==◌, if◌then◌else◌, All, arith}

-- The text of a buffer; strlen(3) is its length.
abbrev pub cstr : List ℕ → List ℕ
cstr [] = []
cstr (b ∷ bs) = let rest = cstr bs in if b == 0 then [] else b ∷ rest

abbrev pub IsText : List ℕ → Type 0
IsText bs = All (λ b. b ≢ 0) bs

abbrev pub then_by : Ordering → Ordering → Ordering
then_by lt o = lt
then_by eq o = o
then_by gt o = gt

unfoldable pub strcmp : List ℕ → List ℕ → Ordering
strcmp [] [] = eq
strcmp [] (y ∷ ys) = lt
strcmp (x ∷ xs) [] = gt
strcmp (x ∷ xs) (y ∷ ys) = then_by (compare x y) (strcmp xs ys)

pub strcmp_refl : (xs : List ℕ) → strcmp xs xs ≡ eq
unfolding strcmp
strcmp_refl [] = refl
strcmp_refl (x ∷ xs) = ground (arith, strcmp_refl xs)

pub eq_of_strcmp : (xs ys : List ℕ) → strcmp xs ys ≡ eq → xs ≡ ys
unfolding strcmp
eq_of_strcmp [] [] h = refl
eq_of_strcmp [] (y ∷ ys) h = cc
eq_of_strcmp (x ∷ xs) [] h = cc
eq_of_strcmp (x ∷ xs) (y ∷ ys) h = ground (arith, eq_of_strcmp xs ys)

pub strcmp_total : (xs ys : List ℕ) → strcmp xs ys ≡ gt → strcmp ys xs ≢ gt
unfolding strcmp
strcmp_total [] [] h = cc
strcmp_total [] (y ∷ ys) h = cc
strcmp_total (x ∷ xs) [] h = λ e. cc
strcmp_total (x ∷ xs) (y ∷ ys) h = ground (arith, strcmp_total xs ys)

pub strcmp_trans : (xs ys zs : List ℕ) → strcmp xs ys ≢ gt → strcmp ys zs ≢ gt → strcmp xs zs ≢ gt
unfolding strcmp
strcmp_trans [] ys [] h k = λ e. cc
strcmp_trans [] ys (z ∷ zs) h k = λ e. cc
strcmp_trans (x ∷ xs) [] zs h k = absurd (h refl)
strcmp_trans (x ∷ xs) (y ∷ ys) [] h k = absurd (k refl)
strcmp_trans (x ∷ xs) (y ∷ ys) (z ∷ zs) h k = ground (arith, strcmp_trans xs ys zs)

pub cstr_of_text : (xs rest : List ℕ) → IsText xs → cstr (xs ++ (0 ∷ rest)) ≡ xs
cstr_of_text [] rest h = refl
cstr_of_text (x ∷ xs) rest h = ground (arith, cstr_of_text xs rest h.1)

pub cstr-text : (xs : List ℕ) → IsText xs → cstr xs ≡ xs
cstr-text [] h = refl
cstr-text (x ∷ xs) h = ground (arith, cstr-text xs h.1)
