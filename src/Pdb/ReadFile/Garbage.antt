-- ===== src/Pdb/ReadFile/Garbage.antt =====
-- The garbage categories that _read_categories of src/pdb/pdb.c removes, by the entries of the table.
use palm_sync_daemon.Base.{
  ℕ, ◌≤◌, ◌<◌, ◌≡◌, ◌≢◌, ◌∙◌, ◌⊎◌, inl, inr, refl, ap, true, false, not, Option, none, some, List,
  [], ◌∷◌, ◌++◌, length, length-set, map, All, get_or, get_or-set_self, get_or-set_ne, ◌==◌, ◌&&◌,
  Bool-cases, ltb, zero, suc, arith,
}
use palm_sync_daemon.Pdb.Types.{PdbCategories}
use palm_sync_daemon.Pdb.ReadFile.{has_text, bzero_text, is_garbage, remove_category, prune_garbage}

abbrev pub id_at : PdbCategories → ℕ → ℕ
id_at c i = get_or c.ids i 0

abbrev pub name_at : PdbCategories → ℕ → List ℕ
name_at c i = get_or c.names i []

-- The ID is not the index, and the name begins with a byte that is not NUL.
abbrev pub IsGarbage : (index id : ℕ) → (name : List ℕ) → Type 0
IsGarbage index id name = (id ≢ index) × ((b : ℕ) × (bs : List ℕ) × (name ≡ b ∷ bs) × (b ≢ 0))

-- Each byte of the string is 0, and what stands behind it is as before.
abbrev pub IsBlanked : (name blanked : List ℕ) → Type 0
IsBlanked name blanked =
    (text : List ℕ) × (rest : List ℕ) × (name ≡ text ++ rest)
    × All (λ b. b ≢ 0) text
    × ((rest ≡ []) ⊎ ((bs : List ℕ) × (rest ≡ 0 ∷ bs)))
    × (blanked ≡ map (λ b. 0) text ++ rest)

-- Of the first `n` entries those from `j` on are garbage and removed; the entry in front of them, if
-- any, is none and gives the last ID; all else is as before.
abbrev pub GarbageGone : (n : ℕ) → (c pruned : PdbCategories) → Type 0
GarbageGone n c pruned =
    (j : ℕ) × (j ≤ n)
    × ((i : ℕ)
        → (i < j) ⊎ (n ≤ i)
        → (id_at pruned i ≡ id_at c i) × (name_at pruned i ≡ name_at c i))
    × ((i : ℕ)
        → j ≤ i
        → i < n
        → IsGarbage i (id_at c i) (name_at c i)
          × (id_at pruned i ≡ 0)
          × IsBlanked (name_at c i) (name_at pruned i))
    × (((j ≡ 0) × (pruned.last_unique_id ≡ c.last_unique_id))
        ⊎ ((i : ℕ) × (j ≡ suc i)
            × (¬ IsGarbage i (id_at c i) (name_at c i))
            × (pruned.last_unique_id ≡ i)))

-- In a table of 16 entries, if there is one.
abbrev pub InfoPruned : (read pruned : Option PdbCategories) → Type 0
InfoPruned none pruned = pruned ≡ none
InfoPruned (some c) pruned =
    (c' : PdbCategories) × (pruned ≡ some c')
    × GarbageGone 16 c c'
    × (c'.renamed_categories ≡ c.renamed_categories)
    × (c'.padding ≡ c.padding)

bzero_text-IsBlanked : (name : List ℕ) → IsBlanked name (bzero_text name)
bzero_text-IsBlanked [] = ([], [], refl, tt, inl refl, refl)
bzero_text-IsBlanked (b ∷ bs) = elim (Bool-cases (b == 0)) [
  | inl zero_byte ↦
      rw zero_byte ([], b ∷ bs, refl, tt, inr (bs, ap (λ x. x ∷ bs) {y = 0} (ground arith)), refl)
  | inr other ↦
      (let (text, rest, parts, nonzero, end, blanked) = bzero_text-IsBlanked bs in
        rw other
          (b ∷ text, rest, ap (◌∷◌ b) parts, (λ e. ground arith, nonzero), end, ap (◌∷◌ 0) blanked))
]

garbage_lem :
    (index id : ℕ) (name : List ℕ)
    → (not (id == index) && has_text name) ≡ true
    → IsGarbage index id name
garbage_lem index id [] h = absurd (ground arith)
garbage_lem index id (b ∷ bs) h = (λ e. ground arith, (b, bs, refl, λ e. ground arith))

no_garbage_lem :
    (index id : ℕ) (name : List ℕ)
    → (not (id == index) && has_text name) ≡ false
    → ¬ IsGarbage index id name
no_garbage_lem index id [] h (ne, (b, bs, e, nonzero)) = absurd cc
no_garbage_lem index id (x ∷ xs) h (ne, (b, bs, e, nonzero)) =
    let same : x ≡ b = ap (λ ys. get_or ys 0 0) e in absurd (ground arith)

removed_id : (c : PdbCategories) (i : ℕ) → i < length c.ids → id_at (remove_category i c) i ≡ 0
removed_id c i h = get_or-set_self c.ids i 0 0 h

removed_others :
    (c : PdbCategories) (i k : ℕ)
    → i ≢ k
    → (id_at (remove_category i c) k ≡ id_at c k) × (name_at (remove_category i c) k ≡ name_at c k)
removed_others c i k ne =
    (get_or-set_ne c.ids i k 0 0 ne, get_or-set_ne c.names i k (bzero_text (name_at c i)) [] ne)

Nat_cases : (i n : ℕ) → i < suc n → (i < n) ⊎ (i ≡ n)
Nat_cases i n h = elim (Bool-cases (ltb i n)) [
  | inl less ↦ inl (ground arith)
  | inr other ↦ inr (ground arith)
]

-- One more entry at the end that is garbage.
GarbageGone-suc :
    (n : ℕ) (c pruned : PdbCategories)
    → n < length c.ids
    → n < length c.names
    → IsGarbage n (id_at c n) (name_at c n)
    → GarbageGone n (remove_category n c) pruned
    → GarbageGone (suc n) c pruned
GarbageGone-suc n c pruned ids names garbage (j, below, kept, removed, end) =
    let here = kept n (inr (omega arith)) in
    let others = removed_others c n in
    (
      j,
      omega arith,
      λ i h.
          let same = others i (λ e. elim h [ inl l ↦ omega arith | inr l ↦ omega arith ]) in
          let untouched = kept i (elim h [ inl l ↦ inl l | inr l ↦ inr (omega arith) ]) in
          (untouched.0 ∙ same.0, untouched.1 ∙ same.1),
      λ i from to. elim (Nat_cases i n to) [
        | inl less ↦
            (let same = others i (λ e. omega arith) in
              rw (← same.0, ← same.1) (removed i from less))
        | inr last ↦ rw last (
          garbage,
          here.0 ∙ removed_id c n ids,
          rw (here.1, get_or-set_self c.names n (bzero_text (name_at c n)) [] names)
              (bzero_text-IsBlanked (name_at c n)),
        )
      ],
      elim end [
        | inl none_left ↦ inl none_left
        | inr (i, at, good, last) ↦
            (let same = others i (λ e. omega arith) in
              inr (i, at, rw (← same.0, ← same.1) good, last))
      ],
    )

pub prune_garbage-GarbageGone :
    (n : ℕ) (c : PdbCategories)
    → n ≤ length c.ids
    → n ≤ length c.names
    → GarbageGone n c (prune_garbage n c)
unfolding prune_garbage
prune_garbage-GarbageGone zero c ids names =
    (0, omega arith, λ i h. (refl, refl), λ i from to. absurd (omega arith), inl (refl, refl))
prune_garbage-GarbageGone (suc n) c ids names = elim (Bool-cases (is_garbage n c)) [
  | inl garbage ↦
      rw (garbage, prune_garbage)
        (GarbageGone-suc n c (prune_garbage n (remove_category n c)) (omega arith) (omega arith)
          (garbage_lem n (id_at c n) (name_at c n) garbage)
          (prune_garbage-GarbageGone n (remove_category n c) (omega (arith, length-set c.ids n 0))
            (omega (arith, length-set c.names n (bzero_text (name_at c n))))))
  | inr good ↦
      rw (good, prune_garbage)
        (
          suc n,
          omega arith,
          λ i h. (refl, refl),
          λ i from to. absurd (omega arith),
          inr (n, refl, no_garbage_lem n (id_at c n) (name_at c n) good, refl),
        )
]

pub prune_garbage-others :
    (n : ℕ) (c : PdbCategories)
    → ((prune_garbage n c).renamed_categories ≡ c.renamed_categories)
      × ((prune_garbage n c).padding ≡ c.padding)
unfolding prune_garbage
prune_garbage-others zero c = (refl, refl)
prune_garbage-others (suc n) c = elim (Bool-cases (is_garbage n c)) [
  | inl garbage ↦ rw (garbage, prune_garbage) (prune_garbage-others n (remove_category n c))
  | inr good ↦ rw (good, prune_garbage) (refl, refl)
]
