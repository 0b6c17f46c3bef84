-- ===== src/Pdb/Categories/Edit.antt =====
-- The category arrays under pdb_category_add and pdb_category_delete of src/pdb/pdb.c.
use palm_sync_daemon.Base.{
  ℕ, suc, ◌+◌, ◌≤◌, ◌<◌, ◌≡◌, ◌≢◌, ◌⊎◌, inl, inr, refl, ap, false, Option, none, some, List, [],
  ◌∷◌, length, take, take-all, drop, get_or, replicate, length-append, length-drop, length-take,
  length-set, All, All-set, All-take, All-get_or, get_or-set_self, get_or-set_ne, arith, ltb, leb,
  ◌==◌, Bool-cases,
}
use palm_sync_daemon.Libc.Strings.{cstr, cstr_of_text, IsText}
use palm_sync_daemon.Pdb.Types.{Ptr, PdbCategories}
use palm_sync_daemon.Pdb.Image.{CategoriesFit}
use palm_sync_daemon.Pdb.Categories.{
  put_name, free_id, store_name, pdb_category_add, pdb_category_delete,
}

abbrev pub IsUsed : List ℕ → Type 0
IsUsed row = get_or row 0 0 ≢ 0

-- The entry that is found is in range and empty; if none is found, all are in use.
free_id-cases :
    (i : ℕ) (names : List (List ℕ))
    → ((k : ℕ) × (free_id i names ≡ some (i + k))
        × (k < length names)
        × (get_or (get_or names k []) 0 0 ≡ 0))
      ⊎ ((free_id i names ≡ none) × All IsUsed names)
unfolding free_id
free_id-cases i [] = inr (refl, tt)
free_id-cases i (n ∷ names) = elim (Bool-cases (get_or n 0 0 == 0)) [
  | inl empty ↦ inl (0, ground arith, omega arith, ground arith)
  | inr used ↦ elim (free_id-cases (i + 1) names) [
    | inl (k, e, h, z) ↦ inl (suc k, ground arith, omega arith, z)
    | inr (e, h) ↦ inr (rw (used, e), (ground arith, h))
  ]
]

length-put_name :
    (name row : List ℕ) → length name < 16 → length row ≡ 16 → length (put_name name row) ≡ 16
length-put_name name row h k = omega (
  arith,
  length-append name (0 ∷ drop (suc (length name)) row),
  length-drop (suc (length name)) row,
)

-- What the arrays are after `name` has gone into entry `id`.
pub record Stored (name : List ℕ) (id : ℕ) (c c' : PdbCategories) : Type 0 where
  pub in_range : id < 16
  pub was_free : get_or (get_or c.names id []) 0 0 ≡ 0
  pub name_there : cstr (get_or c'.names id []) ≡ name
  pub id_there : get_or c'.ids id 0 ≡ id
  pub other_names : (j : ℕ) → id ≢ j → get_or c'.names j [] ≡ get_or c.names j []
  pub other_ids : (j : ℕ) → id ≢ j → get_or c'.ids j 0 ≡ get_or c.ids j 0
  pub fit : CategoriesFit c'

store_name-Stored :
    (k : ℕ) (name : List ℕ) (c : PdbCategories)
    → CategoriesFit c
    → IsText name
    → length name < 16
    → k < 16
    → get_or (get_or c.names k []) 0 0 ≡ 0
    → Stored name k c (store_name (some k) name c).1
store_name-Stored k name c fits text short h z =
    let row = get_or c.names k [] in
    let row_len = All-get_or (λ n. length n ≡ 16) c.names k [] fits.name_len (omega arith) in
    record {
      in_range = h;
      was_free = z;
      name_there =
          rw (get_or-set_self c.names k (put_name name row) [] (omega (arith, fits.names_len)))
            (cstr_of_text name _ text);
      id_there = get_or-set_self c.ids k k 0 (omega arith);
      other_names = λ j ne. get_or-set_ne c.names k j (put_name name row) [] ne;
      other_ids = λ j ne. get_or-set_ne c.ids k j k 0 ne;
      fit = record {
        renamed_fits = fits.renamed_fits;
        names_len = omega (arith, length-set c.names k (put_name name row), fits.names_len);
        name_len =
            All-set (λ n. length n ≡ 16) c.names k (put_name name row) fits.name_len
              (length-put_name name row short row_len);
        ids_len = omega (arith, length-set c.ids k k, fits.ids_len);
      };
    }

-- The outcome of an addition: a free entry holds the name, or there is none and nothing changes.
abbrev pub Added : List ℕ → PdbCategories → ℕ × PdbCategories → Type 0
Added name c (id, c') = Stored name id c c' ⊎ ((id ≡ 255) × (c' ≡ c) × All IsUsed c.names)

store_name-Added :
    (name : List ℕ) (c : PdbCategories)
    → CategoriesFit c
    → IsText name
    → length name < 16
    → Added name c (store_name (free_id 0 c.names) name c)
store_name-Added name c fits text short = elim (free_id-cases 0 c.names) [
  | inl (k, e, h, z) ↦
      (let e' : free_id 0 c.names ≡ some k = rw e (ap some (omega arith)) in
        rw e' (inl (store_name-Stored k name c fits text short (omega (arith, fits.names_len)) z)))
  | inr (e, h) ↦ rw e (inr (refl, refl, h))
]

-- On categories with the sizes of the C arrays, and with a buffer for a cut name, pdb_category_add
-- puts a nonempty name, cut to fifteen bytes, into a free entry under its own index, leaves the
-- other entries and the array sizes alone, and reports 255 with nothing changed if every entry is
-- in use.
pub pdb_category_add-Added :
    (a : Ptr) (name : List ℕ) (c : PdbCategories)
    → CategoriesFit c
    → IsText name
    → 0 < length name
    → Added (take 15 name) c (pdb_category_add (some a) name c)
unfolding pdb_category_add
pdb_category_add-Added a name c fits text more =
    let nonempty : (length name == 0) ≡ false = ground arith in
    elim (Bool-cases (ltb 15 (length name))) [
      | inl long ↦
          rw (nonempty, long)
            (store_name-Added (take 15 name) c fits (All-take (λ b. b ≢ 0) 15 name text)
              (omega (arith, length-take 15 name)))
      | inr short ↦
          (let whole : take 15 name ≡ name = take-all 15 name (ground arith) in
            rw (nonempty, short, whole) (store_name-Added name c fits text (ground arith)))
    ]

-- An empty name is refused, and so is one that is too long where no buffer for its cut can be had.
pub pdb_category_add-refused :
    (calloc : Option Ptr) (name : List ℕ) (c : PdbCategories)
    → ((length name ≡ 0) ⊎ ((15 < length name) × (calloc ≡ none)))
    → pdb_category_add calloc name c ≡ (255, c)
unfolding pdb_category_add
pdb_category_add-refused calloc name c (inl e) = ground arith
pdb_category_add-refused calloc name c (inr (h, e)) = rw e (ground arith)

-- On categories with the sizes of the C arrays, pdb_category_delete empties the entry and no other
-- name and keeps the array sizes; on an ID out of range it fails and changes nothing.
pub pdb_category_delete_lem :
    (id : ℕ) (c : PdbCategories)
    → CategoriesFit c
    → let (r, c') = pdb_category_delete id c in
      ((id < 16)
        × (r ≡ some tt)
        × (cstr (get_or c'.names id []) ≡ [])
        × (get_or c'.ids id 0 ≡ 0)
        × ((j : ℕ) → id ≢ j → get_or c'.names j [] ≡ get_or c.names j [])
        × CategoriesFit c')
      ⊎ ((16 ≤ id) × (r ≡ none) × (c' ≡ c))
unfolding pdb_category_delete
pdb_category_delete_lem id c fits = elim (Bool-cases (leb 16 id)) [
  | inl out ↦ rw out (inr (ground arith, refl, refl))
  | inr inside ↦
      (let row : List ℕ = replicate 16 0 in
        let h : id < 16 = ground arith in
        rw inside (
          inl (
            h,
            refl,
            rw (get_or-set_self c.names id row [] (omega (arith, fits.names_len))),
            get_or-set_self c.ids id 0 0 (omega (arith, fits.ids_len)),
            λ j ne. get_or-set_ne c.names id j row [] ne,
            record {
              renamed_fits = fits.renamed_fits;
              names_len = omega (arith, length-set c.names id row, fits.names_len);
              name_len = All-set (λ n. length n ≡ 16) c.names id row fits.name_len refl;
              ids_len = omega (arith, length-set c.ids id 0, fits.ids_len);
            },
          )))
]
