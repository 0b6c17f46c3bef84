-- ===== src/Pdb/Categories/AddFind.antt =====
-- pdb_category_get_id after pdb_category_add.
use palm_sync_daemon.Base.{
  ℕ, zero, suc, ◌<◌, ◌≡◌, ◌≢◌, ◌∙◌, sym, ap, inl, inr, refl, List, [], ◌∷◌, some, length, take,
  get_or, All-take, arith, Bool-cases, ◌==◌, ==_iff,
}
use palm_sync_daemon.Libc.Strings.{cstr, IsText, cstr-text}
use palm_sync_daemon.Libc.SortSearch.{In, SortSearch}
use palm_sync_daemon.Pdb.Types.{Ptr, PdbCategories}
use palm_sync_daemon.Pdb.Image.{CategoriesFit}
use palm_sync_daemon.Pdb.Categories.{
  SortedCategory, sorted_categories, pdb_category_get_id, pdb_category_add,
}
use palm_sync_daemon.Pdb.Categories.Find.{pdb_category_get_id-cases}
use palm_sync_daemon.Pdb.Categories.Edit.{Stored, pdb_category_add-Added}

abbrev entry : List ℕ → List (List ℕ) → ℕ → SortedCategory
entry ids names j = record { id = get_or ids j 0; name = get_or names j [] }

-- The array that is searched holds the entries of the two arrays.
entry_of_In :
    (ids : List ℕ) (names : List (List ℕ)) (s : SortedCategory)
    → In s (sorted_categories ids names)
    → (j : ℕ) × (j < length names) × (s ≡ entry ids names j)
entry_of_In [] names s i = elim i [ ]
entry_of_In (x ∷ ids) [] s i = elim i [ ]
entry_of_In (x ∷ ids) (n ∷ names) s (inl e) = (0, omega arith, e)
entry_of_In (x ∷ ids) (n ∷ names) s (inr i) =
    let (j, h, e) = entry_of_In ids names s i in (suc j, omega arith, e)

In-of_entry :
    (ids : List ℕ) (names : List (List ℕ)) (j : ℕ)
    → length ids ≡ length names
    → j < length names
    → In (entry ids names j) (sorted_categories ids names)
In-of_entry ids [] j e h = absurd (omega arith)
In-of_entry [] (n ∷ names) j e h = absurd (omega arith)
In-of_entry (x ∷ ids) (n ∷ names) zero e h = inl refl
In-of_entry (x ∷ ids) (n ∷ names) (suc j) e h =
    inr (In-of_entry ids names j (omega arith) (omega arith))

-- A name that no entry had is found, once it is stored, at the ID that the addition gave.
get_id-Stored :
    (lib : SortSearch) (name : List ℕ) (id : ℕ) (c c' : PdbCategories)
    → IsText name
    → Stored name id c c'
    → ((j : ℕ) → cstr (get_or c.names j []) ≢ name)
    → pdb_category_get_id lib name c' ≡ id
get_id-Stored lib name id c c' text st fresh =
    let own : cstr name ≡ name = cstr-text name text in
    elim (pdb_category_get_id-cases lib name c') [
      | inl (s, i, same, e) ↦
          (let (j, h, at_j) = entry_of_In c'.ids c'.names s i in
            elim (Bool-cases (id == j)) [
              | inl here ↦
                  (let q : id ≡ j = (==_iff id j).0 here in
                    e ∙ ap (λ (x : SortedCategory). x.id) at_j ∙ rw (← q) st.id_there)
              | inr there ↦
                  (let ne : id ≢ j = ground arith in
                    absurd (
                      fresh j (
                        ap cstr (sym (st.other_names j ne))
                        ∙ ap (λ (x : SortedCategory). cstr x.name) (sym at_j)
                        ∙ same
                        ∙ own)))
            ])
      | inr (e, other) ↦ absurd (
          other (entry c'.ids c'.names id)
            (In-of_entry c'.ids c'.names id (omega arith) (omega arith)) (st.name_there ∙ sym own))
    ]

-- On categories with the sizes of the C arrays, a nonempty name that, cut to fifteen bytes, no
-- category has, once pdb_category_add has stored it, is found by pdb_category_get_id under the ID
-- that the addition gave, whatever qsort and bsearch do with equal names.
pub get_id-add :
    (lib : SortSearch) (a : Ptr) (name : List ℕ) (c : PdbCategories)
    → CategoriesFit c
    → IsText name
    → 0 < length name
    → ((j : ℕ) → cstr (get_or c.names j []) ≢ take 15 name)
    → (pdb_category_add (some a) name c).0 ≢ 255
    → pdb_category_get_id lib (take 15 name) (pdb_category_add (some a) name c).1
      ≡ (pdb_category_add (some a) name c).0
get_id-add lib a name c fits text more fresh added =
    elim (pdb_category_add-Added a name c fits text more) [
      | inl st ↦
          get_id-Stored lib (take 15 name) _ c _ (All-take (λ b. b ≢ 0) 15 name text) st fresh
      | inr (e, same, full) ↦ absurd (added e)
    ]
