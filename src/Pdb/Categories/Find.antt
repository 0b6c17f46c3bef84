-- ===== src/Pdb/Categories/Find.antt =====
-- The results of pdb_category_get_id of src/pdb/pdb.c.
use palm_sync_daemon.Base.{ℕ, ◌≡◌, ◌≢◌, ◌⊎◌, sym, inl, inr, List}
use palm_sync_daemon.Libc.Strings.{cstr, strcmp_refl, eq_of_strcmp, strcmp_total, strcmp_trans}
use palm_sync_daemon.Libc.SortSearch.{In, IsOrder, SortSearch, find_sorted-cases}
use palm_sync_daemon.Pdb.Types.{PdbCategories}
use palm_sync_daemon.Pdb.Categories.{
  SortedCategory, compare_categories, sorted_categories, pdb_category_get_id,
}

compare_categories-IsOrder : IsOrder compare_categories
compare_categories-IsOrder = record {
  total = λ x y. strcmp_total (cstr x.name) (cstr y.name);
  trans = λ x y z. strcmp_trans (cstr x.name) (cstr y.name) (cstr z.name);
}

-- pdb_category_get_id gives the ID of an entry with the name, or 255 and no entry has it, for any
-- qsort and bsearch that keep to the C standard.
pub pdb_category_get_id-cases :
    (lib : SortSearch) (name : List ℕ) (c : PdbCategories)
    → ((s : SortedCategory) × In s (sorted_categories c.ids c.names)
        × (cstr s.name ≡ cstr name)
        × (pdb_category_get_id lib name c ≡ s.id))
      ⊎ ((pdb_category_get_id lib name c ≡ 255)
          × ((s : SortedCategory)
              → In s (sorted_categories c.ids c.names)
              → cstr s.name ≢ cstr name))
unfolding pdb_category_get_id
pdb_category_get_id-cases lib name c =
    let key : SortedCategory = record { id = 0; name = name } in
    let entries = sorted_categories c.ids c.names in
    elim (find_sorted-cases lib compare_categories key entries compare_categories-IsOrder) [
      | inl (s, e, i, same) ↦ inl (s, i, sym (eq_of_strcmp (cstr name) (cstr s.name) same), rw e)
      | inr (e, other) ↦ inr (rw e, λ s i same. other s i (rw same (strcmp_refl (cstr name))))
    ]
