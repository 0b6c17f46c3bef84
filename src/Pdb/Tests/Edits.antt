-- ===== src/Pdb/Tests/Edits.antt =====
-- The theorems on editing records and categories (src/pdb/pdb.c), applied to concrete structures.
use palm_sync_daemon.Base.{
  ℕ, zero, suc, All, ◌≡◌, ◌≢◌, ◌⊎◌, refl, inr, none, some, List, [], ◌∷◌, ◌++◌, arith, take, get_or,
}
use palm_sync_daemon.Libc.Strings.{cstr}
use palm_sync_daemon.Libc.SortSearch.{In}
use palm_sync_daemon.Libc.Insertion.{insertion}
use palm_sync_daemon.Pdb.Records.{id_of_long, new_record, pdb_record_create, pdb_record_delete}
use palm_sync_daemon.Pdb.Records.Laws.{
  IsConsistent, Removed, NoneHas, create-IsConsistent, delete_lem, delete-create,
}
use palm_sync_daemon.Pdb.Categories.{
  SortedCategory, sorted_categories, pdb_category_get_id, pdb_category_add,
}
use palm_sync_daemon.Pdb.Categories.Find.{pdb_category_get_id-cases}
use palm_sync_daemon.Pdb.Categories.Edit.{Added, pdb_category_add-Added}
use palm_sync_daemon.Pdb.Categories.AddFind.{get_id-add}
use palm_sync_daemon.Pdb.Tests.{memo_categories, memo_categories-Fit, stored_pdb}

stored_pdb-Consistent : IsConsistent stored_pdb
stored_pdb-Consistent = record { few = omega arith; counted = refl; placed = inr refl }

create-IsConsistent_example :
    let (r, p) = pdb_record_create (some 9) 0xabcdef 500 0x42 none stored_pdb in
    (r ≡ some 9)
    × (p.records ≡ stored_pdb.records ++ (new_record 9 500 0x42 (id_of_long 0xabcdef) none ∷ []))
    × IsConsistent p
create-IsConsistent_example =
    create-IsConsistent 9 0xabcdef 500 0x42 none stored_pdb stored_pdb-Consistent (omega arith)

delete_lem_example :
    let (r, p) = pdb_record_delete 0x030201 stored_pdb in
    ((r ≡ some tt) × Removed (id_of_long 0x030201) stored_pdb.records p.records × IsConsistent p)
    ⊎ ((r ≡ none) × NoneHas (id_of_long 0x030201) stored_pdb.records × (p ≡ stored_pdb))
delete_lem_example = delete_lem 0x030201 stored_pdb stored_pdb-Consistent

delete-create_example :
    pdb_record_delete 0x030202 (pdb_record_create (some 9) 0x030202 500 0x42 none stored_pdb).1
    ≡ (some tt, stored_pdb)
delete-create_example =
    delete-create 9 0x030202 500 0x42 none stored_pdb (refl, tt) (omega arith) (omega arith)
      (omega arith)

pdb_category_get_id-cases_example :
    ((s : SortedCategory) × In s (sorted_categories memo_categories.ids memo_categories.names)
      × (cstr s.name ≡ cstr (65 ∷ 66 ∷ []))
      × (pdb_category_get_id insertion (65 ∷ 66 ∷ []) memo_categories ≡ s.id))
    ⊎ ((pdb_category_get_id insertion (65 ∷ 66 ∷ []) memo_categories ≡ 255)
        × ((s : SortedCategory)
            → In s (sorted_categories memo_categories.ids memo_categories.names)
            → cstr s.name ≢ cstr (65 ∷ 66 ∷ [])))
pdb_category_get_id-cases_example =
    pdb_category_get_id-cases insertion (65 ∷ 66 ∷ []) memo_categories

pdb_category_add-Added_example :
    Added (take 15 (67 ∷ [])) memo_categories (pdb_category_add (some 1) (67 ∷ []) memo_categories)
pdb_category_add-Added_example =
    pdb_category_add-Added 1 (67 ∷ []) memo_categories memo_categories-Fit (omega arith, tt)
      (omega arith)

abbrev c_name : List ℕ
c_name = 67 ∷ []

other : [] ≢ c_name
other e = cc

third_is_free : (pdb_category_add (some 1) (67 ∷ []) memo_categories).0 ≢ 255
unfolding pdb_category_add
third_is_free e = omega arith

not_there :
    (names : List (List ℕ)) (j : ℕ)
    → All (λ n. cstr n ≢ 67 ∷ []) names
    → cstr (get_or names j []) ≢ 67 ∷ []
not_there [] j h = λ e. cc
not_there (n ∷ names) zero h = h.0
not_there (n ∷ names) (suc j) h = not_there names j h.1

-- No category of the example is called "C".
fresh_name : (j : ℕ) → cstr (get_or memo_categories.names j []) ≢ take 15 (67 ∷ [])
fresh_name j = not_there memo_categories.names j (
  λ e. grind arith,
  (
    λ e. cc,
    (
      other,
      (
        other,
        (
          other,
          (
            other,
            (
              other,
              (other, (other, (other, (other, (other, (other, (other, (other, (other, tt))))))))),
            ),
          ),
        ),
      ),
    ),
  ),
)

get_id-add_example :
    pdb_category_get_id insertion
      (take 15 (67 ∷ []))
      (pdb_category_add (some 1) (67 ∷ []) memo_categories).1
    ≡ (pdb_category_add (some 1) (67 ∷ []) memo_categories).0
get_id-add_example =
    get_id-add insertion 1 (67 ∷ []) memo_categories memo_categories-Fit (omega arith, tt)
      (omega arith) fresh_name third_is_free
