-- ===== src/Pdb/Categories.antt =====
-- pdb_category_get_name, pdb_category_get_id, pdb_category_add and pdb_category_delete of
-- src/pdb/pdb.c, on the categories of a PDB structure that has some. 255 is UINT8_MAX, the result
-- that reports an error. The parameters `lib` are qsort and bsearch of the C library.
pub mod Find
pub mod Edit
pub mod AddFind
use Prim.Native.Nat.{Ordering}
use palm_sync_daemon.Base.{
  ℕ, zero, suc, ◌+◌, Bool, Option, none, some, List, [], ◌∷◌, ◌++◌, length, take, drop, set, get_or,
  replicate, ltb, leb, ◌==◌, if◌then◌else◌,
}
use palm_sync_daemon.Libc.Strings.{cstr, strcmp}
use palm_sync_daemon.Libc.SortSearch.{SortSearch, find_sorted}
use palm_sync_daemon.File.{Act}
use palm_sync_daemon.Pdb.Types.{Ptr, PdbCategories, pdb_categories_std_qty, pdb_category_len}

-- The buffer that the result points to.
unfoldable pub pdb_category_get_name : ℕ → PdbCategories → Option (List ℕ)
pdb_category_get_name id c =
    if leb pdb_categories_std_qty id then none else some (get_or c.names id [])

pub record SortedCategory : Type 0 where
  pub id : ℕ
  pub name : List ℕ

abbrev pub compare_categories : SortedCategory → SortedCategory → Ordering
compare_categories a b = strcmp (cstr a.name) (cstr b.name)

abbrev pub sorted_categories : List ℕ → List (List ℕ) → List SortedCategory
sorted_categories [] names = []
sorted_categories (i ∷ ids) [] = []
sorted_categories (i ∷ ids) (n ∷ names) = record { id = i; name = n } ∷ sorted_categories ids names

abbrev pub id_or_max : Option SortedCategory → ℕ
id_or_max none = 255
id_or_max (some s) = s.id

unfoldable pub pdb_category_get_id : SortSearch → List ℕ → PdbCategories → ℕ
pdb_category_get_id lib name c = id_or_max (
    find_sorted lib compare_categories (record { id = 0; name = name })
      (sorted_categories c.ids c.names))

-- The first entry with an empty name, from index `i` on.
unfoldable pub free_id : ℕ → List (List ℕ) → Option ℕ
free_id i [] = none
free_id i (n ∷ names) =
    let rest = free_id (i + 1) names in if get_or n 0 0 == 0 then some i else rest

-- `memcpy(names[id], name, length); names[id][length] = '\0'`
abbrev pub put_name : List ℕ → List ℕ → List ℕ
put_name name row = name ++ (0 ∷ drop (suc (length name)) row)

abbrev pub store_name : Option ℕ → List ℕ → PdbCategories → ℕ × PdbCategories
store_name none name c = (255, c)
store_name (some id) name c = (
  id,
  record c { names = set c.names id (put_name name (get_or c.names id [])); ids = set c.ids id id },
)

-- A name that is too long is cut to fifteen bytes in a new buffer, which `calloc` gives or not.
unfoldable pub pdb_category_add : (calloc : Option Ptr) → List ℕ → PdbCategories → ℕ × PdbCategories
unfolding free_id
pdb_category_add calloc name c =
    if length name == 0
    then (255, c)
    else (if ltb 15 (length name)
        then elim calloc [
          | none ↦ (255, c)
          | some _ ↦ store_name (free_id 0 c.names) (take 15 name) c
        ]
        else store_name (free_id 0 c.names) name c)

unfoldable pub pdb_category_delete : ℕ → PdbCategories → Option (Unit {0}) × PdbCategories
pdb_category_delete id c = if leb pdb_categories_std_qty id then (none, c) else (
  some tt,
  record c { names = set c.names id (replicate pdb_category_len 0); ids = set c.ids id 0 },
)
