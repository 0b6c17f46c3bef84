-- ===== src/Libc/SortSearch.antt =====
-- qsort(3) and bsearch(3), whose code is not in the repository, by what the C standard says of
-- them. A comparison function gives the sign of its result.
use Prim.Native.Nat.{Ordering, eq, gt}
use palm_sync_daemon.Base.{
  ◌≡◌, ◌≢◌, ◌⊎◌, ◌↔◌, inl, inr, Option-cases, Option, none, some, List, [], ◌∷◌,
}

abbrev pub In : {A : Type 0} → A → List A → Type 0
In x [] = ⊥
In x (y ∷ ys) = (x ≡ y) ⊎ In x ys

-- What the standard asks of a comparison function.
pub record IsOrder {A : Type 0} (cmp : A → A → Ordering) : Type 0 where
  pub total : (x y : A) → cmp x y ≡ gt → cmp y x ≢ gt
  pub trans : (x y z : A) → cmp x y ≢ gt → cmp y z ≢ gt → cmp x z ≢ gt

-- No element is greater than one behind it.
abbrev pub IsSorted : {A : Type 0} → (A → A → Ordering) → List A → Type 0
IsSorted cmp [] = Unit
IsSorted {A} cmp (x ∷ xs) = ((y : A) → In y xs → cmp x y ≢ gt) × IsSorted cmp xs

pub record SortSearch : Type 1 where
  pub qsort : (A : Type 0) → (A → A → Ordering) → List A → List A
  pub bsearch : (A : Type 0) → (A → A → Ordering) → A → List A → Option A
  pub qsort_in :
      (A : Type 0) (cmp : A → A → Ordering) (xs : List A) (x : A) → In x (qsort A cmp xs) ↔ In x xs
  pub qsort_sorted :
      (A : Type 0) (cmp : A → A → Ordering) (xs : List A)
      → IsOrder cmp
      → IsSorted cmp (qsort A cmp xs)
  pub bsearch_found :
      (A : Type 0) (cmp : A → A → Ordering) (key x : A) (xs : List A)
      → IsOrder cmp
      → IsSorted cmp xs
      → bsearch A cmp key xs ≡ some x
      → In x xs × (cmp key x ≡ eq)
  pub bsearch_missing :
      (A : Type 0) (cmp : A → A → Ordering) (key x : A) (xs : List A)
      → IsOrder cmp
      → IsSorted cmp xs
      → bsearch A cmp key xs ≡ none
      → In x xs
      → cmp key x ≢ eq

-- A search in a sorted copy, as the program makes it.
unfoldable pub find_sorted :
    (lib : SortSearch) {A : Type 0} → (A → A → Ordering) → A → List A → Option A
find_sorted lib {A} cmp key xs = lib.bsearch A cmp key (lib.qsort A cmp xs)

-- It finds an element of the list that compares equal, or there is none.
pub find_sorted-cases :
    (lib : SortSearch) {A : Type 0} (cmp : A → A → Ordering) (key : A) (xs : List A)
    → IsOrder cmp
    → ((x : A) × (find_sorted lib cmp key xs ≡ some x) × In x xs × (cmp key x ≡ eq))
      ⊎ ((find_sorted lib cmp key xs ≡ none) × ((x : A) → In x xs → cmp key x ≢ eq))
unfolding find_sorted
find_sorted-cases lib {A} cmp key xs order =
    let ys = lib.qsort A cmp xs in
    let sorted = lib.qsort_sorted A cmp xs order in
    elim (Option-cases (lib.bsearch A cmp key ys)) [
      | inl e ↦ inr (
        e,
        λ x i. lib.bsearch_missing A cmp key x ys order sorted e ((lib.qsort_in A cmp xs x).1 i),
      )
      | inr (x, e) ↦
          (let found = lib.bsearch_found A cmp key x ys order sorted e in
            inl (x, e, (lib.qsort_in A cmp xs x).0 found.0, found.1))
    ]
