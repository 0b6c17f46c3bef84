-- ===== src/Libc/Insertion.antt =====
-- An instance of the interface: insertion sort and a linear search.
use Prim.Native.Nat.{Ordering, lt, eq, gt}
use palm_sync_daemon.Base.{
  ◌≡◌, ◌≢◌, ◌⊎◌, ◌↔◌, inl, inr, refl, Option, none, some, List, [], ◌∷◌, arith,
}
use palm_sync_daemon.Libc.SortSearch.{In, IsOrder, IsSorted, SortSearch}

Ordering-cases : (o : Ordering) → (o ≡ gt) ⊎ (o ≢ gt)
Ordering-cases lt = inr (λ e. cc)
Ordering-cases eq = inr (λ e. cc)
Ordering-cases gt = inl refl

module _ {A : Type 0} (cmp : A → A → Ordering) where
  unfoldable pub insert : A → List A → List A
  insert x [] = x ∷ []
  insert x (y ∷ ys) = elim (cmp x y) [ gt ↦ y ∷ insert x ys | _ ↦ x ∷ y ∷ ys ]

  unfoldable pub sort : List A → List A
  unfolding insert
  sort [] = []
  sort (x ∷ xs) = insert x (sort xs)

  unfoldable pub search_list : A → List A → Option A
  search_list key [] = none
  search_list key (x ∷ xs) = elim (cmp key x) [ eq ↦ some x | _ ↦ search_list key xs ]

  In-insert : (z x : A) (ys : List A) → In z (insert x ys) ↔ (z ≡ x) ⊎ In z ys
  unfolding insert
  In-insert z x [] = (λ h. h, λ h. h)
  In-insert z x (y ∷ ys) =
      (λ h. ground (arith, (In-insert z x ys).0), λ h. ground (arith, (In-insert z x ys).1))

  pub In-sort : (xs : List A) (z : A) → In z (sort xs) ↔ In z xs
  unfolding sort
  In-sort [] z = (λ h. h, λ h. h)
  In-sort (x ∷ xs) z = (
    λ h. elim ((In-insert z x (sort xs)).0 h) [ inl e ↦ inl e | inr i ↦ inr ((In-sort xs z).0 i) ],
    λ h. (In-insert z x (sort xs)).1 (elim h [ inl e ↦ inl e | inr i ↦ inr ((In-sort xs z).1 i) ]),
  )

  insert-front : (x y : A) (ys : List A) → cmp x y ≢ gt → insert x (y ∷ ys) ≡ x ∷ y ∷ ys
  unfolding insert
  insert-front x y ys h = ground arith

  insert-behind : (x y : A) (ys : List A) → cmp x y ≡ gt → insert x (y ∷ ys) ≡ y ∷ insert x ys
  unfolding insert
  insert-behind x y ys h = ground arith

  insert-IsSorted :
      IsOrder cmp → (x : A) (ys : List A) → IsSorted cmp ys → IsSorted cmp (insert x ys)
  unfolding insert
  insert-IsSorted order x [] s = (λ y h. elim h [ ], tt)
  insert-IsSorted order x (y ∷ ys) s = elim (Ordering-cases (cmp x y)) [
    | inl greater ↦ rw (insert-behind x y ys greater) (
      λ w i. elim ((In-insert w x ys).0 i) [
        | inl e ↦ rw e (order.total x y greater)
        | inr j ↦ s.0 w j
      ],
      insert-IsSorted order x ys s.1,
    )
    | inr less ↦
        rw (insert-front x y ys less)
          (λ w i. elim i [ inl e ↦ rw e less | inr j ↦ order.trans x y w less (s.0 w j) ], s)
  ]

  pub sort-IsSorted : (xs : List A) → IsOrder cmp → IsSorted cmp (sort xs)
  unfolding sort
  sort-IsSorted [] order = tt
  sort-IsSorted (x ∷ xs) order = insert-IsSorted order x (sort xs) (sort-IsSorted xs order)

  pub search_list-found :
      (key x : A) (xs : List A) → search_list key xs ≡ some x → In x xs × (cmp key x ≡ eq)
  unfolding search_list
  search_list-found key x [] e = cc
  search_list-found key x (y ∷ ys) e = ground (arith, search_list-found key x ys)

  pub search_list-missing :
      (key x : A) (xs : List A) → search_list key xs ≡ none → In x xs → cmp key x ≢ eq
  unfolding search_list
  search_list-missing key x [] e i = elim i [ ]
  search_list-missing key x (y ∷ ys) e i = ground (arith, search_list-missing key x ys)

unfoldable pub insertion : SortSearch
insertion = record {
  qsort = λ A. sort;
  bsearch = λ A. search_list;
  qsort_in = λ A. In-sort;
  qsort_sorted = λ A. sort-IsSorted;
  bsearch_found = λ A cmp key x xs order sorted e. search_list-found cmp key x xs e;
  bsearch_missing = λ A cmp key x xs order sorted e i. search_list-missing cmp key x xs e i;
}
