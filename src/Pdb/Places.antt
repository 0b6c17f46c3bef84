-- ===== src/Pdb/Places.antt =====
-- Where the entries of an application stand in a PDB file of src/pdb/pdb.c: the offset of each record
-- is the place behind the entry in front of it. An entry has a size in the file and points to its
-- record by the address. The lists are split at one entry, so that what an operation does in front of
-- it, with it and behind it can be said part by part.
use palm_sync_daemon.Base.{
  ℕ, ◌+◌, ◌*◌, ◌%◌, ◌^◌, ◌≤◌, ◌<◌, ◌≡◌, ◌≢◌, ◌∙◌, refl, sym, ap, Option, some, List, [], ◌∷◌, ◌++◌,
  map, last, All, arith,
}
use palm_sync_daemon.Pdb.Types.{Ptr, PdbRecord}
use palm_sync_daemon.Pdb.Records.{pdb_record_get_unique_id}

-- `offset += d` on a uint32_t.
abbrev pub move_by : ℕ → PdbRecord → PdbRecord
move_by d r = record r { offset = (r.offset + d) % 2 ^ 32 }

module _ {T : Type 0} (size : T → ℕ) (ptr : T → Option Ptr) where
  pub record Stands (at : ℕ) (t : T) (r : PdbRecord) : Type 0 where
    pub offset_is : r.offset ≡ at
    pub points_to : ptr t ≡ some r.address

  abbrev pub Places : ℕ → List T → List PdbRecord → Type 0
  Places at [] [] = Unit
  Places at (t ∷ ts) (r ∷ rs) = Stands at t r × Places (at + size t) ts rs
  Places at _ _ = ⊥

-- The offsets of the records are the places of the entries.
abbrev pub Offsets : {T : Type 0} → (T → ℕ) → ℕ → List T → List PdbRecord → Type 0
Offsets size at [] [] = Unit
Offsets size at (t ∷ ts) (r ∷ rs) = (r.offset ≡ at) × Offsets size (at + size t) ts rs
Offsets size at _ _ = ⊥

-- The place behind the last entry.
abbrev pub places_end : {T : Type 0} → (T → ℕ) → ℕ → List T → ℕ
places_end size at [] = at
places_end size at (t ∷ ts) = places_end size (at + size t) ts

module _ {T : Type 0} (size : T → ℕ) where
  pub places_end-ge : (at : ℕ) (ts : List T) → at ≤ places_end size at ts
  places_end-ge at [] = omega arith
  places_end-ge at (t ∷ ts) = omega (arith, places_end-ge (at + size t) ts)

  pub places_end-add :
      (at d : ℕ) (ts : List T) → places_end size (at + d) ts ≡ places_end size at ts + d
  places_end-add at d [] = refl
  places_end-add at d (t ∷ ts) =
      ap (λ n. places_end size n ts) {y = at + size t + d} (omega arith)
      ∙ places_end-add (at + size t) d ts

  pub places_end-append :
      (at : ℕ) (ts us : List T)
      → places_end size at (ts ++ us) ≡ places_end size (places_end size at ts) us
  places_end-append at [] us = refl
  places_end-append at (t ∷ ts) us = places_end-append (at + size t) ts us

module _ {T : Type 0} (size : T → ℕ) (ptr : T → Option Ptr) where
  pub Places-append :
      (at : ℕ) (ts us : List T) (rs qs : List PdbRecord)
      → Places size ptr at ts rs
      → Places size ptr (places_end size at ts) us qs
      → Places size ptr at (ts ++ us) (rs ++ qs)
  Places-append at [] us [] qs p q = q
  Places-append at [] us (r ∷ rs) qs p q = elim p [ ]
  Places-append at (t ∷ ts) us [] qs p q = elim p [ ]
  Places-append at (t ∷ ts) us (r ∷ rs) qs p q =
      (p.0, Places-append (at + size t) ts us rs qs p.1 q)

  -- The records moved by `d`, from places at `at` to places at `to`; the sum may wrap.
  pub Places-move :
      (at to d wraps : ℕ) (ts : List T) (rs : List PdbRecord)
      → Places size ptr at ts rs
      → at + d ≡ to + wraps * 2 ^ 32
      → places_end size to ts < 2 ^ 32
      → Places size ptr to ts (map (move_by d) rs)
  Places-move at to d wraps [] [] p e h = tt
  Places-move at to d wraps [] (r ∷ rs) p e h = elim p [ ]
  Places-move at to d wraps (t ∷ ts) [] p e h = elim p [ ]
  Places-move at to d wraps (t ∷ ts) (r ∷ rs) p e h = (
    record {
      offset_is = omega (arith, p.0.offset_is, places_end-ge size (to + size t) ts);
      points_to = p.0.points_to;
    },
    Places-move (at + size t) (to + size t) d wraps ts rs p.1 (omega arith) h,
  )

  -- The records in front of an entry, its own, and those behind it.
  pub record Split (at : ℕ) (front : List T) (t : T) (back : List T) (rs : List PdbRecord)
      : Type 0 where
    pub before : List PdbRecord
    pub own : PdbRecord
    pub behind : List PdbRecord
    pub whole : rs ≡ before ++ (own ∷ behind)
    pub in_front : Places size ptr at front before
    pub here : Stands size ptr (places_end size at front) t own
    pub at_back : Places size ptr (places_end size at front + size t) back behind

  pub Places-Split :
      (at : ℕ) (front : List T) (t : T) (back : List T) (rs : List PdbRecord)
      → Places size ptr at (front ++ (t ∷ back)) rs
      → Split at front t back rs
  Places-Split at [] t back [] p = elim p [ ]
  Places-Split at [] t back (r ∷ rs) p = record {
    before = [];
    own = r;
    behind = rs;
    whole = refl;
    in_front = tt;
    here = p.0;
    at_back = p.1;
  }
  Places-Split at (f ∷ front) t back [] p = elim p [ ]
  Places-Split at (f ∷ front) t back (r ∷ rs) p =
      let s = Places-Split (at + size f) front t back rs p.1 in
      record {
        before = r ∷ s.before;
        own = s.own;
        behind = s.behind;
        whole = ap (◌∷◌ r) s.whole;
        in_front = (p.0, s.in_front);
        here = s.here;
        at_back = s.at_back;
      }

  pub Places-last :
      (at : ℕ) (ts : List T) (rs : List PdbRecord) (t : T) (r : PdbRecord)
      → Places size ptr at ts rs
      → last ts ≡ some t
      → last rs ≡ some r
      → r.offset + size t ≡ places_end size at ts
  Places-last at [] rs t r p e f = absurd cc
  Places-last at (t' ∷ ts) [] t r p e f = absurd cc
  Places-last at (t' ∷ []) (r' ∷ []) t r p e f =
      let same_t : t' ≡ t = cc in
      let same_r : r' ≡ r = cc in rw (← same_t, ← same_r) (omega (arith, p.0.offset_is))
  Places-last at (t' ∷ []) (r' ∷ (r'' ∷ rs)) t r p e f = elim p.1 [ ]
  Places-last at (t' ∷ (t'' ∷ ts)) (r' ∷ []) t r p e f = elim p.1 [ ]
  Places-last at (t' ∷ (t'' ∷ ts)) (r' ∷ (r'' ∷ rs)) t r p e f =
      Places-last (at + size t') (t'' ∷ ts) (r'' ∷ rs) t r p.1 e f

-- Every record has an address and an ID of its own.
abbrev pub Apart : PdbRecord → PdbRecord → Type 0
Apart r q = (q.address ≢ r.address) × (pdb_record_get_unique_id q ≢ pdb_record_get_unique_id r)

abbrev pub DistinctRecords : List PdbRecord → Type 0
DistinctRecords [] = Unit
DistinctRecords (r ∷ rs) = All (Apart r) rs × DistinctRecords rs

All-middle :
    (P : PdbRecord → Type 0) (rs : List PdbRecord) (r : PdbRecord) (qs : List PdbRecord)
    → All P (rs ++ (r ∷ qs))
    → P r
All-middle P [] r qs h = h.0
All-middle P (x ∷ xs) r qs h = All-middle P xs r qs h.1

pub Distinct-before :
    (rs : List PdbRecord) (r : PdbRecord) (qs : List PdbRecord)
    → DistinctRecords (rs ++ (r ∷ qs))
    → All (Apart r) rs
Distinct-before [] r qs d = tt
Distinct-before (x ∷ xs) r qs d =
    let other = All-middle (Apart x) xs r qs d.0 in
    ((λ e. other.0 (sym e), λ e. other.1 (sym e)), Distinct-before xs r qs d.1)
