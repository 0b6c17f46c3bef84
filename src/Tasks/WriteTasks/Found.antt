-- ===== src/Tasks/WriteTasks/Found.antt =====
-- Where _tasks_write_task of src/pdb/tasks.c finds the records of the tasks.
use palm_sync_daemon.Base.{
  ℕ, ◌+◌, ◌≡◌, ◌∙◌, refl, sym, ap, subst, false, Option, some, List, [], ◌∷◌, ◌++◌, map,
  append_assoc, All, ◌==◌, ==_refl, arith,
}
use palm_sync_daemon.Pdb.Types.{Ptr, PdbRecord}
use palm_sync_daemon.Pdb.WriteFile.{drop_dirty}
use palm_sync_daemon.Pdb.Places.{Places, Apart, DistinctRecords, Distinct-before}
use palm_sync_daemon.Memos.WriteMemos.{offset_of}
use palm_sync_daemon.Tasks.Types.{Task}

-- A record that is in the list is found.
pub offset_of-middle :
    (before : List PdbRecord) (r : PdbRecord) (behind : List PdbRecord)
    → All (Apart r) before
    → offset_of r.address (before ++ (r ∷ behind)) ≡ some r.offset
offset_of-middle [] r behind h = rw (==_refl r.address)
offset_of-middle (q ∷ qs) r behind h =
    let other : (q.address == r.address) ≡ false = ground (arith, h.0.0) in
    rw (other, offset_of-middle qs r behind h.1)

pub offset_of-drop_dirty :
    (a : Ptr) (rs : List PdbRecord) → offset_of a (map drop_dirty rs) ≡ offset_of a rs
offset_of-drop_dirty a [] = refl
offset_of-drop_dirty a (r ∷ rs) = rw (offset_of-drop_dirty a rs)

module _ (size : Task → ℕ) (ptr : Task → Option Ptr) where
  -- The record of a task, and the place to which its offset leads.
  pub record FoundAt (rs : List PdbRecord) (at : ℕ) (t : Task) : Type 0 where
    pub address : Ptr
    pub points : ptr t ≡ some address
    pub found : offset_of address rs ≡ some at

  abbrev pub Found : List PdbRecord → ℕ → List Task → Type 0
  Found rs at [] = Unit
  Found rs at (t ∷ ts) = FoundAt rs at t × Found rs (at + size t) ts

  pub Found-behind :
      (before rs : List PdbRecord) (at : ℕ) (ts : List Task)
      → Places size ptr at ts rs
      → DistinctRecords (before ++ rs)
      → Found (map drop_dirty (before ++ rs)) at ts
  Found-behind before rs at [] p d = tt
  Found-behind before [] at (t ∷ ts) p d = elim p [ ]
  Found-behind before (r ∷ rs) at (t ∷ ts) p d =
      let regrouped : (before ++ (r ∷ [])) ++ rs ≡ before ++ (r ∷ rs) =
        append_assoc before (r ∷ []) rs in
      (
        record {
          address = r.address;
          points = p.0.points_to;
          found =
              offset_of-drop_dirty r.address (before ++ (r ∷ rs))
              ∙ offset_of-middle before r rs (Distinct-before before r rs d)
              ∙ ap some p.0.offset_is;
        },
        subst (λ qs. Found (map drop_dirty qs) (at + size t) ts) regrouped
            (Found-behind (before ++ (r ∷ [])) rs (at + size t) ts p.1
              (subst DistinctRecords (sym regrouped) d)),
      )

  pub Places-Found :
      (rs : List PdbRecord) (at : ℕ) (ts : List Task)
      → Places size ptr at ts rs
      → DistinctRecords rs
      → Found (map drop_dirty rs) at ts
  Places-Found rs at ts p d = Found-behind [] rs at ts p d
