-- ===== src/Helper/Previous/Laws.antt =====
-- What save_as_previous_pdbs of src/helper.c leaves for check_previous_pdbs of the next synchronisation.
use palm_sync_daemon.Base.{
  ℕ, ◌≡◌, ◌≢◌, ◌⊎◌, ◌∙◌, inl, inr, refl, sym, ap, subst, Bool, true, Option, none, some, List, [],
  ◌∷◌, ◌++◌, get_or, arith,
}
use palm_sync_daemon.File.Ensures.{Ensures, after_call, ensured}
use palm_sync_daemon.Pdb.Types.{Ptr}
use palm_sync_daemon.Helper.Copy.{Files, CopyCalls}
use palm_sync_daemon.Helper.Copy.Laws.{cp-copies}
use palm_sync_daemon.Helper.Previous.{
  SyncSettings, PalmData, prev_datebook_name, prev_memos_name, prev_todo_name, check_field,
  check_previous_pdb, PathBuffers, check_previous_pdbs, Kept, keep_copy, save_as_previous_pdb,
  Saved, Field, datebook_field, memos_field, todo_field, kept_in, save_field, SaveCalls,
  save_as_previous_pdbs,
}

-- The file has the bytes, and the other files are as before.
abbrev pub Copied : (path bytes : List ℕ) → Files → Files → Type 0
Copied path bytes fs fs' = (fs' path ≡ some bytes) × ((p : List ℕ) → p ≢ path → fs' p ≡ fs p)

-- The path is not set yet, or it is the one of the data directory.
abbrev pub IsOwn : (path : List ℕ) → Option (List ℕ) → Type 0
IsOwn path o = (o ≡ none) ⊎ (o ≡ some path)

abbrev KeepsCopy : (path bytes : List ℕ) → Files → Kept → Type 0
KeepsCopy path bytes fs k = (k.path ≡ some path) × Copied path bytes fs k.files

Ensures-success :
    {S : Type 0} (Q : S → Type 0) (r : Option (Unit {0}) × S)
    → (r.0 ≡ some tt → Q r.1)
    → Ensures (λ _ s. Q s) r
Ensures-success Q (none, s) h = tt
Ensures-success Q (some u, s) h = h refl

keep_copy-Ensures :
    (calls : CopyCalls) (current path bytes : List ℕ) (fs : Files)
    → fs current ≡ some bytes
    → current ≢ path
    → Ensures (λ _ k. KeepsCopy path bytes fs k) (keep_copy calls current (some path) fs)
keep_copy-Ensures calls current path bytes fs there apart =
    Ensures-success (KeepsCopy path bytes fs) (keep_copy calls current (some path) fs)
      (λ done. (refl, cp-copies calls current path bytes fs there apart done))

save_one-Ensures :
    (calls : CopyCalls) (calloc : Option Ptr) (current dir name bytes : List ℕ)
    (o : Option (List ℕ)) (fs : Files)
    → fs current ≡ some bytes
    → current ≢ dir ++ name
    → IsOwn (dir ++ name) o
    → Ensures
        (λ _ k. KeepsCopy (dir ++ name) bytes fs k)
        (save_as_previous_pdb calls calloc current dir name (record { path = o; files = fs }))
unfolding save_as_previous_pdb
save_one-Ensures calls none current dir name bytes o fs there apart (inl e) = rw e tt
save_one-Ensures calls (some a) current dir name bytes o fs there apart (inl e) =
    rw e (keep_copy-Ensures calls current (dir ++ name) bytes fs there apart)
save_one-Ensures calls calloc current dir name bytes o fs there apart (inr e) =
    rw e (keep_copy-Ensures calls current (dir ++ name) bytes fs there apart)

-- What one of the three calls leaves.
abbrev FieldKept : Field → (path bytes : List ℕ) → Saved → Saved → Type 0
FieldKept field path bytes s s' =
    (s'.settings ≡ field.put (some path) s.settings)
    × Copied path bytes s.saved_files s'.saved_files

kept_in-Ensures :
    (field : Field) (path bytes : List ℕ) (s : Saved) (r : Option (Unit {0}) × Kept)
    → Ensures (λ _ k. KeepsCopy path bytes s.saved_files k) r
    → Ensures (λ _ s'. FieldKept field path bytes s s') (kept_in field s.settings r)
kept_in-Ensures field path bytes s (none, k) h = tt
kept_in-Ensures field path bytes s (some u, k) h = (ap (λ o. field.put o s.settings) h.0, h.1)

save_field-Ensures :
    (calls : CopyCalls) (calloc : Option Ptr) (current dir name bytes : List ℕ) (field : Field)
    (s : Saved)
    → s.settings.data_dir ≡ dir
    → s.saved_files current ≡ some bytes
    → current ≢ dir ++ name
    → IsOwn (dir ++ name) (field.get s.settings)
    → Ensures
        (λ _ s'. FieldKept field (dir ++ name) bytes s s')
        (save_field calls calloc current name field s)
unfolding save_field
save_field-Ensures calls calloc current dir name bytes field s is there =
    subst
      (λ d.
        current ≢ d ++ name
        → IsOwn (d ++ name) (field.get s.settings)
        → Ensures (λ _ s'. FieldKept field (d ++ name) bytes s s')
            (save_field calls calloc current name field s))
      is
      (λ apart own. kept_in-Ensures field (s.settings.data_dir ++ name) bytes s _ (
        save_one-Ensures calls calloc current s.settings.data_dir name bytes (field.get s.settings)
          s.saved_files there apart own))

append_cancel : (dir xs ys : List ℕ) → dir ++ xs ≡ dir ++ ys → xs ≡ ys
append_cancel [] xs ys h = h
append_cancel (b ∷ bs) xs ys h = append_cancel bs xs ys (ap tail h)
  where
    tail : List ℕ → List ℕ
    tail [] = []
    tail (z ∷ zs) = zs

-- The byte in which the three names differ.
abbrev letter : List ℕ → ℕ
letter xs = get_or xs 8 0

names_apart : (dir xs ys : List ℕ) → letter xs ≢ letter ys → dir ++ xs ≢ dir ++ ys
names_apart dir xs ys other h = other (ap letter (append_cancel dir xs ys h))

-- A path that is none of the three.
abbrev pub IsOther : (dir path : List ℕ) → Type 0
IsOther dir path =
    (path ≢ dir ++ prev_datebook_name)
    × (path ≢ dir ++ prev_memos_name)
    × (path ≢ dir ++ prev_todo_name)

-- The data of the handheld have been downloaded to paths of their own.
pub record Downloaded (dir : List ℕ) (palm : PalmData) (datebook memos todo : List ℕ) (fs : Files)
    : Type 0 where
  pub datebook_there : fs palm.datebook_db_path ≡ some datebook
  pub memos_there : fs palm.memo_db_path ≡ some memos
  pub todo_there : fs palm.todo_db_path ≡ some todo
  pub datebook_other : IsOther dir palm.datebook_db_path
  pub memos_other : IsOther dir palm.memo_db_path
  pub todo_other : IsOther dir palm.todo_db_path

pub record IsSettings (s : SyncSettings) : Type 0 where
  pub datebook_own : IsOwn (s.data_dir ++ prev_datebook_name) s.prev_datebook_pdb
  pub memos_own : IsOwn (s.data_dir ++ prev_memos_name) s.prev_memos_pdb
  pub todo_own : IsOwn (s.data_dir ++ prev_todo_name) s.prev_todo_pdb

abbrev pub all_set : SyncSettings → SyncSettings
all_set s = record {
  data_dir = s.data_dir;
  prev_datebook_pdb = some (s.data_dir ++ prev_datebook_name);
  prev_memos_pdb = some (s.data_dir ++ prev_memos_name);
  prev_todo_pdb = some (s.data_dir ++ prev_todo_name);
}

pub record AllSaved (s : Saved) (datebook memos todo : List ℕ) (s' : Saved) : Type 0 where
  pub set : s'.settings ≡ all_set s.settings
  pub datebook_saved : s'.saved_files (s.settings.data_dir ++ prev_datebook_name) ≡ some datebook
  pub memos_saved : s'.saved_files (s.settings.data_dir ++ prev_memos_name) ≡ some memos
  pub todo_saved : s'.saved_files (s.settings.data_dir ++ prev_todo_name) ≡ some todo
  pub others_stay :
      (p : List ℕ) → IsOther s.settings.data_dir p → s'.saved_files p ≡ s.saved_files p

after_weaken :
    {S : Type 0} (P Q : S → Type 0) (r : Option (Unit {0}) × S)
    → Ensures (λ _ s. P s) r
    → ((s : S) → P s → Q s)
    → Ensures (λ _ s. Q s) r
after_weaken P Q (none, s) h step = tt
after_weaken P Q (some u, s) h step = step s h

save_all-Ensures :
    (calls : SaveCalls) (bufs : PathBuffers) (palm : PalmData) (datebook memos todo : List ℕ)
    (s : Saved)
    → IsSettings s.settings
    → Downloaded s.settings.data_dir palm datebook memos todo s.saved_files
    → Ensures (λ _ s'. AllSaved s datebook memos todo s') (save_as_previous_pdbs calls bufs palm s)
unfolding save_as_previous_pdbs
save_all-Ensures calls bufs palm datebook memos todo s own d =
    let dir = s.settings.data_dir in
    let last : Saved → Type 0 = AllSaved s datebook memos todo in
    let first_path = dir ++ prev_datebook_name in
    let second_path = dir ++ prev_memos_name in
    let third_path = dir ++ prev_todo_name in
    after_call (λ _ s'. last s') (λ _ s'. FieldKept datebook_field first_path datebook s s') _ _
      (save_field-Ensures calls.datebook_cp bufs.datebook_buf palm.datebook_db_path dir
        prev_datebook_name datebook datebook_field s refl d.datebook_there d.datebook_other.0
        own.datebook_own)
      (λ _ s1 k1.
        after_call (λ _ s'. last s') (λ _ s'. FieldKept memos_field second_path memos s1 s') _ _
          (save_field-Ensures calls.memos_cp bufs.memos_buf palm.memo_db_path dir prev_memos_name
            memos memos_field s1 (ap (λ (x : SyncSettings). x.data_dir) k1.0)
            (k1.1.1 palm.memo_db_path d.memos_other.0 ∙ d.memos_there) d.memos_other.1
            (subst (λ (x : SyncSettings). IsOwn second_path x.prev_memos_pdb) (sym k1.0)
              own.memos_own))
          (λ _ s2 k2.
            let set2 : s2.settings ≡ record (s.settings) {
              prev_datebook_pdb = some first_path;
              prev_memos_pdb = some second_path;
            } =
              k2.0 ∙ ap (memos_field.put (some second_path)) k1.0 in
            after_weaken (λ s'. FieldKept todo_field third_path todo s2 s') last _
              (save_field-Ensures calls.todo_cp bufs.todo_buf palm.todo_db_path dir prev_todo_name
                todo todo_field s2 (ap (λ (x : SyncSettings). x.data_dir) set2)
                (k2.1.1 palm.todo_db_path d.todo_other.1
                  ∙ k1.1.1 palm.todo_db_path d.todo_other.0
                  ∙ d.todo_there)
                d.todo_other.2
                (subst (λ (x : SyncSettings). IsOwn third_path x.prev_todo_pdb) (sym set2)
                  own.todo_own))
              (λ s3 k3. record {
                set = k3.0 ∙ ap (todo_field.put (some third_path)) set2;
                datebook_saved =
                    k3.1.1 first_path (names_apart dir _ _ (λ e. omega arith))
                    ∙ k2.1.1 first_path (names_apart dir _ _ (λ e. omega arith))
                    ∙ k1.1.0;
                memos_saved = k3.1.1 second_path (names_apart dir _ _ (λ e. omega arith)) ∙ k2.1.0;
                todo_saved = k3.1.0;
                others_stay = λ p other. k3.1.1 p other.2 ∙ k2.1.1 p other.1 ∙ k1.1.1 p other.0;
              })))

-- A successful save_as_previous_pdbs puts the bytes of the three downloaded files under the names
-- for the previous synchronisation in the data directory, notes these paths, and leaves all other
-- files alone. Conditions: the paths noted before are unset or those in the data directory, and
-- the files have been downloaded to other paths.
pub save_as_previous_pdbs-saves :
    (calls : SaveCalls) (bufs : PathBuffers) (palm : PalmData) (datebook memos todo : List ℕ)
    (s s' : Saved)
    → IsSettings s.settings
    → Downloaded s.settings.data_dir palm datebook memos todo s.saved_files
    → save_as_previous_pdbs calls bufs palm s ≡ (some tt, s')
    → AllSaved s datebook memos todo s'
save_as_previous_pdbs-saves calls bufs palm datebook memos todo s s' own d e =
    ensured (λ _ s'. AllSaved s datebook memos todo s') (save_as_previous_pdbs calls bufs palm s) tt
      s' (save_all-Ensures calls bufs palm datebook memos todo s own d) e

abbrev pub all_paths : Ptr → Ptr → Ptr → PathBuffers
all_paths a b c = record { datebook_buf = some a; memos_buf = some b; todo_buf = some c }

-- After a successful save_as_previous_pdbs, check_previous_pdbs with the same data directory finds
-- all three files, under the same conditions and if files are accessible and the allocations
-- succeed.
pub check_previous_pdbs-save_as_previous_pdbs :
    (calls : SaveCalls) (bufs : PathBuffers) (palm : PalmData) (datebook memos todo : List ℕ)
    (s s' : Saved) (accessible : List ℕ → Bool) (a b c : Ptr) (next : SyncSettings)
    → IsSettings s.settings
    → Downloaded s.settings.data_dir palm datebook memos todo s.saved_files
    → save_as_previous_pdbs calls bufs palm s ≡ (some tt, s')
    → next.data_dir ≡ s.settings.data_dir
    → ((p : List ℕ) → accessible p ≡ true)
    → check_previous_pdbs s'.saved_files accessible (all_paths a b c) next
      ≡ (some tt, all_set s.settings)
unfolding check_previous_pdbs check_field check_previous_pdb
check_previous_pdbs-save_as_previous_pdbs calls bufs palm datebook memos todo s s' accessible a b c
      next own d e same usable =
    let saved = save_as_previous_pdbs-saves calls bufs palm datebook memos todo s s' own d e in
    rw (
      same,
      saved.datebook_saved,
      usable (s.settings.data_dir ++ prev_datebook_name),
      saved.memos_saved,
      usable (s.settings.data_dir ++ prev_memos_name),
      saved.todo_saved,
      usable (s.settings.data_dir ++ prev_todo_name),
    )
