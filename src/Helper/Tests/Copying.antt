-- ===== src/Helper/Tests/Copying.antt =====
-- Copying and keeping concrete files.
use palm_sync_daemon.Base.{ℕ, ◌≡◌, ◌≢◌, refl, inl, none, some, true, List, [], ◌∷◌, arith}
use palm_sync_daemon.Libc.Strings.{strcmp}
use palm_sync_daemon.Helper.Copy.{Outcome, moves, interrupted, Files, put_file, CopyCalls, cp}
use palm_sync_daemon.Helper.Copy.Laws.{cp-copies, cp-ends}
use palm_sync_daemon.Helper.Previous.{
  PalmData, Saved, SaveCalls, save_as_previous_pdb, save_field, save_as_previous_pdbs,
  check_previous_pdbs,
}
use palm_sync_daemon.Helper.Previous.Laws.{
  IsSettings, Downloaded, AllSaved, all_set, all_paths, save_as_previous_pdbs-saves,
  check_previous_pdbs-save_as_previous_pdbs,
}

-- Two bytes are read, the first is written, a signal comes, the second is written, and the end is read.
abbrev calls_with : List Outcome → CopyCalls
calls_with os = record { to_opens = true; outcomes = os; to_closes = true; from_closes = true }

abbrev slow_calls : CopyCalls
slow_calls = calls_with (moves 5 ∷ moves 0 ∷ interrupted ∷ moves 3 ∷ moves 0 ∷ moves 0 ∷ [])

abbrev memos_path : List ℕ
memos_path = 109 ∷ []

abbrev datebook_path : List ℕ
datebook_path = 100 ∷ []

abbrev todo_path : List ℕ
todo_path = 116 ∷ []

abbrev no_files : Files
no_files path = none

abbrev palm_files : Files
palm_files =
    put_file memos_path (7 ∷ 8 ∷ [])
      (put_file datebook_path (9 ∷ []) (put_file todo_path [] no_files))

memos_there : palm_files memos_path ≡ some (7 ∷ 8 ∷ [])
unfolding put_file strcmp
memos_there = refl

it_is_copied : (cp slow_calls memos_path (1 ∷ []) palm_files).0 ≡ some tt
unfolding cp put_file strcmp
it_is_copied = refl

memos-elsewhere : memos_path ≢ 1 ∷ []
memos-elsewhere e = absurd cc

cp-copies_example :
    ((cp slow_calls memos_path (1 ∷ []) palm_files).1 (1 ∷ []) ≡ some (7 ∷ 8 ∷ []))
    × ((p : List ℕ)
        → p ≢ 1 ∷ []
        → (cp slow_calls memos_path (1 ∷ []) palm_files).1 p ≡ palm_files p)
cp-copies_example =
    cp-copies slow_calls memos_path (1 ∷ []) (7 ∷ 8 ∷ []) palm_files memos_there memos-elsewhere
      it_is_copied

cp-ends_example : (cp slow_calls memos_path (1 ∷ []) palm_files).0 ≡ some tt
cp-ends_example =
    cp-ends slow_calls memos_path (1 ∷ []) (7 ∷ 8 ∷ []) palm_files memos_there memos-elsewhere refl
      refl refl (tt, (tt, (tt, (tt, (tt, (tt, tt)))))) (omega arith)

abbrev palm_paths : PalmData
palm_paths = record {
  datebook_db_path = datebook_path;
  memo_db_path = memos_path;
  todo_db_path = todo_path;
}

abbrev slow_saves : SaveCalls
slow_saves = record {
  datebook_cp = calls_with (moves 5 ∷ interrupted ∷ moves 0 ∷ moves 0 ∷ []);
  memos_cp = slow_calls;
  todo_cp = calls_with (moves 0 ∷ []);
}

abbrev before : Saved
before = record {
  settings = record {
    data_dir = 47 ∷ [];
    prev_datebook_pdb = none;
    prev_memos_pdb = none;
    prev_todo_pdb = none;
  };
  saved_files = palm_files;
}

abbrev after : Saved
after = (save_as_previous_pdbs slow_saves (all_paths 1 2 3) palm_paths before).1

all-Downloaded : Downloaded (47 ∷ []) palm_paths (9 ∷ []) (7 ∷ 8 ∷ []) [] palm_files
unfolding put_file strcmp
all-Downloaded = record {
  datebook_there = refl;
  memos_there = refl;
  todo_there = refl;
  datebook_other = (λ e. absurd cc, λ e. absurd cc, λ e. absurd cc);
  memos_other = (λ e. absurd cc, λ e. absurd cc, λ e. absurd cc);
  todo_other = (λ e. absurd cc, λ e. absurd cc, λ e. absurd cc);
}

before-IsSettings : IsSettings before.settings
before-IsSettings = record { datebook_own = inl refl; memos_own = inl refl; todo_own = inl refl }

they_are_saved :
    save_as_previous_pdbs slow_saves (all_paths 1 2 3) palm_paths before ≡ (some tt, after)
unfolding save_as_previous_pdbs save_field save_as_previous_pdb cp put_file strcmp
they_are_saved = refl

save_as_previous_pdbs-saves_example : AllSaved before (9 ∷ []) (7 ∷ 8 ∷ []) [] after
save_as_previous_pdbs-saves_example =
    save_as_previous_pdbs-saves slow_saves (all_paths 1 2 3) palm_paths (9 ∷ []) (7 ∷ 8 ∷ []) []
      before after before-IsSettings all-Downloaded they_are_saved

check_previous_pdbs-save_as_previous_pdbs_example :
    check_previous_pdbs after.saved_files (λ p. true) (all_paths 4 5 6) before.settings
    ≡ (some tt, all_set before.settings)
check_previous_pdbs-save_as_previous_pdbs_example =
    check_previous_pdbs-save_as_previous_pdbs slow_saves (all_paths 1 2 3) palm_paths (9 ∷ [])
      (7 ∷ 8 ∷ []) [] before after (λ p. true) 4 5 6 before.settings before-IsSettings
      all-Downloaded they_are_saved refl (λ p. refl)
