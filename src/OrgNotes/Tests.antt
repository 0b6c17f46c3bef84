-- ===== src/OrgNotes/Tests.antt =====
-- The theorems on src/orgmode/org_notes.c applied to a concrete file.
use palm_sync_daemon.Base.{ℕ, ◌≡◌, ◌≢◌, ◌++◌, inr, refl, some, false, Option, List, [], ◌∷◌, arith}
use palm_sync_daemon.File.{File}
use palm_sync_daemon.OrgNotes.{org_notes_write}
use palm_sync_daemon.OrgNotes.Laws.{org_entry, appended, org_notes_write-appends}

abbrev keep_bytes : List ℕ → Option (List ℕ)
keep_bytes xs = some xs

abbrev org_file : File
org_file = record { bytes = 35 ∷ []; pos = 1; room = 100; readable = false }

no_default : (rest : List ℕ) → 65 ∷ [] ≢ (85 ∷ 110 ∷ 102 ∷ 105 ∷ 108 ∷ 101 ∷ 100 ∷ []) ++ rest
no_default rest e = absurd cc

-- A note with a text and a tag.
org_notes_write-appends_example :
    org_notes_write keep_bytes (some 1) (72 ∷ []) (some (116 ∷ [])) (some (65 ∷ [])) org_file
    ≡ (some tt, appended (org_entry (72 ∷ []) (some (116 ∷ [])) (some (65 ∷ []))) org_file)
org_notes_write-appends_example =
    org_notes_write-appends keep_bytes 1 (72 ∷ []) (72 ∷ []) (some (116 ∷ [])) (some (65 ∷ []))
      (some (116 ∷ [])) (some (65 ∷ [])) org_file refl refl
      (inr (λ rest e. absurd (no_default rest e), refl)) refl (omega arith) (omega arith)
