-- ===== src/OrgNotes/Laws.antt =====
-- What org_notes_write of src/orgmode/org_notes.c appends to the OrgMode file, alone and from the first
-- loop of _sync_memos in src/sync.c.
use palm_sync_daemon.Base.{
  ℕ, ◌+◌, ◌-◌, ◌^◌, ◌≤◌, ◌<◌, ◌≡◌, ◌≢◌, ◌∙◌, ◌⊎◌, inl, inr, refl, sym, ap, true, Bool-cases, Option,
  none, some, List, [], ◌∷◌, ◌++◌, length, length-append, append_assoc, append-nil, take, take-all,
  drop-nil, arith,
}
use palm_sync_daemon.File.{File, overwrite, overwrite-zero, overwrite-suc}
use palm_sync_daemon.File.Writes.{put}
use palm_sync_daemon.Helper.Chunks.Laws.{write_chunks-Writes}
use palm_sync_daemon.Pdb.Types.{Ptr}
use palm_sync_daemon.Memos.Edit.{pdb_default_category}
use palm_sync_daemon.OrgNotes.{
  starts_with, tag_of, note_len, note_format, printed_note, converted, write_printed,
  org_notes_write,
}

-- A headline of an OrgMode file with a tag, if any, and the text below it, if any.
abbrev pub tag_part : Option (List ℕ) → List ℕ
tag_part none = []
tag_part (some tag) = 9 ∷ 9 ∷ 58 ∷ (tag ++ (58 ∷ []))

abbrev pub text_part : Option (List ℕ) → List ℕ
text_part none = []
text_part (some text) = text ++ (10 ∷ [])

abbrev pub org_entry : (header : List ℕ) (text tag : Option (List ℕ)) → List ℕ
org_entry header text tag =
    (42 ∷ 32 ∷ []) ++ (header ++ (tag_part tag ++ ((10 ∷ []) ++ text_part text)))

-- A category that is "Unfiled", or begins so, is no tag; any other is.
abbrev pub IsTag : (category tag : Option (List ℕ)) → Type 0
IsTag none tag = tag ≡ none
IsTag (some c) tag =
    (((rest : List ℕ) × (c ≡ (85 ∷ 110 ∷ 102 ∷ 105 ∷ 108 ∷ 101 ∷ 100 ∷ []) ++ rest)) × (tag ≡ none))
    ⊎ (((rest : List ℕ) → c ≢ (85 ∷ 110 ∷ 102 ∷ 105 ∷ 108 ∷ 101 ∷ 100 ∷ []) ++ rest)
        × (tag ≡ some c))

-- The text as far as it can be converted; nothing if it cannot.
abbrev pub IsBelow : (to_utf8 : List ℕ → Option (List ℕ)) → (text below : Option (List ℕ)) → Type 0
IsBelow to_utf8 none below = below ≡ none
IsBelow to_utf8 (some t) below = below ≡ to_utf8 t

pub starts_with_rest :
    (xs ys : List ℕ) → starts_with xs ys ≡ true → (rest : List ℕ) × (ys ≡ xs ++ rest)
starts_with_rest [] ys h = (ys, refl)
starts_with_rest (x ∷ xs) [] h = absurd cc
starts_with_rest (x ∷ xs) (y ∷ ys) h =
    let same : x ≡ y = ground arith in
    let others : starts_with xs ys ≡ true = ground arith in
    let (rest, e) = starts_with_rest xs ys others in
    (rest, ap (λ z. z ∷ ys) (sym same) ∙ ap (◌∷◌ x) e)

-- There is one tag only.
pub IsTag-tag_of : (category tag : Option (List ℕ)) → IsTag category tag → tag ≡ tag_of category
IsTag-tag_of none tag h = h
IsTag-tag_of (some c) tag (inl ((rest, e), h)) = rw e h
IsTag-tag_of (some c) tag (inr (other, h)) =
    elim (Bool-cases (starts_with pdb_default_category c)) [
      | inl default ↦
          (let (rest, e) = starts_with_rest pdb_default_category c default in absurd (other rest e))
      | inr named ↦ rw named h
    ]

IsBelow-converted :
    (to_utf8 : List ℕ → Option (List ℕ)) (text below : Option (List ℕ))
    → IsBelow to_utf8 text below
    → below ≡ converted to_utf8 text
IsBelow-converted to_utf8 none below h = h
IsBelow-converted to_utf8 (some t) below h = h

format-entry :
    (header : List ℕ) (text tag : Option (List ℕ))
    → note_format header text tag ≡ org_entry header text tag
format-entry header none none = refl
format-entry header none (some tag) = simp append_assoc
format-entry header (some text) none = refl
format-entry header (some text) (some tag) = simp append_assoc

length-format :
    (header : List ℕ) (text tag : Option (List ℕ))
    → length (org_entry header text tag) + 1 < 2 ^ 32
    → length (org_entry header text tag) ≡ note_len header text tag - 1
length-format header none none small = omega (arith, length-append header (10 ∷ []))
length-format header none (some tag) small = omega (
  arith,
  length-append header (9 ∷ 9 ∷ 58 ∷ ((tag ++ (58 ∷ [])) ++ (10 ∷ []))),
  length-append (tag ++ (58 ∷ [])) (10 ∷ []),
  length-append tag (58 ∷ []),
)
length-format header (some text) none small =
    omega (arith, length-append header (10 ∷ (text ++ (10 ∷ []))), length-append text (10 ∷ []))
length-format header (some text) (some tag) small = omega (
  arith,
  length-append header (9 ∷ 9 ∷ 58 ∷ ((tag ++ (58 ∷ [])) ++ (10 ∷ (text ++ (10 ∷ []))))),
  length-append (tag ++ (58 ∷ [])) (10 ∷ (text ++ (10 ∷ []))),
  length-append tag (58 ∷ []),
  length-append text (10 ∷ []),
)

-- The buffer is just large enough.
printed_whole :
    (header : List ℕ) (text tag : Option (List ℕ))
    → length (org_entry header text tag) + 1 < 2 ^ 32
    → printed_note header text tag ≡ org_entry header text tag
printed_whole header text tag small =
    ap (take (note_len header text tag - 1)) (format-entry header text tag)
    ∙ take-all (note_len header text tag - 1) (org_entry header text tag)
        (omega (arith, length-format header text tag small))

overwrite-end : (xs bs : List ℕ) → overwrite (length bs) xs bs ≡ bs ++ xs
overwrite-end xs [] =
    overwrite-zero xs [] ∙ ap (λ t. xs ++ t) (drop-nil (length xs)) ∙ append-nil xs
overwrite-end xs (b ∷ bs) = overwrite-suc (length bs) b xs bs ∙ ap (◌∷◌ b) (overwrite-end xs bs)

-- The file is open for appending.
abbrev pub IsAppended : File → Type 0
IsAppended f = f.pos ≡ length f.bytes

abbrev pub appended : List ℕ → File → File
appended xs f = record f { bytes = f.bytes ++ xs; pos = length f.bytes + length xs }

put_end : (xs : List ℕ) (f : File) → IsAppended f → put xs f ≡ appended xs f
put_end xs f e =
    ap (λ n. record f { bytes = overwrite n xs f.bytes; pos = n + length xs }) e
    ∙ ap (λ bs. record f { bytes = bs; pos = length f.bytes + length xs })
        (overwrite-end xs f.bytes)

-- Where the header can be converted and the allocation succeeds, org_notes_write appends to a file
-- open for appending the headline and the text below it, uncut: the buffer that it computes is
-- large enough. The headline has the category as a tag, unless there is no category or it begins
-- with "Unfiled"; a text that cannot be converted is left out. Conditions: the entry is shorter
-- than 4 GB and the file has room.
pub org_notes_write-appends :
    (to_utf8 : List ℕ → Option (List ℕ)) (a : Ptr) (header utf8 : List ℕ)
    (text category t tag : Option (List ℕ)) (f : File)
    → to_utf8 header ≡ some utf8
    → IsBelow to_utf8 text t
    → IsTag category tag
    → IsAppended f
    → let entry = org_entry utf8 t tag in
      length entry + 1 < 2 ^ 32
      → length f.bytes + length entry ≤ f.room
      → org_notes_write to_utf8 (some a) header text category f ≡ (some tt, appended entry f)
unfolding org_notes_write write_printed
org_notes_write-appends to_utf8 a header utf8 text category t tag f e below tagged end small room =
    let entry = org_entry utf8 t tag in
    rw
      (
        e,
        ← IsBelow-converted to_utf8 text t below,
        ← IsTag-tag_of category tag tagged,
        printed_whole utf8 t tag small,
      )
      ((write_chunks-Writes entry (length entry) refl).run f (omega (arith, end))
        ∙ ap (λ g. (some tt, g)) (put_end entry f end))
