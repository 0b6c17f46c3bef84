-- ===== src/OrgNotes.antt =====
-- org_notes_write and org_notes_parse of src/orgmode/org_notes.c. iconv, the hash, the entries that the
-- parser of OrgMode files gives and the outcomes of calloc are parameters. A string holds no NUL. A
-- header that cannot be converted would be a NULL pointer to strlen, and the model fails.
pub mod Laws
pub mod FirstLoop
mod Tests
use palm_sync_daemon.Base.{
  ℕ, ◌+◌, ◌-◌, ◌%◌, ◌^◌, Bool, true, false, Option, none, some, List, [], ◌∷◌, ◌++◌, length, take,
  ◌==◌, ◌&&◌, if◌then◌else◌,
}
use palm_sync_daemon.File.{Io, ◌>>=◌, from_option}
use palm_sync_daemon.Pdb.Types.{Ptr}
use palm_sync_daemon.Helper.Chunks.{write_chunks}
use palm_sync_daemon.Memos.Edit.{pdb_default_category}
use palm_sync_daemon.Sync.Memos.{OrgNote}

-- strncmp(3) with the length of its first string, by whether it is 0.
abbrev pub starts_with : List ℕ → List ℕ → Bool
starts_with [] ys = true
starts_with (x ∷ xs) [] = false
starts_with (x ∷ xs) (y ∷ ys) = x == y && starts_with xs ys

-- The category that becomes a tag.
abbrev pub tag_of : Option (List ℕ) → Option (List ℕ)
tag_of none = none
tag_of (some c) = if starts_with pdb_default_category c then none else some c

abbrev pub length_of : Option (List ℕ) → ℕ
length_of none = 0
length_of (some s) = length s

abbrev pub extra : ℕ → Option (List ℕ) → ℕ
extra n none = 0
extra n (some s) = n

-- An unsigned int.
abbrev pub note_len : (header : List ℕ) (text tag : Option (List ℕ)) → ℕ
note_len header text tag =
    (length header + length_of text + length_of tag + (3 + extra 4 tag + extra 1 text + 1)) % 2 ^ 32

-- The four formats.
abbrev pub note_format : (header : List ℕ) (text tag : Option (List ℕ)) → List ℕ
note_format header (some text) (some tag) =
    42 ∷ 32 ∷ (header ++ (9 ∷ 9 ∷ 58 ∷ (tag ++ (58 ∷ 10 ∷ (text ++ (10 ∷ []))))))
note_format header (some text) none = 42 ∷ 32 ∷ (header ++ (10 ∷ (text ++ (10 ∷ []))))
note_format header none (some tag) = 42 ∷ 32 ∷ (header ++ (9 ∷ 9 ∷ 58 ∷ (tag ++ (58 ∷ 10 ∷ []))))
note_format header none none = 42 ∷ 32 ∷ (header ++ (10 ∷ []))

-- snprintf cuts the text to the buffer.
abbrev pub printed_note : (header : List ℕ) (text tag : Option (List ℕ)) → List ℕ
printed_note header text tag = take (note_len header text tag - 1) (note_format header text tag)

abbrev pub converted : (List ℕ → Option (List ℕ)) → Option (List ℕ) → Option (List ℕ)
converted iconv none = none
converted iconv (some s) = iconv s

unfoldable pub write_printed : (note : List ℕ) → Io (Unit {0})
write_printed note = write_chunks (some note) (length note)

-- A text that cannot be converted is left out.
unfoldable pub org_notes_write :
    (to_utf8 : List ℕ → Option (List ℕ))
    → (calloc : Option Ptr) → (header : List ℕ) → (text category : Option (List ℕ)) → Io (Unit {0})
unfolding write_printed
org_notes_write to_utf8 calloc header text category = do
  header ← from_option (to_utf8 header)
  _ ← from_option calloc
  write_printed (printed_note header (converted to_utf8 text) (tag_of category))

-- The fields of an entry of the parser that are used.
pub record OrgModeEntry : Type 0 where
  pub entry_header : List ℕ
  pub entry_tag : Option (List ℕ)
  pub entry_text : Option (List ℕ)

abbrev pub note_of_entry :
    (to_cp1251 : List ℕ → Option (List ℕ))
    → (str_hash : List ℕ → ℕ) → OrgModeEntry
    → (header : List ℕ) → OrgNote
note_of_entry to_cp1251 str_hash e header = record {
  header = header;
  text = converted to_cp1251 e.entry_text;
  category = e.entry_tag;
  header_hash = str_hash header;
}

abbrev pub add_note : Option OrgNote → Option (List OrgNote) → Option (List OrgNote)
add_note none rest = none
add_note (some n) none = none
add_note (some n) (some ns) = some (n ∷ ns)

-- An entry for which there is no memory is skipped.
abbrev pub parsed_notes :
    (to_cp1251 : List ℕ → Option (List ℕ))
    → (str_hash : List ℕ → ℕ) → (calloc : OrgModeEntry → Option Ptr) → List OrgModeEntry
    → Option (List OrgNote)
parsed_notes to_cp1251 str_hash calloc [] = some []
parsed_notes to_cp1251 str_hash calloc (e ∷ es) =
    let rest = parsed_notes to_cp1251 str_hash calloc es in
    elim (calloc e) [
      | none ↦ rest
      | some a ↦
          add_note
            (elim (to_cp1251 e.entry_header) [
              | none ↦ none
              | some header ↦ some (note_of_entry to_cp1251 str_hash e header)
            ])
            rest
    ]

-- `none` for the entries is that the file cannot be parsed.
abbrev pub org_notes_parse :
    (to_cp1251 : List ℕ → Option (List ℕ))
    → (str_hash : List ℕ → ℕ) → (queue : Option Ptr) → (calloc : OrgModeEntry → Option Ptr)
    → Option (List OrgModeEntry)
    → Option (List OrgNote)
org_notes_parse to_cp1251 str_hash queue calloc none = none
org_notes_parse to_cp1251 str_hash none calloc (some es) = none
org_notes_parse to_cp1251 str_hash (some a) calloc (some es) =
    parsed_notes to_cp1251 str_hash calloc es
