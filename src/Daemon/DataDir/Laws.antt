-- ===== src/Daemon/DataDir/Laws.antt =====
-- The data directory of src/palm-sync-daemon.c ends with a slash.
use palm_sync_daemon.Base.{
  ℕ, ◌-◌, ◌≡◌, ◌∙◌, refl, sym, ap, List, [], ◌∷◌, ◌++◌, length, length-append, append_assoc, take,
  set, get_or, ◌==◌, Bool-cases, inl, inr, if◌then◌else◌, arith,
}
use palm_sync_daemon.Daemon.DataDir.{spaced_words, close_path, expanded_data_dir}

abbrev pub joined_words : List ℕ → List (List ℕ) → List ℕ
joined_words w [] = w
joined_words w (v ∷ vs) = w ++ (32 ∷ joined_words v vs)

-- The byte at the end; 0 for an empty path.
abbrev pub last_byte : List ℕ → ℕ
last_byte s = get_or s (length s - 1) 0

abbrev pub with_slash : List ℕ → List ℕ
with_slash s = if last_byte s == 47 then s else s ++ (47 ∷ [])

spaced-joined :
    (w : List ℕ) (ws : List (List ℕ)) → spaced_words (w ∷ ws) ≡ joined_words w ws ++ (32 ∷ [])
spaced-joined w [] = refl
spaced-joined w (v ∷ vs) =
    ap (λ t. w ++ (32 ∷ t)) (spaced-joined v vs)
    ∙ sym (append_assoc w (32 ∷ joined_words v vs) (32 ∷ []))

take_front : (s : List ℕ) (b : ℕ) → take (length s) (s ++ (b ∷ [])) ≡ s
take_front [] b = refl
take_front (x ∷ xs) b = ap (◌∷◌ x) (take_front xs b)

set_end : (s : List ℕ) (b c : ℕ) → set (s ++ (b ∷ [])) (length s) c ≡ s ++ (c ∷ [])
set_end [] b c = refl
set_end (x ∷ xs) b c = ap (◌∷◌ x) (set_end xs b c)

get_front :
    (x : ℕ) (xs : List ℕ) (b : ℕ)
    → get_or (x ∷ (xs ++ (b ∷ []))) (length xs) 0 ≡ get_or (x ∷ xs) (length xs) 0
get_front x [] b = refl
get_front x (y ∷ ys) b = get_front y ys b

close_path_lem : (x : ℕ) (xs : List ℕ) → close_path ((x ∷ xs) ++ (32 ∷ [])) ≡ with_slash (x ∷ xs)
close_path_lem x xs =
    let s = x ∷ xs in
    let whole = s ++ (32 ∷ []) in
    let size = length-append xs (32 ∷ []) in
    let front : length whole - 1 ≡ length s = omega (arith, size) in
    let byte : get_or whole (length whole - 2) 0 ≡ last_byte s =
      ap (λ n. get_or whole n 0) {x = length whole - 2} {y = length xs} (omega (arith, size))
      ∙ get_front x xs 32
      ∙ ap (λ n. get_or s n 0) {x = length xs} {y = length s - 1} (omega arith) in
    elim (Bool-cases (last_byte s == 47)) [
      | inl slash ↦
          ap
            (λ b.
              if b == 47 then take (length whole - 1) whole else set whole (length whole - 1) 47)
            byte
          ∙ ap (λ c. if c then take (length whole - 1) whole else set whole (length whole - 1) 47)
              slash
          ∙ ap (λ n. take n whole) front
          ∙ take_front s 32
          ∙ sym (ap (λ c. if c then s else s ++ (47 ∷ [])) slash)
      | inr none ↦
          ap
            (λ b.
              if b == 47 then take (length whole - 1) whole else set whole (length whole - 1) 47)
            byte
          ∙ ap (λ c. if c then take (length whole - 1) whole else set whole (length whole - 1) 47)
              none
          ∙ ap (λ n. set whole n 47) front
          ∙ set_end s 32 47
          ∙ sym (ap (λ c. if c then s else s ++ (47 ∷ [])) none)
    ]

-- The data directory is the words of wordexp, joined by single spaces, with a slash behind them if
-- they do not end with one, as long as they are not all empty.
pub expanded_data_dir_lem :
    (w : List ℕ) (ws : List (List ℕ)) (x : ℕ) (xs : List ℕ)
    → joined_words w ws ≡ x ∷ xs
    → expanded_data_dir (w ∷ ws) ≡ with_slash (joined_words w ws)
expanded_data_dir_lem w ws x xs e =
    ap close_path (spaced-joined w ws ∙ ap (λ s. s ++ (32 ∷ [])) e)
    ∙ close_path_lem x xs
    ∙ sym (ap with_slash e)
