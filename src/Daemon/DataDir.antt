-- ===== src/Daemon/DataDir.antt =====
-- The data directory of main in src/palm-sync-daemon.c: the words that wordexp gives are joined, and a
-- slash is put behind them where there is none.
pub mod Laws
use palm_sync_daemon.Base.{
  ℕ, ◌-◌, List, [], ◌∷◌, ◌++◌, length, take, set, get_or, ◌==◌, if◌then◌else◌,
}

-- The loop: each word and a space behind it.
abbrev pub spaced_words : List (List ℕ) → List ℕ
spaced_words [] = []
spaced_words (w ∷ ws) = w ++ (32 ∷ spaced_words ws)

-- The byte in front of the last space decides what takes the place of the space: a slash, or a NUL.
abbrev pub close_path : List ℕ → List ℕ
close_path s =
    if get_or s (length s - 2) 0 == 47 then take (length s - 1) s else set s (length s - 1) 47

abbrev pub expanded_data_dir : List (List ℕ) → List ℕ
expanded_data_dir ws = close_path (spaced_words ws)
