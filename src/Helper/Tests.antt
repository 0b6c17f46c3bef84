-- ===== src/Helper/Tests.antt =====
-- The theorems on src/helper.c, applied to concrete files.
mod Copying
use palm_sync_daemon.Base.{ℕ, ◌≡◌, refl, some, none, true, List, [], ◌∷◌, take, arith}
use palm_sync_daemon.File.{File}
use palm_sync_daemon.File.Reads.{Reads}
use palm_sync_daemon.File.Writes.{put}
use palm_sync_daemon.Helper.Chunks.{read_chunks, write_chunks}
use palm_sync_daemon.Helper.Chunks.Laws.{read_chunks-Reads, read_chunks-short, write_chunks-puts}

abbrev twelve : List ℕ
twelve = 1 ∷ 2 ∷ 3 ∷ 4 ∷ 5 ∷ 6 ∷ 7 ∷ 8 ∷ 9 ∷ 10 ∷ 11 ∷ 12 ∷ []

abbrev twelve_file : File
twelve_file = record { bytes = twelve; pos = 1; room = 40; readable = true }
