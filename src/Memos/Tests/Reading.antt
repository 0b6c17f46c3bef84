-- ===== src/Memos/Tests/Reading.antt =====
-- Reading a memo from a concrete file.
use palm_sync_daemon.Base.{none, All, ◌≡◌, refl, some, true, [], ◌∷◌, length, arith}
use palm_sync_daemon.File.{File}
use palm_sync_daemon.Pdb.Categories.{pdb_category_get_name}
use palm_sync_daemon.Pdb.Types.{Pdb}
use palm_sync_daemon.Pdb.WriteFile.Whole.{opened}
use palm_sync_daemon.Pdb.RoundTrip.{reread}
use palm_sync_daemon.Pdb.Tests.{address_of, allocate, works}
use palm_sync_daemon.Pdb.Tests.Pairs.{with_records, pair-IsWritable, pair-PdbFits}
use palm_sync_daemon.Pdb.ReadFile.{prune_garbage}
use palm_sync_daemon.Memos.ReadMemos.Laws.{HasName}
use palm_sync_daemon.Memos.Files.{queue_back, all_allocated, memos_read-memos_write}
use palm_sync_daemon.Memos.WriteMemos.{memos_write}
use palm_sync_daemon.Memos.ReadMemos.{scan, MemoBuffers, memos_read}
use palm_sync_daemon.File.Reads.{ahead}
use palm_sync_daemon.Memos.ReadMemos.Scan.{scan-ends}
use palm_sync_daemon.Memos.Tests.{
  two_memos, two_memos-Distinct, first_memo, memo_with, keep_bytes, two_categories,
}

abbrev memo_file : File
memo_file = record {
  bytes = 9 ∷ 9 ∷ 9 ∷ 72 ∷ 105 ∷ 10 ∷ 1 ∷ 2 ∷ 3 ∷ 0 ∷ 7 ∷ [];
  pos = 0;
  room = 100;
  readable = true;
}

abbrev buffers : MemoBuffers
buffers = record {
  header_buf = some 1;
  text_buf = some 2;
  memo_buf = some 3;
  category_buf = some 4;
}

its_name : pdb_category_get_name 1 two_categories ≡ some (65 ∷ 0 ∷ 0 ∷ [])
unfolding pdb_category_get_name
its_name = refl

abbrev wide_file : File
wide_file = record { bytes = 9 ∷ []; pos = 1; room = 500; readable = true }

scan-ends_example : (scan 10 1 wide_file).0 ≡ some (length (ahead wide_file))
scan-ends_example = scan-ends 10 1 wide_file tt refl

-- Two memos in a file with categories.
abbrev written_pdb : Pdb
written_pdb = with_records 378 385 1 2

abbrev back : Pdb
back = reread address_of written_pdb

back_names : All (HasName back.categories) back.records
unfolding prune_garbage pdb_category_get_name
back_names = (refl, (refl, tt))

memos_read-memos_write_example :
    (memos_read keep_bytes
      (some 5)
      allocate
      (λ _. all_allocated 1 2 3 4)
      (memos_write keep_bytes two_memos.queue (opened written_pdb wide_file)).1.file).0
    ≡ some (record { pdb = back; queue = queue_back back.categories two_memos.queue back.records })
memos_read-memos_write_example =
    memos_read-memos_write keep_bytes keep_bytes 1 2 3 4 works 5 first_memo
      (memo_with 8 2 (72 ∷ 111 ∷ []) none 0 ∷ []) written_pdb wide_file
      (pair-PdbFits 378 385 1 2 (omega arith) (omega arith)) (pair-IsWritable 378 385 1 2) refl
      (
        record { offset_is = refl; points_to = refl; id_is = refl },
        (record { offset_is = refl; points_to = refl; id_is = refl }, tt),
      )
      two_memos-Distinct
      (
        (record { encoded = refl; counted = refl }, record { encoded = refl; counted = refl }),
        ((record { encoded = refl; counted = refl }, tt), tt),
      )
      (
        record {
          header_back = refl;
          text_back = refl;
          no_newline = (λ e. omega arith, (λ e. omega arith, tt));
          no_nul = (λ e. omega arith, (λ e. omega arith, (λ e. omega arith, tt)));
        },
        (
          record {
            header_back = refl;
            text_back = refl;
            no_newline = (λ e. omega arith, (λ e. omega arith, tt));
            no_nul = tt;
          },
          tt,
        ),
      )
      back_names (λ e. omega arith, (λ e. omega arith, tt)) refl (omega arith) (omega arith)
