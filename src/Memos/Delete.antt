-- ===== src/Memos/Delete.antt =====
-- memos_memo_delete of src/pdb/memos.c. `none` is -1. A memo is told apart from the others by the
-- record that it points to. The size of the memo that goes is the number of its bytes in UTF-8, as in
-- the code, where memos_memo_add counts them in CP1251.
pub mod Laws
use palm_sync_daemon.Base.{
  ℕ, ◌+◌, ◌-◌, ◌%◌, ◌^◌, Option, none, some, List, [], ◌∷◌, map, length, ◌==◌, if◌then◌else◌,
}
use palm_sync_daemon.File.{Act, ◌>>=◌, ◌>>◌, from_option}
use palm_sync_daemon.Libc.SortSearch.{SortSearch}
use palm_sync_daemon.Pdb.Types.{Ptr, PdbRecord, pdb_record_item_size}
use palm_sync_daemon.Pdb.Records.{pdb_record_delete}
use palm_sync_daemon.Memos.Types.{Memo, Memos, on_pdb}
use palm_sync_daemon.Memos.Find.{memos_memo_get}

abbrev pub utf8_text_len : Memo → ℕ
utf8_text_len m = elim m.text [ none ↦ 0 | some t ↦ length t ]

abbrev pub utf8_size : Memo → ℕ
utf8_size m = length m.header + 1 + (utf8_text_len m + 1)

-- `offset -= d` on a uint32_t.
abbrev pub pull_by : ℕ → PdbRecord → PdbRecord
pull_by d r = record r { offset = (r.offset + 2 ^ 32 - d % 2 ^ 32) % 2 ^ 32 }

-- The walk with TAILQ_NEXT from the record of the memo.
abbrev pub pull_behind : Ptr → ℕ → List PdbRecord → List PdbRecord
pull_behind a d [] = []
pull_behind a d (r ∷ rs) =
    let rest = pull_behind a d rs in if r.address == a then r ∷ map (pull_by d) rs else r ∷ rest

abbrev pub remove_memo : Ptr → List Memo → List Memo
remove_memo a [] = []
remove_memo a (m ∷ ms) = let rest = remove_memo a ms in if m.record_ptr == a then ms else m ∷ rest

unfoldable pub take_out : Memo → Act Memos (Unit {0})
take_out memo m = (
  some tt,
  record {
    pdb = record (m.pdb) {
      records =
          map (pull_by pdb_record_item_size)
            (pull_behind memo.record_ptr (utf8_size memo) m.pdb.records);
    };
    queue = remove_memo memo.record_ptr m.queue;
  },
)

unfoldable pub memos_memo_delete : SortSearch → ℕ → Act Memos (Unit {0})
unfolding on_pdb take_out
memos_memo_delete lib id m =
    (do
      memo ← from_option (memos_memo_get lib id m)
      take_out memo
      on_pdb (pdb_record_delete memo.id))
      m
