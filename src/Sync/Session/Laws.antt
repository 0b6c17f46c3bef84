-- ===== src/Sync/Session/Laws.antt =====
-- The order of the calls of sync_this, and what its result says of them.
use palm_sync_daemon.Base.{
  ◌≡◌, ◌⊎◌, ◌↔◌, inl, inr, Bool-cases, Bool, true, false, List, [], ◌∷◌, arith, some, last,
}
use palm_sync_daemon.Libc.SortSearch.{In}
use palm_sync_daemon.Sync.Session.{
  Call, palm_open, check_previous_pdbs, palm_read, sync_memos, palm_write, save_as_previous_pdbs,
  palm_free, palm_close, synced, failed, sync_this, check_stage, read_stage, memos_stage,
  write_stage, save_stage, finish, sync_this_error,
}

-- The calls in order, for each way a synchronisation can go.
abbrev pub all_stages : (dry_run : Bool) → List Call
all_stages true =
    palm_open ∷ check_previous_pdbs ∷ palm_read ∷ sync_memos ∷ palm_free ∷ palm_close ∷ []
all_stages false =
    palm_open ∷ check_previous_pdbs ∷ palm_read ∷ sync_memos ∷ palm_write ∷ save_as_previous_pdbs
    ∷ palm_free ∷ palm_close ∷ []

module _ (works : Call → Bool) where
  -- The handheld is written to only behind a successful synchronisation of the memos, and not in a
  -- dry run.
  pub sync_this-writes :
      (dry_run : Bool)
      → In palm_write (sync_this works dry_run).1
      → (works sync_memos ≡ true) × (dry_run ≡ false)
  unfolding sync_this check_stage read_stage memos_stage write_stage save_stage finish
      sync_this_error
  sync_this-writes dry_run i = ground arith

  -- The PDB files are kept as those of the previous synchronisation only behind a successful
  -- synchronisation of the memos and a successful write to the handheld, and not in a dry run.
  pub sync_this-saves :
      (dry_run : Bool)
      → In save_as_previous_pdbs (sync_this works dry_run).1
      → (works sync_memos ≡ true) × (works palm_write ≡ true) × (dry_run ≡ false)
  unfolding sync_this check_stage read_stage memos_stage write_stage save_stage finish
      sync_this_error
  sync_this-saves dry_run i = ground arith

  -- sync_this reports success exactly if every call that it has to make succeeds and it has made
  -- all of them in order. In a dry run, whatever fails, it neither calls palm_write nor keeps the
  -- PDB files as those of the previous synchronisation.
  pub sync_this-synced :
      (dry_run : Bool)
      → (((sync_this works dry_run).0 ≡ synced) ↔ (
          (works palm_open ≡ true)
          × (works check_previous_pdbs ≡ true)
          × (works palm_read ≡ true)
          × (works sync_memos ≡ true)
          × ((dry_run ≡ true) ⊎ ((works palm_write ≡ true) × (works save_as_previous_pdbs ≡ true)))
          × (works palm_close ≡ true)
          × ((sync_this works dry_run).1 ≡ all_stages dry_run)))
        × ((dry_run ≡ false)
            ⊎ ((¬ In palm_write (sync_this works dry_run).1)
                × (¬ In save_as_previous_pdbs (sync_this works dry_run).1)))
  unfolding sync_this check_stage read_stage memos_stage write_stage save_stage finish
      sync_this_error
  sync_this-synced dry_run = (
    (λ h. ground arith, λ h. ground arith),
    elim (Bool-cases dry_run) [
      | inl dry ↦ inr (
        λ i. let wet = (sync_this-writes dry_run i).1 in absurd cc,
        λ i. let wet = (sync_this-saves dry_run i).2 in absurd cc,
      )
      | inr wet ↦ inl wet
    ],
  )

  -- Once opened, the device is closed at the end, whatever fails, unless the check of the files of
  -- the previous synchronisation fails: then nothing else is called and it stays open.
  pub sync_this-closes :
      (dry_run : Bool)
      → works palm_open ≡ true
      → ((works check_previous_pdbs ≡ true) × (last (sync_this works dry_run).1 ≡ some palm_close))
        ⊎ ((works check_previous_pdbs ≡ false)
            × ((sync_this works dry_run) ≡ (failed, palm_open ∷ check_previous_pdbs ∷ [])))
  unfolding sync_this check_stage read_stage memos_stage write_stage save_stage finish
      sync_this_error
  sync_this-closes dry_run h = ground arith
