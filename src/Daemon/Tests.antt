-- ===== src/Daemon/Tests.antt =====
-- The theorems on the lock and the data directory of src/palm-sync-daemon.c applied to concrete sequences of steps.
use palm_sync_daemon.Base.{ℕ, ◌≡◌, ◌≢◌, refl, Bool, true, false, ◌==◌, if◌then◌else◌, List, [], ◌∷◌}
use palm_sync_daemon.Daemon.DataDir.{expanded_data_dir}
use palm_sync_daemon.Daemon.DataDir.Laws.{with_slash, expanded_data_dir_lem}
use palm_sync_daemon.Daemon.Lock.{
  Event, starting, opened, locked, gone, holds, running, opens, writes_pid, sets_handlers,
  sets_exit, quits, World, run, first_world,
}
use palm_sync_daemon.Daemon.Lock.Laws.{run-exclusive}
use palm_sync_daemon.Daemon.Lock.Stale.{IsStale, run-stale}

-- The second daemon is refused while the first one starts, and runs when it has ended.
abbrev two_daemons : List (ℕ × Event)
two_daemons =
    (1, opens true)
    ∷ (2, opens true)
    ∷ (1, writes_pid true)
    ∷ (1, sets_handlers true)
    ∷ (1, sets_exit true)
    ∷ (1, quits)
    ∷ (3, opens true)
    ∷ (3, writes_pid true)
    ∷ (3, sets_handlers true)
    ∷ (3, sets_exit true)
    ∷ []

run-exclusive_example : (◌≡◌ {A = ℕ} 3 3) × ((run two_daemons first_world).lock_file ≡ true)
run-exclusive_example = run-exclusive two_daemons 3 3 refl refl

-- The handlers cannot be set, and the file stays.
abbrev failed_start : World
failed_start =
    run ((1, opens true) ∷ (1, writes_pid true) ∷ (1, sets_handlers false) ∷ []) first_world

failed_start-IsStale : IsStale failed_start
failed_start-IsStale = record { file_there = refl; none_holds = λ p. by_process (p == 1) }
  where
    by_process :
        (b : Bool)
        → holds (if b then gone else (if b then locked else (if b then opened else starting)))
          ≡ false
    by_process true = refl
    by_process false = refl

run-stale_example : (run two_daemons failed_start).phase 3 ≢ running
run-stale_example = run-stale two_daemons failed_start 3 failed_start-IsStale

-- Two words without a slash behind them.
expanded_data_dir_lem_example :
    expanded_data_dir ((97 ∷ []) ∷ (98 ∷ []) ∷ []) ≡ with_slash (97 ∷ 32 ∷ 98 ∷ [])
expanded_data_dir_lem_example =
    expanded_data_dir_lem (97 ∷ []) ((98 ∷ []) ∷ []) 97 (32 ∷ 98 ∷ []) refl
