-- ===== src/Log/Tests.antt =====
-- Runs of the log on a small machine: one block, 50, is in the transaction.
use northos.Prelude.{
  ℕ, ◌≡◌, refl, inl, inr, false, [], ◌∷◌, replicate, length-replicate, set, update, some, arith,
}
use northos.Log.{
  Block, Log, word, home, bwrite, install_from, install_trans, write_head, encode_head, store_from,
  clear_head, write_log, write_log_from, commit, load_from, read_head, recover_from_log, reboot,
  initlog,
}
use northos.Log.Install.{Installed}
use northos.Log.Recovery.{recoveries, initlog-reboot}
use northos.Log.Crash.{CommitReady, crash_before_commit, crash_after_commit}
use northos.Log.Ops.{begin_op, end_op}
use northos.Log.Ops.Space.{State, sum, IsShared, Reach, here, next, begins, end_op-reachable}

abbrev zeros : Block
zeros = replicate 512 0

abbrev old_disk : ℕ → Block
old_disk b = zeros

-- Block 50 holds a 7 in the cache and zeros on the disk; the log starts at block 2.
abbrev machine : Log
machine = record {
  start = 2;
  size = 30;
  outstanding = 0;
  committing = false;
  n = 1;
  block = set (replicate 30 0) 0 50;
  disk = old_disk;
  cache = update old_disk 50 (set zeros 0 7);
  power = 0;
}

machine-CommitReady : CommitReady machine
machine-CommitReady = record {
  small = omega arith;
  header = omega (arith, length-replicate {A = ℕ} 512 0);
  clean = refl;
  empty = refl;
  outside = λ i h. let e : i ≡ 0 = omega arith in rw e (inr (omega arith));
}

crash_before_commit_example :
    (recoveries (0 ∷ 1 ∷ 9 ∷ []) (commit (record machine { power = 1 }))).disk 50 ≡ zeros
crash_before_commit_example =
    crash_before_commit 1 (0 ∷ 1 ∷ 9 ∷ []) 50 machine machine-CommitReady (omega arith)
      (inr (omega arith))

crash_after_commit_example :
    Installed 2 1
      (home machine)
      machine.cache
      old_disk
      (recover_from_log
        (reboot 9 (recoveries (0 ∷ 1 ∷ []) (commit (record machine { power = 2 }))))).disk
crash_after_commit_example =
    crash_after_commit 2 (0 ∷ 1 ∷ []) 9 machine machine-CommitReady (omega arith) (omega arith)

-- The power fails after the header: block 50 is old, and a recovery brings the new contents.
commit_cut : word ((commit (record machine { power = 2 })).disk 50) 0 ≡ 0
unfolding commit write_log write_log_from write_head encode_head store_from install_trans
    install_from clear_head bwrite
commit_cut = refl

recovered :
    word ((recover_from_log (reboot 9 (commit (record machine { power = 2 })))).disk 50) 0 ≡ 7
unfolding commit write_log write_log_from write_head encode_head store_from install_trans
    install_from clear_head bwrite recover_from_log reboot read_head load_from
recovered = refl

-- A superblock with the log's size and start.
abbrev mounted : Log
mounted = record machine { disk = update old_disk 1 (set (set zeros 3 30) 4 2) }

initlog-reboot_run : initlog (reboot 9 mounted) ≡ recover_from_log (reboot 9 mounted)
initlog-reboot_run = initlog-reboot 9 mounted refl refl

abbrev idle : Log
idle = record machine { n = 0; cache = old_disk }

-- One operation has begun.
abbrev one_op : Log
one_op = record idle { outstanding = 1 }

abbrev idle_state : State
idle_state = record { log = idle; shares = [] }

abbrev one_op_state : State
one_op_state = record { log = one_op; shares = 10 ∷ [] }

idle-IsShared : IsShared idle_state
unfolding sum
idle-IsShared = record {
  fair = tt;
  counted = refl;
  reserved = omega arith;
  alone = inl refl;
  roomy = omega arith;
}

one_op-Reach : Reach idle_state one_op_state
unfolding begin_op
one_op-Reach = next here (begins refl refl)

end_op-reachable_example : (m : Log) × (end_op one_op ≡ some m)
end_op-reachable_example = end_op-reachable [] [] 10 idle-IsShared one_op-Reach refl
