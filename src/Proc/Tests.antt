-- ===== src/Proc/Tests.antt =====
-- Runs of the process table: init forks a child, which exits.
use northos.Prelude.{ℕ, ◌<◌, ◌≡◌, ◌≢◌, refl, false, true, none, some, [], arith}
use northos.Proc.{
  Table, nproc, userinit, schedule, allocproc, find_unused, give_stack, fork_copies, fork_starts,
  exit, set_proc, zombie, pass_children, pass_child, wakeup1, wakeup_from, proc_at, wait, woken,
}
use northos.Proc.Loops.{wakeup1-woken}
use northos.Proc.Kill.{StartsKilled, stale_kill}
use northos.Proc.Waits.{Waits, wait-Waits}
use northos.Proc.Invariant.{waiting, is_up}
use northos.Proc.Invariant.Reach.{
  Reach, here, next, allocates, gets_stack, copies, starts, exits, schedules, no_lost_exit,
  parents_in_table,
}

abbrev init_runs : Table
init_runs = schedule (userinit 1000 []) 0

abbrev forking : Table
forking = (give_stack (allocproc init_runs).0 1 (some 2000)).0

abbrev child_runs : Table
child_runs = schedule (fork_starts (fork_copies forking 0 1) 1) 1

abbrev child_gone : Table
child_gone =
    let t = pass_children nproc 0 1 (wakeup1 child_runs (proc_at 0)) in
    set_proc t 1 (record (t.proc 1) { state = zombie })

child_runs-Reach : Reach (userinit 1000 []) child_runs
unfolding userinit allocproc find_unused give_stack schedule fork_copies fork_starts
child_runs-Reach =
    next
      (next
        (next
          (next (next (next here (schedules 0 (omega arith) refl)) (allocates 1 refl))
            (gets_stack 1 (some 2000) (omega arith) refl))
          (copies 0 1 (omega arith) (omega arith) refl refl))
        (starts 1 (omega arith) refl))
      (schedules 1 (omega arith) refl)

child_gone-Reach : Reach (userinit 1000 []) child_gone
unfolding userinit allocproc find_unused give_stack schedule fork_copies fork_starts exit
child_gone-Reach = next child_runs-Reach (exits 1 (omega arith) refl refl)

no_lost_exit_example : waiting 0 (child_gone.proc 0) ≡ false
unfolding userinit allocproc find_unused give_stack schedule fork_copies fork_starts exit
    pass_children pass_child wakeup1 wakeup_from
no_lost_exit_example = no_lost_exit 1000 [] 1 0 child_gone-Reach (omega arith) refl refl

parents_in_table_example :
    (is_up (child_gone.proc child_gone.initproc).state ≡ true)
    × ((c p : ℕ)
        → c < nproc
        → (child_gone.proc c).parent ≡ some p
        → (p < nproc) × (p ≢ c) × (is_up (child_gone.proc p).state ≡ true))
parents_in_table_example = parents_in_table 1000 [] child_gone-Reach

wait-Waits_example : Waits child_gone 0 (wait child_gone 0)
wait-Waits_example = wait-Waits child_gone 0

wakeup1-woken_run : (wakeup1 child_runs (proc_at 0)).proc 1 ≡ woken (proc_at 0) (child_runs.proc 1)
wakeup1-woken_run = wakeup1-woken child_runs (proc_at 0) 1 (omega arith)

stale_kill_example : StartsKilled (give_stack (allocproc init_runs).0 1 none).0 1 2
unfolding userinit allocproc find_unused give_stack schedule
stale_kill_example = stale_kill init_runs 1 refl only_init
  where
    only_init : (k : ℕ) → k < 1 → (init_runs.proc k).pid ≢ 2
    only_init k h = ground arith
