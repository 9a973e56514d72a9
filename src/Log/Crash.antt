-- ===== src/Log/Crash.antt =====
-- Power failures during `commit` of kernel/log.c.
use native.Mathlib.Nat.{zero-add}
use northos.Prelude.{
  ℕ, zero, suc, ◌+◌, ◌≤◌, ◌<◌, ◌≡◌, refl, ap, inl, inr, ◌∙◌, List, [], ◌∷◌, ◌++◌, length, ltb,
  Bool-cases, false, lt→ltb, arith, dec_lt,
}
use northos.Log.{
  Log, word, home, bwrite, write_head, clear_head, install_trans, write_log_from, write_log, commit,
  recover_from_log, reboot, log_size,
}
use northos.Log.Install.{Outside, Installed}
use northos.Log.WriteLog.{Copied, write_log_from-Copied}
use northos.Log.Recovery.{
  Quiet, recoveries, start-install_from, disk-finish_off, finish-Committed, finish-Cleared, Durable,
  recoveries-Durable, write_head-Committed, recoveries-Quiet, recoveries-append,
}

-- A log that `commit` may be called on: the transaction fits, its blocks are neither the log's header
-- nor one of the n blocks behind it, which the transaction is copied to, and the header block on the
-- disk says that nothing is committed.
pub record CommitReady (l : Log) : Type 0 where
  pub small : l.n ≤ log_size
  pub header : l.n < length (l.cache l.start)
  pub clean : l.cache l.start ≡ l.disk l.start
  pub empty : word (l.disk l.start) 0 ≡ 0
  pub outside : (i : ℕ) → i < l.n → Outside l.start l.n (home l i)

-- The log as it stands when `commit` is called with power for k more disk writes.
abbrev with_power : ℕ → Log → Log
with_power k l = record l { power = k }

start-write_log_from : (r t : ℕ) (l : Log) → (write_log_from r t l).start ≡ l.start
unfolding write_log_from bwrite
start-write_log_from zero t l = refl
start-write_log_from (suc r) t l = start-write_log_from r (t + 1) _

start-commit : (k : ℕ) (l : Log) → (commit (with_power k l)).start ≡ l.start
unfolding commit clear_head write_head bwrite install_trans write_log
start-commit k l = elim (Bool-cases (ltb 0 l.n)) [
  | inl e ↦ rw e (start-install_from _ 0 _ ∙ start-write_log_from l.n 0 (with_power k l))
  | inr e ↦ rw e
]

module _ (k : ℕ) (l : Log) (v : CommitReady l) where
  -- What `write_log` leaves behind.
  written : Copied l.start l.n (home l) l.cache l.disk k l.n (write_log (with_power k l))
  unfolding write_log
  written = rw zero-add at (
      write_log_from-Copied l.start l.n (home l) l.cache l.disk k v.small v.outside l.n 0
        (with_power k l) (omega arith)
        (record {
          at = refl;
          rounds = refl;
          homes = λ i hi. refl;
          cached = λ b h. refl;
          copies = λ i hi. absurd (omega arith);
          disked = λ b h. refl;
          logged = λ i hi lasts. absurd (omega arith);
          left = omega arith;
        }))

  ready-Quiet : Quiet l.start l.n l.disk l.disk
  ready-Quiet = record {
    room = omega (arith, ap length v.clean, v.header);
    count = v.empty;
    same = λ b o. refl;
  }

  commit-none : l.n ≡ 0 → Quiet l.start l.n l.disk (commit (with_power k l)).disk
  unfolding commit
  commit-none e = let no_blocks : ltb 0 l.n ≡ false = ground arith in rw no_blocks ready-Quiet

  commit-Quiet : k ≤ l.n → Quiet l.start l.n l.disk (commit (with_power k l)).disk
  unfolding commit
  commit-Quiet h = elim (Bool-cases (ltb 0 l.n)) [
    | inl some_blocks ↦
        let w = written in
        let w' = write_log (with_power k l) in
        let q = ready-Quiet in
        let off : w'.power ≡ 0 = omega (arith, w.left) in
        rw (some_blocks, disk-finish_off w' off)
          (record {
            room = omega (arith, ap length (w.disked l.start (inr refl)), q.room);
            count = ap (λ b. word b 0) (w.disked l.start (inr refl)) ∙ q.count;
            same = λ b o. w.disked b (inl o);
          })
    | inr no_blocks ↦ rw no_blocks ready-Quiet
  ]

  commit-Durable :
      0 < l.n
      → l.n < k
      → Durable l.start l.n (home l) l.cache l.disk v.small v.outside (commit (with_power k l)).disk
  unfolding commit
  commit-Durable some_blocks h =
      let w = written in
      let test = lt→ltb 0 l.n some_blocks in
      let w' = write_head (write_log (with_power k l)) in
      let (loaded, committed) =
        write_head-Committed l.start l.n (home l) l.cache l.disk v.small v.outside k
          (write_log (with_power k l)) h v.header w in
      rw test (elim (dec_lt l.n w'.power) [
        | yes lasts ↦ inr (
            finish-Cleared l.start l.n (home l) l.cache l.disk v.small v.outside w' lasts loaded
              committed)
        | no ends ↦ inl (
            finish-Committed l.start l.n (home l) l.cache l.disk v.small v.outside w' (omega arith)
              loaded committed)
      ])

-- If the power fails during `commit` before its header is written, that is with power for at most n
-- disk writes, then, through any reboots and partial recoveries, every block but the log's header and
-- the n blocks behind it reads as it was on the disk before the commit: no part of the transaction
-- is seen.
pub crash_before_commit :
    (k : ℕ) (ks : List ℕ) (b : ℕ) (l : Log)
    → CommitReady l
    → k ≤ l.n
    → Outside l.start l.n b
    → (recoveries ks (commit (with_power k l))).disk b ≡ l.disk b
crash_before_commit k ks b l v h o =
    (recoveries-Quiet ks l.start l.n l.disk (commit (with_power k l)) (start-commit k l)
        (commit-Quiet k l v h)).same
      b o

-- If the power lasts for more than n of the disk writes of `commit`, then, however often it fails
-- again during the recoveries that follow, the first recovery that has power for more than n writes
-- leaves each of the n logged blocks with the contents that it had in the cache at the commit, and
-- every other block, but the log's header and the n blocks behind it, as it was on the disk.
pub crash_after_commit :
    (k : ℕ) (ks : List ℕ) (enough : ℕ) (l : Log)
    → CommitReady l
    → l.n < k
    → l.n < enough
    → Installed l.start l.n
        (home l)
        l.cache
        l.disk
        (recover_from_log (reboot enough (recoveries ks (commit (with_power k l))))).disk
crash_after_commit k ks enough l v h more = elim (dec_lt 0 l.n) [
  | yes some_blocks ↦
      recoveries-Durable l.start l.n (home l) l.cache l.disk v.small v.outside ks enough
        (commit (with_power k l)) more (start-commit k l) (commit-Durable k l v some_blocks h)
  | no no_blocks ↦
      let q =
        recoveries-Quiet (ks ++ enough ∷ []) l.start l.n l.disk (commit (with_power k l))
          (start-commit k l) (commit-none k l v (omega arith)) in
      record {
        placed = λ i hi. absurd (omega arith);
        others = λ b o ne. rw recoveries-append at (q.same b o);
      }
]
