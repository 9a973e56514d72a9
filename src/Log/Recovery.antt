-- ===== src/Log/Recovery.antt =====
-- `recover_from_log` of kernel/log.c, run to its end or cut short, on each disk that a crash leaves.
use northos.Prelude.{
  ℕ, zero, suc, ◌+◌, ◌≤◌, ◌<◌, ◌≡◌, refl, ap, ◌⊎◌, inl, inr, ◌∙◌, List, [], ◌∷◌, ◌++◌, length,
  false, ◌==◌, update_self, update_ne, update_eq, arith, length-replicate, replicate, dec_lt,
}
use northos.Log.{
  Block, Log, word, home, bwrite, write_head, clear_head, encode_head, install_from, install_trans,
  read_head, recover_from_log, initlog, reboot, log_size,
}
use northos.Log.Header.{
  word-encode_head_count, word-encode_head, length-encode_head, get_or-load_from,
}
use northos.Log.Install.{
  Outside, Committed, Installed, Loaded, install_from-Committed, install_from-Loaded,
  power-install_from, install_trans-Installed,
}
use northos.Log.WriteLog.{Copied}

-- The header on the disk says that there is no transaction, and the other blocks are as in `old`.
pub record Quiet (start n : ℕ) (old d : ℕ → Block) : Type 0 where
  pub room : 0 < length (d start)
  pub count : word (d start) 0 ≡ 0
  pub same : (b : ℕ) → Outside start n b → d b ≡ old b

-- The transaction is in place and its header cleared.
pub record Cleared (start n : ℕ) (bs : ℕ → ℕ) (new old d : ℕ → Block) : Type 0 where
  pub room : 0 < length (d start)
  pub count : word (d start) 0 ≡ 0
  pub installed : Installed start n bs new old d

-- A reboot for each amount of power, each followed by a recovery.
pub recoveries : List ℕ → Log → Log
recoveries [] l = l
recoveries (k ∷ ks) l = recoveries ks (recover_from_log (reboot k l))

pub start-install_from : (r t : ℕ) (l : Log) → (install_from r t l).start ≡ l.start
unfolding install_from bwrite
start-install_from zero t l = refl
start-install_from (suc r) t l = start-install_from r (t + 1) _

-- With start and size in the superblock, `initlog` after a reboot is the recovery.
pub initlog-reboot :
    (k : ℕ) (l : Log)
    → word (l.disk 1) 4 ≡ l.start
    → word (l.disk 1) 3 ≡ l.size
    → initlog (reboot k l) ≡ recover_from_log (reboot k l)
unfolding initlog reboot
initlog-reboot k l e f = rw (e, f) refl

start-recover : (k : ℕ) (l : Log) → (recover_from_log (reboot k l)).start ≡ l.start
unfolding recover_from_log reboot clear_head write_head bwrite install_trans read_head
start-recover k l = start-install_from _ 0 _

install_trans-none : (l : Log) → l.n ≡ 0 → install_trans l ≡ l
unfolding install_trans install_from
install_trans-none l e = rw (e, install_from)

-- The header block that `clear_head` writes says that there is no transaction.
clear_head-keeps :
    (start n : ℕ) (l : Log)
    → l.start ≡ start
    → 0 < length (l.cache start)
    → 0 < l.power
    → (0 < length ((clear_head l).disk start))
      × (word ((clear_head l).disk start) 0 ≡ 0)
      × ((b : ℕ) → Outside start n b → (clear_head l).disk b ≡ l.disk b)
unfolding clear_head write_head bwrite
clear_head-keeps start n l e h on =
    let off : (l.power == 0) ≡ false = ground arith in
    rw (e, off)
      (let head = update_self l.disk start (encode_head 0 l.block (l.cache start)) in
        (
          rw head (omega (arith, length-encode_head 0 l.block (l.cache start))),
          rw head (word-encode_head_count 0 l.block (l.cache start) h),
          λ b o. update_ne l.disk start b (encode_head 0 l.block (l.cache start)) (omega arith),
        ))

clear_head-off : (l : Log) → l.power ≡ 0 → (clear_head l).disk ≡ l.disk
unfolding clear_head write_head bwrite
clear_head-off l off = rw off

clear_head-Quiet :
    (start n : ℕ) (old : ℕ → Block) (l : Log)
    → l.start ≡ start
    → 0 < length (l.cache start)
    → Quiet start n old l.disk
    → Quiet start n old (clear_head l).disk
clear_head-Quiet start n old l e h q = elim (dec_lt 0 l.power) [
  | yes on ↦
      let (room, count, same) = clear_head-keeps start n l e h on in
      record { room = room; count = count; same = λ b o. same b o ∙ q.same b o }
  | no off ↦ rw (clear_head-off l (omega arith)) q
]

-- With no transaction on the disk a recovery, however far it gets, changes no block.
recover-Quiet :
    (k start n : ℕ) (old : ℕ → Block) (l : Log)
    → l.start ≡ start
    → Quiet start n old l.disk
    → Quiet start n old (recover_from_log (reboot k l)).disk
unfolding recover_from_log reboot read_head
recover-Quiet k start n old l e q =
    let count : word (l.disk l.start) 0 ≡ 0 = rw e q.count in
    rw (install_trans-none (read_head (reboot k l)) count)
      (clear_head-Quiet start n old (read_head (reboot k l)) e q.room q)

module _ (start n : ℕ) (bs : ℕ → ℕ) (new old : ℕ → Block) (small : n ≤ log_size)
    (outside : (i : ℕ) → i < n → Outside start n (bs i)) where
  -- What `read_head` finds after a reboot over a committed disk.
  reboot-Loaded :
      (k : ℕ) (l : Log)
      → l.start ≡ start
      → Committed start n bs new old l.disk
      → Loaded start n bs new (read_head (reboot k l))
  unfolding reboot read_head
  reboot-Loaded k l e c = record {
    at = e;
    fits = c.room;
    rounds = rw e c.count;
    homes = λ i hi.
        rw (e, c.count)
          (get_or-load_from n 0 i (l.disk start) (replicate log_size 0) (omega arith) (omega arith)
              (omega (arith, length-replicate {A = ℕ} log_size 0))
            ∙ c.blocks i hi);
    copies = c.logged;
  }

  install_trans-Loaded : (l : Log) → Loaded start n bs new l → install_trans l ≡ install_from n 0 l
  unfolding install_trans
  install_trans-Loaded l v = ap (λ r. install_from r 0 l) v.rounds

  -- From a committed disk, the end of `commit` and that of a recovery either keep the disk
  -- committed or, with power for all of it, finish the transaction.
  pub finish-Committed :
      (l : Log)
      → l.power ≤ n
      → Loaded start n bs new l
      → Committed start n bs new old l.disk
      → Committed start n bs new old (clear_head (install_trans l)).disk
  finish-Committed l k v c = rw (install_trans-Loaded l v) (
      rw
        (clear_head-off (install_from n 0 l)
          (omega (arith, power-install_from start n bs new old small outside n 0 l)))
        (install_from-Committed start n bs new old small outside n 0 l (omega arith) v c))

  pub finish-Cleared :
      (l : Log)
      → n < l.power
      → Loaded start n bs new l
      → Committed start n bs new old l.disk
      → Cleared start n bs new old (clear_head (install_trans l)).disk
  finish-Cleared l k v c = rw (install_trans-Loaded l v) (
      let m = install_from n 0 l in
      let w = install_from-Loaded start n bs new old small outside n 0 l (omega arith) v in
      let done = install_trans-Installed start n bs new old small outside l (omega arith) v c in
      let left : 0 < m.power =
        omega (arith, power-install_from start n bs new old small outside n 0 l) in
      let (room, count, same) = clear_head-keeps start n m w.at w.fits left in
      record {
        room = room;
        count = count;
        installed = record {
          placed = λ i hi. same (bs i) (outside i hi) ∙ done.placed i hi;
          others = λ b o ne. same b o ∙ done.others b o ne;
        };
      })

  -- The transaction is on the disk, in the log or in place.
  abbrev pub Durable : (ℕ → Block) → Type 0
  Durable d = Committed start n bs new old d ⊎ Cleared start n bs new old d

  recover-Cleared :
      (k : ℕ) (l : Log)
      → l.start ≡ start
      → Cleared start n bs new old l.disk
      → Cleared start n bs new old (recover_from_log (reboot k l)).disk
  recover-Cleared k l e c =
      let q : Quiet start n l.disk l.disk = record {
        room = c.room;
        count = c.count;
        same = λ b o. refl;
      } in
      let q' = recover-Quiet k start n l.disk l e q in
      record {
        room = q'.room;
        count = q'.count;
        installed = record {
          placed = λ i hi. q'.same (bs i) (outside i hi) ∙ c.installed.placed i hi;
          others = λ b o ne. q'.same b o ∙ c.installed.others b o ne;
        };
      }

  -- A recovery that has power for it finishes the transaction.
  recover-Durable_done :
      (k : ℕ) (l : Log)
      → n < k
      → l.start ≡ start
      → Durable l.disk
      → Cleared start n bs new old (recover_from_log (reboot k l)).disk
  unfolding recover_from_log reboot read_head
  recover-Durable_done k l h e (inl c) =
      finish-Cleared (read_head (reboot k l)) h (reboot-Loaded k l e c) c
  recover-Durable_done k l h e (inr c) = recover-Cleared k l e c

  -- One that has not keeps it.
  recover-Durable :
      (k : ℕ) (l : Log)
      → l.start ≡ start
      → Durable l.disk
      → Durable (recover_from_log (reboot k l)).disk
  unfolding recover_from_log reboot read_head
  recover-Durable k l e (inl c) = elim (dec_lt n k) [
    | yes h ↦ inr (recover-Durable_done k l h e (inl c))
    | no h ↦ inl (finish-Committed (read_head (reboot k l)) (omega arith) (reboot-Loaded k l e c) c)
  ]
  recover-Durable k l e (inr c) = inr (recover-Cleared k l e c)

  pub recoveries-Durable :
      (ks : List ℕ) (k : ℕ) (l : Log)
      → n < k
      → l.start ≡ start
      → Durable l.disk
      → Installed start n bs new old (recover_from_log (reboot k (recoveries ks l))).disk
  unfolding recoveries
  recoveries-Durable [] k l h e c = (recover-Durable_done k l h e c).installed
  recoveries-Durable (j ∷ ks) k l h e c =
      recoveries-Durable ks k (recover_from_log (reboot j l)) h (start-recover j l ∙ e)
        (recover-Durable j l e c)

  -- The write of the header is the point where the transaction is committed.
  pub write_head-Committed :
      (k : ℕ) (w : Log)
      → n < k
      → n < length (new start)
      → Copied start n bs new old k n w
      → Loaded start n bs new (write_head w) × Committed start n bs new old (write_head w).disk
  unfolding write_head bwrite
  write_head-Committed k w on room v =
      let head : Block = encode_head w.n w.block (w.cache w.start) in
      let at = v.at in
      let off : (w.power == 0) ≡ false = ground (arith, v.left) in
      let source : w.cache w.start ≡ new start = ap w.cache v.at ∙ v.cached start (inr refl) in
      let fits : n < length (w.cache w.start) = omega (arith, ap length source) in
      let long : 0 < length head =
        omega (arith, length-encode_head w.n w.block (w.cache w.start)) in
      (
        record {
          at = v.at;
          fits = rw (update_eq w.cache w.start start head v.at) long;
          rounds = v.rounds;
          homes = v.homes;
          copies =
              λ i hi. update_ne w.cache w.start (start + i + 1) head (omega arith) ∙ v.copies i hi;
        },
        rw off (record {
          room = rw (update_eq w.disk w.start start head v.at) long;
          count =
              rw (update_eq w.disk w.start start head v.at)
                (word-encode_head_count w.n w.block (w.cache w.start) (omega arith) ∙ v.rounds);
          blocks = λ i hi. rw (update_eq w.disk w.start start head v.at) (
              word-encode_head w.n i w.block (w.cache w.start) (omega (arith, v.rounds))
                (omega (arith, v.rounds))
              ∙ v.homes i hi);
          logged = λ i hi.
              update_ne w.disk w.start (start + i + 1) head (omega arith)
              ∙ v.logged i hi (omega arith);
          others = λ b o ne. update_ne w.disk w.start b head (omega arith) ∙ v.disked b (inl o);
        }),
      )

write_head-off :
    (w : Log) → w.power ≡ 0 → ((write_head w).disk ≡ w.disk) × ((write_head w).power ≡ 0)
unfolding write_head bwrite
write_head-off w off = (rw off, omega arith)

-- Without power the loops and the header writes leave the disk alone.
install_from-off :
    (r t : ℕ) (l : Log)
    → l.power ≡ 0
    → ((install_from r t l).disk ≡ l.disk) × ((install_from r t l).power ≡ 0)
unfolding install_from bwrite
install_from-off zero t l off = (refl, off)
install_from-off (suc r) t l off =
    let l' = bwrite l (home l t) (l.cache (l.start + t + 1)) in
    let (d, p) = install_from-off r (t + 1) l' (omega arith) in
    let same : l'.disk ≡ l.disk = ground arith in (d ∙ same, p)

pub disk-finish_off :
    (w : Log) → w.power ≡ 0 → (clear_head (install_trans (write_head w))).disk ≡ w.disk
unfolding install_trans
disk-finish_off w off =
    let (h, p) = write_head-off w off in
    let (d, q) = install_from-off (write_head w).n 0 (write_head w) p in
    clear_head-off (install_from (write_head w).n 0 (write_head w)) q ∙ d ∙ h

pub recoveries-Quiet :
    (ks : List ℕ) (start n : ℕ) (old : ℕ → Block) (l : Log)
    → l.start ≡ start
    → Quiet start n old l.disk
    → Quiet start n old (recoveries ks l).disk
unfolding recoveries
recoveries-Quiet [] start n old l e q = q
recoveries-Quiet (k ∷ ks) start n old l e q =
    recoveries-Quiet ks start n old (recover_from_log (reboot k l)) (start-recover k l ∙ e)
      (recover-Quiet k start n old l e q)

pub recoveries-append :
    (ks : List ℕ) (k : ℕ) (l : Log)
    → recoveries (ks ++ k ∷ []) l ≡ recover_from_log (reboot k (recoveries ks l))
unfolding recoveries
recoveries-append [] k l = refl
recoveries-append (j ∷ ks) k l = recoveries-append ks k (recover_from_log (reboot j l))
