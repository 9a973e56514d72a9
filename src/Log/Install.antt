-- ===== src/Log/Install.antt =====
-- `install_trans` of kernel/log.c over a disk that holds a committed transaction.
use northos.Prelude.{
  ℕ, length, zero, suc, ◌+◌, ◌-◌, ◌≤◌, ◌<◌, ◌≡◌, sym, ap, ◌≢◌, ◌⊎◌, inl, inr, ◌∙◌, Bool-cases,
  false, ◌==◌, if◌then◌else◌, update, update_self, update_ne, arith, ℕ_discrete,
}
use northos.Log.{Block, Log, word, home, bwrite, install_from, log_size}

-- Neither the header of the log, at `start`, nor one of the n blocks behind it, which hold the
-- transaction. In a log of more than n blocks all of them are blocks of the log.
abbrev pub Outside : ℕ → ℕ → ℕ → Type 0
Outside start n b = (b < start) ⊎ (start + n < b)

-- The disk holds a transaction of n blocks whose numbers are `bs` and contents `new`; the blocks
-- that are not in it are as in `old`.
pub record Committed (start n : ℕ) (bs : ℕ → ℕ) (new old d : ℕ → Block) : Type 0 where
  pub room : 0 < length (d start)
  pub count : word (d start) 0 ≡ n
  pub blocks : (i : ℕ) → i < n → word (d start) (i + 1) ≡ bs i
  pub logged : (i : ℕ) → i < n → d (start + i + 1) ≡ new (bs i)
  pub others : (b : ℕ) → Outside start n b → ((i : ℕ) → i < n → bs i ≢ b) → d b ≡ old b

-- The blocks of the transaction are in place, and the others as in `old`.
pub record Installed (start n : ℕ) (bs : ℕ → ℕ) (new old d : ℕ → Block) : Type 0 where
  pub placed : (i : ℕ) → i < n → d (bs i) ≡ new (bs i)
  pub others : (b : ℕ) → Outside start n b → ((i : ℕ) → i < n → bs i ≢ b) → d b ≡ old b

-- In memory, the header and the log's blocks agree with the disk.
pub record Loaded (start n : ℕ) (bs : ℕ → ℕ) (new : ℕ → Block) (l : Log) : Type 0 where
  pub at : l.start ≡ start
  pub fits : 0 < length (l.cache start)
  pub rounds : l.n ≡ n
  pub homes : (i : ℕ) → i < n → home l i ≡ bs i
  pub copies : (i : ℕ) → i < n → l.cache (start + i + 1) ≡ new (bs i)

module _ (start n : ℕ) (bs : ℕ → ℕ) (new old : ℕ → Block) (small : n ≤ log_size)
    (outside : (i : ℕ) → i < n → Outside start n (bs i)) where
  -- One round of the loop.
  install_step : ℕ → Log → Log
  install_step t l = bwrite l (home l t) (l.cache (l.start + t + 1))

  step-Loaded :
      (t : ℕ) (l : Log) → t < n → Loaded start n bs new l → Loaded start n bs new (install_step t l)
  unfolding install_step bwrite
  step-Loaded t l h v = record {
    at = v.at;
    fits =
        let o = outside t h in
        let e = v.homes t h in
        let head = update_ne l.cache (home l t) start (l.cache (l.start + t + 1)) (omega arith) in
        omega (arith, ap length head, v.fits);
    rounds = v.rounds;
    homes = v.homes;
    copies = λ i hi.
        let o = outside t h in
        let e = v.homes t h in
        update_ne l.cache (home l t) (start + i + 1) (l.cache (l.start + t + 1)) (omega arith)
        ∙ v.copies i hi;
  }

  -- What the round writes, if the power lasts.
  disk-step :
      (t : ℕ) (l : Log)
      → t < n
      → Loaded start n bs new l
      → (install_step t l).disk
        ≡ (if l.power == 0 then l.disk else update l.disk (bs t) (new (bs t)))
  unfolding install_step bwrite
  disk-step t l h v = rw (v.homes t h, v.at, v.copies t h)

  -- A committed disk stays so under a write that puts a block of the transaction in its place.
  update-Committed :
      (t : ℕ) (d : ℕ → Block)
      → t < n
      → Committed start n bs new old d
      → Committed start n bs new old (update d (bs t) (new (bs t)))
  update-Committed t d h c =
      let o = outside t h in
      let head = update_ne d (bs t) start (new (bs t)) (omega arith) in
      record {
        room = omega (arith, ap length head, c.room);
        count = ap (λ b. word b 0) head ∙ c.count;
        blocks = λ i hi. ap (λ b. word b (i + 1)) head ∙ c.blocks i hi;
        logged =
            λ i hi. update_ne d (bs t) (start + i + 1) (new (bs t)) (omega arith) ∙ c.logged i hi;
        others = λ b ob ne. update_ne d (bs t) b (new (bs t)) (ne t h) ∙ c.others b ob ne;
      }

  step-Committed :
      (t : ℕ) (l : Log)
      → t < n
      → Loaded start n bs new l
      → Committed start n bs new old l.disk
      → Committed start n bs new old (install_step t l).disk
  step-Committed t l h v c = rw (disk-step t l h v) (elim (Bool-cases (l.power == 0)) [
    | inl off ↦ rw off c
    | inr on ↦ rw on (update-Committed t l.disk h c)
  ])

  -- Power or not, the loop leaves a committed disk committed, and the header loaded.
  pub install_from-Committed :
      (r t : ℕ) (l : Log)
      → t + r ≤ n
      → Loaded start n bs new l
      → Committed start n bs new old l.disk
      → Committed start n bs new old (install_from r t l).disk
  unfolding install_from install_step
  install_from-Committed zero t l h v c = c
  install_from-Committed (suc r) t l h v c =
      install_from-Committed r (t + 1) (install_step t l) (omega arith)
        (step-Loaded t l (omega arith) v) (step-Committed t l (omega arith) v c)

  pub install_from-Loaded :
      (r t : ℕ) (l : Log)
      → t + r ≤ n
      → Loaded start n bs new l
      → Loaded start n bs new (install_from r t l)
  unfolding install_from install_step
  install_from-Loaded zero t l h v = v
  install_from-Loaded (suc r) t l h v =
      install_from-Loaded r (t + 1) (install_step t l) (omega arith)
        (step-Loaded t l (omega arith) v)

  pub power-install_from : (r t : ℕ) (l : Log) → (install_from r t l).power ≡ l.power - r
  unfolding install_from bwrite
  power-install_from zero t l = omega arith
  power-install_from (suc r) t l =
      omega (arith, power-install_from r (t + 1) (bwrite l (home l t) (l.cache (l.start + t + 1))))

  -- The first t blocks are in place.
  abbrev Placed : ℕ → Log → Type 0
  Placed t l = (i : ℕ) → i < t → l.disk (bs i) ≡ new (bs i)

  step-Placed :
      (t : ℕ) (l : Log)
      → t < n
      → 0 < l.power
      → Loaded start n bs new l
      → Placed t l
      → Placed (t + 1) (install_step t l)
  step-Placed t l h on v p i hi =
      let off : (l.power == 0) ≡ false = ground arith in
      rw (disk-step t l h v, off)
        (elim (ℕ_discrete (bs t) (bs i)) [
          | yes e ↦ rw e (update_self l.disk (bs i) (new (bs i)))
          | no ne ↦
              update_ne l.disk (bs t) (bs i) (new (bs t)) ne
              ∙ p i (elim (ℕ_discrete i t) [
                | yes e ↦ absurd (ne (sym (ap bs e)))
                | no other ↦ omega arith
              ])
        ])

  -- With power for all rounds, every block of the transaction is in place.
  install_from-Placed :
      (r t : ℕ) (l : Log)
      → t + r ≤ n
      → r ≤ l.power
      → Loaded start n bs new l
      → Placed t l
      → Placed (t + r) (install_from r t l)
  unfolding install_from install_step bwrite
  install_from-Placed zero t l h k v p i hi = p i (omega arith)
  install_from-Placed (suc r) t l h k v p i hi =
      install_from-Placed r (t + 1) (install_step t l) (omega arith) (omega arith)
        (step-Loaded t l (omega arith) v) (step-Placed t l (omega arith) (omega arith) v p) i
        (omega arith)

  pub install_trans-Installed :
      (l : Log)
      → n ≤ l.power
      → Loaded start n bs new l
      → Committed start n bs new old l.disk
      → Installed start n bs new old (install_from n 0 l).disk
  install_trans-Installed l k v c = record {
    placed = λ i hi.
        install_from-Placed n 0 l (omega arith) k v (λ j hj. absurd (omega arith)) i (omega arith);
    others = (install_from-Committed n 0 l (omega arith) v c).others;
  }
