-- ===== src/Log/WriteLog.antt =====
-- `write_log` of kernel/log.c: the copies that it makes, before the transaction is committed.
use northos.Prelude.{
  ℕ, zero, suc, ◌+◌, ◌-◌, ◌≤◌, ◌<◌, ◌≡◌, ◌⊎◌, inl, inr, ◌∙◌, Bool-cases, false, ◌==◌, if◌then◌else◌,
  update, update_self, update_ne, arith, ℕ_discrete, subst,
}
use northos.Log.{Block, Log, home, bwrite, write_log_from, log_size}
use northos.Log.Install.{Outside}

-- A block that `write_log` leaves alone.
abbrev pub Kept : ℕ → ℕ → ℕ → Type 0
Kept start n b = Outside start n b ⊎ (b ≡ start)

-- After t rounds of the loop, started on `cache0` and `disk0` with power p.
pub record Copied (start n : ℕ) (bs : ℕ → ℕ) (cache0 disk0 : ℕ → Block) (p t : ℕ) (l : Log)
    : Type 0 where
  pub at : l.start ≡ start
  pub rounds : l.n ≡ n
  pub homes : (i : ℕ) → i < n → home l i ≡ bs i
  pub cached : (b : ℕ) → Kept start n b → l.cache b ≡ cache0 b
  pub copies : (i : ℕ) → i < t → l.cache (start + i + 1) ≡ cache0 (bs i)
  pub disked : (b : ℕ) → Kept start n b → l.disk b ≡ disk0 b
  pub logged : (i : ℕ) → i < t → t ≤ p → l.disk (start + i + 1) ≡ cache0 (bs i)
  pub left : l.power ≡ p - t

module _ (start n : ℕ) (bs : ℕ → ℕ) (cache0 disk0 : ℕ → Block) (p : ℕ) (small : n ≤ log_size)
    (outside : (i : ℕ) → i < n → Outside start n (bs i)) where
  copy_step : ℕ → Log → Log
  copy_step t l = bwrite l (l.start + t + 1) (l.cache (home l t))

  -- What one round stores, in memory and on the disk.
  cache-copy_step :
      (t : ℕ) (l : Log)
      → t < n
      → Copied start n bs cache0 disk0 p t l
      → (copy_step t l).cache ≡ update l.cache (start + t + 1) (cache0 (bs t))
  unfolding copy_step bwrite
  cache-copy_step t l h v = rw (v.homes t h, v.at, v.cached (bs t) (inl (outside t h)))

  disk-copy_step :
      (t : ℕ) (l : Log)
      → t < n
      → Copied start n bs cache0 disk0 p t l
      → (copy_step t l).disk
        ≡ (if l.power == 0 then l.disk else update l.disk (start + t + 1) (cache0 (bs t)))
  unfolding copy_step bwrite
  disk-copy_step t l h v = rw (v.homes t h, v.at, v.cached (bs t) (inl (outside t h)))

  disked-copy_step :
      (t b : ℕ) (l : Log)
      → t < n
      → Copied start n bs cache0 disk0 p t l
      → Kept start n b
      → (copy_step t l).disk b ≡ disk0 b
  disked-copy_step t b l h v kept = rw (disk-copy_step t l h v) (elim (Bool-cases (l.power == 0)) [
    | inl off ↦ rw off (v.disked b kept)
    | inr on ↦
        rw on (update_ne l.disk (start + t + 1) b (cache0 (bs t)) (omega arith) ∙ v.disked b kept)
  ])

  copies-copy_step :
      (t i : ℕ) (l : Log)
      → t < n
      → i < t + 1
      → Copied start n bs cache0 disk0 p t l
      → (copy_step t l).cache (start + i + 1) ≡ cache0 (bs i)
  copies-copy_step t i l h k v = rw (cache-copy_step t l h v) (elim (ℕ_discrete t i) [
    | yes e ↦ rw e (update_self l.cache (start + i + 1) (cache0 (bs i)))
    | no ne ↦
        update_ne l.cache (start + t + 1) (start + i + 1) (cache0 (bs t)) (omega arith)
        ∙ v.copies i (omega arith)
  ])

  logged-copy_step :
      (t i : ℕ) (l : Log)
      → t < n
      → i < t + 1
      → t + 1 ≤ p
      → Copied start n bs cache0 disk0 p t l
      → (copy_step t l).disk (start + i + 1) ≡ cache0 (bs i)
  logged-copy_step t i l h k lasts v =
      let left : l.power ≡ p - t = v.left in
      let off : (l.power == 0) ≡ false = ground arith in
      rw (disk-copy_step t l h v, off)
        (elim (ℕ_discrete t i) [
          | yes e ↦ rw e (update_self l.disk (start + i + 1) (cache0 (bs i)))
          | no ne ↦
              update_ne l.disk (start + t + 1) (start + i + 1) (cache0 (bs t)) (omega arith)
              ∙ v.logged i (omega arith) (omega arith)
        ])

  copy_step-Copied :
      (t : ℕ) (l : Log)
      → t < n
      → Copied start n bs cache0 disk0 p t l
      → Copied start n bs cache0 disk0 p (t + 1) (copy_step t l)
  unfolding copy_step bwrite
  copy_step-Copied t l h v = record {
    at = v.at;
    rounds = v.rounds;
    homes = v.homes;
    cached = λ b kept.
        let at = v.at in
        update_ne l.cache (l.start + t + 1) b (l.cache (home l t)) (omega arith) ∙ v.cached b kept;
    copies = λ i hi. copies-copy_step t i l h hi v;
    disked = λ b kept. disked-copy_step t b l h v kept;
    logged = λ i hi lasts. logged-copy_step t i l h hi lasts v;
    left = omega (arith, v.left);
  }

  pub write_log_from-Copied :
      (r t : ℕ) (l : Log)
      → t + r ≤ n
      → Copied start n bs cache0 disk0 p t l
      → Copied start n bs cache0 disk0 p (t + r) (write_log_from r t l)
  unfolding write_log_from copy_step
  write_log_from-Copied zero t l h v =
      let e : t ≡ t + 0 = omega arith in subst (λ k. Copied start n bs cache0 disk0 p k l) e v
  write_log_from-Copied (suc r) t l h v =
      let e : t + 1 + r ≡ t + suc r = omega arith in
      subst (λ k. Copied start n bs cache0 disk0 p k (write_log_from r (t + 1) (copy_step t l))) e
        (write_log_from-Copied r (t + 1) (copy_step t l) (omega arith)
          (copy_step-Copied t l (omega arith) v))
