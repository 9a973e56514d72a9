-- ===== src/Gui/Loops.antt =====
-- The counting loops of the drawing routines, and what a loop leaves in a state.
use northos.Prelude.{
  ℕ, zero, suc, ◌+◌, ◌<◌, ◌≤◌, ◌≡◌, ◌≢◌, ◌⊎◌, inl, inr, sym, subst, Bool, true, false, Bool-cases,
  if◌then◌else◌, arith,
}

module _ {ℓ} {S : Type ℓ} where
  -- for (i = start; i < start + n; i++) body
  unfoldable pub for : (ℕ → S → S) → ℕ → ℕ → S → S
  for body i zero s = s
  for body i (suc n) s = for body (i + 1) n (body i s)

  -- The same loop with `if (stop) break;` at the head of the body.
  unfoldable pub for_until : (ℕ → Bool) → (ℕ → S → S) → ℕ → ℕ → S → S
  for_until stop body i zero s = s
  for_until stop body i (suc n) s =
      let rest = for_until stop body (i + 1) n (body i s) in if stop i then s else rest

  pub for-kept {κ} :
      (P : S → Type κ) (body : ℕ → S → S) (i n : ℕ) (s : S)
      → ((j : ℕ) (u : S) → i ≤ j → j < i + n → P u → P (body j u))
      → P s
      → P (for body i n s)
  unfolding for
  for-kept P body i zero s keep p = p
  for-kept P body i (suc n) s keep p =
      for-kept P body (i + 1) n (body i s) (λ j u lo hi q. keep j u (omega arith) (omega arith) q)
        (keep i s (omega arith) (omega arith) p)

  -- Round `k` of the loop makes `Q` of `P`, the rounds before it keep `P` and those after it keep `Q`.
  pub for-hit {κ} :
      (P Q : S → Type κ) (body : ℕ → S → S) (i n k : ℕ) (s : S)
      → i ≤ k
      → k < i + n
      → ((j : ℕ) (u : S) → i ≤ j → j < k → P u → P (body j u))
      → ((u : S) → P u → Q (body k u))
      → ((j : ℕ) (u : S) → k < j → j < i + n → Q u → Q (body j u))
      → P s
      → Q (for body i n s)
  unfolding for
  for-hit P Q body i zero k s lo hi before now after p = absurd (omega arith)
  for-hit P Q body i (suc n) k s lo hi before now after p = elim first [
    | inl e ↦
        for-kept Q body (i + 1) n (body i s)
          (λ j u lo1 hi1 q. after j u (omega arith) (omega arith) q)
          (subst (λ j. Q (body j s)) (sym e) (now s p))
    | inr ne ↦
        for-hit P Q body (i + 1) n k (body i s) (omega arith) (omega arith)
          (λ j u lo1 hi1 q. before j u (omega arith) hi1 q) now
          (λ j u lo1 hi1 q. after j u lo1 (omega arith) q)
          (before i s (omega arith) (omega arith) p)
  ]
    where
      first : (i ≡ k) ⊎ (i ≢ k)
      first = omega arith

  pub if-kept {κ} : (P : S → Type κ) (b : Bool) {s u : S} → P s → P u → P (if b then s else u)
  if-kept P true p q = p
  if-kept P false p q = q

  pub for_until-kept {κ} :
      (P : S → Type κ) (stop : ℕ → Bool) (body : ℕ → S → S) (i n : ℕ) (s : S)
      → ((j : ℕ) (u : S) → i ≤ j → j < i + n → stop j ≡ false → P u → P (body j u))
      → P s
      → P (for_until stop body i n s)
  unfolding for_until
  for_until-kept P stop body i zero s keep p = p
  for_until-kept P stop body i (suc n) s keep p = elim (Bool-cases (stop i)) [
    | inl e ↦ rw e p
    | inr go ↦ rw go (
        for_until-kept P stop body (i + 1) n (body i s)
          (λ j u lo hi off q. keep j u (omega arith) (omega arith) off q)
          (keep i s (omega arith) (omega arith) go p))
  ]
