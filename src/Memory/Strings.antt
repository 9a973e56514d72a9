-- ===== src/Memory/Strings.antt =====
-- `safestrcpy` of kernel/string.c.
use northos.Prelude.{
  ℕ, zero, suc, ◌<◌, ◌≤◌, ◌+◌, ◌-◌, ◌≡◌, sym, ap, subst, ◌≢◌, ◌∙◌, ◌⊎◌, false, Bool-cases, inl, inr,
  ◌==◌, update, update_ne, update_eq, arith, ℕ_discrete,
}
use northos.Memory.{Bytes, safe_copy, safestrcpy, same_at}

-- At s stands, ended by a 0, the string at t, or as much of it as fits in n bytes with the 0; and
-- no byte outside these n has changed.
pub record SafeCopy (s t n : ℕ) (mem mem' : Bytes) : Type 0 where
  pub len : ℕ
  pub fits : len < n
  pub same : (k : ℕ) → k < len → (mem' (s + k) ≡ mem (t + k)) × (mem (t + k) ≢ 0)
  pub ended : mem' (s + len) ≡ 0
  pub whole : (mem (t + len) ≡ 0) ⊎ (len + 1 ≡ n)
  pub outside : (a : ℕ) → (a < s) ⊎ (s + n ≤ a) → mem' a ≡ mem a

safe_copy-SafeCopy :
    (r s t : ℕ) (mem : Bytes)
    → (t + (r + 1) ≤ s) ⊎ (s + (r + 1) ≤ t)
    → SafeCopy s t (r + 1) mem (safe_copy r s t mem)
unfolding safe_copy
safe_copy-SafeCopy zero s t mem h = record {
  len = 0;
  fits = omega arith;
  same = λ k b. absurd (omega arith);
  ended = update_eq mem s (s + 0) 0 (omega arith);
  whole = inr (omega arith);
  outside = λ a o. update_ne mem s a 0 (ground arith);
}
safe_copy-SafeCopy (suc r) s t mem h =
    let mem1 = update mem s (mem t) in
    let c = safe_copy-SafeCopy r (s + 1) (t + 1) mem1 (ground arith) in
    elim (Bool-cases (mem t == 0)) [
      | inl stop ↦
          let nul : mem t ≡ 0 = ground arith in
          rw stop (record {
            len = 0;
            fits = omega arith;
            same = λ k b. absurd (omega arith);
            ended =
                update_ne mem1 (s + 1) (s + 0) 0 (omega arith)
                ∙ update_eq mem s (s + 0) (mem t) (omega arith)
                ∙ nul;
            whole = inl (ap mem (omega arith) ∙ nul);
            outside = λ a o.
                update_ne mem1 (s + 1) a 0 (ground arith)
                ∙ update_ne mem s a (mem t) (ground arith);
          })
      | inr more ↦
          let fits = c.fits in
          let char : mem t ≢ 0 = λ z. nonzero (mem t) more z in
          let next : (k : ℕ) → k ≤ c.len → mem1 (t + 1 + k) ≡ mem (t + (k + 1)) = λ k b.
            update_ne mem s (t + 1 + k) (mem t) (ground arith)
            ∙ same_at mem (t + 1 + k) (t + (k + 1)) (omega arith) in
          let to = safe_copy r (s + 1) (t + 1) mem1 in
          rw more (record {
            len = c.len + 1;
            fits = omega arith;
            same = λ k b. elim (ℕ_discrete k 0) [
              | yes e ↦ (
                c.outside (s + k) (inl (omega arith))
                    ∙ update_eq mem s (s + k) (mem t) (omega arith)
                    ∙ same_at mem t (t + k) (omega arith),
                λ z. char (same_at mem t (t + k) (omega arith) ∙ z),
              )
              | no ne ↦
                  let (p, q) = c.same (k - 1) (omega arith) in
                  let e =
                    next (k - 1) (omega arith)
                    ∙ same_at mem (t + (k - 1 + 1)) (t + k) (omega arith) in
                  (same_at to (s + k) (s + 1 + (k - 1)) (omega arith) ∙ p ∙ e, λ z. q (e ∙ z))
            ];
            ended = same_at to (s + (c.len + 1)) (s + 1 + c.len) (omega arith) ∙ c.ended;
            whole = elim c.whole [
              | inl z ↦ inl (sym (next c.len (omega arith)) ∙ z)
              | inr e ↦ inr (omega arith)
            ];
            outside = λ a o. c.outside a (ground arith) ∙ update_ne mem s a (mem t) (ground arith);
          })
    ]
  where
    nonzero : (a : ℕ) → (a == 0) ≡ false → a ≡ 0 → ⊥
    nonzero a ne e = ground arith

-- With room for at least one byte and with source and destination apart, `safestrcpy` leaves at the
-- destination the source's string ended by a 0, cut off where it does not fit, and changes no byte
-- outside the n bytes there.
pub safestrcpy-SafeCopy :
    (s t n : ℕ) (mem : Bytes)
    → 0 < n
    → (t + n ≤ s) ⊎ (s + n ≤ t)
    → SafeCopy s t n mem (safestrcpy s t n mem)
unfolding safestrcpy
safestrcpy-SafeCopy s t zero mem h apart = absurd (omega arith)
safestrcpy-SafeCopy s t (suc n) mem h apart =
    let one_more : n + 1 ≡ suc n = omega arith in
    subst (λ m. SafeCopy s t m mem (safe_copy n s t mem)) one_more
      (safe_copy-SafeCopy n s t mem (ground arith))
