-- ===== src/Memory/Copy.antt =====
-- `memmove` and `memcmp` of kernel/string.c.
use northos.Prelude.{
  ℕ, zero, suc, ◌<◌, ◌≤◌, ◌+◌, ◌-◌, ◌≡◌, refl, sym, ap, ◌∙◌, ◌⊎◌, ◌↔◌, false, Bool-cases, inl, inr,
  ltb, ◌&&◌, ◌==◌, update, update_ne, update_eq, arith, ℕ_discrete,
}
use northos.Prelude.Int.{pos, pos_part, neg_part, ◌-ℤ◌, -ℤ_parts}
use northos.Memory.{Bytes, copy_down, copy_up, memmove, memcmp, same_at}

-- The n bytes from d on are those that stood at s, and the others are as they were.
pub record Moved (d s n : ℕ) (mem mem' : Bytes) : Type 0 where
  pub inside : (k : ℕ) → k < n → mem' (d + k) ≡ mem (s + k)
  pub outside : (a : ℕ) → (a < d) ⊎ (d + n ≤ a) → mem' a ≡ mem a

copy_down-Moved : (n d s : ℕ) (mem : Bytes) → s < d → Moved d s n mem (copy_down n d s mem)
unfolding copy_down
copy_down-Moved zero d s mem h = record {
  inside = λ k b. absurd (omega arith);
  outside = λ a o. refl;
}
copy_down-Moved (suc n) d s mem h =
    let mem1 = update mem (d + n) (mem (s + n)) in
    let m = copy_down-Moved n d s mem1 h in
    record {
      inside = λ k b. elim (ℕ_discrete k n) [
        | yes e ↦
            m.outside (d + k) (inr (omega arith))
            ∙ update_eq mem (d + n) (d + k) (mem (s + n)) (omega arith)
            ∙ ap (λ j. mem (s + j)) (sym e)
        | no ne ↦
            m.inside k (omega arith) ∙ update_ne mem (d + n) (s + k) (mem (s + n)) (omega arith)
      ];
      outside =
          λ a o. m.outside a (ground arith) ∙ update_ne mem (d + n) a (mem (s + n)) (ground arith);
    }

copy_up-Moved :
    (n d s : ℕ) (mem : Bytes) → (d ≤ s) ⊎ (s + n ≤ d) → Moved d s n mem (copy_up n d s mem)
unfolding copy_up
copy_up-Moved zero d s mem h = record {
  inside = λ k b. absurd (omega arith);
  outside = λ a o. refl;
}
copy_up-Moved (suc n) d s mem h =
    let mem1 = update mem d (mem s) in
    let m = copy_up-Moved n (d + 1) (s + 1) mem1 (ground arith) in
    record {
      inside = λ k b. elim (ℕ_discrete k 0) [
        | yes e ↦
            m.outside (d + k) (inl (omega arith))
            ∙ update_eq mem d (d + k) (mem s) (omega arith)
            ∙ ap mem (omega arith)
        | no ne ↦
            ap (copy_up n (d + 1) (s + 1) mem1) (omega arith)
            ∙ m.inside (k - 1) (omega arith)
            ∙ update_ne mem d (s + 1 + (k - 1)) (mem s) (ground arith)
            ∙ ap mem (omega arith)
      ];
      outside = λ a o. m.outside a (ground arith) ∙ update_ne mem d a (mem s) (ground arith);
    }

-- Where the code copies upwards, the destination is below or past the source.
side_of : (a b c : ℕ) → ltb a b && ltb b c ≡ false → (b ≤ a) ⊎ (c ≤ b)
side_of a b c h = elim (Bool-cases (ltb a b)) [
  | inl below ↦ inr (ground arith)
  | inr above ↦ inl (ground arith)
]

-- `memmove` puts at the destination the bytes that stood at the source before the call, whether or
-- not the two overlap, and changes no other byte.
pub memmove-Moved : (dst src n : ℕ) (mem : Bytes) → Moved dst src n mem (memmove dst src n mem)
unfolding memmove
memmove-Moved dst src n mem = elim (Bool-cases (ltb src dst && ltb dst (src + n))) [
  | inl over ↦ rw over (copy_down-Moved n dst src mem (ground arith))
  | inr apart ↦ rw apart (copy_up-Moved n dst src mem (side_of src dst (src + n) apart))
]

-- `memcmp` returns 0 just where the two blocks of n bytes are equal.
pub memcmp-equal :
    (s1 s2 n : ℕ) (mem : Bytes)
    → (memcmp s1 s2 n mem ≡ pos 0) ↔ ((k : ℕ) → k < n → mem (s1 + k) ≡ mem (s2 + k))
unfolding memcmp
memcmp-equal s1 s2 zero mem = (λ e k h. absurd (omega arith), λ f. refl)
memcmp-equal s1 s2 (suc n) mem =
    let (to, from) = memcmp-equal (s1 + 1) (s2 + 1) n mem in
    elim (Bool-cases (mem s1 == mem s2)) [
      | inl same ↦
          let head : mem s1 ≡ mem s2 = ground arith in
          rw same (
            λ e k h. elim (ℕ_discrete k 0) [
              | yes z ↦
                  same_at mem (s1 + k) s1 (omega arith)
                  ∙ head
                  ∙ same_at mem s2 (s2 + k) (omega arith)
              | no ne ↦
                  same_at mem (s1 + k) (s1 + 1 + (k - 1)) (omega arith)
                  ∙ to e (k - 1) (omega arith)
                  ∙ same_at mem (s2 + 1 + (k - 1)) (s2 + k) (omega arith)
            ],
            λ f. from (λ k h.
                same_at mem (s1 + 1 + k) (s1 + (k + 1)) (omega arith)
                ∙ f (k + 1) (omega arith)
                ∙ same_at mem (s2 + (k + 1)) (s2 + 1 + k) (omega arith)),
          )
      | inr other ↦ rw other (
        λ e. absurd (differ (mem s1) (mem s2) other e),
        λ f. absurd (
            unequal (mem s1) (mem s2) other (
              same_at mem s1 (s1 + 0) (omega arith)
              ∙ f 0 (omega arith)
              ∙ same_at mem (s2 + 0) s2 (omega arith))),
      )
    ]
  where
    unequal : (a b : ℕ) → (a == b) ≡ false → a ≡ b → ⊥
    unequal a b ne e = ground arith

    differ : (a b : ℕ) → (a == b) ≡ false → pos a -ℤ pos b ≡ pos 0 → ⊥
    differ a b ne e =
        let parts = -ℤ_parts (pos a) (pos b) in
        let level : pos_part (pos a -ℤ pos b) ≡ neg_part (pos a -ℤ pos b) = rw e refl in
        ground arith
