-- ===== src/Fs/Bitmap/Scan.antt =====
-- The scan of `balloc` of kernel/fs.c, word by word, against a scan of single bits.
use northos.Prelude.{
  ℕ, zero, suc, ◌+◌, ◌*◌, ◌<◌, ◌≤◌, ◌≡◌, refl, sym, ap, subst, ℕ_discrete, ◌∙◌, Bool-cases, inl,
  inr, true, false, arith, leb,
}
use northos.Fs.Bitmap.{
  Disk, Search, found, panics, nothing, or_else, scan_bits, all_used, scan_words, scan_blocks, bpb,
}

scan_bits-eq : (r r' b b' : ℕ) (d : Disk) → r ≡ r' → b ≡ b' → scan_bits r b d ≡ scan_bits r' b' d
scan_bits-eq r r' b b' d e f = rw (e, f)

-- A scan of r + s bits is one of r bits and then one of s bits.
pub scan_bits-add :
    (r s b : ℕ) (d : Disk)
    → scan_bits (r + s) b d ≡ or_else (scan_bits r b d) (scan_bits s (b + r) d)
unfolding scan_bits
scan_bits-add zero s b d = scan_bits-eq (0 + s) s b (b + 0) d (omega arith) (omega arith)
scan_bits-add (suc r) s b d =
    let later : scan_bits (r + s) (b + 1) d
        ≡ or_else (scan_bits r (b + 1) d) (scan_bits s (b + suc r) d) =
      scan_bits-add r s (b + 1) d
      ∙ ap (or_else (scan_bits r (b + 1) d))
          (scan_bits-eq s s (b + 1 + r) (b + suc r) d refl (omega arith)) in
    let step : scan_bits (suc (r + s)) b d
        ≡ or_else (scan_bits (suc r) b d) (scan_bits s (b + suc r) d) =
      elim (Bool-cases (d.used b)) [
        | inl taken ↦ rw taken later
        | inr free ↦ elim (Bool-cases (leb d.nblocks b)) [
          | inl past ↦ rw (free, past) refl
          | inr within ↦ rw (free, within) refl
        ]
      ] in
    scan_bits-eq (suc r + s) (suc (r + s)) b b d (omega arith) refl ∙ step

scan_bits-all_used : (r b : ℕ) (d : Disk) → all_used r b d ≡ true → scan_bits r b d ≡ nothing
unfolding scan_bits all_used
scan_bits-all_used zero b d h = refl
scan_bits-all_used (suc r) b d h =
    let first : d.used b ≡ true = ground arith in
    let others : all_used r (b + 1) d ≡ true = ground arith in
    rw first (scan_bits-all_used r (b + 1) d others)

scan_words-bits : (r b : ℕ) (d : Disk) → scan_words r b d ≡ scan_bits (r * 32) b d
unfolding scan_words scan_bits
scan_words-bits zero b d = scan_bits-eq 0 (0 * 32) b b d (omega arith) refl
scan_words-bits (suc r) b d =
    let step : scan_words (suc r) b d ≡ or_else (scan_bits 32 b d) (scan_bits (r * 32) (b + 32) d) =
      elim (Bool-cases (all_used 32 b d)) [
        | inl full ↦ rw (full, scan_bits-all_used 32 b d full) (scan_words-bits r (b + 32) d)
        | inr room ↦ rw (room, scan_words-bits r (b + 32) d) refl
      ] in
    step
    ∙ sym (scan_bits-add 32 (r * 32) b d)
    ∙ scan_bits-eq (32 + r * 32) (suc r * 32) b b d (omega arith) refl

-- The scan by words of r bitmap blocks from block j on finds what the scan by bits finds.
pub scan_blocks-bits : (r j : ℕ) (d : Disk) → scan_blocks r j d ≡ scan_bits (r * bpb) (j * bpb) d
unfolding scan_blocks scan_bits
scan_blocks-bits zero j d = refl
scan_blocks-bits (suc r) j d =
    rw (scan_words-bits 512 (j * bpb) d, scan_blocks-bits r (j + 1) d)
      (sym (
        scan_bits-eq (suc r * bpb) (bpb + r * bpb) (j * bpb) (j * bpb) d (omega arith) refl
        ∙ scan_bits-add bpb (r * bpb) (j * bpb) d
        ∙ ap (or_else (scan_bits bpb (j * bpb) d)) (
            scan_bits-eq (r * bpb) (r * bpb) (j * bpb + bpb) ((j + 1) * bpb) d refl (omega arith))))

-- What the result of a scan of r bits from b on says.
abbrev pub Scanned : ℕ → ℕ → Disk → Search → Type 0
Scanned r b d (found k) =
    (b ≤ k)
    × (k < b + r)
    × (k < d.nblocks)
    × (d.used k ≡ false)
    × ((i : ℕ) → b ≤ i → i < k → d.used i ≡ true)
Scanned r b d panics =
    (k : ℕ) × (b ≤ k) × (d.nblocks ≤ k) × (k < b + r) × ((i : ℕ) → b ≤ i → i < k → d.used i ≡ true)
Scanned r b d nothing = (i : ℕ) → b ≤ i → i < b + r → d.used i ≡ true

pub scan_bits-Scanned : (r b : ℕ) (d : Disk) → Scanned r b d (scan_bits r b d)
unfolding scan_bits
scan_bits-Scanned zero b d = λ i h k. absurd (omega arith)
scan_bits-Scanned (suc r) b d = elim (Bool-cases (d.used b)) [
  | inl taken ↦ rw taken (past taken (scan_bits r (b + 1) d) (scan_bits-Scanned r (b + 1) d))
  | inr free ↦ elim (Bool-cases (leb d.nblocks b)) [
    | inl above ↦
        rw (free, above) (b, omega arith, ground arith, omega arith, λ i h k. absurd (omega arith))
    | inr within ↦
        rw (free, within)
          (omega arith, omega arith, ground arith, free, λ i h k. absurd (omega arith))
  ]
]
  where
    also :
        {e : ℕ}
        → d.used b ≡ true
        → ((i : ℕ) → b + 1 ≤ i → i < e → d.used i ≡ true)
        → (i : ℕ) → b ≤ i
        → i < e
        → d.used i ≡ true
    also taken f i h k = elim (ℕ_discrete b i) [
      | yes e ↦ subst (λ j. d.used j ≡ true) e taken
      | no ne ↦ f i (omega arith) k
    ]

    past : d.used b ≡ true → (s : Search) → Scanned r (b + 1) d s → Scanned (suc r) b d s
    past taken (found k) (x, y, z, w, f) = (omega arith, omega arith, z, w, also taken f)
    past taken panics (k, x, y, z, f) = (k, omega arith, y, omega arith, also taken f)
    past taken nothing f = λ i h k. also {e = b + 1 + r} taken f i h (omega arith)
