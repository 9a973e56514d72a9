-- ===== src/Fs/Bitmap/Alloc.antt =====
-- What `balloc` and `bfree` of kernel/fs.c return, and when `balloc` panics.
use northos.Prelude.{
  ℕ, ◌+◌, ◌-◌, ◌*◌, ◌/◌, ◌%◌, min, ◌<◌, ◌≤◌, ◌≡◌, refl, sym, ap, subst, ◌∙◌, Bool-cases,
  Option-cases, inl, inr, true, false, arith, leb, Option, none, some, update,
}
use northos.Fs.Bitmap.{
  Disk, Search, found, panics, nothing, or_else, scan_blocks, scan_map, bpb, bzero, take_block,
  balloc, OnSome,
}
use northos.Fs.Bitmap.Scan.{scan_blocks-bits, Scanned, scan_bits-Scanned}

-- The disk after block b has been taken, zeroed and made the hint.
abbrev pub allocated : Disk → ℕ → Disk
allocated d b = record d {
  used = update d.used b true;
  bytes = update d.bytes b (λ i. 0);
  words = update d.words b (λ i. 0);
  hint = b;
}

-- The blocks of the map that the first pass goes through.
abbrev pass_blocks : Disk → ℕ
pass_blocks d = min (d.nblocks / bpb + 1) (d.size / bpb + 1) - d.hint / bpb

abbrev hint_block : Disk → ℕ
hint_block d = d.hint / bpb * bpb

first_pass :
    (d : Disk)
    → Scanned (pass_blocks d * bpb) (hint_block d) d (scan_blocks (pass_blocks d) (d.hint / bpb) d)
first_pass d =
    subst (Scanned (pass_blocks d * bpb) (hint_block d) d)
      (sym (scan_blocks-bits (pass_blocks d) (d.hint / bpb) d))
      (scan_bits-Scanned (pass_blocks d * bpb) (hint_block d) d)

second_pass : (d : Disk) → Scanned (d.hint / bpb * bpb) (0 * bpb) d (scan_blocks (d.hint / bpb) 0 d)
second_pass d =
    subst (Scanned (d.hint / bpb * bpb) (0 * bpb) d) (sym (scan_blocks-bits (d.hint / bpb) 0 d))
      (scan_bits-Scanned (d.hint / bpb * bpb) (0 * bpb) d)

-- A block that a scan of the map finds is free and below `nblocks`.
abbrev Free : Disk → Search → Type 0
Free d (found b) = (d.used b ≡ false) × (b < d.nblocks)
Free d panics = Unit {0}
Free d nothing = Unit {0}

Scanned-Free : (r b : ℕ) (d : Disk) (s : Search) → Scanned r b d s → Free d s
Scanned-Free r b d (found k) (_, _, below, free, _) = (free, below)
Scanned-Free r b d panics h = tt
Scanned-Free r b d nothing h = tt

or_else-Free : (d : Disk) (a b : Search) → Free d a → Free d b → Free d (or_else a b)
or_else-Free d (found k) b h g = h
or_else-Free d panics b h g = h
or_else-Free d nothing b h g = g

scan_map-Free : (d : Disk) → Free d (scan_map d)
unfolding scan_map
scan_map-Free d =
    or_else-Free d (scan_blocks (pass_blocks d) (d.hint / bpb) d) (scan_blocks (d.hint / bpb) 0 d)
      (Scanned-Free (pass_blocks d * bpb) (hint_block d) d
        (scan_blocks (pass_blocks d) (d.hint / bpb) d) (first_pass d))
      (Scanned-Free (d.hint / bpb * bpb) (0 * bpb) d (scan_blocks (d.hint / bpb) 0 d)
        (second_pass d))

same_result :
    (x y : Disk) (k b : ℕ)
    → ◌≡◌ {A = Option (Disk × ℕ)} (some (x, k)) (some (y, b))
    → (x ≡ y) × (k ≡ b)
same_result x y k b e = (cc, cc)

never_some : (x : Disk) (k : ℕ) → ◌≡◌ {A = Option (Disk × ℕ)} none (some (x, k)) → ⊥
never_some x k e = ground arith

used_clash : (d : Disk) (i : ℕ) → d.used i ≡ false → d.used i ≡ true → ⊥
used_clash d i a b = ground arith

-- A block that `balloc` returns was free and is below `nblocks`; after the call it is taken and
-- zeroed, and nothing else has changed but the hint.
pub balloc-allocated :
    (d d' : Disk) (b : ℕ)
    → balloc d ≡ some (d', b)
    → (d.used b ≡ false) × (b < d.nblocks) × (d' ≡ allocated d b)
unfolding balloc bzero
balloc-allocated d d' b e = go (scan_map d) (scan_map-Free d) e
  where
    go :
        (s : Search)
        → Free d s
        → take_block d s ≡ some (d', b)
        → (d.used b ≡ false) × (b < d.nblocks) × (d' ≡ allocated d b)
    go (found k) f h = elim (Bool-cases (leb d.size k)) [
      | inl past ↦ absurd (never_some d' b (rw past at h))
      | inr within ↦
          let (same_disk, same_block) = same_result (allocated d k) d' k b (rw within at h) in
          (
            subst (λ j. d.used j ≡ false) same_block f.0,
            subst (λ j. j < d.nblocks) same_block f.1,
            sym same_disk ∙ ap (allocated d) same_block,
          )
    ]
    go panics f h = absurd (never_some d' b h)
    go nothing f h = absurd (never_some d' b h)

-- Where a block below `nblocks` is free, at or above the first block of the hint's part of the map,
-- and `nblocks` is at most the size of the disk, `balloc` returns a block below `nblocks` that was free,
-- takes and zeroes it and changes nothing else but the hint, and no free block lies between the first
-- one of that part and it.
pub balloc_succeeds :
    (d : Disk) (k : ℕ)
    → d.nblocks ≤ d.size
    → d.hint / bpb * bpb ≤ k
    → k < d.nblocks
    → d.used k ≡ false
    → (b : ℕ) × (balloc d ≡ some (allocated d b, b))
      × (d.used b ≡ false)
      × (b < d.nblocks)
      × ((i : ℕ) → d.hint / bpb * bpb ≤ i → i < b → d.used i ≡ true)
unfolding balloc bzero scan_map
balloc_succeeds d k sized low high free =
    go (scan_blocks (pass_blocks d) (d.hint / bpb) d) refl (first_pass d)
  where
    go :
        (s : Search)
        → scan_blocks (pass_blocks d) (d.hint / bpb) d ≡ s
        → Scanned (pass_blocks d * bpb) (hint_block d) d s
        → (b : ℕ) × (balloc d ≡ some (allocated d b, b))
          × (d.used b ≡ false)
          × (b < d.nblocks)
          × ((i : ℕ) → d.hint / bpb * bpb ≤ i → i < b → d.used i ≡ true)
    go (found b) e (lo, hi, below, free_b, before) =
        let within : leb d.size b ≡ false = ground arith in
        (b, rw (e, within) refl, free_b, below, before)
    go panics e (b, lo, above, hi, before) =
        absurd (used_clash d k free (before k low (omega arith)))
    go nothing e all = absurd (used_clash d k free (all k low (omega arith)))

-- Where no block from the hint's part of the map up to `nblocks` is free, but the bit at `nblocks`
-- is clear and in the same block of the map as the one before, `balloc` panics, whatever is free
-- below that part.
pub balloc_gives_up :
    (d : Disk)
    → d.nblocks ≤ d.size
    → d.hint < d.nblocks
    → 0 < d.nblocks % bpb
    → ((i : ℕ) → d.hint / bpb * bpb ≤ i → i < d.nblocks → d.used i ≡ true)
    → d.used d.nblocks ≡ false
    → balloc d ≡ none
unfolding balloc scan_map
balloc_gives_up d sized in_map partial full clear =
    go (scan_blocks (pass_blocks d) (d.hint / bpb) d) refl (first_pass d)
  where
    go :
        (s : Search)
        → scan_blocks (pass_blocks d) (d.hint / bpb) d ≡ s
        → Scanned (pass_blocks d * bpb) (hint_block d) d s
        → balloc d ≡ none
    go (found b) e (lo, hi, below, free_b, before) =
        absurd (used_clash d b free_b (full b lo below))
    go panics e h = rw e refl
    go nothing e all =
        absurd (used_clash d d.nblocks clear (all d.nblocks (omega arith) (omega arith)))

pub balloc-OnSome :
    (d : Disk)
    → OnSome (λ r. (d.used r.1 ≡ false) × (r.1 < d.nblocks) × (r.0 ≡ allocated d r.1)) (balloc d)
balloc-OnSome d = elim (Option-cases (balloc d)) [
  | inl e ↦ rw e tt
  | inr ((d', b), e) ↦ rw e (balloc-allocated d d' b e)
]
