-- ===== src/Gui/Grid.antt =====
-- Loops over the rows and the columns of a buffer: which pixels they change.
use northos.Prelude.{
  ℕ, ◌+◌, ◌-◌, ◌*◌, ◌<◌, ◌≤◌, ◌≡◌, ◌≢◌, refl, sym, ap, ◌∙◌, Bool, ◌&&◌, leb, ltb, arith,
}
use northos.Gui.{Pixels, Rgb, cell}
use northos.Gui.Loops.{for, for-kept, for-hit}

pub row_le : (w r r' : ℕ) → r < r' → r * w + w ≤ r' * w
row_le w r r' lt = grind arith

module _ (w buf : ℕ) where
  -- A pixel of the columns below `w` is at one row and one column.
  pub cell_row : (r c r' c' : ℕ) → c < w → c' < w → cell w buf r c ≡ cell w buf r' c' → r ≡ r'
  cell_row r c r' c' hc hc' e = ground (arith, row_le w r r', row_le w r' r)

  -- The part of a buffer from row `start_y` to `end_y` and from column `start_x` to `end_x`.
  abbrev pub in_block : ℕ → ℕ → ℕ → ℕ → ℕ → ℕ → Bool
  in_block start_x start_y end_x end_y r c =
      leb start_x c && ltb c end_x && leb start_y r && ltb r end_y

  module _ (pt : ℕ → ℕ → Pixels → Pixels) (f : Rgb → Rgb) (sx : ℕ) where
    -- `pt i j` applies `f` to the pixel of row `i` and column `j`.
    pub record IsPoint : Type 0 where
      pub other : (i j a : ℕ) (u : Pixels) → sx ≤ j → a ≢ cell w buf i j → pt i j u a ≡ u a
      pub same :
          (i j : ℕ) (u : Pixels) → sx ≤ j → pt i j u (cell w buf i j) ≡ f (u (cell w buf i j))

    module _ (sy ex ey : ℕ) where
      unfoldable pub block : Pixels → Pixels
      block = for (λ i. for (pt i) sx (ex - sx)) sy (ey - sy)

      module _ (p : IsPoint) where
        row-kept :
            (i a : ℕ) (u : Pixels)
            → ((j : ℕ) → sx ≤ j → j < ex → a ≢ cell w buf i j)
            → for (pt i) sx (ex - sx) u a ≡ u a
        row-kept i a u apart =
            for-kept (λ s. s a ≡ u a) (pt i) sx (ex - sx) u
              (λ j s lo hi e. p.other i j a s lo (apart j lo (omega arith)) ∙ e) refl

        row-hit :
            (i c : ℕ) (u : Pixels)
            → sx ≤ c
            → c < ex
            → for (pt i) sx (ex - sx) u (cell w buf i c) ≡ f (u (cell w buf i c))
        row-hit i c u lo hi =
            let a = cell w buf i c in
            for-hit (λ s. s a ≡ u a) (λ s. s a ≡ f (u a)) (pt i) sx (ex - sx) c u lo (omega arith)
              (λ j s lo1 hi1 e. p.other i j a s lo1 (omega arith) ∙ e)
              (λ s e. p.same i c s lo ∙ ap f e)
              (λ j s lo1 hi1 e. p.other i j a s (omega arith) (omega arith) ∙ e) refl

        -- An address that is no pixel of the block is kept.
        pub block-kept :
            (a : ℕ) (m : Pixels)
            → ((i j : ℕ) → sy ≤ i → i < ey → sx ≤ j → j < ex → a ≢ cell w buf i j)
            → block m a ≡ m a
        unfolding block
        block-kept a m apart =
            for-kept (λ s. s a ≡ m a) (λ i. for (pt i) sx (ex - sx)) sy (ey - sy) m
              (λ i s lo hi e. row-kept i a s (λ j. apart i j lo (omega arith)) ∙ e) refl

        -- Where the block is within the width, `f` is applied to each of its pixels.
        pub block-hit :
            ex ≤ w
            → (m : Pixels) (r c : ℕ) → sy ≤ r
            → r < ey
            → sx ≤ c
            → c < ex
            → block m (cell w buf r c) ≡ f (m (cell w buf r c))
        unfolding block
        block-hit fits m r c lo hi left right =
            let a = cell w buf r c in
            let away : (i : ℕ) → i ≢ r → (s : Pixels) → for (pt i) sx (ex - sx) s a ≡ s a =
              λ i ne s.
                row-kept i a s
                  λ j lo1 hi1 e. ne (sym (cell_row r c i j (omega arith) (omega arith) e)) in
            for-hit (λ s. s a ≡ m a) (λ s. s a ≡ f (m a)) (λ i. for (pt i) sx (ex - sx)) sy
              (ey - sy) r m lo (omega arith) (λ i s lo1 hi1 e. away i (omega arith) s ∙ e)
              (λ s e. row-hit r c s left right ∙ ap f e)
              (λ i s lo1 hi1 e. away i (omega arith) s ∙ e) refl
