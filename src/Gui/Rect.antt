-- ===== src/Gui/Rect.antt =====
-- `drawRectBound`: the pixels that a rectangle covers.
use northos.Prelude.{
  ℕ, ◌+◌, ◌-◌, ◌<◌, ◌≤◌, ◌≡◌, ◌≢◌, refl, ap, ◌∙◌, ◌↔◌, inl, inr, Bool, true, false, ◌||◌, ◌==◌,
  Bool-cases, if◌then◌else◌, arith,
}
use northos.Prelude.Int.{ℤ, pos, pos_part, ◌+ℤ◌, ◌≤ℤ◌, leb_ℤ}
use northos.Gui.{
  Pixels, Rgb, Rgba, cell, min_ℤ, solid, blend, draw_point, draw_point_alpha, draw_rect_bound,
}
use northos.Gui.Grid.{IsPoint, block, block-kept, block-hit}

-- `j` is a coordinate of the `width` from `x` on, below `end` and not negative.
unfoldable pub Spans : ℤ → ℤ → ℤ → ℕ → Type 0
Spans x width end j = x ≤ℤ pos j × (pos (j + 1) ≤ℤ (x +ℤ width)) × (pos (j + 1) ≤ℤ end)

-- The pixel of row `r` and column `c` is in the rectangle and above and left of the bound.
abbrev pub Covers : ℤ → ℤ → ℤ → ℤ → ℤ → ℤ → ℕ → ℕ → Type 0
Covers x y width height max_x max_y r c = Spans x width max_x c × Spans y height max_y r

-- The loops run over the coordinates that are spanned.
pub Spans-loop :
    (x width end : ℤ) (j : ℕ)
    → Spans x width end j ↔ (pos_part x ≤ j × (j < pos_part (min_ℤ (x +ℤ width) end)))
unfolding Spans ◌+ℤ◌
Spans-loop x width end j = (ground arith, ground arith)

-- A spanned coordinate rules the early return out.
pub Spans-on :
    (x width end : ℤ) (j : ℕ)
    → Spans x width end j
    → (leb_ℤ end x ≡ false) × (leb_ℤ (x +ℤ width) (pos 0) ≡ false)
unfolding Spans ◌+ℤ◌
Spans-on x width end j s = ground arith

opaque-blend : (old : Rgb) (fill : Rgba) → (fill.alpha == 255) ≡ true → solid fill ≡ blend old fill
unfolding blend
opaque-blend old fill e = ground arith

module _ (w buf : ℕ) (fill : Rgba) (sx : ℕ) where
  fill-IsPoint :
      IsPoint w buf
        (λ i j. draw_point (cell w buf i sx + (j - sx)) (solid fill))
        (λ _. solid fill)
        sx
  unfolding draw_point
  fill-IsPoint = record { other = λ i j a u lo ne. ground arith; same = λ i j u lo. ground arith }

  blend-IsPoint :
      IsPoint w buf (λ i j. draw_point_alpha (cell w buf i j) fill) (λ old. blend old fill) sx
  unfolding draw_point_alpha
  blend-IsPoint = record { other = λ i j a u lo ne. ground arith; same = λ i j u lo. ground arith }

module _ (w h buf : ℕ) (x y width height : ℤ) (fill : Rgba) (max_x max_y : ℤ) where
  abbrev is_off : Bool
  is_off =
      leb_ℤ max_x x
      || (leb_ℤ max_y y || (leb_ℤ (x +ℤ width) (pos 0) || leb_ℤ (y +ℤ height) (pos 0)))

  abbrev end_x : ℕ
  end_x = pos_part (min_ℤ (x +ℤ width) max_x)

  abbrev end_y : ℕ
  end_y = pos_part (min_ℤ (y +ℤ height) max_y)

  opaque_block : Pixels → Pixels
  opaque_block =
      block w buf (λ i j. draw_point (cell w buf i (pos_part x) + (j - pos_part x)) (solid fill))
        (λ _. solid fill) (pos_part x) (pos_part y) end_x end_y

  blend_block : Pixels → Pixels
  blend_block =
      block w buf (λ i j. draw_point_alpha (cell w buf i j) fill) (λ old. blend old fill)
        (pos_part x) (pos_part y) end_x end_y

  draw_rect_bound-blocks :
      (m : Pixels)
      → draw_rect_bound w h buf x y width height fill max_x max_y m
        ≡ (if is_off then m else if fill.alpha == 255 then opaque_block m else blend_block m)
  unfolding draw_rect_bound block opaque_block blend_block
  draw_rect_bound-blocks m = refl

  -- Where the bound is within the width of the screen, a covered pixel is blended with the colour.
  pub draw_rect_bound-hit :
      max_x ≤ℤ pos w
      → (m : Pixels) (r c : ℕ) → Covers x y width height max_x max_y r c
      → draw_rect_bound w h buf x y width height fill max_x max_y m (cell w buf r c)
        ≡ blend (m (cell w buf r c)) fill
  unfolding opaque_block blend_block
  draw_rect_bound-hit fits m r c (across, down) =
      let (left, right) = (Spans-loop x width max_x c).0 across in
      let (top, bottom) = (Spans-loop y height max_y r).0 down in
      let sx = pos_part x in
      let sy = pos_part y in
      let on : is_off ≡ false =
        ground (arith, Spans-on x width max_x c across, Spans-on y height max_y r down) in
      let fits_x : end_x ≤ w = ground arith in
      let opaque_hit =
        block-hit w buf _ _ sx sy end_x end_y (fill-IsPoint w buf fill sx) fits_x m r c top bottom
          left right in
      let blend_hit =
        block-hit w buf _ _ sx sy end_x end_y (blend-IsPoint w buf fill sx) fits_x m r c top bottom
          left right in
      ap (λ s. s (cell w buf r c)) (draw_rect_bound-blocks m)
      ∙ elim (Bool-cases (fill.alpha == 255)) [
        | inl e ↦ rw (on, e) (opaque_hit ∙ opaque-blend _ fill e)
        | inr e ↦ rw (on, e) blend_hit
      ]

  -- An address that is no covered pixel keeps what it has.
  pub draw_rect_bound-kept :
      (m : Pixels) (a : ℕ)
      → ((r c : ℕ) → Covers x y width height max_x max_y r c → a ≢ cell w buf r c)
      → draw_rect_bound w h buf x y width height fill max_x max_y m a ≡ m a
  unfolding opaque_block blend_block
  draw_rect_bound-kept m a apart = ap (λ s. s a) (draw_rect_bound-blocks m) ∙ cases
    where
      far : (i j : ℕ) → pos_part y ≤ i → i < end_y → pos_part x ≤ j → j < end_x → a ≢ cell w buf i j
      far i j top bottom left right = apart i j (
        (Spans-loop x width max_x j).1 (left, right),
        (Spans-loop y height max_y i).1 (top, bottom),
      )

      cases :
          (if is_off then m else if fill.alpha == 255 then opaque_block m else blend_block m) a
          ≡ m a
      cases = elim (Bool-cases is_off) [
        | inl e ↦ rw e
        | inr on ↦ elim (Bool-cases (fill.alpha == 255)) [
          | inl e ↦
              rw (on, e)
                (block-kept w buf _ _ (pos_part x) (pos_part y) end_x end_y
                  (fill-IsPoint w buf fill (pos_part x)) a m far)
          | inr e ↦
              rw (on, e)
                (block-kept w buf _ _ (pos_part x) (pos_part y) end_x end_y
                  (blend-IsPoint w buf fill (pos_part x)) a m far)
        ]
      ]

  -- Where the bound is within the width of the screen, drawRectBound blends every pixel that the rectangle
  -- covers with the colour, and every other address keeps what it has.
  pub draw_rect_bound_lem :
      max_x ≤ℤ pos w
      → (m : Pixels)
      → ((r c : ℕ)
          → Covers x y width height max_x max_y r c
          → draw_rect_bound w h buf x y width height fill max_x max_y m (cell w buf r c)
            ≡ blend (m (cell w buf r c)) fill)
        × ((a : ℕ)
            → ((r c : ℕ) → Covers x y width height max_x max_y r c → a ≢ cell w buf r c)
            → draw_rect_bound w h buf x y width height fill max_x max_y m a ≡ m a)
  draw_rect_bound_lem fits m = (draw_rect_bound-hit fits m, draw_rect_bound-kept m)
