-- ===== src/Gui/Pointer.antt =====
-- `drawMouse` and `clearMouse`: the pixels under the pointer.
use northos.Prelude.{
  subst, ◌==◌, ℕ, ◌+◌, ◌-◌, ◌*◌, ◌<◌, ◌≤◌, ◌≡◌, ◌≢◌, refl, sym, ap, ◌∙◌, ◌⊎◌, inl, inr, true, false,
  not, Bool-cases, zero, suc, update_ne, arith,
}
use northos.Prelude.Int.{ℤ, pos, pos_part, ◌+ℤ◌}
use northos.Gui.{
  Pixels, cell, past, before, shape, draw_point, mouse_pixel, mouse_row, draw_mouse, clear_mouse,
}
use northos.Gui.Loops.{for_until-kept, if-kept}
use northos.Gui.Grid.{row_le, cell_row}
use northos.Gui.Rect.{Spans, Covers}
use northos.Gui.Clear.{Apart, clear_rect_lem}

-- A coordinate that neither test of a loop rejects is spanned.
pub Spans-tests :
    (x end : ℤ) (n i : ℕ)
    → i < n
    → past end x i ≡ false
    → before x i ≡ false
    → Spans x (pos n) end (pos_part (x +ℤ pos i))
unfolding Spans ◌+ℤ◌
Spans-tests x end n i lt in_bound in_screen = ground arith

-- The rows and columns below `h` and `w` are searched for an address.
locate :
    (w h buf a : ℕ)
    → ((r : ℕ) × (c : ℕ) × (r < h) × (c < w) × (a ≡ cell w buf r c))
      ⊎ ((r c : ℕ) → r < h → c < w → a ≢ cell w buf r c)
locate w zero buf a = inr (λ r c hr. absurd (omega arith))
locate w (suc h) buf a = elim here [
  | inl (lo, hi) ↦ inl (h, a - (buf + h * w), omega arith, omega arith, omega arith)
  | inr out ↦ elim (locate w h buf a) [
    | inl (r, c, hr, hc, e) ↦ inl (r, c, omega arith, hc, e)
    | inr none_here ↦ inr λ r c hr hc e. elim (last r hr) [
      | inl below ↦ none_here r c below hc e
      | inr top ↦ out c hc (subst (λ k. a ≡ cell w buf k c) top e)
    ]
  ]
]
  where
    here : (buf + h * w ≤ a × (a < buf + h * w + w)) ⊎ ((c : ℕ) → c < w → a ≢ cell w buf h c)
    here = ground arith

    last : (r : ℕ) → r < suc h → (r < h) ⊎ (r ≡ h)
    last r hr = omega arith

module _ (w h buf mode : ℕ) (x y : ℤ) (m : Pixels) (a : ℕ)
    (apart : (r c : ℕ)
      → Covers x y (pos 15) (pos 18) (pos w) (pos h) r c
      → a ≢ cell w buf r c) where
  mouse_pixel-kept :
      (i j : ℕ) (u : Pixels)
      → Spans y (pos 18) (pos h) (pos_part (y +ℤ pos i))
      → j < 15
      → past (pos w) x j ≡ false
      → u a ≡ m a
      → mouse_pixel w h buf mode x y i j u a ≡ m a
  unfolding mouse_pixel draw_point
  mouse_pixel-kept i j u down lt in_bound e = elim (Bool-cases (before x j)) [
    | inl off ↦ rw off e
    | inr on ↦
        let ne = apart _ _ (Spans-tests x (pos w) 15 j lt in_bound on, down) in
        rw on (
          if-kept {S = Pixels} (λ s. s a ≡ m a) (not (shape mode i j == 0))
            (update_ne u _ a _ (λ same. ne (sym same)) ∙ e) e)
  ]

  pub draw_mouse-kept : draw_mouse w h buf mode x y m a ≡ m a
  unfolding draw_mouse mouse_row
  draw_mouse-kept =
      for_until-kept (λ s. s a ≡ m a) (past (pos h) y) (mouse_row w h buf mode x y) 0 18 m
        (λ i u lo hi in_bound e. row i u hi in_bound e (Bool-cases (before y i))) refl
    where
      row :
          (i : ℕ) (u : Pixels)
          → i < 18
          → past (pos h) y i ≡ false
          → u a ≡ m a
          → (before y i ≡ true) ⊎ (before y i ≡ false)
          → mouse_row w h buf mode x y i u a ≡ m a
      row i u hi in_bound e (inl off) = rw off e
      row i u hi in_bound e (inr on) =
          let down = Spans-tests y (pos h) 18 i hi in_bound on in
          rw on (
            for_until-kept (λ s. s a ≡ m a) (past (pos w) x) (mouse_pixel w h buf mode x y i) 0 15 u
              (λ j s lo1 hi1 in_width e1. mouse_pixel-kept i j s down hi1 in_width e1) e)

Spans-dec : (x width end : ℤ) (j : ℕ) → Spans x width end j ⊎ ¬ Spans x width end j
unfolding Spans
Spans-dec x width end j = ground arith

pub Covers-lt :
    (x y width height : ℤ) (w h r c : ℕ)
    → Covers x y width height (pos w) (pos h) r c
    → (r < h) × (c < w)
unfolding Spans
Covers-lt x y width height w h r c cov = ground arith

Covers-dec :
    (x y width height : ℤ) (w h r c : ℕ)
    → Covers x y width height (pos w) (pos h) r c ⊎ ¬ Covers x y width height (pos w) (pos h) r c
Covers-dec x y width height w h r c =
    ground (arith, Spans-dec x width (pos w) c, Spans-dec y height (pos h) r)

-- A covered pixel, or an address that is none.
covered? :
    (x y width height : ℤ) (w h buf a : ℕ)
    → ((r : ℕ) × (c : ℕ) × Covers x y width height (pos w) (pos h) r c × (a ≡ cell w buf r c))
      ⊎ ((r c : ℕ) → Covers x y width height (pos w) (pos h) r c → a ≢ cell w buf r c)
covered? x y width height w h buf a = elim (locate w h buf a) [
  | inl (r, c, hr, hc, e) ↦ elim (Covers-dec x y width height w h r c) [
    | inl cov ↦ inl (r, c, cov, e)
    | inr ncov ↦ inr λ r1 c1 cov e1. ncov (
        let (hr1, hc1) = Covers-lt x y width height w h r1 c1 cov in
        let rows = cell_row w buf r c r1 c1 hc hc1 (sym e ∙ e1) in
        let columns : c ≡ c1 = omega (arith, ap (λ k. k * w) rows) in rw (rows, columns) cov)
  ]
  | inr none_here ↦
      inr λ r c cov. let (hr, hc) = Covers-lt x y width height w h r c cov in none_here r c hr hc
]

module _ (w h buf temp mode x : ℕ) (y : ℤ) (m : Pixels) where
  abbrev drawn : Pixels
  drawn = draw_mouse w h buf mode (pos x) y m

  -- Where the two buffers do not overlap and the second one holds the same picture, clearMouse after
  -- drawMouse at a column that is not negative gives every address back what it had.
  pub clear_mouse-draw_mouse :
      Apart w h buf temp
      → ((r c : ℕ) → r < h → c < w → m (cell w temp r c) ≡ m (cell w buf r c))
      → (a : ℕ) → clear_mouse w h buf temp (pos x) y drawn a ≡ m a
  unfolding clear_mouse
  clear_mouse-draw_mouse two same a =
      let (hit, kept) = clear_rect_lem w h buf temp x y (pos 15) (pos 18) two drawn in
      elim (covered? (pos x) y (pos 15) (pos 18) w h buf a) [
        | inl (r, c, cov, e) ↦
            let (hr, hc) = Covers-lt (pos x) y (pos 15) (pos 18) w h r c cov in
            rw e (
              hit r c cov
              ∙ draw_mouse-kept w h buf mode (pos x) y m (cell w temp r c) (λ r1 c1 cov1 e1.
                let (hr1, hc1) = Covers-lt (pos x) y (pos 15) (pos 18) w h r1 c1 cov1 in
                ground (arith, two, row_le w r h, row_le w r1 h))
              ∙ same r c hr hc)
        | inr apart ↦ kept a apart ∙ draw_mouse-kept w h buf mode (pos x) y m a apart
      ]
