-- ===== src/Gui/Within.antt =====
-- Changes to a memory of pixels that stay within one buffer.
use northos.Prelude.{
  ℕ, ◌+◌, ◌*◌, ◌<◌, ◌≤◌, ◌≡◌, ◌≢◌, refl, sym, ◌∙◌, ◌⊎◌, Bool, true, false, if◌then◌else◌, arith,
  update, update_ne,
}
use northos.Prelude.Int.{ℤ, pos, ◌-ℤ◌, ◌≤ℤ◌}
use northos.Gui.{
  Pixels, Rgb, Rgba, cell, draw_point_alpha, move_pixels, draw_rect, draw_rect_by_coord,
  draw_rect_bound,
}
use northos.Gui.Loops.{for, for_until, for-kept, for_until-kept}
use northos.Gui.Grid.{row_le}
use northos.Gui.Rect.{Spans, draw_rect_bound-kept}
use northos.Gui.Clear.{move_pixels-kept}

module _ (w h buf : ℕ) where
  -- The address is of no pixel of the buffer at `buf`.
  abbrev pub Outside : ℕ → Type 0
  Outside a = (a < buf) ⊎ (buf + h * w ≤ a)

  -- `op` changes the pixels of the buffer alone.
  unfoldable pub Within : (Pixels → Pixels) → Type 0
  Within op = (m : Pixels) (a : ℕ) → Outside a → op m a ≡ m a

  pub Outside-cell : (r c a : ℕ) → r < h → c < w → Outside a → a ≢ cell w buf r c
  Outside-cell r c a hr hc out e = ground (arith, row_le w r h)

  pub Within-then : (f g : Pixels → Pixels) → Within f → Within g → Within (λ m. g (f m))
  unfolding Within
  Within-then f g hf hg m a out = hg (f m) a out ∙ hf m a out

  pub Within-id : Within (λ m. m)
  unfolding Within
  Within-id m a out = refl

  pub Within-if :
      (b : Bool) (f g : Pixels → Pixels)
      → (b ≡ true → Within f)
      → (b ≡ false → Within g)
      → Within (λ m. if b then f m else g m)
  Within-if true f g hf hg = hf refl
  Within-if false f g hf hg = hg refl

  -- A guard for which nothing is drawn.
  pub Within-unless :
      (b : Bool) (g : Pixels → Pixels) → (b ≡ false → Within g) → Within (λ m. if b then m else g m)
  Within-unless b g = Within-if b (λ m. m) g (λ _. Within-id)

  pub Within-when :
      (b : Bool) (f : Pixels → Pixels) → (b ≡ true → Within f) → Within (λ m. if b then f m else m)
  Within-when b f hf = Within-if b f (λ m. m) hf (λ _. Within-id)

  -- The same where a value is returned beside the memory.
  pub Within-result :
      (b : Bool) (f : Pixels → Pixels) (p q : ℤ)
      → Within f
      → Within (λ m. (if◌then◌else◌ {A = Pixels × ℤ} b (m, p) (f m, q)).0)
  Within-result true f p q hf = Within-id
  Within-result false f p q hf = hf

  pub Within-for :
      (body : ℕ → Pixels → Pixels) (n : ℕ)
      → ((i : ℕ) → i < n → Within (body i))
      → Within (for body 0 n)
  unfolding Within
  Within-for body n each m a out =
      for-kept (λ s. s a ≡ m a) body 0 n m (λ i u lo hi e. each i (omega arith) u a out ∙ e) refl

  pub Within-until :
      (stop : ℕ → Bool) (body : ℕ → Pixels → Pixels) (n : ℕ)
      → ((i : ℕ) → i < n → stop i ≡ false → Within (body i))
      → Within (for_until stop body 0 n)
  unfolding Within
  Within-until stop body n each m a out =
      for_until-kept (λ s. s a ≡ m a) stop body 0 n m
        (λ i u lo hi go e. each i (omega arith) go u a out ∙ e) refl

  pub Within-point :
      (r c : ℕ) (color : Rgba) → r < h → c < w → Within (draw_point_alpha (cell w buf r c) color)
  unfolding Within draw_point_alpha
  Within-point r c color hr hc m a out =
      update_ne m _ a _ (λ e. Outside-cell r c a hr hc out (sym e))

  pub Within-update :
      (r c : ℕ) (color : Rgb) → r < h → c < w → Within (λ m. update m (cell w buf r c) color)
  unfolding Within
  Within-update r c color hr hc m a out =
      update_ne m _ a _ (λ e. Outside-cell r c a hr hc out (sym e))

  pub Within-move : (r c o n : ℕ) → r < h → c + n ≤ w → Within (move_pixels (cell w buf r c) o n)
  unfolding Within
  Within-move r c o n hr hc m a out =
      move_pixels-kept (cell w buf r c) o n a m
        λ j hj e. Outside-cell r (c + j) a hr (omega arith) out (omega (arith, e))

  pub draw_rect_bound-Within :
      (x y width height : ℤ) (fill : Rgba) (max_x max_y : ℤ)
      → max_x ≤ℤ pos w
      → max_y ≤ℤ pos h
      → Within (draw_rect_bound w h buf x y width height fill max_x max_y)
  unfolding Within Spans
  draw_rect_bound-Within x y width height fill max_x max_y hx hy m a out =
      draw_rect_bound-kept w h buf x y width height fill max_x max_y m a
        λ r c cov. Outside-cell r c a (ground arith) (ground arith) out

  pub draw_rect_by_coord-Within :
      (xmin ymin xmax ymax : ℤ) (fill : Rgba)
      → Within (draw_rect_by_coord w h buf xmin ymin xmax ymax fill)
  unfolding draw_rect_by_coord draw_rect
  draw_rect_by_coord-Within xmin ymin xmax ymax fill =
      draw_rect_bound-Within xmin ymin (xmax -ℤ xmin) (ymax -ℤ ymin) fill (pos w) (pos h)
        (omega arith) (omega arith)
