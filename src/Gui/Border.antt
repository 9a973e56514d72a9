-- ===== src/Gui/Border.antt =====
-- `drawRectBorder` and the strings, and the buffer that they draw to.
use northos.Prelude.{ℕ, ◌<◌, ◌≡◌, Bool, true, ◌&&◌, List, [], ◌∷◌, arith, ◌∙◌, refl}
use northos.Prelude.Int.{ℤ, pos, pos_part, ◌+ℤ◌, ltb_ℤ, leb_ℤ}
use northos.Gui.{Pixels, Rgb, Rgba}
use northos.Gui.Loops.{for, if-kept}
use northos.Gui.Within.{Within, Within-unless, Within-when, Within-for, Within-update, Within-then}
use northos.Gui.Bounds.{draw_character-Within}
use northos.Gui.Pictures.{
  Font, is_inner, across, down, border_off, border_top, border_bottom, border_left, border_right,
  draw_rect_border, draw_character, draw_chars, draw_chars_max,
}

is_inner-lt : (size : ℕ) (x : ℤ) (i : ℕ) → is_inner size x i ≡ true → pos_part (x +ℤ pos i) < size
unfolding ◌+ℤ◌
is_inner-lt size x i p = ground arith

module _ (w h buf : ℕ) (color : Rgb) where
  across-Within :
      (shown : Bool) (x : ℤ) (row n : ℕ)
      → (shown ≡ true → row < h)
      → Within w h buf (for (across w h buf color shown x row) 0 n)
  across-Within shown x row n hr = Within-for w h buf _ n λ i hi.
      Within-when w h buf (shown && is_inner w x i) _ λ on.
        Within-update w h buf row _ color (hr (ground arith)) (is_inner-lt w x i (ground arith))

  down-Within :
      (y : ℤ) (column n : ℕ) → column < w → Within w h buf (for (down w h buf color y column) 0 n)
  down-Within y column n hc = Within-for w h buf _ n λ i hi.
      Within-when w h buf (is_inner h y i) _
        λ on. Within-update w h buf _ column color (is_inner-lt h y i on) hc

  pub draw_rect_border-Within :
      (x y width height : ℤ) → Within w h buf (draw_rect_border w h buf color x y width height)
  unfolding draw_rect_border border_top border_bottom border_left border_right
  draw_rect_border-Within x y width height =
      Within-unless w h buf (border_off w h buf color x y width height) _ λ on.
        Within-then w h buf _ _
          (Within-then w h buf _ _
            (Within-then w h buf _ _
              (Within-when w h buf (ltb_ℤ (pos 0) y) _
                λ t. across-Within true x (pos_part y) (pos_part width) λ _. ground arith)
              (Within-when w h buf (ltb_ℤ (y +ℤ height) (pos h)) _ λ b.
                across-Within (ltb_ℤ (pos 0) y) x (pos_part (y +ℤ height)) (pos_part width)
                  λ _. ground arith))
            (Within-when w h buf (ltb_ℤ (pos 0) x) _
              λ l. down-Within y (pos_part x) (pos_part height) (ground arith)))
          (Within-when w h buf (ltb_ℤ (x +ℤ width) (pos w)) _
            λ r. down-Within y (pos_part (x +ℤ width)) (pos_part height) (ground arith))

module _ (w h buf : ℕ) (font : Font) (x y : ℤ) (color : Rgba) where
  pub draw_chars-Within :
      (offset_x : ℤ) (str : List ℕ)
      → Within w h buf (draw_chars w h font buf x y offset_x str color)
  unfolding draw_chars Within
  draw_chars-Within offset_x [] m a out = refl
  draw_chars-Within offset_x (ch ∷ str) m a out =
      let (drawn, n) = draw_character w h font buf (x +ℤ offset_x) y ch color m in
      draw_chars-Within (offset_x +ℤ n) str drawn a out
      ∙ draw_character-Within w h buf (x +ℤ offset_x) y font ch color m a out

  pub draw_chars_max-Within :
      (width offset_x : ℤ) (str : List ℕ)
      → Within w h buf (draw_chars_max w h font buf x y width offset_x str color)
  unfolding draw_chars_max Within
  draw_chars_max-Within width offset_x [] m a out = refl
  draw_chars_max-Within width offset_x (ch ∷ str) m a out =
      let (drawn, n) = draw_character w h font buf (x +ℤ offset_x) y ch color m in
      let rest =
        draw_chars_max-Within width (offset_x +ℤ n) str drawn a out
        ∙ draw_character-Within w h buf (x +ℤ offset_x) y font ch color m a out in
      if-kept {S = Pixels} (λ s. s a ≡ m a) (leb_ℤ (offset_x +ℤ pos font.columns) width) rest refl
