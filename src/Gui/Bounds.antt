-- ===== src/Gui/Bounds.antt =====
-- The drawing routines, and the buffer that they draw to.
use northos.Prelude.{ℕ, ◌+◌, ◌-◌, ◌*◌, ◌<◌, ◌≤◌, ◌≡◌, false, ◌||◌, if◌then◌else◌, ◌==◌, arith}
use northos.Prelude.Int.{ℤ, pos, pos_part, neg_part, ◌+ℤ◌, ◌-ℤ◌, ◌≤ℤ◌, ltb_ℤ, leb_ℤ}
use northos.Gui.{Rgba, past, before}
use northos.Gui.Pictures.{
  Font, icon_number, icon_size, no_glyph, off_screen, is_hidden, glyph_pixel, glyph_row,
  draw_character, icon_pixel, icon_row, draw_icon, image_pixel, image_row, draw_image, part_row,
  draw24_image_part,
}
use northos.Gui.Within.{
  Within, Within-unless, Within-result, Within-for, Within-until, Within-point, Within-move,
}

-- A coordinate that the tests find on the screen.
on_screen :
    (size : ℕ) (end x : ℤ) (i : ℕ)
    → end ≤ℤ pos size
    → past end x i ≡ false
    → before x i ≡ false
    → pos_part (x +ℤ pos i) < size
unfolding ◌+ℤ◌
on_screen size end x i fits p b = ground arith

off_screen-lt :
    (size : ℕ) (x : ℤ) (i : ℕ) → off_screen size x i ≡ false → pos_part (x +ℤ pos i) < size
unfolding ◌+ℤ◌
off_screen-lt size x i p = ground arith

part_columns :
    (w h : ℕ) (x y : ℤ) (subw : ℕ)
    → (leb_ℤ (pos w) x || leb_ℤ (pos h) y) ≡ false
    → pos_part (pos (neg_part x) +ℤ x)
        + (pos_part (if ltb_ℤ (pos w) (x +ℤ pos subw) then pos w -ℤ x else pos subw) - neg_part x)
      ≤ w
unfolding ◌+ℤ◌ ◌-ℤ◌
part_columns w h x y subw on = ground arith

module _ (w h buf : ℕ) (x y : ℤ) where
  module _ (font : Font) (ch : ℕ) (color : Rgba) where
    glyph_pixel-Within :
        (i j : ℕ)
        → off_screen h y i ≡ false
        → Within w h buf (glyph_pixel w h font buf x y ch color i j)
    unfolding glyph_pixel
    glyph_pixel-Within i j row = Within-unless w h buf (font.glyph (ch - 32) i j == 0) _ λ shown.
        Within-unless w h buf (off_screen w x j) _
          λ col. Within-point w h buf _ _ _ (off_screen-lt h y i row) (off_screen-lt w x j col)

    glyph_row-Within : (i : ℕ) → Within w h buf (glyph_row w h font buf x y ch color i)
    unfolding glyph_row
    glyph_row-Within i =
        Within-unless w h buf (off_screen h y i) _
          λ row. Within-for w h buf _ font.columns λ j hj. glyph_pixel-Within i j row

    pub draw_character-Within : Within w h buf (λ m. (draw_character w h font buf x y ch color m).0)
    unfolding draw_character
    draw_character-Within =
        Within-result w h buf (no_glyph font ch) _ _ _
          (Within-for w h buf _ font.rows λ i hi. glyph_row-Within i)

  module _ (icons_data : ℕ → ℕ → ℕ) (icon : ℕ) where
    icon_pixel-Within :
        (i j : ℕ)
        → off_screen h y i ≡ false
        → Within w h buf (icon_pixel w h icons_data buf x y icon i j)
    unfolding icon_pixel
    icon_pixel-Within i j row = Within-unless w h buf (off_screen w x j) _ λ col.
        Within-unless w h buf (is_hidden (icons_data icon (i * 30 + j))) _
          λ shown. Within-point w h buf _ _ _ (off_screen-lt h y i row) (off_screen-lt w x j col)

    icon_row-Within : (i : ℕ) → Within w h buf (icon_row w h icons_data buf x y icon i)
    unfolding icon_row
    icon_row-Within i =
        Within-unless w h buf (off_screen h y i) _
          λ row. Within-for w h buf _ 30 λ j hj. icon_pixel-Within i j row

  pub draw_icon-Within :
      (icons_data : ℕ → ℕ → ℕ) (icon : ℤ)
      → Within w h buf (λ m. (draw_icon w h icons_data buf x y icon m).0)
  unfolding draw_icon
  draw_icon-Within icons_data icon =
      Within-result w h buf (ltb_ℤ icon (pos 0) || leb_ℤ (pos icon_number) icon) _ _ _
        (Within-for w h buf _ icon_size λ i hi. icon_row-Within icons_data (pos_part icon) i)

  module _ (img : ℕ → Rgba) (width height : ℕ) (max_x : ℤ) (hx : max_x ≤ℤ pos w) where
    image_pixel-Within :
        (i j : ℕ)
        → pos_part (y +ℤ pos i) < h
        → past max_x x j ≡ false
        → Within w h buf (image_pixel w h img buf x y width height i j)
    unfolding image_pixel
    image_pixel-Within i j row col =
        Within-unless w h buf (before x j) _
          λ left. Within-point w h buf _ _ _ row (on_screen w max_x x j hx col left)

    image_row-Within :
        (i : ℕ)
        → (before y i ≡ false → pos_part (y +ℤ pos i) < h)
        → Within w h buf (image_row w h img buf x y width height max_x i)
    unfolding image_row
    image_row-Within i row =
        Within-unless w h buf (before y i) _
          λ top. Within-until w h buf _ _ width λ j hj col. image_pixel-Within i j (row top) col

    pub draw_image-Within :
        (max_y : ℤ)
        → max_y ≤ℤ pos h
        → Within w h buf (draw_image w h img buf x y width height max_x max_y)
    unfolding draw_image
    draw_image-Within max_y hy =
        Within-until w h buf _ _ height
          λ i hi row. image_row-Within i (λ top. on_screen h max_y y i hy row top)

  module _ (img width height subx suby subw subh : ℕ) where
    part_row-Within :
        (minj maxj i : ℕ)
        → past (pos h) y i ≡ false
        → pos_part (pos minj +ℤ x) + (maxj - minj) ≤ w
        → Within w h buf (part_row w h buf img x y width subx suby minj maxj i)
    unfolding part_row
    part_row-Within minj maxj i row fits =
        Within-unless w h buf (before y i) _
          λ top. Within-move w h buf _ _ _ _ (on_screen h (pos h) y i (omega arith) row top) fits

    pub draw24_image_part-Within :
        Within w h buf (draw24_image_part w h buf img x y width height subx suby subw subh)
    unfolding draw24_image_part
    draw24_image_part-Within = Within-unless w h buf (leb_ℤ (pos w) x || leb_ℤ (pos h) y) _ λ on.
        Within-unless w h buf (leb_ℤ maxj (pos (neg_part x))) _ λ some_columns.
          Within-until w h buf _ _ subh
            λ i hi row. part_row-Within (neg_part x) (pos_part maxj) i row (fits on)
      where
        maxj : ℤ
        maxj = if ltb_ℤ (pos w) (x +ℤ pos subw) then pos w -ℤ x else pos subw

        fits :
            (leb_ℤ (pos w) x || leb_ℤ (pos h) y) ≡ false
            → pos_part (pos (neg_part x) +ℤ x) + (pos_part maxj - neg_part x) ≤ w
        fits on = part_columns w h x y subw on
