-- ===== src/Gui/Pictures.antt =====
-- kernel/gui.c: characters, icons, images and borders, drawn to a buffer of pixels.
use northos.Prelude.{
  ℕ, ◌+◌, ◌-◌, ◌*◌, ◌/◌, ◌%◌, Bool, true, ◌&&◌, ◌||◌, List, [], ◌∷◌, leb, ltb, ◌==◌, if◌then◌else◌,
  update,
}
use northos.Prelude.Int.{ℤ, pos, pos_part, neg_part, ◌+ℤ◌, ◌-ℤ◌, ltb_ℤ, leb_ℤ}
use northos.Gui.{Pixels, Rgb, Rgba, cell, past, before, draw_point_alpha, move_pixels}
use northos.Gui.Loops.{for, for_until}

-- CHARACTER_NUMBER, CHARACTER_HEIGHT, CHARACTER_WIDTH and `character`, the table of the shapes.
pub record Font : Type 0 where
  pub number : ℕ
  pub rows : ℕ
  pub columns : ℕ
  pub glyph : ℕ → ℕ → ℕ → ℕ

-- ord < 0 || ord >= CHARACTER_NUMBER - 1; a byte from 128 on is a negative `char`.
abbrev pub no_glyph : Font → ℕ → Bool
no_glyph f ch = ltb ch 32 || (leb 128 ch || leb (f.number - 1) (ch - 32))

-- The coordinate is not on a screen of `size` pixels.
abbrev pub off_screen : ℕ → ℤ → ℕ → Bool
off_screen size x i = past (pos size) x i || before x i

abbrev pub icon_size : ℕ
icon_size = 30

abbrev pub icon_number : ℕ
icon_number = 5

-- The colour of an icon's word, with all of it shown.
abbrev pub icon_color : ℕ → Rgba
icon_color raw = record {
  alpha = 255;
  blue = raw % 256;
  green = raw / 256 % 256;
  red = raw / 65536 % 256;
}

abbrev pub is_hidden : ℕ → Bool
is_hidden raw = raw == 4278190080 || raw == 0

-- The test on a coordinate of the border: 0 < x + i < size
abbrev pub is_inner : ℕ → ℤ → ℕ → Bool
is_inner size x i = ltb_ℤ (pos 0) (x +ℤ pos i) && ltb_ℤ (x +ℤ pos i) (pos size)

abbrev pub when : Bool → (Pixels → Pixels) → Pixels → Pixels
when b op mem = if b then op mem else mem

module _ (w h : ℕ) where
  module _ (font : Font) where
    unfoldable pub glyph_pixel : ℕ → ℤ → ℤ → ℕ → Rgba → ℕ → ℕ → Pixels → Pixels
    glyph_pixel buf x y ch color i j mem =
        let font_alpha = font.glyph (ch - 32) i j in
        let t = cell w buf (pos_part (y +ℤ pos i)) (pos_part (x +ℤ pos j)) in
        if font_alpha == 0
        then mem
        else if off_screen w x j
        then mem
        else draw_point_alpha t (record color { alpha = color.alpha * font_alpha / 256 % 256 }) mem

    unfoldable pub glyph_row : ℕ → ℤ → ℤ → ℕ → Rgba → ℕ → Pixels → Pixels
    glyph_row buf x y ch color i mem =
        if off_screen h y i then mem else for (glyph_pixel buf x y ch color i) 0 font.columns mem

    -- What is drawn, and the value returned.
    unfoldable pub draw_character : ℕ → ℤ → ℤ → ℕ → Rgba → Pixels → Pixels × ℤ
    draw_character buf x y ch color mem =
        if no_glyph font ch
        then (mem, pos 0 -ℤ pos 1)
        else (for (glyph_row buf x y ch color) 0 font.rows mem, pos font.columns)

    -- The loop of `drawString` from `offset_x` on. A string is its bytes before the terminator.
    unfoldable pub draw_chars : ℕ → ℤ → ℤ → ℤ → List ℕ → Rgba → Pixels → Pixels
    draw_chars buf x y offset_x [] color mem = mem
    draw_chars buf x y offset_x (ch ∷ str) color mem =
        let (drawn, n) = draw_character buf (x +ℤ offset_x) y ch color mem in
        draw_chars buf x y (offset_x +ℤ n) str color drawn

    abbrev pub draw_string : ℕ → ℤ → ℤ → List ℕ → Rgba → Pixels → Pixels
    draw_string buf x y = draw_chars buf x y (pos 0)

    -- The loop of `drawStringWithMaxWidth` from `offset_x` on.
    unfoldable pub draw_chars_max : ℕ → ℤ → ℤ → ℤ → ℤ → List ℕ → Rgba → Pixels → Pixels
    draw_chars_max buf x y width offset_x [] color mem = mem
    draw_chars_max buf x y width offset_x (ch ∷ str) color mem =
        let (drawn, n) = draw_character buf (x +ℤ offset_x) y ch color mem in
        let rest = draw_chars_max buf x y width (offset_x +ℤ n) str color drawn in
        if leb_ℤ (offset_x +ℤ pos font.columns) width then rest else mem

    abbrev pub draw_string_with_max_width : ℕ → ℤ → ℤ → ℤ → List ℕ → Rgba → Pixels → Pixels
    draw_string_with_max_width buf x y width = draw_chars_max buf x y width (pos 0)

  module _ (icons_data : ℕ → ℕ → ℕ) where
    unfoldable pub icon_pixel : ℕ → ℤ → ℤ → ℕ → ℕ → ℕ → Pixels → Pixels
    icon_pixel buf x y icon i j mem =
        let raw_color = icons_data icon (i * icon_size + j) in
        let t = cell w buf (pos_part (y +ℤ pos i)) (pos_part (x +ℤ pos j)) in
        if off_screen w x j
        then mem
        else if is_hidden raw_color
        then mem
        else draw_point_alpha t (icon_color raw_color) mem

    unfoldable pub icon_row : ℕ → ℤ → ℤ → ℕ → ℕ → Pixels → Pixels
    icon_row buf x y icon i mem =
        if off_screen h y i then mem else for (icon_pixel buf x y icon i) 0 icon_size mem

    unfoldable pub draw_icon : ℕ → ℤ → ℤ → ℤ → Pixels → Pixels × ℤ
    draw_icon buf x y icon mem =
        if ltb_ℤ icon (pos 0) || leb_ℤ (pos icon_number) icon
        then (mem, pos 0 -ℤ pos 1)
        else (for (icon_row buf x y (pos_part icon)) 0 icon_size mem, pos icon_size)

  module _ (img : ℕ → Rgba) where
    unfoldable pub image_pixel : ℕ → ℤ → ℤ → ℕ → ℕ → ℕ → ℕ → Pixels → Pixels
    image_pixel buf x y width height i j mem =
        let t = cell w buf (pos_part (y +ℤ pos i)) (pos_part (x +ℤ pos j)) in
        if before x j then mem else draw_point_alpha t (img ((height - i) * width + j)) mem

    unfoldable pub image_row : ℕ → ℤ → ℤ → ℕ → ℕ → ℤ → ℕ → Pixels → Pixels
    image_row buf x y width height max_x i mem =
        if before y i
        then mem
        else for_until (past max_x x) (image_pixel buf x y width height i) 0 width mem

    -- `img` is a pointer to the first pixel.
    unfoldable pub draw_image : ℕ → ℤ → ℤ → ℕ → ℕ → ℤ → ℤ → Pixels → Pixels
    draw_image buf x y width height max_x max_y =
        for_until (past max_y y) (image_row buf x y width height max_x) 0 height

  unfoldable pub part_row : ℕ → ℕ → ℤ → ℤ → ℕ → ℕ → ℕ → ℕ → ℕ → ℕ → Pixels → Pixels
  part_row buf img x y width subx suby minj maxj i mem =
      if before y i
      then mem
      else move_pixels (cell w buf (pos_part (y +ℤ pos i)) (pos_part (pos minj +ℤ x)))
          (img + (i + suby) * width + subx + minj) (maxj - minj) mem

  unfoldable pub draw24_image_part : ℕ → ℕ → ℤ → ℤ → ℕ → ℕ → ℕ → ℕ → ℕ → ℕ → Pixels → Pixels
  draw24_image_part buf img x y width height subx suby subw subh mem =
      let minj = neg_part x in
      let maxj = if ltb_ℤ (pos w) (x +ℤ pos subw) then pos w -ℤ x else pos subw in
      if leb_ℤ (pos w) x || leb_ℤ (pos h) y
      then mem
      else if leb_ℤ maxj (pos minj)
      then mem
      else for_until (past (pos h) y) (part_row buf img x y width subx suby minj (pos_part maxj)) 0
          subh mem

  -- A line of pixels along row `row`, and one along column `column`.
  abbrev pub across : ℕ → Rgb → Bool → ℤ → ℕ → ℕ → Pixels → Pixels
  across buf color shown x row i mem =
      if shown && is_inner w x i
      then update mem (cell w buf row (pos_part (x +ℤ pos i))) color
      else mem

  abbrev pub down : ℕ → Rgb → ℤ → ℕ → ℕ → Pixels → Pixels
  down buf color y column i mem =
      if is_inner h y i then update mem (cell w buf (pos_part (y +ℤ pos i)) column) color else mem

  module _ (buf : ℕ) (color : Rgb) (x y width height : ℤ) where
    abbrev pub border_off : Bool
    border_off =
        leb_ℤ (pos w) x
        || (ltb_ℤ (x +ℤ width) (pos 0)
            || (leb_ℤ (pos h) y
                || (ltb_ℤ (y +ℤ height) (pos 0) || (ltb_ℤ width (pos 0) || ltb_ℤ height (pos 0)))))

    unfoldable pub border_top : Pixels → Pixels
    border_top =
        when (ltb_ℤ (pos 0) y) (for (across buf color true x (pos_part y)) 0 (pos_part width))

    unfoldable pub border_bottom : Pixels → Pixels
    border_bottom =
        when (ltb_ℤ (y +ℤ height) (pos h))
          (for (across buf color (ltb_ℤ (pos 0) y) x (pos_part (y +ℤ height))) 0 (pos_part width))

    unfoldable pub border_left : Pixels → Pixels
    border_left = when (ltb_ℤ (pos 0) x) (for (down buf color y (pos_part x)) 0 (pos_part height))

    unfoldable pub border_right : Pixels → Pixels
    border_right =
        when (ltb_ℤ (x +ℤ width) (pos w))
          (for (down buf color y (pos_part (x +ℤ width))) 0 (pos_part height))

    unfoldable pub draw_rect_border : Pixels → Pixels
    draw_rect_border mem =
        if border_off then mem else border_right (border_left (border_bottom (border_top mem)))
