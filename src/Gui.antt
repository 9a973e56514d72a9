-- ===== src/Gui.antt =====
-- kernel/gui.c: rectangles and the pointer, drawn to a buffer of pixels. The pixels of all buffers are
-- one memory, a buffer is the address of its first pixel, and an address counts pixels. `w` and `h` are
-- SCREEN_WIDTH and SCREEN_HEIGHT. The sums of coordinates do not wrap.
pub mod MouseShape
pub mod Loops
pub mod Grid
pub mod Rect
pub mod Clear
pub mod Pointer
pub mod Pictures
pub mod Within
pub mod Bounds
pub mod Border
mod Tests
use northos.Prelude.{
  ℕ, ◌+◌, ◌-◌, ◌*◌, ◌/◌, ◌%◌, Bool, not, ◌||◌, [], leb, ltb, ◌==◌, if◌then◌else◌, update, get_or,
}
use northos.Prelude.Int.{ℤ, pos, pos_part, ◌+ℤ◌, ◌-ℤ◌, ltb_ℤ, leb_ℤ}
use Loops.{for, for_until}
use MouseShape.{mouse_pointer}

pub record Rgb : Type 0 where
  pub blue : ℕ
  pub green : ℕ
  pub red : ℕ

pub record Rgba : Type 0 where
  pub alpha : ℕ
  pub blue : ℕ
  pub green : ℕ
  pub red : ℕ

abbrev pub Pixels : Type 0
Pixels = ℕ → Rgb

abbrev pub solid : Rgba → Rgb
solid color = record { blue = color.blue; green = color.green; red = color.red }

-- (color * inv_alpha + origin * alpha) >> 8, stored in a byte.
abbrev pub mix : ℕ → ℕ → ℕ → ℕ
mix color origin alpha = (color * (255 - alpha) + origin * alpha) / 256 % 256

-- What `drawPointAlpha` leaves in the pixel.
unfoldable pub blend : Rgb → Rgba → Rgb
blend color origin =
    if origin.alpha == 255 then solid origin else if origin.alpha == 0 then color else record {
      blue = mix color.blue origin.blue origin.alpha;
      green = mix color.green origin.green origin.alpha;
      red = mix color.red origin.red origin.alpha;
    }

unfoldable pub draw_point : ℕ → Rgb → Pixels → Pixels
draw_point t origin mem = update mem t origin

unfoldable pub draw_point_alpha : ℕ → Rgba → Pixels → Pixels
draw_point_alpha t origin mem = update mem t (blend (mem t) origin)

-- memmove of `n` whole pixels.
unfoldable pub move_pixels : ℕ → ℕ → ℕ → Pixels → Pixels
move_pixels t o n mem a =
    if leb t a then if ltb a (t + n) then mem (o + (a - t)) else mem a else mem a

abbrev pub min_ℤ : ℤ → ℤ → ℤ
min_ℤ a b = if ltb_ℤ b a then b else a

-- The tests at the head of the loops over the rows and the columns of a picture at `y` or `x`.
abbrev pub past : ℤ → ℤ → ℕ → Bool
past end y i = leb_ℤ end (y +ℤ pos i)

abbrev pub before : ℤ → ℕ → Bool
before y i = ltb_ℤ (y +ℤ pos i) (pos 0)

-- `mouse_color` as `initGUI` sets it.
abbrev pub mouse_color : ℕ → Rgb
mouse_color k =
    if k == 0
    then record { blue = 0; green = 0; red = 0 }
    else record { blue = 200; green = 200; red = 200 }

abbrev pub mouse_height : ℕ
mouse_height = 18

abbrev pub mouse_width : ℕ
mouse_width = 15

abbrev pub shape : ℕ → ℕ → ℕ → ℕ
shape mode i j = get_or (get_or (get_or mouse_pointer mode []) i []) j 0

-- buf + row * SCREEN_WIDTH + col
abbrev pub cell : ℕ → ℕ → ℕ → ℕ → ℕ
cell w buf row col = buf + row * w + col

-- The number of columns that `clearRect` copies. `start_x` is never negative, so the correction for
-- a negative one does nothing.
abbrev pub copy_width : ℕ → ℤ → ℤ → ℤ
copy_width w x width = if ltb_ℤ (pos w) (x +ℤ width) then pos w -ℤ x else width

module _ (w h : ℕ) where
  -- One row of the loop for an opaque colour: `t` stands at the first pixel.
  abbrev pub fill_row : ℕ → Rgb → ℕ → ℕ → Pixels → Pixels
  fill_row t color start_x end_x =
      for (λ j. draw_point (t + (j - start_x)) color) start_x (end_x - start_x)

  abbrev pub blend_row : ℕ → Rgba → ℕ → ℕ → ℕ → Pixels → Pixels
  blend_row buf fill i start_x end_x =
      for (λ j. draw_point_alpha (cell w buf i j) fill) start_x (end_x - start_x)

  unfoldable pub draw_rect_bound : ℕ → ℤ → ℤ → ℤ → ℤ → Rgba → ℤ → ℤ → Pixels → Pixels
  draw_rect_bound buf x y width height fill max_x max_y mem =
      let start_x = pos_part x in
      let start_y = pos_part y in
      let end_x = pos_part (min_ℤ (x +ℤ width) max_x) in
      let end_y = pos_part (min_ℤ (y +ℤ height) max_y) in
      if leb_ℤ max_x x
        || (leb_ℤ max_y y || (leb_ℤ (x +ℤ width) (pos 0) || leb_ℤ (y +ℤ height) (pos 0)))
      then mem
      else if fill.alpha == 255
      then for (λ i. fill_row (cell w buf i start_x) (solid fill) start_x end_x) start_y
          (end_y - start_y) mem
      else for (λ i. blend_row buf fill i start_x end_x) start_y (end_y - start_y) mem

  unfoldable pub draw_rect : ℕ → ℤ → ℤ → ℤ → ℤ → Rgba → Pixels → Pixels
  draw_rect buf x y width height fill = draw_rect_bound buf x y width height fill (pos w) (pos h)

  unfoldable pub draw_rect_by_coord : ℕ → ℤ → ℤ → ℤ → ℤ → Rgba → Pixels → Pixels
  draw_rect_by_coord buf xmin ymin xmax ymax fill =
      draw_rect buf xmin ymin (xmax -ℤ xmin) (ymax -ℤ ymin) fill

  unfoldable pub clear_rect : ℕ → ℕ → ℤ → ℤ → ℤ → ℤ → Pixels → Pixels
  clear_rect buf temp_buf x y width height mem =
      let start_y = pos_part y in
      let end_y = pos_part (min_ℤ (y +ℤ height) (pos h)) in
      let start_x = pos_part x in
      let n = copy_width w x width in
      if leb_ℤ (pos w) x
        || (leb_ℤ (pos h) y || (leb_ℤ (x +ℤ width) (pos 0) || leb_ℤ (y +ℤ height) (pos 0)))
      then mem
      else if leb_ℤ n (pos 0)
      then mem
      else for (λ i. move_pixels (cell w buf i start_x) (cell w temp_buf i start_x) (pos_part n))
          start_y (end_y - start_y) mem

  unfoldable pub clear_rect_by_coord : ℕ → ℕ → ℤ → ℤ → ℤ → ℤ → Pixels → Pixels
  clear_rect_by_coord buf temp_buf xmin ymin xmax ymax =
      clear_rect buf temp_buf xmin ymin (xmax -ℤ xmin) (ymax -ℤ ymin)

  unfoldable pub mouse_pixel : ℕ → ℕ → ℤ → ℤ → ℕ → ℕ → Pixels → Pixels
  mouse_pixel buf mode x y i j mem =
      let t = cell w buf (pos_part (y +ℤ pos i)) (pos_part (x +ℤ pos j)) in
      if before x j
      then mem
      else if not (shape mode i j == 0)
      then draw_point t (mouse_color (shape mode i j - 1)) mem
      else mem

  unfoldable pub mouse_row : ℕ → ℕ → ℤ → ℤ → ℕ → Pixels → Pixels
  mouse_row buf mode x y i mem =
      if before y i
      then mem
      else for_until (past (pos w) x) (mouse_pixel buf mode x y i) 0 mouse_width mem

  unfoldable pub draw_mouse : ℕ → ℕ → ℤ → ℤ → Pixels → Pixels
  draw_mouse buf mode x y = for_until (past (pos h) y) (mouse_row buf mode x y) 0 mouse_height

  unfoldable pub clear_mouse : ℕ → ℕ → ℤ → ℤ → Pixels → Pixels
  clear_mouse buf temp_buf x y = clear_rect buf temp_buf x y (pos mouse_width) (pos mouse_height)
