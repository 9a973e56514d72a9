-- ===== src/Wm/Screen.antt =====
-- kernel/window_manager.c: what `updateScreen` draws, with the drawing routines of kernel/gui.c. The pixels
-- of the screen, of its buffer and of the windows are one memory; the switches of the address space for
-- a window's pixels are left out. The clock's time is an argument.
pub mod Bounds
pub mod Dock
use northos.Prelude.{
  ℕ, zero, suc, ◌+◌, ◌-◌, ◌*◌, ◌/◌, ◌%◌, Bool, true, false, not, ◌&&◌, List, [], ◌∷◌, Option, none,
  some, ltb, leb, ◌==◌, if◌then◌else◌,
}
use northos.Prelude.Int.{ℤ, pos, pos_part, ◌+ℤ◌, ◌-ℤ◌, ltb_ℤ}
use northos.Gui.{Pixels, Rgb, Rgba, draw_rect_by_coord, draw_mouse, move_pixels}
use northos.Gui.Pictures.{
  Font, draw_icon, draw_string, draw_string_with_max_width, draw24_image_part, draw_rect_border,
}
use northos.Wm.WindowList.{Index, is, get_window_count}
use northos.Wm.State.{
  Wm, Window, title_height, dock_height, dock_program_normal_width, start_icon_width,
  show_desktop_icon_width,
}
use northos.Wm.Handler.{rounds}

-- The colours that `wmInit` sets.
abbrev pub rgba : ℕ → ℕ → ℕ → Rgba
rgba r g b = record { alpha = 255; blue = b; green = g; red = r }

abbrev pub title_bar_color : Rgba
title_bar_color = rgba 45 52 64

abbrev pub dock_color : Rgba
dock_color = rgba 30 35 42

abbrev pub close_color : Rgba
close_color = rgba 239 83 80

abbrev pub minimize_color : Rgba
minimize_color = rgba 100 108 120

-- iconColor, titleTextColor and txtColor
abbrev pub white : Rgba
white = rgba 255 255 255

abbrev pub start_btn_color : Rgba
start_btn_color = rgba 66 135 245

abbrev pub border_color : Rgb
border_color = record { blue = 82; green = 68; red = 60 }

-- The division of C, which rounds to 0.
abbrev pub quotient : ℤ → ℕ → ℤ
quotient (pos n) d = pos (n / d)
quotient (ℤ.negsuc n) d = pos 0 -ℤ pos (suc n / d)

abbrev pub min_int : ℤ → ℤ → ℤ
min_int a b = if ltb_ℤ a b then a else b

-- HH:MM
abbrev pub clock_text : ℕ → ℕ → List ℕ
clock_text hours minutes =
    (48 + hours / 10) ∷ (48 + hours % 10) ∷ 58 ∷ (48 + minutes / 10) ∷ (48 + minutes % 10) ∷ []

-- What a call of `updateScreen` does: it draws, it panics, or a walk of the window list does not end.
pub data Update : Type 0 where
  shows : Pixels → Update
  panics : Update
  never_ends : Update

-- A walk that does not end, `none`, ends what follows.
infixl 5 ◌>>=◌
abbrev pub ◌>>=◌ : {A : Type 0} {B : Type 0} → Option A → (A → Option B) → Option B
none >>= f = none
some a >>= f = f a

-- `icons` is `icons_data`; `window_buf` and `popup_buf` are the pixels of the windows.
module _ (font : Font) (icons : ℕ → ℕ → ℕ) (window_buf : ℕ → ℕ) (popup_buf : ℕ) (s : Wm) where
  abbrev sw : ℕ
  sw = s.screen_width

  abbrev sh : ℕ
  sh = s.screen_height

  abbrev rect : ℕ → ℤ → ℤ → ℤ → ℤ → Rgba → Pixels → Pixels
  rect = draw_rect_by_coord sw sh

  abbrev icon : ℕ → ℤ → ℤ → ℕ → Pixels → Pixels
  icon dst x y n mem = (draw_icon sw sh icons dst x y (pos n) mem).0

  unfoldable pub draw_window_bar : ℕ → Window → Rgba → Pixels → Pixels
  draw_window_bar dst win barcolor m0 =
      let xmin = win.position.xmin in
      let xmax = win.position.xmax +ℤ pos 1 in
      let ymin = win.position.ymin -ℤ pos title_height in
      let ymax = win.position.ymin in
      let one = xmax -ℤ pos title_height in
      let two = xmax -ℤ pos (2 * title_height) in
      let m1 = rect dst xmin ymin two ymax barcolor m0 in
      let m2 = rect dst two ymin one ymax minimize_color m1 in
      let m3 = rect dst one ymin xmax ymax close_color m2 in
      let m4 = draw_string sw sh font dst (xmin +ℤ pos 8) (ymin +ℤ pos 6) win.title white m3 in
      let m5 = icon dst (two -ℤ pos 1) (ymin -ℤ pos 1) 1 m4 in
      icon dst (one -ℤ pos 1) (ymin -ℤ pos 1) 0 m5

  -- draw24ImagePart takes the width and the height of the window as those of its pixels; for a negative
  -- size it draws nothing.
  unfoldable pub draw_window : ℕ → ℕ → Window → Pixels → Pixels
  draw_window dst img win m0 =
      let p = win.position in
      let width = p.xmax -ℤ p.xmin in
      let height = p.ymax -ℤ p.ymin in
      let m1 =
        draw24_image_part sw sh dst img p.xmin p.ymin (pos_part width) (pos_part height) 0 0
          (pos_part width) (pos_part height) m0 in
      let m2 = draw_rect_border sw sh dst border_color p.xmin p.ymin width height m1 in
      if win.has_title_bar then draw_window_bar dst win title_bar_color m2 else m2

  unfoldable pub draw_clock : ℕ → ℕ → ℕ → Pixels → Pixels
  draw_clock dst hours minutes =
      draw_string sw sh font dst (pos sw -ℤ pos (show_desktop_icon_width + 5 * 9 + 15))
        (pos sh -ℤ pos (dock_height - 10)) (clock_text hours minutes) white

  -- One button of the dock, from column `x_start` on. SCREEN_HEIGHT - DOCK_HEIGHT * 0.7 is cut off to
  -- 26 rows above the bottom.
  unfoldable pub draw_button : ℕ → ℤ → ℤ → List ℕ → Pixels → Pixels
  draw_button dst x_start width title m0 =
      let m1 =
        draw_string_with_max_width sw sh font dst (x_start +ℤ pos 5) (pos sh -ℤ pos 26)
          (width -ℤ pos 2) title white m0 in
      rect dst (x_start +ℤ width -ℤ pos 2) (pos sh -ℤ pos dock_height) (x_start +ℤ width) (pos sh)
        white m1

  -- The loop over the windows; `none` is a walk that has not ended within the rounds given.
  unfoldable pub draw_buttons : ℕ → Index → ℕ → ℤ → ℤ → Pixels → Option Pixels
  draw_buttons zero p dst x_start width mem = none
  draw_buttons (suc r) none dst x_start width mem = some mem
  draw_buttons (suc r) (some v) dst x_start width mem =
      let next = s.links.next v in
      let skipped = draw_buttons r next dst x_start width mem in
      let drawn =
        draw_buttons r next dst (x_start +ℤ width) width
          (draw_button dst x_start width (s.wnd v).title mem) in
      if is (some v) s.desktop then skipped else drawn

  abbrev pub button_width : ℕ → ℤ
  button_width count =
      min_int
        (quotient (pos sw -ℤ pos (start_icon_width + show_desktop_icon_width + 90)) (count + 1))
        (pos dock_program_normal_width)

  -- The background of the dock and the start button.
  unfoldable pub draw_dock_bar : ℕ → Pixels → Pixels
  draw_dock_bar dst m0 =
      let top = pos sh -ℤ pos dock_height in
      let m1 = rect dst (pos 0) top (pos sw) (pos sh) dock_color m0 in
      rect dst (pos 0) top (pos start_icon_width) (pos sh) start_btn_color m1

  -- `none` is a walk of `getWindowCount` or of the loop that has not ended.
  unfoldable pub draw_all_buttons : ℕ → Pixels → Option Pixels
  draw_all_buttons dst mem = do
    count ← get_window_count rounds s.desktop s.links
    if ltb 0 count
        then draw_buttons rounds s.links.head dst (pos (start_icon_width + 5)) (button_width count)
            mem
        else some mem

  -- What follows the buttons: the clock, the button at the right and the icon.
  unfoldable pub draw_dock_rest : ℕ → ℕ → ℕ → Pixels → Pixels
  draw_dock_rest dst hours minutes m1 =
      let top = pos sh -ℤ pos dock_height in
      let m2 = draw_clock dst hours minutes m1 in
      let m3 =
        rect dst (pos sw -ℤ pos show_desktop_icon_width) top (pos sw) (pos sh) start_btn_color m2 in
      icon dst (pos (start_icon_width / 2) -ℤ pos 15) (top +ℤ pos 3) 2 m3

  unfoldable pub draw_desktop_dock : ℕ → ℕ → ℕ → Pixels → Option Pixels
  draw_desktop_dock dst hours minutes m0 = do
    m1 ← draw_all_buttons dst (draw_dock_bar dst m0)
    some (draw_dock_rest dst hours minutes m1)

  -- The loop over the windows above the desktop; `none` is a walk that has not ended.
  unfoldable pub draw_windows : ℕ → Index → ℕ → Pixels → Option Pixels
  draw_windows zero p dst mem = none
  draw_windows (suc r) none dst mem = some mem
  draw_windows (suc r) (some v) dst mem =
      let shown = not (is (some v) s.desktop) && not (s.wnd v).minimized in
      draw_windows r (s.links.next v) dst
        (if shown then draw_window dst (window_buf v) (s.wnd v) mem else mem)

  -- memset(screen_buf, 255, screen_size)
  unfoldable pub whiten : ℕ → Pixels → Pixels
  whiten dst mem a =
      if leb dst a && ltb a (dst + sw * sh)
      then record { blue = 255; green = 255; red = 255 }
      else mem a

  unfoldable pub draw_popup : ℕ → Pixels → Pixels
  draw_popup dst mem = if is s.popup_caller none then mem else draw_window dst popup_buf s.popup mem

  -- What is drawn to `screen_buf`, which follows the screen.
  unfoldable pub draw_all : ℕ → ℕ → ℕ → ℕ → Pixels → Option Pixels
  draw_all desktop dst hours minutes m0 = do
    m2 ←
        draw_desktop_dock dst hours minutes
          (draw_window dst (window_buf desktop) (s.wnd desktop) (whiten dst m0))
    m3 ← draw_windows rounds s.links.head dst m2
    some (draw_mouse sw sh dst s.mouse_shape s.mouse.x s.mouse.y (draw_popup dst m3))

  -- memmove(screen, screen_buf, screen_size), where the loops have ended.
  abbrev pub show : ℕ → Option Pixels → Update
  show screen none = never_ends
  show screen (some m) = shows (move_pixels screen (screen + sw * sh) (sw * sh) m)

  -- With no desktop the C code would read out of the array.
  abbrev pub update_by : ℕ → ℕ → ℕ → ℕ → Pixels → Index → Update
  update_by screen myproc hours minutes mem none = panics
  update_by screen myproc hours minutes mem (some d) =
      if (s.wnd d).owner == myproc
      then show screen (draw_all d (screen + sw * sh) hours minutes mem)
      else panics

  unfoldable pub update_screen : ℕ → ℕ → ℕ → ℕ → Pixels → Update
  update_screen screen myproc hours minutes mem =
      update_by screen myproc hours minutes mem s.desktop
