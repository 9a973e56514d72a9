-- ===== src/Gui/Tests.antt =====
-- Runs of the drawing routines on small screens.
use northos.Prelude.{ℕ, ◌≡◌, ◌≢◌, refl, inl, if◌then◌else◌, ltb, ◌%◌, arith}
use northos.Prelude.Int.{pos, negsuc, ◌+ℤ◌}
use northos.Gui.Loops.{for, for_until}
use northos.Gui.{
  draw_point, draw_point_alpha, move_pixels, mouse_row, mouse_pixel, Pixels, Rgb, Rgba, cell, blend,
  draw_rect_bound, clear_rect, clear_mouse, draw_mouse,
}
use northos.Gui.Rect.{Covers, Spans, draw_rect_bound_lem}
use northos.Gui.Clear.{clear_rect_left}
use northos.Gui.Pointer.{clear_mouse-draw_mouse}

abbrev gray : ℕ → Rgb
gray n = record { blue = n; green = n; red = n }

abbrev ramp : Pixels
ramp a = gray (a % 7)

abbrev veil : Rgba
veil = record { alpha = 100; blue = 250; green = 20; red = 3 }

-- A rectangle over the upper left corner of a screen of 5 by 4 pixels.
corner_drawn :
    draw_rect_bound 5 4 100 (negsuc 1) (negsuc 0) (pos 4) (pos 3) veil (pos 5) (pos 4) ramp 106
    ≡ blend (gray 1) veil
unfolding draw_rect_bound blend ◌+ℤ◌ for draw_point_alpha
corner_drawn = refl

-- One pixel of a memory of two colours: the first buffer holds 1, the second 0.
abbrev two_buffers : Pixels
two_buffers a = if ltb a 20 then gray 1 else gray 0

-- The rectangle ends at column 2, and column 2 is copied as well.
too_far : clear_rect 5 4 0 20 (negsuc 1) (pos 1) (pos 4) (pos 2) two_buffers 7 ≡ gray 0
unfolding clear_rect ◌+ℤ◌ for move_pixels
too_far = refl

draw_rect_bound_lem_example :
    ((r c : ℕ)
      → Covers (negsuc 1) (negsuc 0) (pos 4) (pos 3) (pos 5) (pos 4) r c
      → draw_rect_bound 5 4 100
          (negsuc 1)
          (negsuc 0)
          (pos 4)
          (pos 3)
          veil
          (pos 5)
          (pos 4)
          ramp
          (cell 5 100 r c)
        ≡ blend (ramp (cell 5 100 r c)) veil)
    × ((a : ℕ)
        → ((r c : ℕ)
            → Covers (negsuc 1) (negsuc 0) (pos 4) (pos 3) (pos 5) (pos 4) r c
            → a ≢ cell 5 100 r c)
        → draw_rect_bound 5 4 100 (negsuc 1) (negsuc 0) (pos 4) (pos 3) veil (pos 5) (pos 4) ramp a
          ≡ ramp a)
draw_rect_bound_lem_example =
    draw_rect_bound_lem 5 4 100 (negsuc 1) (negsuc 0) (pos 4) (pos 3) veil (pos 5) (pos 4)
      (omega arith) ramp

row_1 : Spans (pos 1) (pos 2) (pos 4) 1
unfolding Spans ◌+ℤ◌
row_1 = omega arith

clear_rect_left_run :
    clear_rect 5 4 0 20 (negsuc 1) (pos 1) (pos 4) (pos 2) two_buffers (cell 5 0 1 3) ≡ gray 0
clear_rect_left_run =
    clear_rect_left 5 4 0 20 1 4 (pos 1) (pos 2) (inl (omega arith)) (omega arith) (omega arith)
      two_buffers 1 3 row_1 (omega arith) (omega arith)

-- The pointer at the lower right corner of a screen of 20 by 20 pixels, whose two buffers are both gray.
clear_mouse-draw_mouse_example :
    clear_mouse 20 20 0 400
      (pos 12)
      (pos 15)
      (draw_mouse 20 20 0 0 (pos 12) (pos 15) (λ _. gray 9))
      333
    ≡ gray 9
clear_mouse-draw_mouse_example =
    clear_mouse-draw_mouse 20 20 0 400 0 12 (pos 15) (λ _. gray 9) (inl (omega arith))
      (λ r c hr hc. refl) 333

-- The pointer is drawn there.
pointer_drawn : draw_mouse 20 20 0 0 (pos 12) (pos 15) (λ _. gray 9) 312 ≡ gray 200
unfolding draw_mouse for_until ◌+ℤ◌ mouse_row mouse_pixel draw_point
pointer_drawn = refl
