-- ===== src/Wm/Screen/Dock.antt =====
-- The buttons of the dock as they are drawn and as they are clicked.
use northos.Prelude.{ℕ, ap, ◌∙◌, ◌+◌, ◌-◌, ◌/◌, ◌<◌, ◌≤◌, ◌≡◌, arith}
use northos.Prelude.Int.{pos, ◌-ℤ◌}
use northos.Gui.Pictures.{Font}
use northos.Wm.State.{Wm}
use northos.Wm.Handler.{bar_width}
use northos.Wm.Screen.{button_width, quotient, min_int}

div-step : (n d : ℕ) → d < 90 → n / (d + 1) + 1 ≤ (n + 90) / (d + 1)
div-step n d small = grind arith

narrower : (q : ℕ) → q < 160 → min_int (pos q) (pos 160) ≡ pos q
narrower q lt = ground arith

-- With fewer than 90 windows, on a screen where the buttons are not as wide as they may be, the dock draws
-- each button narrower than the part of the dock that a click takes for the button.
pub narrow_buttons :
    (font : Font) (icons : ℕ → ℕ → ℕ) (window_buf : ℕ → ℕ) (popup_buf count : ℕ) (s : Wm)
    → 172 ≤ s.screen_width
    → count < 90
    → (s.screen_width - 172) / (count + 1) < 160
    → (drawn : ℕ) × (button_width font icons window_buf popup_buf s count ≡ pos drawn)
      × (drawn < bar_width s count)
unfolding ◌-ℤ◌
narrow_buttons font icons window_buf popup_buf count s wide few narrow = (
  n / (count + 1),
  width_lem,
  ground (arith, div-step n count few, ap (λ k. k / (count + 1)) apart),
)
  where
    n : ℕ
    n = s.screen_width - 172

    apart : s.screen_width - 72 - 10 ≡ n + 90
    apart = omega arith

    room : pos s.screen_width -ℤ pos 172 ≡ pos n
    room = ground arith

    width_lem : button_width font icons window_buf popup_buf s count ≡ pos (n / (count + 1))
    width_lem =
        ap (λ z. min_int (quotient z (count + 1)) (pos 160)) room
        ∙ narrower (n / (count + 1)) narrow
