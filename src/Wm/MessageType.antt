-- ===== src/Wm/MessageType.antt =====
-- The message types of include/msg.h.
use northos.Prelude.{ℕ}

abbrev pub key_up : ℕ
key_up = 1

abbrev pub key_down : ℕ
key_down = 2

abbrev pub mouse_move : ℕ
mouse_move = 3

abbrev pub mouse_down : ℕ
mouse_down = 4

abbrev pub mouse_up : ℕ
mouse_up = 5

abbrev pub mouse_left_click : ℕ
mouse_left_click = 6

abbrev pub mouse_right_click : ℕ
mouse_right_click = 7

abbrev pub mouse_dbclick : ℕ
mouse_dbclick = 8

abbrev pub window_close : ℕ
window_close = 100

abbrev pub window_minimize : ℕ
window_minimize = 101

abbrev pub window_maximize : ℕ
window_maximize = 102
