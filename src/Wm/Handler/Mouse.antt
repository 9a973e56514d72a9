-- ===== src/Wm/Handler/Mouse.antt =====
-- The mouse and the window on top: dragging, and two moves that the handler gets wrong.
use northos.Prelude.{ℕ, ◌≡◌, ◌∙◌, ap, true, false, some, update_self, arith}
use northos.Prelude.Int.{ℤ, pos, ◌+ℤ◌, ◌-ℤ◌, ◌≤ℤ◌, +ℤ_parts, -ℤ_parts, eq_of_parts}
use northos.Wm.MessageType
use northos.Wm.WindowList.{is}
use northos.Wm.State.{Message, Window, Wm, move_rect, send}
use northos.Wm.Handler.{
  param, clamp, move_accepted, move_mouse, move_focus_window, tell_top, on_mouse_move, on_click,
  wm_handle_message,
}
use northos.Wm.Handler.Members.{MouseHeld}

-- The title bar of the window w is held: the next move of the mouse drags it.
pub record Dragging (s : Wm) (w : ℕ) : Type 0 where
  pub pressed : s.clicked_on_title ≡ true
  pub on_top : s.links.tail ≡ some w
  pub barred : (s.wnd w).has_title_bar ≡ true

-- x is at the same distance from a and b as x' is from a' and b'.
grip : (x x' a : ℤ) → x' -ℤ (a +ℤ (x' -ℤ x)) ≡ x -ℤ a
grip x x' a =
    let d = x' -ℤ x in
    let e1 = -ℤ_parts x' x in
    let e2 = +ℤ_parts a d in
    let e3 = -ℤ_parts x' (a +ℤ d) in
    let e4 = -ℤ_parts x a in eq_of_parts (x' -ℤ (a +ℤ d)) (x -ℤ a) (omega arith)

shift : (a b d : ℤ) → (b +ℤ d) -ℤ (a +ℤ d) ≡ b -ℤ a
shift a b d =
    let e1 = +ℤ_parts a d in
    let e2 = +ℤ_parts b d in
    let e3 = -ℤ_parts (b +ℤ d) (a +ℤ d) in
    let e4 = -ℤ_parts b a in eq_of_parts ((b +ℤ d) -ℤ (a +ℤ d)) (b -ℤ a) (omega arith)

-- A mouse move while the title bar of the window on top is held takes the window along: the mouse
-- stays at the same place of the window, and the window keeps its width and its height.
pub drag_keeps_grip :
    (s : Wm) (w : ℕ) (msg : Message)
    → Dragging s w
    → (msg.msg_type ≡ MessageType.mouse_move)
    → let s' = wm_handle_message s msg in
      let r = (s.wnd w).position in
      let r' = (s'.wnd w).position in
      (s'.mouse.x -ℤ r'.xmin ≡ s.mouse.x -ℤ r.xmin)
      × (s'.mouse.y -ℤ r'.ymin ≡ s.mouse.y -ℤ r.ymin)
      × (r'.xmax -ℤ r'.xmin ≡ r.xmax -ℤ r.xmin)
      × (r'.ymax -ℤ r'.ymin ≡ r.ymax -ℤ r.ymin)
unfolding wm_handle_message on_mouse_move move_mouse move_focus_window move_rect
drag_keeps_grip s w msg d e =
    let s' = move_mouse s msg in
    let dx = s'.mouse.x -ℤ s'.last_mouse.x in
    let dy = s'.mouse.y -ℤ s'.last_mouse.y in
    let r = (s.wnd w).position in
    let moved : Window = record (s'.wnd w) {
      position = move_rect (s'.wnd w).position dx dy;
      has_title_bar = true;
    } in
    let at = update_self s'.wnd w moved in
    rw (e, d.pressed, d.on_top, d.barred)
      (
        ap (λ k. s'.mouse.x -ℤ k.position.xmin) at ∙ grip s.mouse.x s'.mouse.x r.xmin,
        ap (λ k. s'.mouse.y -ℤ k.position.ymin) at ∙ grip s.mouse.y s'.mouse.y r.ymin,
        ap (λ k. k.position.xmax -ℤ k.position.xmin) at ∙ shift r.xmin r.xmax dx,
        ap (λ k. k.position.ymax -ℤ k.position.ymin) at ∙ shift r.ymin r.ymax dy,
      )

-- With the mouse between 0 and the width and the height of the screen, a move to the right by at least the screen's height leaves it
-- where it is, however wide the screen is, since the test of the vertical parameter reads the
-- horizontal one.
pub wide_move_dropped :
    (s : Wm) (msg : Message)
    → MouseHeld s
    → pos s.screen_height ≤ℤ param msg 0
    → (move_mouse s msg).mouse ≡ s.mouse
unfolding move_mouse move_accepted clamp
wide_move_dropped s msg (a, b, c, d) h =
    let off : move_accepted s msg ≡ false = ground arith in rw off (ground arith)

-- Where a press has set both flags, a click that is not on the popup, with a window other than the
-- desktop on top, leaves the title bar held.
pub click_leaves_title_held :
    (s : Wm) (msg : Message)
    → s.clicked_on_title ≡ true
    → s.clicked_on_content ≡ true
    → s.clicked_on_popup ≡ false
    → is s.links.tail s.desktop ≡ false
    → (on_click s msg).clicked_on_title ≡ true
unfolding on_click tell_top send
click_leaves_title_held s msg t c p d = rw (p, c, d) (ground arith)
