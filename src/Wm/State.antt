-- ===== src/Wm/State.antt =====
-- The state of kernel/window_manager.c and its small helpers on rectangles. Integers do not wrap.
-- Of a window the pixel buffer is left out, and of the state the colours.
use northos.Prelude.{ℕ, Bool, ◌&&◌, List, [], ◌∷◌, none, some, update}
use northos.Prelude.Int.{ℤ, ◌+ℤ◌, ◌-ℤ◌, leb_ℤ}
use northos.Wm.MessageQueue.{MsgBuf, dispatch_message}
use northos.Wm.WindowList.{Links, Index}

-- `win_rect`
pub record Rect : Type 0 where
  pub xmin : ℤ
  pub xmax : ℤ
  pub ymin : ℤ
  pub ymax : ℤ

-- `message`: the type and the parameters that the sender has set.
pub record Message : Type 0 where
  pub msg_type : ℕ
  pub params : List ℤ

pub record Point : Type 0 where
  pub x : ℤ
  pub y : ℤ

-- `kernel_window`, with the process that `windowlist` holds beside it.
pub record Window : Type 0 where
  pub position : Rect
  pub msg_buf : MsgBuf Message
  pub title : List ℕ
  pub minimized : Bool
  pub has_title_bar : Bool
  pub owner : ℕ

pub record Wm : Type 0 where
  pub links : Links
  pub wnd : ℕ → Window
  pub desktop : Index
  pub popup : Window
  pub popup_caller : Index
  pub mouse_shape : ℕ
  pub clicked_on_title : Bool
  pub clicked_on_content : Bool
  pub clicked_on_popup : Bool
  pub mouse : Point
  pub last_mouse : Point
  pub screen_width : ℕ
  pub screen_height : ℕ

abbrev pub title_height : ℕ
title_height = 28

abbrev pub dock_height : ℕ
dock_height = 36

abbrev pub dock_program_normal_width : ℕ
dock_program_normal_width = 160

abbrev pub start_icon_width : ℕ
start_icon_width = 72

abbrev pub show_desktop_icon_width : ℕ
show_desktop_icon_width = 10

unfoldable pub is_in_rect : ℤ → ℤ → ℤ → ℤ → Point → Bool
is_in_rect xmin ymin xmax ymax p =
    leb_ℤ xmin p.x && (leb_ℤ p.x xmax && (leb_ℤ ymin p.y && leb_ℤ p.y ymax))

unfoldable pub move_rect : Rect → ℤ → ℤ → Rect
move_rect r dx dy = record {
  xmin = r.xmin +ℤ dx;
  xmax = r.xmax +ℤ dx;
  ymin = r.ymin +ℤ dy;
  ymax = r.ymax +ℤ dy;
}

-- dispatchMessage(&windowlist[w].wnd.msg_buf, &msg), whose result the callers ignore. With no
-- window w the C code would write out of the array.
unfoldable pub send : Wm → Index → Message → Wm
send s none msg = s
send s (some w) msg = record s {
  wnd = update s.wnd w (record (s.wnd w) { msg_buf = (dispatch_message (s.wnd w).msg_buf msg).0 });
}

unfoldable pub send_popup : Wm → Message → Wm
send_popup s msg = record s {
  popup = record s.popup { msg_buf = (dispatch_message s.popup.msg_buf msg).0 };
}

-- The position of a window; with no window the C code would read out of the array.
abbrev pub position_of : Wm → Index → Rect
position_of s none = s.popup.position
position_of s (some w) = (s.wnd w).position

-- The mouse relative to a rectangle, as the two parameters of a message.
unfoldable pub relative : Point → Rect → List ℤ
relative p r = (p.x -ℤ r.xmin) ∷ (p.y -ℤ r.ymin) ∷ []
