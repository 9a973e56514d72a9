-- ===== src/Wm/Handler.antt =====
-- `wmHandleMessage` of kernel/window_manager.c and the functions that it calls.
pub mod Members
pub mod Invariant
pub mod Mouse
use northos.Prelude.{
  ℕ, zero, suc, ◌+◌, ◌-◌, ◌/◌, min, Bool, true, false, not, ◌&&◌, ◌||◌, [], ◌∷◌, none, some, ltb,
  ◌==◌, if◌then◌else◌, update, get_or,
}
use northos.Prelude.Int.{ℤ, pos, sub_ℕ, ◌+ℤ◌, ◌-ℤ◌, ltb_ℤ, leb_ℤ}
use northos.Wm.WindowList.{Index, is, focus_window, max_window_cnt, get_window_count}
use northos.Wm.State.{
  Rect, Message, Wm, is_in_rect, move_rect, send, send_popup, position_of, relative, title_height,
  dock_height, dock_program_normal_width, start_icon_width, show_desktop_icon_width,
}
use northos.Wm.MessageType

-- One more round than there are slots: enough for a walk through the list.
abbrev pub rounds : ℕ
rounds = suc max_window_cnt

-- msg->params[i]
abbrev pub param : Message → ℕ → ℤ
param msg i = get_or msg.params i (pos 0)

-- if (v > hi) v = hi; if (v < 0) v = 0;
unfoldable pub clamp : ℕ → ℤ → ℤ
clamp hi v =
    let v' = if ltb_ℤ (pos hi) v then pos hi else v in if ltb_ℤ v' (pos 0) then pos 0 else v'

-- The tests of `M_MOUSE_MOVE` on the two parameters, as they stand.
unfoldable pub move_accepted : Wm → Message → Bool
move_accepted s msg =
    (ltb_ℤ (pos 0 -ℤ pos s.screen_width) (param msg 0) && ltb_ℤ (param msg 0) (pos s.screen_width))
    && (ltb_ℤ (pos 0 -ℤ pos s.screen_height) (param msg 1)
        && ltb_ℤ (param msg 0) (pos s.screen_height))

unfoldable pub move_mouse : Wm → Message → Wm
unfolding move_accepted clamp
move_mouse s msg = record s {
  last_mouse = s.mouse;
  mouse =
      let go = move_accepted s msg in
      record {
        x = clamp s.screen_width (if go then s.mouse.x +ℤ param msg 0 else s.mouse.x);
        y = clamp s.screen_height (if go then s.mouse.y -ℤ param msg 1 else s.mouse.y);
      };
}

-- `moveFocusWindow`
unfoldable pub move_focus_window : Wm → ℤ → ℤ → Wm
move_focus_window s dx dy = elim s.links.tail [
  | none ↦ s
  | some w ↦
      if (s.wnd w).has_title_bar
      then record s {
        wnd = update s.wnd w (record (s.wnd w) { position = move_rect (s.wnd w).position dx dy });
      }
      else s
]

-- The new message for the window on top, with the mouse relative to that window.
unfoldable pub tell_top : Wm → ℕ → Wm
tell_top s msg_type =
    send s s.links.tail
      (record { msg_type = msg_type; params = relative s.mouse (position_of s s.links.tail) })

unfoldable pub on_mouse_move : Wm → Message → Wm
on_mouse_move s msg =
    let s' = move_mouse s msg in
    if s'.clicked_on_title
    then move_focus_window (record s' { mouse_shape = 1 }) (s'.mouse.x -ℤ s'.last_mouse.x)
        (s'.mouse.y -ℤ s'.last_mouse.y)
    else if s'.clicked_on_content
    then tell_top s' msg.msg_type
    else s'

-- The mouse is over a window that is shown and is not the desktop.
abbrev pub hit : Wm → ℕ → Bool
hit s w =
    not (is (some w) s.desktop)
    && (not (s.wnd w).minimized
        && is_in_rect r.xmin (r.ymin -ℤ pos title_height) r.xmax r.ymax s.mouse)
  where
    r : Rect
    r = (s.wnd w).position

-- for (p = windowlisttail; p != -1; p = windowlist[p].prev), up to the first hit
unfoldable pub find_hit : ℕ → Index → Wm → Index
find_hit zero p s = none
find_hit (suc r) none s = none
find_hit (suc r) (some w) s =
    let rest = find_hit r (s.links.prev w) s in if hit s w then some w else rest

-- The window that the mouse is over comes on top, or else the desktop.
unfoldable pub focus_hit : Wm → Wm
focus_hit s = elim (find_hit rounds s.links.tail s) [
  | none ↦ record s { links = focus_window s.links s.desktop }
  | some w ↦ record s { links = focus_window s.links (some w) }
]

-- A press on the title bar of the window on top.
unfoldable pub press_title : Wm → Wm
press_title s =
    if is_in_rect r.xmin (r.ymin -ℤ pos title_height) r.xmax r.ymin s.mouse
    then if ltb_ℤ r.xmax (s.mouse.x +ℤ pos 30)
      then send s s.links.tail (record { msg_type = MessageType.window_close; params = [] })
      else if ltb_ℤ r.xmax (s.mouse.x +ℤ pos 60) && leb_ℤ (s.mouse.x +ℤ pos 30) r.xmax
      then send s s.links.tail (record { msg_type = MessageType.window_minimize; params = [] })
      else record s { clicked_on_title = true }
    else s
  where
    r : Rect
    r = position_of s s.links.tail

-- A press on its content. The message's parameters are relative to the popup, as the code has it.
unfoldable pub press_content : Wm → ℕ → Wm
press_content s msg_type =
    if is_in_rect r.xmin r.ymin r.xmax r.ymax s.mouse
    then send (record s { clicked_on_content = true }) s.links.tail
        (record { msg_type = msg_type; params = relative s.mouse s.popup.position })
    else s
  where
    r : Rect
    r = position_of s s.links.tail

unfoldable pub on_mouse_down : Wm → Message → Wm
on_mouse_down s msg =
    if not (is s.popup_caller none)
      && is_in_rect s.popup.position.xmin s.popup.position.ymin s.popup.position.xmax
          s.popup.position.ymax s.mouse
    then record s { clicked_on_popup = true }
    else press_content
        (press_title
          (focus_hit (send_popup s (record { msg_type = MessageType.window_close; params = [] }))))
        msg.msg_type

-- The width of a window's button in the dock.
abbrev pub bar_width : Wm → ℕ → ℕ
bar_width s count =
    min ((s.screen_width - start_icon_width - show_desktop_icon_width) / (count + 1))
      dock_program_normal_width

-- The first loop of `handleDesktopDockClick`: a click on a window's button shows or focuses it.
unfoldable pub press_button : ℕ → Index → ℕ → ℕ → ℤ → Wm → Wm
press_button zero p start width mx s = s
press_button (suc r) none start width mx s = s
press_button (suc r) (some w) start width mx s =
    let desktop_next = press_button r (s.links.next w) start width mx s in
    let next = press_button r (s.links.next w) (start + width) width mx s in
    if is (some w) s.desktop
    then desktop_next
    else if ltb_ℤ (pos (start + 1)) mx && ltb_ℤ mx (pos (start + width))
    then if (s.wnd w).minimized
      then send s (some w) (record { msg_type = MessageType.window_maximize; params = [] })
      else record s { links = focus_window s.links (some w) }
    else next

-- The second loop: every window that is shown is told to hide.
unfoldable pub minimize_all : ℕ → Index → Wm → Wm
minimize_all zero p s = s
minimize_all (suc r) none s = s
minimize_all (suc r) (some w) s = minimize_all r (s.links.next w) (
    if not (is (some w) s.desktop) && not (s.wnd w).minimized
    then send s (some w) (record { msg_type = MessageType.window_minimize; params = [] })
    else s)

-- The window count is 0 where the walk does not end, which it does in a linked list.
unfoldable pub handle_desktop_dock_click : Wm → ℤ → Message → Wm
handle_desktop_dock_click s mx msg =
    let count = elim (get_window_count rounds s.desktop s.links) as (λ n. ℕ) [
      | none ↦ 0
      | some n ↦ n
    ] in
    let s1 =
      if ltb 0 count
      then press_button rounds s.links.head (start_icon_width + 5) (bar_width s count) mx s
      else s in
    let s2 =
      if leb_ℤ (sub_ℕ s.screen_width show_desktop_icon_width) mx
      then minimize_all rounds s1.links.head s1
      else s1 in
    if (leb_ℤ mx (pos start_icon_width) && (msg.msg_type == MessageType.mouse_left_click))
      && not (is s2.popup_caller s2.desktop)
    then send s2 s2.desktop
        (record { msg_type = msg.msg_type; params = s2.mouse.x ∷ s2.mouse.y ∷ [] })
    else s2

-- The case `M_MOUSE_UP`, which the click cases may fall through to.
unfoldable pub on_mouse_up : Wm → Message → Wm
on_mouse_up s msg =
    let s1 = record s { clicked_on_popup = false } in
    let s2 =
      if s1.clicked_on_content
      then tell_top (record s1 { clicked_on_content = false }) msg.msg_type
      else s1 in
    record s2 { clicked_on_title = false; mouse_shape = 0 }

-- The three click cases. A click on a window's content leaves by `break`; the others fall through.
unfoldable pub on_click : Wm → Message → Wm
on_click s msg =
    if s.clicked_on_popup
    then on_mouse_up
        (send_popup (record s { clicked_on_popup = false })
          (record { msg_type = msg.msg_type; params = relative s.mouse s.popup.position }))
        msg
    else if s.clicked_on_content
    then if is s.links.tail s.desktop
        && (leb_ℤ (sub_ℕ s.screen_height dock_height) s.mouse.y
            && leb_ℤ s.mouse.y (pos s.screen_height))
      then on_mouse_up
          (handle_desktop_dock_click (record s { clicked_on_content = false }) s.mouse.x msg) msg
      else tell_top (record s { clicked_on_content = false }) msg.msg_type
    else on_mouse_up s msg

unfoldable pub wm_handle_message : Wm → Message → Wm
wm_handle_message s msg =
    if t == MessageType.mouse_move
    then on_mouse_move s msg
    else if t == MessageType.mouse_down
    then on_mouse_down s msg
    else if t == MessageType.mouse_left_click
        || t == MessageType.mouse_right_click
        || t == MessageType.mouse_dbclick
    then on_click s msg
    else if t == MessageType.mouse_up
    then on_mouse_up s msg
    else if t == MessageType.key_down || t == MessageType.key_up
    then send s s.links.tail msg
    else s
  where
    t : ℕ
    t = msg.msg_type
