-- ===== src/Wm/Handler/Invariant.antt =====
-- What every message leaves as it should be: the window list keeps its windows, the queues stay
-- valid and the mouse stays on the screen.
use northos.Prelude.{
  ℕ, zero, suc, ◌+◌, ◌≡◌, refl, subst, Bool, true, false, not, ◌&&◌, ◌||◌, List, [], ◌∷◌, none,
  some, ltb, ◌==◌, if◌then◌else◌, update, arith,
}
use mathlib.Core.List.{Perm}
use mathlib.Core.List.Perm
use northos.Prelude.Int.{ℤ, pos, sub_ℕ, ◌+ℤ◌, ◌-ℤ◌, ◌≤ℤ◌, ltb_ℤ, leb_ℤ}
use northos.Wm.MessageType
use northos.Wm.WindowList.{Index, is, get_window_count}
use northos.Wm.WindowList.Order.{IsOrder}
use northos.Wm.State.{
  start_icon_width, show_desktop_icon_width, dock_height, Message, Wm, move_rect, position_of,
  relative,
}
use northos.Wm.Handler.{
  rounds, param, clamp, move_accepted, move_mouse, move_focus_window, tell_top, on_mouse_move, hit,
  find_hit, focus_hit, press_title, press_content, on_mouse_down, bar_width, press_button,
  minimize_all, handle_desktop_dock_click, on_mouse_up, on_click, wm_handle_message,
}
use northos.Wm.Handler.Members.{
  In, IsWm, Holds, top-In, bottom-In, prev-In, next-In, send-Holds, send_popup-Holds, flags-Holds,
  focus-Holds, queue_update,
}

if_keeps {ℓ} :
    {A : Type 0} (P : A → Type ℓ) (b : Bool) (x y : A) → P x → P y → P (if b then x else y)
if_keeps P true x y h k = h
if_keeps P false x y h k = k

clamp-bounds : (hi : ℕ) (v : ℤ) → (pos 0 ≤ℤ clamp hi v) × (clamp hi v ≤ℤ pos hi)
unfolding clamp
clamp-bounds hi v = ground arith

move_mouse-Holds : (ws : List ℕ) (s : Wm) (msg : Message) → Holds ws s → Holds ws (move_mouse s msg)
unfolding move_mouse
move_mouse-Holds ws s msg (xs, p, v) = (
  xs,
  p,
  record {
    order = v.order;
    desktop_in = v.desktop_in;
    mouse_held =
        let go = move_accepted s msg in
        let (a, b) =
          clamp-bounds s.screen_width (if go then s.mouse.x +ℤ param msg 0 else s.mouse.x) in
        let (c, d) =
          clamp-bounds s.screen_height (if go then s.mouse.y -ℤ param msg 1 else s.mouse.y) in
        (a, b, c, d);
    queues = v.queues;
    popup_queue = v.popup_queue;
  },
)

move_focus_window-Holds :
    (ws : List ℕ) (s : Wm) (dx dy : ℤ) → Holds ws s → Holds ws (move_focus_window s dx dy)
unfolding move_focus_window
move_focus_window-Holds ws s dx dy (xs, p, v) = go s.links.tail refl
  where
    go : (t : Index) → s.links.tail ≡ t → Holds ws (move_focus_window s dx dy)
    go none e = rw (e, move_focus_window) (xs, p, v)
    go (some w) e =
        let moved = record (s.wnd w) { position = move_rect (s.wnd w).position dx dy } in
        rw (e, move_focus_window)
          (if_keeps (Holds ws) (s.wnd w).has_title_bar (record s { wnd = update s.wnd w moved }) s
            (
              xs,
              p,
              record {
                order = v.order;
                desktop_in = v.desktop_in;
                mouse_held = v.mouse_held;
                queues = λ k. queue_update s.wnd w k moved (v.queues w) v.queues;
                popup_queue = v.popup_queue;
              },
            )
            (xs, p, v))

tell_top-Holds : (ws : List ℕ) (s : Wm) (t : ℕ) → Holds ws s → Holds ws (tell_top s t)
unfolding tell_top
tell_top-Holds ws s t h = send-Holds ws s s.links.tail _ h

find_hit-In :
    (r : ℕ) (p : Index) (xs : List ℕ) (s : Wm)
    → IsOrder s.links xs
    → In p xs
    → In (find_hit r p s) xs
unfolding find_hit
find_hit-In zero p xs s v h = tt
find_hit-In (suc r) none xs s v h = tt
find_hit-In (suc r) (some w) xs s v h =
    if_keeps (λ q. In q xs) (hit s w) (some w) (find_hit r (s.links.prev w) s) h
      (find_hit-In r (s.links.prev w) xs s v (prev-In s.links xs w v h))

focus_hit-Holds : (ws : List ℕ) (s : Wm) → Holds ws s → Holds ws (focus_hit s)
unfolding focus_hit
focus_hit-Holds ws s (xs, p, v) = go (find_hit rounds s.links.tail s) refl
  where
    go : (q : Index) → find_hit rounds s.links.tail s ≡ q → Holds ws (focus_hit s)
    go none e = rw (e, focus_hit) (focus-Holds ws xs s s.desktop p v v.desktop_in)
    go (some w) e =
        rw (e, focus_hit)
          (focus-Holds ws xs s (some w) p v (
            subst (λ q. In q xs) e
              (find_hit-In rounds s.links.tail xs s v.order (rw v.order.top (top-In xs)))))

press_title-Holds : (ws : List ℕ) (s : Wm) → Holds ws s → Holds ws (press_title s)
unfolding press_title
press_title-Holds ws s h =
    let r = position_of s s.links.tail in
    let close : Message = record { msg_type = MessageType.window_close; params = [] } in
    let hide : Message = record { msg_type = MessageType.window_minimize; params = [] } in
    if_keeps (Holds ws) _ _ _
      (if_keeps (Holds ws) (ltb_ℤ r.xmax (s.mouse.x +ℤ pos 30)) _ _
        (send-Holds ws s s.links.tail close h)
        (if_keeps (Holds ws)
          (ltb_ℤ r.xmax (s.mouse.x +ℤ pos 60) && leb_ℤ (s.mouse.x +ℤ pos 30) r.xmax) _ _
          (send-Holds ws s s.links.tail hide h)
          (flags-Holds ws s true s.clicked_on_content s.clicked_on_popup s.mouse_shape h)))
      h

press_content-Holds : (ws : List ℕ) (s : Wm) (t : ℕ) → Holds ws s → Holds ws (press_content s t)
unfolding press_content
press_content-Holds ws s t h =
    if_keeps (Holds ws) _ _ _
      (send-Holds ws (record s { clicked_on_content = true }) s.links.tail _
        (flags-Holds ws s s.clicked_on_title true s.clicked_on_popup s.mouse_shape h))
      h

on_mouse_down-Holds :
    (ws : List ℕ) (s : Wm) (msg : Message) → Holds ws s → Holds ws (on_mouse_down s msg)
unfolding on_mouse_down
on_mouse_down-Holds ws s msg h =
    if_keeps (Holds ws) _ _ _
      (flags-Holds ws s s.clicked_on_title s.clicked_on_content true s.mouse_shape h)
      (press_content-Holds ws _ msg.msg_type
        (press_title-Holds ws _ (focus_hit-Holds ws _ (send_popup-Holds ws s _ h))))

on_mouse_move-Holds :
    (ws : List ℕ) (s : Wm) (msg : Message) → Holds ws s → Holds ws (on_mouse_move s msg)
unfolding on_mouse_move
on_mouse_move-Holds ws s msg h =
    let s' = move_mouse s msg in
    let h' = move_mouse-Holds ws s msg h in
    if_keeps (Holds ws) s'.clicked_on_title _ _
      (move_focus_window-Holds ws _ _ _
        (flags-Holds ws s' s'.clicked_on_title s'.clicked_on_content s'.clicked_on_popup 1 h'))
      (if_keeps (Holds ws) s'.clicked_on_content _ _ (tell_top-Holds ws s' msg.msg_type h') h')

press_button-Holds :
    (r start width : ℕ) (mx : ℤ) (p : Index) (ws xs : List ℕ) (s : Wm)
    → Perm xs ws
    → IsWm xs s
    → In p xs
    → Holds ws (press_button r p start width mx s)
unfolding press_button
press_button-Holds zero start width mx p ws xs s q v h = (xs, q, v)
press_button-Holds (suc r) start width mx none ws xs s q v h = (xs, q, v)
press_button-Holds (suc r) start width mx (some w) ws xs s q v h =
    let next = next-In s.links xs w v.order h in
    let show : Message = record { msg_type = MessageType.window_maximize; params = [] } in
    if_keeps (Holds ws) (is (some w) s.desktop) _ _
      (press_button-Holds r start width mx (s.links.next w) ws xs s q v next)
      (if_keeps (Holds ws) (ltb_ℤ (pos (start + 1)) mx && ltb_ℤ mx (pos (start + width))) _ _
        (if_keeps (Holds ws) (s.wnd w).minimized _ _ (send-Holds ws s (some w) show (xs, q, v))
          (focus-Holds ws xs s (some w) q v h))
        (press_button-Holds r (start + width) width mx (s.links.next w) ws xs s q v next))

minimize_all-Holds :
    (r : ℕ) (p : Index) (ws : List ℕ) (s : Wm) → Holds ws s → Holds ws (minimize_all r p s)
unfolding minimize_all
minimize_all-Holds zero p ws s h = h
minimize_all-Holds (suc r) none ws s h = h
minimize_all-Holds (suc r) (some w) ws s h =
    let hide : Message = record { msg_type = MessageType.window_minimize; params = [] } in
    minimize_all-Holds r (s.links.next w) ws _ (
      if_keeps (Holds ws) (not (is (some w) s.desktop) && not (s.wnd w).minimized) _ _
        (send-Holds ws s (some w) hide h) h)

dock-Holds :
    (ws : List ℕ) (s : Wm) (mx : ℤ) (msg : Message)
    → Holds ws s
    → Holds ws (handle_desktop_dock_click s mx msg)
unfolding handle_desktop_dock_click
dock-Holds ws s mx msg (xs, q, v) =
    let count = elim (get_window_count rounds s.desktop s.links) as (λ n. ℕ) [
      | none ↦ 0
      | some n ↦ n
    ] in
    let pressed =
      press_button rounds s.links.head (start_icon_width + 5) (bar_width s count) mx s in
    let h1 =
      if_keeps (Holds ws) (ltb 0 count) pressed s
        (press_button-Holds rounds (start_icon_width + 5) (bar_width s count) mx s.links.head ws xs
          s q v (rw v.order.bottom (bottom-In xs)))
        (xs, q, v) in
    let s1 = if ltb 0 count then pressed else s in
    let all_hidden = minimize_all rounds s1.links.head s1 in
    let wide = leb_ℤ (sub_ℕ s.screen_width show_desktop_icon_width) mx in
    let h2 =
      if_keeps (Holds ws) wide all_hidden s1 (minimize_all-Holds rounds s1.links.head ws s1 h1)
        h1 in
    let s2 = if wide then all_hidden else s1 in
    if_keeps (Holds ws)
      ((leb_ℤ mx (pos start_icon_width) && (msg.msg_type == MessageType.mouse_left_click))
        && not (is s2.popup_caller s2.desktop))
      _ _
      (send-Holds ws s2 s2.desktop
        (record { msg_type = msg.msg_type; params = s2.mouse.x ∷ s2.mouse.y ∷ [] }) h2)
      h2

on_mouse_up-Holds :
    (ws : List ℕ) (s : Wm) (msg : Message) → Holds ws s → Holds ws (on_mouse_up s msg)
unfolding on_mouse_up
on_mouse_up-Holds ws s msg h =
    let s1 = record s { clicked_on_popup = false } in
    let h1 = flags-Holds ws s s.clicked_on_title s.clicked_on_content false s.mouse_shape h in
    let told = tell_top (record s1 { clicked_on_content = false }) msg.msg_type in
    let s2 = if s1.clicked_on_content then told else s1 in
    flags-Holds ws s2 false s2.clicked_on_content s2.clicked_on_popup 0 (
      if_keeps (Holds ws) s1.clicked_on_content told s1
        (tell_top-Holds ws _ msg.msg_type
          (flags-Holds ws s1 s1.clicked_on_title false false s1.mouse_shape h1))
        h1)

on_click-Holds : (ws : List ℕ) (s : Wm) (msg : Message) → Holds ws s → Holds ws (on_click s msg)
unfolding on_click
on_click-Holds ws s msg h =
    let off = flags-Holds ws s s.clicked_on_title false s.clicked_on_popup s.mouse_shape h in
    let told : Message = record {
      msg_type = msg.msg_type;
      params = relative s.mouse s.popup.position;
    } in
    if_keeps (Holds ws) s.clicked_on_popup _ _
      (on_mouse_up-Holds ws _ msg (
        send_popup-Holds ws (record s { clicked_on_popup = false }) told
          (flags-Holds ws s s.clicked_on_title s.clicked_on_content false s.mouse_shape h)))
      (if_keeps (Holds ws) s.clicked_on_content _ _
        (if_keeps (Holds ws)
          (is s.links.tail s.desktop
            && (leb_ℤ (sub_ℕ s.screen_height dock_height) s.mouse.y
                && leb_ℤ s.mouse.y (pos s.screen_height)))
          _ _ (on_mouse_up-Holds ws _ msg (dock-Holds ws _ s.mouse.x msg off))
          (tell_top-Holds ws _ msg.msg_type off))
        (on_mouse_up-Holds ws s msg h))

-- Where the window list is linked and holds the desktop, every message queue is valid and the
-- mouse is at a column from 0 to the screen's width and a row from 0 to its height, both included,
-- `wmHandleMessage` of any message leaves it so, with the same windows in the list in some order.
pub wm_handle_message-IsWm :
    (xs : List ℕ) (s : Wm) (msg : Message)
    → IsWm xs s
    → (ys : List ℕ) × Perm ys xs × IsWm ys (wm_handle_message s msg)
unfolding wm_handle_message
wm_handle_message-IsWm xs s msg v =
    let h : Holds xs s = (xs, Perm.refl xs, v) in
    let t = msg.msg_type in
    if_keeps (Holds xs) (t == MessageType.mouse_move) _ _ (on_mouse_move-Holds xs s msg h) (
      if_keeps (Holds xs) (t == MessageType.mouse_down) _ _ (on_mouse_down-Holds xs s msg h) (
        if_keeps (Holds xs)
          (t == MessageType.mouse_left_click
            || t == MessageType.mouse_right_click
            || t == MessageType.mouse_dbclick)
          _ _ (on_click-Holds xs s msg h)
          (if_keeps (Holds xs) (t == MessageType.mouse_up) _ _ (on_mouse_up-Holds xs s msg h) (
            if_keeps (Holds xs) (t == MessageType.key_down || t == MessageType.key_up) _ _
              (send-Holds xs s s.links.tail msg h) h))))
