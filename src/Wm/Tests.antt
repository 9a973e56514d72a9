-- ===== src/Wm/Tests.antt =====
-- Runs of the window list, the message ring and the message handler.
use northos.Prelude.{
  ◌+◌, ◌*◌, ◌<◌, ◌≤◌, ◌⊎◌, ℕ, ◌≡◌, refl, ◌∷◌, [], List, true, false, none, some, replicate,
  length-replicate, arith,
}
use mathlib.Core.List.{Perm, mem-cons_self}
use northos.Prelude.Int.{pos, ◌-ℤ◌}
use northos.Wm.MessageType
use northos.Wm.MessageQueue.{MsgBuf, init_message_queue, dispatch_message, get_message}
use northos.Wm.MessageQueue.Fifo.{
  IsValid, pending, enqueue, dequeue, init_message_queue-IsValid, dispatch_message-IsValid,
  dispatch_message-enqueue, get_message-dequeue,
}
use northos.Wm.WindowList.{
  Links, is_free, init_links, link_new, focus_window, close_links, get_window_count,
  find_next_available_window_id, find_from, add_to_window_list,
}
use northos.Wm.WindowList.Order.{IsOrder, init_links-IsOrder, focus_window-IsOrder}
use northos.Wm.WindowList.Lifecycle.{link_new-IsOrder, close_links-IsOrder, close_bottom_hangs}
use northos.Wm.State.{Rect, Message, Window, Wm}
use northos.Wm.Handler.{wm_handle_message, bar_width}
use northos.Wm.Screen.{shows, update_screen, button_width}
use northos.Wm.Screen.Bounds.{update_screen_lem}
use northos.Wm.Screen.Dock.{narrow_buttons}
use northos.Gui.{Pixels}
use northos.Gui.Pictures.{Font}
use northos.Wm.Handler.Members.{IsWm}
use northos.Wm.Handler.Invariant.{wm_handle_message-IsWm}
use northos.Wm.Handler.Mouse.{Dragging, drag_keeps_grip}

-- Three windows, opened one after the other.
abbrev one : Links
one = link_new init_links 0

abbrev two : Links
two = link_new one 1

abbrev three : Links
three = link_new two 2

one-IsOrder : IsOrder one (0 ∷ [])
unfolding find_next_available_window_id find_from init_links
one-IsOrder = (link_new-IsOrder init_links [] init_links-IsOrder refl).2

two-IsOrder : IsOrder two (0 ∷ 1 ∷ [])
unfolding find_next_available_window_id find_from init_links link_new add_to_window_list
two-IsOrder = (link_new-IsOrder one (0 ∷ []) one-IsOrder refl).2

three-IsOrder : IsOrder three (0 ∷ 1 ∷ 2 ∷ [])
unfolding find_next_available_window_id find_from init_links link_new add_to_window_list
three-IsOrder = (link_new-IsOrder two (0 ∷ 1 ∷ []) two-IsOrder refl).2

focus_window-IsOrder_example : IsOrder (focus_window three (some 1)) (0 ∷ 2 ∷ 1 ∷ [])
focus_window-IsOrder_example = focus_window-IsOrder three (0 ∷ []) (2 ∷ []) 1 three-IsOrder

close_links-IsOrder_example :
    IsOrder (close_links three 1) (0 ∷ 2 ∷ []) × (is_free (close_links three 1) 1 ≡ true)
close_links-IsOrder_example = close_links-IsOrder three 0 [] (2 ∷ []) 1 three-IsOrder

close_bottom_hangs_example : get_window_count 51 (some 0) (close_links three 0) ≡ none
close_bottom_hangs_example = close_bottom_hangs three 0 (1 ∷ 2 ∷ []) (some 0) 51 three-IsOrder

-- An empty ring, and one with a message.
abbrev blank : Message
blank = record { msg_type = 0; params = [] }

abbrev empty_buf : MsgBuf Message
empty_buf = init_message_queue (record { slots = replicate 50 blank; front = 7; rear = 9; cnt = 2 })

empty_buf-IsValid : IsValid empty_buf
empty_buf-IsValid = (init_message_queue-IsValid _ blank (length-replicate {A = Message} 50 blank)).0

abbrev sent_one : MsgBuf Message
sent_one = (dispatch_message empty_buf blank).0

sent_one-IsValid : IsValid sent_one
sent_one-IsValid = dispatch_message-IsValid empty_buf blank empty_buf-IsValid

dispatch_message-enqueue_example :
    let (b', sent) = dispatch_message sent_one blank in
    (pending b' blank, sent) ≡ enqueue (pending sent_one blank) blank
dispatch_message-enqueue_example = dispatch_message-enqueue sent_one blank blank sent_one-IsValid

get_message-dequeue_run :
    let (b', msg) = get_message sent_one blank in
    (pending b' blank, msg) ≡ dequeue (pending sent_one blank)
get_message-dequeue_run = get_message-dequeue sent_one blank sent_one-IsValid

abbrev small : Rect
small = record { xmin = pos 100; xmax = pos 300; ymin = pos 100; ymax = pos 200 }

abbrev some_window : Window
some_window = record {
  position = small;
  msg_buf = empty_buf;
  title = [];
  minimized = false;
  has_title_bar = true;
  owner = 3;
}

-- A desktop and two windows, with the title bar of the one on top held.
abbrev desk : Wm
desk = record {
  links = three;
  wnd = λ w. some_window;
  desktop = some 0;
  popup = some_window;
  popup_caller = none;
  mouse_shape = 0;
  clicked_on_title = true;
  clicked_on_content = true;
  clicked_on_popup = false;
  mouse = record { x = pos 150; y = pos 100 };
  last_mouse = record { x = pos 150; y = pos 100 };
  screen_width = 1024;
  screen_height = 768;
}

desk-IsWm : IsWm (0 ∷ 1 ∷ 2 ∷ []) desk
desk-IsWm = record {
  order = three-IsOrder;
  desktop_in = mem-cons_self;
  mouse_held = (omega arith, omega arith, omega arith, omega arith);
  queues = λ w. empty_buf-IsValid;
  popup_queue = empty_buf-IsValid;
}

abbrev move_by_800 : Message
move_by_800 = record { msg_type = MessageType.mouse_move; params = pos 800 ∷ pos 0 ∷ [] }

abbrev click : Message
click = record { msg_type = MessageType.mouse_left_click; params = [] }

wm_handle_message-IsWm_example :
    (ys : List ℕ) × Perm ys (0 ∷ 1 ∷ 2 ∷ []) × IsWm ys (wm_handle_message desk click)
wm_handle_message-IsWm_example = wm_handle_message-IsWm (0 ∷ 1 ∷ 2 ∷ []) desk click desk-IsWm

desk-Dragging : Dragging desk 2
unfolding link_new add_to_window_list
desk-Dragging = record { pressed = refl; on_top = refl; barred = refl }

abbrev move_a_little : Message
move_a_little = record { msg_type = MessageType.mouse_move; params = pos 12 ∷ pos 5 ∷ [] }

drag_keeps_grip_run :
    let s' = wm_handle_message desk move_a_little in
    let r' = (s'.wnd 2).position in
    (s'.mouse.x -ℤ r'.xmin ≡ pos 150 -ℤ pos 100)
    × (s'.mouse.y -ℤ r'.ymin ≡ pos 100 -ℤ pos 100)
    × (r'.xmax -ℤ r'.xmin ≡ pos 300 -ℤ pos 100)
    × (r'.ymax -ℤ r'.ymin ≡ pos 200 -ℤ pos 100)
drag_keeps_grip_run = drag_keeps_grip desk 2 move_a_little desk-Dragging refl

-- A font of one row and one column, with every shape filled, and blank icons.
abbrev block_font : Font
block_font = record { number = 96; rows = 1; columns = 1; glyph = λ ch i j. 255 }

abbrev no_icons : ℕ → ℕ → ℕ
no_icons icon i = 0

abbrev black : Pixels
black a = record { blue = 0; green = 0; red = 0 }

abbrev resting : Wm
resting = record desk { popup_caller = none }

update_screen_lem_example :
    (m1 : Pixels) × (update_screen block_font no_icons
        (λ v. 9000000)
        9500000
        resting
        50
        3
        12
        30
        black
      ≡ shows m1)
    × ((a : ℕ) → (a < 50) ⊎ (50 + 2 * (1024 * 768) ≤ a) → m1 a ≡ black a)
    × ((k : ℕ) → k < 1024 * 768 → m1 (50 + k) ≡ m1 (50 + 1024 * 768 + k))
update_screen_lem_example =
    update_screen_lem block_font no_icons (λ v. 9000000) 9500000 50 12 30 0 (0 ∷ 1 ∷ 2 ∷ []) resting
      black refl three-IsOrder (omega arith)

-- Five windows on a screen of 800 columns: 104 and 119 columns.
narrow_buttons_example :
    (drawn : ℕ) × (button_width block_font no_icons
        (λ v. 0)
        0
        (record desk { screen_width = 800 })
        5
      ≡ pos drawn)
    × (drawn < bar_width (record desk { screen_width = 800 }) 5)
narrow_buttons_example =
    narrow_buttons block_font no_icons (λ v. 0) 0 5 (record desk { screen_width = 800 })
      (omega arith) (omega arith) (omega arith)
