-- ===== src/Wm/Handler/Members.antt =====
-- The windows in the list of `Wm`, and what the sends and the focus changes of the handler keep.
use northos.Prelude.{
  ℕ, ◌≡◌, sym, subst, inl, inr, Bool, Bool-cases, List, [], ◌∷◌, ◌++◌, none, some, ◌==◌, update,
}
use mathlib.Core.List.{
  Mem, Perm, perm_middle, mem-cons_self, mem-cons_of_mem, mem-append_left, mem-append_right,
  not-mem-nil, mem-cons, append-nil,
}
use mathlib.Core.List.Perm
use mathlib.Core.Logic.Or
use mathlib.Core.HLevel.{⊥_prop}
use northos.Prelude.Int.{pos, ◌≤ℤ◌}
use northos.Wm.MessageQueue.{dispatch_message}
use northos.Wm.MessageQueue.Fifo.{IsValid, dispatch_message-IsValid}
use northos.Wm.WindowList.{Index, Links, focus_window}
use northos.Wm.WindowList.Chain.{first, last, NotIn}
use northos.Wm.WindowList.Order.{IsOrder, neighbours, focus_window-IsOrder}
use northos.Wm.WindowList.Lifecycle.{NotIn-or-split}
use northos.Wm.State.{Message, Window, Wm, send, send_popup}

-- The position of the mouse goes from 0 to the width and from 0 to the height of the screen: `clamp`
-- lets the width and the height through, which are one past the last pixel.
abbrev pub MouseHeld : Wm → Type 0
MouseHeld s =
    (pos 0 ≤ℤ s.mouse.x)
    × (s.mouse.x ≤ℤ pos s.screen_width)
    × (pos 0 ≤ℤ s.mouse.y)
    × (s.mouse.y ≤ℤ pos s.screen_height)

-- -1, or the number of a window in the list.
abbrev pub In : Index → List ℕ → Type 0
In none xs = Unit {0}
In (some w) xs = Mem w xs

-- The state, with the windows of its list from the bottom to the top.
pub record IsWm (xs : List ℕ) (s : Wm) : Type 0 where
  pub order : IsOrder s.links xs
  pub desktop_in : In s.desktop xs
  pub mouse_held : MouseHeld s
  pub queues : (w : ℕ) → IsValid (s.wnd w).msg_buf
  pub popup_queue : IsValid s.popup.msg_buf

-- The state is as it should be, over some order of the windows `ws`.
abbrev pub Holds : List ℕ → Wm → Type 0
Holds ws s = (xs : List ℕ) × Perm xs ws × IsWm xs s

not-NotIn : (w : ℕ) (xs : List ℕ) → Mem w xs → NotIn w xs → ⊥
not-NotIn w [] m n = not-mem-nil m
not-NotIn w (x ∷ xs) m n =
    Or.elim ⊥_prop (mem-cons.0 m) (λ e. n.0 (sym e)) (λ m'. not-NotIn w xs m' n.1)

split_at : (w : ℕ) (xs : List ℕ) → Mem w xs → (ls : List ℕ) × (rs : List ℕ) × (xs ≡ ls ++ w ∷ rs)
split_at w xs m = elim (NotIn-or-split w xs) [ inl n ↦ absurd (not-NotIn w xs m n) | inr r ↦ r ]

In-cons : (p : Index) (x : ℕ) (xs : List ℕ) → In p xs → In p (x ∷ xs)
In-cons none x xs h = tt
In-cons (some w) x xs h = mem-cons_of_mem x h

In-append_left : (p : Index) (xs ys : List ℕ) → In p xs → In p (xs ++ ys)
In-append_left none xs ys h = tt
In-append_left (some w) xs ys h = mem-append_left ys h

In-append_right : (p : Index) (xs ys : List ℕ) → In p ys → In p (xs ++ ys)
In-append_right none xs ys h = tt
In-append_right (some w) xs ys h = mem-append_right xs h

In-perm : (p : Index) {xs ys : List ℕ} → Perm xs ys → In p xs → In p ys
In-perm none q h = tt
In-perm (some w) q h = (Perm.mem_iff q).0 h

last-In : (x : ℕ) (xs : List ℕ) → In (last (some x) xs) (x ∷ xs)
last-In x [] = mem-cons_self
last-In x (y ∷ xs) = In-cons (last (some y) xs) x (y ∷ xs) (last-In y xs)

pub top-In : (xs : List ℕ) → In (last none xs) xs
top-In [] = tt
top-In (x ∷ xs) = last-In x xs

pub bottom-In : (xs : List ℕ) → In (first xs none) xs
bottom-In [] = tt
bottom-In (x ∷ xs) = mem-cons_self

-- The links of a window in the list lead to windows in it.
pub prev-In : (l : Links) (xs : List ℕ) (w : ℕ) → IsOrder l xs → Mem w xs → In (l.prev w) xs
prev-In l xs w v m =
    let (ls, rs, e) = split_at w xs m in
    let (p, n) = neighbours l ls rs w (subst (IsOrder l) e v) in
    rw (p, e) (In-append_left (last none ls) ls (w ∷ rs) (top-In ls))

pub next-In : (l : Links) (xs : List ℕ) (w : ℕ) → IsOrder l xs → Mem w xs → In (l.next w) xs
next-In l xs w v m =
    let (ls, rs, e) = split_at w xs m in
    let (p, n) = neighbours l ls rs w (subst (IsOrder l) e v) in
    rw (n, e)
      (In-append_right (first rs none) ls (w ∷ rs) (In-cons (first rs none) w rs (bottom-In rs)))

to_top-perm : (ls rs : List ℕ) (w : ℕ) → Perm (ls ++ (rs ++ w ∷ [])) (ls ++ w ∷ rs)
to_top-perm ls rs w = Perm.append_left ls (rw append-nil at (perm_middle {a = w} rs []))

pub queue_update :
    (f : ℕ → Window) (w k : ℕ) (win : Window)
    → IsValid win.msg_buf
    → ((j : ℕ) → IsValid (f j).msg_buf)
    → IsValid (update f w win k).msg_buf
queue_update f w k win h v = elim (Bool-cases (w == k)) [ inl e ↦ rw e h | inr ne ↦ rw ne (v k) ]

pub send-Holds :
    (ws : List ℕ) (s : Wm) (p : Index) (msg : Message) → Holds ws s → Holds ws (send s p msg)
unfolding send
send-Holds ws s none msg h = h
send-Holds ws s (some w) msg (xs, p, v) = (
  xs,
  p,
  record {
    order = v.order;
    desktop_in = v.desktop_in;
    mouse_held = v.mouse_held;
    queues = λ k.
        queue_update s.wnd w k
          (record (s.wnd w) { msg_buf = (dispatch_message (s.wnd w).msg_buf msg).0 })
          (dispatch_message-IsValid (s.wnd w).msg_buf msg (v.queues w)) v.queues;
    popup_queue = v.popup_queue;
  },
)

pub send_popup-Holds :
    (ws : List ℕ) (s : Wm) (msg : Message) → Holds ws s → Holds ws (send_popup s msg)
unfolding send_popup
send_popup-Holds ws s msg (xs, p, v) = (
  xs,
  p,
  record {
    order = v.order;
    desktop_in = v.desktop_in;
    mouse_held = v.mouse_held;
    queues = v.queues;
    popup_queue = dispatch_message-IsValid s.popup.msg_buf msg v.popup_queue;
  },
)

-- The same state with other flags.
pub flags-Holds :
    (ws : List ℕ) (s : Wm) (t c p : Bool) (shape : ℕ)
    → Holds ws s
    → Holds ws (record s {
      clicked_on_title = t;
      clicked_on_content = c;
      clicked_on_popup = p;
      mouse_shape = shape;
    })
flags-Holds ws s t c q shape (xs, p, v) = (
  xs,
  p,
  record {
    order = v.order;
    desktop_in = v.desktop_in;
    mouse_held = v.mouse_held;
    queues = v.queues;
    popup_queue = v.popup_queue;
  },
)

-- Focusing the desktop, a window in the list, or nothing.
pub focus-Holds :
    (ws xs : List ℕ) (s : Wm) (p : Index)
    → Perm xs ws
    → IsWm xs s
    → In p xs
    → Holds ws (record s { links = focus_window s.links p })
unfolding focus_window
focus-Holds ws xs s none q v h = (
  xs,
  q,
  record {
    order = v.order;
    desktop_in = v.desktop_in;
    mouse_held = v.mouse_held;
    queues = v.queues;
    popup_queue = v.popup_queue;
  },
)
focus-Holds ws xs s (some w) q v h =
    let (ls, rs, e) = split_at w xs h in
    let back = to_top-perm ls rs w in
    let same : Perm xs (ls ++ (rs ++ w ∷ [])) = rw e (Perm.symm back) in
    (
      ls ++ (rs ++ w ∷ []),
      Perm.trans (Perm.symm same) q,
      record {
        order = focus_window-IsOrder s.links ls rs w (subst (IsOrder s.links) e v.order);
        desktop_in = In-perm s.desktop same v.desktop_in;
        mouse_held = v.mouse_held;
        queues = v.queues;
        popup_queue = v.popup_queue;
      },
    )
