-- ===== src/Wm/Screen/Bounds.antt =====
-- `updateScreen` and the pixels that it changes.
use northos.Prelude.{
  ==_iff, ℕ, zero, suc, ◌+◌, ◌*◌, ◌<◌, ◌≤◌, ◌≡◌, refl, ap, ◌∙◌, sym, ◌⊎◌, not, ◌&&◌, none, some,
  ltb, Option, List, [], ◌∷◌, length, if◌then◌else◌, arith,
}
use northos.Prelude.Int.{ℤ, pos, pos_part, ◌+ℤ◌, ◌-ℤ◌}
use northos.Gui.{Pixels, Rgba, draw_rect_by_coord, draw_mouse, move_pixels}
use northos.Gui.Pictures.{Font, draw_icon, draw24_image_part, draw_rect_border, draw_chars}
use northos.Gui.Loops.{if-kept}
use northos.Gui.Within.{Within, Outside, Outside-cell, draw_rect_by_coord-Within}
use northos.Gui.Bounds.{draw24_image_part-Within, draw_icon-Within}
use northos.Gui.Border.{draw_rect_border-Within, draw_chars-Within, draw_chars_max-Within}
use northos.Gui.Pointer.{draw_mouse-kept, Covers-lt}
use northos.Gui.Clear.{move_pixels-kept, move_pixels-hit}
use northos.Wm.WindowList.{Index, is}
use northos.Wm.WindowList.Chain.{first, Chain}
use northos.Wm.WindowList.Order.{IsOrder}
use northos.Wm.WindowList.Lifecycle.{others, get_window_count-others}
use northos.Wm.State.{Wm, Window}
use northos.Wm.Handler.{rounds}
use northos.Wm.Screen.{
  shows, show, update_by, ◌>>=◌, draw_dock_rest, border_color, draw_window_bar, draw_window,
  draw_clock, draw_button, draw_buttons, draw_desktop_dock, draw_windows, draw_all_buttons,
  draw_dock_bar, draw_popup, whiten, draw_all, update_screen,
}

pub draw_mouse-Within : (w h buf mode : ℕ) (x y : ℤ) → Within w h buf (draw_mouse w h buf mode x y)
unfolding Within
draw_mouse-Within w h buf mode x y m a out = draw_mouse-kept w h buf mode x y m a λ r c cov.
    let (hr, hc) = Covers-lt x y (pos 15) (pos 18) w h r c cov in
    Outside-cell w h buf r c a hr hc out

module _ (font : Font) (icons : ℕ → ℕ → ℕ) (window_buf : ℕ → ℕ) (popup_buf : ℕ) (s : Wm) (dst a : ℕ)
    (out : Outside s.screen_width s.screen_height dst a) where
  abbrev w : ℕ
  w = s.screen_width

  abbrev h : ℕ
  h = s.screen_height

  rect :
      (xmin ymin xmax ymax : ℤ) (fill : Rgba) (m : Pixels)
      → draw_rect_by_coord w h dst xmin ymin xmax ymax fill m a ≡ m a
  unfolding Within
  rect xmin ymin xmax ymax fill m =
      draw_rect_by_coord-Within w h dst xmin ymin xmax ymax fill m a out

  icon : (x y n : ℤ) (m : Pixels) → (draw_icon w h icons dst x y n m).0 a ≡ m a
  unfolding Within
  icon x y n m = draw_icon-Within w h dst x y icons n m a out

  string :
      (x y start : ℤ) (str : List ℕ) (color : Rgba) (m : Pixels)
      → draw_chars w h font dst x y start str color m a ≡ m a
  unfolding Within
  string x y start str color m = draw_chars-Within w h dst font x y color start str m a out

  draw_window_bar-kept :
      (win : Window) (color : Rgba) (m : Pixels)
      → draw_window_bar font icons window_buf popup_buf s dst win color m a ≡ m a
  unfolding draw_window_bar
  draw_window_bar-kept win color m =
      icon _ _ _ _
      ∙ icon _ _ _ _
      ∙ string _ _ _ _ _ _
      ∙ rect _ _ _ _ _ _
      ∙ rect _ _ _ _ _ _
      ∙ rect _ _ _ _ _ _

  draw_window-kept :
      (img : ℕ) (win : Window) (m : Pixels)
      → draw_window font icons window_buf popup_buf s dst img win m a ≡ m a
  unfolding draw_window Within
  draw_window-kept img win m =
      if-kept {S = Pixels} (λ u. u a ≡ m a) win.has_title_bar (draw_window_bar-kept win _ _ ∙ inner)
        inner
    where
      inner :
          draw_rect_border w h dst border_color win.position.xmin win.position.ymin
            (win.position.xmax -ℤ win.position.xmin)
            (win.position.ymax -ℤ win.position.ymin)
            (draw24_image_part w h dst img win.position.xmin win.position.ymin
              (pos_part (win.position.xmax -ℤ win.position.xmin))
              (pos_part (win.position.ymax -ℤ win.position.ymin))
              0
              0
              (pos_part (win.position.xmax -ℤ win.position.xmin))
              (pos_part (win.position.ymax -ℤ win.position.ymin))
              m)
            a
          ≡ m a
      inner =
          draw_rect_border-Within w h dst _ _ _ _ _ _ a out
          ∙ draw24_image_part-Within w h dst _ _ img _ _ 0 0 _ _ m a out

  draw_button-kept :
      (x width : ℤ) (title : List ℕ) (m : Pixels)
      → draw_button font icons window_buf popup_buf s dst x width title m a ≡ m a
  unfolding draw_button Within
  draw_button-kept x width title m =
      rect _ _ _ _ _ _ ∙ draw_chars_max-Within w h dst font _ _ _ _ (pos 0) title m a out

  draw_dock_bar-kept : (m : Pixels) → draw_dock_bar font icons window_buf popup_buf s dst m a ≡ m a
  unfolding draw_dock_bar
  draw_dock_bar-kept m = rect _ _ _ _ _ _ ∙ rect _ _ _ _ _ _

  draw_dock_rest-kept :
      (hours minutes : ℕ) (m : Pixels)
      → draw_dock_rest font icons window_buf popup_buf s dst hours minutes m a ≡ m a
  unfolding draw_dock_rest draw_clock
  draw_dock_rest-kept hours minutes m = icon _ _ _ _ ∙ rect _ _ _ _ _ _ ∙ string _ _ _ _ _ _

  draw_popup-kept : (m : Pixels) → draw_popup font icons window_buf popup_buf s dst m a ≡ m a
  unfolding draw_popup
  draw_popup-kept m =
      if-kept {S = Pixels} (λ u. u a ≡ m a) (is s.popup_caller none) refl
        (draw_window-kept popup_buf s.popup m)

  whiten-kept : (m : Pixels) → whiten font icons window_buf popup_buf s dst m a ≡ m a
  unfolding whiten
  whiten-kept m = ground arith

module _ (font : Font) (icons : ℕ → ℕ → ℕ) (window_buf : ℕ → ℕ) (popup_buf : ℕ) (s : Wm)
    (dst : ℕ) where
  -- The walks end, and nothing but the buffer has changed.
  abbrev Draws : Pixels → Option Pixels → Type 0
  Draws m none = ⊥
  Draws m (some u) = (a : ℕ) → Outside s.screen_width s.screen_height dst a → u a ≡ m a

  Draws-trans : (m u : Pixels) (o : Option Pixels) → Draws m (some u) → Draws u o → Draws m o
  Draws-trans m u none p q = q
  Draws-trans m u (some v) p q = λ a out. q a out ∙ p a out

  Draws-bind :
      (m : Pixels) (o : Option Pixels) (f : Pixels → Option Pixels)
      → Draws m o
      → ((u : Pixels) → Draws u (f u))
      → Draws m (o >>= f)
  Draws-bind m none f h g = h
  Draws-bind m (some u) f h g = Draws-trans m u (f u) h (g u)

  draw_buttons-Draws :
      (r : ℕ) (p q : Index) (xs : List ℕ) (x width : ℤ) (m : Pixels)
      → q ≡ first xs none
      → Chain s.links.next s.links.prev p xs none
      → length xs < r
      → Draws m (draw_buttons font icons window_buf popup_buf s r q dst x width m)
  unfolding draw_buttons
  draw_buttons-Draws zero p q xs x width m e c lt = absurd (omega arith)
  draw_buttons-Draws (suc r) p q [] x width m e c lt = rw e (λ a out. refl)
  draw_buttons-Draws (suc r) p q (v ∷ vs) x width m e c lt =
      let skipped =
        draw_buttons-Draws r (some v) (s.links.next v) vs x width m c.1 c.2 (omega arith) in
      let button = draw_button font icons window_buf popup_buf s dst x width (s.wnd v).title m in
      let rest =
        draw_buttons-Draws r (some v) (s.links.next v) vs (x +ℤ width) width button c.1 c.2
          (omega arith) in
      rw e (
        if-kept {S = Option Pixels} (Draws m) (is (some v) s.desktop) skipped (
          Draws-trans m button _
            (λ a out.
              draw_button-kept font icons window_buf popup_buf s dst a out x width (s.wnd v).title
                m)
            rest))

  draw_windows-Draws :
      (r : ℕ) (p q : Index) (xs : List ℕ) (m : Pixels)
      → q ≡ first xs none
      → Chain s.links.next s.links.prev p xs none
      → length xs < r
      → Draws m (draw_windows font icons window_buf popup_buf s r q dst m)
  unfolding draw_windows
  draw_windows-Draws zero p q xs m e c lt = absurd (omega arith)
  draw_windows-Draws (suc r) p q [] m e c lt = rw e (λ a out. refl)
  draw_windows-Draws (suc r) p q (v ∷ vs) m e c lt =
      let shown = not (is (some v) s.desktop) && not (s.wnd v).minimized in
      let drawn =
        if shown
        then draw_window font icons window_buf popup_buf s dst (window_buf v) (s.wnd v) m
        else m in
      rw e (
        Draws-trans m drawn _
          (λ a out.
            if-kept {S = Pixels} (λ u. u a ≡ m a) shown
              (draw_window-kept font icons window_buf popup_buf s dst a out (window_buf v) (s.wnd v)
                m)
              refl)
          (draw_windows-Draws r (some v) (s.links.next v) vs drawn c.1 c.2 (omega arith)))

  draw_all_buttons-Draws :
      (xs : List ℕ) (m : Pixels)
      → IsOrder s.links xs
      → length xs < rounds
      → Draws m (draw_all_buttons font icons window_buf popup_buf s dst m)
  unfolding draw_all_buttons
  draw_all_buttons-Draws xs m v lt = rw (get_window_count-others rounds s.desktop xs s.links v lt) (
      if-kept {S = Option Pixels} (Draws m) (ltb 0 (others s.desktop xs))
        (draw_buttons-Draws rounds none s.links.head xs _ _ m v.bottom v.chain lt) (λ a out. refl))

  pub draw_all-Draws :
      (xs : List ℕ) (desktop hours minutes : ℕ) (m : Pixels)
      → IsOrder s.links xs
      → length xs < rounds
      → Draws m (draw_all font icons window_buf popup_buf s desktop dst hours minutes m)
  unfolding draw_all draw_desktop_dock Within
  draw_all-Draws xs desktop hours minutes m v lt =
      Draws-bind m _ _
        (Draws-bind m _ _
          (Draws-trans m _ _
            (λ a out.
              draw_dock_bar-kept font icons window_buf popup_buf s dst a out _
              ∙ draw_window-kept font icons window_buf popup_buf s dst a out _ _ _
              ∙ whiten-kept font icons window_buf popup_buf s dst a out m)
            (draw_all_buttons-Draws xs _ v lt))
          (λ u a out.
            draw_dock_rest-kept font icons window_buf popup_buf s dst a out hours minutes u))
        λ u.
          Draws-bind u _ _ (draw_windows-Draws rounds none s.links.head xs u v.bottom v.chain lt)
            (λ w a out.
              draw_mouse-Within s.screen_width s.screen_height dst _ _ _ _ a out
              ∙ draw_popup-kept font icons window_buf popup_buf s dst a out w)

-- Where the process of the desktop calls it and the window list is linked, with fewer windows than the 51
-- rounds of the walks, updateScreen ends and does not panic, every pixel outside the screen and its buffer is
-- kept, and the screen shows what the buffer holds.
pub update_screen_lem :
    (font : Font) (icons : ℕ → ℕ → ℕ) (window_buf : ℕ → ℕ)
    (popup_buf screen hours minutes desktop : ℕ) (xs : List ℕ) (s : Wm) (m : Pixels)
    → s.desktop ≡ some desktop
    → IsOrder s.links xs
    → length xs < rounds
    → let size = s.screen_width * s.screen_height in
      (m1 : Pixels) × (update_screen font icons window_buf popup_buf s screen
          (s.wnd desktop).owner
          hours
          minutes
          m
        ≡ shows m1)
      × ((a : ℕ) → (a < screen) ⊎ (screen + 2 * size ≤ a) → m1 a ≡ m a)
      × ((k : ℕ) → k < size → m1 (screen + k) ≡ m1 (screen + size + k))
unfolding update_screen
update_screen_lem font icons window_buf popup_buf screen hours minutes desktop xs s m e v lt =
    go (draw_all font icons window_buf popup_buf s desktop (screen + size) hours minutes m)
      (draw_all-Draws font icons window_buf popup_buf s (screen + size) xs desktop hours minutes m v
        lt)
      refl
  where
    size : ℕ
    size = s.screen_width * s.screen_height

    called :
        update_by font icons window_buf popup_buf s screen
          (s.wnd desktop).owner
          hours
          minutes
          m
          (some desktop)
        ≡ show font icons window_buf popup_buf s screen
            (draw_all font icons window_buf popup_buf s desktop (screen + size) hours minutes m)
    called = rw ((==_iff (s.wnd desktop).owner (s.wnd desktop).owner).1 refl) refl

    go :
        (o : Option Pixels)
        → Draws font icons window_buf popup_buf s (screen + size) m o
        → draw_all font icons window_buf popup_buf s desktop (screen + size) hours minutes m ≡ o
        → (m1 : Pixels) × (update_screen font icons window_buf popup_buf s screen
              (s.wnd desktop).owner
              hours
              minutes
              m
            ≡ shows m1)
          × ((a : ℕ) → (a < screen) ⊎ (screen + 2 * size ≤ a) → m1 a ≡ m a)
          × ((k : ℕ) → k < size → m1 (screen + k) ≡ m1 (screen + size + k))
    go none p f = absurd p
    go (some drawn) p f = (
      move_pixels screen (screen + size) size drawn,
      ap (update_by font icons window_buf popup_buf s screen (s.wnd desktop).owner hours minutes m)
            e
          ∙ called
          ∙ ap (show font icons window_buf popup_buf s screen) f,
      (λ a out.
          move_pixels-kept screen (screen + size) size a drawn (λ j lj same. ground arith)
          ∙ p a (ground arith)),
      (λ k lk.
          move_pixels-hit screen (screen + size) size k drawn lk
          ∙ sym (
              move_pixels-kept screen (screen + size) size (screen + size + k) drawn
                λ j lj same. ground arith)),
    )
