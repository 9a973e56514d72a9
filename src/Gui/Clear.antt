-- ===== src/Gui/Clear.antt =====
-- `clearRect`: the pixels that are copied back from the second buffer.
use northos.Prelude.{
  subst, ℕ, ◌+◌, ◌-◌, ◌*◌, ◌<◌, ◌≤◌, ◌≡◌, ◌≢◌, refl, sym, ap, ◌∙◌, ◌⊎◌, ◌↔◌, Bool, false, ◌||◌,
  if◌then◌else◌, arith,
}
use northos.Prelude.Int.{ℤ, pos, negsuc, pos_part, ◌+ℤ◌, ◌-ℤ◌, leb_ℤ}
use northos.Gui.{Pixels, cell, min_ℤ, move_pixels, copy_width, clear_rect}
use northos.Gui.Loops.{for, for-kept, for-hit, if-kept}
use northos.Gui.Grid.{row_le, cell_row}
use northos.Gui.Rect.{Spans, Covers, Spans-loop, Spans-on}

pub move_pixels-kept :
    (t o n a : ℕ) (u : Pixels) → ((j : ℕ) → j < n → a ≢ t + j) → move_pixels t o n u a ≡ u a
unfolding move_pixels
move_pixels-kept t o n a u apart = ground (arith, apart (a - t))

pub move_pixels-hit : (t o n j : ℕ) (u : Pixels) → j < n → move_pixels t o n u (t + j) ≡ u (o + j)
unfolding move_pixels
move_pixels-hit t o n j u lt =
    let back : t + j - t ≡ j = omega arith in ground (arith, ap (λ k. u (o + k)) back)

-- Two buffers of `h` rows that do not overlap.
abbrev pub Apart : ℕ → ℕ → ℕ → ℕ → Type 0
Apart w h buf temp = (buf + h * w ≤ temp) ⊎ (temp + h * w ≤ buf)

module _ (w h buf temp : ℕ) (x y width height : ℤ) where
  abbrev is_off : Bool
  is_off =
      leb_ℤ (pos w) x
      || (leb_ℤ (pos h) y || (leb_ℤ (x +ℤ width) (pos 0) || leb_ℤ (y +ℤ height) (pos 0)))

  abbrev end_y : ℕ
  end_y = pos_part (min_ℤ (y +ℤ height) (pos h))

  abbrev columns : ℕ
  columns = pos_part (copy_width w x width)

  row : ℕ → Pixels → Pixels
  row i = move_pixels (cell w buf i (pos_part x)) (cell w temp i (pos_part x)) columns

  clear_rect-rows :
      (m : Pixels)
      → clear_rect w h buf temp x y width height m ≡ (
          if is_off
          then m
          else if leb_ℤ (copy_width w x width) (pos 0)
          then m
          else for row (pos_part y) (end_y - pos_part y) m)
  unfolding clear_rect row
  clear_rect-rows m = refl

  -- An address that no row copies to keeps what it has.
  pub clear_rect-kept :
      (m : Pixels) (a : ℕ)
      → ((i j : ℕ) → Spans y height (pos h) i → j < columns → a ≢ cell w buf i (pos_part x) + j)
      → clear_rect w h buf temp x y width height m a ≡ m a
  unfolding row
  clear_rect-kept m a apart =
      let rows =
        for-kept (λ s. s a ≡ m a) row (pos_part y) (end_y - pos_part y) m
          (λ i s lo hi e.
            move_pixels-kept _ _ columns a s
              (λ j. apart i j ((Spans-loop y height (pos h) i).1 (lo, omega arith)))
            ∙ e)
          refl in
      ap (λ s. s a) (clear_rect-rows m)
      ∙ if-kept {S = Pixels} (λ s. s a ≡ m a) is_off refl
          (if-kept {S = Pixels} (λ s. s a ≡ m a) (leb_ℤ (copy_width w x width) (pos 0)) refl rows)

  -- Where the columns that are copied are within the width, each is read from the second buffer.
  pub clear_rect-hit :
      pos_part x + columns ≤ w
      → Apart w h buf temp
      → (m : Pixels) (r j : ℕ) → is_off ≡ false
      → Spans y height (pos h) r
      → j < columns
      → clear_rect w h buf temp x y width height m (cell w buf r (pos_part x) + j)
        ≡ m (cell w temp r (pos_part x) + j)
  unfolding row
  clear_rect-hit fits two m r j on down lt =
      let sx = pos_part x in
      let a = cell w buf r sx + j in
      let o = cell w temp r sx + j in
      let (top, bottom) = (Spans-loop y height (pos h) r).0 down in
      let some_columns : leb_ℤ (copy_width w x width) (pos 0) ≡ false = ground arith in
      let below : end_y ≤ h = ground arith in
      let keeps_source : (i : ℕ) (s : Pixels) → i < end_y → row i s o ≡ s o = λ i s hi.
        move_pixels-kept (cell w buf i sx) (cell w temp i sx) columns o s
          λ k hk e. ground (arith, two, row_le w r h, row_le w i h) in
      let keeps_target : (i : ℕ) (s : Pixels) → i ≢ r → row i s a ≡ s a = λ i s ne.
        move_pixels-kept (cell w buf i sx) (cell w temp i sx) columns a s λ k hk e.
          let same : cell w buf r (sx + j) ≡ cell w buf i (sx + k) = omega (arith, e) in
          ne (sym (cell_row w buf r (sx + j) i (sx + k) (omega arith) (omega arith) same)) in
      let rows =
        for-hit (λ s. s o ≡ m o) (λ s. s a ≡ m o) row (pos_part y) (end_y - pos_part y) r m top
          (omega arith) (λ i s lo hi e. keeps_source i s (omega arith) ∙ e)
          (λ s e. move_pixels-hit (cell w buf r sx) (cell w temp r sx) columns j s lt ∙ e)
          (λ i s lo hi e. keeps_target i s (omega arith) ∙ e) refl in
      ap (λ s. s a) (clear_rect-rows m) ∙ rw (on, some_columns) rows

-- The columns that are copied from column `x` on are those that are spanned.
Spans-columns :
    (w x j : ℕ) (width : ℤ)
    → Spans (pos x) width (pos w) (x + j) ↔ (j < pos_part (copy_width w (pos x) width))
unfolding Spans ◌+ℤ◌ ◌-ℤ◌
Spans-columns w x j width = (ground arith, ground arith)

Covers-on :
    (w h : ℕ) (x y width height : ℤ) (r c : ℕ)
    → Covers x y width height (pos w) (pos h) r c
    → is_off w h 0 0 x y width height ≡ false
Covers-on w h x y width height r c (across, down) =
    ground (arith, Spans-on x width (pos w) c across, Spans-on y height (pos h) r down)

columns-le :
    (w x c : ℕ) (width : ℤ)
    → Spans (pos x) width (pos w) c
    → x + pos_part (copy_width w (pos x) width) ≤ w
unfolding Spans ◌+ℤ◌ ◌-ℤ◌
columns-le w x c width s = ground arith

Spans-offset : (x c : ℕ) (width end : ℤ) → Spans (pos x) width end c → (j : ℕ) × (c ≡ x + j)
unfolding Spans
Spans-offset x c width end s = (c - x, omega arith)

-- Where a rectangle starts at column 0 or right of it and the two buffers are apart, clearRect copies every
-- pixel of it that is on the screen back from the second buffer, and every other address keeps what it has.
pub clear_rect_lem :
    (w h buf temp x : ℕ) (y width height : ℤ)
    → Apart w h buf temp
    → (m : Pixels)
    → ((r c : ℕ)
        → Covers (pos x) y width height (pos w) (pos h) r c
        → clear_rect w h buf temp (pos x) y width height m (cell w buf r c) ≡ m (cell w temp r c))
      × ((a : ℕ)
          → ((r c : ℕ) → Covers (pos x) y width height (pos w) (pos h) r c → a ≢ cell w buf r c)
          → clear_rect w h buf temp (pos x) y width height m a ≡ m a)
clear_rect_lem w h buf temp x y width height two m = (copied, kept)
  where
    copied :
        (r c : ℕ)
        → Covers (pos x) y width height (pos w) (pos h) r c
        → clear_rect w h buf temp (pos x) y width height m (cell w buf r c) ≡ m (cell w temp r c)
    copied r c (across, down) =
        let (j, e) = Spans-offset x c width (pos w) across in
        let lt = (Spans-columns w x j width).0 (subst (Spans (pos x) width (pos w)) e across) in
        let here : cell w buf r c ≡ cell w buf r x + j = omega (arith, e) in
        let there : cell w temp r c ≡ cell w temp r x + j = omega (arith, e) in
        rw (here, there)
          (clear_rect-hit w h buf temp (pos x) y width height (columns-le w x c width across) two m
            r j (Covers-on w h (pos x) y width height r c (across, down)) down lt)

    kept :
        (a : ℕ)
        → ((r c : ℕ) → Covers (pos x) y width height (pos w) (pos h) r c → a ≢ cell w buf r c)
        → clear_rect w h buf temp (pos x) y width height m a ≡ m a
    kept a apart =
        clear_rect-kept w h buf temp (pos x) y width height m a λ i j down lt e.
          apart i (x + j) ((Spans-columns w x j width).1 lt, down) (omega (arith, e))

-- Where a rectangle starts left of the screen, is not wider than it and the two buffers are apart, clearRect
-- also copies the columns right of the rectangle that are left of column `width`.
pub clear_rect_left :
    (w h buf temp n width : ℕ) (y height : ℤ)
    → Apart w h buf temp
    → n + 1 < width
    → width ≤ w
    → (m : Pixels) (r c : ℕ) → Spans y height (pos h) r
    → width ≤ c + (n + 1)
    → c < width
    → clear_rect w h buf temp (negsuc n) y (pos width) height m (cell w buf r c)
      ≡ m (cell w temp r c)
unfolding ◌+ℤ◌
clear_rect_left w h buf temp n width y height two seen fits m r c down beyond lt =
    let here : cell w buf r c ≡ cell w buf r 0 + c = omega arith in
    let there : cell w temp r c ≡ cell w temp r 0 + c = omega arith in
    let on : is_off w h buf temp (negsuc n) y (pos width) height ≡ false =
      ground (arith, Spans-on y height (pos h) r down) in
    let all : pos_part (copy_width w (negsuc n) (pos width)) ≡ width = ground arith in
    rw (here, there)
      (clear_rect-hit w h buf temp (negsuc n) y (pos width) height (omega (arith, all)) two m r c on
        down (omega (arith, all)))
