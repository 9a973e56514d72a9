-- ===== src/Mouse/Packets/Moves.antt =====
-- What `mouseintr` of kernel/mouse.c makes of a packet with a movement.
use northos.Prelude.{
  ℕ, ◌+◌, ◌*◌, ◌%◌, ◌<◌, ◌≡◌, ◌≢◌, ◌⊎◌, refl, ap, ◌∙◌, inl, inr, Bool, Bool-cases, true, false, not,
  ◌||◌, [], ◌∷◌, ◌++◌, ◌==◌, ℕ_discrete, arith,
}
use northos.Prelude.Int.{ℤ, pos}
use northos.Mouse.{
  Mouse, next_recovery, bit, mouseintr, gen_mouse_message, send_messages, signed, is_zero,
}
use northos.Mouse.Packets.{
  first_byte, movement, moves, next_recovery-IsFresh, fresh_one, fresh_two, no_row, flags,
  first_taken, second_taken, third_taken,
}

signed-movement :
    (sgn : Bool) (t x : ℕ) → sgn ≡ (t == 1) → x < 256 → signed sgn (pos x) ≡ movement t x
signed-movement sgn t x e h = let low : x % 256 ≡ x = omega arith in rw (e, low) refl

-- A packet without overflow and with a movement.
sent_moves :
    (s : Mouse) (x y : ℤ)
    → (not (is_zero x) || not (is_zero y)) ≡ true
    → (send_messages s x y).1 ++ []
      ≡ moves s (s.packet.l_btn + 2 * s.packet.r_btn + 4 * s.packet.m_btn) x y
unfolding send_messages
sent_moves s x y moved =
    elim (Bool-cases (s.packet.l_btn + 2 * s.packet.r_btn + 4 * s.packet.m_btn == s.lastbtn)) [
      | inl same ↦ rw (moved, same) refl
      | inr changed ↦ rw (moved, changed) refl
    ]

gen_mouse_message-moves :
    (s : Mouse) (x y : ℤ)
    → (s.packet.x_overflow || s.packet.y_overflow) ≡ false
    → signed s.packet.x_sgn s.packet.x_mov ≡ x
    → signed s.packet.y_sgn s.packet.y_mov ≡ y
    → (not (is_zero x) || not (is_zero y)) ≡ true
    → (gen_mouse_message s).1 ++ []
      ≡ moves s (s.packet.l_btn + 2 * s.packet.r_btn + 4 * s.packet.m_btn) x y
unfolding gen_mouse_message
gen_mouse_message-moves s x y fine ex ey moved =
    rw (fine, ex, ey)
      (sent_moves (record s { packet = record s.packet { x_mov = x; y_mov = y } }) x y moved)

zero_sign : (t b : ℕ) → t < 2 → b ≡ 0 → is_zero (movement t b) ≡ false → t ≡ 1
zero_sign t b h e moved = elim (ℕ_discrete t 1) [
  | yes is ↦ is
  | no ne ↦
      let unset : (t == 1) ≡ false = ground arith in
      let still : is_zero (movement t b) ≡ true = rw (unset, e) refl in
      absurd (ground (arith, still))
]

-- Only a packet without movement can be a 12 and two zeros.
not_a_row :
    (l r m sx sy x y : ℕ)
    → sx < 2
    → sy < 2
    → (is_zero (movement sx x) ≡ false) ⊎ (is_zero (movement sy y) ≡ false)
    → ((first_byte l r m sx sy == 12) ≡ false) ⊎ ((x ≢ 0) ⊎ (y ≢ 0))
not_a_row l r m sx sy x y bx by moved = elim (ℕ_discrete x 0) [
  | no ne ↦ inr (inl ne)
  | yes ex ↦ elim (ℕ_discrete y 0) [ no ne ↦ inr (inr ne) | yes ey ↦ inl (signs ex ey moved) ]
]
  where
    signs :
        x ≡ 0
        → y ≡ 0
        → (is_zero (movement sx x) ≡ false) ⊎ (is_zero (movement sy y) ≡ false)
        → (first_byte l r m sx sy == 12) ≡ false
    signs ex ey (inl h) = let set = zero_sign sx x bx ex h in ground arith
    signs ex ey (inr h) = let set = zero_sign sy y by ey h in ground arith

-- Where no byte of a packet is pending, the three bytes of a packet with a movement in it and no
-- overflow send this movement and the buttons, whatever packets were received before.
pub mouseintr-moves :
    (s : Mouse) (l r m sx sy x y tick : ℕ)
    → s.count ≡ 0
    → l < 2
    → r < 2
    → m < 2
    → sx < 2
    → sy < 2
    → x < 256
    → y < 256
    → (is_zero (movement sx x) ≡ false) ⊎ (is_zero (movement sy y) ≡ false)
    → (mouseintr s (first_byte l r m sx sy ∷ x ∷ y ∷ []) tick).1
      ≡ moves s (l + 2 * r + 4 * m) (movement sx x) (movement sy y)
unfolding mouseintr
mouseintr-moves s l r m sx sy x y tick start bl br bm bsx bsy bx by moved =
    let b = first_byte l r m sx sy in
    let set : (bit b 3 == 1) ≡ true = ground arith in
    let not_zero : (b == 0) ≡ false = ground arith in
    let fresh = next_recovery-IsFresh s.recovery b not_zero in
    let row1 = fresh_one (next_recovery s.recovery b) fresh in
    let row2 = fresh_two (next_recovery s.recovery b) x fresh in
    let row3 = no_row s.recovery b x y not_zero (not_a_row l r m sx sy x y bsx bsy moved) in
    let s1 = record s {
      packet = flags s.packet b;
      count = s.count + 1;
      recovery = next_recovery s.recovery b;
    } in
    let s2 = record s1 {
      packet = record s1.packet { x_mov = pos x };
      count = s1.count + 1;
      recovery = next_recovery s1.recovery x;
    } in
    let s3 = record s2 {
      packet = record s2.packet { y_mov = pos y; tick = tick };
      count = 0;
      recovery = next_recovery s2.recovery y;
    } in
    let fine : ((bit b 6 == 1) || (bit b 7 == 1)) ≡ false = ground arith in
    let x_sign : bit b 4 ≡ sx = omega arith in
    let y_sign : bit b 5 ≡ sy = omega arith in
    let moving : (not (is_zero (movement sx x)) || not (is_zero (movement sy y))) ≡ true =
      ground arith in
    let btns : bit b 0 + 2 * bit b 1 + 4 * bit b 2 ≡ l + 2 * r + 4 * m = omega arith in
    rw
      (
        first_taken s b tick start set row1,
        second_taken s1 x tick (omega arith) row2,
        third_taken s2 y tick (omega arith) row3,
      )
      (gen_mouse_message-moves s3 (movement sx x) (movement sy y) fine
          (signed-movement (bit b 4 == 1) sx x (ap (λ n. n == 1) x_sign) bx)
          (signed-movement (bit b 5 == 1) sy y (ap (λ n. n == 1) y_sign) by) moving
        ∙ ap (λ n. moves s n (movement sx x) (movement sy y)) btns)
