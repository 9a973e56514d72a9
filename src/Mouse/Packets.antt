-- ===== src/Mouse/Packets.antt =====
-- The three bytes of a packet, and what `mouseintr` of kernel/mouse.c makes of them.
pub mod Moves
use northos.Prelude.{
  ℕ, ◌+◌, ◌*◌, ◌%◌, ◌<◌, ◌≡◌, ◌≢◌, ◌⊎◌, refl, ap, ◌∙◌, inl, inr, Bool, Bool-cases, true, false, not,
  ◌||◌, List, [], ◌∷◌, ◌++◌, Option, some, ◌==◌, if◌then◌else◌, ℕ_discrete, arith,
}
use northos.Prelude.Int.{ℤ, pos, sub_ℕ}
use northos.Wm.State.{Message}
use northos.Wm.MessageType.{mouse_move}
use northos.Mouse.{
  Mouse, Packet, Recovery, off, armed, one_zero, two_zeros, next_recovery, is_two_zeros, bit,
  take_byte, mouse_byte, mouseintr, gen_mouse_message, send_messages, signed, is_zero,
  mouse_up_message,
}

-- The first byte: the buttons, a bit that is set, the signs.
abbrev pub first_byte : ℕ → ℕ → ℕ → ℕ → ℕ → ℕ
first_byte l r m sx sy = l + 2 * r + 4 * m + 8 + 16 * sx + 32 * sy

-- The movement that a sign and a byte stand for.
abbrev pub movement : ℕ → ℕ → ℤ
movement s b = if s == 1 then sub_ℕ b 256 else pos b

-- The messages that a movement sends: the buttons are told where they have changed.
abbrev pub moves : Mouse → ℕ → ℤ → ℤ → List (Option Message)
moves m btns x y =
    (if btns == m.lastbtn then [] else some (mouse_up_message btns) ∷ [])
    ++ some (record { msg_type = mouse_move; params = x ∷ y ∷ pos btns ∷ [] }) ∷ []

-- A byte that is not 0 ends a row of zeros.
abbrev IsFresh : Recovery → Type 0
IsFresh off = Unit {0}
IsFresh armed = Unit {0}
IsFresh one_zero = ⊥
IsFresh two_zeros = ⊥

next_recovery-IsFresh : (v : Recovery) (b : ℕ) → (b == 0) ≡ false → IsFresh (next_recovery v b)
next_recovery-IsFresh v b ne = elim (Bool-cases (b == 12)) [
  | inl twelve ↦ arms v twelve
  | inr other ↦ disarms v other
]
  where
    arms : (v : Recovery) → (b == 12) ≡ true → IsFresh (next_recovery v b)
    arms off e = rw e tt
    arms armed e = rw (ne, e) tt
    arms one_zero e = rw (ne, e) tt
    arms two_zeros e = rw e tt

    disarms : (v : Recovery) → (b == 12) ≡ false → IsFresh (next_recovery v b)
    disarms off e = rw e tt
    disarms armed e = rw (ne, e) tt
    disarms one_zero e = rw (ne, e) tt
    disarms two_zeros e = rw e tt

not_twelve-off :
    (v : Recovery) (b : ℕ) → (b == 0) ≡ false → (b == 12) ≡ false → next_recovery v b ≡ off
not_twelve-off off b z t = rw t refl
not_twelve-off armed b z t = rw (z, t) refl
not_twelve-off one_zero b z t = rw (z, t) refl
not_twelve-off two_zeros b z t = rw t refl

fresh_one : (v : Recovery) → IsFresh v → is_two_zeros v ≡ false
fresh_one off h = refl
fresh_one armed h = refl
fresh_one one_zero h = absurd h
fresh_one two_zeros h = absurd h

fresh_two : (v : Recovery) (x : ℕ) → IsFresh v → is_two_zeros (next_recovery v x) ≡ false
fresh_two off x h = ground arith
fresh_two armed x h = ground arith
fresh_two one_zero x h = absurd h
fresh_two two_zeros x h = absurd h

-- Two zeros are seen only behind a 12.
no_row :
    (v : Recovery) (b x y : ℕ)
    → (b == 0) ≡ false
    → ((b == 12) ≡ false) ⊎ ((x ≢ 0) ⊎ (y ≢ 0))
    → is_two_zeros (next_recovery (next_recovery (next_recovery v b) x) y) ≡ false
no_row v b x y z (inl other) =
    rw (not_twelve-off v b z other) (fresh_two (next_recovery off x) y (stays x))
  where
    stays : (x : ℕ) → IsFresh (next_recovery off x)
    stays x = elim (Bool-cases (x == 12)) [ inl e ↦ rw e tt | inr e ↦ rw e tt ]
no_row v b x y z (inr (inl ne)) =
    fresh_two (next_recovery (next_recovery v b) x) y
      (next_recovery-IsFresh (next_recovery v b) x (ground arith))
no_row v b x y z (inr (inr ne)) =
    fresh_one (next_recovery (next_recovery (next_recovery v b) x) y)
      (next_recovery-IsFresh (next_recovery (next_recovery v b) x) y (ground arith))

-- The flags of the first byte.
abbrev flags : Packet → ℕ → Packet
flags p b = record p {
  y_overflow = bit b 7 == 1;
  x_overflow = bit b 6 == 1;
  y_sgn = bit b 5 == 1;
  x_sgn = bit b 4 == 1;
  m_btn = bit b 2;
  r_btn = bit b 1;
  l_btn = bit b 0;
}

first_taken :
    (s : Mouse) (b tick : ℕ)
    → s.count ≡ 0
    → (bit b 3 == 1) ≡ true
    → is_two_zeros (next_recovery s.recovery b) ≡ false
    → mouse_byte s b tick ≡ (
      record s {
        packet = flags s.packet b;
        count = s.count + 1;
        recovery = next_recovery s.recovery b;
      },
      [],
    )
unfolding mouse_byte take_byte
first_taken s b tick start set row =
    let one : (s.count + 1 == 1) ≡ true = ground arith in
    let not_three : (s.count + 1 == 3) ≡ false = ground arith in rw (one, set, row, not_three) refl

second_taken :
    (s : Mouse) (b tick : ℕ)
    → s.count ≡ 1
    → is_two_zeros (next_recovery s.recovery b) ≡ false
    → mouse_byte s b tick ≡ (
      record s {
        packet = record s.packet { x_mov = pos b };
        count = s.count + 1;
        recovery = next_recovery s.recovery b;
      },
      [],
    )
unfolding mouse_byte take_byte
second_taken s b tick start row =
    let not_one : (s.count + 1 == 1) ≡ false = ground arith in
    let two : (s.count + 1 == 2) ≡ true = ground arith in
    let not_three : (s.count + 1 == 3) ≡ false = ground arith in
    rw (not_one, two, row, not_three) refl

third_taken :
    (s : Mouse) (b tick : ℕ)
    → s.count ≡ 2
    → is_two_zeros (next_recovery s.recovery b) ≡ false
    → mouse_byte s b tick
      ≡ gen_mouse_message (record s {
        packet = record s.packet { y_mov = pos b; tick = tick };
        count = 0;
        recovery = next_recovery s.recovery b;
      })
unfolding mouse_byte take_byte
third_taken s b tick start row =
    let not_one : (s.count + 1 == 1) ≡ false = ground arith in
    let not_two : (s.count + 1 == 2) ≡ false = ground arith in
    let three : (s.count + 1 == 3) ≡ true = ground arith in
    rw (not_one, not_two, three, row) (rw three refl)
