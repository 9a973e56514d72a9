-- ===== src/Mouse.antt =====
-- kernel/mouse.c: the bytes of the mouse as packets, and the packets as messages to the window manager.
-- Ticks are 32-bit words. The set-up of the controller is left out.
pub mod Packets
mod Tests
use northos.Prelude.{
  ℕ, zero, suc, ◌+◌, ◌-◌, ◌*◌, ◌/◌, ◌%◌, ◌^◌, Bool, true, false, not, ◌&&◌, ◌||◌, List, [], ◌∷◌,
  ◌++◌, Option, none, some, ltb, ◌==◌, if◌then◌else◌,
}
use northos.Prelude.Int.{ℤ, pos, negsuc, sub_ℕ}
use northos.Wm.State.{Message}
use northos.Wm.MessageType.{
  mouse_move, mouse_down, mouse_up, mouse_left_click, mouse_right_click, mouse_dbclick,
}

pub record Packet : Type 0 where
  pub x_sgn : Bool
  pub y_sgn : Bool
  pub x_mov : ℤ
  pub y_mov : ℤ
  pub l_btn : ℕ
  pub r_btn : ℕ
  pub m_btn : ℕ
  pub x_overflow : Bool
  pub y_overflow : Bool
  pub tick : ℕ

-- `recovery`: -1, 0, 1 and 2.
pub data Recovery : Type 0 where
  off : Recovery
  armed : Recovery
  one_zero : Recovery
  two_zeros : Recovery

pub record Mouse : Type 0 where
  pub packet : Packet
  pub count : ℕ
  pub recovery : Recovery
  pub lastbtn : ℕ
  pub lastdowntick : ℕ
  pub lastclicktick : ℕ

-- -1000 as a word
abbrev pub never : ℕ
never = 2 ^ 32 - 1000

abbrev pub since : ℕ → ℕ → ℕ
since tick last = (tick + 2 ^ 32 - last) % 2 ^ 32

-- sgn ? (0xffffff00 | mov) : mov, for the low byte of the movement.
abbrev pub low_byte : ℤ → ℕ
low_byte (pos n) = n % 256
low_byte (negsuc n) = 255 - n % 256

abbrev pub signed : Bool → ℤ → ℤ
signed sgn mov = if sgn then sub_ℕ (low_byte mov) 256 else pos (low_byte mov)

abbrev pub is_zero : ℤ → Bool
is_zero (pos n) = n == 0
is_zero (negsuc n) = false

abbrev pub mouse_up_message : ℕ → Message
mouse_up_message btns = record { msg_type = mouse_up; params = pos btns ∷ [] }

abbrev pub buttons : Packet → ℕ
buttons p = p.l_btn + 2 * p.r_btn + 4 * p.m_btn

-- The message of a click: the parameters are not set.
abbrev pub click_message : Mouse → ℕ → Message
click_message m tick = record {
  msg_type =
      if ltb (since tick m.lastclicktick) 60
      then mouse_dbclick
      else if m.lastbtn % 2 == 1
      then mouse_left_click
      else mouse_right_click;
  params = [];
}

-- The part of `genMouseMessage` after the movement has been read, with the messages that are handled;
-- `none` is one that no branch has set.
unfoldable pub send_messages : Mouse → ℤ → ℤ → Mouse × List (Option Message)
send_messages m x y =
    let btns = buttons m.packet in
    let tick = m.packet.tick in
    let up = some (mouse_up_message btns) in
    if not (is_zero x) || not (is_zero y)
    then (
      record m { lastdowntick = never; lastclicktick = never; lastbtn = btns },
      (if btns == m.lastbtn then [] else up ∷ [])
          ++ some (record { msg_type = mouse_move; params = x ∷ y ∷ pos btns ∷ [] }) ∷ [],
    )
    else if not (btns == 0)
    then (
      record m { lastdowntick = tick; lastbtn = btns },
      some (record { msg_type = mouse_down; params = pos btns ∷ [] }) ∷ [],
    )
    else if ltb (since tick m.lastdowntick) 30
    then (
      record m {
        lastclicktick = if ltb (since tick m.lastclicktick) 60 then never else tick;
        lastbtn = btns;
      },
      some (click_message m tick) ∷ [],
    )
    else (record m { lastbtn = btns }, up ∷ none ∷ [])

unfoldable pub gen_mouse_message : Mouse → Mouse × List (Option Message)
gen_mouse_message m =
    let x = signed m.packet.x_sgn m.packet.x_mov in
    let y = signed m.packet.y_sgn m.packet.y_mov in
    if m.packet.x_overflow || m.packet.y_overflow
    then (m, [])
    else send_messages (record m { packet = record m.packet { x_mov = x; y_mov = y } }) x y

abbrev pub next_recovery : Recovery → ℕ → Recovery
next_recovery armed byte = if byte == 0 then one_zero else if byte == 12 then armed else off
next_recovery one_zero byte = if byte == 0 then two_zeros else if byte == 12 then armed else off
next_recovery off byte = if byte == 12 then armed else off
next_recovery two_zeros byte = if byte == 12 then armed else off

abbrev pub bit : ℕ → ℕ → ℕ
bit byte k = byte / 2 ^ k % 2

-- The `switch` on the count, with the count as it has been raised.
unfoldable pub take_byte : Mouse → ℕ → ℕ → Mouse
take_byte m byte tick =
    if m.count == 1
    then if bit byte 3 == 1
      then record m {
        packet = record m.packet {
          y_overflow = bit byte 7 == 1;
          x_overflow = bit byte 6 == 1;
          y_sgn = bit byte 5 == 1;
          x_sgn = bit byte 4 == 1;
          m_btn = bit byte 2;
          r_btn = bit byte 1;
          l_btn = bit byte 0;
        };
      }
      else record m { count = 0 }
    else if m.count == 2
    then record m { packet = record m.packet { x_mov = pos byte } }
    else if m.count == 3
    then record m { packet = record m.packet { y_mov = pos byte; tick = tick } }
    else record m { count = 0 }

abbrev pub is_two_zeros : Recovery → Bool
is_two_zeros two_zeros = true
is_two_zeros off = false
is_two_zeros armed = false
is_two_zeros one_zero = false

-- One round of the loop of `mouseintr`, for a byte that the controller has.
unfoldable pub mouse_byte : Mouse → ℕ → ℕ → Mouse × List (Option Message)
mouse_byte m byte tick =
    let m1 =
      take_byte (record m { count = m.count + 1; recovery = next_recovery m.recovery byte }) byte
        tick in
    if is_two_zeros m1.recovery
    then (record m1 { count = 0; recovery = off }, [])
    else if m1.count == 3
    then gen_mouse_message (record m1 { count = 0 })
    else (m1, [])

-- The bytes that the controller has, one after the other.
unfoldable pub mouseintr : Mouse → List ℕ → ℕ → Mouse × List (Option Message)
mouseintr m [] tick = (m, [])
mouseintr m (byte ∷ rest) tick =
    let (m1, sent) = mouse_byte m byte tick in
    let (m2, more) = mouseintr m1 rest tick in (m2, sent ++ more)
