-- ===== src/Mouse/Tests.antt =====
-- A packet for 5 to the right and 3 down, with the left button.
use northos.Prelude.{◌+◌, ◌*◌, ◌≡◌, refl, inl, false, [], ◌∷◌, arith}
use northos.Prelude.Int.{pos}
use northos.Mouse.{Mouse, off, mouseintr}
use northos.Mouse.Packets.{first_byte, movement, moves}
use northos.Mouse.Packets.Moves.{mouseintr-moves}

abbrev at_rest : Mouse
at_rest = record {
  packet = record {
    x_sgn = false;
    y_sgn = false;
    x_mov = pos 0;
    y_mov = pos 0;
    l_btn = 0;
    r_btn = 0;
    m_btn = 0;
    x_overflow = false;
    y_overflow = false;
    tick = 0;
  };
  count = 0;
  recovery = off;
  lastbtn = 0;
  lastdowntick = 0;
  lastclicktick = 0;
}

mouseintr-moves_example :
    (mouseintr at_rest (first_byte 1 0 0 0 1 ∷ 5 ∷ 253 ∷ []) 7).1
    ≡ moves at_rest (1 + 2 * 0 + 4 * 0) (movement 0 5) (movement 1 253)
mouseintr-moves_example =
    mouseintr-moves at_rest 1 0 0 0 1 5 253 7 refl (omega arith) (omega arith) (omega arith)
      (omega arith) (omega arith) (omega arith) (omega arith) (inl refl)
