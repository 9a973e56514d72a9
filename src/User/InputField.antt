-- ===== src/User/InputField.antt =====
-- The input field of user/user_handler.c: a text with a cursor, and the keys that change it. The text is
-- its characters before the terminator. `cols` is charPerLine, the width of the field in characters.
pub mod Cursor
pub mod Keys
mod Tests
use northos.Prelude.{
  ℕ, zero, suc, ◌+◌, ◌-◌, Bool, true, false, not, ◌&&◌, ◌||◌, List, [], ◌∷◌, ◌++◌, ltb, leb, ◌==◌,
  if◌then◌else◌, length, get_or, take, drop,
}
use northos.Prelude.Int.{ℤ, pos, negsuc, sub_ℕ}

pub record InputField : Type 0 where
  pub text : List ℕ
  pub current_pos : ℕ

-- Where a character stands: its column and its line.
pub record Place : Type 0 where
  pub x : ℕ
  pub y : ℕ

abbrev pub origin : Place
origin = record { x = 0; y = 0 }

-- The place after a character.
unfoldable pub advance : ℕ → ℕ → Place → Place
advance cols c p =
    if not (c == b'\n')
    then if ltb cols (p.x + 1)
      then record { x = 0; y = p.y + 1 }
      else record { x = p.x + 1; y = p.y }
    else record { x = 0; y = p.y + 1 }

-- The loop of `getMouseXFromOffset` and `getMouseYFromOffset`, from offset `iter` on.
unfoldable pub place_from : ℕ → List ℕ → ℕ → ℕ → Place → Place
place_from cols str iter zero p = p
place_from cols str iter (suc n) p =
    place_from cols str (suc iter) n (advance cols (get_or str iter 0) p)

abbrev pub get_mouse_x_from_offset : List ℕ → ℕ → ℕ → ℕ
get_mouse_x_from_offset str cols offset = (place_from cols str 0 offset origin).x

abbrev pub get_mouse_y_from_offset : List ℕ → ℕ → ℕ → ℕ
get_mouse_y_from_offset str cols offset = (place_from cols str 0 offset origin).y

-- The loop of `getInputOffsetFromMousePosition`, at the offset `at` and the place `p`.
unfoldable pub offset_from : ℕ → ℕ → ℕ → List ℕ → Place → ℕ → ℕ → ℕ
offset_from cols mouse_x mouse_y [] p at first = if ltb 0 first then first else at
offset_from cols mouse_x mouse_y (c ∷ str) p at first =
    let here = mouse_y == p.y in
    let more =
      offset_from cols mouse_x mouse_y str (advance cols c p) (at + 1)
        (if here then at else first) in
    if here && mouse_x == p.x then at else more

unfoldable pub get_input_offset_from_mouse_position : List ℕ → ℕ → ℕ → ℤ → ℕ
get_input_offset_from_mouse_position str cols mouse_x (negsuc n) = 0
get_input_offset_from_mouse_position str cols mouse_x (pos mouse_y) =
    offset_from cols mouse_x mouse_y str origin 0 0

-- KEY_LF, KEY_RT, KEY_UP, KEY_DN, KEY_HOME and KEY_END, each with the key of the number pad and, for the
-- arrows, the digit that mean the same.
abbrev pub means_left : ℕ → Bool
means_left c = c == 228 || (c == 75 || c == b'4')

abbrev pub means_right : ℕ → Bool
means_right c = c == 229 || (c == 77 || c == b'6')

abbrev pub means_up : ℕ → Bool
means_up c = c == 226 || (c == 72 || c == b'8')

abbrev pub means_down : ℕ → Bool
means_down c = c == 227 || (c == 80 || c == b'2')

abbrev pub means_home : ℕ → Bool
means_home c = c == 224 || c == 71

abbrev pub means_end : ℕ → Bool
means_end c = c == 225 || c == 79

abbrev pub is_typed : ℕ → Bool
is_typed c = leb b' ' c && leb c b'~' || c == b'\n'

-- The first two copies: the character goes before the cursor. The length of the text is not checked.
unfoldable pub insert : ℕ → InputField → InputField
insert c f =
    if is_typed c
    then record {
      text = take f.current_pos f.text ++ (c ∷ drop f.current_pos f.text);
      current_pos = f.current_pos + 1;
    }
    else f

-- `count` is the length of the text before the key.
unfoldable pub step_sideways : ℕ → ℕ → InputField → InputField
step_sideways c count f =
    let g =
      if means_left c && ltb 0 f.current_pos
      then record f { current_pos = f.current_pos - 1 }
      else f in
    if means_right c && ltb g.current_pos count
    then record g { current_pos = g.current_pos + 1 }
    else g

-- The four keys that look for a place; `p` is the place of the cursor before them.
unfoldable pub step_lines : ℕ → ℕ → InputField → InputField
step_lines cols c f =
    let p = place_from cols f.text 0 f.current_pos origin in
    let at = get_input_offset_from_mouse_position f.text cols in
    let up = if means_up c then at p.x (sub_ℕ p.y 1) else f.current_pos in
    let down = if means_down c then at p.x (pos (p.y + 1)) else up in
    let home = if means_home c then at 0 (pos p.y) else down in
    record f { current_pos = if means_end c then at cols (pos p.y) else home }

unfoldable pub erase : ℕ → InputField → InputField
erase c f =
    if c == 8 && ltb 0 f.current_pos
    then record {
      text = take (f.current_pos - 1) f.text ++ drop f.current_pos f.text;
      current_pos = f.current_pos - 1;
    }
    else f

-- `inputFieldKeyHandler`, for a message M_KEY_DOWN with the key `c`.
unfoldable pub input_field_key_handler : ℕ → ℕ → InputField → InputField
input_field_key_handler cols c f =
    erase c (step_lines cols c (step_sideways c (length f.text) (insert c f)))
