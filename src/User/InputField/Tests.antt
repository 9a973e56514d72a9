-- ===== src/User/InputField/Tests.antt =====
-- Runs of the input field.
use northos.Prelude.{◌≡◌, refl, [], ◌∷◌, arith}
use northos.Prelude.Int.{pos}
use northos.User.InputField.{
  InputField, advance, place_from, offset_from, get_input_offset_from_mouse_position,
  get_mouse_x_from_offset, get_mouse_y_from_offset, insert, step_sideways, step_lines, erase,
  input_field_key_handler,
}
use northos.User.InputField.Cursor.{get_input_offset-get_mouse}
use northos.User.InputField.Keys.{
  IsValid, input_field_key_handler-IsValid, backspace-plain_key, typed_left_stays,
}

-- "ab", a new line and "cde", with the cursor behind the c
abbrev field : InputField
field = record { text = b'a' ∷ b'b' ∷ b'\n' ∷ b'c' ∷ b'd' ∷ b'e' ∷ []; current_pos = 4 }

-- Up, in lines of 20 characters.
up_pressed : (input_field_key_handler 20 226 field).current_pos ≡ 1
unfolding input_field_key_handler insert step_sideways step_lines erase place_from advance
    offset_from get_input_offset_from_mouse_position
up_pressed = refl

-- End, on the last line, leaves the cursor before the last character.
end_pressed : (input_field_key_handler 20 225 field).current_pos ≡ 5
unfolding input_field_key_handler insert step_sideways step_lines erase place_from advance
    offset_from get_input_offset_from_mouse_position
end_pressed = refl

get_input_offset-get_mouse_example :
    get_input_offset_from_mouse_position field.text 2
      (get_mouse_x_from_offset field.text 2 4)
      (pos (get_mouse_y_from_offset field.text 2 4))
    ≡ 4
get_input_offset-get_mouse_example = get_input_offset-get_mouse 2 4 field.text (omega arith)

input_field_key_handler-IsValid_example : IsValid (input_field_key_handler 20 225 field)
input_field_key_handler-IsValid_example = input_field_key_handler-IsValid 20 225 field (omega arith)

backspace-plain_key_example :
    input_field_key_handler 20 8 (input_field_key_handler 20 b'x' field) ≡ field
backspace-plain_key_example = backspace-plain_key 20 b'x' field (omega arith) refl

typed_left_stays_run :
    input_field_key_handler 20 b'K' field
    ≡ record { text = b'a' ∷ b'b' ∷ b'\n' ∷ b'c' ∷ b'K' ∷ b'd' ∷ b'e' ∷ []; current_pos = 4 }
typed_left_stays_run = typed_left_stays 20 b'K' field refl refl
