-- ===== src/User/InputField/Keys.antt =====
-- The keys of the input field, and the cursor.
use northos.Prelude.{
  ℕ, zero, suc, ◌+◌, ◌-◌, ◌≤◌, ◌≡◌, refl, subst, ap, Bool, true, false, not, ◌&&◌, List, [], ◌∷◌,
  ◌++◌, ltb, ◌==◌, if◌then◌else◌, length, length-append, take, drop, take-append-drop, arith,
}
use northos.Prelude.Int.{ℤ, pos, negsuc, sub_ℕ}
use northos.User.InputField.{
  InputField, Place, origin, advance, place_from, offset_from, get_input_offset_from_mouse_position,
  means_left, means_right, means_up, means_down, means_home, means_end, is_typed, insert,
  step_sideways, step_lines, erase, input_field_key_handler,
}

-- The cursor is in the text or at its end.
abbrev pub IsValid : InputField → Type 0
IsValid f = f.current_pos ≤ length f.text

offset_from-le :
    (cols mx my : ℕ) (str : List ℕ) (p : Place) (at first : ℕ)
    → first ≤ at
    → offset_from cols mx my str p at first ≤ at + length str
unfolding offset_from
offset_from-le cols mx my [] p at first le = ground arith
offset_from-le cols mx my (c ∷ str) p at first le = ground (
  arith,
  offset_from-le cols mx my str (advance cols c p) (at + 1) (if my == p.y then at else first)
      (ground arith),
)

get_input_offset-le :
    (cols mx : ℕ) (my : ℤ) (str : List ℕ)
    → get_input_offset_from_mouse_position str cols mx my ≤ length str
unfolding get_input_offset_from_mouse_position
get_input_offset-le cols mx (negsuc n) str = omega arith
get_input_offset-le cols mx (pos my) str =
    omega (arith, offset_from-le cols mx my str origin 0 0 (omega arith))

length-take : (n : ℕ) (s : List ℕ) → n ≤ length s → length (take n s) ≡ n
length-take zero s le = refl
length-take (suc n) [] le = absurd (omega arith)
length-take (suc n) (c ∷ s) le = ap suc (length-take n s (omega arith))

length-drop : (n : ℕ) (s : List ℕ) → n ≤ length s → length (drop n s) + n ≡ length s
length-drop zero s le = omega arith
length-drop (suc n) [] le = absurd (omega arith)
length-drop (suc n) (c ∷ s) le = omega (arith, length-drop n s (omega arith))

insert-IsValid : (c : ℕ) (f : InputField) → IsValid f → IsValid (insert c f)
unfolding insert
insert-IsValid c f v =
    let parts = length-append (take f.current_pos f.text) (c ∷ drop f.current_pos f.text) in
    ground (arith, parts, length-take f.current_pos f.text v, length-drop f.current_pos f.text v)

insert-length : (c : ℕ) (f : InputField) → IsValid f → length f.text ≤ length (insert c f).text
unfolding insert
insert-length c f v =
    let parts = length-append (take f.current_pos f.text) (c ∷ drop f.current_pos f.text) in
    ground (arith, parts, length-take f.current_pos f.text v, length-drop f.current_pos f.text v)

step_sideways-IsValid :
    (c n : ℕ) (f : InputField) → n ≤ length f.text → IsValid f → IsValid (step_sideways c n f)
unfolding step_sideways
step_sideways-IsValid c n f le v = ground arith

step_lines-IsValid : (cols c : ℕ) (f : InputField) → IsValid f → IsValid (step_lines cols c f)
unfolding step_lines
step_lines-IsValid cols c f v =
    let p = place_from cols f.text 0 f.current_pos origin in
    ground (
      arith,
      get_input_offset-le cols p.x (sub_ℕ p.y 1) f.text,
      get_input_offset-le cols p.x (pos (p.y + 1)) f.text,
      get_input_offset-le cols 0 (pos p.y) f.text,
      get_input_offset-le cols cols (pos p.y) f.text,
    )

erase-IsValid : (c : ℕ) (f : InputField) → IsValid f → IsValid (erase c f)
unfolding erase
erase-IsValid c f v =
    let before = f.current_pos - 1 in
    let le : before ≤ length f.text = omega arith in
    let parts = length-append (take before f.text) (drop f.current_pos f.text) in
    ground (arith, parts, length-take before f.text le, length-drop f.current_pos f.text v)

-- Every key leaves the cursor in the text or at its end.
pub input_field_key_handler-IsValid :
    (cols c : ℕ) (f : InputField) → IsValid f → IsValid (input_field_key_handler cols c f)
unfolding input_field_key_handler
input_field_key_handler-IsValid cols c f v = erase-IsValid c _ (
    step_lines-IsValid cols c _
      (step_sideways-IsValid c (length f.text) _ (insert-length c f v) (insert-IsValid c f v)))

-- A key that types a character and does not move the cursor.
abbrev pub is_plain_key : ℕ → Bool
is_plain_key c =
    is_typed c
    && (not (means_left c)
        && (not (means_right c)
            && (not (means_up c)
                && (not (means_down c) && (not (means_home c) && not (means_end c))))))

abbrev inserted : ℕ → InputField → InputField
inserted c f = record {
  text = take f.current_pos f.text ++ (c ∷ drop f.current_pos f.text);
  current_pos = f.current_pos + 1;
}

insert_typed : (c : ℕ) (f : InputField) → is_typed c ≡ true → insert c f ≡ inserted c f
unfolding insert
insert_typed c f h = rw h refl

sideways_still :
    (c n : ℕ) (f : InputField)
    → means_left c ≡ false
    → means_right c ≡ false
    → step_sideways c n f ≡ f
unfolding step_sideways
sideways_still c n f l r = rw (l, r) refl

sideways_left :
    (c n : ℕ) (f : InputField)
    → means_left c ≡ true
    → means_right c ≡ false
    → ltb 0 f.current_pos ≡ true
    → step_sideways c n f ≡ record f { current_pos = f.current_pos - 1 }
unfolding step_sideways
sideways_left c n f l r p = rw (l, r, p) refl

lines_still :
    (cols c : ℕ) (f : InputField)
    → means_up c ≡ false
    → means_down c ≡ false
    → means_home c ≡ false
    → means_end c ≡ false
    → step_lines cols c f ≡ f
unfolding step_lines
lines_still cols c f u d h e = rw (u, d, h, e) refl

typed_still : (c : ℕ) (f : InputField) → is_typed c ≡ true → erase c f ≡ f
unfolding erase
typed_still c f h = let other : (c == 8) ≡ false = ground (arith, h) in rw other refl

-- A key that types and does not move puts its character before the cursor and moves the cursor behind it.
plain_key_inserts :
    (cols c : ℕ) (f : InputField)
    → is_plain_key c ≡ true
    → input_field_key_handler cols c f ≡ inserted c f
unfolding input_field_key_handler
plain_key_inserts cols c f h =
    let t : is_typed c ≡ true = ground (arith, h) in
    rw
      (
        insert_typed c f t,
        sideways_still c (length f.text) (inserted c f) (ground (arith, h)) (ground (arith, h)),
        lines_still cols c (inserted c f) (ground (arith, h)) (ground (arith, h))
            (ground (arith, h)) (ground (arith, h)),
        typed_still c (inserted c f) t,
      )
      refl

backspace_key : (cols : ℕ) (f : InputField) → input_field_key_handler cols 8 f ≡ erase 8 f
unfolding input_field_key_handler insert step_sideways step_lines
backspace_key cols f = refl

take-append : (s t : List ℕ) (n : ℕ) → length s ≡ n → take n (s ++ t) ≡ s
take-append [] t n e = subst (λ k. take k t ≡ []) e refl
take-append (c ∷ s) t n e =
    subst (λ k. take k (c ∷ (s ++ t)) ≡ c ∷ s) e (ap (λ r. c ∷ r) (take-append s t (length s) refl))

drop-middle : (s t : List ℕ) (c : ℕ) → drop (suc (length s)) (s ++ (c ∷ t)) ≡ t
drop-middle [] t c = refl
drop-middle (d ∷ s) t c = drop-middle s t c

-- A key that types and does not move, and then backspace, leave the field as it was.
pub backspace-plain_key :
    (cols c : ℕ) (f : InputField)
    → IsValid f
    → is_plain_key c ≡ true
    → input_field_key_handler cols 8 (input_field_key_handler cols c f) ≡ f
unfolding erase
backspace-plain_key cols c f v h =
    let front = length-take f.current_pos f.text v in
    let left : take (f.current_pos + 1 - 1) (inserted c f).text ≡ take f.current_pos f.text =
      take-append (take f.current_pos f.text) (c ∷ drop f.current_pos f.text) _
        (omega (arith, front)) in
    let same_end : suc (length (take f.current_pos f.text)) ≡ f.current_pos + 1 =
      omega (arith, front) in
    let right : drop (f.current_pos + 1) (inserted c f).text ≡ drop f.current_pos f.text =
      subst (λ k. drop k (inserted c f).text ≡ drop f.current_pos f.text) same_end
        (drop-middle (take f.current_pos f.text) (drop f.current_pos f.text) c) in
    let some_chars : ltb 0 (f.current_pos + 1) ≡ true = ground arith in
    let back : f.current_pos + 1 - 1 ≡ f.current_pos = omega arith in
    rw
      (
        plain_key_inserts cols c f h,
        backspace_key cols (inserted c f),
        some_chars,
        left,
        right,
        take-append-drop f.current_pos f.text,
        back,
      )
      refl

-- A key that types and means "left", as `4` and `K` do, puts its character behind the cursor: the cursor stays.
pub typed_left_stays :
    (cols c : ℕ) (f : InputField)
    → is_typed c ≡ true
    → means_left c ≡ true
    → input_field_key_handler cols c f ≡ record {
      text = take f.current_pos f.text ++ (c ∷ drop f.current_pos f.text);
      current_pos = f.current_pos;
    }
unfolding input_field_key_handler
typed_left_stays cols c f t l =
    let back : f.current_pos + 1 - 1 ≡ f.current_pos = omega arith in
    let g = record (inserted c f) { current_pos = f.current_pos + 1 - 1 } in
    rw
      (
        insert_typed c f t,
        sideways_left c (length f.text) (inserted c f) l (ground (arith, t, l)) (ground arith),
        lines_still cols c g (ground (arith, t, l)) (ground (arith, t, l)) (ground (arith, t, l))
            (ground (arith, t, l)),
        typed_still c g t,
        back,
      )
      refl
