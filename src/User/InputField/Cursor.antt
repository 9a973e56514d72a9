-- ===== src/User/InputField/Cursor.antt =====
-- From an offset to its place and back.
use northos.Prelude.{
  sym, subst, ℕ, zero, suc, ◌+◌, ◌<◌, ◌≡◌, refl, ◌∙◌, ◌⊎◌, false, ◌&&◌, List, [], ◌∷◌, ◌==◌,
  if◌then◌else◌, length, get_or, arith,
}
use northos.User.InputField.{
  Place, origin, advance, place_from, offset_from, get_input_offset_from_mouse_position,
  get_mouse_x_from_offset, get_mouse_y_from_offset,
}
use northos.Prelude.Int.{pos}

-- On an earlier line, or left on the same line.
abbrev Before : Place → Place → Type 0
Before p q = (p.y < q.y) ⊎ (p.y ≡ q.y) × (p.x < q.x)

advance-Before : (cols c : ℕ) (p : Place) → Before p (advance cols c p)
unfolding advance
advance-Before cols c p = ground arith

place_from-Before :
    (cols : ℕ) (str : List ℕ) (iter n : ℕ) (p q : Place)
    → Before p q
    → Before p (place_from cols str iter n q)
unfolding place_from
place_from-Before cols str iter zero p q b = b
place_from-Before cols str iter (suc n) p q b =
    place_from-Before cols str (suc iter) n p (advance cols (get_or str iter 0) q)
      (ground (arith, b, advance-Before cols (get_or str iter 0) q))

-- The rest of a text from an offset on, as the loops see it.
place_from-cons :
    (cols c : ℕ) (str : List ℕ) (iter n : ℕ) (p : Place)
    → place_from cols (c ∷ str) (suc iter) n p ≡ place_from cols str iter n p
unfolding place_from
place_from-cons cols c str iter zero p = refl
place_from-cons cols c str iter (suc n) p = place_from-cons cols c str (suc iter) n _

offset_round :
    (cols c at first : ℕ) (str : List ℕ) (p q : Place)
    → (q.y == p.y && q.x == p.x) ≡ false
    → offset_from cols q.x q.y (c ∷ str) p at first
      ≡ offset_from cols q.x q.y str (advance cols c p) (at + 1) (if q.y == p.y then at else first)
unfolding offset_from
offset_round cols c at first str p q miss = rw miss refl

offset_from-place_from :
    (cols : ℕ) (str : List ℕ) (n at first : ℕ) (p : Place)
    → n < length str
    → let q = place_from cols str 0 n p in offset_from cols q.x q.y str p at first ≡ at + n
unfolding offset_from place_from
offset_from-place_from cols [] n at first p lt = absurd (omega arith)
offset_from-place_from cols (c ∷ str) zero at first p lt = ground arith
offset_from-place_from cols (c ∷ str) (suc n) at first p lt =
    let p1 = advance cols c p in
    let q = place_from cols str 0 n p1 in
    let later = place_from-Before cols str 0 n p p1 (advance-Before cols c p) in
    let more =
      offset_from-place_from cols str n (at + 1) (if q.y == p.y then at else first) p1
        (omega arith) in
    let miss : (q.y == p.y && q.x == p.x) ≡ false = ground (arith, later) in
    let whole : place_from cols (c ∷ str) 0 (suc n) p ≡ q = place_from-cons cols c str 0 n p1 in
    subst (λ u. offset_from cols u.x u.y (c ∷ str) p at first ≡ at + suc n) (sym whole)
      (offset_round cols c at first str p q miss ∙ more ∙ omega arith)

-- For an offset within the text the place of the character is found at the offset again.
pub get_input_offset-get_mouse :
    (cols offset : ℕ) (str : List ℕ)
    → offset < length str
    → get_input_offset_from_mouse_position str cols
        (get_mouse_x_from_offset str cols offset)
        (pos (get_mouse_y_from_offset str cols offset))
      ≡ offset
unfolding get_input_offset_from_mouse_position
get_input_offset-get_mouse cols offset str lt =
    offset_from-place_from cols str offset 0 0 origin lt ∙ omega arith
