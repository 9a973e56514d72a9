-- ===== src/User/Printf.antt =====
-- user/printf.c: the characters that `printint` and `printf` write, in order. A number is a 32-bit
-- word.
pub mod Decimal
use northos.Prelude.{
  ℕ, zero, suc, ◌+◌, ◌-◌, ◌*◌, ◌/◌, ◌%◌, ◌^◌, Bool, true, false, ◌&&◌, ◌||◌, List, [], ◌∷◌, ◌++◌,
  ltb, leb, ◌==◌, if◌then◌else◌, get_or,
}

-- "0123456789ABCDEF"
abbrev pub digits : List ℕ
digits = 48 ∷ 49 ∷ 50 ∷ 51 ∷ 52 ∷ 53 ∷ 54 ∷ 55 ∷ 56 ∷ 57 ∷ 65 ∷ 66 ∷ 67 ∷ 68 ∷ 69 ∷ 70 ∷ []

-- The loop that fills `buf`, the last digit first. The rounds left come first; a word has at most 32
-- digits.
pub fill : ℕ → ℕ → ℕ → List ℕ
fill zero x base = []
fill (suc r) x base =
    let more = fill r (x / base) base in
    get_or digits (x % base) 0 ∷ (if x / base == 0 then [] else more)

-- while (--i >= 0) putc(fd, buf[i]);
pub put_back : List ℕ → List ℕ
put_back [] = []
put_back (c ∷ buf) = put_back buf ++ c ∷ []

-- sgn && xx < 0
abbrev pub is_neg : ℕ → Bool → Bool
is_neg xx sgn = sgn && leb (2 ^ 31) xx

-- What `printint` has in `buf`.
pub printint_buf : ℕ → ℕ → Bool → List ℕ
printint_buf xx base sgn =
    if is_neg xx sgn then fill 32 ((2 ^ 32 - xx) % 2 ^ 32) base ++ 45 ∷ [] else fill 32 xx base

unfoldable pub printint : ℕ → ℕ → Bool → List ℕ
unfolding printint_buf
printint xx base sgn = put_back (printint_buf xx base sgn)

-- "(null)" where the pointer is 0, and otherwise the string at it.
abbrev pub string_arg : (ℕ → List ℕ) → ℕ → List ℕ
string_arg string_at p = if p == 0 then 40 ∷ 110 ∷ 117 ∷ 108 ∷ 108 ∷ 41 ∷ [] else string_at p

-- What one character after a '%' writes, and by how much `ap` moves.
abbrev pub directive : (ℕ → List ℕ) → ℕ → ℕ → List ℕ × ℕ
directive string_at c arg =
    if c == 100
    then (printint arg 10 true, 1)
    else if c == 120 || c == 112
    then (printint arg 16 false, 1)
    else if c == 115
    then (string_arg string_at arg, 1)
    else if c == 99
    then (arg % 256 ∷ [], 1)
    else if c == 37
    then (c ∷ [], 0)
    else (37 ∷ c ∷ [], 0)

-- `printf` of what is left of the format, with the words from `ap` on as its arguments. The state is
-- whether a '%' came before.
unfoldable pub printf_from : (ℕ → List ℕ) → (ℕ → ℕ) → Bool → ℕ → List ℕ → List ℕ
printf_from string_at args percent ap [] = []
printf_from string_at args false ap (c ∷ fmt) =
    let text = printf_from string_at args false ap fmt in
    let after_percent = printf_from string_at args true ap fmt in
    if c == 37 then after_percent else c ∷ text
printf_from string_at args true ap (c ∷ fmt) =
    let (out, used) = directive string_at c (args ap) in
    out ++ printf_from string_at args false (ap + used) fmt

unfoldable pub printf : (ℕ → List ℕ) → (ℕ → ℕ) → List ℕ → List ℕ
printf string_at args fmt = printf_from string_at args false 0 fmt
