-- ===== src/User/Printf/Decimal.antt =====
-- What `printint` of user/printf.c writes in decimal, and what `atoi` of user/ulib.c reads of it.
use northos.Prelude.{
  ℕ, zero, suc, ◌+◌, ◌-◌, ◌*◌, ◌/◌, ◌%◌, ◌^◌, ◌<◌, ◌≤◌, ◌≡◌, refl, ◌∙◌, inl, inr, Bool, Bool-cases,
  true, false, List, [], ◌∷◌, ◌++◌, leb, ◌&&◌, ◌==◌, get_or, length, length-append, arith,
}
use northos.User.Strings.{atoi, atoi_from}
use northos.User.Printf.{digits, fill, put_back, is_neg, printint_buf, printint}

digit : (d : ℕ) → d < 10 → get_or digits d 0 ≡ 48 + d
digit zero h = refl
digit (suc zero) h = refl
digit (suc (suc zero)) h = refl
digit (suc (suc (suc zero))) h = refl
digit (suc (suc (suc (suc zero)))) h = refl
digit (suc (suc (suc (suc (suc zero))))) h = refl
digit (suc (suc (suc (suc (suc (suc zero)))))) h = refl
digit (suc (suc (suc (suc (suc (suc (suc zero))))))) h = refl
digit (suc (suc (suc (suc (suc (suc (suc (suc zero)))))))) h = refl
digit (suc (suc (suc (suc (suc (suc (suc (suc (suc zero))))))))) h = refl
digit (suc (suc (suc (suc (suc (suc (suc (suc (suc (suc d)))))))))) h = absurd (omega arith)

abbrev AllDigits : List ℕ → Type 0
AllDigits [] = Unit {0}
AllDigits (c ∷ s) = (48 ≤ c) × (c ≤ 57) × AllDigits s

atoi_from-append :
    (n c : ℕ) (s : List ℕ)
    → AllDigits s
    → 48 ≤ c
    → c ≤ 57
    → atoi_from n (s ++ c ∷ []) ≡ (atoi_from n s * 10 + c - 48) % 2 ^ 32
unfolding atoi_from
atoi_from-append n c [] h a b = ground arith
atoi_from-append n c (x ∷ s) (lo, hi, h) a b =
    let is : leb 48 x && leb x 57 ≡ true = ground arith in
    rw is (atoi_from-append ((n * 10 + x - 48) % 2 ^ 32) c s h a b)

AllDigits-append : (s : List ℕ) (c : ℕ) → AllDigits s → 48 ≤ c → c ≤ 57 → AllDigits (s ++ c ∷ [])
AllDigits-append [] c h a b = (a, b, tt)
AllDigits-append (x ∷ s) c (lo, hi, h) a b = (lo, hi, AllDigits-append s c h a b)

fill-AllDigits : (r x : ℕ) → AllDigits (put_back (fill r x 10))
unfolding fill put_back
fill-AllDigits zero x = tt
fill-AllDigits (suc r) x = elim (Bool-cases (x / 10 == 0)) [
  | inl last ↦ rw (last, is) (omega arith, omega arith, tt)
  | inr more ↦
      rw (more, is)
        (AllDigits-append (put_back (fill r (x / 10) 10)) (48 + x % 10) (fill-AllDigits r (x / 10))
          (omega arith) (omega arith))
]
  where
    is : get_or digits (x % 10) 0 ≡ 48 + x % 10
    is = digit (x % 10) (omega arith)

power_step : (k : ℕ) → 10 ^ suc k ≡ 10 * 10 ^ k
power_step k = omega arith

-- Of the digits of x the other ones are those of x / 10.
shorter : (k x : ℕ) → x < 10 ^ suc k → x / 10 < 10 ^ k
shorter k x h = let step = power_step k in omega arith

is_digit : (d : ℕ) → d < 10 → leb 48 (48 + d) && leb (48 + d) 57 ≡ true
is_digit d h = ground arith

atoi-fill : (r x : ℕ) → x < 10 ^ suc r → x < 2 ^ 32 → atoi_from 0 (put_back (fill (suc r) x 10)) ≡ x
unfolding fill put_back atoi_from
atoi-fill zero x small wide =
    let single : x < 10 = omega arith in
    let last : (x / 10 == 0) ≡ true = ground arith in
    let value : (0 * 10 + (48 + x % 10) - 48) % 2 ^ 32 ≡ x = omega arith in
    rw (last, digit (x % 10) (omega arith), is_digit (x % 10) (omega arith)) value
atoi-fill (suc r) x small wide = elim (Bool-cases (x / 10 == 0)) [
  | inl last ↦
      let none_left : x / 10 ≡ 0 = ground arith in
      let value : (0 * 10 + (48 + x % 10) - 48) % 2 ^ 32 ≡ x = omega arith in
      rw (last, digit (x % 10) (omega arith), is_digit (x % 10) (omega arith)) value
  | inr more ↦
      let front = put_back (fill (suc r) (x / 10) 10) in
      let value : (x / 10 * 10 + (48 + x % 10) - 48) % 2 ^ 32 ≡ x = omega arith in
      let rest = atoi-fill r (x / 10) (shorter (suc r) x small) (omega arith) in
      rw (more, digit (x % 10) (omega arith))
        (atoi_from-append 0 (48 + x % 10) front (fill-AllDigits (suc r) (x / 10)) (omega arith)
            (omega arith)
          ∙ rw rest value)
]

-- A number that is not negative, printed in decimal, is what `atoi` reads.
pub atoi-printint : (x : ℕ) → x < 2 ^ 31 → atoi (printint x 10 true) ≡ x
unfolding printint printint_buf atoi
atoi-printint x h =
    let positive : true && leb (2 ^ 31) x ≡ false = ground arith in
    rw positive (atoi-fill 31 x (omega arith) (omega arith))

fill-length : (r k x : ℕ) → x < 10 ^ suc k → length (fill r x 10) ≤ suc k
unfolding fill
fill-length zero k x h = omega arith
fill-length (suc r) zero x h =
    let last : (x / 10 == 0) ≡ true = ground arith in rw last (omega arith)
fill-length (suc r) (suc k) x h =
    let rest = fill-length r k (x / 10) (shorter (suc k) x h) in
    elim (Bool-cases (x / 10 == 0)) [
      | inl last ↦ rw last (omega arith)
      | inr more ↦ rw more (omega arith)
    ]

-- What `printint` puts into its buffer of 16 characters in decimal fits: it is at most 11.
pub printint_fits : (xx : ℕ) (sgn : Bool) → xx < 2 ^ 32 → length (printint_buf xx 10 sgn) ≤ 11
unfolding printint_buf
printint_fits xx sgn h = elim (Bool-cases (is_neg xx sgn)) [
  | inl neg ↦
      let short = fill-length 32 9 ((2 ^ 32 - xx) % 2 ^ 32) (omega arith) in
      rw (neg, length-append (fill 32 ((2 ^ 32 - xx) % 2 ^ 32) 10) (45 ∷ [])) (omega arith)
  | inr positive ↦ let short = fill-length 32 9 xx (omega arith) in rw positive (omega arith)
]
