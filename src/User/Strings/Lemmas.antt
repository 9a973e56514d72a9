-- ===== src/User/Strings/Lemmas.antt =====
-- What `strcmp`, `strchr` and `gets` of user/ulib.c return.
use northos.Prelude.{
  ℕ, zero, suc, ◌-◌, ◌<◌, ◌≤◌, ◌≡◌, inl, inr, ◌↔◌, refl, ap, Bool-cases, List, [], ◌∷◌, ◌++◌,
  length, ◌==◌, ◌||◌, arith,
}
use northos.Prelude.Int.{pos}
use northos.User.Strings.{strcmp, gets, gets_from}

-- The characters of a C string.
abbrev pub IsString : List ℕ → Type 0
IsString [] = Unit {0}
IsString (c ∷ s) = (0 < c) × IsString s

-- Two strings are the same just where `strcmp` returns 0.
pub strcmp-equal : (p q : List ℕ) → IsString p → IsString q → (strcmp p q ≡ pos 0) ↔ (p ≡ q)
unfolding strcmp
strcmp-equal [] [] h k = (λ e. refl, λ e. refl)
strcmp-equal [] (d ∷ q) (h) (lo, k) = (λ e. ground arith, λ e. ground arith)
strcmp-equal (c ∷ p) [] (lo, h) k = (λ e. ground arith, λ e. ground arith)
strcmp-equal (c ∷ p) (d ∷ q) (lo, h) (lo', k) =
    let rec = strcmp-equal p q h k in
    elim (Bool-cases (c == d)) [
      | inl same ↦
          let eq : c ≡ d = ground arith in
          rw same (λ e. let tails = rec.0 e in cc, λ e. let tails : p ≡ q = cc in rec.1 tails)
      | inr other ↦
          rw other (λ e. absurd (ground arith), λ e. let eq : c ≡ d = cc in absurd (ground arith))
    ]

gets_from-fits :
    (r : ℕ) (input : List ℕ)
    → (length (gets_from r input).0 ≤ r) × ((gets_from r input).0 ++ (gets_from r input).1 ≡ input)
unfolding gets_from
gets_from-fits zero input = (omega arith, refl)
gets_from-fits (suc r) [] = (omega arith, refl)
gets_from-fits (suc r) (c ∷ input) =
    let (short, whole) = gets_from-fits r input in
    elim (Bool-cases (c == 10 || c == 13)) [
      | inl end ↦ rw end (omega arith, refl)
      | inr more ↦ rw more (omega arith, ap (λ s. c ∷ s) whole)
    ]

-- `gets` with room for max characters: with the 0 after it the line fits, and it is the characters
-- read.
pub gets-fits :
    (input : List ℕ) (max : ℕ)
    → 0 < max
    → (length (gets input max).0 < max) × ((gets input max).0 ++ (gets input max).1 ≡ input)
unfolding gets
gets-fits input max h = let (short, whole) = gets_from-fits (max - 1) input in (omega arith, whole)
