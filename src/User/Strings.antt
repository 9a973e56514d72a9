-- ===== src/User/Strings.antt =====
-- Strings and numbers in user/ulib.c. A C string is the list of its characters up to the
-- terminating 0; a character is a number below 256, and those of a string are not 0.
pub mod Lemmas
use northos.Prelude.Int.{ℤ, sub_ℕ}
use northos.Prelude.{
  ℕ, zero, suc, ◌+◌, ◌-◌, ◌*◌, ◌%◌, ◌^◌, Bool, true, false, ◌&&◌, ◌||◌, List, [], ◌∷◌, Option, none,
  some, ltb, leb, ◌==◌, if◌then◌else◌,
}

-- *p, of what is left of a string.
abbrev pub first : List ℕ → ℕ
first [] = 0
first (c ∷ s) = c

unfoldable pub strcmp : List ℕ → List ℕ → ℤ
strcmp [] q = sub_ℕ 0 (first q)
strcmp (c ∷ p) [] = sub_ℕ c 0
strcmp (c ∷ p) (d ∷ q) = let more = strcmp p q in if c == d then more else sub_ℕ c d

pub strlen : List ℕ → ℕ
strlen [] = 0
strlen (c ∷ s) = strlen s + 1

-- The rest of the string from the first c on.
pub strchr : List ℕ → ℕ → Option (List ℕ)
strchr [] c = none
strchr (x ∷ s) c = let more = strchr s c in if x == c then some (x ∷ s) else more

-- The loop of `atoi`, with n a word.
unfoldable pub atoi_from : ℕ → List ℕ → ℕ
atoi_from n [] = n
atoi_from n (c ∷ s) =
    let more = atoi_from ((n * 10 + c - 48) % 2 ^ 32) s in if leb 48 c && leb c 57 then more else n

unfoldable pub atoi : List ℕ → ℕ
unfolding atoi_from
atoi s = atoi_from 0 s

-- The loop of `gets`, for the characters to be read; their end is a read that fails. It returns the
-- line and what has not been read. The rounds left come first.
pub gets_from : ℕ → List ℕ → List ℕ × List ℕ
gets_from zero input = ([], input)
gets_from (suc r) [] = ([], [])
gets_from (suc r) (c ∷ input) =
    let (line, rest) = gets_from r input in
    if c == 10 || c == 13 then (c ∷ [], input) else (c ∷ line, rest)

unfoldable pub gets : List ℕ → ℕ → List ℕ × List ℕ
gets input max = gets_from (max - 1) input
