-- ===== src/User/Tests.antt =====
-- Runs of the matcher, of `gets` and of `printf`.
use northos.Prelude.{ℕ, ◌≤◌, ◌≡◌, ◌↔◌, refl, true, List, [], ◌∷◌, length, arith}
use northos.User.Grep.{match, match_from, matchhere, matchstar}
use northos.User.Grep.Pattern.{Matches, match-Matches}
use northos.User.Strings.{atoi}
use northos.User.Printf.{printint, printint_buf}
use northos.User.Printf.Decimal.{atoi-printint, printint_fits}

-- "a.*c$", and a text that it matches.
abbrev pattern : List ℕ
pattern = 97 ∷ 46 ∷ 42 ∷ 99 ∷ 36 ∷ []

abbrev text : List ℕ
text = 120 ∷ 97 ∷ 98 ∷ 99 ∷ 98 ∷ 99 ∷ []

match_run : match pattern text ≡ true
unfolding match match_from matchhere matchstar
match_run = refl

match-Matches_example : (match pattern text ≡ true) ↔ Matches pattern text
match-Matches_example = match-Matches pattern text

atoi-printint_example : atoi (printint 2047 10 true) ≡ 2047
atoi-printint_example = atoi-printint 2047 (omega arith)

printint_fits_run : length (printint_buf 4294967295 10 true) ≤ 11
printint_fits_run = printint_fits 4294967295 true (omega arith)
