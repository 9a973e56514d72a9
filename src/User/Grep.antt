-- ===== src/User/Grep.antt =====
-- The matcher of kernel/grep.c. A C string is the list of its characters up to the terminating 0.
pub mod Pattern
use northos.Prelude.{ℕ, Bool, true, false, ◌||◌, List, [], ◌∷◌, ◌==◌, if◌then◌else◌}

-- '^', '$', '.' and '*'
abbrev pub caret : ℕ
caret = 94

abbrev pub dollar : ℕ
dollar = 36

abbrev pub dot : ℕ
dot = 46

abbrev pub asterisk : ℕ
asterisk = 42

-- *text == '\0'
abbrev pub at_end : List ℕ → Bool
at_end [] = true
at_end (x ∷ text) = false

-- `matchstar`, where `here` is `matchhere` of the rest of the pattern.
unfoldable pub matchstar : (List ℕ → Bool) → ℕ → List ℕ → Bool
matchstar here c [] = here []
matchstar here c (x ∷ text) =
    let more = matchstar here c text in
    if here (x ∷ text) then true else if x == c || c == dot then more else false

-- if (*text != '\0' && (c == '.' || c == *text)) return matchhere(re + 1, text + 1); return 0;
abbrev pub matchchar : (List ℕ → Bool) → ℕ → List ℕ → Bool
matchchar here c [] = false
matchchar here c (x ∷ text) = if c == dot || c == x then here text else false

unfoldable pub matchhere : List ℕ → List ℕ → Bool
matchhere [] text = true
matchhere (c ∷ []) text = if c == dollar then at_end text else matchchar (matchhere []) c text
matchhere (c ∷ s ∷ re) text =
    let star = matchstar (matchhere re) c text in
    let one = matchchar (matchhere (s ∷ re)) c text in if s == asterisk then star else one

-- The loop of `match`.
unfoldable pub match_from : List ℕ → List ℕ → Bool
match_from re [] = matchhere re []
match_from re (x ∷ text) =
    let more = match_from re text in if matchhere re (x ∷ text) then true else more

unfoldable pub match : List ℕ → List ℕ → Bool
match [] text = match_from [] text
match (c ∷ re) text = if c == caret then matchhere re text else match_from (c ∷ re) text
