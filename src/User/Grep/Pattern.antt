-- ===== src/User/Grep/Pattern.antt =====
-- The patterns of kernel/grep.c as regular expressions, and the matcher against what they mean.
use northos.Prelude.{
  ℕ, ◌≡◌, refl, sym, ap, subst, ◌↔◌, ◌⊎◌, inl, inr, Bool, Bool-cases, true, ◌||◌, List, [], ◌∷◌,
  ◌++◌, ◌==◌, if◌then◌else◌, arith,
}
use northos.User.Grep.{
  caret, dollar, dot, asterisk, at_end, matchstar, matchchar, matchhere, match_from, match,
}

-- A character, or any number of them, where a dot stands for each; the end of the text.
pub data Atom : Type 0 where
  one : ℕ → Atom
  star : ℕ → Atom
  stop : Atom

-- Only a last '$' is the end of the text.
pub atoms : List ℕ → List Atom
atoms [] = []
atoms (c ∷ []) = if c == dollar then stop ∷ [] else one c ∷ []
atoms (c ∷ s ∷ re) =
    let after_star = atoms re in
    let after_one = atoms (s ∷ re) in
    if s == asterisk then star c ∷ after_star else one c ∷ after_one

abbrev pub Fits : ℕ → ℕ → Type 0
Fits c x = (c ≡ dot) ⊎ (c ≡ x)

abbrev pub AllFit : ℕ → List ℕ → Type 0
AllFit c [] = Unit {0}
AllFit c (x ∷ xs) = Fits c x × AllFit c xs

-- A text that begins with a match of the atoms.
abbrev pub Begins : List Atom → List ℕ → Type 0
Begins [] text = Unit {0}
Begins (one c ∷ ps) text = (x : ℕ) × (rest : List ℕ) × (text ≡ x ∷ rest) × Fits c x × Begins ps rest
Begins (star c ∷ ps) text =
    (xs : List ℕ) × (rest : List ℕ) × (text ≡ xs ++ rest) × AllFit c xs × Begins ps rest
Begins (stop ∷ ps) text = text ≡ []

-- A text with a match in it, or at its start where the pattern begins with '^'.
abbrev pub Matches : List ℕ → List ℕ → Type 0
Matches [] text = Unit {0}
Matches (c ∷ re) text =
    ((c ≡ caret) × Begins (atoms re) text)
    ⊎ ((c ≡ caret → ⊥)
        × ((before : List ℕ) × (rest : List ℕ) × (text ≡ before ++ rest)
            × Begins (atoms (c ∷ re)) rest))

matchchar-Begins :
    (here : List ℕ → Bool) (ps : List Atom) (c : ℕ) (text : List ℕ)
    → ((t : List ℕ) → (here t ≡ true) ↔ Begins ps t)
    → (matchchar here c text ≡ true) ↔ Begins (one c ∷ ps) text
matchchar-Begins here ps c [] h = (λ e. ground arith, λ (x, rest, e, f, b). ground arith)
matchchar-Begins here ps c (x ∷ text) h = elim (Bool-cases (c == dot || c == x)) [
  | inl fits ↦ (
    λ e. (x, text, refl, ground arith, (h text).0 (rw fits at e)),
    λ (y, rest, e, f, b). rw fits ((h text).1 (subst (Begins ps) (sym (cc)) b)),
  )
  | inr fits_not ↦ (
    λ e. absurd (ground arith),
    λ (y, rest, e, f, b). let same : x ≡ y = cc in absurd (ground arith),
  )
]

matchstar-Begins :
    (here : List ℕ → Bool) (ps : List Atom) (c : ℕ) (text : List ℕ)
    → ((t : List ℕ) → (here t ≡ true) ↔ Begins ps t)
    → (matchstar here c text ≡ true) ↔ Begins (star c ∷ ps) text
unfolding matchstar
matchstar-Begins here ps c [] h = (λ e. ([], [], refl, tt, (h []).0 e), none_left)
  where
    none_left : Begins (star c ∷ ps) [] → here [] ≡ true
    none_left ([], rest, e, f, b) = (h []).1 (subst (Begins ps) (sym e) b)
    none_left (x ∷ xs, rest, e, f, b) = absurd (ground arith)
matchstar-Begins here ps c (x ∷ text) h =
    let later = matchstar-Begins here ps c text h in (forth later, back later)
  where
    forth :
        (matchstar here c text ≡ true) ↔ Begins (star c ∷ ps) text
        → matchstar here c (x ∷ text) ≡ true
        → Begins (star c ∷ ps) (x ∷ text)
    forth rec e = elim (Bool-cases (here (x ∷ text))) [
      | inl now ↦ ([], x ∷ text, refl, tt, (h (x ∷ text)).0 now)
      | inr later ↦ elim (Bool-cases (x == c || c == dot)) [
        | inl fits ↦
            let (xs, rest, eq, f, b) = rec.0 (rw (later, fits) at e) in
            (x ∷ xs, rest, ap (λ t. x ∷ t) eq, (ground arith, f), b)
        | inr fits_not ↦ absurd (ground arith)
      ]
    ]

    back :
        (matchstar here c text ≡ true) ↔ Begins (star c ∷ ps) text
        → Begins (star c ∷ ps) (x ∷ text)
        → matchstar here c (x ∷ text) ≡ true
    back rec ([], rest, e, f, b) =
        let now = (h (x ∷ text)).1 (subst (Begins ps) (sym e) b) in rw now refl
    back rec (y ∷ xs, rest, e, (f, fs), b) =
        let same : x ≡ y = cc in
        let tails : text ≡ xs ++ rest = cc in
        let fits : x == c || c == dot ≡ true = ground arith in
        let later = rec.1 (xs, rest, tails, fs, b) in
        elim (Bool-cases (here (x ∷ text))) [
          | inl now ↦ rw now refl
          | inr not_now ↦ rw (not_now, fits, later) refl
        ]

-- `matchhere` says whether the text begins with a match of the pattern.
pub matchhere-Begins : (re text : List ℕ) → (matchhere re text ≡ true) ↔ Begins (atoms re) text
unfolding matchhere atoms
matchhere-Begins [] text = (λ e. tt, λ b. refl)
matchhere-Begins (c ∷ []) text = elim (Bool-cases (c == dollar)) [
  | inl last ↦ rw last (ends text)
  | inr char ↦ rw char (matchchar-Begins (matchhere []) [] c text (λ t. matchhere-Begins [] t))
]
  where
    ends : (t : List ℕ) → (at_end t ≡ true) ↔ (t ≡ [])
    ends [] = (λ e. refl, λ e. refl)
    ends (x ∷ t) = (λ e. ground arith, λ e. ground arith)
matchhere-Begins (c ∷ s ∷ re) text = elim (Bool-cases (s == asterisk)) [
  | inl many ↦
      rw many (matchstar-Begins (matchhere re) (atoms re) c text (λ t. matchhere-Begins re t))
  | inr single ↦ rw single (
      matchchar-Begins (matchhere (s ∷ re)) (atoms (s ∷ re)) c text
        (λ t. matchhere-Begins (s ∷ re) t))
]

match_from-Begins :
    (re text : List ℕ)
    → (match_from re text ≡ true)
      ↔ ((before : List ℕ) × (rest : List ℕ) × (text ≡ before ++ rest) × Begins (atoms re) rest)
unfolding match_from
match_from-Begins re [] = (λ e. ([], [], refl, (matchhere-Begins re []).0 e), back)
  where
    back :
        (before : List ℕ) × (rest : List ℕ) × ([] ≡ before ++ rest) × Begins (atoms re) rest
        → matchhere re [] ≡ true
    back ([], rest, e, b) = (matchhere-Begins re []).1 (subst (Begins (atoms re)) (sym e) b)
    back (x ∷ xs, rest, e, b) = absurd (ground arith)
match_from-Begins re (x ∷ text) = let later = match_from-Begins re text in (forth later, back later)
  where
    forth :
        (match_from re text ≡ true)
          ↔ ((before : List ℕ) × (rest : List ℕ) × (text ≡ before ++ rest) × Begins (atoms re) rest)
        → match_from re (x ∷ text) ≡ true
        → (before : List ℕ) × (rest : List ℕ) × (x ∷ text ≡ before ++ rest) × Begins (atoms re) rest
    forth rec e = elim (Bool-cases (matchhere re (x ∷ text))) [
      | inl now ↦ ([], x ∷ text, refl, (matchhere-Begins re (x ∷ text)).0 now)
      | inr later ↦
          let (before, rest, eq, b) = rec.0 (rw later at e) in
          (x ∷ before, rest, ap (λ t. x ∷ t) eq, b)
    ]

    back :
        (match_from re text ≡ true)
          ↔ ((before : List ℕ) × (rest : List ℕ) × (text ≡ before ++ rest) × Begins (atoms re) rest)
        → (before : List ℕ) × (rest : List ℕ) × (x ∷ text ≡ before ++ rest) × Begins (atoms re) rest
        → match_from re (x ∷ text) ≡ true
    back rec ([], rest, e, b) =
        let now = (matchhere-Begins re (x ∷ text)).1 (subst (Begins (atoms re)) (sym e) b) in
        rw now refl
    back rec (y ∷ before, rest, e, b) =
        let tails : text ≡ before ++ rest = cc in
        let later = rec.1 (before, rest, tails, b) in
        elim (Bool-cases (matchhere re (x ∷ text))) [
          | inl now ↦ rw now refl
          | inr not_now ↦ rw (not_now, later) refl
        ]

-- `match` says whether the text matches the pattern: whether a match of the pattern as a regular
-- expression begins somewhere in the text, or at its start where the pattern begins with '^'.
pub match-Matches : (re text : List ℕ) → (match re text ≡ true) ↔ Matches re text
unfolding match atoms
match-Matches [] text = (λ e. tt, λ m. (match_from-Begins [] text).1 ([], text, refl, tt))
match-Matches (c ∷ re) text = elim (Bool-cases (c == caret)) [
  | inl start ↦
      let is : c ≡ caret = ground arith in
      rw start (λ e. inl (is, (matchhere-Begins re text).0 e), anchored is)
  | inr anywhere ↦
      let is_not : c ≡ caret → ⊥ = λ e. ground arith in
      rw anywhere (λ e. inr (is_not, (match_from-Begins (c ∷ re) text).0 e), floating is_not)
]
  where
    anchored : c ≡ caret → Matches (c ∷ re) text → matchhere re text ≡ true
    anchored is (inl (same, b)) = (matchhere-Begins re text).1 b
    anchored is (inr (other, found)) = absurd (other is)

    floating : (c ≡ caret → ⊥) → Matches (c ∷ re) text → match_from (c ∷ re) text ≡ true
    floating other (inl (is, b)) = absurd (other is)
    floating other (inr (never, found)) = (match_from-Begins (c ∷ re) text).1 found
