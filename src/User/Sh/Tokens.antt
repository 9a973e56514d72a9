-- ===== src/User/Sh/Tokens.antt =====
-- user/sh.c: tokens of the grammar, and `gettoken`.
use northos.Prelude.{ℕ, ◌<◌, ◌≤◌, ◌≡◌, refl, true, false, [], ◌∷◌, ◌==◌, length, arith}
use northos.User.Sh.{
  Text, is_in, is_space, is_plain, symbols, skip_spaces, span_word, more_than, lex, gettoken,
  starts,
}
use northos.User.Sh.Grammar
use northos.User.Sh.Grammar.{
  Blanks, Word, Redirs, Args, Backs, Reads, Level, is_trimmed, is_break, one_command, pipeline,
  line,
}

pub trimmed-skip_spaces : (s : Text) → is_trimmed s ≡ true → skip_spaces s ≡ s
unfolding skip_spaces
trimmed-skip_spaces [] h = refl
trimmed-skip_spaces (c ∷ s) h = ground (arith, h)

pub Blanks-skip_spaces : {s r : Text} → Blanks s r → skip_spaces s ≡ r
unfolding skip_spaces
Blanks-skip_spaces {s} (Grammar.trimmed h) = trimmed-skip_spaces s h
Blanks-skip_spaces (Grammar.blank sp b) = rw sp (Blanks-skip_spaces b)

pub Blanks-trimmed : {s r : Text} → Blanks s r → is_trimmed r ≡ true
Blanks-trimmed (Grammar.trimmed h) = h
Blanks-trimmed (Grammar.blank sp b) = Blanks-trimmed b

break-span_word : (r : Text) → is_break r ≡ true → span_word r ≡ ([], r)
unfolding span_word
break-span_word [] h = refl
break-span_word (c ∷ s) h = ground (arith, h)

Word-span_word : {w s r : Text} → Word w s r → span_word s ≡ (w, r)
unfolding span_word
Word-span_word (Grammar.last {c} {r} p b) = rw (p, break-span_word r b) refl
Word-span_word (Grammar.next p w) = rw (p, Word-span_word w) refl

-- A word starts with a character of a word.
pub Word-head :
    {w s r : Text} → Word w s r → (c : ℕ) × (s1 : Text) × (s ≡ c ∷ s1) × (is_plain c ≡ true)
Word-head (Grammar.last {c} {r} p b) = (c, r, refl, p)
Word-head (Grammar.next {c} {w} {s} p d) = (c, s, refl, p)

not_greater : (c : ℕ) → is_plain c ≡ true → (c == b'>') ≡ false
not_greater c p = ground (arith, p)

not_symbol : (c : ℕ) → is_plain c ≡ true → is_in symbols c ≡ false
not_symbol c p = ground (arith, p)

plain-lex :
    (c : ℕ) (s : Text)
    → is_plain c ≡ true
    → lex (c ∷ s)
      ≡ record { ret = b'a'; text = (span_word (c ∷ s)).0; left = (span_word (c ∷ s)).1 }
unfolding lex
plain-lex c s p = rw (not_greater c p, not_symbol c p) refl

pub plain-trimmed : (c : ℕ) (s : Text) → is_plain c ≡ true → is_trimmed (c ∷ s) ≡ true
plain-trimmed c s p = ground (arith, p)

pub Word-gettoken :
    {w s s1 s2 : Text}
    → Word w s s1
    → Blanks s1 s2
    → gettoken s ≡ record { ret = b'a'; text = w; left = s2 }
unfolding gettoken
Word-gettoken {w} {s} {s1} {s2} d b =
    let (c, t, e, p) = Word-head d in
    let span = Word-span_word d in
    rw
      (
        e,
        trimmed-skip_spaces (c ∷ t) (plain-trimmed c t p),
        plain-lex c t p,
        rw e at span,
        Blanks-skip_spaces b,
      )
      refl

pub Blanks-le : {s r : Text} → Blanks s r → length r ≤ length s
Blanks-le (Grammar.trimmed h) = omega arith
Blanks-le (Grammar.blank sp b) = omega (arith, Blanks-le b)

pub Word-lt : {w s r : Text} → Word w s r → length r < length s
Word-lt (Grammar.last p b) = omega arith
Word-lt (Grammar.next p d) = omega (arith, Word-lt d)

-- A character other than `>` that is a token by itself.
abbrev pub IsMark : ℕ → Type 0
IsMark c = (is_space c ≡ false) × (is_in symbols c ≡ true) × ((c == b'>') ≡ false)

pub mark-gettoken :
    (c : ℕ) {s r : Text}
    → IsMark c
    → Blanks s r
    → gettoken (c ∷ s) ≡ record { ret = c; text = c ∷ []; left = r }
unfolding gettoken lex skip_spaces
mark-gettoken c (ns, sy, ng) b = rw (ns, ng, sy, Blanks-skip_spaces b) refl

more_than-other :
    (s : Text)
    → starts (b'>' ∷ []) s ≡ false
    → more_than s ≡ record { ret = b'>'; text = b'>' ∷ []; left = s }
more_than-other [] h = refl
more_than-other (c ∷ s) h = ground (arith, h)

-- The file of a redirection does not start with `>`.
pub file-starts :
    {file s s1 s2 : Text} → Blanks s s1 → Word file s1 s2 → starts (b'>' ∷ []) s ≡ false
file-starts (Grammar.trimmed h) w = let (c, t, e, p) = Word-head w in rw e (ground (arith, p))
file-starts (Grammar.blank {c} sp b) w = ground (arith, sp)

pub output-gettoken :
    {s r : Text}
    → starts (b'>' ∷ []) s ≡ false
    → Blanks s r
    → gettoken (b'>' ∷ s) ≡ record { ret = b'>'; text = b'>' ∷ []; left = r }
unfolding gettoken lex skip_spaces
output-gettoken {s} h b = rw (more_than-other s h, Blanks-skip_spaces b) refl

pub append-gettoken :
    {s r : Text}
    → Blanks s r
    → gettoken (b'>' ∷ b'>' ∷ s) ≡ record { ret = b'+'; text = b'>' ∷ b'>' ∷ []; left = r }
unfolding gettoken lex skip_spaces
append-gettoken b = rw (Blanks-skip_spaces b) refl
