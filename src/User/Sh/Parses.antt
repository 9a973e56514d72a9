-- ===== src/User/Sh/Parses.antt =====
-- user/sh.c: words, redirections and arguments of the grammar, and the parser on them.
use northos.Prelude.{
  ℕ, zero, suc, ◌<◌, ◌≤◌, ◌≡◌, refl, ap, ◌∙◌, Bool, true, false, List, [], ◌∷◌, ◌++◌, leb, length,
  length-append, arith,
}
use northos.User.Sh.{
  Text, Cmd, ok, is_in, skip_spaces, lex, gettoken, starts, peek, redirect, redirs_loop,
  parseredirs, with_args, args_loop,
}
use northos.User.Sh.Grammar
use northos.User.Sh.Grammar.{
  Blanks, Word, Redirs, Args, Backs, Reads, Level, is_trimmed, is_break, one_command, pipeline,
  line,
}
use northos.User.Sh.Tokens.{
  trimmed-skip_spaces, Blanks-trimmed, Word-head, plain-trimmed, Word-gettoken, Blanks-le, Word-lt,
  mark-gettoken, file-starts, output-gettoken, append-gettoken,
}

-- One round of the loop, for a redirection that is read.
redirs_round :
    (n tok : ℕ) (c : Cmd) (s : Text) {file text s2 s3 s4 : Text}
    → peek (b'<' ∷ b'>' ∷ []) s ≡ true
    → gettoken s ≡ record { ret = tok; text = text; left = s2 }
    → Word file s2 s3
    → Blanks s3 s4
    → redirs_loop (suc n) c s ≡ redirs_loop n (redirect tok c file) s4
unfolding redirs_loop
redirs_round n tok c s p e w b = rw (p, e, Word-gettoken w b) refl

redirs_end :
    (n : ℕ) (c : Cmd) (s : Text)
    → is_trimmed s ≡ true
    → starts (b'<' ∷ b'>' ∷ []) s ≡ false
    → redirs_loop (suc n) c s ≡ ok (c, s)
unfolding redirs_loop peek
redirs_end n c s tr h = rw (trimmed-skip_spaces s tr, h) refl

pub Redirs-parses :
    {c d : Cmd} {s r : Text}
    → Redirs c d s r
    → is_trimmed s ≡ true
    → starts (b'<' ∷ b'>' ∷ []) r ≡ false
    → (n : ℕ) → length s < n
    → redirs_loop n c s ≡ ok (d, r)
unfolding peek skip_spaces
Redirs-parses re tr follow zero lt = absurd (omega arith)
Redirs-parses (Grammar.Redirs.none {c} {r}) tr follow (suc n) lt = redirs_end n c r tr follow
Redirs-parses (Grammar.input {c} b w b1 re) tr follow (suc n) lt =
    redirs_round n b'<' c _ refl (mark-gettoken b'<' (refl, refl, refl) b) w b1
    ∙ Redirs-parses re (Blanks-trimmed b1) follow n
        (omega (arith, Blanks-le b, Word-lt w, Blanks-le b1))
Redirs-parses (Grammar.output {c} b w b1 re) tr follow (suc n) lt =
    redirs_round n b'>' c _ refl (output-gettoken (file-starts b w) b) w b1
    ∙ Redirs-parses re (Blanks-trimmed b1) follow n
        (omega (arith, Blanks-le b, Word-lt w, Blanks-le b1))
Redirs-parses (Grammar.append {c} b w b1 re) tr follow (suc n) lt =
    redirs_round n b'+' c _ refl (append-gettoken b) w b1
    ∙ Redirs-parses re (Blanks-trimmed b1) follow n
        (omega (arith, Blanks-le b, Word-lt w, Blanks-le b1))

-- Nothing follows, or one of some characters does.
abbrev pub stops : Text → Text → Bool
stops toks [] = true
stops toks (c ∷ s) = is_in toks c

abbrev pub ends_args : Text
ends_args = b'|' ∷ b')' ∷ b'&' ∷ b';' ∷ []

-- What may stand where an argument may: an argument, or what follows the command.
unfoldable pub IsArgs : Text → Type 0
IsArgs s =
    (is_trimmed s ≡ true) × (starts (b'<' ∷ b'>' ∷ []) s ≡ false) × (starts (b'(' ∷ []) s ≡ false)

pub stops-IsArgs : (s : Text) → stops ends_args s ≡ true → IsArgs s
unfolding IsArgs
stops-IsArgs [] h = (refl, refl, refl)
stops-IsArgs (c ∷ s) h = ground (arith, h)

Word-IsArgs : {w s r : Text} → Word w s r → IsArgs s
unfolding IsArgs
Word-IsArgs d = let (c, t, e, p) = Word-head d in rw e (ground (arith, p))

pub Args-IsArgs :
    {argv argv1 : List Text} {c d : Cmd} {s r : Text}
    → Args argv c argv1 d s r
    → stops ends_args r ≡ true
    → IsArgs s
Args-IsArgs {s} Grammar.Args.none h = stops-IsArgs s h
Args-IsArgs (Grammar.arg w b re few a) h = Word-IsArgs w

pub peek-trimmed : (toks s : Text) → is_trimmed s ≡ true → peek toks s ≡ starts toks s
unfolding peek
peek-trimmed toks s h = ap (starts toks) (trimmed-skip_spaces s h)

stops-starts : (c : ℕ) (s : Text) → stops ends_args (c ∷ s) ≡ true → peek ends_args (c ∷ s) ≡ true
unfolding IsArgs
stops-starts c s h = peek-trimmed ends_args (c ∷ s) (stops-IsArgs (c ∷ s) h).0 ∙ h

args_stop :
    (n : ℕ) (argv : List Text) (c : Cmd) (s : Text)
    → peek ends_args s ≡ true
    → is_trimmed s ≡ true
    → args_loop (suc n) argv c s ≡ ok (with_args argv c, s)
unfolding args_loop
args_stop n argv c s p tr = rw (p, trimmed-skip_spaces s tr) refl

args_nothing :
    (n : ℕ) (argv : List Text) (c : Cmd) → args_loop (suc n) argv c [] ≡ ok (with_args argv c, [])
unfolding args_loop peek gettoken lex skip_spaces
args_nothing n argv c = refl

args_end :
    (n : ℕ) (argv : List Text) (c : Cmd) (s : Text)
    → stops ends_args s ≡ true
    → args_loop (suc n) argv c s ≡ ok (with_args argv c, s)
unfolding IsArgs
args_end n argv c [] h = args_nothing n argv c
args_end n argv c (d ∷ s) h =
    args_stop n argv c (d ∷ s) (stops-starts d s h) (stops-IsArgs (d ∷ s) h).0

args_round :
    (n : ℕ) (argv : List Text) (c d : Cmd) (w s s2 s3 : Text)
    → peek ends_args s ≡ false
    → gettoken s ≡ record { ret = b'a'; text = w; left = s2 }
    → length argv < 9
    → parseredirs c s2 ≡ ok (d, s3)
    → args_loop (suc n) argv c s ≡ args_loop n (argv ++ w ∷ []) d s3
unfolding args_loop
args_round n argv c d w s s2 s3 p e few re =
    let short : leb 10 (length (argv ++ w ∷ [])) ≡ false =
      ground (arith, length-append argv (w ∷ [])) in
    rw (p, e, short, re) refl

pub Redirs-le : {c d : Cmd} {s r : Text} → Redirs c d s r → length r ≤ length s
Redirs-le Grammar.Redirs.none = omega arith
Redirs-le (Grammar.input b w b1 re) =
    omega (arith, Blanks-le b, Word-lt w, Blanks-le b1, Redirs-le re)
Redirs-le (Grammar.output b w b1 re) =
    omega (arith, Blanks-le b, Word-lt w, Blanks-le b1, Redirs-le re)
Redirs-le (Grammar.append b w b1 re) =
    omega (arith, Blanks-le b, Word-lt w, Blanks-le b1, Redirs-le re)

word-peek : {w s r : Text} → Word w s r → peek ends_args s ≡ false
word-peek {s} d =
    let (c, t, e, p) = Word-head d in
    rw e (peek-trimmed ends_args (c ∷ t) (plain-trimmed c t p) ∙ ground (arith, p))

pub Args-parses :
    {argv argv1 : List Text} {c d : Cmd} {s r : Text}
    → Args argv c argv1 d s r
    → stops ends_args r ≡ true
    → (n : ℕ) → length s < n
    → args_loop n argv c s ≡ ok (with_args argv1 d, r)
unfolding IsArgs
Args-parses a h zero lt = absurd (omega arith)
Args-parses (Grammar.Args.none {argv} {c} {r}) h (suc n) lt = args_end n argv c r h
Args-parses (Grammar.arg {argv} {argv1} {c} {d} {e} {w} {s} {s1} {s2} {s3} wd b re few a) h (suc n)
      lt =
    let (trim, no_redir, _) = Args-IsArgs a h in
    args_round n argv c d w s s2 s3 (word-peek wd) (Word-gettoken wd b) few
      (Redirs-parses re (Blanks-trimmed b) no_redir (suc (length s2)) (omega arith))
    ∙ Args-parses a h n (omega (arith, Word-lt wd, Blanks-le b, Redirs-le re))
