-- ===== src/User/Sh/Total.antt =====
-- Termination of the shell's parser: a run that is out of fuel is `stuck`.
use northos.Prelude.{
  ℕ, zero, suc, ◌+◌, ◌*◌, ◌<◌, ◌≤◌, ◌≡◌, ◌≢◌, refl, sym, ap, ◌∙◌, inl, inr, Bool, true, false, not,
  List, [], ◌∷◌, ◌++◌, leb, ◌==◌, if◌then◌else◌, length, Bool-cases, arith,
}
use northos.User.Sh.{
  Text, Cmd, Result, ok, panics, stuck, ◌>>=◌, is_space, skip_spaces, span_word, more_than, lex,
  gettoken, starts, peek, redirs_loop, parseredirs, args_loop, parse_simple, backs_loop, parseline,
  parsepipe, parseexec, parseblock, parsecmd, is_done, syntax, exec, back,
}

skip_spaces-le : (s : Text) → length (skip_spaces s) ≤ length s
unfolding skip_spaces
skip_spaces-le [] = omega arith
skip_spaces-le (c ∷ s) = ground (arith, skip_spaces-le s)

skip_spaces-head : (s r : Text) (c : ℕ) → skip_spaces s ≡ c ∷ r → is_space c ≡ false
unfolding skip_spaces
skip_spaces-head [] r c e = cc
skip_spaces-head (d ∷ s) r c e = elim (Bool-cases (is_space d)) [
  | inl sp ↦ skip_spaces-head s r c (rw sp at e)
  | inr ns ↦ ground (arith, ns, e)
]

span_word-le : (s : Text) → length (span_word s).1 ≤ length s
unfolding span_word
span_word-le [] = omega arith
span_word-le (c ∷ s) = ground (arith, span_word-le s)

more_than-le : (s : Text) → length (more_than s).left ≤ length s
more_than-le [] = omega arith
more_than-le (c ∷ s) = ground arith

lex-shorter : (c : ℕ) (s : Text) → is_space c ≡ false → length (lex (c ∷ s)).left ≤ length s
unfolding lex span_word
lex-shorter c s ns = ground (arith, more_than-le s, span_word-le s)

-- A token takes a character where there is one.
gettoken-shorter : (s : Text) → skip_spaces s ≢ [] → length (gettoken s).left < length s
unfolding gettoken
gettoken-shorter s some_left = go (skip_spaces s) refl
  where
    go : (t : Text) → skip_spaces s ≡ t → length (skip_spaces (lex (skip_spaces s)).left) < length s
    go [] e = absurd (some_left e)
    go (c ∷ t) e =
        let shorter = lex-shorter c t (skip_spaces-head s t c e) in
        let less = skip_spaces-le s in
        let trimmed = skip_spaces-le (lex (c ∷ t)).left in
        rw e (omega (arith, shorter, rw e at less, trimmed))

peek-some : (toks s : Text) → peek toks s ≡ true → skip_spaces s ≢ []
unfolding peek
peek-some toks s p e = true≢false (sym p ∙ ap (starts toks) e)
  where
    true≢false : true ≢ false
    true≢false h = cc

peek-shorter : (toks s : Text) → peek toks s ≡ true → length (gettoken s).left < length s
peek-shorter toks s p = gettoken-shorter s (peek-some toks s p)

gettoken-le : (s : Text) → length (gettoken s).left ≤ length s
unfolding gettoken lex skip_spaces
gettoken-le s = go (skip_spaces s) refl
  where
    go : (t : Text) → skip_spaces s ≡ t → length (gettoken s).left ≤ length s
    go [] e = rw e (omega arith)
    go (c ∷ t) e = omega (arith, gettoken-shorter s (λ none. ground (arith, sym e ∙ none)))

gettoken-ret : (s : Text) → ((gettoken s).ret == 0) ≡ false → skip_spaces s ≢ []
unfolding gettoken lex
gettoken-ret s ne e = cc (rw e at ne)

-- A run that is not stuck and leaves `n` characters at most.
unfoldable pub Ends : ℕ → Result (Cmd × Text) → Type 0
Ends n (ok (cmd, s)) = length s ≤ n
Ends n (panics p) = Unit
Ends n stuck = ⊥

Ends-bind :
    (k n : ℕ) (r : Result (Cmd × Text)) (f : Cmd × Text → Result (Cmd × Text))
    → Ends k r
    → ((cmd : Cmd) (s : Text) → length s ≤ k → Ends n (f (cmd, s)))
    → Ends n (r >>= f)
unfolding Ends
Ends-bind k n (ok (cmd, s)) f h g = g cmd s h
Ends-bind k n (panics p) f h g = tt
Ends-bind k n stuck f h g = absurd h

Ends-le : (k n : ℕ) (r : Result (Cmd × Text)) → Ends k r → k ≤ n → Ends n r
unfolding Ends
Ends-le k n (ok (cmd, s)) h le = omega arith
Ends-le k n (panics p) h le = tt
Ends-le k n stuck h le = h

Ends-if :
    (n : ℕ) (b : Bool) (r t : Result (Cmd × Text))
    → (b ≡ true → Ends n r)
    → (b ≡ false → Ends n t)
    → Ends n (if b then r else t)
Ends-if n true r t h g = h refl
Ends-if n false r t h g = g refl

redirs_loop-Ends :
    (r : ℕ) (cmd : Cmd) (s : Text) → length s < r → Ends (length s) (redirs_loop r cmd s)
unfolding redirs_loop Ends
redirs_loop-Ends zero cmd s h = absurd (omega arith)
redirs_loop-Ends (suc r) cmd s h =
    let tok = gettoken s in
    let file = gettoken tok.left in
    Ends-if (length s) (peek (b'<' ∷ b'>' ∷ []) s) _ _
      (λ p.
        let taken = peek-shorter _ s p in
        let less = gettoken-le tok.left in
        Ends-if (length s) (file.ret == b'a') _ _
          (λ _.
            Ends-le (length file.left) (length s) _ (redirs_loop-Ends r _ file.left (omega arith))
              (omega arith))
          (λ _. tt))
      (λ _. skip_spaces-le s)

args_loop-Ends :
    (r : ℕ) (argv : List Text) (ret : Cmd) (s : Text)
    → length s < r
    → Ends (length s) (args_loop r argv ret s)
unfolding args_loop Ends
args_loop-Ends zero argv ret s h = absurd (omega arith)
args_loop-Ends (suc r) argv ret s h =
    let tok = gettoken s in
    Ends-if (length s) (peek (b'|' ∷ b')' ∷ b'&' ∷ b';' ∷ []) s) _ _ (λ _. skip_spaces-le s)
      λ _.
        Ends-if (length s) (tok.ret == 0) _ _ (λ _. gettoken-le s)
          λ some_tok.
            Ends-if (length s) (not (tok.ret == b'a')) _ _ (λ _. tt)
              λ _.
                Ends-if (length s) (leb 10 (length (argv ++ tok.text ∷ []))) _ _ (λ _. tt)
                  λ _.
                    let taken = gettoken-shorter s (gettoken-ret s some_tok) in
                    Ends-bind (length tok.left) (length s) (parseredirs ret tok.left) _
                      (redirs_loop-Ends _ ret tok.left (omega arith))
                      (λ ret1 s1 le.
                        Ends-le (length s1) (length s) _ (args_loop-Ends r _ ret1 s1 (omega arith))
                          (omega arith))

parse_simple-Ends : (s : Text) → Ends (length s) (parse_simple s)
unfolding parse_simple
parse_simple-Ends s =
    Ends-bind (length s) (length s) (parseredirs (exec []) s) _
      (redirs_loop-Ends _ (exec []) s (omega arith))
      (λ ret s1 le. Ends-le (length s1) (length s) _ (args_loop-Ends _ [] ret s1 (omega arith)) le)

backs_loop-Ends :
    (r : ℕ) (cmd : Cmd) (s : Text) → length s < r → Ends (length s) (backs_loop r cmd s)
unfolding backs_loop Ends
backs_loop-Ends zero cmd s h = absurd (omega arith)
backs_loop-Ends (suc r) cmd s h =
    Ends-if (length s) (peek (b'&' ∷ []) s) _ _
      (λ p.
        let taken = peek-shorter _ s p in
        Ends-le (length (gettoken s).left) (length s) _
          (backs_loop-Ends r (back cmd) (gettoken s).left (omega arith)) (omega arith))
      (λ _. skip_spaces-le s)

-- The four functions end on the fuel that they get.
record AllEnd (f : ℕ) : Type 0 where
  line_ends : (s : Text) → 4 * length s + 4 ≤ f → Ends (length s) (parseline f s)
  pipe_ends : (s : Text) → 4 * length s + 3 ≤ f → Ends (length s) (parsepipe f s)
  exec_ends : (s : Text) → 4 * length s + 2 ≤ f → Ends (length s) (parseexec f s)
  block_ends : (s : Text) → 4 * length s + 1 ≤ f → Ends (length s) (parseblock f s)

AllEnd-step : (f : ℕ) → AllEnd f → AllEnd (suc f)
unfolding parseline parsepipe parseexec parseblock Ends
AllEnd-step f ih = record {
  line_ends = λ s h.
      Ends-bind (length s) (length s) (parsepipe f s) _ (ih.pipe_ends s (omega arith)) λ cmd s1 le.
        Ends-bind (length s1) (length s) (backs_loop (suc (length s1)) cmd s1) _
          (backs_loop-Ends (suc (length s1)) cmd s1 (omega arith))
          λ cmd1 after less.
            Ends-if (length s) (peek (b';' ∷ []) after) _ _
              (λ p.
                let taken = peek-shorter _ after p in
                Ends-bind (length (gettoken after).left) (length s)
                  (parseline f (gettoken after).left) _ (ih.line_ends _ (omega arith))
                  λ right s3 le3. omega arith)
              (λ _. omega (arith, skip_spaces-le after));
  pipe_ends = λ s h.
      Ends-bind (length s) (length s) (parseexec f s) _ (ih.exec_ends s (omega arith)) λ cmd s1 le.
        Ends-if (length s) (peek (b'|' ∷ []) s1) _ _
          (λ p.
            let taken = peek-shorter _ s1 p in
            Ends-bind (length (gettoken s1).left) (length s) (parsepipe f (gettoken s1).left) _
              (ih.pipe_ends _ (omega arith)) λ right s2 le2. omega arith)
          (λ _. omega (arith, skip_spaces-le s1));
  exec_ends = λ s h.
      Ends-if (length s) (peek (b'(' ∷ []) s) _ _
        (λ p.
          Ends-le _ _ _ (ih.block_ends (skip_spaces s) (omega (arith, skip_spaces-le s)))
            (skip_spaces-le s))
        (λ _. Ends-le _ _ _ (parse_simple-Ends (skip_spaces s)) (skip_spaces-le s));
  block_ends = λ s h.
      Ends-if (length s) (peek (b'(' ∷ []) s) _ _
        (λ p.
          let taken = peek-shorter _ s p in
          Ends-bind (length (gettoken s).left) (length s) (parseline f (gettoken s).left) _
            (ih.line_ends _ (omega arith))
            λ cmd s1 le.
              Ends-if (length s) (peek (b')' ∷ []) s1) _ _
                (λ q.
                  Ends-le _ _ _ (redirs_loop-Ends _ cmd (gettoken s1).left (omega arith))
                    (omega (arith, gettoken-le s1)))
                (λ _. tt))
        (λ _. tt);
}

all_end : (f : ℕ) → AllEnd f
all_end zero = record {
  line_ends = λ s h. absurd (omega arith);
  pipe_ends = λ s h. absurd (omega arith);
  exec_ends = λ s h. absurd (omega arith);
  block_ends = λ s h. absurd (omega arith);
}
all_end (suc f) = AllEnd-step f (all_end f)

-- parsecmd always ends: it returns a command, or it panics.
pub parsecmd_ends : (s : Text) → parsecmd s ≢ stuck
unfolding parsecmd Ends
parsecmd_ends s =
    go (parseline (4 * length s + 4) s) ((all_end (4 * length s + 4)).line_ends s (omega arith))
  where
    go :
        (r : Result (Cmd × Text))
        → Ends (length s) r
        → (r >>= (λ (cmd, s1). if is_done (skip_spaces s1) then ok cmd else panics syntax)) ≢ stuck
    go (ok (cmd, s1)) h e = elim (Bool-cases (is_done (skip_spaces s1))) [
      | inl y ↦ cc (rw y at e)
      | inr n ↦ cc (rw n at e)
    ]
    go (panics p) h e = cc
    go stuck h e = h
