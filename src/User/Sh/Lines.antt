-- ===== src/User/Sh/Lines.antt =====
-- user/sh.c: pipelines, blocks and lines of the grammar, and the parser on them.
use northos.Prelude.{
  ℕ, zero, suc, ◌+◌, ◌*◌, ◌<◌, ◌≤◌, ◌≡◌, refl, ◌∙◌, true, false, List, [], ◌∷◌, length, arith,
}
use northos.User.Sh.{
  Text, Cmd, Result, ok, skip_spaces, starts, peek, with_args, parse_simple, backs_loop, parseline,
  parsepipe, parseexec, parseblock, parsecmd, exec, pipe, list,
}
use northos.User.Sh.Grammar
use northos.User.Sh.Grammar.{
  Blanks, Word, Redirs, Args, Backs, Reads, Level, is_trimmed, one_command, pipeline, line,
}
use northos.User.Sh.Tokens.{trimmed-skip_spaces, Blanks-trimmed, Blanks-le, Word-lt, mark-gettoken}
use northos.User.Sh.Parses.{
  stops, ends_args, IsArgs, stops-IsArgs, Args-IsArgs, peek-trimmed, Redirs-parses, Redirs-le,
  Args-parses,
}

-- What may follow a part of each level.
abbrev followers : Level → Text
followers one_command = ends_args
followers pipeline = b')' ∷ b'&' ∷ b';' ∷ []
followers line = b')' ∷ []

abbrev parse_at : Level → ℕ → Text → Result (Cmd × Text)
parse_at one_command = parseexec
parse_at pipeline = parsepipe
parse_at line = parseline

abbrev calls : Level → ℕ
calls one_command = 2
calls pipeline = 3
calls line = 4

stops-up : (s : Text) → stops (b')' ∷ b'&' ∷ b';' ∷ []) s ≡ true → stops ends_args s ≡ true
stops-up [] h = refl
stops-up (c ∷ s) h = ground (arith, h)

line-up : (s : Text) → stops (b')' ∷ []) s ≡ true → stops (b')' ∷ b'&' ∷ b';' ∷ []) s ≡ true
line-up [] h = refl
line-up (c ∷ s) h = ground (arith, h)

stops-trimmed : (s : Text) → stops ends_args s ≡ true → is_trimmed s ≡ true
unfolding IsArgs
stops-trimmed s h = (stops-IsArgs s h).0

-- No `|` follows a pipeline, and no `&` and no `;` a line.
no_bar : (s : Text) → stops (b')' ∷ b'&' ∷ b';' ∷ []) s ≡ true → peek (b'|' ∷ []) s ≡ false
no_bar [] h = peek-trimmed _ [] refl
no_bar (c ∷ s) h =
    peek-trimmed _ (c ∷ s) (stops-trimmed (c ∷ s) (stops-up (c ∷ s) h)) ∙ ground (arith, h)

line-trimmed : (s : Text) → stops (b')' ∷ []) s ≡ true → is_trimmed s ≡ true
line-trimmed s h = stops-trimmed s (stops-up s (line-up s h))

no_semi : (s : Text) → stops (b')' ∷ []) s ≡ true → peek (b';' ∷ []) s ≡ false
no_semi [] h = peek-trimmed _ [] refl
no_semi (c ∷ s) h = peek-trimmed _ (c ∷ s) (line-trimmed (c ∷ s) h) ∙ ground (arith, h)

no_amp : (s : Text) → stops (b')' ∷ []) s ≡ true → starts (b'&' ∷ []) s ≡ false
no_amp [] h = refl
no_amp (c ∷ s) h = ground (arith, h)

Args-le :
    {argv argv1 : List Text} {c d : Cmd} {s r : Text}
    → Args argv c argv1 d s r
    → length r ≤ length s
Args-le Grammar.Args.none = omega arith
Args-le (Grammar.arg w b re few a) = omega (arith, Word-lt w, Blanks-le b, Redirs-le re, Args-le a)

Backs-le : {c d : Cmd} {s r : Text} → Backs c d s r → length r ≤ length s
Backs-le Grammar.Backs.none = omega arith
Backs-le (Grammar.amp b k) = omega (arith, Blanks-le b, Backs-le k)

Reads-le : {l : Level} {c : Cmd} {s r : Text} → Reads l c s r → length r ≤ length s
Reads-le (Grammar.simple re a) = omega (arith, Redirs-le re, Args-le a)
Reads-le (Grammar.block b i b1 re) =
    omega (arith, Blanks-le b, Reads-le i, Blanks-le b1, Redirs-le re)
Reads-le (Grammar.single e) = Reads-le e
Reads-le (Grammar.bar e b p) = omega (arith, Reads-le e, Blanks-le b, Reads-le p)
Reads-le (Grammar.alone p k) = omega (arith, Reads-le p, Backs-le k)
Reads-le (Grammar.semi p k b n) = omega (arith, Reads-le p, Backs-le k, Blanks-le b, Reads-le n)

Backs-parses :
    {c d : Cmd} {s r : Text}
    → Backs c d s r
    → starts (b'&' ∷ []) r ≡ false
    → is_trimmed r ≡ true
    → (n : ℕ) → length s < n
    → backs_loop n c s ≡ ok (d, r)
unfolding backs_loop
Backs-parses k h tr zero lt = absurd (omega arith)
Backs-parses (Grammar.Backs.none {c} {r}) h tr (suc n) lt =
    rw (peek-trimmed (b'&' ∷ []) r tr, h, trimmed-skip_spaces r tr) refl
Backs-parses (Grammar.amp {c} {d} {s} b k) h tr (suc n) lt =
    let rest = Backs-parses k h tr n (omega (arith, Blanks-le b)) in
    rw (peek-trimmed (b'&' ∷ []) (b'&' ∷ s) refl, mark-gettoken b'&' (refl, refl, refl) b) rest

-- What stands after a pipeline where `&` may.
Backs-stops :
    {c d : Cmd} {s r : Text}
    → Backs c d s r
    → stops (b')' ∷ b'&' ∷ b';' ∷ []) r ≡ true
    → stops (b')' ∷ b'&' ∷ b';' ∷ []) s ≡ true
Backs-stops Grammar.Backs.none h = h
Backs-stops (Grammar.amp b k) h = refl

simple-starts :
    {c d : Cmd} {argv : List Text} {s s1 r : Text}
    → Redirs (exec []) c s s1
    → Args [] c argv d s1 r
    → stops ends_args r ≡ true
    → (is_trimmed s ≡ true) × (starts (b'(' ∷ []) s ≡ false)
unfolding IsArgs
simple-starts Grammar.Redirs.none a h = let (t, _, p) = Args-IsArgs a h in (t, p)
simple-starts (Grammar.input b w b1 re) a h = (refl, refl)
simple-starts (Grammar.output b w b1 re) a h = (refl, refl)
simple-starts (Grammar.append b w b1 re) a h = (refl, refl)

simple-parses :
    {c d : Cmd} {argv : List Text} {s s1 r : Text}
    → Redirs (exec []) c s s1
    → Args [] c argv d s1 r
    → stops ends_args r ≡ true
    → (f : ℕ) → parseexec (suc f) s ≡ ok (with_args argv d, r)
unfolding parseexec parse_simple IsArgs
simple-parses {c} {d} {argv} {s} {s1} re a h f =
    let (tr, no_paren) = simple-starts re a h in
    let redirs = Redirs-parses re tr (Args-IsArgs a h).1 (suc (length s)) (omega arith) in
    let args = Args-parses a h (suc (length s1)) (omega arith) in
    rw (peek-trimmed (b'(' ∷ []) s tr, no_paren, trimmed-skip_spaces s tr, redirs, args) refl

block-parses :
    (f : ℕ) {c d : Cmd} {s s1 s2 s3 r : Text}
    → Blanks s s1
    → parseline f s1 ≡ ok (c, b')' ∷ s2)
    → Blanks s2 s3
    → Redirs c d s3 r
    → stops ends_args r ≡ true
    → parseexec (suc (suc f)) (b'(' ∷ s) ≡ ok (d, r)
unfolding parseexec parseblock skip_spaces IsArgs
block-parses f {c} {d} {s} {s1} {s2} {s3} {r} b inner b1 re h =
    let redirs =
      Redirs-parses re (Blanks-trimmed b1) (stops-IsArgs r h).1 (suc (length s3)) (omega arith) in
    rw
      (
        peek-trimmed (b'(' ∷ []) (b'(' ∷ s) refl,
        mark-gettoken b'(' (refl, refl, refl) b,
        inner,
        peek-trimmed (b')' ∷ []) (b')' ∷ s2) refl,
        mark-gettoken b')' (refl, refl, refl) b1,
        redirs,
      )
      refl

single-parses :
    (f : ℕ) (s : Text) {c : Cmd} {r : Text}
    → parseexec f s ≡ ok (c, r)
    → stops (b')' ∷ b'&' ∷ b';' ∷ []) r ≡ true
    → parsepipe (suc f) s ≡ ok (c, r)
unfolding parsepipe
single-parses f s {c} {r} e h =
    rw (e, no_bar r h, trimmed-skip_spaces r (stops-trimmed r (stops-up r h))) refl

bar-parses :
    (f : ℕ) (s : Text) {c d : Cmd} {s1 s2 r : Text}
    → parseexec f s ≡ ok (c, b'|' ∷ s1)
    → Blanks s1 s2
    → parsepipe f s2 ≡ ok (d, r)
    → parsepipe (suc f) s ≡ ok (pipe c d, r)
unfolding parsepipe
bar-parses f s {c} {d} {s1} e b p =
    rw (e, peek-trimmed (b'|' ∷ []) (b'|' ∷ s1) refl, mark-gettoken b'|' (refl, refl, refl) b, p)
      refl

alone-parses :
    (f : ℕ) (s : Text) {c d : Cmd} {s1 r : Text}
    → parsepipe f s ≡ ok (c, s1)
    → Backs c d s1 r
    → stops (b')' ∷ []) r ≡ true
    → parseline (suc f) s ≡ ok (d, r)
unfolding parseline
alone-parses f s {c} {d} {s1} {r} e k h =
    let backs = Backs-parses k (no_amp r h) (line-trimmed r h) (suc (length s1)) (omega arith) in
    rw (e, backs, no_semi r h, trimmed-skip_spaces r (line-trimmed r h)) refl

semi-parses :
    (f : ℕ) (s : Text) {c d e : Cmd} {s1 s2 s3 r : Text}
    → parsepipe f s ≡ ok (c, s1)
    → Backs c d s1 (b';' ∷ s2)
    → Blanks s2 s3
    → parseline f s3 ≡ ok (e, r)
    → parseline (suc f) s ≡ ok (list d e, r)
unfolding parseline
semi-parses f s {c} {d} {e} {s1} {s2} p k b n =
    let backs = Backs-parses k refl refl (suc (length s1)) (omega arith) in
    rw
      (
        p,
        backs,
        peek-trimmed (b';' ∷ []) (b';' ∷ s2) refl,
        mark-gettoken b';' (refl, refl, refl) b,
        n,
      )
      refl

Reads-parses :
    {l : Level} {c : Cmd} {s r : Text}
    → Reads l c s r
    → stops (followers l) r ≡ true
    → (f : ℕ) → 4 * length s + calls l ≤ f
    → parse_at l f s ≡ ok (c, r)
Reads-parses {l} d h zero le = absurd (ground arith)
Reads-parses (Grammar.simple re a) h (suc f) le = simple-parses re a h f
Reads-parses (Grammar.block b i b1 re) h (suc zero) le = absurd (omega arith)
Reads-parses (Grammar.block b i b1 re) h (suc (suc f)) le =
    block-parses f b (Reads-parses i refl f (omega (arith, Blanks-le b))) b1 re h
Reads-parses {l} {c} {s} {r} (Grammar.single e) h (suc f) le =
    single-parses f _ (Reads-parses e (stops-up r h) f (omega arith)) h
Reads-parses (Grammar.bar e b p) h (suc f) le =
    bar-parses f _ (Reads-parses e refl f (omega arith)) b
      (Reads-parses p h f (omega (arith, Reads-le e, Blanks-le b)))
Reads-parses {l} {c} {s} {r} (Grammar.alone p k) h (suc f) le =
    alone-parses f _ (Reads-parses p (Backs-stops k (line-up r h)) f (omega arith)) k h
Reads-parses (Grammar.semi p k b n) h (suc f) le =
    semi-parses f _ (Reads-parses p (Backs-stops k refl) f (omega arith)) k b
      (Reads-parses n h f (omega (arith, Reads-le p, Backs-le k, Blanks-le b)))

-- parsecmd makes of every line of the grammar the command that the grammar gives it.
pub parsecmd-Reads : (c : Cmd) (s : Text) → Reads line c s [] → parsecmd s ≡ ok c
unfolding parsecmd skip_spaces
parsecmd-Reads c s d = rw (Reads-parses d refl (4 * length s + 4) (omega arith)) refl
