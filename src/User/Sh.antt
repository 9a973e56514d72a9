-- ===== src/User/Sh.antt =====
-- The parser of user/sh.c. A command line is the list of its characters, which are not 0, and a pointer
-- into it is what is left of it. A word is the characters from its start to its end, which the code keeps
-- as two pointers.
pub mod Total
pub mod Grammar
pub mod Tokens
pub mod Parses
pub mod Lines
mod Tests
use northos.Prelude.{
  ℕ, zero, suc, ◌+◌, ◌*◌, Bool, true, false, not, ◌&&◌, ◌||◌, List, [], ◌∷◌, ◌++◌, Option, none,
  some, leb, ◌==◌, if◌then◌else◌, length,
}

abbrev pub Text : Type 0
Text = List ℕ

-- execcmd, redircmd, pipecmd, listcmd and backcmd
pub data Cmd : Type 0 where
  exec : List Text → Cmd
  redir : Cmd → Text → ℕ → ℕ → Cmd
  pipe : Cmd → Cmd → Cmd
  list : Cmd → Cmd → Cmd
  back : Cmd → Cmd

pub data Panic : Type 0 where
  syntax : Panic
  missing_paren : Panic
  missing_file : Panic
  too_many_args : Panic
  no_block : Panic

-- What a parsing function returns; `stuck` is a run of the model out of fuel.
pub data Result {ℓ} (A : Type ℓ) : Type ℓ where
  ok : A → Result A
  panics : Panic → Result A
  stuck : Result A

infixl 5 ◌>>=◌
abbrev pub ◌>>=◌ {ℓ κ} : {A : Type ℓ} {B : Type κ} → Result A → (A → Result B) → Result B
ok a >>= f = f a
panics p >>= f = panics p
stuck >>= f = stuck

-- strchr(toks, c), for a character that is not 0.
abbrev pub is_in : List ℕ → ℕ → Bool
is_in [] c = false
is_in (t ∷ ts) c = t == c || is_in ts c

abbrev pub whitespace : Text
whitespace = b' ' ∷ b'\t' ∷ b'\r' ∷ b'\n' ∷ 11 ∷ []

abbrev pub symbols : Text
symbols = b'<' ∷ b'|' ∷ b'>' ∷ b'&' ∷ b';' ∷ b'(' ∷ b')' ∷ []

abbrev pub is_space : ℕ → Bool
is_space = is_in whitespace

-- A character of a word.
abbrev pub is_plain : ℕ → Bool
is_plain c = not (is_space c) && not (is_in symbols c)

-- while (s < es && strchr(whitespace, *s)) s++;
unfoldable pub skip_spaces : Text → Text
skip_spaces [] = []
skip_spaces (c ∷ s) = let rest = skip_spaces s in if is_space c then rest else c ∷ s

-- The loop of the default case: the word, and what is left.
unfoldable pub span_word : Text → Text × Text
span_word [] = ([], [])
span_word (c ∷ s) =
    let (word, rest) = span_word s in if is_plain c then (c ∷ word, rest) else ([], c ∷ s)

-- What `gettoken` returns, with the text of the token and what is left.
pub record Token : Type 0 where
  pub ret : ℕ
  pub text : Text
  pub left : Text

-- The cases of '>': a second one makes the token '+'.
abbrev pub more_than : Text → Token
more_than [] = record { ret = b'>'; text = b'>' ∷ []; left = [] }
more_than (c ∷ s) =
    if c == b'>'
    then record { ret = b'+'; text = b'>' ∷ b'>' ∷ []; left = s }
    else record { ret = b'>'; text = b'>' ∷ []; left = c ∷ s }

-- The `switch` on the first character.
unfoldable pub lex : Text → Token
lex [] = record { ret = 0; text = []; left = [] }
lex (c ∷ s) =
    let (word, rest) = span_word (c ∷ s) in
    if c == b'>'
    then more_than s
    else if is_in symbols c
    then record { ret = c; text = c ∷ []; left = s }
    else record { ret = b'a'; text = word; left = rest }

unfoldable pub gettoken : Text → Token
gettoken s = let t = lex (skip_spaces s) in record t { left = skip_spaces t.left }

-- The result of `peek`, which leaves `skip_spaces s`.
abbrev pub starts : Text → Text → Bool
starts toks [] = false
starts toks (c ∷ s) = is_in toks c

unfoldable pub peek : Text → Text → Bool
peek toks s = starts toks (skip_spaces s)

-- O_RDONLY is 0, O_WRONLY | O_CREATE is 0x201.
abbrev pub redirect : ℕ → Cmd → Text → Cmd
redirect tok cmd file =
    if tok == b'<'
    then redir cmd file 0 0
    else if tok == b'>'
    then redir cmd file 513 1
    else if tok == b'+'
    then redir cmd file 513 1
    else cmd

-- The loop of `parseredirs`, for a number of rounds.
unfoldable pub redirs_loop : ℕ → Cmd → Text → Result (Cmd × Text)
redirs_loop zero cmd s = stuck
redirs_loop (suc r) cmd s =
    let tok = gettoken s in
    let file = gettoken tok.left in
    let more = redirs_loop r (redirect tok.ret cmd file.text) file.left in
    if peek (b'<' ∷ b'>' ∷ []) s
    then if file.ret == b'a' then more else panics missing_file
    else ok (cmd, skip_spaces s)

-- Every round takes a character at least.
abbrev pub parseredirs : Cmd → Text → Result (Cmd × Text)
parseredirs cmd s = redirs_loop (suc (length s)) cmd s

abbrev pub maxargs : ℕ
maxargs = 10

-- The arguments of the command that `execcmd` made, which `ret` holds below its redirections: the code
-- stores them in that command while `ret` grows around it.
unfoldable pub with_args : List Text → Cmd → Cmd
with_args argv (exec old) = exec argv
with_args argv (redir cmd file mode fd) = redir (with_args argv cmd) file mode fd
with_args argv (pipe l r) = pipe l r
with_args argv (list l r) = list l r
with_args argv (back cmd) = back cmd

-- The loop of `parseexec`.
unfoldable pub args_loop : ℕ → List Text → Cmd → Text → Result (Cmd × Text)
args_loop zero argv ret s = stuck
args_loop (suc r) argv ret s =
    let tok = gettoken s in
    let argv1 = argv ++ tok.text ∷ [] in
    let more = parseredirs ret tok.left >>= (λ (ret1, s1). args_loop r argv1 ret1 s1) in
    if peek (b'|' ∷ b')' ∷ b'&' ∷ b';' ∷ []) s
    then ok (with_args argv ret, skip_spaces s)
    else if tok.ret == 0
    then ok (with_args argv ret, tok.left)
    else if not (tok.ret == b'a')
    then panics syntax
    else if leb maxargs (length argv1)
    then panics too_many_args
    else more

unfoldable pub parse_simple : Text → Result (Cmd × Text)
parse_simple s = do (ret, s1) ← parseredirs (exec []) s; args_loop (suc (length s1)) [] ret s1

-- The loop of `parseline`.
unfoldable pub backs_loop : ℕ → Cmd → Text → Result (Cmd × Text)
backs_loop zero cmd s = stuck
backs_loop (suc r) cmd s =
    let more = backs_loop r (back cmd) (gettoken s).left in
    if peek (b'&' ∷ []) s then more else ok (cmd, skip_spaces s)

unfoldable mutual
  pub parseline : ℕ → Text → Result (Cmd × Text)
  parseline zero s = stuck
  parseline (suc f) s = do
    (cmd, s1) ← parsepipe f s
    (cmd1, s2) ← backs_loop (suc (length s1)) cmd s1
    let rest = do (right, s3) ← parseline f (gettoken s2).left; ok (list cmd1 right, s3)
    if peek (b';' ∷ []) s2 then rest else ok (cmd1, skip_spaces s2)

  pub parsepipe : ℕ → Text → Result (Cmd × Text)
  parsepipe zero s = stuck
  parsepipe (suc f) s = do
    (cmd, s1) ← parseexec f s
    let rest = do (right, s2) ← parsepipe f (gettoken s1).left; ok (pipe cmd right, s2)
    if peek (b'|' ∷ []) s1 then rest else ok (cmd, skip_spaces s1)

  pub parseexec : ℕ → Text → Result (Cmd × Text)
  parseexec zero s = stuck
  parseexec (suc f) s =
      let block = parseblock f (skip_spaces s) in
      if peek (b'(' ∷ []) s then block else parse_simple (skip_spaces s)

  pub parseblock : ℕ → Text → Result (Cmd × Text)
  parseblock zero s = stuck
  parseblock (suc f) s =
      let inner = parseline f (gettoken s).left >>= (λ (cmd, s1).
        let rest = parseredirs cmd (gettoken s1).left in
        if peek (b')' ∷ []) s1 then rest else panics missing_paren) in
      if peek (b'(' ∷ []) s then inner else panics no_block

abbrev pub is_done : Text → Bool
is_done [] = true
is_done (c ∷ s) = false

-- Four calls go down before a character is taken.
unfoldable pub parsecmd : Text → Result Cmd
parsecmd s = do
  (cmd, s1) ← parseline (4 * length s + 4) s
  if is_done (skip_spaces s1) then ok cmd else panics syntax
