-- ===== src/User/Sh/Grammar.antt =====
-- A grammar of command lines, apart from the parser. Each relation reads a part of a text off its front:
-- the last two indices are the text and what follows that part.
use northos.Prelude.{ℕ, ◌<◌, ◌≡◌, Bool, true, not, List, [], ◌∷◌, ◌++◌, length}
use northos.User.Sh.{Text, Cmd, exec, redir, pipe, list, back, is_space, is_plain, with_args}

abbrev pub is_trimmed : Text → Bool
is_trimmed [] = true
is_trimmed (c ∷ s) = not (is_space c)

abbrev pub is_break : Text → Bool
is_break [] = true
is_break (c ∷ s) = not (is_plain c)

-- All the blanks at the front.
pub data Blanks : Text → Text → Type 0 where
  trimmed : {r : Text} → is_trimmed r ≡ true → Blanks r r
  blank : {c : ℕ} {s r : Text} → is_space c ≡ true → Blanks s r → Blanks (c ∷ s) r

-- A word is as long as it can be.
pub data Word : Text → Text → Text → Type 0 where
  last : {c : ℕ} {r : Text} → is_plain c ≡ true → is_break r ≡ true → Word (c ∷ []) (c ∷ r) r
  next : {c : ℕ} {w s r : Text} → is_plain c ≡ true → Word w s r → Word (c ∷ w) (c ∷ s) r

-- Redirections of a command, which they make another one.
pub data Redirs : Cmd → Cmd → Text → Text → Type 0 where
  none : {c : Cmd} {r : Text} → Redirs c c r r
  input :
      {c d : Cmd} {file s1 s2 s3 s4 r : Text}
      → Blanks s1 s2
      → Word file s2 s3
      → Blanks s3 s4
      → Redirs (redir c file 0 0) d s4 r
      → Redirs c d (b'<' ∷ s1) r
  output :
      {c d : Cmd} {file s1 s2 s3 s4 r : Text}
      → Blanks s1 s2
      → Word file s2 s3
      → Blanks s3 s4
      → Redirs (redir c file 513 1) d s4 r
      → Redirs c d (b'>' ∷ s1) r
  append :
      {c d : Cmd} {file s1 s2 s3 s4 r : Text}
      → Blanks s1 s2
      → Word file s2 s3
      → Blanks s3 s4
      → Redirs (redir c file 513 1) d s4 r
      → Redirs c d (b'>' ∷ b'>' ∷ s1) r

-- Words with redirections after each: nine arguments at most.
pub data Args : List Text → Cmd → List Text → Cmd → Text → Text → Type 0 where
  none : {argv : List Text} {c : Cmd} {r : Text} → Args argv c argv c r r
  arg :
      {argv argv1 : List Text} {c d e : Cmd} {w s s1 s2 s3 r : Text}
      → Word w s s1
      → Blanks s1 s2
      → Redirs c d s2 s3
      → length argv < 9
      → Args (argv ++ w ∷ []) d argv1 e s3 r
      → Args argv c argv1 e s r

-- Any number of `&`.
pub data Backs : Cmd → Cmd → Text → Text → Type 0 where
  none : {c : Cmd} {r : Text} → Backs c c r r
  amp : {c d : Cmd} {s s1 r : Text} → Blanks s s1 → Backs (back c) d s1 r → Backs c d (b'&' ∷ s) r

pub data Level : Type 0 where
  one_command : Level
  pipeline : Level
  line : Level

pub data Reads : Level → Cmd → Text → Text → Type 0 where
  simple :
      {c d : Cmd} {argv : List Text} {s s1 r : Text}
      → Redirs (exec []) c s s1
      → Args [] c argv d s1 r
      → Reads one_command (with_args argv d) s r
  block :
      {c d : Cmd} {s s1 s2 s3 r : Text}
      → Blanks s s1
      → Reads line c s1 (b')' ∷ s2)
      → Blanks s2 s3
      → Redirs c d s3 r
      → Reads one_command d (b'(' ∷ s) r
  single : {c : Cmd} {s r : Text} → Reads one_command c s r → Reads pipeline c s r
  bar :
      {c d : Cmd} {s s1 s2 r : Text}
      → Reads one_command c s (b'|' ∷ s1)
      → Blanks s1 s2
      → Reads pipeline d s2 r
      → Reads pipeline (pipe c d) s r
  alone : {c d : Cmd} {s s1 r : Text} → Reads pipeline c s s1 → Backs c d s1 r → Reads line d s r
  semi :
      {c d e : Cmd} {s s1 s2 s3 r : Text}
      → Reads pipeline c s s1
      → Backs c d s1 (b';' ∷ s2)
      → Blanks s2 s3
      → Reads line e s3 r
      → Reads line (list d e) s r
