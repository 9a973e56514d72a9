-- ===== src/Console.antt =====
-- The input of kernel/console.c: the ring of characters that `consoleintr` edits and `consoleread`
-- reads, with its three counters wrapping at 2^32. What is echoed to the screen, the lock and the
-- lock of the inode are left out. A count is a natural number: a negative one reads nothing.
pub mod Editor
pub mod Refine
pub mod Reading
mod Tests
use northos.Prelude.{
  ℕ, zero, suc, ◌+◌, ◌-◌, ◌%◌, ◌^◌, Bool, true, false, not, ◌&&◌, ◌||◌, List, [], ◌∷◌, ltb, ◌==◌,
  if◌then◌else◌, update,
}

-- INPUT_BUF
abbrev pub input_buf : ℕ
input_buf = 128

abbrev pub u32 : ℕ
u32 = 2 ^ 32

pub record Input : Type 0 where
  pub buf : ℕ → ℕ
  pub r : ℕ
  pub w : ℕ
  pub e : ℕ

-- input.e - 1, and input.e - input.r
abbrev pub before_e : Input → ℕ
before_e s = (s.e + u32 - 1) % u32

abbrev pub in_use : Input → ℕ
in_use s = (s.e + u32 - s.r) % u32

-- The loop of control-u. The rounds left come first; there are at most INPUT_BUF characters.
unfoldable pub kill_line : ℕ → Input → Input
kill_line zero s = s
kill_line (suc n) s =
    let more = kill_line n (record s { e = before_e s }) in
    if not (s.e == s.w) && not (s.buf (before_e s % input_buf) == 10) then more else s

unfoldable pub backspace : Input → Input
backspace s = if s.e == s.w then s else record s { e = before_e s }

-- c = (c == '\r') ? '\n' : c
abbrev pub newline : ℕ → ℕ
newline c = if c == 13 then 10 else c

-- input.buf[input.e++ % INPUT_BUF] = c
abbrev pub put_char : Input → ℕ → Input
put_char s c = record s { buf = update s.buf (s.e % input_buf) c; e = (s.e + 1) % u32 }

-- c == '\n' || c == C('D') || input.e == input.r + INPUT_BUF
abbrev pub ends_line : Input → ℕ → Bool
ends_line s c = c == 10 || c == 4 || s.e == (s.r + input_buf) % u32

-- The input, and whether a reader is woken.
abbrev pub end_line : Input → ℕ → Input × Bool
end_line s c = if ends_line s c then (record s { w = s.e }, true) else (s, false)

unfoldable pub type_char : Input → ℕ → Input × Bool
type_char s c =
    if not (c == 0) && ltb (in_use s) input_buf
    then end_line (put_char s (newline c)) (newline c)
    else (s, false)

-- One character of the loop of `consoleintr`. Control-p changes nothing here.
unfoldable pub key : Input → ℕ → Input × Bool
key s c =
    if c == 16
    then (s, false)
    else if c == 21
    then (kill_line input_buf s, false)
    else if c == 8 || c == 127
    then (backspace s, false)
    else type_char s c

-- The characters that `getc` returns. After the loop: the input, whether readers have been woken,
-- and whether the processes are listed.
unfoldable pub consoleintr : Input → List ℕ → Input × Bool × Bool
consoleintr s [] = (s, false, false)
consoleintr s (c ∷ cs) =
    let (s1, woken) = key s c in
    let (s2, later, dump) = consoleintr s1 cs in (s2, woken || later, c == 16 || dump)

-- `consoleread` returns what it has read, or it sleeps with some of it read and more to read, or it
-- has been killed while it waited and returns -1, with what it has read in the caller's memory.
pub data ConsoleRead : Type 0 where
  has_read : List ℕ → Input → ConsoleRead
  waits : List ℕ → Input → ℕ → ConsoleRead
  killed_there : List ℕ → Input → ConsoleRead

abbrev pub with_char : ℕ → ConsoleRead → ConsoleRead
with_char c (has_read cs s) = has_read (c ∷ cs) s
with_char c (waits cs s n) = waits (c ∷ cs) s n
with_char c (killed_there cs s) = killed_there (c ∷ cs) s

-- The loop, for n characters more; `some_read` is n < target.
unfoldable pub consoleread : Bool → Bool → ℕ → Input → ConsoleRead
consoleread killed some_read zero s = has_read [] s
consoleread killed some_read (suc n) s =
    let c = s.buf (s.r % input_buf) in
    let s' = record s { r = (s.r + 1) % u32 } in
    let rest = consoleread killed true n s' in
    if s.r == s.w
    then if killed then killed_there [] s else waits [] s (suc n)
    else if c == 4
    then has_read [] (if some_read then s else s')
    else if c == 10
    then has_read (c ∷ []) s'
    else with_char c rest
