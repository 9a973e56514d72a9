-- ===== src/Console/Editor.antt =====
-- What the input of kernel/console.c is for: an editor of one line, behind the characters of the
-- lines before that have not been read.
use northos.Prelude.{
  ℕ, zero, suc, ◌-◌, Bool, true, not, ◌&&◌, ◌||◌, List, [], ◌∷◌, ◌++◌, length, take, drop, get_or,
  ltb, ◌==◌, if◌then◌else◌,
}
use northos.Console.{input_buf, newline}

-- All the characters; the first `ready` of them can be read.
pub record Editor : Type 0 where
  pub all : List ℕ
  pub ready : ℕ

-- A character at the end of the line, which it may end.
abbrev pub add : Editor → ℕ → Editor
add ed c =
    let all = ed.all ++ c ∷ [] in
    record {
      all = all;
      ready = if c == 10 || c == 4 || length all == input_buf then length all else ed.ready;
    }

-- Control-u drops the line, control-h and delete its last character; what does not fit is dropped.
abbrev pub edit : Editor → ℕ → Editor
edit ed c =
    if c == 16
    then ed
    else if c == 21
    then record ed { all = take ed.ready ed.all }
    else if c == 8 || c == 127
    then (if length ed.all == ed.ready
        then ed
        else record ed { all = take (length ed.all - 1) ed.all })
    else if not (c == 0) && ltb (length ed.all) input_buf
    then add ed (newline c)
    else ed

unfoldable pub edits : Editor → List ℕ → Editor
edits ed [] = ed
edits ed (c ∷ cs) = edits (edit ed c) cs

-- What a read of the editor comes to: it ends, or it sleeps with characters left to read, or it has
-- been killed.
pub data Taken : Type 0 where
  took : List ℕ → Editor → Taken
  sleeps : List ℕ → Editor → ℕ → Taken
  dead : List ℕ → Editor → Taken

abbrev pub more_taken : ℕ → Taken → Taken
more_taken c (took cs ed) = took (c ∷ cs) ed
more_taken c (sleeps cs ed n) = sleeps (c ∷ cs) ed n
more_taken c (dead cs ed) = dead (c ∷ cs) ed

abbrev pub without_first : Editor → Editor
without_first ed = record { all = drop 1 ed.all; ready = ed.ready - 1 }

-- A read of up to n characters ends behind a newline, and at a control-d, which it takes only where
-- nothing has been read before it.
unfoldable pub take_chars : Bool → Bool → ℕ → Editor → Taken
take_chars killed some_read zero ed = took [] ed
take_chars killed some_read (suc n) ed =
    let c = get_or ed.all 0 0 in
    let rest = take_chars killed true n (without_first ed) in
    if ed.ready == 0
    then if killed then dead [] ed else sleeps [] ed (suc n)
    else if c == 4
    then took [] (if some_read then ed else without_first ed)
    else if c == 10
    then took (c ∷ []) (without_first ed)
    else more_taken c rest
