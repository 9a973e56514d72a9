-- ===== src/Console/Tests.antt =====
-- The line "hi" is typed, with a mistake that is taken back, and read.
use northos.Prelude.{ℕ, ◌≡◌, refl, false, List, [], ◌∷◌, arith}
use northos.Console.{Input, consoleintr, consoleread}
use northos.Console.Editor.{Editor, edits, take_chars}
use northos.Console.Refine.{Shows}
use northos.Console.Refine.Keys.{consoleintr-edits}
use northos.Console.Reading.{SameRead, consoleread-take_chars}

-- The counters are about to wrap.
abbrev ring : Input
ring = record { buf = λ i. 0; r = 4294967295; w = 4294967295; e = 4294967295 }

abbrev editor : Editor
editor = record { all = []; ready = 0 }

ring-Shows : Shows ring editor
ring-Shows = record {
  small_r = omega arith;
  w_at = refl;
  e_at = refl;
  in_order = omega arith;
  fits = omega arith;
  bytes = λ j l. absurd (omega arith);
  one_line = λ j a l is. omega arith;
}

-- 'h', 'o', control-h, 'i' and return
abbrev typed : List ℕ
typed = 104 ∷ 111 ∷ 8 ∷ 105 ∷ 13 ∷ []

edits_run : edits editor typed ≡ record { all = 104 ∷ 105 ∷ 10 ∷ []; ready = 3 }
unfolding edits
edits_run = refl

consoleintr-edits_example : Shows (consoleintr ring typed).0 (edits editor typed)
consoleintr-edits_example = consoleintr-edits ring editor typed ring-Shows

consoleread-take_chars_example :
    SameRead
      (consoleread false false 100 (consoleintr ring typed).0)
      (take_chars false false 100 (edits editor typed))
consoleread-take_chars_example =
    consoleread-take_chars false false 100 (consoleintr ring typed).0 (edits editor typed)
      (consoleintr-edits ring editor typed ring-Shows)
