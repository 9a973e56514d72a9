-- ===== src/Console/Reading.antt =====
-- `consoleread` of kernel/console.c, and reads of the editor.
use northos.Prelude.{
  ℕ, zero, suc, ◌+◌, ◌-◌, ◌%◌, ◌<◌, ◌≡◌, refl, sym, ap, ◌∙◌, inl, inr, Bool, Bool-cases, true,
  false, List, [], ◌∷◌, length, drop, get_or, ◌==◌, if◌then◌else◌, ℕ_discrete, arith,
}
use northos.Console.{
  Input, input_buf, u32, ConsoleRead, has_read, waits, killed_there, with_char, consoleread,
}
use northos.Console.Editor.{
  Editor, Taken, took, sleeps, dead, more_taken, without_first, take_chars,
}
use northos.Console.Refine.{Shows}

-- The same characters, and a ring that shows the editor that is left.
abbrev pub SameRead : ConsoleRead → Taken → Type 0
SameRead (has_read cs s) (took cs' ed) = (cs ≡ cs') × Shows s ed
SameRead (waits cs s n) (sleeps cs' ed n') = (cs ≡ cs') × (n ≡ n') × Shows s ed
SameRead (killed_there cs s) (dead cs' ed) = (cs ≡ cs') × Shows s ed
SameRead (has_read cs s) (sleeps cs' ed n') = ⊥
SameRead (has_read cs s) (dead cs' ed) = ⊥
SameRead (waits cs s n) (took cs' ed) = ⊥
SameRead (waits cs s n) (dead cs' ed) = ⊥
SameRead (killed_there cs s) (took cs' ed) = ⊥
SameRead (killed_there cs s) (sleeps cs' ed n') = ⊥

with_char-SameRead :
    (c c' : ℕ) (r : ConsoleRead) (t : Taken)
    → c ≡ c'
    → SameRead r t
    → SameRead (with_char c r) (more_taken c' t)
with_char-SameRead c c' (has_read cs s) (took cs' ed) e (same, h) = (cc, h)
with_char-SameRead c c' (waits cs s n) (sleeps cs' ed n') e (same, count, h) = (cc, count, h)
with_char-SameRead c c' (killed_there cs s) (dead cs' ed) e (same, h) = (cc, h)
with_char-SameRead c c' (has_read cs s) (sleeps cs' ed n') e h = h
with_char-SameRead c c' (has_read cs s) (dead cs' ed) e h = h
with_char-SameRead c c' (waits cs s n) (took cs' ed) e h = h
with_char-SameRead c c' (waits cs s n) (dead cs' ed) e h = h
with_char-SameRead c c' (killed_there cs s) (took cs' ed) e h = h
with_char-SameRead c c' (killed_there cs s) (sleeps cs' ed n') e h = h

length-drop_one : (xs : List ℕ) → length (drop 1 xs) ≡ length xs - 1
length-drop_one [] = refl
length-drop_one (x ∷ xs) = omega arith

get_or-drop_one : (xs : List ℕ) (j : ℕ) → get_or (drop 1 xs) j 0 ≡ get_or xs (suc j) 0
get_or-drop_one [] j = refl
get_or-drop_one (x ∷ xs) j = refl

abbrev past_first : Input → Input
past_first s = record s { r = (s.r + 1) % u32 }

-- The first character is read.
first-Shows :
    (s : Input) (ed : Editor) → Shows s ed → 0 < ed.ready → Shows (past_first s) (without_first ed)
first-Shows s ed h more =
    let len = length-drop_one ed.all in
    let w_at = h.w_at in
    let e_at = h.e_at in
    let low = h.in_order in
    let fits = h.fits in
    record {
      small_r = omega arith;
      w_at = omega (arith, w_at);
      e_at = omega (arith, e_at, len);
      in_order = omega (arith, len);
      fits = omega (arith, len);
      bytes = λ j l.
          let index : ((s.r + 1) % u32 + j) % input_buf ≡ (s.r + suc j) % input_buf = omega arith in
          ap s.buf index ∙ h.bytes (suc j) (omega (arith, len)) ∙ sym (get_or-drop_one ed.all j);
      one_line = λ j a l is.
          h.one_line (suc j) (omega arith) (omega (arith, len))
            (sym (get_or-drop_one ed.all j) ∙ is);
    }

r_is_w : (s : Input) (ed : Editor) → Shows s ed → (s.r == s.w) ≡ (ed.ready == 0)
r_is_w s ed h =
    let w_at = h.w_at in
    let small = h.small_r in
    let low = h.in_order in
    let fits = h.fits in
    elim (ℕ_discrete ed.ready 0) [
      | yes is ↦
          let same : s.r ≡ s.w = omega (arith, w_at, is) in
          let ring : (s.r == s.w) ≡ true = ground arith in
          let list : (ed.ready == 0) ≡ true = ground arith in ring ∙ sym list
      | no ne ↦
          let apart : s.r ≡ s.w → ⊥ = λ q. omega (arith, w_at, q) in
          let ring : (s.r == s.w) ≡ false = ground arith in
          let list : (ed.ready == 0) ≡ false = ground arith in ring ∙ sym list
    ]

-- A read from a ring that shows what an editor holds does what a read of the editor does: it returns
-- the same characters, sleeps after the same ones or fails after the same ones where it is killed, and
-- leaves a ring that shows what is left.
pub consoleread-take_chars :
    (killed some_read : Bool) (n : ℕ) (s : Input) (ed : Editor)
    → Shows s ed
    → SameRead (consoleread killed some_read n s) (take_chars killed some_read n ed)
unfolding consoleread take_chars
consoleread-take_chars killed some_read zero s ed h = (refl, h)
consoleread-take_chars killed some_read (suc n) s ed h = elim (Bool-cases (ed.ready == 0)) [
  | inl nothing ↦ rw (r_is_w s ed h, nothing) (asleep killed)
  | inr something ↦
      let low = h.in_order in
      let more : 0 < ed.ready = ground arith in
      let index : s.r % input_buf ≡ (s.r + 0) % input_buf = omega arith in
      let c : s.buf (s.r % input_buf) ≡ get_or ed.all 0 0 =
        ap s.buf index ∙ h.bytes 0 (omega arith) in
      let next = first-Shows s ed h more in
      rw (r_is_w s ed h, something, c)
        (elim (Bool-cases (get_or ed.all 0 0 == 4)) [
          | inl end ↦ rw end (at_end some_read next)
          | inr not_end ↦ elim (Bool-cases (get_or ed.all 0 0 == 10)) [
            | inl line ↦ rw (not_end, line) (refl, next)
            | inr not_line ↦
                rw (not_end, not_line)
                  (with_char-SameRead (get_or ed.all 0 0) (get_or ed.all 0 0)
                    (consoleread killed true n (past_first s))
                    (take_chars killed true n (without_first ed)) refl
                    (consoleread-take_chars killed true n (past_first s) (without_first ed) next))
          ]
        ])
]
  where
    asleep :
        (b : Bool)
        → SameRead
            (if b then killed_there [] s else waits [] s (suc n))
            (if b then dead [] ed else sleeps [] ed (suc n))
    asleep true = (refl, h)
    asleep false = (refl, refl, h)

    at_end :
        (b : Bool)
        → Shows (past_first s) (without_first ed)
        → SameRead
            (has_read [] (if b then s else past_first s))
            (took [] (if b then ed else without_first ed))
    at_end true next = (refl, h)
    at_end false next = (refl, next)
