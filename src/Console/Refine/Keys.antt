-- ===== src/Console/Refine/Keys.antt =====
-- The ring of kernel/console.c under each key.
use northos.Prelude.{
  ℕ, ◌+◌, ◌%◌, ◌<◌, ◌≤◌, ◌≡◌, ◌≢◌, refl, sym, ap, subst, ◌∙◌, inl, inr, Bool-cases, true, false,
  not, ◌&&◌, ◌||◌, List, [], ◌∷◌, ◌++◌, length, length-append, get_or, ltb, ◌==◌, if◌then◌else◌,
  update_ne, update_eq, ℕ_discrete, arith,
}
use northos.Console.{
  Input, input_buf, u32, newline, put_char, ends_line, end_line, type_char, key, consoleintr,
}
use northos.Console.Editor.{Editor, add, edit, edits}
use northos.Console.Refine.{
  Shows, get_or-append_left, get_or-append_last, kill_line-Shows, backspace-Shows, in_use-length,
}

length-add : (xs : List ℕ) (c : ℕ) → length (xs ++ c ∷ []) ≡ length xs + 1
length-add xs c = length-append xs (c ∷ [])

-- A character more, of which and of those before the first `ready` can be read.
grown-Shows :
    (s : Input) (ed : Editor) (c ready : ℕ)
    → Shows s ed
    → length ed.all < input_buf
    → ed.ready ≤ ready
    → ready ≤ length ed.all + 1
    → (ready ≤ length ed.all → c ≢ 10)
    → Shows
        (record (put_char s c) { w = (s.r + ready) % u32 })
        (record { all = ed.all ++ c ∷ []; ready = ready })
grown-Shows s ed c ready h room lo hi other =
    let len = length-add ed.all c in
    let e_at = h.e_at in
    let end : s.e % input_buf ≡ (s.r + length ed.all) % input_buf = omega (arith, e_at) in
    record {
      small_r = h.small_r;
      w_at = refl;
      e_at = omega (arith, e_at, len);
      in_order = omega (arith, len);
      fits = omega (arith, len);
      bytes = λ j l. elim (ℕ_discrete j (length ed.all)) [
        | yes is ↦
            update_eq s.buf (s.e % input_buf) ((s.r + j) % input_buf) c (omega (arith, end, is))
            ∙ sym (ap (λ k. get_or (ed.all ++ c ∷ []) k 0) is ∙ get_or-append_last ed.all c)
        | no ne ↦
            update_ne s.buf (s.e % input_buf) ((s.r + j) % input_buf) c
              (λ q. absurd (omega (arith, end, len, q)))
            ∙ h.bytes j (omega (arith, len))
            ∙ sym (get_or-append_left ed.all (c ∷ []) j (omega (arith, len)))
      ];
      one_line = λ j a l is. elim (ℕ_discrete j (length ed.all)) [
        | yes last ↦
            other (omega arith) (
              sym (ap (λ k. get_or (ed.all ++ c ∷ []) k 0) last ∙ get_or-append_last ed.all c) ∙ is)
        | no ne ↦
            h.one_line j (omega arith) (omega (arith, len))
              (sym (get_or-append_left ed.all (c ∷ []) j (omega (arith, len))) ∙ is)
      ];
    }

-- The ring is full where the editor is.
full_same :
    (s : Input) (ed : Editor) (c : ℕ)
    → Shows s ed
    → length ed.all < input_buf
    → ((put_char s c).e == (s.r + input_buf) % u32) ≡ (length (ed.all ++ c ∷ []) == input_buf)
full_same s ed c h room =
    let len = length-add ed.all c in
    let e_at = h.e_at in
    elim (ℕ_discrete (length ed.all + 1) input_buf) [
      | yes is ↦
          let at_end : (put_char s c).e ≡ (s.r + input_buf) % u32 = omega (arith, e_at) in
          let ring : ((put_char s c).e == (s.r + input_buf) % u32) ≡ true = ground arith in
          let list : (length (ed.all ++ c ∷ []) == input_buf) ≡ true = ground (arith, len) in
          ring ∙ sym list
      | no ne ↦
          let apart : (put_char s c).e ≡ (s.r + input_buf) % u32 → ⊥ =
            λ q. omega (arith, e_at, q) in
          let ring : ((put_char s c).e == (s.r + input_buf) % u32) ≡ false = ground arith in
          let list : (length (ed.all ++ c ∷ []) == input_buf) ≡ false = ground (arith, len) in
          ring ∙ sym list
    ]

put_char-Shows :
    (s : Input) (ed : Editor) (c : ℕ)
    → Shows s ed
    → length ed.all < input_buf
    → Shows (end_line (put_char s c) c).0 (add ed c)
put_char-Shows s ed c h room =
    let len = length-add ed.all c in
    let low = h.in_order in
    let e_at = h.e_at in
    let full = full_same s ed c h room in
    elim (Bool-cases (c == 10 || c == 4 || length (ed.all ++ c ∷ []) == input_buf)) [
      | inl ends ↦
          let ends' : ends_line (put_char s c) c ≡ true =
            ap (λ b. c == 10 || c == 4 || b) full ∙ ends in
          let end : (s.r + length (ed.all ++ c ∷ [])) % u32 ≡ (s.e + 1) % u32 =
            omega (arith, e_at, len) in
          rw (ends', ends)
            (subst
              (λ k.
                Shows (record (put_char s c) { w = k })
                  (record { all = ed.all ++ c ∷ []; ready = length (ed.all ++ c ∷ []) }))
              end
              (grown-Shows s ed c (length (ed.all ++ c ∷ [])) h room (omega (arith, len))
                (omega (arith, len)) (λ l. absurd (omega (arith, len)))))
      | inr goes_on ↦
          let goes_on' : ends_line (put_char s c) c ≡ false =
            ap (λ b. c == 10 || c == 4 || b) full ∙ goes_on in
          let other : c ≢ 10 = λ q. ground arith in
          rw (goes_on', goes_on)
            (subst
              (λ k.
                Shows (record (put_char s c) { w = k })
                  (record { all = ed.all ++ c ∷ []; ready = ed.ready }))
              (sym h.w_at)
              (grown-Shows s ed c ed.ready h room (omega arith) (omega arith) (λ l. other)))
    ]

-- One character that is typed changes the ring as it changes the editor.
pub key-edit : (s : Input) (ed : Editor) (c : ℕ) → Shows s ed → Shows (key s c).0 (edit ed c)
unfolding key type_char
key-edit s ed c h = elim (Bool-cases (c == 16)) [
  | inl list ↦ rw list h
  | inr not_list ↦ elim (Bool-cases (c == 21)) [
    | inl kill ↦
        let fits = h.fits in rw (not_list, kill) (kill_line-Shows input_buf s ed h (omega arith))
    | inr not_kill ↦ elim (Bool-cases (c == 8 || c == 127)) [
      | inl back ↦ rw (not_list, not_kill, back) (backspace-Shows s ed h)
      | inr not_back ↦ rw (not_list, not_kill, not_back) typed
    ]
  ]
]
  where
    typed :
        Shows
          (type_char s c).0
          (if not (c == 0) && ltb (length ed.all) input_buf then add ed (newline c) else ed)
    typed =
        let same = in_use-length s ed h in
        elim (Bool-cases (not (c == 0) && ltb (length ed.all) input_buf)) [
          | inl taken ↦ rw (same, taken) (put_char-Shows s ed (newline c) h (ground arith))
          | inr dropped ↦ rw (same, dropped) h
        ]

-- Characters that are typed, from a ring that shows what an editor holds on, leave one that shows
-- what they make of it: the ring with its wrapping counters is a line editor for 128 characters.
pub consoleintr-edits :
    (s : Input) (ed : Editor) (cs : List ℕ) → Shows s ed → Shows (consoleintr s cs).0 (edits ed cs)
unfolding consoleintr edits
consoleintr-edits s ed [] h = h
consoleintr-edits s ed (c ∷ cs) h = consoleintr-edits (key s c).0 (edit ed c) cs (key-edit s ed c h)
