-- ===== src/Console/Refine.antt =====
-- The ring of kernel/console.c and the editor that it shows.
pub mod Keys
use northos.Prelude.{
  ℕ, zero, suc, ◌+◌, ◌-◌, ◌%◌, ◌<◌, ◌≤◌, ◌≡◌, ◌≢◌, refl, sym, ap, subst, ◌∙◌, inl, inr, Bool-cases,
  true, false, not, ◌&&◌, ◌||◌, List, [], ◌∷◌, ◌++◌, length, length-append, take, get_or, ltb, ◌==◌,
  if◌then◌else◌, update_ne, update_eq, ℕ_discrete, arith,
}
use northos.Console.{
  Input, input_buf, u32, before_e, in_use, kill_line, backspace, newline, put_char, ends_line,
  end_line, type_char, key, consoleintr,
}
use northos.Console.Editor.{Editor, add, edit, edits}

-- The ring from its read counter on holds the characters; only ended lines have a newline in them.
pub record Shows (s : Input) (ed : Editor) : Type 0 where
  pub small_r : s.r < u32
  pub w_at : s.w ≡ (s.r + ed.ready) % u32
  pub e_at : s.e ≡ (s.r + length ed.all) % u32
  pub in_order : ed.ready ≤ length ed.all
  pub fits : length ed.all ≤ input_buf
  pub bytes : (j : ℕ) → j < length ed.all → s.buf ((s.r + j) % input_buf) ≡ get_or ed.all j 0
  pub one_line : (j : ℕ) → ed.ready ≤ j → j < length ed.all → get_or ed.all j 0 ≢ 10

length-take : (n : ℕ) (xs : List ℕ) → n ≤ length xs → length (take n xs) ≡ n
length-take zero xs h = refl
length-take (suc n) [] h = absurd (omega arith)
length-take (suc n) (x ∷ xs) h = ap suc (length-take n xs (omega arith))

get_or-take : (n : ℕ) (xs : List ℕ) (j : ℕ) → j < n → get_or (take n xs) j 0 ≡ get_or xs j 0
get_or-take zero xs j h = absurd (omega arith)
get_or-take (suc n) [] j h = refl
get_or-take (suc n) (x ∷ xs) zero h = refl
get_or-take (suc n) (x ∷ xs) (suc j) h = get_or-take n xs j (omega arith)

get_or-append_left :
    (xs ys : List ℕ) (j : ℕ) → j < length xs → get_or (xs ++ ys) j 0 ≡ get_or xs j 0
get_or-append_left [] ys j h = absurd (omega arith)
get_or-append_left (x ∷ xs) ys zero h = refl
get_or-append_left (x ∷ xs) ys (suc j) h = get_or-append_left xs ys j (omega arith)

get_or-append_last : (xs : List ℕ) (c : ℕ) → get_or (xs ++ c ∷ []) (length xs) 0 ≡ c
get_or-append_last [] c = refl
get_or-append_last (x ∷ xs) c = get_or-append_last xs c

-- The end of the line is taken back to n characters.
cut-Shows :
    (s : Input) (ed : Editor) (n : ℕ)
    → Shows s ed
    → ed.ready ≤ n
    → n ≤ length ed.all
    → Shows (record s { e = (s.r + n) % u32 }) (record ed { all = take n ed.all })
cut-Shows s ed n h lo hi =
    let len = length-take n ed.all hi in
    record {
      small_r = h.small_r;
      w_at = h.w_at;
      e_at = ap (λ k. (s.r + k) % u32) (sym len);
      in_order = omega (arith, len);
      fits = let fits = h.fits in omega (arith, len);
      bytes =
          λ j l. h.bytes j (omega (arith, len)) ∙ sym (get_or-take n ed.all j (omega (arith, len)));
      one_line = λ j a l is.
          h.one_line j a (omega (arith, len))
            (sym (get_or-take n ed.all j (omega (arith, len))) ∙ is);
    }

take_all : (xs : List ℕ) → take (length xs) xs ≡ xs
take_all [] = refl
take_all (x ∷ xs) = ap (λ ys. x ∷ ys) (take_all xs)

take-take : (m n : ℕ) (xs : List ℕ) → m ≤ n → take m (take n xs) ≡ take m xs
take-take zero n xs h = refl
take-take (suc m) zero xs h = absurd (omega arith)
take-take (suc m) (suc n) [] h = refl
take-take (suc m) (suc n) (x ∷ xs) h = ap (λ ys. x ∷ ys) (take-take m n xs (omega arith))

-- The counters are the same just where no line is being typed.
e_is_w : (s : Input) (ed : Editor) → Shows s ed → length ed.all ≡ ed.ready → (s.e == s.w) ≡ true
e_is_w s ed h is =
    let w_at = h.w_at in
    let e_at = h.e_at in
    let same : s.e ≡ s.w = e_at ∙ ap (λ k. (s.r + k) % u32) is ∙ sym w_at in ground arith

e_is_not_w :
    (s : Input) (ed : Editor) → Shows s ed → ed.ready < length ed.all → (s.e == s.w) ≡ false
e_is_not_w s ed h more =
    let w_at = h.w_at in
    let e_at = h.e_at in
    let fits = h.fits in
    let small = h.small_r in
    let other : s.e ≡ s.w → ⊥ = λ q.
      let sames : (s.r + length ed.all) % u32 ≡ (s.r + ed.ready) % u32 = sym e_at ∙ q ∙ w_at in
      omega arith in
    ground arith

before_e_at :
    (s : Input) (ed : Editor)
    → Shows s ed
    → 0 < length ed.all
    → before_e s ≡ (s.r + (length ed.all - 1)) % u32
before_e_at s ed h more = let e_at = h.e_at in let small = h.small_r in omega (arith, e_at)

-- The character before the end of a line that is being typed is no newline.
no_newline :
    (s : Input) (ed : Editor)
    → Shows s ed
    → ed.ready < length ed.all
    → (s.buf (before_e s % input_buf) == 10) ≡ false
no_newline s ed h more =
    let at_e = before_e_at s ed h (omega arith) in
    let index : before_e s % input_buf ≡ (s.r + (length ed.all - 1)) % input_buf =
      omega (arith, at_e) in
    let here : s.buf (before_e s % input_buf) ≡ get_or ed.all (length ed.all - 1) 0 =
      ap s.buf index ∙ h.bytes (length ed.all - 1) (omega arith) in
    let other = h.one_line (length ed.all - 1) (omega arith) (omega arith) in
    let different : s.buf (before_e s % input_buf) ≡ 10 → ⊥ = λ q. other (sym here ∙ q) in
    ground arith

back_one :
    (s : Input) (ed : Editor)
    → Shows s ed
    → ed.ready < length ed.all
    → Shows (record s { e = before_e s }) (record ed { all = take (length ed.all - 1) ed.all })
back_one s ed h more =
    subst (λ k. Shows (record s { e = k }) (record ed { all = take (length ed.all - 1) ed.all }))
      (sym (before_e_at s ed h (omega arith)))
      (cut-Shows s ed (length ed.all - 1) h (omega arith) (omega arith))

drop_none :
    (s : Input) (ed : Editor)
    → Shows s ed
    → length ed.all ≡ ed.ready
    → Shows s (record ed { all = take ed.ready ed.all })
drop_none s ed h is =
    subst (λ xs. Shows s (record ed { all = xs }))
      (sym (ap (λ k. take k ed.all) (sym is) ∙ take_all ed.all)) h

kill_line-Shows :
    (n : ℕ) (s : Input) (ed : Editor)
    → Shows s ed
    → length ed.all ≤ ed.ready + n
    → Shows (kill_line n s) (record ed { all = take ed.ready ed.all })
unfolding kill_line
kill_line-Shows zero s ed h l = let low = h.in_order in drop_none s ed h (omega arith)
kill_line-Shows (suc n) s ed h l = elim (ℕ_discrete (length ed.all) ed.ready) [
  | yes is ↦ rw (e_is_w s ed h is) (drop_none s ed h is)
  | no ne ↦
      let low = h.in_order in
      let more : ed.ready < length ed.all = omega arith in
      let shorter = length-take (length ed.all - 1) ed.all (omega arith) in
      let rest =
        kill_line-Shows n (record s { e = before_e s })
          (record ed { all = take (length ed.all - 1) ed.all }) (back_one s ed h more)
          (omega (arith, shorter)) in
      rw (e_is_not_w s ed h more, no_newline s ed h more)
        (subst (λ xs. Shows (kill_line n (record s { e = before_e s })) (record ed { all = xs }))
          (take-take ed.ready (length ed.all - 1) ed.all (omega arith)) rest)
]

backspace-Shows : (s : Input) (ed : Editor) → Shows s ed → Shows (backspace s) (edit ed 8)
unfolding backspace
backspace-Shows s ed h = elim (ℕ_discrete (length ed.all) ed.ready) [
  | yes is ↦
      let nothing : (length ed.all == ed.ready) ≡ true = ground arith in
      rw (e_is_w s ed h is, nothing) h
  | no ne ↦
      let low = h.in_order in
      let something : (length ed.all == ed.ready) ≡ false = ground arith in
      rw (e_is_not_w s ed h (omega arith), something) (back_one s ed h (omega arith))
]

in_use-length : (s : Input) (ed : Editor) → Shows s ed → in_use s ≡ length ed.all
in_use-length s ed h =
    let e_at = h.e_at in let small = h.small_r in let fits = h.fits in omega (arith, e_at)
