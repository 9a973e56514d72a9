-- ===== src/Pipe/Window.antt =====
-- The bytes that a pipe holds, oldest first.
use northos.Prelude.{
  ℕ, Bool, zero, suc, ◌+◌, ◌-◌, ◌%◌, ◌≤◌, ◌<◌, ◌≡◌, refl, ◌≢◌, ◌∙◌, ap, List, [], ◌∷◌, ◌++◌, length,
  get_or, set, length-set, ◌↔◌, get_or-set_self, get_or-set_ne, true, false, arith,
}
use northos.Pipe.{Pipe, pipe_size, u32, put, is_full, is_empty, pipeclose, new_pipe}

-- The n bytes from the counter r on.
pub window : List ℕ → ℕ → ℕ → List ℕ
window bytes r zero = []
window bytes r (suc n) = get_or bytes (r % pipe_size) 0 ∷ window bytes ((r + 1) % u32) n

-- nwrite - nread, with the wrap-around.
abbrev pub used : Pipe → ℕ
used p = (p.nwrite + u32 - p.nread) % u32

pub contents : Pipe → List ℕ
contents p = window p.bytes p.nread (used p)

pub record IsValid (p : Pipe) : Type 0 where
  pub page : length p.bytes ≡ pipe_size
  pub read_in : p.nread < u32
  pub write_in : p.nwrite < u32
  pub fits : used p ≤ pipe_size

length-window : (bytes : List ℕ) (r n : ℕ) → length (window bytes r n) ≡ n
unfolding window
length-window bytes r zero = refl
length-window bytes r (suc n) = ap suc (length-window bytes ((r + 1) % u32) n)

pub length-contents : (p : Pipe) → length (contents p) ≡ used p
unfolding contents
length-contents p = length-window p.bytes p.nread (used p)

-- A store at the index just past the window extends it by that byte.
window-set :
    (bytes : List ℕ) (r n w x : ℕ)
    → length bytes ≡ pipe_size
    → r < u32
    → n < pipe_size
    → w ≡ (r + n) % u32
    → window (set bytes (w % pipe_size) x) r (suc n) ≡ window bytes r n ++ x ∷ []
unfolding window
window-set bytes r zero w x l h k e =
    let at : w % pipe_size ≡ r % pipe_size = omega arith in
    rw (at, get_or-set_self bytes (r % pipe_size) x 0 (omega arith))
window-set bytes r (suc n) w x l h k e =
    let apart : w % pipe_size ≢ r % pipe_size = omega arith in
    let at : w ≡ ((r + 1) % u32 + n) % u32 = omega arith in
    rw (get_or-set_ne bytes (w % pipe_size) (r % pipe_size) x 0 apart) (
      ap (λ q. get_or bytes (r % pipe_size) 0 ∷ q)
        (window-set bytes ((r + 1) % u32) n w x l (omega arith) (omega arith) at))

pub is_full_iff : {p : Pipe} → IsValid p → (is_full p ≡ true) ↔ (used p ≡ pipe_size)
unfolding is_full
is_full_iff v = ground arith

pub is_empty_iff : {p : Pipe} → IsValid p → (is_empty p ≡ true) ↔ (used p ≡ 0)
unfolding is_empty
is_empty_iff v = ground arith

module _ {p : Pipe} (v : IsValid p) (x : ℕ) (room : used p < pipe_size) where
  used-put : used (put p x) ≡ used p + 1
  unfolding put
  used-put = omega (arith, v.read_in, v.write_in, v.fits)

  pub put-IsValid : IsValid (put p x)
  unfolding put
  put-IsValid = record {
    page = length-set p.bytes (p.nwrite % pipe_size) x ∙ v.page;
    read_in = v.read_in;
    write_in = omega arith;
    fits = omega (arith, used-put);
  }

  pub contents-put : contents (put p x) ≡ contents p ++ x ∷ []
  unfolding contents put
  contents-put =
      let e : used (put p x) ≡ suc (used p) = omega (arith, used-put) in
      let at : p.nwrite ≡ (p.nread + used p) % u32 = omega (arith, v.read_in, v.write_in) in
      rw e (window-set p.bytes p.nread (used p) p.nwrite x v.page v.read_in room at)

-- Taking the oldest byte.
abbrev pub took : Pipe → Pipe
took p = record p { nread = (p.nread + 1) % u32 }

module _ {p : Pipe} (v : IsValid p) (some_bytes : 0 < used p) where
  pub took-IsValid : IsValid (took p)
  took-IsValid = record {
    page = v.page;
    read_in = omega arith;
    write_in = v.write_in;
    fits = omega (arith, v.read_in, v.write_in, v.fits);
  }

  pub contents-took : contents p ≡ get_or p.bytes (p.nread % pipe_size) 0 ∷ contents (took p)
  unfolding contents window
  contents-took =
      let e : used p ≡ suc (used (took p)) = omega (arith, v.read_in, v.write_in, v.fits) in
      ap (window p.bytes p.nread) e

pub contents-empty : {p : Pipe} → IsValid p → is_empty p ≡ true → contents p ≡ []
unfolding contents window
contents-empty {p} v e = ap (window p.bytes p.nread) ((is_empty_iff v).0 e)

-- Closing an end leaves the bytes alone.
pub pipeclose-contents :
    {p : Pipe} (writable : Bool)
    → IsValid p
    → IsValid (pipeclose p writable).0 × (contents (pipeclose p writable).0 ≡ contents p)
unfolding pipeclose contents
pipeclose-contents true v =
    (record { page = v.page; read_in = v.read_in; write_in = v.write_in; fits = v.fits }, refl)
pipeclose-contents false v =
    (record { page = v.page; read_in = v.read_in; write_in = v.write_in; fits = v.fits }, refl)

pub new_pipe-contents :
    (page : List ℕ)
    → length page ≡ pipe_size
    → IsValid (new_pipe page) × (contents (new_pipe page) ≡ [])
unfolding new_pipe contents window
new_pipe-contents page h =
    (record { page = h; read_in = omega arith; write_in = omega arith; fits = omega arith }, refl)
