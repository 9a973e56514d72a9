-- ===== src/Pipe/Transfer.antt =====
-- What one run of `pipewrite` and of `piperead` moves.
use northos.Prelude.{
  ℕ, zero, suc, ◌<◌, ◌≡◌, refl, sym, ◌∙◌, ap, ◌⊎◌, inl, inr, Bool, true, false, not, ◌||◌, ◌&&◌,
  List, [], ◌∷◌, ◌++◌, length, take, drop, Bool-cases, arith, get_or, ◌%◌,
}
use mathlib.Core.List.{append_assoc, append-nil}
use northos.Pipe.{
  Pipe, pipe_size, put, is_full, is_empty, Write, wrote, fails, waits, pipewrite, copy_out, Read,
  got, killed_reader, sleeps, piperead,
}
use northos.Pipe.Window.{
  used, contents, IsValid, is_full_iff, is_empty_iff, put-IsValid, contents-put, took, took-IsValid,
  contents-took, contents-empty,
}

-- What `pipewrite` of `src` to `p` may do. The bytes that fit are always in the pipe afterwards.
pub data Writes (killed : Bool) (p : Pipe) (src : List ℕ) : Write → Type 0 where
  all :
      {q : Pipe}
      → IsValid q
      → contents q ≡ contents p ++ src
      → q.readopen ≡ p.readopen
      → q.writeopen ≡ p.writeopen
      → Writes killed p src (wrote q)
  stopped :
      {q : Pipe} (sent rest : List ℕ)
      → src ≡ sent ++ rest
      → IsValid q
      → used q ≡ pipe_size
      → contents q ≡ contents p ++ sent
      → q.readopen ≡ p.readopen
      → q.writeopen ≡ p.writeopen
      → (p.readopen ≡ false) ⊎ (killed ≡ true)
      → Writes killed p src (fails q rest)
  parted :
      {q : Pipe} (sent rest : List ℕ)
      → src ≡ sent ++ rest
      → 0 < length rest
      → IsValid q
      → used q ≡ pipe_size
      → contents q ≡ contents p ++ sent
      → q.readopen ≡ true
      → p.readopen ≡ true
      → q.writeopen ≡ p.writeopen
      → killed ≡ false
      → Writes killed p src (waits q rest)

Writes-cons :
    (killed : Bool) (p : Pipe) (x : ℕ) (xs : List ℕ) (w : Write)
    → contents (put p x) ≡ contents p ++ x ∷ []
    → Writes killed (put p x) xs w
    → Writes killed p (x ∷ xs) w
unfolding put
Writes-cons killed p x xs w e (all v c r o) = all v (rw (c, e) (append_assoc (contents p) _ _)) r o
Writes-cons killed p x xs w e (stopped sent rest s v u c r o why) =
    stopped (x ∷ sent) rest (ap (λ q. x ∷ q) s) v u (rw (c, e) (append_assoc (contents p) _ _)) r o
      why
Writes-cons killed p x xs w e (parted sent rest s l v u c r r' o k) =
    parted (x ∷ sent) rest (ap (λ q. x ∷ q) s) l v u (rw (c, e) (append_assoc (contents p) _ _)) r
      r' o k

-- `pipewrite` puts in all the bytes; or, where the pipe has filled up after the first of them, it
-- fails if the read end is closed or the process killed, and otherwise sleeps with the rest. On
-- each branch the pipe stays valid and holds, behind what it held, just the bytes put in.
pub pipewrite-Writes :
    (killed : Bool) (p : Pipe) (src : List ℕ)
    → IsValid p
    → Writes killed p src (pipewrite killed p src)
unfolding pipewrite
pipewrite-Writes killed p [] v = all v (sym (append-nil (contents p))) refl refl
pipewrite-Writes killed p (x ∷ xs) v = elim (Bool-cases (is_full p)) [
  | inl full ↦ elim (Bool-cases (not p.readopen || killed)) [
    | inl gone ↦
        rw (full, gone)
          (stopped [] (x ∷ xs) refl v ((is_full_iff v).0 full) (sym (append-nil (contents p))) refl
            refl (ground arith))
    | inr waiting ↦
        rw (full, waiting)
          (parted [] (x ∷ xs) refl (omega arith) v ((is_full_iff v).0 full)
            (sym (append-nil (contents p))) (ground arith) (ground arith) refl (ground arith))
  ]
  | inr room ↦
      let fits : used p < pipe_size = ground (arith, is_full_iff v, v.fits) in
      rw room (
        Writes-cons killed p x xs _ (contents-put v x fits)
          (pipewrite-Writes killed (put p x) xs (put-IsValid v x fits)))
]

-- The bytes and the pipe that the copying loop leaves.
pub record Copies (n : ℕ) (p : Pipe) (xs : List ℕ) (q : Pipe) : Type 0 where
  pub valid : IsValid q
  pub taken : xs ≡ take n (contents p)
  pub kept : contents q ≡ drop n (contents p)
  pub same : (q.readopen ≡ p.readopen) × (q.writeopen ≡ p.writeopen)

pub copy_out-Copies : (n : ℕ) (p : Pipe) → IsValid p → let (xs, q) = copy_out n p in Copies n p xs q
unfolding copy_out
copy_out-Copies zero p v = record { valid = v; taken = refl; kept = refl; same = (refl, refl) }
copy_out-Copies (suc n) p v = elim (Bool-cases (is_empty p)) [
  | inl none_left ↦
      let e = contents-empty v none_left in
      rw none_left (record {
        valid = v;
        taken = ap (take (suc n)) (sym e);
        kept = e ∙ ap (drop (suc n)) (sym e);
        same = (refl, refl);
      })
  | inr more ↦
      let some_bytes : 0 < used p = ground (arith, is_empty_iff v) in
      let c = copy_out-Copies n (took p) (took-IsValid v some_bytes) in
      let e = contents-took v some_bytes in
      rw more (record {
        valid = c.valid;
        taken =
            ap (λ q. get_or p.bytes (p.nread % pipe_size) 0 ∷ q) c.taken
            ∙ ap (take (suc n)) (sym e);
        kept = c.kept ∙ ap (drop (suc n)) (sym e);
        same = c.same;
      })
]

-- What `piperead` of n bytes from `p` may do: it fails or sleeps only where the pipe is empty with
-- its write end open, and otherwise takes the oldest bytes, as many as there are up to n.
pub data Reads (killed : Bool) (p : Pipe) (n : ℕ) : Read → Type 0 where
  takes :
      {xs : List ℕ} {q : Pipe}
      → Copies n p xs q
      → (0 < used p) ⊎ (p.writeopen ≡ false)
      → Reads killed p n (got xs q)
  gives_up : used p ≡ 0 → p.writeopen ≡ true → killed ≡ true → Reads killed p n killed_reader
  blocks : used p ≡ 0 → p.writeopen ≡ true → killed ≡ false → Reads killed p n sleeps

-- `piperead` of n bytes fails or sleeps only at an empty pipe with its write end open, and fails
-- only if the process is killed; otherwise it takes the first n bytes in the pipe, or all if there
-- are fewer, and leaves the others.
pub piperead-Reads :
    (killed : Bool) (p : Pipe) (n : ℕ) → IsValid p → Reads killed p n (piperead killed p n)
unfolding piperead
piperead-Reads killed p n v = elim (Bool-cases (is_empty p && p.writeopen)) [
  | inl wait ↦
      let e : used p ≡ 0 = ground (arith, is_empty_iff v) in
      let o : p.writeopen ≡ true = ground arith in
      elim (Bool-cases killed) [
        | inl k ↦ rw (wait, k) (gives_up e o refl)
        | inr k ↦ rw (wait, k) (blocks e o refl)
      ]
  | inr go ↦
      let why : (0 < used p) ⊎ (p.writeopen ≡ false) = ground (arith, is_empty_iff v) in
      rw go (takes (copy_out-Copies n p v) why)
]
