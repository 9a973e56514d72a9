-- ===== src/Pipe.antt =====
-- kernel/pipe.c: a pipe, its two counters wrapping at 2^32, and the loops of its two ends. Each
-- function runs under the pipe's lock up to its return or its `sleep`; a process that sleeps runs
-- the loop again from the same test. The lock itself is left out. A count is the length of the list,
-- or a natural number: a negative count runs no loop.
pub mod Window
pub mod Transfer
pub mod Stream
mod Tests
use northos.Prelude.{
  ℕ, zero, suc, ◌+◌, ◌-◌, ◌%◌, ◌^◌, Bool, true, false, not, ◌&&◌, ◌||◌, List, [], ◌∷◌, ◌++◌, get_or,
  set, replicate, ◌==◌, if◌then◌else◌,
}

-- PIPESIZE
abbrev pub pipe_size : ℕ
pipe_size = 512

abbrev pub u32 : ℕ
u32 = 2 ^ 32

pub record Pipe : Type 0 where
  pub bytes : List ℕ
  pub nread : ℕ
  pub nwrite : ℕ
  pub readopen : Bool
  pub writeopen : Bool

-- The fields that `pipealloc` sets in the page that it has taken.
unfoldable pub new_pipe : List ℕ → Pipe
new_pipe page = record { bytes = page; nread = 0; nwrite = 0; readopen = true; writeopen = true }

-- What is left of the pipe, and whether its page is freed.
pub pipeclose : Pipe → Bool → Pipe × Bool
pipeclose p writable =
    let p' = if writable then record p { writeopen = false } else record p { readopen = false } in
    (p', not p'.readopen && not p'.writeopen)

pub is_full : Pipe → Bool
is_full p = p.nwrite == (p.nread + pipe_size) % u32

-- p->data[p->nwrite++ % PIPESIZE] = byte
unfoldable pub put : Pipe → ℕ → Pipe
put p byte = record p {
  bytes = set p.bytes (p.nwrite % pipe_size) byte;
  nwrite = (p.nwrite + 1) % u32;
}

-- The pipe afterwards, and: all bytes are written, the write has failed with a rest (the code says
-- only that it failed), or it sleeps with a rest.
pub data Write : Type 0 where
  wrote : Pipe → Write
  fails : Pipe → List ℕ → Write
  waits : Pipe → List ℕ → Write

pub pipewrite : Bool → Pipe → List ℕ → Write
pipewrite killed p [] = wrote p
pipewrite killed p (x ∷ xs) =
    let rest = pipewrite killed (put p x) xs in
    if is_full p
    then if not p.readopen || killed then fails p (x ∷ xs) else waits p (x ∷ xs)
    else rest

pub is_empty : Pipe → Bool
is_empty p = p.nread == p.nwrite

-- The copying loop of `piperead`: the bytes in order, and the pipe afterwards.
pub copy_out : ℕ → Pipe → List ℕ × Pipe
copy_out zero p = ([], p)
copy_out (suc n) p =
    let (xs, p') = copy_out n (record p { nread = (p.nread + 1) % u32 }) in
    if is_empty p then ([], p) else (get_or p.bytes (p.nread % pipe_size) 0 ∷ xs, p')

pub data Read : Type 0 where
  got : List ℕ → Pipe → Read
  killed_reader : Read
  sleeps : Read

pub piperead : Bool → Pipe → ℕ → Read
piperead killed p n =
    let (xs, p') = copy_out n p in
    if is_empty p && p.writeopen then if killed then killed_reader else sleeps else got xs p'
