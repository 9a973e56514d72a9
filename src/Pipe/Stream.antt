-- ===== src/Pipe/Stream.antt =====
-- kernel/pipe.c: a writer and a reader at the two ends of a pipe, with their sleeps and wakeups, run in
-- any order.
use northos.Prelude.{
  ℕ, ◌≤◌, ◌<◌, ◌≡◌, refl, sym, ◌∙◌, ap, ◌⊎◌, inl, inr, Bool, true, false, List, [], ◌++◌, length,
  take, take-append-drop, take-length_append, ◌-◌, arith, length-append, subst,
}
use mathlib.Core.List.{append_assoc, append-nil}
use northos.Pipe.{
  Pipe, pipe_size, Write, wrote, fails, waits, pipewrite, Read, got, killed_reader, sleeps,
  piperead, pipeclose, new_pipe,
}
use northos.Pipe.Window.{
  used, contents, IsValid, length-contents, pipeclose-contents, new_pipe-contents,
}
use northos.Pipe.Transfer.{
  Writes, all, stopped, parted, pipewrite-Writes, Reads, takes, gives_up, blocks, piperead-Reads,
}

-- A process at one end: outside the pipe's code, in a loop that has `rest` before it, or asleep
-- there until a wakeup.
pub data End (A : Type 0) : Type 0 where
  away : End A
  running : A → End A
  asleep : A → End A

-- wakeup(&p->nread) or wakeup(&p->nwrite), for the process that may sleep there
pub wakeup : {A : Type 0} → End A → End A
wakeup away = away
wakeup (running a) = running a
wakeup (asleep a) = running a

pub record System : Type 0 where
  pub pipe : Pipe
  pub writer : End (List ℕ)
  pub reader : End ℕ
  -- All bytes given to `pipewrite`, less those of failed calls that never got in.
  pub sent : List ℕ
  pub received : List ℕ
  -- A write has failed at a full pipe, and `wakeup(&p->nread)` has not been called since.
  pub cut : Bool

-- What the writer has still to put in.
pub unsent : End (List ℕ) → List ℕ
unsent away = []
unsent (running rest) = rest
unsent (asleep rest) = rest

-- What a run of `pipewrite` does to the system.
pub after_write : System → List ℕ → Write → System
after_write s rest (wrote p) = record s {
  pipe = p;
  writer = away;
  reader = wakeup s.reader;
  cut = false;
}
after_write s rest (fails p left) = record s {
  pipe = p;
  writer = away;
  sent = take (length s.sent - length left) s.sent;
  cut = true;
}
after_write s rest (waits p rest') = record s {
  pipe = p;
  writer = asleep rest';
  reader = wakeup s.reader;
  cut = false;
}

unfoldable pub after_read : System → ℕ → Read → System
after_read s n (got xs p) = record s {
  pipe = p;
  reader = away;
  writer = wakeup s.writer;
  received = s.received ++ xs;
}
after_read s n killed_reader = record s { reader = away }
after_read s n sleeps = record s { reader = asleep n }

pub data Step (s : System) : System → Type 0 where
  calls_write :
      (src : List ℕ)
      → s.writer ≡ away
      → s.pipe.writeopen ≡ true
      → Step s (record s { writer = running src; sent = s.sent ++ src })
  calls_read :
      (n : ℕ) → s.reader ≡ away → s.pipe.readopen ≡ true → Step s (record s { reader = running n })
  writes :
      (killed : Bool) (rest : List ℕ)
      → s.writer ≡ running rest
      → Step s (after_write s rest (pipewrite killed s.pipe rest))
  reads :
      (killed : Bool) (n : ℕ)
      → s.reader ≡ running n
      → Step s (after_read s n (piperead killed s.pipe n))
  closes_write :
      s.writer ≡ away
      → Step s
          (record s { pipe = (pipeclose s.pipe true).0; reader = wakeup s.reader; cut = false })
  closes_read :
      s.reader ≡ away
      → Step s (record s { pipe = (pipeclose s.pipe false).0; writer = wakeup s.writer })
  -- `kill` wakes the process that it is aimed at.
  kills_writer : Step s (record s { writer = wakeup s.writer })
  kills_reader : Step s (record s { reader = wakeup s.reader })

pub data Reach (s : System) : System → Type 0 where
  here : Reach s s
  next : {t u : System} → Reach s t → Step t u → Reach s u

-- A writer sleeps only at a full pipe with its read end open.
abbrev pub WriterOk : Pipe → End (List ℕ) → Type 0
WriterOk p away = Unit {0}
WriterOk p (running rest) = Unit {0}
WriterOk p (asleep rest) = (used p ≡ pipe_size) × (p.readopen ≡ true)

-- A reader sleeps only at an empty pipe with its write end open, or where a write has been cut off.
abbrev pub ReaderOk : Bool → Pipe → End ℕ → Type 0
ReaderOk cut p away = Unit {0}
ReaderOk cut p (running n) = Unit {0}
ReaderOk cut p (asleep n) = (cut ≡ true) ⊎ ((used p ≡ 0) × (p.writeopen ≡ true))

pub record Inv (s : System) : Type 0 where
  pub valid : IsValid s.pipe
  pub stream : s.sent ≡ s.received ++ (contents s.pipe ++ unsent s.writer)
  pub writer_ok : WriterOk s.pipe s.writer
  pub reader_ok : ReaderOk s.cut s.pipe s.reader

wakeup-WriterOk : (p : Pipe) (w : End (List ℕ)) → WriterOk p (wakeup w)
unfolding wakeup
wakeup-WriterOk p away = tt
wakeup-WriterOk p (running a) = tt
wakeup-WriterOk p (asleep a) = tt

wakeup-ReaderOk : (cut : Bool) (p : Pipe) (w : End ℕ) → ReaderOk cut p (wakeup w)
unfolding wakeup
wakeup-ReaderOk cut p away = tt
wakeup-ReaderOk cut p (running a) = tt
wakeup-ReaderOk cut p (asleep a) = tt

unsent-wakeup : (w : End (List ℕ)) → unsent (wakeup w) ≡ unsent w
unfolding wakeup unsent
unsent-wakeup away = refl
unsent-wakeup (running a) = refl
unsent-wakeup (asleep a) = refl

cut-ReaderOk : (p : Pipe) (r : End ℕ) → ReaderOk true p r
cut-ReaderOk p away = tt
cut-ReaderOk p (running n) = tt
cut-ReaderOk p (asleep n) = inl refl

running-stream :
    {s : System} {rest : List ℕ}
    → Inv s
    → s.writer ≡ running rest
    → s.sent ≡ s.received ++ (contents s.pipe ++ rest)
unfolding unsent
running-stream {s} v e = v.stream ∙ ap (λ w. s.received ++ (contents s.pipe ++ unsent w)) e

-- The stream with the bytes that a run of `pipewrite` has moved into the pipe.
moved :
    (received old now rest sent left : List ℕ)
    → rest ≡ sent ++ left
    → now ≡ old ++ sent
    → received ++ (old ++ rest) ≡ received ++ (now ++ left)
moved received old now rest sent left split c =
    rw (split, c) (ap (λ q. received ++ q) (sym (append_assoc old sent left)))

trimmed :
    (whole front left : List ℕ)
    → whole ≡ front ++ left
    → take (length whole - length left) whole ≡ front
trimmed whole front left e =
    let n : length whole - length left ≡ length front =
      omega (arith, ap length e, length-append front left) in
    rw n (ap (take (length front)) e ∙ take-length_append front left)

after_write-Inv :
    (s : System) (killed : Bool) (rest : List ℕ) (w : Write)
    → s.writer ≡ running rest
    → Inv s
    → Writes killed s.pipe rest w
    → Inv (after_write s rest w)
unfolding after_write unsent
after_write-Inv s killed rest (wrote q) e v (all valid c r o) = record {
  valid = valid;
  stream = running-stream v e ∙ ap (λ xs. s.received ++ xs) (sym c ∙ sym (append-nil (contents q)));
  writer_ok = tt;
  reader_ok = wakeup-ReaderOk false q s.reader;
}
after_write-Inv s killed rest (fails q left) e v (stopped sent left' split valid u c r o why) =
    record {
      valid = valid;
      stream =
          trimmed s.sent (s.received ++ contents q) left (
            running-stream v e
            ∙ moved s.received (contents s.pipe) (contents q) rest sent left split c
            ∙ sym (append_assoc s.received (contents q) left))
          ∙ ap (λ xs. s.received ++ xs) (sym (append-nil (contents q)));
      writer_ok = tt;
      reader_ok = cut-ReaderOk q s.reader;
    }
after_write-Inv s killed rest (waits q left) e v (parted sent left' split l valid u c r r' o k) =
    record {
      valid = valid;
      stream =
          running-stream v e
          ∙ moved s.received (contents s.pipe) (contents q) rest sent left split c;
      writer_ok = (u, r);
      reader_ok = wakeup-ReaderOk false q s.reader;
    }

after_read-Inv :
    (s : System) (killed : Bool) (n : ℕ) (r : Read)
    → Inv s
    → Reads killed s.pipe n r
    → Inv (after_read s n r)
unfolding after_read
after_read-Inv s killed n (got xs q) v (takes c why) = record {
  valid = c.valid;
  stream =
      v.stream
      ∙ ap (λ w. s.received ++ (w ++ unsent s.writer))
          (sym (take-append-drop n (contents s.pipe)) ∙ (λ i. sym c.taken i ++ sym c.kept i))
      ∙ ap (λ w. s.received ++ w) (append_assoc xs (contents q) (unsent s.writer))
      ∙ sym (append_assoc s.received xs (contents q ++ unsent s.writer))
      ∙ ap (λ w. (s.received ++ xs) ++ (contents q ++ w)) (sym (unsent-wakeup s.writer));
  writer_ok = wakeup-WriterOk q s.writer;
  reader_ok = tt;
}
after_read-Inv s killed n killed_reader v (gives_up u o k) = record {
  valid = v.valid;
  stream = v.stream;
  writer_ok = v.writer_ok;
  reader_ok = tt;
}
after_read-Inv s killed n sleeps v (blocks u o k) = record {
  valid = v.valid;
  stream = v.stream;
  writer_ok = v.writer_ok;
  reader_ok = inr (u, o);
}

calls_write-stream :
    (s : System) (src : List ℕ)
    → s.writer ≡ away
    → Inv s
    → s.sent ++ src ≡ s.received ++ (contents s.pipe ++ src)
unfolding unsent
calls_write-stream s src e v =
    ap (λ w. w ++ src)
      (v.stream
        ∙ ap (λ w. s.received ++ (contents s.pipe ++ unsent w)) e
        ∙ ap (λ w. s.received ++ w) (append-nil (contents s.pipe)))
    ∙ append_assoc s.received (contents s.pipe) src

Step-Inv : {s t : System} → Step s t → Inv s → Inv t
unfolding unsent
Step-Inv {s} (calls_write src e o) v = record {
  valid = v.valid;
  stream = calls_write-stream s src e v;
  writer_ok = tt;
  reader_ok = v.reader_ok;
}
Step-Inv (calls_read n e o) v = record {
  valid = v.valid;
  stream = v.stream;
  writer_ok = v.writer_ok;
  reader_ok = tt;
}
Step-Inv {s} (writes killed rest e) v =
    after_write-Inv s killed rest _ e v (pipewrite-Writes killed s.pipe rest v.valid)
Step-Inv {s} (reads killed n e) v =
    after_read-Inv s killed n _ v (piperead-Reads killed s.pipe n v.valid)
Step-Inv {s} (closes_write e) v =
    let (valid, same) = pipeclose-contents true v.valid in
    record {
      valid = valid;
      stream = v.stream ∙ ap (λ w. s.received ++ (w ++ unsent s.writer)) (sym same);
      writer_ok = subst (WriterOk (pipeclose s.pipe true).0) (sym e) tt;
      reader_ok = wakeup-ReaderOk false (pipeclose s.pipe true).0 s.reader;
    }
Step-Inv {s} (closes_read e) v =
    let (valid, same) = pipeclose-contents false v.valid in
    record {
      valid = valid;
      stream = v.stream ∙ (λ i. s.received ++ (sym same i ++ sym (unsent-wakeup s.writer) i));
      writer_ok = wakeup-WriterOk (pipeclose s.pipe false).0 s.writer;
      reader_ok = subst (ReaderOk s.cut (pipeclose s.pipe false).0) (sym e) tt;
    }
Step-Inv {s} kills_writer v = record {
  valid = v.valid;
  stream = v.stream ∙ ap (λ w. s.received ++ (contents s.pipe ++ w)) (sym (unsent-wakeup s.writer));
  writer_ok = wakeup-WriterOk s.pipe s.writer;
  reader_ok = v.reader_ok;
}
Step-Inv {s} kills_reader v = record {
  valid = v.valid;
  stream = v.stream;
  writer_ok = v.writer_ok;
  reader_ok = wakeup-ReaderOk s.cut s.pipe s.reader;
}

Reach-Inv : {s t : System} → Inv s → Reach s t → Inv t
Reach-Inv v here = v
Reach-Inv v (next r st) = Step-Inv st (Reach-Inv v r)

-- The two ends of a pipe that `pipealloc` has just set up, with no call made yet.
unfoldable pub fresh : List ℕ → System
fresh page = record {
  pipe = new_pipe page;
  writer = away;
  reader = away;
  sent = [];
  received = [];
  cut = false;
}

fresh-Inv : (page : List ℕ) → length page ≡ pipe_size → Inv (fresh page)
unfolding fresh unsent
fresh-Inv page h =
    let (valid, e) = new_pipe-contents page h in
    record { valid = valid; stream = ap (λ w. w ++ []) (sym e); writer_ok = tt; reader_ok = tt }

-- In every state that the two ends reach from a fresh pipe, in any order of calls, sleeps, wakeups,
-- kills and closes, the bytes given to the calls of `pipewrite` that have not failed, with those
-- that a failed one got in, are those received, then those in the pipe, then those still to put in,
-- in this order; and the pipe holds at most PIPESIZE bytes.
pub stream_in_order :
    (page : List ℕ) {s : System}
    → length page ≡ pipe_size
    → Reach (fresh page) s
    → (s.sent ≡ s.received ++ (contents s.pipe ++ unsent s.writer)) × (used s.pipe ≤ pipe_size)
stream_in_order page h r = let v = Reach-Inv (fresh-Inv page h) r in (v.stream, v.valid.fits)

-- In every state that the two ends reach from a fresh pipe, in any order of calls, sleeps,
-- wakeups, kills and closes, and where no write has been cut off since the last wakeup of readers,
-- a process that is asleep at the pipe has reason to be: the writer only at a full pipe with its
-- read end open, the reader only at an empty one with its write end open.
pub asleep_for_a_reason :
    (page : List ℕ) {s : System}
    → length page ≡ pipe_size
    → Reach (fresh page) s
    → s.cut ≡ false
    → WriterOk s.pipe s.writer × ReaderOk false s.pipe s.reader
asleep_for_a_reason page {s} h r e =
    let v = Reach-Inv (fresh-Inv page h) r in
    (v.writer_ok, subst (λ c. ReaderOk c s.pipe s.reader) e v.reader_ok)

-- The wakeup that a killed writer leaves out: where a reader sleeps at an empty pipe and the writer
-- is killed while it writes more than PIPESIZE bytes, the write fails with the pipe full and the
-- reader still asleep.
pub killed_write_loses_wakeup :
    (s : System) (rest : List ℕ) (n : ℕ)
    → IsValid s.pipe
    → used s.pipe ≡ 0
    → s.reader ≡ asleep n
    → pipe_size < length rest
    → let t = after_write s rest (pipewrite true s.pipe rest) in
      (t.reader ≡ asleep n) × (used t.pipe ≡ pipe_size)
unfolding after_write
killed_write_loses_wakeup s rest n v e asleep_there long =
    go (pipewrite true s.pipe rest) (pipewrite-Writes true s.pipe rest v)
  where
    go :
        (w : Write)
        → Writes true s.pipe rest w
        → ((after_write s rest w).reader ≡ asleep n)
          × (used (after_write s rest w).pipe ≡ pipe_size)
    go (wrote q) (all valid c r o) = absurd (
        omega (
          arith,
          ap length c,
          length-append (contents s.pipe) rest,
          length-contents q,
          length-contents s.pipe,
          valid.fits,
        ))
    go (fails q left) (stopped sent left' split valid u c r o why) = (asleep_there, u)
    go (waits q left) (parted sent left' split l valid u c r r' o k) = absurd (ground arith)
