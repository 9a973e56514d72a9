-- ===== src/Pipe/Tests.antt =====
-- Runs of a pipe.
use northos.Prelude.{
  ℕ, ◌≤◌, ◌-◌, ◌^◌, ◌≡◌, refl, false, true, List, [], ◌∷◌, ◌++◌, replicate, length-replicate, arith,
}
use northos.Pipe.{is_empty, Pipe, new_pipe, put, pipewrite, piperead}
use northos.Pipe.Window.{used, contents, IsValid, new_pipe-contents}
use northos.Pipe.Transfer.{Writes, Reads, pipewrite-Writes, piperead-Reads}
use northos.Pipe.Stream.{
  System, Reach, here, next, calls_write, calls_read, writes, reads, asleep, running, fresh, unsent,
  after_write, after_read, WriterOk, ReaderOk, stream_in_order, asleep_for_a_reason,
  killed_write_loses_wakeup,
}

abbrev page : List ℕ
page = replicate 512 0

-- Counters that are about to wrap.
abbrev late : Pipe
late = record (new_pipe page) { nread = 2 ^ 32 - 1; nwrite = 2 ^ 32 - 1 }

late-IsValid : IsValid late
unfolding new_pipe
late-IsValid = record {
  page = length-replicate {A = ℕ} 512 0;
  read_in = omega arith;
  write_in = omega arith;
  fits = omega arith;
}

wraps : (put (put late 7) 8).nwrite ≡ 1
unfolding put new_pipe
wraps = refl

abbrev called : System
called = record (fresh page) { writer = running (5 ∷ 6 ∷ []); sent = 5 ∷ 6 ∷ [] }

called-Reach : Reach (fresh page) called
unfolding fresh new_pipe
called-Reach = next here (calls_write (5 ∷ 6 ∷ []) refl refl)

wrote_two-Reach :
    Reach (fresh page) (after_write called (5 ∷ 6 ∷ []) (pipewrite false called.pipe (5 ∷ 6 ∷ [])))
unfolding fresh
wrote_two-Reach = next called-Reach (writes false (5 ∷ 6 ∷ []) refl)

stream_in_order_example :
    let s = after_write called (5 ∷ 6 ∷ []) (pipewrite false called.pipe (5 ∷ 6 ∷ [])) in
    (s.sent ≡ s.received ++ (contents s.pipe ++ unsent s.writer)) × (used s.pipe ≤ 512)
stream_in_order_example = stream_in_order page (length-replicate {A = ℕ} 512 0) wrote_two-Reach

-- A reader has found the pipe empty.
abbrev reading : System
reading = record (fresh page) { reader = running 4 }

abbrev slept : System
slept = record (fresh page) { reader = asleep 4 }

slept-Reach : Reach (fresh page) slept
unfolding fresh new_pipe piperead after_read is_empty
slept-Reach = next (next here (calls_read 4 refl refl)) (reads false 4 refl)

asleep_for_a_reason_example :
    WriterOk slept.pipe slept.writer × ReaderOk false slept.pipe slept.reader
unfolding fresh
asleep_for_a_reason_example =
    asleep_for_a_reason page (length-replicate {A = ℕ} 512 0) slept-Reach refl

-- A reader that waits for one byte.
abbrev waiting : System
waiting = record (fresh page) { reader = asleep 1 }

killed_write_loses_wakeup_example :
    let t = after_write waiting (replicate 600 9) (pipewrite true waiting.pipe (replicate 600 9)) in
    (t.reader ≡ asleep 1) × (used t.pipe ≡ 512)
unfolding fresh new_pipe
killed_write_loses_wakeup_example =
    killed_write_loses_wakeup waiting (replicate 600 9) 1
      (new_pipe-contents page (length-replicate {A = ℕ} 512 0)).0 refl refl
      (omega (arith, length-replicate {A = ℕ} 600 9))

pipewrite-Writes_example : Writes true late (5 ∷ []) (pipewrite true late (5 ∷ []))
pipewrite-Writes_example = pipewrite-Writes true late (5 ∷ []) late-IsValid

piperead-Reads_run : Reads false late 3 (piperead false late 3)
piperead-Reads_run = piperead-Reads false late 3 late-IsValid
