-- ===== src/Proc.antt =====
-- The process table of kernel/proc.c. A process is its index in `ptable.proc`; each function is what
-- happens under `ptable.lock`, up to the release or the call of `sched`. Left out of a process are
-- its address space, its registers and its files. Process numbers do not wrap.
pub mod Loops
pub mod Waits
pub mod Kill
pub mod Invariant
mod Tests
use northos.Prelude.{
  ℕ, zero, suc, ◌+◌, Bool, true, false, not, ◌&&◌, ◌||◌, List, [], Option, none, some, ltb, ◌==◌,
  if◌then◌else◌, update,
}

-- NPROC
abbrev pub nproc : ℕ
nproc = 64

-- `enum procstate`
pub data ProcState : Type 0 where
  unused : ProcState
  embryo : ProcState
  sleeping : ProcState
  runnable : ProcState
  running : ProcState
  zombie : ProcState

abbrev pub is_unused : ProcState → Bool
is_unused unused = true
is_unused embryo = false
is_unused sleeping = false
is_unused runnable = false
is_unused running = false
is_unused zombie = false

abbrev pub is_sleeping : ProcState → Bool
is_sleeping unused = false
is_sleeping embryo = false
is_sleeping sleeping = true
is_sleeping runnable = false
is_sleeping running = false
is_sleeping zombie = false

abbrev pub is_zombie : ProcState → Bool
is_zombie unused = false
is_zombie embryo = false
is_zombie sleeping = false
is_zombie runnable = false
is_zombie running = false
is_zombie zombie = true

-- What a process sleeps on: nothing, a process structure, or another object in memory.
pub data Chan : Type 0 where
  nothing : Chan
  proc_at : ℕ → Chan
  object : ℕ → Chan

abbrev pub same : Chan → Chan → Bool
same nothing nothing = true
same nothing (proc_at b) = false
same nothing (object b) = false
same (proc_at a) nothing = false
same (proc_at a) (proc_at b) = a == b
same (proc_at a) (object b) = false
same (object a) nothing = false
same (object a) (proc_at b) = false
same (object a) (object b) = a == b

pub record Proc : Type 0 where
  pub sz : ℕ
  pub kstack : Option ℕ
  pub state : ProcState
  pub pid : ℕ
  pub parent : Option ℕ
  pub chan : Chan
  pub killed : Bool
  pub name : List ℕ

pub record Table : Type 0 where
  pub proc : ℕ → Proc
  pub nextpid : ℕ
  pub initproc : ℕ

abbrev pub parent_is : Option ℕ → ℕ → Bool
parent_is none cur = false
parent_is (some p) cur = p == cur

abbrev pub set_proc : Table → ℕ → Proc → Table
set_proc t i p = record t { proc = update t.proc i p }

-- for (p = ptable.proc; ...) if (p->state == UNUSED) goto found; the rounds left come first.
pub find_unused : ℕ → ℕ → Table → Option ℕ
find_unused zero i t = none
find_unused (suc r) i t = if is_unused (t.proc i).state then some i else find_unused r (i + 1) t

-- `allocproc` under the lock: the table, and the process where one is free.
abbrev pub alloc_at : Table → Option ℕ → Table × Option ℕ
alloc_at t none = (t, none)
alloc_at t (some i) = (
  record t {
    proc = update t.proc i (record (t.proc i) { state = embryo; pid = t.nextpid });
    nextpid = t.nextpid + 1;
  },
  some i,
)

unfoldable pub allocproc : Table → Table × Option ℕ
allocproc t = alloc_at t (find_unused nproc 0 t)

-- The rest of `allocproc`, with what `kalloc` returns.
unfoldable pub give_stack : Table → ℕ → Option ℕ → Table × Bool
give_stack t np none = (set_proc t np (record (t.proc np) { kstack = none; state = unused }), false)
give_stack t np (some page) = (set_proc t np (record (t.proc np) { kstack = some page }), true)

-- `fork` where `copyuvm` fails.
unfoldable pub fork_fails : Table → ℕ → Table
fork_fails t np = set_proc t np (record (t.proc np) { kstack = none; state = unused })

-- `fork` where it does not, before the lock is taken again; and `np->state = RUNNABLE`.
unfoldable pub fork_copies : Table → ℕ → ℕ → Table
fork_copies t cur np =
    set_proc t np
      (record (t.proc np) { sz = (t.proc cur).sz; parent = some cur; name = (t.proc cur).name })

unfoldable pub fork_starts : Table → ℕ → Table
fork_starts t np = set_proc t np (record (t.proc np) { state = runnable })

-- if (p->state == SLEEPING && p->chan == chan) p->state = RUNNABLE
abbrev pub woken : Chan → Proc → Proc
woken chan p = if is_sleeping p.state && same p.chan chan then record p { state = runnable } else p

unfoldable pub wakeup_from : ℕ → ℕ → Chan → Table → Table
wakeup_from zero i chan t = t
wakeup_from (suc r) i chan t = wakeup_from r (i + 1) chan (set_proc t i (woken chan (t.proc i)))

unfoldable pub wakeup1 : Table → Chan → Table
wakeup1 t chan = wakeup_from nproc 0 chan t

-- One round of the loop of `exit`: a child of `cur` becomes one of `initproc`.
unfoldable pub pass_child : Table → ℕ → ℕ → Table
pass_child t cur i =
    if parent_is (t.proc i).parent cur
    then if is_zombie (t.proc i).state then wakeup1 t' (proc_at t.initproc) else t'
    else t
  where
    t' : Table
    t' = set_proc t i (record (t.proc i) { parent = some t.initproc })

unfoldable pub pass_children : ℕ → ℕ → ℕ → Table → Table
pass_children zero i cur t = t
pass_children (suc r) i cur t = pass_children r (i + 1) cur (pass_child t cur i)

abbrev pub chan_of : Option ℕ → Chan
chan_of none = nothing
chan_of (some p) = proc_at p

-- `exit` under the lock, up to `sched`; `none` is the panic of init.
unfoldable pub exit : Table → ℕ → Option Table
exit t cur =
    if cur == t.initproc
    then none
    else let t' = pass_children nproc 0 cur (wakeup1 t (chan_of (t.proc cur).parent)) in
      some (set_proc t' cur (record (t'.proc cur) { state = zombie }))

-- The scan of `wait`: a child that has exited, or whether there are children.
pub data Scan : Type 0 where
  exited : ℕ → Scan
  none_exited : Bool → Scan

unfoldable pub scan_from : ℕ → ℕ → Bool → ℕ → Table → Scan
scan_from zero i havekids cur t = none_exited havekids
scan_from (suc r) i havekids cur t =
    if parent_is (t.proc i).parent cur
    then if is_zombie (t.proc i).state then exited i else scan_from r (i + 1) true cur t
    else scan_from r (i + 1) havekids cur t

-- What one round of `wait` does: a child is reaped, it fails with -1, or it sleeps.
pub data Wait : Type 0 where
  reaped : ℕ → Table → Wait
  fails : Wait
  waits : Table → Wait

-- `sleep`, up to `sched`, and after it.
unfoldable pub sleep : Table → ℕ → Chan → Table
sleep t cur chan = set_proc t cur (record (t.proc cur) { chan = chan; state = sleeping })

unfoldable pub tidy_up : Table → ℕ → Table
tidy_up t cur = set_proc t cur (record (t.proc cur) { chan = nothing })

-- The slot of a child that has exited, as `wait` frees it.
unfoldable pub reap : Table → ℕ → Table
reap t i = set_proc t i (record (t.proc i) {
  kstack = none;
  pid = 0;
  parent = none;
  name = [];
  killed = false;
  state = unused;
})

abbrev pub after_scan : Table → ℕ → Scan → Wait
after_scan t cur (exited i) = reaped (t.proc i).pid (reap t i)
after_scan t cur (none_exited havekids) =
    if not havekids || (t.proc cur).killed then fails else waits (sleep t cur (proc_at cur))

unfoldable pub wait : Table → ℕ → Wait
wait t cur = after_scan t cur (scan_from nproc 0 false cur t)

-- if (p->pid == pid) { p->killed = 1; ... }
abbrev pub mark_killed : Proc → Proc
mark_killed p =
    if is_sleeping p.state
    then record p { killed = true; state = runnable }
    else record p { killed = true }

-- `kill`: the table, and whether a process was found.
unfoldable pub kill_from : ℕ → ℕ → ℕ → Table → Table × Bool
kill_from zero i pid t = (t, false)
kill_from (suc r) i pid t =
    if (t.proc i).pid == pid
    then (set_proc t i (mark_killed (t.proc i)), true)
    else kill_from r (i + 1) pid t

unfoldable pub kill : Table → ℕ → Table × Bool
kill t pid = kill_from nproc 0 pid t

-- What `scheduler` makes of the process that it has chosen, and `yield` of the one that runs.
unfoldable pub schedule : Table → ℕ → Table
schedule t p = set_proc t p (record (t.proc p) { state = running })

unfoldable pub yields : Table → ℕ → Table
yields t p = set_proc t p (record (t.proc p) { state = runnable })

-- The table of zeros, and `userinit` on it, for the page of its stack and the name given.
abbrev pub blank : Proc
blank = record {
  sz = 0;
  kstack = none;
  state = unused;
  pid = 0;
  parent = none;
  chan = nothing;
  killed = false;
  name = [];
}

unfoldable pub userinit : ℕ → List ℕ → Table
unfolding allocproc find_unused give_stack
userinit page name =
    let t = (allocproc (record { proc = λ i. blank; nextpid = 1; initproc = 0 })).0 in
    let t' = (give_stack t 0 (some page)).0 in
    set_proc t' 0 (record (t'.proc 0) { sz = 4096; name = name; state = runnable })
