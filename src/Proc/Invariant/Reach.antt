-- ===== src/Proc/Invariant/Reach.antt =====
-- The process table of kernel/proc.c through any sequence of its operations.
use northos.Prelude.{
  ℕ, zero, suc, ◌<◌, ◌≤◌, ◌+◌, ◌≡◌, refl, sym, ap, subst, ◌≢◌, ◌⊎◌, ◌∙◌, true, false, Bool-cases,
  inl, inr, Option, none, some, ◌==◌, arith, List, [],
}
use northos.Proc.{
  Proc, ProcState, Table, object, nothing, nproc, set_proc, is_unused, is_zombie, is_sleeping,
  wakeup1, running, runnable, zombie, sleeping, unused, embryo, exit, allocproc, alloc_at,
  find_unused, give_stack, fork_fails, fork_copies, fork_starts, wait, reaped, waits, sleep,
  tidy_up, kill, kill_from, mark_killed, schedule, yields, userinit,
}
use northos.Proc.Loops.{contradict, find_unused-unused}
use northos.Proc.Waits.{Waits, wait-Waits}
use northos.Proc.Invariant.{IsTable, Mild, set_proc-IsTable, waiting, is_up}
use northos.Proc.Invariant.Moves.{wakeup1-IsTable, reparent-IsTable, wait_sleep-IsTable}
use northos.Proc.Invariant.Exit.{exit-IsTable}

pub data Step : Table → Table → Type 0 where
  allocates : {t : Table} (np : ℕ) → find_unused nproc 0 t ≡ some np → Step t (allocproc t).0
  gets_stack :
      {t : Table} (np : ℕ) (page : Option ℕ)
      → np < nproc
      → (t.proc np).state ≡ embryo
      → Step t (give_stack t np page).0
  cannot_copy :
      {t : Table} (np : ℕ) → np < nproc → (t.proc np).state ≡ embryo → Step t (fork_fails t np)
  copies :
      {t : Table} (cur np : ℕ)
      → cur < nproc
      → np < nproc
      → (t.proc cur).state ≡ running
      → (t.proc np).state ≡ embryo
      → Step t (fork_copies t cur np)
  starts :
      {t : Table} (np : ℕ) → np < nproc → (t.proc np).state ≡ embryo → Step t (fork_starts t np)
  exits :
      {t t' : Table} (cur : ℕ)
      → cur < nproc
      → (t.proc cur).state ≡ running
      → exit t cur ≡ some t'
      → Step t t'
  reaps :
      {t t' : Table} (cur pid : ℕ)
      → cur < nproc
      → (t.proc cur).state ≡ running
      → wait t cur ≡ reaped pid t'
      → Step t t'
  rests :
      {t t' : Table} (cur : ℕ)
      → cur < nproc
      → (t.proc cur).state ≡ running
      → wait t cur ≡ waits t'
      → Step t t'
  sleeps :
      {t : Table} (cur n : ℕ)
      → cur < nproc
      → (t.proc cur).state ≡ running
      → Step t (sleep t cur (object n))
  tidies :
      {t : Table} (cur : ℕ) → cur < nproc → (t.proc cur).state ≡ running → Step t (tidy_up t cur)
  wakes : {t : Table} (n : ℕ) → Step t (wakeup1 t (object n))
  kills : {t : Table} (pid : ℕ) → Step t (kill t pid).0
  schedules : {t : Table} (p : ℕ) → p < nproc → (t.proc p).state ≡ runnable → Step t (schedule t p)
  gives_up : {t : Table} (p : ℕ) → p < nproc → (t.proc p).state ≡ running → Step t (yields t p)

pub data Reach : Table → Table → Type 0 where
  here : {t : Table} → Reach t t
  next : {t u v : Table} → Reach t u → Step u v → Reach t v

killed-Mild : (k : ℕ) (p : Proc) → Mild k p (mark_killed p)
killed-Mild k p = elim (Bool-cases (is_sleeping p.state)) [
  | inl w ↦ rw w (record {
    kin = λ q e. e;
    dead = λ e. absurd (contradict (sym e));
    asleep = λ e. absurd (contradict (sym e));
    lives = λ e. refl;
  })
  | inr n ↦ rw n (record {
    kin = λ q e. e;
    dead = λ e. e;
    asleep = λ e. absurd (contradict (sym e ∙ rw n refl));
    lives = λ e. e;
  })
]

killed-is_up : (p : Proc) → is_up p.state ≡ true → is_up (mark_killed p).state ≡ true
killed-is_up p h = elim (Bool-cases (is_sleeping p.state)) [ inl w ↦ rw w refl | inr n ↦ rw n h ]

kill_from-IsTable :
    (r i pid : ℕ) (t : Table) → i + r ≤ nproc → IsTable t → IsTable (kill_from r i pid t).0
unfolding kill_from
kill_from-IsTable zero i pid t b v = v
kill_from-IsTable (suc r) i pid t b v = elim (Bool-cases ((t.proc i).pid == pid)) [
  | inl found ↦ rw found (
      set_proc-IsTable t i (mark_killed (t.proc i)) v (omega arith) (killed-Mild i (t.proc i)) (λ e.
        killed-is_up (t.proc i) (subst (λ j. is_up (t.proc j).state ≡ true) (sym e) v.init_up)))
  | inr other ↦ rw other (kill_from-IsTable r (i + 1) pid t (omega arith) v)
]

-- Init is up, so a process in a state that is not is another one.
not-init : (t : Table) (i : ℕ) → IsTable t → is_up (t.proc i).state ≡ false → i ≢ t.initproc
not-init t i v down e =
    contradict (sym (subst (λ j. is_up (t.proc j).state ≡ true) (sym e) v.init_up) ∙ down)

-- A process that neither exits nor gets another parent nor goes to sleep in `wait`.
calm-IsTable :
    (t : Table) (i : ℕ) (v : Proc)
    → IsTable t
    → i < nproc
    → v.parent ≡ (t.proc i).parent
    → is_zombie v.state ≡ false
    → waiting i v ≡ false
    → (is_up (t.proc i).state ≡ false) ⊎ (is_up v.state ≡ true)
    → IsTable (set_proc t i v)
calm-IsTable t i v s h kin alive awake up =
    set_proc-IsTable t i v s h
      (record {
        kin = λ q f. sym kin ∙ f;
        dead = λ f. absurd (contradict (sym f ∙ alive));
        asleep = λ f. absurd (contradict (sym f ∙ awake));
        lives =
            λ f. elim up [ inl down ↦ absurd (contradict (sym f ∙ down)) | inr yes_up ↦ yes_up ];
      })
      (λ e. elim up [ inl down ↦ absurd (not-init t i s down e) | inr yes_up ↦ yes_up ])

zombie_down : (s : ProcState) → is_zombie s ≡ true → is_up s ≡ false
zombie_down unused e = refl
zombie_down embryo e = refl
zombie_down sleeping e = absurd (contradict (sym e))
zombie_down runnable e = absurd (contradict (sym e))
zombie_down running e = absurd (contradict (sym e))
zombie_down zombie e = refl

unused_down : (s : ProcState) → is_unused s ≡ true → is_up s ≡ false
unused_down unused e = refl
unused_down embryo e = refl
unused_down sleeping e = absurd (contradict (sym e))
unused_down runnable e = absurd (contradict (sym e))
unused_down running e = absurd (contradict (sym e))
unused_down zombie e = refl

reap-IsTable : (t t' : Table) (cur pid : ℕ) → IsTable t → wait t cur ≡ reaped pid t' → IsTable t'
reap-IsTable t t' cur pid v e =
    let (c, b, child, dead, _, freed) = subst (Waits t cur) e (wait-Waits t cur) in
    let v' : Proc = record (t.proc c) {
      kstack = none;
      pid = 0;
      parent = none;
      name = [];
      killed = false;
      state = unused;
    } in
    let other : c ≢ t.initproc = not-init t c v (zombie_down (t.proc c).state dead) in
    subst IsTable (sym freed) (
      set_proc-IsTable t c v' v b
        (record {
          kin = λ q f. absurd (none_some q f);
          dead = λ f. absurd (contradict (sym f));
          asleep = λ f. absurd (contradict (sym f));
          lives = λ f. absurd (contradict (sym f ∙ zombie_down (t.proc c).state dead));
        })
        (λ e. absurd (other e)))
  where
    none_some : (q : ℕ) → none ≡ some q → ⊥
    none_some q e = ground arith

rest-IsTable : (t t' : Table) (cur : ℕ) → IsTable t → wait t cur ≡ waits t' → IsTable t'
unfolding sleep
rest-IsTable t t' cur v e =
    let (none_dead, _, _, asleep) = subst (Waits t cur) e (wait-Waits t cur) in
    subst IsTable (sym asleep)
      (wait_sleep-IsTable t cur v (λ c b kin. none_dead c b (rw kin (self cur))))
  where
    self : (n : ℕ) → (n == n) ≡ true
    self n = ground arith

next_number-IsTable : (t : Table) (n : ℕ) → IsTable t → IsTable (record t { nextpid = n })
next_number-IsTable t n v = record {
  init_in = v.init_in;
  init_up = v.init_up;
  init_top = v.init_top;
  parents = v.parents;
  no_lost = v.no_lost;
}

running_embryo : running ≡ embryo → ⊥
running_embryo e = ground arith

pub Step-IsTable : (t t' : Table) → IsTable t → Step t t' → IsTable t'
unfolding allocproc give_stack fork_fails fork_copies fork_starts sleep tidy_up kill schedule yields
Step-IsTable t t' v (allocates np e) =
    let (free, b) = find_unused-unused nproc 0 np t e in
    let v' : Proc = record (t.proc np) { state = embryo; pid = t.nextpid } in
    subst (λ q. IsTable (alloc_at t q).0) (sym e)
      (next_number-IsTable (set_proc t np v') (t.nextpid + 1) (
        calm-IsTable t np v' v (omega arith) refl refl refl
          (inl (unused_down (t.proc np).state free))))
Step-IsTable t t' v (gets_stack np none h e) =
    calm-IsTable t np (record (t.proc np) { kstack = none; state = unused }) v h refl refl refl
      (inl (rw e refl))
Step-IsTable t t' v (gets_stack np (some page) h e) =
    calm-IsTable t np (record (t.proc np) { kstack = some page }) v h refl (rw e refl) (rw e refl)
      (inl (rw e refl))
Step-IsTable t t' v (cannot_copy np h e) =
    calm-IsTable t np (record (t.proc np) { kstack = none; state = unused }) v h refl refl refl
      (inl (rw e refl))
Step-IsTable t t' v (copies cur np hc h r e) =
    reparent-IsTable t np cur
      (record (t.proc np) { sz = (t.proc cur).sz; parent = some cur; name = (t.proc cur).name }) v h
      hc (λ q. running_embryo (sym r ∙ ap (λ k. (t.proc k).state) q ∙ e))
      (not-init t np v (rw e refl)) refl refl refl (λ z. absurd (contradict (sym z ∙ rw e refl)))
      (rw r refl)
Step-IsTable t t' v (starts np h e) =
    calm-IsTable t np (record (t.proc np) { state = runnable }) v h refl refl refl (inr refl)
Step-IsTable t t' v (exits cur h r e) = exit-IsTable t t' cur h v e
Step-IsTable t t' v (reaps cur pid h r e) = reap-IsTable t t' cur pid v e
Step-IsTable t t' v (rests cur h r e) = rest-IsTable t t' cur v e
Step-IsTable t t' v (sleeps cur n h r) =
    calm-IsTable t cur (record (t.proc cur) { chan = object n; state = sleeping }) v h refl refl
      refl (inr refl)
Step-IsTable t t' v (tidies cur h r) =
    calm-IsTable t cur (record (t.proc cur) { chan = nothing }) v h refl (rw r refl) (rw r refl)
      (inr (rw r refl))
Step-IsTable t t' v (wakes n) = wakeup1-IsTable t (object n) v
Step-IsTable t t' v (kills pid) = kill_from-IsTable nproc 0 pid t (omega arith) v
Step-IsTable t t' v (schedules p h r) =
    calm-IsTable t p (record (t.proc p) { state = running }) v h refl refl refl (inr refl)
Step-IsTable t t' v (gives_up p h r) =
    calm-IsTable t p (record (t.proc p) { state = runnable }) v h refl refl refl (inr refl)

pub Reach-IsTable : (t t' : Table) → IsTable t → Reach t t' → IsTable t'
Reach-IsTable t t' v here = v
Reach-IsTable t t' v (next {u = u} r s) = Step-IsTable u t' (Reach-IsTable t u v r) s

userinit-IsTable : (page : ℕ) (name : List ℕ) → IsTable (userinit page name)
unfolding userinit find_unused
userinit-IsTable page name = record {
  init_in = omega arith;
  init_up = refl;
  init_top = refl;
  parents = λ c p h e. absurd (none_some p (sym (orphan c) ∙ e));
  no_lost = λ c p h z e. absurd (none_some p (sym (orphan c) ∙ e));
}
  where
    orphan : (c : ℕ) → ((userinit page name).proc c).parent ≡ none
    orphan c = ground arith

    none_some : (q : ℕ) → none ≡ some q → ⊥
    none_some q e = ground arith

-- After `userinit` and any operations of the process table, in any order, where a process of the
-- table is a zombie and has a parent, that parent is not asleep in `wait`: no exit is slept
-- through.
pub no_lost_exit :
    (page : ℕ) (name : List ℕ) {t : Table} (c p : ℕ)
    → Reach (userinit page name) t
    → c < nproc
    → (t.proc c).state ≡ zombie
    → (t.proc c).parent ≡ some p
    → waiting p (t.proc p) ≡ false
no_lost_exit page name {t} c p r h z e =
    (Reach-IsTable (userinit page name) t (userinit-IsTable page name) r).no_lost c p h (rw z refl)
      e

-- After `userinit` and any operations of the process table, init is asleep, runnable or running, and
-- the parent that a process of the table has is another process of the table that is asleep, runnable
-- or running: none has exited or been freed.
pub parents_in_table :
    (page : ℕ) (name : List ℕ) {t : Table}
    → Reach (userinit page name) t
    → (is_up (t.proc t.initproc).state ≡ true)
      × ((c p : ℕ)
          → c < nproc
          → (t.proc c).parent ≡ some p
          → (p < nproc) × (p ≢ c) × (is_up (t.proc p).state ≡ true))
parents_in_table page name {t} r =
    let v = Reach-IsTable (userinit page name) t (userinit-IsTable page name) r in
    (v.init_up, v.parents)
