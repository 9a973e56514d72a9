-- ===== src/Proc/Kill.antt =====
-- `kill` of kernel/proc.c on the number that a failed `allocproc` has left behind.
use northos.Prelude.{
  ℕ, zero, suc, ◌<◌, ◌≤◌, ◌+◌, ◌≡◌, refl, sym, ap, subst, ◌≢◌, ◌∙◌, true, false, Bool-cases, inl,
  inr, none, some, ◌==◌, arith,
}
use northos.Proc.{
  Table, nproc, set_proc, is_unused, allocproc, alloc_at, find_unused, give_stack, kill, kill_from,
  mark_killed,
}
use northos.Proc.Loops.{find_unused-unused}

-- The first process with the number is marked.
kill_from-first :
    (r i pid np : ℕ) (t : Table)
    → i ≤ np
    → np < i + r
    → ((k : ℕ) → k < np → (t.proc k).pid ≢ pid)
    → (t.proc np).pid ≡ pid
    → kill_from r i pid t ≡ (set_proc t np (mark_killed (t.proc np)), true)
unfolding kill_from
kill_from-first zero i pid np t a b others e = absurd (omega arith)
kill_from-first (suc r) i pid np t a b others e = elim (Bool-cases ((t.proc i).pid == pid)) [
  | inl found ↦
      let same : (t.proc i).pid ≡ pid = ground arith in
      elim (Bool-cases (i == np)) [
        | inl at ↦
            let here : i ≡ np = ground arith in
            rw found (ap (λ j. (set_proc t j (mark_killed (t.proc j)), true)) here)
        | inr off ↦ absurd (others i (ground arith) same)
      ]
  | inr other ↦
      let past : i ≢ np = λ at.
        let named : (t.proc i).pid ≡ pid = ap (λ j. (t.proc j).pid) at ∙ e in
        absurd (ground arith) in
      rw other (kill_from-first r (i + 1) pid np t (omega arith) (omega arith) others e)
]

-- The search for an unused process stops at the first one.
find_unused-same :
    (r i : ℕ) (t t' : Table)
    → ((k : ℕ) → is_unused (t'.proc k).state ≡ is_unused (t.proc k).state)
    → find_unused r i t' ≡ find_unused r i t
unfolding find_unused
find_unused-same zero i t t' h = refl
find_unused-same (suc r) i t t' h = rw (h i, find_unused-same r (i + 1) t t' h) refl

-- The table after `allocproc` has found np and no page for its stack.
abbrev failed : Table → ℕ → Table
failed t np = (give_stack (alloc_at t (some np)).0 np none).0

-- What `kill` of the number given to np, and another `allocproc`, make of a table.
pub record StartsKilled (t : Table) (np pid : ℕ) : Type 0 where
  pub found : (kill t pid).1 ≡ true
  pub again : (allocproc (kill t pid).0).1 ≡ some np
  pub marked : ((allocproc (kill t pid).0).0.proc np).killed ≡ true

failed-StartsKilled :
    (t : Table) (np : ℕ)
    → find_unused nproc 0 t ≡ some np
    → ((k : ℕ) → k < np → (t.proc k).pid ≢ t.nextpid)
    → StartsKilled (failed t np) np t.nextpid
unfolding kill give_stack allocproc
failed-StartsKilled t np e others =
    let c = failed t np in
    let done = set_proc c np (mark_killed (c.proc np)) in
    let (free, b) = find_unused-unused nproc 0 np t e in
    let k : kill c t.nextpid ≡ (done, true) =
      kill_from-first nproc 0 t.nextpid np c (omega arith) (omega arith)
        (λ j h. let off : (np == j) ≡ false = ground arith in rw off (others j h))
        (rw (self np) refl) in
    let u : find_unused nproc 0 done ≡ some np =
      find_unused-same nproc 0 t done (λ j. elim (Bool-cases (np == j)) [
        | inl at ↦
            let here : np ≡ j = ground arith in
            let free_j : is_unused (t.proc j).state ≡ true =
              subst (λ i. is_unused (t.proc i).state ≡ true) here free in
            rw (at, self np, free_j) refl
        | inr off ↦ rw off refl
      ])
      ∙ e in
    record {
      found = ap (λ r. r.1) k;
      again = ap (λ r. (allocproc r.0).1) k ∙ ap (λ q. (alloc_at done q).1) u;
      marked =
          ap (λ r. ((allocproc r.0).0.proc np).killed) k
          ∙ ap (λ q. ((alloc_at done q).0.proc np).killed) u
          ∙ rw (self np) refl;
    }
  where
    self : (n : ℕ) → (n == n) ≡ true
    self n = ground arith

-- Where `allocproc` finds np unused but no page for its stack, and no process before np has the
-- number that it was given, a `kill` of that number succeeds, and the next `allocproc` returns np
-- with `killed` set.
pub stale_kill :
    (t : Table) (np : ℕ)
    → find_unused nproc 0 t ≡ some np
    → ((k : ℕ) → k < np → (t.proc k).pid ≢ t.nextpid)
    → StartsKilled (give_stack (allocproc t).0 np none).0 np t.nextpid
unfolding allocproc
stale_kill t np e others =
    subst (λ q. StartsKilled (give_stack (alloc_at t q).0 np none).0 np t.nextpid) (sym e)
      (failed-StartsKilled t np e others)
