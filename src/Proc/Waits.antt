-- ===== src/Proc/Waits.antt =====
-- What a round of `wait` of kernel/proc.c does on each branch.
use northos.Prelude.{
  ℕ, ◌<◌, ◌≡◌, refl, sym, ◌⊎◌, ◌∙◌, true, false, Bool-cases, inl, inr, none, [], arith,
}
use northos.Proc.{
  Table, proc_at, nproc, is_zombie, parent_is, wait, Wait, reaped, waits, fails, reap, sleep,
  set_proc, unused, sleeping, Scan, exited, none_exited, scan_from, after_scan,
}
use northos.Proc.Loops.{contradict, Child, Found, wait-Found}

-- No child of `cur` has exited.
abbrev pub NoneExited : Table → ℕ → Type 0
NoneExited t cur =
    (c : ℕ)
    → c < nproc
    → parent_is (t.proc c).parent cur ≡ true
    → is_zombie (t.proc c).state ≡ false

-- A child that has exited is freed and its number returned, or none has, and then: it fails where
-- there is no child or `cur` is killed, and sleeps on itself
-- where there is a child and it is not killed.
abbrev pub Waits : Table → ℕ → Wait → Type 0
Waits t cur (reaped pid t') =
    (c : ℕ) × (c < nproc)
    × (parent_is (t.proc c).parent cur ≡ true)
    × (is_zombie (t.proc c).state ≡ true)
    × (pid ≡ (t.proc c).pid)
    × (t'
        ≡ set_proc t c (record (t.proc c) {
          kstack = none;
          pid = 0;
          parent = none;
          name = [];
          killed = false;
          state = unused;
        }))
Waits t cur fails =
    NoneExited t cur
    × (((c : ℕ) → c < nproc → parent_is (t.proc c).parent cur ≡ false)
        ⊎ ((t.proc cur).killed ≡ true))
Waits t cur (waits t') =
    NoneExited t cur
    × Child nproc cur t
    × ((t.proc cur).killed ≡ false)
    × (t' ≡ set_proc t cur (record (t.proc cur) { chan = proc_at cur; state = sleeping }))

sleep_lem :
    (t : Table) (cur : ℕ)
    → sleep t cur (proc_at cur)
      ≡ set_proc t cur (record (t.proc cur) { chan = proc_at cur; state = sleeping })
unfolding sleep
sleep_lem t cur = refl

-- A round of `wait` frees a child that has exited, whose slot is then unused, with no number, parent,
-- name, stack or kill, and returns its number; or none has, and it fails
-- where there is no child or the caller is killed, and sleeps on itself only where it has a child
-- and is not killed.
pub wait-Waits : (t : Table) (cur : ℕ) → Waits t cur (wait t cur)
unfolding wait reap
wait-Waits t cur = go (scan_from nproc 0 false cur t) (wait-Found t cur)
  where
    a_child : (false ≡ true) ⊎ Child nproc cur t → Child nproc cur t
    a_child (inl e) = absurd (contradict (sym e))
    a_child (inr c) = c

    go : (s : Scan) → Found nproc 0 false cur t s → Waits t cur (after_scan t cur s)
    go (exited c) (b, child, dead) = (c, b, child, dead, refl, refl)
    go (none_exited kids) (f, g, w) =
        let none_dead : NoneExited t cur = λ c b child. (f c (omega arith) b child).0 in
        elim (Bool-cases kids) [
          | inr bare ↦ rw bare (
            none_dead,
            inl (λ c b. elim (Bool-cases (parent_is (t.proc c).parent cur)) [
              | inl child ↦ absurd (contradict (sym (f c (omega arith) b child).1 ∙ bare))
              | inr other ↦ other
            ]),
          )
          | inl some_kids ↦ elim (Bool-cases (t.proc cur).killed) [
            | inl k ↦ rw (some_kids, k) (none_dead, inr k)
            | inr k ↦ rw (some_kids, k) (none_dead, a_child (w some_kids), k, sleep_lem t cur)
          ]
        ]
