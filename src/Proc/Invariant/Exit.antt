-- ===== src/Proc/Invariant/Exit.antt =====
-- `exit` of kernel/proc.c: the children pass to init, and the parent is told.
use northos.Prelude.{
  ℕ, ◌<◌, ◌≡◌, sym, subst, ◌≢◌, ◌∙◌, false, Bool-cases, inl, inr, none, some, ◌==◌, arith,
}
use northos.Proc.{Table, nproc, set_proc, wakeup1, zombie, pass_children, chan_of, exit}
use northos.Proc.Loops.{contradict}
use northos.Proc.Invariant.{IsTable, waiting}
use northos.Proc.Invariant.Moves.{wakeup1-IsTable, wakeup1-awake, zombie-IsTable}
use northos.Proc.Invariant.Children.{wakeup1-Quiet, pass_children-Quiet, pass_children-NoKids}

some_inj : (a b : Table) → some a ≡ some b → a ≡ b
some_inj a b e = cc

-- `exit` of a process other than init, from the call of `wakeup1` to its last change.
abbrev children_passed : Table → ℕ → Table
children_passed t cur = pass_children nproc 0 cur (wakeup1 t (chan_of (t.proc cur).parent))

parent_awake :
    (t : Table) (cur p : ℕ)
    → cur < nproc
    → IsTable t
    → ((children_passed t cur).proc cur).parent ≡ some p
    → waiting p ((children_passed t cur).proc p) ≡ false
parent_awake t cur p h v e =
    let chan = chan_of (t.proc cur).parent in
    let t1 = wakeup1 t chan in
    let q1 = wakeup1-Quiet t chan cur h in
    let (v2, q2) = pass_children-Quiet nproc 0 cur t1 (omega arith) h (wakeup1-IsTable t chan v) in
    let kin : (t.proc cur).parent ≡ some p = sym q1.own ∙ sym q2.own ∙ e in
    let in_table = (v.parents cur p h kin).0 in
    let awake : waiting p (t1.proc p) ≡ false =
      subst (λ q. waiting p ((wakeup1 t (chan_of q)).proc p) ≡ false) (sym kin)
        (wakeup1-awake t p in_table) in
    elim (Bool-cases (waiting p ((children_passed t cur).proc p))) [
      | inl w ↦ absurd (contradict (sym (q2.calm p in_table w) ∙ awake))
      | inr n ↦ n
    ]

-- `exit` of a process of the table keeps the invariant.
pub exit-IsTable :
    (t t' : Table) (cur : ℕ) → cur < nproc → IsTable t → exit t cur ≡ some t' → IsTable t'
unfolding exit
exit-IsTable t t' cur h v e = elim (Bool-cases (cur == t.initproc)) [
  | inl panic ↦ absurd (none_some (rw panic at e))
  | inr other ↦
      let t2 = children_passed t cur in
      let chan = chan_of (t.proc cur).parent in
      let q1 = wakeup1-Quiet t chan cur h in
      let (v2, q2) =
        pass_children-Quiet nproc 0 cur (wakeup1 t chan) (omega arith) h
          (wakeup1-IsTable t chan v) in
      let not_init : cur ≢ t.initproc = ground arith in
      let done =
        zombie-IsTable t2 cur v2 (λ i. not_init (i ∙ q2.init ∙ q1.init))
          (λ p k. parent_awake t cur p h v k)
          (pass_children-NoKids nproc 0 cur (wakeup1 t chan) (omega arith) h
            (wakeup1-IsTable t chan v) (λ i. not_init (i ∙ q1.init))
            (λ k l. absurd (omega arith))) in
      subst IsTable
        (some_inj (set_proc t2 cur (record (t2.proc cur) { state = zombie })) t' (rw other at e))
        done
]
  where
    none_some : none ≡ some t' → ⊥
    none_some e = ground arith
