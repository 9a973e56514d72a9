-- ===== src/Proc/Invariant/Children.antt =====
-- The loop of `exit` of kernel/proc.c, in which the children pass to init.
use northos.Prelude.{
  ℕ, zero, suc, ◌<◌, ◌≤◌, ◌+◌, ◌≡◌, refl, sym, ap, subst, ◌≢◌, ◌∙◌, true, false, Bool-cases, inl,
  inr, ◌&&◌, Option, none, some, ◌==◌, update_self, update_ne, arith, ℕ_discrete,
}
use northos.Proc.{
  Proc, ProcState, Table, Chan, proc_at, nproc, set_proc, is_zombie, is_sleeping, same, woken,
  wakeup1, running, runnable, zombie, sleeping, unused, embryo, parent_is, pass_child,
  pass_children,
}
use northos.Proc.Loops.{contradict, wakeup1-woken, wakeup_from-rest}
use northos.Proc.Invariant.{IsTable, Mild, Mild-refl, Mild-IsTable, update_all, waiting, is_up}
use northos.Proc.Invariant.Moves.{woken-Mild, wakeup1-IsTable, wakeup1-awake, reparent-IsTable}

parent_is-some : (p : Option ℕ) (cur : ℕ) → parent_is p cur ≡ true → p ≡ some cur
parent_is-some none cur e = absurd (contradict (sym e))
parent_is-some (some q) cur e = ground arith

-- What the loop of `exit` keeps beside the invariant.
pub record Quiet (cur : ℕ) (t t' : Table) : Type 0 where
  pub init : t'.initproc ≡ t.initproc
  pub own : (t'.proc cur).parent ≡ (t.proc cur).parent
  pub calm : (k : ℕ) → k < nproc → waiting k (t'.proc k) ≡ true → waiting k (t.proc k) ≡ true

Quiet-refl : (cur : ℕ) (t : Table) → Quiet cur t t
Quiet-refl cur t = record { init = refl; own = refl; calm = λ k h w. w }

pub Quiet-trans : (cur : ℕ) (a b c : Table) → Quiet cur a b → Quiet cur b c → Quiet cur a c
Quiet-trans cur a b c p q = record {
  init = q.init ∙ p.init;
  own = q.own ∙ p.own;
  calm = λ k h w. p.calm k h (q.calm k h w);
}

woken-parent : (chan : Chan) (p : Proc) → (woken chan p).parent ≡ p.parent
woken-parent chan p = elim (Bool-cases (is_sleeping p.state && same p.chan chan)) [
  | inl w ↦ rw w refl
  | inr n ↦ rw n refl
]

pub wakeup1-Quiet : (t : Table) (chan : Chan) (cur : ℕ) → cur < nproc → Quiet cur t (wakeup1 t chan)
unfolding wakeup1
wakeup1-Quiet t chan cur h = record {
  init = (wakeup_from-rest nproc 0 chan t).1;
  own = ap (λ p. p.parent) (wakeup1-woken t chan cur h) ∙ woken-parent chan (t.proc cur);
  calm = λ k b w.
      (woken-Mild k chan (t.proc k)).asleep
        (subst (λ p. waiting k p ≡ true) (wakeup1-woken t chan k b) w);
}

-- The child i with init as its parent.
abbrev adopted : Table → ℕ → Proc
adopted t i = record (t.proc i) { parent = some t.initproc }

is-not-init : (t : Table) (i cur : ℕ) → IsTable t → (t.proc i).parent ≡ some cur → i ≢ t.initproc
is-not-init t i cur v e h =
    no_parent (sym e ∙ subst (λ j. (t.proc j).parent ≡ none) (sym h) v.init_top)
  where
    no_parent : some cur ≡ none → ⊥
    no_parent h = ground arith

set_proc-Quiet : (t : Table) (i cur : ℕ) → cur ≢ i → Quiet cur t (set_proc t i (adopted t i))
set_proc-Quiet t i cur ne = record {
  init = refl;
  own = ap (λ p. p.parent) (update_ne t.proc i cur (adopted t i) (λ e. ne (sym e)));
  calm = λ k b w.
      update_all (λ k p. waiting k p ≡ true → waiting k (t.proc k) ≡ true) t.proc i (adopted t i)
        (λ e. e) (λ k ne e. e) k w;
}

zombie-not-woken : (chan : Chan) (p : Proc) → is_zombie p.state ≡ true → woken chan p ≡ p
zombie-not-woken chan p z =
    let up : is_sleeping p.state ≡ false = not_asleep p.state z in rw up refl
  where
    not_asleep : (s : ProcState) → is_zombie s ≡ true → is_sleeping s ≡ false
    not_asleep unused z = refl
    not_asleep embryo z = refl
    not_asleep sleeping z = absurd (contradict (sym z))
    not_asleep runnable z = refl
    not_asleep running z = refl
    not_asleep zombie z = refl

-- A child that has exited passes to init, which is woken.
adopt_dead-IsTable :
    (t : Table) (i : ℕ)
    → IsTable t
    → i < nproc
    → i ≢ t.initproc
    → is_zombie (t.proc i).state ≡ true
    → IsTable (wakeup1 (set_proc t i (adopted t i)) (proc_at t.initproc))
adopt_dead-IsTable t i v h not_init dead =
    let chan = proc_at t.initproc in
    let t0 = wakeup1 t chan in
    let v0 = wakeup1-IsTable t chan v in
    let q0 = wakeup1-Quiet t chan i h in
    let child = adopted t i in
    let as_was : t0.proc i ≡ t.proc i =
      wakeup1-woken t chan i h ∙ zombie-not-woken chan (t.proc i) dead in
    let t2 = set_proc t0 i child in
    let v2 : IsTable t2 =
      reparent-IsTable t0 i t.initproc child v0 h v.init_in (λ e. not_init (sym e))
        (λ e. not_init (e ∙ q0.init)) refl (ap (λ p. p.state) (sym as_was))
        (ap (λ p. p.chan) (sym as_was)) (λ z. wakeup1-awake t t.initproc v.init_in)
        (subst (λ j. is_up (t0.proc j).state ≡ true) q0.init v0.init_up) in
    let t1 = set_proc t i child in
    let at : (k : ℕ) → k < nproc → (wakeup1 t1 chan).proc k ≡ t2.proc k = λ k b.
      wakeup1-woken t1 chan k b
      ∙ update_all (λ k x. k < nproc → woken chan x ≡ t2.proc k) t.proc i child
          (λ b. zombie-not-woken chan child dead ∙ sym (update_self t0.proc i child))
          (λ k ne b.
            sym (wakeup1-woken t chan k b) ∙ sym (update_ne t0.proc i k child (λ e. ne (sym e))))
          k b in
    Mild-IsTable t2 (wakeup1 t1 chan) v2 ((wakeup1-Quiet t1 chan i h).init ∙ sym q0.init)
      (subst (λ p. is_up p.state ≡ true) (sym (at t0.initproc v0.init_in)) v2.init_up)
      (λ k b. subst (Mild k (t2.proc k)) (sym (at k b)) (Mild-refl k (t2.proc k)))

pass_child-Quiet :
    (t : Table) (cur i : ℕ)
    → i < nproc
    → cur < nproc
    → IsTable t
    → IsTable (pass_child t cur i) × Quiet cur t (pass_child t cur i)
unfolding pass_child
pass_child-Quiet t cur i h hc v = elim (Bool-cases (parent_is (t.proc i).parent cur)) [
  | inr other ↦ rw other (v, Quiet-refl cur t)
  | inl child ↦
      let kin = parent_is-some (t.proc i).parent cur child in
      let q1 = set_proc-Quiet t i cur (v.parents i cur h kin).1 in
      let not_init = is-not-init t i cur v kin in
      elim (Bool-cases (is_zombie (t.proc i).state)) [
        | inr alive ↦
            rw (child, alive)
              (
                reparent-IsTable t i t.initproc (adopted t i) v h v.init_in (λ e. not_init (sym e))
                    not_init refl refl refl (λ z. absurd (contradict (sym z ∙ alive))) v.init_up,
                q1,
              )
        | inl dead ↦
            rw (child, dead)
              (
                adopt_dead-IsTable t i v h not_init dead,
                Quiet-trans cur t (set_proc t i (adopted t i)) _ q1
                    (wakeup1-Quiet (set_proc t i (adopted t i)) (proc_at t.initproc) cur hc),
              )
      ]
]

pub pass_children-Quiet :
    (r i cur : ℕ) (t : Table)
    → i + r ≤ nproc
    → cur < nproc
    → IsTable t
    → IsTable (pass_children r i cur t) × Quiet cur t (pass_children r i cur t)
unfolding pass_children
pass_children-Quiet zero i cur t b hc v = (v, Quiet-refl cur t)
pass_children-Quiet (suc r) i cur t b hc v =
    let (v1, q1) = pass_child-Quiet t cur i (omega arith) hc v in
    let t1 = pass_child t cur i in
    let (v2, q2) = pass_children-Quiet r (i + 1) cur t1 (omega arith) hc v1 in
    (v2, Quiet-trans cur t t1 (pass_children r (i + 1) cur t1) q1 q2)

-- No process below n has the parent `cur`.
abbrev pub NoKids : ℕ → ℕ → Table → Type 0
NoKids n cur t = (k : ℕ) → k < n → (t.proc k).parent ≢ some cur

wakeup1-NoKids :
    (t : Table) (chan : Chan) (n cur : ℕ)
    → n ≤ nproc
    → NoKids n cur t
    → NoKids n cur (wakeup1 t chan)
wakeup1-NoKids t chan n cur b h k l e = h k l (
    sym (woken-parent chan (t.proc k))
    ∙ ap (λ p. p.parent) (sym (wakeup1-woken t chan k (omega arith)))
    ∙ e)

adopted-NoKids :
    (t : Table) (i cur : ℕ)
    → cur ≢ t.initproc
    → NoKids i cur t
    → NoKids (i + 1) cur (set_proc t i (adopted t i))
adopted-NoKids t i cur ne h k l =
    update_all (λ j x. j < i + 1 → x.parent ≢ some cur) t.proc i (adopted t i)
      (λ b e. ne (sym (some_num t.initproc cur e))) (λ j other b. h j (omega arith)) k l
  where
    some_num : (a b : ℕ) → some a ≡ some b → a ≡ b
    some_num a b e = ground arith

pass_child-NoKids :
    (t : Table) (i cur : ℕ)
    → i < nproc
    → cur ≢ t.initproc
    → NoKids i cur t
    → NoKids (i + 1) cur (pass_child t cur i)
unfolding pass_child
pass_child-NoKids t i cur b ne h = elim (Bool-cases (parent_is (t.proc i).parent cur)) [
  | inr other ↦ rw other (λ k l e. elim (ℕ_discrete k i) [
    | yes at ↦
        contradict (sym (own_parent k e) ∙ ap (λ j. parent_is (t.proc j).parent cur) at ∙ other)
    | no off ↦ h k (omega arith) e
  ])
  | inl child ↦
      let here = adopted-NoKids t i cur ne h in
      elim (Bool-cases (is_zombie (t.proc i).state)) [
        | inr alive ↦ rw (child, alive) here
        | inl dead ↦
            rw (child, dead)
              (wakeup1-NoKids (set_proc t i (adopted t i)) (proc_at t.initproc) (i + 1) cur
                (omega arith) here)
      ]
]
  where
    own_parent : (k : ℕ) → (t.proc k).parent ≡ some cur → parent_is (t.proc k).parent cur ≡ true
    own_parent k e = let self : (cur == cur) ≡ true = ground arith in rw e self

pub pass_children-NoKids :
    (r i cur : ℕ) (t : Table)
    → i + r ≤ nproc
    → cur < nproc
    → IsTable t
    → cur ≢ t.initproc
    → NoKids i cur t
    → NoKids (i + r) cur (pass_children r i cur t)
unfolding pass_children
pass_children-NoKids zero i cur t b hc v ne h k l = h k (omega arith)
pass_children-NoKids (suc r) i cur t b hc v ne h k l =
    let (v1, q1) = pass_child-Quiet t cur i (omega arith) hc v in
    pass_children-NoKids r (i + 1) cur (pass_child t cur i) (omega arith) hc v1
      (λ e. ne (e ∙ q1.init)) (pass_child-NoKids t i cur (omega arith) ne h) k (omega arith)
