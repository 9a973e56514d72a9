-- ===== src/Proc/Invariant/Moves.antt =====
-- The single changes of a process that `wakeup1`, `fork`, `wait` and `exit` of kernel/proc.c make.
use northos.Prelude.{
  ℕ, ◌<◌, ◌≡◌, refl, sym, subst, ◌≢◌, ◌∙◌, true, false, Bool-cases, inl, inr, ◌&&◌, none, some,
  update, update_ne, arith, ℕ_discrete,
}
use northos.Proc.{
  Proc, Table, Chan, proc_at, nproc, set_proc, is_zombie, is_sleeping, same, woken, wakeup1, zombie,
  sleeping, sleep,
}
use northos.Proc.Loops.{contradict, wakeup1-woken, wakeup_from-rest}
use northos.Proc.Invariant.{IsTable, Mild, Mild-refl, Mild-IsTable, update_all, waiting, is_up}

pub woken-Mild : (k : ℕ) (chan : Chan) (p : Proc) → Mild k p (woken chan p)
woken-Mild k chan p = elim (Bool-cases (is_sleeping p.state && same p.chan chan)) [
  | inl w ↦ rw w (record {
    kin = λ q e. e;
    dead = λ e. absurd (contradict (sym e));
    asleep = λ e. absurd (contradict (sym e));
    lives = λ e. refl;
  })
  | inr n ↦ rw n (Mild-refl k p)
]

woken-is_up : (chan : Chan) (p : Proc) → is_up p.state ≡ true → is_up (woken chan p).state ≡ true
woken-is_up chan p h = elim (Bool-cases (is_sleeping p.state && same p.chan chan)) [
  | inl w ↦ rw w refl
  | inr n ↦ rw n h
]

pub wakeup1-IsTable : (t : Table) (chan : Chan) → IsTable t → IsTable (wakeup1 t chan)
unfolding wakeup1
wakeup1-IsTable t chan v =
    Mild-IsTable t (wakeup1 t chan) v (wakeup_from-rest nproc 0 chan t).1
      (subst (λ p. is_up p.state ≡ true) (sym (wakeup1-woken t chan t.initproc v.init_in))
        (woken-is_up chan (t.proc t.initproc) v.init_up))
      (λ k h.
        subst (Mild k (t.proc k)) (sym (wakeup1-woken t chan k h)) (woken-Mild k chan (t.proc k)))

-- After `wakeup1` nobody sleeps on the channel.
woken-awake : (p : Proc) (q : ℕ) → waiting q (woken (proc_at q) p) ≡ false
woken-awake p q = elim (Bool-cases (waiting q p)) [ inl w ↦ rw w refl | inr n ↦ rw n n ]

pub wakeup1-awake :
    (t : Table) (q : ℕ) → q < nproc → waiting q ((wakeup1 t (proc_at q)).proc q) ≡ false
wakeup1-awake t q h =
    subst (λ p. waiting q p ≡ false) (sym (wakeup1-woken t (proc_at q) q h))
      (woken-awake (t.proc q) q)

some_of : (a b : ℕ) → some a ≡ some b → a ≡ b
some_of a b e = ground arith

-- A process gets another parent.
pub reparent-IsTable :
    (t : Table) (i q : ℕ) (v : Proc)
    → IsTable t
    → i < nproc
    → q < nproc
    → q ≢ i
    → i ≢ t.initproc
    → v.parent ≡ some q
    → v.state ≡ (t.proc i).state
    → v.chan ≡ (t.proc i).chan
    → (is_zombie v.state ≡ true → waiting q (t.proc q) ≡ false)
    → is_up (t.proc q).state ≡ true
    → IsTable (set_proc t i v)
reparent-IsTable t i q v s ih qh qi init kin state chan awake q_up = record {
  init_in = s.init_in;
  init_up = rw (update_ne t.proc i t.initproc v init) s.init_up;
  init_top = rw (update_ne t.proc i t.initproc v init) s.init_top;
  parents = λ c p h f.
      update_all
        (λ k x.
          k < nproc
          → x.parent ≡ some p
          → (p < nproc) × (p ≢ k) × (is_up (update t.proc i v p).state ≡ true))
        t.proc i v
        (λ b e.
          let same_q : q ≡ p = some_of q p (sym kin ∙ e) in
          (
            omega arith,
            λ pi. qi (same_q ∙ pi),
            up p (subst (λ j. is_up (t.proc j).state ≡ true) same_q q_up),
          ))
        (λ k ne b e. let (below, other, lives) = s.parents k p b e in (below, other, up p lives)) c
        h f;
  no_lost = λ c p h z f.
      update_all
        (λ k x.
          k < nproc
          → is_zombie x.state ≡ true
          → x.parent ≡ some p
          → waiting p (update t.proc i v p) ≡ false)
        t.proc i v
        (λ b y e.
          still p (subst (λ j. waiting j (t.proc j) ≡ false) (some_of q p (sym kin ∙ e)) (awake y)))
        (λ k ne b y e. still p (s.no_lost k p b y e)) c h z f;
}
  where
    up : (p : ℕ) → is_up (t.proc p).state ≡ true → is_up (update t.proc i v p).state ≡ true
    up p h =
        update_all (λ k x. is_up (t.proc k).state ≡ true → is_up x.state ≡ true) t.proc i v
          (λ a. rw state a) (λ k ne a. a) p h

    still : (p : ℕ) → waiting p (t.proc p) ≡ false → waiting p (update t.proc i v p) ≡ false
    still p w =
        update_all (λ k x. waiting k (t.proc k) ≡ false → waiting k x ≡ false) t.proc i v
          (λ a. rw (state, chan) a) (λ k ne a. a) p w

-- A process without children, whose parent is not asleep in `wait`, turns to a zombie.
pub zombie-IsTable :
    (t : Table) (cur : ℕ)
    → IsTable t
    → cur ≢ t.initproc
    → ((p : ℕ) → (t.proc cur).parent ≡ some p → waiting p (t.proc p) ≡ false)
    → ((c : ℕ) → c < nproc → (t.proc c).parent ≢ some cur)
    → IsTable (set_proc t cur (record (t.proc cur) { state = zombie }))
zombie-IsTable t cur s init awake childless =
    let v : Proc = record (t.proc cur) { state = zombie } in
    record {
      init_in = s.init_in;
      init_up = rw (update_ne t.proc cur t.initproc v init) s.init_up;
      init_top = rw (update_ne t.proc cur t.initproc v init) s.init_top;
      parents = λ c p h f.
          update_all
            (λ k x.
              k < nproc
              → x.parent ≡ some p
              → (p < nproc) × (p ≢ k) × (is_up (update t.proc cur v p).state ≡ true))
            t.proc cur v (λ b e. kin cur p b e) (λ k ne b e. kin k p b e) c h f;
      no_lost = λ c p h z f.
          update_all
            (λ k x.
              k < nproc
              → is_zombie x.state ≡ true
              → x.parent ≡ some p
              → waiting p (update t.proc cur v p) ≡ false)
            t.proc cur v (λ b y e. still p (awake p e))
            (λ k ne b y e. still p (s.no_lost k p b y e)) c h z f;
    }
  where
    kin :
        (c p : ℕ)
        → c < nproc
        → (t.proc c).parent ≡ some p
        → (p < nproc)
          × (p ≢ c)
          × (is_up (update t.proc cur (record (t.proc cur) { state = zombie }) p).state ≡ true)
    kin c p b e =
        let (below, other, lives) = s.parents c p b e in
        let ne : cur ≢ p =
          λ at. childless c b (subst (λ j. (t.proc c).parent ≡ some j) (sym at) e) in
        (
          below,
          other,
          rw (update_ne t.proc cur p (record (t.proc cur) { state = zombie }) ne) lives,
        )

    still :
        (p : ℕ)
        → waiting p (t.proc p) ≡ false
        → waiting p (update t.proc cur (record (t.proc cur) { state = zombie }) p) ≡ false
    still p w =
        update_all (λ k x. waiting k (t.proc k) ≡ false → waiting k x ≡ false) t.proc cur
          (record (t.proc cur) { state = zombie }) (λ a. refl) (λ k ne a. a) p w

-- A process with no child that has exited goes to sleep in `wait`.
pub wait_sleep-IsTable :
    (t : Table) (cur : ℕ)
    → IsTable t
    → ((c : ℕ) → c < nproc → (t.proc c).parent ≡ some cur → is_zombie (t.proc c).state ≡ false)
    → IsTable (sleep t cur (proc_at cur))
unfolding sleep
wait_sleep-IsTable t cur s none_dead =
    let v : Proc = record (t.proc cur) { chan = proc_at cur; state = sleeping } in
    record {
      init_in = s.init_in;
      init_up =
          update_all (λ k x. is_up (t.proc k).state ≡ true → is_up x.state ≡ true) t.proc cur v
            (λ a. refl) (λ k ne a. a) t.initproc s.init_up;
      init_top =
          update_all (λ k x. (t.proc k).parent ≡ none → x.parent ≡ none) t.proc cur v (λ a. a)
            (λ k ne a. a) t.initproc s.init_top;
      parents = λ c p h f.
          update_all
            (λ k x.
              k < nproc
              → x.parent ≡ some p
              → (p < nproc) × (p ≢ k) × (is_up (update t.proc cur v p).state ≡ true))
            t.proc cur v (λ b e. kin cur p b e) (λ k ne b e. kin k p b e) c h f;
      no_lost = λ c p h z f.
          update_all
            (λ k x.
              k < nproc
              → is_zombie x.state ≡ true
              → x.parent ≡ some p
              → waiting p (update t.proc cur v p) ≡ false)
            t.proc cur v (λ b y e. absurd (contradict (sym y)))
            (λ k ne b y e. elim (ℕ_discrete cur p) [
              | yes at ↦ absurd (
                  contradict
                    (sym y ∙ none_dead k b (subst (λ j. (t.proc k).parent ≡ some j) (sym at) e)))
              | no off ↦
                  subst (λ x. waiting p x ≡ false) (sym (update_ne t.proc cur p v off))
                    (s.no_lost k p b y e)
            ])
            c h z f;
    }
  where
    slept : ℕ → Proc
    slept = update t.proc cur (record (t.proc cur) { chan = proc_at cur; state = sleeping })

    kin :
        (c p : ℕ)
        → c < nproc
        → (t.proc c).parent ≡ some p
        → (p < nproc) × (p ≢ c) × (is_up (slept p).state ≡ true)
    kin c p b e =
        let (below, other, lives) = s.parents c p b e in
        (
          below,
          other,
          update_all (λ k x. is_up (t.proc k).state ≡ true → is_up x.state ≡ true) t.proc cur
              (record (t.proc cur) { chan = proc_at cur; state = sleeping }) (λ a. refl)
              (λ k ne a. a) p lives,
        )
