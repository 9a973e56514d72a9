-- ===== src/Proc/Loops.antt =====
-- What the loops of kernel/proc.c over the process table do to each process.
use northos.Prelude.{
  ℕ, zero, suc, ◌+◌, ◌≤◌, ◌<◌, ◌≡◌, refl, subst, ◌∙◌, sym, ap, ◌⊎◌, inl, inr, Bool, true, false,
  Bool-cases, some, update_ne, update_eq, arith, ℕ_discrete,
}
use northos.Proc.{
  Table, Chan, nproc, set_proc, woken, wakeup_from, wakeup1, find_unused, is_unused, is_zombie,
  parent_is, Scan, exited, none_exited, scan_from,
}

-- The loop of `wakeup1` reaches each process once.
wakeup_from-missed :
    (r i k : ℕ) (chan : Chan) (t : Table) → k < i → (wakeup_from r i chan t).proc k ≡ t.proc k
unfolding wakeup_from
wakeup_from-missed zero i k chan t h = refl
wakeup_from-missed (suc r) i k chan t h =
    wakeup_from-missed r (i + 1) k chan (set_proc t i (woken chan (t.proc i))) (omega arith)
    ∙ update_ne t.proc i k (woken chan (t.proc i)) (omega arith)

wakeup_from-woken :
    (r i k : ℕ) (chan : Chan) (t : Table)
    → i ≤ k
    → k < i + r
    → (wakeup_from r i chan t).proc k ≡ woken chan (t.proc k)
unfolding wakeup_from
wakeup_from-woken zero i k chan t h b = absurd (omega arith)
wakeup_from-woken (suc r) i k chan t h b =
    let t' = set_proc t i (woken chan (t.proc i)) in
    elim (ℕ_discrete i k) [
      | yes e ↦
          wakeup_from-missed r (i + 1) k chan t' (omega arith)
          ∙ update_eq t.proc i k (woken chan (t.proc i)) e
          ∙ ap (λ j. woken chan (t.proc j)) e
      | no ne ↦
          wakeup_from-woken r (i + 1) k chan t' (omega arith) (omega arith)
          ∙ ap (woken chan) (update_ne t.proc i k (woken chan (t.proc i)) ne)
    ]

pub wakeup_from-rest :
    (r i : ℕ) (chan : Chan) (t : Table)
    → ((wakeup_from r i chan t).nextpid ≡ t.nextpid)
      × ((wakeup_from r i chan t).initproc ≡ t.initproc)
unfolding wakeup_from
wakeup_from-rest zero i chan t = (refl, refl)
wakeup_from-rest (suc r) i chan t =
    wakeup_from-rest r (i + 1) chan (set_proc t i (woken chan (t.proc i)))

-- For each process of the table, `wakeup1` makes it runnable where it sleeps on the channel and
-- leaves it as it was otherwise.
pub wakeup1-woken :
    (t : Table) (chan : Chan) (k : ℕ) → k < nproc → (wakeup1 t chan).proc k ≡ woken chan (t.proc k)
unfolding wakeup1
wakeup1-woken t chan k h = wakeup_from-woken nproc 0 k chan t (omega arith) (omega arith)

pub find_unused-unused :
    (r i np : ℕ) (t : Table)
    → find_unused r i t ≡ some np
    → (is_unused (t.proc np).state ≡ true) × (np < i + r)
unfolding find_unused
find_unused-unused zero i np t e = absurd (cc)
find_unused-unused (suc r) i np t e = elim (Bool-cases (is_unused (t.proc i).state)) [
  | inl free ↦ let at : np ≡ i = ground arith in (rw at free, omega arith)
  | inr taken ↦ let (a, b) = find_unused-unused r (i + 1) np t (rw taken at e) in (a, omega arith)
]

pub contradict : true ≡ false → ⊥
contradict e = ground arith

-- A child of `cur` below a bound.
abbrev pub Child : ℕ → ℕ → Table → Type 0
Child bound cur t = (c : ℕ) × (c < bound) × (parent_is (t.proc c).parent cur ≡ true)

-- What the scan of `wait` has found: a child that has exited, or that none has, and whether there
-- is a child.
abbrev pub Found : ℕ → ℕ → Bool → ℕ → Table → Scan → Type 0
Found r i havekids cur t (exited c) =
    (c < i + r) × (parent_is (t.proc c).parent cur ≡ true) × (is_zombie (t.proc c).state ≡ true)
Found r i havekids cur t (none_exited kids) =
    ((k : ℕ)
      → i ≤ k
      → k < i + r
      → parent_is (t.proc k).parent cur ≡ true
      → (is_zombie (t.proc k).state ≡ false) × (kids ≡ true))
    × (havekids ≡ true → kids ≡ true)
    × (kids ≡ true → (havekids ≡ true) ⊎ Child (i + r) cur t)

scan_from-Found :
    (r i : ℕ) (havekids : Bool) (cur : ℕ) (t : Table)
    → Found r i havekids cur t (scan_from r i havekids cur t)
unfolding scan_from
scan_from-Found zero i havekids cur t = (λ k a b. absurd (omega arith), λ h. h, λ h. inl h)
scan_from-Found (suc r) i havekids cur t = elim (Bool-cases (parent_is (t.proc i).parent cur)) [
  | inl child ↦ elim (Bool-cases (is_zombie (t.proc i).state)) [
    | inl dead ↦ rw (child, dead) (omega arith, child, dead)
    | inr alive ↦ rw (child, alive) (here child alive _ (scan_from-Found r (i + 1) true cur t))
  ]
  | inr other ↦ rw other (past other _ (scan_from-Found r (i + 1) havekids cur t))
]
  where
    here :
        parent_is (t.proc i).parent cur ≡ true
        → is_zombie (t.proc i).state ≡ false
        → (s : Scan) → Found r (i + 1) true cur t s
        → Found (suc r) i havekids cur t s
    here child alive (exited c) (a, b, d) = (omega arith, b, d)
    here child alive (none_exited kids) (f, g, w) = (
      λ k a b c. elim (ℕ_discrete i k) [
        | yes e ↦ (subst (λ j. is_zombie (t.proc j).state ≡ false) e alive, g refl)
        | no ne ↦ f k (omega arith) (omega arith) c
      ],
      λ h. g refl,
      λ h. inr (i, omega arith, child),
    )

    past :
        parent_is (t.proc i).parent cur ≡ false
        → (s : Scan) → Found r (i + 1) havekids cur t s
        → Found (suc r) i havekids cur t s
    past other (exited c) (a, b, d) = (omega arith, b, d)
    past other (none_exited kids) (f, g, w) = (
      λ k a b c. elim (ℕ_discrete i k) [
        | yes e ↦
            absurd
              (contradict (sym c ∙ subst (λ j. parent_is (t.proc j).parent cur ≡ false) e other))
        | no ne ↦ f k (omega arith) (omega arith) c
      ],
      g,
      λ h. elim (w h) [ inl had ↦ inl had | inr (c, b, d) ↦ inr (c, omega arith, d) ],
    )

pub wait-Found : (t : Table) (cur : ℕ) → Found nproc 0 false cur t (scan_from nproc 0 false cur t)
wait-Found t cur = scan_from-Found nproc 0 false cur t
