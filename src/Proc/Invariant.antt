-- ===== src/Proc/Invariant.antt =====
-- The family of processes in kernel/proc.c: parents, children and their exits.
pub mod Moves
pub mod Children
pub mod Exit
pub mod Reach
use northos.Prelude.{
  ℕ, ◌<◌, ◌≡◌, refl, sym, ap, subst, ◌≢◌, ◌∙◌, Bool, true, false, Bool-cases, inl, inr, not, ◌&&◌,
  Option, none, some, ◌==◌, if◌then◌else◌, update, update_self, update_ne, update_eq, arith,
  ℕ_discrete,
}
use northos.Proc.Loops.{contradict}
use northos.Proc.{
  Proc, ProcState, Table, Chan, proc_at, nproc, set_proc, is_unused, is_zombie, is_sleeping, same,
  unused, embryo, sleeping, runnable, running, zombie,
}

-- The process k sleeps in `wait`.
abbrev pub waiting : ℕ → Proc → Bool
waiting k p = is_sleeping p.state && same p.chan (proc_at k)

-- Asleep, runnable or running.
abbrev pub is_up : ProcState → Bool
is_up unused = false
is_up embryo = false
is_up sleeping = true
is_up runnable = true
is_up running = true
is_up zombie = false

-- Init is there and has no parent, the other parents are other processes of the table, asleep, runnable
-- or running, and the parent of a process that has exited is not asleep in `wait`.
pub record IsTable (t : Table) : Type 0 where
  pub init_in : t.initproc < nproc
  pub init_up : is_up (t.proc t.initproc).state ≡ true
  pub init_top : (t.proc t.initproc).parent ≡ none
  pub parents :
      (c p : ℕ)
      → c < nproc
      → (t.proc c).parent ≡ some p
      → (p < nproc) × (p ≢ c) × (is_up (t.proc p).state ≡ true)
  pub no_lost :
      (c p : ℕ)
      → c < nproc
      → is_zombie (t.proc c).state ≡ true
      → (t.proc c).parent ≡ some p
      → waiting p (t.proc p) ≡ false

-- A change of the process k that is no exit, no end, no new parent and no sleep in `wait`.
pub record Mild (k : ℕ) (p p' : Proc) : Type 0 where
  pub kin : (q : ℕ) → p'.parent ≡ some q → p.parent ≡ some q
  pub dead : is_zombie p'.state ≡ true → is_zombie p.state ≡ true
  pub asleep : waiting k p' ≡ true → waiting k p ≡ true
  pub lives : is_up p.state ≡ true → is_up p'.state ≡ true

pub Mild-refl : (k : ℕ) (p : Proc) → Mild k p p
Mild-refl k p = record { kin = λ q e. e; dead = λ e. e; asleep = λ e. e; lives = λ e. e }

pub none-or-some : (p q : Option ℕ) → q ≡ none → ((k : ℕ) → p ≡ some k → q ≡ some k) → p ≡ none
none-or-some none q e f = refl
none-or-some (some k) q e f = absurd (some_none k (sym (f k refl) ∙ e))
  where
    some_none : (k : ℕ) → some k ≡ none → ⊥
    some_none k h = ground arith

pub Mild-IsTable :
    (t t' : Table)
    → IsTable t
    → t'.initproc ≡ t.initproc
    → is_up (t'.proc t.initproc).state ≡ true
    → ((k : ℕ) → k < nproc → Mild k (t.proc k) (t'.proc k))
    → IsTable t'
Mild-IsTable t t' v e up mild = record {
  init_in = rw e v.init_in;
  init_up = rw e up;
  init_top = rw e (
      none-or-some (t'.proc t.initproc).parent (t.proc t.initproc).parent v.init_top
        (mild t.initproc v.init_in).kin);
  parents = λ c p h f.
      let (below, other, lives) = v.parents c p h ((mild c h).kin p f) in
      (below, other, (mild p below).lives lives);
  no_lost = λ c p h z f.
      let f' = (mild c h).kin p f in
      elim (Bool-cases (waiting p (t'.proc p))) [
        | inl w ↦ absurd (
            contradict (
              sym ((mild p (v.parents c p h f').0).asleep w)
              ∙ v.no_lost c p h ((mild c h).dead z) f'))
        | inr w ↦ w
      ];
}

-- A fact about every process after one has changed.
pub update_all :
    (P : ℕ → Proc → Type 0) (f : ℕ → Proc) (i : ℕ) (v : Proc)
    → P i v
    → ((k : ℕ) → k ≢ i → P k (f k))
    → (k : ℕ) → P k (update f i v k)
update_all P f i v here there k = elim (ℕ_discrete i k) [
  | yes e ↦ subst (P k) (sym (update_eq f i k v e)) (subst (λ j. P j v) e here)
  | no ne ↦ subst (P k) (sym (update_ne f i k v ne)) (there k (λ e. ne (sym e)))
]

pub set_proc-IsTable :
    (t : Table) (i : ℕ) (v : Proc)
    → IsTable t
    → i < nproc
    → Mild i (t.proc i) v
    → (i ≡ t.initproc → is_up v.state ≡ true)
    → IsTable (set_proc t i v)
set_proc-IsTable t i v s h m up =
    Mild-IsTable t (set_proc t i v) s refl
      (update_all (λ k p. k ≡ t.initproc → is_up p.state ≡ true) t.proc i v up
        (λ k ne e. subst (λ j. is_up (t.proc j).state ≡ true) (sym e) s.init_up) t.initproc refl)
      (λ k b.
        update_all (λ k p. Mild k (t.proc k) p) t.proc i v m (λ k ne. Mild-refl k (t.proc k)) k)
