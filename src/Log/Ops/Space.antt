-- ===== src/Log/Ops/Space.antt =====
-- The reservation of log space by `begin_op`: the share of each operation, and what is left of it.
use northos.Prelude.{
  ℕ, zero, suc, ◌+◌, ◌-◌, ◌≤◌, ◌<◌, ◌≡◌, refl, ◌⊎◌, inl, inr, true, false, List, [], ◌∷◌, ◌++◌,
  length, length-append, some, ltb, arith, Bool-cases, ◌∙◌, ap, ◌*◌, Option-cases, sym, subst,
}
use northos.Log.{
  Log, commit, clear_head, write_head, install_trans, install_from, write_log, write_log_from,
  bwrite, log_size, max_op_blocks,
}
use northos.Log.Ops.{begun, begin_op, log_write, end_op, end_commit}

unfoldable pub sum : List ℕ → ℕ
sum [] = 0
sum (x ∷ xs) = x + sum xs

sum-append : (xs ys : List ℕ) → sum (xs ++ ys) ≡ sum xs + sum ys
unfolding sum
sum-append [] ys = omega arith
sum-append (x ∷ xs) ys = omega (arith, sum-append xs ys)

-- Every share is at most MAXOPBLOCKS.
abbrev pub Fair : List ℕ → Type 0
Fair [] = Unit {0}
Fair (x ∷ xs) = (x ≤ max_op_blocks) × Fair xs

Fair-append : (xs ys : List ℕ) → Fair xs → Fair ys → Fair (xs ++ ys)
Fair-append [] ys h g = g
Fair-append (x ∷ xs) ys h g = (h.0, Fair-append xs ys h.1 g)

Fair-split :
    (xs ys : List ℕ) (k : ℕ) → Fair (xs ++ k ∷ ys) → Fair xs × (k ≤ max_op_blocks) × Fair ys
Fair-split [] ys k h = (tt, h.0, h.1)
Fair-split (x ∷ xs) ys k h = let (a, b, c) = Fair-split xs ys k h.1 in ((h.0, a), b, c)

sum-le : (xs : List ℕ) → Fair xs → sum xs ≤ length xs * max_op_blocks
unfolding sum
sum-le [] h = omega arith
sum-le (x ∷ xs) h = omega (arith, sum-le xs h.1)

-- The log, and for each operation under way how many more blocks it may add to the log.
pub record State : Type 0 where
  pub log : Log
  pub shares : List ℕ

-- What the operations do, in any order: one begins, logs a block that is new to the transaction or
-- one that is in it already, or ends; the last one commits.
pub data Step (s t : State) : Type 0 where
  begins : begin_op s.log ≡ begun t.log → t.shares ≡ max_op_blocks ∷ s.shares → Step s t
  adds :
      (xs ys : List ℕ) (k b : ℕ)
      → s.shares ≡ xs ++ suc k ∷ ys
      → log_write s.log b ≡ some t.log
      → t.log.n ≡ s.log.n + 1
      → t.shares ≡ xs ++ k ∷ ys
      → Step s t
  absorbs :
      (b : ℕ) → log_write s.log b ≡ some t.log → t.log.n ≡ s.log.n → t.shares ≡ s.shares → Step s t
  ends :
      (xs ys : List ℕ) (k : ℕ)
      → s.shares ≡ xs ++ k ∷ ys
      → end_op s.log ≡ some t.log
      → t.shares ≡ xs ++ ys
      → Step s t
  commits : s.log.committing ≡ true → t.log ≡ end_commit s.log → t.shares ≡ s.shares → Step s t

pub data Reach (s : State) : State → Type 0 where
  here : Reach s s
  next : {t u : State} → Reach s t → Step t u → Reach s u

pub record IsShared (s : State) : Type 0 where
  pub fair : Fair s.shares
  pub counted : length s.shares ≡ s.log.outstanding
  pub reserved : s.log.n + sum s.shares ≤ log_size
  pub alone : (s.log.committing ≡ false) ⊎ (s.log.outstanding ≡ 0)
  pub roomy : log_size ≤ s.log.size

-- The loops of `commit` change the disk, the cache and the power alone.
abbrev Frame : Log → Log → Type 0
Frame l m = (m.n ≡ l.n) × (m.outstanding ≡ l.outstanding) × (m.size ≡ l.size)

install_from-Frame : (r t : ℕ) (l : Log) → Frame l (install_from r t l)
unfolding install_from bwrite
install_from-Frame zero t l = (refl, refl, refl)
install_from-Frame (suc r) t l = install_from-Frame r (t + 1) _

write_log_from-Frame : (r t : ℕ) (l : Log) → Frame l (write_log_from r t l)
unfolding write_log_from bwrite
write_log_from-Frame zero t l = (refl, refl, refl)
write_log_from-Frame (suc r) t l = write_log_from-Frame r (t + 1) _

-- A commit empties the log.
commit-Frame :
    (l : Log)
    → ((commit l).n ≡ 0) × ((commit l).outstanding ≡ l.outstanding) × ((commit l).size ≡ l.size)
unfolding commit clear_head write_head bwrite install_trans write_log
commit-Frame l = elim (Bool-cases (ltb 0 l.n)) [
  | inl e ↦
      let w = write_head (write_log_from l.n 0 l) in
      let (_, o, z) = install_from-Frame w.n 0 w in
      let (_, o', z') = write_log_from-Frame l.n 0 l in rw e (refl, o ∙ o', z ∙ z')
  | inr e ↦ rw e (ground arith, refl, refl)
]

begin_op-IsShared :
    (s t : State)
    → begin_op s.log ≡ begun t.log
    → t.shares ≡ max_op_blocks ∷ s.shares
    → IsShared s
    → IsShared t
unfolding begin_op sum
begin_op-IsShared s t e f v = record {
  fair = rw f (omega arith, v.fair);
  counted = ground (arith, ap length f, v.counted);
  reserved = ground (arith, ap sum f, sum-le s.shares v.fair, v.counted);
  alone = ground arith;
  roomy = ground arith;
}

sums : (xs ys : List ℕ) (k : ℕ) {zs : List ℕ} → zs ≡ xs ++ k ∷ ys → sum zs ≡ sum xs + (k + sum ys)
unfolding sum
sums xs ys k e = ap sum e ∙ sum-append xs (k ∷ ys)

lengths :
    (xs ys : List ℕ) (k : ℕ) {zs : List ℕ}
    → zs ≡ xs ++ k ∷ ys
    → length zs ≡ length xs + suc (length ys)
lengths xs ys k e = ap length e ∙ length-append xs (k ∷ ys)

log_write-facts :
    (l m : Log) (b : ℕ)
    → log_write l b ≡ some m
    → (l.n < log_size)
      × (m.outstanding ≡ l.outstanding)
      × (m.size ≡ l.size)
      × (m.committing ≡ l.committing)
unfolding log_write
log_write-facts l m b e = ground arith

end_op-facts :
    (l m : Log)
    → end_op l ≡ some m
    → (m.n ≡ l.n)
      × (m.outstanding ≡ l.outstanding - 1)
      × (m.size ≡ l.size)
      × ((m.committing ≡ false) ⊎ (m.outstanding ≡ 0))
unfolding end_op
end_op-facts l m e = ground arith

Step-IsShared : {s t : State} → Step s t → IsShared s → IsShared t
unfolding end_commit
Step-IsShared {s} {t} (begins e f) v = begin_op-IsShared s t e f v
Step-IsShared {s} {t} (adds xs ys k b e w g f) v =
    let (_, o, z, c) = log_write-facts s.log t.log b w in
    let (before, share, after) = Fair-split xs ys (suc k) (subst Fair e v.fair) in
    record {
      fair = rw f (Fair-append xs (k ∷ ys) before (omega arith, after));
      counted = omega (arith, lengths xs ys (suc k) e, lengths xs ys k f, v.counted);
      reserved = omega (arith, sums xs ys (suc k) e, sums xs ys k f, v.reserved);
      alone = rw (c, o) v.alone;
      roomy = omega (arith, v.roomy);
    }
Step-IsShared {s} {t} (absorbs b w g f) v =
    let (_, o, z, c) = log_write-facts s.log t.log b w in
    record {
      fair = rw f v.fair;
      counted = rw (f, o) v.counted;
      reserved = rw (f, g) v.reserved;
      alone = rw (c, o) v.alone;
      roomy = omega (arith, v.roomy);
    }
Step-IsShared {s} {t} (ends xs ys k e w f) v =
    let (n, o, z, c) = end_op-facts s.log t.log w in
    let (before, share, after) = Fair-split xs ys k (subst Fair e v.fair) in
    record {
      fair = rw f (Fair-append xs ys before after);
      counted = omega (arith, lengths xs ys k e, ap length f, length-append xs ys, v.counted);
      reserved = omega (arith, sums xs ys k e, ap sum f, sum-append xs ys, v.reserved);
      alone = c;
      roomy = omega (arith, v.roomy);
    }
Step-IsShared {s} {t} (commits c e f) v =
    let (n, o, z) = commit-Frame s.log in
    record {
      fair = rw f v.fair;
      counted = rw f (v.counted ∙ sym (ap (λ m. m.outstanding) e ∙ o));
      reserved = omega (arith, ap (λ m. m.n) e, n, ap sum f, v.reserved);
      alone = inl (ap (λ m. m.committing) e);
      roomy = omega (arith, ap (λ m. m.size) e, z, v.roomy);
    }

Reach-IsShared : {s t : State} → Reach s t → IsShared s → IsShared t
Reach-IsShared here v = v
Reach-IsShared (next r st) v = Step-IsShared st (Reach-IsShared r v)

end_op-total : (l : Log) → l.committing ≡ false → (m : Log) × (end_op l ≡ some m)
unfolding end_op
end_op-total l h = elim (Option-cases (end_op l)) [ inl e ↦ absurd (ground arith) | inr r ↦ r ]

-- After any run of the operations, from a log of at least LOGSIZE blocks where they keep to their
-- shares, an operation that is under way ends without the panic of `end_op`.
pub end_op-reachable :
    {s t : State} (xs ys : List ℕ) (k : ℕ)
    → IsShared s
    → Reach s t
    → t.shares ≡ xs ++ k ∷ ys
    → (m : Log) × (end_op t.log ≡ some m)
end_op-reachable {s} {t} xs ys k v r e =
    let w = Reach-IsShared r v in
    let active : 0 < t.log.outstanding = omega (arith, lengths xs ys k e, w.counted) in
    end_op-total t.log (ground (arith, w.alone))
