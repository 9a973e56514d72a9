-- ===== src/Bio/Cache/Gets.antt =====
-- The buffer that bget returns, for the caller.
use northos.Prelude.{
  ℕ, ◌+◌, ◌%◌, ◌<◌, ◌≡◌, ◌≢◌, refl, ap, ◌⊎◌, inl, inr, Bool, true, false, List, [], ◌∷◌, ◌++◌,
  Option, none, some, if◌then◌else◌, update_self, update_ne, Bool-cases, arith,
}
use northos.Bio.{Buf, Bcache, u32, holds, may_recycle, claim, got, bget}
use northos.Bio.Cache.{IsCache, first_of, last_of, or_else, bget_lem}

-- Every buffer of the list has P.
abbrev pub All : (ℕ → Type 0) → List ℕ → Type 0
All P [] = Unit {0}
All P (x ∷ xs) = P x × All P xs

All-map : (P Q : ℕ → Type 0) (xs : List ℕ) → ((x : ℕ) → P x → Q x) → All P xs → All Q xs
All-map P Q [] f h = tt
All-map P Q (x ∷ xs) f h = (f x h.0, All-map P Q xs f h.1)

module _ (test : ℕ → Bool) where
  abbrev Fails : ℕ → Type 0
  Fails x = test x ≡ false

  abbrev First : List ℕ → Option ℕ → Type 0
  First xs none = All Fails xs
  First xs (some b) =
      (ys : List ℕ) × (zs : List ℕ) × (xs ≡ ys ++ (b ∷ zs)) × All Fails ys × (test b ≡ true)

  First-skip : (x : ℕ) (xs : List ℕ) (o : Option ℕ) → Fails x → First xs o → First (x ∷ xs) o
  First-skip x xs none f h = (f, h)
  First-skip x xs (some b) f (ys, zs, e, before, t) =
      (x ∷ ys, zs, ap (λ l. x ∷ l) e, (f, before), t)

  first_of-First : (xs : List ℕ) → First xs (first_of test xs)
  first_of-First [] = tt
  first_of-First (x ∷ xs) = elim (Bool-cases (test x)) [
    | inl t ↦ rw t ([], xs, refl, tt, t)
    | inr f ↦ rw f (First-skip x xs (first_of test xs) f (first_of-First xs))
  ]

  abbrev Last : List ℕ → Option ℕ → Type 0
  Last xs none = All Fails xs
  Last xs (some b) =
      (ys : List ℕ) × (zs : List ℕ) × (xs ≡ ys ++ (b ∷ zs)) × All Fails zs × (test b ≡ true)

  Last-cons :
      (x : ℕ) (xs : List ℕ) (o : Option ℕ)
      → Last xs o
      → Last (x ∷ xs) (or_else o (if test x then some x else none))
  Last-cons x xs (some b) (ys, zs, e, behind, t) = (x ∷ ys, zs, ap (λ l. x ∷ l) e, behind, t)
  Last-cons x xs none h = elim (Bool-cases (test x)) [
    | inl t ↦ rw t ([], xs, refl, h, t)
    | inr f ↦ rw f (f, h)
  ]

  last_of-Last : (xs : List ℕ) → Last xs (last_of test xs)
  last_of-Last [] = tt
  last_of-Last (x ∷ xs) = Last-cons x xs (last_of test xs) (last_of-Last xs)

abbrev pub Has : ℕ → ℕ → Buf → Type 0
Has dev blockno v = (v.dev ≡ dev) × (v.blockno ≡ blockno)

-- In use, or changed and not written yet.
abbrev pub Busy : Buf → Type 0
Busy v = (0 < v.refcnt) ⊎ (v.dirty ≡ true)

holds-Has : (dev blockno : ℕ) (v : Buf) → holds dev blockno v ≡ true → Has dev blockno v
holds-Has dev blockno v h = ground arith

lacks-Has : (dev blockno : ℕ) (v : Buf) → holds dev blockno v ≡ false → Has dev blockno v → ⊥
lacks-Has dev blockno v h e = ground arith

may_recycle-free : (v : Buf) → may_recycle v ≡ true → (v.refcnt ≡ 0) × (v.dirty ≡ false)
may_recycle-free v h = ground arith

may_recycle-Busy : (v : Buf) → may_recycle v ≡ false → Busy v
may_recycle-Busy v h = elim (Bool-cases v.dirty) [ inl d ↦ inr d | inr c ↦ inl (ground arith) ]

module _ (dev blockno : ℕ) (c : Bcache) where
  abbrev pub Lacks : ℕ → Type 0
  Lacks x = Has dev blockno (c.buf x) → ⊥

  abbrev pub InUse : ℕ → Type 0
  InUse x = Busy (c.buf x)

  -- The first buffer of the ring with the block, which has one use more.
  abbrev pub Hit : List ℕ → ℕ → Bcache → Type 0
  Hit xs b c1 =
      (ys : List ℕ) × (zs : List ℕ) × (xs ≡ ys ++ (b ∷ zs))
      × All Lacks ys
      × Has dev blockno (c.buf b)
      × (c1.buf b ≡ record (c.buf b) { refcnt = ((c.buf b).refcnt + 1) % u32 })

  -- No buffer has the block, and the last one of the ring that is neither used nor dirty has it now.
  abbrev pub Recycled : List ℕ → ℕ → Bcache → Type 0
  Recycled xs b c1 =
      All Lacks xs
      × ((ys : List ℕ) × (zs : List ℕ) × (xs ≡ ys ++ (b ∷ zs))
          × All InUse zs
          × ((c.buf b).refcnt ≡ 0)
          × ((c.buf b).dirty ≡ false)
          × (c1.buf b
              ≡ record { valid = false; dirty = false; dev = dev; blockno = blockno; refcnt = 1 }))

  -- The ring keeps its order and the other buffers what they hold; `none`, the panic, comes where no
  -- buffer has the block and every one is in use or dirty.
  abbrev pub Gets : List ℕ → Option (ℕ × Bcache) → Type 0
  Gets xs none = All Lacks xs × All InUse xs
  Gets xs (some (b, c1)) =
      IsCache xs c1 × ((k : ℕ) → b ≢ k → c1.buf k ≡ c.buf k) × (Hit xs b c1 ⊎ Recycled xs b c1)

  abbrev has : ℕ → Bool
  has b = holds dev blockno (c.buf b)

  abbrev free : ℕ → Bool
  free b = may_recycle (c.buf b)

  All-Lacks : (xs : List ℕ) → All (Fails has) xs → All Lacks xs
  All-Lacks xs h = All-map (Fails has) Lacks xs (λ x. lacks-Has dev blockno (c.buf x)) h

  All-InUse : (xs : List ℕ) → All (Fails free) xs → All InUse xs
  All-InUse xs h = All-map (Fails free) InUse xs (λ x. may_recycle-Busy (c.buf x)) h

  got-Gets :
      (xs : List ℕ) (o u : Option ℕ)
      → IsCache xs c
      → First has xs o
      → Last free xs u
      → Gets xs (got dev blockno c o u)
  got-Gets xs (some b) u k (ys, zs, e, before, t) free_one =
      let v = record (c.buf b) { refcnt = ((c.buf b).refcnt + 1) % u32 } in
      (
        record { ring = k.ring; size = k.size },
        λ j ne. update_ne c.buf b j v ne,
        inl (
          ys,
          zs,
          e,
          All-Lacks ys before,
          holds-Has dev blockno (c.buf b) t,
          update_self c.buf b v,
        ),
      )
  got-Gets xs none (some b) k lack (ys, zs, e, behind, t) =
      let (unused, clean) = may_recycle-free (c.buf b) t in
      (
        record { ring = k.ring; size = k.size },
        λ j ne. update_ne c.buf b j (claim dev blockno) ne,
        inr (
          All-Lacks xs lack,
          (ys, zs, e, All-InUse zs behind, unused, clean, update_self c.buf b (claim dev blockno)),
        ),
      )
  got-Gets xs none none k lack busy = (All-Lacks xs lack, All-InUse xs busy)

-- Where the buffers of `xs` are on the ring in this order, bget returns the first one that has the
-- block, with one use more; where none has it, the last one that is neither used nor dirty, which then
-- has the block, is not valid and is used once; and where there is no such one either, it panics. The
-- ring keeps its order and the other buffers what they hold.
pub bget-Gets :
    (dev blockno : ℕ) (c : Bcache) (xs : List ℕ)
    → IsCache xs c
    → Gets dev blockno c xs (bget dev blockno c)
bget-Gets dev blockno c xs k = rw (bget_lem dev blockno c xs k) (
    got-Gets dev blockno c xs (first_of (has dev blockno c) xs) (last_of (free dev blockno c) xs) k
      (first_of-First (has dev blockno c) xs) (last_of-Last (free dev blockno c) xs))
