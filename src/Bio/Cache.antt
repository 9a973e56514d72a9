-- ===== src/Bio/Cache.antt =====
-- bget and brelse on the list of the buffers in the order of the ring.
pub mod Start
pub mod Gets
use northos.Prelude.{
  ℕ, zero, suc, ◌+◌, ◌-◌, ◌%◌, ◌<◌, ◌≤◌, ◌≡◌, ◌≢◌, refl, subst, sym, ap, ◌∙◌, ◌⊎◌, inl, inr, Bool,
  true, false, List, [], ◌∷◌, ◌++◌, Option, none, some, ◌==◌, if◌then◌else◌, update, update_self,
  update_ne, length, length-append, Bool-cases, arith,
}
use northos.Wm.WindowList.Chain.{NotIn, NotIn-append, Distinct-middle}
use northos.Fs.Bitmap.{OnSome}
use northos.Bio.{
  Bcache, u32, list_head, nbuf, rounds, holds, may_recycle, claim, with_buf, got, push_front,
  take_out, find_along, bget, brelse, binit, binit_from,
}
use northos.Bio.Ring.{Linked, IsRing, push_front-IsRing, take_out-IsRing}

abbrev pub first_of : (ℕ → Bool) → List ℕ → Option ℕ
first_of test [] = none
first_of test (x ∷ xs) = if test x then some x else first_of test xs

abbrev pub or_else : Option ℕ → Option ℕ → Option ℕ
or_else (some x) o = some x
or_else none o = o

abbrev pub last_of : (ℕ → Bool) → List ℕ → Option ℕ
last_of test [] = none
last_of test (x ∷ xs) = or_else (last_of test xs) (if test x then some x else none)

or_else_assoc :
    (o w : Option ℕ) (t : Bool) (x : ℕ)
    → or_else (or_else o (if t then some x else none)) w ≡ or_else o (if t then some x else w)
or_else_assoc (some y) w t x = refl
or_else_assoc none w true x = refl
or_else_assoc none w false x = refl

or_else_none : (o : Option ℕ) → or_else o none ≡ o
or_else_none none = refl
or_else_none (some x) = refl

-- The buffers of the list `xs` are on the ring in this order, at most as many as there are.
pub record IsCache (xs : List ℕ) (c : Bcache) : Type 0 where
  pub ring : IsRing xs c.next c.prev
  pub size : length xs ≤ nbuf

module _ (c : Bcache) (test : ℕ → Bool) where
  find_along_next :
      (a f : ℕ) (xs : List ℕ)
      → Linked c.next c.prev a xs list_head
      → NotIn list_head xs
      → length xs < f
      → find_along c.next test f (c.next a) ≡ first_of test xs
  unfolding find_along
  find_along_next a zero xs l out lt = absurd (omega arith)
  find_along_next a (suc f) [] l out lt = rw l.0 refl
  find_along_next a (suc f) (x ∷ xs) l out lt =
      let rest = find_along_next x f xs l.2 out.1 (omega arith) in
      let here : (x == list_head) ≡ false = ground (arith, out.0) in rw (l.0, here, rest) refl

  find_along_step :
      (a f x : ℕ)
      → x ≢ list_head
      → c.prev x ≡ a
      → find_along c.prev test (suc f) x ≡ (if test x then some x else find_along c.prev test f a)
  unfolding find_along
  find_along_step a f x ne e =
      let here : (x == list_head) ≡ false = ground (arith, ne) in rw (here, e) refl

  find_along_head : (f : ℕ) → find_along c.prev test (suc f) list_head ≡ none
  unfolding find_along
  find_along_head f = refl

  find_along_prev :
      (a b f : ℕ) (xs : List ℕ)
      → Linked c.next c.prev a xs b
      → NotIn list_head xs
      → find_along c.prev test (length xs + f) (c.prev b)
        ≡ or_else (last_of test xs) (find_along c.prev test f a)
  unfolding find_along
  find_along_prev a b f [] l out = let fuel : 0 + f ≡ f = omega arith in rw (fuel, l.1) refl
  find_along_prev a b f (x ∷ xs) l out =
      let fuel : suc (length xs) + f ≡ length xs + suc f = omega arith in
      ap (λ k. find_along c.prev test k (c.prev b)) fuel
      ∙ find_along_prev x b (suc f) xs l.2 out.1
      ∙ ap (or_else (last_of test xs)) (find_along_step a f x out.0 l.1)
      ∙ sym (or_else_assoc (last_of test xs) (find_along c.prev test f a) (test x) x)

  find_along_ring :
      (xs : List ℕ)
      → IsCache xs c
      → find_along c.prev test rounds (c.prev list_head) ≡ last_of test xs
  find_along_ring xs k =
      let spare = nbuf - length xs in
      let fuel : rounds ≡ length xs + suc spare = omega (arith, k.size) in
      ap (λ n. find_along c.prev test n (c.prev list_head)) fuel
      ∙ find_along_prev list_head list_head (suc spare) xs k.ring.linked k.ring.no_head
      ∙ ap (or_else (last_of test xs)) (find_along_head spare)
      ∙ or_else_none (last_of test xs)

-- On a ring the loops of bget find the first buffer with the block, and the last one that may be recycled.
pub bget_lem :
    (dev blockno : ℕ) (c : Bcache) (xs : List ℕ)
    → IsCache xs c
    → bget dev blockno c
      ≡ got dev blockno c
          (first_of (λ b. holds dev blockno (c.buf b)) xs)
          (last_of (λ b. may_recycle (c.buf b)) xs)
unfolding bget
bget_lem dev blockno c xs k =
    let found =
      find_along_next c (λ b. holds dev blockno (c.buf b)) list_head rounds xs k.ring.linked
        k.ring.no_head (omega (arith, k.size)) in
    let unused = find_along_ring c (λ b. may_recycle (c.buf b)) xs k in
    ap
      (λ o.
        got dev blockno c o
          (find_along c.prev (λ b. may_recycle (c.buf b)) rounds (c.prev list_head)))
      found
    ∙ ap (got dev blockno c _) unused

-- A buffer that is released the last time moves to the front of the ring, and the others keep their order.
pub brelse-IsCache :
    (c : Bcache) (b : ℕ) (xs ys : List ℕ)
    → IsCache (xs ++ (b ∷ ys)) c
    → IsCache
        (if ((c.buf b).refcnt + (u32 - 1)) % u32 == 0 then b ∷ (xs ++ ys) else xs ++ (b ∷ ys))
        (brelse b c)
unfolding brelse
brelse-IsCache c b xs ys k = elim (Bool-cases (((c.buf b).refcnt + (u32 - 1)) % u32 == 0)) [
  | inl e ↦ rw e (record {
    ring =
        push_front-IsRing (take_out b released) b (xs ++ ys)
          (take_out-IsRing released b xs ys k.ring) b_ne (Distinct-middle xs ys b k.ring.distinct);
    size = omega (arith, k.size, length-append xs (b ∷ ys), length-append xs ys);
  })
  | inr e ↦ rw e (record { ring = k.ring; size = k.size })
]
  where
    released : Bcache
    released = with_buf c b (record (c.buf b) { refcnt = ((c.buf b).refcnt + (u32 - 1)) % u32 })

    b_ne : list_head ≢ b
    b_ne e = (NotIn-append list_head xs (b ∷ ys) k.ring.no_head).1.0 (sym e)
