-- ===== src/PageAllocator/FreeList.antt =====
-- The free list of kernel/kalloc.c as a list of pages.
use northos.Prelude.{
  ℕ, ◌<◌, ◌≡◌, refl, sym, subst, ap, ◌≢◌, Bool, true, false, Bool-cases, inl, inr, List, [], ◌∷◌,
  Option, none, some, ◌==◌, update, update_self, update_ne, arith,
}
use northos.PageAllocator.{Kmem, is_bad, kfree, kalloc}

-- The links lead from p through the pages to the null pointer.
abbrev pub Linked : (ℕ → ℕ) → ℕ → List ℕ → Type 0
Linked next p [] = p ≡ 0
Linked next p (x ∷ xs) = (p ≡ x) × (0 < x) × Linked next (next x) xs

abbrev pub NotFree : ℕ → List ℕ → Type 0
NotFree v [] = Unit {0}
NotFree v (x ∷ xs) = (v ≢ x) × NotFree v xs

abbrev pub Different : List ℕ → Type 0
Different [] = Unit {0}
Different (x ∷ xs) = NotFree x xs × Different xs

-- The free pages, the one freed last first.
pub record Free (k : Kmem) (xs : List ℕ) : Type 0 where
  pub linked : Linked k.next k.freelist xs
  pub different : Different xs
  pub bottom_up : 0 < k.bottom

Linked-update :
    (next : ℕ → ℕ) (p v q : ℕ) (xs : List ℕ)
    → NotFree v xs
    → Linked next p xs
    → Linked (update next v q) p xs
Linked-update next p v q [] n h = h
Linked-update next p v q (x ∷ xs) n (a, b, c) =
    (a, b, rw (update_ne next v x q n.0) (Linked-update next (next x) v q xs n.1 c))

-- What becomes of the free pages xs when v is freed: a panic, or v before them.
abbrev pub Freed : Bool → ℕ → List ℕ → Option Kmem → Type 0
Freed bad v xs none = bad ≡ true
Freed bad v xs (some k) = (bad ≡ false) × Free k (v ∷ xs)

-- What `kalloc` makes of the free pages: it returns 0 where there are none, and otherwise takes the
-- one freed last, which is not among those left.
abbrev pub Allocated : List ℕ → Kmem × ℕ → Type 0
Allocated [] (k, p) = (p ≡ 0) × Free k []
Allocated (x ∷ xs) (k, p) = (p ≡ x) × NotFree p xs × Free k xs

-- On a free list of different pages `kfree` of a page that is not on it panics just where its test
-- says so, and otherwise puts the page before the free ones.
pub kfree-Freed :
    (k : Kmem) (v : ℕ) (xs : List ℕ)
    → Free k xs
    → NotFree v xs
    → Freed (is_bad k v) v xs (kfree k v)
unfolding kfree
kfree-Freed k v xs f n = elim (Bool-cases (is_bad k v)) [
  | inl bad ↦ rw bad refl
  | inr fine ↦
      let up = f.bottom_up in
      let k' : Kmem = record k { next = update k.next v k.freelist; freelist = v } in
      let free : Free k' (v ∷ xs) = record {
        linked = (
          refl,
          ground arith,
          rw (update_self k.next v k.freelist)
              (Linked-update k.next k.freelist v k.freelist xs n f.linked),
        );
        different = (n, f.different);
        bottom_up = f.bottom_up;
      } in
      rw fine (refl, free)
]

-- On a free list of different pages `kalloc` returns 0 where there is none, and otherwise the page
-- freed last, which is not among the pages left on the list.
pub kalloc-Allocated : (k : Kmem) (xs : List ℕ) → Free k xs → Allocated xs (kalloc k)
unfolding kalloc
kalloc-Allocated k [] f =
    let bare : (k.freelist == 0) ≡ true = rw f.linked refl in rw bare (refl, f)
kalloc-Allocated k (x ∷ xs) f =
    let (at, b, rest) = f.linked in
    let some_page : (k.freelist == 0) ≡ false = ground arith in
    let next_at : k.next k.freelist ≡ k.next x = ap k.next at in
    let left : Kmem = record k { freelist = k.next k.freelist } in
    let free : Free left xs = record {
      linked = subst (λ q. Linked k.next q xs) (sym next_at) rest;
      different = f.different.1;
      bottom_up = f.bottom_up;
    } in
    rw some_page (at, subst (λ q. NotFree q xs) (sym at) f.different.0, free)
