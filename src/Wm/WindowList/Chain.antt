-- ===== src/Wm/WindowList/Chain.antt =====
-- Doubly linked chains of windows: how a store to a link changes them.
use northos.Prelude.{
  ℕ, ◌≡◌, refl, ◌≢◌, ◌∙◌, sym, List, [], ◌∷◌, ◌++◌, none, some, update, update_self, update_ne,
  arith, false,
}
use northos.Wm.WindowList.{Index, is, store}

-- The index of the first window, or else q; of the last, or else p.
abbrev pub first : List ℕ → Index → Index
first [] q = q
first (x ∷ xs) q = some x

abbrev pub last : Index → List ℕ → Index
last p [] = p
last p (x ∷ xs) = last (some x) xs

-- The windows `xs` are linked in this order, after p and before q.
abbrev pub Chain : (ℕ → Index) → (ℕ → Index) → Index → List ℕ → Index → Type 0
Chain next prev p [] q = Unit {0}
Chain next prev p (x ∷ xs) q = (prev x ≡ p) × (next x ≡ first xs q) × Chain next prev (some x) xs q

abbrev pub NotIn : ℕ → List ℕ → Type 0
NotIn k [] = Unit {0}
NotIn k (x ∷ xs) = (x ≢ k) × NotIn k xs

-- No window of the one list is in the other.
abbrev pub Apart : List ℕ → List ℕ → Type 0
Apart [] ys = Unit {0}
Apart (x ∷ xs) ys = NotIn x ys × Apart xs ys

abbrev pub Distinct : List ℕ → Type 0
Distinct [] = Unit {0}
Distinct (x ∷ xs) = NotIn x xs × Distinct xs

pub NotIn-append : (k : ℕ) (xs ys : List ℕ) → NotIn k (xs ++ ys) → NotIn k xs × NotIn k ys
NotIn-append k [] ys h = (tt, h)
NotIn-append k (x ∷ xs) ys h = let (a, b) = NotIn-append k xs ys h.1 in ((h.0, a), b)

pub append-NotIn : (k : ℕ) (xs ys : List ℕ) → NotIn k xs → NotIn k ys → NotIn k (xs ++ ys)
append-NotIn k [] ys g h = h
append-NotIn k (x ∷ xs) ys g h = (g.0, append-NotIn k xs ys g.1 h)

pub Distinct-split :
    (xs ys : List ℕ) → Distinct (xs ++ ys) → Distinct xs × Distinct ys × Apart xs ys
Distinct-split [] ys d = (tt, d, tt)
Distinct-split (x ∷ xs) ys d =
    let (a, b, c) = Distinct-split xs ys d.1 in
    let (e, f) = NotIn-append x xs ys d.0 in ((e, a), b, (f, c))

pub Distinct-join : (xs ys : List ℕ) → Distinct xs → Distinct ys → Apart xs ys → Distinct (xs ++ ys)
Distinct-join [] ys a b c = b
Distinct-join (x ∷ xs) ys a b c = (append-NotIn x xs ys a.0 c.0, Distinct-join xs ys a.1 b c.1)

first-append : (xs ys : List ℕ) (q : Index) → first (xs ++ ys) q ≡ first xs (first ys q)
first-append [] ys q = refl
first-append (x ∷ xs) ys q = refl

pub last-append : (p : Index) (xs ys : List ℕ) → last p (xs ++ ys) ≡ last (last p xs) ys
last-append p [] ys = refl
last-append p (x ∷ xs) ys = last-append (some x) xs ys

Apart-head : (xs ys : List ℕ) (y : ℕ) → Apart xs (y ∷ ys) → NotIn y xs
Apart-head [] ys y a = tt
Apart-head (x ∷ xs) ys y a = ((λ e. a.0.0 (sym e)), Apart-head xs ys y a.1)

-- A store at the last window's link misses one that is not in the list.
store-last_ne :
    (f : ℕ → Index) (k y : ℕ) (ys : List ℕ) (v : Index)
    → NotIn k (y ∷ ys)
    → store f (last (some y) ys) v k ≡ f k
store-last_ne f k y [] v n = update_ne f y k v n.0
store-last_ne f k y (z ∷ ys) v n = store-last_ne f k z ys v n.1

pub Apart-tail : (xs ys : List ℕ) (y : ℕ) → Apart xs (y ∷ ys) → Apart xs ys
Apart-tail [] ys y a = tt
Apart-tail (x ∷ xs) ys y a = (a.0.1, Apart-tail xs ys y a.1)

-- The middle window is in neither of the parts around it.
pub Distinct-middle : (xs ys : List ℕ) (w : ℕ) → Distinct (xs ++ w ∷ ys) → NotIn w (xs ++ ys)
Distinct-middle xs ys w d =
    let (a, b, c) = Distinct-split xs (w ∷ ys) d in append-NotIn w xs ys (Apart-head xs ys w c) b.0

pub Distinct-drop : (xs ys : List ℕ) (w : ℕ) → Distinct (xs ++ w ∷ ys) → Distinct (xs ++ ys)
Distinct-drop xs ys w d =
    let (a, b, c) = Distinct-split xs (w ∷ ys) d in Distinct-join xs ys a b.1 (Apart-tail xs ys w c)

pub Distinct-snoc : (xs : List ℕ) (w : ℕ) → NotIn w xs → Distinct xs → Distinct (xs ++ w ∷ [])
Distinct-snoc [] w n d = (tt, tt)
Distinct-snoc (x ∷ xs) w n d =
    (append-NotIn x xs (w ∷ []) d.0 ((λ e. n.0 (sym e)), tt), Distinct-snoc xs w n.1 d.1)

pub last-missed :
    (f : ℕ → Index) (k : ℕ) (xs : List ℕ) (v : Index)
    → NotIn k xs
    → store f (last none xs) v k ≡ f k
last-missed f k [] v n = refl
last-missed f k (x ∷ xs) v n = store-last_ne f k x xs v n

-- The last of a list is none of the windows that are not in it.
pub last-ne : (k y : ℕ) (ys : List ℕ) → NotIn k (y ∷ ys) → is (some k) (last (some y) ys) ≡ false
last-ne k y [] n = let h : y ≢ k = n.0 in ground arith
last-ne k y (z ∷ ys) n = last-ne k z ys n.1

module _ (next prev : ℕ → Index) where
  pub Chain-split :
      (p : Index) (xs ys : List ℕ) (q : Index)
      → Chain next prev p (xs ++ ys) q
      → Chain next prev p xs (first ys q) × Chain next prev (last p xs) ys q
  Chain-split p [] ys q c = (tt, c)
  Chain-split p (x ∷ xs) ys q c =
      let (a, b) = Chain-split (some x) xs ys q c.2 in ((c.0, c.1 ∙ first-append xs ys q, a), b)

  pub Chain-join :
      (p : Index) (xs ys : List ℕ) (q : Index)
      → Chain next prev p xs (first ys q)
      → Chain next prev (last p xs) ys q
      → Chain next prev p (xs ++ ys) q
  Chain-join p [] ys q a b = b
  Chain-join p (x ∷ xs) ys q a b =
      (a.0, a.1 ∙ sym (first-append xs ys q), Chain-join (some x) xs ys q a.2 b)

  -- Stores at a window that is not in the chain.
  pub Chain-next_ne :
      (p : Index) (xs : List ℕ) (q : Index) (k : ℕ) (v : Index)
      → NotIn k xs
      → Chain next prev p xs q
      → Chain (update next k v) prev p xs q
  Chain-next_ne p [] q k v n c = tt
  Chain-next_ne p (x ∷ xs) q k v n c =
      (c.0, update_ne next k x v (λ e. n.0 (sym e)) ∙ c.1, Chain-next_ne (some x) xs q k v n.1 c.2)

  pub Chain-prev_ne :
      (p : Index) (xs : List ℕ) (q : Index) (k : ℕ) (v : Index)
      → NotIn k xs
      → Chain next prev p xs q
      → Chain next (update prev k v) p xs q
  Chain-prev_ne p [] q k v n c = tt
  Chain-prev_ne p (x ∷ xs) q k v n c =
      (update_ne prev k x v (λ e. n.0 (sym e)) ∙ c.0, c.1, Chain-prev_ne (some x) xs q k v n.1 c.2)

  Chain-store-last_ne :
      (p : Index) (xs : List ℕ) (q : Index) (y : ℕ) (ys : List ℕ) (v : Index)
      → Apart (y ∷ ys) xs
      → Chain next prev p xs q
      → Chain (store next (last (some y) ys) v) prev p xs q
  Chain-store-last_ne p xs q y [] v n c = Chain-next_ne p xs q y v n.0 c
  Chain-store-last_ne p xs q y (z ∷ ys) v n c = Chain-store-last_ne p xs q z ys v n.1 c

  -- Redirecting the last window's `next`, and the first one's `prev`.
  Chain-store-last :
      (p : Index) (x : ℕ) (xs : List ℕ) (q q' : Index)
      → Distinct (x ∷ xs)
      → Chain next prev p (x ∷ xs) q
      → Chain (store next (last (some x) xs) q') prev p (x ∷ xs) q'
  Chain-store-last p x [] q q' d c = (c.0, update_self next x q', tt)
  Chain-store-last p x (y ∷ xs) q q' d c =
      (c.0, store-last_ne next x y xs q' d.0 ∙ c.1, Chain-store-last (some x) y xs q q' d.1 c.2)

  pub redirect_last :
      (xs : List ℕ) (q q' : Index)
      → Distinct xs
      → Chain next prev none xs q
      → Chain (store next (last none xs) q') prev none xs q'
  redirect_last [] q q' d c = tt
  redirect_last (x ∷ xs) q q' d c = Chain-store-last none x xs q q' d c

  pub redirect_first :
      (p p' : Index) (ys : List ℕ) (q : Index)
      → Distinct ys
      → Chain next prev p ys q
      → Chain next (store prev (first ys none) p') p' ys q
  redirect_first p p' [] q d c = tt
  redirect_first p p' (y ∷ ys) q d c =
      (update_self prev y p', c.1, Chain-prev_ne (some y) ys q y p' d.0 c.2)

  pub last_elsewhere :
      (p : Index) (xs ys : List ℕ) (q v : Index)
      → Apart xs ys
      → Chain next prev p ys q
      → Chain (store next (last none xs) v) prev p ys q
  last_elsewhere p [] ys q v a c = c
  last_elsewhere p (x ∷ xs) ys q v a c = Chain-store-last_ne p ys q x xs v a c

  pub first_elsewhere :
      (p : Index) (xs ys : List ℕ) (q v : Index)
      → Apart xs ys
      → Chain next prev p xs q
      → Chain next (store prev (first ys none) v) p xs q
  first_elsewhere p xs [] q v a c = c
  first_elsewhere p xs (y ∷ ys) q v a c = Chain-prev_ne p xs q y v (Apart-head xs ys y a) c
