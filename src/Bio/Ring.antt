-- ===== src/Bio/Ring.antt =====
-- The links of the buffers as a circular list.
use northos.Prelude.{
  ℕ, ◌≡◌, ◌≢◌, refl, subst, sym, ◌∙◌, List, [], ◌∷◌, ◌++◌, update, update_self, update_ne,
  update_eq, arith,
}
use northos.Wm.WindowList.Chain.{
  NotIn, Distinct, NotIn-append, Distinct-split, Distinct-drop, append-NotIn,
}
use northos.Bio.{Bcache, list_head, push_front, take_out}

-- The places between `a` and `b`, linked both ways.
abbrev pub Linked : (ℕ → ℕ) → (ℕ → ℕ) → ℕ → List ℕ → ℕ → Type 0
Linked next prev a [] b = (next a ≡ b) × (prev b ≡ a)
Linked next prev a (x ∷ xs) b = (next a ≡ x) × (prev x ≡ a) × Linked next prev x xs b

-- The list from the head around to the head.
pub record IsRing (xs : List ℕ) (next prev : ℕ → ℕ) : Type 0 where
  pub linked : Linked next prev list_head xs list_head
  pub distinct : Distinct xs
  pub no_head : NotIn list_head xs

Linked-split :
    (next prev : ℕ → ℕ) (a b y : ℕ) (xs ys : List ℕ)
    → Linked next prev a (xs ++ (y ∷ ys)) b
    → Linked next prev a xs y × Linked next prev y ys b
Linked-split next prev a b y [] ys l = ((l.0, l.1), l.2)
Linked-split next prev a b y (x ∷ xs) ys l =
    let (left, right) = Linked-split next prev x b y xs ys l.2 in ((l.0, l.1, left), right)

-- A store to the link of a place that is not there keeps the list.
Linked-next :
    (next prev : ℕ → ℕ) (k v a b : ℕ) (xs : List ℕ)
    → NotIn k (a ∷ xs)
    → Linked next prev a xs b
    → Linked (update next k v) prev a xs b
Linked-next next prev k v a b [] out l = (ground (arith, l, out), l.1)
Linked-next next prev k v a b (x ∷ xs) out l =
    (ground (arith, l.0, out.0), l.1, Linked-next next prev k v x b xs out.1 l.2)

Linked-prev :
    (next prev : ℕ → ℕ) (k v a b : ℕ) (xs : List ℕ)
    → b ≢ k
    → NotIn k xs
    → Linked next prev a xs b
    → Linked next (update prev k v) a xs b
Linked-prev next prev k v a b [] ne out l = (l.0, ground (arith, l.1, ne))
Linked-prev next prev k v a b (x ∷ xs) ne out l =
    (l.0, ground (arith, l.1, out.0), Linked-prev next prev k v x b xs ne out.1 l.2)

-- The place before the end is on the list, and so is the place after the start.
prev-ne :
    (next prev : ℕ → ℕ) (k a b : ℕ) (xs : List ℕ)
    → Linked next prev a xs b
    → NotIn k (a ∷ xs)
    → prev b ≢ k
prev-ne next prev k a b [] l out e = out.0 (sym l.1 ∙ e)
prev-ne next prev k a b (x ∷ xs) l out e = prev-ne next prev k x b xs l.2 out.1 e

next-ne :
    (next prev : ℕ → ℕ) (k a b : ℕ) (xs : List ℕ)
    → Linked next prev a xs b
    → NotIn k xs
    → b ≢ k
    → next a ≢ k
next-ne next prev k a b [] l out ne e = ne (sym l.0 ∙ e)
next-ne next prev k a b (x ∷ xs) l out ne e = out.0 (sym l.0 ∙ e)

-- Taking `b` out from between two parts links them.
Linked-close :
    (next prev : ℕ → ℕ) (a b z : ℕ) (xs ys : List ℕ)
    → Linked next prev a xs b
    → Linked next prev b ys z
    → Distinct (a ∷ xs)
    → Distinct ys
    → NotIn z (xs ++ ys)
    → NotIn a ys
    → Distinct (xs ++ ys)
    → Linked (update next (prev b) (next b)) (update prev (next b) (prev b)) a (xs ++ ys) z
Linked-close next prev a b z [] [] l r da dy nz na d = (ground (arith, l, r), ground (arith, l, r))
Linked-close next prev a b z [] (y ∷ ys) l r da dy nz na d =
    let e : prev b ≡ a = l.1 in
    let g : next b ≡ y = r.0 in
    let kept_prev =
      Linked-prev next prev (next b) (prev b) y z ys (λ s. nz.0 (sym g ∙ sym s))
        (subst (λ k. NotIn k ys) (sym g) dy.0) r.2 in
    let kept =
      Linked-next next (update prev (next b) (prev b)) (prev b) (next b) y z ys
        (subst (λ k. NotIn k (y ∷ ys)) (sym e) na) kept_prev in
    (update_eq next (prev b) a (next b) e ∙ g, update_eq prev (next b) y (prev b) g ∙ e, kept)
Linked-close next prev a b z (x ∷ xs) ys l r da dy nz na d =
    let p_ne = prev-ne next prev a x b xs l.2 da.0 in
    let n_ne = next-ne next prev x b z ys r (NotIn-append x xs ys d.0).1 (λ s. nz.0 (sym s)) in
    (
      update_ne next (prev b) a _ p_ne ∙ l.0,
      update_ne prev (next b) x _ n_ne ∙ l.1,
      Linked-close next prev x b z xs ys l.2 r da.1 dy nz.1 (NotIn-append x xs ys d.0).1 d.1,
    )

module _ (c : Bcache) (b : ℕ) where
  -- A buffer that is not on the list is put at its front.
  pub push_front-IsRing :
      (xs : List ℕ)
      → IsRing xs c.next c.prev
      → list_head ≢ b
      → NotIn b xs
      → IsRing (b ∷ xs) (push_front b c).next (push_front b c).prev
  unfolding push_front
  push_front-IsRing [] r ne out = record {
    linked = (
      refl,
      ground (arith, r.linked, ne),
      (ground (arith, r.linked, ne), ground (arith, r.linked, ne)),
    );
    distinct = (out, r.distinct);
    no_head = ((λ e. ne (sym e)), r.no_head);
  }
  push_front-IsRing (x ∷ xs) r ne out =
      let first : update c.next b (c.next list_head) list_head ≡ x =
        ground (arith, r.linked.0, ne) in
      let front = update c.next b (c.next list_head) list_head in
      let kept1 = Linked-prev c.next c.prev b list_head x list_head xs ne out.1 r.linked.2 in
      let kept2 =
        Linked-prev c.next (update c.prev b list_head) front b x list_head xs
          (λ e. r.no_head.0 (sym first ∙ sym e)) (subst (λ k. NotIn k xs) (sym first) r.distinct.0)
          kept1 in
      let kept3 =
        Linked-next c.next (update (update c.prev b list_head) front b) b (c.next list_head) x
          list_head xs out kept2 in
      let kept4 =
        Linked-next (update c.next b (c.next list_head))
          (update (update c.prev b list_head) front b) list_head b x list_head xs r.no_head kept3 in
      record {
        linked = (
          refl,
          update_ne (update c.prev b list_head) front b b (λ e. out.0 (sym first ∙ e))
              ∙ update_self c.prev b list_head,
          (
            update_ne (update c.next b (c.next list_head)) list_head b b ne
                ∙ (update_self c.next b (c.next list_head) ∙ r.linked.0),
            update_eq (update c.prev b list_head) front x b first,
            kept4,
          ),
        );
        distinct = (out, r.distinct);
        no_head = ((λ e. ne (sym e)), r.no_head);
      }

  pub take_out-IsRing :
      (xs ys : List ℕ)
      → IsRing (xs ++ (b ∷ ys)) c.next c.prev
      → IsRing (xs ++ ys) (take_out b c).next (take_out b c).prev
  unfolding take_out
  take_out-IsRing xs ys r =
      let (left, right) = Linked-split c.next c.prev list_head list_head b xs ys r.linked in
      let (h1, h2) = NotIn-append list_head xs (b ∷ ys) r.no_head in
      let (d1, d2, _) = Distinct-split xs (b ∷ ys) r.distinct in
      let no_head = append-NotIn list_head xs ys h1 h2.1 in
      let b_ne : c.next b ≢ b =
        next-ne c.next c.prev b b list_head ys right d2.0 (λ e. h2.0 (sym e)) in
      record {
        linked = rw (update_ne c.prev (c.next b) b (c.prev b) b_ne) (
            Linked-close c.next c.prev list_head b list_head xs ys left right (h1, d1) d2.1 no_head
              h2.1 (Distinct-drop xs ys b r.distinct));
        distinct = Distinct-drop xs ys b r.distinct;
        no_head = no_head;
      }
