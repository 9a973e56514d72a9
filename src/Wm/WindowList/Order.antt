-- ===== src/Wm/WindowList/Order.antt =====
-- The window list as the order of the windows on the screen.
use northos.Prelude.{
  ℕ, ◌≡◌, refl, ◌≢◌, ◌∙◌, sym, ap, subst, true, false, List, [], ◌∷◌, ◌++◌, none, some,
  if◌then◌else◌, update, update_self, arith,
}
use mathlib.Core.List.{append-nil, append_assoc}
use northos.Wm.WindowList.{
  Index, Links, is, store, init_links, add_to_window_list, remove_from_window_list, detach,
  focus_window,
}
use northos.Wm.WindowList.Chain.{
  first, last, Chain, NotIn, Distinct, Distinct-split, Apart-tail, Distinct-middle, Distinct-drop,
  Distinct-snoc, last-missed, last-ne, last-append, Chain-split, Chain-join, Chain-next_ne,
  Chain-prev_ne, redirect_last, redirect_first, last_elsewhere, first_elsewhere,
}

-- The links are those of the windows `xs`, from the bottom to the top.
pub record IsOrder (l : Links) (xs : List ℕ) : Type 0 where
  pub chain : Chain l.next l.prev none xs none
  pub bottom : l.head ≡ first xs none
  pub top : l.tail ≡ last none xs
  pub distinct : Distinct xs

pub init_links-IsOrder : IsOrder init_links []
unfolding init_links
init_links-IsOrder = record { chain = tt; bottom = refl; top = refl; distinct = tt }

is_comm : (a b : Index) → is a b ≡ is b a
is_comm none none = refl
is_comm none (some b) = refl
is_comm (some a) none = refl
is_comm (some a) (some b) = ground arith

-- Taking the window w out of a chain.
unlink :
    (next prev : ℕ → Index) (xs ys : List ℕ) (w : ℕ)
    → Distinct (xs ++ w ∷ ys)
    → Chain next prev none (xs ++ w ∷ ys) none
    → Chain
        (store next (last none xs) (first ys none))
        (store prev (first ys none) (last none xs))
        none
        (xs ++ ys)
        none
unlink next prev xs ys w d c =
    let (a, b) = Chain-split next prev none xs (w ∷ ys) none c in
    let (dx, dw, apart) = Distinct-split xs (w ∷ ys) d in
    Chain-join _ _ none xs ys none
      (first_elsewhere _ prev none xs ys (first ys none) (last none xs) (Apart-tail xs ys w apart)
        (redirect_last next prev xs (some w) (first ys none) dx a))
      (last_elsewhere next _ (last none xs) xs ys none (first ys none) (Apart-tail xs ys w apart)
        (redirect_first next prev (some w) (last none xs) ys none dw.1 b.2))

-- The neighbours of a window.
pub neighbours :
    (l : Links) (xs ys : List ℕ) (w : ℕ)
    → IsOrder l (xs ++ w ∷ ys)
    → (l.prev w ≡ last none xs) × (l.next w ≡ first ys none)
neighbours l xs ys w v =
    let (_, b) = Chain-split l.next l.prev none xs (w ∷ ys) none v.chain in (b.0, b.1)

-- A window that is in no list goes on top.
pub add_to_window_list-IsOrder_at :
    (l : Links) (xs : List ℕ) (idx : ℕ)
    → NotIn idx xs
    → Chain l.next l.prev none xs none
    → l.tail ≡ last none xs
    → Distinct xs
    → l.head ≡ first (xs ++ idx ∷ []) none
    → IsOrder (add_to_window_list l idx) (xs ++ idx ∷ [])
unfolding add_to_window_list
add_to_window_list-IsOrder_at l xs idx n c t d h = record {
  chain =
      Chain-join _ _ none xs (idx ∷ []) none
        (subst
          (λ top.
            Chain (store (update l.next idx none) top (some idx)) (update l.prev idx l.tail) none xs
              (some idx))
          (sym t)
          (redirect_last (update l.next idx none) (update l.prev idx l.tail) xs none (some idx) d (
            Chain-prev_ne (update l.next idx none) l.prev none xs none idx l.tail n
              (Chain-next_ne l.next l.prev none xs none idx none n c))))
        (
          update_self l.prev idx l.tail ∙ t,
          ap (λ top. store (update l.next idx none) top (some idx) idx) t
              ∙ last-missed (update l.next idx none) idx xs (some idx) n
              ∙ update_self l.next idx none,
          tt,
        );
  bottom = h;
  top = sym (last-append none xs (idx ∷ []));
  distinct = Distinct-snoc xs idx n d;
}

unlinked :
    (l : Links) (xs ys : List ℕ) (w : ℕ)
    → IsOrder l (xs ++ w ∷ ys)
    → Chain
        (store l.next (l.prev w) (l.next w))
        (store l.prev (l.next w) (l.prev w))
        none
        (xs ++ ys)
        none
unlinked l xs ys w v =
    let (p, n) = neighbours l xs ys w v in
    subst (λ a. Chain (store l.next a (l.next w)) (store l.prev (l.next w) a) none (xs ++ ys) none)
      (sym p)
      (subst
        (λ b.
          Chain (store l.next (last none xs) b) (store l.prev b (last none xs)) none (xs ++ ys)
            none)
        (sym n) (unlink l.next l.prev xs ys w v.distinct v.chain))

-- The top after a removal.
pub new_top :
    (l : Links) (xs ys : List ℕ) (w : ℕ)
    → IsOrder l (xs ++ w ∷ ys)
    → (if is l.tail (some w) then l.prev w else l.tail) ≡ last none (xs ++ ys)
new_top l xs [] w v =
    let (p, n) = neighbours l xs [] w v in
    let on_top : is l.tail (some w) ≡ true =
      rw (v.top ∙ last-append none xs (w ∷ [])) (ground arith) in
    rw (on_top, append-nil xs) p
new_top l xs (z ∷ ys) w v =
    let (a, b, c) = Distinct-split xs (w ∷ z ∷ ys) v.distinct in
    let e = v.top ∙ last-append none xs (w ∷ z ∷ ys) in
    let below : is l.tail (some w) ≡ false =
      rw e (is_comm (last (some z) ys) (some w) ∙ last-ne w z ys b.0) in
    rw below (e ∙ sym (last-append none xs (z ∷ ys)))

still_first :
    (xs : List ℕ) (z : ℕ) (ys : List ℕ) (w : ℕ)
    → first (xs ++ z ∷ ys) none ≡ first ((xs ++ z ∷ ys) ++ w ∷ []) none
still_first [] z ys w = refl
still_first (x ∷ xs) z ys w = refl

-- Above at least one other window.
detach-IsOrder :
    (l : Links) (xs ys : List ℕ) (w z : ℕ)
    → IsOrder l (xs ++ w ∷ z ∷ ys)
    → IsOrder (detach l w) (xs ++ z ∷ ys)
unfolding detach
detach-IsOrder l [] ys w z v =
    let (p, n) = neighbours l [] (z ∷ ys) w v in
    let at_head : is (some w) l.head ≡ true = rw v.bottom (ground arith) in
    rw at_head (record {
      chain =
          subst (λ b. Chain l.next (store l.prev b none) none (z ∷ ys) none) (sym n)
            (unlink l.next l.prev [] (z ∷ ys) w v.distinct v.chain);
      bottom = n;
      top = v.top;
      distinct = v.distinct.1;
    })
detach-IsOrder l (x ∷ xs) ys w z v =
    let (p, n) = neighbours l (x ∷ xs) (z ∷ ys) w v in
    let apart : NotIn w (x ∷ xs ++ z ∷ ys) = Distinct-middle (x ∷ xs) (z ∷ ys) w v.distinct in
    let inside : is (some w) l.head ≡ false =
      rw v.bottom (let ne : x ≢ w = apart.0 in ground arith) in
    rw inside (record {
      chain = unlinked l (x ∷ xs) (z ∷ ys) w v;
      bottom = v.bottom;
      top =
          v.top ∙ last-append none (x ∷ xs) (w ∷ z ∷ ys) ∙ sym (last-append none (x ∷ xs) (z ∷ ys));
      distinct = Distinct-drop (x ∷ xs) (z ∷ ys) w v.distinct;
    })

-- `focusWindow` of a window in the list puts it on top and leaves the order of the others.
pub focus_window-IsOrder :
    (l : Links) (xs ys : List ℕ) (w : ℕ)
    → IsOrder l (xs ++ w ∷ ys)
    → IsOrder (focus_window l (some w)) (xs ++ (ys ++ w ∷ []))
unfolding focus_window
focus_window-IsOrder l xs [] w v =
    let on_top : is (some w) l.tail ≡ true =
      rw (v.top ∙ last-append none xs (w ∷ [])) (ground arith) in
    rw on_top v
focus_window-IsOrder l xs (z ∷ ys) w v =
    let (a, b, c) = Distinct-split xs (w ∷ z ∷ ys) v.distinct in
    let below : is (some w) l.tail ≡ false =
      rw (v.top ∙ last-append none xs (w ∷ z ∷ ys)) (last-ne w z ys b.0) in
    let d = detach-IsOrder l xs ys w z v in
    rw below (
      subst (IsOrder (add_to_window_list (detach l w) w)) (append_assoc xs (z ∷ ys) (w ∷ [])) (
        add_to_window_list-IsOrder_at (detach l w) (xs ++ z ∷ ys) w
          (Distinct-middle xs (z ∷ ys) w v.distinct) d.chain d.top d.distinct
          (d.bottom ∙ still_first xs z (ys) w)))

-- `removeFromWindowList` of a window that is not at the bottom takes it out and leaves the order of
-- the others.
pub remove_from_window_list-IsOrder :
    (l : Links) (x : ℕ) (xs ys : List ℕ) (w : ℕ)
    → IsOrder l ((x ∷ xs) ++ w ∷ ys)
    → IsOrder (remove_from_window_list l w) ((x ∷ xs) ++ ys)
unfolding remove_from_window_list
remove_from_window_list-IsOrder l x xs ys w v = record {
  chain = unlinked l (x ∷ xs) ys w v;
  bottom = v.bottom;
  top = new_top l (x ∷ xs) ys w v;
  distinct = Distinct-drop (x ∷ xs) ys w v.distinct;
}
