-- ===== src/Wm/WindowList/Lifecycle.antt =====
-- Windows come and go: `createWindow`, `closeWindow` and the walk of `getWindowCount` on the list.
use northos.Prelude.{
  ℕ, zero, suc, ◌+◌, ◌<◌, ◌≡◌, refl, ◌≢◌, ◌∙◌, ap, subst, ◌⊎◌, inl, inr, true, false, Bool-cases,
  List, [], ◌∷◌, ◌++◌, length, none, some, if◌then◌else◌, update, update_self, arith, ℕ_discrete,
}
use northos.Wm.WindowList.{
  Index, Links, is, is_free, find_from, find_next_available_window_id, max_window_cnt,
  remove_from_window_list, free_slot, link_new, close_links, count_from, get_window_count,
}
use northos.Wm.WindowList.Chain.{
  first, last, Chain, NotIn, Apart, Distinct-split, Distinct-middle, Chain-next_ne, Chain-prev_ne,
  last-ne,
}
use northos.Wm.WindowList.Order.{
  IsOrder, neighbours, add_to_window_list-IsOrder_at, remove_from_window_list-IsOrder, new_top,
}

-- Either a window is not in the list, or the list can be parted at it.
pub NotIn-or-split :
    (k : ℕ) (xs : List ℕ) → NotIn k xs ⊎ ((ls : List ℕ) × (bs : List ℕ) × (xs ≡ ls ++ k ∷ bs))
NotIn-or-split k [] = inl tt
NotIn-or-split k (x ∷ xs) = elim (ℕ_discrete x k) [
  | yes e ↦ inr ([], xs, ap (λ y. y ∷ xs) e)
  | no ne ↦ elim (NotIn-or-split k xs) [
    | inl n ↦ inl (ne, n)
    | inr (ls, bs, e) ↦ inr (x ∷ ls, bs, ap (λ q. x ∷ q) e)
  ]
]

-- A window in the list is linked to another one or to none, so its slot is not free.
last-ne-Apart : (ls bs : List ℕ) (w : ℕ) → Apart ls (w ∷ bs) → is (last none ls) (some w) ≡ false
last-ne-Apart [] bs w a = refl
last-ne-Apart (x ∷ []) bs w a = let ne : w ≢ x = a.0.0 in ground arith
last-ne-Apart (x ∷ y ∷ ls) bs w a = last-ne-Apart (y ∷ ls) bs w a.1

free-NotIn : (l : Links) (xs : List ℕ) (w : ℕ) → IsOrder l xs → is_free l w ≡ true → NotIn w xs
free-NotIn l xs w v free = elim (NotIn-or-split w xs) [
  | inl n ↦ n
  | inr (ls, bs, e) ↦
      let v' : IsOrder l (ls ++ w ∷ bs) = subst (IsOrder l) e v in
      let (p, n) = neighbours l ls bs w v' in
      let (a, b, apart) = Distinct-split ls (w ∷ bs) v'.distinct in
      let taken : is (l.prev w) (some w) ≡ false = rw p (last-ne-Apart ls bs w apart) in
      absurd (ground arith)
]

find_from-free :
    (r i : ℕ) (l : Links) (w : ℕ) → find_from r i l ≡ some w → (is_free l w ≡ true) × (w < i + r)
unfolding find_from
find_from-free zero i l w e = absurd (cc)
find_from-free (suc r) i l w e = elim (Bool-cases (is_free l i)) [
  | inl free ↦ let same : w ≡ i = ground arith in (rw same free, omega arith)
  | inr taken ↦ let (a, b) = find_from-free r (i + 1) l w (rw taken at e) in (a, omega arith)
]

-- The list part of `createWindow`: the slot that `findNextAvailableWindowId` finds is a window
-- number that is in use by no window, and the new window goes on top of the others.
pub link_new-IsOrder :
    (l : Links) (xs : List ℕ) {w : ℕ}
    → IsOrder l xs
    → find_next_available_window_id l ≡ some w
    → NotIn w xs × (w < max_window_cnt) × IsOrder (link_new l w) (xs ++ w ∷ [])
unfolding find_next_available_window_id link_new
link_new-IsOrder l xs {w} v e =
    let (free, below) = find_from-free max_window_cnt 0 l w e in
    let n = free-NotIn l xs w v free in
    (
      n,
      omega arith,
      add_to_window_list-IsOrder_at (record l { head = if is l.head none then some w else l.head })
          xs w n v.chain v.top v.distinct (new_head xs v.bottom),
    )
  where
    new_head :
        (ys : List ℕ)
        → l.head ≡ first ys none
        → (if is l.head none then some w else l.head) ≡ first (ys ++ w ∷ []) none
    new_head [] h = rw h
    new_head (y ∷ ys) h = rw h

is_free-free_slot : (l : Links) (w : ℕ) → is_free (free_slot l w) w ≡ true
unfolding free_slot
is_free-free_slot l w = ground arith

-- The list part of `closeWindow`, for a window of the list that is not at the bottom, takes it
-- out, leaves the order of the others, and frees its slot.
pub close_links-IsOrder :
    (l : Links) (x : ℕ) (xs ys : List ℕ) (w : ℕ)
    → IsOrder l ((x ∷ xs) ++ w ∷ ys)
    → IsOrder (close_links l w) ((x ∷ xs) ++ ys) × (is_free (close_links l w) w ≡ true)
unfolding close_links free_slot
close_links-IsOrder l x xs ys w v =
    let r = remove_from_window_list-IsOrder l x xs ys w v in
    let gone = Distinct-middle (x ∷ xs) ys w v.distinct in
    let l' = remove_from_window_list l w in
    let not_top : is (some w) l'.tail ≡ false = rw r.top (last-ne w x (xs ++ ys) gone) in
    rw not_top (
      record {
        chain =
            Chain-prev_ne (update l'.next w (some w)) l'.prev none (x ∷ xs ++ ys) none w (some w)
              gone (Chain-next_ne l'.next l'.prev none (x ∷ xs ++ ys) none w (some w) gone r.chain);
        bottom = r.bottom;
        top = r.top;
        distinct = r.distinct;
      },
      is_free-free_slot l' w,
    )

-- How many windows of a list are not the desktop.
pub others : Index → List ℕ → ℕ
others desktop [] = 0
others desktop (w ∷ ws) = if is (some w) desktop then others desktop ws else others desktop ws + 1

count_from-others :
    (r : ℕ) (p desktop : Index) (xs : List ℕ) (l : Links)
    → length xs < r
    → Chain l.next l.prev p xs none
    → count_from r (first xs none) desktop l ≡ some (others desktop xs)
unfolding count_from others
count_from-others zero p desktop xs l h c = absurd (omega arith)
count_from-others (suc r) p desktop [] l h c = refl
count_from-others (suc r) p desktop (x ∷ xs) l h c =
    let rest = count_from-others r (some x) desktop xs l (omega arith) c.2 in rw (c.1, rest) refl

-- In a linked list, one round more than there are windows is enough for the walk of
-- `getWindowCount` from the head to end, with the number of windows in the list that are not the
-- desktop.
pub get_window_count-others :
    (rounds : ℕ) (desktop : Index) (xs : List ℕ) (l : Links)
    → IsOrder l xs
    → length xs < rounds
    → get_window_count rounds desktop l ≡ some (others desktop xs)
unfolding get_window_count
get_window_count-others rounds desktop xs l v h =
    ap (λ p. count_from rounds p desktop l) v.bottom
    ∙ count_from-others rounds none desktop xs l h v.chain

count_from-loop :
    (r w : ℕ) (desktop : Index) (l : Links)
    → l.next w ≡ some w
    → count_from r (some w) desktop l ≡ none
unfolding count_from
count_from-loop zero w desktop l e = refl
count_from-loop (suc r) w desktop l e =
    let rest : count_from r (l.next w) desktop l ≡ none =
      ap (λ p. count_from r p desktop l) e ∙ count_from-loop r w desktop l e in
    rw rest refl

-- The list part of `closeWindow`, for the window at the bottom of the list, leaves
-- `windowlisthead` at the freed slot, which is linked to itself: after it no number of rounds is
-- enough for the walk of `getWindowCount`, whatever other windows there are.
pub close_bottom_hangs :
    (l : Links) (w : ℕ) (ws : List ℕ) (desktop : Index) (rounds : ℕ)
    → IsOrder l (w ∷ ws)
    → get_window_count rounds desktop (close_links l w) ≡ none
unfolding get_window_count close_links free_slot remove_from_window_list
close_bottom_hangs l w ws desktop rounds v =
    let l' = remove_from_window_list l w in
    let missed : is (some w) l'.tail ≡ false =
      rw (new_top l [] ws w v) (missed_by ws v.distinct.0) in
    let freed = free_slot l' w in
    rw missed (
      ap (λ p. count_from rounds p desktop freed) v.bottom
      ∙ count_from-loop rounds w desktop freed (update_self l'.next w (some w)))
  where
    missed_by : (zs : List ℕ) → NotIn w zs → is (some w) (last none zs) ≡ false
    missed_by [] n = refl
    missed_by (z ∷ zs) n = last-ne w z zs n
