-- ===== src/Wm/WindowList.antt =====
-- The doubly linked list of windows in kernel/window_manager.c, from the bottom (`windowlisthead`)
-- to the top (`windowlisttail`): the fields `next` and `prev` of `windowlist`, and the functions
-- that change them. The C index -1 is `none`. A store at index -1, out of the array, changes
-- nothing here.
pub mod Chain
pub mod Order
pub mod Lifecycle
use northos.Prelude.{
  ℕ, zero, suc, ◌+◌, Bool, true, false, ◌&&◌, Option, none, some, ◌==◌, if◌then◌else◌, update,
}

-- MAX_WINDOW_CNT
abbrev pub max_window_cnt : ℕ
max_window_cnt = 50

abbrev pub Index : Type 0
Index = Option ℕ

pub record Links : Type 0 where
  pub next : ℕ → Index
  pub prev : ℕ → Index
  pub head : Index
  pub tail : Index

-- a == b on indices
abbrev pub is : Index → Index → Bool
is none none = true
is none (some b) = false
is (some a) none = false
is (some a) (some b) = a == b

-- f[k] = v
abbrev pub store : (ℕ → Index) → Index → Index → ℕ → Index
store f none v = f
store f (some k) v = update f k v

-- The links that `wmInit` sets up.
unfoldable pub init_links : Links
init_links = record { next = λ i. some i; prev = λ i. some i; head = none; tail = none }

-- A slot that is linked to itself is free.
abbrev pub is_free : Links → ℕ → Bool
is_free l i = is (l.prev i) (some i) && is (l.next i) (some i)

-- The loop of `findNextAvailableWindowId` from i on, with the rounds left first.
unfoldable pub find_from : ℕ → ℕ → Links → Index
find_from zero i l = none
find_from (suc r) i l = if is_free l i then some i else find_from r (i + 1) l

unfoldable pub find_next_available_window_id : Links → Index
find_next_available_window_id l = find_from max_window_cnt 0 l

unfoldable pub add_to_window_list : Links → ℕ → Links
add_to_window_list l idx = record l {
  prev = update l.prev idx l.tail;
  next = store (update l.next idx none) l.tail (some idx);
  tail = some idx;
}

unfoldable pub remove_from_window_list : Links → ℕ → Links
remove_from_window_list l idx = record l {
  tail = if is l.tail (some idx) then l.prev idx else l.tail;
  next = store l.next (l.prev idx) (l.next idx);
  prev = store l.prev (l.next idx) (l.prev idx);
}

-- `focusWindow` of a window that is not on top, before it is added again.
unfoldable pub detach : Links → ℕ → Links
detach l w =
    if is (some w) l.head
    then record l { prev = store l.prev (l.next w) none; head = l.next w }
    else record l {
      next = store l.next (l.prev w) (l.next w);
      prev = store l.prev (l.next w) (l.prev w);
    }

unfoldable pub focus_window : Links → Index → Links
unfolding detach add_to_window_list
focus_window l none = l
focus_window l (some w) = if is (some w) l.tail then l else add_to_window_list (detach l w) w

-- windowlist[w].prev = w; windowlist[w].next = w, as `closeWindow` frees a slot.
unfoldable pub free_slot : Links → ℕ → Links
free_slot l w = record l { prev = update l.prev w (some w); next = update l.next w (some w) }

-- for (p = windowlisthead; p != -1; p = windowlist[p].next) windowCount++, but for the desktop;
-- `none` means that the loop has not ended within the rounds given.
pub count_from : ℕ → Index → Index → Links → Option ℕ
count_from zero p desktop l = none
count_from (suc r) none desktop l = some 0
count_from (suc r) (some w) desktop l = elim (count_from r (l.next w) desktop l) [
  | none ↦ none
  | some n ↦ some (if is (some w) desktop then n else n + 1)
]

pub get_window_count : ℕ → Index → Links → Option ℕ
get_window_count rounds desktop l = count_from rounds l.head desktop l

-- `createWindow`, as far as it goes into the list: the slot found, the head where there is none yet.
unfoldable pub link_new : Links → ℕ → Links
unfolding add_to_window_list
link_new l w = add_to_window_list (record l { head = if is l.head none then some w else l.head }) w

-- `closeWindow`, as far as it changes the list.
unfoldable pub close_links : Links → ℕ → Links
unfolding remove_from_window_list free_slot focus_window
close_links l w =
    let freed = free_slot (remove_from_window_list l w) w in
    if is (some w) freed.tail then focus_window freed (freed.prev w) else freed
