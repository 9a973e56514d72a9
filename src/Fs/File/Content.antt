-- ===== src/Fs/File/Content.antt =====
-- The bytes of a file, up to its double-indirect blocks.
use northos.Prelude.{
  ℕ, zero, suc, ◌+◌, ◌-◌, ◌/◌, ◌%◌, ◌<◌, ◌≤◌, ◌≡◌, refl, ap, ◌∙◌, ◌⊎◌, ◌≢◌, inl, inr, false, arith,
  if◌then◌else◌, ◌==◌, List, [], ◌∷◌, ◌++◌, length, take, drop, update, update_ne, update_eq,
  ℕ_discrete, get_or,
}
use northos.Fs.Bitmap.{Disk, bsize}
use northos.Fs.File.{Inode, ndirect, nindirect, slice, overwrite}
use northos.Fs.File.Slots.{slot, slots, Owns, Extended}
use northos.Fs.File.Slots.Bmap.{place}

-- What is at byte i of the block in a slot; a slot with no block reads as zeros.
abbrev pub byte_in : Disk → ℕ → ℕ → ℕ
byte_in d c i = if c == 0 then 0 else d.bytes c i

abbrev pub content : Disk → Inode → ℕ → ℕ
content d ip k = byte_in d (slot d ip (place (k / bsize))) (k % bsize)

-- The bytes that a file can hold without its double-indirect blocks.
abbrev pub reach : ℕ
reach = 1069056

pub place-lt : (bn : ℕ) → bn < ndirect + nindirect → place bn < slots
place-lt bn h = ground arith

pub place-inj : (a b : ℕ) → place a ≡ place b → a ≡ b
place-inj a b e = ground arith

pub nonzero : (k : ℕ) → k ≢ 0 → (k == 0) ≡ false
nonzero k ne = ground arith

-- Blocks added to a file do not change its bytes.
pub content-Extended :
    (d : Disk) (ip : Inode) (d' : Disk) (ip' : Inode) (k : ℕ)
    → Owns d ip
    → Extended d ip d' ip'
    → k < reach
    → content d' ip' k ≡ content d ip k
content-Extended d ip d' ip' k o e h =
    let s = place (k / bsize) in
    let hs : s < slots = place-lt (k / bsize) (omega arith) in
    elim (ℕ_discrete (slot d ip s) 0) [
      | no n ↦
          let same = e.kept s hs n in
          rw (same, nonzero (slot d ip s) n) (e.bytes (slot d ip s) (k % bsize) (o.taken s hs n))
      | yes z ↦ elim (e.fresh s hs z) [
        | inl z' ↦ rw (z, z') refl
        | inr zeros ↦ rw (z, zeros (k % bsize)) (either (slot d' ip' s))
      ]
    ]
  where
    either : (c : ℕ) → ◌≡◌ {A = ℕ} (if c == 0 then 0 else 0) 0
    either c = ground arith

pub slice-get : (f : ℕ → ℕ) (i n j : ℕ) → j < n → get_or (slice f i n) j 0 ≡ f (i + j)
unfolding slice
slice-get f i zero j h = absurd (omega arith)
slice-get f i (suc n) zero h = ap f (omega arith)
slice-get f i (suc n) (suc j) h = slice-get f (i + 1) n j (omega arith) ∙ ap f (omega arith)

pub overwrite-outside :
    (f : ℕ → ℕ) (i : ℕ) (xs : List ℕ) (j : ℕ)
    → (j < i) ⊎ (i + length xs ≤ j)
    → overwrite f i xs j ≡ f j
unfolding overwrite
overwrite-outside f i [] j h = refl
overwrite-outside f i (x ∷ xs) j h =
    overwrite-outside (update f i x) (i + 1) xs j (ground arith) ∙ update_ne f i j x (ground arith)

pub overwrite-inside :
    (f : ℕ → ℕ) (i : ℕ) (xs : List ℕ) (j : ℕ)
    → j < length xs
    → overwrite f i xs (i + j) ≡ get_or xs j 0
unfolding overwrite
overwrite-inside f i [] j h = absurd (omega arith)
overwrite-inside f i (x ∷ xs) zero h =
    overwrite-outside (update f i x) (i + 1) xs (i + 0) (inl (omega arith))
    ∙ update_eq f i (i + 0) x (omega arith)
overwrite-inside f i (x ∷ xs) (suc j) h =
    ap (overwrite (update f i x) (i + 1) xs) (omega arith)
    ∙ overwrite-inside (update f i x) (i + 1) xs j (omega arith)

pub slice-add : (f : ℕ → ℕ) (i m n : ℕ) → slice f i (m + n) ≡ slice f i m ++ slice f (i + m) n
unfolding slice
slice-add f i zero n = same (0 + n) n i (i + 0) (omega arith) (omega arith)
  where
    same : (n n' i i' : ℕ) → n ≡ n' → i ≡ i' → slice f i n ≡ slice f i' n'
    same n n' i i' e e' = rw (e, e')
slice-add f i (suc m) n =
    same (suc m + n) (suc (m + n)) i i (omega arith) refl
    ∙ ap (λ xs. f i ∷ xs)
        (slice-add f (i + 1) m n
          ∙ ap (λ xs. slice f (i + 1) m ++ xs)
              (same n n (i + 1 + m) (i + suc m) refl (omega arith)))
  where
    same : (n n' i i' : ℕ) → n ≡ n' → i ≡ i' → slice f i n ≡ slice f i' n'
    same n n' i i' e e' = rw (e, e')

pub length-slice : (f : ℕ → ℕ) (off n : ℕ) → length (slice f off n) ≡ n
unfolding slice
length-slice f off zero = refl
length-slice f off (suc n) = ap suc (length-slice f (off + 1) n)

pub slice-ext :
    (f g : ℕ → ℕ) (i k n : ℕ)
    → ((j : ℕ) → j < n → f (i + j) ≡ g (k + j))
    → slice f i n ≡ slice g k n
unfolding slice
slice-ext f g i k zero h = refl
slice-ext f g i k (suc n) h =
    let here : f i ≡ g k =
      first f i (i + 0) (omega arith) ∙ h 0 (omega arith) ∙ first g (k + 0) k (omega arith) in
    rw here (
      ap (λ xs. g k ∷ xs)
        (slice-ext f g (i + 1) (k + 1) n (λ j b.
          first f (i + 1 + j) (i + suc j) (omega arith)
          ∙ h (suc j) (omega arith)
          ∙ first g (k + suc j) (k + 1 + j) (omega arith))))
  where
    first : (f : ℕ → ℕ) (a b : ℕ) → a ≡ b → f a ≡ f b
    first f a b e = ap f e

pub overwrite-ext :
    (f g : ℕ → ℕ) (i : ℕ) (xs : List ℕ) (k : ℕ)
    → f k ≡ g k
    → overwrite f i xs k ≡ overwrite g i xs k
unfolding overwrite
overwrite-ext f g i [] k e = e
overwrite-ext f g i (x ∷ xs) k e =
    overwrite-ext (update f i x) (update g i x) (i + 1) xs k (ground arith)

pub overwrite-split :
    (f : ℕ → ℕ) (i m : ℕ) (xs : List ℕ) (k : ℕ)
    → m ≤ length xs
    → overwrite (overwrite f i (take m xs)) (i + m) (drop m xs) k ≡ overwrite f i xs k
unfolding overwrite
overwrite-split f i zero xs k h = ap (λ j. overwrite f j xs k) (omega arith)
overwrite-split f i (suc m) [] k h = absurd (omega arith)
overwrite-split f i (suc m) (x ∷ xs) k h =
    ap (λ j. overwrite (overwrite (update f i x) (i + 1) (take m xs)) j (drop m xs) k) (omega arith)
    ∙ overwrite-split (update f i x) (i + 1) m xs k (omega arith)

pub length-take : (m : ℕ) (xs : List ℕ) → m ≤ length xs → length (take m xs) ≡ m
length-take zero xs h = refl
length-take (suc m) [] h = absurd (omega arith)
length-take (suc m) (x ∷ xs) h = ap suc (length-take m xs (omega arith))

pub length-drop : (m : ℕ) (xs : List ℕ) → m ≤ length xs → length (drop m xs) ≡ length xs - m
length-drop zero xs h = omega arith
length-drop (suc m) [] h = absurd (omega arith)
length-drop (suc m) (x ∷ xs) h = length-drop m xs (omega arith) ∙ omega arith

pub slice-list :
    (f : ℕ → ℕ) (i : ℕ) (xs : List ℕ)
    → ((j : ℕ) → j < length xs → f (i + j) ≡ get_or xs j 0)
    → slice f i (length xs) ≡ xs
unfolding slice
slice-list f i [] h = refl
slice-list f i (x ∷ xs) h =
    let here : f i ≡ x = at i (i + 0) (omega arith) ∙ h 0 (omega arith) in
    rw here (
      ap (λ ys. x ∷ ys)
        (slice-list f (i + 1) xs
          (λ j b. at (i + 1 + j) (i + suc j) (omega arith) ∙ h (suc j) (omega arith))))
  where
    at : (a b : ℕ) → a ≡ b → f a ≡ f b
    at a b e = ap f e
