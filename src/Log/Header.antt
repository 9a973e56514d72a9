-- ===== src/Log/Header.antt =====
-- The header block of kernel/log.c: what `read_head` reads back after `write_head`.
use northos.Prelude.{
  ℕ, zero, suc, ◌+◌, ◌≤◌, ◌<◌, ◌≡◌, refl, ◌∙◌, List, length, get_or, set, length-set,
  get_or-set_self, get_or-set_ne, arith, dec_lt,
}
use northos.Log.{Block, word, load_from, store_from, encode_head}

length-store_from :
    (r i : ℕ) (block : List ℕ) (d : Block) → length (store_from r i block d) ≡ length d
unfolding store_from
length-store_from zero i block d = refl
length-store_from (suc r) i block d =
    length-store_from r (i + 1) block (set d (i + 1) (get_or block i 0))
    ∙ length-set d (i + 1) (get_or block i 0)

-- Words below the ones that the loop writes stay.
word-store_from_below :
    (r i j : ℕ) (block : List ℕ) (d : Block) → j ≤ i → word (store_from r i block d) j ≡ word d j
unfolding store_from
word-store_from_below zero i j block d h = refl
word-store_from_below (suc r) i j block d h =
    word-store_from_below r (i + 1) j block (set d (i + 1) (get_or block i 0)) (omega arith)
    ∙ get_or-set_ne d (i + 1) j (get_or block i 0) 0 (omega arith)

word-store_from :
    (r i j : ℕ) (block : List ℕ) (d : Block)
    → i ≤ j
    → j < i + r
    → i + r < length d
    → word (store_from r i block d) (j + 1) ≡ get_or block j 0
unfolding store_from
word-store_from zero i j block d h k b = absurd (omega arith)
word-store_from (suc r) i j block d h k b =
    let d' : Block = set d (i + 1) (get_or block i 0) in
    let len : length d' ≡ length d = length-set d (i + 1) (get_or block i 0) in
    elim (dec_lt i j) [
      | yes lt ↦ word-store_from r (i + 1) j block d' (omega arith) (omega arith) (omega arith)
      | no ge ↦
          let e : j ≡ i = omega arith in
          rw e (
            word-store_from_below r (i + 1) (i + 1) block d' (omega arith)
            ∙ get_or-set_self d (i + 1) (get_or block i 0) 0 (omega arith))
    ]

pub word-encode_head_count :
    (n : ℕ) (block : List ℕ) (d : Block) → 0 < length d → word (encode_head n block d) 0 ≡ n
unfolding encode_head
word-encode_head_count n block d h =
    word-store_from_below n 0 0 block (set d 0 n) (omega arith) ∙ get_or-set_self d 0 n 0 h

pub word-encode_head :
    (n i : ℕ) (block : List ℕ) (d : Block)
    → i < n
    → n < length d
    → word (encode_head n block d) (i + 1) ≡ get_or block i 0
unfolding encode_head
word-encode_head n i block d h k =
    word-store_from n 0 i block (set d 0 n) (omega arith) (omega arith)
      (omega (arith, length-set d 0 n))

pub length-encode_head :
    (n : ℕ) (block : List ℕ) (d : Block) → length (encode_head n block d) ≡ length d
unfolding encode_head
length-encode_head n block d = length-store_from n 0 block (set d 0 n) ∙ length-set d 0 n

-- Entries below the ones that the loop loads stay.
get_or-load_from_below :
    (r i j : ℕ) (d : Block) (block : List ℕ)
    → j < i
    → get_or (load_from r i d block) j 0 ≡ get_or block j 0
unfolding load_from
get_or-load_from_below zero i j d block h = refl
get_or-load_from_below (suc r) i j d block h =
    get_or-load_from_below r (i + 1) j d (set block i (word d (i + 1))) (omega arith)
    ∙ get_or-set_ne block i j (word d (i + 1)) 0 (omega arith)

pub get_or-load_from :
    (r i j : ℕ) (d : Block) (block : List ℕ)
    → i ≤ j
    → j < i + r
    → i + r ≤ length block
    → get_or (load_from r i d block) j 0 ≡ word d (j + 1)
unfolding load_from
get_or-load_from zero i j d block h k b = absurd (omega arith)
get_or-load_from (suc r) i j d block h k b =
    let block' : List ℕ = set block i (word d (i + 1)) in
    let len : length block' ≡ length block = length-set block i (word d (i + 1)) in
    elim (dec_lt i j) [
      | yes lt ↦ get_or-load_from r (i + 1) j d block' (omega arith) (omega arith) (omega arith)
      | no ge ↦
          let e : j ≡ i = omega arith in
          rw e (
            get_or-load_from_below r (i + 1) i d block' (omega arith)
            ∙ get_or-set_self block i (word d (i + 1)) 0 (omega arith))
    ]
