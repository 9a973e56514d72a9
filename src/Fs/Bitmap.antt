-- ===== src/Fs/Bitmap.antt =====
-- `balloc`, `bfree` and `bzero` of kernel/fs.c. The free map is seen as its bits, bit b for block b,
-- and a block as its bytes and as its 4-byte words: the code uses a block as one or the other. The
-- buffers are seen at the level of contents, as Log has them.
pub mod Scan
pub mod Alloc
use northos.Prelude.{
  ℕ, zero, suc, ◌+◌, ◌-◌, ◌*◌, ◌≡◌, refl, subst, ◌/◌, min, Bool, true, false, ◌&&◌, Option, none,
  some, leb, if◌then◌else◌, update,
}

-- A panic, `none`, ends what follows.
infixl 5 ◌>>=◌
abbrev pub ◌>>=◌ {ℓ κ} : {A : Type ℓ} {B : Type κ} → Option A → (A → Option B) → Option B
none >>= f = none
some a >>= f = f a

-- P holds of what is returned, where no panic comes first.
abbrev pub OnSome {ℓ} : {A : Type ℓ} → (A → Type 0) → Option A → Type 0
OnSome P none = Unit {0}
OnSome P (some a) = P a

pub OnSome-bind {ℓ κ} :
    {A : Type ℓ} {B : Type κ} (P : A → Type 0) (Q : B → Type 0) (m : Option A) (f : A → Option B)
    → OnSome P m
    → ((a : A) → P a → OnSome Q (f a))
    → OnSome Q (m >>= f)
OnSome-bind P Q none f h k = tt
OnSome-bind P Q (some a) f h k = k a h

pub OnSome-map {ℓ} :
    {A : Type ℓ} (P Q : A → Type 0) (m : Option A) → ((a : A) → P a → Q a) → OnSome P m → OnSome Q m
OnSome-map P Q none f h = tt
OnSome-map P Q (some a) f h = f a h

pub OnSome-eq {ℓ} :
    {A : Type ℓ} (P : A → Type 0) (m : Option A) (a : A) → OnSome P m → m ≡ some a → P a
OnSome-eq P m a h e = subst (OnSome P) e h

pub OnSome-cases {ℓ} :
    {A : Type ℓ} (P : A → Type 0) (m : Option A) → ((a : A) → m ≡ some a → P a) → OnSome P m
OnSome-cases P none h = tt
OnSome-cases P (some a) h = h a refl

-- BSIZE and BPB
abbrev pub bsize : ℕ
bsize = 2048

abbrev pub bpb : ℕ
bpb = 16384

-- `struct dinode_core`; `addrs` has NDIRECT + 2 words.
pub record Dinode : Type 0 where
  pub type : ℕ
  pub major : ℕ
  pub minor : ℕ
  pub nlink : ℕ
  pub size : ℕ
  pub addrs : ℕ → ℕ

-- The disk, with what of the superblock is used after start-up, and `last_alloc_hint`.
pub record Disk : Type 0 where
  pub used : ℕ → Bool
  pub bytes : ℕ → ℕ → ℕ
  pub words : ℕ → ℕ → ℕ
  pub dinodes : ℕ → Dinode
  pub hint : ℕ
  pub size : ℕ
  pub nblocks : ℕ
  pub ninodes : ℕ

-- A free bit; or the loop has run out; or the kernel panics, which it does from a free bit at or
-- above `nblocks` on: it has released the buffer there, and each way on releases it again.
pub data Search : Type 0 where
  found : ℕ → Search
  panics : Search
  nothing : Search

abbrev pub or_else : Search → Search → Search
or_else (found b) next = found b
or_else panics next = panics
or_else nothing next = next

-- The loop over the bits of a word, from bit b on. The rounds left come first, here and below.
unfoldable pub scan_bits : ℕ → ℕ → Disk → Search
scan_bits zero b d = nothing
scan_bits (suc r) b d =
    let next = scan_bits r (b + 1) d in
    if d.used b then next else if leb d.nblocks b then panics else found b

-- *word == 0xFFFFFFFF
unfoldable pub all_used : ℕ → ℕ → Disk → Bool
all_used zero b d = true
all_used (suc r) b d = d.used b && all_used r (b + 1) d

-- The loop over the words of a bitmap block, from the word of bit b on.
unfoldable pub scan_words : ℕ → ℕ → Disk → Search
scan_words zero b d = nothing
scan_words (suc r) b d =
    let next = scan_words r (b + 32) d in
    if all_used 32 b d then next else or_else (scan_bits 32 b d) next

-- The loop over the bitmap blocks, from block j of the map on.
unfoldable pub scan_blocks : ℕ → ℕ → Disk → Search
scan_blocks zero j d = nothing
scan_blocks (suc r) j d = or_else (scan_words 512 (j * bpb) d) (scan_blocks r (j + 1) d)

-- `bzero`, where `none` is the panic.
unfoldable pub bzero : Disk → ℕ → Option Disk
bzero d b =
    if leb d.size b
    then none
    else some (record d { bytes = update d.bytes b (λ i. 0); words = update d.words b (λ i. 0) })

-- The two passes of `balloc`.
unfoldable pub scan_map : Disk → Search
scan_map d =
    let start = d.hint / bpb in
    or_else (scan_blocks (min (d.nblocks / bpb + 1) (d.size / bpb + 1) - start) start d)
      (scan_blocks start 0 d)

-- What `balloc` does with a bit that it has found.
abbrev pub with_hint : ℕ → Option Disk → Option (Disk × ℕ)
with_hint b none = none
with_hint b (some d) = some (record d { hint = b }, b)

abbrev pub take_block : Disk → Search → Option (Disk × ℕ)
take_block d (found b) = with_hint b (bzero (record d { used = update d.used b true }) b)
take_block d panics = none
take_block d nothing = none

-- `none` is a panic.
unfoldable pub balloc : Disk → Option (Disk × ℕ)
unfolding scan_map
balloc d = take_block d (scan_map d)

unfoldable pub bfree : Disk → ℕ → Option Disk
bfree d b =
    if leb d.nblocks b
    then none
    else if d.used b
    then some (record d { used = update d.used b false })
    else none
