-- ===== src/Fs/File/Slots.antt =====
-- The blocks of a file, up to its double-indirect ones, and what `bmap` of kernel/fs.c does to them.
pub mod Bmap
use northos.Prelude.{
  ℕ, ◌+◌, ◌-◌, ◌<◌, ◌≤◌, ◌≡◌, refl, sym, ap, subst, ◌∙◌, ◌⊎◌, ◌≢◌, Bool-cases, inl, inr, true,
  false, arith, if◌then◌else◌, leb, ltb, ◌==◌, some, update, update_ne, update_eq, update_self,
  ℕ_discrete,
}
use northos.Fs.Bitmap.{Disk, balloc, OnSome, OnSome-bind}
use northos.Fs.Bitmap.Alloc.{allocated, balloc-OnSome}
use northos.Fs.File.{Inode, ndirect, nindirect, addr_at, word_at, bmap, bmap_single}

-- The NDIRECT + 1 addresses of the inode and those in its indirect block; 0 stands for no block.
abbrev pub slots : ℕ
slots = 523

abbrev pub slot : Disk → Inode → ℕ → ℕ
slot d ip s =
    if leb s ndirect
    then ip.addrs s
    else if ip.addrs ndirect == 0
    then 0
    else d.words (ip.addrs ndirect) (s - 11)

-- The file's blocks are taken, and no block has two places in it.
pub record Owns (d : Disk) (ip : Inode) : Type 0 where
  pub zero_used : d.used 0 ≡ true
  pub taken : (s : ℕ) → s < slots → slot d ip s ≢ 0 → d.used (slot d ip s) ≡ true
  pub distinct :
      (s s' : ℕ) → s < slots → s' < slots → slot d ip s ≡ slot d ip s' → slot d ip s ≢ 0 → s ≡ s'

abbrev pub sized : Inode → (ℕ → ℕ) → ℕ → Inode
sized ip addrs size = record ip { addrs = addrs; size = size }

abbrev pub with_addrs : Inode → (ℕ → ℕ) → Inode
with_addrs ip addrs = record ip { addrs = addrs }

-- Blocks may have been added to the file, filled with zeros; all else is as it was.
pub record Extended (d : Disk) (ip : Inode) (d' : Disk) (ip' : Inode) : Type 0 where
  pub owns : Owns d' ip'
  pub kept : (s : ℕ) → s < slots → slot d ip s ≢ 0 → slot d' ip' s ≡ slot d ip s
  pub still_used : (c : ℕ) → d.used c ≡ true → d'.used c ≡ true
  pub bytes : (c i : ℕ) → d.used c ≡ true → d'.bytes c i ≡ d.bytes c i
  pub fresh :
      (s : ℕ)
      → s < slots
      → slot d ip s ≡ 0
      → (slot d' ip' s ≡ 0) ⊎ ((i : ℕ) → d'.bytes (slot d' ip' s) i ≡ 0)
  pub inode : ip' ≡ with_addrs ip ip'.addrs
  pub dinodes : d'.dinodes ≡ d.dinodes

pub Extended-refl : (d : Disk) (ip : Inode) → Owns d ip → Extended d ip d ip
Extended-refl d ip o = record {
  owns = o;
  kept = λ s h n. refl;
  still_used = λ c u. u;
  bytes = λ c i u. refl;
  fresh = λ s h z. inl z;
  inode = refl;
  dinodes = refl;
}

is_zero : (n : ℕ) → (n ≡ 0) ⊎ (n ≢ 0)
is_zero n = elim (ℕ_discrete n 0) [ yes e ↦ inl e | no ne ↦ inr ne ]

pub Extended-trans :
    (d : Disk) (ip : Inode) (d1 : Disk) (ip1 : Inode) (d2 : Disk) (ip2 : Inode)
    → Extended d ip d1 ip1
    → Extended d1 ip1 d2 ip2
    → Extended d ip d2 ip2
Extended-trans d ip d1 ip1 d2 ip2 e f = record {
  owns = f.owns;
  kept = λ s h n. let k = e.kept s h n in f.kept s h (λ z. n (sym k ∙ z)) ∙ k;
  still_used = λ c u. f.still_used c (e.still_used c u);
  bytes = λ c i u. f.bytes c i (e.still_used c u) ∙ e.bytes c i u;
  fresh = λ s h z. elim (is_zero (slot d1 ip1 s)) [
    | inl z1 ↦ f.fresh s h z1
    | inr n1 ↦ elim (e.fresh s h z) [
      | inl z1 ↦ absurd (n1 z1)
      | inr zeros ↦ inr (λ i.
          ap (λ c. d2.bytes c i) (f.kept s h n1)
          ∙ f.bytes (slot d1 ip1 s) i (e.owns.taken s h n1)
          ∙ zeros i)
    ]
  ];
  inode = f.inode ∙ ap (λ j. with_addrs j ip2.addrs) e.inode;
  dinodes = f.dinodes ∙ e.dinodes;
}

-- A free block is put into an empty slot.
module _ (d : Disk) (ip : Inode) (d' : Disk) (ip' : Inode) (s0 b : ℕ) (owns : Owns d ip)
    (free : d.used b ≡ false) (empty : slot d ip s0 ≡ 0)
    (now : (s : ℕ) → s < slots → slot d' ip' s ≡ (if s0 == s then b else slot d ip s))
    (used : d'.used ≡ update d.used b true) (bytes : d'.bytes ≡ update d.bytes b (λ i. 0)) where
  used_ne : (c : ℕ) → d.used c ≡ true → b ≢ c
  used_ne c u e = absurd (clash (subst (λ k. d.used k ≡ false) e free) u)
    where
      clash : d.used c ≡ false → d.used c ≡ true → ⊥
      clash x y = ground arith

  pub not_zero : b ≢ 0
  not_zero = used_ne 0 owns.zero_used

  still : (c : ℕ) → d.used c ≡ true → d'.used c ≡ true
  still c u = ap (λ f. f c) used ∙ update_ne d.used b c true (used_ne c u) ∙ u

  other : (s : ℕ) → s < slots → s0 ≢ s → slot d' ip' s ≡ slot d ip s
  other s h ne = let off : (s0 == s) ≡ false = ground arith in now s h ∙ rw off refl

  at : (s : ℕ) → s < slots → s0 ≡ s → slot d' ip' s ≡ b
  at s h e = let on : (s0 == s) ≡ true = ground arith in now s h ∙ rw on refl

  filled-Owns : Owns d' ip'
  filled-Owns = record {
    zero_used = still 0 owns.zero_used;
    taken = λ s h n. elim (ℕ_discrete s0 s) [
      | yes e ↦ rw (at s h e) (ap (λ f. f b) used ∙ update_self d.used b true)
      | no ne ↦
          let same = other s h ne in
          rw same (still (slot d ip s) (owns.taken s h (λ z. n (same ∙ z))))
    ];
    distinct = λ s s' h h' eq n. elim (ℕ_discrete s0 s) [
      | yes e ↦ elim (ℕ_discrete s0 s') [
        | yes e' ↦ sym e ∙ e'
        | no ne' ↦
            let same = other s' h' ne' in
            let is_b : slot d ip s' ≡ b = sym same ∙ sym eq ∙ at s h e in
            absurd
              (used_ne (slot d ip s') (owns.taken s' h' (λ z. not_zero (sym is_b ∙ z))) (sym is_b))
      ]
      | no ne ↦ elim (ℕ_discrete s0 s') [
        | yes e' ↦
            let same = other s h ne in
            let is_b : slot d ip s ≡ b = sym same ∙ eq ∙ at s' h' e' in
            absurd
              (used_ne (slot d ip s) (owns.taken s h (λ z. not_zero (sym is_b ∙ z))) (sym is_b))
        | no ne' ↦
            owns.distinct s s' h h' (sym (other s h ne) ∙ eq ∙ other s' h' ne')
              (λ z. n (other s h ne ∙ z))
      ]
    ];
  }

  pub filled-Extended :
      ip' ≡ with_addrs ip ip'.addrs → d'.dinodes ≡ d.dinodes → Extended d ip d' ip'
  filled-Extended inode dinodes = record {
    owns = filled-Owns;
    kept = λ s h n. other s h (λ e. n (subst (λ k. slot d ip k ≡ 0) e empty));
    still_used = still;
    bytes = λ c i u.
        ap (λ f. f c i) bytes ∙ ap (λ f. f i) (update_ne d.bytes b c (λ i. 0) (used_ne c u));
    fresh = λ s h z. elim (ℕ_discrete s0 s) [
      | yes e ↦ inr (λ i.
          ap (λ c. d'.bytes c i) (at s h e)
          ∙ ap (λ f. f b i) bytes
          ∙ ap (λ f. f i) (update_self d.bytes b (λ i. 0)))
      | no ne ↦ inl (other s h ne ∙ z)
    ];
    inode = inode;
    dinodes = dinodes;
  }
