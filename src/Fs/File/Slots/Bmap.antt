-- ===== src/Fs/File/Slots/Bmap.antt =====
-- What `bmap` of kernel/fs.c does to the blocks of a file.
use northos.Prelude.{
  ℕ, ◌+◌, ◌-◌, ◌<◌, ◌≤◌, ◌≡◌, refl, sym, ap, subst, ◌∙◌, ◌≢◌, Bool-cases, inl, inr, true, false,
  arith, if◌then◌else◌, leb, ltb, ◌==◌, some, update, update_ne, update_eq, update_self, ℕ_discrete,
}
use northos.Fs.Bitmap.{Disk, balloc, OnSome, OnSome-bind}
use northos.Fs.Bitmap.Alloc.{allocated, balloc-OnSome}
use northos.Fs.File.{Inode, ndirect, nindirect, addr_at, word_at, bmap, bmap_single}
use northos.Fs.File.Slots.{
  slots, slot, Owns, with_addrs, Extended, Extended-refl, Extended-trans, filled-Extended,
}

-- What `addr_at` and `word_at` return: a block of the file, in the slot.
pub record Filled (d : Disk) (ip : Inode) (d' : Disk) (ip' : Inode) (s b : ℕ) : Type 0 where
  pub extended : Extended d ip d' ip'
  pub here : slot d' ip' s ≡ b
  pub block : b ≢ 0

table_ne :
    (d : Disk) (ip : Inode) (b : ℕ)
    → Owns d ip
    → d.used b ≡ false
    → ip.addrs ndirect ≢ 0
    → b ≢ ip.addrs ndirect
table_ne d ip b o free n e =
    clash (subst (λ k. d.used k ≡ false) e free) (o.taken ndirect (omega arith) n)
  where
    clash : d.used (ip.addrs ndirect) ≡ false → d.used (ip.addrs ndirect) ≡ true → ⊥
    clash x y = ground arith

addr_at-new :
    (d : Disk) (ip : Inode) (i b : ℕ)
    → Owns d ip
    → i ≤ ndirect
    → ip.addrs i ≡ 0
    → d.used b ≡ false
    → Filled d ip (allocated d b) (with_addrs ip (update ip.addrs i b)) i b
addr_at-new d ip i b o h z free =
    let d' = allocated d b in
    let ip' = with_addrs ip (update ip.addrs i b) in
    let low : leb i ndirect ≡ true = ground arith in
    let empty : slot d ip i ≡ 0 = rw low z in
    let nonzero : b ≢ 0 = λ e. clash (subst (λ k. d.used k ≡ false) e free) o.zero_used in
    let now : (s : ℕ) → s < slots → slot d' ip' s ≡ (if i == s then b else slot d ip s) = λ s hs.
      elim (Bool-cases (leb s ndirect)) [
        | inl low_s ↦ rw low_s refl
        | inr high ↦ let off : (i == s) ≡ false = ground arith in rw (high, off) (table s)
      ] in
    record {
      extended = filled-Extended d ip d' ip' i b o free empty now refl refl refl refl;
      here = rw low (update_self ip.addrs i b);
      block = nonzero;
    }
  where
    clash : d.used 0 ≡ false → d.used 0 ≡ true → ⊥
    clash x y = ground arith

    not_held : (ip.addrs ndirect == 0) ≡ false → ip.addrs ndirect ≡ 0 → ⊥
    not_held x y = ground arith

    zero_table : (k : ℕ) → (if b == 0 then 0 else update d.words b (λ i. 0) b k) ≡ 0
    zero_table k = elim (Bool-cases (b == 0)) [
      | inl x ↦ rw x refl
      | inr x ↦ rw x (ap (λ f. f k) (update_self d.words b (λ i. 0)))
    ]

    table :
        (s : ℕ)
        → (if update ip.addrs i b ndirect == 0
            then 0
            else update d.words b (λ i. 0) (update ip.addrs i b ndirect) (s - 11))
          ≡ (if ip.addrs ndirect == 0 then 0 else d.words (ip.addrs ndirect) (s - 11))
    table s = elim (ℕ_discrete i ndirect) [
      | yes e ↦
          let old : (ip.addrs ndirect == 0) ≡ true = rw (subst (λ k. ip.addrs k ≡ 0) e z) refl in
          rw (update_eq ip.addrs i ndirect b e, old) (zero_table (s - 11))
      | no ne ↦ rw (update_ne ip.addrs i ndirect b ne) (elim (Bool-cases (ip.addrs ndirect == 0)) [
        | inl bare ↦ rw bare refl
        | inr held ↦
            let n : ip.addrs ndirect ≢ 0 = λ e. not_held held e in
            rw held (
              ap (λ f. f (s - 11))
                (update_ne d.words b (ip.addrs ndirect) (λ i. 0) (table_ne d ip b o free n)))
      ])
    ]

-- `addr_at` of the inode's own addresses.
pub addr_at-Filled :
    (d : Disk) (ip : Inode) (i : ℕ)
    → Owns d ip
    → i ≤ ndirect
    → OnSome (λ r. Filled d ip r.0 r.1 i r.2) (addr_at d ip i)
unfolding addr_at
addr_at-Filled d ip i o h = elim (Bool-cases (ip.addrs i == 0)) [
  | inl z ↦ rw z (
      OnSome-bind _ _ (balloc d) _ (balloc-OnSome d)
        λ r f. rw f.2 (addr_at-new d ip i r.1 o h (ground arith) f.0))
  | inr n ↦ rw n (record {
    extended = Extended-refl d ip o;
    here = let low : leb i ndirect ≡ true = ground arith in rw low refl;
    block = λ z. absurd (ground arith);
  })
]

word_at-new :
    (d : Disk) (ip : Inode) (j b : ℕ)
    → Owns d ip
    → j < nindirect
    → ip.addrs ndirect ≢ 0
    → d.words (ip.addrs ndirect) j ≡ 0
    → d.used b ≡ false
    → let t = ip.addrs ndirect in
      let d' = allocated d b in
      Filled d ip (record d' { words = update d'.words t (update (d'.words t) j b) }) ip (11 + j) b
word_at-new d ip j b o h n z free =
    let t = ip.addrs ndirect in
    let d1 = allocated d b in
    let d' : Disk = record d1 { words = update d1.words t (update (d1.words t) j b) } in
    let held : (t == 0) ≡ false = ground arith in
    let apart = table_ne d ip b o free n in
    let high : leb (11 + j) ndirect ≡ false = ground arith in
    let at_j : 11 + j - 11 ≡ j = omega arith in
    let empty : slot d ip (11 + j) ≡ 0 = rw (high, held, at_j) z in
    let new_words : d'.words t ≡ update (d.words t) j b =
      update_self d1.words t (update (d1.words t) j b)
      ∙ ap (λ f. update f j b) (update_ne d.words b t (λ i. 0) apart) in
    let now : (s : ℕ) → s < slots → slot d' ip s ≡ (if (11 + j) == s then b else slot d ip s) =
      λ s hs. elim (Bool-cases (leb s ndirect)) [
        | inl low ↦ let off : ((11 + j) == s) ≡ false = ground arith in rw (low, off) refl
        | inr above ↦
            let same : (j == (s - 11)) ≡ ((11 + j) == s) = ground arith in
            rw (above, held) (ap (λ f. f (s - 11)) new_words ∙ rw same refl)
      ] in
    record {
      extended = filled-Extended d ip d' ip (11 + j) b o free empty now refl refl refl refl;
      here = rw (high, held, at_j) (ap (λ f. f j) new_words ∙ update_self (d.words t) j b);
      block = λ e. clash (subst (λ k. d.used k ≡ false) e free) o.zero_used;
    }
  where
    clash : d.used 0 ≡ false → d.used 0 ≡ true → ⊥
    clash x y = ground arith

-- `word_at` of the indirect block.
pub word_at-Filled :
    (d : Disk) (ip : Inode) (j : ℕ)
    → Owns d ip
    → j < nindirect
    → ip.addrs ndirect ≢ 0
    → OnSome (λ r. Filled d ip r.0 ip (11 + j) r.1) (word_at d (ip.addrs ndirect) j)
unfolding word_at
word_at-Filled d ip j o h n = elim (Bool-cases (d.words (ip.addrs ndirect) j == 0)) [
  | inl z ↦ rw z (
      OnSome-bind _ _ (balloc d) _ (balloc-OnSome d)
        λ r f. rw f.2 (word_at-new d ip j r.1 o h n (ground arith) f.0))
  | inr there ↦
      let held : (ip.addrs ndirect == 0) ≡ false = ground arith in
      let high : leb (11 + j) ndirect ≡ false = ground arith in
      let at_j : 11 + j - 11 ≡ j = omega arith in
      rw there (record {
        extended = Extended-refl d ip o;
        here = rw (high, held, at_j) refl;
        block = λ z. absurd (ground arith);
      })
]

-- The slot of block bn of the file.
abbrev pub place : ℕ → ℕ
place bn = if ltb bn ndirect then bn else bn + 1

pub bmap-Filled :
    (d : Disk) (ip : Inode) (bn : ℕ)
    → Owns d ip
    → bn < ndirect + nindirect
    → OnSome (λ r. Filled d ip r.0 r.1 (place bn) r.2) (bmap d ip bn)
unfolding bmap bmap_single
bmap-Filled d ip bn o h = elim (Bool-cases (ltb bn ndirect)) [
  | inl direct ↦ rw direct (addr_at-Filled d ip bn o (ground arith))
  | inr beyond ↦
      let single : ltb (bn - ndirect) nindirect ≡ true = ground arith in
      let at_bn : 11 + (bn - ndirect) ≡ bn + 1 = ground arith in
      rw (beyond, single)
        (OnSome-bind _ _ (addr_at d ip ndirect) _ (addr_at-Filled d ip ndirect o (omega arith))
          λ (d1, ip1, t) f.
            OnSome-bind (λ r. Filled d1 ip1 r.0 ip1 (11 + (bn - ndirect)) r.1) _
              (word_at d1 t (bn - ndirect)) _
              (subst
                (λ k.
                  OnSome (λ r. Filled d1 ip1 r.0 ip1 (11 + (bn - ndirect)) r.1)
                    (word_at d1 k (bn - ndirect)))
                f.here
                (word_at-Filled d1 ip1 (bn - ndirect) f.extended.owns (omega arith)
                  (λ z. f.block (sym f.here ∙ z))))
              λ (d2, b) g. record {
                extended = Extended-trans d ip d1 ip1 d2 ip1 f.extended g.extended;
                here = subst (λ k. slot d2 ip1 k ≡ b) at_bn g.here;
                block = g.block;
              })
]

-- A block that the file has is found where it is, and nothing changes.
pub bmap-there :
    (d : Disk) (ip : Inode) (bn : ℕ)
    → bn < ndirect + nindirect
    → slot d ip (place bn) ≢ 0
    → bmap d ip bn ≡ some (d, ip, slot d ip (place bn))
unfolding bmap bmap_single addr_at word_at
bmap-there d ip bn h n = elim (Bool-cases (ltb bn ndirect)) [
  | inl direct ↦
      let low : leb bn ndirect ≡ true = ground arith in
      let same : slot d ip (place bn) ≡ ip.addrs bn = rw (direct, low) refl in
      let held : (ip.addrs bn == 0) ≡ false = nonzero (ip.addrs bn) (λ z. n (same ∙ z)) in
      rw (direct, held, low) refl
  | inr beyond ↦
      let single : ltb (bn - ndirect) nindirect ≡ true = ground arith in
      let high : leb (bn + 1) ndirect ≡ false = ground arith in
      let index : bn + 1 - 11 ≡ bn - ndirect = ground arith in
      elim (Bool-cases (ip.addrs ndirect == 0)) [
        | inl bare ↦ absurd (n (rw (beyond, high, bare) refl))
        | inr table ↦
            let same : slot d ip (place bn) ≡ d.words (ip.addrs ndirect) (bn - ndirect) =
              rw (beyond, high, table, index) refl in
            let held : (d.words (ip.addrs ndirect) (bn - ndirect) == 0) ≡ false =
              nonzero (d.words (ip.addrs ndirect) (bn - ndirect)) (λ z. n (same ∙ z)) in
            rw (beyond, single, table, held, high, index) refl
      ]
]
  where
    nonzero : (k : ℕ) → k ≢ 0 → (k == 0) ≡ false
    nonzero k ne = ground arith
