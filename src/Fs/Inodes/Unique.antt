-- ===== src/Fs/Inodes/Unique.antt =====
-- `iget` of kernel/fs.c and the places of the inode cache.
use northos.Prelude.{
  ℕ, zero, suc, ◌+◌, ◌<◌, ◌≡◌, ◌≢◌, refl, sym, ap, subst, ◌∙◌, ◌⊎◌, inl, inr, Bool-cases, false,
  Option, none, some, ◌==◌, update, update_self, update_ne, update_eq, ℕ_discrete, arith,
}
use northos.Fs.File.{Inode}
use northos.Fs.Inodes.{
  Icache, Lookup, hit, miss, note_empty, is_cached, find_inode, take_entry, iget, ninode,
}

abbrev pub Cached : (ℕ → Inode) → ℕ → ℕ → ℕ → Type 0
Cached t dev inum i = (0 < (t i).ref) × ((t i).dev ≡ dev) × ((t i).inum ≡ inum)

-- The inodes in use are different ones.
abbrev pub IsUnique : (ℕ → Inode) → Type 0
IsUnique t =
    (i j : ℕ) → i < ninode → j < ninode → 0 < (t i).ref → Cached t (t i).dev (t i).inum j → i ≡ j

abbrev IsEmpty : (ℕ → Inode) → ℕ → Option ℕ → Type 0
IsEmpty t n none = (k : ℕ) → k < n → 0 < (t k).ref
IsEmpty t n (some e) = (e < n) × ((t e).ref ≡ 0)

-- What the search in the places below n says.
abbrev Finds : (ℕ → Inode) → ℕ → ℕ → ℕ → Lookup → Type 0
Finds t dev inum n (hit i) = (i < n) × Cached t dev inum i
Finds t dev inum n (miss e) = ((k : ℕ) → k < n → Cached t dev inum k → ⊥) × IsEmpty t n e

note_empty-IsEmpty :
    (t : ℕ → Inode) (i : ℕ) (e : Option ℕ)
    → IsEmpty t i e
    → IsEmpty t (i + 1) (note_empty e i (t i))
note_empty-IsEmpty t i (some e) (l, z) = (omega arith, z)
note_empty-IsEmpty t i none h = elim (Bool-cases ((t i).ref == 0)) [
  | inl free ↦ rw free (omega arith, ground arith)
  | inr busy ↦ rw busy λ k l. elim (ℕ_discrete k i) [
    | yes e ↦ subst (λ n. 0 < (t n).ref) (sym e) (ground arith)
    | no ne ↦ h k (omega arith)
  ]
]

find_inode-Finds :
    (r i : ℕ) (e : Option ℕ) (t : ℕ → Inode) (dev inum : ℕ)
    → ((k : ℕ) → k < i → Cached t dev inum k → ⊥)
    → IsEmpty t i e
    → Finds t dev inum (i + r) (find_inode r i e t dev inum)
unfolding find_inode
find_inode-Finds zero i e t dev inum before empty =
    subst (λ n. Finds t dev inum n (miss e)) (omega arith) (before, empty)
find_inode-Finds (suc r) i e t dev inum before empty =
    elim (Bool-cases (is_cached (t i) dev inum)) [
      | inl here ↦ rw here (omega arith, (ground arith, ground arith, ground arith))
      | inr not_here ↦
          let still = passed not_here in
          rw not_here (
            subst (λ n. Finds t dev inum n (find_inode r (i + 1) (note_empty e i (t i)) t dev inum))
              (omega arith)
              (find_inode-Finds r (i + 1) (note_empty e i (t i)) t dev inum still
                (note_empty-IsEmpty t i e empty)))
    ]
  where
    passed : is_cached (t i) dev inum ≡ false → (k : ℕ) → k < i + 1 → Cached t dev inum k → ⊥
    passed not_here k l c = elim (ℕ_discrete k i) [
      | yes same ↦ let (used, its_dev, its_inum) = subst (Cached t dev inum) same c in ground arith
      | no ne ↦ before k (omega arith) c
    ]

-- One inode is replaced by one that no other place holds.
pub replace-IsUnique :
    (t : ℕ → Inode) (i : ℕ) (ip : Inode)
    → IsUnique t
    → ((k : ℕ) → k < ninode → k ≢ i → Cached t ip.dev ip.inum k → ⊥)
    → IsUnique (update t i ip)
replace-IsUnique t i ip u new a b la lb used same = elim (ℕ_discrete i a) [
  | yes ea ↦ elim (ℕ_discrete i b) [
    | yes eb ↦ sym ea ∙ eb
    | no nb ↦
        let at_a = update_eq t i a ip ea in
        let at_b = update_ne t i b ip nb in
        absurd (new b lb (λ e. nb (sym e)) (rw (at_a, at_b) at same))
  ]
  | no na ↦ elim (ℕ_discrete i b) [
    | yes eb ↦
        let at_a = update_ne t i a ip na in
        let at_b = update_eq t i b ip eb in
        let (used_b, dev_b, inum_b) = rw (at_a, at_b) at same in
        absurd (new a la (λ e. na (sym e)) (rw at_a at used, sym dev_b, sym inum_b))
    | no nb ↦
        let at_a = update_ne t i a ip na in
        let at_b = update_ne t i b ip nb in u a b la lb (rw at_a at used) (rw (at_a, at_b) at same)
  ]
]

-- An `iget` in a table where the inodes in use are different ones. It panics where the inode is not
-- in it and no place is free. Otherwise it returns the place of the inode, with one reference more,
-- or a free place that is now the inode's, with one reference and still to be read; the others are
-- as they were, and the inodes in use are different ones again.
pub record Gets (c : Icache) (dev inum : ℕ) (c' : Icache) (i : ℕ) : Type 0 where
  pub below : i < ninode
  pub is_it : Cached c'.inode dev inum i
  pub counted : (c'.inode i).ref ≡ (c.inode i).ref + 1
  pub old_or_free :
      Cached c.inode dev inum i ⊎ (((c.inode i).ref ≡ 0) × ((c'.inode i).valid ≡ false))
  pub others : (k : ℕ) → k ≢ i → c'.inode k ≡ c.inode k
  pub same_disk : c'.disk ≡ c.disk
  pub unique : IsUnique c'.inode

abbrev pub GetsOrPanics : Icache → ℕ → ℕ → Option (Icache × ℕ) → Type 0
GetsOrPanics c dev inum none =
    (k : ℕ) → k < ninode → (0 < (c.inode k).ref) × (Cached c.inode dev inum k → ⊥)
GetsOrPanics c dev inum (some (c', i)) = Gets c dev inum c' i

pub iget-Gets :
    (c : Icache) (dev inum : ℕ) → IsUnique c.inode → GetsOrPanics c dev inum (iget c dev inum)
unfolding iget
iget-Gets c dev inum u = go (find_inode ninode 0 none c.inode dev inum) (
    find_inode-Finds ninode 0 none c.inode dev inum (λ k l. absurd (omega arith))
      (λ k l. absurd (omega arith)))
  where
    go :
        (s : Lookup)
        → Finds c.inode dev inum (0 + ninode) s
        → GetsOrPanics c dev inum (take_entry c dev inum s)
    go (hit i) (l, (used, its_dev, its_inum)) = record {
      below = l;
      is_it =
          subst (λ ip. (0 < ip.ref) × (ip.dev ≡ dev) × (ip.inum ≡ inum))
            (sym (update_self c.inode i _)) (omega arith, its_dev, its_inum);
      counted = ap (λ ip. ip.ref) (update_self c.inode i _);
      old_or_free = inl (used, its_dev, its_inum);
      others = λ k ne. update_ne c.inode i k _ (λ e. ne (sym e));
      same_disk = refl;
      unique =
          replace-IsUnique c.inode i (record (c.inode i) { ref = (c.inode i).ref + 1 }) u
            (λ k m ne found. ne (sym (u i k l m used found)));
    }
    go (miss none) (not_in, all) = λ k l. (all k l, not_in k l)
    go (miss (some i)) (not_in, (l, free)) = record {
      below = l;
      is_it =
          subst (λ ip. (0 < ip.ref) × (ip.dev ≡ dev) × (ip.inum ≡ inum))
            (sym (update_self c.inode i _)) (omega arith, refl, refl);
      counted = ap (λ ip. ip.ref) (update_self c.inode i _) ∙ omega (arith, free);
      old_or_free = inr (free, ap (λ ip. ip.valid) (update_self c.inode i _));
      others = λ k ne. update_ne c.inode i k _ (λ e. ne (sym e));
      same_disk = refl;
      unique =
          replace-IsUnique c.inode i
            (record (c.inode i) { dev = dev; inum = inum; ref = 1; valid = false }) u
            (λ k m ne found. not_in k m found);
    }
