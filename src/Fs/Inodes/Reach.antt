-- ===== src/Fs/Inodes/Reach.antt =====
-- The inode cache of kernel/fs.c under any sequence of its operations.
use northos.Prelude.{
  ℕ, ◌<◌, ◌≡◌, refl, sym, ap, subst, ◌∙◌, inl, inr, Bool-cases, false, ◌&&◌, some, ltb, ◌==◌,
  update, update_self, arith,
}
use northos.Fs.Bitmap.{Disk, OnSome, OnSome-bind, OnSome-eq}
use northos.Fs.File.{Inode}
use northos.Fs.File.Slots.{sized}
use northos.Fs.Inodes.{
  Icache, iget, idup, ilock, iput, itrunc, ninode, ref_down, load_inode, free_inode,
}
use northos.Fs.Inodes.Unique.{IsUnique, replace-IsUnique, iget-Gets, Gets, GetsOrPanics}
use northos.Fs.Inodes.Trunc.{itrunc-Kept}

-- One operation. `idup` and `iput` are called with a reference; who holds an inode's lock changes
-- the disk and of the inode what is not its number and its references.
pub data Step : Icache → Icache → Type 0 where
  gets : {c c' : Icache} (dev inum i : ℕ) → iget c dev inum ≡ some (c', i) → Step c c'
  dups : {c : Icache} (i : ℕ) → i < ninode → 0 < (c.inode i).ref → Step c (idup c i)
  locks : {c c' : Icache} (i : ℕ) → i < ninode → ilock c i ≡ some c' → Step c c'
  puts : {c c' : Icache} (i : ℕ) → i < ninode → 0 < (c.inode i).ref → iput c i ≡ some c' → Step c c'
  changes :
      {c : Icache} (i : ℕ) (d : Disk) (addrs : ℕ → ℕ) (size type nlink : ℕ)
      → i < ninode
      → 0 < (c.inode i).ref
      → Step c (record {
        disk = d;
        inode =
            update c.inode i
              (record (c.inode i) { addrs = addrs; size = size; type = type; nlink = nlink });
      })

pub data Reach : Icache → Icache → Type 0 where
  start : {c : Icache} → Reach c c
  after : {c c1 c2 : Icache} → Reach c c1 → Step c1 c2 → Reach c c2

-- The place of an inode is given a version of it with no reference where it had none.
same_inode :
    (t : ℕ → Inode) (i : ℕ) (ip : Inode)
    → i < ninode
    → IsUnique t
    → ip.dev ≡ (t i).dev
    → ip.inum ≡ (t i).inum
    → 0 < (t i).ref
    → IsUnique (update t i ip)
same_inode t i ip l u same_dev same_inum used =
    replace-IsUnique t i ip u λ k lk ne (used_k, dev_k, inum_k).
      ne (sym (u i k l lk used (used_k, dev_k ∙ same_dev, inum_k ∙ same_inum)))

ref_down-IsUnique :
    (c : Icache) (i : ℕ)
    → i < ninode
    → IsUnique c.inode
    → 0 < (c.inode i).ref
    → IsUnique (ref_down c i).inode
ref_down-IsUnique c i l u used = same_inode c.inode i _ l u refl refl used

abbrev Uniquely : Icache → Type 0
Uniquely c = IsUnique c.inode

-- After the contents have been freed the inode has its references and its number as before.
free_inode-IsUnique :
    (c : Icache) (i : ℕ)
    → i < ninode
    → IsUnique c.inode
    → 0 < (c.inode i).ref
    → OnSome (λ c'. IsUnique c'.inode × (0 < (c'.inode i).ref)) (free_inode c i)
free_inode-IsUnique c i l u used =
    OnSome-bind (λ r. r.1 ≡ sized (c.inode i) r.1.addrs r.1.size) _ (itrunc c.disk (c.inode i)) _
      (itrunc-Kept c.disk (c.inode i))
      λ (d1, ip1) kept.
        let same_ref : ip1.ref ≡ (c.inode i).ref = ap (λ ip. ip.ref) kept in
        (
          same_inode c.inode i (record ip1 { type = 0; valid = false }) l u (ap (λ ip. ip.dev) kept)
              (ap (λ ip. ip.inum) kept) used,
          subst (λ ip. 0 < ip.ref)
              (sym (update_self c.inode i (record ip1 { type = 0; valid = false }))) (omega arith),
        )

iput-IsUnique :
    (c : Icache) (i : ℕ)
    → i < ninode
    → IsUnique c.inode
    → 0 < (c.inode i).ref
    → OnSome Uniquely (iput c i)
unfolding iput
iput-IsUnique c i l u used =
    elim (Bool-cases ((c.inode i).valid && (c.inode i).nlink == 0 && (c.inode i).ref == 1)) [
      | inl last ↦ rw last (
          OnSome-bind (λ c'. IsUnique c'.inode × (0 < (c'.inode i).ref)) Uniquely (free_inode c i) _
            (free_inode-IsUnique c i l u used) λ c' (u', used'). ref_down-IsUnique c' i l u' used')
      | inr not_last ↦ rw not_last (ref_down-IsUnique c i l u used)
    ]

ilock-IsUnique : (c : Icache) (i : ℕ) → i < ninode → IsUnique c.inode → OnSome Uniquely (ilock c i)
unfolding ilock
ilock-IsUnique c i l u = elim (Bool-cases (ltb (c.inode i).ref 1)) [
  | inl unused ↦ rw unused tt
  | inr used ↦ rw used (elim (Bool-cases (c.inode i).valid) [
    | inl read ↦ rw read u
    | inr not_read ↦ rw not_read (elim (Bool-cases ((c.disk.dinodes (c.inode i).inum).type == 0)) [
      | inl untyped ↦ rw untyped tt
      | inr typed ↦ rw typed (
          same_inode c.inode i (load_inode (c.inode i) (c.disk.dinodes (c.inode i).inum)) l u refl
            refl (ground arith))
    ])
  ])
]

step-IsUnique : {c c' : Icache} → IsUnique c.inode → Step c c' → IsUnique c'.inode
unfolding idup
step-IsUnique {c} {c'} u (gets dev inum i e) =
    let g : Gets c dev inum c' i = subst (GetsOrPanics c dev inum) e (iget-Gets c dev inum u) in
    g.unique
step-IsUnique {c} {c'} u (dups i l used) = same_inode c.inode i _ l u refl refl used
step-IsUnique {c} {c'} u (locks i l e) =
    OnSome-eq Uniquely (ilock c i) c' (ilock-IsUnique c i l u) e
step-IsUnique {c} {c'} u (puts i l used e) =
    OnSome-eq Uniquely (iput c i) c' (iput-IsUnique c i l u used) e
step-IsUnique {c} {c'} u (changes i d addrs size type nlink l used) =
    same_inode c.inode i _ l u refl refl used

-- From a cache without references on, after any operations on it in any order, no two places in
-- use hold the same inode.
pub icache-IsUnique :
    (c c' : Icache) → ((k : ℕ) → (c.inode k).ref ≡ 0) → Reach c c' → IsUnique c'.inode
icache-IsUnique c c' empty start = λ i j li lj used same. absurd (omega (arith, empty i))
icache-IsUnique c c' empty (after {c1} {c2} r s) = step-IsUnique (icache-IsUnique c c1 empty r) s
