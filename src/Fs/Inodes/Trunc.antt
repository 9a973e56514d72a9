-- ===== src/Fs/Inodes/Trunc.antt =====
-- What `itrunc` of kernel/fs.c leaves of an inode.
use northos.Prelude.{
  ℕ, zero, suc, ◌+◌, ◌≡◌, refl, ap, ◌∙◌, inl, inr, Bool-cases, Option, none, some, ◌==◌, update,
}
use northos.Fs.Bitmap.{Disk, OnSome, OnSome-bind, OnSome-map, bfree}
use northos.Fs.File.{Inode, ndirect, nindirect}
use northos.Fs.File.Slots.{sized}
use northos.Fs.Inodes.{
  free_block, free_direct, free_words, free_single, free_tables, free_double, itrunc,
}

abbrev Kept : Inode → Disk × Inode → Type 0
Kept ip r = r.1 ≡ sized ip r.1.addrs r.1.size

any_some {ℓ} : {A : Type ℓ} (m : Option A) → OnSome (λ a. Unit {0}) m
any_some none = tt
any_some (some a) = tt

free_direct-Kept : (r i : ℕ) (d : Disk) (ip : Inode) → OnSome (Kept ip) (free_direct r i d ip)
unfolding free_direct
free_direct-Kept zero i d ip = refl
free_direct-Kept (suc r) i d ip =
    OnSome-bind (λ d1. Unit {0}) (Kept ip) (free_block d (ip.addrs i)) _
      (any_some (free_block d (ip.addrs i)))
      λ d1 u.
        OnSome-map (Kept (record ip { addrs = update ip.addrs i 0 })) (Kept ip)
          (free_direct r (i + 1) d1 (record ip { addrs = update ip.addrs i 0 })) (λ a k. k)
          (free_direct-Kept r (i + 1) d1 (record ip { addrs = update ip.addrs i 0 }))

free_single-Kept : (d : Disk) (ip : Inode) → OnSome (Kept ip) (free_single d ip)
free_single-Kept d ip = elim (Bool-cases (ip.addrs ndirect == 0)) [
  | inl unset ↦ rw unset refl
  | inr set ↦ rw set (
      OnSome-bind (λ d1. Unit {0}) (Kept ip) (free_words nindirect 0 (ip.addrs ndirect) d) _
        (any_some (free_words nindirect 0 (ip.addrs ndirect) d))
        λ d1 u.
          OnSome-bind (λ d2. Unit {0}) (Kept ip) (bfree d1 (ip.addrs ndirect)) _
            (any_some (bfree d1 (ip.addrs ndirect))) λ d2 v. refl)
]

free_double-Kept : (d : Disk) (ip : Inode) → OnSome (Kept ip) (free_double d ip)
free_double-Kept d ip = elim (Bool-cases (ip.addrs (ndirect + 1) == 0)) [
  | inl unset ↦ rw unset refl
  | inr set ↦ rw set (
      OnSome-bind (λ d1. Unit {0}) (Kept ip) (free_tables nindirect 0 (ip.addrs (ndirect + 1)) d) _
        (any_some (free_tables nindirect 0 (ip.addrs (ndirect + 1)) d))
        λ d1 u.
          OnSome-bind (λ d2. Unit {0}) (Kept ip) (bfree d1 (ip.addrs (ndirect + 1))) _
            (any_some (bfree d1 (ip.addrs (ndirect + 1)))) λ d2 v. refl)
]

pub itrunc-Kept : (d : Disk) (ip : Inode) → OnSome (Kept ip) (itrunc d ip)
unfolding itrunc
itrunc-Kept d ip =
    OnSome-bind (Kept ip) (Kept ip) (free_direct ndirect 0 d ip) _ (free_direct-Kept ndirect 0 d ip)
      λ (d1, ip1) k1.
        OnSome-bind (Kept ip1) (Kept ip) (free_single d1 ip1) _ (free_single-Kept d1 ip1)
          λ (d2, ip2) k2.
            OnSome-bind (Kept ip2) (Kept ip) (free_double d2 ip2) _ (free_double-Kept d2 ip2)
              λ (d3, ip3) k3.
                let resized = λ (v : Inode). sized v ip3.addrs 0 in
                ap resized k3 ∙ ap resized k2 ∙ ap resized k1
