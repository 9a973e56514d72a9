-- ===== src/Fs/Dir/Link/Found.antt =====
-- `dirlookup` of kernel/fs.c after `dirlink`.
use northos.Prelude.{
  ℕ, ◌+◌, ◌%◌, ◌^◌, ◌<◌, ◌≤◌, ◌≡◌, refl, sym, ap, ◌∙◌, inl, true, List, length, Option, none, some,
  arith,
}
use northos.Fs.Bitmap.{Disk, ◌>>=◌, OnSome-bind, OnSome-eq, OnSome-cases}
use northos.Fs.File.{Inode, Device, writei, slice}
use northos.Fs.File.Content.{content, reach, slice-list, overwrite-inside, overwrite-outside}
use northos.Fs.File.ReadWrite.{IsFile, Wrote, writei-Wrote, bigger}
use northos.Fs.Dir.{
  dirent_size, same_name, entry_inum, entry_name, new_entry, find_entry, all_written, link_entry,
}
use northos.Fs.Dir.Names.{IsName, same_name-strncpy}
use northos.Fs.Dir.Link.{
  entry_at, look, unused_at, find_entry-look, find_unused-unused_at, unused_at-fits,
  new_entry-parts, look_after,
}

-- The entry in the bytes of the directory.
entry_there :
    (d : Disk) (ip : Inode) (u : ℕ) (entry : List ℕ) (r : Disk × Inode × Option ℕ)
    → u + dirent_size ≤ reach
    → length entry ≡ dirent_size
    → Wrote d ip u entry r
    → entry_at (content r.0 r.1) u ≡ entry
entry_there d ip u entry (d1, ip1, result) room sized w =
    sym (ap (slice (content d1 ip1) u) sized)
    ∙ slice-list (content d1 ip1) u entry (λ j l.
      w.bytes (u + j) (omega (arith, sized)) ∙ overwrite-inside (content d ip) u entry j l)

found_after :
    (devsw : ℕ → Option Device) (d : Disk) (ip : Inode) (name : List ℕ) (inum u : ℕ)
    (r : Disk × Inode × Option ℕ)
    → ip.size % dirent_size ≡ 0
    → ip.size + dirent_size ≤ reach
    → IsName name
    → 0 < inum
    → inum < 2 ^ 16
    → unused_at (content d ip) ip.size ip.size 0 ≡ u
    → look (content d ip) ip.size name ip.size 0 ≡ none
    → u ≤ ip.size
    → u % dirent_size ≡ 0
    → Wrote d ip u (new_entry name inum) r
    → find_entry devsw name r.1.size 0 r.0 r.1 ≡ some (r.0, r.1, some (inum, u))
found_after devsw d ip name inum u (d1, ip1, result) whole room is_name used wide is lost low
      aligned w =
    let (sized, its_inum, its_name) = new_entry-parts name inum wide in
    let there = entry_there d ip u (new_entry name inum) (d1, ip1, result) (omega arith) sized w in
    let grown : ip1.size ≡ bigger ip.size (u + dirent_size) =
      rw w.size (ap (λ n. bigger ip.size (u + n)) sized) in
    let big : u + dirent_size ≤ ip1.size = ground (arith, grown) in
    let even : ip1.size % dirent_size ≡ 0 = ground (arith, grown) in
    let before = λ (k : ℕ) (l : k < u).
      w.bytes k (omega arith)
      ∙ overwrite-outside (content d ip) u (new_entry name inum) k (inl l) in
    let here : entry_inum (entry_at (content d1 ip1) u) ≡ inum = ap entry_inum there ∙ its_inum in
    let same : same_name name (entry_name (entry_at (content d1 ip1) u)) ≡ true =
      ap (λ e. same_name name (entry_name e)) there
      ∙ ap (same_name name) its_name
      ∙ same_name-strncpy name is_name in
    find_entry-look devsw d1 ip1 w.file even name ip1.size 0 refl
    ∙ ap (λ found. some (d1, ip1, found))
        (look_after (content d ip) (content d1 ip1) ip.size ip1.size name inum u big before here
          used same whole ip.size 0 ip1.size is lost refl (omega arith))

third :
    {d d' : Disk} {ip ip' : Inode} {a b : Option (ℕ × ℕ)}
    → ◌≡◌ {A = Option (Disk × Inode × Option (ℕ × ℕ))} (some (d, ip, a)) (some (d', ip', b))
    → a ≡ b
third e = cc

-- In a directory of whole entries that another one keeps below the double-indirect blocks, where
-- `dirlookup` does not find a name without zeros: `dirlink` of the name with an inode's number, which
-- is not 0 and fits in 16 bits, leaves, where it does not panic, a directory in which `dirlookup`
-- finds this number under the name.
pub find_entry-link_entry :
    (devsw : ℕ → Option Device) (d : Disk) (ip : Inode) (name : List ℕ) (inum : ℕ) {d' : Disk}
    {ip' : Inode}
    → IsFile d ip
    → ip.size % dirent_size ≡ 0
    → ip.size + dirent_size ≤ reach
    → IsName name
    → 0 < inum
    → inum < 2 ^ 16
    → find_entry devsw name ip.size 0 d ip ≡ some (d, ip, none)
    → link_entry devsw d ip name inum ≡ some (d', ip')
    → (off : ℕ) × (find_entry devsw name ip'.size 0 d' ip' ≡ some (d', ip', some (inum, off)))
unfolding link_entry
find_entry-link_entry devsw d ip name inum {d'} {ip'} f whole room is_name used wide lost linked =
    OnSome-eq Found (writei devsw d ip entry u >>= all_written) (d', ip')
      (OnSome-bind (Wrote d ip u entry) Found (writei devsw d ip entry u) all_written
        (OnSome-cases (Wrote d ip u entry) (writei devsw d ip entry u)
          λ r e. writei-Wrote devsw d ip entry u f fits.0 (omega (arith, fits.0, sized)) e)
        (λ (d1, ip1, result) w.
          let returned : result ≡ some dirent_size = w.count ∙ ap some sized in
          rw returned (
            u,
            found_after devsw d ip name inum u (d1, ip1, result) whole room is_name used wide refl
                lost' fits.0 fits.1 w,
          )))
      (rw (find_unused-unused_at devsw d ip f whole ip.size 0 refl) at linked)
  where
    Found : Disk × Inode → Type 0
    Found (d1, ip1) =
        (off : ℕ) × (find_entry devsw name ip1.size 0 d1 ip1 ≡ some (d1, ip1, some (inum, off)))

    entry : List ℕ
    entry = new_entry name inum

    sized : length entry ≡ dirent_size
    sized = (new_entry-parts name inum wide).0

    u : ℕ
    u = unused_at (content d ip) ip.size ip.size 0

    fits : (u ≤ ip.size) × (u % dirent_size ≡ 0)
    fits = unused_at-fits (content d ip) ip.size ip.size 0 (omega arith) refl whole

    lost' : look (content d ip) ip.size name ip.size 0 ≡ none
    lost' = third (sym (find_entry-look devsw d ip f whole name ip.size 0 refl) ∙ lost)
