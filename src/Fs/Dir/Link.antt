-- ===== src/Fs/Dir/Link.antt =====
-- The bytes of a directory under `dirlookup` and `dirlink` of kernel/fs.c.
pub mod Found
use northos.Prelude.{
  ℕ, zero, suc, ◌+◌, ◌-◌, ◌*◌, ◌%◌, ◌^◌, min, ◌<◌, ◌≤◌, ◌≡◌, refl, sym, ap, subst, ◌∙◌, inl, inr,
  Bool-cases, true, false, List, length, Option, none, some, ltb, ◌==◌, if◌then◌else◌, arith,
}
use northos.Fs.Bitmap.{Disk, ◌>>=◌, OnSome-bind, OnSome-eq, OnSome-cases}
use northos.Fs.File.{Inode, Device, writei, slice}
use northos.Fs.File.Content.{
  content, reach, length-slice, slice-ext, slice-list, overwrite-inside, overwrite-outside,
}
use northos.Fs.File.ReadWrite.{IsFile, readi-content, Wrote, writei-Wrote, bigger}
use northos.Fs.Dir.{
  dirsiz, dirent_size, same_name, entry_inum, entry_name, new_entry, strncpy, read_entry,
  find_entry, find_unused, all_written, link_entry,
}
use northos.Fs.Dir.Names.{IsName, same_name-strncpy, length-strncpy}

-- The entry at an offset of a directory's bytes, and the searches as functions of those.
abbrev entry_at : (ℕ → ℕ) → ℕ → List ℕ
entry_at f off = slice f off dirent_size

look : (ℕ → ℕ) → ℕ → List ℕ → ℕ → ℕ → Option (ℕ × ℕ)
look f size name zero off = none
look f size name (suc r) off =
    let more = look f size name r (off + dirent_size) in
    if ltb off size
    then if entry_inum (entry_at f off) == 0
      then more
      else if same_name name (entry_name (entry_at f off))
      then some (entry_inum (entry_at f off), off)
      else more
    else none

unused_at : (ℕ → ℕ) → ℕ → ℕ → ℕ → ℕ
unused_at f size zero off = off
unused_at f size (suc r) off =
    let more = unused_at f size r (off + dirent_size) in
    if ltb off size then if entry_inum (entry_at f off) == 0 then off else more else off

module _ (devsw : ℕ → Option Device) (d : Disk) (ip : Inode) (f : IsFile d ip)
    (even : ip.size % dirent_size ≡ 0) where
  read_entry-there :
      (off : ℕ)
      → off % dirent_size ≡ 0
      → off < ip.size
      → read_entry devsw d ip off ≡ some (d, ip, entry_at (content d ip) off)
  unfolding read_entry
  read_entry-there off aligned inside =
      let small = f.small in
      let room : off + dirent_size ≤ ip.size = omega arith in
      let count : min dirent_size (ip.size - off) ≡ dirent_size = omega arith in
      rw
        (
          readi-content devsw d ip off dirent_size f (omega arith) (omega arith),
          count,
          length-slice (content d ip) off dirent_size,
        )
        refl

  find_entry-look :
      (name : List ℕ) (r off : ℕ)
      → off % dirent_size ≡ 0
      → find_entry devsw name r off d ip ≡ some (d, ip, look (content d ip) ip.size name r off)
  unfolding find_entry look
  find_entry-look name zero off aligned = refl
  find_entry-look name (suc r) off aligned =
      let more = find_entry-look name r (off + dirent_size) (omega arith) in
      elim (Bool-cases (ltb off ip.size)) [
        | inr end ↦ rw end refl
        | inl inside ↦ elim (Bool-cases (entry_inum (entry_at (content d ip) off) == 0)) [
          | inl unused ↦ rw (inside, read_entry-there off aligned (ground arith), unused) more
          | inr used ↦
              elim (Bool-cases (same_name name (entry_name (entry_at (content d ip) off)))) [
                | inl same ↦
                    rw (inside, read_entry-there off aligned (ground arith), used, same) refl
                | inr other ↦
                    rw (inside, read_entry-there off aligned (ground arith), used, other) more
              ]
        ]
      ]

  find_unused-unused_at :
      (r off : ℕ)
      → off % dirent_size ≡ 0
      → find_unused devsw r off d ip ≡ some (d, ip, unused_at (content d ip) ip.size r off)
  unfolding find_unused unused_at
  find_unused-unused_at zero off aligned = refl
  find_unused-unused_at (suc r) off aligned =
      let more = find_unused-unused_at r (off + dirent_size) (omega arith) in
      elim (Bool-cases (ltb off ip.size)) [
        | inr end ↦ rw end refl
        | inl inside ↦ elim (Bool-cases (entry_inum (entry_at (content d ip) off) == 0)) [
          | inl unused ↦ rw (inside, read_entry-there off aligned (ground arith), unused) refl
          | inr used ↦ rw (inside, read_entry-there off aligned (ground arith), used) more
        ]
      ]

unused_at-le : (f : ℕ → ℕ) (size r off : ℕ) → off ≤ unused_at f size r off
unfolding unused_at
unused_at-le f size zero off = omega arith
unused_at-le f size (suc r) off =
    let more = unused_at-le f size r (off + dirent_size) in
    elim (Bool-cases (ltb off size)) [
      | inr end ↦ rw end (omega arith)
      | inl inside ↦ elim (Bool-cases (entry_inum (entry_at f off) == 0)) [
        | inl unused ↦ rw (inside, unused) (omega arith)
        | inr used ↦ rw (inside, used) (omega arith)
      ]
    ]

unused_at-fits :
    (f : ℕ → ℕ) (size r off : ℕ)
    → off ≤ size
    → off % dirent_size ≡ 0
    → size % dirent_size ≡ 0
    → (unused_at f size r off ≤ size) × (unused_at f size r off % dirent_size ≡ 0)
unfolding unused_at
unused_at-fits f size zero off h a b = (h, a)
unused_at-fits f size (suc r) off h a b = elim (Bool-cases (ltb off size)) [
  | inr end ↦ rw end (h, a)
  | inl inside ↦ elim (Bool-cases (entry_inum (entry_at f off) == 0)) [
    | inl unused ↦ rw (inside, unused) (h, a)
    | inr used ↦
        rw (inside, used)
          (unused_at-fits f size r (off + dirent_size) (ground arith) (omega arith) b)
  ]
]

new_entry-parts :
    (name : List ℕ) (inum : ℕ)
    → inum < 2 ^ 16
    → (length (new_entry name inum) ≡ dirent_size)
      × (entry_inum (new_entry name inum) ≡ inum)
      × (entry_name (new_entry name inum) ≡ strncpy name dirsiz)
unfolding new_entry
new_entry-parts name inum wide = (rw (length-strncpy name dirsiz) refl, omega arith, refl)

found_something : (x : ℕ × ℕ) → ◌≡◌ {A = Option (ℕ × ℕ)} (some x) none → ⊥
found_something x e = ground arith

-- An entry for the name at u, where f had the first unused one or its end.
module _ (f g : ℕ → ℕ) (size size' : ℕ) (name : List ℕ) (inum u : ℕ)
    (room : u + dirent_size ≤ size') (before : (k : ℕ) → k < u → g k ≡ f k)
    (here : entry_inum (entry_at g u) ≡ inum) (used : 0 < inum)
    (same : same_name name (entry_name (entry_at g u)) ≡ true)
    (whole : size % dirent_size ≡ 0) where
  look_there : (r : ℕ) → look g size' name (suc r) u ≡ some (inum, u)
  unfolding look
  look_there r =
      let inside : ltb u size' ≡ true = ground arith in
      let in_use : (entry_inum (entry_at g u) == 0) ≡ false = ground arith in
      rw (inside, in_use, same, here) refl

  look_after :
      (r off r' : ℕ)
      → unused_at f size r off ≡ u
      → look f size name r off ≡ none
      → off % dirent_size ≡ 0
      → u < off + r' * dirent_size
      → look g size' name r' off ≡ some (inum, u)
  unfolding look unused_at
  look_after r off zero is lost aligned l =
      let past = unused_at-le f size r off in absurd (omega (arith, is))
  look_after zero off (suc r') is lost aligned l =
      subst (λ o. look g size' name (suc r') o ≡ some (inum, u)) (sym is) (look_there r')
  look_after (suc r) off (suc r') is lost aligned l =
      let rec = look_after r (off + dirent_size) r' in
      let at_end = λ (e : off ≡ u).
        subst (λ o. look g size' name (suc r') o ≡ some (inum, u)) (sym e) (look_there r') in
      elim (Bool-cases (ltb off size)) [
        | inr end ↦ at_end (rw end at is)
        | inl inside ↦ elim (Bool-cases (entry_inum (entry_at f off) == 0)) [
          | inl unused ↦ at_end (rw (inside, unused) at is)
          | inr in_use ↦
              let is' : unused_at f size r (off + dirent_size) ≡ u = rw (inside, in_use) at is in
              let past = unused_at-le f size r (off + dirent_size) in
              let kept : entry_at g off ≡ entry_at f off =
                slice-ext g f off off dirent_size (λ j b. before (off + j) (omega (arith, is'))) in
              let inside' : ltb off size' ≡ true = ground (arith, is') in
              elim (Bool-cases (same_name name (entry_name (entry_at f off)))) [
                | inl found ↦ absurd (
                    found_something (entry_inum (entry_at f off), off)
                      (rw (inside, in_use, found) at lost))
                | inr other ↦
                    rw (inside', kept, in_use, other)
                      (rec is' (rw (inside, in_use, other) at lost) (omega arith) (omega arith))
              ]
        ]
      ]
