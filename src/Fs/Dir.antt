-- ===== src/Fs/Dir.antt =====
-- Directories in kernel/fs.c, with `strncmp` and `strncpy` of kernel/string.c on their names. A name
-- is the list of its characters up to the terminating 0, or of DIRSIZ characters without one.
pub mod Names
pub mod Link
use northos.Prelude.{
  ℕ, zero, suc, ◌+◌, ◌-◌, ◌*◌, ◌/◌, ◌%◌, ◌^◌, Bool, true, false, not, ◌&&◌, List, [], ◌∷◌, ◌++◌,
  length, drop, get_or, Option, none, some, ltb, leb, ◌==◌, if◌then◌else◌, update,
}
use northos.Prelude.Int.{ℤ, pos, negsuc, sub_ℕ}
use northos.Fs.Bitmap.{Disk, ◌>>=◌}
use northos.Fs.File.{Inode, Device, readi, writei}
use northos.Fs.Inodes.{Icache, iget, iput}

-- DIRSIZ, sizeof(struct dirent) and T_DIR
abbrev pub dirsiz : ℕ
dirsiz = 14

abbrev pub dirent_size : ℕ
dirent_size = 16

abbrev pub t_dir : ℕ
t_dir = 1

abbrev pub head : List ℕ → ℕ
head [] = 0
head (c ∷ s) = c

abbrev pub tail : List ℕ → List ℕ
tail [] = []
tail (c ∷ s) = s

-- while (n > 0 && *p && *p == *q) n--, p++, q++; return n == 0 ? 0 : *p - *q;
unfoldable pub strncmp : List ℕ → List ℕ → ℕ → ℤ
strncmp p q zero = pos 0
strncmp [] q (suc n) = sub_ℕ 0 (head q)
strncmp (c ∷ p) q (suc n) =
    let more = strncmp p (tail q) n in
    if not (c == 0) && c == head q then more else sub_ℕ c (head q)

-- The n characters that are at the destination then.
unfoldable pub strncpy : List ℕ → ℕ → List ℕ
strncpy t zero = []
strncpy t (suc n) = head t ∷ strncpy (tail t) n

abbrev pub is_pos_zero : ℤ → Bool
is_pos_zero (pos n) = n == 0
is_pos_zero (negsuc n) = false

-- namecmp(s, t) == 0
abbrev pub same_name : List ℕ → List ℕ → Bool
same_name s t = is_pos_zero (strncmp s t dirsiz)

-- `struct dirent`: the two bytes of `inum`, then the name.
abbrev pub entry_inum : List ℕ → ℕ
entry_inum e = get_or e 0 0 + 256 * get_or e 1 0

abbrev pub entry_name : List ℕ → List ℕ
entry_name e = drop 2 e

unfoldable pub new_entry : List ℕ → ℕ → List ℕ
new_entry name inum = inum % 256 ∷ inum / 256 % 256 ∷ strncpy name dirsiz

-- readi(dp, (char *)&de, off, sizeof(de)) != sizeof(de) is a panic.
abbrev pub whole_entry : Disk × Inode × Option (List ℕ) → Option (Disk × Inode × List ℕ)
whole_entry (d, ip, none) = none
whole_entry (d, ip, some e) = if length e == dirent_size then some (d, ip, e) else none

unfoldable pub read_entry : (ℕ → Option Device) → Disk → Inode → ℕ → Option (Disk × Inode × List ℕ)
read_entry devsw d ip off = readi devsw d ip off dirent_size >>= whole_entry

-- The loop of `dirlookup`, from `off` on: the number and the offset of the entry with the name. The
-- rounds left come first, here and below.
unfoldable pub find_entry :
    (ℕ → Option Device) → List ℕ → ℕ → ℕ → Disk → Inode → Option (Disk × Inode × Option (ℕ × ℕ))
find_entry devsw name zero off d ip = some (d, ip, none)
find_entry devsw name (suc r) off d ip =
    let next = (do
      (d1, ip1, e) ← read_entry devsw d ip off
      let more = find_entry devsw name r (off + dirent_size) d1 ip1
      if entry_inum e == 0
          then more
          else if same_name name (entry_name e)
          then some (d1, ip1, some (entry_inum e, off))
          else more) in
    if ltb off ip.size then next else some (d, ip, none)

-- The loop of `dirlink`: the offset of the first entry not in use, or that of the end.
unfoldable pub find_unused : (ℕ → Option Device) → ℕ → ℕ → Disk → Inode → Option (Disk × Inode × ℕ)
find_unused devsw zero off d ip = some (d, ip, off)
find_unused devsw (suc r) off d ip =
    let next = (do
      (d1, ip1, e) ← read_entry devsw d ip off
      let more = find_unused devsw r (off + dirent_size) d1 ip1
      if entry_inum e == 0 then some (d1, ip1, off) else more) in
    if ltb off ip.size then next else some (d, ip, off)

-- writei(dp, (char *)&de, off, sizeof(de)) != sizeof(de) is a panic.
abbrev pub all_written : Disk × Inode × Option ℕ → Option (Disk × Inode)
all_written (d, ip, none) = none
all_written (d, ip, some n) = if n == dirent_size then some (d, ip) else none

-- The part of `dirlink` from its loop on.
unfoldable pub link_entry : (ℕ → Option Device) → Disk → Inode → List ℕ → ℕ → Option (Disk × Inode)
unfolding find_unused
link_entry devsw d ip name inum = do
  (d1, ip1, off) ← find_unused devsw ip.size 0 d ip
  r ← writei devsw d1 ip1 (new_entry name inum) off
  all_written r

-- The inode cache with the disk and the inode at place i afterwards.
abbrev pub put_inode : Icache → ℕ → Disk → Inode → Icache
put_inode c i d ip = record c { disk = d; inode = update c.inode i ip }

abbrev pub get_entry : Icache → ℕ → Option (ℕ × ℕ) → Option (Icache × Option (ℕ × ℕ))
get_entry c dev none = some (c, none)
get_entry c dev (some (inum, off)) = do (c', i) ← iget c dev inum; some (c', some (i, off))

-- The inode's place and the offset, or 0.
unfoldable pub dirlookup :
    (ℕ → Option Device) → Icache → ℕ → List ℕ → Option (Icache × Option (ℕ × ℕ))
unfolding find_entry
dirlookup devsw c i name =
    if (c.inode i).type == t_dir
    then (do
      (d, ip, found) ← find_entry devsw name (c.inode i).size 0 c.disk (c.inode i)
      get_entry (put_inode c i d ip) (c.inode i).dev found)
    else none

-- After the `dirlookup` of `dirlink`. It returns 0 or, where the name is there already, -1.
abbrev pub link_missing :
    (ℕ → Option Device) → ℕ → List ℕ → ℕ → Icache × Option (ℕ × ℕ) → Option (Icache × Bool)
link_missing devsw i name inum (c, some (j, off)) = do c' ← iput c j; some (c', false)
link_missing devsw i name inum (c, none) = do
  (d, ip) ← link_entry devsw c.disk (c.inode i) name inum
  some (put_inode c i d ip, true)

unfoldable pub dirlink : (ℕ → Option Device) → Icache → ℕ → List ℕ → ℕ → Option (Icache × Bool)
dirlink devsw c i name inum = dirlookup devsw c i name >>= link_missing devsw i name inum
