-- ===== src/Fs/Inodes.antt =====
-- The inode cache of kernel/fs.c: `iget`, `idup`, `ilock`, `iunlock`, `iput`, `itrunc` and `ialloc`.
-- An inode is known by its place in the cache; `none` is a panic. The locks are left out.
pub mod Unique
pub mod Trunc
pub mod Reach
use northos.Prelude.{
  ℕ, zero, suc, ◌+◌, ◌-◌, ◌*◌, ◌<◌, Bool, true, false, not, ◌&&◌, Option, none, some, ltb, leb,
  ◌==◌, if◌then◌else◌, update,
}
use northos.Fs.Bitmap.{Disk, Dinode, ◌>>=◌, bfree}
use northos.Fs.File.{Inode, ndirect, nindirect, iupdate}

-- NINODE
abbrev pub ninode : ℕ
ninode = 100

-- `icache`, with the disk below it.
pub record Icache : Type 0 where
  pub disk : Disk
  pub inode : ℕ → Inode

-- What the loop of `iget` comes to: the inode is in the cache, or it is not, with the first free
-- place.
pub data Lookup : Type 0 where
  hit : ℕ → Lookup
  miss : Option ℕ → Lookup

-- if (empty == 0 && ip->ref == 0) empty = ip;
abbrev pub note_empty : Option ℕ → ℕ → Inode → Option ℕ
note_empty none i ip = if ip.ref == 0 then some i else none
note_empty (some e) i ip = some e

-- ip->ref > 0 && ip->dev == dev && ip->inum == inum
abbrev pub is_cached : Inode → ℕ → ℕ → Bool
is_cached ip dev inum = ltb 0 ip.ref && ip.dev == dev && ip.inum == inum

-- The rounds left come first, here and below.
unfoldable pub find_inode : ℕ → ℕ → Option ℕ → (ℕ → Inode) → ℕ → ℕ → Lookup
find_inode zero i empty t dev inum = miss empty
find_inode (suc r) i empty t dev inum =
    let more = find_inode r (i + 1) (note_empty empty i (t i)) t dev inum in
    if is_cached (t i) dev inum then hit i else more

-- ip->ref++
abbrev pub ref_up : Icache → ℕ → Icache
ref_up c i = record c {
  inode = update c.inode i (record (c.inode i) { ref = (c.inode i).ref + 1 });
}

abbrev pub take_entry : Icache → ℕ → ℕ → Lookup → Option (Icache × ℕ)
take_entry c dev inum (hit i) = some (ref_up c i, i)
take_entry c dev inum (miss none) = none
take_entry c dev inum (miss (some i)) = some (
  record c {
    inode =
        update c.inode i (record (c.inode i) { dev = dev; inum = inum; ref = 1; valid = false });
  },
  i,
)

unfoldable pub iget : Icache → ℕ → ℕ → Option (Icache × ℕ)
unfolding find_inode
iget c dev inum = take_entry c dev inum (find_inode ninode 0 none c.inode dev inum)

unfoldable pub idup : Icache → ℕ → Icache
idup c i = ref_up c i

-- The inode as it is read from the disk.
abbrev pub load_inode : Inode → Dinode → Inode
load_inode ip dip = record ip {
  type = dip.type;
  major = dip.major;
  minor = dip.minor;
  nlink = dip.nlink;
  size = dip.size;
  addrs = λ k. if ltb k (ndirect + 1) then dip.addrs k else ip.addrs k;
  valid = true;
}

unfoldable pub ilock : Icache → ℕ → Option Icache
ilock c i =
    if ltb (c.inode i).ref 1
    then none
    else if (c.inode i).valid
    then some c
    else if (c.disk.dinodes (c.inode i).inum).type == 0
    then none
    else some (record c {
      inode = update c.inode i (load_inode (c.inode i) (c.disk.dinodes (c.inode i).inum));
    })

unfoldable pub iunlock : Icache → ℕ → Option Icache
iunlock c i = if ltb (c.inode i).ref 1 then none else some c

-- if (b) bfree(ip->dev, b);
abbrev pub free_block : Disk → ℕ → Option Disk
free_block d b = if b == 0 then some d else bfree d b

-- for (i = 0; i < NDIRECT; i++), from i on.
pub free_direct : ℕ → ℕ → Disk → Inode → Option (Disk × Inode)
free_direct zero i d ip = some (d, ip)
free_direct (suc r) i d ip = do
  d1 ← free_block d (ip.addrs i)
  free_direct r (i + 1) d1 (record ip { addrs = update ip.addrs i 0 })

-- for (j = 0; j < NINDIRECT; j++) if (a[j]) bfree(ip->dev, a[j]), from j on, with a in block t.
pub free_words : ℕ → ℕ → ℕ → Disk → Option Disk
free_words zero j t d = some d
free_words (suc r) j t d = do d1 ← free_block d (d.words t j); free_words r (j + 1) t d1

abbrev pub free_single : Disk → Inode → Option (Disk × Inode)
free_single d ip = if ip.addrs ndirect == 0 then some (d, ip) else do
  d1 ← free_words nindirect 0 (ip.addrs ndirect) d
  d2 ← bfree d1 (ip.addrs ndirect)
  some (d2, record ip { addrs = update ip.addrs ndirect 0 })

-- for (j = 0; j < NINDIRECT; j++) if (a[j]) { for (k ...) ...; bfree(ip->dev, a[j]); }
pub free_tables : ℕ → ℕ → ℕ → Disk → Option Disk
free_tables zero j t d = some d
free_tables (suc r) j t d = if d.words t j == 0 then free_tables r (j + 1) t d else do
  d1 ← free_words nindirect 0 (d.words t j) d
  d2 ← bfree d1 (d.words t j)
  free_tables r (j + 1) t d2

abbrev pub free_double : Disk → Inode → Option (Disk × Inode)
free_double d ip = if ip.addrs (ndirect + 1) == 0 then some (d, ip) else do
  d1 ← free_tables nindirect 0 (ip.addrs (ndirect + 1)) d
  d2 ← bfree d1 (ip.addrs (ndirect + 1))
  some (d2, record ip { addrs = update ip.addrs (ndirect + 1) 0 })

unfoldable pub itrunc : Disk → Inode → Option (Disk × Inode)
itrunc d ip = do
  (d1, ip1) ← free_direct ndirect 0 d ip
  (d2, ip2) ← free_single d1 ip1
  (d3, ip3) ← free_double d2 ip2
  some (iupdate d3 (record ip3 { size = 0 }), record ip3 { size = 0 })

-- The last reference to an inode without links: its contents are freed.
abbrev pub free_inode : Icache → ℕ → Option Icache
free_inode c i = do
  (d1, ip1) ← itrunc c.disk (c.inode i)
  some (record c {
    disk = iupdate d1 (record ip1 { type = 0 });
    inode = update c.inode i (record ip1 { type = 0; valid = false });
  })

-- ip->ref--
abbrev pub ref_down : Icache → ℕ → Icache
ref_down c i = record c {
  inode = update c.inode i (record (c.inode i) { ref = (c.inode i).ref - 1 });
}

unfoldable pub iput : Icache → ℕ → Option Icache
iput c i =
    if (c.inode i).valid && (c.inode i).nlink == 0 && (c.inode i).ref == 1
    then (do c' ← free_inode c i; some (ref_down c' i))
    else some (ref_down c i)

-- The loop of `ialloc`, from inum on.
pub find_dinode : ℕ → ℕ → (ℕ → Dinode) → Option ℕ
find_dinode zero inum t = none
find_dinode (suc r) inum t =
    let more = find_dinode r (inum + 1) t in if (t inum).type == 0 then some inum else more

-- memset(dip, 0, sizeof(*dip)); dip->data.type = type;
abbrev pub new_dinode : ℕ → Dinode
new_dinode type = record { type = type; major = 0; minor = 0; nlink = 0; size = 0; addrs = λ k. 0 }

unfoldable pub ialloc : Icache → ℕ → ℕ → Option (Icache × ℕ)
unfolding find_dinode
ialloc c dev type = do
  inum ← find_dinode (c.disk.ninodes - 1) 1 c.disk.dinodes
  iget
      (record c { disk = record c.disk { dinodes = update c.disk.dinodes inum (new_dinode type) } })
      dev inum
