-- ===== src/Fs/File.antt =====
-- The content of a file: `bmap`, `readi`, `writei` and `iupdate` of kernel/fs.c. The functions run
-- with the inode locked, so that they take the inode and return it. Offsets and counts do not wrap
-- but where the code tests for it.
pub mod Slots
pub mod Content
pub mod Loops
pub mod ReadWrite
use northos.Prelude.{
  ℕ, zero, suc, ◌+◌, ◌-◌, ◌*◌, ◌/◌, ◌%◌, ◌^◌, min, Bool, ◌&&◌, ◌||◌, List, [], ◌∷◌, ◌++◌, length,
  take, drop, Option, none, some, ltb, leb, ◌==◌, if◌then◌else◌, update,
}
use northos.Fs.Bitmap.{Disk, Dinode, balloc, bsize, ◌>>=◌}

-- NDIRECT, NINDIRECT, NDINDIRECT and MAXFILE
abbrev pub ndirect : ℕ
ndirect = 10

abbrev pub nindirect : ℕ
nindirect = 512

abbrev pub ndindirect : ℕ
ndindirect = 262144

abbrev pub maxfile : ℕ
maxfile = 262666

-- NDEV and T_DEV
abbrev pub ndev : ℕ
ndev = 10

abbrev pub t_dev : ℕ
t_dev = 3

-- `struct inode`. `addrs` has NDIRECT + 1 words: the word at NDIRECT + 1, which `bmap` uses, is the
-- one that lies behind the structure.
pub record Inode : Type 0 where
  pub dev : ℕ
  pub inum : ℕ
  pub ref : ℕ
  pub valid : Bool
  pub type : ℕ
  pub major : ℕ
  pub minor : ℕ
  pub nlink : ℕ
  pub size : ℕ
  pub addrs : ℕ → ℕ

-- if ((addr = ip->addrs[i]) == 0) ip->addrs[i] = addr = balloc(ip->dev);
unfoldable pub addr_at : Disk → Inode → ℕ → Option (Disk × Inode × ℕ)
addr_at d ip i =
    if ip.addrs i == 0
    then (do (d', b) ← balloc d; some (d', record ip { addrs = update ip.addrs i b }, b))
    else some (d, ip, ip.addrs i)

-- if ((addr = a[i]) == 0) { a[i] = addr = balloc(ip->dev); log_write(bp); }, for a in block t
unfoldable pub word_at : Disk → ℕ → ℕ → Option (Disk × ℕ)
word_at d t i =
    if d.words t i == 0
    then (do
      (d', b) ← balloc d
      some (record d' { words = update d'.words t (update (d'.words t) i b) }, b))
    else some (d, d.words t i)

-- The branch of `bmap` for the blocks of the indirect block, and the one for the double one.
unfoldable pub bmap_single : Disk → Inode → ℕ → Option (Disk × Inode × ℕ)
bmap_single d ip i = do
  (d1, ip1, t) ← addr_at d ip ndirect
  (d2, b) ← word_at d1 t i
  some (d2, ip1, b)

unfoldable pub bmap_double : Disk → Inode → ℕ → Option (Disk × Inode × ℕ)
bmap_double d ip i = do
  (d1, ip1, t) ← addr_at d ip (ndirect + 1)
  (d2, u) ← word_at d1 t (i / nindirect)
  (d3, b) ← word_at d2 u (i % nindirect)
  some (d3, ip1, b)

unfoldable pub bmap : Disk → Inode → ℕ → Option (Disk × Inode × ℕ)
bmap d ip bn =
    if ltb bn ndirect
    then addr_at d ip bn
    else if ltb (bn - ndirect) nindirect
    then bmap_single d ip (bn - ndirect)
    else if ltb (bn - ndirect - nindirect) ndindirect
    then bmap_double d ip (bn - ndirect - nindirect)
    else none

-- `iupdate`: of the addresses the NDIRECT + 1 of the structure are copied.
unfoldable pub iupdate : Disk → Inode → Disk
iupdate d ip = record d {
  dinodes = update d.dinodes ip.inum (record {
    type = ip.type;
    major = ip.major;
    minor = ip.minor;
    nlink = ip.nlink;
    size = ip.size;
    addrs = λ i. if ltb i (ndirect + 1) then ip.addrs i else (d.dinodes ip.inum).addrs i;
  });
}

-- m = MIN(n - tot, BSIZE - off % BSIZE)
abbrev pub chunk : ℕ → ℕ → ℕ
chunk off left = min left (bsize - off % bsize)

-- n bytes of a block from byte i on.
pub slice : (ℕ → ℕ) → ℕ → ℕ → List ℕ
slice f i zero = []
slice f i (suc n) = f i ∷ slice f (i + 1) n

-- memmove(bp->data + i, src, n), for the bytes given.
unfoldable pub overwrite : (ℕ → ℕ) → ℕ → List ℕ → ℕ → ℕ
overwrite f i [] = f
overwrite f i (x ∷ xs) = overwrite (update f i x) (i + 1) xs

-- The loop of `readi`, for `left` bytes from `off` on, with the rounds left first.
pub read_from : ℕ → Disk → Inode → ℕ → ℕ → Option (Disk × Inode × List ℕ)
read_from zero d ip off left = some (d, ip, [])
read_from (suc r) d ip off left =
    let more = (do
      (d1, ip1, b) ← bmap d ip (off / bsize)
      (d2, ip2, rest) ← read_from r d1 ip1 (off + chunk off left) (left - chunk off left)
      some (d2, ip2, slice (d1.bytes b) (off % bsize) (chunk off left) ++ rest)) in
    if left == 0 then some (d, ip, []) else more

-- The functions of a device: what its `read` returns for a count, and its `write` for the bytes.
pub record Device : Type 0 where
  pub read : ℕ → Option (List ℕ)
  pub write : List ℕ → Option ℕ

-- devsw[ip->major], where there is one.
abbrev pub device : (ℕ → Option Device) → Inode → Option Device
device devsw ip = if leb ndev ip.major then none else devsw ip.major

-- The inner `none` is -1.
abbrev pub read_device : Disk → Inode → ℕ → Option Device → Option (Disk × Inode × Option (List ℕ))
read_device d ip n none = some (d, ip, none)
read_device d ip n (some dev) = some (d, ip, dev.read n)

unfoldable pub readi :
    (ℕ → Option Device) → Disk → Inode → ℕ → ℕ → Option (Disk × Inode × Option (List ℕ))
readi devsw d ip off n =
    if ip.type == t_dev
    then read_device d ip n (device devsw ip)
    else if ltb ip.size off || ltb ((off + n) % 2 ^ 32) off
    then some (d, ip, none)
    else do
      let m = if ltb ip.size ((off + n) % 2 ^ 32) then ip.size - off else n
      (d', ip', bytes) ← read_from m d ip off m
      some (d', ip', some bytes)

-- The loop of `writei`, for the bytes from `off` on.
unfoldable pub write_from : ℕ → Disk → Inode → ℕ → List ℕ → Option (Disk × Inode)
write_from zero d ip off src = some (d, ip)
write_from (suc r) d ip off src =
    let m = chunk off (length src) in
    let more = (do
      (d1, ip1, b) ← bmap d ip (off / bsize)
      let block = overwrite (d1.bytes b) (off % bsize) (take m src)
      write_from r (record d1 { bytes = update d1.bytes b block }) ip1 (off + m) (drop m src)) in
    if length src == 0 then some (d, ip) else more

abbrev pub write_device : Disk → Inode → List ℕ → Option Device → Option (Disk × Inode × Option ℕ)
write_device d ip src none = some (d, ip, none)
write_device d ip src (some dev) = some (d, ip, dev.write src)

-- if (n > 0 && off > ip->size) { ip->size = off; iupdate(ip); }
unfoldable pub grow : Disk → Inode → ℕ → ℕ → Disk × Inode
grow d ip off n =
    if ltb 0 n && ltb ip.size off
    then (iupdate d (record ip { size = off }), record ip { size = off })
    else (d, ip)

unfoldable pub writei :
    (ℕ → Option Device) → Disk → Inode → List ℕ → ℕ → Option (Disk × Inode × Option ℕ)
writei devsw d ip src off =
    if ip.type == t_dev
    then write_device d ip src (device devsw ip)
    else if ltb ip.size off || ltb ((off + length src) % 2 ^ 32) off
    then some (d, ip, none)
    else if ltb (maxfile * bsize) ((off + length src) % 2 ^ 32)
    then some (d, ip, none)
    else do
      (d', ip') ← write_from (length src) d ip off src
      let (d'', ip'') = grow d' ip' (off + length src) (length src)
      some (d'', ip'', some (length src))
