-- ===== src/Files.antt =====
-- kernel/file.c: the table of open files, over pipes and inodes. A file, a pipe and an inode are known
-- by their places. A count is the length of a list, or a natural number: a negative count writes
-- nothing. The transactions around a write and around the last reference to an inode, begin_op and
-- end_op, are those of Log, and are left out here, as are the locks. `none` is a panic.
pub mod Chunks
mod Tests
use northos.Prelude.{
  ℕ, zero, suc, ◌+◌, ◌-◌, ◌*◌, min, Bool, true, false, List, [], ◌∷◌, length, take, drop, Option,
  none, some, ltb, ◌==◌, if◌then◌else◌, update,
}
use northos.Pipe.{
  Pipe, pipeclose, Read, got, killed_reader, sleeps, piperead, Write, wrote, fails, waits,
  pipewrite,
}
use northos.Fs.Bitmap.{Disk, ◌>>=◌}
use northos.Fs.File.{Inode, Device, readi, writei}
use northos.Fs.Inodes.{Icache, ilock, iunlock, iput}
use northos.Fs.Dir.{put_inode}

-- NFILE
abbrev pub nfile : ℕ
nfile = 100

pub data FileType : Type 0 where
  fd_none : FileType
  fd_pipe : FileType
  fd_inode : FileType

pub record File : Type 0 where
  pub type : FileType
  pub ref : ℕ
  pub readable : Bool
  pub writable : Bool
  pub pipe : ℕ
  pub ip : ℕ
  pub off : ℕ

-- `ftable`, and what the files stand for.
pub record Ftable : Type 0 where
  pub file : ℕ → File
  pub pipes : ℕ → Pipe
  pub inodes : Icache

abbrev pub set_file : Ftable → ℕ → File → Ftable
set_file t f v = record t { file = update t.file f v }

-- The loop of `filealloc`. The rounds left come first.
unfoldable pub find_file : ℕ → ℕ → (ℕ → File) → Option ℕ
find_file zero f file = none
find_file (suc r) f file =
    let more = find_file r (f + 1) file in if (file f).ref == 0 then some f else more

abbrev pub take_file : Ftable → Option ℕ → Ftable × Option ℕ
take_file t none = (t, none)
take_file t (some f) = (set_file t f (record (t.file f) { ref = 1 }), some f)

-- The inner `none` is 0.
unfoldable pub filealloc : Ftable → Ftable × Option ℕ
filealloc t = take_file t (find_file nfile 0 t.file)

unfoldable pub filedup : Ftable → ℕ → Option Ftable
filedup t f =
    if ltb (t.file f).ref 1
    then none
    else some (set_file t f (record (t.file f) { ref = (t.file f).ref + 1 }))

-- What is done with what the file `ff` stood for.
abbrev pub close_object : Ftable → File → FileType → Option Ftable
close_object t ff fd_none = some t
close_object t ff fd_pipe =
    some (record t { pipes = update t.pipes ff.pipe (pipeclose (t.pipes ff.pipe) ff.writable).0 })
close_object t ff fd_inode = do c ← iput t.inodes ff.ip; some (record t { inodes = c })

unfoldable pub fileclose : Ftable → ℕ → Option Ftable
fileclose t f =
    if ltb (t.file f).ref 1
    then none
    else if ltb 0 ((t.file f).ref - 1)
    then some (set_file t f (record (t.file f) { ref = (t.file f).ref - 1 }))
    else close_object (set_file t f (record (t.file f) { ref = 0; type = fd_none })) (t.file f)
        (t.file f).type

-- A call returns, -1 being `none`, or its process sleeps at a pipe.
pub data Outcome (A : Type 0) : Type 0 where
  returns : Option A → Outcome A
  asleep : Outcome A

abbrev pub read_pipe : Ftable → ℕ → Read → Ftable × Outcome (List ℕ)
read_pipe t p (got xs pipe) = (record t { pipes = update t.pipes p pipe }, returns (some xs))
read_pipe t p killed_reader = (t, returns none)
read_pipe t p sleeps = (t, asleep)

-- if ((r = readi(...)) > 0) f->off += r;
abbrev pub count_read : Option (List ℕ) → ℕ
count_read none = 0
count_read (some xs) = length xs

abbrev pub read_inode : (ℕ → Option Device) → Ftable → ℕ → ℕ → Option (Ftable × Outcome (List ℕ))
read_inode devsw t f n = do
  c ← ilock t.inodes (t.file f).ip
  (d, ip, r) ← readi devsw c.disk (c.inode (t.file f).ip) (t.file f).off n
  c' ← iunlock (put_inode c (t.file f).ip d ip) (t.file f).ip
  some (
    set_file (record t { inodes = c' }) f
        (record (t.file f) { off = (t.file f).off + count_read r }),
    returns r,
  )

abbrev pub read_as :
    (ℕ → Option Device) → Bool → Ftable → ℕ → ℕ → FileType → Option (Ftable × Outcome (List ℕ))
read_as devsw killed t f n fd_none = none
read_as devsw killed t f n fd_pipe =
    some (read_pipe t (t.file f).pipe (piperead killed (t.pipes (t.file f).pipe) n))
read_as devsw killed t f n fd_inode = read_inode devsw t f n

unfoldable pub fileread :
    (ℕ → Option Device) → Bool → Ftable → ℕ → ℕ → Option (Ftable × Outcome (List ℕ))
fileread devsw killed t f n =
    if (t.file f).readable
    then read_as devsw killed t f n (t.file f).type
    else some (t, returns none)

-- ((MAXOPBLOCKS - 1 - 1 - 2) / 2) * 512
abbrev pub max_write : ℕ
max_write = 1536

-- What the loop of `filewrite` does after its `writei` of n1 bytes: it goes on, or ends with -1.
pub data Round : Type 0 where
  goes_on : Icache → ℕ → Round
  breaks : Icache → Round

abbrev pub end_round : Icache → ℕ → ℕ → Option ℕ → Option Round
end_round c off n1 none = some (breaks c)
end_round c off n1 (some r) = if r == n1 then some (goes_on c (off + r)) else none

unfoldable pub write_round : (ℕ → Option Device) → Icache → ℕ → ℕ → List ℕ → Option Round
write_round devsw c i off src = do
  c1 ← ilock c i
  (d, ip, r) ← writei devsw c1.disk (c1.inode i) src off
  c2 ← iunlock (put_inode c1 i d ip) i
  end_round c2 off (length src) r

-- The loop of `filewrite`, for the bytes left, with the offset and whether all has been written. A
-- round writes at least one byte. The rounds left come first.
pub write_rounds : (ℕ → Option Device) → ℕ → Icache → ℕ → ℕ → List ℕ → Option (Icache × ℕ × Bool)
write_rounds devsw zero c i off src = some (c, off, true)
write_rounds devsw (suc r) c i off src =
    let next = (do
      round ← write_round devsw c i off (take (min (length src) max_write) src)
      elim round [
        | goes_on c' off' ↦ write_rounds devsw r c' i off' (drop (min (length src) max_write) src)
        | breaks c' ↦ some (c', off, false)
      ]) in
    if length src == 0 then some (c, off, true) else next

abbrev pub write_inode : (ℕ → Option Device) → Ftable → ℕ → List ℕ → Option (Ftable × Outcome ℕ)
unfolding write_rounds
write_inode devsw t f src = do
  (c, off, all) ← write_rounds devsw (length src) t.inodes (t.file f).ip (t.file f).off src
  some (
    set_file (record t { inodes = c }) f (record (t.file f) { off = off }),
    returns (if all then some (length src) else none),
  )

abbrev pub write_pipe : Ftable → ℕ → ℕ → Write → Ftable × Outcome ℕ
write_pipe t p n (wrote pipe) = (record t { pipes = update t.pipes p pipe }, returns (some n))
write_pipe t p n (fails pipe rest) = (record t { pipes = update t.pipes p pipe }, returns none)
write_pipe t p n (waits pipe rest) = (record t { pipes = update t.pipes p pipe }, asleep)

abbrev pub write_as :
    (ℕ → Option Device) → Bool → Ftable → ℕ → List ℕ → FileType → Option (Ftable × Outcome ℕ)
unfolding write_inode
write_as devsw killed t f src fd_none = none
write_as devsw killed t f src fd_pipe =
    some
      (write_pipe t (t.file f).pipe (length src) (pipewrite killed (t.pipes (t.file f).pipe) src))
write_as devsw killed t f src fd_inode = write_inode devsw t f src

unfoldable pub filewrite :
    (ℕ → Option Device) → Bool → Ftable → ℕ → List ℕ → Option (Ftable × Outcome ℕ)
unfolding write_as
filewrite devsw killed t f src =
    if (t.file f).writable
    then write_as devsw killed t f src (t.file f).type
    else some (t, returns none)
