-- ===== src/Log.antt =====
-- kernel/log.c: the redo log under the file system, on a machine that may lose power.
-- A disk block is its list of 4-byte words. `bread` and `bwrite` are seen at the level of contents:
-- `cache b` is what `bread` returns for block b (the cached copy, or else the disk's), and `bwrite`
-- also writes the disk. `power` is the number of disk writes that still succeed: where it has run
-- out the code's writes do not reach the disk, and `reboot` forgets the cache.
pub mod Header
pub mod Install
pub mod WriteLog
pub mod Recovery
pub mod Crash
pub mod Ops
mod Tests
use northos.Prelude.{
  ℕ, zero, suc, ◌+◌, ◌-◌, Bool, false, List, get_or, set, ltb, ◌==◌, if◌then◌else◌, update,
  replicate,
}

-- `int` words and block numbers are numbers; `n` is never negative.
abbrev pub Block : Type 0
Block = List ℕ

-- LOGSIZE and MAXOPBLOCKS
abbrev pub log_size : ℕ
log_size = 30

abbrev pub max_op_blocks : ℕ
max_op_blocks = 10

-- `struct log` with its header `lh` (n, block), and the machine. The lock and the device number,
-- which is one constant, are left out.
pub record Log : Type 0 where
  pub start : ℕ
  pub size : ℕ
  pub outstanding : ℕ
  pub committing : Bool
  pub n : ℕ
  pub block : List ℕ
  pub disk : ℕ → Block
  pub cache : ℕ → Block
  pub power : ℕ

-- The word 0 of the header block is `n`, and word i + 1 is `block[i]`.
abbrev pub word : Block → ℕ → ℕ
word d i = get_or d i 0

-- The block number at index i of the in-memory header.
abbrev pub home : Log → ℕ → ℕ
home l i = get_or l.block i 0

pub bwrite : Log → ℕ → Block → Log
bwrite l b d = record l {
  cache = update l.cache b d;
  disk = if l.power == 0 then l.disk else update l.disk b d;
  power = l.power - 1;
}

-- for (; tail < n; tail++), with the rounds left first
pub install_from : ℕ → ℕ → Log → Log
install_from zero tail l = l
install_from (suc r) tail l =
    install_from r (tail + 1) (bwrite l (home l tail) (l.cache (l.start + tail + 1)))

pub install_trans : Log → Log
install_trans l = install_from l.n 0 l

-- for (; i < n; i++) log.lh.block[i] = lh->block[i]
pub load_from : ℕ → ℕ → Block → List ℕ → List ℕ
load_from zero i d block = block
load_from (suc r) i d block = load_from r (i + 1) d (set block i (word d (i + 1)))

pub read_head : Log → Log
read_head l = record l { n = word (l.cache l.start) 0; block = load_from rounds 0 header l.block }
  where
    header : Block
    header = l.cache l.start

    rounds : ℕ
    rounds = word header 0

-- for (; i < n; i++) hb->block[i] = log.lh.block[i]
pub store_from : ℕ → ℕ → List ℕ → Block → Block
store_from zero i block d = d
store_from (suc r) i block d = store_from r (i + 1) block (set d (i + 1) (get_or block i 0))

-- The header block's new words.
pub encode_head : ℕ → List ℕ → Block → Block
encode_head n block d = store_from n 0 block (set d 0 n)

pub write_head : Log → Log
write_head l = bwrite l l.start (encode_head l.n l.block (l.cache l.start))

pub write_log_from : ℕ → ℕ → Log → Log
write_log_from zero tail l = l
write_log_from (suc r) tail l =
    write_log_from r (tail + 1) (bwrite l (l.start + tail + 1) (l.cache (home l tail)))

pub write_log : Log → Log
write_log l = write_log_from l.n 0 l

-- log.lh.n = 0; write_head();
pub clear_head : Log → Log
clear_head l = write_head (record l { n = 0 })

pub recover_from_log : Log → Log
recover_from_log l = clear_head (install_trans (read_head l))

-- The words of the superblock, block 1, are those of `struct superblock`.
pub initlog : Log → Log
initlog l = recover_from_log (record l { start = word (l.cache 1) 4; size = word (l.cache 1) 3 })

pub commit : Log → Log
commit l = if ltb 0 l.n then clear_head (install_trans (write_head (write_log l))) else l

-- The machine comes up again: what was in memory is gone, but for start and size, which `initlog`
-- takes from the superblock again.
pub reboot : ℕ → Log → Log
reboot k l = record l {
  outstanding = 0;
  committing = false;
  n = 0;
  block = replicate log_size 0;
  cache = l.disk;
  power = k;
}
