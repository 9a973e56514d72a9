-- ===== src/Files/Tests.antt =====
-- A write of three bytes to a file of one block, block 50.
use northos.Prelude.{
  ◌≡◌, refl, true, false, [], ◌∷◌, some, none, arith, ltb, ◌==◌, if◌then◌else◌, update,
}
use northos.Fs.Bitmap.{Disk}
use northos.Fs.File.{Inode, writei, write_from, overwrite, bmap, addr_at, grow}
use northos.Fs.File.ReadWrite.{IsFile}
use northos.Fs.Inodes.{ilock, iunlock}
use northos.Files.{fd_inode, Ftable, returns, filewrite, write_round, write_rounds}
use northos.Files.Chunks.{Ready, FileWritten, filewrite-FileWritten}

abbrev disk : Disk
disk = record {
  used = λ b. ltb b 60;
  bytes = λ b i. 9;
  words = λ b i. 9;
  dinodes = λ i. record { type = 0; major = 0; minor = 0; nlink = 0; size = 0; addrs = λ i. 0 };
  hint = 55;
  size = 25600;
  nblocks = 25000;
  ninodes = 200;
}

abbrev inode : Inode
inode = record {
  dev = 1;
  inum = 5;
  ref = 1;
  valid = true;
  type = 2;
  major = 0;
  minor = 0;
  nlink = 1;
  size = 100;
  addrs = λ i. if i == 0 then 50 else 0;
}

inode-IsFile : IsFile disk inode
inode-IsFile = record {
  owns = record {
    zero_used = refl;
    taken = λ s h n. ground arith;
    distinct = λ s s' h h' e n. ground arith;
  };
  regular = refl;
  small = omega arith;
  full = λ k h. ground arith;
}

-- File 3 is open on it for writing, at byte 10.
abbrev table : Ftable
table = record {
  file = λ f. record {
    type = fd_inode;
    ref = 1;
    readable = false;
    writable = true;
    pipe = 0;
    ip = 0;
    off = 10;
  };
  pipes = λ p. record { bytes = []; nread = 0; nwrite = 0; readopen = true; writeopen = true };
  inodes = record { disk = disk; inode = λ i. inode };
}

table-Ready : Ready table.inodes 0
table-Ready = record { file = inode-IsFile; valid = refl; held = omega arith }

abbrev after_write : Ftable
after_write = record table {
  file = update table.file 3 (record (table.file 3) { off = 13 });
  inodes = record {
    disk = record disk {
      bytes = update disk.bytes 50 (overwrite (disk.bytes 50) 10 (1 ∷ 2 ∷ 3 ∷ []));
    };
    inode = update (λ i. inode) 0 inode;
  };
}

write_run :
    filewrite (λ i. none) false table 3 (1 ∷ 2 ∷ 3 ∷ []) ≡ some (after_write, returns (some 3))
unfolding filewrite write_rounds write_round ilock iunlock writei write_from overwrite bmap addr_at
    grow
write_run = refl

filewrite-FileWritten_example : FileWritten table 3 (1 ∷ 2 ∷ 3 ∷ []) (after_write, returns (some 3))
filewrite-FileWritten_example =
    filewrite-FileWritten (λ i. none) false table 3 (1 ∷ 2 ∷ 3 ∷ []) refl refl table-Ready
      (omega arith) (omega arith) write_run
