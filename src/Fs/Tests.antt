-- ===== src/Fs/Tests.antt =====
-- Runs of the file system on a small disk: block 50 is the first of a file, blocks from 60 on are free.
use northos.Prelude.{
  ℕ, ◌*◌, ◌/◌, ◌≡◌, ◌<◌, ◌≤◌, refl, inl, true, false, [], ◌∷◌, Option, List, some, none, arith, ltb,
  leb, ◌==◌, ◌&&◌, if◌then◌else◌, update, min,
}
use northos.Fs.Bitmap.{
  Disk, Dinode, bpb, balloc, scan_blocks, scan_words, scan_bits, all_used, bzero, scan_map,
}
use northos.Fs.Bitmap.Scan.{scan_blocks-bits}
use northos.Fs.Bitmap.Alloc.{allocated, balloc_succeeds, balloc_gives_up}
use northos.Fs.File.{
  Inode, Device, writei, write_from, readi, bmap, addr_at, grow, overwrite, slice, iupdate,
}
use northos.Fs.File.Slots.{Owns}
use northos.Fs.File.Content.{content}
use northos.Fs.File.ReadWrite.{
  IsFile, readi-content, Wrote, writei-Wrote, writei-readi, writei-refuses,
}
use northos.Fs.Inodes.{Icache, iget, idup, find_inode}
use northos.Fs.Inodes.Unique.{IsUnique}
use northos.Fs.Inodes.Reach.{gets, dups, start, after, icache-IsUnique}
use northos.Fs.Dir.{find_entry, link_entry, find_unused, new_entry, strncpy}
use northos.Fs.Dir.Link.Found.{find_entry-link_entry}
use northos.Fs.Path.Elements.{IsPath, done, elem, elems, kept, elems-kept}

abbrev no_dinode : Dinode
no_dinode = record { type = 0; major = 0; minor = 0; nlink = 0; size = 0; addrs = λ i. 0 }

abbrev disk : Disk
disk = record {
  used = λ b. ltb b 60;
  bytes = λ b i. 9;
  words = λ b i. 9;
  dinodes = λ i. no_dinode;
  hint = 55;
  size = 25600;
  nblocks = 25000;
  ninodes = 200;
}

-- A file of 2048 bytes: writing on takes a second block.
abbrev file : Inode
file = record {
  dev = 1;
  inum = 5;
  ref = 1;
  valid = true;
  type = 2;
  major = 0;
  minor = 0;
  nlink = 1;
  size = 2048;
  addrs = λ i. if i == 0 then 50 else 0;
}

abbrev no_devices : ℕ → Option Device
no_devices i = none

-- All blocks of the second half of the map are taken, and the first ones of the first are free.
abbrev full_end : Disk
full_end = record disk { used = λ b. leb 16384 b && ltb b 25000; hint = 20000 }

file-Owns : Owns disk file
file-Owns = record {
  zero_used = refl;
  taken = λ s h n. ground arith;
  distinct = λ s s' h h' e n. ground arith;
}

file-IsFile : IsFile disk file
file-IsFile = record {
  owns = file-Owns;
  regular = refl;
  small = omega arith;
  full = λ k h. ground arith;
}

scan_blocks-bits_run : scan_blocks 2 0 disk ≡ scan_bits (2 * bpb) (0 * bpb) disk
scan_blocks-bits_run = scan_blocks-bits 2 0 disk

balloc_succeeds_example :
    (b : ℕ) × (balloc disk ≡ some (allocated disk b, b))
    × (disk.used b ≡ false)
    × (b < disk.nblocks)
    × ((i : ℕ) → disk.hint / bpb * bpb ≤ i → i < b → disk.used i ≡ true)
balloc_succeeds_example = balloc_succeeds disk 70 (omega arith) (omega arith) (omega arith) refl

balloc_gives_up_run : balloc full_end ≡ none
balloc_gives_up_run =
    balloc_gives_up full_end (omega arith) (omega arith) (omega arith) (λ i a b. ground arith) refl

readi-content_run :
    readi no_devices disk file 2040 20
    ≡ some (disk, file, some (slice (content disk file) 2040 (min 20 8)))
readi-content_run =
    readi-content no_devices disk file 2040 20 file-IsFile (omega arith) (omega arith)

-- What writing 1, 2, 3 at byte 2047 leaves.
abbrev longer : Inode
longer = record file { size = 2050; addrs = update file.addrs 1 60 }

abbrev after_alloc : Disk
after_alloc =
    allocated
      (record disk { bytes = update disk.bytes 50 (overwrite (disk.bytes 50) 2047 (1 ∷ [])) }) 60

abbrev written : Disk
unfolding iupdate
written =
    iupdate
      (record after_alloc {
        bytes = update after_alloc.bytes 60 (overwrite (after_alloc.bytes 60) 0 (2 ∷ 3 ∷ []));
      })
      longer

write_run : writei no_devices disk file (1 ∷ 2 ∷ 3 ∷ []) 2047 ≡ some (written, longer, some 3)
unfolding writei write_from overwrite bmap addr_at grow iupdate balloc bzero scan_map scan_blocks
    scan_words scan_bits all_used
write_run = refl

writei-Wrote_example : Wrote disk file 2047 (1 ∷ 2 ∷ 3 ∷ []) (written, longer, some 3)
writei-Wrote_example =
    writei-Wrote no_devices disk file (1 ∷ 2 ∷ 3 ∷ []) 2047 file-IsFile (omega arith) (omega arith)
      write_run

writei-readi_example :
    readi no_devices written longer 2047 3 ≡ some (written, longer, some (1 ∷ 2 ∷ 3 ∷ []))
writei-readi_example =
    writei-readi no_devices disk file (1 ∷ 2 ∷ 3 ∷ []) 2047 written longer (some 3) file-IsFile
      (omega arith) (omega arith) write_run

writei-refuses_example : writei no_devices disk file (1 ∷ []) 2049 ≡ some (disk, file, none)
writei-refuses_example =
    writei-refuses no_devices disk file (1 ∷ []) 2049 refl (omega arith) (omega arith)
      (inl (omega arith))

-- A cache with nothing in it, and one with inode 1 read twice.
abbrev empty_cache : Icache
empty_cache = record { disk = disk; inode = λ i. record file { ref = 0 } }

abbrev one_cached : Icache
one_cached = record empty_cache {
  inode =
      update empty_cache.inode 0
        (record (empty_cache.inode 0) { dev = 1; inum = 1; ref = 1; valid = false });
}

get_run : iget empty_cache 1 1 ≡ some (one_cached, 0)
unfolding iget find_inode
get_run = refl

icache-IsUnique_example : IsUnique (idup one_cached 0).inode
icache-IsUnique_example =
    icache-IsUnique empty_cache (idup one_cached 0) (λ k. refl)
      (after (after start (gets 1 1 0 get_run)) (dups 0 (omega arith) (omega arith)))

-- An empty directory, with a block of its own, takes the name "ab" for inode 7.
abbrev directory : Inode
directory = record file { type = 1; size = 0 }

directory-IsFile : IsFile disk directory
directory-IsFile = record {
  owns = record {
    zero_used = refl;
    taken = λ s h n. ground arith;
    distinct = λ s s' h h' e n. ground arith;
  };
  regular = refl;
  small = omega arith;
  full = λ k h. absurd (omega arith);
}

abbrev ab : List ℕ
ab = 97 ∷ 98 ∷ []

abbrev linked : Inode
linked = record directory { size = 16 }

abbrev ab_entry : List ℕ
ab_entry = 7 ∷ 0 ∷ 97 ∷ 98 ∷ 0 ∷ 0 ∷ 0 ∷ 0 ∷ 0 ∷ 0 ∷ 0 ∷ 0 ∷ 0 ∷ 0 ∷ 0 ∷ 0 ∷ []

abbrev linked_disk : Disk
unfolding iupdate
linked_disk =
    iupdate (record disk { bytes = update disk.bytes 50 (overwrite (disk.bytes 50) 0 ab_entry) })
      linked

link_run : link_entry no_devices disk directory ab 7 ≡ some (linked_disk, linked)
unfolding link_entry find_unused new_entry strncpy writei write_from overwrite bmap addr_at grow
    iupdate
link_run = refl

not_there : find_entry no_devices ab 0 0 disk directory ≡ some (disk, directory, none)
unfolding find_entry
not_there = refl

find_entry-link_entry_example :
    (off : ℕ) × (find_entry no_devices ab 16 0 linked_disk linked
      ≡ some (linked_disk, linked, some (7, off)))
find_entry-link_entry_example =
    find_entry-link_entry no_devices disk directory ab 7 directory-IsFile refl (omega arith)
      (omega arith, (omega arith, tt)) (omega arith) (omega arith) not_there link_run

-- "//ab/b"
abbrev ab_b : List ℕ
ab_b = 47 ∷ 47 ∷ 97 ∷ 98 ∷ 47 ∷ 98 ∷ []

ab_b-IsPath : IsPath ab_b (ab ∷ (98 ∷ []) ∷ [])
ab_b-IsPath =
    elem 2 ab (λ e. absurd (omega arith), (λ e. absurd (omega arith), tt)) refl
      (elem 1 (98 ∷ []) (λ e. absurd (omega arith), tt) tt (done 0))

elems-kept_run : elems 7 ab_b ≡ kept (ab ∷ (98 ∷ []) ∷ [])
elems-kept_run = elems-kept ab_b (ab ∷ (98 ∷ []) ∷ []) 7 ab_b-IsPath (omega arith)
