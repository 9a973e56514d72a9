-- ===== src/Fs/File/ReadWrite.antt =====
-- `readi` and `writei` of kernel/fs.c on a file of the disk.
use northos.Prelude.{
  ℕ, ◌+◌, ◌-◌, ◌*◌, ◌/◌, ◌%◌, ◌^◌, min, ◌<◌, ◌≤◌, ◌≡◌, refl, sym, ap, ◌∙◌, ◌⊎◌, ◌≢◌, Bool-cases,
  inl, inr, true, false, arith, if◌then◌else◌, ltb, ◌==◌, ◌&&◌, ◌||◌, List, length, Option, none,
  some,
}
use northos.Fs.Bitmap.{Disk, bsize, OnSome-bind, OnSome-eq}
use northos.Fs.File.{
  Inode, Device, t_dev, maxfile, slice, overwrite, write_from, readi, writei, grow, iupdate,
}
use northos.Fs.File.Slots.{sized, slot, Owns}
use northos.Fs.File.Slots.Bmap.{place}
use northos.Fs.File.Content.{content, reach, place-lt, slice-list, overwrite-inside}
use northos.Fs.File.Loops.{WasWritten, read_from-there, write_from-WasWritten}

-- A regular file: its blocks are its own, and it has one at each byte below its size.
pub record IsFile (d : Disk) (ip : Inode) : Type 0 where
  pub owns : Owns d ip
  pub regular : (ip.type == t_dev) ≡ false
  pub small : ip.size ≤ reach
  pub full : (k : ℕ) → k < ip.size → slot d ip (place (k / bsize)) ≢ 0

-- `readi` of n bytes from an offset in a file on, the end of which fits in 32 bits, returns them, or those up to the end of the file
-- where it ends before, and changes nothing.
pub readi-content :
    (devsw : ℕ → Option Device) (d : Disk) (ip : Inode) (off n : ℕ)
    → IsFile d ip
    → off ≤ ip.size
    → off + n < 2 ^ 32
    → readi devsw d ip off n ≡ some (d, ip, some (slice (content d ip) off (min n (ip.size - off))))
unfolding readi
readi-content devsw d ip off n f h wide =
    let reg = f.regular in
    let small = f.small in
    let kept : (off + n) % 2 ^ 32 ≡ off + n = omega arith in
    let fine : ltb ip.size off || ltb (off + n) off ≡ false = ground arith in
    let count : (if ltb ip.size (off + n) then ip.size - off else n) ≡ min n (ip.size - off) =
      ground arith in
    let m = min n (ip.size - off) in
    let all =
      read_from-there m d ip off m f.owns (omega arith) (omega arith)
        (λ k a b. f.full k (omega arith)) in
    rw (reg, kept, fine, count, all) refl

abbrev pub bigger : ℕ → ℕ → ℕ
bigger a b = if ltb a b then b else a

-- What `writei` of the bytes `src` at an offset leaves and returns.
pub record Wrote (d : Disk) (ip : Inode) (off : ℕ) (src : List ℕ) (r : Disk × Inode × Option ℕ)
    : Type 0 where
  pub count : r.2 ≡ some (length src)
  pub file : IsFile r.0 r.1
  pub size : r.1.size ≡ bigger ip.size (off + length src)
  pub inode : r.1 ≡ sized ip r.1.addrs r.1.size
  pub bytes : (k : ℕ) → k < reach → content r.0 r.1 k ≡ overwrite (content d ip) off src k

-- The end of `writei`, where the size may grow.
after_writing :
    (d : Disk) (ip : Inode) (off : ℕ) (src : List ℕ) (d' : Disk) (ip' : Inode)
    → IsFile d ip
    → off ≤ ip.size
    → off + length src ≤ reach
    → WasWritten d ip off src (d', ip')
    → let (d'', ip'') = grow d' ip' (off + length src) (length src) in
      Wrote d ip off src (d'', ip'', some (length src))
unfolding grow iupdate
after_writing d ip off src d' ip' f h b w =
    let same_size : ip'.size ≡ ip.size = ap (λ i. i.size) w.inode in
    let same_type : ip'.type ≡ ip.type = ap (λ i. i.type) w.inode in
    let regular : (ip'.type == t_dev) ≡ false = rw same_type f.regular in
    let small = f.small in
    elim (Bool-cases (ltb 0 (length src) && ltb ip'.size (off + length src))) [
      | inl more ↦
          let longer : ltb ip.size (off + length src) ≡ true = ground arith in
          rw more (record {
            count = refl;
            file = record {
              owns = record {
                zero_used = w.owns.zero_used;
                taken = w.owns.taken;
                distinct = w.owns.distinct;
              };
              regular = regular;
              small = b;
              full = λ k l. in_file k l;
            };
            size = rw longer refl;
            inode = ap (λ i. sized i i.addrs (off + length src)) w.inode;
            bytes = w.bytes;
          })
      | inr same ↦
          let within : ltb ip.size (off + length src) ≡ false = ground arith in
          rw same (record {
            count = refl;
            file = record {
              owns = w.owns;
              regular = regular;
              small = omega arith;
              full = λ k l. in_old k (omega arith);
            };
            size = rw within same_size;
            inode = w.inode ∙ ap (sized ip ip'.addrs) (sym same_size);
            bytes = w.bytes;
          })
    ]
  where
    in_old : (k : ℕ) → k < ip.size → slot d' ip' (place (k / bsize)) ≢ 0
    in_old k l z =
        let old = f.small in
        let n = f.full k l in
        n (sym (w.kept (place (k / bsize)) (place-lt (k / bsize) (omega arith)) n) ∙ z)

    in_file : (k : ℕ) → k < off + length src → slot d' ip' (place (k / bsize)) ≢ 0
    in_file k l = elim (Bool-cases (ltb k off)) [
      | inl before ↦ in_old k (ground arith)
      | inr after ↦ w.held k (ground arith) l
    ]

-- `writei` at an offset in a file of bytes that need no double-indirect block, where it does not
-- panic: it returns their number, the file is still one, its size has grown to the end of the bytes
-- where it was smaller, of its bytes just those have changed, and of the inode nothing but the size and
-- the addresses.
pub writei-Wrote :
    (devsw : ℕ → Option Device) (d : Disk) (ip : Inode) (src : List ℕ) (off : ℕ)
    {r : Disk × Inode × Option ℕ}
    → IsFile d ip
    → off ≤ ip.size
    → off + length src ≤ reach
    → writei devsw d ip src off ≡ some r
    → Wrote d ip off src r
unfolding writei
writei-Wrote devsw d ip src off {r} f h b e =
    let reg = f.regular in
    let kept : (off + length src) % 2 ^ 32 ≡ off + length src = omega arith in
    let fine : ltb ip.size off || ltb (off + length src) off ≡ false = ground arith in
    let room : ltb (maxfile * bsize) (off + length src) ≡ false = ground arith in
    OnSome-eq (Wrote d ip off src) (writei devsw d ip src off) r
      (rw (reg, kept, fine, room)
        (OnSome-bind (WasWritten d ip off src) (Wrote d ip off src)
          (write_from (length src) d ip off src) _
          (write_from-WasWritten (length src) d ip off src f.owns (omega arith) b)
          λ (d', ip') w. after_writing d ip off src d' ip' f h b w))
      e

-- Bytes that `writei` has written at an offset in a file, where they need no double-indirect block and
-- it has not panicked, are what `readi` of as many from there returns, which does not panic.
pub writei-readi :
    (devsw : ℕ → Option Device) (d : Disk) (ip : Inode) (src : List ℕ) (off : ℕ) (d' : Disk)
    (ip' : Inode) (result : Option ℕ)
    → IsFile d ip
    → off ≤ ip.size
    → off + length src ≤ reach
    → writei devsw d ip src off ≡ some (d', ip', result)
    → readi devsw d' ip' off (length src) ≡ some (d', ip', some src)
writei-readi devsw d ip src off d' ip' result f h b e =
    let w = writei-Wrote devsw d ip src off f h b e in
    let grown : off + length src ≤ ip'.size = rw w.size (ground arith) in
    let grown_off : off ≤ ip'.size = omega arith in
    let wide : off + length src < 2 ^ 32 = omega arith in
    let count : min (length src) (ip'.size - off) ≡ length src = omega arith in
    let same : slice (content d' ip') off (length src) ≡ src =
      slice-list (content d' ip') off src
        (λ j l. w.bytes (off + j) (omega arith) ∙ overwrite-inside (content d ip) off src j l) in
    readi-content devsw d' ip' off (length src) w.file grown_off wide ∙ rw (count, same) refl

-- A regular file is not written past its end or beyond MAXFILE blocks: `writei` returns -1 and
-- changes nothing, also where the end of the bytes does not fit in 32 bits.
pub writei-refuses :
    (devsw : ℕ → Option Device) (d : Disk) (ip : Inode) (src : List ℕ) (off : ℕ)
    → (ip.type == t_dev) ≡ false
    → off < 2 ^ 32
    → length src < 2 ^ 32
    → (ip.size < off) ⊎ (maxfile * bsize < off + length src)
    → writei devsw d ip src off ≡ some (d, ip, none)
unfolding writei
writei-refuses devsw d ip src off reg a b (inl past) =
    let bad : ltb ip.size off || ltb ((off + length src) % 2 ^ 32) off ≡ true = ground arith in
    rw (reg, bad) refl
writei-refuses devsw d ip src off reg a b (inr long) =
    elim (Bool-cases (ltb ip.size off || ltb ((off + length src) % 2 ^ 32) off)) [
      | inl bad ↦ rw (reg, bad) refl
      | inr fine ↦
          let too_long : ltb (maxfile * bsize) ((off + length src) % 2 ^ 32) ≡ true =
            ground arith in
          rw (reg, fine, too_long) refl
    ]
