-- ===== src/Fs/File/Loops.antt =====
-- The loops of `readi` and `writei` of kernel/fs.c read and write the bytes of a file.
use northos.Prelude.{
  ℕ, zero, suc, ◌+◌, ◌-◌, ◌/◌, ◌%◌, ◌<◌, ◌≤◌, ◌≡◌, refl, sym, ap, subst, ◌∙◌, ◌⊎◌, ◌≢◌, Bool-cases,
  inl, inr, false, arith, if◌then◌else◌, leb, ltb, ◌==◌, ◌&&◌, List, [], ◌∷◌, ◌++◌, length, take,
  drop, update, update_ne, update_self, ℕ_discrete, some,
}
use northos.Fs.Bitmap.{Disk, bsize, OnSome, OnSome-bind, OnSome-map}
use northos.Fs.File.{Inode, chunk, bmap, slice, overwrite, read_from, write_from}
use northos.Fs.File.Slots.{slot, slots, Owns, Extended, Extended-refl, Extended-trans, with_addrs}
use northos.Fs.File.Slots.Bmap.{place, Filled, bmap-Filled, bmap-there}
use northos.Fs.File.Content.{
  byte_in, content, reach, place-lt, place-inj, nonzero, content-Extended, slice-add, slice-ext,
  overwrite-ext, overwrite-split, overwrite-outside, overwrite-inside, length-take, length-drop,
}

-- The bytes of one block are bytes of the file.
content-block :
    (d : Disk) (ip : Inode) (off j b : ℕ)
    → off % bsize + j < bsize
    → slot d ip (place (off / bsize)) ≡ b
    → b ≢ 0
    → content d ip (off + j) ≡ d.bytes b (off % bsize + j)
content-block d ip off j b h e n =
    let block : (off + j) / bsize ≡ off / bsize = omega arith in
    let index : (off + j) % bsize ≡ off % bsize + j = omega arith in
    rw (block, index, e, nonzero b n) refl

chunk-pos :
    (off left : ℕ)
    → left ≢ 0
    → (0 < chunk off left) × (chunk off left ≤ left) × (off % bsize + chunk off left ≤ bsize)
chunk-pos off left n = (ground arith, ground arith, ground arith)

-- The bytes read are those of the file, and blocks may have been added to it.
pub record WasRead (d : Disk) (ip : Inode) (off left : ℕ) (r : Disk × Inode × List ℕ) : Type 0 where
  pub extended : Extended d ip r.0 r.1
  pub bytes : r.2 ≡ slice (content d ip) off left

no_bytes : (f : ℕ → ℕ) (off left : ℕ) → left ≡ 0 → [] ≡ slice f off left
unfolding slice
no_bytes f off left e = rw e refl

-- One round reads a chunk.
chunk-read :
    (d : Disk) (ip : Inode) (off left b : ℕ) (d1 : Disk) (ip1 : Inode) (rest : List ℕ)
    → Owns d ip
    → left ≢ 0
    → off + left ≤ reach
    → Filled d ip d1 ip1 (place (off / bsize)) b
    → rest ≡ slice (content d1 ip1) (off + chunk off left) (left - chunk off left)
    → slice (d1.bytes b) (off % bsize) (chunk off left) ++ rest ≡ slice (content d ip) off left
chunk-read d ip off left b d1 ip1 rest o n h f e =
    let m = chunk off left in
    let (pos, le, inside) = chunk-pos off left n in
    let first : slice (d1.bytes b) (off % bsize) m ≡ slice (content d ip) off m =
      slice-ext (d1.bytes b) (content d ip) (off % bsize) off m (λ j hj.
        sym (content-block d1 ip1 off j b (omega arith) f.here f.block)
        ∙ content-Extended d ip d1 ip1 (off + j) o f.extended (omega arith)) in
    let others : rest ≡ slice (content d ip) (off + m) (left - m) =
      e
      ∙ slice-ext (content d1 ip1) (content d ip) (off + m) (off + m) (left - m)
          (λ j hj. content-Extended d ip d1 ip1 (off + m + j) o f.extended (omega arith)) in
    let whole : m + (left - m) ≡ left = omega arith in
    rw (first, others)
      (sym (slice-add (content d ip) off m (left - m)) ∙ ap (slice (content d ip) off) whole)

pub read_from-WasRead :
    (r : ℕ) (d : Disk) (ip : Inode) (off left : ℕ)
    → Owns d ip
    → left ≤ r
    → off + left ≤ reach
    → OnSome (WasRead d ip off left) (read_from r d ip off left)
unfolding read_from
read_from-WasRead zero d ip off left o h b = record {
  extended = Extended-refl d ip o;
  bytes = no_bytes (content d ip) off left (omega arith);
}
read_from-WasRead (suc r) d ip off left o h b = elim (Bool-cases (left == 0)) [
  | inl done ↦ rw done (record {
    extended = Extended-refl d ip o;
    bytes = no_bytes (content d ip) off left (ground arith);
  })
  | inr more ↦
      let m = chunk off left in
      let n : left ≢ 0 = λ e. ne more e in
      let (pos, le, inside) = chunk-pos off left n in
      rw more (
        OnSome-bind _ _ (bmap d ip (off / bsize)) _ (bmap-Filled d ip (off / bsize) o (omega arith))
          λ (d1, ip1, blk) f.
            OnSome-bind _ _ (read_from r d1 ip1 (off + m) (left - m)) _
              (read_from-WasRead r d1 ip1 (off + m) (left - m) f.extended.owns (omega arith)
                (omega arith))
              λ (d2, ip2, rest) g. record {
                extended = Extended-trans d ip d1 ip1 d2 ip2 f.extended g.extended;
                bytes = chunk-read d ip off left blk d1 ip1 rest o n b f g.bytes;
              })
]
  where
    ne : (left == 0) ≡ false → left ≡ 0 → ⊥
    ne a e = ground arith

-- The bytes of a file that has a block at each of them are read, with no change.
pub read_from-there :
    (r : ℕ) (d : Disk) (ip : Inode) (off left : ℕ)
    → Owns d ip
    → left ≤ r
    → off + left ≤ reach
    → ((k : ℕ) → off ≤ k → k < off + left → slot d ip (place (k / bsize)) ≢ 0)
    → read_from r d ip off left ≡ some (d, ip, slice (content d ip) off left)
unfolding read_from
read_from-there zero d ip off left o h b full =
    ap (λ xs. some (d, ip, xs)) (no_bytes (content d ip) off left (omega arith))
read_from-there (suc r) d ip off left o h b full = elim (Bool-cases (left == 0)) [
  | inl done ↦
      rw done (ap (λ xs. some (d, ip, xs)) (no_bytes (content d ip) off left (ground arith)))
  | inr more ↦
      let m = chunk off left in
      let n : left ≢ 0 = λ e. ne more e in
      let (pos, le, inside) = chunk-pos off left n in
      let blk = slot d ip (place (off / bsize)) in
      let held : blk ≢ 0 = full off (omega arith) (omega arith) in
      let later =
        read_from-there r d ip (off + m) (left - m) o (omega arith) (omega arith)
          (λ k x y. full k (omega arith) (omega arith)) in
      rw (more, bmap-there d ip (off / bsize) (omega arith) held, later)
        (ap (λ xs. some (d, ip, xs))
          (chunk-read d ip off left blk d ip (slice (content d ip) (off + m) (left - m)) o n b
            (record { extended = Extended-refl d ip o; here = refl; block = held }) refl))
]
  where
    ne : (left == 0) ≡ false → left ≡ 0 → ⊥
    ne a e = ground arith

-- The bytes are in the file from `off` on, the others are as they were.
pub record WasWritten (d : Disk) (ip : Inode) (off : ℕ) (src : List ℕ) (r : Disk × Inode)
    : Type 0 where
  pub owns : Owns r.0 r.1
  pub bytes : (k : ℕ) → k < reach → content r.0 r.1 k ≡ overwrite (content d ip) off src k
  pub held : (k : ℕ) → off ≤ k → k < off + length src → slot r.0 r.1 (place (k / bsize)) ≢ 0
  pub kept : (s : ℕ) → s < slots → slot d ip s ≢ 0 → slot r.0 r.1 s ≡ slot d ip s
  pub inode : r.1 ≡ with_addrs ip r.1.addrs
  pub dinodes : r.0.dinodes ≡ d.dinodes

abbrev written_to : Disk → ℕ → ℕ → List ℕ → Disk
written_to d b off xs = record d {
  bytes = update d.bytes b (overwrite (d.bytes b) (off % bsize) xs);
}

byte_in_self :
    (d : Disk) (b off i : ℕ) (xs : List ℕ) (c : ℕ)
    → c ≡ b
    → b ≢ 0
    → byte_in (written_to d b off xs) c i ≡ overwrite (d.bytes b) (off % bsize) xs i
byte_in_self d b off i xs c e n =
    rw (e, nonzero b n)
      (ap (λ f. f i) (update_self d.bytes b (overwrite (d.bytes b) (off % bsize) xs)))

byte_in-other :
    (d : Disk) (b off i : ℕ) (xs : List ℕ) (c : ℕ)
    → c ≢ b
    → byte_in (written_to d b off xs) c i ≡ byte_in d c i
byte_in-other d b off i xs c ne =
    ap (λ k. if c == 0 then 0 else k)
      (ap (λ f. f i)
        (update_ne d.bytes b c (overwrite (d.bytes b) (off % bsize) xs) (λ e. ne (sym e))))

-- One round writes a chunk.
chunk-written :
    (d : Disk) (ip : Inode) (off b : ℕ) (d1 : Disk) (ip1 : Inode) (xs : List ℕ) (k : ℕ)
    → Owns d ip
    → off + length xs ≤ reach
    → off % bsize + length xs ≤ bsize
    → 0 < length xs
    → Filled d ip d1 ip1 (place (off / bsize)) b
    → k < reach
    → content (written_to d1 b off xs) ip1 k ≡ overwrite (content d ip) off xs k
chunk-written d ip off b d1 ip1 xs k o h inside pos f hk =
    elim (Bool-cases (leb off k && ltb k (off + length xs))) [
      | inl within ↦
          let j = k - off in
          let block : off / bsize ≡ k / bsize = ground arith in
          let index : k % bsize ≡ off % bsize + j = ground arith in
          let short : j < length xs = ground arith in
          let back : off + j ≡ k = ground arith in
          byte_in_self d1 b off (k % bsize) xs (slot d1 ip1 (place (k / bsize)))
            (subst (λ n. slot d1 ip1 (place n) ≡ b) block f.here) f.block
          ∙ ap (overwrite (d1.bytes b) (off % bsize) xs) index
          ∙ overwrite-inside (d1.bytes b) (off % bsize) xs j short
          ∙ sym (overwrite-inside (content d ip) off xs j short)
          ∙ ap (overwrite (content d ip) off xs) back
      | inr apart ↦
          let outside : (k < off) ⊎ (off + length xs ≤ k) = split apart in
          let was : content d1 ip1 k ≡ overwrite (content d ip) off xs k =
            content-Extended d ip d1 ip1 k o f.extended hk
            ∙ sym (overwrite-outside (content d ip) off xs k outside) in
          elim (ℕ_discrete (off / bsize) (k / bsize)) [
            | yes e ↦
                let at : slot d1 ip1 (place (k / bsize)) ≡ b =
                  subst (λ n. slot d1 ip1 (place n) ≡ b) e f.here in
                byte_in_self d1 b off (k % bsize) xs (slot d1 ip1 (place (k / bsize))) at f.block
                ∙ overwrite-outside (d1.bytes b) (off % bsize) xs (k % bsize) (ground arith)
                ∙ sym (rw (at, nonzero b f.block) refl)
                ∙ was
            | no ne ↦
                byte_in-other d1 b off (k % bsize) xs (slot d1 ip1 (place (k / bsize))) (λ e. ne (
                  place-inj (off / bsize) (k / bsize) (
                    f.extended.owns.distinct (place (off / bsize)) (place (k / bsize))
                      (place-lt (off / bsize) (omega arith)) (place-lt (k / bsize) (omega arith))
                      (f.here ∙ sym e) (λ z. f.block (sym f.here ∙ z)))))
                ∙ was
          ]
    ]
  where
    split : leb off k && ltb k (off + length xs) ≡ false → (k < off) ⊎ (off + length xs ≤ k)
    split e = elim (Bool-cases (leb off k)) [
      | inl low ↦ inr (ground arith)
      | inr high ↦ inl (ground arith)
    ]

nothing_written :
    (d : Disk) (ip : Inode) (off : ℕ) (src : List ℕ)
    → Owns d ip
    → length src ≡ 0
    → WasWritten d ip off src (d, ip)
unfolding overwrite
nothing_written d ip off [] o e = record {
  owns = o;
  bytes = λ k h. refl;
  held = λ k a b. absurd (omega arith);
  kept = λ s h n. refl;
  inode = refl;
  dinodes = refl;
}
nothing_written d ip off (x ∷ xs) o e = absurd (omega arith)

pub write_from-WasWritten :
    (r : ℕ) (d : Disk) (ip : Inode) (off : ℕ) (src : List ℕ)
    → Owns d ip
    → length src ≤ r
    → off + length src ≤ reach
    → OnSome (WasWritten d ip off src) (write_from r d ip off src)
unfolding write_from
write_from-WasWritten zero d ip off src o h b = nothing_written d ip off src o (omega arith)
write_from-WasWritten (suc r) d ip off src o h b = elim (Bool-cases (length src == 0)) [
  | inl done ↦ rw done (nothing_written d ip off src o (ground arith))
  | inr more ↦
      let m = chunk off (length src) in
      let n : length src ≢ 0 = λ e. ne more e in
      let (pos, le, inside) = chunk-pos off (length src) n in
      let size : length (take m src) ≡ m = length-take m src le in
      let left : length (drop m src) ≡ length src - m = length-drop m src le in
      rw more (
        OnSome-bind _ _ (bmap d ip (off / bsize)) _ (bmap-Filled d ip (off / bsize) o (omega arith))
          λ (d1, ip1, blk) f.
            let d2 = written_to d1 blk off (take m src) in
            let owns : Owns d2 ip1 = record {
              zero_used = f.extended.owns.zero_used;
              taken = f.extended.owns.taken;
              distinct = f.extended.owns.distinct;
            } in
            OnSome-map (WasWritten d2 ip1 (off + m) (drop m src)) (WasWritten d ip off src)
              (write_from r d2 ip1 (off + m) (drop m src))
              (λ (d3, ip3) g. record {
                owns = g.owns;
                bytes = λ k hk.
                    g.bytes k hk
                    ∙ overwrite-ext (content d2 ip1) (overwrite (content d ip) off (take m src))
                        (off + m) (drop m src) k
                        (chunk-written d ip off blk d1 ip1 (take m src) k o (omega arith)
                          (omega arith) (omega arith) f hk)
                    ∙ overwrite-split (content d ip) off m src k le;
                held = λ k a c. elim (Bool-cases (ltb k (off + m))) [
                  | inl first ↦
                      let block : off / bsize ≡ k / bsize = ground arith in
                      let at : slot d1 ip1 (place (k / bsize)) ≡ blk =
                        subst (λ i. slot d1 ip1 (place i) ≡ blk) block f.here in
                      λ z. f.block (
                        sym at
                        ∙ sym (
                            g.kept (place (k / bsize)) (place-lt (k / bsize) (omega arith))
                              (λ y. f.block (sym at ∙ y)))
                        ∙ z)
                  | inr later ↦ g.held k (ground arith) (omega arith)
                ];
                kept = λ i hi n'.
                    let same = f.extended.kept i hi n' in
                    g.kept i hi (λ z. n' (sym same ∙ z)) ∙ same;
                inode = g.inode ∙ ap (λ j. with_addrs j ip3.addrs) f.extended.inode;
                dinodes = g.dinodes ∙ f.extended.dinodes;
              })
              (write_from-WasWritten r d2 ip1 (off + m) (drop m src) owns (omega arith)
                (omega arith)))
]
  where
    ne : (length src == 0) ≡ false → length src ≡ 0 → ⊥
    ne a e = ground arith
