-- ===== src/Files/Chunks.antt =====
-- The rounds in which `filewrite` of kernel/file.c writes to an inode.
use northos.Prelude.{
  ℕ, zero, suc, ◌+◌, ◌-◌, min, ◌<◌, ◌≤◌, ◌≡◌, ◌≢◌, refl, sym, ap, subst, ◌∙◌, Bool, true, false,
  List, [], ◌∷◌, length, take, drop, Option, none, some, ltb, ◌==◌, if◌then◌else◌, update,
  update_self, update_ne, arith,
}
use northos.Fs.Bitmap.{Disk, ◌>>=◌, OnSome, OnSome-bind, OnSome-map, OnSome-eq, OnSome-cases}
use northos.Fs.File.{Inode, Device, writei, overwrite}
use northos.Fs.File.Slots.{sized}
use northos.Fs.File.Content.{
  content, reach, overwrite-ext, overwrite-split, length-take, length-drop,
}
use northos.Fs.File.ReadWrite.{IsFile, Wrote, writei-Wrote, bigger}
use northos.Fs.Inodes.{Icache, ilock, iunlock}
use northos.Fs.Dir.{put_inode}
use northos.Files.{
  fd_inode, Ftable, Outcome, returns, max_write, Round, goes_on, breaks, end_round, write_round,
  write_rounds, filewrite,
}

-- An inode of a regular file that is in use and has been read.
pub record Ready (c : Icache) (i : ℕ) : Type 0 where
  pub file : IsFile c.disk (c.inode i)
  pub valid : (c.inode i).valid ≡ true
  pub held : 0 < (c.inode i).ref

-- The bytes are in the file, and the other inodes are as they were.
pub record Written (c : Icache) (i off : ℕ) (src : List ℕ) (c' : Icache) : Type 0 where
  pub wrote : Wrote c.disk (c.inode i) off src (c'.disk, c'.inode i, some (length src))
  pub others : (k : ℕ) → k ≢ i → c'.inode k ≡ c.inode k

ilock-Ready : (c : Icache) (i : ℕ) → Ready c i → ilock c i ≡ some c
unfolding ilock
ilock-Ready c i r =
    let held = r.held in
    let used : ltb (c.inode i).ref 1 ≡ false = ground arith in rw (used, r.valid) refl

iunlock_held : (c : Icache) (i : ℕ) → 0 < (c.inode i).ref → iunlock c i ≡ some c
unfolding iunlock
iunlock_held c i held = let used : ltb (c.inode i).ref 1 ≡ false = ground arith in rw used refl

abbrev WentOn : Icache → ℕ → ℕ → List ℕ → Round → Type 0
WentOn c i off src (goes_on c' off') = (off' ≡ off + length src) × Written c i off src c'
WentOn c i off src (breaks c') = ⊥

put_inode-Written :
    (c : Icache) (i off : ℕ) (src : List ℕ) (d : Disk) (ip : Inode) (r : Option ℕ)
    → Wrote c.disk (c.inode i) off src (d, ip, r)
    → Written c i off src (put_inode c i d ip)
put_inode-Written c i off src d ip r w = record {
  wrote =
      subst (λ (v : Inode). Wrote c.disk (c.inode i) off src (d, v, some (length src)))
        (sym (update_self c.inode i ip))
        (subst (λ (n : Option ℕ). Wrote c.disk (c.inode i) off src (d, ip, n)) w.count w);
  others = λ k ne. update_ne c.inode i k ip (λ e. ne (sym e));
}

write_round-WentOn :
    (devsw : ℕ → Option Device) (c : Icache) (i off : ℕ) (src : List ℕ)
    → Ready c i
    → off ≤ (c.inode i).size
    → off + length src ≤ reach
    → OnSome (WentOn c i off src) (write_round devsw c i off src)
unfolding write_round
write_round-WentOn devsw c i off src r h b = rw (ilock-Ready c i r) (
    OnSome-bind (Wrote c.disk (c.inode i) off src) (WentOn c i off src)
      (writei devsw c.disk (c.inode i) src off) _
      (OnSome-cases (Wrote c.disk (c.inode i) off src) (writei devsw c.disk (c.inode i) src off)
        λ a e. writei-Wrote devsw c.disk (c.inode i) src off r.file h b e)
      λ (d, ip, n) w.
        let held : 0 < (update c.inode i ip i).ref =
          subst (λ v. 0 < v.ref) (sym (update_self c.inode i ip))
            (subst (λ m. 0 < m) (sym (ap (λ v. v.ref) w.inode)) r.held) in
        let whole : (length src == length src) ≡ true = ground arith in
        let ends : (iunlock (put_inode c i d ip) i >>= λ c2. end_round c2 off (length src) n)
            ≡ some (goes_on (put_inode c i d ip) (off + length src)) =
          rw (iunlock_held (put_inode c i d ip) i held, w.count, whole) refl in
        subst (OnSome (WentOn c i off src)) (sym ends)
          (refl, put_inode-Written c i off src d ip n w))

-- Two writes, one behind the other.
Wrote-trans :
    (d : Disk) (ip : Inode) (off m : ℕ) (src : List ℕ) (d1 : Disk) (ip1 : Inode) (d2 : Disk)
    (ip2 : Inode) (r1 r2 : Option ℕ)
    → m ≤ length src
    → Wrote d ip off (take m src) (d1, ip1, r1)
    → Wrote d1 ip1 (off + m) (drop m src) (d2, ip2, r2)
    → Wrote d ip off src (d2, ip2, some (length src))
Wrote-trans d ip off m src d1 ip1 d2 ip2 r1 r2 b v w =
    let short = length-take m src b in
    let left = length-drop m src b in
    let size1 : ip1.size ≡ bigger ip.size (off + m) =
      v.size ∙ ap (λ n. bigger ip.size (off + n)) short in
    let size2 : ip2.size ≡ bigger ip1.size (off + m + (length src - m)) =
      w.size ∙ ap (λ n. bigger ip1.size (off + m + n)) left in
    record {
      count = refl;
      file = w.file;
      size = ground (arith, size1, size2);
      inode = w.inode ∙ ap (λ j. sized j ip2.addrs ip2.size) v.inode;
      bytes = λ k l.
          w.bytes k l
          ∙ overwrite-ext (content d1 ip1) (overwrite (content d ip) off (take m src)) (off + m)
              (drop m src) k (v.bytes k l)
          ∙ overwrite-split (content d ip) off m src k b;
    }

Written-trans :
    (c c1 c2 : Icache) (i off m : ℕ) (src : List ℕ)
    → m ≤ length src
    → Written c i off (take m src) c1
    → Written c1 i (off + m) (drop m src) c2
    → Written c i off src c2
Written-trans c c1 c2 i off m src b v w = record {
  wrote =
      Wrote-trans c.disk (c.inode i) off m src c1.disk (c1.inode i) c2.disk (c2.inode i) _ _ b
        v.wrote w.wrote;
  others = λ k ne. w.others k ne ∙ v.others k ne;
}

Written-Ready :
    (c c' : Icache) (i off : ℕ) (src : List ℕ) → Ready c i → Written c i off src c' → Ready c' i
Written-Ready c c' i off src r w = record {
  file = w.wrote.file;
  valid = ap (λ v. v.valid) w.wrote.inode ∙ r.valid;
  held = subst (λ n. 0 < n) (sym (ap (λ v. v.ref) w.wrote.inode)) r.held;
}

nothing-Written :
    (c : Icache) (i off : ℕ) → Ready c i → off ≤ (c.inode i).size → Written c i off [] c
unfolding overwrite
nothing-Written c i off r h = record {
  wrote = record {
    count = refl;
    file = r.file;
    size = ground arith;
    inode = refl;
    bytes = λ k l. refl;
  };
  others = λ k ne. refl;
}

-- What the rounds of `filewrite` leave.
abbrev pub AllWritten : Icache → ℕ → ℕ → List ℕ → Icache × ℕ × Bool → Type 0
AllWritten c i off src (c', off', all) =
    (all ≡ true) × (off' ≡ off + length src) × Written c i off src c'

-- The rounds after the first one, of m bytes.
next_rounds :
    (c : Icache) (i off m : ℕ) (src : List ℕ) (rest : Icache → ℕ → Option (Icache × ℕ × Bool))
    (round : Round)
    → m ≤ length src
    → ((c' : Icache)
        → Written c i off (take m src) c'
        → OnSome (AllWritten c' i (off + m) (drop m src)) (rest c' (off + m)))
    → WentOn c i off (take m src) round
    → OnSome
        (AllWritten c i off src)
        (elim round [ goes_on c' off' ↦ rest c' off' | breaks c' ↦ some (c', off, false) ])
next_rounds c i off m src rest (breaks c') b rec w = absurd w
next_rounds c i off m src rest (goes_on c1 off1) b rec (e, w) =
    let moved : off1 ≡ off + m = e ∙ ap (λ n. off + n) (length-take m src b) in
    subst (λ o. OnSome (AllWritten c i off src) (rest c1 o)) (sym moved)
      (OnSome-map (AllWritten c1 i (off + m) (drop m src)) (AllWritten c i off src)
        (rest c1 (off + m))
        (λ (c2, off2, all) (done, e2, w2).
          let left = length-drop m src b in
          (done, omega (arith, e2, left), Written-trans c c1 c2 i off m src b w w2))
        (rec c1 w))

write_rounds-AllWritten :
    (devsw : ℕ → Option Device) (r : ℕ) (c : Icache) (i off : ℕ) (src : List ℕ)
    → Ready c i
    → off ≤ (c.inode i).size
    → off + length src ≤ reach
    → length src ≤ r
    → OnSome (AllWritten c i off src) (write_rounds devsw r c i off src)
unfolding write_rounds
write_rounds-AllWritten devsw zero c i off [] ready h b l =
    (refl, omega arith, nothing-Written c i off ready h)
write_rounds-AllWritten devsw (suc r) c i off [] ready h b l =
    (refl, omega arith, nothing-Written c i off ready h)
write_rounds-AllWritten devsw zero c i off (x ∷ xs) ready h b l = absurd (omega arith)
write_rounds-AllWritten devsw (suc r) c i off (x ∷ xs) ready h b l =
    let src = x ∷ xs in
    let m = min (length src) max_write in
    let some_left : (length src == 0) ≡ false = ground arith in
    let short = length-take m src (omega arith) in
    let left = length-drop m src (omega arith) in
    rw some_left (
      OnSome-bind (WentOn c i off (take m src)) (AllWritten c i off src)
        (write_round devsw c i off (take m src)) _
        (write_round-WentOn devsw c i off (take m src) ready h (omega (arith, short)))
        λ round w.
          next_rounds c i off m src (λ c' off'. write_rounds devsw r c' i off' (drop m src)) round
            (omega arith)
            (λ c' w1.
              let grown : off + m ≤ (c'.inode i).size = ground (arith, short, w1.wrote.size) in
              write_rounds-AllWritten devsw r c' i (off + m) (drop m src)
                (Written-Ready c c' i off (take m src) ready w1) grown (omega (arith, left))
                (omega (arith, left)))
            w)

-- What `filewrite` to a file that is open for writing on a regular file's inode leaves, where it does
-- not panic: it returns the number of the bytes, they are in the file at its offset, and the offset is
-- behind them.
pub record FileWritten (t : Ftable) (f : ℕ) (src : List ℕ) (r : Ftable × Outcome ℕ) : Type 0 where
  pub count : r.1 ≡ returns (some (length src))
  pub bytes : Written t.inodes (t.file f).ip (t.file f).off src r.0.inodes
  pub moved : (r.0.file f).off ≡ (t.file f).off + length src
  pub others : (k : ℕ) → k ≢ f → r.0.file k ≡ t.file k

-- `filewrite` of bytes that need no double-indirect block, from an offset in the file, writes them in
-- rounds, and where it does not panic the rounds together leave what one write of all of them would:
-- it returns their number, the bytes are in the file, and the offset is behind them.
pub filewrite-FileWritten :
    (devsw : ℕ → Option Device) (killed : Bool) (t : Ftable) (f : ℕ) (src : List ℕ)
    {r : Ftable × Outcome ℕ}
    → (t.file f).writable ≡ true
    → (t.file f).type ≡ fd_inode
    → Ready t.inodes (t.file f).ip
    → (t.file f).off ≤ (t.inodes.inode (t.file f).ip).size
    → (t.file f).off + length src ≤ reach
    → filewrite devsw killed t f src ≡ some r
    → FileWritten t f src r
unfolding filewrite
filewrite-FileWritten devsw killed t f src {r} writes kind ready h b e =
    OnSome-eq (FileWritten t f src) (filewrite devsw killed t f src) r
      (rw (writes, kind)
        (OnSome-bind (AllWritten t.inodes ip off src) (FileWritten t f src)
          (write_rounds devsw (length src) t.inodes ip off src) _
          (write_rounds-AllWritten devsw (length src) t.inodes ip off src ready h b (omega arith))
          λ (c, off', all) (done, e', w). record {
            count = ap (λ (b : Bool). returns (if b then some (length src) else none)) done;
            bytes = w;
            moved = ap (λ v. v.off) (update_self t.file f _) ∙ e';
            others = λ k ne. update_ne t.file f k _ (λ q. ne (sym q));
          }))
      e
  where
    ip : ℕ
    ip = (t.file f).ip

    off : ℕ
    off = (t.file f).off
