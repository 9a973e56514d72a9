-- ===== src/Bio.antt =====
-- kernel/bio.c: the buffers as a cache of disk blocks, on a circular list. A buffer is its place in `bcache.buf`, and `list_head` is the place after the last.
-- The bytes of a buffer, its lock and the disk are left out.
pub mod Ring
pub mod Cache
mod Tests
use northos.Prelude.{
  ℕ, zero, suc, ◌+◌, ◌-◌, ◌%◌, ◌^◌, Bool, true, false, not, ◌&&◌, Option, none, some, ◌==◌,
  if◌then◌else◌, update,
}

abbrev pub nbuf : ℕ
nbuf = 30

abbrev pub list_head : ℕ
list_head = nbuf

abbrev pub u32 : ℕ
u32 = 2 ^ 32

-- B_VALID and B_DIRTY are flags of their own.
pub record Buf : Type 0 where
  pub valid : Bool
  pub dirty : Bool
  pub dev : ℕ
  pub blockno : ℕ
  pub refcnt : ℕ

pub record Bcache : Type 0 where
  pub buf : ℕ → Buf
  pub next : ℕ → ℕ
  pub prev : ℕ → ℕ

-- The four assignments that put `b` behind the head.
unfoldable pub push_front : ℕ → Bcache → Bcache
push_front b c =
    let next1 = update c.next b (c.next list_head) in
    let prev1 = update c.prev b list_head in
    record c { prev = update prev1 (next1 list_head) b; next = update next1 list_head b }

-- The loop of `binit`, from buffer `b` on.
unfoldable pub binit_from : ℕ → ℕ → Bcache → Bcache
binit_from b zero c = c
binit_from b (suc n) c = binit_from (suc b) n (push_front b c)

unfoldable pub binit : Bcache → Bcache
binit c = binit_from 0 nbuf (record c {
  prev = update c.prev list_head list_head;
  next = update c.next list_head list_head;
})

abbrev pub holds : ℕ → ℕ → Buf → Bool
holds dev blockno b = b.dev == dev && b.blockno == blockno

abbrev pub may_recycle : Buf → Bool
may_recycle b = b.refcnt == 0 && not b.dirty

-- The loops of `bget`, along one of the links: the first buffer with `test` before the head.
unfoldable pub find_along : (ℕ → ℕ) → (ℕ → Bool) → ℕ → ℕ → Option ℕ
find_along step test zero b = none
find_along step test (suc r) b =
    let more = find_along step test r (step b) in
    if b == list_head then none else if test b then some b else more

-- One more round than there are buffers.
abbrev pub rounds : ℕ
rounds = suc nbuf

abbrev pub with_buf : Bcache → ℕ → Buf → Bcache
with_buf c b v = record c { buf = update c.buf b v }

abbrev pub claim : ℕ → ℕ → Buf
claim dev blockno = record {
  valid = false;
  dirty = false;
  dev = dev;
  blockno = blockno;
  refcnt = 1;
}

-- What `bget` does with what its two loops find: the buffer and the cache after the call; `none` is the
-- panic. The second loop is not run where the first one finds a buffer.
abbrev pub got : ℕ → ℕ → Bcache → Option ℕ → Option ℕ → Option (ℕ × Bcache)
got dev blockno c (some b) unused =
    some (b, with_buf c b (record (c.buf b) { refcnt = ((c.buf b).refcnt + 1) % u32 }))
got dev blockno c none (some b) = some (b, with_buf c b (claim dev blockno))
got dev blockno c none none = none

unfoldable pub bget : ℕ → ℕ → Bcache → Option (ℕ × Bcache)
bget dev blockno c =
    got dev blockno c
      (find_along c.next (λ b. holds dev blockno (c.buf b)) rounds (c.next list_head))
      (find_along c.prev (λ b. may_recycle (c.buf b)) rounds (c.prev list_head))

-- b->next->prev = b->prev; b->prev->next = b->next;
unfoldable pub take_out : ℕ → Bcache → Bcache
take_out b c =
    let prev1 = update c.prev (c.next b) (c.prev b) in
    record c { prev = prev1; next = update c.next (prev1 b) (c.next b) }

-- `brelse` after the lock has been released, for a buffer that is held.
unfoldable pub brelse : ℕ → Bcache → Bcache
brelse b c =
    let v = record (c.buf b) { refcnt = ((c.buf b).refcnt + (u32 - 1)) % u32 } in
    let c1 = with_buf c b v in if v.refcnt == 0 then push_front b (take_out b c1) else c1
