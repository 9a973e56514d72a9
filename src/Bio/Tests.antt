-- ===== src/Bio/Tests.antt =====
-- Runs of the buffer cache.
use northos.Prelude.{false, ◌≡◌, [], ◌∷◌, ◌++◌, ◌-◌, ◌%◌, ◌+◌, ◌==◌, if◌then◌else◌, update}
use northos.Bio.{Bcache, nbuf, u32, holds, may_recycle, claim, got, binit, bget, brelse}
use northos.Bio.Cache.{IsCache, first_of, last_of, bget_lem, brelse-IsCache}
use northos.Bio.Cache.Start.{pushed, binit-IsCache}
use northos.Bio.Cache.Gets.{Gets, bget-Gets}

abbrev memory : Bcache
memory = record {
  buf = λ b. record { valid = false; dirty = false; dev = 0; blockno = 0; refcnt = 0 };
  next = λ b. 0;
  prev = λ b. 0;
}

abbrev started : Bcache
started = binit memory

-- The block is in no buffer: buffer 0, the last of the ring, is taken.
bget_lem_run :
    bget 1 7 started
    ≡ got 1 7 started
        (first_of (λ b. holds 1 7 (started.buf b)) (pushed 0 nbuf []))
        (last_of (λ b. may_recycle (started.buf b)) (pushed 0 nbuf []))
bget_lem_run = bget_lem 1 7 started (pushed 0 nbuf []) (binit-IsCache memory)

-- Buffer 28 has one user.
abbrev used : Bcache
used = record started { buf = update started.buf 28 (claim 1 7) }

used-IsCache : IsCache ((29 ∷ []) ++ (28 ∷ pushed 0 28 [])) used
used-IsCache = let k = binit-IsCache memory in record { ring = k.ring; size = k.size }

brelse-IsCache_example :
    IsCache
      (if ((used.buf 28).refcnt + (u32 - 1)) % u32 == 0
        then 28 ∷ ((29 ∷ []) ++ pushed 0 28 [])
        else (29 ∷ []) ++ (28 ∷ pushed 0 28 []))
      (brelse 28 used)
brelse-IsCache_example = brelse-IsCache used 28 (29 ∷ []) (pushed 0 28 []) used-IsCache

bget-Gets_example : Gets 1 7 started (pushed 0 nbuf []) (bget 1 7 started)
bget-Gets_example = bget-Gets 1 7 started (pushed 0 nbuf []) (binit-IsCache memory)
