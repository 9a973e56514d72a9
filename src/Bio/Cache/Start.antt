-- ===== src/Bio/Cache/Start.antt =====
-- The ring that binit leaves.
use northos.Prelude.{ℕ, zero, suc, ◌+◌, ◌<◌, ◌≤◌, List, [], ◌∷◌, update, update_self, arith}
use northos.Wm.WindowList.Chain.{NotIn}
use northos.Bio.{Bcache, list_head, nbuf, push_front, binit, binit_from}
use northos.Bio.Ring.{IsRing, push_front-IsRing}
use northos.Bio.Cache.{IsCache}

-- The buffers from `b` on, the last one first, and then `xs`.
abbrev pub pushed : ℕ → ℕ → List ℕ → List ℕ
pushed b zero xs = xs
pushed b (suc n) xs = pushed (suc b) n (b ∷ xs)

abbrev Below : ℕ → List ℕ → Type 0
Below b [] = Unit
Below b (x ∷ xs) = (x < b) × Below b xs

Below-NotIn : (b : ℕ) (xs : List ℕ) → Below b xs → NotIn b xs
Below-NotIn b [] h = tt
Below-NotIn b (x ∷ xs) h = (ground (arith, h.0), Below-NotIn b xs h.1)

Below-suc : (b : ℕ) (xs : List ℕ) → Below b xs → Below (suc b) xs
Below-suc b [] h = tt
Below-suc b (x ∷ xs) h = (omega (arith, h.0), Below-suc b xs h.1)

binit_from-IsRing :
    (b n : ℕ) (xs : List ℕ) (c : Bcache)
    → IsRing xs c.next c.prev
    → Below b xs
    → b + n ≤ list_head
    → IsRing (pushed b n xs) (binit_from b n c).next (binit_from b n c).prev
unfolding binit_from
binit_from-IsRing b zero xs c r below le = r
binit_from-IsRing b (suc n) xs c r below le =
    binit_from-IsRing (suc b) n (b ∷ xs) (push_front b c)
      (push_front-IsRing c b xs r (omega arith) (Below-NotIn b xs below))
      (omega arith, Below-suc b xs below) (omega arith)

-- After binit the ring is every buffer, the last one first.
pub binit-IsCache : (c : Bcache) → IsCache (pushed 0 nbuf []) (binit c)
unfolding binit
binit-IsCache c = record {
  ring =
      binit_from-IsRing 0 nbuf []
        (record c {
          prev = update c.prev list_head list_head;
          next = update c.next list_head list_head;
        })
        (record {
          linked = (update_self c.next list_head list_head, update_self c.prev list_head list_head);
          distinct = tt;
          no_head = tt;
        })
        tt (omega arith);
  size = omega arith;
}
