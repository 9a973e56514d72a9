-- ===== src/PageAllocator/Tests.antt =====
-- Two pages freed.
use northos.Prelude.{ℕ, ◌≡◌, refl, false, [], ◌∷◌, arith}
use northos.PageAllocator.{Kmem, kalloc, is_bad}
use northos.PageAllocator.FreeList.{Free, Allocated, kalloc-Allocated}

-- One page on the list, at KERNBASE + 4 MB.
abbrev page : ℕ
page = 2151677952

abbrev one_free : Kmem
one_free = record { next = λ a. 0; freelist = page; bottom = 2148532224 }

one_free-Free : Free one_free (page ∷ [])
one_free-Free = record {
  linked = (refl, omega arith, refl);
  different = (tt, tt);
  bottom_up = omega arith;
}

fine : is_bad one_free 2151682048 ≡ false
fine = refl

kalloc-Allocated_run : Allocated (page ∷ []) (kalloc one_free)
kalloc-Allocated_run = kalloc-Allocated one_free (page ∷ []) one_free-Free
