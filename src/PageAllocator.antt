-- ===== src/PageAllocator.antt =====
-- `kfree` and `kalloc` of kernel/kalloc.c: the free pages as a list linked through the pages
-- themselves. Of a page's content only the link is kept; addresses are 32-bit words.
pub mod FreeList
mod Tests
use northos.Prelude.{
  ℕ, ◌+◌, ◌-◌, ◌%◌, ◌^◌, Bool, not, ◌||◌, Option, none, some, ltb, leb, ◌==◌, if◌then◌else◌, update,
}

-- PGSIZE, KERNBASE and PHYSTOP
abbrev pub pgsize : ℕ
pgsize = 4096

abbrev pub kernbase : ℕ
kernbase = 2147483648

abbrev pub phystop : ℕ
phystop = 134217728

-- `kmem` and the field `next` of each page; `bottom` is the address `end` of the linker's script.
-- The null pointer is 0.
pub record Kmem : Type 0 where
  pub next : ℕ → ℕ
  pub freelist : ℕ
  pub bottom : ℕ

-- The test for which `kfree` panics.
abbrev pub is_bad : Kmem → ℕ → Bool
is_bad k v =
    not (v % pgsize == 0) || (ltb v k.bottom || leb phystop ((v + 2 ^ 32 - kernbase) % 2 ^ 32))

-- `none` is the panic.
unfoldable pub kfree : Kmem → ℕ → Option Kmem
kfree k v =
    if is_bad k v then none else some (record k { next = update k.next v k.freelist; freelist = v })

-- What is left, and the page, or 0.
unfoldable pub kalloc : Kmem → Kmem × ℕ
kalloc k =
    if k.freelist == 0 then (k, 0) else (record k { freelist = k.next k.freelist }, k.freelist)
