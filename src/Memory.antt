-- ===== src/Memory.antt =====
-- kernel/string.c over a memory of bytes: `memmove`, `memcmp` and `safestrcpy`. An address is a
-- number that does not wrap. The loops recurse on what is left of the count.
pub mod Copy
pub mod Strings
mod Tests
use northos.Prelude.{ℕ, zero, suc, ◌+◌, ◌-◌, ◌≡◌, ap, Bool, ◌&&◌, ltb, ◌==◌, if◌then◌else◌, update}
use northos.Prelude.Int.{ℤ, pos, ◌-ℤ◌}

abbrev pub Bytes : Type 0
Bytes = ℕ → ℕ

pub same_at : (mem : Bytes) (a b : ℕ) → a ≡ b → mem a ≡ mem b
same_at mem a b e = ap mem e

-- s += n; d += n; while (n-- > 0) *--d = *--s;
pub copy_down : ℕ → ℕ → ℕ → Bytes → Bytes
copy_down zero d s mem = mem
copy_down (suc n) d s mem = copy_down n d s (update mem (d + n) (mem (s + n)))

-- while (n-- > 0) *d++ = *s++;
pub copy_up : ℕ → ℕ → ℕ → Bytes → Bytes
copy_up zero d s mem = mem
copy_up (suc n) d s mem = copy_up n (d + 1) (s + 1) (update mem d (mem s))

pub memmove : ℕ → ℕ → ℕ → Bytes → Bytes
memmove dst src n mem =
    if ltb src dst && ltb dst (src + n) then copy_down n dst src mem else copy_up n dst src mem

pub memcmp : ℕ → ℕ → ℕ → Bytes → ℤ
memcmp s1 s2 zero mem = pos 0
memcmp s1 s2 (suc n) mem =
    let rest = memcmp (s1 + 1) (s2 + 1) n mem in
    if mem s1 == mem s2 then rest else pos (mem s1) -ℤ pos (mem s2)

-- while (--n > 0 && (*s++ = *t++) != 0); *s = 0; with the rounds that --n leaves.
pub safe_copy : ℕ → ℕ → ℕ → Bytes → Bytes
safe_copy zero s t mem = update mem s 0
safe_copy (suc r) s t mem =
    let mem' = update mem s (mem t) in
    let rest = safe_copy r (s + 1) (t + 1) mem' in
    if mem t == 0 then update mem' (s + 1) 0 else rest

pub safestrcpy : ℕ → ℕ → ℕ → Bytes → Bytes
safestrcpy s t zero mem = mem
safestrcpy s t (suc n) mem = safe_copy n s t mem
