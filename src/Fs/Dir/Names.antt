-- ===== src/Fs/Dir/Names.antt =====
-- `strncmp` and `strncpy` of kernel/string.c on the names of a directory.
use northos.Prelude.{
  ℕ, zero, suc, ◌<◌, ◌≡◌, refl, ap, true, not, ◌&&◌, List, [], ◌∷◌, length, ◌==◌, arith,
}
use northos.Prelude.Int.{pos}
use northos.Fs.Dir.{strncmp, strncpy, dirsiz, same_name, tail}

pub length-strncpy : (t : List ℕ) (n : ℕ) → length (strncpy t n) ≡ n
unfolding strncpy
length-strncpy t zero = refl
length-strncpy t (suc n) = ap suc (length-strncpy (tail t) n)

-- No 0 is in a name.
abbrev pub IsName : List ℕ → Type 0
IsName [] = Unit {0}
IsName (c ∷ s) = (0 < c) × IsName s

strncmp-strncpy : (s : List ℕ) (n : ℕ) → IsName s → strncmp s (strncpy s n) n ≡ pos 0
unfolding strncmp strncpy
strncmp-strncpy s zero h = refl
strncmp-strncpy [] (suc n) h = refl
strncmp-strncpy (c ∷ s) (suc n) (lo, h) =
    let same : not (c == 0) && c == c ≡ true = ground arith in rw same (strncmp-strncpy s n h)

-- The copy of a name in a directory entry is the name.
pub same_name-strncpy : (s : List ℕ) → IsName s → same_name s (strncpy s dirsiz) ≡ true
same_name-strncpy s h = rw (strncmp-strncpy s dirsiz h) refl
