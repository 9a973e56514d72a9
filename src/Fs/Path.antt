-- ===== src/Fs/Path.antt =====
-- Path names in kernel/fs.c. A path is the list of its characters up to the terminating 0.
pub mod Elements
use northos.Prelude.{
  ℕ, zero, suc, ◌+◌, Bool, true, false, ◌&&◌, List, [], ◌∷◌, length, take, Option, none, some, ◌==◌,
  if◌then◌else◌,
}
use northos.Fs.Bitmap.{◌>>=◌}
use northos.Fs.File.{Device}
use northos.Fs.Inodes.{Icache, iget, idup, ilock, iunlock, iput}
use northos.Fs.Dir.{dirsiz, t_dir, dirlookup}

-- '/', ROOTDEV and ROOTINO
abbrev pub slash : ℕ
slash = 47

abbrev pub root_dev : ℕ
root_dev = 1

abbrev pub root_ino : ℕ
root_ino = 1

-- while (*path == '/') path++;
unfoldable pub skip_slashes : List ℕ → List ℕ
skip_slashes [] = []
skip_slashes (c ∷ path) = let more = skip_slashes path in if c == slash then more else c ∷ path

-- while (*path != '/' && *path != 0) path++;, with the characters passed.
unfoldable pub span_elem : List ℕ → List ℕ × List ℕ
span_elem [] = ([], [])
span_elem (c ∷ path) =
    let (s, rest) = span_elem path in if c == slash then ([], c ∷ path) else (c ∷ s, rest)

-- After the first slashes. Of the name the first DIRSIZ characters are kept.
abbrev pub take_elem : List ℕ → Option (List ℕ × List ℕ)
take_elem [] = none
take_elem (c ∷ path) =
    let (s, rest) = span_elem (c ∷ path) in some (take dirsiz s, skip_slashes rest)

unfoldable pub skipelem : List ℕ → Option (List ℕ × List ℕ)
skipelem path = take_elem (skip_slashes path)

unfoldable pub iunlockput : Icache → ℕ → Option Icache
iunlockput c i = iunlock c i >>= λ c'. iput c' i

-- What `namex` returns: the cache, and the inode's place or 0; with `nameiparent` also the name.
abbrev pub Named : Type 0
Named = Icache × Option ℕ × List ℕ

abbrev pub no_inode : List ℕ → Icache → Named
no_inode name c = (c, none, name)

-- After the end of the path.
abbrev pub at_path_end : Bool → Icache → ℕ → List ℕ → Option Named
at_path_end true c ip name = do c' ← iput c ip; some (no_inode name c')
at_path_end false c ip name = some (c, some ip, name)

abbrev pub is_nil : List ℕ → Bool
is_nil [] = true
is_nil (c ∷ s) = false

-- The loop of `namex`, with the rounds left first: a round takes a character of the path, so that
-- its length + 1 is enough.
pub walk : (ℕ → Option Device) → Bool → ℕ → Icache → ℕ → List ℕ → List ℕ → Option Named
walk devsw parent zero c ip name path = none
walk devsw parent (suc r) c ip name path = elim (skipelem path) [
  | none ↦ at_path_end parent c ip name
  | some (elem, rest) ↦ (do
    c1 ← ilock c ip
    if not_dir c1
        then (do c2 ← iunlockput c1 ip; some (no_inode elem c2))
        else if parent && is_nil rest
        then (do c2 ← iunlock c1 ip; some (c2, some ip, elem))
        else (do
          (c2, found) ← dirlookup devsw c1 ip elem
          c3 ← iunlockput c2 ip
          elim found [
            | none ↦ some (no_inode elem c3)
            | some (next, off) ↦ walk devsw parent r c3 next elem rest
          ]))
]
  where
    not_dir : Icache → Bool
    not_dir c1 = if (c1.inode ip).type == t_dir then false else true

abbrev pub is_absolute : List ℕ → Bool
is_absolute [] = false
is_absolute (c ∷ path) = c == slash

-- `name` is what the buffer holds before.
unfoldable pub namex : (ℕ → Option Device) → Icache → ℕ → List ℕ → Bool → List ℕ → Option Named
unfolding walk
namex devsw c cwd path parent name =
    if is_absolute path
    then (do
      (c1, ip) ← iget c root_dev root_ino
      walk devsw parent (length path + 1) c1 ip name path)
    else walk devsw parent (length path + 1) (idup c cwd) cwd name path

unfoldable pub namei : (ℕ → Option Device) → Icache → ℕ → List ℕ → Option Named
namei devsw c cwd path = namex devsw c cwd path false []

unfoldable pub nameiparent : (ℕ → Option Device) → Icache → ℕ → List ℕ → List ℕ → Option Named
nameiparent devsw c cwd path name = namex devsw c cwd path true name
