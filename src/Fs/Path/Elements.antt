-- ===== src/Fs/Path/Elements.antt =====
-- `skipelem` of kernel/fs.c takes the elements of a path one by one.
use northos.Prelude.{
  ℕ, zero, suc, ◌<◌, ◌≤◌, ◌≡◌, ◌≢◌, refl, sym, ap, subst, ◌∙◌, inl, inr, Bool-cases, true, false,
  List, [], ◌∷◌, ◌++◌, length, length-append, replicate, take, none, some, ◌==◌, arith,
}
use northos.Fs.Dir.{dirsiz}
use northos.Fs.Path.{slash, skip_slashes, span_elem, take_elem, skipelem}

-- An element has a character, and no slash in it.
abbrev NoSlash : List ℕ → Type 0
NoSlash [] = Unit {0}
NoSlash (c ∷ s) = (c ≢ slash) × NoSlash s

abbrev IsElem : List ℕ → Type 0
IsElem [] = ⊥
IsElem (c ∷ s) = NoSlash (c ∷ s)

abbrev pub slashes : ℕ → List ℕ
slashes n = replicate n slash

abbrev Ends : List ℕ → Type 0
Ends [] = Unit {0}
Ends (c ∷ rest) = c ≡ slash

-- A path with these elements: any number of slashes before and after each, but one at least between.
pub data IsPath : List ℕ → List (List ℕ) → Type 0 where
  done : (n : ℕ) → IsPath (slashes n) []
  elem :
      {path : List ℕ} {names : List (List ℕ)} (n : ℕ) (s : List ℕ)
      → IsElem s
      → Ends path
      → IsPath path names
      → IsPath (slashes n ++ (s ++ path)) (s ∷ names)

-- The elements that `skipelem` takes from a path one after the other.
pub elems : ℕ → List ℕ → List (List ℕ)
elems zero path = []
elems (suc r) path = elim (skipelem path) [ none ↦ [] | some (name, rest) ↦ name ∷ elems r rest ]

-- The names kept of the elements.
pub kept : List (List ℕ) → List (List ℕ)
kept [] = []
kept (s ∷ names) = take dirsiz s ∷ kept names

skip_slashes-slashes :
    (n : ℕ) (path : List ℕ) → skip_slashes (slashes n ++ path) ≡ skip_slashes path
unfolding skip_slashes
skip_slashes-slashes zero path = refl
skip_slashes-slashes (suc n) path = skip_slashes-slashes n path

skip_slashes_nil : (n : ℕ) → skip_slashes (slashes n) ≡ []
unfolding skip_slashes
skip_slashes_nil zero = refl
skip_slashes_nil (suc n) = skip_slashes_nil n

skip_slashes-elem : (s path : List ℕ) → IsElem s → skip_slashes (s ++ path) ≡ s ++ path
unfolding skip_slashes
skip_slashes-elem [] path h = absurd h
skip_slashes-elem (c ∷ s) path (ne, h) =
    let other : (c == slash) ≡ false = ground arith in rw other refl

span_elem-elem : (s path : List ℕ) → NoSlash s → Ends path → span_elem (s ++ path) ≡ (s, path)
unfolding span_elem
span_elem-elem [] [] h k = refl
span_elem-elem [] (c ∷ path) h k = let is : (c == slash) ≡ true = ground arith in rw is refl
span_elem-elem (c ∷ s) path (ne, h) k =
    let other : (c == slash) ≡ false = ground arith in rw (other, span_elem-elem s path h k) refl

pub skipelem-elem :
    (n : ℕ) (s path : List ℕ)
    → IsElem s
    → Ends path
    → skipelem (slashes n ++ (s ++ path)) ≡ some (take dirsiz s, skip_slashes path)
unfolding skipelem
skipelem-elem n [] path h k = absurd h
skipelem-elem n (c ∷ s) path h k =
    ap take_elem (skip_slashes-slashes n (c ∷ s ++ path) ∙ skip_slashes-elem (c ∷ s) path h)
    ∙ ap (λ e. some (take dirsiz e.0, skip_slashes e.1)) (span_elem-elem (c ∷ s) path h k)

-- A path whose leading slashes are skipped has the same elements.
skipped :
    (path : List ℕ) (names : List (List ℕ)) → IsPath path names → IsPath (skip_slashes path) names
skipped path names (done n) = subst (λ p. IsPath p []) (sym (skip_slashes_nil n)) (done 0)
skipped path names (elem {path = p} {names = ns} n s h k rest) =
    subst (λ q. IsPath q (s ∷ ns)) (sym (skip_slashes-slashes n (s ++ p) ∙ skip_slashes-elem s p h))
      (elem 0 s h k rest)

skip_slashes-shorter : (path : List ℕ) → length (skip_slashes path) ≤ length path
unfolding skip_slashes
skip_slashes-shorter [] = omega arith
skip_slashes-shorter (c ∷ path) =
    let more = skip_slashes-shorter path in
    elim (Bool-cases (c == slash)) [
      | inl is ↦ rw is (omega arith)
      | inr other ↦ rw other (omega arith)
    ]

elem_length :
    (n : ℕ) (s path : List ℕ)
    → IsElem s
    → length (skip_slashes path) < length (slashes n ++ (s ++ path))
elem_length n [] path h = absurd h
elem_length n (c ∷ s) path h =
    let short = skip_slashes-shorter path in
    rw (length-append (slashes n) (c ∷ s ++ path), length-append s path) (omega arith)

skipelem_nil : (n : ℕ) → skipelem (slashes n) ≡ none
unfolding skipelem
skipelem_nil n = ap take_elem (skip_slashes_nil n)

-- The elements of a path come one after the other, of each its first DIRSIZ characters; as many
-- rounds as the path has characters and one more are enough.
pub elems-kept :
    (path : List ℕ) (names : List (List ℕ)) (r : ℕ)
    → IsPath path names
    → length path < r
    → elems r path ≡ kept names
unfolding elems kept
elems-kept path names zero p l = absurd (omega arith)
elems-kept path names (suc r) (done n) l = rw (elems, skipelem_nil n) refl
elems-kept path names (suc r) (elem {path = p} {names = ns} n s h k rest) l =
    let shorter = elem_length n s p h in
    rw (elems, skipelem-elem n s p h k)
      (ap (λ es. take dirsiz s ∷ es)
        (elems-kept (skip_slashes p) ns r (skipped p ns rest) (omega arith)))
