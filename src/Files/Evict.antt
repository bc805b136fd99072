-- ===== src/Files/Evict.antt =====
-- The loop that evicts groups of files: what it keeps, and that it reaches the limit.
use ida_mcp.Base.{
  ℕ, ◌+◌, ◌≡◌, refl, ◌∙◌, inl, inr, Bool, true, false, not, ◌&&◌, Option, none, some, List, [], ◌∷◌,
  Text, text_eq, any, All, if◌then◌else◌, Bool-cases, arith, text_key,
}
use ida_mcp.Base.Map
use ida_mcp.Files.{Metadata, Dir, remove_files}

abbrev pub listed : Text → List Text → Bool
listed name names = any (λ n. text_eq n name) names

abbrev pub size_of : Option Metadata → ℕ
size_of none = 0
size_of (some meta) = if meta.is_file then meta.len else 0

abbrev pub is_regular : Option Metadata → Bool
is_regular none = false
is_regular (some meta) = meta.is_file

-- The bytes of the regular files whose name passes a test.
abbrev pub size : (Text → Bool) → Dir → ℕ
size p [] = 0
size p ((name, meta) ∷ dir) = let rest = size p dir in if p name then size_of meta + rest else rest

abbrev pub every : Text → Bool
every name = true

abbrev pub always : Text → Bool
always name = true

pub get-remove_files :
    (removable : Text → Bool) (n : Text) (names : List Text) (dir : Dir)
    → listed n names ≡ false
    → Map.get n (remove_files removable names dir) ≡ Map.get n dir
get-remove_files removable n [] dir h = refl
get-remove_files removable n (k ∷ names) dir h = elim (Bool-cases (removable k)) [
  | inl goes ↦ rw goes (
      get-remove_files removable n names (Map.remove k dir) (ground arith)
      ∙ ground (arith, Map.get-remove k n dir))
  | inr stays ↦ rw stays (get-remove_files removable n names dir (ground arith))
]

size-remove :
    (p : Text → Bool) (k : Text) (dir : Dir)
    → size p (Map.remove k dir) ≡ size (λ n. p n && not (text_eq k n)) dir
size-remove p k [] = refl
size-remove p k ((j, meta) ∷ dir) = ground (arith, size-remove p k dir)

pub size_congr :
    (p q : Text → Bool) (dir : Dir) → ((n : Text) → p n ≡ q n) → size p dir ≡ size q dir
size_congr p q [] h = refl
size_congr p q ((n, meta) ∷ dir) h = ground (arith, h n, size_congr p q dir h)

-- Where every file can be removed, what is left is what is not listed.
pub size-remove_files :
    (p : Text → Bool) (names : List Text) (dir : Dir)
    → size p (remove_files always names dir) ≡ size (λ n. p n && not (listed n names)) dir
size-remove_files p [] dir = size_congr p _ dir (λ n. ground arith)
size-remove_files p (k ∷ names) dir =
    size-remove_files p names (Map.remove k dir)
    ∙ size-remove (λ n. p n && not (listed n names)) k dir
    ∙ size_congr _ _ dir (λ n. ground arith)

pub size_split :
    (p q : Text → Bool) (dir : Dir)
    → size p dir ≡ size (λ n. p n && q n) dir + size (λ n. p n && not (q n)) dir
size_split p q [] = refl
size_split p q ((n, meta) ∷ dir) = ground (arith, size_split p q dir)

-- Every regular file of `dir` that passes `p` passes `q`.
abbrev pub Covers : (Text → Bool) → (Text → Bool) → Dir → Type 0
Covers p q dir = All (λ e. is_regular e.1 ≡ true → p e.0 ≡ true → q e.0 ≡ true) dir

pub size_covered :
    (p q : Text → Bool) (dir : Dir)
    → ((n : Text) → q n ≡ true → p n ≡ true)
    → Covers p q dir
    → size q dir ≡ size p dir
size_covered p q [] h c = refl
size_covered p q ((n, none) ∷ dir) h c = ground (arith, size_covered p q dir h c.1)
size_covered p q ((n, some meta) ∷ dir) h c = ground (arith, h n, c.0, size_covered p q dir h c.1)
