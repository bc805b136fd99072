-- ===== src/Files/Listing.antt =====
-- What a listing of a directory gives: its regular files, and the sum of their sizes.
use ida_mcp.Base.{
  ℕ, ◌+◌, ◌<◌, ◌^◌, ◌≡◌, refl, subst, ◌∙◌, inl, inr, true, Option, none, some, List, [], ◌∷◌, Text,
  text_eq, any, unwrap_or, All, Bool-cases, arith, text_key,
}
use ida_mcp.Files.{Metadata, Dir, File, saturating_add, file_of, regular_files, total_size}
use ida_mcp.Files.Evict.{is_regular, size, every}

-- The sum that the listing makes is that of the regular files, where a `u64` counts it.
pub total_size-regular_files :
    (total : ℕ) (dir : Dir)
    → total + size every dir < 2 ^ 64
    → total_size total (regular_files dir) ≡ total + size every dir
total_size-regular_files total [] h = omega arith
total_size-regular_files total ((n, none) ∷ dir) h =
    omega (arith, total_size-regular_files total dir (omega (arith, h)))
total_size-regular_files total ((n, some meta) ∷ dir) h = elim (Bool-cases meta.is_file) [
  | inl file ↦
      let small : total + (meta.len + size every dir) < 2 ^ 64 = ground arith in
      let added : saturating_add total meta.len ≡ total + meta.len = omega (arith, small) in
      rw (file, added)
        (total_size-regular_files (total + meta.len) dir (omega (arith, small)) ∙ omega arith)
  | inr other ↦ rw other (omega (arith, total_size-regular_files total dir (ground arith)))
]

-- A listed file is an entry of the directory.
pub All-regular_files {κ} :
    (P : File → Type κ) (dir : Dir)
    → All (λ e. (f : File) → file_of e ≡ some f → P f) dir
    → All P (regular_files dir)
All-regular_files P [] h = tt
All-regular_files P ((n, none) ∷ dir) h = All-regular_files P dir h.1
All-regular_files P ((n, some meta) ∷ dir) h = elim (Bool-cases meta.is_file) [
  | inl file ↦ rw file (h.0 _ (rw file refl), All-regular_files P dir h.1)
  | inr other ↦ rw other (All-regular_files P dir h.1)
]

abbrev pub IsListed : List File → Text × Option Metadata → Type 0
IsListed fs e = is_regular e.1 ≡ true → any (λ f. text_eq f.name e.0) fs ≡ true

IsListed-put :
    (fs : List File) (f : File) (dir : Dir) → All (IsListed fs) dir → All (IsListed (f ∷ fs)) dir
IsListed-put fs f [] h = tt
IsListed-put fs f (e ∷ dir) h = (λ regular. ground (arith, h.0 regular), IsListed-put fs f dir h.1)

pub files-IsListed : (dir : Dir) → All (IsListed (regular_files dir)) dir
files-IsListed [] = tt
files-IsListed ((n, none) ∷ dir) = (λ regular. absurd (ground arith), files-IsListed dir)
files-IsListed ((n, some meta) ∷ dir) = elim (Bool-cases meta.is_file) [
  | inr other ↦
      let same : regular_files dir ≡ regular_files ((n, some meta) ∷ dir) = ground arith in
      subst (λ fs. All (IsListed fs) ((n, some meta) ∷ dir)) same
        ((λ regular. absurd (ground arith)), files-IsListed dir)
  | inl file ↦
      let f : File = record { name = n; len = meta.len; mtime = unwrap_or meta.modified 0 } in
      let same : f ∷ regular_files dir ≡ regular_files ((n, some meta) ∷ dir) = ground arith in
      subst (λ fs. All (IsListed fs) ((n, some meta) ∷ dir)) same
        ((λ regular. ground arith), IsListed-put (regular_files dir) f dir (files-IsListed dir))
]
