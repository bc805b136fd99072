-- ===== src/Files.antt =====
-- The directories that the program keeps files in, and the loop that both caches are cut down by:
-- idb_store.rs (`evict_to_limit`) and server/response_cache.rs (`prune_to_limit`).
pub mod Evict
pub mod Limit
pub mod Listing
pub mod Names
use ida_mcp.Base.{
  ℕ, suc, ◌+◌, ◌-◌, ◌^◌, min, Bool, true, false, not, ◌&&◌, Option, none, some, List, [], ◌∷◌, ◌++◌,
  Text, text_eq, length, any, unwrap_or, leb, ltb, if◌then◌else◌, HashMap, text_key,
}
use ida_mcp.Base.Map

pub record Metadata : Type 0 where
  pub is_file : Bool
  pub len : ℕ
  pub modified : Option ℕ

-- The entries of a directory by name; none where the metadata cannot be read.
abbrev pub Dir : Type 0
Dir = HashMap Text (Option Metadata)

-- `saturating_add` on a `u64`.
abbrev pub saturating_add : ℕ → ℕ → ℕ
saturating_add a b = min (a + b) (2 ^ 64 - 1)

-- What a listing gives of a regular file: the others are skipped.
pub record File : Type 0 where
  pub name : Text
  pub len : ℕ
  pub mtime : ℕ

abbrev pub file_of : Text × Option Metadata → Option File
file_of (name, none) = none
file_of (name, some meta) =
    if meta.is_file
    then some (record { name = name; len = meta.len; mtime = unwrap_or meta.modified 0 })
    else none

abbrev pub put_file : Option File → List File → List File
put_file none fs = fs
put_file (some f) fs = f ∷ fs

abbrev pub regular_files : Dir → List File
regular_files [] = []
regular_files (e ∷ dir) = put_file (file_of e) (regular_files dir)

-- `total_size`, as the listing adds it up.
abbrev pub total_size : ℕ → List File → ℕ
total_size total [] = total
total_size total (f ∷ fs) = total_size (saturating_add total f.len) fs

-- `let _ = remove_file(path)`: whether a file can be removed is not asked for.
abbrev pub remove_file : (Text → Bool) → Text → Dir → Dir
remove_file removable name dir = if removable name then Map.remove name dir else dir

abbrev pub remove_files : (Text → Bool) → List Text → Dir → Dir
remove_files removable [] dir = dir
remove_files removable (name ∷ names) dir =
    remove_files removable names (remove_file removable name dir)

-- The files that are evicted together.
pub record Group : Type 0 where
  pub stem : Text
  pub files : List Text
  pub bytes : ℕ
  pub newest_mtime : ℕ

pub record Eviction : Type 0 where
  pub dir : Dir
  pub evicted_groups : ℕ
  pub evicted_files : ℕ
  pub evicted_bytes : ℕ
  pub remaining_bytes : ℕ

unfoldable pub evict_group : (Text → Bool) → Group → Eviction → Eviction
evict_group removable g v = record {
  dir = remove_files removable g.files v.dir;
  evicted_groups = suc v.evicted_groups;
  evicted_files = v.evicted_files + length g.files;
  evicted_bytes = saturating_add v.evicted_bytes g.bytes;
  remaining_bytes = v.remaining_bytes - g.bytes;
}

-- `break` at the limit, `continue` at a pinned group.
unfoldable pub evict_groups : (Text → Bool) → (Text → Bool) → ℕ → List Group → Eviction → Eviction
evict_groups removable pinned max_bytes [] v = v
evict_groups removable pinned max_bytes (g ∷ gs) v =
    let rest =
      evict_groups removable pinned max_bytes gs
        (if pinned g.stem then v else evict_group removable g v) in
    if leb v.remaining_bytes max_bytes then v else rest

abbrev pub nothing_evicted : Dir → ℕ → Eviction
nothing_evicted dir total = record {
  dir = dir;
  evicted_groups = 0;
  evicted_files = 0;
  evicted_bytes = 0;
  remaining_bytes = total;
}
