-- ===== src/Store.antt =====
-- idb_store.rs: the store of analysed databases. Its state is the directory and what `index.json`
-- holds; the hash of a binary and the clock are arguments.
pub mod Clean
pub mod Evict
pub mod Groups
pub mod Index
pub mod Tests
use ida_mcp.Base.{
  ℕ, suc, ◌+◌, Bool, true, false, not, ◌&&◌, ◌||◌, Option, none, some, List, [], ◌∷◌, ◌++◌, map,
  Text, text, text_eq, decimal, length, take, filter, any, unwrap_or, is_some, leb, ltb, ◌==◌,
  if◌then◌else◌, HashMap, text_key,
}
use ida_mcp.Base.Map
use ida_mcp.Base.Sort.{sort}
use ida_mcp.Files.{
  Metadata, Dir, File, Group, Eviction, saturating_add, regular_files, total_size, remove_files,
  evict_groups, nothing_evicted,
}
use ida_mcp.Files.Names.{contains, ends_with, extension, without_extension}

pub record IdbEntry : Type 0 where
  pub hash : Text
  pub original_path : Text
  pub binary_type : Text
  pub size : ℕ
  pub created_at : Text
  pub last_accessed : Text

-- `index` is what the index file holds, if it can be read as an index.
pub record Store : Type 0 where
  pub root : Text
  pub entries : Dir
  pub index : Option (HashMap Text IdbEntry)

-- A binary on disk: its path, its file name, and what can be read of it.
pub record Binary : Type 0 where
  pub path : Text
  pub file_name : Text
  pub content : Option Text
  pub len : Option ℕ

abbrev pub index_file : Text
index_file = text "index.json"

-- The first 12 hexadecimal digits; `blake3` is the digest in hexadecimal.
unfoldable pub compute_hash : (Text → Text) → Binary → Text
compute_hash blake3 b = take 12 (blake3 (unwrap_or b.content []))

abbrev pub idb_suffix : Text
idb_suffix = text ".dylib.i64"

unfoldable pub idb_name : (Text → Text) → Binary → Text
unfolding compute_hash
idb_name blake3 b = b.file_name ++ b'.' ∷ (compute_hash blake3 b ++ idb_suffix)

unfoldable pub idb_path : (Text → Text) → Binary → Store → Text
unfolding idb_name
idb_path blake3 b s = s.root ++ b'/' ∷ idb_name blake3 b

abbrev pub pattern_of : Text → Text
pattern_of hash = b'.' ∷ (hash ++ b'.' ∷ [])

abbrev pub is_database_of : Text → Text → Bool
is_database_of hash name = contains (pattern_of hash) name && ends_with (text ".i64") name

-- The name of the first database file of that hash.
unfoldable pub lookup_by_hash : Text → Dir → Option Text
lookup_by_hash hash [] = none
lookup_by_hash hash ((name, meta) ∷ dir) =
    let rest = lookup_by_hash hash dir in if is_database_of hash name then some name else rest

unfoldable pub lookup : (Text → Text) → Binary → Store → Option Text
unfolding compute_hash lookup_by_hash
lookup blake3 b s = lookup_by_hash (compute_hash blake3 b) s.entries

-- The index, empty where the file is missing or cannot be read.
unfoldable pub load : Store → HashMap Text IdbEntry
load s = if is_some (Map.get index_file s.entries) then unwrap_or s.index [] else []

-- The index is written aside and renamed; `written` is the new file's metadata, none if it failed.
unfoldable pub save : Option Metadata → HashMap Text IdbEntry → Store → Store
save none index s = s
save (some meta) index s = record s {
  entries = Map.insert index_file (some meta) s.entries;
  index = some index;
}

abbrev pub is_so : Option Text → Bool
is_so none = false
is_so (some e) = text_eq e (text "so")

abbrev pub created : Text → Option IdbEntry → Text
created now none = now
created now (some e) = e.created_at

abbrev pub entry_of : Text → Binary → Text → Option IdbEntry → IdbEntry
entry_of hash b now old = record {
  hash = hash;
  original_path = b.path;
  binary_type = if is_so (extension b.file_name) then text "sbpf" else text "native";
  size = unwrap_or b.len 0;
  created_at = created now old;
  last_accessed = now;
}

-- `now_iso8601`: the seconds since the epoch.
abbrev pub now_iso8601 : ℕ → Text
now_iso8601 secs = decimal secs ++ b'Z' ∷ []

unfoldable pub record_binary : (Text → Text) → Binary → ℕ → Option Metadata → Store → Store
unfolding save
record_binary blake3 b secs written s =
    let hash = compute_hash blake3 b in
    let index = load s in
    save written (Map.insert hash (entry_of hash b (now_iso8601 secs) (Map.get hash index)) index) s

unfoldable pub list : Store → List IdbEntry
list s = map (λ (hash, e). e) (load s)

pub record IdbStoreStats : Type 0 where
  pub root : Text
  pub file_count : ℕ
  pub entry_count : ℕ
  pub total_size_bytes : ℕ

unfoldable pub stats : Store → IdbStoreStats
unfolding list
stats s =
    let files = regular_files s.entries in
    record {
      root = s.root;
      file_count = length files;
      entry_count = length (list s);
      total_size_bytes = total_size 0 files;
    }

-- The entries whose name contains the pattern of the hash go.
abbrev pub files_of_hash : Text → Dir → List Text
files_of_hash hash dir =
    map (λ (name, meta). name) (filter (λ (name, meta). contains (pattern_of hash) name) dir)

unfoldable pub remove_files_by_hash : (Text → Bool) → Text → Dir → Dir
remove_files_by_hash removable hash dir = remove_files removable (files_of_hash hash dir) dir

unfoldable pub remove : (Text → Bool) → Text → Option Metadata → Store → Store × Bool
unfolding remove_files_by_hash save
remove removable hash written s = elim (Map.get hash (load s)) [
  | none ↦ (s, false)
  | some e ↦
      let index = Map.remove hash (load s) in
      (
        save written index (record s { entries = remove_files_by_hash removable hash s.entries }),
        true,
      )
]

abbrev pub has_database : Dir → Text × IdbEntry → Bool
has_database dir (hash, e) = is_some (lookup_by_hash hash dir)

abbrev pub remove_keys : List Text → HashMap Text IdbEntry → HashMap Text IdbEntry
remove_keys [] index = index
remove_keys (hash ∷ hashes) index = remove_keys hashes (Map.remove hash index)

abbrev pub orphans : Store → List (Text × IdbEntry)
orphans s = filter (λ x. not (has_database s.entries x)) (load s)

abbrev pub is_nil {ℓ} : {A : Type ℓ} → List A → Bool
is_nil [] = true
is_nil (x ∷ xs) = false

-- The entries with no database file go; the index is written only if there are such.
unfoldable pub clean : Option Metadata → Store → Store × List IdbEntry
unfolding save
clean written s =
    let gone = orphans s in
    let index = remove_keys (map (λ (hash, e). hash) gone) (load s) in
    (if is_nil gone then s else save written index s, map (λ (hash, e). e) gone)

-- The order of a `BTreeMap` of texts.
abbrev pub text_le : Text → Text → Bool
text_le [] t = true
text_le (c ∷ s) [] = false
text_le (c ∷ s) (d ∷ t) = ltb c d || ((c == d) && text_le s t)

-- The path of a file without its extension.
abbrev pub stem_in : Text → Text → Text
stem_in root name = root ++ b'/' ∷ without_extension name

abbrev pub no_group : Text → Group
no_group stem = record { stem = stem; files = []; bytes = 0; newest_mtime = 0 }

abbrev pub add_file : File → Group → Group
add_file f g = record g {
  files = g.files ++ f.name ∷ [];
  bytes = saturating_add g.bytes f.len;
  newest_mtime = if ltb g.newest_mtime f.mtime then f.mtime else g.newest_mtime;
}

abbrev pub add_to_groups : Text → File → HashMap Text Group → HashMap Text Group
add_to_groups root f groups =
    let stem = stem_in root f.name in
    Map.insert stem (add_file f (unwrap_or (Map.get stem groups) (no_group stem))) groups

abbrev pub group_files : Text → List File → HashMap Text Group → HashMap Text Group
group_files root [] groups = groups
group_files root (f ∷ fs) groups = group_files root fs (add_to_groups root f groups)

abbrev pub by_stem : Group → Group → Bool
by_stem g h = text_le g.stem h.stem

abbrev pub by_newest : Group → Group → Bool
by_newest g h = leb g.newest_mtime h.newest_mtime

abbrev pub group_at : Text × Group → Group
group_at x = x.1

-- The groups, as the `BTreeMap` gives them, sorted by the newest file of each.
unfoldable pub ordered_groups : Text → Dir → List Group
unfolding sort
ordered_groups root dir =
    sort by_newest (sort by_stem (map group_at (group_files root (regular_files dir) [])))

unfoldable pub evict_to_limit :
    (Text → Bool) → ℕ → List Text → Option Metadata → Store → Store × Eviction
unfolding ordered_groups evict_groups clean
evict_to_limit removable max_bytes pinned written s =
    let total = total_size 0 (regular_files s.entries) in
    let start = nothing_evicted s.entries total in
    let after =
      evict_groups removable (λ stem. any (text_eq stem) pinned) max_bytes
        (ordered_groups s.root s.entries) start in
    if leb total max_bytes
    then (s, start)
    else ((clean written (record s { entries = after.dir })).0, after)
