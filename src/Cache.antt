-- ===== src/Cache.antt =====
-- server/response_cache.rs: responses that are too large to show are kept in files, and the files are
-- cut down to a limit. The directory is state; printing, hashing and writing are arguments.
pub mod Prune
pub mod Tests
use ida_mcp.Base.{
  ℕ, suc, ◌+◌, ◌-◌, ◌≤◌, Bool, true, false, Option, none, some, List, [], ◌∷◌, ◌++◌, map, Text,
  text, decimal, hex_padded, length, unwrap_or, leb, if◌then◌else◌, parse_u64, text_key,
}
use ida_mcp.Base.Map
use ida_mcp.Base.Sort.{sort}
use ida_mcp.Files.{
  Metadata, Dir, File, Group, Eviction, saturating_add, regular_files, total_size, evict_groups,
  nothing_evicted,
}
use ida_mcp.Json.{Value, null, bool, number, string, object, field, end}
use ida_mcp.Views.{count_items}

abbrev pub default_max_inline_bytes : ℕ
default_max_inline_bytes = 512

abbrev pub cache_dir : Text
cache_dir = text "/tmp/ida-cli-out"

-- What the code takes from outside: `serde_json::to_string`, the default hasher, the printing of a
-- size in kilobytes, and whether the file could be written.
pub record Outside : Type 0 where
  pub to_string : Value → Text
  pub hash : Text → ℕ
  pub kilobytes : ℕ → Text
  pub writable : Text → Bool

abbrev pub items_note : Option ℕ → Text
items_note none = []
items_note (some n) = text ", " ++ decimal n ++ text " items"

abbrev pub cache_file : Outside → Text → Text → Text
cache_file o method json = ((method ++ b'-' ∷ hex_padded 16 (o.hash json)) ++ text ".json")

abbrev pub cache_path : Text → Text
cache_path file = cache_dir ++ b'/' ∷ file

abbrev pub summary : Outside → ℕ → Option ℕ → Text → Text
summary o size items path =
    text "Response too large for inline display ("
    ++ o.kilobytes size
    ++ text "KB"
    ++ items_note items
    ++ text "). Full output saved to: "
    ++ path
    ++ 10 ∷ text "Use `cat "
    ++ path
    ++ text "` or Read tool to access the data."

abbrev pub pointer : Outside → Value → ℕ → Text → Value
pointer o result size path = object (
    field (text "cached") (bool true) (
      field (text "file") (string path) (
        field (text "size_bytes") (number size) (
          field (text "item_count") (elim (count_items result) [ none ↦ null | some n ↦ number n ])
            (field (text "summary") (string (summary o size (count_items result) path)) end)))))

-- The file that is written, and what the client is given.
unfoldable pub guard_response_size :
    Outside → Option Text → Text → Value → Option (Text × Text) × Value
unfolding parse_u64
guard_response_size o limit method result =
    let max_bytes =
      unwrap_or (elim limit [ none ↦ none | some s ↦ parse_u64 s ]) default_max_inline_bytes in
    let json = o.to_string result in
    let file = cache_file o method json in
    if leb (length json) max_bytes
    then (none, result)
    else if o.writable file
    then (some (file, json), pointer o result (length json) (cache_path file))
    else (none, result)

pub record ResponseCacheStats : Type 0 where
  pub dir : Text
  pub file_count : ℕ
  pub total_size_bytes : ℕ

abbrev pub or_empty : Option Dir → Dir
or_empty none = []
or_empty (some dir) = dir

unfoldable pub stats : Option Dir → ResponseCacheStats
stats dir =
    let files = regular_files (or_empty dir) in
    record { dir = cache_dir; file_count = length files; total_size_bytes = total_size 0 files }

abbrev pub older : File → File → Bool
older f g = leb f.mtime g.mtime

-- A group of the loop is one file here, and none is pinned.
abbrev pub file_group : File → Group
file_group f = record { stem = f.name; files = f.name ∷ []; bytes = f.len; newest_mtime = f.mtime }

abbrev pub never_pinned : Text → Bool
never_pinned name = false

unfoldable pub prune_to_limit : (Text → Bool) → ℕ → Dir → Eviction
unfolding sort evict_groups
prune_to_limit removable max_bytes dir =
    let files = regular_files dir in
    let total = total_size 0 files in
    if leb total max_bytes
    then nothing_evicted dir total
    else evict_groups removable never_pinned max_bytes (map file_group (sort older files))
        (nothing_evicted dir total)
