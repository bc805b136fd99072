-- ===== src/Store/Tests.antt =====
-- idb_store.rs and the router's `prune_caches` on a store of two databases.
use ida_mcp.Base.{
  ℕ, ◌+◌, ◌≤◌, ◌≡◌, ◌≢◌, ◌⊎◌, refl, true, none, some, List, [], ◌∷◌, Text, text, text_discrete,
  ℕ_discrete, is_some, if◌then◌else◌, arith, text_key,
}
use ida_mcp.Base.Map
use ida_mcp.Files.{Metadata}
use ida_mcp.Files.Evict.{size, every, always}
use ida_mcp.Files.Names.{before_last, without_extension}
use ida_mcp.Router.Registry.{WarmLease}
use ida_mcp.Router.Sweep.{prune_caches, prune_caches-leased}
use ida_mcp.Router.Tests.{tiny}
use ida_mcp.Store.{
  IdbEntry, Store, Binary, index_file, compute_hash, idb_name, lookup, lookup_by_hash, load,
  now_iso8601, record_binary, remove, clean, evict_to_limit,
}
use ida_mcp.Store.Clean.{remove_lem, clean_lem}
use ida_mcp.Store.Evict.{get-evict_to_limit_pinned, IsPinnedDir, evict_to_limit_lem}
use ida_mcp.Store.Index.{lookup-idb_name, record_binary_lem}

abbrev pub digest : Text → Text
digest content = content

abbrev pub program : Binary
program = record {
  path = text "/bin/prog";
  file_name = text "prog";
  content = some (text "0123456789abcdef");
  len = some 16;
}

-- The same content under another name.
abbrev renamed : Binary
renamed = record program { path = text "/tmp/copy"; file_name = text "copy" }

abbrev pub file : ℕ → Metadata
file len = record { is_file = true; len = len; modified = some 1 }

abbrev pub kept_file : Text
kept_file = text "prog.0123456789ab.dylib.i64"

abbrev pub entry : Text → IdbEntry
entry hash = record {
  hash = hash;
  original_path = text "/bin/prog";
  binary_type = text "native";
  size = 16;
  created_at = text "5Z";
  last_accessed = text "6Z";
}

-- The second entry has no database.
abbrev pub store : Store
store = record {
  root = text "/idb";
  entries =
      (text "index.json", some (file 10))
      ∷ (kept_file, some (file 300))
      ∷ (text "b.ffff.dylib.i64", some (file 400))
      ∷ [];
  index = some (
      (text "0123456789ab", entry (text "0123456789ab")) ∷ (text "eeee", entry (text "eeee")) ∷ []);
}

abbrev pinned : List Text
pinned = text "/idb/prog.0123456789ab.dylib" ∷ []

idb_name_test : idb_name digest program ≡ kept_file
unfolding idb_name compute_hash
idb_name_test = refl

lookup-idb_name_example : is_some (lookup digest renamed store) ≡ true
lookup-idb_name_example =
    lookup-idb_name digest program renamed (some (file 300)) store refl
      (unfold idb_name compute_hash text_discrete ℕ_discrete in refl)

record_binary_lem_example :
    let t = record_binary digest program 9 (some (file 12)) store in
    let hash = compute_hash digest program in
    ((e : IdbEntry) × (Map.get hash (load t) ≡ some e)
      × (((old : IdbEntry) × (Map.get hash (load store) ≡ some old)
            × (e.created_at ≡ old.created_at))
          ⊎ ((Map.get hash (load store) ≡ none) × (e.created_at ≡ now_iso8601 9)))
      × (e.last_accessed ≡ now_iso8601 9)
      × (e.hash ≡ hash)
      × (e.original_path ≡ program.path))
    × ((k : Text) → hash ≢ k → Map.get k (load t) ≡ Map.get k (load store))
    × ((n : Text) → index_file ≢ n → Map.get n t.entries ≡ Map.get n store.entries)
record_binary_lem_example = record_binary_lem digest program 9 (file 12) store

remove_lem_example :
    let (t, found) = remove always (text "0123456789ab") (some (file 12)) store in
    (found ≡ true)
    × (Map.get (text "0123456789ab") (load t) ≡ none)
    × (lookup_by_hash (text "0123456789ab") t.entries ≡ none)
    × ((k : Text) → text "0123456789ab" ≢ k → Map.get k (load t) ≡ Map.get k (load store))
remove_lem_example =
    remove_lem (text "0123456789ab") (entry (text "0123456789ab")) (file 12) store
      (unfold load text_discrete ℕ_discrete in refl)

clean_lem_example :
    let t = (clean (some (file 12)) store).0 in
    (Map.get (text "eeee") (load t) ≡ (
      if is_some (lookup_by_hash (text "eeee") store.entries)
      then Map.get (text "eeee") (load store)
      else none))
    × (lookup_by_hash (text "eeee") t.entries ≡ lookup_by_hash (text "eeee") store.entries)
clean_lem_example = clean_lem (file 12) store (text "eeee")

evict_to_limit_lem_example :
    let w = (evict_to_limit always 350 pinned (some (file 12)) store).1 in
    (w.remaining_bytes ≡ size every w.dir)
    × (w.evicted_bytes + w.remaining_bytes ≡ size every store.entries)
    × ((w.remaining_bytes ≤ 350) ⊎ IsPinnedDir store.root pinned w.dir)
evict_to_limit_lem_example = evict_to_limit_lem 350 pinned (some (file 12)) store (omega arith)

get-evict_to_limit_pinned_example :
    Map.get kept_file (evict_to_limit always 0 pinned (some (file 12)) store).0.entries
    ≡ Map.get kept_file store.entries
get-evict_to_limit_pinned_example =
    get-evict_to_limit_pinned always 0 pinned (some (file 12)) store kept_file
      (unfold without_extension before_last text_discrete ℕ_discrete in refl) (ground arith)

abbrev lease : WarmLease
lease = record {
  handle = text "db-1";
  token = text "token";
  path = text "/bin/prog";
  cache_path = some (text "/idb/prog.0123456789ab.dylib.i64");
  tenant_id = text "default";
  pinned_at = 1;
  last_hit = 1;
}

prune_caches-leased_example :
    Map.get kept_file
      (prune_caches always tiny none ((text "/bin/prog", lease) ∷ []) store []).0.entries
    ≡ Map.get kept_file store.entries
prune_caches-leased_example =
    prune_caches-leased always tiny none ((text "/bin/prog", lease) ∷ []) store []
      (text "/bin/prog") kept_file kept_file lease (unfold text_discrete ℕ_discrete in refl) refl
      refl refl (ground arith)
