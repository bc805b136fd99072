-- ===== src/Router/Sweep.antt =====
-- router/mod.rs: `prune_caches`, which cuts both caches down and spares what the warm pool still uses.
use ida_mcp.Base.{
  ◌≡◌, ◌≢◌, sym, ap, ◌∙◌, Bool, true, false, Option, none, some, List, [], ◌∷◌, ◌++◌, Text, text_eq,
  text_discrete, any, arith, HashMap, text_key,
}
use ida_mcp.Base.Map
use ida_mcp.Cache.{prune_to_limit}
use ida_mcp.Files.{Metadata, Dir}
use ida_mcp.Files.Names.{
  has_char, without_extension, path_without_extension, path_without_extension-append,
}
use ida_mcp.Router.Config.{RouterConfig}
use ida_mcp.Router.Registry.{WarmLease}
use ida_mcp.Store.{Store, index_file, stem_in, evict_to_limit}
use ida_mcp.Store.Evict.{get-evict_to_limit_pinned}

-- The stems of the databases that leases hold: `filter_map` over `cache_path`.
abbrev pub push_stem : Option Text → List Text → List Text
push_stem none stems = stems
push_stem (some path) stems = path_without_extension path ∷ stems

abbrev pub pinned_groups : HashMap Text WarmLease → List Text
pinned_groups [] = []
pinned_groups ((path, lease) ∷ pool) = push_stem lease.cache_path (pinned_groups pool)

-- The store and the directory of responses after it; which files can be removed is not asked for.
unfoldable pub prune_caches :
    (Text → Bool)
    → RouterConfig
    → Option Metadata
    → HashMap Text WarmLease
    → Store
    → Dir
    → Store × Dir
unfolding evict_to_limit prune_to_limit
prune_caches removable config written warm_pool store responses = (
  (evict_to_limit removable config.max_idb_cache_bytes (pinned_groups warm_pool) written store).0,
  (prune_to_limit removable config.max_response_cache_bytes responses).dir,
)

any-pinned_groups :
    (path cache_path stem : Text) (lease : WarmLease) (pool : HashMap Text WarmLease)
    → Map.get path pool ≡ some lease
    → lease.cache_path ≡ some cache_path
    → stem ≡ path_without_extension cache_path
    → any (text_eq stem) (pinned_groups pool) ≡ true
any-pinned_groups path cache_path stem lease [] e c h = absurd (ground arith)
any-pinned_groups path cache_path stem lease ((p, l) ∷ pool) e c h = elim (text_discrete p path) [
  | yes same ↦
      let found : l ≡ lease = ground arith in
      let held : l.cache_path ≡ some cache_path = ap (λ x. x.cache_path) found ∙ c in
      rw held (ground arith)
  | no other ↦
      let rest : any (text_eq stem) (pinned_groups pool) ≡ true =
        any-pinned_groups path cache_path stem lease pool (ground arith) c h in
      pushed l.cache_path rest
]
  where
    pushed :
        (o : Option Text)
        → any (text_eq stem) (pinned_groups pool) ≡ true
        → any (text_eq stem) (push_stem o (pinned_groups pool)) ≡ true
    pushed none r = r
    pushed (some q) r = ground arith

-- The database that a lease of the warm pool names in the store, and every file beside it with
-- the same name up to the extension, the index aside, is as it was after prune_caches,
-- whatever the limits and whichever files can be removed.
pub prune_caches-leased :
    (removable : Text → Bool) (config : RouterConfig) (written : Option Metadata)
    (pool : HashMap Text WarmLease) (store : Store) (responses : Dir) (path name n : Text)
    (lease : WarmLease)
    → Map.get path pool ≡ some lease
    → lease.cache_path ≡ some (store.root ++ b'/' ∷ name)
    → has_char b'/' name ≡ false
    → without_extension n ≡ without_extension name
    → n ≢ index_file
    → Map.get n (prune_caches removable config written pool store responses).0.entries
      ≡ Map.get n store.entries
unfolding prune_caches
prune_caches-leased removable config written pool store responses path name n lease at held plain
      same other =
    get-evict_to_limit_pinned removable config.max_idb_cache_bytes (pinned_groups pool) written
      store n
      (any-pinned_groups path (store.root ++ b'/' ∷ name) (stem_in store.root n) lease pool at held
        (ap (λ t. store.root ++ b'/' ∷ t) same
          ∙ sym (path_without_extension-append store.root name plain)))
      other
