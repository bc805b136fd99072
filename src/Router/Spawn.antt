-- ===== src/Router/Spawn.antt =====
-- router/mod.rs: `spawn_worker` under the lock: the search for an open worker, the eviction of idle
-- workers, and the registration of a new one. What runs in between (the gate, the probe of the
-- backend, the start of the process) is what the arguments say.
use Prim.Native.Nat.{bit_xor}
use ida_mcp.Base.{
  ℕ, zero, suc, ◌*◌, ◌%◌, ◌^◌, Bool, true, false, not, ◌&&◌, Option, none, some, List, [], ◌∷◌,
  Text, text_eq, hex_padded, length, filter, count, leb, ltb, ◌==◌, if◌then◌else◌, HashMap,
  text_key,
}
use ida_mcp.Base.Map
use ida_mcp.Router.{WorkerKey, WorkerProcess, WorkerBackendKind, RouterInner, worker_key_key}
use ida_mcp.Router.Config.{RouterConfig}
use ida_mcp.Router.Registry.{RouterState, next_counter, is_handle, close_worker}
use ida_mcp.Router.Refs.{ref_token, tokens_of, share_handle}

-- `min_by_key`: the first of the least elements.
abbrev pub min_by {ℓ} : {A : Type ℓ} → (A → ℕ) → List A → Option A
min_by key [] = none
min_by key (x ∷ xs) = elim (min_by key xs) [
  | none ↦ some x
  | some y ↦ if leb (key x) (key y) then some x else some y
]

abbrev pub ref_count : Text → RouterInner → ℕ
ref_count h inner = length (tokens_of h inner)

abbrev pub is_drained : HashMap Text ℕ → Bool
is_drained [] = true
is_drained (p ∷ ps) = false

abbrev pub is_evictable : RouterInner → Text × WorkerProcess → Bool
is_evictable inner (h, w) =
    (ref_count h inner == 0) && is_drained w.pending && not (is_handle inner.active h)

abbrev pub idle_since : Text × WorkerProcess → ℕ
idle_since (h, w) = w.last_active

unfoldable pub eviction_candidate : RouterConfig → RouterInner → Option (Text × WorkerProcess)
eviction_candidate config inner =
    if ltb (length inner.workers) config.max_workers
    then none
    else min_by idle_since (filter (is_evictable inner) inner.workers)

-- The loop. Each round closes a worker, so as many rounds as there are workers are enough.
unfoldable pub evict_loop : ℕ → RouterConfig → RouterState → RouterState
evict_loop zero config s = s
evict_loop (suc fuel) config s = elim (eviction_candidate config s.inner) [
  | none ↦ s
  | some (h, w) ↦ evict_loop fuel config (close_worker h s).state
]

unfoldable pub evict_idle : RouterConfig → RouterState → RouterState
unfolding evict_loop
evict_idle config s = evict_loop (length s.inner.workers) config s

abbrev pub of_tenant : Text → Text × WorkerProcess → Bool
of_tenant tenant (h, w) = text_eq w.tenant_id tenant

pub data SpawnError : Type 0 where
  tenant_worker_limit worker_limit process_not_spawned : SpawnError

pub data SpawnResult : Type 0 where
  spawned : Text → Text → SpawnResult
  refused : SpawnError → SpawnResult

-- What one call of `spawn_worker` brings to its last critical section; `child` is the process and
-- its standard input, if it could be started. The clock is read for the handle, or for the token of
-- a worker that is shared, and once more, when the process runs, for the close token.
pub record Spawning : Type 0 where
  pub key : WorkerKey
  pub backend : WorkerBackendKind
  pub now : ℕ
  pub token_now : ℕ
  pub instant : ℕ
  pub pid : ℕ
  pub child : Option (ℕ × ℕ)

-- `t ^ (pid << 32) ^ counter` on `u64`, in 16 hexadecimal digits.
unfoldable pub new_handle : ℕ → ℕ → ℕ → Text
new_handle now pid counter =
    hex_padded 16 (bit_xor (bit_xor (now % 2 ^ 64) (pid * 2 ^ 32 % 2 ^ 64)) counter)

abbrev pub new_worker : Spawning → ℕ × ℕ → Text → WorkerProcess
new_worker s child close_token = record {
  backend = s.backend;
  tenant_id = s.key.tenant_id;
  child = child.0;
  writer = child.1;
  pending = [];
  close_token = some close_token;
  open_path = some s.key.path;
  last_active = s.instant;
}

-- The process runs: the new worker enters the tables and becomes the active one.
unfoldable pub register : Text → Text → Spawning → ℕ × ℕ → RouterInner → RouterInner
register h close_token s child inner = record {
  workers = Map.insert h (new_worker s child close_token) inner.workers;
  active = some h;
  path_to_handle = Map.insert (s.key) h inner.path_to_handle;
  token_to_handle = Map.insert close_token h inner.token_to_handle;
  ref_tokens = Map.insert h (close_token ∷ []) inner.ref_tokens;
  req_counter = inner.req_counter;
  exe_path = inner.exe_path;
}

unfoldable pub spawn_new : Spawning → RouterInner → RouterInner × SpawnResult
unfolding register
spawn_new s inner =
    let h = new_handle s.now s.pid inner.req_counter in
    let counted = record inner { req_counter = next_counter inner.req_counter } in
    let close_token = ref_token s.token_now s.pid counted.req_counter in
    elim s.child [
      | none ↦ (counted, refused process_not_spawned)
      | some child ↦ (register h close_token s child counted, spawned h close_token)
    ]

unfoldable pub spawn_or_share : Spawning → RouterInner → RouterInner × SpawnResult
spawn_or_share s inner = elim (Map.get s.key inner.path_to_handle) [
  | some h ↦ let (inner', token) = share_handle h s.now s.pid inner in (inner', spawned h token)
  | none ↦ spawn_new s inner
]

-- The last critical section.
unfoldable pub spawn_commit : RouterConfig → Spawning → RouterInner → RouterInner × SpawnResult
spawn_commit config s inner =
    if leb config.max_workers_per_tenant (count (of_tenant s.key.tenant_id) inner.workers)
    then (inner, refused tenant_worker_limit)
    else if leb config.max_workers (length inner.workers)
    then (inner, refused worker_limit)
    else spawn_or_share s inner

-- The first critical section: an open path is shared with no check of the limits.
unfoldable pub spawn_shared : Spawning → RouterInner → Option (RouterInner × SpawnResult)
spawn_shared s inner = elim (Map.get s.key inner.path_to_handle) [
  | none ↦ none
  | some h ↦
      let (inner', token) = share_handle h s.now s.pid inner in some (inner', spawned h token)
]
