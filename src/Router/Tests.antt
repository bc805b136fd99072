-- ===== src/Router/Tests.antt =====
-- router/mod.rs on a small router: two workers of a tenant, requests, answers, eviction.
use ida_mcp.Base.{
  ℕ, not, ◌&&◌, text_eq, ◌≡◌, refl, inl, Bool, true, false, none, some, [], ◌∷◌, Text, text, length,
  All, ◌<◌, ◌≤◌, ◌≢◌, ◌⊎◌, arith, text_key, text_discrete, ℕ_discrete, hex, hex_padded,
}
use ida_mcp.Base.Map
use ida_mcp.Json.{null}
use ida_mcp.Router.{WorkerProcess, RouterInner, native_linked, worker_key_key, worker_key_discrete}
use ida_mcp.Router.Close.{Gone, close_worker-Gone, release_ref_token_lem}
use ida_mcp.Router.Config.{Env, RouterConfig, from_env, IsUsable, MayBeZero, from_env-IsUsable}
use ida_mcp.Router.Evict.{evict_idle-get_used, evict_idle_done}
use ida_mcp.Router.Invariant.{Inv, empty}
use ida_mcp.Router.Reach.{
  IsFresh, Reach, here, next, spawns, sends, releases, Reach-Inv, Reach-one_worker,
}
use ida_mcp.Router.Warm.{
  Outcome, returns, stuck, close_if_last, release_lease, release_warm_lease, make_room,
  install_warm_lease,
}
use ida_mcp.Router.Refs.{ref_token, release_ref_token, release_from, tokens_of, handle_for_token}
use ida_mcp.Router.Registry.{RouterState, close_worker}
use ida_mcp.Router.Route.{send_request}
use ida_mcp.Router.Tokens.{holds}
use ida_mcp.Router.Spawn.{
  Spawning, is_evictable, ref_count, new_handle, register, spawn_new, spawn_or_share, spawn_commit,
  evict_idle,
}

abbrev pub tiny : RouterConfig
tiny = record {
  max_workers = 2;
  max_workers_per_tenant = 2;
  max_pending_per_worker = 2;
  max_pending_per_tenant = 3;
  max_concurrent_spawns = 1;
  max_warm_workers = 1;
  max_queued_prewarms = 2;
  max_active_prewarms = 1;
  max_prewarms_per_tenant = 1;
  max_idb_cache_bytes = 1000;
  max_response_cache_bytes = 1000;
  max_queued_tasks = 2;
  max_active_tasks = 1;
  max_tasks_per_tenant = 1;
  node_id = text "node";
}

abbrev pub spawn_at : ℕ → Text → Spawning
spawn_at now path = record {
  key = record { tenant_id = text "default"; path = path };
  backend = native_linked;
  now = now;
  token_now = now;
  instant = now;
  pid = 1;
  child = some (70, 71);
}

abbrev pub one_open : RouterInner
one_open = (spawn_commit tiny (spawn_at 16 (text "/a")) (empty (text "ida-cli"))).0

abbrev pub two_open : RouterInner
two_open = (spawn_commit tiny (spawn_at 32 (text "/b")) one_open).0

abbrev pub first_handle : Text
first_handle = text "0000000100000010"

abbrev pub first_token : Text
first_token = text "10-1-1"

abbrev pub first_worker : WorkerProcess
first_worker = record {
  backend = native_linked;
  tenant_id = text "default";
  child = 70;
  writer = 71;
  pending = [];
  close_token = some first_token;
  open_path = some (text "/a");
  last_active = 16;
}

first_open : Map.get first_handle two_open.workers ≡ some first_worker
unfolding spawn_commit spawn_or_share spawn_new register new_handle ref_token empty hex hex_padded
    worker_key_discrete text_discrete ℕ_discrete
first_open = refl

pub first_IsFresh : IsFresh (spawn_at 16 (text "/a")) (empty (text "ida-cli"))
unfolding spawn_commit spawn_or_share spawn_new register new_handle ref_token empty hex hex_padded
    worker_key_discrete text_discrete ℕ_discrete
first_IsFresh = record { handle = refl; unheld = refl; close_token = refl; shared_token = refl }

second_IsFresh : IsFresh (spawn_at 32 (text "/b")) one_open
unfolding spawn_commit spawn_or_share spawn_new register new_handle ref_token empty hex hex_padded
    worker_key_discrete text_discrete ℕ_discrete
second_IsFresh = record { handle = refl; unheld = refl; close_token = refl; shared_token = refl }

abbrev pub one_reached : Reach tiny one_open
one_reached =
    next (here (text "ida-cli"))
      (spawns (empty (text "ida-cli")) (spawn_at 16 (text "/a")) first_IsFresh)

abbrev two_reached : Reach tiny two_open
two_reached = next one_reached (spawns one_open (spawn_at 32 (text "/b")) second_IsFresh)

Reach-Inv_example :
    Inv tiny (send_request tiny (some first_handle) (text "ping") null 5 40 true two_open).0
Reach-Inv_example =
    Reach-Inv (next two_reached (sends two_open (some first_handle) (text "ping") null 5 40 true))

Reach-one_worker_example : first_handle ≡ first_handle
Reach-one_worker_example =
    Reach-one_worker two_reached first_handle first_handle first_worker first_worker (text "/a")
      first_open first_open refl refl refl

abbrev leased : RouterState
leased = record {
  inner = two_open;
  warm_pool =
      (
        text "/a",
        record {
          handle = first_handle;
          token = text "cli-1-0";
          path = text "/a";
          cache_path = none;
          tenant_id = text "default";
          pinned_at = 1;
          last_hit = 1;
        },
      )
      ∷ [];
}

close_worker-Gone_example :
    Gone first_handle (close_worker first_handle leased).state
    × ((close_worker first_handle leased).answered ≡ [])
close_worker-Gone_example =
    close_worker-Gone tiny first_handle first_worker leased (Reach-Inv two_reached) first_open

token_known : Map.get first_token two_open.token_to_handle ≡ some first_handle
unfolding spawn_commit spawn_or_share spawn_new register new_handle ref_token empty hex hex_padded
    worker_key_discrete text_discrete ℕ_discrete
token_known = refl

release_ref_token_lem_example :
    let (after, released) = release_ref_token first_token two_open in
    (released ≡ some (first_handle, length (tokens_of first_handle after)))
    × (handle_for_token first_token after ≡ none)
    × ((release_ref_token first_token after).1 ≡ none)
    × ((t : Text) → first_token ≢ t → handle_for_token t after ≡ handle_for_token t two_open)
    × (length (tokens_of first_handle after) < length (tokens_of first_handle two_open))
    × ((t : Text)
        → holds t (tokens_of first_handle after)
          ≡ (not (text_eq first_token t) && holds t (tokens_of first_handle two_open)))
    × ((g : Text) → first_handle ≢ g → tokens_of g after ≡ tokens_of g two_open)
unfolding handle_for_token
release_ref_token_lem_example =
    release_ref_token_lem first_token first_handle two_open (Reach-Inv two_reached).agree
      token_known

referred : 1 ≤ ref_count first_handle two_open
unfolding spawn_commit spawn_or_share spawn_new register new_handle ref_token empty hex hex_padded
    worker_key_discrete text_discrete ℕ_discrete
referred = omega arith

evict_idle-get_used_example :
    let after = (evict_idle tiny leased).inner in
    (Map.get first_handle after.workers ≡ some first_worker)
    × (tokens_of first_handle after ≡ tokens_of first_handle two_open)
    × (after.active ≡ two_open.active)
evict_idle-get_used_example =
    evict_idle-get_used tiny leased first_handle first_worker (Reach-Inv two_reached).paths.unique
      first_open (inl referred)

-- The first worker has lost its reference.
abbrev idle : RouterState
idle = record leased { inner = (release_ref_token first_token two_open).0 }

evict_idle_done_example :
    let after = (evict_idle tiny idle).inner in
    (length after.workers < 2) ⊎ All (λ x. is_evictable after x ≡ false) after.workers
evict_idle_done_example =
    evict_idle_done tiny idle
      (Reach-Inv (next two_reached (releases two_open first_token))).paths.unique

abbrev bare : Env
bare name = none

from_env-IsUsable_example :
    IsUsable (from_env bare (some 8) 1) × MayBeZero bare (from_env bare (some 8) 1)
from_env-IsUsable_example = from_env-IsUsable bare (some 8) 1

-- A full pool whose only lease holds the only reference: no worker is closed, the call hangs.
abbrev lone : RouterState
lone = record leased {
  inner = record two_open {
    token_to_handle = (text "cli-1-0", first_handle) ∷ [];
    ref_tokens = (first_handle, text "cli-1-0" ∷ []) ∷ [];
  };
}

abbrev is_stuck : Outcome → Bool
is_stuck (returns t) = false
is_stuck (stuck t) = true

hangs_test :
    is_stuck (
      install_warm_lease tiny
        (text "/b")
        first_handle
        (text "cli-2-0")
        (text "default")
        none
        9
        lone)
    ≡ true
unfolding install_warm_lease make_room release_warm_lease release_lease close_if_last
    release_ref_token release_from text_discrete ℕ_discrete
hangs_test = refl
