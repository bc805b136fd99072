-- ===== src/Router/Warm.antt =====
-- router/mod.rs: the warm pool, whose leases hold a reference to a worker that is not in use, and
-- the watchdog's search for workers that are idle too long.
use ida_mcp.Base.{
  ℕ, zero, suc, ◌-◌, Bool, Option, none, some, List, [], ◌∷◌, ◌&&◌, map, Text, length, filter, ltb,
  ◌==◌, if◌then◌else◌, text_key,
}
use ida_mcp.Base.Map
use ida_mcp.Router.{WorkerProcess, RouterInner}
use ida_mcp.Router.Config.{RouterConfig}
use ida_mcp.Router.Registry.{RouterState, WarmLease, close_worker}
use ida_mcp.Router.Refs.{release_ref_token}
use ida_mcp.Router.Spawn.{min_by, ref_count, is_drained}

-- A call on the warm pool returns, or it waits for ever for a lock that it holds itself.
pub data Outcome : Type 0 where
  returns : RouterState → Outcome
  stuck : RouterState → Outcome

abbrev pub state_of : Outcome → RouterState
state_of (returns s) = s
state_of (stuck s) = s

-- After the lease is out of the pool and its token is released. The last reference makes the call
-- close the worker, and `close_worker`, once it has the lock of `inner`, asks for the lock of the
-- pool. `release_warm_lease` holds that lock itself until its `if let` is over, so that the call
-- never comes to the closing.
unfoldable pub close_if_last : Option (Text × ℕ) → RouterState → Outcome
close_if_last none s = returns s
close_if_last (some (h, remaining)) s = if remaining == 0 then stuck s else returns s

unfoldable pub release_lease : Text → WarmLease → RouterState → Outcome
release_lease path lease s =
    let (inner', released) = release_ref_token lease.token s.inner in
    close_if_last released (record { inner = inner'; warm_pool = Map.remove path s.warm_pool })

unfoldable pub release_warm_lease : Text → RouterState → Outcome
release_warm_lease path s = elim (Map.get path s.warm_pool) [
  | none ↦ returns s
  | some lease ↦ release_lease path lease s
]

abbrev pub last_hit_of : Text × WarmLease → ℕ
last_hit_of (path, lease) = lease.last_hit

-- The `while` loop of `install_warm_lease`. Each round takes a lease out of the pool.
unfoldable pub make_room : ℕ → RouterConfig → RouterState → Outcome
make_room zero config s = returns s
make_room (suc fuel) config s =
    if ltb (length s.warm_pool) config.max_warm_workers
    then returns s
    else elim (min_by last_hit_of s.warm_pool) [
      | none ↦ returns s
      | some (path, lease) ↦ elim (release_warm_lease path s) [
        | returns rest ↦ make_room fuel config rest
        | stuck rest ↦ stuck rest
      ]
    ]

abbrev pub with_lease : Text → WarmLease → RouterState → RouterState
with_lease path lease s = record s { warm_pool = Map.insert path lease s.warm_pool }

unfoldable pub install_warm_lease :
    RouterConfig → Text → Text → Text → Text → Option Text → ℕ → RouterState → Outcome
unfolding make_room
install_warm_lease config path handle token tenant_id cache_path now s =
    elim (make_room (suc (length s.warm_pool)) config s) [
      | stuck rest ↦ stuck rest
      | returns roomy ↦ returns (
          with_lease path
            (record {
              handle = handle;
              token = token;
              path = path;
              cache_path = cache_path;
              tenant_id = tenant_id;
              pinned_at = now;
              last_hit = now;
            })
            roomy)
    ]

abbrev is_expired : ℕ → ℕ → RouterInner → Text × WorkerProcess → Bool
is_expired now idle_timeout inner (h, w) =
    (ref_count h inner == 0) && is_drained w.pending && ltb idle_timeout (now - w.last_active)

-- The workers that the watchdog closes at a tick.
unfoldable pub expired_workers : ℕ → ℕ → RouterInner → List Text
expired_workers now idle_timeout inner =
    map (λ (h, w). h) (filter (is_expired now idle_timeout inner) inner.workers)

unfoldable pub close_all : List Text → RouterState → RouterState
close_all [] s = s
close_all (h ∷ hs) s = close_all hs (close_worker h s).state

unfoldable pub close_expired : ℕ → ℕ → RouterState → RouterState
unfolding expired_workers
close_expired now idle_timeout s = close_all (expired_workers now idle_timeout s.inner) s
