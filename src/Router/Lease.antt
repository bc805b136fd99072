-- ===== src/Router/Lease.antt =====
-- router/mod.rs: room in the warm pool, and whether making it comes to an end.
use ida_mcp.Base.{◌≤◌, ◌<◌, ◌≡◌, ◌⊎◌, refl, inl, inr, some, Text, length, text_key}
use ida_mcp.Base.Map
use ida_mcp.Router.{worker_key_key}
use ida_mcp.Router.Config.{RouterConfig}
use ida_mcp.Router.Refs.{release_ref_token}
use ida_mcp.Router.Registry.{RouterState, WarmLease}
use ida_mcp.Router.Warm.{Outcome, returns, stuck}

pub Outcome-cases :
    (o : Outcome) → ((t : RouterState) × (o ≡ returns t)) ⊎ ((t : RouterState) × (o ≡ stuck t))
Outcome-cases (returns t) = inl (t, refl)
Outcome-cases (stuck t) = inr (t, refl)

-- Releasing the token of the lease takes away the last reference to its worker.
abbrev pub IsLast : RouterState → WarmLease → Type 0
IsLast s lease = (h : Text) × ((release_ref_token lease.token s.inner).1 ≡ some (h, 0))

-- The pool had room, or a lease that did not hold the last reference has made room.
abbrev pub HasRoom : RouterConfig → RouterState → Type 0
HasRoom config s =
    (length s.warm_pool < config.max_warm_workers)
    ⊎ ((path : Text) × (lease : WarmLease) × (Map.get path s.warm_pool ≡ some lease)
        × ¬ IsLast s lease)

-- The pool was full, and the lease that was to make room held the last reference.
abbrev pub IsBlocked : RouterConfig → RouterState → Type 0
IsBlocked config s =
    (config.max_warm_workers ≤ length s.warm_pool)
    × ((path : Text) × (lease : WarmLease) × (Map.get path s.warm_pool ≡ some lease)
        × IsLast s lease)
