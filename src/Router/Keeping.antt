-- ===== src/Router/Keeping.antt =====
-- router/mod.rs: installing a lease, close_by_path and prewarm_path_with_options lead from reachable
-- states to reachable states.
use ida_mcp.Base.{
  ℕ, zero, suc, subst, inl, inr, Bool, true, false, Option, none, some, Text, text, text_key,
  is_some, length, ltb, ◌==◌, Bool-cases, Option-cases,
}
use ida_mcp.Base.Map
use ida_mcp.Json.{object, end}
use ida_mcp.Router.{WorkerKey, Result, ok, err, worker_key_key, ToolError}
use ida_mcp.Router.Config.{RouterConfig}
use ida_mcp.Router.Ensure.{Exchange, route_request, ensure_worker_with_ref_idb, close_by_path}
use ida_mcp.Router.Reach.{Reach, next, releases}
use ida_mcp.Router.Refs.{release_ref_token}
use ida_mcp.Router.Registry.{RouterState}
use ida_mcp.Router.Runs.{route_request-Reach, close_worker-Reach}
use ida_mcp.Router.Spawn.{min_by}
use ida_mcp.Router.Lease.{Outcome-cases}
use ida_mcp.Router.Warm.{
  Outcome, returns, stuck, state_of, close_if_last, release_lease, release_warm_lease, last_hit_of,
  make_room, install_warm_lease,
}
use ida_mcp.Router.Prewarm.{
  Prewarming, Prewarmed, or_problem, close_if_unused, warm_answer, settle, after_ensure, if_exists,
  prewarm_path_with_options,
}

-- The pool gives its leases back by critical sections.
module _ (config : RouterConfig) where
  close_if_last-Reach :
      (o : Option (Text × ℕ)) (s : RouterState)
      → Reach config s.inner
      → Reach config (state_of (close_if_last o s)).inner
  unfolding close_if_last
  close_if_last-Reach none s v = v
  close_if_last-Reach (some (h, remaining)) s v = elim (Bool-cases (remaining == 0)) [
    | inl last ↦ rw last v
    | inr more ↦ rw more v
  ]

  release_warm_lease-Reach :
      (path : Text) (s : RouterState)
      → Reach config s.inner
      → Reach config (state_of (release_warm_lease path s)).inner
  unfolding release_warm_lease release_lease
  release_warm_lease-Reach path s v = elim (Option-cases (Map.get path s.warm_pool)) [
    | inl no_lease ↦ rw (no_lease, release_warm_lease) v
    | inr (lease, e) ↦
        rw (e, release_warm_lease)
          (close_if_last-Reach (release_ref_token lease.token s.inner).1 _
            (next v (releases s.inner lease.token)))
  ]

  make_room-Reach :
      (fuel : ℕ) (s : RouterState)
      → Reach config s.inner
      → Reach config (state_of (make_room fuel config s)).inner
  unfolding make_room
  make_room-Reach zero s v = v
  make_room-Reach (suc fuel) s v =
      elim (Bool-cases (ltb (length s.warm_pool) config.max_warm_workers)) [
        | inl roomy ↦ rw roomy v
        | inr full ↦ elim (Option-cases (min_by last_hit_of s.warm_pool)) [
          | inl empty_pool ↦ rw (full, empty_pool) v
          | inr ((path, lease), e) ↦
              let kept = release_warm_lease-Reach path s v in
              elim (Outcome-cases (release_warm_lease path s)) [
                | inl (t, back) ↦
                    rw (full, make_room)
                      (rw (e, make_room)
                        (rw (back, make_room)
                          (make_room-Reach fuel t
                            (subst (λ o. Reach config (state_of o).inner) back kept))))
                | inr (t, waits) ↦
                    rw (full, make_room)
                      (rw (e, make_room)
                        (rw (waits, make_room)
                          (subst (λ o. Reach config (state_of o).inner) waits kept)))
              ]
        ]
      ]

  -- Installing a lease, whatever it drops from the pool, leads to a reachable state.
  pub install_warm_lease-Reach :
      (path handle token tenant_id : Text) (cache_path : Option Text) (now : ℕ) (s : RouterState)
      → Reach config s.inner
      → Reach config
          (state_of (install_warm_lease config path handle token tenant_id cache_path now s)).inner
  unfolding install_warm_lease
  install_warm_lease-Reach path handle token tenant_id cache_path now s v =
      let fuel = suc (length s.warm_pool) in
      let kept = make_room-Reach fuel s v in
      elim (Outcome-cases (make_room fuel config s)) [
        | inl (t, back) ↦
            rw (back, install_warm_lease) (subst (λ o. Reach config (state_of o).inner) back kept)
        | inr (t, waits) ↦
            rw (waits, install_warm_lease) (subst (λ o. Reach config (state_of o).inner) waits kept)
      ]

  close_by_path-Reach :
      (key : WorkerKey) (closing stopping : Exchange) (state : RouterState)
      → Reach config state.inner
      → Reach config (close_by_path config key closing stopping state).0.inner
  unfolding close_by_path
  close_by_path-Reach key closing stopping state v =
      elim (Option-cases (Map.get key state.inner.path_to_handle)) [
        | inl not_open ↦ rw (not_open, close_by_path) v
        | inr (h, e) ↦
            let closed =
              (route_request config (some h) (text "close") (object end) closing state.inner).0 in
            let stopped =
              (route_request config (some h) (text "shutdown") (object end) stopping closed).0 in
            rw (e, close_by_path)
              (close_worker-Reach config h (record state { inner = stopped })
                (route_request-Reach config (some h) (text "shutdown") (object end) stopping closed
                  (route_request-Reach config (some h) (text "close") (object end) closing
                    state.inner v)))
      ]

  or_problem-Reach :
      (p : Prewarmed) (q : RouterState × Option ToolError)
      → Reach config q.0.inner
      → Reach config (or_problem p q).0.inner
  or_problem-Reach p (state, none) v = v
  or_problem-Reach p (state, some e) v = v

  close_if_unused-Reach :
      (x : Prewarming) (state : RouterState) (o : Option (Text × ℕ))
      → Reach config state.inner
      → Reach config (close_if_unused config x state o).0.inner
  close_if_unused-Reach x state none v = v
  close_if_unused-Reach x state (some (h, remaining)) v = elim (Bool-cases (remaining == 0)) [
    | inl last ↦ rw last (
        or_problem-Reach _ (close_by_path config x.opening.spawning.key x.closing x.stopping state)
          (close_by_path-Reach x.opening.spawning.key x.closing x.stopping state v))
    | inr more ↦ rw more v
  ]

  warm_answer-Reach :
      (already_open : Bool) (o : Outcome)
      → Reach config (state_of o).inner
      → Reach config (warm_answer already_open o).0.inner
  warm_answer-Reach already_open (stuck s) v = v
  warm_answer-Reach already_open (returns s) v = v

  settle-Reach :
      (x : Prewarming) (keep_warm already_open : Bool) (h token : Text) (state : RouterState)
      → Reach config state.inner
      → Reach config (settle config x keep_warm already_open h token state).0.inner
  unfolding settle
  settle-Reach x true already_open h token state v =
      warm_answer-Reach already_open
        (install_warm_lease config x.opening.spawning.key.path h token
          x.opening.spawning.key.tenant_id x.cached_after x.leased_at state)
        (install_warm_lease-Reach x.opening.spawning.key.path h token
          x.opening.spawning.key.tenant_id x.cached_after x.leased_at state v)
  settle-Reach x false false h token state v =
      close_if_unused-Reach x _ (release_ref_token token state.inner).1
        (next v (releases state.inner token))
  settle-Reach x false true h token state v = next v (releases state.inner token)

  after_ensure-Reach :
      (x : Prewarming) (already_open : Bool) (p : RouterState × Result (Text × Text))
      → Reach config p.0.inner
      → Reach config (after_ensure config x already_open p).0.inner
  after_ensure-Reach x already_open (state, err e) v = v
  after_ensure-Reach x already_open (state, ok (h, token)) v =
      settle-Reach x x.keep_warm already_open h token _ (
        route_request-Reach config (some h) (text "get_database_info") (object end) x.asked
          state.inner v)

  started-Reach :
      (x : Prewarming) (there : Bool) (state : RouterState)
      (done : RouterState × Option (Result Prewarmed))
      → Reach config state.inner
      → Reach config done.0.inner
      → Reach config (if_exists x there state done).0.inner
  started-Reach x true state done v w = w
  started-Reach x false state done v w = v

  -- Where ensure_worker_with_ref_idb leads to a reachable state, prewarming the path does.
  pub prewarm_path_with_options-Reach :
      (x : Prewarming) (state : RouterState)
      → Reach config state.inner
      → Reach config (ensure_worker_with_ref_idb config x.opening state).0.inner
      → Reach config (prewarm_path_with_options config x state).0.inner
  unfolding prewarm_path_with_options
  prewarm_path_with_options-Reach x state v opened =
      started-Reach x x.exists state
        (after_ensure config x (is_some (Map.get x.opening.spawning.key state.inner.path_to_handle))
          (ensure_worker_with_ref_idb config x.opening state))
        v
        (after_ensure-Reach x (is_some (Map.get x.opening.spawning.key state.inner.path_to_handle))
          (ensure_worker_with_ref_idb config x.opening state) opened)
