-- ===== src/Router/Opened.antt =====
-- router/mod.rs: what `ensure_worker_with_ref_idb` answers and what `close_by_path` leaves.
use ida_mcp.Base.{
  ℕ, ◌≡◌, refl, ap, ◌∙◌, inl, inr, none, some, Text, text, length, leb, count, Bool-cases,
  Option-cases, arith, text_key,
}
use ida_mcp.Base.Map
use ida_mcp.Json.{Value, object, end}
use ida_mcp.Router.{WorkerKey, WorkerProcess, RouterInner, Result, ok, err, worker_key_key}
use ida_mcp.Router.Config.{RouterConfig}
use ida_mcp.Router.Ensure.{
  Exchange, route_request, spawn_worker, Opening, or_close, open_spawned, ensure_open, with_ref,
  ensure_worker_with_ref_idb, close_by_path,
}
use ida_mcp.Router.Close.{Gone, close_worker-Gone}
use ida_mcp.Router.Frames.{route_request_path, release_ref_token_path, after_open_path}
use ida_mcp.Router.Runs.{with_ref-Reach, ensure_open-Reach, route_request-Reach, close_worker-Reach}
use ida_mcp.Router.Reach.{IsFresh, Reach, Reach-Inv}
use ida_mcp.Router.Refs.{
  ref_token, cli_token, add_ref, share_handle, issue_ref_for_handle, release_ref_token,
  handle_for_token,
}
use ida_mcp.Router.Registry.{RouterState}
use ida_mcp.Router.Route.{touch_worker}
use ida_mcp.Router.Spawn.{
  Spawning, SpawnResult, spawned, refused, evict_idle, spawn_shared, spawn_commit, spawn_or_share,
  spawn_new, register, of_tenant,
}

module _ (config : RouterConfig) where
  -- Where a spawn answers with a handle, the path of its key leads to that handle.
  spawn_new_path :
      (s : Spawning) (inner : RouterInner) (h token : Text)
      → (spawn_new s inner).1 ≡ spawned h token
      → Map.get s.key (spawn_new s inner).0.path_to_handle ≡ some h
  unfolding spawn_new register
  spawn_new_path s inner h token e = elim (Option-cases s.child) [
    | inl failed ↦ absurd (ground arith)
    | inr (child, started) ↦ ground (arith, Map.get-insert_self s.key h inner.path_to_handle)
  ]

  spawn_commit_path :
      (s : Spawning) (inner : RouterInner) (h token : Text)
      → (spawn_commit config s inner).1 ≡ spawned h token
      → Map.get s.key (spawn_commit config s inner).0.path_to_handle ≡ some h
  unfolding spawn_commit spawn_or_share share_handle add_ref
  spawn_commit_path s inner h token e =
      elim (Bool-cases
        (leb config.max_workers_per_tenant (count (of_tenant s.key.tenant_id) inner.workers))) [
          | inl full ↦ absurd (ground arith)
          | inr tenant_room ↦ elim (Bool-cases (leb config.max_workers (length inner.workers))) [
            | inl full ↦ absurd (ground arith)
            | inr room ↦ elim (Option-cases (Map.get s.key inner.path_to_handle)) [
              | inr (g, at) ↦ ground arith
              | inl closed ↦
                  rw (tenant_room, room, closed, spawn_or_share)
                    (spawn_new_path s inner h token
                      (rw (tenant_room, room, closed, spawn_or_share) at e))
            ]
          ]
        ]

  spawn_worker_path :
      (s : Spawning) (state : RouterState) (h token : Text)
      → (spawn_worker config s state).1 ≡ spawned h token
      → Map.get s.key (spawn_worker config s state).0.inner.path_to_handle ≡ some h
  unfolding spawn_worker spawn_shared share_handle add_ref
  spawn_worker_path s state h token e =
      elim (Option-cases (Map.get s.key state.inner.path_to_handle)) [
        | inr (g, at) ↦ ground arith
        | inl closed ↦
            rw (closed, spawn_worker, spawn_shared)
              (spawn_commit_path s (evict_idle config state).inner h token
                (rw (closed, spawn_worker, spawn_shared) at e))
      ]

  or_close_path :
      (o : Opening) (g h : Text) (state : RouterState) (p : RouterInner × Result Value)
      → (or_close config o g state p).1 ≡ ok h
      → (g ≡ h) × ((or_close config o g state p).0.inner.path_to_handle ≡ p.0.path_to_handle)
  unfolding or_close
  or_close_path o g h state (inner, err x) e = absurd (ground arith)
  or_close_path o g h state (inner, ok v) e =
      (ground arith, after_open_path config g o.renaming o.is_sbpf inner)

  open_spawned_path :
      (o : Opening) (key : WorkerKey) (p : RouterState × SpawnResult) (h : Text)
      → ((g token : Text) → p.1 ≡ spawned g token → Map.get key p.0.inner.path_to_handle ≡ some g)
      → (open_spawned config o p).1 ≡ ok h
      → Map.get key (open_spawned config o p).0.inner.path_to_handle ≡ some h
  unfolding open_spawned
  open_spawned_path o key (state, refused x) h led e = absurd (ground arith)
  open_spawned_path o key (state, spawned g token) h led e =
      let asked =
        route_request config (some g) (text "open") o.params o.opened
          (release_ref_token token state.inner).0 in
      let (same, kept) = or_close_path o g h state asked e in
      ap (Map.get key) (
        kept
        ∙ route_request_path config (some g) (text "open") o.params o.opened
            (release_ref_token token state.inner).0
        ∙ release_ref_token_path config token state.inner)
      ∙ led g token refl
      ∙ ap (λ x. some x) same

  ensure_open_path :
      (o : Opening) (state : RouterState) (h : Text)
      → (ensure_open config o state).1 ≡ ok h
      → Map.get o.spawning.key (ensure_open config o state).0.inner.path_to_handle ≡ some h
  unfolding ensure_open touch_worker
  ensure_open_path o state h e =
      elim (Option-cases (Map.get o.spawning.key state.inner.path_to_handle)) [
        | inr (g, at) ↦ ground arith
        | inl closed ↦
            rw (closed, ensure_open)
              (open_spawned_path o o.spawning.key (spawn_worker config o.spawning state) h
                (λ g token at. spawn_worker_path o.spawning state g token at)
                (rw (closed, ensure_open) at e))
      ]

  with_ref_lem :
      (now : ℕ) (key : WorkerKey) (p : RouterState × Result Text) (h token : Text)
      → ((g : Text) → p.1 ≡ ok g → Map.get key p.0.inner.path_to_handle ≡ some g)
      → (with_ref now p).1 ≡ ok (h, token)
      → (handle_for_token token (with_ref now p).0.inner ≡ some h)
        × (Map.get key (with_ref now p).0.inner.path_to_handle ≡ some h)
  unfolding handle_for_token issue_ref_for_handle add_ref
  with_ref_lem now key (state, err x) h token led e = absurd (ground arith)
  with_ref_lem now key (state, ok g) h token led e =
      let same : g ≡ h = ground arith in
      (
        ground (
          arith,
          Map.get-insert_self (cli_token now state.inner.req_counter) g state.inner.token_to_handle,
        ),
        led g refl ∙ ap (λ x. some x) same,
      )

  -- The worker of a key, with the reference that the answer names.
  abbrev pub IsOpenFor : WorkerKey → Text → Text → RouterInner → Type 0
  IsOpenFor key h token inner =
      (handle_for_token token inner ≡ some h)
      × ((w : WorkerProcess) × (Map.get h inner.workers ≡ some w)
          × (w.open_path ≡ some key.path)
          × (w.tenant_id ≡ key.tenant_id))

  -- From a reachable state, under tokens and a handle that are not in use where they are made,
  -- ensure_worker_with_ref_idb with no other task between its critical sections leads to a
  -- reachable state; and where it answers with a handle and a token, the token leads to the
  -- handle, and the handle to a worker that is open for the path and the tenant that were asked
  -- for.
  pub ensure_worker-Reach :
      (o : Opening) (state : RouterState)
      → Reach config state.inner
      → Map.get
          (ref_token o.spawning.now o.spawning.pid state.inner.req_counter)
          state.inner.token_to_handle
        ≡ none
      → IsFresh o.spawning (evict_idle config state).inner
      → (let opened = (ensure_open config o state).0.inner in
          Map.get (cli_token o.issued_at opened.req_counter) opened.token_to_handle ≡ none)
      → let out = ensure_worker_with_ref_idb config o state in
        Reach config out.0.inner
        × ((h token : Text) → out.1 ≡ ok (h, token) → IsOpenFor o.spawning.key h token out.0.inner)
  unfolding ensure_worker_with_ref_idb
  ensure_worker-Reach o state v token_fresh fresh issue_fresh =
      let p = ensure_open config o state in
      let reached : Reach config (with_ref o.issued_at p).0.inner =
        with_ref-Reach config o.issued_at p (ensure_open-Reach config o state v token_fresh fresh)
          issue_fresh in
      (
        reached,
        λ h token e.
            let (led, at) =
              with_ref_lem o.issued_at o.spawning.key p h token
                (λ g e'. ensure_open_path o state g e') e in
            let inner = (with_ref o.issued_at p).0.inner in
            (
              led,
              elim (Option-cases (Map.get h inner.workers)) [
                | inl missing ↦
                    absurd (ground (arith, (Reach-Inv reached).paths.path_open o.spawning.key h at))
                | inr (w, there) ↦
                    let (path, tenant) =
                      (Reach-Inv reached).paths.path_of o.spawning.key h w at there in
                    (w, there, path, tenant)
              ],
            ),
      )

  -- From a reachable state close_by_path of an open path, with no other task between its
  -- critical sections, leads to a reachable state in which no table has anything of the worker,
  -- whatever the worker answers to the requests to close and to shut down.
  pub close_by_path-Gone :
      (key : WorkerKey) (closing stopping : Exchange) (state : RouterState) (h : Text)
      → Reach config state.inner
      → Map.get key state.inner.path_to_handle ≡ some h
      → let out = close_by_path config key closing stopping state in
        (out.1 ≡ none) × Reach config out.0.inner × Gone h out.0
  unfolding close_by_path
  close_by_path-Gone key closing stopping state h v at =
      let closed =
        (route_request config (some h) (text "close") (object end) closing state.inner).0 in
      let stopped =
        (route_request config (some h) (text "shutdown") (object end) stopping closed).0 in
      let reached : Reach config stopped =
        route_request-Reach config (some h) (text "shutdown") (object end) stopping closed
          (route_request-Reach config (some h) (text "close") (object end) closing state.inner v) in
      let still : Map.get key stopped.path_to_handle ≡ some h =
        ap (Map.get key) (
          route_request_path config (some h) (text "shutdown") (object end) stopping closed
          ∙ route_request_path config (some h) (text "close") (object end) closing state.inner)
        ∙ at in
      rw (at, close_by_path)
        (
          refl,
          close_worker-Reach config h (record state { inner = stopped }) reached,
          elim (Option-cases (Map.get h stopped.workers)) [
            | inl missing ↦ absurd (ground (arith, (Reach-Inv reached).paths.path_open key h still))
            | inr (w, there) ↦
                (close_worker-Gone config h w (record state { inner = stopped }) (Reach-Inv reached)
                  there).0
          ],
        )
