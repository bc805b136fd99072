-- ===== src/Router/Runs.antt =====
-- router/mod.rs: the calls of Ensure are sequences of critical sections, so they lead from reachable
-- states to reachable states.
use ida_mcp.Base.{
  ℕ, zero, suc, ◌≡◌, inl, inr, Bool, true, false, Option, none, some, Text, text, length,
  Option-cases, text_key,
}
use ida_mcp.Base.Map
use ida_mcp.Json.{Value}
use ida_mcp.Router.{RouterInner, Result, ok, err, worker_key_key}
use ida_mcp.Router.Config.{RouterConfig}
use ida_mcp.Router.Entry.{
  entry_address, hex_address, graph_params, process_instruction, rename_params,
}
use ida_mcp.Router.Ensure.{
  Renaming, value_of, name_params, rename_chosen, rename_in, rename_at, rename_entry, after_open,
  Waited, answered, channel_closed, timed_out, Exchange, await_answer, route_request, spawn_worker,
  Opening, or_close, open_spawned, ensure_open, with_ref,
}
use ida_mcp.Router.Reach.{
  IsFresh, Reach, next, spawns, shares, issues, releases, sends, delivers, touches, closes,
}
use ida_mcp.Router.Refs.{ref_token, cli_token, release_ref_token}
use ida_mcp.Router.Registry.{RouterState, close_worker}
use ida_mcp.Router.Route.{Sent, send_request}
use ida_mcp.Router.Spawn.{
  Spawning, SpawnResult, spawned, refused, eviction_candidate, evict_loop, evict_idle, spawn_shared,
}

module _ (config : RouterConfig) where
  pub close_worker-Reach :
      (h : Text) (s : RouterState)
      → Reach config s.inner
      → Reach config (close_worker h s).state.inner
  unfolding close_worker
  close_worker-Reach h s v = next v (closes s.inner h)

  evict_loop-Reach :
      (fuel : ℕ) (s : RouterState)
      → Reach config s.inner
      → Reach config (evict_loop fuel config s).inner
  unfolding evict_loop
  evict_loop-Reach zero s v = v
  evict_loop-Reach (suc fuel) s v = elim (Option-cases (eviction_candidate config s.inner)) [
    | inl over ↦ rw (over, evict_loop) v
    | inr ((h, w), e) ↦
        rw (e, evict_loop)
          (evict_loop-Reach fuel (close_worker h s).state (close_worker-Reach h s v))
  ]

  spawn_worker-Reach :
      (s : Spawning) (state : RouterState)
      → Reach config state.inner
      → Map.get (ref_token s.now s.pid state.inner.req_counter) state.inner.token_to_handle ≡ none
      → IsFresh s (evict_idle config state).inner
      → Reach config (spawn_worker config s state).0.inner
  unfolding spawn_worker spawn_shared evict_idle
  spawn_worker-Reach s state v token fresh =
      elim (Option-cases (Map.get s.key state.inner.path_to_handle)) [
        | inr (h, e) ↦
            rw (e, spawn_worker, spawn_shared) (next v (shares state.inner h s.now s.pid token))
        | inl e ↦
            rw (e, spawn_worker, spawn_shared)
              (next (evict_loop-Reach (length state.inner.workers) state v)
                (spawns (evict_idle config state).inner s fresh))
      ]

  await_answer-Reach :
      (waited : Waited) (p : RouterInner × Result Sent)
      → Reach config p.0
      → Reach config (await_answer waited p).0
  await_answer-Reach (answered resp) (inner, err e) v = v
  await_answer-Reach channel_closed (inner, err e) v = v
  await_answer-Reach timed_out (inner, err e) v = v
  await_answer-Reach (answered resp) (inner, ok sent) v =
      next v (delivers inner sent.target (record resp { id = sent.req_id }))
  await_answer-Reach channel_closed (inner, ok sent) v = v
  await_answer-Reach timed_out (inner, ok sent) v = v

  pub route_request-Reach :
      (handle : Option Text) (method : Text) (params : Value) (x : Exchange) (inner : RouterInner)
      → Reach config inner
      → Reach config (route_request config handle method params x inner).0
  unfolding route_request
  route_request-Reach handle method params x inner v =
      await_answer-Reach x.waited
        (send_request config handle method params x.sender x.now x.written inner)
        (next v (sends inner handle method params x.sender x.now x.written))

  rename_chosen-Reach :
      (h : Text) (x : Exchange) (inner : RouterInner) (o : Option Text)
      → Reach config inner
      → Reach config (rename_chosen config h x inner o)
  rename_chosen-Reach h x inner none v = v
  rename_chosen-Reach h x inner (some pi_hex) v =
      route_request-Reach (some h) (text "rename_symbol") (rename_params pi_hex) x inner v

  rename_in-Reach :
      (h : Text) (x : Renaming) (ep_hex : Text) (p : RouterInner × Result Value)
      → Reach config p.0
      → Reach config (rename_in config h x ep_hex p)
  rename_in-Reach h x ep_hex (inner, err e) v = v
  rename_in-Reach h x ep_hex (inner, ok callgraph) v =
      rename_chosen-Reach h x.renamed inner (process_instruction ep_hex callgraph) v

  rename_at-Reach :
      (h : Text) (x : Renaming) (inner : RouterInner) (o : Option ℕ)
      → Reach config inner
      → Reach config (rename_at config h x inner o)
  rename_at-Reach h x inner none v = v
  rename_at-Reach h x inner (some ep) v = rename_in-Reach h x (hex_address ep) _ (
      route_request-Reach (some h) (text "build_callgraph") (graph_params (hex_address ep))
        x.graphed inner v)

  rename_entry-Reach :
      (h : Text) (x : Renaming) (inner : RouterInner)
      → Reach config inner
      → Reach config (rename_entry config h x inner)
  unfolding rename_entry
  rename_entry-Reach h x inner v =
      let p =
        route_request config (some h) (text "get_function_by_name") name_params x.named inner in
      rename_at-Reach h x p.0 (entry_address (value_of p.1))
        (route_request-Reach (some h) (text "get_function_by_name") name_params x.named inner v)

  after_open-Reach :
      (h : Text) (x : Renaming) (sbpf : Bool) (inner : RouterInner)
      → Reach config inner
      → Reach config (after_open config h x sbpf inner)
  unfolding after_open
  after_open-Reach h x true inner v = rename_entry-Reach h x inner v
  after_open-Reach h x false inner v = v

  or_close-Reach :
      (o : Opening) (h : Text) (state : RouterState) (p : RouterInner × Result Value)
      → Reach config p.0
      → Reach config (or_close config o h state p).0.inner
  unfolding or_close
  or_close-Reach o h state (inner, ok x) v = after_open-Reach h o.renaming o.is_sbpf inner v
  or_close-Reach o h state (inner, err e) v =
      close_worker-Reach h (record state { inner = inner }) v

  open_spawned-Reach :
      (o : Opening) (p : RouterState × SpawnResult)
      → Reach config p.0.inner
      → Reach config (open_spawned config o p).0.inner
  unfolding open_spawned
  open_spawned-Reach o (state, refused e) v = v
  open_spawned-Reach o (state, spawned h token) v = or_close-Reach o h state _ (
      route_request-Reach (some h) (text "open") o.params o.opened
        (release_ref_token token state.inner).0 (next v (releases state.inner token)))

  pub ensure_open-Reach :
      (o : Opening) (state : RouterState)
      → Reach config state.inner
      → Map.get
          (ref_token o.spawning.now o.spawning.pid state.inner.req_counter)
          state.inner.token_to_handle
        ≡ none
      → IsFresh o.spawning (evict_idle config state).inner
      → Reach config (ensure_open config o state).0.inner
  unfolding ensure_open
  ensure_open-Reach o state v token fresh =
      elim (Option-cases (Map.get o.spawning.key state.inner.path_to_handle)) [
        | inr (h, e) ↦ rw (e, ensure_open) (next v (touches state.inner h o.touched_at))
        | inl e ↦
            rw (e, ensure_open)
              (open_spawned-Reach o (spawn_worker config o.spawning state)
                (spawn_worker-Reach o.spawning state v token fresh))
      ]

  pub with_ref-Reach :
      (now : ℕ) (p : RouterState × Result Text)
      → Reach config p.0.inner
      → Map.get (cli_token now p.0.inner.req_counter) p.0.inner.token_to_handle ≡ none
      → Reach config (with_ref now p).0.inner
  with_ref-Reach now (state, err e) v fresh = v
  with_ref-Reach now (state, ok h) v fresh = next v (issues state.inner h now fresh)
