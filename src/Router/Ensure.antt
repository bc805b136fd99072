-- ===== src/Router/Ensure.antt =====
-- router/mod.rs: calls made of several critical sections, run with no other task between them:
-- `route_request` with its answer, `ensure_worker_with_ref_idb` and `close_by_path`. What the worker
-- does with a request, and the clocks, are arguments.
use ida_mcp.Base.{ℕ, Bool, true, false, Option, none, some, ◌++◌, Text, text, text_key}
use ida_mcp.Base.Map
use ida_mcp.Json.{Value, string, object, field, end}
use ida_mcp.Router.{
  WorkerKey, RouterInner, Result, ok, err, ToolError, ida_error, worker_closed, timeout,
  no_database_open, worker_key_key,
}
use ida_mcp.Router.Config.{RouterConfig}
use ida_mcp.Router.Entry.{
  entry_address, hex_address, graph_params, process_instruction, rename_params,
}
use ida_mcp.Router.Refs.{issue_ref_for_handle, release_ref_token}
use ida_mcp.Router.Registry.{RouterState, close_worker}
use ida_mcp.Router.Route.{
  Sent, RpcResponse, Answer, value, message, send_request, deliver, touch_worker,
}
use ida_mcp.Router.Spawn.{
  Spawning, SpawnError, SpawnResult, spawned, refused, spawn_shared, spawn_commit, evict_idle,
}

-- What comes of the wait for an answer.
pub data Waited : Type 0 where
  answered : RpcResponse → Waited
  channel_closed timed_out : Waited

-- What a request meets: the number of its sender, the clock, whether it is written, and the wait.
pub record Exchange : Type 0 where
  pub sender : ℕ
  pub now : ℕ
  pub written : Bool
  pub waited : Waited

abbrev pub result_of : Option (ℕ × Answer) → Result Value
result_of none = err worker_closed
result_of (some (sender, value v)) = ok v
result_of (some (sender, message m)) = err (ida_error m)

-- The answer is under the number of the request.
abbrev pub await_answer : Waited → RouterInner × Result Sent → RouterInner × Result Value
await_answer waited (inner, err e) = (inner, err e)
await_answer (answered resp) (inner, ok sent) =
    let (inner', answer) = deliver sent.target (record resp { id = sent.req_id }) inner in
    (inner', result_of answer)
await_answer channel_closed (inner, ok sent) = (inner, err worker_closed)
await_answer timed_out (inner, ok sent) = (inner, err (timeout sent.timeout))

unfoldable pub route_request :
    RouterConfig → Option Text → Text → Value → Exchange → RouterInner → RouterInner × Result Value
unfolding send_request deliver
route_request config handle method params x inner =
    await_answer x.waited (send_request config handle method params x.sender x.now x.written inner)

-- `spawn_worker`: the search, the closing of idle workers, and the last critical section.
unfoldable pub spawn_worker : RouterConfig → Spawning → RouterState → RouterState × SpawnResult
unfolding spawn_shared evict_idle spawn_commit
spawn_worker config s state = elim (spawn_shared s state.inner) [
  | some (inner, result) ↦ (record state { inner = inner }, result)
  | none ↦
      let roomy = evict_idle config state in
      let (inner, result) = spawn_commit config s roomy.inner in
      (record roomy { inner = inner }, result)
]

abbrev pub value_of : Result Value → Option Value
value_of (ok v) = some v
value_of (err e) = none

abbrev pub name_params : Value
name_params = object (field (text "name") (string (text "entrypoint")) end)

-- The three requests of one renaming.
pub record Renaming : Type 0 where
  pub named : Exchange
  pub graphed : Exchange
  pub renamed : Exchange

abbrev pub rename_chosen : RouterConfig → Text → Exchange → RouterInner → Option Text → RouterInner
rename_chosen config h x inner none = inner
rename_chosen config h x inner (some pi_hex) =
    (route_request config (some h) (text "rename_symbol") (rename_params pi_hex) x inner).0

abbrev pub rename_in :
    RouterConfig → Text → Renaming → Text → RouterInner × Result Value → RouterInner
rename_in config h x ep_hex (inner, err e) = inner
rename_in config h x ep_hex (inner, ok callgraph) =
    rename_chosen config h x.renamed inner (process_instruction ep_hex callgraph)

abbrev pub rename_at : RouterConfig → Text → Renaming → RouterInner → Option ℕ → RouterInner
rename_at config h x inner none = inner
rename_at config h x inner (some ep) = rename_in config h x (hex_address ep) (
    route_request config (some h) (text "build_callgraph") (graph_params (hex_address ep)) x.graphed
      inner)

-- `detect_and_rename_sbpf_entry` as requests to the worker.
unfoldable pub rename_entry : RouterConfig → Text → Renaming → RouterInner → RouterInner
unfolding route_request entry_address process_instruction
rename_entry config h x inner =
    let (found, result) =
      route_request config (some h) (text "get_function_by_name") name_params x.named inner in
    rename_at config h x found (entry_address (value_of result))

-- What one call brings: the spawn, the request to open with its parameters, and the clocks.
pub record Opening : Type 0 where
  pub spawning : Spawning
  pub touched_at : ℕ
  pub params : Value
  pub opened : Exchange
  pub is_sbpf : Bool
  pub renaming : Renaming
  pub issued_at : ℕ
  pub describe : SpawnError → Text

-- An sBPF program has its entry renamed once it is open.
unfoldable pub after_open : RouterConfig → Text → Renaming → Bool → RouterInner → RouterInner
unfolding rename_entry
after_open config h x true inner = rename_entry config h x inner
after_open config h x false inner = inner

-- A worker whose database cannot be opened is closed again. That a new database is recorded in the
-- store is a matter of the store alone.
unfoldable pub or_close :
    RouterConfig
    → Opening
    → Text
    → RouterState
    → RouterInner × Result Value
    → RouterState × Result Text
unfolding after_open
or_close config o h state (inner, ok v) =
    (record state { inner = after_open config h o.renaming o.is_sbpf inner }, ok h)
or_close config o h state (inner, err e) =
    ((close_worker h (record state { inner = inner })).state, err e)

unfoldable pub open_spawned :
    RouterConfig → Opening → RouterState × SpawnResult → RouterState × Result Text
unfolding route_request or_close
open_spawned config o (state, refused e) =
    (state, err (ida_error (text "spawn_worker failed: " ++ o.describe e)))
open_spawned config o (state, spawned h token) =
    let released = (release_ref_token token state.inner).0 in
    or_close config o h state
      (route_request config (some h) (text "open") o.params o.opened released)

-- The worker of the key, opened if there is none.
unfoldable pub ensure_open : RouterConfig → Opening → RouterState → RouterState × Result Text
unfolding touch_worker spawn_worker open_spawned
ensure_open config o state = elim (Map.get o.spawning.key state.inner.path_to_handle) [
  | some h ↦ (record state { inner = touch_worker h o.touched_at state.inner }, ok h)
  | none ↦ open_spawned config o (spawn_worker config o.spawning state)
]

abbrev pub with_ref : ℕ → RouterState × Result Text → RouterState × Result (Text × Text)
with_ref now (state, err e) = (state, err e)
with_ref now (state, ok h) =
    let (inner, token) = issue_ref_for_handle h now state.inner in
    (record state { inner = inner }, ok (h, token))

unfoldable pub ensure_worker_with_ref_idb :
    RouterConfig → Opening → RouterState → RouterState × Result (Text × Text)
unfolding ensure_open issue_ref_for_handle
ensure_worker_with_ref_idb config o state = with_ref o.issued_at (ensure_open config o state)

-- What `close` and `shutdown` answer is not asked for.
unfoldable pub close_by_path :
    RouterConfig → WorkerKey → Exchange → Exchange → RouterState → RouterState × Option ToolError
unfolding route_request close_worker
close_by_path config key closing stopping state = elim (Map.get key state.inner.path_to_handle) [
  | none ↦ (state, some no_database_open)
  | some h ↦
      let closed =
        (route_request config (some h) (text "close") (object end) closing state.inner).0 in
      let stopped =
        (route_request config (some h) (text "shutdown") (object end) stopping closed).0 in
      ((close_worker h (record state { inner = stopped })).state, none)
]
