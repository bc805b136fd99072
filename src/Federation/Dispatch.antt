-- ===== src/Federation/Dispatch.antt =====
-- router/mod.rs: `enqueue_federated_task`: a task is sent to the first node that takes it, and what the
-- node says of it is polled into the task registry.
use ida_mcp.Base.{
  ℕ, Bool, true, false, Option, none, some, List, [], ◌∷◌, ◌++◌, Text, text, text_eq, unwrap_or,
  if◌then◌else◌, text_key,
}
use ida_mcp.Federation.{FederationNodeRecord, Fallible, ok, err, Network, Float, choose_ready_nodes}
use ida_mcp.Federation.Requests.{
  RemoteDispatchResult, RemoteTaskStatus, submit_enqueue, fetch_remote_task,
}
use ida_mcp.Json.{Value, null, bool, number, string, object, field, end, text_at}
use ida_mcp.Queue.Jobs.{RouteTask}
use ida_mcp.Router.{Result, ida_error}
use ida_mcp.Router.Tenant.{normalize_tenant}
use ida_mcp.Tasks
use ida_mcp.Tasks.{Registry, Now, TaskState, is_running, create_with_key, created_id, set_handle}
use ida_mcp.Tasks.Updates.{update_message, merge_meta, complete, fail}
use ida_mcp.Views.{FederationNodeConfig}

abbrev pub federated_meta : RouteTask → Value
federated_meta t = object (
    field (text "tenant_id") (string (normalize_tenant t.tenant_id)) (
      field (text "path") (string t.path) (
        field (text "method") (string t.method)
          (field (text "priority") (number t.priority) (field (text "remote") (bool true) end)))))

abbrev pub string_or_null : Option Text → Value
string_or_null none = null
string_or_null (some s) = string s

abbrev pub dispatch_payload : RouteTask → Value
dispatch_payload t = object (
    field (text "path") (string t.path) (
      field (text "method") (string t.method) (
        field (text "priority") (number t.priority) (
          field (text "tenant_id") (string (normalize_tenant t.tenant_id)) (
            field (text "dedupe_key") (string_or_null t.dedupe_key)
              (field (text "task_params") t.params (field (text "federate") (bool false) end)))))))

-- One round of the loop over the candidates: the identifier that the node gave the task and the
-- address it was sent to, or the error.
abbrev pub taken : FederationNodeConfig → Fallible RemoteDispatchResult → Fallible (Text × Text)
taken node (err e) = err (node.name ++ (text ": " ++ e))
taken node (ok remote) = elim (text_at (text "task_id") remote.response) [
  | some task ↦ ok (task, remote.url)
  | none ↦ err (text "remote node " ++ (node.name ++ text " did not return task_id"))
]

unfoldable pub attempt : Network → Value → FederationNodeConfig → Fallible (Text × Text)
unfolding submit_enqueue
attempt net payload node = taken node (submit_enqueue net node payload)

pub data Dispatched : Type 0 where
  sent : FederationNodeConfig → Text → Text → Dispatched
  unsent : Option Text → Dispatched

unfoldable pub dispatch : Network → Value → Option Text → List FederationNodeConfig → Dispatched
unfolding attempt
dispatch net payload last_error [] = unsent last_error
dispatch net payload last_error (node ∷ nodes) = elim (attempt net payload node) [
  | ok (task, url) ↦ sent node task url
  | err e ↦ dispatch net payload (some e) nodes
]

-- The task that polls: its node, and the identifier and the address of the remote task.
pub record Poll : Type 0 where
  pub node : FederationNodeConfig
  pub remote_task_id : Text
  pub url : Text

pub record Federated : Type 0 where
  pub registry : Registry
  pub answer : Result Value
  pub poll : Option Poll

abbrev pub remote_meta : FederationNodeConfig → Text → Text → Value
remote_meta node remote_task_id url = object (
    field (text "node") (string node.name)
      (field (text "url") (string url) (field (text "remote_task_id") (string remote_task_id) end)))

abbrev pub queued_answer : Text → RouteTask → FederationNodeConfig → Value
queued_answer id t node = object (
    field (text "task_id") (string id) (
      field (text "status") (string (text "queued")) (
        field (text "path") (string t.path) (
          field (text "method") (string t.method) (
            field (text "tenant_id") (string (normalize_tenant t.tenant_id)) (
              field (text "priority") (number t.priority) (
                field (text "remote") (bool true) (
                  field (text "node") (string node.name)
                    (field (text "url") (string node.url) end)))))))))

abbrev pub runs : Option TaskState → Bool
runs none = false
runs (some s) = is_running s.status

-- The handle of the polling task is a number, as in the registry.
abbrev pub start_poll : ℕ → Now → Text → Poll → Registry → Registry
start_poll handle now id p r = set_handle id handle (
    merge_meta id (remote_meta p.node p.remote_task_id p.url) now (
      update_message id
        (text "Queued remotely on " ++ (p.node.name ++ (text " as " ++ p.remote_task_id))) now r))

abbrev pub after_dispatch : ℕ → Now → RouteTask → Text → Dispatched → Registry → Federated
after_dispatch handle now t id (unsent last_error) r = record {
  registry = r;
  answer = Result.err (
      ida_error (
        text "federation enqueue failed across all candidate nodes: "
        ++ unwrap_or last_error (text "unknown error")));
  poll = none;
}
after_dispatch handle now t id (sent node task url) r =
    let p : Poll = record { node = node; remote_task_id = task; url = url } in
    if runs (Tasks.get id r)
    then record {
      registry = start_poll handle now id p r;
      answer = Result.ok (queued_answer id t node);
      poll = some p;
    }
    else record { registry = r; answer = Result.ok (queued_answer id t node); poll = none }

-- The task that it makes, or the running one of the key, with the metadata.
unfoldable pub create_federated : RouteTask → Now → Registry → Registry × Text
create_federated t now r =
    let (r', created) =
      create_with_key (text "federated") t.dedupe_key
        (text "Dispatching " ++ (t.method ++ text " to federation")) now r in
    (merge_meta (created_id created) (federated_meta t) now r', created_id created)

unfoldable pub dispatch_to :
    Network → ℕ → Now → Now → RouteTask → List FederationNodeConfig → Registry → Federated
unfolding create_federated dispatch
dispatch_to net handle now later t [] r = record {
  registry = r;
  answer = Result.err (ida_error (text "no ready federation node available"));
  poll = none;
}
dispatch_to net handle now later t (node ∷ nodes) r =
    let (r', id) = create_federated t now r in
    after_dispatch handle later t id (dispatch net (dispatch_payload t) none (node ∷ nodes)) r'

-- `probed` is the instant of the probes, `now` and `later` the clocks before and after the dispatch.
unfoldable pub enqueue_federated_task :
    {F : Type 0}
    → Float F
    → Network
    → ℕ
    → ℕ
    → ℕ
    → Now
    → Now
    → List FederationNodeRecord
    → RouteTask
    → Registry
    → Federated
unfolding choose_ready_nodes dispatch_to
enqueue_federated_task float net ttl probed handle now later nodes t r =
    dispatch_to net handle now later t
      (choose_ready_nodes float net ttl probed (some t.method) (some (normalize_tenant t.tenant_id))
        nodes)
      r

-- One tick of the polling task: what the network answers then, and the clocks.
pub record Tick : Type 0 where
  pub network : Network
  pub seen : Now
  pub ended : Now

abbrev pub remote_result : Poll → Value → Value
remote_result p payload = object (
    field (text "remote") (bool true) (
      field (text "node") (string p.node.name) (
        field (text "url") (string p.url) (
          field (text "remote_task_id") (string p.remote_task_id)
            (field (text "payload") payload end)))))

-- What a remote status does; true ends the loop.
abbrev pub apply_status : Text → Poll → Value → Text → Text → Now → Registry → Registry × Bool
apply_status id p payload status message now r =
    if text_eq status (text "completed")
    then (complete id (remote_result p payload) now r, true)
    else if text_eq status (text "failed")
    then (fail id (text "remote " ++ (p.node.name ++ (text " failed: " ++ message))) now r, true)
    else if text_eq status (text "cancelled")
    then (fail id (text "remote " ++ (p.node.name ++ text " cancelled")) now r, true)
    else (r, false)

abbrev pub poll_answer :
    Text → Poll → Now → Now → Fallible RemoteTaskStatus → Registry → Registry × Bool
poll_answer id p seen ended (err e) r =
    (update_message id (text "remote poll error: " ++ e) seen r, false)
poll_answer id p seen ended (ok remote) r =
    let status = unwrap_or (text_at (text "status") remote.payload) (text "unknown") in
    let message = unwrap_or (text_at (text "message") remote.payload) status in
    apply_status id p remote.payload status message ended
      (update_message id (text "remote " ++ (p.node.name ++ (text ": " ++ message))) seen r)

unfoldable pub poll_step : Text → Poll → Tick → Registry → Registry × Bool
poll_step id p tick r =
    poll_answer id p tick.seen tick.ended (fetch_remote_task tick.network p.node p.remote_task_id) r

-- The loop, over the ticks that come; true once it has ended.
unfoldable pub poll_loop : Text → Poll → List Tick → Registry → Registry × Bool
unfolding poll_step
poll_loop id p [] r = (r, false)
poll_loop id p (tick ∷ ticks) r =
    let (r', ended) = poll_step id p tick r in
    elim ended [ true ↦ (r', true) | false ↦ poll_loop id p ticks r' ]
