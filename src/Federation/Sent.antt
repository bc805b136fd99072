-- ===== src/Federation/Sent.antt =====
-- router/mod.rs: to which node `enqueue_federated_task` sends a task, and what is left if none takes it.
use ida_mcp.Base.{
  ℕ, ◌≡◌, refl, ap, ◌⊎◌, inl, inr, Option, none, some, List, [], ◌∷◌, ◌++◌, Text, text, All,
  text_key,
}
use ida_mcp.Base.Map
use ida_mcp.Federation.{FederationNodeRecord, Fallible, ok, err, Network, Float, choose_ready_nodes}
use ida_mcp.Federation.Dispatch.{
  federated_meta, dispatch_payload, attempt, Dispatched, sent, unsent, dispatch, create_federated,
  dispatch_to, enqueue_federated_task,
}
use ida_mcp.Json.{Value}
use ida_mcp.Queue.Jobs.{RouteTask}
use ida_mcp.Router.{Result, ida_error}
use ida_mcp.Router.Tenant.{normalize_tenant}
use ida_mcp.Tasks
use ida_mcp.Tasks.{
  TaskState, TaskEntry, Registry, Now, Created, running, find_running, create_internal,
  create_with_key, created_id, next_task_id, add_task, fresh_state, refresh_updated,
}
use ida_mcp.Tasks.Creation.{get-entry, get_of_entry, add_task-get_new}
use ida_mcp.Tasks.Invariant.{Inv}
use ida_mcp.Tasks.Steps.{fresh_id}
use ida_mcp.Tasks.Updates.{merge_meta}
use ida_mcp.Views.{FederationNodeConfig}

-- The node gave no task.
abbrev pub Refuses : Network → Value → FederationNodeConfig → Type 0
Refuses net payload node = (e : Text) × (attempt net payload node ≡ err e)

-- What the loop over the candidates comes to.
abbrev pub IsFirst : Network → Value → List FederationNodeConfig → Dispatched → Type 0
IsFirst net payload nodes (unsent e) = All (Refuses net payload) nodes
IsFirst net payload nodes (sent node task url) =
    (before : List FederationNodeConfig) × (after : List FederationNodeConfig) × (nodes
      ≡ before ++ node ∷ after)
    × All (Refuses net payload) before
    × (attempt net payload node ≡ ok (task, url))

attempt-cases :
    (x : Fallible (Text × Text)) → ((a : Text × Text) × (x ≡ ok a)) ⊎ ((e : Text) × (x ≡ err e))
attempt-cases (ok a) = inl (a, refl)
attempt-cases (err e) = inr (e, refl)

later-IsFirst :
    (net : Network) (payload : Value) (node : FederationNodeConfig)
    (nodes : List FederationNodeConfig) (d : Dispatched)
    → Refuses net payload node
    → IsFirst net payload nodes d
    → IsFirst net payload (node ∷ nodes) d
later-IsFirst net payload node nodes (unsent e) no_task h = (no_task, h)
later-IsFirst net payload node nodes (sent m task url) no_task
      (before, after, split, refused, took) =
    (node ∷ before, after, ap (λ l. node ∷ l) split, (no_task, refused), took)

-- The loop over the candidates sends the task to the first one that gives an identifier for
-- it, after every one before it has refused, and to none only if all refuse.
pub dispatch-IsFirst :
    (net : Network) (payload : Value) (last_error : Option Text) (nodes : List FederationNodeConfig)
    → IsFirst net payload nodes (dispatch net payload last_error nodes)
unfolding dispatch
dispatch-IsFirst net payload last_error [] = tt
dispatch-IsFirst net payload last_error (node ∷ nodes) =
    elim (attempt-cases (attempt net payload node)) [
      | inl ((task, url), took) ↦ rw (took, dispatch) ([], nodes, refl, tt, took)
      | inr (e, no_task) ↦
          rw (no_task, dispatch)
            (later-IsFirst net payload node nodes (dispatch net payload (some e) nodes) (e, no_task)
              (dispatch-IsFirst net payload (some e) nodes))
    ]

dispatch-unsent :
    (net : Network) (payload : Value) (last_error : Option Text) (nodes : List FederationNodeConfig)
    → All (Refuses net payload) nodes
    → (e : Option Text) × (dispatch net payload last_error nodes ≡ unsent e)
unfolding dispatch
dispatch-unsent net payload last_error [] h = (last_error, refl)
dispatch-unsent net payload last_error (node ∷ nodes) ((e, no_task), h) =
    rw (no_task, dispatch) (dispatch-unsent net payload (some e) nodes h)

get-merge_meta :
    (id : Text) (patch : Value) (now : Now) (s : TaskState) (r : Registry)
    → Tasks.get id r ≡ some s
    → (s' : TaskState) × (Tasks.get id (merge_meta id patch now r) ≡ some s')
      × (s'.status ≡ s.status)
unfolding merge_meta refresh_updated
get-merge_meta id patch now s r h =
    let (e, at, is) = get-entry id s r h in
    (
      _,
      get_of_entry id _ (merge_meta id patch now r) (Map.get-modify_self id _ e r.entries at),
      ap (λ x. x.status) is,
    )

-- A task whose key is free runs from the moment it is made.
create_federated-running :
    (t : RouteTask) (now : Now) (r : Registry)
    → Inv r
    → find_running t.dedupe_key r.entries ≡ none
    → (s : TaskState) × (Tasks.get
          (next_task_id (text "federated") r.counter)
          (create_federated t now r).0
        ≡ some s)
      × (s.status ≡ running)
unfolding create_federated create_with_key create_internal
create_federated-running t now r v free =
    rw (free, create_internal)
      (get-merge_meta (next_task_id (text "federated") r.counter) (federated_meta t) now _
        (add_task (text "federated") running
          (text "Dispatching " ++ (t.method ++ text " to federation")) none none t.dedupe_key now
          r).0
        (add_task-get_new (text "federated")
          (text "Dispatching " ++ (t.method ++ text " to federation")) none t.dedupe_key now r v))

get_fresh : (r : Registry) → Inv r → Tasks.get (next_task_id (text "federated") r.counter) r ≡ none
unfolding Tasks.get
get_fresh r v = rw (fresh_id r (text "federated") v, Tasks.get) refl

-- In a registry that satisfies the invariant, where there are candidates, every one of them
-- refuses the task, and no running task has its key, the answer is an error and nothing polls,
-- but the registry holds a running task under the next identifier, under which it had none
-- before the call.
pub enqueue_federated_task-refused :
    {F : Type 0} (float : Float F) (net : Network) (ttl probed handle : ℕ) (now later : Now)
    (nodes : List FederationNodeRecord) (t : RouteTask) (r : Registry) (c : FederationNodeConfig)
    (cs : List FederationNodeConfig)
    → Inv r
    → find_running t.dedupe_key r.entries ≡ none
    → choose_ready_nodes float net ttl probed
        (some t.method)
        (some (normalize_tenant t.tenant_id))
        nodes
      ≡ c ∷ cs
    → All (Refuses net (dispatch_payload t)) (c ∷ cs)
    → let out = enqueue_federated_task float net ttl probed handle now later nodes t r in
      ((e : Text) × (out.answer ≡ Result.err (ida_error e)))
      × (out.poll ≡ none)
      × (let made = next_task_id (text "federated") r.counter in
          (Tasks.get made r ≡ none)
          × ((s : TaskState) × (Tasks.get made out.registry ≡ some s) × (s.status ≡ running)))
unfolding enqueue_federated_task dispatch_to
enqueue_federated_task-refused float net ttl probed handle now later nodes t r c cs v free chosen
      refused =
    let (last, lost) = dispatch-unsent net (dispatch_payload t) none (c ∷ cs) refused in
    let (s, at, is) = create_federated-running t now r v free in
    rw (chosen, enqueue_federated_task)
      (rw (lost, dispatch_to) ((_, refl), refl, (get_fresh r v, (s, at, is))))
