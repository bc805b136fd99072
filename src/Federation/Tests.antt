-- ===== src/Federation/Tests.antt =====
-- federation.rs and `enqueue_federated_task` with two nodes, of which one takes tasks.
use ida_mcp.Base.{
  ℕ, ◌+◌, ◌-◌, ◌*◌, ◌/◌, ◌≡◌, ◌≢◌, refl, Bool, true, false, ◌&&◌, Option, is_some, ◌==◌, none, some,
  List, [], ◌∷◌, map, Text, text, text_eq, text_discrete, ℕ_discrete, count, ltb, if◌then◌else◌,
  arith, text_key,
}
use ida_mcp.Base.Map
use ida_mcp.Base.Sort.{sort, place, IsSorted}
use ida_mcp.Federation.{
  FederationNodeStatus, FederationNodeRecord, Fallible, ok, err, Uri, Network, Float, is_stale,
  asked, compute_load_score, node_rank, probe_record, ready_nodes, ranks_before, choose_ready_nodes,
  new,
}
use ida_mcp.Federation.Ranks.{IsOrdered}
use ida_mcp.Federation.Requests.{submit_enqueue, fetch_remote_task}
use ida_mcp.Federation.Table.{Nodes, heartbeat_federation_node}
use ida_mcp.Federation.Choice.{
  AnswersReady, is_candidate, with_status, probe_record-ready, choose_ready_nodes_lem,
}
use ida_mcp.Federation.Dispatch.{
  dispatch_payload, attempt, dispatch, Poll, Tick, enqueue_federated_task, poll_loop, sent,
}
use ida_mcp.Federation.Heartbeat.{
  heartbeat_federation_node_lem, NodeCall, registers, heartbeats, unregisters,
}
use ida_mcp.Federation.Poll.{IsOpen, poll_loop-EndsAs}
use ida_mcp.Federation.Sent.{IsFirst, dispatch-IsFirst, enqueue_federated_task-refused}
use ida_mcp.Json.{Value, null, bool, string, object, field, end, get, get_field, text_at}
use ida_mcp.Queue.Jobs.{RouteTask}
use ida_mcp.Router.{Result, ida_error}
use ida_mcp.Router.Tenant.{normalize_tenant}
use ida_mcp.Tasks
use ida_mcp.Tasks.{TaskState, Registry, Now, running, completed, fresh_entry, next_task_id}
use ida_mcp.Tasks.Invariant.{new-Inv}
use ida_mcp.Views.{FederationNodeConfig, supports_request}

-- Ranks in thousandths; `none` is a NaN, which compares with nothing.
abbrev quotient : ℕ → Option ℕ → Option ℕ → Option ℕ
quotient scale (some a) (some b) = if b == 0 then none else some (scale * a / b)
quotient scale none b = none
quotient scale (some a) none = none

abbrev sum : Option ℕ → Option ℕ → Option ℕ
sum (some a) (some b) = some (a + b)
sum none b = none
sum (some a) none = none

abbrev exceeds : Option ℕ → Option ℕ → Bool
exceeds (some a) (some b) = ltb b a
exceeds none b = false
exceeds (some a) none = false

abbrev thousandths : Float (Option ℕ)
thousandths = record {
  of_nat = λ n. some n;
  divide = quotient 1000;
  plus = sum;
  recip = quotient 1000 (some 1);
  is_greater = exceeds;
}

abbrev IsNumber : Option ℕ → Type 0
IsNumber x = is_some x ≡ true

thousandths-IsOrdered : IsOrdered thousandths IsNumber
thousandths-IsOrdered = record {
  of_nat_number = λ n. refl;
  plus_number = sum_number;
  divide_number = λ n m h. ground arith;
  recip_number = λ n h. ground arith;
  is_greater_asym = asym;
  is_greater_trans = trans;
}
  where
    sum_number : (x y : Option ℕ) → IsNumber x → IsNumber y → IsNumber (sum x y)
    sum_number x y p q = ground arith

    asym : (x y : Option ℕ) → IsNumber x → IsNumber y → exceeds x y ≡ true → exceeds y x ≡ false
    asym x y p q h = ground arith

    trans :
        (x y z : Option ℕ)
        → IsNumber x
        → IsNumber y
        → IsNumber z
        → exceeds x y ≡ false
        → exceeds y z ≡ false
        → exceeds x z ≡ false
    trans x y z p q r h k = ground arith

abbrev http : Fallible Uri
http = ok (record { scheme = some (text "http"); host = some (text "host"); port = none })

abbrev yes_ok : Value
yes_ok = object (field (text "ok") (bool true) end)

-- Every node answers; `posted` is what it answers to a task, `status` to a poll.
abbrev net_of : Fallible Value → Text → Network
net_of posted status = record {
  parse = λ url. http;
  fetch_json = λ host port path.
      if text_eq path (text "/taskz/job-9")
      then ok (object (field (text "status") (string status) end))
      else ok yes_ok;
  post_json = λ host port path payload. posted;
}

abbrev taking : Network
taking =
    net_of (ok (object (field (text "task_id") (string (text "job-9")) end))) (text "completed")

abbrev refusing : Network
refusing = net_of (err (text "refused")) (text "running")

abbrev node : Text → ℕ → FederationNodeConfig
node name weight = record {
  name = name;
  url = text "http://host";
  weight = weight;
  enabled = true;
  capabilities = [];
  tenant_allow = [];
  node_id = none;
}

abbrev light : FederationNodeRecord
light = new (node (text "light") 1) (text "static")

abbrev heavy : FederationNodeRecord
heavy = new (node (text "heavy") 4) (text "static")

-- The node of the larger weight comes first.
choose_ready_nodes_test :
    choose_ready_nodes thousandths taking 30 5 none none (light ∷ heavy ∷ [])
    ≡ node (text "heavy") 4 ∷ node (text "light") 1 ∷ []
unfolding choose_ready_nodes ready_nodes probe_record asked compute_load_score is_stale node_rank
    sort place supports_request text_at get get_field text_discrete ℕ_discrete
choose_ready_nodes_test = refl

probe_record-ready_example :
    ((probe_record thousandths taking 30 5 light).ready ≡ true
      → (light.config.enabled ≡ true)
        × (is_stale 30 5 light ≡ false)
        × AnswersReady thousandths taking 30 5 light)
    × (light.config.enabled ≡ true
        → is_stale 30 5 light ≡ false
        → AnswersReady thousandths taking 30 5 light
        → (probe_record thousandths taking 30 5 light).ready ≡ true)
probe_record-ready_example = probe_record-ready thousandths taking 30 5 light

abbrev Ranked : Type 0
Ranked = FederationNodeConfig × FederationNodeStatus (Option ℕ)

choose_ready_nodes_lem_example :
    (ranked : List Ranked) × (choose_ready_nodes thousandths taking 30 5 none none
        (light ∷ heavy ∷ [])
      ≡ map (λ x. x.0) ranked)
    × IsSorted (ranks_before thousandths) ranked
    × ((p : Ranked → Bool)
        → count p ranked
          ≡ count
              (λ r.
                is_candidate thousandths taking 30 5 none none r
                && p (with_status thousandths taking 30 5 r))
              (light ∷ heavy ∷ []))
choose_ready_nodes_lem_example =
    choose_ready_nodes_lem thousandths taking 30 5 IsNumber none none (light ∷ heavy ∷ [])
      thousandths-IsOrdered

abbrev nodes : Nodes
nodes = (text "light", light) ∷ []

heartbeat_federation_node_lem_example :
    let after = heartbeat_federation_node (node (text "light") 2) 7 (text "7Z") nodes in
    ((r : FederationNodeRecord) × (Map.get (text "light") after ≡ some r)
      × (r.config ≡ node (text "light") 2)
      × ((ttl later : ℕ) → is_stale ttl later r ≡ ltb ttl (later - 7)))
    × ((name : Text) → text "light" ≢ name → Map.get name after ≡ Map.get name nodes)
heartbeat_federation_node_lem_example =
    heartbeat_federation_node_lem (node (text "light") 2) 7 (text "7Z") nodes

abbrev calls : List NodeCall
calls =
    registers (node (text "heavy") 4)
    ∷ heartbeats (node (text "light") 2) 7 (text "7Z")
    ∷ unregisters (text "heavy")
    ∷ []

abbrev task : RouteTask
task = record {
  path = text "/bin/prog";
  method = text "list_functions";
  params = null;
  tenant_id = none;
  priority = 1;
  dedupe_key = some (text "k");
}

dispatch-IsFirst_example :
    IsFirst taking
      (dispatch_payload task)
      (node (text "light") 1 ∷ [])
      (dispatch taking (dispatch_payload task) none (node (text "light") 1 ∷ []))
dispatch-IsFirst_example =
    dispatch-IsFirst taking (dispatch_payload task) none (node (text "light") 1 ∷ [])

dispatch_test :
    dispatch taking (dispatch_payload task) none (node (text "light") 1 ∷ [])
    ≡ sent (node (text "light") 1) (text "job-9") (text "http://host")
unfolding dispatch attempt submit_enqueue text_at get get_field text_discrete ℕ_discrete
dispatch_test = refl

abbrev at : ℕ → Now
at n = record { instant = n; unix_secs = 0 }

enqueue_federated_task-refused_example :
    let out =
      enqueue_federated_task thousandths refusing 30 5 1
        (at 1)
        (at 2)
        (light ∷ [])
        task
        Tasks.new in
    ((e : Text) × (out.answer ≡ Result.err (ida_error e)))
    × (out.poll ≡ none)
    × ((Tasks.get (next_task_id (text "federated") (Tasks.new).counter) Tasks.new ≡ none)
        × ((s : TaskState) × (Tasks.get
                (next_task_id (text "federated") (Tasks.new).counter)
                out.registry
              ≡ some s)
            × (s.status ≡ running)))
enqueue_federated_task-refused_example =
    enqueue_federated_task-refused thousandths refusing 30 5 1 (at 1) (at 2) (light ∷ []) task
      Tasks.new (node (text "light") 1) [] new-Inv (unfold Tasks.find_running in refl)
      (unfold choose_ready_nodes ready_nodes probe_record asked compute_load_score is_stale
          node_rank sort place supports_request text_at get get_field text_discrete ℕ_discrete
          normalize_tenant in
        refl)
      ((text "light: refused", (unfold attempt submit_enqueue in refl)), tt)

abbrev polled : Poll
polled = record {
  node = node (text "light") 1;
  remote_task_id = text "job-9";
  url = text "http://host";
}

abbrev ticks : List Tick
ticks =
    record { network = refusing; seen = at 2; ended = at 2 }
    ∷ record { network = taking; seen = at 3; ended = at 4 }
    ∷ []

abbrev one : Registry
one = record {
  entries =
      (
        text "federated-1",
        fresh_entry (text "federated-1") running (text "go") none none none (at 1),
      )
      ∷ [];
  counter = 2;
}

one-IsOpen : IsOpen (text "federated-1") one
unfolding text_discrete ℕ_discrete
one-IsOpen = record { entry = _; at = refl; room = omega arith }

poll_loop-EndsAs_example :
    let out = poll_loop (text "federated-1") polled ticks one in
    (out.1 ≡ true)
    × ((s : TaskState) × (Tasks.get (text "federated-1") out.0 ≡ some s) × (s.status ≡ completed))
poll_loop-EndsAs_example =
    poll_loop-EndsAs (text "federated-1") polled ticks one completed one-IsOpen
      (unfold fetch_remote_task text_at get get_field text_discrete ℕ_discrete in refl)
