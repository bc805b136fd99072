-- ===== src/Router/Route.antt =====
-- router/mod.rs: `route_request` up to the wait for the answer, and the reader task's delivery of an
-- answer. `written` says whether the request reached the worker's standard input.
use ida_mcp.Base.{
  ℕ, ◌+◌, min, Bool, Option, none, some, [], ◌∷◌, ◌++◌, Text, text, text_eq, decimal, length,
  unwrap_or, leb, ltb, is_some, if◌then◌else◌, HashMap, text_key,
}
use ida_mcp.Base.Map
use ida_mcp.Json
use ida_mcp.Json.{Value, null, as_u64}
use ida_mcp.Router.{
  WorkerProcess, RouterInner, Result, ok, err, ToolError, no_database_open, busy, worker_closed,
  invalid_params,
}
use ida_mcp.Router.Config.{RouterConfig}
use ida_mcp.Router.Registry.{next_counter}

abbrev pub ok_or {ℓ} : {A : Type ℓ} → Option A → ToolError → Result A
ok_or none e = err e
ok_or (some a) e = ok a

unfoldable pub choose_target : Option Text → RouterInner → Result Text
choose_target (some h) inner =
    if is_some (Map.get h inner.workers)
    then ok h
    else err (invalid_params (text "Unknown db_handle: " ++ h))
choose_target none inner =
    if ltb 1 (length inner.workers)
    then err (
        invalid_params (
          text
            "db_handle is required when multiple databases are open. Provide the db_handle returned by open_idb."))
    else ok_or inner.active no_database_open

unfoldable pub next_req_id : RouterInner → RouterInner × Text
next_req_id inner = (
  record inner { req_counter = next_counter inner.req_counter },
  text "r" ++ decimal inner.req_counter,
)

abbrev and_as_u64 : Option Value → Option ℕ
and_as_u64 none = none
and_as_u64 (some v) = as_u64 v

unfoldable pub timeout_secs : Text → Value → ℕ
timeout_secs method params =
    let max_timeout : ℕ = if text_eq method (text "open") then 3600 else 600 in
    min (unwrap_or (and_as_u64 (Json.get (text "timeout_secs") params)) 120) max_timeout

-- The pending requests of all workers of a tenant.
unfoldable pub tenant_pending : Text → HashMap Text WorkerProcess → ℕ
tenant_pending tenant [] = 0
tenant_pending tenant ((h, w) ∷ m) =
    let rest = tenant_pending tenant m in
    if text_eq w.tenant_id tenant then length w.pending + rest else rest

abbrev pub with_pending : Text → ℕ → ℕ → WorkerProcess → WorkerProcess
with_pending req_id sender now w = record w {
  pending = Map.insert req_id sender w.pending;
  last_active = now;
}

-- The admission of a request to the worker's queue, once the worker is found.
unfoldable pub admit_to :
    RouterConfig → Text → WorkerProcess → Text → ℕ → ℕ → Bool → RouterInner → Result RouterInner
admit_to config h w req_id sender now written inner =
    if leb config.max_pending_per_tenant (tenant_pending w.tenant_id inner.workers)
    then err busy
    else if leb config.max_pending_per_worker (length w.pending)
    then err busy
    else if written
    then ok (record inner { workers = Map.modify h (with_pending req_id sender now) inner.workers })
    else err worker_closed

unfoldable pub admit : RouterConfig → Text → Text → ℕ → ℕ → Bool → RouterInner → Result RouterInner
unfolding tenant_pending
admit config h req_id sender now written inner = elim (Map.get h inner.workers) [
  | none ↦ err (invalid_params (text "Worker " ++ h ++ text " not found"))
  | some w ↦ admit_to config h w req_id sender now written inner
]

-- A request on its way: the worker, its identifier, its time limit.
pub record Sent : Type 0 where
  pub target : Text
  pub req_id : Text
  pub timeout : ℕ

-- The counter has moved on also where the request is refused after it was numbered.
abbrev pub with_tables : RouterInner → Sent → Result RouterInner → RouterInner × Result Sent
with_tables counted sent (ok after) = (after, ok sent)
with_tables counted sent (err e) = (counted, err e)

-- The three critical sections in a row, with no other task between them.
unfoldable pub send_request :
    RouterConfig
    → Option Text
    → Text
    → Value
    → ℕ
    → ℕ
    → Bool
    → RouterInner
    → RouterInner × Result Sent
send_request config handle method params sender now written inner =
    elim (choose_target handle inner) [
      | err e ↦ (inner, err e)
      | ok target ↦
          let (counted, req_id) = next_req_id inner in
          with_tables counted
            (record { target = target; req_id = req_id; timeout = timeout_secs method params })
            (admit config target req_id sender now written counted)
    ]

pub data ℤ : Type 0 where
  pos negsuc : ℕ → ℤ

pub record RpcError : Type 0 where
  pub code : ℤ
  pub message : Text
  pub error_data : Option Value

pub record RpcResponse : Type 0 where
  pub jsonrpc : Text
  pub id : Text
  pub result : Option Value
  pub error : Option RpcError

-- What the sender of the request is told: a value, or the worker's message.
pub data Answer : Type 0 where
  value : Value → Answer
  message : Text → Answer

unfoldable pub answer_of : RpcResponse → Answer
answer_of resp = elim resp.result [
  | some v ↦ value v
  | none ↦ elim resp.error [ some e ↦ message e.message | none ↦ value null ]
]

abbrev pub without_pending : Text → WorkerProcess → WorkerProcess
without_pending id w = record w { pending = Map.remove id w.pending }

unfoldable pub answer_pending :
    Text → RpcResponse → WorkerProcess → RouterInner → RouterInner × Option (ℕ × Answer)
unfolding answer_of
answer_pending h resp w inner = elim (Map.get resp.id w.pending) [
  | none ↦ (inner, none)
  | some sender ↦ (
    record inner { workers = Map.modify h (without_pending resp.id) inner.workers },
    some (sender, answer_of resp),
  )
]

-- A line of the worker's output that is a response: the request that it answers is pending no more.
unfoldable pub deliver : Text → RpcResponse → RouterInner → RouterInner × Option (ℕ × Answer)
deliver h resp inner = elim (Map.get h inner.workers) [
  | none ↦ (inner, none)
  | some w ↦ answer_pending h resp w inner
]

-- A worker that is used again is not idle.
abbrev pub touched : ℕ → WorkerProcess → WorkerProcess
touched now w = record w { last_active = now }

unfoldable pub touch_worker : Text → ℕ → RouterInner → RouterInner
touch_worker h now inner = record inner { workers = Map.modify h (touched now) inner.workers }
