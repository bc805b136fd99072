-- ===== src/Router.antt =====
-- router/mod.rs: the state that the router keeps about its worker processes. A worker's process,
-- its standard input and the channels of its pending requests are numbers: the model says which
-- are used, and leaves what they do to the operating system and to tokio.
pub mod Answers
pub mod Bounds
pub mod Callee
pub mod Close
pub mod Config
pub mod Ensure
pub mod Entry
pub mod Evict
pub mod Frames
pub mod Invariant
pub mod Keeping
pub mod Lease
pub mod Opened
pub mod Numbered
pub mod Numbers
pub mod Paths
pub mod Prewarm
pub mod Reach
pub mod Refs
pub mod Registry
pub mod Resolve
pub mod Route
pub mod RunTests
pub mod Runs
pub mod Spawn
pub mod Steps
pub mod Sweep
pub mod Tenant
pub mod Tests
pub mod TrafficTests
pub mod Tokens
pub mod Warm
use ida_mcp.Base.{ℕ, ◌≡◌, refl, ◌⊎◌, inl, inr, Option, List, Text, text_discrete, HashMap, Key}

pub data WorkerBackendKind : Type 0 where
  native_linked idat_compat : WorkerBackendKind

pub record WorkerKey : Type 0 where
  pub tenant_id : Text
  pub path : Text

unfoldable pub worker_key_discrete : Discrete WorkerKey
worker_key_discrete = hlevel text_discrete

instance abbrev pub worker_key_key : Key WorkerKey
worker_key_key = record { key_discrete = worker_key_discrete }

pub record WorkerProcess : Type 0 where
  pub backend : WorkerBackendKind
  pub tenant_id : Text
  pub child : ℕ
  pub writer : ℕ
  pub pending : HashMap Text ℕ
  pub close_token : Option Text
  pub open_path : Option Text
  pub last_active : ℕ

pub record RouterInner : Type 0 where
  pub workers : HashMap Text WorkerProcess
  pub active : Option Text
  pub path_to_handle : HashMap WorkerKey Text
  pub token_to_handle : HashMap Text Text
  pub ref_tokens : HashMap Text (List Text)
  pub req_counter : ℕ
  pub exe_path : Text

pub data ToolError : Type 0 where
  no_database_open decompiler_unavailable busy worker_closed : ToolError
  database_already_open open_failed database_locked invalid_address : Text → ToolError
  invalid_path invalid_params invalid_tool_category invalid_tool_name : Text → ToolError
  function_name_not_found ida_error not_supported : Text → ToolError
  address_out_of_range function_not_found timeout : ℕ → ToolError

pub data Result {ℓ} (A : Type ℓ) : Type ℓ where
  ok : A → Result A
  err : ToolError → Result A

pub Result-cases {ℓ} :
    {A : Type ℓ} (x : Result A) → ((a : A) × (x ≡ ok a)) ⊎ ((e : ToolError) × (x ≡ err e))
Result-cases (ok a) = inl (a, refl)
Result-cases (err e) = inr (e, refl)
