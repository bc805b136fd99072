-- ===== src/Router/Config.antt =====
-- router/mod.rs: `RouterConfig` and its reading from the environment. The environment, the number
-- of processors and the process's number are arguments; `node_id` is in `node_id_from_env`.
use ida_mcp.Base.{
  ℕ, ◌-◌, ◌*◌, ◌/◌, ◌<◌, ◌≡◌, ◌≢◌, ◌⊎◌, inl, inr, Option-cases, text_discrete, refl, ◌^◌, min, max,
  Option, none, some, ◌∷◌, ◌++◌, Text, text, decimal, parse_u64, unwrap_or, ltb, if◌then◌else◌,
  arith,
}

pub record RouterConfig : Type 0 where
  pub max_workers : ℕ
  pub max_workers_per_tenant : ℕ
  pub max_pending_per_worker : ℕ
  pub max_pending_per_tenant : ℕ
  pub max_concurrent_spawns : ℕ
  pub max_warm_workers : ℕ
  pub max_queued_prewarms : ℕ
  pub max_active_prewarms : ℕ
  pub max_prewarms_per_tenant : ℕ
  pub max_idb_cache_bytes : ℕ
  pub max_response_cache_bytes : ℕ
  pub max_queued_tasks : ℕ
  pub max_active_tasks : ℕ
  pub max_tasks_per_tenant : ℕ
  pub node_id : Text

-- The variables of the environment that are set, with their texts.
abbrev pub Env : Type 0
Env = Text → Option Text

abbrev and_then : Option Text → Option ℕ
and_then none = none
and_then (some v) = parse_u64 v

abbrev positive : Option ℕ → Option ℕ
positive none = none
positive (some v) = if ltb 0 v then some v else none

-- `var(name).ok().and_then(parse).filter(|v| *v > 0).unwrap_or(default)`.
unfoldable pub positive_or : Env → Text → ℕ → ℕ
positive_or env name default = unwrap_or (positive (and_then (env name))) default

-- The same with no filter, as the two sizes in bytes are read.
unfoldable pub value_or : Env → Text → ℕ → ℕ
value_or env name default = unwrap_or (and_then (env name)) default

abbrev pub gib : ℕ
gib = 1024 * 1024 * 1024

-- `saturating_mul` on a `usize`.
abbrev pub saturating_mul : ℕ → ℕ → ℕ
saturating_mul a b = min (a * b) (2 ^ 64 - 1)

unfoldable pub node_id_from_env : Env → ℕ → Text
node_id_from_env env pid =
    unwrap_or (env (text "IDA_CLI_NODE_ID"))
      (unwrap_or (env (text "HOSTNAME")) (text "ida-cli") ++ b'-' ∷ decimal pid)

unfoldable pub from_env : Env → Option ℕ → ℕ → RouterConfig
from_env env available_parallelism pid =
    let cpu_hint = unwrap_or available_parallelism 4 in
    let default_max_workers = max (saturating_mul cpu_hint 8) 16 in
    let max_workers = positive_or env (text "IDA_CLI_MAX_WORKERS") default_max_workers in
    record {
      max_workers = max_workers;
      max_workers_per_tenant =
          positive_or env (text "IDA_CLI_MAX_WORKERS_PER_TENANT") (max (default_max_workers / 4) 4);
      max_pending_per_worker = positive_or env (text "IDA_CLI_MAX_PENDING_PER_WORKER") 64;
      max_pending_per_tenant = positive_or env (text "IDA_CLI_MAX_PENDING_PER_TENANT") 512;
      max_concurrent_spawns =
          positive_or env (text "IDA_CLI_MAX_CONCURRENT_SPAWNS") (min (max max_workers 1) 4);
      max_warm_workers = positive_or env (text "IDA_CLI_MAX_WARM_WORKERS") 16;
      max_queued_prewarms = positive_or env (text "IDA_CLI_MAX_QUEUED_PREWARMS") 256;
      max_active_prewarms = positive_or env (text "IDA_CLI_MAX_ACTIVE_PREWARMS") 4;
      max_prewarms_per_tenant = positive_or env (text "IDA_CLI_MAX_PREWARMS_PER_TENANT") 2;
      max_idb_cache_bytes = value_or env (text "IDA_CLI_MAX_IDB_CACHE_BYTES") (50 * gib);
      max_response_cache_bytes = value_or env (text "IDA_CLI_MAX_RESPONSE_CACHE_BYTES") (2 * gib);
      max_queued_tasks = positive_or env (text "IDA_CLI_MAX_QUEUED_TASKS") 512;
      max_active_tasks = positive_or env (text "IDA_CLI_MAX_ACTIVE_TASKS") 16;
      max_tasks_per_tenant = positive_or env (text "IDA_CLI_MAX_TASKS_PER_TENANT") 8;
      node_id = node_id_from_env env pid;
    }

positive_or_pos :
    (env : Env) (name : Text) (default : ℕ) → 0 < default → 0 < positive_or env name default
unfolding positive_or
positive_or_pos env name default h = ground arith

-- Every limit on a number of workers, requests or tasks lets at least one through.
pub record IsUsable (c : RouterConfig) : Type 0 where
  pub workers : 0 < c.max_workers
  pub workers_per_tenant : 0 < c.max_workers_per_tenant
  pub pending_per_worker : 0 < c.max_pending_per_worker
  pub pending_per_tenant : 0 < c.max_pending_per_tenant
  pub concurrent_spawns : 0 < c.max_concurrent_spawns
  pub warm_workers : 0 < c.max_warm_workers
  pub queued_prewarms : 0 < c.max_queued_prewarms
  pub active_prewarms : 0 < c.max_active_prewarms
  pub prewarms_per_tenant : 0 < c.max_prewarms_per_tenant
  pub queued_tasks : 0 < c.max_queued_tasks
  pub active_tasks : 0 < c.max_active_tasks
  pub tasks_per_tenant : 0 < c.max_tasks_per_tenant

value_or_zero :
    (env : Env) (name : Text) (default : ℕ)
    → (env name ≢ some (text "0")) ⊎ (value_or env name default ≡ 0)
unfolding value_or parse_u64
value_or_zero env name default = elim (Option-cases (env name)) [
  | inl unset ↦ inl (λ e. ground arith)
  | inr (v, e) ↦ elim (text_discrete v (text "0")) [
    | yes zero_text ↦ inr (rw e (rw zero_text refl))
    | no other ↦ inl (λ f. other (ground arith))
  ]
]

-- The two sizes in bytes, which are read with no filter, are zero where the variable says so.
pub record MayBeZero (env : Env) (c : RouterConfig) : Type 0 where
  pub idb_cache :
      (env (text "IDA_CLI_MAX_IDB_CACHE_BYTES") ≢ some (text "0")) ⊎ (c.max_idb_cache_bytes ≡ 0)
  pub response_cache :
      (env (text "IDA_CLI_MAX_RESPONSE_CACHE_BYTES") ≢ some (text "0"))
      ⊎ (c.max_response_cache_bytes ≡ 0)

-- No environment makes a configuration in which the limit on workers, pending requests,
-- spawns, warm workers, prewarms or tasks is zero; the two limits in bytes have no such guard,
-- and are zero where their variable is 0.
pub from_env-IsUsable :
    (env : Env) (cpus : Option ℕ) (pid : ℕ)
    → IsUsable (from_env env cpus pid) × MayBeZero env (from_env env cpus pid)
unfolding from_env
from_env-IsUsable env cpus pid = (
  grind (arith, positive_or_pos),
  record {
    idb_cache = value_or_zero env (text "IDA_CLI_MAX_IDB_CACHE_BYTES") (50 * gib);
    response_cache = value_or_zero env (text "IDA_CLI_MAX_RESPONSE_CACHE_BYTES") (2 * gib);
  },
)
