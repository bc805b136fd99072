-- ===== src/Router/Prewarm.antt =====
-- router/mod.rs: `prewarm_path_with_options`, with no other task between its critical sections. Whether
-- the file is there and what the store has cached are arguments. No answer: the call never returns.
use ida_mcp.Base.{
  ℕ, Bool, true, false, Option, none, some, ◌++◌, Text, text, text_key, is_some, ◌==◌,
  if◌then◌else◌,
}
use ida_mcp.Base.Map
use ida_mcp.Json.{object, end}
use ida_mcp.Router.{Result, ok, err, invalid_path, worker_key_key, ToolError}
use ida_mcp.Router.Config.{RouterConfig}
use ida_mcp.Router.Ensure.{
  Exchange, route_request, Opening, ensure_worker_with_ref_idb, close_by_path,
}
use ida_mcp.Router.Refs.{release_ref_token}
use ida_mcp.Router.Registry.{RouterState}
use ida_mcp.Router.Warm.{Outcome, returns, stuck, install_warm_lease}

pub record Prewarming : Type 0 where
  pub exists : Bool
  pub keep_warm : Bool
  pub opening : Opening
  pub asked : Exchange
  pub cached_after : Option Text
  pub leased_at : ℕ
  pub closing : Exchange
  pub stopping : Exchange

-- What is reported beside what the store and the worker say.
pub record Prewarmed : Type 0 where
  pub already_open : Bool
  pub kept_warm : Bool
  pub worker_closed : Bool

abbrev pub or_problem :
    Prewarmed → RouterState × Option ToolError → RouterState × Option (Result Prewarmed)
or_problem p (state, none) = (state, some (ok p))
or_problem p (state, some e) = (state, some (err e))

-- The last reference closes the worker that was opened for the prewarming.
abbrev pub close_if_unused :
    RouterConfig
    → Prewarming
    → RouterState
    → Option (Text × ℕ)
    → RouterState × Option (Result Prewarmed)
close_if_unused config x state none =
    (state, some (ok (record { already_open = false; kept_warm = false; worker_closed = false })))
close_if_unused config x state (some (h, remaining)) =
    if remaining == 0
    then or_problem (record { already_open = false; kept_warm = false; worker_closed = true })
        (close_by_path config x.opening.spawning.key x.closing x.stopping state)
    else (
      state,
      some (ok (record { already_open = false; kept_warm = false; worker_closed = false })),
    )

-- There is an answer only if the installation of the lease returns.
abbrev pub warm_answer : Bool → Outcome → RouterState × Option (Result Prewarmed)
warm_answer already_open (stuck s) = (s, none)
warm_answer already_open (returns s) =
    (s, some (ok (record { already_open = already_open; kept_warm = true; worker_closed = false })))

-- What becomes of the reference: a lease, or it is given back. The first test is whether to keep the
-- worker warm, the second whether it was open before.
unfoldable pub settle :
    RouterConfig
    → Prewarming
    → Bool
    → Bool
    → Text
    → Text
    → RouterState
    → RouterState × Option (Result Prewarmed)
unfolding install_warm_lease close_by_path
settle config x true already_open h token state = warm_answer already_open (
    install_warm_lease config x.opening.spawning.key.path h token x.opening.spawning.key.tenant_id
      x.cached_after x.leased_at state)
settle config x false false h token state =
    let (inner, released) = release_ref_token token state.inner in
    close_if_unused config x (record state { inner = inner }) released
settle config x false true h token state = (
  record state { inner = (release_ref_token token state.inner).0 },
  some (ok (record { already_open = true; kept_warm = false; worker_closed = false })),
)

abbrev pub after_ensure :
    RouterConfig
    → Prewarming
    → Bool
    → RouterState × Result (Text × Text)
    → RouterState × Option (Result Prewarmed)
after_ensure config x already_open (state, err e) = (state, some (err e))
after_ensure config x already_open (state, ok (h, token)) =
    settle config x x.keep_warm already_open h token (record state {
      inner =
          (route_request config (some h) (text "get_database_info") (object end) x.asked
            state.inner).0;
    })

-- The early return for a file that is not there.
abbrev pub if_exists :
    Prewarming
    → Bool
    → RouterState
    → RouterState × Option (Result Prewarmed)
    → RouterState × Option (Result Prewarmed)
if_exists x true state done = done
if_exists x false state done =
    (state, some (err (invalid_path (text "File not found: " ++ x.opening.spawning.key.path))))

unfoldable pub prewarm_path_with_options :
    RouterConfig → Prewarming → RouterState → RouterState × Option (Result Prewarmed)
unfolding ensure_worker_with_ref_idb settle route_request
prewarm_path_with_options config x state = if_exists x x.exists state (
    after_ensure config x (is_some (Map.get x.opening.spawning.key state.inner.path_to_handle))
      (ensure_worker_with_ref_idb config x.opening state))
