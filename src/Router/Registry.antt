-- ===== src/Router/Registry.antt =====
-- router/mod.rs: the tables of `RouterInner`. Removing a worker (`close_worker` and the two ends of
-- the reader task) and reference tokens. The lock makes each function one step.
use ida_mcp.Base.{
  ℕ, ◌+◌, ◌%◌, ◌^◌, Bool, false, not, Option, none, some, List, [], ◌∷◌, ◌++◌, map, Text, text_eq,
  filter, any, if◌then◌else◌, HashMap, text_key,
}
use ida_mcp.Base.Map
use ida_mcp.Router.{WorkerKey, WorkerProcess, RouterInner, worker_key_key}

pub record WarmLease : Type 0 where
  pub handle : Text
  pub token : Text
  pub path : Text
  pub cache_path : Option Text
  pub tenant_id : Text
  pub pinned_at : ℕ
  pub last_hit : ℕ

-- The part of `RouterState` that the workers are about; the other fields have models of their own.
pub record RouterState : Type 0 where
  pub inner : RouterInner
  pub warm_pool : HashMap Text WarmLease

abbrev pub worker_key : Text → Text → WorkerKey
worker_key path tenant_id = record { tenant_id = tenant_id; path = path }

-- `+= 1` on a `u64`.
abbrev pub next_counter : ℕ → ℕ
next_counter n = (n + 1) % 2 ^ 64

-- A `HashSet` is a list.
abbrev pub set_insert : Text → List Text → List Text
set_insert t ts = if any (text_eq t) ts then ts else ts ++ t ∷ []

abbrev pub set_remove : Text → List Text → List Text
set_remove t = filter (λ u. not (text_eq t u))

abbrev pub first_key {ℓ} : {V : Type ℓ} → HashMap Text V → Option Text
first_key [] = none
first_key ((k, v) ∷ m) = some k

abbrev pub is_handle : Option Text → Text → Bool
is_handle none h = false
is_handle (some g) h = text_eq g h

abbrev pub remove_tokens : List Text → HashMap Text Text → HashMap Text Text
remove_tokens [] m = m
remove_tokens (t ∷ ts) m = remove_tokens ts (Map.remove t m)

unfoldable pub forget_path : WorkerProcess → HashMap WorkerKey Text → HashMap WorkerKey Text
forget_path w m = elim w.open_path [
  | none ↦ m
  | some path ↦ Map.remove (worker_key path w.tenant_id) m
]

unfoldable pub drop_tokens : Text → RouterInner → RouterInner
drop_tokens h inner = elim (Map.get h inner.ref_tokens) [
  | none ↦ inner
  | some tokens ↦ record inner {
    ref_tokens = Map.remove h inner.ref_tokens;
    token_to_handle = remove_tokens tokens inner.token_to_handle;
  }
]

unfoldable pub reset_active : Text → RouterInner → RouterInner
reset_active h inner =
    if is_handle inner.active h then record inner { active = first_key inner.workers } else inner

unfoldable pub remove_worker : Text → WorkerProcess → RouterInner → RouterInner
remove_worker h w inner = record inner {
  workers = Map.remove h inner.workers;
  path_to_handle = forget_path w inner.path_to_handle;
}

-- The senders of the requests that are answered with an error.
abbrev pub senders : Option WorkerProcess → List ℕ
senders none = []
senders (some w) = map (λ (id, sender). sender) w.pending

pub record Ended : Type 0 where
  pub inner : RouterInner
  pub answered : List ℕ

-- What `close_worker` and the end of a worker's output have in common.
unfoldable pub forget_worker : Text → RouterInner → RouterInner
forget_worker h inner = elim (Map.get h inner.workers) [
  | none ↦ inner
  | some w ↦ reset_active h (drop_tokens h (remove_worker h w inner))
]

-- `Ok(0)` in the reader task.
unfoldable pub reader_eof : Text → RouterInner → Ended
reader_eof h inner = record {
  inner = forget_worker h inner;
  answered = senders (Map.get h inner.workers);
}

-- `Err(e)` in the reader task: the tokens go and the active handle is set also for a worker that
-- has been removed before.
unfoldable pub reader_error : Text → RouterInner → Ended
reader_error h inner = record {
  inner = elim (Map.get h inner.workers) [
    | none ↦ reset_active h (drop_tokens h inner)
    | some w ↦ reset_active h (drop_tokens h (remove_worker h w inner))
  ];
  answered = senders (Map.get h inner.workers);
}

abbrev retain_other : Text → HashMap Text WarmLease → HashMap Text WarmLease
retain_other h = filter (λ (path, lease). not (text_eq lease.handle h))

pub record Closed : Type 0 where
  pub state : RouterState
  pub answered : List ℕ

unfoldable pub close_worker : Text → RouterState → Closed
close_worker h s = record {
  state = record { inner = forget_worker h s.inner; warm_pool = retain_other h s.warm_pool };
  answered = senders (Map.get h s.inner.workers);
}

unfoldable pub shutdown : List Text → RouterState → RouterState
shutdown [] s = s
shutdown (h ∷ hs) s = shutdown hs (close_worker h s).state

abbrev pub all_handles : RouterInner → List Text
all_handles inner = map (λ (h, w). h) inner.workers

unfoldable pub shutdown_all : RouterState → RouterState
shutdown_all s = shutdown (all_handles s.inner) s
