-- ===== src/Queue/Jobs.antt =====
-- router/mod.rs: `enqueue_route_task`, `drive_route_queue` and `cancel_task`. A job has an entry in the
-- task registry from the moment it is queued; its request runs outside the lock.
use ida_mcp.Base.{
  ℕ, zero, suc, Bool, true, false, not, ◌&&◌, Option, none, some, List, [], ◌∷◌, ◌++◌, Text, text,
  text_eq, length, is_some, leb, if◌then◌else◌, HashMap, text_key,
}
use ida_mcp.Base.Map
use ida_mcp.Json.{Value, bool, number, string, object, field, end}
use ida_mcp.Queue.{Queued, push_sorted, remove_first, active_for, count_start, count_end, next_task}
use ida_mcp.Router.{Result, ok, err, busy}
use ida_mcp.Router.Config.{RouterConfig}
use ida_mcp.Router.Tenant.{normalize_tenant}
use ida_mcp.Tasks
use ida_mcp.Tasks.{Registry, Now, Created, create_with_key, created_id}
use ida_mcp.Tasks.Updates.{update_message, merge_meta, complete, fail, cancel}

pub record QueuedRouteTask : Type 0 where
  pub task_id : Text
  pub path : Text
  pub method : Text
  pub params : Value
  pub tenant_id : Text
  pub priority : ℕ
  pub enqueued_at : ℕ

pub record ActiveRouteTask : Type 0 where
  pub task_id : Text
  pub path : Text
  pub method : Text
  pub tenant_id : Text
  pub priority : ℕ
  pub started_at : ℕ

pub record RouteQueueState : Type 0 where
  pub queued : List QueuedRouteTask
  pub active : HashMap Text ActiveRouteTask
  pub tenant_active : HashMap Text ℕ

-- The queue and the task registry of the router.
pub record Jobs : Type 0 where
  pub queue : RouteQueueState
  pub task_registry : Registry

instance abbrev pub route_queued : Queued QueuedRouteTask
route_queued = record {
  tenant_of = λ task. task.tenant_id;
  priority_of = λ task. task.priority;
  enqueued_of = λ task. task.enqueued_at;
}

-- The arguments of `enqueue_route_task`.
pub record RouteTask : Type 0 where
  pub path : Text
  pub method : Text
  pub params : Value
  pub tenant_id : Option Text
  pub priority : ℕ
  pub dedupe_key : Option Text

abbrev pub route_meta : RouteTask → Value
route_meta t = object (
    field (text "tenant_id") (string (normalize_tenant t.tenant_id)) (
      field (text "path") (string t.path) (
        field (text "method") (string t.method)
          (field (text "priority") (number t.priority) (field (text "remote") (bool false) end)))))

abbrev pub queued_task : Text → RouteTask → Now → QueuedRouteTask
queued_task id t now = record {
  task_id = id;
  path = t.path;
  method = t.method;
  params = t.params;
  tenant_id = normalize_tenant t.tenant_id;
  priority = t.priority;
  enqueued_at = now.instant;
}

-- The creation of the task, or the running one of the key, and its metadata.
unfoldable pub register_task : RouteTask → Now → Registry → Registry × Text
register_task t now r =
    let (r', created) =
      create_with_key (text "job") t.dedupe_key (text "Queued " ++ t.method) now r in
    (merge_meta (created_id created) (route_meta t) now r', created_id created)

unfoldable pub queue_task : Text → RouteTask → Now → Jobs → Jobs
queue_task id t now s =
    if is_some (Tasks.get id s.task_registry) && not (is_some (Map.get id s.queue.active))
    then record s {
      queue = record (s.queue) { queued = push_sorted (queued_task id t now) s.queue.queued };
    }
    else s

-- Up to the drop of the lock; the result is the identifier of the task, or that the queue is busy.
unfoldable pub accept_route_task : RouterConfig → RouteTask → Now → Jobs → Jobs × Result Text
unfolding register_task queue_task
accept_route_task config t now s =
    if leb config.max_queued_tasks (length s.queue.queued)
    then (s, err busy)
    else if leb config.max_tasks_per_tenant
        (active_for (normalize_tenant t.tenant_id) s.queue.tenant_active)
    then (s, err busy)
    else let (r', id) = register_task t now s.task_registry in
      (queue_task id t now (record s { task_registry = r' }), ok id)

abbrev pub started_route : QueuedRouteTask → ℕ → ActiveRouteTask
started_route task now = record {
  task_id = task.task_id;
  path = task.path;
  method = task.method;
  tenant_id = task.tenant_id;
  priority = task.priority;
  started_at = now;
}

abbrev pub with_started :
    QueuedRouteTask → List QueuedRouteTask → ℕ → RouteQueueState → RouteQueueState
with_started task rest now q = record {
  queued = rest;
  tenant_active = count_start task.tenant_id q.tenant_active;
  active = Map.insert task.task_id (started_route task now) q.active;
}

unfoldable pub start_route :
    RouterConfig → ℕ → RouteQueueState → Option (QueuedRouteTask × RouteQueueState)
unfolding next_task
start_route config now q =
    elim (next_task (length q.active) config.max_active_tasks config.max_tasks_per_tenant
      q.tenant_active q.queued) [
        | none ↦ none
        | some (task, rest) ↦ some (task, with_started task rest now q)
      ]

-- The loop of `drive_route_queue`, and the tasks that it starts.
unfoldable pub drive_loop : ℕ → RouterConfig → Now → Jobs → Jobs × List QueuedRouteTask
drive_loop zero config now s = (s, [])
drive_loop (suc fuel) config now s = elim (start_route config now.instant s.queue) [
  | none ↦ (s, [])
  | some (task, q') ↦
      let (after, tasks) = drive_loop fuel config now (record {
        queue = q';
        task_registry =
            update_message task.task_id (text "Running " ++ task.method) now s.task_registry;
      }) in
      (after, task ∷ tasks)
]

unfoldable pub drive_route_queue : RouterConfig → Now → Jobs → Jobs × List QueuedRouteTask
unfolding drive_loop
drive_route_queue config now s = drive_loop (length s.queue.queued) config now s

-- The queue is driven only after a job has been accepted, and by a later reading of the clock. The
-- answer comes with the jobs that the loop starts, whose requests run on tasks of their own.
abbrev pub then_drive :
    RouterConfig → Now → Jobs × Result Text → Jobs × Result (Text × List QueuedRouteTask)
then_drive config later (s, err e) = (s, err e)
then_drive config later (s, ok id) =
    let (after, tasks) = drive_route_queue config later s in (after, ok (id, tasks))

unfoldable pub enqueue_route_task :
    RouterConfig → RouteTask → Now → Now → Jobs → Jobs × Result (Text × List QueuedRouteTask)
unfolding accept_route_task drive_route_queue
enqueue_route_task config t now later s = then_drive config later (accept_route_task config t now s)

-- What a job ends with: the value of its request, or the text of the error.
pub data JobResult : Type 0 where
  value : Value → JobResult
  problem : Text → JobResult

unfoldable pub end_queued : QueuedRouteTask → RouteQueueState → RouteQueueState
unfolding count_end
end_queued task q = record q {
  active = Map.remove task.task_id q.active;
  tenant_active = count_end task.tenant_id q.tenant_active;
}

unfoldable pub end_route : QueuedRouteTask → JobResult → Now → Jobs → Jobs
unfolding end_queued
end_route task (value v) now s = record {
  queue = end_queued task s.queue;
  task_registry = complete task.task_id v now s.task_registry;
}
end_route task (problem e) now s = record {
  queue = end_queued task s.queue;
  task_registry = fail task.task_id e now s.task_registry;
}

-- The branch of `cancel_task` for a task that the registry does not cancel.
unfoldable pub cancel_queued : Text → Now → Jobs → Jobs × Bool
cancel_queued id now s = elim (remove_first (λ task. text_eq task.task_id id) s.queue.queued) [
  | none ↦ (s, false)
  | some (task, rest) ↦ (
    record {
      queue = record (s.queue) { queued = rest };
      task_registry = fail id (text "Cancelled before execution") now s.task_registry;
    },
    true,
  )
]

unfoldable pub cancel_task : Text → Now → Jobs → Jobs × Bool
cancel_task id now s =
    let cancelled = cancel id now s.task_registry in
    if cancelled.done
    then (record s { task_registry = cancelled.after }, true)
    else cancel_queued id now s
