-- ===== src/Queue/Limits.antt =====
-- router/mod.rs: the queue of jobs stays in order and within the limits of the configuration.
use ida_mcp.Base.{
  ℕ, zero, suc, ◌≤◌, ◌<◌, ◌≡◌, subst, inl, inr, Bool, not, ◌&&◌, none, some, List, [], ◌∷◌, ◌++◌,
  Text, text, text_eq, is_some, length, leb, ltb, Bool-cases, Option-cases, arith, text_key,
}
use ida_mcp.Base.Map
use ida_mcp.Queue.{active_for, next_task, remove_first, goes_before}
use ida_mcp.Queue.Jobs.{
  QueuedRouteTask, RouteQueueState, RouteTask, Jobs, JobResult, value, problem, route_queued,
  queued_task, register_task, queue_task, accept_route_task, enqueue_route_task, then_drive,
  drive_loop, drive_route_queue, started_route, with_started, start_route, end_queued, end_route,
  cancel_queued, cancel_task,
}
use ida_mcp.Queue.Order.{
  IsInOrder, push_sorted-IsInOrder, length-push_sorted, remove_first-Taken, IsSorted-remove_first,
  active_for-count_start, active_for-count_end,
}
use ida_mcp.Router.{Result, ok, err}
use ida_mcp.Router.Config.{RouterConfig}
use ida_mcp.Router.Tenant.{normalize_tenant}
use ida_mcp.Tasks
use ida_mcp.Tasks.{Now, Registry}
use ida_mcp.Tasks.Updates.{cancel, update_message}

pub record IsWithin (config : RouterConfig) (q : RouteQueueState) : Type 0 where
  pub in_order : IsInOrder q.queued
  pub queued_bound : length q.queued ≤ config.max_queued_tasks
  pub active_bound : length q.active ≤ config.max_active_tasks
  pub tenant_bound : (t : Text) → active_for t q.tenant_active ≤ config.max_tasks_per_tenant

-- The critical sections on the jobs of the router.
pub data Job : Type 0 where
  enqueues : RouteTask → Now → Job
  starts : Job
  finishes : QueuedRouteTask → JobResult → Job
  cancels : Text → Job

abbrev start_jobs : RouterConfig → Now → Jobs → Jobs
start_jobs config now s = elim (start_route config now.instant s.queue) [
  | none ↦ s
  | some (task, q') ↦ record {
    queue = q';
    task_registry =
        update_message task.task_id (text "Running " ++ task.method) now s.task_registry;
  }
]

unfoldable pub job_step : RouterConfig → Now → Job → Jobs → Jobs
job_step config now (enqueues t later) s = (enqueue_route_task config t now later s).0
job_step config now starts s = start_jobs config now s
job_step config now (finishes task result) s = end_route task result now s
job_step config now (cancels id) s = (cancel_task id now s).0

unfoldable pub run_jobs : RouterConfig → List (Now × Job) → Jobs → Jobs
run_jobs config [] s = s
run_jobs config ((now, job) ∷ jobs) s = run_jobs config jobs (job_step config now job s)

module _ (config : RouterConfig) (s : Jobs) (v : IsWithin config s.queue) where
  queue_task-IsWithin :
      (id : Text) (t : RouteTask) (now : Now) (r : Registry)
      → length s.queue.queued < config.max_queued_tasks
      → IsWithin config (queue_task id t now (record s { task_registry = r })).queue
  unfolding queue_task
  queue_task-IsWithin id t now r room =
      elim (Bool-cases (is_some (Tasks.get id r) && not (is_some (Map.get id s.queue.active)))) [
        | inl pushes ↦ rw pushes (record {
          in_order = push_sorted-IsInOrder (queued_task id t now) s.queue.queued;
          queued_bound =
              omega (arith, room, length-push_sorted (queued_task id t now) s.queue.queued);
          active_bound = v.active_bound;
          tenant_bound = v.tenant_bound;
        })
        | inr skips ↦ rw skips v
      ]

  accept-IsWithin :
      (t : RouteTask) (now : Now) → IsWithin config (accept_route_task config t now s).0.queue
  unfolding accept_route_task
  accept-IsWithin t now = elim (Bool-cases (leb config.max_queued_tasks (length s.queue.queued))) [
    | inl full ↦ rw full v
    | inr room ↦
        elim (Bool-cases (
          leb config.max_tasks_per_tenant
            (active_for (normalize_tenant t.tenant_id) s.queue.tenant_active))) [
              | inl taken ↦ rw (room, taken) v
              | inr free ↦
                  rw (room, free)
                    (queue_task-IsWithin (register_task t now s.task_registry).1 t now
                      (register_task t now s.task_registry).0 (ground arith))
            ]
  ]

  taken-IsWithin :
      (p : QueuedRouteTask → Bool) (task : QueuedRouteTask) (rest : List QueuedRouteTask)
      → remove_first p s.queue.queued ≡ some (task, rest)
      → IsInOrder rest × (length rest ≤ config.max_queued_tasks)
  taken-IsWithin p task rest found =
      let t = remove_first-Taken p s.queue.queued task rest found in
      (
        (IsSorted-remove_first goes_before p s.queue.queued task rest v.in_order found).0,
        omega (arith, v.queued_bound, t.shorter),
      )

  with_started-IsWithin :
      (task : QueuedRouteTask) (rest : List QueuedRouteTask) (now : ℕ)
      → length s.queue.active < config.max_active_tasks
      → remove_first
          (λ task.
            ltb (active_for task.tenant_id s.queue.tenant_active) config.max_tasks_per_tenant)
          s.queue.queued
        ≡ some (task, rest)
      → IsWithin config (with_started task rest now s.queue)
  with_started-IsWithin task rest now free e =
      let t = remove_first-Taken _ s.queue.queued task rest e in
      let (in_order, bound) = taken-IsWithin _ task rest e in
      let a = started_route task now in
      record {
        in_order = in_order;
        queued_bound = bound;
        active_bound = omega (arith, free, Map.length-insert_le task.task_id a s.queue.active);
        tenant_bound = λ u. ground (
          arith,
          v.tenant_bound u,
          active_for-count_start u task.tenant_id s.queue.tenant_active,
          t.passes,
        );
      }

  start_route-IsWithin :
      (now : ℕ) (task : QueuedRouteTask) (after : RouteQueueState)
      → start_route config now s.queue ≡ some (task, after)
      → IsWithin config after
  unfolding start_route next_task
  start_route-IsWithin now task after started =
      let room : QueuedRouteTask → Bool =
        λ task. ltb (active_for task.tenant_id s.queue.tenant_active) config.max_tasks_per_tenant in
      elim (Bool-cases (leb config.max_active_tasks (length s.queue.active))) [
        | inl full ↦ absurd (ground arith)
        | inr free ↦ elim (Option-cases (remove_first room s.queue.queued)) [
          | inl e ↦ absurd (ground arith)
          | inr ((first, rest), e) ↦
              let same : with_started first rest now s.queue ≡ after = ground arith in
              subst (IsWithin config) same (with_started-IsWithin first rest now (ground arith) e)
        ]
      ]

  start-IsWithin : (now : Now) → IsWithin config (start_jobs config now s).queue
  start-IsWithin now = elim (Option-cases (start_route config now.instant s.queue)) [
    | inl e ↦ rw (e, start_jobs) v
    | inr ((task, after), e) ↦ rw (e, start_jobs) (start_route-IsWithin now.instant task after e)
  ]

  end_queued-IsWithin : (task : QueuedRouteTask) → IsWithin config (end_queued task s.queue)
  unfolding end_queued
  end_queued-IsWithin task = record {
    in_order = v.in_order;
    queued_bound = v.queued_bound;
    active_bound = omega (arith, v.active_bound, Map.length-remove_le task.task_id s.queue.active);
    tenant_bound = λ u.
        ground
          (arith, v.tenant_bound u, active_for-count_end u task.tenant_id s.queue.tenant_active);
  }

  cancel-IsWithin : (id : Text) (now : Now) → IsWithin config (cancel_task id now s).0.queue
  unfolding cancel_task cancel_queued
  cancel-IsWithin id now = elim (Bool-cases (cancel id now s.task_registry).done) [
    | inl done ↦ rw done v
    | inr other ↦
        elim (Option-cases (remove_first (λ task. text_eq task.task_id id) s.queue.queued)) [
          | inl e ↦ rw (other, e, cancel_queued) v
          | inr ((task, rest), e) ↦
              let (in_order, bound) =
                taken-IsWithin (λ task. text_eq task.task_id id) task rest e in
              rw (other, e, cancel_queued)
                (record {
                  in_order = in_order;
                  queued_bound = bound;
                  active_bound = v.active_bound;
                  tenant_bound = v.tenant_bound;
                })
        ]
  ]

drive_loop-IsWithin :
    (config : RouterConfig) (now : Now) (fuel : ℕ) (s : Jobs)
    → IsWithin config s.queue
    → IsWithin config (drive_loop fuel config now s).0.queue
unfolding drive_loop
drive_loop-IsWithin config now zero s v = v
drive_loop-IsWithin config now (suc fuel) s v =
    elim (Option-cases (start_route config now.instant s.queue)) [
      | inl e ↦ rw (e, drive_loop) v
      | inr ((task, q), e) ↦
          rw (e, drive_loop)
            (drive_loop-IsWithin config now fuel _
              (start_route-IsWithin config s v now.instant task q e))
    ]

then_drive-IsWithin :
    (config : RouterConfig) (later : Now) (p : Jobs × Result Text)
    → IsWithin config p.0.queue
    → IsWithin config (then_drive config later p).0.queue
unfolding drive_route_queue
then_drive-IsWithin config later (s, err e) v = v
then_drive-IsWithin config later (s, ok id) v =
    drive_loop-IsWithin config later (length s.queue.queued) s v

pub job_step-IsWithin :
    (config : RouterConfig) (now : Now) (job : Job) (s : Jobs)
    → IsWithin config s.queue
    → IsWithin config (job_step config now job s).queue
unfolding job_step end_route enqueue_route_task
job_step-IsWithin config now (enqueues t later) s v =
    then_drive-IsWithin config later (accept_route_task config t now s)
      (accept-IsWithin config s v t now)
job_step-IsWithin config now starts s v = start-IsWithin config s v now
job_step-IsWithin config now (finishes task (value x)) s v = end_queued-IsWithin config s v task
job_step-IsWithin config now (finishes task (problem x)) s v = end_queued-IsWithin config s v task
job_step-IsWithin config now (cancels id) s v = cancel-IsWithin config s v id now

-- From a queue of jobs in order and within its limits, any sequence of enqueuing, starting,
-- finishing and cancelling leaves it in order, with the numbers of queued and active jobs and
-- the count of each tenant within their limits.
pub run_jobs-IsWithin :
    (config : RouterConfig) (jobs : List (Now × Job)) (s : Jobs)
    → IsWithin config s.queue
    → IsWithin config (run_jobs config jobs s).queue
unfolding run_jobs
run_jobs-IsWithin config [] s v = v
run_jobs-IsWithin config ((now, job) ∷ jobs) s v =
    run_jobs-IsWithin config jobs (job_step config now job s) (job_step-IsWithin config now job s v)
