-- ===== src/Queue/Waiting.antt =====
-- router/mod.rs: the jobs that the loop of `drive_route_queue` does not start.
use ida_mcp.Base.{
  ℕ, zero, suc, ◌≤◌, ◌≡◌, refl, sym, ap, subst, inl, inr, Bool, true, false, none, some, List, [],
  ◌∷◌, ◌++◌, Text, text, text_eq, is_some, length, count, leb, ltb, ◌+◌, Bool-cases, Option-cases,
  arith, HashMap, text_key,
}
use ida_mcp.Base.Map
use ida_mcp.Queue.{active_for, next_task, remove_first}
use ida_mcp.Queue.Jobs.{
  QueuedRouteTask, RouteQueueState, Jobs, route_queued, started_route, with_started, start_route,
  drive_loop, drive_route_queue,
}
use ida_mcp.Queue.Order.{remove_first-Taken}
use ida_mcp.Router.Config.{RouterConfig}
use ida_mcp.Tasks.{TaskEntry, Now, running}
use ida_mcp.Tasks.Updates.{update_message}

abbrev pub is_task : Text → QueuedRouteTask → Bool
is_task id task = text_eq task.task_id id

pub record Waits (id : Text) (s : Jobs) : Type 0 where
  pub queued : 1 ≤ count (is_task id) s.queue.queued
  pub entry : TaskEntry
  pub there : Map.get id s.task_registry.entries ≡ some entry
  pub is_run : entry.state.status ≡ running

-- What is known of a started job.
record Started (q : RouteQueueState) (task : QueuedRouteTask) (now : ℕ) (after : RouteQueueState)
    : Type 0 where
  rest : List QueuedRouteTask
  same : with_started task rest now q ≡ after
  split :
      (id : Text)
      → count (is_task id) q.queued ≡ count (is_task id) (task ∷ []) + count (is_task id) rest

start_route-Started :
    (config : RouterConfig) (now : ℕ) (q : RouteQueueState) (task : QueuedRouteTask)
    (after : RouteQueueState)
    → start_route config now q ≡ some (task, after)
    → Started q task now after
unfolding start_route next_task
start_route-Started config now q task after started =
    let room : QueuedRouteTask → Bool =
      λ task. ltb (active_for task.tenant_id q.tenant_active) config.max_tasks_per_tenant in
    elim (Bool-cases (leb config.max_active_tasks (length q.active))) [
      | inl full ↦ absurd (ground arith)
      | inr free ↦ elim (Option-cases (remove_first room q.queued)) [
        | inl e ↦ absurd (ground arith)
        | inr ((first, rest), e) ↦
            let t = remove_first-Taken room q.queued first rest e in
            let same : with_started first rest now q ≡ after = ground arith in
            let it : first ≡ task = ground arith in
            record {
              rest = rest;
              same = subst (λ x. with_started x rest now q ≡ after) it same;
              split = λ id.
                  subst
                    (λ x.
                      count (is_task id) q.queued
                      ≡ count (is_task id) (x ∷ []) + count (is_task id) rest)
                    it (t.split (is_task id));
            }
      ]
    ]

abbrev driven : QueuedRouteTask → RouteQueueState → Now → Jobs → Jobs
driven task q now s = record {
  queue = q;
  task_registry = update_message task.task_id (text "Running " ++ task.method) now s.task_registry;
}

-- What is active stays so.
drive_loop-active :
    (id : Text) (fuel : ℕ) (config : RouterConfig) (now : Now) (s : Jobs)
    → is_some (Map.get id s.queue.active) ≡ true
    → is_some (Map.get id (drive_loop fuel config now s).0.queue.active) ≡ true
unfolding drive_loop
drive_loop-active id zero config now s h = h
drive_loop-active id (suc fuel) config now s h =
    elim (Option-cases (start_route config now.instant s.queue)) [
      | inl e ↦ rw (e, drive_loop) h
      | inr ((task, q), e) ↦
          let t = start_route-Started config now.instant s.queue task q e in
          let a = started_route task now.instant in
          let kept : is_some (Map.get id q.active) ≡ true =
            subst (λ x. is_some (Map.get id x.active) ≡ true) t.same
              (ground (arith, h, Map.get-insert task.task_id id a s.queue.active)) in
          rw (e, drive_loop) (drive_loop-active id fuel config now (driven task q now s) kept)
    ]

get-modify_other :
    (id key : Text) (f : TaskEntry → TaskEntry) (m : HashMap Text TaskEntry) (e : TaskEntry)
    → Map.get id m ≡ some e
    → text_eq key id ≡ false
    → Map.get id (Map.modify key f m) ≡ some e
get-modify_other id key f m e there other = ground (arith, there, Map.get-modify key id f m)

-- The start of another job leaves it where it is.
driven-Waits :
    (id : Text) (task : QueuedRouteTask) (q : RouteQueueState) (now : Now) (s : Jobs)
    → Waits id s
    → Started s.queue task now.instant q
    → text_eq task.task_id id ≡ false
    → Waits id (driven task q now s)
unfolding update_message
driven-Waits id task q now s w t other = record {
  queued =
      subst (λ x. 1 ≤ count (is_task id) x.queued) t.same (ground (arith, w.queued, t.split id));
  entry = w.entry;
  there = get-modify_other id task.task_id _ s.task_registry.entries w.entry w.there other;
  is_run = w.is_run;
}

drive_loop-Waits :
    (id : Text) (fuel : ℕ) (config : RouterConfig) (now : Now) (s : Jobs)
    → Waits id s
    → Map.get id (drive_loop fuel config now s).0.queue.active ≡ none
    → Waits id (drive_loop fuel config now s).0
unfolding drive_loop
drive_loop-Waits id zero config now s w idle = w
drive_loop-Waits id (suc fuel) config now s w idle =
    elim (Option-cases (start_route config now.instant s.queue)) [
      | inl e ↦ rw (e, drive_loop) w
      | inr ((task, q), e) ↦
          let t = start_route-Started config now.instant s.queue task q e in
          let a = started_route task now.instant in
          let rest = drive_loop fuel config now (driven task q now s) in
          let same : (drive_loop (suc fuel) config now s).0 ≡ rest.0 = rw (e, drive_loop) refl in
          let idle_rest : Map.get id rest.0.queue.active ≡ none =
            subst (λ x. Map.get id x.queue.active ≡ none) same idle in
          elim (Bool-cases (text_eq task.task_id id)) [
            | inl it ↦
                let active : is_some (Map.get id q.active) ≡ true =
                  subst (λ x. is_some (Map.get id x.active) ≡ true) t.same
                    (ground (arith, it, Map.get-insert task.task_id id a s.queue.active)) in
                absurd (
                  ground (
                    arith,
                    idle_rest,
                    drive_loop-active id fuel config now (driven task q now s) active,
                  ))
            | inr other ↦ subst (Waits id) (sym same) (
                drive_loop-Waits id fuel config now (driven task q now s)
                  (driven-Waits id task q now s w t other) idle_rest)
          ]
    ]

pub drive_route_queue-Waits :
    (id : Text) (config : RouterConfig) (now : Now) (s : Jobs)
    → Waits id s
    → Map.get id (drive_route_queue config now s).0.queue.active ≡ none
    → Waits id (drive_route_queue config now s).0
unfolding drive_route_queue
drive_route_queue-Waits id config now s w idle =
    drive_loop-Waits id (length s.queue.queued) config now s w idle

-- A job that is not active after the loop was not before.
pub drive_route_queue-idle :
    (id : Text) (config : RouterConfig) (now : Now) (s : Jobs)
    → Map.get id (drive_route_queue config now s).0.queue.active ≡ none
    → Map.get id s.queue.active ≡ none
unfolding drive_route_queue
drive_route_queue-idle id config now s idle = elim (Option-cases (Map.get id s.queue.active)) [
  | inl e ↦ e
  | inr (a, e) ↦ absurd (
      ground
        (arith, idle, drive_loop-active id (length s.queue.queued) config now s (ap is_some e)))
]
