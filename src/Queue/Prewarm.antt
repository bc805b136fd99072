-- ===== src/Queue/Prewarm.antt =====
-- router/mod.rs: `enqueue_prewarm` and `drive_prewarm_queue`. The prewarming of a path runs outside the
-- lock; its summary is an argument of the end.
use ida_mcp.Base.{
  ℕ, zero, suc, ◌-◌, Bool, Option, none, some, List, [], ◌∷◌, ◌++◌, Text, text, length, drop,
  unwrap_or, leb, ltb, if◌then◌else◌, HashMap, text_key,
}
use ida_mcp.Base.Map
use ida_mcp.Json.{Value}
use ida_mcp.Queue.{Queued, push_sorted, count_start, count_end, next_task}
use ida_mcp.Router.{Result, ok, err, busy}
use ida_mcp.Router.Config.{RouterConfig}
use ida_mcp.Router.Registry.{next_counter}
use ida_mcp.Tasks.{next_task_id}

pub record QueuedPrewarmTask : Type 0 where
  pub task_id : Text
  pub path : Text
  pub tenant_id : Text
  pub priority : ℕ
  pub keep_warm : Bool
  pub enqueued_at : ℕ

pub record ActivePrewarmTask : Type 0 where
  pub task_id : Text
  pub path : Text
  pub tenant_id : Text
  pub priority : ℕ
  pub keep_warm : Bool
  pub started_at : ℕ

pub record PrewarmQueueState : Type 0 where
  pub queued : List QueuedPrewarmTask
  pub active : HashMap Text ActivePrewarmTask
  pub recent : List Value
  pub next_task_id : ℕ
  pub tenant_active : HashMap Text ℕ

instance abbrev pub prewarm_queued : Queued QueuedPrewarmTask
prewarm_queued = record {
  tenant_of = λ task. task.tenant_id;
  priority_of = λ task. task.priority;
  enqueued_of = λ task. task.enqueued_at;
}

abbrev pub prewarm_task : Text → ℕ → Bool → Option Text → ℕ → PrewarmQueueState → QueuedPrewarmTask
prewarm_task path priority keep_warm tenant_id now q = record {
  task_id = next_task_id (text "prewarm") q.next_task_id;
  path = path;
  tenant_id = unwrap_or tenant_id (text "default");
  priority = priority;
  keep_warm = keep_warm;
  enqueued_at = now;
}

-- Up to the drop of the lock: the identifier of the task and how many are queued.
unfoldable pub enqueue_prewarm :
    RouterConfig
    → Text
    → ℕ
    → Bool
    → Option Text
    → ℕ
    → PrewarmQueueState
    → PrewarmQueueState × Result (Text × ℕ)
enqueue_prewarm config path priority keep_warm tenant_id now q =
    let task = prewarm_task path priority keep_warm tenant_id now q in
    let queued = push_sorted task q.queued in
    if leb config.max_queued_prewarms (length q.queued) then (q, err busy) else (
      record q { queued = queued; next_task_id = next_counter q.next_task_id },
      ok (task.task_id, length queued),
    )

abbrev pub started_prewarm : QueuedPrewarmTask → ℕ → ActivePrewarmTask
started_prewarm task now = record {
  task_id = task.task_id;
  path = task.path;
  tenant_id = task.tenant_id;
  priority = task.priority;
  keep_warm = task.keep_warm;
  started_at = now;
}

abbrev pub with_started :
    QueuedPrewarmTask → List QueuedPrewarmTask → ℕ → PrewarmQueueState → PrewarmQueueState
with_started task rest now q = record q {
  queued = rest;
  tenant_active = count_start task.tenant_id q.tenant_active;
  active = Map.insert task.task_id (started_prewarm task now) q.active;
}

-- One round of the loop of `drive_prewarm_queue` under the lock.
unfoldable pub start_prewarm :
    RouterConfig → ℕ → PrewarmQueueState → Option (QueuedPrewarmTask × PrewarmQueueState)
unfolding next_task
start_prewarm config now q =
    elim (next_task (length q.active) config.max_active_prewarms config.max_prewarms_per_tenant
      q.tenant_active q.queued) [
        | none ↦ none
        | some (task, rest) ↦ some (task, with_started task rest now q)
      ]

-- The loop, and the tasks that it starts. Each round takes a task out of the queue.
unfoldable pub drive_loop :
    ℕ → RouterConfig → ℕ → PrewarmQueueState → PrewarmQueueState × List QueuedPrewarmTask
drive_loop zero config now q = (q, [])
drive_loop (suc fuel) config now q = elim (start_prewarm config now q) [
  | none ↦ (q, [])
  | some (task, q') ↦ let (after, tasks) = drive_loop fuel config now q' in (after, task ∷ tasks)
]

unfoldable pub drive_prewarm_queue :
    RouterConfig → ℕ → PrewarmQueueState → PrewarmQueueState × List QueuedPrewarmTask
unfolding drive_loop
drive_prewarm_queue config now q = drive_loop (length q.queued) config now q

abbrev pub keep_recent : List Value → List Value
keep_recent recent = if ltb 64 (length recent) then drop (length recent - 64) recent else recent

-- The end of a task.
unfoldable pub end_prewarm : QueuedPrewarmTask → Value → PrewarmQueueState → PrewarmQueueState
unfolding count_end
end_prewarm task summary q = record q {
  active = Map.remove task.task_id q.active;
  tenant_active = count_end task.tenant_id q.tenant_active;
  recent = keep_recent (q.recent ++ summary ∷ []);
}
