-- ===== src/Queue/Tests.antt =====
-- router/mod.rs: two prewarms of a tenant that may run one at a time, and a job that is cancelled while
-- it waits.
use ida_mcp.Base.{
  ℕ, suc, ◌+◌, ◌^◌, ◌<◌, ◌≤◌, ◌≡◌, ◌≢◌, ◌⊎◌, refl, true, false, ◌&&◌, none, some, List, [], ◌∷◌,
  Text, text, text_eq, text_discrete, ℕ_discrete, decimal, count, length, All, leb, if◌then◌else◌,
  arith, text_key,
}
use ida_mcp.Base.Map
use ida_mcp.Base.Sort.{place, sort}
use ida_mcp.Json.{null}
use ida_mcp.Queue.{active_for, goes_before, next_task}
use ida_mcp.Queue.Waiting.{is_task}
use ida_mcp.Queue.Cancel.{cancel_task_lem, enqueue-cancel}
use ida_mcp.Queue.Drive.{
  Reached, begins, enqueues, Reached-Inv, start_prewarm_lem, drive_prewarm_queue-Reached,
  drive_prewarm_queue_done,
}
use ida_mcp.Queue.Invariant.{Inv, empty}
use ida_mcp.Queue.Jobs.{
  RouteTask, Jobs, queued_task, accept_route_task, enqueue_route_task, drive_route_queue,
  drive_loop, start_route, register_task, queue_task, cancel_task,
}
use ida_mcp.Queue.Limits
use ida_mcp.Queue.Limits.{IsWithin, Job, run_jobs, run_jobs-IsWithin}
use ida_mcp.Queue.Prewarm.{
  QueuedPrewarmTask, PrewarmQueueState, prewarm_queued, enqueue_prewarm, start_prewarm,
  drive_prewarm_queue, with_started,
}
use ida_mcp.Queue.Steps.{has_room}
use ida_mcp.Router.{ok}
use ida_mcp.Router.Tenant.{normalize_tenant}
use ida_mcp.Router.Tests.{tiny}
use ida_mcp.Tasks
use ida_mcp.Tasks.Updates.{merge_meta}
use ida_mcp.Tasks.{
  TaskEntry, Now, new, running, completed, find_running, add_task, create_internal, create_with_key,
  next_task_id, fresh_entry,
}
use ida_mcp.Tasks.Invariant.{new-Inv}

abbrev one_queued : PrewarmQueueState
one_queued = (enqueue_prewarm tiny (text "/a") 1 true none 10 empty).0

abbrev two_queued : PrewarmQueueState
two_queued = (enqueue_prewarm tiny (text "/b") 5 true none 20 one_queued).0

few_made : suc one_queued.next_task_id < 2 ^ 64
unfolding enqueue_prewarm empty
few_made = omega arith

none_made : suc empty.next_task_id < 2 ^ 64
unfolding empty
none_made = omega arith

two_reached : Reached tiny two_queued
two_reached =
    enqueues one_queued (text "/b") 5 true none 20
      (enqueues empty (text "/a") 1 true none 10 begins none_made) few_made

Reached-Inv_example : Inv tiny (drive_prewarm_queue tiny 30 two_queued).0
Reached-Inv_example = Reached-Inv (drive_prewarm_queue-Reached tiny 30 two_queued two_reached)

abbrev second_task : QueuedPrewarmTask
second_task = record {
  task_id = text "prewarm-1";
  path = text "/b";
  tenant_id = text "default";
  priority = 5;
  keep_warm = true;
  enqueued_at = 20;
}

-- The second task has the higher priority.
second_first :
    start_prewarm tiny 30 two_queued
    ≡ some (second_task, with_started second_task one_queued.queued 30 two_queued)
unfolding start_prewarm next_task enqueue_prewarm empty sort place next_task_id decimal
    text_discrete ℕ_discrete
second_first = refl

start_prewarm_lem_example :
    (active_for (text "default") two_queued.tenant_active < 1)
    × All
        (λ other. (has_room tiny two_queued other ≡ false) ⊎ (goes_before second_task other ≡ true))
        one_queued.queued
start_prewarm_lem_example =
    start_prewarm_lem tiny 30 two_queued second_task
      (with_started second_task one_queued.queued 30 two_queued) (Reached-Inv two_reached)
      second_first

drive_prewarm_queue_done_example :
    let after = (drive_prewarm_queue tiny 30 two_queued).0 in
    (1 ≤ length after.active) ⊎ All (λ task. has_room tiny after task ≡ false) after.queued
drive_prewarm_queue_done_example = drive_prewarm_queue_done tiny 30 two_queued

abbrev decompile : RouteTask
decompile = record {
  path = text "/a";
  method = text "decompile";
  params = null;
  tenant_id = none;
  priority = 1;
  dedupe_key = some (text "k");
}

abbrev at : ℕ → Now
at n = record { instant = n; unix_secs = 0 }

abbrev no_jobs : Jobs
no_jobs = record {
  queue = record { queued = []; active = []; tenant_active = [] };
  task_registry = new;
}

no_jobs-IsWithin : IsWithin tiny no_jobs.queue
no_jobs-IsWithin = record {
  in_order = tt;
  queued_bound = omega arith;
  active_bound = omega arith;
  tenant_bound = λ t. omega arith;
}

abbrev job_history : List (Now × Job)
job_history =
    (at 1, Limits.enqueues decompile (at 2))
    ∷ (at 2, Limits.enqueues decompile (at 2))
    ∷ (at 3, Limits.starts)
    ∷ (at 4, Limits.cancels (text "job-1"))
    ∷ []

run_jobs-IsWithin_example : IsWithin tiny (run_jobs tiny job_history no_jobs).queue
run_jobs-IsWithin_example = run_jobs-IsWithin tiny job_history no_jobs no_jobs-IsWithin

-- The one job that may be active is another one.
abbrev no_room : Jobs
no_room = record {
  queue = record {
    queued = [];
    active =
        (
          text "job-0",
          record {
            task_id = text "job-0";
            path = text "/b";
            method = text "decompile";
            tenant_id = text "other";
            priority = 1;
            started_at = 0;
          },
        )
        ∷ [];
    tenant_active = (text "other", 1) ∷ [];
  };
  task_registry = new;
}

abbrev one_job : Jobs
one_job = (enqueue_route_task tiny decompile (at 1) (at 1) no_room).0

job_named : (enqueue_route_task tiny decompile (at 1) (at 1) no_room).1 ≡ ok (text "job-1", [])
unfolding enqueue_route_task accept_route_task register_task queue_task create_with_key
    create_internal find_running add_task next_task_id decimal text_discrete ℕ_discrete
    drive_route_queue drive_loop start_route next_task sort place normalize_tenant Tasks.get
    merge_meta
job_named = refl

job_idle : Map.get (text "job-1") one_job.queue.active ≡ none
unfolding enqueue_route_task accept_route_task register_task queue_task create_with_key
    create_internal find_running add_task next_task_id decimal text_discrete ℕ_discrete
    drive_route_queue drive_loop start_route next_task sort place normalize_tenant Tasks.get
    merge_meta
job_idle = refl

enqueue-cancel_example :
    let (after, cancelled) = cancel_task (text "job-1") (at 2) one_job in
    (cancelled ≡ true) × (1 ≤ count (is_task (text "job-1")) after.queue.queued)
enqueue-cancel_example =
    enqueue-cancel tiny decompile (at 1) (at 1) (at 2) no_room (text "job-1") [] new-Inv job_named
      job_idle

-- A job that has ended in the registry, and still waits in the queue.
abbrev failed_entry : TaskEntry
failed_entry = fresh_entry (text "job-1") completed (text "done") none none (some (text "k")) (at 1)

abbrev stale : Jobs
stale = record {
  queue = record {
    queued = queued_task (text "job-1") decompile (at 1) ∷ [];
    active = [];
    tenant_active = [];
  };
  task_registry = record { entries = (text "job-1", failed_entry) ∷ []; counter = 2 };
}

stale_there : Map.get (text "job-1") stale.task_registry.entries ≡ some failed_entry
unfolding text_discrete ℕ_discrete
stale_there = refl

cancel_task_lem_example :
    ((failed_entry.state.status ≡ running)
      × ((cancel_task (text "job-1") (at 2) stale).1 ≡ true)
      × ((cancel_task (text "job-1") (at 2) stale).0.queue ≡ stale.queue))
    ⊎ ((failed_entry.state.status ≢ running)
        × ((cancel_task (text "job-1") (at 2) stale).1
            ≡ leb 1 (count (is_task (text "job-1")) stale.queue.queued))
        × ((j : Text)
            → count (is_task j) stale.queue.queued
              ≡ count (is_task j) (cancel_task (text "job-1") (at 2) stale).0.queue.queued
                + (if (cancel_task (text "job-1") (at 2) stale).1 && text_eq (text "job-1") j
                    then 1
                    else 0)))
cancel_task_lem_example = cancel_task_lem (text "job-1") (at 2) stale failed_entry stale_there
