-- ===== src/Queue/Drive.antt =====
-- router/mod.rs: every state of the queue of prewarms, and what `drive_prewarm_queue` leaves queued.
use ida_mcp.Base.{
  ℕ, zero, suc, ◌≤◌, ◌<◌, ◌^◌, ◌≡◌, sym, ap, subst, ◌⊎◌, inl, inr, Bool, true, false, Option, none,
  some, Text, length, Option-cases, arith, All, text_key,
}
use ida_mcp.Base.Map
use ida_mcp.Json.{Value}
use ida_mcp.Queue.{goes_before, active_for}
use ida_mcp.Queue.Invariant.{Inv, empty, empty-Inv, enqueue-Inv}
use ida_mcp.Queue.Order.{remove_first-Taken, IsSorted-remove_first}
use ida_mcp.Queue.Prewarm.{
  QueuedPrewarmTask, ActivePrewarmTask, PrewarmQueueState, prewarm_queued, enqueue_prewarm,
  start_prewarm, drive_loop, drive_prewarm_queue, end_prewarm,
}
use ida_mcp.Queue.Steps.{has_room, start-Started, start_none, start-Inv, end-Inv}
use ida_mcp.Router.Config.{RouterConfig}

-- The states that the critical sections reach. Fewer tasks are queued than the counter can count,
-- and a task ends that has been started.
pub data Reached (config : RouterConfig) : PrewarmQueueState → Type 0 where
  begins : Reached config empty
  enqueues :
      (q : PrewarmQueueState) (path : Text) (priority : ℕ) (keep_warm : Bool)
      (tenant_id : Option Text) (now : ℕ)
      → Reached config q
      → suc q.next_task_id < 2 ^ 64
      → Reached config (enqueue_prewarm config path priority keep_warm tenant_id now q).0
  starts :
      (q : PrewarmQueueState) (now : ℕ) (task : QueuedPrewarmTask) (after : PrewarmQueueState)
      → Reached config q
      → start_prewarm config now q ≡ some (task, after)
      → Reached config after
  ends :
      (q : PrewarmQueueState) (task : QueuedPrewarmTask) (summary : Value) (a : ActivePrewarmTask)
      → Reached config q
      → Map.get task.task_id q.active ≡ some a
      → a.tenant_id ≡ task.tenant_id
      → Reached config (end_prewarm task summary q)

-- In every state that the queue of prewarms reaches by enqueuing (while fewer tasks are
-- numbered than a u64 counts), starting and ending tasks that were started, it is in order,
-- the numbers of queued and active tasks are within their limits, no more than 64 summaries
-- are kept, a task is known once, the next identifier is new, and the count of each tenant is
-- the number of its active tasks and within its limit.
pub Reached-Inv : {config : RouterConfig} {q : PrewarmQueueState} → Reached config q → Inv config q
Reached-Inv {config} begins = empty-Inv config
Reached-Inv {config} (enqueues q path priority keep_warm tenant_id now r small) =
    enqueue-Inv config q (Reached-Inv r) path priority keep_warm tenant_id now small
Reached-Inv {config} (starts q now task after r e) =
    start-Inv config q (Reached-Inv r) now task after e
Reached-Inv {config} (ends q task summary a r there same) =
    end-Inv config q (Reached-Inv r) task summary a there same

-- In a queue that satisfies the invariant, the tenant of a task that is started has room, and
-- every task left in the queue whose tenant has room comes after it: it has a lower priority,
-- or the same and is not older.
pub start_prewarm_lem :
    (config : RouterConfig) (now : ℕ) (q : PrewarmQueueState) (task : QueuedPrewarmTask)
    (after : PrewarmQueueState)
    → Inv config q
    → start_prewarm config now q ≡ some (task, after)
    → (active_for task.tenant_id q.tenant_active < config.max_prewarms_per_tenant)
      × All
          (λ other. (has_room config q other ≡ false) ⊎ (goes_before task other ≡ true))
          after.queued
start_prewarm_lem config now q task after v e =
    let s = start-Started config now q task after e in
    let t = remove_first-Taken (has_room config q) q.queued task s.rest s.chosen in
    let (_, first) =
      IsSorted-remove_first goes_before (has_room config q) q.queued task s.rest v.in_order
        s.chosen in
    (
      ground (arith, t.passes),
      subst
          (λ w.
            All (λ other. (has_room config q other ≡ false) ⊎ (goes_before task other ≡ true))
              w.queued)
          (sym s.result) first,
    )

loop_done :
    (fuel : ℕ) (config : RouterConfig) (now : ℕ) (q : PrewarmQueueState)
    → length q.queued ≤ fuel
    → start_prewarm config now (drive_loop fuel config now q).0 ≡ none
unfolding drive_loop
loop_done zero config now q enough = elim (Option-cases (start_prewarm config now q)) [
  | inl e ↦ e
  | inr ((task, after), e) ↦
      let s = start-Started config now q task after e in
      let t = remove_first-Taken (has_room config q) q.queued task s.rest s.chosen in
      absurd (omega (arith, enough, t.shorter))
]
loop_done (suc fuel) config now q enough = elim (Option-cases (start_prewarm config now q)) [
  | inl e ↦ rw (e, drive_loop) e
  | inr ((task, after), e) ↦
      let s = start-Started config now q task after e in
      let t = remove_first-Taken (has_room config q) q.queued task s.rest s.chosen in
      let left : length after.queued ≡ length s.rest = ap (λ w. length w.queued) s.result in
      rw (e, drive_loop) (loop_done fuel config now after (omega (arith, enough, t.shorter, left)))
]

-- Drive_prewarm_queue ends within as many rounds as tasks are queued, and then as many tasks
-- are active as may be, or no queued task is of a tenant with room.
pub drive_prewarm_queue_done :
    (config : RouterConfig) (now : ℕ) (q : PrewarmQueueState)
    → let after = (drive_prewarm_queue config now q).0 in
      (config.max_active_prewarms ≤ length after.active)
      ⊎ All (λ task. has_room config after task ≡ false) after.queued
unfolding drive_prewarm_queue
drive_prewarm_queue_done config now q =
    start_none config now (drive_prewarm_queue config now q).0
      (loop_done (length q.queued) config now q (omega arith))

loop-Reached :
    (fuel : ℕ) (config : RouterConfig) (now : ℕ) (q : PrewarmQueueState)
    → Reached config q
    → Reached config (drive_loop fuel config now q).0
unfolding drive_loop
loop-Reached zero config now q r = r
loop-Reached (suc fuel) config now q r = elim (Option-cases (start_prewarm config now q)) [
  | inl e ↦ rw (e, drive_loop) r
  | inr ((task, after), e) ↦
      rw (e, drive_loop) (loop-Reached fuel config now after (starts q now task after r e))
]

pub drive_prewarm_queue-Reached :
    (config : RouterConfig) (now : ℕ) (q : PrewarmQueueState)
    → Reached config q
    → Reached config (drive_prewarm_queue config now q).0
unfolding drive_prewarm_queue
drive_prewarm_queue-Reached config now q r = loop-Reached (length q.queued) config now q r
