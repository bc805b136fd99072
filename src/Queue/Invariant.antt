-- ===== src/Queue/Invariant.antt =====
-- router/mod.rs: what holds of the queue of prewarms between two critical sections.
use ida_mcp.Base.{
  ℕ, suc, ◌+◌, ◌≤◌, ◌<◌, ◌^◌, ◌%◌, ◌≡◌, refl, inl, inr, Bool, false, Option, [], Text, text,
  text_eq, length, count, is_some, leb, if◌then◌else◌, Bool-cases, arith, text_key,
}
use ida_mcp.Base.Map
use ida_mcp.Base.Map.{HasUniqueKeys}
use ida_mcp.Queue.{active_for}
use ida_mcp.Queue.Order.{IsInOrder, push_sorted-IsInOrder, count-push_sorted, length-push_sorted}
use ida_mcp.Queue.Prewarm.{
  QueuedPrewarmTask, ActivePrewarmTask, PrewarmQueueState, prewarm_queued, prewarm_task,
  enqueue_prewarm,
}
use ida_mcp.Router.Config.{RouterConfig}
use ida_mcp.Tasks.{next_task_id}
use ida_mcp.Tasks.Ids.{next_task_id-injective}

abbrev pub has_task_id : Text → QueuedPrewarmTask → Bool
has_task_id id task = text_eq task.task_id id

abbrev pub runs_for : Text → Text × ActivePrewarmTask → Bool
runs_for tenant (id, a) = text_eq a.tenant_id tenant

abbrev pub times_known : Text → PrewarmQueueState → ℕ
times_known id q =
    let queued = count (has_task_id id) q.queued in
    if is_some (Map.get id q.active) then suc queued else queued

pub record Inv (config : RouterConfig) (q : PrewarmQueueState) : Type 0 where
  pub in_order : IsInOrder q.queued
  pub queued_bound : length q.queued ≤ config.max_queued_prewarms
  pub active_bound : length q.active ≤ config.max_active_prewarms
  pub recent_bound : length q.recent ≤ 64
  pub unique : HasUniqueKeys q.active
  pub once : (id : Text) → times_known id q ≤ 1
  pub fresh : (n : ℕ) → q.next_task_id ≤ n → times_known (next_task_id (text "prewarm") n) q ≡ 0
  pub counted : (t : Text) → active_for t q.tenant_active ≡ count (runs_for t) q.active
  pub tenant_bound : (t : Text) → active_for t q.tenant_active ≤ config.max_prewarms_per_tenant

unfoldable pub empty : PrewarmQueueState
empty = record { queued = []; active = []; recent = []; next_task_id = 0; tenant_active = [] }

pub empty-Inv : (config : RouterConfig) → Inv config empty
unfolding empty
empty-Inv config = record {
  in_order = tt;
  queued_bound = omega arith;
  active_bound = omega arith;
  recent_bound = omega arith;
  unique = tt;
  once = λ id. omega arith;
  fresh = λ n h. refl;
  counted = λ t. refl;
  tenant_bound = λ t. omega arith;
}

module _ (config : RouterConfig) (q : PrewarmQueueState) (v : Inv config q) where
  -- The identifier of the new task, and no later one, is the one that is used up.
  fresh_later :
      (n : ℕ)
      → suc q.next_task_id ≤ n
      → text_eq (next_task_id (text "prewarm") q.next_task_id) (next_task_id (text "prewarm") n)
        ≡ false
  fresh_later n later =
      elim (Bool-cases (
        text_eq (next_task_id (text "prewarm") q.next_task_id) (next_task_id (text "prewarm") n))) [
          | inl same ↦
              let eq : next_task_id (text "prewarm") q.next_task_id
                  ≡ next_task_id (text "prewarm") n =
                ground arith in
              absurd (
                omega (
                  arith,
                  later,
                  next_task_id-injective (text "prewarm") (text "prewarm") q.next_task_id n eq,
                ))
          | inr other ↦ other
        ]

  module _ (path : Text) (priority : ℕ) (keep_warm : Bool) (tenant_id : Option Text) (now : ℕ) where
    abbrev new_task : QueuedPrewarmTask
    new_task = prewarm_task path priority keep_warm tenant_id now q

    pub enqueue-Inv :
        suc q.next_task_id < 2 ^ 64
        → Inv config (enqueue_prewarm config path priority keep_warm tenant_id now q).0
    unfolding enqueue_prewarm
    enqueue-Inv small = elim (Bool-cases (leb config.max_queued_prewarms (length q.queued))) [
      | inl full ↦ rw full v
      | inr room ↦
          let next : (q.next_task_id + 1) % 2 ^ 64 ≡ suc q.next_task_id = omega (arith, small) in
          rw room (record {
            in_order = push_sorted-IsInOrder new_task q.queued;
            queued_bound = ground (arith, length-push_sorted new_task q.queued);
            active_bound = v.active_bound;
            recent_bound = v.recent_bound;
            unique = v.unique;
            once = λ id. ground (
              arith,
              count-push_sorted (has_task_id id) new_task q.queued,
              v.once id,
              v.fresh q.next_task_id,
            );
            fresh = λ n later. ground (
              arith,
              count-push_sorted (has_task_id (next_task_id (text "prewarm") n)) new_task q.queued,
              v.fresh n,
              fresh_later n,
              next,
              later,
            );
            counted = v.counted;
            tenant_bound = v.tenant_bound;
          })
    ]
