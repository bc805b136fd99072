-- ===== src/Queue/Steps.antt =====
-- router/mod.rs: starting a prewarm and its end keep the invariant of the queue; every state that the
-- queue reaches satisfies it.
use ida_mcp.Base.{
  ℕ, ◌+◌, ◌-◌, ◌≤◌, ◌<◌, ◌≡◌, refl, sym, ap, subst, ◌∙◌, ◌⊎◌, inl, inr, Bool, false, none, some,
  List, [], ◌∷◌, ◌++◌, Text, text, text_discrete, length, length-drop, count, count-append, leb,
  ltb, Bool-cases, Option-cases, arith, All, HashMap, text_key,
}
use ida_mcp.Base.Map
use ida_mcp.Base.Map.{HasUniqueKeys}
use ida_mcp.Json.{Value}
use ida_mcp.Queue.{active_for, next_task, remove_first, goes_before}
use ida_mcp.Queue.Invariant.{Inv, has_task_id, runs_for}
use ida_mcp.Queue.Order.{
  Taken, remove_first-Taken, remove_first-none, IsSorted-remove_first, active_for-count_start,
  active_for-count_end,
}
use ida_mcp.Queue.Prewarm.{
  QueuedPrewarmTask, ActivePrewarmTask, PrewarmQueueState, prewarm_queued, started_prewarm,
  with_started, start_prewarm, end_prewarm,
}
use ida_mcp.Router.Config.{RouterConfig}
use ida_mcp.Tasks.{next_task_id}

-- The test that a task passes to be started.
abbrev pub has_room : RouterConfig → PrewarmQueueState → QueuedPrewarmTask → Bool
has_room config q task =
    ltb (active_for task.tenant_id q.tenant_active) config.max_prewarms_per_tenant

-- A start takes the first task in the order of the queue whose tenant has room.
pub record Started (config : RouterConfig) (now : ℕ) (q : PrewarmQueueState)
    (task : QueuedPrewarmTask) (after : PrewarmQueueState) : Type 0 where
  pub rest : List QueuedPrewarmTask
  pub room : length q.active < config.max_active_prewarms
  pub chosen : remove_first (has_room config q) q.queued ≡ some (task, rest)
  pub result : after ≡ with_started task rest now q

pub start-Started :
    (config : RouterConfig) (now : ℕ) (q : PrewarmQueueState) (task : QueuedPrewarmTask)
    (after : PrewarmQueueState)
    → start_prewarm config now q ≡ some (task, after)
    → Started config now q task after
unfolding start_prewarm next_task
start-Started config now q task after e =
    elim (Bool-cases (leb config.max_active_prewarms (length q.active))) [
      | inl full ↦ absurd (ground arith)
      | inr free ↦ elim (Option-cases (remove_first (has_room config q) q.queued)) [
        | inl none_left ↦ absurd (ground arith)
        | inr ((t, rest), found) ↦
            let same : t ≡ task = ground arith in
            record {
              rest = rest;
              room = ground arith;
              chosen = found ∙ ap (λ x. some (x, rest)) same;
              result = ground arith;
            }
      ]
    ]

pub start_none :
    (config : RouterConfig) (now : ℕ) (q : PrewarmQueueState)
    → start_prewarm config now q ≡ none
    → (config.max_active_prewarms ≤ length q.active)
      ⊎ All (λ task. has_room config q task ≡ false) q.queued
unfolding start_prewarm next_task
start_none config now q e = elim (Bool-cases (leb config.max_active_prewarms (length q.active))) [
  | inl full ↦ inl (ground arith)
  | inr free ↦ elim (Option-cases (remove_first (has_room config q) q.queued)) [
    | inl none_left ↦ inr (remove_first-none (has_room config q) q.queued none_left)
    | inr ((t, rest), found) ↦ absurd (ground arith)
  ]
]

count-remove_self :
    (p : Text × ActivePrewarmTask → Bool) (id : Text) (a : ActivePrewarmTask)
    (m : HashMap Text ActivePrewarmTask)
    → HasUniqueKeys m
    → Map.get id m ≡ some a
    → count p m ≡ count p (Map.remove id m) + count p ((id, a) ∷ [])
count-remove_self p id a [] u e = absurd (ground arith)
count-remove_self p id a ((j, b) ∷ m) u e = elim (text_discrete j id) [
  | yes same ↦
      let alone : Map.get id m ≡ none = subst (λ k. Map.get k m ≡ none) same u.0 in
      let left : count p (Map.remove id m) ≡ count p m = ap (count p) (remove_absent id m alone) in
      let found : b ≡ a = ground arith in
      subst
        (λ c. count p ((j, c) ∷ m) ≡ count p (Map.remove id ((j, c) ∷ m)) + count p ((id, a) ∷ []))
        (sym found)
        (subst
          (λ k.
            count p ((k, a) ∷ m) ≡ count p (Map.remove id ((k, a) ∷ m)) + count p ((id, a) ∷ []))
          (sym same) (ground (arith, left)))
  | no other ↦ ground (arith, count-remove_self p id a m u.1)
]
  where
    remove_absent :
        (k : Text) (n : HashMap Text ActivePrewarmTask) → Map.get k n ≡ none → Map.remove k n ≡ n
    remove_absent k [] h = refl
    remove_absent k ((i, c) ∷ n) h = ground (arith, remove_absent k n)

module _ (config : RouterConfig) (q : PrewarmQueueState) (v : Inv config q) where
  -- A queued task does not run.
  not_active :
      (task : QueuedPrewarmTask) (rest : List QueuedPrewarmTask)
      → Taken (has_room config q) q.queued task rest
      → Map.get task.task_id q.active ≡ none
  not_active task rest t = elim (Option-cases (Map.get task.task_id q.active)) [
    | inl e ↦ e
    | inr (a, e) ↦ absurd (ground (arith, v.once task.task_id, t.split (has_task_id task.task_id)))
  ]

  pub start-Inv :
      (now : ℕ) (task : QueuedPrewarmTask) (after : PrewarmQueueState)
      → start_prewarm config now q ≡ some (task, after)
      → Inv config after
  start-Inv now task after e =
      let s = start-Started config now q task after e in
      let t = remove_first-Taken (has_room config q) q.queued task s.rest s.chosen in
      let a = started_prewarm task now in
      let free = not_active task s.rest t in
      let (in_order, _) =
        IsSorted-remove_first goes_before (has_room config q) q.queued task s.rest v.in_order
          s.chosen in
      let grown : Map.insert task.task_id a q.active ≡ q.active ++ (task.task_id, a) ∷ [] =
        Map.insert-eq-append task.task_id a q.active free in
      subst (Inv config) (sym s.result) (record {
        in_order = in_order;
        queued_bound = omega (arith, v.queued_bound, t.shorter);
        active_bound = omega (arith, s.room, Map.length-insert_le task.task_id a q.active);
        recent_bound = v.recent_bound;
        unique = Map.insert-HasUniqueKeys task.task_id a q.active v.unique;
        once = λ id.
            ground (
              arith,
              v.once id,
              t.split (has_task_id id),
              Map.get-insert task.task_id id a q.active,
            );
        fresh = λ n later. ground (
          arith,
          v.fresh n later,
          t.split (has_task_id (next_task_id (text "prewarm") n)),
          Map.get-insert task.task_id (next_task_id (text "prewarm") n) a q.active,
        );
        counted = λ u.
            active_for-count_start u task.tenant_id q.tenant_active
            ∙ ground (
              arith,
              v.counted u,
              ap (count (runs_for u)) grown,
              count-append (runs_for u) q.active ((task.task_id, a) ∷ []),
            );
        tenant_bound = λ u. ground (
          arith,
          v.tenant_bound u,
          active_for-count_start u task.tenant_id q.tenant_active,
          t.passes,
        );
      })

  pub end-Inv :
      (task : QueuedPrewarmTask) (summary : Value) (a : ActivePrewarmTask)
      → Map.get task.task_id q.active ≡ some a
      → a.tenant_id ≡ task.tenant_id
      → Inv config (end_prewarm task summary q)
  unfolding end_prewarm
  end-Inv task summary a there same = record {
    in_order = v.in_order;
    queued_bound = v.queued_bound;
    active_bound = omega (arith, v.active_bound, Map.length-remove_le task.task_id q.active);
    recent_bound =
        ground
          (arith, length-drop (length (q.recent ++ summary ∷ []) - 64) (q.recent ++ summary ∷ []));
    unique = Map.remove-HasUniqueKeys task.task_id q.active v.unique;
    once = λ id. ground (arith, v.once id, Map.get-remove task.task_id id q.active);
    fresh = λ n later. ground (
      arith,
      v.fresh n later,
      Map.get-remove task.task_id (next_task_id (text "prewarm") n) q.active,
    );
    counted = λ u.
        active_for-count_end u task.tenant_id q.tenant_active
        ∙ ground (
          arith,
          v.counted u,
          same,
          count-remove_self (runs_for u) task.task_id a q.active v.unique there,
        );
    tenant_bound = λ u.
        ground (arith, v.tenant_bound u, active_for-count_end u task.tenant_id q.tenant_active);
  }
