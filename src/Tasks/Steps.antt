-- ===== src/Tasks/Steps.antt =====
-- server/task.rs: every call of the registry keeps the invariant.
use ida_mcp.Base.{
  suc, ◌+◌, ◌^◌, ◌≤◌, ◌<◌, ◌≡◌, refl, subst, inl, inr, true, Option, none, some, List, [], ◌∷◌,
  ◌++◌, Text, text, length, count, All-append, All-map_prop, arith, text_key, HashMap, Option-cases,
  Bool-cases, count-append, find-none,
}
use ida_mcp.Base.Map
use ida_mcp.Base.Map.{HasUniqueKeys}
use ida_mcp.Json.{Value}
use ida_mcp.Tasks.{
  TaskStatus, TaskEntry, Registry, Now, is_running, holds_key, key_is, find_running, running,
  completed, next_task_id, fresh_entry, add_task, create_internal, create_completed, set_handle,
  new, counter_after,
}
use ida_mcp.Tasks.Ids.{task_number, task_number-next_task_id}
use ida_mcp.Tasks.Prune.{prune-All, prune-HasUniqueKeys, prune-count_terminal, count-prune_le}
use ida_mcp.Tasks.Updates.{update_message, merge_meta, complete, fail, cancel}
use ida_mcp.Tasks.Invariant.{
  Call, creates, creates_completed, sets_handle, updates_message, merges_meta, completes, fails,
  cancels, step, run, Inv, new-Inv, modify-Inv, modify-pruned-Inv,
}

-- A new identifier is in no entry.
pub fresh_id :
    (r : Registry) (prefix : Text)
    → Inv r
    → Map.get (next_task_id prefix r.counter) r.entries ≡ none
fresh_id r prefix v = elim (Option-cases (Map.get (next_task_id prefix r.counter) r.entries)) [
  | inl e ↦ e
  | inr (x, e) ↦ absurd (
      omega (
        arith,
        Map.All-get (λ y. task_number y.0 < r.counter) _ x r.entries v.fresh e,
        task_number-next_task_id prefix r.counter,
      ))
]

module _ (prefix : Text) (status : TaskStatus) (message : Text) (meta result : Option Value)
    (key : Option Text) (now : Now) (r : Registry) (v : Inv r) (room : suc r.counter < 2 ^ 64) where
  abbrev new_entry : TaskEntry
  new_entry = fresh_entry (next_task_id prefix r.counter) status message meta result key now

  abbrev grown : List (Text × TaskEntry)
  grown = r.entries ++ (next_task_id prefix r.counter, new_entry) ∷ []

  insert-grown : Map.insert (next_task_id prefix r.counter) new_entry r.entries ≡ grown
  insert-grown = Map.insert-eq-append _ new_entry r.entries (fresh_id r prefix v)

  counter_grows : counter_after r.counter ≡ suc r.counter
  counter_grows = omega arith

  grown-keyed :
      ((k : Text)
        → holds_key k (next_task_id prefix r.counter, new_entry) ≡ true
        → count (holds_key k) r.entries ≡ 0)
      → (k : Text) → count (holds_key k) grown ≤ 1
  grown-keyed free k = ground (
    arith,
    free k,
    v.keyed k,
    count-append (holds_key k) r.entries ((next_task_id prefix r.counter, new_entry) ∷ []),
  )

  add_task-Inv :
      ((k : Text)
        → holds_key k (next_task_id prefix r.counter, new_entry) ≡ true
        → count (holds_key k) r.entries ≡ 0)
      → Inv (add_task prefix status message meta result key now r).0
  unfolding add_task
  add_task-Inv free = rw insert-grown (record {
    unique = prune-HasUniqueKeys grown (
        subst HasUniqueKeys insert-grown (Map.insert-HasUniqueKeys _ new_entry r.entries v.unique));
    named = prune-All _ grown (All-append _ r.entries _ v.named (refl, tt));
    fresh = rw counter_grows (
        prune-All _ grown (
          All-append _ r.entries _
            (All-map_prop (λ x. task_number x.0 < r.counter) (λ x. task_number x.0 < suc r.counter)
              r.entries (λ x h. omega arith) v.fresh)
            (omega (arith, task_number-next_task_id prefix r.counter), tt)));
    capped = prune-count_terminal grown;
    keyed = λ k. omega (arith, count-prune_le (holds_key k) grown, grown-keyed free k);
  })

find_running_free :
    (key : Option Text) (m : HashMap Text TaskEntry)
    → find_running key m ≡ none
    → (k : Text) → key_is k key ≡ true
    → count (holds_key k) m ≡ 0
unfolding find_running
find_running_free none m e k h = cc
find_running_free (some j) m e k h =
    let same : j ≡ k = ground arith in
    subst (λ i. count (holds_key i) m ≡ 0) same (find-none (holds_key j) m e)

create_internal-Inv :
    (prefix : Text) (key : Option Text) (message : Text) (meta : Option Value) (now : Now)
    (r : Registry)
    → suc r.counter < 2 ^ 64
    → Inv r
    → Inv (create_internal prefix key message meta now r).0
unfolding create_internal
create_internal-Inv prefix key message meta now r room v =
    elim (Option-cases (find_running key r.entries)) [
      | inl e ↦
          rw (e, create_internal)
            (add_task-Inv prefix running message meta none key now r v room
              (λ k h. find_running_free key r.entries e k (ground arith)))
      | inr (x, e) ↦ rw (e, create_internal) v
    ]

create_completed-Inv :
    (message : Text) (result : Value) (now : Now) (r : Registry)
    → suc r.counter < 2 ^ 64
    → Inv r
    → Inv (create_completed message result now r).0
unfolding create_completed
create_completed-Inv message result now r room v =
    add_task-Inv (text "task") completed message none (some result) none now r v room (λ k h. cc)

cancel-Inv : (id : Text) (now : Now) (r : Registry) → Inv r → Inv (cancel id now r).after
unfolding cancel
cancel-Inv id now r v = elim (Option-cases (Map.get id r.entries)) [
  | inl e ↦ rw (e, cancel) v
  | inr (x, e) ↦ elim (Bool-cases (is_running x.state.status)) [
    | inl run ↦
        rw (e, cancel, run)
          (modify-pruned-Inv r v id _
            (record { id_kept = λ y. refl; key_kept = λ y. refl; not_restarted = λ y h. cc }))
    | inr over ↦ rw (e, cancel, over) v
  ]
]

-- Every call keeps the invariant, as long as the counter does not wrap.
pub step-Inv :
    (now : Now) (c : Call) (r : Registry) → suc r.counter < 2 ^ 64 → Inv r → Inv (step now c r)
unfolding step set_handle update_message merge_meta complete fail
step-Inv now (creates prefix key message meta) r room v =
    create_internal-Inv prefix key message meta now r room v
step-Inv now (creates_completed message result) r room v =
    create_completed-Inv message result now r room v
step-Inv now (sets_handle id h) r room v =
    modify-Inv r v id _
      (record { id_kept = λ y. refl; key_kept = λ y. refl; not_restarted = λ y h. h }) (λ y h. h)
step-Inv now (updates_message id message) r room v =
    modify-Inv r v id _
      (record { id_kept = λ y. refl; key_kept = λ y. refl; not_restarted = λ y h. h }) (λ y h. h)
step-Inv now (merges_meta id patch) r room v =
    modify-Inv r v id _
      (record { id_kept = λ y. refl; key_kept = λ y. refl; not_restarted = λ y h. h }) (λ y h. h)
step-Inv now (completes id result) r room v =
    modify-pruned-Inv r v id _
      (record { id_kept = λ y. refl; key_kept = λ y. refl; not_restarted = λ y h. cc })
step-Inv now (fails id error) r room v =
    modify-pruned-Inv r v id _
      (record { id_kept = λ y. refl; key_kept = λ y. refl; not_restarted = λ y h. cc })
step-Inv now (cancels id) r room v = cancel-Inv id now r v

step-counter_le :
    (now : Now) (c : Call) (r : Registry)
    → suc r.counter < 2 ^ 64
    → (step now c r).counter ≤ suc r.counter
unfolding step set_handle update_message merge_meta complete fail create_internal create_completed
    cancel
step-counter_le now (creates prefix key message meta) r room = ground arith
step-counter_le now (creates_completed message result) r room = ground arith
step-counter_le now (cancels id) r room = ground arith
step-counter_le now _ r room = omega arith

run_from-Inv :
    (cs : List (Now × Call)) (r : Registry)
    → r.counter + length cs < 2 ^ 64
    → Inv r
    → Inv (run cs r)
unfolding run
run_from-Inv [] r room v = v
run_from-Inv ((now, c) ∷ cs) r room v =
    run_from-Inv cs (step now c r) (omega (arith, step-counter_le now c r (omega arith)))
      (step-Inv now c r (omega arith) v)

-- After any sequence of calls of a new registry, one fewer than the counter can count,
-- identifiers are unique and stand in their entries, the next identifier is new, no more than
-- 256 terminal tasks are kept, and at most one running task has a given key.
pub run-Inv : (cs : List (Now × Call)) → suc (length cs) < 2 ^ 64 → Inv (run cs new)
run-Inv cs room = run_from-Inv cs new (omega arith) new-Inv
