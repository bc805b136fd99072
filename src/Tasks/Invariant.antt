-- ===== src/Tasks/Invariant.antt =====
-- server/task.rs: what holds of the registry between two calls.
use ida_mcp.Base.{
  ℕ, ◌≤◌, ◌<◌, ◌≡◌, ◌∙◌, true, Option, List, [], ◌∷◌, Text, count, All, arith, text_key,
}
use ida_mcp.Base.Map
use ida_mcp.Base.Map.{HasUniqueKeys}
use ida_mcp.Json.{Value}
use ida_mcp.Tasks.{
  TaskEntry, Registry, Now, is_running, is_terminal, holds_key, terminal_task_cap, create_internal,
  create_completed, set_handle, modify_entry, new,
}
use ida_mcp.Tasks.Ids.{task_number}
use ida_mcp.Tasks.Prune.{prune-All, prune-HasUniqueKeys, prune-count_terminal, count-prune_le}
use ida_mcp.Tasks.Updates.{pruned, update_message, merge_meta, complete, fail, cancel}

-- The calls of the registry that change it.
pub data Call : Type 0 where
  creates : Text → Option Text → Text → Option Value → Call
  creates_completed : Text → Value → Call
  sets_handle : Text → ℕ → Call
  updates_message : Text → Text → Call
  merges_meta : Text → Value → Call
  completes : Text → Value → Call
  fails : Text → Text → Call
  cancels : Text → Call

unfoldable pub step : Now → Call → Registry → Registry
step now (creates prefix key message meta) r = (create_internal prefix key message meta now r).0
step now (creates_completed message result) r = (create_completed message result now r).0
step now (sets_handle id h) r = set_handle id h r
step now (updates_message id message) r = update_message id message now r
step now (merges_meta id patch) r = merge_meta id patch now r
step now (completes id result) r = complete id result now r
step now (fails id error) r = fail id error now r
step now (cancels id) r = (cancel id now r).after

unfoldable pub run : List (Now × Call) → Registry → Registry
run [] r = r
run ((now, c) ∷ cs) r = run cs (step now c r)

pub record Inv (r : Registry) : Type 0 where
  pub unique : HasUniqueKeys r.entries
  pub named : All (λ x. x.1.state.id ≡ x.0) r.entries
  pub fresh : All (λ x. task_number x.0 < r.counter) r.entries
  pub capped : count is_terminal r.entries ≤ terminal_task_cap
  pub keyed : (k : Text) → count (holds_key k) r.entries ≤ 1

pub new-Inv : Inv new
new-Inv = record {
  unique = tt;
  named = tt;
  fresh = tt;
  capped = omega arith;
  keyed = λ k. omega arith;
}

-- A change of one task that neither renames it, starts it again, nor changes its key.
pub record IsTame (f : TaskEntry → TaskEntry) : Type 0 where
  pub id_kept : (e : TaskEntry) → (f e).state.id ≡ e.state.id
  pub key_kept : (e : TaskEntry) → (f e).state.key ≡ e.state.key
  pub not_restarted :
      (e : TaskEntry) → is_running (f e).state.status ≡ true → is_running e.state.status ≡ true

module _ (r : Registry) (v : Inv r) (id : Text) (f : TaskEntry → TaskEntry) (t : IsTame f) where
  modify-named : All (λ x. x.1.state.id ≡ x.0) (Map.modify id f r.entries)
  modify-named = Map.All-modify _ id f r.entries (λ j e h. t.id_kept e ∙ h) v.named

  modify-keyed : (k : Text) → count (holds_key k) (Map.modify id f r.entries) ≤ 1
  modify-keyed k =
      let shrinks =
        Map.count-modify_le (holds_key k) id f r.entries
          (λ j e h. ground (arith, t.key_kept e, t.not_restarted e)) in
      omega (arith, shrinks, v.keyed k)

  modify-fresh : All (λ x. task_number x.0 < r.counter) (Map.modify id f r.entries)
  modify-fresh = Map.All-modify _ id f r.entries (λ j e h. h) v.fresh

  pub modify-Inv :
      ((e : TaskEntry) → is_running e.state.status ≡ true → is_running (f e).state.status ≡ true)
      → Inv (modify_entry id f r)
  modify-Inv stays = record {
    unique = Map.modify-HasUniqueKeys id f r.entries v.unique;
    named = modify-named;
    fresh = modify-fresh;
    capped =
        let shrinks =
          Map.count-modify_le is_terminal id f r.entries (λ j e h. ground (arith, stays e)) in
        omega (arith, shrinks, v.capped);
    keyed = modify-keyed;
  }

  pub modify-pruned-Inv : Inv (pruned (modify_entry id f r))
  modify-pruned-Inv = record {
    unique = prune-HasUniqueKeys _ (Map.modify-HasUniqueKeys id f r.entries v.unique);
    named = prune-All _ _ modify-named;
    fresh = prune-All _ _ modify-fresh;
    capped = prune-count_terminal _;
    keyed = λ k.
        omega (arith, count-prune_le (holds_key k) (Map.modify id f r.entries), modify-keyed k);
  }
