-- ===== src/Tasks/Ends.antt =====
-- server/task.rs: how a task ends: `complete`, `fail` and `cancel`.
use ida_mcp.Base.{
  suc, ◌<◌, ◌≤◌, ◌≡◌, ◌≢◌, refl, ap, ◌∙◌, ◌⊎◌, inl, inr, true, false, none, some, [], Text, text,
  count, arith, text_key, Bool-cases,
}
use ida_mcp.Base.Map
use ida_mcp.Base.Map.{HasUniqueKeys}
use ida_mcp.Json.{Value}
use ida_mcp.Tasks.{
  TaskState, TaskEntry, Registry, Now, is_running, is_terminal, running, completed, cancelled,
  failed, terminal_task_cap, modify_entry, get, refresh_updated,
}
use ida_mcp.Tasks.Prune.{prune_within, count-prune_le}
use ida_mcp.Tasks.Updates.{cancelled_entry, pruned, complete, fail, cancel}
use ida_mcp.Tasks.Creation.{get-entry, get_of_entry}

-- An end that fits within the cap is what `get` then gives.
module _ (id : Text) (e : TaskEntry) (r : Registry)
    (room : count is_terminal r.entries < terminal_task_cap)
    (g : Map.get id r.entries ≡ some e) where
  ended : (f : TaskEntry → TaskEntry) → get id (pruned (modify_entry id f r)) ≡ some (f e).state
  ended f = get_of_entry id (f e) (pruned (modify_entry id f r)) (
      ap (Map.get id) (
        prune_within (Map.modify id f r.entries)
          (omega (arith, Map.count-modify-suc is_terminal id f r.entries)))
      ∙ Map.get-modify_self id f e r.entries g)

-- While there is room for one more terminal task, cancel of a task that is there aborts its
-- handle and makes it cancelled if it runs, and otherwise changes nothing.
pub cancel_lem :
    (id : Text) (now : Now) (r : Registry) (e : TaskEntry)
    → count is_terminal r.entries < terminal_task_cap
    → Map.get id r.entries ≡ some e
    → ((e.state.status ≡ running)
        × ((cancel id now r).done ≡ true)
        × ((cancel id now r).aborted ≡ e.handle)
        × (get id (cancel id now r).after
            ≡ some (
                refresh_updated now
                  (record (e.state) { status = cancelled; message = text "Cancelled by client" }))))
      ⊎ ((e.state.status ≢ running)
          × (cancel id now r ≡ record { after = r; aborted = none; done = false }))
unfolding cancel
cancel_lem id now r e room g = elim (Bool-cases (is_running e.state.status)) [
  | inl run ↦ rw (g, cancel, run) (inl (ground arith, refl, refl, ended id e r room g _))
  | inr over ↦ rw (g, cancel, over) (inr ((λ s. ground arith), refl))
]

-- `complete` and `fail` write their end over any other, also over a cancellation: the status that
-- the task had is not asked for.
pub end_overwrites :
    (id : Text) (result : Value) (error : Text) (now : Now) (r : Registry) (e : TaskEntry)
    → count is_terminal r.entries < terminal_task_cap
    → Map.get id r.entries ≡ some e
    → (get id (complete id result now r)
        ≡ some (
            refresh_updated now (record (e.state) {
              status = completed;
              message = text "Completed";
              result = some result;
            })))
      × (get id (fail id error now r)
          ≡ some (refresh_updated now (record (e.state) { status = failed; message = error })))
unfolding complete fail
end_overwrites id result error now r e room g = (ended id e r room g _, ended id e r room g _)

count-cancel_le :
    (id : Text) (now : Now) (r : Registry) (e : TaskEntry)
    → Map.get id r.entries ≡ some e
    → count is_terminal (cancel id now r).after.entries ≤ suc (count is_terminal r.entries)
unfolding cancel
count-cancel_le id now r e g = elim (Bool-cases (is_running e.state.status)) [
  | inl run ↦
      rw (g, cancel, run)
        (omega (
          arith,
          count-prune_le is_terminal (Map.modify id (cancelled_entry now) r.entries),
          Map.count-modify-suc is_terminal id (cancelled_entry now) r.entries,
        ))
  | inr over ↦ rw (g, cancel, over) (omega arith)
]

-- A running task that is cancelled and whose work still ends is shown as completed, while
-- there is room for two more terminal tasks.
pub complete-cancel :
    (id : Text) (result : Value) (now later : Now) (r : Registry) (e : TaskEntry)
    → suc (count is_terminal r.entries) < terminal_task_cap
    → Map.get id r.entries ≡ some e
    → e.state.status ≡ running
    → (s : TaskState) × (get id (complete id result later (cancel id now r).after) ≡ some s)
      × (s.status ≡ completed)
unfolding refresh_updated
complete-cancel id result now later r e room g run =
    let after = (cancel id now r).after in
    elim (cancel_lem id now r e (omega arith) g) [
      | inl (_, _, _, h) ↦
          let (c, g', _) = get-entry id _ after h in
          let fits : count is_terminal after.entries < terminal_task_cap =
            omega (arith, count-cancel_le id now r e g) in
          (_, (end_overwrites id result [] later after c fits g').0, refl)
      | inr (other, _) ↦ absurd (other run)
    ]
