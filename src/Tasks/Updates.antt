-- ===== src/Tasks/Updates.antt =====
-- server/task.rs: the methods of the registry that change a task once it is there.
use ida_mcp.Base.{if◌then◌else◌, ℕ, Bool, true, false, Option, none, some, Text, text, text_key}
use ida_mcp.Base.Map
use ida_mcp.Json.{Value, Fields, object, end, field, insert_field}
use ida_mcp.Tasks.{
  TaskEntry, Registry, Now, is_running, completed, failed, cancelled, refresh_updated,
  prune_terminal_tasks, modify_entry,
}

unfoldable pub update_message : Text → Text → Now → Registry → Registry
unfolding refresh_updated
update_message id message now =
    modify_entry id
      (λ e. record e { state = refresh_updated now (record (e.state) { message = message }) })

abbrev pub insert_fields : Fields → Fields → Fields
insert_fields end existing = existing
insert_fields (field k v patch) existing = insert_fields patch (insert_field k v existing)

unfoldable pub merged : Option Value → Value → Value
merged (some (object existing)) (object patch) = object (insert_fields patch existing)
merged _ patch = patch

unfoldable pub merge_meta : Text → Value → Now → Registry → Registry
unfolding merged refresh_updated
merge_meta id patch now = modify_entry id (λ e. record e {
  state = refresh_updated now (record (e.state) { meta = some (merged e.state.meta patch) });
})

abbrev pub pruned : Registry → Registry
pruned r = record r { entries = prune_terminal_tasks r.entries }

unfoldable pub complete : Text → Value → Now → Registry → Registry
unfolding refresh_updated prune_terminal_tasks
complete id result now r = pruned (
    modify_entry id
      (λ e. record {
        state = refresh_updated now (record (e.state) {
          status = completed;
          message = text "Completed";
          result = some result;
        });
        handle = none;
      })
      r)

unfoldable pub fail : Text → Text → Now → Registry → Registry
unfolding refresh_updated prune_terminal_tasks
fail id error now r = pruned (
    modify_entry id
      (λ e. record {
        state = refresh_updated now (record (e.state) { status = failed; message = error });
        handle = none;
      })
      r)

pub record Cancelled : Type 0 where
  pub after : Registry
  pub aborted : Option ℕ
  pub done : Bool

abbrev pub cancelled_entry : Now → TaskEntry → TaskEntry
cancelled_entry now e = record {
  state =
      refresh_updated now
        (record (e.state) { status = cancelled; message = text "Cancelled by client" });
  handle = none;
}

-- The guard and the body of `cancel`, for the entry that it finds.
cancel_entry : Text → TaskEntry → Now → Registry → Cancelled
unfolding refresh_updated prune_terminal_tasks
cancel_entry id e now r =
    if is_running e.state.status
    then record {
      after = pruned (modify_entry id (cancelled_entry now) r);
      aborted = e.handle;
      done = true;
    }
    else record { after = r; aborted = none; done = false }

unfoldable pub cancel : Text → Now → Registry → Cancelled
unfolding cancel_entry
cancel id now r = elim (Map.get id r.entries) [
  | none ↦ record { after = r; aborted = none; done = false }
  | some e ↦ cancel_entry id e now r
]
