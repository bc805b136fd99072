-- ===== src/Tasks/Lifecycle.antt =====
-- server/task.rs: a running task is left alone by every call about other tasks.
use ida_mcp.Base.{
  ◌≡◌, ◌≢◌, refl, sym, ap, subst, ◌∙◌, inl, inr, true, Option, none, some, Text, text,
  text_discrete, arith, text_key, Option-cases, Bool-cases,
}
use ida_mcp.Base.Map
use ida_mcp.Base.Map.{HasUniqueKeys}
use ida_mcp.Json.{Value}
use ida_mcp.Tasks.{
  TaskState, TaskEntry, Registry, Now, is_running, find_running, running, completed,
  prune_terminal_tasks, create_internal, create_completed, set_handle, get,
}
use ida_mcp.Tasks.Prune.{prune-get_running}
use ida_mcp.Tasks.Updates.{update_message, merge_meta, complete, fail, cancel}
use ida_mcp.Tasks.Invariant.{
  Call, creates, creates_completed, sets_handle, updates_message, merges_meta, completes, fails,
  cancels, step, Inv,
}
use ida_mcp.Tasks.Creation.{get-entry, get_of_entry, add_task-get_other}

-- The task that a call is about; a creation is about none that is there.
abbrev pub Spares : Text → Call → Type 0
Spares id (creates prefix key message meta) = Unit
Spares id (creates_completed message result) = Unit
Spares id (sets_handle j h) = Unit
Spares id (updates_message j message) = j ≢ id
Spares id (merges_meta j patch) = j ≢ id
Spares id (completes j result) = j ≢ id
Spares id (fails j error) = j ≢ id
Spares id (cancels j) = j ≢ id

modify-get_other :
    (j id : Text) (f : TaskEntry → TaskEntry) (e : TaskEntry) (r : Registry)
    → Inv r
    → j ≢ id
    → Map.get id r.entries ≡ some e
    → is_running e.state.status ≡ true
    → Map.get id (prune_terminal_tasks (Map.modify j f r.entries)) ≡ some e
modify-get_other j id f e r v ne g run =
    prune-get_running id e (Map.modify j f r.entries)
      (Map.modify-HasUniqueKeys j f r.entries v.unique) (Map.get-modify_ne j id f r.entries ne ∙ g)
      run

create_internal-get_other :
    (prefix : Text) (key : Option Text) (message : Text) (meta : Option Value) (now : Now)
    (r : Registry) (id : Text) (e : TaskEntry)
    → Inv r
    → Map.get id r.entries ≡ some e
    → is_running e.state.status ≡ true
    → Map.get id (create_internal prefix key message meta now r).0.entries ≡ some e
unfolding create_internal
create_internal-get_other prefix key message meta now r id e v g run =
    elim (Option-cases (find_running key r.entries)) [
      | inl fresh ↦
          rw (fresh, create_internal)
            (add_task-get_other prefix running message meta none key now r id e v g run)
      | inr (x, found) ↦ rw (found, create_internal) g
    ]

cancel-get_other :
    (j id : Text) (now : Now) (r : Registry) (e : TaskEntry)
    → Inv r
    → j ≢ id
    → Map.get id r.entries ≡ some e
    → is_running e.state.status ≡ true
    → Map.get id (cancel j now r).after.entries ≡ some e
unfolding cancel
cancel-get_other j id now r e v ne g run = elim (Option-cases (Map.get j r.entries)) [
  | inl missing ↦ rw (missing, cancel) g
  | inr (x, found) ↦ elim (Bool-cases (is_running x.state.status)) [
    | inl runs ↦ rw (found, cancel, runs) (modify-get_other j id _ e r v ne g run)
    | inr over ↦ rw (found, cancel, over) g
  ]
]

step-entry_other :
    (now : Now) (c : Call) (r : Registry) (id : Text) (e : TaskEntry)
    → Inv r
    → Spares id c
    → Map.get id r.entries ≡ some e
    → is_running e.state.status ≡ true
    → (d : TaskEntry) × (Map.get id (step now c r).entries ≡ some d) × (d.state ≡ e.state)
unfolding step set_handle update_message merge_meta complete fail create_completed
step-entry_other now (creates prefix key message meta) r id e v other g run =
    (e, create_internal-get_other prefix key message meta now r id e v g run, refl)
step-entry_other now (creates_completed message result) r id e v other g run = (
  e,
  add_task-get_other (text "task") completed message none (some result) none now r id e v g run,
  refl,
)
step-entry_other now (sets_handle j h) r id e v other g run =
    let f = λ (c : TaskEntry). record c { handle = some h } in
    elim (text_discrete j id) [
      | yes same ↦ (
        f e,
        subst (λ i. Map.get id (Map.modify i f r.entries) ≡ some (f e)) (sym same)
            (Map.get-modify_self id f e r.entries g),
        refl,
      )
      | no ne ↦ (e, Map.get-modify_ne j id f r.entries ne ∙ g, refl)
    ]
step-entry_other now (updates_message j message) r id e v ne g run =
    (e, Map.get-modify_ne j id _ r.entries ne ∙ g, refl)
step-entry_other now (merges_meta j patch) r id e v ne g run =
    (e, Map.get-modify_ne j id _ r.entries ne ∙ g, refl)
step-entry_other now (completes j result) r id e v ne g run =
    (e, modify-get_other j id _ e r v ne g run, refl)
step-entry_other now (fails j error) r id e v ne g run =
    (e, modify-get_other j id _ e r v ne g run, refl)
step-entry_other now (cancels j) r id e v ne g run =
    (e, cancel-get_other j id now r e v ne g run, refl)

-- In a registry that satisfies the invariant, no call about other tasks, pruning included,
-- changes what get gives of a running task.
pub step-get_running :
    (now : Now) (c : Call) (r : Registry) (id : Text) (s : TaskState)
    → Inv r
    → Spares id c
    → get id r ≡ some s
    → s.status ≡ running
    → get id (step now c r) ≡ some s
step-get_running now c r id s v other h run =
    let (e, g, same) = get-entry id s r h in
    let (d, g', kept) = step-entry_other now c r id e v other g (ground arith) in
    get_of_entry id d (step now c r) g' ∙ ap some (kept ∙ same)
