-- ===== src/Tasks/Creation.antt =====
-- server/task.rs: the creation of a task, keyed or not.
use ida_mcp.Base.{
  ◌≡◌, refl, sym, subst, ◌⊎◌, inl, inr, true, Option, none, some, Text, count, arith, text_key,
  Option-cases, find, find-none, find-some, find-All,
}
use ida_mcp.Base.Map
use ida_mcp.Base.Map.{HasUniqueKeys}
use ida_mcp.Json.{Value}
use ida_mcp.Tasks.{
  TaskStatus, TaskState, TaskEntry, Registry, Now, Created, ok, err, is_running, holds_key, running,
  next_task_id, fresh_state, fresh_entry, add_task, create_internal, get, counter_after,
}
use ida_mcp.Tasks.Prune.{prune-get_running}
use ida_mcp.Tasks.Invariant.{Inv}
use ida_mcp.Tasks.Steps.{fresh_id}

-- What `get` gives is an entry's state.
pub get-entry :
    (id : Text) (s : TaskState) (r : Registry)
    → get id r ≡ some s
    → (e : TaskEntry) × (Map.get id r.entries ≡ some e) × (e.state ≡ s)
unfolding get
get-entry id s r h = elim (Option-cases (Map.get id r.entries)) [
  | inl e ↦ absurd (ground arith)
  | inr (e, g) ↦ (e, g, ground arith)
]

pub get_of_entry :
    (id : Text) (e : TaskEntry) (r : Registry)
    → Map.get id r.entries ≡ some e
    → get id r ≡ some e.state
unfolding get
get_of_entry id e r h = ground arith

-- A running entry is found again after another entry was put in and the registry pruned.
pub add_task-get_other :
    (prefix : Text) (status : TaskStatus) (message : Text) (meta result : Option Value)
    (key : Option Text) (now : Now) (r : Registry) (id : Text) (e : TaskEntry)
    → Inv r
    → Map.get id r.entries ≡ some e
    → is_running e.state.status ≡ true
    → Map.get id (add_task prefix status message meta result key now r).0.entries ≡ some e
unfolding add_task
add_task-get_other prefix status message meta result key now r id e v g run =
    let new = next_task_id prefix r.counter in
    let entry = fresh_entry new status message meta result key now in
    prune-get_running id e (Map.insert new entry r.entries)
      (Map.insert-HasUniqueKeys new entry r.entries v.unique)
      (Map.get-insert_of_none new id entry e r.entries (fresh_id r prefix v) g) run

-- A running task that was just made is there.
pub add_task-get_new :
    (prefix message : Text) (meta : Option Value) (key : Option Text) (now : Now) (r : Registry)
    → Inv r
    → get (next_task_id prefix r.counter) (add_task prefix running message meta none key now r).0
      ≡ some (fresh_state (next_task_id prefix r.counter) running message meta none key now)
unfolding add_task
add_task-get_new prefix message meta key now r v =
    let new = next_task_id prefix r.counter in
    let entry = fresh_entry new running message meta none key now in
    get_of_entry new entry (add_task prefix running message meta none key now r).0 (
      prune-get_running new entry (Map.insert new entry r.entries)
        (Map.insert-HasUniqueKeys new entry r.entries v.unique)
        (Map.get-insert_self new entry r.entries) refl)

abbrev pub Outcome :
    Text → Text → Text → Option Value → Now → Registry → Registry × Created → Type 0
Outcome prefix k message meta now r out =
    ((id : Text) × (s : TaskState) × (out ≡ (r, err id))
      × (get id r ≡ some s)
      × (s.status ≡ running)
      × (s.key ≡ some k))
    ⊎ ((count (holds_key k) r.entries ≡ 0)
        × (out.1 ≡ ok (next_task_id prefix r.counter))
        × (get (next_task_id prefix r.counter) out.0
            ≡ some (
                fresh_state (next_task_id prefix r.counter) running message meta none (some k) now))
        × (out.0.counter ≡ counter_after r.counter))

-- In a registry that satisfies the invariant a keyed creation either gives the identifier of
-- the running task of that key and changes nothing, or no such task runs, and the new one runs
-- under a new identifier.
pub create_internal-Outcome :
    (prefix k message : Text) (meta : Option Value) (now : Now) (r : Registry)
    → Inv r
    → Outcome prefix k message meta now r (create_internal prefix (some k) message meta now r)
unfolding create_internal
create_internal-Outcome prefix k message meta now r v =
    elim (Option-cases (find (holds_key k) r.entries)) [
      | inl e ↦
          rw (e, create_internal)
            (inr (
              find-none (holds_key k) r.entries e,
              refl,
              add_task-get_new prefix message meta (some k) now r v,
              refl,
            ))
      | inr ((id, x), e) ↦
          let at : Map.get id r.entries ≡ some x =
            Map.get-find (holds_key k) id x r.entries v.unique e in
          let name : x.state.id ≡ id =
            find-All (λ y. y.1.state.id ≡ y.0) (holds_key k) r.entries (id, x) v.named e in
          let holds : holds_key k (id, x) ≡ true = find-some (holds_key k) r.entries (id, x) e in
          rw (e, create_internal)
            (inl (
              x.state.id,
              x.state,
              refl,
              subst (λ i. get i r ≡ some x.state) (sym name) (get_of_entry id x r at),
              ground arith,
              ground arith,
            ))
    ]
