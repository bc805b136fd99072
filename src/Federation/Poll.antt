-- ===== src/Federation/Poll.antt =====
-- router/mod.rs: the polling task of `enqueue_federated_task` ends when the remote task has ended, and
-- the task of the registry ends with it.
use ida_mcp.Base.{
  ◌<◌, ◌≡◌, refl, sym, ap, subst, ◌∙◌, inl, inr, Bool, true, false, Option, none, some, List, [],
  ◌∷◌, ◌++◌, Text, text, text_eq, count, unwrap_or, if◌then◌else◌, Option-cases, Bool-cases, arith,
  text_key,
}
use ida_mcp.Base.Map
use ida_mcp.Federation.{Fallible, ok, err}
use ida_mcp.Federation.Requests.{RemoteTaskStatus, fetch_remote_task}
use ida_mcp.Federation.Dispatch.{
  Poll, Tick, remote_result, apply_status, poll_answer, poll_step, poll_loop,
}
use ida_mcp.Json.{Value, null, text_at}
use ida_mcp.Tasks
use ida_mcp.Tasks.{
  TaskStatus, TaskState, TaskEntry, Registry, Now, is_terminal, is_running, running, completed,
  failed, cancelled, terminal_task_cap, refresh_updated,
}
use ida_mcp.Tasks.Ends.{end_overwrites}
use ida_mcp.Tasks.Updates.{update_message, complete, fail}

-- The end that a remote status stands for.
abbrev pub final_of : Text → Option TaskStatus
final_of status =
    if text_eq status (text "completed")
    then some completed
    else if text_eq status (text "failed")
    then some failed
    else if text_eq status (text "cancelled")
    then some failed
    else none

abbrev pub final_answer : Fallible RemoteTaskStatus → Option TaskStatus
final_answer (err e) = none
final_answer (ok remote) =
    final_of (unwrap_or (text_at (text "status") remote.payload) (text "unknown"))

-- The first end that the ticks see.
abbrev pub or_later : Option TaskStatus → Option TaskStatus → Option TaskStatus
or_later none rest = rest
or_later (some s) rest = some s

abbrev pub first_final : Poll → List Tick → Option TaskStatus
first_final p [] = none
first_final p (tick ∷ ticks) =
    or_later (final_answer (fetch_remote_task tick.network p.node p.remote_task_id))
      (first_final p ticks)

-- The task is there, and one more may end.
pub record IsOpen (id : Text) (r : Registry) : Type 0 where
  pub entry : TaskEntry
  pub at : Map.get id r.entries ≡ some entry
  pub room : count is_terminal r.entries < terminal_task_cap

update_message-IsOpen :
    (id message : Text) (now : Now) (r : Registry)
    → IsOpen id r
    → IsOpen id (update_message id message now r)
unfolding update_message refresh_updated
update_message-IsOpen id message now r o = record {
  entry = _;
  at = Map.get-modify_self id _ o.entry r.entries o.at;
  room = omega (
    arith,
    o.room,
    Map.count-modify_le is_terminal id
        (λ e. record e { state = refresh_updated now (record (e.state) { message = message }) })
        r.entries (λ j e h. h),
  );
}

abbrev EndsAs : Text → TaskStatus → Registry × Bool → Type 0
EndsAs id status out =
    (out.1 ≡ true) × ((s : TaskState) × (Tasks.get id out.0 ≡ some s) × (s.status ≡ status))

complete-EndsAs :
    (id : Text) (v : Value) (now : Now) (r : Registry)
    → IsOpen id r
    → EndsAs id completed (complete id v now r, true)
unfolding refresh_updated
complete-EndsAs id v now r o =
    (refl, (_, (end_overwrites id v [] now r o.entry o.room o.at).0, refl))

fail-EndsAs :
    (id message : Text) (now : Now) (r : Registry)
    → IsOpen id r
    → EndsAs id failed (fail id message now r, true)
unfolding refresh_updated
fail-EndsAs id message now r o =
    (refl, (_, (end_overwrites id null message now r o.entry o.room o.at).1, refl))

apply_status-EndsAs :
    (id : Text) (p : Poll) (payload : Value) (status message : Text) (now : Now) (r : Registry)
    (t : TaskStatus)
    → IsOpen id r
    → final_of status ≡ some t
    → EndsAs id t (apply_status id p payload status message now r)
apply_status-EndsAs id p payload status message now r t o h =
    elim (Bool-cases (text_eq status (text "completed"))) [
      | inl done ↦
          let same : completed ≡ t = ground arith in
          rw done (
            subst (λ u. EndsAs id u (complete id (remote_result p payload) now r, true)) same
              (complete-EndsAs id (remote_result p payload) now r o))
      | inr undone ↦ elim (Bool-cases (text_eq status (text "failed"))) [
        | inl lost ↦
            let same : failed ≡ t = ground arith in
            let said = text "remote " ++ (p.node.name ++ (text " failed: " ++ message)) in
            rw (undone, lost)
              (subst (λ u. EndsAs id u (fail id said now r, true)) same
                (fail-EndsAs id said now r o))
        | inr kept ↦ elim (Bool-cases (text_eq status (text "cancelled"))) [
          | inl over ↦
              let same : failed ≡ t = ground arith in
              let said = text "remote " ++ (p.node.name ++ text " cancelled") in
              rw (undone, kept, over)
                (subst (λ u. EndsAs id u (fail id said now r, true)) same
                  (fail-EndsAs id said now r o))
          | inr open_still ↦ absurd (ground arith)
        ]
      ]
    ]

apply_status-open :
    (id : Text) (p : Poll) (payload : Value) (status message : Text) (now : Now) (r : Registry)
    → final_of status ≡ none
    → apply_status id p payload status message now r ≡ (r, false)
apply_status-open id p payload status message now r h = ground arith

-- One tick either ends the task as the answer says, or leaves it open.
poll_answer-EndsAs :
    (id : Text) (p : Poll) (seen ended : Now) (answer : Fallible RemoteTaskStatus) (r : Registry)
    (t : TaskStatus)
    → IsOpen id r
    → final_answer answer ≡ some t
    → EndsAs id t (poll_answer id p seen ended answer r)
poll_answer-EndsAs id p seen ended (err e) r t o h = absurd (ground arith)
poll_answer-EndsAs id p seen ended (ok remote) r t o h =
    apply_status-EndsAs id p remote.payload _ _ ended (update_message id _ seen r) t
      (update_message-IsOpen id _ seen r o) h

poll_answer-IsOpen :
    (id : Text) (p : Poll) (seen ended : Now) (answer : Fallible RemoteTaskStatus) (r : Registry)
    → IsOpen id r
    → final_answer answer ≡ none
    → let out = poll_answer id p seen ended answer r in (out.1 ≡ false) × IsOpen id out.0
poll_answer-IsOpen id p seen ended (err e) r o h = (refl, update_message-IsOpen id _ seen r o)
poll_answer-IsOpen id p seen ended (ok remote) r o h =
    let same = apply_status-open id p remote.payload _ _ ended (update_message id _ seen r) h in
    (
      ap (λ x. x.1) same,
      subst (λ x. IsOpen id x.0) (sym same) (update_message-IsOpen id _ seen r o),
    )

-- Where the task is in the registry with room for one more that has ended, and the remote task
-- is seen as completed, failed or cancelled at some tick, the polling loop ends, and the task
-- is then completed or failed as the first such tick says.
pub poll_loop-EndsAs :
    (id : Text) (p : Poll) (ticks : List Tick) (r : Registry) (t : TaskStatus)
    → IsOpen id r
    → first_final p ticks ≡ some t
    → let out = poll_loop id p ticks r in
      (out.1 ≡ true) × ((s : TaskState) × (Tasks.get id out.0 ≡ some s) × (s.status ≡ t))
unfolding poll_loop poll_step
poll_loop-EndsAs id p [] r t o h = absurd (ground arith)
poll_loop-EndsAs id p (tick ∷ ticks) r t o h =
    elim (Option-cases (final_answer (fetch_remote_task tick.network p.node p.remote_task_id))) [
      | inr (u, now_final) ↦
          let same : u ≡ t = ground arith in
          let (ended, (s, at, is)) =
            poll_answer-EndsAs id p tick.seen tick.ended
              (fetch_remote_task tick.network p.node p.remote_task_id) r u o now_final in
          rw (ended, poll_loop) (refl, (s, at, is ∙ same))
      | inl not_yet ↦
          let (e, o') =
            poll_answer-IsOpen id p tick.seen tick.ended
              (fetch_remote_task tick.network p.node p.remote_task_id) r o not_yet in
          rw (e, poll_loop)
            (poll_loop-EndsAs id p ticks (poll_step id p tick r).0 t o' (ground arith))
    ]
