-- ===== src/Queue/Cancel.antt =====
-- router/mod.rs: what `cancel_task` does to a job that waits in the queue.
use ida_mcp.Base.{
  ◌+◌, ◌≤◌, ◌≡◌, ◌≢◌, refl, sym, ap, subst, ◌∙◌, ◌⊎◌, inl, inr, Bool, true, false, ◌&&◌, Option,
  none, some, List, [], ◌∷◌, ◌++◌, Text, text, text_eq, is_some, length, count, find, All, leb,
  if◌then◌else◌, Bool-cases, Option-cases, arith, HashMap, text_key,
}
use ida_mcp.Base.Map
use ida_mcp.Queue.{active_for, remove_first}
use ida_mcp.Queue.Jobs.{
  QueuedRouteTask, RouteTask, Jobs, route_queued, queued_task, route_meta, register_task,
  queue_task, accept_route_task, then_drive, enqueue_route_task, cancel_queued, cancel_task,
}
use ida_mcp.Queue.Waiting.{is_task, Waits, drive_route_queue-Waits, drive_route_queue-idle}
use ida_mcp.Queue.Order.{count-push_sorted, remove_first-Taken, remove_first-none}
use ida_mcp.Router.{Result, ok, err}
use ida_mcp.Router.Config.{RouterConfig}
use ida_mcp.Router.Tenant.{normalize_tenant}
use ida_mcp.Tasks
use ida_mcp.Tasks.{
  TaskState, TaskEntry, Registry, Now, Created, created_id, create_with_key, create_internal,
  add_task, find_running, holds_key, next_task_id, refresh_updated, running, terminal_task_cap,
  is_terminal,
}
use ida_mcp.Tasks.Creation.{get-entry, get_of_entry, add_task-get_new, create_internal-Outcome}
use ida_mcp.Tasks.Invariant.{Inv}
use ida_mcp.Tasks.Updates.{cancel, merge_meta, merged}

cancel_running :
    (id : Text) (now : Now) (r : Registry) (e : TaskEntry)
    → Map.get id r.entries ≡ some e
    → e.state.status ≡ running
    → (cancel id now r).done ≡ true
unfolding cancel
cancel_running id now r e there run = rw (there, cancel, run) refl

cancel_ended :
    (id : Text) (now : Now) (r : Registry) (e : TaskEntry)
    → Map.get id r.entries ≡ some e
    → e.state.status ≢ running
    → (cancel id now r).done ≡ false
unfolding cancel
cancel_ended id now r e there ended = ground arith

-- Cancel_task of a task that the registry knows: if it runs there, the answer is true and the
-- queue stays as it is; if not, the answer is whether a job of that identifier is queued, and
-- one such job, and no other, is taken out of the queue.
pub cancel_task_lem :
    (id : Text) (now : Now) (s : Jobs) (e : TaskEntry)
    → Map.get id s.task_registry.entries ≡ some e
    → ((e.state.status ≡ running)
        × ((cancel_task id now s).1 ≡ true)
        × ((cancel_task id now s).0.queue ≡ s.queue))
      ⊎ ((e.state.status ≢ running)
          × ((cancel_task id now s).1 ≡ leb 1 (count (is_task id) s.queue.queued))
          × ((j : Text)
              → count (is_task j) s.queue.queued
                ≡ count (is_task j) (cancel_task id now s).0.queue.queued
                  + (if (cancel_task id now s).1 && text_eq id j then 1 else 0)))
unfolding cancel_task cancel_queued
cancel_task_lem id now s e there = elim (Bool-cases (Tasks.is_running e.state.status)) [
  | inl run ↦
      rw (cancel_running id now s.task_registry e there (ground arith))
        (inl (ground arith, refl, refl))
  | inr over ↦
      let ended : e.state.status ≢ running = λ at. ground arith in
      elim (Option-cases (remove_first (is_task id) s.queue.queued)) [
        | inl none_left ↦
            rw (cancel_ended id now s.task_registry e there ended, none_left, cancel_queued)
              (inr (
                ended,
                ground (
                  arith,
                  count_zero id s.queue.queued
                      (remove_first-none (is_task id) s.queue.queued none_left),
                ),
                λ j. omega arith,
              ))
        | inr ((task, rest), found) ↦
            let t = remove_first-Taken (is_task id) s.queue.queued task rest found in
            rw (cancel_ended id now s.task_registry e there ended, found, cancel_queued)
              (inr (
                ended,
                ground (arith, t.passes, t.split (is_task id)),
                λ j. ground (arith, t.passes, t.split (is_task j)),
              ))
      ]
]
  where
    count_zero :
        (i : Text) (xs : List QueuedRouteTask)
        → All (λ y. is_task i y ≡ false) xs
        → count (is_task i) xs ≡ 0
    count_zero i [] h = refl
    count_zero i (x ∷ xs) h = ground (arith, count_zero i xs h.1)

-- What the creation of a job leaves in the registry is running.
record Registered (t : RouteTask) (now : Now) (r : Registry) : Type 0 where
  entry : TaskEntry
  there : Map.get (register_task t now r).1 (register_task t now r).0.entries ≡ some entry
  runs : entry.state.status ≡ running

register_new :
    (t : RouteTask) (now : Now) (r : Registry) (s : Registry) (c : Created) (e : TaskEntry)
    → create_with_key (text "job") t.dedupe_key (text "Queued " ++ t.method) now r ≡ (s, c)
    → Map.get (created_id c) s.entries ≡ some e
    → e.state.status ≡ running
    → Registered t now r
unfolding register_task merge_meta
register_new t now r s c e same there run =
    let id = created_id c in
    let f = λ (d : TaskEntry). record d {
      state =
          refresh_updated now
            (record (d.state) { meta = some (merged d.state.meta (route_meta t)) });
    } in
    record {
      entry = f e;
      there =
          subst
            (λ out.
              Map.get (created_id out.1)
                (merge_meta (created_id out.1) (route_meta t) now out.0).entries
              ≡ some (f e))
            (sym same) (Map.get-modify_self id f e s.entries there);
      runs = run;
    }

find_zero :
    (p : Text × TaskEntry → Bool) (m : HashMap Text TaskEntry) → count p m ≡ 0 → find p m ≡ none
find_zero p [] h = refl
find_zero p (x ∷ m) h = ground (arith, find_zero p m)

find_running-none :
    (key : Option Text) (m : HashMap Text TaskEntry)
    → ((k : Text) → key ≡ some k → count (holds_key k) m ≡ 0)
    → find_running key m ≡ none
unfolding find_running
find_running-none none m h = refl
find_running-none (some k) m h = find_zero (holds_key k) m (h k refl)

register-Registered : (t : RouteTask) (now : Now) (r : Registry) → Inv r → Registered t now r
unfolding create_with_key create_internal
register-Registered t now r v = elim (Option-cases t.dedupe_key) [
  | inl keyless ↦ fresh (find_running-none t.dedupe_key r.entries (λ k e. absurd (ground arith)))
  | inr (k, keyed) ↦
      elim (create_internal-Outcome (text "job") k (text "Queued " ++ t.method) none now r v) [
        | inl (id, s, same, there, run, _) ↦
            let (e, at, state) = get-entry id s r there in
            register_new t now r r (Created.err id) e
              (ap (λ key. create_internal (text "job") key (text "Queued " ++ t.method) none now r)
                  keyed
                ∙ same)
              at (ap (λ x. x.status) state ∙ run)
        | inr (free, _, _, _) ↦ fresh (
            find_running-none t.dedupe_key r.entries
              (λ j e. subst (λ i. count (holds_key i) r.entries ≡ 0) (ground arith) free))
      ]
]
  where
    fresh : find_running t.dedupe_key r.entries ≡ none → Registered t now r
    fresh e =
        let id = next_task_id (text "job") r.counter in
        let message = text "Queued " ++ t.method in
        let s = (add_task (text "job") running message none none t.dedupe_key now r).0 in
        let (entry, at, state) =
          get-entry id _ s (add_task-get_new (text "job") message none t.dedupe_key now r v) in
        register_new t now r s (Created.ok id) entry (rw (e, create_internal) refl) at
          (ap (λ x. x.status) state)

-- A job that runs in the registry and is put into the queue waits there.
queue_task-Waits :
    (t : RouteTask) (now : Now) (s : Jobs) (id : Text) (r : Registry) (e : TaskEntry)
    → Map.get id s.queue.active ≡ none
    → Map.get id r.entries ≡ some e
    → e.state.status ≡ running
    → Waits id (queue_task id t now (record s { task_registry = r }))
unfolding queue_task
queue_task-Waits t now s id r e idle there run =
    let known : is_some (Tasks.get id r) ≡ true = ap is_some (get_of_entry id e r there) in
    rw (known, idle)
      (record {
        queued =
            ground (arith, count-push_sorted (is_task id) (queued_task id t now) s.queue.queued);
        entry = e;
        there = there;
        is_run = run;
      })

queue_task-active :
    (t : RouteTask) (now : Now) (s : Jobs) (id : Text)
    → (queue_task id t now s).queue.active ≡ s.queue.active
unfolding queue_task
queue_task-active t now s id = ground arith

-- A job that waits is cancelled in the registry only.
cancel_waiting :
    (id : Text) (later : Now) (s : Jobs)
    → Waits id s
    → let (after, cancelled) = cancel_task id later s in
      (cancelled ≡ true) × (1 ≤ count (is_task id) after.queue.queued)
cancel_waiting id later s w = elim (cancel_task_lem id later s w.entry w.there) [
  | inl (_, done, same) ↦ (done, subst (λ q. 1 ≤ count (is_task id) q.queued) (sym same) w.queued)
  | inr (ended, _, _) ↦ absurd (ended w.is_run)
]

accept-Waits :
    (config : RouterConfig) (t : RouteTask) (now : Now) (s : Jobs) (id : Text)
    → Inv s.task_registry
    → (accept_route_task config t now s).1 ≡ ok id
    → Map.get id (accept_route_task config t now s).0.queue.active ≡ none
    → Waits id (accept_route_task config t now s).0
unfolding accept_route_task
accept-Waits config t now s id v accepted idle =
    elim (Bool-cases (leb config.max_queued_tasks (length s.queue.queued))) [
      | inl full ↦ absurd (ground arith)
      | inr room ↦
          elim (Bool-cases (
            leb config.max_tasks_per_tenant
              (active_for (normalize_tenant t.tenant_id) s.queue.tenant_active))) [
                | inl taken ↦ absurd (ground arith)
                | inr free ↦
                    let made = register_task t now s.task_registry in
                    let same : made.1 ≡ id = ground arith in
                    let g = register-Registered t now s.task_registry v in
                    let unstarted : Map.get made.1 s.queue.active ≡ none = ground (
                      arith,
                      queue_task-active t now (record s { task_registry = made.0 }) made.1,
                    ) in
                    rw (room, accept_route_task)
                      (rw (free, accept_route_task)
                        (subst
                          (λ i.
                            Waits i (queue_task made.1 t now (record s { task_registry = made.0 })))
                          same
                          (queue_task-Waits t now s made.1 made.0 g.entry unstarted g.there
                            g.runs)))
              ]
    ]

drives :
    (config : RouterConfig) (driven : Now) (p : Jobs × Result Text) (id : Text)
    (started : List QueuedRouteTask)
    → ((i : Text) → p.1 ≡ ok i → Map.get i p.0.queue.active ≡ none → Waits i p.0)
    → (then_drive config driven p).1 ≡ ok (id, started)
    → Map.get id (then_drive config driven p).0.queue.active ≡ none
    → Waits id (then_drive config driven p).0
drives config driven (s, err e) id started w accepted idle = absurd (ground arith)
drives config driven (s, ok i) id started w accepted idle =
    let same : i ≡ id = ground arith in
    drive_route_queue-Waits id config driven s
      (w id (ap ok same) (drive_route_queue-idle id config driven s idle)) idle

-- A job that enqueue_route_task accepts, from a registry that satisfies the invariant, and
-- that the call does not start, so that it is not active after it, is still in the queue after
-- it is cancelled, though cancel_task answers true.
pub enqueue-cancel :
    (config : RouterConfig) (t : RouteTask) (now driven later : Now) (s : Jobs) (id : Text)
    (started : List QueuedRouteTask)
    → Inv s.task_registry
    → (enqueue_route_task config t now driven s).1 ≡ ok (id, started)
    → Map.get id (enqueue_route_task config t now driven s).0.queue.active ≡ none
    → let (after, cancelled) = cancel_task id later (enqueue_route_task config t now driven s).0 in
      (cancelled ≡ true) × (1 ≤ count (is_task id) after.queue.queued)
unfolding enqueue_route_task
enqueue-cancel config t now driven later s id started v accepted idle =
    cancel_waiting id later (enqueue_route_task config t now driven s).0 (
      drives config driven (accept_route_task config t now s) id started
        (λ i. accept-Waits config t now s i v) accepted idle)
