-- ===== src/Tasks/Tests.antt =====
-- server/task.rs on a small registry: a keyed task, another one, and a cancellation.
use ida_mcp.Base.{
  ℕ, zero, suc, HashMap, ◌<◌, ◌≤◌, ◌≡◌, ◌≢◌, refl, ◌⊎◌, none, some, List, [], ◌∷◌, Text, text,
  text_discrete, ℕ_discrete, count, arith, text_key, decimal, true, false,
}
use ida_mcp.Base.Map
use ida_mcp.Base.Map.{HasUniqueKeys}
use ida_mcp.Base.Sort.{sort}
use ida_mcp.Json.{null}
use ida_mcp.Tasks.{
  TaskState, TaskEntry, Registry, Now, running, completed, cancelled, terminal_task_cap, new,
  is_terminal, next_task_id, fresh_entry, add_task, create_internal, find_running,
  prune_terminal_tasks, refresh_updated, get,
}
use ida_mcp.Tasks.Creation.{get_of_entry, Outcome, create_internal-Outcome}
use ida_mcp.Tasks.Ends.{cancel_lem, complete-cancel}
use ida_mcp.Tasks.Invariant.{Call, Inv, creates, cancels, step, run}
use ida_mcp.Tasks.Lifecycle.{step-get_running}
use ida_mcp.Tasks.Prune.{prune_oldest}
use ida_mcp.Tasks.Steps.{run-Inv}
use ida_mcp.Tasks.Updates.{cancel, complete}

abbrev at : ℕ → Now
at n = record { instant = n; unix_secs = 0 }

abbrev history : List (Now × Call)
history =
    (at 1, creates (text "job") (some (text "k")) (text "go") none)
    ∷ (at 2, creates (text "task") none (text "other") none)
    ∷ []

abbrev two_tasks : Registry
two_tasks = run history new

two_tasks-Inv : Inv two_tasks
two_tasks-Inv = run-Inv history (omega arith)

run-Inv_example : Inv two_tasks
run-Inv_example = run-Inv history (omega arith)

create_internal-Outcome_example :
    Outcome
      (text "job")
      (text "k")
      (text "again")
      none
      (at 3)
      two_tasks
      (create_internal (text "job") (some (text "k")) (text "again") none (at 3) two_tasks)
create_internal-Outcome_example =
    create_internal-Outcome (text "job") (text "k") (text "again") none (at 3) two_tasks
      two_tasks-Inv

abbrev job : Text
job = text "job-1"

abbrev job_entry : TaskEntry
job_entry = fresh_entry job running (text "go") none none (some (text "k")) (at 1)

job_there : Map.get job two_tasks.entries ≡ some job_entry
unfolding run step create_internal find_running add_task next_task_id decimal prune_terminal_tasks
    text_discrete ℕ_discrete
job_there = refl

job_state : get job two_tasks ≡ some job_entry.state
job_state = get_of_entry job job_entry two_tasks job_there

step-get_running_example :
    get job (step (at 3) (cancels (text "task-2")) two_tasks) ≡ some job_entry.state
step-get_running_example =
    step-get_running (at 3) (cancels (text "task-2")) two_tasks job job_entry.state two_tasks-Inv
      other job_state refl
  where
    other : text "task-2" ≢ job
    other same = absurd (ground arith)

few_terminal : suc (count is_terminal two_tasks.entries) < terminal_task_cap
unfolding run step create_internal find_running add_task next_task_id decimal prune_terminal_tasks
    text_discrete ℕ_discrete
few_terminal = omega arith

cancel_lem_example :
    ((job_entry.state.status ≡ running)
      × ((cancel job (at 3) two_tasks).done ≡ true)
      × ((cancel job (at 3) two_tasks).aborted ≡ none)
      × (get job (cancel job (at 3) two_tasks).after
          ≡ some (
              refresh_updated (at 3) (record (job_entry.state) {
                status = cancelled;
                message = text "Cancelled by client";
              }))))
    ⊎ ((job_entry.state.status ≢ running)
        × (cancel job (at 3) two_tasks
            ≡ record { after = two_tasks; aborted = none; done = false }))
cancel_lem_example =
    cancel_lem job (at 3) two_tasks job_entry (omega (arith, few_terminal)) job_there

complete-cancel_example :
    (s : TaskState) × (get job (complete job null (at 4) (cancel job (at 3) two_tasks).after)
      ≡ some s)
    × (s.status ≡ completed)
complete-cancel_example =
    complete-cancel job null (at 3) (at 4) two_tasks job_entry few_terminal job_there refl

-- As many finished tasks as are asked for, each updated later than the one before.
finished : ℕ → ℕ → HashMap Text TaskEntry
finished zero i = []
finished (suc n) i =
    (i ∷ [], fresh_entry (i ∷ []) completed (text "done") none none none (at i))
    ∷ finished n (suc i)

finished_fresh : (n i j : ℕ) → j < i → Map.get (j ∷ []) (finished n i) ≡ none
unfolding finished
finished_fresh zero i j less = refl
finished_fresh (suc n) i j less = ground (arith, finished_fresh n (suc i) j)

finished-HasUniqueKeys : (n i : ℕ) → HasUniqueKeys (finished n i)
unfolding finished
finished-HasUniqueKeys zero i = tt
finished-HasUniqueKeys (suc n) i =
    (finished_fresh n (suc i) i (omega arith), finished-HasUniqueKeys n (suc i))

-- Two more than the cap, before and after a running task.
abbrev crowd : HashMap Text TaskEntry
crowd = (job, job_entry) ∷ finished 258 1

crowd-HasUniqueKeys : HasUniqueKeys crowd
unfolding finished text_discrete ℕ_discrete
crowd-HasUniqueKeys = (refl, finished-HasUniqueKeys 258 1)

oldest_gone : Map.get (2 ∷ []) (prune_terminal_tasks crowd) ≡ none
unfolding finished prune_terminal_tasks sort text_discrete ℕ_discrete
oldest_gone = refl

abbrev finished_at : ℕ → TaskEntry
finished_at i = fresh_entry (i ∷ []) completed (text "done") none none none (at i)

finished_there : Map.get (2 ∷ []) crowd ≡ some (finished_at 2)
unfolding finished text_discrete ℕ_discrete
finished_there = refl

newer_there : Map.get (200 ∷ []) crowd ≡ some (finished_at 200)
unfolding finished text_discrete ℕ_discrete
newer_there = refl

newer_stays : Map.get (200 ∷ []) (prune_terminal_tasks crowd) ≡ some (finished_at 200)
unfolding finished prune_terminal_tasks sort text_discrete ℕ_discrete
newer_stays = refl

prune_oldest_example : 2 ≤ 200
prune_oldest_example =
    prune_oldest (200 ∷ []) (2 ∷ []) (finished_at 200) (finished_at 2) crowd crowd-HasUniqueKeys
      newer_there refl newer_stays finished_there oldest_gone
