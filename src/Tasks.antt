-- ===== src/Tasks.antt =====
-- server/task.rs: the registry of background tasks. The mutex makes every method one step on
-- `Registry`; the process-wide counter of `next_task_id` is a field of it. `Now` is what the clocks
-- show at the step. A `JoinHandle` is the number of its task, and `cancel` says what it aborts.
pub mod Calendar
pub mod Ids
pub mod Invariant
pub mod Creation
pub mod Ends
pub mod Lifecycle
pub mod Prune
pub mod Steps
pub mod Tests
pub mod Updates
use Calendar.{iso_now}
use ida_mcp.Base.{
  ℕ, suc, ◌+◌, ◌-◌, ◌%◌, ◌^◌, Bool, true, false, not, ◌&&◌, Option, none, some, List, [], ◌∷◌, ◌++◌,
  map, Text, text, text_eq, decimal, length, take, filter, find, leb, if◌then◌else◌, HashMap,
  text_key,
}
use ida_mcp.Base.Map
use ida_mcp.Base.Sort.{sort}
use ida_mcp.Json.{Value}

abbrev pub terminal_task_cap : ℕ
terminal_task_cap = 256

pub data TaskStatus : Type 0 where
  running completed failed cancelled : TaskStatus

pub record TaskState : Type 0 where
  pub id : Text
  pub status : TaskStatus
  pub message : Text
  pub meta : Option Value
  pub result : Option Value
  pub created_at : ℕ
  pub updated_at : ℕ
  pub created_at_iso : Text
  pub updated_at_iso : Text
  pub key : Option Text

pub record TaskEntry : Type 0 where
  pub state : TaskState
  pub handle : Option ℕ

pub record Registry : Type 0 where
  pub entries : HashMap Text TaskEntry
  pub counter : ℕ

-- `Instant::now` and the seconds of `SystemTime::now`.
pub record Now : Type 0 where
  pub instant : ℕ
  pub unix_secs : ℕ

pub data Created : Type 0 where
  ok : Text → Created
  err : Text → Created

abbrev pub is_running : TaskStatus → Bool
is_running running = true
is_running _ = false

abbrev pub key_is : Text → Option Text → Bool
key_is k none = false
key_is k (some j) = text_eq j k

abbrev pub new : Registry
new = record { entries = []; counter = 1 }

unfoldable pub next_task_id : Text → ℕ → Text
unfolding decimal
next_task_id prefix n = prefix ++ b'-' ∷ decimal n

-- `fetch_add` on an `AtomicU64`.
abbrev pub counter_after : ℕ → ℕ
counter_after n = (n + 1) % 2 ^ 64

unfoldable pub refresh_updated : Now → TaskState → TaskState
refresh_updated now s = record s {
  updated_at = now.instant;
  updated_at_iso = iso_now now.unix_secs;
}

abbrev pub is_terminal : Text × TaskEntry → Bool
is_terminal (id, e) = not (is_running e.state.status)

abbrev pub older : Text × TaskEntry → Text × TaskEntry → Bool
older (_, d) (_, e) = leb d.state.updated_at e.state.updated_at

abbrev pub remove_all : List (Text × TaskEntry) → HashMap Text TaskEntry → HashMap Text TaskEntry
remove_all [] m = m
remove_all ((id, _) ∷ rest) m = remove_all rest (Map.remove id m)

-- The pairs of the source hold the identifier and the time; here they hold the entry.
unfoldable pub prune_terminal_tasks : HashMap Text TaskEntry → HashMap Text TaskEntry
unfolding sort
prune_terminal_tasks entries =
    let terminal_ids = filter is_terminal entries in
    if leb (length terminal_ids) terminal_task_cap
    then entries
    else remove_all (take (length terminal_ids - terminal_task_cap) (sort older terminal_ids))
        entries

abbrev pub fresh_state :
    Text → TaskStatus → Text → Option Value → Option Value → Option Text → Now → TaskState
fresh_state id status message meta result key now = record {
  id = id;
  status = status;
  message = message;
  meta = meta;
  result = result;
  created_at = now.instant;
  updated_at = now.instant;
  created_at_iso = iso_now now.unix_secs;
  updated_at_iso = iso_now now.unix_secs;
  key = key;
}

abbrev pub fresh_entry :
    Text → TaskStatus → Text → Option Value → Option Value → Option Text → Now → TaskEntry
fresh_entry id status message meta result key now = record {
  state = fresh_state id status message meta result key now;
  handle = none;
}

-- The search of `create_internal` for a running task of that key.
abbrev pub holds_key : Text → Text × TaskEntry → Bool
holds_key k (_, e) = is_running e.state.status && key_is k e.state.key

unfoldable pub find_running : Option Text → HashMap Text TaskEntry → Option (Text × TaskEntry)
find_running none entries = none
find_running (some k) entries = find (holds_key k) entries

-- The rest of `create_internal`: a new entry, then pruning.
unfoldable pub add_task :
    Text
    → TaskStatus
    → Text
    → Option Value
    → Option Value
    → Option Text
    → Now
    → Registry
    → Registry × Text
unfolding next_task_id prune_terminal_tasks
add_task prefix status message meta result key now r =
    let id = next_task_id prefix r.counter in
    let entry = fresh_entry id status message meta result key now in
    (
      record {
        entries = prune_terminal_tasks (Map.insert id entry r.entries);
        counter = counter_after r.counter;
      },
      id,
    )

unfoldable pub create_internal :
    Text → Option Text → Text → Option Value → Now → Registry → Registry × Created
unfolding find_running add_task
create_internal prefix key message meta now r = elim (find_running key r.entries) [
  | some (_, existing) ↦ (r, err existing.state.id)
  | none ↦ let (r', id) = add_task prefix running message meta none key now r in (r', ok id)
]

unfoldable pub create_keyed : Text → Text → Now → Registry → Registry × Created
unfolding create_internal
create_keyed key message now r = create_internal (text "dsc") (some key) message none now r

-- `expect` cannot fail: no key, no duplicate.
abbrev pub created_id : Created → Text
created_id (ok id) = id
created_id (err id) = id

unfoldable pub create : Text → Text → Now → Registry → Registry × Text
unfolding create_internal
create prefix message now r =
    let (r', c) = create_internal prefix none message none now r in (r', created_id c)

unfoldable pub create_with_key : Text → Option Text → Text → Now → Registry → Registry × Created
unfolding create_internal
create_with_key prefix key message now r = create_internal prefix key message none now r

unfoldable pub create_with_meta :
    Text → Option Text → Text → Value → Now → Registry → Registry × Created
unfolding create_internal
create_with_meta prefix key message meta now r =
    create_internal prefix key message (some meta) now r

unfoldable pub create_completed : Text → Value → Now → Registry → Registry × Text
unfolding add_task
create_completed message result now r =
    add_task (text "task") completed message none (some result) none now r

abbrev pub modify_entry : Text → (TaskEntry → TaskEntry) → Registry → Registry
modify_entry id f r = record r { entries = Map.modify id f r.entries }

unfoldable pub set_handle : Text → ℕ → Registry → Registry
set_handle id h = modify_entry id (λ e. record e { handle = some h })

unfoldable pub get : Text → Registry → Option TaskState
get id r = elim (Map.get id r.entries) [ none ↦ none | some e ↦ some e.state ]

unfoldable pub list_all : Registry → List TaskState
list_all r = map (λ (_, e). e.state) r.entries
