-- ===== src/Views.antt =====
-- Decisions and views without state: router/mod.rs (`task_state_json`, `is_sbpf_elf`),
-- server/response_cache.rs (`count_items`) and federation.rs (`supports_request`).
pub mod Tests
use ida_mcp.Base.{
  ℕ, ◌+◌, ◌*◌, ◌≡◌, refl, sym, ap, ◌∙◌, ite, Bool, true, false, not, ◌&&◌, ◌||◌, Option, none, some,
  List, [], ◌∷◌, Text, text, text_eq, text_discrete, ℕ_discrete, take, drop, any, unwrap_or, ◌==◌,
  if◌then◌else◌, Option-cases, Bool-cases, arith,
}
use ida_mcp.Json
use ida_mcp.Json.{
  Value, Fields, null, bool, string, array, object, field, end, len, get_field, insert_field,
  as_array, as_object, as_bool, as_str,
}
use ida_mcp.Tasks.{TaskStatus, TaskState, running, completed, failed, cancelled}

abbrev pub status_name : TaskStatus → Text
status_name running = text "running"
status_name completed = text "completed"
status_name failed = text "failed"
status_name cancelled = text "cancelled"

abbrev pub or_null : Option Value → Value
or_null none = null
or_null (some v) = v

abbrev pub base_fields : TaskState → Fields
base_fields s = field (text "task_id") (string s.id) (
    field (text "status") (string (status_name s.status)) (
      field (text "message") (string s.message) (
        field (text "created_at") (string s.created_at_iso) (
          field (text "updated_at") (string s.updated_at_iso) (
            field (text "meta") (or_null s.meta) (field (text "result") (or_null s.result) end))))))

-- `if let Some(x) = ... { obj.insert(key, x) }`.
abbrev pub insert_some : Text → Option Value → Fields → Fields
insert_some key none fs = fs
insert_some key (some v) fs = insert_field key v fs

abbrev bool_of : Option Value → Option Value
bool_of none = none
bool_of (some v) = elim (as_bool v) [ none ↦ none | some b ↦ some (bool b) ]

abbrev str_of : Option Value → Option Value
str_of none = none
str_of (some v) = elim (as_str v) [ none ↦ none | some s ↦ some (string s) ]

abbrev pub with_result : Option Value → Fields → Fields
with_result none fs = fs
with_result (some result) fs =
    insert_some (text "remote_task_id") (str_of (Json.get (text "remote_task_id") result)) (
      insert_some (text "node") (str_of (Json.get (text "node") result))
        (insert_some (text "remote") (bool_of (Json.get (text "remote") result)) fs))

unfoldable pub task_state_json : TaskState → Value
task_state_json s = object (with_result s.result (base_fields s))

get_field-insert_field :
    (k j : Text) (v : Value) (fs : Fields)
    → get_field k (insert_field j v fs) ≡ ite (text_discrete j k) (some v) (get_field k fs)
unfolding get_field insert_field
get_field-insert_field k j v end = refl
get_field-insert_field k j v (field i w fs) = ground (arith, get_field-insert_field k j v fs)

get_field-insert_some :
    (k j : Text) (v : Option Value) (fs : Fields)
    → text_eq j k ≡ false
    → get_field k (insert_some j v fs) ≡ get_field k fs
get_field-insert_some k j none fs other = refl
get_field-insert_some k j (some v) fs other = ground (arith, get_field-insert_field k j v fs)

get_field-with_result :
    (k : Text) (r : Option Value) (fs : Fields)
    → text_eq (text "remote_task_id") k ≡ false
    → text_eq (text "node") k ≡ false
    → text_eq (text "remote") k ≡ false
    → get_field k (with_result r fs) ≡ get_field k fs
get_field-with_result k none fs a b c = refl
get_field-with_result k (some result) fs a b c =
    get_field-insert_some k (text "remote_task_id") _ _ a
    ∙ get_field-insert_some k (text "node") _ _ b
    ∙ get_field-insert_some k (text "remote") _ fs c

string_of : Option Value → Text
string_of none = []
string_of (some v) = unwrap_or (as_str v) []

shown : Text → Value → Text
shown k (object fs) = string_of (get_field k fs)
shown k _ = []

shown-task_id : (s : TaskState) → shown (text "task_id") (task_state_json s) ≡ s.id
unfolding task_state_json shown string_of get_field text_discrete ℕ_discrete
shown-task_id s =
    ap string_of (get_field-with_result (text "task_id") s.result (base_fields s) refl refl refl)

shown-status : (s : TaskState) → shown (text "status") (task_state_json s) ≡ status_name s.status
unfolding task_state_json shown string_of get_field text_discrete ℕ_discrete
shown-status s =
    ap string_of (get_field-with_result (text "status") s.result (base_fields s) refl refl refl)

shown-message : (s : TaskState) → shown (text "message") (task_state_json s) ≡ s.message
unfolding task_state_json shown string_of get_field text_discrete ℕ_discrete
shown-message s =
    ap string_of (get_field-with_result (text "message") s.result (base_fields s) refl refl refl)

status_name-injective : (s t : TaskStatus) → status_name s ≡ status_name t → s ≡ t
status_name-injective s t e = ground (arith, e)

-- Two task states with the same JSON view have the same identifier, status and message,
-- whatever their results add to the view.
pub task_state_json-injective :
    (s t : TaskState)
    → task_state_json s ≡ task_state_json t
    → (s.id ≡ t.id) × (s.status ≡ t.status) × (s.message ≡ t.message)
task_state_json-injective s t e = (
  sym (shown-task_id s) ∙ ap (shown (text "task_id")) e ∙ shown-task_id t,
  status_name-injective s.status t.status
      (sym (shown-status s) ∙ ap (shown (text "status")) e ∙ shown-status t),
  sym (shown-message s) ∙ ap (shown (text "message")) e ∙ shown-message t,
)

-- `count_items`: the keys in the order of the source.
abbrev item_keys : List Text
item_keys =
    text "strings"
    ∷ text "functions"
    ∷ text "exports"
    ∷ text "imports"
    ∷ text "segments"
    ∷ text "xrefs"
    ∷ text "results"
    ∷ text "items"
    ∷ text "callgraph"
    ∷ []

abbrev array_at : Text → Fields → Option ℕ
array_at key fs = elim (get_field key fs) [
  | none ↦ none
  | some v ↦ elim (as_array v) [ none ↦ none | some vs ↦ some (len vs) ]
]

abbrev first_array : List Text → Fields → Option ℕ
first_array [] fs = none
first_array (key ∷ keys) fs =
    let rest = first_array keys fs in elim (array_at key fs) [ none ↦ rest | some n ↦ some n ]

unfoldable pub count_items : Value → Option ℕ
count_items (object fs) = first_array item_keys fs
count_items (array vs) = some (len vs)
count_items _ = none

-- `is_sbpf_elf` on the bytes that `read_exact` reads: none, where the file cannot be opened or is
-- shorter than 20 bytes.
abbrev pub machine_of : List ℕ → ℕ
machine_of (lo ∷ hi ∷ []) = lo + 256 * hi
machine_of _ = 0

unfoldable pub is_sbpf_elf : Option (List ℕ) → Bool
is_sbpf_elf none = false
is_sbpf_elf (some header) =
    text_eq (take 4 header) (127 ∷ b'E' ∷ b'L' ∷ b'F' ∷ [])
    && (let machine = machine_of (drop 18 header) in (machine == 247) || (machine == 263))

pub record FederationNodeConfig : Type 0 where
  pub name : Text
  pub url : Text
  pub weight : ℕ
  pub enabled : Bool
  pub capabilities : List Text
  pub tenant_allow : List Text
  pub node_id : Option Text

abbrev is_nil : List Text → Bool
is_nil [] = true
is_nil (x ∷ xs) = false

abbrev pub accepts_method : List Text → Option Text → Bool
accepts_method capabilities none = true
accepts_method capabilities (some method) =
    is_nil capabilities || any (λ cap. text_eq cap (text "*") || text_eq cap method) capabilities

unfoldable pub supports_request : FederationNodeConfig → Option Text → Option Text → Bool
supports_request node method tenant =
    let name = unwrap_or tenant (text "default") in
    (is_nil node.tenant_allow || any (λ t. text_eq t name) node.tenant_allow)
    && accepts_method node.capabilities method
