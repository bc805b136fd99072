-- ===== src/Views/Tests.antt =====
-- router/mod.rs, server/response_cache.rs, federation.rs: small inputs of what clients are shown.
use ida_mcp.Base.{ℕ, ◌≡◌, refl, true, none, some, [], ◌∷◌, text, text_discrete, ℕ_discrete}
use ida_mcp.Json.{null, array, object, field, end, item, nil, len, get_field}
use ida_mcp.Tasks.{TaskState, Now, running, fresh_state}
use ida_mcp.Views.{task_state_json, task_state_json-injective, count_items, is_sbpf_elf}

abbrev at : ℕ → Now
at n = record { instant = n; unix_secs = 0 }

-- The key of a task is not shown.
abbrev keyed : TaskState
keyed = fresh_state (text "job-1") running (text "go") none none (some (text "k")) (at 1)

abbrev keyless : TaskState
keyless = fresh_state (text "job-1") running (text "go") none none none (at 1)

same_view : task_state_json keyed ≡ task_state_json keyless
unfolding task_state_json
same_view = refl

task_state_json-injective_example :
    (keyed.id ≡ keyless.id) × (keyed.status ≡ keyless.status) × (keyed.message ≡ keyless.message)
task_state_json-injective_example = task_state_json-injective keyed keyless same_view

count_items_test :
    count_items (object (field (text "items") (array (item null (item null nil))) end)) ≡ some 2
unfolding count_items len get_field text_discrete ℕ_discrete
count_items_test = refl

is_sbpf_elf_test :
    is_sbpf_elf (
      some (
        127 ∷ b'E' ∷ b'L' ∷ b'F' ∷ 2 ∷ 1 ∷ 1 ∷ 0 ∷ 0 ∷ 0 ∷ 0 ∷ 0 ∷ 0 ∷ 0 ∷ 0 ∷ 0 ∷ 3 ∷ 0 ∷ 7 ∷ 1
        ∷ []))
    ≡ true
unfolding is_sbpf_elf text_discrete ℕ_discrete
is_sbpf_elf_test = refl
