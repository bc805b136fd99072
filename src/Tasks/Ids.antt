-- ===== src/Tasks/Ids.antt =====
-- server/task.rs: the identifiers of `next_task_id`.
use mathlib.Core.List.{reverse, reverse-append, reverse-cons, reverse-reverse, append_assoc}
use ida_mcp.Base.{ℕ, suc, ◌≡◌, ap, ◌∙◌, sym, [], ◌∷◌, ◌++◌, Text, arith}
use ida_mcp.Base.Str.{digits_rev, read_rev, read_rev-digits_rev}
use ida_mcp.Tasks.{next_task_id}

-- The counter value behind an identifier.
unfoldable pub task_number : Text → ℕ
task_number id = read_rev (reverse id)

reverse-dash :
    (prefix digits : Text)
    → reverse (prefix ++ b'-' ∷ reverse digits) ≡ digits ++ b'-' ∷ reverse prefix
reverse-dash prefix digits =
    reverse-append prefix (b'-' ∷ reverse digits)
    ∙ ap (λ (t : Text). t ++ reverse prefix)
        (reverse-cons b'-' (reverse digits)
          ∙ ap (λ (t : Text). t ++ b'-' ∷ []) (reverse-reverse digits))
    ∙ append_assoc digits (b'-' ∷ []) (reverse prefix)

reverse-id :
    (prefix : Text) (n : ℕ)
    → reverse (next_task_id prefix n) ≡ digits_rev (suc n) n ++ b'-' ∷ reverse prefix
unfolding next_task_id
reverse-id prefix n = reverse-dash prefix (digits_rev (suc n) n)

-- The number is read back from the identifier, whatever the prefix is.
pub task_number-next_task_id : (prefix : Text) (n : ℕ) → task_number (next_task_id prefix n) ≡ n
unfolding task_number
task_number-next_task_id prefix n =
    rw (reverse-id prefix n) (read_rev-digits_rev (suc n) n (reverse prefix) (omega arith))

-- Two identifiers are equal only if they were made from the same counter value, whatever their
-- prefixes.
pub next_task_id-injective : (p q : Text) (m n : ℕ) → next_task_id p m ≡ next_task_id q n → m ≡ n
next_task_id-injective p q m n h =
    sym (task_number-next_task_id p m) ∙ ap task_number h ∙ task_number-next_task_id q n
