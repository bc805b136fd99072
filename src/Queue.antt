-- ===== src/Queue.antt =====
-- router/mod.rs: what the queue of prewarms and the queue of jobs have in common. Both are sorted by
-- priority and then by age, and both start the first task whose tenant has room.
pub mod Cancel
pub mod Drive
pub mod Invariant
pub mod Limits
pub mod Order
pub mod Prewarm
pub mod Steps
pub mod Tests
pub mod Waiting
pub mod Jobs
use ida_mcp.Base.{
  ℕ, suc, ◌-◌, Bool, ◌&&◌, ◌||◌, Option, none, some, List, [], ◌∷◌, ◌++◌, Text, unwrap_or, leb, ltb,
  ◌==◌, if◌then◌else◌, HashMap, text_key,
}
use ida_mcp.Base.Map
use ida_mcp.Base.Sort.{sort}

-- What the order of a queue and the limits of a tenant look at.
pub record Queued (A : Type 0) : Type 0 where
  pub tenant_of : A → Text
  pub priority_of : A → ℕ
  pub enqueued_of : A → ℕ

-- The closure of `sort_by`: the higher priority first, then the older.
abbrev pub goes_before : {A : Type 0} ⦃q : Queued A⦄ → A → A → Bool
goes_before ⦃q⦄ x y =
    ltb (q.priority_of y) (q.priority_of x)
    || ((q.priority_of x == q.priority_of y) && leb (q.enqueued_of x) (q.enqueued_of y))

-- `push` and `sort_by`.
abbrev pub push_sorted : {A : Type 0} ⦃q : Queued A⦄ → A → List A → List A
push_sorted x xs = sort goes_before (xs ++ x ∷ [])

-- `iter().position(p)` and `remove(idx)`.
abbrev pub remove_first : {A : Type 0} → (A → Bool) → List A → Option (A × List A)
remove_first p [] = none
remove_first p (x ∷ xs) =
    let rest = remove_first p xs in
    if p x then some (x, xs) else elim rest [ none ↦ none | some (y, ys) ↦ some (y, x ∷ ys) ]

abbrev pub active_for : Text → HashMap Text ℕ → ℕ
active_for tenant m = unwrap_or (Map.get tenant m) 0

-- `entry(tenant).and_modify(|count| *count += 1).or_insert(1)`.
abbrev pub count_start : Text → HashMap Text ℕ → HashMap Text ℕ
count_start tenant m = Map.insert tenant (suc (active_for tenant m)) m

-- `saturating_sub(1)`, and a count of zero is removed.
unfoldable pub count_end : Text → HashMap Text ℕ → HashMap Text ℕ
count_end tenant m = elim (Map.get tenant m) [
  | none ↦ m
  | some n ↦ if (n - 1) == 0 then Map.remove tenant m else Map.insert tenant (n - 1) m
]

-- The next task to start: none while as many run as may, else the first whose tenant has room.
unfoldable pub next_task :
    {A : Type 0} ⦃q : Queued A⦄ → ℕ → ℕ → ℕ → HashMap Text ℕ → List A → Option (A × List A)
next_task ⦃q⦄ active max_active max_per_tenant tenant_active queued =
    if leb max_active active
    then none
    else remove_first (λ task. ltb (active_for (q.tenant_of task) tenant_active) max_per_tenant)
        queued
