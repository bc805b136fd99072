-- ===== src/Tasks/Prune.antt =====
-- server/task.rs: what `prune_terminal_tasks` removes and what it keeps.
use ida_mcp.Base.{
  ℕ, ◌-◌, ◌≤◌, ◌≡◌, refl, sym, ap, subst, ◌∙◌, leb→le, inl, inr, Bool, true, false, not, ◌&&◌, none,
  some, List, [], ◌∷◌, Text, text_eq, text_discrete, length, take, drop, filter, count, any, All,
  leb, Bool-cases, if◌then◌else◌, arith, HashMap, text_key, any-append, take-append-drop,
  count-append, count_mono, count-filter, length-filter, length-drop, count-le-length, All-filter,
  All-take, All-drop, All-×,
}
use ida_mcp.Base.Map
use ida_mcp.Base.Map.{HasUniqueKeys}
use ida_mcp.Base.Sort.{
  sort, any-sort, count-sort, length-sort, All-sort, sort-IsSorted, IsSorted-take-drop,
}
use ida_mcp.Tasks.{
  TaskEntry, is_running, is_terminal, older, remove_all, terminal_task_cap, prune_terminal_tasks,
}

abbrev pub has_id : Text → Text × TaskEntry → Bool
has_id j (k, _) = text_eq k j

get-remove_all :
    (j : Text) (ids : List (Text × TaskEntry)) (m : HashMap Text TaskEntry)
    → Map.get j (remove_all ids m) ≡ (if any (has_id j) ids then none else Map.get j m)
get-remove_all j [] m = refl
get-remove_all j ((k, e) ∷ ids) m =
    ground (arith, get-remove_all j ids (Map.remove k m), Map.get-remove k j m)

count-remove :
    (p : Text × TaskEntry → Bool) (k : Text) (m : HashMap Text TaskEntry)
    → count p (Map.remove k m) ≡ count (λ x. p x && not (text_eq k x.0)) m
count-remove p k [] = refl
count-remove p k ((j, e) ∷ m) = ground (arith, count-remove p k m)

abbrev outside : (Text × TaskEntry → Bool) → List (Text × TaskEntry) → Text × TaskEntry → Bool
outside p ids x = p x && not (any (has_id x.0) ids)

count_congr :
    (p q : Text × TaskEntry → Bool) (xs : List (Text × TaskEntry))
    → ((x : Text × TaskEntry) → p x ≡ q x)
    → count p xs ≡ count q xs
count_congr p q [] h = refl
count_congr p q (x ∷ xs) h = ground (arith, h x, count_congr p q xs h)

count-remove_all :
    (p : Text × TaskEntry → Bool) (ids : List (Text × TaskEntry)) (m : HashMap Text TaskEntry)
    → count p (remove_all ids m) ≡ count (outside p ids) m
count-remove_all p [] m = count_congr p (outside p []) m (λ x. ground arith)
count-remove_all p ((k, e) ∷ ids) m =
    count-remove_all p ids (Map.remove k m)
    ∙ count-remove (outside p ids) k m
    ∙ count_congr _ _ m (λ x. ground arith)

abbrev kept : List (Text × TaskEntry) → Text × TaskEntry → Bool
kept ids x = not (any (has_id x.0) ids)

count-kept_zero :
    (ids xs : List (Text × TaskEntry))
    → ((j : Text) → any (has_id j) xs ≡ true → any (has_id j) ids ≡ true)
    → count (kept ids) xs ≡ 0
count-kept_zero ids [] h = refl
count-kept_zero ids ((k, e) ∷ xs) h =
    ground (arith, h k, count-kept_zero ids xs (λ j a. h j (ground arith)))

count-kept-sorted :
    (n : ℕ) (xs : List (Text × TaskEntry))
    → count (kept (take n (sort older xs))) xs ≤ length xs - n
count-kept-sorted n xs =
    let s = sort older xs in
    let q = kept (take n s) in
    omega (
      arith,
      count-sort older q xs,
      ap (count q) (take-append-drop n s),
      count-append q (take n s) (drop n s),
      count-kept_zero (take n s) (take n s) (λ j a. a),
      count-le-length q (drop n s),
      length-drop n s,
      length-sort older xs,
    )

-- At most 256 terminal tasks are left by pruning.
pub prune-count_terminal :
    (m : HashMap Text TaskEntry) → count is_terminal (prune_terminal_tasks m) ≤ terminal_task_cap
unfolding prune_terminal_tasks
prune-count_terminal m =
    let t = filter is_terminal m in
    let n = length t - terminal_task_cap in
    let r = take n (sort older t) in
    ground (
      arith,
      length-filter is_terminal m,
      count-remove_all is_terminal r m,
      count-filter is_terminal (kept r) m,
      count-kept-sorted n t,
    )

abbrev removed : HashMap Text TaskEntry → List (Text × TaskEntry)
removed m = let t = filter is_terminal m in take (length t - terminal_task_cap) (sort older t)

get-prune :
    (j : Text) (m : HashMap Text TaskEntry)
    → Map.get j (prune_terminal_tasks m) ≡ (
        if leb (count is_terminal m) terminal_task_cap
        then Map.get j m
        else if any (has_id j) (removed m)
        then none
        else Map.get j m)
unfolding prune_terminal_tasks
get-prune j m = ground (arith, length-filter is_terminal m, get-remove_all j (removed m) m)

-- A registry within the cap is left alone.
pub prune_within :
    (m : HashMap Text TaskEntry)
    → count is_terminal m ≤ terminal_task_cap
    → prune_terminal_tasks m ≡ m
unfolding prune_terminal_tasks
prune_within m h = ground (arith, length-filter is_terminal m)

abbrev IsEntry : HashMap Text TaskEntry → Text × TaskEntry → Type 0
IsEntry m x = (Map.get x.0 m ≡ some x.1) × (is_terminal x ≡ true)

filter-holds :
    (p : Text × TaskEntry → Bool) (m : HashMap Text TaskEntry) → All (λ x. p x ≡ true) (filter p m)
filter-holds p [] = tt
filter-holds p (x ∷ m) = ground (arith, filter-holds p m)

sorted-IsEntry :
    (m : HashMap Text TaskEntry)
    → HasUniqueKeys m
    → All (IsEntry m) (sort older (filter is_terminal m))
sorted-IsEntry m u = All-sort older (IsEntry m) _ (
    All-× (λ x. Map.get x.0 m ≡ some x.1) (λ x. is_terminal x ≡ true) _
      (All-filter _ is_terminal m (Map.All-get_self m u)) (filter-holds is_terminal m))

-- The entry behind an identifier of such a list.
entry_of :
    (Q : Text × TaskEntry → Type 0) (j : Text) (e : TaskEntry) (m : HashMap Text TaskEntry)
    (xs : List (Text × TaskEntry))
    → Map.get j m ≡ some e
    → All (IsEntry m) xs
    → All Q xs
    → any (has_id j) xs ≡ true
    → (is_terminal (j, e) ≡ true) × Q (j, e)
entry_of Q j e m [] g h q hit = cc
entry_of Q j e m ((k, d) ∷ xs) g h q hit = elim (text_discrete k j) [
  | yes same ↦
      let at : Map.get j m ≡ some d = subst (λ i. Map.get i m ≡ some d) same h.0.0 in
      let found : d ≡ e = ground arith in
      (
        subst (λ c. is_terminal (j, c) ≡ true) found h.0.1,
        subst (λ c. Q (j, c)) found (subst (λ i. Q (i, d)) same q.0),
      )
  | no other ↦ entry_of Q j e m xs g h.1 q.1 (ground arith)
]

removed-IsEntry : (m : HashMap Text TaskEntry) → HasUniqueKeys m → All (IsEntry m) (removed m)
removed-IsEntry m u = All-take (IsEntry m) _ _ (sorted-IsEntry m u)

-- Where identifiers are unique, pruning never removes a running task.
pub prune-get_running :
    (j : Text) (e : TaskEntry) (m : HashMap Text TaskEntry)
    → HasUniqueKeys m
    → Map.get j m ≡ some e
    → is_running e.state.status ≡ true
    → Map.get j (prune_terminal_tasks m) ≡ some e
prune-get_running j e m u g run =
    let terminal = λ (hit : any (has_id j) (removed m) ≡ true).
      (entry_of (IsEntry m) j e m _ g (removed-IsEntry m u) (removed-IsEntry m u) hit).0 in
    elim (Bool-cases (any (has_id j) (removed m))) [
      | inl hit ↦ absurd (ground (arith, terminal hit))
      | inr miss ↦ ground (arith, get-prune j m)
    ]

older_total : (x y : Text × TaskEntry) → older x y ≡ false → older y x ≡ true
older_total (_, d) (_, e) h = ground arith

older_trans : (x y z : Text × TaskEntry) → older x y ≡ true → older y z ≡ true → older x z ≡ true
older_trans (_, c) (_, d) (_, e) h k = ground arith

any-filter :
    (p : Text × TaskEntry → Bool) (i : Text) (d : TaskEntry) (m : HashMap Text TaskEntry)
    → Map.get i m ≡ some d
    → p (i, d) ≡ true
    → any (has_id i) (filter p m) ≡ true
any-filter p i d [] g t = absurd (ground arith)
any-filter p i d ((k, c) ∷ m) g t = elim (text_discrete k i) [
  | yes same ↦
      let found : c ≡ d = ground arith in
      let passes : p (k, c) ≡ true =
        subst (λ x. p (k, x) ≡ true) (sym found) (subst (λ x. p (x, d) ≡ true) (sym same) t) in
      ground arith
  | no other ↦ ground (arith, any-filter p i d m (ground arith) t)
]

-- Where identifiers are unique, of two tasks of which pruning keeps one, a terminal task, and
-- removes the other, the removed one was not updated later.
pub prune_oldest :
    (i j : Text) (d e : TaskEntry) (m : HashMap Text TaskEntry)
    → HasUniqueKeys m
    → Map.get i m ≡ some d
    → is_terminal (i, d) ≡ true
    → Map.get i (prune_terminal_tasks m) ≡ some d
    → Map.get j m ≡ some e
    → Map.get j (prune_terminal_tasks m) ≡ none
    → e.state.updated_at ≤ d.state.updated_at
prune_oldest i j d e m u gi ti stays gj gone =
    let t = filter is_terminal m in
    let s = sort older t in
    let n = length t - terminal_task_cap in
    let gone_id : any (has_id j) (removed m) ≡ true = ground (arith, get-prune j m) in
    let stays_id : any (has_id i) (removed m) ≡ false =
      ground (arith, get-prune i m, get-prune j m) in
    let listed : any (has_id i) s ≡ true =
      any-sort older (has_id i) t ∙ any-filter is_terminal i d m gi ti in
    let later : any (has_id i) (drop n s) ≡ true = ground (
      arith,
      ap (any (has_id i)) (take-append-drop n s),
      any-append (has_id i) (take n s) (drop n s),
    ) in
    let before =
      (entry_of (λ x. All (λ y. older x y ≡ true) (drop n s)) j e m _ gj (removed-IsEntry m u)
        (IsSorted-take-drop older n s (sort-IsSorted older older_total older_trans t)) gone_id).1 in
    leb→le _ _
      (entry_of (λ y. older (j, e) y ≡ true) i d m (drop n s) gi
        (All-drop (IsEntry m) n s (sorted-IsEntry m u)) before later).1

-- Whatever holds of every entry still does, and no count grows.
module _ {κ} (P : Text × TaskEntry → Type κ) where
  remove_all-All :
      (ids : List (Text × TaskEntry)) (m : HashMap Text TaskEntry)
      → All P m
      → All P (remove_all ids m)
  remove_all-All [] m h = h
  remove_all-All ((k, e) ∷ ids) m h = remove_all-All ids (Map.remove k m) (Map.All-remove P k m h)

  pub prune-All : (m : HashMap Text TaskEntry) → All P m → All P (prune_terminal_tasks m)
  unfolding prune_terminal_tasks
  prune-All m h = ground (arith, remove_all-All (removed m) m h)

remove_all-HasUniqueKeys :
    (ids : List (Text × TaskEntry)) (m : HashMap Text TaskEntry)
    → HasUniqueKeys m
    → HasUniqueKeys (remove_all ids m)
remove_all-HasUniqueKeys [] m h = h
remove_all-HasUniqueKeys ((k, e) ∷ ids) m h =
    remove_all-HasUniqueKeys ids (Map.remove k m) (Map.remove-HasUniqueKeys k m h)

pub prune-HasUniqueKeys :
    (m : HashMap Text TaskEntry) → HasUniqueKeys m → HasUniqueKeys (prune_terminal_tasks m)
unfolding prune_terminal_tasks
prune-HasUniqueKeys m h = ground (arith, remove_all-HasUniqueKeys (removed m) m h)

pub count-prune_le :
    (p : Text × TaskEntry → Bool) (m : HashMap Text TaskEntry)
    → count p (prune_terminal_tasks m) ≤ count p m
unfolding prune_terminal_tasks
count-prune_le p m = ground (
  arith,
  count-remove_all p (removed m) m,
  count_mono (outside p (removed m)) p m (λ x h. ground arith),
)

-- Pruning changes no entry that it keeps.
pub prune-get-some :
    (j : Text) (e : TaskEntry) (m : HashMap Text TaskEntry)
    → Map.get j (prune_terminal_tasks m) ≡ some e
    → Map.get j m ≡ some e
prune-get-some j e m h = ground (arith, get-prune j m)
