-- ===== src/Queue/Order.antt =====
-- router/mod.rs: the order of a queue, the task that is taken out of it, and the counts of the tenants.
use ida_mcp.Base.{
  ℕ, suc, ◌+◌, ◌-◌, ◌≡◌, subst, ◌⊎◌, inl, inr, Bool, true, false, none, some, List, [], ◌∷◌, ◌++◌,
  Text, text_eq, length, count, count-append, length-append, All, All-map_prop, if◌then◌else◌,
  Bool-cases, Option-cases, arith, HashMap, text_key,
}
use ida_mcp.Base.Map
use ida_mcp.Base.Sort.{IsSorted, sort-IsSorted, count-sort, length-sort}
use ida_mcp.Queue.{
  Queued, goes_before, push_sorted, remove_first, active_for, count_start, count_end,
}

module _ {A : Type 0} ⦃q : Queued A⦄ where
  goes_before_total : (x y : A) → goes_before x y ≡ false → goes_before y x ≡ true
  goes_before_total x y h = ground arith

  goes_before_trans :
      (x y z : A) → goes_before x y ≡ true → goes_before y z ≡ true → goes_before x z ≡ true
  goes_before_trans x y z h k = ground arith

  abbrev pub IsInOrder : List A → Type 0
  IsInOrder = IsSorted goes_before

  pub push_sorted-IsInOrder : (x : A) (xs : List A) → IsInOrder (push_sorted x xs)
  push_sorted-IsInOrder x xs = sort-IsSorted goes_before goes_before_total goes_before_trans _

  pub count-push_sorted :
      (p : A → Bool) (x : A) (xs : List A)
      → count p (push_sorted x xs) ≡ count p xs + count p (x ∷ [])
  count-push_sorted p x xs =
      omega (arith, count-sort goes_before p (xs ++ x ∷ []), count-append p xs (x ∷ []))

  pub length-push_sorted : (x : A) (xs : List A) → length (push_sorted x xs) ≡ suc (length xs)
  length-push_sorted x xs =
      omega (arith, length-sort goes_before (xs ++ x ∷ []), length-append xs (x ∷ []))

module _ {A : Type 0} where
  -- What taking an element out of a list means.
  pub record Taken (p : A → Bool) (xs : List A) (x : A) (rest : List A) : Type 0 where
    pub passes : p x ≡ true
    pub shorter : length xs ≡ suc (length rest)
    pub split : (r : A → Bool) → count r xs ≡ count r (x ∷ []) + count r rest

  pub remove_first-Taken :
      (p : A → Bool) (xs : List A) (x : A) (rest : List A)
      → remove_first p xs ≡ some (x, rest)
      → Taken p xs x rest
  remove_first-Taken p [] x rest e = absurd (ground arith)
  remove_first-Taken p (y ∷ ys) x rest e = elim (Bool-cases (p y)) [
    | inl hit ↦ record { passes = ground arith; shorter = ground arith; split = λ r. ground arith }
    | inr miss ↦ elim (Option-cases (remove_first p ys)) [
      | inl none_left ↦ absurd (ground arith)
      | inr ((z, zs), found) ↦
          let t = remove_first-Taken p ys z zs found in
          record {
            passes = ground (arith, t.passes);
            shorter = ground (arith, t.shorter);
            split = λ r. ground (arith, t.split r);
          }
    ]
  ]

  pub remove_first-none :
      (p : A → Bool) (xs : List A) → remove_first p xs ≡ none → All (λ y. p y ≡ false) xs
  remove_first-none p [] e = tt
  remove_first-none p (y ∷ ys) e = elim (Bool-cases (p y)) [
    | inl hit ↦ absurd (ground arith)
    | inr miss ↦ elim (Option-cases (remove_first p ys)) [
      | inl none_left ↦ (miss, remove_first-none p ys none_left)
      | inr ((z, zs), found) ↦ absurd (ground arith)
    ]
  ]

  pub All-remove_first {κ} :
      (P : A → Type κ) (p : A → Bool) (xs : List A) (x : A) (rest : List A)
      → All P xs
      → remove_first p xs ≡ some (x, rest)
      → P x × All P rest
  All-remove_first P p [] x rest h e = absurd (ground arith)
  All-remove_first P p (y ∷ ys) x rest h e = elim (Bool-cases (p y)) [
    | inl hit ↦
        let same : y ≡ x = ground arith in
        let left : ys ≡ rest = ground arith in (subst P same h.0, subst (All P) left h.1)
    | inr miss ↦ elim (Option-cases (remove_first p ys)) [
      | inl none_left ↦ absurd (ground arith)
      | inr ((z, zs), found) ↦
          let (hz, hzs) = All-remove_first P p ys z zs h.1 found in
          let same : z ≡ x = ground arith in
          let left : y ∷ zs ≡ rest = ground arith in
          (subst P same hz, subst (All P) left (h.0, hzs))
    ]
  ]

  -- Of a sorted list the first element that passes is taken, and the rest is sorted.
  pub IsSorted-remove_first :
      (le : A → A → Bool) (p : A → Bool) (xs : List A) (x : A) (rest : List A)
      → IsSorted le xs
      → remove_first p xs ≡ some (x, rest)
      → IsSorted le rest × All (λ y. (p y ≡ false) ⊎ (le x y ≡ true)) rest
  IsSorted-remove_first le p [] x rest h e = absurd (ground arith)
  IsSorted-remove_first le p (y ∷ ys) x rest h e = elim (Bool-cases (p y)) [
    | inl hit ↦
        let same : y ≡ x = ground arith in
        let left : ys ≡ rest = ground arith in
        (
          subst (IsSorted le) left h.1,
          subst (All (λ z. (p z ≡ false) ⊎ (le x z ≡ true))) left (
              subst (λ w. All (λ z. (p z ≡ false) ⊎ (le w z ≡ true)) ys) same
                (All-map_prop (λ z. le y z ≡ true) _ ys (λ z b. inr b) h.0)),
        )
    | inr miss ↦ elim (Option-cases (remove_first p ys)) [
      | inl none_left ↦ absurd (ground arith)
      | inr ((z, zs), found) ↦
          let (sorted, first) = IsSorted-remove_first le p ys z zs h.1 found in
          let same : z ≡ x = ground arith in
          let left : y ∷ zs ≡ rest = ground arith in
          let (_, later) = All-remove_first (λ w. le y w ≡ true) p ys z zs h.0 found in
          (
            subst (IsSorted le) left (later, sorted),
            subst (λ w. All (λ v. (p v ≡ false) ⊎ (le w v ≡ true)) rest) same
                (subst (All (λ v. (p v ≡ false) ⊎ (le z v ≡ true))) left (inl miss, first)),
          )
    ]
  ]

pub active_for-count_start :
    (t u : Text) (m : HashMap Text ℕ)
    → active_for t (count_start u m)
      ≡ (if text_eq u t then suc (active_for t m) else active_for t m)
active_for-count_start t u m = ground (arith, Map.get-insert u t (suc (active_for u m)) m)

pub active_for-count_end :
    (t u : Text) (m : HashMap Text ℕ)
    → active_for t (count_end u m) ≡ (if text_eq u t then active_for t m - 1 else active_for t m)
unfolding count_end
active_for-count_end t u m = elim (Option-cases (Map.get u m)) [
  | inl e ↦ rw (e, count_end) (ground arith)
  | inr (n, e) ↦
      rw (e, count_end) (ground (arith, Map.get-insert u t (n - 1) m, Map.get-remove u t m))
]
