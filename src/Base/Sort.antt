-- ===== src/Base/Sort.antt =====
-- The standard library's stable sort, as insertion sort: the result of a stable sort is determined.
use Prim.Native.Nat.{ℕ, zero, suc}
use mathlib.Core.Path.{◌≡◌, refl}
use mathlib.Core.Bool.{Bool, true, false}
use mathlib.Core.List.{List, [], ◌∷◌}
use native.Mathlib.Omega.{arith}
use mathlib.Core.Logic.{inl, inr}
use ida_mcp.Base.Tests.{if◌then◌else◌, Bool-cases}
use ida_mcp.Base.Lists.{All-drop, length, count, any, take, drop, All, Pairwise}

-- `le x y` is false exactly where the order puts `y` before `x`.
module _ {ℓ} {A : Type ℓ} (le : A → A → Bool) where
  unfoldable pub place : A → List A → List A
  place x [] = x ∷ []
  place x (y ∷ ys) = if le x y then x ∷ y ∷ ys else y ∷ place x ys

  unfoldable pub sort : List A → List A
  unfolding place
  sort [] = []
  sort (x ∷ xs) = place x (sort xs)

  count-place : (p : A → Bool) (x : A) (xs : List A) → count p (place x xs) ≡ count p (x ∷ xs)
  unfolding place
  count-place p x [] = refl
  count-place p x (y ∷ xs) = ground (arith, count-place p x xs)

  -- A sort neither loses an element nor makes one up.
  pub count-sort : (p : A → Bool) (xs : List A) → count p (sort xs) ≡ count p xs
  unfolding sort
  count-sort p [] = refl
  count-sort p (x ∷ xs) = ground (arith, count-place p x (sort xs), count-sort p xs)

  length-place : (x : A) (xs : List A) → length (place x xs) ≡ suc (length xs)
  unfolding place
  length-place x [] = refl
  length-place x (y ∷ xs) = ground (arith, length-place x xs)

  pub length-sort : (xs : List A) → length (sort xs) ≡ length xs
  unfolding sort
  length-sort [] = refl
  length-sort (x ∷ xs) = ground (arith, length-place x (sort xs), length-sort xs)

  any-place : (p : A → Bool) (x : A) (xs : List A) → any p (place x xs) ≡ any p (x ∷ xs)
  unfolding place
  any-place p x [] = refl
  any-place p x (y ∷ xs) = ground (arith, any-place p x xs)

  pub any-sort : (p : A → Bool) (xs : List A) → any p (sort xs) ≡ any p xs
  unfolding sort
  any-sort p [] = refl
  any-sort p (x ∷ xs) = ground (arith, any-place p x (sort xs), any-sort p xs)

  All-place {κ} : (P : A → Type κ) (x : A) (xs : List A) → P x → All P xs → All P (place x xs)
  unfolding place
  All-place P x [] h hs = (h, tt)
  All-place P x (y ∷ xs) h hs = ground (arith, All-place P x xs h hs.1)

  pub All-sort {κ} : (P : A → Type κ) (xs : List A) → All P xs → All P (sort xs)
  unfolding sort
  All-sort P [] h = tt
  All-sort P (x ∷ xs) h = All-place P x (sort xs) h.0 (All-sort P xs h.1)

  -- No element comes before one that the order puts in front of it.
  abbrev pub IsSorted : List A → Type ℓ
  IsSorted [] = Unit
  IsSorted (x ∷ xs) = All (λ y. le x y ≡ true) xs × IsSorted xs

  -- The order need be total and transitive only on the elements of the list.
  module _ {κ} (P : A → Type κ) (le_total : (x y : A) → P x → P y → le x y ≡ false → le y x ≡ true)
      (le_trans : (x y z : A)
        → P x
        → P y
        → P z
        → le x y ≡ true
        → le y z ≡ true
        → le x z ≡ true) where
    All-le :
        (x y : A) (xs : List A)
        → P x
        → P y
        → All P xs
        → le x y ≡ true
        → All (λ z. le y z ≡ true) xs
        → All (λ z. le x z ≡ true) xs
    All-le x y [] px py ps h hs = tt
    All-le x y (z ∷ xs) px py ps h hs =
        (le_trans x y z px py ps.0 h hs.0, All-le x y xs px py ps.1 h hs.1)

    place-IsSorted : (x : A) (xs : List A) → P x → All P xs → IsSorted xs → IsSorted (place x xs)
    unfolding place
    place-IsSorted x [] px ps h = (tt, tt)
    place-IsSorted x (y ∷ xs) px ps h = elim (Bool-cases (le x y)) [
      | inl first ↦ rw first ((first, All-le x y xs px ps.0 ps.1 first h.0), h)
      | inr later ↦ rw later (
        All-place (λ z. le y z ≡ true) x xs (le_total x y px ps.0 later) h.0,
        place-IsSorted x xs px ps.1 h.1,
      )
    ]

    pub sort-IsSorted_on : (xs : List A) → All P xs → IsSorted (sort xs)
    unfolding sort
    sort-IsSorted_on [] ps = tt
    sort-IsSorted_on (x ∷ xs) ps =
        place-IsSorted x (sort xs) ps.0 (All-sort P xs ps.1) (sort-IsSorted_on xs ps.1)

  pub sort-IsSorted :
      ((x y : A) → le x y ≡ false → le y x ≡ true)
      → ((x y z : A) → le x y ≡ true → le y z ≡ true → le x z ≡ true)
      → (xs : List A) → IsSorted (sort xs)
  sort-IsSorted le_total le_trans xs =
      sort-IsSorted_on (λ x. Unit {0}) (λ x y px py. le_total x y)
        (λ x y z px py pz. le_trans x y z) xs (anything xs)
    where
      anything : (ys : List A) → All (λ x. Unit {0}) ys
      anything [] = tt
      anything (y ∷ ys) = (tt, anything ys)

  -- In a sorted list, whatever stands in a prefix comes before the rest.
  pub IsSorted-take-drop :
      (n : ℕ) (xs : List A)
      → IsSorted xs
      → All (λ x. All (λ y. le x y ≡ true) (drop n xs)) (take n xs)
  IsSorted-take-drop zero xs h = tt
  IsSorted-take-drop (suc n) [] h = tt
  IsSorted-take-drop (suc n) (x ∷ xs) h =
      (All-drop (λ y. le x y ≡ true) n xs h.0, IsSorted-take-drop n xs h.1)

  module _ {κ} (R : A → A → Type κ) (R_sym : (x y : A) → R x y → R y x) where
    Pairwise-place : (x : A) (xs : List A) → All (R x) xs → Pairwise R xs → Pairwise R (place x xs)
    unfolding place
    Pairwise-place x [] h p = (tt, tt)
    Pairwise-place x (y ∷ xs) h p = elim (Bool-cases (le x y)) [
      | inl first ↦ rw first (h, p)
      | inr later ↦ rw later (All-place (R y) x xs (R_sym x y h.0) p.0, Pairwise-place x xs h.1 p.1)
    ]

    -- A relation that does not look at the order survives a sort.
    pub Pairwise-sort : (xs : List A) → Pairwise R xs → Pairwise R (sort xs)
    unfolding sort
    Pairwise-sort [] p = tt
    Pairwise-sort (x ∷ xs) p =
        Pairwise-place x (sort xs) (All-sort (R x) xs p.0) (Pairwise-sort xs p.1)
