-- ===== src/Base/Map.antt =====
-- `HashMap` as an association list. The list's order stands for the order in which the map
-- iterates, which the program must not depend on.
use mathlib.Core.Path.{◌≡◌, refl, sym, subst}
use Prim.Native.Nat.{suc, ◌≤◌, ◌<◌}
use mathlib.Core.Bool.{Bool, true}
use mathlib.Core.Logic.{ite, if_pos, if_neg, ◌≢◌}
use mathlib.Core.List.{List, [], ◌∷◌, ◌++◌}
use mathlib.Core.Option.{Option, none, some}
use mathlib.Core.Option
use native.Mathlib.Omega.{arith}
use ida_mcp.Base.Lists.{All-map_prop, length, count, find, All}
use ida_mcp.Base.Str.{Text, text_discrete}

-- A type that may be a key.
pub record Key (K : Type 0) : Type 0 where
  pub key_discrete : Discrete K

instance abbrev pub text_key : Key Text
text_key = record { key_discrete = text_discrete }

abbrev pub HashMap {ℓ} : Type 0 → Type ℓ → Type ℓ
HashMap K V = List (K × V)

module _ {ℓ} {K : Type 0} {V : Type ℓ} ⦃e : Key K⦄ where
  abbrev pub get : K → HashMap K V → Option V
  get k [] = none
  get k ((j, v) ∷ m) = ite (e.key_discrete j k) (some v) (get k m)

  abbrev pub insert : K → V → HashMap K V → HashMap K V
  insert k v [] = (k, v) ∷ []
  insert k v ((j, w) ∷ m) = ite (e.key_discrete j k) ((k, v) ∷ m) ((j, w) ∷ insert k v m)

  abbrev pub remove : K → HashMap K V → HashMap K V
  remove k [] = []
  remove k ((j, v) ∷ m) = let rest = remove k m in ite (e.key_discrete j k) rest ((j, v) ∷ rest)

  -- A write through `get_mut`.
  abbrev pub modify : K → (V → V) → HashMap K V → HashMap K V
  modify k f [] = []
  modify k f ((j, v) ∷ m) = ite (e.key_discrete j k) ((j, f v) ∷ m) ((j, v) ∷ modify k f m)

  pub get-insert :
      (k j : K) (v : V) (m : HashMap K V)
      → get j (insert k v m) ≡ ite (e.key_discrete k j) (some v) (get j m)
  get-insert k j v [] = refl
  get-insert k j v ((i, w) ∷ m) = ground (arith, get-insert k j v m)

  pub get-remove :
      (k j : K) (m : HashMap K V) → get j (remove k m) ≡ ite (e.key_discrete k j) none (get j m)
  get-remove k j [] = ground arith
  get-remove k j ((i, w) ∷ m) = ground (arith, get-remove k j m)

  pub get-modify :
      (k j : K) (f : V → V) (m : HashMap K V)
      → get j (modify k f m) ≡ ite (e.key_discrete k j) (Option.map f (get j m)) (get j m)
  get-modify k j f [] = ground arith
  get-modify k j f ((i, w) ∷ m) = ground (arith, get-modify k j f m)

  -- No key stands twice.
  abbrev pub HasUniqueKeys : HashMap K V → Type ℓ
  HasUniqueKeys [] = Unit
  HasUniqueKeys ((k, v) ∷ m) = (get k m ≡ none) × HasUniqueKeys m

  pub insert-HasUniqueKeys :
      (k : K) (v : V) (m : HashMap K V) → HasUniqueKeys m → HasUniqueKeys (insert k v m)
  insert-HasUniqueKeys k v [] h = (refl, tt)
  insert-HasUniqueKeys k v ((j, w) ∷ m) h =
      ground (arith, get-insert k j v m, insert-HasUniqueKeys k v m h.1)

  pub remove-HasUniqueKeys :
      (k : K) (m : HashMap K V) → HasUniqueKeys m → HasUniqueKeys (remove k m)
  remove-HasUniqueKeys k [] h = tt
  remove-HasUniqueKeys k ((j, w) ∷ m) h =
      ground (arith, get-remove k j m, remove-HasUniqueKeys k m h.1)

  pub modify-HasUniqueKeys :
      (k : K) (f : V → V) (m : HashMap K V) → HasUniqueKeys m → HasUniqueKeys (modify k f m)
  modify-HasUniqueKeys k f [] h = tt
  modify-HasUniqueKeys k f ((j, w) ∷ m) h =
      ground (arith, get-modify k j f m, modify-HasUniqueKeys k f m h.1)

  -- A new key goes to the end.
  pub insert-eq-append :
      (k : K) (v : V) (m : HashMap K V) → get k m ≡ none → insert k v m ≡ m ++ (k, v) ∷ []
  insert-eq-append k v [] h = refl
  insert-eq-append k v ((j, w) ∷ m) h = ground (arith, insert-eq-append k v m)

  pub length-insert_le : (k : K) (v : V) (m : HashMap K V) → length (insert k v m) ≤ suc (length m)
  length-insert_le k v [] = omega arith
  length-insert_le k v ((j, w) ∷ m) = ground (arith, length-insert_le k v m)

  pub length-remove_le : (k : K) (m : HashMap K V) → length (remove k m) ≤ length m
  length-remove_le k [] = omega arith
  length-remove_le k ((j, w) ∷ m) = ground (arith, length-remove_le k m)

  pub length-remove_lt :
      (k : K) (v : V) (m : HashMap K V) → get k m ≡ some v → length (remove k m) < length m
  length-remove_lt k v [] h = absurd (ground arith)
  length-remove_lt k v ((j, w) ∷ m) h = ground (arith, length-remove_lt k v m, length-remove_le k m)

  pub length-modify : (k : K) (f : V → V) (m : HashMap K V) → length (modify k f m) ≡ length m
  length-modify k f [] = refl
  length-modify k f ((j, w) ∷ m) = ground (arith, length-modify k f m)

  pub count-remove_le :
      (p : K × V → Bool) (k : K) (m : HashMap K V) → count p (remove k m) ≤ count p m
  count-remove_le p k [] = omega arith
  count-remove_le p k ((j, w) ∷ m) = ground (arith, count-remove_le p k m)

  -- What holds of every entry.
  pub All-remove {κ} : (P : K × V → Type κ) (k : K) (m : HashMap K V) → All P m → All P (remove k m)
  All-remove P k [] h = tt
  All-remove P k ((j, w) ∷ m) h = ground (arith, All-remove P k m h.1)

  pub All-insert {κ} :
      (P : K × V → Type κ) (k : K) (v : V) (m : HashMap K V)
      → P (k, v)
      → All P m
      → All P (insert k v m)
  All-insert P k v [] p h = (p, tt)
  All-insert P k v ((j, w) ∷ m) p h = ground (arith, All-insert P k v m p h.1)

  pub All-get {κ} :
      (P : K × V → Type κ) (k : K) (v : V) (m : HashMap K V) → All P m → get k m ≡ some v → P (k, v)
  All-get P k v [] h g = absurd (ground arith)
  All-get P k v ((j, w) ∷ m) h g = elim (e.key_discrete j k) [
    | yes same ↦
        let found : w ≡ v = ground arith in
        subst (λ u. P (k, u)) found (subst (λ i. P (i, w)) same h.0)
    | no other ↦ All-get P k v m h.1 (ground arith)
  ]

  -- What a search over the entries finds is what the map holds at that key.
  pub get-find :
      (p : K × V → Bool) (k : K) (v : V) (m : HashMap K V)
      → HasUniqueKeys m
      → find p m ≡ some (k, v)
      → get k m ≡ some v
  get-find p k v [] u h = cc
  get-find p k v ((j, w) ∷ m) u h = ground (arith, get-find p k v m u.1)

  pub All-get_self : (m : HashMap K V) → HasUniqueKeys m → All (λ x. get x.0 m ≡ some x.1) m
  All-get_self [] h = tt
  All-get_self ((k, v) ∷ m) h = (
    ground arith,
    All-map_prop (λ x. get x.0 m ≡ some x.1) (λ x. get x.0 ((k, v) ∷ m) ≡ some x.1) m
        (λ x g. ground arith) (All-get_self m h.1),
  )

  pub All-modify {κ} :
      (P : K × V → Type κ) (k : K) (f : V → V) (m : HashMap K V)
      → ((j : K) (v : V) → P (j, v) → P (j, f v))
      → All P m
      → All P (modify k f m)
  All-modify P k f [] h a = tt
  All-modify P k f ((j, w) ∷ m) h a = ground (arith, h j w a.0, All-modify P k f m h a.1)

  pub count-modify_le :
      (p : K × V → Bool) (k : K) (f : V → V) (m : HashMap K V)
      → ((j : K) (v : V) → p (j, f v) ≡ true → p (j, v) ≡ true)
      → count p (modify k f m) ≤ count p m
  count-modify_le p k f [] h = omega arith
  count-modify_le p k f ((j, w) ∷ m) h = ground (arith, h j w, count-modify_le p k f m h)

  pub get-insert_self : (k : K) (v : V) (m : HashMap K V) → get k (insert k v m) ≡ some v
  get-insert_self k v m = ground (arith, get-insert k k v m)

  pub get-insert_of_none :
      (k j : K) (v w : V) (m : HashMap K V)
      → get k m ≡ none
      → get j m ≡ some w
      → get j (insert k v m) ≡ some w
  get-insert_of_none k j v w m h g = ground (arith, get-insert k j v m)

  pub get-modify_self :
      (k : K) (f : V → V) (v : V) (m : HashMap K V)
      → get k m ≡ some v
      → get k (modify k f m) ≡ some (f v)
  get-modify_self k f v m h = ground (arith, get-modify k k f m)

  pub get-modify_ne :
      (k j : K) (f : V → V) (m : HashMap K V) → k ≢ j → get j (modify k f m) ≡ get j m
  get-modify_ne k j f m h = ground (arith, get-modify k j f m)

  pub count-modify-suc :
      (p : K × V → Bool) (k : K) (f : V → V) (m : HashMap K V)
      → count p (modify k f m) ≤ suc (count p m)
  count-modify-suc p k f [] = omega arith
  count-modify-suc p k f ((j, w) ∷ m) = ground (arith, count-modify-suc p k f m)

  -- A write needs the property at the written entry only.
  pub All-modify_at {κ} :
      (P : K × V → Type κ) (k : K) (f : V → V) (v : V) (m : HashMap K V)
      → get k m ≡ some v
      → P (k, f v)
      → All P m
      → All P (modify k f m)
  All-modify_at P k f v [] g p h = absurd (ground arith)
  All-modify_at P k f v ((j, w) ∷ m) g p h = elim (e.key_discrete j k) [
    | yes same ↦
        let found : w ≡ v = ground arith in
        let here : P (j, f w) =
          subst (λ i. P (i, f w)) (sym same) (subst (λ u. P (k, f u)) (sym found) p) in
        rw (if_pos _ same) (here, h.1)
    | no other ↦ rw (if_neg _ other) (h.0, All-modify_at P k f v m (ground arith) p h.1)
  ]
