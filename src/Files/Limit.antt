-- ===== src/Files/Limit.antt =====
-- What `evict_groups` guarantees: pinned files stay, the books balance, and the limit is reached unless
-- only pinned files are left.
use ida_mcp.Base.{
  ℕ, ◌+◌, ◌≤◌, ◌<◌, ◌^◌, ◌≡◌, ◌≢◌, refl, sym, ap, subst, ◌∙◌, ◌⊎◌, inl, inr, Bool, true, false,
  Option, List, [], ◌∷◌, Text, text_eq, any, All, All-map_prop, All-×, Pairwise, leb, Bool-cases,
  arith, text_key,
}
use ida_mcp.Base.Map
use ida_mcp.Files.{Metadata, Dir, Group, Eviction, remove_files, evict_group, evict_groups}
use ida_mcp.Files.Evict.{
  listed, is_regular, size, every, always, Covers, get-remove_files, size-remove_files, size_congr,
  size_split, size_covered,
}

pub All-remove_files {κ} :
    (P : Text × Option Metadata → Type κ) (removable : Text → Bool) (names : List Text) (dir : Dir)
    → All P dir
    → All P (remove_files removable names dir)
All-remove_files P removable [] dir h = h
All-remove_files P removable (k ∷ names) dir h = elim (Bool-cases (removable k)) [
  | inl goes ↦
      rw goes (All-remove_files P removable names (Map.remove k dir) (Map.All-remove P k dir h))
  | inr stays ↦ rw stays (All-remove_files P removable names dir h)
]

All-unlisted_one : (k : Text) (dir : Dir) → All (λ e. text_eq k e.0 ≡ false) (Map.remove k dir)
All-unlisted_one k [] = tt
All-unlisted_one k ((j, meta) ∷ dir) = ground (arith, All-unlisted_one k dir)

-- A removed name is not an entry any more.
pub All-unlisted :
    (names : List Text) (dir : Dir)
    → All (λ e. listed e.0 names ≡ false) (remove_files always names dir)
All-unlisted [] dir = All_true dir
  where
    All_true : (d : Dir) → All (λ e. listed e.0 [] ≡ false) d
    All_true [] = tt
    All_true (e ∷ d) = (refl, All_true d)
All-unlisted (k ∷ names) dir =
    All-map_prop (λ e. (text_eq k e.0 ≡ false) × (listed e.0 names ≡ false))
      (λ e. listed e.0 (k ∷ names) ≡ false) _ (λ e h. ground arith)
      (All-× (λ e. text_eq k e.0 ≡ false) (λ e. listed e.0 names ≡ false) _
        (All-remove_files (λ e. text_eq k e.0 ≡ false) always names (Map.remove k dir)
          (All-unlisted_one k dir))
        (All-unlisted names (Map.remove k dir)))

module _ (stem : Text → Text) where
  abbrev pub of_stem : Text → Text → Bool
  of_stem s n = text_eq (stem n) s

  -- A group has the regular files of its stem, and their bytes.
  pub record IsGroup (dir : Dir) (g : Group) : Type 0 where
    pub inside : (n : Text) → listed n g.files ≡ true → stem n ≡ g.stem
    pub covers : Covers (of_stem g.stem) (λ n. listed n g.files) dir
    pub bytes : g.bytes ≡ size (of_stem g.stem) dir

  abbrev pub HasDistinctStems : List Group → Type 0
  HasDistinctStems gs = Pairwise (λ g g'. g'.stem ≢ g.stem) gs

  group-size :
      (dir : Dir) (g : Group)
      → IsGroup dir g
      → size every (remove_files always g.files dir) + g.bytes ≡ size every dir
  group-size dir g v = omega (
    arith,
    v.bytes,
    size-remove_files every g.files dir,
    size_split every (λ n. listed n g.files) dir,
    size_covered (of_stem g.stem) (λ n. listed n g.files) dir (λ n h. ground (arith, v.inside n h))
        v.covers,
  )

  -- The other groups are still what they were.
  IsGroup-remove_files :
      (dir : Dir) (g g' : Group)
      → IsGroup dir g
      → g'.stem ≢ g.stem
      → IsGroup dir g'
      → IsGroup (remove_files always g.files dir) g'
  IsGroup-remove_files dir g g' v other w = record {
    inside = w.inside;
    covers = All-remove_files _ always g.files dir w.covers;
    bytes =
        w.bytes
        ∙ size_congr (of_stem g'.stem) _ dir (λ n. ground (arith, v.inside n))
        ∙ sym (size-remove_files (of_stem g'.stem) g.files dir);
  }

  All-IsGroup-remove_files :
      (dir : Dir) (g : Group) (gs : List Group)
      → IsGroup dir g
      → All (λ g'. g'.stem ≢ g.stem) gs
      → All (IsGroup dir) gs
      → All (IsGroup (remove_files always g.files dir)) gs
  All-IsGroup-remove_files dir g [] v other ws = tt
  All-IsGroup-remove_files dir g (g' ∷ gs) v other ws = (
    IsGroup-remove_files dir g g' v other.0 ws.0,
    All-IsGroup-remove_files dir g gs v other.1 ws.1,
  )

  -- What holds of every entry of a directory holds of those that are left.
  pub All-evict_groups {κ} :
      (P : Text × Option Metadata → Type κ) (removable pinned : Text → Bool) (max_bytes : ℕ)
      (gs : List Group) (v : Eviction)
      → All P v.dir
      → All P (evict_groups removable pinned max_bytes gs v).dir
  unfolding evict_groups evict_group
  All-evict_groups P removable pinned max_bytes [] v h = h
  All-evict_groups P removable pinned max_bytes (g ∷ gs) v h =
      elim (Bool-cases (leb v.remaining_bytes max_bytes)) [
        | inl enough ↦ rw enough h
        | inr more ↦ elim (Bool-cases (pinned g.stem)) [
          | inl stays ↦ rw (more, stays) (All-evict_groups P removable pinned max_bytes gs v h)
          | inr goes ↦
              rw (more, goes)
                (All-evict_groups P removable pinned max_bytes gs (evict_group removable g v)
                  (All-remove_files P removable g.files v.dir h))
        ]
      ]

  -- A file of a pinned stem stays as it is, whether files can be removed or not.
  pub get-evict_groups_pinned :
      (removable pinned : Text → Bool) (max_bytes : ℕ) (n : Text) (gs : List Group) (v : Eviction)
      → All (λ g. (k : Text) → listed k g.files ≡ true → stem k ≡ g.stem) gs
      → pinned (stem n) ≡ true
      → Map.get n (evict_groups removable pinned max_bytes gs v).dir ≡ Map.get n v.dir
  unfolding evict_groups evict_group
  get-evict_groups_pinned removable pinned max_bytes n [] v inside h = refl
  get-evict_groups_pinned removable pinned max_bytes n (g ∷ gs) v inside h =
      elim (Bool-cases (leb v.remaining_bytes max_bytes)) [
        | inl enough ↦ rw enough refl
        | inr more ↦ elim (Bool-cases (pinned g.stem)) [
          | inl stays ↦
              rw (more, stays)
                (get-evict_groups_pinned removable pinned max_bytes n gs v inside.1 h)
          | inr goes ↦
              let unlisted : listed n g.files ≡ false = elim (Bool-cases (listed n g.files)) [
                | inl hit ↦ absurd (ground (arith, ap pinned (inside.0 n hit)))
                | inr miss ↦ miss
              ] in
              rw (more, goes)
                (get-evict_groups_pinned removable pinned max_bytes n gs (evict_group removable g v)
                    inside.1 h
                  ∙ get-remove_files removable n g.files v.dir unlisted)
        ]
      ]

  -- Every regular file that is left is of a pinned stem, as far as its stem is among the groups'.
  abbrev pub IsPinnedRest : (Text → Bool) → List Group → Dir → Type 0
  IsPinnedRest pinned gs dir =
      All
        (λ e.
          is_regular e.1 ≡ true
          → any (λ g. text_eq g.stem (stem e.0)) gs ≡ true
          → pinned (stem e.0) ≡ true)
        dir

  pub record IsCut (pinned : Text → Bool) (max_bytes : ℕ) (gs : List Group) (v w : Eviction)
      : Type 0 where
    pub measured : w.remaining_bytes ≡ size every w.dir
    pub balanced : w.evicted_bytes + w.remaining_bytes ≡ v.evicted_bytes + v.remaining_bytes
    pub within : (w.remaining_bytes ≤ max_bytes) ⊎ IsPinnedRest pinned gs w.dir

  evict_group-books :
      (g : Group) (v : Eviction)
      → IsGroup v.dir g
      → v.remaining_bytes ≡ size every v.dir
      → v.evicted_bytes + v.remaining_bytes < 2 ^ 64
      → let w = evict_group always g v in
        (w.remaining_bytes ≡ size every w.dir)
        × (w.evicted_bytes + w.remaining_bytes ≡ v.evicted_bytes + v.remaining_bytes)
  unfolding evict_group
  evict_group-books g v is measured small =
      (omega (arith, group-size v.dir g is), omega (arith, group-size v.dir g is))

  -- The rest of one group, and of all.
  abbrev IsPinnedOf : (Text → Bool) → Group → Text × Option Metadata → Type 0
  IsPinnedOf pinned g e =
      is_regular e.1 ≡ true → text_eq g.stem (stem e.0) ≡ true → pinned (stem e.0) ≡ true

  rest_cons :
      (pinned : Text → Bool) (g : Group) (gs : List Group) (dir : Dir)
      → All (IsPinnedOf pinned g) dir
      → IsPinnedRest pinned gs dir
      → IsPinnedRest pinned (g ∷ gs) dir
  rest_cons pinned g gs [] h k = tt
  rest_cons pinned g gs (e ∷ dir) h k =
      (λ regular at. ground (arith, h.0 regular, k.0 regular), rest_cons pinned g gs dir h.1 k.1)

  pinned_own :
      (pinned : Text → Bool) (g : Group) (dir : Dir)
      → pinned g.stem ≡ true
      → All (IsPinnedOf pinned g) dir
  pinned_own pinned g [] h = tt
  pinned_own pinned g (e ∷ dir) h =
      (λ regular at. subst (λ s. pinned s ≡ true) (ground arith) h, pinned_own pinned g dir h)

  evicted_own :
      (pinned : Text → Bool) (g : Group) (dir : Dir)
      → Covers (of_stem g.stem) (λ n. listed n g.files) dir
      → All (λ e. listed e.0 g.files ≡ false) dir
      → All (IsPinnedOf pinned g) dir
  evicted_own pinned g [] c u = tt
  evicted_own pinned g (e ∷ dir) c u =
      (λ regular at. absurd (ground (arith, c.0 regular)), evicted_own pinned g dir c.1 u.1)

  -- With every file removable and fewer bytes than a `u64` counts, the loop measures what is left,
  -- balances what it evicts, and ends within the limit or with pinned files alone.
  pub evict_groups-IsCut :
      (pinned : Text → Bool) (max_bytes : ℕ) (gs : List Group) (v : Eviction)
      → All (IsGroup v.dir) gs
      → HasDistinctStems gs
      → v.remaining_bytes ≡ size every v.dir
      → v.evicted_bytes + v.remaining_bytes < 2 ^ 64
      → IsCut pinned max_bytes gs v (evict_groups always pinned max_bytes gs v)
  unfolding evict_groups
  evict_groups-IsCut pinned max_bytes [] v is distinct measured small = record {
    measured = measured;
    balanced = refl;
    within = inr (nothing v.dir);
  }
    where
      nothing : (dir : Dir) → IsPinnedRest pinned [] dir
      nothing [] = tt
      nothing (e ∷ dir) = (λ regular at. absurd (ground arith), nothing dir)
  evict_groups-IsCut pinned max_bytes (g ∷ gs) v is distinct measured small =
      elim (Bool-cases (leb v.remaining_bytes max_bytes)) [
        | inl enough ↦
            rw enough (record { measured = measured; balanced = refl; within = inl (ground arith) })
        | inr more ↦ elim (Bool-cases (pinned g.stem)) [
          | inl stays ↦
              let c = evict_groups-IsCut pinned max_bytes gs v is.1 distinct.1 measured small in
              rw (more, stays)
                (record {
                  measured = c.measured;
                  balanced = c.balanced;
                  within =
                      extend g gs max_bytes (evict_groups always pinned max_bytes gs v)
                        (pinned_own pinned g _ stays) c.within;
                })
          | inr goes ↦
              let (measured', balanced') = evict_group-books g v is.0 measured small in
              let v' = evict_group always g v in
              let c =
                evict_groups-IsCut pinned max_bytes gs v'
                  (unfold evict_group in All-IsGroup-remove_files v.dir g gs is.0 distinct.0 is.1)
                  distinct.1 measured' (omega (arith, balanced')) in
              rw (more, goes)
                (record {
                  measured = c.measured;
                  balanced = c.balanced ∙ balanced';
                  within =
                      extend g gs max_bytes (evict_groups always pinned max_bytes gs v')
                        (All-evict_groups (IsPinnedOf pinned g) always pinned max_bytes gs v' (
                          unfold evict_group in
                          evicted_own pinned g (remove_files always g.files v.dir)
                            (All-remove_files _ always g.files v.dir is.0.covers)
                            (All-unlisted g.files v.dir)))
                        c.within;
                })
        ]
      ]
    where
      extend :
          (h : Group) (hs : List Group) (max : ℕ) (w : Eviction)
          → All (IsPinnedOf pinned h) w.dir
          → (w.remaining_bytes ≤ max) ⊎ IsPinnedRest pinned hs w.dir
          → (w.remaining_bytes ≤ max) ⊎ IsPinnedRest pinned (h ∷ hs) w.dir
      extend h hs max w own (inl low) = inl low
      extend h hs max w own (inr rest) = inr (rest_cons pinned h hs w.dir own rest)
