-- ===== src/Store/Evict.antt =====
-- idb_store.rs: `evict_to_limit` spares the files of pinned stems and reaches its limit.
use ida_mcp.Base.{
  ℕ, ◌+◌, ◌≤◌, ◌<◌, ◌^◌, ◌≡◌, ◌≢◌, refl, sym, ap, subst, ◌∙◌, ◌⊎◌, inl, inr, Bool, true, Option,
  none, some, List, [], ◌∷◌, map, Text, text_eq, text_discrete, any, is_some, All, All-map_prop,
  All-×, Pairwise, leb, Bool-cases, Option-cases, arith, HashMap, text_key,
}
use ida_mcp.Base.Map
use ida_mcp.Base.Map.{HasUniqueKeys}
use ida_mcp.Base.Sort.{sort, All-sort, any-sort, Pairwise-sort}
use ida_mcp.Files.{
  Metadata, Dir, File, Group, Eviction, regular_files, total_size, evict_groups, nothing_evicted,
}
use ida_mcp.Files.Evict.{listed, is_regular, size, every, always}
use ida_mcp.Files.Limit.{
  IsGroup, HasDistinctStems, IsPinnedRest, IsCut, evict_groups-IsCut, get-evict_groups_pinned,
  All-evict_groups,
}
use ida_mcp.Files.Listing.{total_size-regular_files, IsListed, files-IsListed}
use ida_mcp.Store.{
  Store, index_file, save, clean, stem_in, no_group, group_files, group_at, by_stem, by_newest,
  ordered_groups, evict_to_limit,
}
use ida_mcp.Store.Groups.{
  gather, gather-stem, get-gather, gather-IsGroup, group_files-HasUniqueKeys, get-group_files,
  gather_some_known, listed-gather, any_stem,
}

All-group_at {κ} :
    (P : Group → Type κ) (m : HashMap Text Group) → All (λ e. P e.1) m → All P (map group_at m)
All-group_at P [] h = tt
All-group_at P ((k, g) ∷ m) h = (h.0, All-group_at P m h.1)

any-group_at :
    (p : Group → Bool) (k : Text) (g : Group) (m : HashMap Text Group)
    → Map.get k m ≡ some g
    → p g ≡ true
    → any p (map group_at m) ≡ true
any-group_at p k g [] e h = absurd (ground arith)
any-group_at p k g ((j, w) ∷ m) e h = elim (text_discrete j k) [
  | yes same ↦ let found : w ≡ g = ground arith in ground (arith, ap p found)
  | no other ↦ ground (arith, any-group_at p k g m)
]

Pairwise-group_at :
    (m : HashMap Text Group)
    → HasUniqueKeys m
    → All (λ e. e.1.stem ≡ e.0) m
    → Pairwise (λ g g'. g'.stem ≢ g.stem) (map group_at m)
Pairwise-group_at [] u h = tt
Pairwise-group_at ((k, g) ∷ m) u h = (
  All-group_at (λ g'. g'.stem ≢ g.stem) m
      (All-map_prop _ _ m (λ e at clash. absurd (absent e.0 e.1 at.0 (sym at.1 ∙ clash ∙ h.0)))
        (All-× _ _ m (Map.All-get_self m u.1) h.1)),
  Pairwise-group_at m u.1 h.1,
)
  where
    absent : (j : Text) (g' : Group) → Map.get j m ≡ some g' → j ≡ k → ⊥
    absent j g' at same = absurd (ground (arith, subst (λ i. Map.get i m ≡ some g') same at, u.0))

-- Both sorts keep what holds of all groups.
All-ordered_groups {κ} :
    (P : Group → Type κ) (root : Text) (dir : Dir)
    → ((k : Text) → P (gather root k (no_group k) (regular_files dir)))
    → All P (ordered_groups root dir)
unfolding ordered_groups
All-ordered_groups P root dir h =
    let m = group_files root (regular_files dir) [] in
    All-sort by_newest P _ (
      All-sort by_stem P _ (
        All-group_at P m (
          All-map_prop _ _ m
            (λ e at. subst P (sym (get-gather root e.0 (regular_files dir) e.1 at)) (h e.0))
            (Map.All-get_self m (group_files-HasUniqueKeys root (regular_files dir) [] tt)))))

ordered_groups-HasDistinctStems :
    (root : Text) (dir : Dir) → HasDistinctStems (stem_in root) (ordered_groups root dir)
unfolding ordered_groups
ordered_groups-HasDistinctStems root dir =
    let fs = regular_files dir in
    let m = group_files root fs [] in
    let unique = group_files-HasUniqueKeys root fs [] tt in
    let keyed : All (λ e. e.1.stem ≡ e.0) m =
      All-map_prop _ _ m
        (λ e at.
          ap (λ g. g.stem) (get-gather root e.0 fs e.1 at) ∙ gather-stem root e.0 (no_group e.0) fs)
        (Map.All-get_self m unique) in
    Pairwise-sort by_newest (λ g g'. g'.stem ≢ g.stem) (λ g g' h e. h (sym e)) _
      (Pairwise-sort by_stem (λ g g'. g'.stem ≢ g.stem) (λ g g' h e. h (sym e)) _
        (Pairwise-group_at m unique keyed))

ordered_groups-inside :
    (root : Text) (dir : Dir)
    → All
        (λ g. (k : Text) → listed k g.files ≡ true → stem_in root k ≡ g.stem)
        (ordered_groups root dir)
ordered_groups-inside root dir = All-ordered_groups _ root dir (λ k n h.
    any_stem root k n (regular_files dir)
      (sym (listed-gather root k n (no_group k) (regular_files dir)) ∙ h)
    ∙ sym (gather-stem root k (no_group k) (regular_files dir)))

any-stem_in :
    (root n : Text) (fs : List File)
    → any (λ f. text_eq f.name n) fs ≡ true
    → any (λ f. text_eq (stem_in root f.name) (stem_in root n)) fs ≡ true
any-stem_in root n [] h = h
any-stem_in root n (f ∷ fs) h = elim (text_discrete f.name n) [
  | yes same ↦
      let here : stem_in root f.name ≡ stem_in root n = ap (stem_in root) same in ground arith
  | no other ↦ ground (arith, any-stem_in root n fs)
]

-- Every listed file has its group.
ordered_groups_known :
    (root : Text) (dir : Dir) (n : Text)
    → any (λ f. text_eq f.name n) (regular_files dir) ≡ true
    → any (λ g. text_eq g.stem (stem_in root n)) (ordered_groups root dir) ≡ true
unfolding ordered_groups
ordered_groups_known root dir n h =
    any-sort by_newest at (sort by_stem (map group_at m))
    ∙ any-sort by_stem at (map group_at m)
    ∙ named
  where
    m : HashMap Text Group
    m = group_files root (regular_files dir) []

    at : Group → Bool
    at g = text_eq g.stem (stem_in root n)

    present : is_some (Map.get (stem_in root n) m) ≡ true
    present =
        ap is_some (get-group_files root (stem_in root n) (regular_files dir) [])
        ∙ gather_some_known root (stem_in root n) none (regular_files dir)
            (any-stem_in root n (regular_files dir) h)

    named : any (λ g. text_eq g.stem (stem_in root n)) (map group_at m) ≡ true
    named = elim (Option-cases (Map.get (stem_in root n) m)) [
      | inl missing ↦ absurd (ground (arith, present))
      | inr (g, found) ↦
          any-group_at (λ g'. text_eq g'.stem (stem_in root n)) (stem_in root n) g m found
            (let own : g.stem ≡ stem_in root n =
                ap (λ g'. g'.stem) (get-gather root (stem_in root n) (regular_files dir) g found)
                ∙ gather-stem root (stem_in root n) (no_group (stem_in root n))
                    (regular_files dir) in
              ground arith)
    ]

-- `clean` touches no file but the index.
pub get-clean :
    (written : Option Metadata) (s : Store) (n : Text)
    → n ≢ index_file
    → Map.get n (clean written s).0.entries ≡ Map.get n s.entries
unfolding clean save
get-clean none s n h = ground arith
get-clean (some meta) s n h = ground (arith, Map.get-insert index_file n (some meta) s.entries)

-- A file of the store whose path without its extension is pinned, the index aside, is as it
-- was after evict_to_limit, whatever the limit and whichever files can be removed.
pub get-evict_to_limit_pinned :
    (removable : Text → Bool) (max_bytes : ℕ) (pinned : List Text) (written : Option Metadata)
    (s : Store) (n : Text)
    → any (text_eq (stem_in s.root n)) pinned ≡ true
    → n ≢ index_file
    → Map.get n (evict_to_limit removable max_bytes pinned written s).0.entries
      ≡ Map.get n s.entries
unfolding evict_to_limit
get-evict_to_limit_pinned removable max_bytes pinned written s n h other =
    elim (Bool-cases (leb (total_size 0 (regular_files s.entries)) max_bytes)) [
      | inl low ↦ rw low refl
      | inr high ↦
          let after =
            evict_groups removable (λ stem. any (text_eq stem) pinned) max_bytes
              (ordered_groups s.root s.entries)
              (nothing_evicted s.entries (total_size 0 (regular_files s.entries))) in
          rw high (
            get-clean written (record s { entries = after.dir }) n other
            ∙ get-evict_groups_pinned (stem_in s.root) removable (λ stem. any (text_eq stem) pinned)
                max_bytes n (ordered_groups s.root s.entries)
                (nothing_evicted s.entries (total_size 0 (regular_files s.entries)))
                (ordered_groups-inside s.root s.entries) h)
    ]

-- The regular files of a directory are all of pinned stems.
abbrev pub IsPinnedDir : Text → List Text → Dir → Type 0
IsPinnedDir root pinned dir =
    All (λ e. is_regular e.1 ≡ true → any (text_eq (stem_in root e.0)) pinned ≡ true) dir

module _ (max_bytes : ℕ) (pinned : List Text) (written : Option Metadata) (s : Store)
    (small : size every s.entries < 2 ^ 64) where
  abbrev is_pinned : Text → Bool
  is_pinned stem = any (text_eq stem) pinned

  abbrev start : Eviction
  start = nothing_evicted s.entries (total_size 0 (regular_files s.entries))

  abbrev groups : List Group
  groups = ordered_groups s.root s.entries

  measured : total_size 0 (regular_files s.entries) ≡ size every s.entries
  measured = omega (arith, total_size-regular_files 0 s.entries (omega (arith, small)))

  cut :
      IsCut
        (stem_in s.root)
        is_pinned
        max_bytes
        groups
        start
        (evict_groups always is_pinned max_bytes groups start)
  cut =
      evict_groups-IsCut (stem_in s.root) is_pinned max_bytes groups start
        (All-ordered_groups (IsGroup (stem_in s.root) s.entries) s.root s.entries
          (λ k. gather-IsGroup s.root k s.entries small))
        (ordered_groups-HasDistinctStems s.root s.entries) measured (omega (arith, measured, small))

  rest-IsPinnedDir :
      (dir : Dir)
      → IsPinnedRest (stem_in s.root) is_pinned groups dir
      → All (IsListed (regular_files s.entries)) dir
      → IsPinnedDir s.root pinned dir
  rest-IsPinnedDir [] rest listing = tt
  rest-IsPinnedDir (e ∷ dir) rest listing = (
    λ regular. rest.0 regular (ordered_groups_known s.root s.entries e.0 (listing.0 regular)),
    rest-IsPinnedDir dir rest.1 listing.1,
  )

  cut_within :
      let w = evict_groups always is_pinned max_bytes groups start in
      (w.remaining_bytes ≤ max_bytes) ⊎ IsPinnedDir s.root pinned w.dir
  cut_within = elim cut.within [
    | inl low ↦ inl low
    | inr rest ↦ inr (
        rest-IsPinnedDir (evict_groups always is_pinned max_bytes groups start).dir rest (
          All-evict_groups (stem_in s.root) (IsListed (regular_files s.entries)) always is_pinned
            max_bytes groups start (files-IsListed s.entries)))
  ]

  -- Where every file can be removed and a u64 counts the bytes of the store, evict_to_limit
  -- reports as remaining the bytes of the regular files that its eviction leaves, they and the
  -- evicted bytes are the bytes that were there, and what is left is within the limit or
  -- consists of files of pinned stems alone.
  pub evict_to_limit_lem :
      let w = (evict_to_limit always max_bytes pinned written s).1 in
      (w.remaining_bytes ≡ size every w.dir)
      × (w.evicted_bytes + w.remaining_bytes ≡ size every s.entries)
      × ((w.remaining_bytes ≤ max_bytes) ⊎ IsPinnedDir s.root pinned w.dir)
  unfolding evict_to_limit
  evict_to_limit_lem = elim (Bool-cases (leb (total_size 0 (regular_files s.entries)) max_bytes)) [
    | inl low ↦ rw low (measured, omega (arith, measured), inl (ground arith))
    | inr high ↦ rw high (cut.measured, omega (arith, cut.balanced, measured), cut_within)
  ]
