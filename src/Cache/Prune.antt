-- ===== src/Cache/Prune.antt =====
-- server/response_cache.rs: `prune_to_limit` reaches its limit.
use ida_mcp.Base.{
  ℕ, ◌+◌, ◌≤◌, ◌<◌, ◌^◌, ◌≡◌, ◌≢◌, refl, sym, ap, subst, ◌∙◌, inl, inr, Bool, true, Option, none,
  some, List, [], ◌∷◌, map, Text, text_eq, text_discrete, any, All, All-map_prop, Pairwise, leb,
  Bool-cases, arith, text_key,
}
use ida_mcp.Base.Map
use ida_mcp.Base.Map.{HasUniqueKeys}
use ida_mcp.Base.Sort.{sort, All-sort, any-sort, Pairwise-sort}
use ida_mcp.Cache.{older, file_group, never_pinned, prune_to_limit}
use ida_mcp.Files.{
  Metadata, Dir, File, Group, file_of, regular_files, total_size, evict_groups, nothing_evicted,
}
use ida_mcp.Files.Evict.{Covers, listed, size_of, is_regular, size, every, always}
use ida_mcp.Files.Listing.{total_size-regular_files, All-regular_files, IsListed, files-IsListed}
use ida_mcp.Files.Limit.{
  All-evict_groups, IsGroup, HasDistinctStems, IsPinnedRest, IsCut, evict_groups-IsCut,
}

abbrev own_name : Text → Text
own_name name = name

size_unknown : (n : Text) (dir : Dir) → Map.get n dir ≡ none → size (λ k. text_eq k n) dir ≡ 0
size_unknown n [] h = refl
size_unknown n ((k, meta) ∷ dir) h = ground (arith, size_unknown n dir)

size_known :
    (n : Text) (meta : Option Metadata) (dir : Dir)
    → HasUniqueKeys dir
    → Map.get n dir ≡ some meta
    → size (λ k. text_eq k n) dir ≡ size_of meta
size_known n meta [] u h = absurd (ground arith)
size_known n meta ((k, m) ∷ dir) u h = elim (text_discrete k n) [
  | yes same ↦
      let alone : Map.get n dir ≡ none = subst (λ j. Map.get j dir ≡ none) same u.0 in
      let found : m ≡ meta = ground arith in ground (arith, size_unknown n dir, ap size_of found)
  | no other ↦ ground (arith, size_known n meta dir u.1)
]

file_IsGroup :
    (dir : Dir) (n : Text) (meta : Option Metadata) (f : File)
    → HasUniqueKeys dir
    → Map.get n dir ≡ some meta
    → file_of (n, meta) ≡ some f
    → IsGroup own_name dir (file_group f)
file_IsGroup dir n none f u at e = absurd (ground arith)
file_IsGroup dir n (some meta) f u at e = elim (Bool-cases meta.is_file) [
  | inr other ↦ absurd (ground arith)
  | inl file ↦
      let name : n ≡ f.name = ground arith in
      let len : f.len ≡ size_of (some meta) = ground arith in
      record {
        inside = λ k h. ground arith;
        covers = covered f dir;
        bytes =
            len
            ∙ sym (size_known n (some meta) dir u at)
            ∙ ap (λ k. size (λ j. text_eq j k) dir) name;
      }
]
  where
    covered : (g : File) (d : Dir) → Covers (λ k. text_eq k g.name) (λ k. listed k (g.name ∷ [])) d
    covered g [] = tt
    covered g (x ∷ d) = (λ regular at'. ground arith, covered g d)

files-IsGroup :
    (dir : Dir)
    → HasUniqueKeys dir
    → All (λ f. IsGroup own_name dir (file_group f)) (regular_files dir)
files-IsGroup dir u =
    All-regular_files (λ f. IsGroup own_name dir (file_group f)) dir
      (All-map_prop (λ e. Map.get e.0 dir ≡ some e.1) _ dir
        (λ e at f same. file_IsGroup dir e.0 e.1 f u at same) (Map.All-get_self dir u))

All-map {κ} :
    (P : Group → Type κ) (fs : List File)
    → All (λ f. P (file_group f)) fs
    → All P (map file_group fs)
All-map P [] h = tt
All-map P (f ∷ fs) h = (h.0, All-map P fs h.1)

abbrev OtherName : File → File → Type 0
OtherName f g = g.name ≢ f.name

files-Pairwise : (dir : Dir) → HasUniqueKeys dir → Pairwise OtherName (regular_files dir)
files-Pairwise [] u = tt
files-Pairwise ((n, none) ∷ dir) u = files-Pairwise dir u.1
files-Pairwise ((n, some meta) ∷ dir) u = elim (Bool-cases meta.is_file) [
  | inr other ↦ rw other (files-Pairwise dir u.1)
  | inl file ↦ rw file (
    All-regular_files (λ g. g.name ≢ n) dir
        (All-map_prop (λ e. Map.get e.0 dir ≡ some e.1) _ dir
          (λ e at f same. λ clash. absurd (absent e.0 e.1 f at same clash))
          (Map.All-get_self dir u.1)),
    files-Pairwise dir u.1,
  )
]
  where
    named : (k : Text) (m : Option Metadata) (f : File) → file_of (k, m) ≡ some f → f.name ≡ k
    named k none f same = absurd (ground arith)
    named k (some m) f same = ground arith

    absent :
        (k : Text) (m : Option Metadata) (f : File)
        → Map.get k dir ≡ some m
        → file_of (k, m) ≡ some f
        → f.name ≡ n
        → ⊥
    absent k m f at same clash =
        let here : k ≡ n = sym (named k m f same) ∙ clash in
        absurd (ground (arith, subst (λ j. Map.get j dir ≡ some m) here at, u.0))

Pairwise-map :
    (fs : List File) → Pairwise OtherName fs → HasDistinctStems own_name (map file_group fs)
Pairwise-map [] p = tt
Pairwise-map (f ∷ fs) p = (All-map (λ g. g.stem ≢ f.name) fs p.0, Pairwise-map fs p.1)

any-map :
    (p : Group → Bool) (fs : List File) → any p (map file_group fs) ≡ any (λ f. p (file_group f)) fs
any-map p [] = refl
any-map p (f ∷ fs) = ground (arith, any-map p fs)

-- Nothing is left where nothing is pinned and every regular file is in a group.
size-none :
    (gs : List Group) (dir : Dir)
    → IsPinnedRest own_name never_pinned gs dir
    → All (λ e. is_regular e.1 ≡ true → any (λ g. text_eq g.stem e.0) gs ≡ true) dir
    → size every dir ≡ 0
size-none gs [] rest known = refl
size-none gs ((n, none) ∷ dir) rest known = omega (arith, size-none gs dir rest.1 known.1)
size-none gs ((n, some meta) ∷ dir) rest known = elim (Bool-cases meta.is_file) [
  | inl file ↦ absurd (ground (arith, rest.0 file, known.0 file))
  | inr other ↦ rw other (omega (arith, size-none gs dir rest.1 known.1))
]

module _ (max_bytes : ℕ) (dir : Dir) (unique : HasUniqueKeys dir)
    (small : size every dir < 2 ^ 64) where
  abbrev groups : List Group
  groups = map file_group (sort older (regular_files dir))

  measured : total_size 0 (regular_files dir) ≡ size every dir
  measured = omega (arith, total_size-regular_files 0 dir (omega (arith, small)))

  cut :
      IsCut own_name never_pinned max_bytes groups
        (nothing_evicted dir (total_size 0 (regular_files dir)))
        (evict_groups always never_pinned max_bytes groups
          (nothing_evicted dir (total_size 0 (regular_files dir))))
  cut =
      evict_groups-IsCut own_name never_pinned max_bytes groups
        (nothing_evicted dir (total_size 0 (regular_files dir)))
        (All-map (IsGroup own_name dir) (sort older (regular_files dir))
          (All-sort older _ (regular_files dir) (files-IsGroup dir unique)))
        (Pairwise-map (sort older (regular_files dir)) (
          Pairwise-sort older OtherName (λ f g h e. h (sym e)) (regular_files dir)
            (files-Pairwise dir unique)))
        measured (omega (arith, measured, small))

  known :
      (d : Dir)
      → All (IsListed (regular_files dir)) d
      → All (λ e. is_regular e.1 ≡ true → any (λ g. text_eq g.stem e.0) groups ≡ true) d
  known [] h = tt
  known (e ∷ d) h = (
    λ regular.
        any-map (λ g. text_eq g.stem e.0) (sort older (regular_files dir))
        ∙ any-sort older (λ f. text_eq f.name e.0) (regular_files dir)
        ∙ h.0 regular,
    known d h.1,
  )

  cut_within :
      let w =
        evict_groups always never_pinned max_bytes groups
          (nothing_evicted dir (total_size 0 (regular_files dir))) in
      w.remaining_bytes ≤ max_bytes
  cut_within = elim cut.within [
    | inl low ↦ low
    | inr rest ↦ omega (
      arith,
      cut.measured,
      size-none groups _ rest (
          All-evict_groups own_name _ always never_pinned max_bytes groups
            (nothing_evicted dir (total_size 0 (regular_files dir)))
            (known dir (files-IsListed dir))),
    )
  ]

  -- Where names are unique, every file can be removed and a u64 counts the bytes, prune_to_limit
  -- leaves no more bytes than the limit, reports as remaining the bytes of the regular files
  -- that are left, and they and the evicted bytes are the bytes that were there.
  pub prune_to_limit_lem :
      let w = prune_to_limit always max_bytes dir in
      (w.remaining_bytes ≡ size every w.dir)
      × (w.remaining_bytes ≤ max_bytes)
      × (w.evicted_bytes + w.remaining_bytes ≡ size every dir)
  unfolding prune_to_limit
  prune_to_limit_lem = elim (Bool-cases (leb (total_size 0 (regular_files dir)) max_bytes)) [
    | inl low ↦ rw low (measured, ground arith, omega (arith, measured))
    | inr high ↦ rw high (cut.measured, cut_within, omega (arith, cut.balanced, measured))
  ]
