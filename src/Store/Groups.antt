-- ===== src/Store/Groups.antt =====
-- idb_store.rs: the groups of `evict_to_limit` are the files of a stem, and eviction spares the pinned
-- ones and reaches its limit.
use ida_mcp.Base.{
  ◌+◌, ◌≤◌, ◌<◌, ◌^◌, ◌≡◌, refl, sym, ap, ◌∙◌, inl, inr, true, ◌&&◌, ◌||◌, Option, none, some, List,
  [], ◌∷◌, Text, text_eq, text_discrete, any, any-append, unwrap_or, is_some, All, if◌then◌else◌,
  Bool-cases, arith, HashMap, text_key,
}
use ida_mcp.Base.Map
use ida_mcp.Base.Map.{HasUniqueKeys}
use ida_mcp.Files.{Dir, File, Group, saturating_add, regular_files}
use ida_mcp.Files.Evict.{listed, size, size_split, every, Covers}
use ida_mcp.Files.Limit.{IsGroup, of_stem}
use ida_mcp.Files.Listing.{IsListed, files-IsListed}
use ida_mcp.Store.{stem_in, no_group, add_file, add_to_groups, group_files}

module _ (root : Text) where
  -- The group of one stem, and whether there is one.
  unfoldable pub gather : Text → Group → List File → Group
  gather k g [] = g
  gather k g (f ∷ fs) = gather k (if text_eq (stem_in root f.name) k then add_file f g else g) fs

  unfoldable pub gather_some : Text → Option Group → List File → Option Group
  gather_some k o [] = o
  gather_some k o (f ∷ fs) =
      gather_some k
        (if text_eq (stem_in root f.name) k
          then some (add_file f (unwrap_or o (no_group k)))
          else o)
        fs

  pub get-group_files :
      (k : Text) (fs : List File) (m : HashMap Text Group)
      → Map.get k (group_files root fs m) ≡ gather_some k (Map.get k m) fs
  unfolding gather_some
  get-group_files k [] m = refl
  get-group_files k (f ∷ fs) m =
      get-group_files k fs (add_to_groups root f m)
      ∙ ap (λ o. gather_some k o fs) (step (text_discrete (stem_in root f.name) k))
    where
      step :
          Dec (stem_in root f.name ≡ k)
          → Map.get k (add_to_groups root f m) ≡ (
              if text_eq (stem_in root f.name) k
              then some (add_file f (unwrap_or (Map.get k m) (no_group k)))
              else Map.get k m)
      step (yes same) = ground (
        arith,
        Map.get-insert (stem_in root f.name) k
            (add_file f
              (unwrap_or (Map.get (stem_in root f.name) m) (no_group (stem_in root f.name))))
            m,
        ap (λ s. add_file f (unwrap_or (Map.get s m) (no_group s))) same,
      )
      step (no other) = ground (
        arith,
        Map.get-insert (stem_in root f.name) k
            (add_file f
              (unwrap_or (Map.get (stem_in root f.name) m) (no_group (stem_in root f.name))))
            m,
      )

  gather_some-gather :
      (k : Text) (o : Option Group) (fs : List File) (g : Group)
      → gather_some k o fs ≡ some g
      → g ≡ gather k (unwrap_or o (no_group k)) fs
  unfolding gather gather_some
  gather_some-gather k none [] g e = absurd (ground arith)
  gather_some-gather k (some h) [] g e = ground arith
  gather_some-gather k o (f ∷ fs) g e = elim (Bool-cases (text_eq (stem_in root f.name) k)) [
    | inl hit ↦
        rw hit
          (gather_some-gather k (some (add_file f (unwrap_or o (no_group k)))) fs g (rw hit at e))
    | inr miss ↦ rw miss (gather_some-gather k o fs g (rw miss at e))
  ]

  pub gather_some_known :
      (k : Text) (o : Option Group) (fs : List File)
      → (is_some o || any (λ f. text_eq (stem_in root f.name) k) fs) ≡ true
      → is_some (gather_some k o fs) ≡ true
  unfolding gather_some
  gather_some_known k o [] h = ground arith
  gather_some_known k o (f ∷ fs) h = elim (Bool-cases (text_eq (stem_in root f.name) k)) [
    | inl hit ↦ rw hit (gather_some_known k (some (add_file f (unwrap_or o (no_group k)))) fs refl)
    | inr miss ↦ rw miss (gather_some_known k o fs (ground arith))
  ]

  pub gather-stem : (k : Text) (g : Group) (fs : List File) → (gather k g fs).stem ≡ g.stem
  unfolding gather
  gather-stem k g [] = refl
  gather-stem k g (f ∷ fs) = elim (Bool-cases (text_eq (stem_in root f.name) k)) [
    | inl hit ↦
        ap (λ b. (gather k (if b then add_file f g else g) fs).stem) hit
        ∙ gather-stem k (add_file f g) fs
    | inr miss ↦
        ap (λ b. (gather k (if b then add_file f g else g) fs).stem) miss ∙ gather-stem k g fs
  ]

  -- A group has what it had, and the names of its stem.
  pub listed-gather :
      (k n : Text) (g : Group) (fs : List File)
      → listed n (gather k g fs).files
        ≡ (listed n g.files || any (λ f. text_eq (stem_in root f.name) k && text_eq f.name n) fs)
  unfolding gather
  listed-gather k n g [] = ground arith
  listed-gather k n g (f ∷ fs) = elim (Bool-cases (text_eq (stem_in root f.name) k)) [
    | inl hit ↦
        ap (λ b. listed n (gather k (if b then add_file f g else g) fs).files) hit
        ∙ listed-gather k n (add_file f g) fs
        ∙ ground (arith, any-append (λ m. text_eq m n) g.files (f.name ∷ []))
    | inr miss ↦
        ap (λ b. listed n (gather k (if b then add_file f g else g) fs).files) miss
        ∙ listed-gather k n g fs
        ∙ ground arith
  ]

  pub any_stem :
      (k n : Text) (fs : List File)
      → any (λ f. text_eq (stem_in root f.name) k && text_eq f.name n) fs ≡ true
      → stem_in root n ≡ k
  any_stem k n [] h = absurd (ground arith)
  any_stem k n (f ∷ fs) h = elim (text_discrete f.name n) [
    | yes same ↦ elim (text_discrete (stem_in root f.name) k) [
      | yes at ↦ ap (stem_in root) (sym same) ∙ at
      | no off ↦ any_stem k n fs (ground arith)
    ]
    | no other ↦ any_stem k n fs (ground arith)
  ]

  any_named :
      (k n : Text) (fs : List File)
      → stem_in root n ≡ k
      → any (λ f. text_eq f.name n) fs ≡ true
      → any (λ f. text_eq (stem_in root f.name) k && text_eq f.name n) fs ≡ true
  any_named k n [] at h = h
  any_named k n (f ∷ fs) at h = elim (text_discrete f.name n) [
    | yes same ↦ let here : stem_in root f.name ≡ k = ap (stem_in root) same ∙ at in ground arith
    | no other ↦ ground (arith, any_named k n fs at)
  ]

  bytes-gather :
      (k : Text) (g : Group) (dir : Dir)
      → g.bytes + size (of_stem (stem_in root) k) dir < 2 ^ 64
      → (gather k g (regular_files dir)).bytes ≡ g.bytes + size (of_stem (stem_in root) k) dir
  unfolding gather
  bytes-gather k g [] h = omega arith
  bytes-gather k g ((n, none) ∷ dir) h = elim (Bool-cases (text_eq (stem_in root n) k)) [
    | inl hit ↦ rw hit (omega (arith, bytes-gather k g dir (ground arith)))
    | inr miss ↦ rw miss (bytes-gather k g dir (ground arith))
  ]
  bytes-gather k g ((n, some meta) ∷ dir) h = elim (Bool-cases meta.is_file) [
    | inr other ↦ elim (Bool-cases (text_eq (stem_in root n) k)) [
      | inl hit ↦ rw (other, hit) (omega (arith, bytes-gather k g dir (ground arith)))
      | inr miss ↦ rw (other, miss) (bytes-gather k g dir (ground arith))
    ]
    | inl file ↦ elim (Bool-cases (text_eq (stem_in root n) k)) [
      | inl hit ↦
          let f : File = record { name = n; len = meta.len; mtime = unwrap_or meta.modified 0 } in
          let small : g.bytes + (meta.len + size (of_stem (stem_in root) k) dir) < 2 ^ 64 =
            ground arith in
          let added : saturating_add g.bytes meta.len ≡ g.bytes + meta.len = omega (arith, small) in
          rw (file, hit)
            (bytes-gather k (add_file f g) dir (omega (arith, small, added)) ∙ omega (arith, added))
      | inr miss ↦ rw (file, miss) (bytes-gather k g dir (ground arith))
    ]
  ]

  -- What holds of a group that the map has.
  pub get-gather :
      (k : Text) (fs : List File) (g : Group)
      → Map.get k (group_files root fs []) ≡ some g
      → g ≡ gather k (no_group k) fs
  get-gather k fs g e = gather_some-gather k none fs g (sym (get-group_files k fs []) ∙ e)

  pub gather-IsGroup :
      (k : Text) (dir : Dir)
      → size every dir < 2 ^ 64
      → IsGroup (stem_in root) dir (gather k (no_group k) (regular_files dir))
  gather-IsGroup k dir small =
      let fs = regular_files dir in
      let g = gather k (no_group k) fs in
      let stem : g.stem ≡ k = gather-stem k (no_group k) fs in
      let within : size (of_stem (stem_in root) k) dir ≤ size every dir =
        omega (arith, size_split every (of_stem (stem_in root) k) dir) in
      record {
        inside = λ n h. any_stem k n fs (sym (listed-gather k n (no_group k) fs) ∙ h) ∙ sym stem;
        covers = covered dir (files-IsListed dir);
        bytes =
            bytes-gather k (no_group k) dir (omega (arith, within, small))
            ∙ omega arith
            ∙ ap (λ s. size (of_stem (stem_in root) s) dir) (sym stem);
      }
    where
      covered :
          (d : Dir)
          → All (IsListed (regular_files dir)) d
          → Covers
              (of_stem (stem_in root) (gather k (no_group k) (regular_files dir)).stem)
              (λ n. listed n (gather k (no_group k) (regular_files dir)).files)
              d
      covered [] h = tt
      covered ((n, meta) ∷ d) h = (
        λ regular at.
            listed-gather k n (no_group k) (regular_files dir)
            ∙ any_named k n (regular_files dir)
                (ground arith ∙ gather-stem k (no_group k) (regular_files dir)) (h.0 regular),
        covered d h.1,
      )

  -- Each key of the map is the stem of its group, and stands once.
  pub group_files-HasUniqueKeys :
      (fs : List File) (m : HashMap Text Group)
      → HasUniqueKeys m
      → HasUniqueKeys (group_files root fs m)
  group_files-HasUniqueKeys [] m u = u
  group_files-HasUniqueKeys (f ∷ fs) m u =
      group_files-HasUniqueKeys fs (add_to_groups root f m)
        (Map.insert-HasUniqueKeys (stem_in root f.name) _ m u)
