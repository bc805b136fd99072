-- ===== src/Store/Clean.antt =====
-- idb_store.rs: `remove` takes out one hash and `clean` what has no database.
use ida_mcp.Base.{
  ◌≡◌, ◌≢◌, refl, sym, ap, ◌∙◌, inl, inr, Bool, true, false, not, ◌&&◌, Option, none, some, List,
  [], ◌∷◌, map, Text, text_eq, text_discrete, filter, any, is_some, All, All-map_prop, All-×,
  if◌then◌else◌, Bool-cases, arith, HashMap, text_key,
}
use ida_mcp.Base.Map
use ida_mcp.Files.{Metadata, Dir, remove_files}
use ida_mcp.Files.Evict.{listed, always}
use ida_mcp.Files.Limit.{All-unlisted, All-remove_files}
use ida_mcp.Files.Names.{contains, ends_with}
use ida_mcp.Store.{
  IdbEntry, Store, index_file, pattern_of, lookup_by_hash, load, save, files_of_hash,
  remove_files_by_hash, remove, clean, orphans, has_database, remove_keys, is_nil,
}
use ida_mcp.Store.Index.{load-save, lookup_by_hash-insert}

lookup_by_hash-none :
    (hash : Text) (dir : Dir)
    → All (λ e. contains (pattern_of hash) e.0 ≡ false) dir
    → lookup_by_hash hash dir ≡ none
unfolding lookup_by_hash
lookup_by_hash-none hash [] h = refl
lookup_by_hash-none hash ((k, m) ∷ dir) h = ground (arith, h.0, lookup_by_hash-none hash dir h.1)

-- A search among all files but those of the hash finds none of it.
lookup_by_hash-remove_files :
    (hash : Text) (names : List Text) (dir : Dir)
    → All (λ e. contains (pattern_of hash) e.0 ≡ true → listed e.0 names ≡ true) dir
    → lookup_by_hash hash (remove_files always names dir) ≡ none
lookup_by_hash-remove_files hash names dir h =
    lookup_by_hash-none hash (remove_files always names dir) (
      All-map_prop _ _ _
        (λ e both. elim (Bool-cases (contains (pattern_of hash) e.0)) [
          | inl hit ↦ absurd (ground (arith, both.0 hit, both.1))
          | inr miss ↦ miss
        ])
        (All-× _ _ _ (All-remove_files _ always names dir h) (All-unlisted names dir)))

files_of_hash-All :
    (hash : Text) (dir : Dir)
    → All
        (λ e. contains (pattern_of hash) e.0 ≡ true → listed e.0 (files_of_hash hash dir) ≡ true)
        dir
files_of_hash-All hash [] = tt
files_of_hash-All hash ((k, m) ∷ dir) = (
  (λ h. ground arith),
  All-map_prop _ _ dir (λ e h at. ground (arith, h at)) (files_of_hash-All hash dir),
)

-- Where the index has the hash, every file can be removed and the index is written, remove
-- answers true, the hash is out of the index, no database of it is found any more, and every
-- other entry is as it was.
pub remove_lem :
    (hash : Text) (e : IdbEntry) (meta : Metadata) (s : Store)
    → Map.get hash (load s) ≡ some e
    → let (t, found) = remove always hash (some meta) s in
      (found ≡ true)
      × (Map.get hash (load t) ≡ none)
      × (lookup_by_hash hash t.entries ≡ none)
      × ((k : Text) → hash ≢ k → Map.get k (load t) ≡ Map.get k (load s))
unfolding remove
remove_lem hash e meta s known =
    rw (known, remove)
      (
        refl,
        rw (load-save meta index gone) (ground (arith, Map.get-remove hash hash (load s))),
        unfold save remove_files_by_hash in
            lookup_by_hash-insert hash index_file (some meta) gone.entries
              (unfold ends_with in ground arith)
            ∙ lookup_by_hash-remove_files hash (files_of_hash hash s.entries) s.entries
                (files_of_hash-All hash s.entries),
        λ k other. rw (load-save meta index gone) (ground (arith, Map.get-remove hash k (load s))),
      )
  where
    gone : Store
    gone = record s { entries = remove_files_by_hash always hash s.entries }

    index : HashMap Text IdbEntry
    index = Map.remove hash (load s)

get-remove_keys :
    (k : Text) (hashes : List Text) (index : HashMap Text IdbEntry)
    → Map.get k (remove_keys hashes index) ≡ (if listed k hashes then none else Map.get k index)
get-remove_keys k [] index = refl
get-remove_keys k (h ∷ hashes) index =
    ground (arith, get-remove_keys k hashes (Map.remove h index), Map.get-remove h k index)

-- The keys that a test on the key selects.
abbrev missing : Dir → Text × IdbEntry → Bool
missing dir x = not (has_database dir x)

abbrev keys : List (Text × IdbEntry) → List Text
keys = map (λ (hash, e). hash)

listed-keys :
    (dir : Dir) (k : Text) (index : HashMap Text IdbEntry)
    → listed k (keys (filter (missing dir) index))
      ≡ (not (is_some (lookup_by_hash k dir)) && is_some (Map.get k index))
listed-keys dir k [] = ground arith
listed-keys dir k ((j, e) ∷ index) = elim (text_discrete j k) [
  | yes same ↦
      let here : is_some (lookup_by_hash j dir) ≡ is_some (lookup_by_hash k dir) =
        ap (λ h. is_some (lookup_by_hash h dir)) same in
      ground (arith, listed-keys dir k index)
  | no other ↦ ground (arith, listed-keys dir k index)
]

abbrev cleaned : Store → HashMap Text IdbEntry
cleaned s = remove_keys (keys (orphans s)) (load s)

remove_keys-is_nil :
    (gone : List (Text × IdbEntry)) (index : HashMap Text IdbEntry)
    → is_nil gone ≡ true
    → remove_keys (keys gone) index ≡ index
remove_keys-is_nil [] index h = refl
remove_keys-is_nil (x ∷ gone) index h = absurd (ground arith)

load-clean : (meta : Metadata) (s : Store) → load (clean (some meta) s).0 ≡ cleaned s
unfolding clean
load-clean meta s = elim (Bool-cases (is_nil (orphans s))) [
  | inl none_gone ↦ rw none_gone (sym (remove_keys-is_nil (orphans s) (load s) none_gone))
  | inr some_gone ↦ rw some_gone (load-save meta (cleaned s) s)
]

lookup_by_hash-clean :
    (meta : Metadata) (s : Store) (hash : Text)
    → lookup_by_hash hash (clean (some meta) s).0.entries ≡ lookup_by_hash hash s.entries
unfolding clean
lookup_by_hash-clean meta s hash = elim (Bool-cases (is_nil (orphans s))) [
  | inl none_gone ↦ rw none_gone refl
  | inr some_gone ↦ rw some_gone (
      unfold save in
      lookup_by_hash-insert hash index_file (some meta) s.entries
        (unfold ends_with in ground arith))
]

-- Where the index is written, it has after clean exactly those of its entries whose hash has a
-- database in the directory, and the search finds for every hash what it found before.
pub clean_lem :
    (meta : Metadata) (s : Store) (hash : Text)
    → let t = (clean (some meta) s).0 in
      (Map.get hash (load t)
        ≡ (if is_some (lookup_by_hash hash s.entries) then Map.get hash (load s) else none))
      × (lookup_by_hash hash t.entries ≡ lookup_by_hash hash s.entries)
clean_lem meta s hash = (
  ap (Map.get hash) (load-clean meta s)
      ∙ get-remove_keys hash (keys (orphans s)) (load s)
      ∙ ground (arith, listed-keys s.entries hash (load s)),
  lookup_by_hash-clean meta s hash,
)

any_congr :
    (p q : Text × IdbEntry → Bool) (index : HashMap Text IdbEntry)
    → ((x : Text × IdbEntry) → p x ≡ q x)
    → any p index ≡ any q index
any_congr p q [] h = refl
any_congr p q (x ∷ index) h = ground (arith, h x, any_congr p q index h)

any-remove :
    (p : Text × IdbEntry → Bool) (k : Text) (index : HashMap Text IdbEntry)
    → any p (Map.remove k index) ≡ any (λ x. p x && not (text_eq k x.0)) index
any-remove p k [] = refl
any-remove p k ((j, e) ∷ index) = ground (arith, any-remove p k index)

any-remove_keys :
    (p : Text × IdbEntry → Bool) (hashes : List Text) (index : HashMap Text IdbEntry)
    → any p (remove_keys hashes index) ≡ any (λ x. p x && not (listed x.0 hashes)) index
any-remove_keys p [] index = any_congr p (λ x. p x && not (listed x.0 [])) index (λ x. ground arith)
any-remove_keys p (h ∷ hashes) index =
    any-remove_keys p hashes (Map.remove h index)
    ∙ any-remove (λ x. p x && not (listed x.0 hashes)) h index
    ∙ any_congr (λ x. (p x && not (listed x.0 hashes)) && not (text_eq h x.0))
        (λ x. p x && not (listed x.0 (h ∷ hashes))) index (λ x. ground arith)

missing-listed :
    (dir : Dir) (index : HashMap Text IdbEntry)
    → All (λ x. missing dir x ≡ true → listed x.0 (keys (filter (missing dir) index)) ≡ true) index
missing-listed dir [] = tt
missing-listed dir ((k, e) ∷ index) = (
  (λ h. ground arith),
  All-map_prop _ _ index (λ x h at. ground (arith, h at)) (missing-listed dir index),
)

any-unlisted :
    (p : Text × IdbEntry → Bool) (hashes : List Text) (index : HashMap Text IdbEntry)
    → All (λ x. p x ≡ true → listed x.0 hashes ≡ true) index
    → any (λ x. p x && not (listed x.0 hashes)) index ≡ false
any-unlisted p hashes [] h = refl
any-unlisted p hashes (x ∷ index) h = ground (arith, h.0, any-unlisted p hashes index h.1)

filter-any :
    (p : Text × IdbEntry → Bool) (index : HashMap Text IdbEntry)
    → any p index ≡ false
    → filter p index ≡ []
filter-any p [] h = refl
filter-any p (x ∷ index) h = ground (arith, filter-any p index)

-- Once it has been written, a second `clean` removes nothing.
pub clean-clean :
    (meta : Metadata) (written : Option Metadata) (s : Store)
    → (clean written (clean (some meta) s).0).1 ≡ []
unfolding clean
clean-clean meta written s =
    ap (map (λ (hash, e). e)) (filter-any (missing t.entries) (load t) none_left)
  where
    t : Store
    t = (clean (some meta) s).0

    none_left : any (missing t.entries) (load t) ≡ false
    none_left =
        ap (any (missing t.entries)) (load-clean meta s)
        ∙ any_congr (missing t.entries) (missing s.entries) (cleaned s)
            (λ x. ap (λ o. not (is_some o)) (lookup_by_hash-clean meta s x.0))
        ∙ any-remove_keys (missing s.entries) (keys (orphans s)) (load s)
        ∙ any-unlisted (missing s.entries) (keys (orphans s)) (load s)
            (missing-listed s.entries (load s))
