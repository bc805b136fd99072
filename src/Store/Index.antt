-- ===== src/Store/Index.antt =====
-- idb_store.rs: what the index and the search for a database answer after `record`, `remove` and `clean`.
use ida_mcp.Base.{
  ℕ, ◌≡◌, ◌≢◌, refl, sym, ap, subst, ◌∙◌, ◌⊎◌, inl, inr, true, false, Option, none, some, [], ◌∷◌,
  ◌++◌, Text, text, text_discrete, is_some, Bool-cases, arith, HashMap, text_key,
}
use mathlib.Core.List.{append_assoc}
use ida_mcp.Base.Map
use ida_mcp.Files.{Metadata, Dir}
use ida_mcp.Files.Names.{contains, ends_with, contains-append}
use ida_mcp.Store.{
  IdbEntry, Store, Binary, index_file, pattern_of, is_database_of, compute_hash, idb_suffix,
  idb_name, lookup_by_hash, lookup, load, save, entry_of, now_iso8601, record_binary,
}

-- The search finds a database of the hash, if the directory has one.
lookup_by_hash-some :
    (hash n : Text) (meta : Option Metadata) (dir : Dir)
    → Map.get n dir ≡ some meta
    → is_database_of hash n ≡ true
    → is_some (lookup_by_hash hash dir) ≡ true
unfolding lookup_by_hash
lookup_by_hash-some hash n meta [] e h = absurd (ground arith)
lookup_by_hash-some hash n meta ((k, m) ∷ dir) e h = elim (text_discrete k n) [
  | yes same ↦
      let here : is_database_of hash k ≡ true = ap (is_database_of hash) same ∙ h in rw here refl
  | no other ↦ elim (Bool-cases (is_database_of hash k)) [
    | inl hit ↦ rw hit refl
    | inr miss ↦ rw miss (lookup_by_hash-some hash n meta dir (ground arith) h)
  ]
]

-- What the search finds is an entry of the directory whose name has the hash.
pub lookup_by_hash_sound :
    (hash n : Text) (dir : Dir)
    → lookup_by_hash hash dir ≡ some n
    → (is_database_of hash n ≡ true) × (is_some (Map.get n dir) ≡ true)
unfolding lookup_by_hash
lookup_by_hash_sound hash n [] e = absurd (ground arith)
lookup_by_hash_sound hash n ((k, m) ∷ dir) e = elim (Bool-cases (is_database_of hash k)) [
  | inl hit ↦
      let same : k ≡ n = ground arith in (sym (ap (is_database_of hash) same) ∙ hit, ground arith)
  | inr miss ↦
      let rest = lookup_by_hash_sound hash n dir (ground arith) in (rest.0, ground (arith, rest.1))
]

ends_with_self : (p t : Text) → ends_with p (t ++ p) ≡ true
unfolding ends_with text_discrete
ends_with_self [] [] = refl
ends_with_self (c ∷ p) [] = ground arith
ends_with_self p (d ∷ t) = ground (arith, ends_with_self p t)

-- A database in the store under the name that idb_name gives for a binary is found by lookup
-- for every binary of the same content, whatever that is called.
pub lookup-idb_name :
    (blake3 : Text → Text) (b c : Binary) (meta : Option Metadata) (s : Store)
    → b.content ≡ c.content
    → Map.get (idb_name blake3 b) s.entries ≡ some meta
    → is_some (lookup blake3 c s) ≡ true
unfolding lookup idb_name compute_hash
lookup-idb_name blake3 b c meta s same e =
    lookup_by_hash-some (compute_hash blake3 c) (idb_name blake3 b) meta s.entries e (
      subst
        (λ x.
          is_database_of (compute_hash blake3 (record c { content = x })) (idb_name blake3 b)
          ≡ true)
        same (named (compute_hash blake3 b)))
  where
    named : (h : Text) → is_database_of h (b.file_name ++ b'.' ∷ (h ++ idb_suffix)) ≡ true
    named h =
        let inner : contains (pattern_of h) (b.file_name ++ b'.' ∷ (h ++ idb_suffix)) ≡ true =
          subst (λ t. contains (pattern_of h) (b.file_name ++ b'.' ∷ t) ≡ true)
            (append_assoc h (text ".") (text "dylib.i64"))
            (contains-append (pattern_of h) (text "dylib.i64") b.file_name) in
        let outer : ends_with (text ".i64") (b.file_name ++ b'.' ∷ (h ++ idb_suffix)) ≡ true =
          subst (λ t. ends_with (text ".i64") (b.file_name ++ t) ≡ true)
            (ap (λ t. b'.' ∷ t) (append_assoc h (text ".dylib") (text ".i64")))
            (subst (λ t. ends_with (text ".i64") t ≡ true)
              (append_assoc b.file_name (b'.' ∷ (h ++ text ".dylib")) (text ".i64"))
              (ends_with_self (text ".i64") (b.file_name ++ b'.' ∷ (h ++ text ".dylib")))) in
        ground (arith, inner, outer)

pub load-save :
    (meta : Metadata) (index : HashMap Text IdbEntry) (s : Store)
    → load (save (some meta) index s) ≡ index
unfolding load save
load-save meta index s = ground (arith, Map.get-insert_self index_file (some meta) s.entries)

-- Where the index is written, the entry of the content has its hash and the path of the
-- binary, the time of the call as the time of access, and the time of its creation is that of
-- the entry which the index had for the content, or of the call if it had none; record leaves
-- every other entry and every file but the index as it was.
pub record_binary_lem :
    (blake3 : Text → Text) (b : Binary) (secs : ℕ) (meta : Metadata) (s : Store)
    → let t = record_binary blake3 b secs (some meta) s in
      let hash = compute_hash blake3 b in
      ((e : IdbEntry) × (Map.get hash (load t) ≡ some e)
        × (((old : IdbEntry) × (Map.get hash (load s) ≡ some old) × (e.created_at ≡ old.created_at))
            ⊎ ((Map.get hash (load s) ≡ none) × (e.created_at ≡ now_iso8601 secs)))
        × (e.last_accessed ≡ now_iso8601 secs)
        × (e.hash ≡ hash)
        × (e.original_path ≡ b.path))
      × ((k : Text) → hash ≢ k → Map.get k (load t) ≡ Map.get k (load s))
      × ((n : Text) → index_file ≢ n → Map.get n t.entries ≡ Map.get n s.entries)
unfolding record_binary
record_binary_lem blake3 b secs meta s = (
  (
    entry,
    rw (load-save meta index s) (Map.get-insert_self (compute_hash blake3 b) entry (load s)),
    made (Map.get (compute_hash blake3 b) (load s)),
    refl,
    refl,
    refl,
  ),
  (λ k other.
      rw (load-save meta index s)
        (ground (arith, Map.get-insert (compute_hash blake3 b) k entry (load s)))),
  (λ n other. unfold save in ground (arith, Map.get-insert index_file n (some meta) s.entries)),
)
  where
    made :
        (known : Option IdbEntry)
        → let e = entry_of (compute_hash blake3 b) b (now_iso8601 secs) known in
          ((old : IdbEntry) × (known ≡ some old) × (e.created_at ≡ old.created_at))
          ⊎ ((known ≡ none) × (e.created_at ≡ now_iso8601 secs))
    made none = inr (refl, refl)
    made (some old) = inl (old, refl, refl)

    entry : IdbEntry
    entry =
        entry_of (compute_hash blake3 b) b (now_iso8601 secs)
          (Map.get (compute_hash blake3 b) (load s))

    index : HashMap Text IdbEntry
    index = Map.insert (compute_hash blake3 b) entry (load s)

pub lookup_by_hash-insert :
    (hash k : Text) (v : Option Metadata) (dir : Dir)
    → is_database_of hash k ≡ false
    → lookup_by_hash hash (Map.insert k v dir) ≡ lookup_by_hash hash dir
unfolding lookup_by_hash
lookup_by_hash-insert hash k v [] h = rw h refl
lookup_by_hash-insert hash k v ((j, m) ∷ dir) h = elim (text_discrete j k) [
  | yes same ↦
      let there : is_database_of hash j ≡ false = ap (is_database_of hash) same ∙ h in ground arith
  | no other ↦ ground (arith, lookup_by_hash-insert hash k v dir h)
]
