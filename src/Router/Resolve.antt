-- ===== src/Router/Resolve.antt =====
-- router/mod.rs (`resolve_open_path`, `resolve_sbpf_path`), sbpf.rs (`run_sbx_aot_i64`) and lib.rs
-- (`expand_path`): which file is opened for a path, and where a new database is to be saved.
use ida_mcp.Base.{
  ◌≡◌, refl, sym, ap, ◌∙◌, inl, inr, Bool, true, false, not, ◌&&◌, ◌||◌, Option, none, some, List,
  [], ◌∷◌, ◌++◌, Text, text, text_eq, drop, is_some, is_empty, if◌then◌else◌, Bool-cases,
  Option-cases, arith, text_key,
}
use ida_mcp.Base.Map
use ida_mcp.Files.{Metadata}
use ida_mcp.Files.Names.{starts_with, ends_with, extension, path_without_extension}
use ida_mcp.Store.{Store, Binary, idb_name, idb_path, lookup}
use ida_mcp.Store.Index.{lookup-idb_name}
use ida_mcp.Views.{is_sbpf_elf}

-- What the code takes from the machine: the home directory, what is read of a file, which paths exist,
-- and how far `sbx` comes: it is found, its output directory is there, it ends with success.
pub record Machine : Type 0 where
  pub home : Option Text
  pub binary : Text → Binary
  pub header : Text → Option (List ida_mcp.Base.ℕ)
  pub exists : Text → Bool
  pub sbx_found : Bool
  pub directory_ready : Text → Bool
  pub sbx_succeeds : Text → Text → Bool

-- `PathBuf::join`.
abbrev pub join : Text → Text → Text
join dir path =
    if starts_with (text "/") path
    then path
    else if is_empty dir || ends_with (text "/") dir
    then dir ++ path
    else dir ++ b'/' ∷ path

unfoldable pub expand_path : Option Text → Text → Text
unfolding ends_with
expand_path home path =
    if starts_with (text "~/") path
    then elim home [ some h ↦ join h (drop 2 path) | none ↦ path ]
    else path

pub record ResolvedPath : Type 0 where
  pub open_path : Option Text
  pub idb_output_path : Option Text

abbrev pub opens : Option Text → ResolvedPath
opens path = record { open_path = path; idb_output_path = none }

-- The database that `sbx` has made, if it has made one; the file is looked for when it has ended.
unfoldable pub run_sbx_aot_i64 : Machine → (Text → Bool) → Text → Text → Option Text
run_sbx_aot_i64 m exists_after input output =
    if m.sbx_found
      && (m.directory_ready output && (m.sbx_succeeds input output && exists_after output))
    then some output
    else none

unfoldable pub resolve_sbpf_path : Machine → (Text → Bool) → Text → Text → Option Text
unfolding run_sbx_aot_i64
resolve_sbpf_path m exists_after input i64_path =
    if m.exists i64_path then some i64_path else run_sbx_aot_i64 m exists_after input i64_path

abbrev pub is_database : Option Text → Bool
is_database none = false
is_database (some ext) = text_eq ext (text "i64") || text_eq ext (text "idb")

-- The legacy places beside a native binary, and else the place for a new database.
unfoldable pub resolve_native : Machine → Text → Text → ResolvedPath
unfolding path_without_extension
resolve_native m input output =
    let i64_path = path_without_extension input ++ text ".i64" in
    let id0_path = path_without_extension input ++ text ".id0" in
    if m.exists i64_path
    then opens (some i64_path)
    else if m.exists id0_path
    then opens (some input)
    else record { open_path = none; idb_output_path = some output }

unfoldable pub resolve_input : (Text → Text) → Machine → (Text → Bool) → Store → Text → ResolvedPath
unfolding lookup idb_path extension is_sbpf_elf resolve_sbpf_path resolve_native
resolve_input blake3 m exists_after store input =
    let output = idb_path blake3 (m.binary input) store in
    if is_database (extension (m.binary input).file_name)
    then opens none
    else elim (lookup blake3 (m.binary input) store) [
      | some name ↦ opens (some (store.root ++ b'/' ∷ name))
      | none ↦
          if is_sbpf_elf (m.header input)
          then opens (resolve_sbpf_path m exists_after input output)
          else resolve_native m input output
    ]

unfoldable pub resolve_open_path :
    (Text → Text) → Machine → (Text → Bool) → Store → Text → ResolvedPath
unfolding expand_path resolve_input
resolve_open_path blake3 m exists_after store path =
    resolve_input blake3 m exists_after store (expand_path m.home path)

-- The only place that is ever given for a new database.
resolve_native-output :
    (m : Machine) (input output out : Text)
    → (resolve_native m input output).idb_output_path ≡ some out
    → out ≡ output
unfolding resolve_native
resolve_native-output m input output out h = ground arith

resolve_input-output :
    (blake3 : Text → Text) (m : Machine) (exists_after : Text → Bool) (store : Store)
    (input out : Text)
    → (resolve_input blake3 m exists_after store input).idb_output_path ≡ some out
    → (is_database (extension (m.binary input).file_name) ≡ false)
      × (lookup blake3 (m.binary input) store ≡ none)
      × (out ≡ idb_path blake3 (m.binary input) store)
unfolding resolve_input
resolve_input-output blake3 m exists_after store input out h =
    elim (Bool-cases (is_database (extension (m.binary input).file_name))) [
      | inl database ↦ absurd (ground arith)
      | inr other ↦ elim (Option-cases (lookup blake3 (m.binary input) store)) [
        | inr (name, hit) ↦ absurd (ground arith)
        | inl miss ↦ elim (Bool-cases (is_sbpf_elf (m.header input))) [
          | inl elf ↦ absurd (ground arith)
          | inr native ↦ (
            other,
            miss,
            resolve_native-output m input (idb_path blake3 (m.binary input) store) out
                (ground arith),
          )
        ]
      ]
    ]

-- Where a path is to be analysed, the place for its database is the name that the store gives
-- for its content; and once a store has a file of that name, whatever else it has then, the
-- path opens a database of that store and is not analysed again, as long as the binary is the
-- same.
pub resolve_open_path-analysed :
    (blake3 : Text → Text) (m : Machine) (exists_after exists_later : Text → Bool)
    (store later : Store) (path out : Text) (meta : Option Metadata)
    → (resolve_open_path blake3 m exists_after store path).idb_output_path ≡ some out
    → Map.get (idb_name blake3 (m.binary (expand_path m.home path))) later.entries ≡ some meta
    → (out ≡ store.root ++ b'/' ∷ idb_name blake3 (m.binary (expand_path m.home path)))
      × ((name : Text) × (lookup blake3 (m.binary (expand_path m.home path)) later ≡ some name)
          × (resolve_open_path blake3 m exists_later later path
              ≡ record { open_path = some (later.root ++ b'/' ∷ name); idb_output_path = none }))
unfolding resolve_open_path idb_path
resolve_open_path-analysed blake3 m exists_after exists_later store later path out meta h saved =
    let input = expand_path m.home path in
    let (other, miss, place) = resolve_input-output blake3 m exists_after store input out h in
    elim (Option-cases (lookup blake3 (m.binary input) later)) [
      | inl lost ↦ absurd (
          ground
            (arith, lookup-idb_name blake3 (m.binary input) (m.binary input) meta later refl saved))
      | inr (name, hit) ↦
          (place, (name, hit, (unfold resolve_input in rw (other, hit, resolve_input) refl)))
    ]
