-- ===== src/Router/RunTests.antt =====
-- router/mod.rs: paths and calls of several critical sections on a small router.
use ida_mcp.Base.{
  ◌≡◌, refl, Bool, true, false, none, some, List, [], ◌∷◌, ◌++◌, Text, text, text_key,
  text_discrete, ℕ_discrete, hex, hex_padded, decimal,
}
use ida_mcp.Files.Names.{
  before_last, extension, without_extension, path_without_extension, ends_with,
}
use ida_mcp.Json.{
  Value, null, string, array, object, field, end, item, nil, get, get_field, text_at,
}
use ida_mcp.Router.{ok, worker_key_key, worker_key_discrete}
use ida_mcp.Router.Callee.{IsChosen, process_instruction-IsChosen}
use ida_mcp.Router.Close.{Gone}
use ida_mcp.Router.Ensure.{
  Exchange, answered, timed_out, Opening, ensure_open, ensure_worker_with_ref_idb, close_by_path,
  spawn_worker, open_spawned, or_close, after_open, rename_entry, route_request,
}
use ida_mcp.Router.Entry.{list_at, direct, targets, addr_to_name, process_instruction}
use ida_mcp.Router.Invariant.{empty}
use ida_mcp.Router.Opened.{IsOpenFor, ensure_worker-Reach, close_by_path-Gone}
use ida_mcp.Router.Reach.{IsFresh, Reach, here}
use ida_mcp.Router.Refs.{cli_token, ref_token, release_ref_token, release_from}
use ida_mcp.Router.Registry.{RouterState}
use ida_mcp.Router.Resolve.{
  Machine, expand_path, resolve_native, resolve_input, resolve_open_path,
  resolve_open_path-analysed,
}
use ida_mcp.Router.Route.{
  RpcResponse, send_request, choose_target, next_req_id, admit, admit_to, timeout_secs, deliver,
  answer_pending, answer_of,
}
use ida_mcp.Router.Spawn.{
  evict_idle, evict_loop, spawn_shared, spawn_commit, spawn_or_share, spawn_new, register,
  new_handle,
}
use ida_mcp.Router.Tests.{tiny, spawn_at, first_handle, one_open, one_reached}
use ida_mcp.Store.{Store, idb_name, idb_path, compute_hash, lookup, lookup_by_hash}
use ida_mcp.Store.Tests.{digest, program, file, store}
use ida_mcp.Views.{is_sbpf_elf}

abbrev machine : Machine
machine = record {
  home = some (text "/home/u");
  binary = λ path. program;
  header = λ path. none;
  exists = λ path. false;
  sbx_found = false;
  directory_ready = λ path. true;
  sbx_succeeds = λ input output. false;
}

abbrev nothing : Text → Bool
nothing path = false

abbrev bare : Store
bare = record { root = text "/idb"; entries = []; index = none }

expand_path_test : expand_path (some (text "/home/u")) (text "~/prog") ≡ text "/home/u/prog"
unfolding expand_path ends_with text_discrete ℕ_discrete
expand_path_test = refl

abbrev place : Text
place = text "/idb/prog.0123456789ab.dylib.i64"

to_analyse :
    (resolve_open_path digest machine nothing bare (text "~/prog")).idb_output_path ≡ some place
unfolding resolve_open_path resolve_input resolve_native expand_path extension before_last
    path_without_extension without_extension lookup lookup_by_hash idb_path idb_name compute_hash
    is_sbpf_elf ends_with text_discrete ℕ_discrete
to_analyse = refl

resolve_open_path-analysed_example :
    (place ≡ text "/idb" ++ b'/' ∷ idb_name digest program)
    × ((name : Text) × (lookup digest program store ≡ some name)
        × (resolve_open_path digest machine nothing store (text "~/prog")
            ≡ record { open_path = some (text "/idb" ++ b'/' ∷ name); idb_output_path = none }))
resolve_open_path-analysed_example =
    resolve_open_path-analysed digest machine nothing nothing bare store (text "~/prog") place
      (some (file 300)) to_analyse (unfold idb_name compute_hash text_discrete ℕ_discrete in refl)

abbrev edge : Text → Text → Value
edge from to = object (field (text "from") (string from) (field (text "to") (string to) end))

abbrev node : Text → Text → Value
node address name =
    object (field (text "address") (string address) (field (text "name") (string name) end))

-- The entry point calls two functions and a system call; the second function calls another one.
abbrev graph : Value
graph = object (
    field (text "edges")
      (array (
        item (edge (text "0x1") (text "0x2")) (
          item (edge (text "0x1") (text "0x3"))
            (item (edge (text "0x1") (text "0x9")) (item (edge (text "0x3") (text "0x4")) nil)))))
      (field (text "nodes") (array (item (node (text "0x9") (text "_sol_log")) nil)) end))

found : process_instruction (text "0x1") graph ≡ some (text "0x3")
unfolding process_instruction direct targets addr_to_name text_at get get_field text_discrete
    ℕ_discrete
found = refl

process_instruction-IsChosen_example :
    (edges : List Value) × (list_at (text "edges") graph ≡ some edges)
    × IsChosen (text "0x1") graph edges (text "0x3")
process_instruction-IsChosen_example =
    process_instruction-IsChosen (text "0x1") graph (text "0x3") found

abbrev opened : RpcResponse
opened = record { jsonrpc = text "2.0"; id = []; result = some null; error = none }

abbrev exchange : Exchange
exchange = record { sender = 1; now = 20; written = true; waited = answered opened }

abbrev silent : Exchange
silent = record { sender = 2; now = 21; written = true; waited = timed_out }

abbrev opening : Opening
opening = record {
  spawning = spawn_at 16 (text "/a");
  touched_at = 19;
  params = null;
  opened = exchange;
  is_sbpf = true;
  renaming = record { named = silent; graphed = silent; renamed = silent };
  issued_at = 30;
  describe = λ e. text "no";
}

abbrev start : RouterState
start = record { inner = empty (text "ida-cli"); warm_pool = [] }

start-IsFresh : IsFresh (spawn_at 16 (text "/a")) (evict_idle tiny start).inner
unfolding evict_idle evict_loop new_handle ref_token empty hex hex_padded
start-IsFresh = record { handle = refl; unheld = refl; close_token = refl; shared_token = refl }

ensure_worker-Reach_example :
    let out = ensure_worker_with_ref_idb tiny opening start in
    Reach tiny out.0.inner
    × ((h token : Text)
        → out.1 ≡ ok (h, token)
        → IsOpenFor tiny (spawn_at 16 (text "/a")).key h token out.0.inner)
ensure_worker-Reach_example =
    ensure_worker-Reach tiny opening start (here (text "ida-cli")) (unfold empty in refl)
      start-IsFresh
      (unfold ensure_open spawn_worker spawn_shared evict_idle evict_loop spawn_commit
          spawn_or_share spawn_new register open_spawned or_close after_open rename_entry
          route_request send_request choose_target next_req_id admit admit_to deliver answer_pending
          answer_of release_ref_token release_from new_handle ref_token cli_token empty hex
          hex_padded decimal timeout_secs get worker_key_discrete text_discrete ℕ_discrete in
        refl)

abbrev one_state : RouterState
one_state = record { inner = one_open; warm_pool = [] }

close_by_path-Gone_example :
    let out = close_by_path tiny (spawn_at 16 (text "/a")).key exchange silent one_state in
    (out.1 ≡ none) × Reach tiny out.0.inner × Gone first_handle out.0
close_by_path-Gone_example =
    close_by_path-Gone tiny (spawn_at 16 (text "/a")).key exchange silent one_state first_handle
      one_reached
      (unfold spawn_commit spawn_or_share spawn_new register new_handle ref_token empty hex
          hex_padded worker_key_discrete text_discrete ℕ_discrete in
        refl)
