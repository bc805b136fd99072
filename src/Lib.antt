-- ===== src/Lib.antt =====
-- ida-mcp serves the analyses of IDA to many clients at once. A router process keeps a table of
-- worker processes, one for each tenant and opened file, sends requests to them, delivers the
-- answers, and counts the references of the clients so that idle workers can be closed; two queues
-- hold work until a limit allows it, and a registry keeps the state of background tasks. This
-- library models the router's tables, its queues and the task registry, and proves what keeps them
-- consistent. It also models the two directories of files that the program keeps (analysed databases,
-- and responses too large to show), how they are cut down to their limits without taking what is in
-- use, and the federation: other nodes, which of them are ready, and the tasks that are sent to them.
--
-- Parts, and where they are modelled:
--   src/server/task.rs            Tasks: TaskRegistry. `Registry` is the map under the mutex together
--                                 with the counter of next_task_id; `add_task` is the creating half of
--                                 create_internal; Tasks/Updates has update_message, merge_meta,
--                                 complete, fail and cancel; Tasks/Calendar iso_now. Tasks/Invariant
--                                 has every call as a `Call`, Tasks/Steps that they keep the invariant.
--   src/router/mod.rs             Router: the records. Router/Config: RouterConfig::from_env.
--                                 Router/Tenant: normalize_tenant. Router/Registry: close_worker,
--                                 shutdown_all and the ends of the reader task. Router/Refs: reference
--                                 tokens. Router/Spawn: spawn_worker under the lock. Router/Route:
--                                 route_request and the delivery of an answer. Router/Warm: the warm
--                                 pool and the watchdog's closing of idle workers. Router/Ensure:
--                                 route_request with its answer, spawn_worker,
--                                 ensure_worker_with_ref_idb and close_by_path, each with no other
--                                 task between its critical sections; Router/Prewarm:
--                                 prewarm_path_with_options in the same way. Router/Entry:
--                                 detect_and_rename_sbpf_entry. The proofs are in Paths, Tokens,
--                                 Bounds, Invariant, Steps, Reach, Close, Evict, Answers, Numbered,
--                                 Numbers, Lease, Runs, Frames, Opened, Keeping and Callee.
--   src/router/mod.rs (paths), src/sbpf.rs, src/lib.rs
--                                 Router/Resolve: resolve_open_path, resolve_sbpf_path,
--                                 run_sbx_aot_i64 and expand_path. `Machine` says which paths exist and
--                                 what is read of them.
--   src/router/mod.rs (queues)    Queue: the order and the choice of the next task, for both queues.
--                                 Queue/Prewarm: enqueue_prewarm and drive_prewarm_queue. Queue/Jobs:
--                                 enqueue_route_task, drive_route_queue and cancel_task, with the task
--                                 registry. The proofs are in Order, Invariant, Steps, Drive, Limits,
--                                 Waiting and Cancel.
--   src/router/protocol.rs, src/error.rs, src/ida/runtime.rs
--                                 RpcResponse, ToolError and WorkerBackendKind, in Router and
--                                 Router/Route.
--   src/idb_store.rs              Store: IdbStore. `Store` is the directory with what index.json
--                                 holds; the digest of blake3, the clock and the outcome of a write
--                                 are arguments. The proofs are in Index, Clean, Groups and Evict.
--   src/server/response_cache.rs  Cache: guard_response_size, stats, prune_to_limit; the proof is in
--                                 Cache/Prune.
--   src/idb_store.rs, src/server/response_cache.rs
--                                 Files: what a listing gives and the eviction loop of both, over
--                                 groups of files: a stem of the store, a single response of the
--                                 cache. Files/Names has the parts of a path, Files/Evict,
--                                 Files/Limit and Files/Listing the proofs.
--   src/federation.rs             Federation: node records, probe_record, compute_load_score,
--                                 node_rank, choose_ready_nodes; Federation/Requests:
--                                 submit_enqueue, fetch_remote_task; Federation/Table: the router's
--                                 table of nodes. `Network` is what parsing an
--                                 address and asking a host answer, `Float` the f64 arithmetic, and
--                                 `IsOrdered` what IEEE says of it where no NaN occurs. The
--                                 proofs are in Choice, Ranks and Heartbeat.
--   src/router/mod.rs (caches, federation)
--                                 Router/Sweep: prune_caches over the warm pool and both directories.
--                                 Federation/Dispatch: enqueue_federated_task and its polling task,
--                                 on the task registry; the proofs are in Sent and Poll.
--   src/router/mod.rs, src/server/response_cache.rs, src/federation.rs
--                                 Views: task_state_json, is_sbpf_elf, count_items, supports_request.
--   Base, Json                    hash maps as association lists, a stable sort, texts as lists of
--                                 bytes, JSON values as far as the source looks into them.
--
-- How the state corresponds. Every critical section, from lock to unlock, is one function from tables
-- to tables, and `Step` has a constructor for each; the tasks of the server interleave between them,
-- so `Reach` is closed under every order. route_request takes the lock three times in a row: `numbers`
-- and `admits` are the last two by themselves, and `send_request` is the three with no other task
-- between. Clocks, process identifiers, the outcome of writing to a worker and of starting one are
-- arguments. A hash map is a list in order of insertion; where the source takes any key of a map (the
-- next active handle), the model takes the first. A oneshot channel is the number of its receiver, and
-- a function that answers one says which. Counters of type u64 wrap, which run-Inv excludes by its
-- bound on the number of calls. A handle and a token are made from the clock: that they are not in use
-- yet is a hypothesis of the steps that make them. The watchdog closes what `expired_workers` lists:
-- these are closings of `Step`. A warm lease is given back by `release_warm_lease`, which holds the
-- lock of the pool to its end, while `close_worker` asks for that lock again: an `Outcome` says
-- whether a call on the pool returns or is stuck there, and the state that it is stuck in. evict_idle
-- runs with no other task between the choice of a worker and its closing.
--
-- Fuel. `evict_loop` has as much as there are workers, since each round closes one; evict_idle_done is
-- the proof that it is enough. The `drive_loop` of a queue has as much as there are queued tasks, since
-- each round takes one out; drive_prewarm_queue_done is the proof for prewarms. `make_room` has one
-- more than there are leases, since each round takes one out; install_warm_lease_lem rests on it.
-- The polling task has no end of its own: the model runs it over the list of ticks that come.
--
-- A directory is a map from names to metadata, none where the metadata cannot be read, in the order in
-- which a listing gives it. That a file can be removed is a test on names: where the source ignores the
-- outcome, so does the model. index.json is replaced in one step, with no temporary file left over.
--
-- Not modelled: the start of worker processes and the probe of their backend (operating system), the
-- dispatch of methods to the IDA kernel, the command line, sockets and the MCP protocol, the HTTP client
-- of the federation, the paths under the home directory and the stale lock files, and the vendored SDKs
-- under 3rd-github. ensure_worker_with_ref_idb also records a new database in the store: that is
-- record_binary, which stands by itself here.
pub mod Base
pub mod Cache
pub mod Federation
pub mod Files
pub mod Json
pub mod Queue
pub mod Router
pub mod Store
pub mod Tasks
pub mod Views
