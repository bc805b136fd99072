-- ===== src/Router/Reach.antt =====
-- router/mod.rs: every critical section as a step, and the states that any order of them reaches.
-- The tasks of the server interleave between critical sections only, since each holds the lock.
use ida_mcp.Base.{
  ℕ, ◌<◌, ◌≡◌, refl, Bool, Option, none, some, [], Text, inl, inr, length, count, leb, Bool-cases,
  Option-cases, arith, text_key,
}
use ida_mcp.Base.Map
use ida_mcp.Json.{Value}
use ida_mcp.Router.{WorkerProcess, RouterInner, Result, Result-cases, ok, err, worker_key_key}
use ida_mcp.Router.Config.{RouterConfig}
use ida_mcp.Router.Invariant.{Inv, empty, empty-Inv, forget_worker-Inv}
use ida_mcp.Router.Paths.{one_worker}
use ida_mcp.Router.Refs.{
  ref_token, cli_token, tokens_of, share_handle, issue_ref_for_handle, release_ref_token,
}
use ida_mcp.Router.Registry.{next_counter, forget_worker, reader_eof, reader_error}
use ida_mcp.Router.Route.{
  Sent, RpcResponse, admit, choose_target, next_req_id, with_tables, send_request, deliver,
  touch_worker,
}
use ida_mcp.Router.Spawn.{Spawning, of_tenant, new_handle, spawn_new, spawn_or_share, spawn_commit}
use ida_mcp.Router.Steps.{
  reader_error-Inv, counted-Inv, add_ref-Inv, release-Inv, admit-Inv, deliver-Inv, touch-Inv,
  register-Inv,
}

-- What the clock has to give a spawn: a handle that is not in use, and tokens that are not.
pub record IsFresh (s : Spawning) (r : RouterInner) : Type 0 where
  pub handle : Map.get (new_handle s.now s.pid r.req_counter) r.workers ≡ none
  pub unheld : tokens_of (new_handle s.now s.pid r.req_counter) r ≡ []
  pub close_token :
      Map.get (ref_token s.token_now s.pid (next_counter r.req_counter)) r.token_to_handle ≡ none
  pub shared_token : Map.get (ref_token s.now s.pid r.req_counter) r.token_to_handle ≡ none

module _ (config : RouterConfig) (r : RouterInner) (v : Inv config r) where
  share-Inv :
      (h : Text) (now pid : ℕ)
      → Map.get (ref_token now pid r.req_counter) r.token_to_handle ≡ none
      → Inv config (share_handle h now pid r).0
  unfolding share_handle
  share-Inv h now pid fresh =
      add_ref-Inv config (record r { req_counter = next_counter r.req_counter })
        (counted-Inv config r v (next_counter r.req_counter)) (ref_token now pid r.req_counter) h
        fresh

  issue-Inv :
      (h : Text) (now : ℕ)
      → Map.get (cli_token now r.req_counter) r.token_to_handle ≡ none
      → Inv config (issue_ref_for_handle h now r).0
  unfolding issue_ref_for_handle
  issue-Inv h now fresh =
      add_ref-Inv config (record r { req_counter = next_counter r.req_counter })
        (counted-Inv config r v (next_counter r.req_counter)) (cli_token now r.req_counter) h fresh

  with_tables-Inv :
      (counted : RouterInner) (sent : Sent) (result : Result RouterInner)
      → Inv config counted
      → ((s : RouterInner) → result ≡ ok s → Inv config s)
      → Inv config (with_tables counted sent result).0
  with_tables-Inv counted sent (ok s) w good = good s refl
  with_tables-Inv counted sent (err e) w good = w

  send-Inv :
      (handle : Option Text) (method : Text) (params : Value) (sender now : ℕ) (written : Bool)
      → Inv config (send_request config handle method params sender now written r).0
  unfolding send_request next_req_id
  send-Inv handle method params sender now written =
      let counted = record r { req_counter = next_counter r.req_counter } in
      let w = counted-Inv config r v (next_counter r.req_counter) in
      elim (Result-cases (choose_target handle r)) [
        | inl (target, e) ↦
            rw (e, send_request)
              (with_tables-Inv counted _ _ w
                (admit-Inv config counted w target (next_req_id r).1 sender now written))
        | inr (problem, e) ↦ rw (e, send_request) v
      ]

  module _ (s : Spawning) (fresh : IsFresh s r) where
    spawn_new-Inv :
        Map.get s.key r.path_to_handle ≡ none
        → length r.workers < config.max_workers
        → count (of_tenant s.key.tenant_id) r.workers < config.max_workers_per_tenant
        → Inv config (spawn_new s r).0
    unfolding spawn_new
    spawn_new-Inv closed room tenant_room =
        let counted = record r { req_counter = next_counter r.req_counter } in
        let w = counted-Inv config r v (next_counter r.req_counter) in
        elim (Option-cases s.child) [
          | inl e ↦ rw (e, spawn_new) w
          | inr (child, e) ↦
              rw (e, spawn_new)
                (register-Inv config counted w (new_handle s.now s.pid r.req_counter)
                  (ref_token s.token_now s.pid (next_counter r.req_counter)) s child fresh.handle
                  fresh.unheld fresh.close_token closed room tenant_room)
        ]

    spawn_or_share-Inv :
        length r.workers < config.max_workers
        → count (of_tenant s.key.tenant_id) r.workers < config.max_workers_per_tenant
        → Inv config (spawn_or_share s r).0
    unfolding spawn_or_share
    spawn_or_share-Inv room tenant_room = elim (Option-cases (Map.get s.key r.path_to_handle)) [
      | inl e ↦ rw (e, spawn_or_share) (spawn_new-Inv e room tenant_room)
      | inr (h, e) ↦ rw (e, spawn_or_share) (share-Inv h s.now s.pid fresh.shared_token)
    ]

    spawn_commit-Inv : Inv config (spawn_commit config s r).0
    unfolding spawn_commit
    spawn_commit-Inv =
        elim (Bool-cases
          (leb config.max_workers_per_tenant (count (of_tenant s.key.tenant_id) r.workers))) [
            | inl full ↦ rw full v
            | inr tenant_room ↦ elim (Bool-cases (leb config.max_workers (length r.workers))) [
              | inl full ↦ rw (tenant_room, full) v
              | inr room ↦ rw (tenant_room, room) (spawn_or_share-Inv (ground arith) (ground arith))
            ]
          ]

-- One critical section; `sends` is three of `route_request` in a row, of which the last two also
-- stand alone. A spawn and a new reference bring tokens that are not in use yet.
pub data Step (config : RouterConfig) : RouterInner → RouterInner → Type 0 where
  spawns :
      (r : RouterInner) (s : Spawning) → IsFresh s r → Step config r (spawn_commit config s r).0
  shares :
      (r : RouterInner) (h : Text) (now pid : ℕ)
      → Map.get (ref_token now pid r.req_counter) r.token_to_handle ≡ none
      → Step config r (share_handle h now pid r).0
  issues :
      (r : RouterInner) (h : Text) (now : ℕ)
      → Map.get (cli_token now r.req_counter) r.token_to_handle ≡ none
      → Step config r (issue_ref_for_handle h now r).0
  releases : (r : RouterInner) (token : Text) → Step config r (release_ref_token token r).0
  sends :
      (r : RouterInner) (handle : Option Text) (method : Text) (params : Value) (sender now : ℕ)
      (written : Bool)
      → Step config r (send_request config handle method params sender now written r).0
  numbers : (r : RouterInner) → Step config r (next_req_id r).0
  admits :
      (r : RouterInner) (h req_id : Text) (sender now : ℕ) (written : Bool) (s : RouterInner)
      → admit config h req_id sender now written r ≡ ok s
      → Step config r s
  delivers : (r : RouterInner) (h : Text) (resp : RpcResponse) → Step config r (deliver h resp r).0
  touches : (r : RouterInner) (h : Text) (now : ℕ) → Step config r (touch_worker h now r)
  closes : (r : RouterInner) (h : Text) → Step config r (forget_worker h r)
  ends : (r : RouterInner) (h : Text) → Step config r (reader_eof h r).inner
  breaks : (r : RouterInner) (h : Text) → Step config r (reader_error h r).inner

pub data Reach (config : RouterConfig) : RouterInner → Type 0 where
  here : (exe_path : Text) → Reach config (empty exe_path)
  next : {r s : RouterInner} → Reach config r → Step config r s → Reach config s

pub Step-Inv :
    {config : RouterConfig} {r s : RouterInner} → Step config r s → Inv config r → Inv config s
unfolding reader_eof next_req_id
Step-Inv {config} (spawns r s fresh) v = spawn_commit-Inv config r v s fresh
Step-Inv {config} (shares r h now pid fresh) v = share-Inv config r v h now pid fresh
Step-Inv {config} (issues r h now fresh) v = issue-Inv config r v h now fresh
Step-Inv {config} (releases r token) v = release-Inv config r v token
Step-Inv {config} (sends r handle method params sender now written) v =
    send-Inv config r v handle method params sender now written
Step-Inv {config} (numbers r) v = counted-Inv config r v (next_counter r.req_counter)
Step-Inv {config} (admits r h req_id sender now written s e) v =
    admit-Inv config r v h req_id sender now written s e
Step-Inv {config} (delivers r h resp) v = deliver-Inv config r v h resp
Step-Inv {config} (touches r h now) v = touch-Inv config r v h now
Step-Inv {config} (closes r h) v = forget_worker-Inv config h r v
Step-Inv {config} (ends r h) v = forget_worker-Inv config h r v
Step-Inv {config} (breaks r h) v = reader_error-Inv config r v h

-- In every state that the router reaches from the empty one by critical sections in any order
-- (spawns and new references under handles and tokens that are not in use, releases, requests,
-- answers, touches of a worker, closings, ends of a worker's output), the tables of paths and
-- of workers agree, a token leads to a handle exactly if the handle holds it, the active
-- handle is that of a worker, there is one if there are workers, and the limits on workers,
-- workers of a tenant, pending requests of a worker and of a tenant hold.
pub Reach-Inv : {config : RouterConfig} {r : RouterInner} → Reach config r → Inv config r
Reach-Inv {config} (here exe_path) = empty-Inv config exe_path
Reach-Inv (next p q) = Step-Inv q (Reach-Inv p)

-- In every reachable state a tenant has at most one worker for a path: two handles whose
-- workers have the same open path and the same tenant are equal.
pub Reach-one_worker :
    {config : RouterConfig} {r : RouterInner}
    → Reach config r
    → (h g : Text) (w u : WorkerProcess) (p : Text) → Map.get h r.workers ≡ some w
    → Map.get g r.workers ≡ some u
    → w.open_path ≡ some p
    → u.open_path ≡ some p
    → w.tenant_id ≡ u.tenant_id
    → h ≡ g
Reach-one_worker reached h g w u p hw gu wp up same =
    one_worker (Reach-Inv reached).paths h g w u p hw gu wp up same
