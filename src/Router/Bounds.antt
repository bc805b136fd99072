-- ===== src/Router/Bounds.antt =====
-- router/mod.rs: the bounds on workers and pending requests, under each change of the workers.
use ida_mcp.Base.{
  ℕ, suc, ◌≤◌, ◌<◌, ◌≡◌, refl, ap, none, some, [], ◌∷◌, ◌++◌, Text, text_eq, length, count,
  count-append, All-append, if◌then◌else◌, arith, HashMap, text_key,
}
use ida_mcp.Base.Map
use ida_mcp.Router.{WorkerProcess}
use ida_mcp.Router.Config.{RouterConfig}
use ida_mcp.Router.Invariant.{Bounded, HasRoomFor}
use ida_mcp.Router.Route.{tenant_pending, with_pending, without_pending, touched}
use ida_mcp.Router.Spawn.{of_tenant}

tenant_pending-append :
    (t h : Text) (w : WorkerProcess) (ws : HashMap Text WorkerProcess)
    → w.pending ≡ []
    → tenant_pending t (ws ++ (h, w) ∷ []) ≡ tenant_pending t ws
unfolding tenant_pending
tenant_pending-append t h w [] e = ground arith
tenant_pending-append t h w ((g, u) ∷ ws) e = ground (arith, tenant_pending-append t h w ws e)

-- One more worker, where both limits leave room for it.
pub insert-Bounded :
    (config : RouterConfig) (h : Text) (w : WorkerProcess) (ws : HashMap Text WorkerProcess)
    → Bounded config ws
    → Map.get h ws ≡ none
    → w.pending ≡ []
    → length ws < config.max_workers
    → count (of_tenant w.tenant_id) ws < config.max_workers_per_tenant
    → Bounded config (Map.insert h w ws)
insert-Bounded config h w ws b fresh e room tenant_room =
    rw (Map.insert-eq-append h w ws fresh) (record {
      workers =
          omega (arith, ap length (Map.insert-eq-append h w ws fresh), Map.length-insert_le h w ws);
      tenant_workers = λ t. ground (
        arith,
        count-append (of_tenant t) ws ((h, w) ∷ []),
        b.tenant_workers t,
        ap (λ x. count (of_tenant x) ws) {x = t} {y = w.tenant_id},
      );
      pending = All-append _ ws _ b.pending (ground arith, tt);
      pending_of = λ t. omega (arith, tenant_pending-append t h w ws e, b.pending_of t);
    })

tenant_pending-with_pending :
    (t h id : Text) (sender now : ℕ) (w : WorkerProcess) (ws : HashMap Text WorkerProcess)
    → Map.get h ws ≡ some w
    → tenant_pending t (Map.modify h (with_pending id sender now) ws)
      ≤ (if text_eq w.tenant_id t then suc (tenant_pending t ws) else tenant_pending t ws)
unfolding tenant_pending
tenant_pending-with_pending t h id sender now w [] g = absurd (ground arith)
tenant_pending-with_pending t h id sender now w ((j, u) ∷ ws) g = ground (
  arith,
  tenant_pending-with_pending t h id sender now w ws,
  Map.length-insert_le id sender u.pending,
)

-- One more pending request, where both limits leave room for it.
pub with_pending-Bounded :
    (config : RouterConfig) (h id : Text) (sender now : ℕ) (w : WorkerProcess)
    (ws : HashMap Text WorkerProcess)
    → Bounded config ws
    → Map.get h ws ≡ some w
    → tenant_pending w.tenant_id ws < config.max_pending_per_tenant
    → length w.pending < config.max_pending_per_worker
    → Bounded config (Map.modify h (with_pending id sender now) ws)
with_pending-Bounded config h id sender now w ws b g tenant_room room =
    let f = with_pending id sender now in
    record {
      workers = omega (arith, Map.length-modify h f ws, b.workers);
      tenant_workers = λ t.
          let same = Map.count-modify_le (of_tenant t) h f ws (λ j u e. e) in
          omega (arith, same, b.tenant_workers t);
      pending =
          Map.All-modify_at (HasRoomFor config.max_pending_per_worker) h f w ws g
            (omega (arith, Map.length-insert_le id sender w.pending)) b.pending;
      pending_of = λ t. ground (
        arith,
        tenant_pending-with_pending t h id sender now w ws,
        b.pending_of t,
        ap (λ x. tenant_pending x ws) {x = t} {y = w.tenant_id},
      );
    }

tenant_pending-without_pending :
    (t h id : Text) (ws : HashMap Text WorkerProcess)
    → tenant_pending t (Map.modify h (without_pending id) ws) ≤ tenant_pending t ws
unfolding tenant_pending
tenant_pending-without_pending t h id [] = omega arith
tenant_pending-without_pending t h id ((j, u) ∷ ws) =
    ground (arith, tenant_pending-without_pending t h id ws, Map.length-remove_le id u.pending)

-- An answered request is pending no more.
pub without_pending-Bounded :
    (config : RouterConfig) (h id : Text) (ws : HashMap Text WorkerProcess)
    → Bounded config ws
    → Bounded config (Map.modify h (without_pending id) ws)
without_pending-Bounded config h id ws b =
    let f = without_pending id in
    record {
      workers = omega (arith, Map.length-modify h f ws, b.workers);
      tenant_workers = λ t.
          let same = Map.count-modify_le (of_tenant t) h f ws (λ j u e. e) in
          omega (arith, same, b.tenant_workers t);
      pending =
          Map.All-modify (HasRoomFor config.max_pending_per_worker) h f ws
            (λ j u e. omega (arith, Map.length-remove_le id u.pending)) b.pending;
      pending_of = λ t. omega (arith, tenant_pending-without_pending t h id ws, b.pending_of t);
    }

tenant_pending-touched :
    (t h : Text) (now : ℕ) (ws : HashMap Text WorkerProcess)
    → tenant_pending t (Map.modify h (touched now) ws) ≡ tenant_pending t ws
unfolding tenant_pending
tenant_pending-touched t h now [] = refl
tenant_pending-touched t h now ((j, u) ∷ ws) = ground (arith, tenant_pending-touched t h now ws)

-- A worker that is touched stays within its bounds.
pub touched-Bounded :
    (config : RouterConfig) (h : Text) (now : ℕ) (ws : HashMap Text WorkerProcess)
    → Bounded config ws
    → Bounded config (Map.modify h (touched now) ws)
touched-Bounded config h now ws b =
    let f = touched now in
    record {
      workers = omega (arith, Map.length-modify h f ws, b.workers);
      tenant_workers = λ t.
          let same = Map.count-modify_le (of_tenant t) h f ws (λ j u e. e) in
          omega (arith, same, b.tenant_workers t);
      pending =
          Map.All-modify (HasRoomFor config.max_pending_per_worker) h f ws (λ j u e. e) b.pending;
      pending_of = λ t. omega (arith, tenant_pending-touched t h now ws, b.pending_of t);
    }
