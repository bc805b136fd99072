-- ===== src/Router/Paths.antt =====
-- router/mod.rs: the table of paths and the workers agree, so that a tenant has one worker for a
-- path; and the active handle is that of a worker.
use ida_mcp.Base.{
  ◌≡◌, inl, inr, true, none, some, Text, is_some, Option-cases, arith, HashMap, text_key,
}
use ida_mcp.Base.Map
use ida_mcp.Base.Map.{HasUniqueKeys}
use ida_mcp.Router.{WorkerKey, WorkerProcess, worker_key_key}
use ida_mcp.Router.Registry.{worker_key, forget_path}

pub record Paths (ws : HashMap Text WorkerProcess) (ps : HashMap WorkerKey Text) : Type 0 where
  pub unique : HasUniqueKeys ws
  pub path_open : (k : WorkerKey) (h : Text) → Map.get k ps ≡ some h → is_some (Map.get h ws) ≡ true
  pub path_of :
      (k : WorkerKey) (h : Text) (w : WorkerProcess)
      → Map.get k ps ≡ some h
      → Map.get h ws ≡ some w
      → (w.open_path ≡ some k.path) × (w.tenant_id ≡ k.tenant_id)
  pub open_path :
      (h : Text) (w : WorkerProcess) (p : Text)
      → Map.get h ws ≡ some w
      → w.open_path ≡ some p
      → Map.get (worker_key p w.tenant_id) ps ≡ some h

-- A tenant has one worker for a path.
pub one_worker :
    {ws : HashMap Text WorkerProcess} {ps : HashMap WorkerKey Text} (v : Paths ws ps) (h g : Text)
    (w u : WorkerProcess) (p : Text)
    → Map.get h ws ≡ some w
    → Map.get g ws ≡ some u
    → w.open_path ≡ some p
    → u.open_path ≡ some p
    → w.tenant_id ≡ u.tenant_id
    → h ≡ g
one_worker {ws} {ps} v h g w u p hw gu wp up same =
    ground (arith, v.open_path h w p hw wp, v.open_path g u p gu up)

key_eq : (k : WorkerKey) (p t : Text) → p ≡ k.path → t ≡ k.tenant_id → worker_key p t ≡ k
key_eq k p t e f = λ i. record { tenant_id = f i; path = e i }

module _ (h : Text) (w : WorkerProcess) (ws : HashMap Text WorkerProcess)
    (ps : HashMap WorkerKey Text) (v : Paths ws ps) (hw : Map.get h ws ≡ some w) where
  remove_pathless : w.open_path ≡ none → Paths (Map.remove h ws) ps
  remove_pathless e = record {
    unique = Map.remove-HasUniqueKeys h ws v.unique;
    path_open = λ k g at.
        ground (arith, at, hw, e, Map.get-remove h g ws, v.path_open k g, v.path_of k h w);
    path_of = λ k g u at gu. ground (arith, at, gu, Map.get-remove h g ws, v.path_of k g u);
    open_path = λ g u p gu up. ground (arith, gu, up, Map.get-remove h g ws, v.open_path g u p);
  }

  remove_path :
      (p : Text)
      → w.open_path ≡ some p
      → Paths (Map.remove h ws) (Map.remove (worker_key p w.tenant_id) ps)
  remove_path p e =
      let own = worker_key p w.tenant_id in
      record {
        unique = Map.remove-HasUniqueKeys h ws v.unique;
        path_open = λ k g at. ground (
          arith,
          at,
          hw,
          e,
          Map.get-remove own k ps,
          Map.get-remove h g ws,
          v.path_open k g,
          v.path_of k h w,
          key_eq k p w.tenant_id,
        );
        path_of = λ k g u at gu.
            ground (arith, at, gu, Map.get-remove own k ps, Map.get-remove h g ws, v.path_of k g u);
        open_path = λ g u q gu uq. ground (
          arith,
          gu,
          uq,
          hw,
          e,
          Map.get-remove own (worker_key q u.tenant_id) ps,
          Map.get-remove h g ws,
          v.open_path g u q,
          v.open_path h w p,
        );
      }

  pub remove-Paths : Paths (Map.remove h ws) (forget_path w ps)
  unfolding forget_path
  remove-Paths = elim (Option-cases w.open_path) [
    | inl e ↦ rw (e, forget_path) (remove_pathless e)
    | inr (p, e) ↦ rw (e, forget_path) (remove_path p e)
  ]

-- A new worker under a new handle, for a key that is not open.
pub insert-Paths :
    (h : Text) (w : WorkerProcess) (k : WorkerKey) (ws : HashMap Text WorkerProcess)
    (ps : HashMap WorkerKey Text)
    → Paths ws ps
    → Map.get h ws ≡ none
    → Map.get k ps ≡ none
    → w.open_path ≡ some k.path
    → w.tenant_id ≡ k.tenant_id
    → Paths (Map.insert h w ws) (Map.insert k h ps)
insert-Paths h w k ws ps v fresh closed wp wt = record {
  unique = Map.insert-HasUniqueKeys h w ws v.unique;
  path_open = λ j g at.
      ground (arith, at, Map.get-insert k j h ps, Map.get-insert h g w ws, v.path_open j g);
  path_of = λ j g u at gu. ground (
    arith,
    at,
    gu,
    wp,
    wt,
    fresh,
    Map.get-insert k j h ps,
    Map.get-insert h g w ws,
    v.path_open j g,
    v.path_of j g u,
  );
  open_path = λ g u p gu up. ground (
    arith,
    gu,
    up,
    wp,
    wt,
    closed,
    Map.get-insert k (worker_key p u.tenant_id) h ps,
    Map.get-insert h g w ws,
    v.open_path g u p,
    key_eq k p u.tenant_id,
  );
}

-- A change of one worker that keeps its tenant and its path.
pub modify-Paths :
    (h : Text) (f : WorkerProcess → WorkerProcess) (ws : HashMap Text WorkerProcess)
    (ps : HashMap WorkerKey Text)
    → ((w : WorkerProcess) → ((f w).open_path ≡ w.open_path) × ((f w).tenant_id ≡ w.tenant_id))
    → Paths ws ps
    → Paths (Map.modify h f ws) ps
modify-Paths h f ws ps same v = record {
  unique = Map.modify-HasUniqueKeys h f ws v.unique;
  path_open = λ k g at. elim (Option-cases (Map.get g ws)) [
    | inl e ↦ absurd (ground (arith, at, v.path_open k g))
    | inr (w, e) ↦ ground (arith, e, Map.get-modify h g f ws)
  ];
  path_of = λ k g u at gu. elim (Option-cases (Map.get g ws)) [
    | inl e ↦ absurd (ground (arith, at, v.path_open k g))
    | inr (w, e) ↦ ground (arith, e, at, gu, same w, Map.get-modify h g f ws, v.path_of k g w)
  ];
  open_path = λ g u p gu up. elim (Option-cases (Map.get g ws)) [
    | inl e ↦ absurd (ground (arith, gu, Map.get-modify h g f ws))
    | inr (w, e) ↦ ground (arith, e, gu, up, same w, Map.get-modify h g f ws, v.open_path g w p)
  ];
}
