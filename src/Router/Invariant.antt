-- ===== src/Router/Invariant.antt =====
-- router/mod.rs: what holds of the router's tables between two critical sections.
use ida_mcp.Base.{
  ℕ, ◌≤◌, ◌≡◌, refl, sym, subst, ◌∙◌, inl, inr, true, none, some, [], ◌∷◌, Text, is_some, length,
  count, All, Bool-cases, Option-cases, arith, HashMap, text_key,
}
use ida_mcp.Base.Map
use ida_mcp.Base.Map.{HasUniqueKeys}
use ida_mcp.Router.{WorkerKey, WorkerProcess, RouterInner, worker_key_key}
use ida_mcp.Router.Config.{RouterConfig}
use ida_mcp.Router.Registry.{
  forget_path, first_key, is_handle, remove_worker, drop_tokens, reset_active, forget_worker,
}
use ida_mcp.Router.Paths.{Paths, remove-Paths}
use ida_mcp.Router.Route.{tenant_pending}
use ida_mcp.Router.Spawn.{of_tenant}
use ida_mcp.Router.Tokens.{Agree, drop_tokens-Agree}

abbrev pub HasRoomFor : ℕ → Text × WorkerProcess → Type 0
HasRoomFor n (h, w) = length w.pending ≤ n

-- The bounds that the configuration sets.
pub record Bounded (config : RouterConfig) (ws : HashMap Text WorkerProcess) : Type 0 where
  pub workers : length ws ≤ config.max_workers
  pub tenant_workers : (t : Text) → count (of_tenant t) ws ≤ config.max_workers_per_tenant
  pub pending : All (HasRoomFor config.max_pending_per_worker) ws
  pub pending_of : (t : Text) → tenant_pending t ws ≤ config.max_pending_per_tenant

pub record Inv (config : RouterConfig) (r : RouterInner) : Type 0 where
  pub paths : Paths r.workers r.path_to_handle
  pub agree : Agree r
  pub active_open : (h : Text) → r.active ≡ some h → is_some (Map.get h r.workers) ≡ true
  pub active_none : r.active ≡ none → r.workers ≡ []
  pub bounded : Bounded config r.workers

unfoldable pub empty : Text → RouterInner
empty exe_path = record {
  workers = [];
  active = none;
  path_to_handle = [];
  token_to_handle = [];
  ref_tokens = [];
  req_counter = 0;
  exe_path = exe_path;
}

pub empty-Inv : (config : RouterConfig) (exe_path : Text) → Inv config (empty exe_path)
unfolding empty tenant_pending
empty-Inv config exe_path = record {
  paths = record {
    unique = tt;
    path_open = λ k h e. cc;
    path_of = λ k h w e f. absurd (ground arith);
    open_path = λ h w p e f. absurd (ground arith);
  };
  agree = record {
    to_ref = λ t h e. absurd (ground arith);
    from_ref = λ t h e. absurd (ground arith);
  };
  active_open = λ h e. cc;
  active_none = λ e. refl;
  bounded = record {
    workers = omega arith;
    tenant_workers = λ t. omega arith;
    pending = tt;
    pending_of = λ t. omega arith;
  };
}

tenant_pending-remove_le :
    (t h : Text) (ws : HashMap Text WorkerProcess)
    → tenant_pending t (Map.remove h ws) ≤ tenant_pending t ws
unfolding tenant_pending
tenant_pending-remove_le t h [] = omega arith
tenant_pending-remove_le t h ((g, w) ∷ ws) = ground (arith, tenant_pending-remove_le t h ws)

remove-Bounded :
    (config : RouterConfig) (h : Text) (ws : HashMap Text WorkerProcess)
    → Bounded config ws
    → Bounded config (Map.remove h ws)
remove-Bounded config h ws b = record {
  workers = omega (arith, Map.length-remove_le h ws, b.workers);
  tenant_workers = λ t. omega (arith, Map.count-remove_le (of_tenant t) h ws, b.tenant_workers t);
  pending = Map.All-remove _ h ws b.pending;
  pending_of = λ t. omega (arith, tenant_pending-remove_le t h ws, b.pending_of t);
}

-- `drop_tokens` leaves all but the two tables of tokens as they are.
pub drop_tokens_frame :
    (h : Text) (r : RouterInner)
    → ((drop_tokens h r).workers ≡ r.workers)
      × ((drop_tokens h r).path_to_handle ≡ r.path_to_handle)
      × ((drop_tokens h r).active ≡ r.active)
      × ((drop_tokens h r).req_counter ≡ r.req_counter)
unfolding drop_tokens
drop_tokens_frame h r = ground arith

pub first_key_open :
    (ws : HashMap Text WorkerProcess) (h : Text)
    → first_key ws ≡ some h
    → is_some (Map.get h ws) ≡ true
first_key_open [] h e = cc
first_key_open ((g, w) ∷ ws) h e = ground arith

pub first_key-none : (ws : HashMap Text WorkerProcess) → first_key ws ≡ none → ws ≡ []
first_key-none [] e = refl
first_key-none ((g, w) ∷ ws) e = cc

module _ (config : RouterConfig) (h : Text) (r : RouterInner) (v : Inv config r) where
  -- The tables with a worker out, before the active handle is looked at.
  abbrev without : WorkerProcess → RouterInner
  without w = drop_tokens h (remove_worker h w r)

  without_active_open :
      (w : WorkerProcess) (g : Text)
      → (reset_active h (without w)).active ≡ some g
      → is_some (Map.get g (Map.remove h r.workers)) ≡ true
  unfolding reset_active remove_worker
  without_active_open w g e = ground (
    arith,
    e,
    drop_tokens_frame h (remove_worker h w r),
    first_key_open (Map.remove h r.workers) g,
    Map.get-remove h g r.workers,
    v.active_open g,
  )

  without_active_none :
      (w : WorkerProcess) → (reset_active h (without w)).active ≡ none → Map.remove h r.workers ≡ []
  unfolding reset_active remove_worker
  without_active_none w e = ground (
    arith,
    e,
    drop_tokens_frame h (remove_worker h w r),
    first_key-none (Map.remove h r.workers),
    v.active_none,
  )

pub Inv-of :
    (config : RouterConfig) (s : RouterInner) (ws : HashMap Text WorkerProcess)
    (ps : HashMap WorkerKey Text)
    → s.workers ≡ ws
    → s.path_to_handle ≡ ps
    → Paths ws ps
    → Bounded config ws
    → Agree s
    → ((h : Text) → s.active ≡ some h → is_some (Map.get h ws) ≡ true)
    → (s.active ≡ none → ws ≡ [])
    → Inv config s
Inv-of config s ws ps ew ep paths bounded agree open_ none_ = record {
  paths = subst (λ x. Paths x s.path_to_handle) (sym ew) (subst (λ y. Paths ws y) (sym ep) paths);
  agree = agree;
  active_open = λ h e. subst (λ x. is_some (Map.get h x) ≡ true) (sym ew) (open_ h e);
  active_none = λ e. ew ∙ none_ e;
  bounded = subst (λ x. Bounded config x) (sym ew) bounded;
}

-- `reset_active` changes the active handle alone.
pub reset_active_frame :
    (h : Text) (r : RouterInner)
    → ((reset_active h r).workers ≡ r.workers)
      × ((reset_active h r).path_to_handle ≡ r.path_to_handle)
      × ((reset_active h r).token_to_handle ≡ r.token_to_handle)
      × ((reset_active h r).ref_tokens ≡ r.ref_tokens)
unfolding reset_active
reset_active_frame h r = ground arith

pub reset_active-Agree : (h : Text) (r : RouterInner) → Agree r → Agree (reset_active h r)
unfolding reset_active
reset_active-Agree h r v = elim (Bool-cases (is_handle r.active h)) [
  | inl own ↦ rw own (record { to_ref = v.to_ref; from_ref = v.from_ref })
  | inr other ↦ rw other v
]

module _ (config : RouterConfig) (h : Text) (r : RouterInner) (v : Inv config r) where
  pub removed-Inv :
      (w : WorkerProcess)
      → Map.get h r.workers ≡ some w
      → Inv config (reset_active h (drop_tokens h (remove_worker h w r)))
  unfolding remove_worker
  removed-Inv w at =
      let gone = remove_worker h w r in
      let (fw, fp, _, _) = drop_tokens_frame h gone in
      let (rw_, rp, _, _) = reset_active_frame h (drop_tokens h gone) in
      Inv-of config (reset_active h (drop_tokens h gone)) (Map.remove h r.workers)
        (forget_path w r.path_to_handle) (rw_ ∙ fw) (rp ∙ fp)
        (remove-Paths h w r.workers r.path_to_handle v.paths at)
        (remove-Bounded config h r.workers v.bounded)
        (reset_active-Agree h _ (
          drop_tokens-Agree h gone
            (record { to_ref = v.agree.to_ref; from_ref = v.agree.from_ref })))
        (without_active_open config h r v w) (without_active_none config h r v w)

  -- Closing a worker, or the end of its output.
  pub forget_worker-Inv : Inv config (forget_worker h r)
  unfolding forget_worker
  forget_worker-Inv = elim (Option-cases (Map.get h r.workers)) [
    | inl e ↦ rw (e, forget_worker) v
    | inr (w, e) ↦ rw (e, forget_worker) (removed-Inv w e)
  ]
