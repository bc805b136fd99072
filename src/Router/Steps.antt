-- ===== src/Router/Steps.antt =====
-- router/mod.rs: the critical sections as steps, and the invariant in every state that they reach.
use ida_mcp.Base.{
  ℕ, ◌<◌, ◌≡◌, refl, sym, ap, subst, ◌∙◌, inl, inr, Bool, true, none, some, [], Text, is_some,
  length, count, Option-cases, arith, text_key,
}
use ida_mcp.Base.Map
use ida_mcp.Router.{WorkerProcess, RouterInner, ok, worker_key_key}
use ida_mcp.Router.Bounds.{
  insert-Bounded, with_pending-Bounded, without_pending-Bounded, touched-Bounded,
}
use ida_mcp.Router.Config.{RouterConfig}
use ida_mcp.Router.Invariant.{
  Inv, Inv-of, Bounded, drop_tokens_frame, reset_active_frame, removed-Inv, first_key_open,
  first_key-none, reset_active-Agree,
}
use ida_mcp.Router.Paths.{insert-Paths, modify-Paths}
use ida_mcp.Router.Refs.{tokens_of, add_ref, release_ref_token, release_from}
use ida_mcp.Router.Registry.{set_insert, drop_tokens, reset_active, reader_error}
use ida_mcp.Router.Route.{
  RpcResponse, admit, admit_to, tenant_pending, with_pending, without_pending, deliver,
  answer_pending, touched, touch_worker,
}
use ida_mcp.Router.Spawn.{Spawning, of_tenant, new_worker, register}
use ida_mcp.Router.Tokens.{Agree, Agree-of, add_ref-Agree, drop_tokens-Agree, release-Agree}

module _ (config : RouterConfig) (r : RouterInner) (v : Inv config r) where
  -- A change of the tables of tokens and of the counter.
  same_workers :
      (s : RouterInner)
      → s.workers ≡ r.workers
      → s.path_to_handle ≡ r.path_to_handle
      → s.active ≡ r.active
      → Agree s
      → Inv config s
  same_workers s ew ep ea agree =
      Inv-of config s r.workers r.path_to_handle ew ep v.paths v.bounded agree
        (λ h e. v.active_open h (sym ea ∙ e)) (λ e. v.active_none (sym ea ∙ e))

  still_open :
      (h g : Text)
      → (reset_active h (drop_tokens h r)).active ≡ some g
      → is_some (Map.get g r.workers) ≡ true
  unfolding reset_active
  still_open h g e =
      ground (arith, e, drop_tokens_frame h r, first_key_open r.workers g, v.active_open g)

  still_none : (h : Text) → (reset_active h (drop_tokens h r)).active ≡ none → r.workers ≡ []
  unfolding reset_active
  still_none h e = ground (arith, e, drop_tokens_frame h r, first_key-none r.workers, v.active_none)

  pub reader_error-Inv : (h : Text) → Inv config (reader_error h r).inner
  unfolding reader_error
  reader_error-Inv h = elim (Option-cases (Map.get h r.workers)) [
    | inl e ↦
        let (fw, fp, fa, _) = drop_tokens_frame h r in
        let (sw, sp, _, _) = reset_active_frame h (drop_tokens h r) in
        rw (e, reader_error)
          (Inv-of config (reset_active h (drop_tokens h r)) r.workers r.path_to_handle (sw ∙ fw)
            (sp ∙ fp) v.paths v.bounded
            (reset_active-Agree h (drop_tokens h r) (drop_tokens-Agree h r v.agree)) (still_open h)
            (still_none h))
    | inr (w, e) ↦ rw (e, reader_error) (removed-Inv config h r v w e)
  ]

  pub counted-Inv : (n : ℕ) → Inv config (record r { req_counter = n })
  counted-Inv n =
      same_workers (record r { req_counter = n }) refl refl refl
        (record { to_ref = v.agree.to_ref; from_ref = v.agree.from_ref })

  pub add_ref-Inv :
      (token h : Text) → Map.get token r.token_to_handle ≡ none → Inv config (add_ref token h r)
  unfolding add_ref
  add_ref-Inv token h fresh =
      same_workers (add_ref token h r) refl refl refl (add_ref-Agree token h r v.agree fresh)

  release_frame :
      (token : Text)
      → ((release_ref_token token r).0.workers ≡ r.workers)
        × ((release_ref_token token r).0.path_to_handle ≡ r.path_to_handle)
        × ((release_ref_token token r).0.active ≡ r.active)
  unfolding release_ref_token release_from
  release_frame token = ground arith

  pub release-Inv : (token : Text) → Inv config (release_ref_token token r).0
  release-Inv token =
      let (ew, ep, ea) = release_frame token in
      same_workers _ ew ep ea (release-Agree token r v.agree)

  -- A change of one worker that keeps its tenant and its path, within the bounds.
  modify-Inv :
      (h : Text) (f : WorkerProcess → WorkerProcess)
      → ((w : WorkerProcess) → ((f w).open_path ≡ w.open_path) × ((f w).tenant_id ≡ w.tenant_id))
      → Bounded config (Map.modify h f r.workers)
      → Inv config (record r { workers = Map.modify h f r.workers })
  modify-Inv h f same bounded = record {
    paths = modify-Paths h f r.workers r.path_to_handle same v.paths;
    agree = record { to_ref = v.agree.to_ref; from_ref = v.agree.from_ref };
    active_open = λ g e. ground (arith, v.active_open g e, Map.get-modify h g f r.workers);
    active_none = λ e. rw (v.active_none e);
    bounded = bounded;
  }

  pub admit-Inv :
      (h id : Text) (sender now : ℕ) (written : Bool) (s : RouterInner)
      → admit config h id sender now written r ≡ ok s
      → Inv config s
  unfolding admit admit_to
  admit-Inv h id sender now written s e = elim (Option-cases (Map.get h r.workers)) [
    | inl missing ↦ absurd (ground arith)
    | inr (w, at) ↦
        let result = record r { workers = Map.modify h (with_pending id sender now) r.workers } in
        let (tenant_room, room, same) = admitted w at in
        subst (Inv config) (sym same) (
          modify-Inv h (with_pending id sender now) (λ u. (refl, refl))
            (with_pending-Bounded config h id sender now w r.workers v.bounded at tenant_room room))
  ]
    where
      admitted :
          (w : WorkerProcess)
          → Map.get h r.workers ≡ some w
          → (tenant_pending w.tenant_id r.workers < config.max_pending_per_tenant)
            × (length w.pending < config.max_pending_per_worker)
            × (s ≡ record r { workers = Map.modify h (with_pending id sender now) r.workers })
      admitted w at = ground arith

  answer-Inv :
      (h : Text) (resp : RpcResponse) (w : WorkerProcess) → Inv config (answer_pending h resp w r).0
  unfolding answer_pending
  answer-Inv h resp w = elim (Option-cases (Map.get resp.id w.pending)) [
    | inl unknown ↦ rw (unknown, answer_pending) v
    | inr (sender, known) ↦
        rw (known, answer_pending)
          (modify-Inv h (without_pending resp.id) (λ u. (refl, refl))
            (without_pending-Bounded config h resp.id r.workers v.bounded))
  ]

  pub deliver-Inv : (h : Text) (resp : RpcResponse) → Inv config (deliver h resp r).0
  unfolding deliver
  deliver-Inv h resp = elim (Option-cases (Map.get h r.workers)) [
    | inl missing ↦ rw (missing, deliver) v
    | inr (w, at) ↦ rw (at, deliver) (answer-Inv h resp w)
  ]

  pub touch-Inv : (h : Text) (now : ℕ) → Inv config (touch_worker h now r)
  unfolding touch_worker
  touch-Inv h now =
      modify-Inv h (touched now) (λ u. (refl, refl))
        (touched-Bounded config h now r.workers v.bounded)

  register-Agree :
      (h token : Text) (s : Spawning) (child : ℕ × ℕ)
      → tokens_of h r ≡ []
      → Map.get token r.token_to_handle ≡ none
      → Agree (register h token s child r)
  unfolding register add_ref
  register-Agree h token s child unheld fresh =
      Agree-of (add_ref token h r) (register h token s child r) refl
        (ap (λ ts. Map.insert h (set_insert token ts) r.ref_tokens) (sym unheld))
        (add_ref-Agree token h r v.agree fresh)

  pub register-Inv :
      (h token : Text) (s : Spawning) (child : ℕ × ℕ)
      → Map.get h r.workers ≡ none
      → tokens_of h r ≡ []
      → Map.get token r.token_to_handle ≡ none
      → Map.get s.key r.path_to_handle ≡ none
      → length r.workers < config.max_workers
      → count (of_tenant s.key.tenant_id) r.workers < config.max_workers_per_tenant
      → Inv config (register h token s child r)
  unfolding register
  register-Inv h token s child unused unheld fresh closed room tenant_room = record {
    paths =
        insert-Paths h (new_worker s child token) s.key r.workers r.path_to_handle v.paths unused
          closed refl refl;
    agree = register-Agree h token s child unheld fresh;
    active_open = λ g e. ground (arith, e, Map.get-insert h g (new_worker s child token) r.workers);
    active_none = λ e. cc;
    bounded =
        insert-Bounded config h (new_worker s child token) r.workers v.bounded unused refl room
          tenant_room;
  }
