-- ===== src/Router/Close.antt =====
-- router/mod.rs: what `close_worker` leaves behind, and what a reference token is good for.
use ida_mcp.Base.{
  ◌<◌, ◌&&◌, ◌≡◌, ◌≢◌, refl, sym, ap, ◌∙◌, inl, inr, true, false, not, none, some, [], ◌∷◌, map,
  Text, text_eq, is_some, length, filter, any, Option-cases, arith, HashMap, text_key,
}
use ida_mcp.Base.Map
use ida_mcp.Router.{WorkerKey, WorkerProcess, RouterInner, worker_key_key}
use ida_mcp.Router.Config.{RouterConfig}
use ida_mcp.Router.Invariant.{Inv, drop_tokens_frame, reset_active_frame, forget_worker-Inv}
use ida_mcp.Router.Refs.{tokens_of, release_ref_token, release_from, handle_for_token}
use ida_mcp.Router.Registry.{
  RouterState, WarmLease, senders, set_remove, remove_worker, drop_tokens, forget_worker,
  close_worker,
}
use ida_mcp.Router.Tokens.{Agree, holds, holds-set_remove, length-set_remove_lt, drop_tokens_none}

pub get-forget_worker_self :
    (h : Text) (r : RouterInner) → Map.get h (forget_worker h r).workers ≡ none
unfolding forget_worker
get-forget_worker_self h r = elim (Option-cases (Map.get h r.workers)) [
  | inl e ↦ rw (e, forget_worker) e
  | inr (w, e) ↦
      rw (e, forget_worker)
        (ap (Map.get h) (
            (reset_active_frame h (drop_tokens h (remove_worker h w r))).0
            ∙ (drop_tokens_frame h (remove_worker h w r)).0)
          ∙ removed w)
]
  where
    removed : (w : WorkerProcess) → Map.get h (remove_worker h w r).workers ≡ none
    removed w = unfold remove_worker in ground (arith, Map.get-remove h h r.workers)

-- The tables have nothing of the worker `h`.
pub record Gone (h : Text) (s : RouterState) : Type 0 where
  pub no_worker : Map.get h s.inner.workers ≡ none
  pub no_path : (k : WorkerKey) → Map.get k s.inner.path_to_handle ≢ some h
  pub no_token : (t : Text) → handle_for_token t s.inner ≢ some h
  pub not_active : s.inner.active ≢ some h
  pub no_lease : any (λ (path, lease). text_eq lease.handle h) s.warm_pool ≡ false

retained :
    (h : Text) (m : HashMap Text WarmLease)
    → any
        (λ (path, lease). text_eq lease.handle h)
        (filter (λ (path, lease). not (text_eq lease.handle h)) m)
      ≡ false
retained h [] = refl
retained h ((path, lease) ∷ m) = ground (arith, retained h m)

remove_worker-Agree :
    (h : Text) (w : WorkerProcess) (r : RouterInner) → Agree r → Agree (remove_worker h w r)
unfolding remove_worker
remove_worker-Agree h w r v = record { to_ref = v.to_ref; from_ref = v.from_ref }

no_token_left :
    (h t : Text) (r : RouterInner)
    → Agree r
    → is_some (Map.get h r.workers) ≡ true
    → Map.get t (forget_worker h r).token_to_handle ≢ some h
unfolding forget_worker
no_token_left h t r v there = elim (Option-cases (Map.get h r.workers)) [
  | inl e ↦ absurd (ground arith)
  | inr (w, e) ↦
      rw (e, forget_worker)
        (λ at.
          let gone = remove_worker h w r in
          let (_, _, same, _) = reset_active_frame h (drop_tokens h gone) in
          drop_tokens_none h t gone (remove_worker-Agree h w r v) (sym (ap (Map.get t) same) ∙ at))
]

-- After close_worker of a worker that is there, in a state that satisfies the invariant, no
-- table has anything of it (workers, paths, tokens, active handle, warm pool), and those who
-- waited for an answer of the worker have one.
pub close_worker-Gone :
    (config : RouterConfig) (h : Text) (w : WorkerProcess) (s : RouterState)
    → Inv config s.inner
    → Map.get h s.inner.workers ≡ some w
    → Gone h (close_worker h s).state × ((close_worker h s).answered ≡ map (λ (id, c). c) w.pending)
unfolding close_worker handle_for_token
close_worker-Gone config h w s v there =
    let after = forget_worker-Inv config h s.inner v in
    let none_left = get-forget_worker_self h s.inner in
    (
      record {
        no_worker = none_left;
        no_path = λ k at. ground (arith, after.paths.path_open k h at);
        no_token = λ t. no_token_left h t s.inner v.agree (ap is_some there);
        not_active = λ at. ground (arith, after.active_open h at);
        no_lease = retained h s.warm_pool;
      },
      ap senders there,
    )

get-remove_self : (t : Text) (m : HashMap Text Text) → Map.get t (Map.remove t m) ≡ none
get-remove_self t m = ground (arith, Map.get-remove t t m)

-- Where the tables of tokens agree, the release of a token that is known takes that token, and
-- no other, out of the references of its handle, of which there are fewer then, and gives the
-- handle and how many are left; the token leads nowhere from then on, so that a second release
-- answers nothing, and every other token leads where it did, and every other handle has the
-- references that it had.
pub release_ref_token_lem :
    (token h : Text) (r : RouterInner)
    → Agree r
    → handle_for_token token r ≡ some h
    → let (after, released) = release_ref_token token r in
      (released ≡ some (h, length (tokens_of h after)))
      × (handle_for_token token after ≡ none)
      × ((release_ref_token token after).1 ≡ none)
      × ((t : Text) → token ≢ t → handle_for_token t after ≡ handle_for_token t r)
      × (length (tokens_of h after) < length (tokens_of h r))
      × ((t : Text)
          → holds t (tokens_of h after) ≡ (not (text_eq token t) && holds t (tokens_of h r)))
      × ((g : Text) → h ≢ g → tokens_of g after ≡ tokens_of g r)
unfolding release_ref_token release_from handle_for_token
release_ref_token_lem token h r v at = elim (Option-cases (Map.get h r.ref_tokens)) [
  | inl unheld ↦ absurd (ground (arith, v.to_ref token h at))
  | inr (ts, held) ↦
      rw (at, release_ref_token)
        (rw (held, release_from)
          (
            ground (arith, Map.get-insert h h (set_remove token ts) r.ref_tokens),
            ground (arith, Map.get-remove token token r.token_to_handle),
            rw (get-remove_self token r.token_to_handle) refl,
            λ t other. ground (arith, Map.get-remove token t r.token_to_handle),
            ground (
              arith,
              held,
              v.to_ref token h at,
              Map.get-insert h h (set_remove token ts) r.ref_tokens,
              length-set_remove_lt token ts,
            ),
            λ t. ground (
              arith,
              held,
              Map.get-insert h h (set_remove token ts) r.ref_tokens,
              holds-set_remove t token ts,
            ),
            λ g other. ground (arith, Map.get-insert h g (set_remove token ts) r.ref_tokens),
          ))
]
