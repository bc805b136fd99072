-- ===== src/Router/Evict.antt =====
-- router/mod.rs: the loop of `spawn_worker` that closes idle workers for a new one.
use ida_mcp.Base.{
  ℕ, zero, suc, ◌≤◌, ◌<◌, ◌≡◌, ◌≢◌, refl, sym, ap, subst, ◌∙◌, ◌⊎◌, inl, inr, Bool, true, false,
  none, some, List, [], ◌∷◌, Text, length, filter, All, All-×, All-filter, leb, ltb, Bool-cases,
  Option-cases, arith, HashMap, text_key,
}
use ida_mcp.Base.Map
use ida_mcp.Base.Map.{HasUniqueKeys}
use ida_mcp.Router.{WorkerProcess, RouterInner, worker_key_key}
use ida_mcp.Router.Config.{RouterConfig}
use ida_mcp.Router.Invariant.{drop_tokens_frame, reset_active_frame}
use ida_mcp.Router.Refs.{tokens_of}
use ida_mcp.Router.Registry.{
  RouterState, is_handle, remove_worker, drop_tokens, reset_active, forget_worker, close_worker,
}
use ida_mcp.Router.Spawn.{
  min_by, ref_count, is_drained, is_evictable, idle_since, eviction_candidate, evict_loop,
  evict_idle,
}

pub min_by-All {κ} :
    {A : Type 0} (P : A → Type κ) (key : A → ℕ) (xs : List A) (x : A)
    → All P xs
    → min_by key xs ≡ some x
    → P x
min_by-All P key [] x h e = absurd (ground arith)
min_by-All P key (y ∷ xs) x h e = elim (Option-cases (min_by key xs)) [
  | inl none_left ↦ let same : y ≡ x = ground arith in subst P same h.0
  | inr (z, least) ↦ elim (Bool-cases (leb (key y) (key z))) [
    | inl first ↦ let same : y ≡ x = ground arith in subst P same h.0
    | inr later ↦ let same : z ≡ x = ground arith in subst P same (min_by-All P key xs z h.1 least)
  ]
]

pub min_by-none : {A : Type 0} (key : A → ℕ) (xs : List A) → min_by key xs ≡ none → xs ≡ []
min_by-none key [] e = refl
min_by-none key (x ∷ xs) e = absurd (ground arith)

filter-holds : {A : Type 0} (p : A → Bool) (xs : List A) → All (λ x. p x ≡ true) (filter p xs)
filter-holds p [] = tt
filter-holds p (x ∷ xs) = ground (arith, filter-holds p xs)

filter_none :
    {A : Type 0} (p : A → Bool) (xs : List A) → filter p xs ≡ [] → All (λ x. p x ≡ false) xs
filter_none p [] e = tt
filter_none p (x ∷ xs) e = ground (arith, filter_none p xs)

-- The candidate is a worker, idle, with no reference, and not the active one.
candidate_lem :
    (config : RouterConfig) (r : RouterInner) (g : Text) (u : WorkerProcess)
    → HasUniqueKeys r.workers
    → eviction_candidate config r ≡ some (g, u)
    → (Map.get g r.workers ≡ some u) × (is_evictable r (g, u) ≡ true)
unfolding eviction_candidate
candidate_lem config r g u unique e =
    elim (Bool-cases (ltb (length r.workers) config.max_workers)) [
      | inl roomy ↦ absurd (ground arith)
      | inr full ↦
          min_by-All (λ x. (Map.get x.0 r.workers ≡ some x.1) × (is_evictable r x ≡ true))
            idle_since (filter (is_evictable r) r.workers) (g, u)
            (All-× (λ x. Map.get x.0 r.workers ≡ some x.1) (λ x. is_evictable r x ≡ true) _
              (All-filter _ (is_evictable r) r.workers (Map.All-get_self r.workers unique))
              (filter-holds (is_evictable r) r.workers))
            (ground arith)
    ]

-- What closing the worker `g`, which is not active, does to another one.
record Spared (h : Text) (r s : RouterInner) : Type 0 where
  worker : Map.get h s.workers ≡ Map.get h r.workers
  tokens : Map.get h s.ref_tokens ≡ Map.get h r.ref_tokens
  active : s.active ≡ r.active

drop_tokens_other :
    (g h : Text) (r : RouterInner)
    → g ≢ h
    → Map.get h (drop_tokens g r).ref_tokens ≡ Map.get h r.ref_tokens
unfolding drop_tokens
drop_tokens_other g h r other = elim (Option-cases (Map.get g r.ref_tokens)) [
  | inl e ↦ rw (e, drop_tokens) refl
  | inr (ts, e) ↦ rw (e, drop_tokens) (ground (arith, Map.get-remove g h r.ref_tokens))
]

reset_active_idle :
    (g : Text) (r : RouterInner) → is_handle r.active g ≡ false → reset_active g r ≡ r
unfolding reset_active
reset_active_idle g r idle = rw idle

forget_worker-Spared :
    (g h : Text) (u : WorkerProcess) (r : RouterInner)
    → Map.get g r.workers ≡ some u
    → g ≢ h
    → is_handle r.active g ≡ false
    → Spared h r (forget_worker g r)
unfolding forget_worker remove_worker
forget_worker-Spared g h u r there other idle =
    let gone = remove_worker g u r in
    let (fw, fp, fa, fc) = drop_tokens_frame g gone in
    let stays : is_handle (drop_tokens g gone).active g ≡ false =
      ap (λ a. is_handle a g) fa ∙ idle in
    rw (there, forget_worker)
      (rw (reset_active_idle g (drop_tokens g gone) stays) (record {
        worker = ap (Map.get h) fw ∙ ground (arith, Map.get-remove g h r.workers);
        tokens = drop_tokens_other g h gone other;
        active = fa;
      }))

forget_worker-workers :
    (g : Text) (u : WorkerProcess) (r : RouterInner)
    → Map.get g r.workers ≡ some u
    → (forget_worker g r).workers ≡ Map.remove g r.workers
unfolding forget_worker remove_worker
forget_worker-workers g u r there =
    let gone = remove_worker g u r in
    rw (there, forget_worker)
      ((reset_active_frame g (drop_tokens g gone)).0 ∙ (drop_tokens_frame g gone).0)

-- Only what is spared of `h` decides whether it can be evicted.
is_evictable-Spared :
    (h : Text) (w : WorkerProcess) (r s : RouterInner)
    → Spared h r s
    → is_evictable s (h, w) ≡ is_evictable r (h, w)
is_evictable-Spared h w r s spared = rw (spared.tokens, spared.active)

Spared-trans : (h : Text) (r s t : RouterInner) → Spared h r s → Spared h s t → Spared h r t
Spared-trans h r s t v w = record {
  worker = w.worker ∙ v.worker;
  tokens = w.tokens ∙ v.tokens;
  active = w.active ∙ v.active;
}

module _ (config : RouterConfig) where
  -- One round of the loop.
  round :
      (s : RouterState) (g : Text) (u : WorkerProcess)
      → HasUniqueKeys s.inner.workers
      → Map.get g s.inner.workers ≡ some u
      → HasUniqueKeys (close_worker g s).state.inner.workers
        × (length (close_worker g s).state.inner.workers < length s.inner.workers)
  unfolding close_worker
  round s g u unique there =
      let same = forget_worker-workers g u s.inner there in
      (
        subst HasUniqueKeys (sym same) (Map.remove-HasUniqueKeys g s.inner.workers unique),
        subst (λ ws. length ws < length s.inner.workers) (sym same)
            (Map.length-remove_lt g u s.inner.workers there),
      )

  spare_round :
      (s : RouterState) (g h : Text) (u w : WorkerProcess)
      → HasUniqueKeys s.inner.workers
      → eviction_candidate config s.inner ≡ some (g, u)
      → Map.get h s.inner.workers ≡ some w
      → is_evictable s.inner (h, w) ≡ false
      → Spared h s.inner (close_worker g s).state.inner
  unfolding close_worker
  spare_round s g h u w unique chosen there kept =
      let (at, idle) = candidate_lem config s.inner g u unique chosen in
      forget_worker-Spared g h u s.inner at
        (λ same. absurd (
          contra (subst (λ k. Map.get k s.inner.workers ≡ some u) same at)
            (subst (λ k. is_evictable s.inner (k, u) ≡ true) same idle)))
        (ground arith)
    where
      contra : Map.get h s.inner.workers ≡ some u → is_evictable s.inner (h, u) ≡ true → ⊥
      contra at idle =
          let same : u ≡ w = ground arith in
          let hit : is_evictable s.inner (h, w) ≡ true =
            subst (λ x. is_evictable s.inner (h, x) ≡ true) same idle in
          absurd (ground arith)

  loop-Spared :
      (fuel : ℕ) (s : RouterState) (h : Text) (w : WorkerProcess)
      → HasUniqueKeys s.inner.workers
      → Map.get h s.inner.workers ≡ some w
      → is_evictable s.inner (h, w) ≡ false
      → Spared h s.inner (evict_loop fuel config s).inner
  unfolding evict_loop
  loop-Spared zero s h w unique there kept = record { worker = refl; tokens = refl; active = refl }
  loop-Spared (suc fuel) s h w unique there kept =
      elim (Option-cases (eviction_candidate config s.inner)) [
        | inl e ↦ rw (e, evict_loop) (record { worker = refl; tokens = refl; active = refl })
        | inr ((g, u), e) ↦
            let (at, idle) = candidate_lem config s.inner g u unique e in
            let spared = spare_round s g h u w unique e there kept in
            let after = (close_worker g s).state in
            rw (e, evict_loop)
              (Spared-trans h s.inner after.inner _ spared (
                loop-Spared fuel after h w (round s g u unique at).0 (spared.worker ∙ there)
                  (is_evictable-Spared h w s.inner after.inner spared ∙ kept)))
      ]

  loop_done :
      (fuel : ℕ) (s : RouterState)
      → HasUniqueKeys s.inner.workers
      → length s.inner.workers ≤ fuel
      → eviction_candidate config (evict_loop fuel config s).inner ≡ none
  unfolding evict_loop
  loop_done zero s unique enough = elim (Option-cases (eviction_candidate config s.inner)) [
    | inl e ↦ e
    | inr ((g, u), e) ↦
        let (at, idle) = candidate_lem config s.inner g u unique e in
        absurd (omega (arith, enough, Map.length-remove_lt g u s.inner.workers at))
  ]
  loop_done (suc fuel) s unique enough = elim (Option-cases (eviction_candidate config s.inner)) [
    | inl e ↦ rw (e, evict_loop) e
    | inr ((g, u), e) ↦
        let (at, idle) = candidate_lem config s.inner g u unique e in
        let (unique', less) = round s g u unique at in
        rw (e, evict_loop) (loop_done fuel (close_worker g s).state unique' (omega arith))
  ]

drained_short : (m : HashMap Text ℕ) → is_drained m ≡ true → 1 ≤ length m → ⊥
drained_short [] drained busy = absurd (omega (arith, busy))
drained_short (p ∷ m) drained busy = absurd (ground arith)

used_kept :
    (h : Text) (w : WorkerProcess) (r : RouterInner)
    → (1 ≤ ref_count h r) ⊎ ((1 ≤ length w.pending) ⊎ (r.active ≡ some h))
    → is_evictable r (h, w) ≡ false
used_kept h w r (inl referred) = ground arith
used_kept h w r (inr (inl busy)) = elim (Bool-cases (is_drained w.pending)) [
  | inl drained ↦ absurd (drained_short w.pending drained busy)
  | inr full ↦ ground arith
]
used_kept h w r (inr (inr active)) = ground (arith, active)

candidate_none :
    (config : RouterConfig) (r : RouterInner)
    → eviction_candidate config r ≡ none
    → (length r.workers < config.max_workers) ⊎ All (λ x. is_evictable r x ≡ false) r.workers
unfolding eviction_candidate
candidate_none config r e = elim (Bool-cases (ltb (length r.workers) config.max_workers)) [
  | inl roomy ↦ inl (ground arith)
  | inr full ↦ inr (
      filter_none (is_evictable r) r.workers
        (min_by-none idle_since (filter (is_evictable r) r.workers) (ground arith)))
]

-- Where handles are unique, the eviction loop leaves a worker that has a reference, a pending
-- request, or that is the active one as it is, with its references and the active handle.
pub evict_idle-get_used :
    (config : RouterConfig) (s : RouterState) (h : Text) (w : WorkerProcess)
    → HasUniqueKeys s.inner.workers
    → Map.get h s.inner.workers ≡ some w
    → (1 ≤ ref_count h s.inner) ⊎ ((1 ≤ length w.pending) ⊎ (s.inner.active ≡ some h))
    → let after = (evict_idle config s).inner in
      (Map.get h after.workers ≡ some w)
      × (tokens_of h after ≡ tokens_of h s.inner)
      × (after.active ≡ s.inner.active)
unfolding evict_idle
evict_idle-get_used config s h w unique there used =
    let kept : is_evictable s.inner (h, w) ≡ false = used_kept h w s.inner used in
    let spared = loop-Spared config (length s.inner.workers) s h w unique there kept in
    (spared.worker ∙ there, ground (arith, spared.tokens), spared.active)

-- Where handles are unique, the eviction loop ends within as many rounds as there are workers,
-- and then there is room for a worker or none that may be evicted.
pub evict_idle_done :
    (config : RouterConfig) (s : RouterState)
    → HasUniqueKeys s.inner.workers
    → let after = (evict_idle config s).inner in
      (length after.workers < config.max_workers)
      ⊎ All (λ x. is_evictable after x ≡ false) after.workers
unfolding evict_idle
evict_idle_done config s unique =
    candidate_none config (evict_idle config s).inner
      (loop_done config (length s.inner.workers) s unique (omega arith))
