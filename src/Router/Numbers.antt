-- ===== src/Router/Numbers.antt =====
-- router/mod.rs: the numbers of requests while requests are sent and answered.
use ida_mcp.Base.{
  ℕ, suc, ◌+◌, ◌^◌, ◌<◌, ◌≡◌, ◌≢◌, ◌⊎◌, refl, sym, subst, ◌∙◌, inl, inr, Bool, Option, none, some,
  List, [], ◌∷◌, Text, text_discrete, length, All, Option-cases, arith, text_key,
}
use ida_mcp.Base.Map
use ida_mcp.Json.{Value}
use ida_mcp.Router.{RouterInner, Result, ok, err, Result-cases}
use ida_mcp.Router.Answers.{Awaits, send_request-Awaits, deliver_pending}
use ida_mcp.Router.Config.{RouterConfig}
use ida_mcp.Router.Numbered.{
  IsBelow, IsNumberedAt, IsNumbered, Kept, same-Kept, counted-Kept, with_pending-Kept,
}
use ida_mcp.Router.Route.{
  Sent, RpcResponse, choose_target, next_req_id, timeout_secs, with_pending, without_pending,
  admit_to, admit, with_tables, send_request, answer_of, answer_pending, deliver,
}

-- A call of the router on a worker that runs: a request, or a line of a worker that answers one.
pub data Traffic : Type 0 where
  asks : Option Text → Text → Value → ℕ → ℕ → Bool → Traffic
  answers : Text → RpcResponse → Traffic

unfoldable pub traffic_step : RouterConfig → Traffic → RouterInner → RouterInner
traffic_step config (asks handle method params sender now written) r =
    (send_request config handle method params sender now written r).0
traffic_step config (answers h resp) r = (deliver h resp r).0

unfoldable pub run_traffic : RouterConfig → List Traffic → RouterInner → RouterInner
run_traffic config [] r = r
run_traffic config (t ∷ ts) r = run_traffic config ts (traffic_step config t r)

-- The tables after an admission.
admit_shape :
    (config : RouterConfig) (target req_id : Text) (sender now : ℕ) (written : Bool)
    (r s : RouterInner)
    → admit config target req_id sender now written r ≡ ok s
    → record r { workers = Map.modify target (with_pending req_id sender now) r.workers } ≡ s
unfolding admit admit_to
admit_shape config target req_id sender now written r s e =
    elim (Option-cases (Map.get target r.workers)) [
      | inl gone ↦ absurd (ground arith)
      | inr (w, there) ↦ ground arith
    ]

module _ (config : RouterConfig) (r : RouterInner) (v : IsNumbered r) (h id : Text)
    (sender : ℕ) where
  -- A request, sent or refused.
  asks-Kept :
      (handle : Option Text) (method : Text) (params : Value) (other now : ℕ) (written : Bool)
      → suc r.req_counter < 2 ^ 64
      → Kept h id sender r (send_request config handle method params other now written r).0
  unfolding send_request next_req_id
  asks-Kept handle method params other now written room =
      elim (Result-cases (choose_target handle r)) [
        | inr (problem, chosen) ↦ rw (chosen, send_request) (same-Kept r v h id sender)
        | inl (target, chosen) ↦
            rw (chosen, send_request)
              (tabled target
                (record {
                  target = target;
                  req_id = (next_req_id r).1;
                  timeout = timeout_secs method params;
                })
                (admit config target (next_req_id r).1 other now written (next_req_id r).0) refl)
      ]
    where
      tabled :
          (target : Text) (known : Sent) (result : Result RouterInner)
          → admit config target (next_req_id r).1 other now written (next_req_id r).0 ≡ result
          → Kept h id sender r (with_tables (next_req_id r).0 known result).0
      tabled target known (err e) same = counted-Kept r v h id sender room
      tabled target known (ok after) same =
          subst (Kept h id sender r)
            (admit_shape config target (next_req_id r).1 other now written (next_req_id r).0 after
              same)
            (with_pending-Kept r v h id sender room target other now)

  -- A line that answers another request, or none.
  answers-Kept :
      (g : Text) (resp : RpcResponse)
      → (g ≢ h) ⊎ (resp.id ≢ id)
      → Kept h id sender r (deliver g resp r).0
  unfolding deliver answer_pending IsNumbered
  answers-Kept g resp other = elim (Option-cases (Map.get g r.workers)) [
    | inl gone ↦ rw (gone, deliver) (same-Kept r v h id sender)
    | inr (w, there) ↦ elim (Option-cases (Map.get resp.id w.pending)) [
      | inl unknown ↦ rw (there, deliver) (rw (unknown, answer_pending) (same-Kept r v h id sender))
      | inr (asker, known) ↦
          rw (there, deliver)
            (rw (known, answer_pending)
              (record {
                numbers =
                    Map.All-modify (IsNumberedAt r.req_counter) g (without_pending resp.id)
                      r.workers
                      (λ j u below. Map.All-remove (IsBelow r.req_counter) resp.id u.pending below)
                      v;
                counts = omega arith;
                waits = λ a. waiting a (text_discrete g h);
              }))
    ]
  ]
    where
      waiting :
          Awaits h id sender r
          → Dec (g ≡ h)
          → Awaits h id sender
              (record r { workers = Map.modify g (without_pending resp.id) r.workers })
      waiting a (yes here) =
          let f = without_pending resp.id in
          record {
            worker = f a.worker;
            there =
                subst (λ t. Map.get h (Map.modify t f r.workers) ≡ some (f a.worker)) (sym here)
                  (Map.get-modify_self h f a.worker r.workers a.there);
            waits =
                ground (arith, a.waits, here, other, Map.get-remove resp.id id a.worker.pending);
          }
      waiting a (no elsewhere) =
          let f = without_pending resp.id in
          record {
            worker = a.worker;
            there = ground (arith, a.there, Map.get-modify g h f r.workers);
            waits = a.waits;
          }

-- Traffic that is not an answer to the request `id` of `h`.
abbrev pub IsOther : Text → Text → Traffic → Type 0
IsOther h id (asks handle method params sender now written) = Unit
IsOther h id (answers g resp) = (g ≢ h) ⊎ (resp.id ≢ id)

step-Kept :
    (config : RouterConfig) (t : Traffic) (r : RouterInner) (h id : Text) (sender : ℕ)
    → IsNumbered r
    → suc r.req_counter < 2 ^ 64
    → IsOther h id t
    → Kept h id sender r (traffic_step config t r)
unfolding traffic_step
step-Kept config (asks handle method params other now written) r h id sender v room tt =
    asks-Kept config r v h id sender handle method params other now written room
step-Kept config (answers g resp) r h id sender v room other =
    answers-Kept config r v h id sender g resp other

run_kept :
    (config : RouterConfig) (ts : List Traffic) (r : RouterInner) (h id : Text) (sender : ℕ)
    → IsNumbered r
    → r.req_counter + length ts < 2 ^ 64
    → All (IsOther h id) ts
    → Awaits h id sender r
    → IsNumbered (run_traffic config ts r) × Awaits h id sender (run_traffic config ts r)
unfolding run_traffic
run_kept config [] r h id sender v room others a = (v, a)
run_kept config (t ∷ ts) r h id sender v room others a =
    let k = step-Kept config t r h id sender v (omega (arith, room)) others.0 in
    run_kept config ts (traffic_step config t r) h id sender k.numbers
      (omega (arith, room, k.counts)) others.1 (k.waits a)

-- In a state whose pending requests were all numbered before the counter, and as long as the
-- counter does not wrap: after a request has been sent, and any other requests have been sent
-- or refused and answered, to whichever workers, each call of send_request with no other task
-- in between, the first response of its worker under its number goes to its own sender, a
-- second one under that number to nobody, and all that is pending was numbered before the
-- counter again.
pub run_traffic-deliver :
    (config : RouterConfig) (handle : Option Text) (method : Text) (params : Value) (sender now : ℕ)
    (written : Bool) (r : RouterInner) (sent : Sent) (between : List Traffic)
    (resp again : RpcResponse)
    → IsNumbered r
    → suc (r.req_counter + length between) < 2 ^ 64
    → (send_request config handle method params sender now written r).1 ≡ ok sent
    → All (IsOther sent.target sent.req_id) between
    → resp.id ≡ sent.req_id
    → again.id ≡ sent.req_id
    → let later =
        run_traffic config between
          (send_request config handle method params sender now written r).0 in
      let (answered, told) = deliver sent.target resp later in
      (told ≡ some (sender, answer_of resp))
      × ((deliver sent.target again answered).1 ≡ none)
      × IsNumbered later
run_traffic-deliver config handle method params sender now written r sent between resp again v room
      e others same twice =
    let after = (send_request config handle method params sender now written r).0 in
    let first =
      asks-Kept config r v sent.target sent.req_id sender handle method params sender now written
        (omega (arith, room)) in
    let (numbers, waits) =
      run_kept config between after sent.target sent.req_id sender first.numbers
        (omega (arith, room, first.counts)) others
        (send_request-Awaits config handle method params sender now written r sent e) in
    let (told, second) =
      deliver_pending sent.target resp again sender (run_traffic config between after)
        (twice ∙ sym same)
        (subst (λ i. Awaits sent.target i sender (run_traffic config between after)) (sym same)
          waits) in
    (told, second, numbers)
