-- ===== src/Router/Answers.antt =====
-- router/mod.rs: a request that `route_request` hands to a worker, and the answer that the reader task
-- delivers for it.
use ida_mcp.Base.{
  ℕ, ◌≡◌, refl, sym, ap, subst, ◌∙◌, inl, inr, Bool, Option, none, some, Text, Option-cases, arith,
  HashMap, text_key,
}
use ida_mcp.Base.Map
use ida_mcp.Json.{Value}
use ida_mcp.Router.{
  ToolError, WorkerProcess, RouterInner, Result, ok, err, Result-cases, worker_key_key,
}
use ida_mcp.Router.Config.{RouterConfig}
use ida_mcp.Router.Route.{
  Sent, RpcResponse, choose_target, next_req_id, timeout_secs, with_pending, without_pending,
  admit_to, admit, with_tables, send_request, answer_of, answer_pending, deliver,
}

-- A request that its worker has not answered yet.
pub record Awaits (h req_id : Text) (sender : ℕ) (s : RouterInner) : Type 0 where
  pub worker : WorkerProcess
  pub there : Map.get h s.workers ≡ some worker
  pub waits : Map.get req_id worker.pending ≡ some sender

admit-Awaits :
    (config : RouterConfig) (h req_id : Text) (sender now : ℕ) (written : Bool) (r s : RouterInner)
    → admit config h req_id sender now written r ≡ ok s
    → Awaits h req_id sender s
unfolding admit admit_to
admit-Awaits config h req_id sender now written r s e = elim (Option-cases (Map.get h r.workers)) [
  | inl gone ↦ absurd (ground arith)
  | inr (w, there) ↦
      let same : record r { workers = Map.modify h (with_pending req_id sender now) r.workers }
          ≡ s =
        ground arith in
      record {
        worker = with_pending req_id sender now w;
        there =
            subst (λ x. Map.get h x.workers ≡ some (with_pending req_id sender now w)) same
              (Map.get-modify_self h (with_pending req_id sender now) w r.workers there);
        waits = Map.get-insert_self req_id sender w.pending;
      }
]

get-remove_self {ℓ} :
    {V : Type ℓ} (k : Text) (m : HashMap Text V) → Map.get k (Map.remove k m) ≡ none
get-remove_self k m = ground (arith, Map.get-remove k k m)

-- The first answer to a pending request goes to its sender, a second one to nobody.
pub deliver_pending :
    (h : Text) (resp again : RpcResponse) (sender : ℕ) (s : RouterInner)
    → again.id ≡ resp.id
    → Awaits h resp.id sender s
    → ((deliver h resp s).1 ≡ some (sender, answer_of resp))
      × ((deliver h again (deliver h resp s).0).1 ≡ none)
unfolding deliver answer_pending
deliver_pending h resp again sender s same a =
    let after = Map.get-modify_self h (without_pending resp.id) a.worker s.workers a.there in
    let gone : Map.get again.id (Map.remove resp.id a.worker.pending) ≡ none =
      subst (λ i. Map.get i (Map.remove resp.id a.worker.pending) ≡ none) (sym same)
        (get-remove_self resp.id a.worker.pending) in
    rw (a.there, deliver)
      (rw (a.waits, answer_pending) (refl, rw (after, deliver) (rw (gone, answer_pending) refl)))

pub with_tables_ok :
    (counted : RouterInner) (sent known : Sent) (result : Result RouterInner)
    → (with_tables counted known result).1 ≡ ok sent
    → (known ≡ sent) × (result ≡ ok ((with_tables counted known result).0))
with_tables_ok counted sent known (ok after) e = (ground arith, refl)
with_tables_ok counted sent known (err problem) e = absurd (ground arith)

-- A request that was sent waits for its answer.
pub send_request-Awaits :
    (config : RouterConfig) (handle : Option Text) (method : Text) (params : Value) (sender now : ℕ)
    (written : Bool) (r : RouterInner) (sent : Sent)
    → (send_request config handle method params sender now written r).1 ≡ ok sent
    → Awaits sent.target sent.req_id sender
        (send_request config handle method params sender now written r).0
unfolding send_request
send_request-Awaits config handle method params sender now written r sent e =
    elim (Result-cases (choose_target handle r)) [
      | inr (problem, chosen) ↦
          let clash : Result.err problem ≡ ok sent =
            sym (ap (λ p. p.1) (refuses problem chosen)) ∙ e in
          absurd (ground arith)
      | inl (target, chosen) ↦
          let (counted, req_id) = next_req_id r in
          let result = admit config target req_id sender now written counted in
          let known : Sent = record {
            target = target;
            req_id = req_id;
            timeout = timeout_secs method params;
          } in
          let (which, admitted) =
            with_tables_ok counted sent known result
              (sym (ap (λ p. p.1) (sends target chosen)) ∙ e) in
          let after = (with_tables counted known result).0 in
          rw (sends target chosen) (
            subst (λ s. Awaits s.target s.req_id sender after) which
              (admit-Awaits config target req_id sender now written counted after admitted))
    ]
  where
    refuses :
        (problem : ToolError)
        → choose_target handle r ≡ err problem
        → send_request config handle method params sender now written r ≡ (r, err problem)
    refuses problem chosen = rw (chosen, send_request) refl

    sends :
        (target : Text)
        → choose_target handle r ≡ ok target
        → send_request config handle method params sender now written r
          ≡ with_tables
              (next_req_id r).0
              (record {
                target = target;
                req_id = (next_req_id r).1;
                timeout = timeout_secs method params;
              })
              (admit config target (next_req_id r).1 sender now written (next_req_id r).0)
    sends target chosen = rw (chosen, send_request) refl
