-- ===== src/Router/Frames.antt =====
-- router/mod.rs: a request, a release and a renaming leave the table of paths as it is.
use ida_mcp.Base.{
  ℕ, ◌≡◌, refl, ◌∙◌, inl, inr, Bool, true, false, Option, none, some, Text, text, arith, text_key,
}
use ida_mcp.Json.{Value}
use ida_mcp.Router.{RouterInner, Result, Result-cases, ok, err, worker_key_key}
use ida_mcp.Router.Config.{RouterConfig}
use ida_mcp.Router.Entry.{
  entry_address, hex_address, graph_params, process_instruction, rename_params,
}
use ida_mcp.Router.Ensure.{
  Renaming, value_of, name_params, rename_chosen, rename_in, rename_at, rename_entry, after_open,
  Waited, answered, channel_closed, timed_out, Exchange, await_answer, route_request,
}
use ida_mcp.Router.Refs.{release_ref_token, release_from}
use ida_mcp.Router.Route.{
  Sent, RpcResponse, admit, admit_to, choose_target, next_req_id, with_tables, send_request,
  answer_pending, deliver,
}

module _ (config : RouterConfig) where
  -- The table of paths is not changed by a request or a release.
  deliver_path :
      (h : Text) (resp : RpcResponse) (inner : RouterInner)
      → (deliver h resp inner).0.path_to_handle ≡ inner.path_to_handle
  unfolding deliver answer_pending
  deliver_path h resp inner = ground arith

  await_answer_path :
      (waited : Waited) (p : RouterInner × Result Sent)
      → (await_answer waited p).0.path_to_handle ≡ p.0.path_to_handle
  await_answer_path (answered resp) (inner, err e) = refl
  await_answer_path channel_closed (inner, err e) = refl
  await_answer_path timed_out (inner, err e) = refl
  await_answer_path (answered resp) (inner, ok sent) =
      deliver_path sent.target (record resp { id = sent.req_id }) inner
  await_answer_path channel_closed (inner, ok sent) = refl
  await_answer_path timed_out (inner, ok sent) = refl

  with_tables_path :
      (counted inner : RouterInner) (sent : Sent) (h id : Text) (sender now : ℕ) (written : Bool)
      → counted.path_to_handle ≡ inner.path_to_handle
      → (with_tables counted sent (admit config h id sender now written counted)).0.path_to_handle
        ≡ inner.path_to_handle
  unfolding admit admit_to
  with_tables_path counted inner sent h id sender now written same = ground arith

  send_request_path :
      (handle : Option Text) (method : Text) (params : Value) (sender now : ℕ) (written : Bool)
      (inner : RouterInner)
      → (send_request config handle method params sender now written inner).0.path_to_handle
        ≡ inner.path_to_handle
  unfolding send_request next_req_id
  send_request_path handle method params sender now written inner =
      elim (Result-cases (choose_target handle inner)) [
        | inr (e, no_target) ↦ rw (no_target, send_request) refl
        | inl (target, e) ↦
            rw (e, send_request)
              (with_tables_path (next_req_id inner).0 inner _ target (next_req_id inner).1 sender
                now written refl)
      ]

  pub route_request_path :
      (handle : Option Text) (method : Text) (params : Value) (x : Exchange) (inner : RouterInner)
      → (route_request config handle method params x inner).0.path_to_handle ≡ inner.path_to_handle
  unfolding route_request
  route_request_path handle method params x inner =
      await_answer_path x.waited
        (send_request config handle method params x.sender x.now x.written inner)
      ∙ send_request_path handle method params x.sender x.now x.written inner

  pub release_ref_token_path :
      (token : Text) (inner : RouterInner)
      → (release_ref_token token inner).0.path_to_handle ≡ inner.path_to_handle
  unfolding release_ref_token release_from
  release_ref_token_path token inner = ground arith

  rename_chosen_path :
      (h : Text) (x : Exchange) (inner : RouterInner) (o : Option Text)
      → (rename_chosen config h x inner o).path_to_handle ≡ inner.path_to_handle
  rename_chosen_path h x inner none = refl
  rename_chosen_path h x inner (some pi_hex) =
      route_request_path (some h) (text "rename_symbol") (rename_params pi_hex) x inner

  rename_in_path :
      (h : Text) (x : Renaming) (ep_hex : Text) (p : RouterInner × Result Value)
      → (rename_in config h x ep_hex p).path_to_handle ≡ p.0.path_to_handle
  rename_in_path h x ep_hex (inner, err e) = refl
  rename_in_path h x ep_hex (inner, ok callgraph) =
      rename_chosen_path h x.renamed inner (process_instruction ep_hex callgraph)

  rename_at_path :
      (h : Text) (x : Renaming) (inner : RouterInner) (o : Option ℕ)
      → (rename_at config h x inner o).path_to_handle ≡ inner.path_to_handle
  rename_at_path h x inner none = refl
  rename_at_path h x inner (some ep) =
      rename_in_path h x (hex_address ep) (
        route_request config (some h) (text "build_callgraph") (graph_params (hex_address ep))
          x.graphed inner)
      ∙ route_request_path (some h) (text "build_callgraph") (graph_params (hex_address ep))
          x.graphed inner

  rename_entry_path :
      (h : Text) (x : Renaming) (inner : RouterInner)
      → (rename_entry config h x inner).path_to_handle ≡ inner.path_to_handle
  unfolding rename_entry
  rename_entry_path h x inner =
      let p =
        route_request config (some h) (text "get_function_by_name") name_params x.named inner in
      rename_at_path h x p.0 (entry_address (value_of p.1))
      ∙ route_request_path (some h) (text "get_function_by_name") name_params x.named inner

  pub after_open_path :
      (h : Text) (x : Renaming) (sbpf : Bool) (inner : RouterInner)
      → (after_open config h x sbpf inner).path_to_handle ≡ inner.path_to_handle
  unfolding after_open
  after_open_path h x true inner = rename_entry_path h x inner
  after_open_path h x false inner = refl
