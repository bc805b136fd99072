-- ===== src/Federation/Requests.antt =====
-- federation.rs: the two requests that are made of a node, `submit_enqueue` and `fetch_remote_task`.
use ida_mcp.Base.{ℕ, none, some, ◌++◌, Text, text, unwrap_or, text_key}
use ida_mcp.Json.{Value}
use ida_mcp.Views.{FederationNodeConfig}
use ida_mcp.Federation.{Fallible, ok, err, Uri, Network}

pub record RemoteDispatchResult : Type 0 where
  pub node : Text
  pub url : Text
  pub response : Value

pub record RemoteTaskStatus : Type 0 where
  pub node : Text
  pub url : Text
  pub task_id : Text
  pub payload : Value

-- What both requests do first: the host and the port of the node's address.
abbrev pub host_of : Uri → Fallible (Text × ℕ)
host_of uri = elim uri.host [
  | none ↦ err (text "missing host in node url")
  | some host ↦ ok (host, unwrap_or uri.port 80)
]

abbrev pub address : Fallible Uri → Fallible (Text × ℕ)
address (err e) = err e
address (ok uri) = host_of uri

abbrev pub map_ok {ℓ} : {A B : Type ℓ} → (A → B) → Fallible A → Fallible B
map_ok f (ok a) = ok (f a)
map_ok f (err e) = err e

abbrev pub post_to :
    Network → FederationNodeConfig → Value → Fallible (Text × ℕ) → Fallible RemoteDispatchResult
post_to net node payload (err e) = err e
post_to net node payload (ok (host, port)) =
    map_ok (λ v. record { node = node.name; url = node.url; response = v })
      (net.post_json host port (text "/enqueuez") payload)

unfoldable pub submit_enqueue :
    Network → FederationNodeConfig → Value → Fallible RemoteDispatchResult
submit_enqueue net node payload = post_to net node payload (address (net.parse node.url))

abbrev pub fetch_from :
    Network → FederationNodeConfig → Text → Fallible (Text × ℕ) → Fallible RemoteTaskStatus
fetch_from net node task_id (err e) = err e
fetch_from net node task_id (ok (host, port)) =
    map_ok (λ v. record { node = node.name; url = node.url; task_id = task_id; payload = v })
      (net.fetch_json host port (text "/taskz/" ++ task_id))

unfoldable pub fetch_remote_task : Network → FederationNodeConfig → Text → Fallible RemoteTaskStatus
fetch_remote_task net node task_id = fetch_from net node task_id (address (net.parse node.url))
