-- ===== src/Federation.antt =====
-- federation.rs: the nodes that work can be sent to, what a probe finds of them, and the choice among
-- those that are ready. What other nodes answer, and how their addresses are taken apart, is an argument.
pub mod Choice
pub mod Dispatch
pub mod Heartbeat
pub mod Poll
pub mod Ranks
pub mod Requests
pub mod Sent
pub mod Table
pub mod Tests
use ida_mcp.Base.{
  ℕ, ◌+◌, ◌-◌, ◌*◌, max, Bool, true, false, not, ◌&&◌, ◌||◌, Option, none, some, List, [], ◌∷◌,
  ◌++◌, map, Text, text, text_eq, decimal, filter, unwrap_or, ltb, if◌then◌else◌, parse_u64,
  HashMap, text_key,
}
use ida_mcp.Base.Map
use ida_mcp.Base.Sort.{sort}
use ida_mcp.Json
use ida_mcp.Json.{Value, len, as_array, as_bool, as_str, as_u64}
use ida_mcp.Views.{FederationNodeConfig, supports_request}

pub record FederationNodeStatus (F : Type 0) : Type 0 where
  pub name : Text
  pub url : Text
  pub enabled : Bool
  pub source : Text
  pub last_seen_iso : Option Text
  pub capabilities : List Text
  pub tenant_allow : List Text
  pub node_id : Option Text
  pub healthy : Bool
  pub ready : Bool
  pub worker_count : Option ℕ
  pub max_workers : Option ℕ
  pub route_queue_depth : Option ℕ
  pub prewarm_queue_depth : Option ℕ
  pub load_score : Option F
  pub detail : Text
  pub stale : Bool

pub record FederationNodeRecord : Type 0 where
  pub config : FederationNodeConfig
  pub source : Text
  pub last_seen_at : Option ℕ
  pub last_seen_iso : Option Text

abbrev pub new : FederationNodeConfig → Text → FederationNodeRecord
new config source = record {
  config = config;
  source = source;
  last_seen_at = none;
  last_seen_iso = none;
}

-- `Instant::now` and the text of the wall clock are arguments.
abbrev pub touch : ℕ → Text → FederationNodeRecord → FederationNodeRecord
touch now iso r = record r { last_seen_at = some now; last_seen_iso = some iso }

-- In nanoseconds, as instants are; the text is that of the variable, if it is set.
unfoldable pub heartbeat_ttl : Option Text → ℕ
unfolding parse_u64
heartbeat_ttl var = 1000000000 * unwrap_or (elim var [ none ↦ none | some v ↦ parse_u64 v ]) 30

-- A result whose error is a text.
pub data Fallible {ℓ} (A : Type ℓ) : Type ℓ where
  ok : A → Fallible A
  err : Text → Fallible A

abbrev pub to_option {ℓ} : {A : Type ℓ} → Fallible A → Option A
to_option (ok a) = some a
to_option (err e) = none

pub record Uri : Type 0 where
  pub scheme : Option Text
  pub host : Option Text
  pub port : Option ℕ

-- `hyper::Uri` and the HTTP calls, by host, port and path.
pub record Network : Type 0 where
  pub parse : Text → Fallible Uri
  pub fetch_json : Text → ℕ → Text → Fallible Value
  pub post_json : Text → ℕ → Text → Value → Fallible Value

-- `f64`, and whether `partial_cmp` answers `Greater`.
pub record Float (F : Type 0) : Type 0 where
  pub of_nat : ℕ → F
  pub divide : F → F → F
  pub plus : F → F → F
  pub recip : F → F
  pub is_greater : F → F → Bool

abbrev pub count_at : Text → Option Value → Option ℕ
count_at key none = none
count_at key (some v) = elim (Json.get key v) [ none ↦ none | some w ↦ as_u64 w ]

abbrev pub depth_of : Option Value → Option ℕ
depth_of none = none
depth_of (some w) = elim (as_array w) [ none ↦ none | some vs ↦ some (len vs) ]

abbrev pub depth_at : Text → Option Value → Option ℕ
depth_at key none = none
depth_at key (some v) = depth_of (Json.get key v)

abbrev pub bool_or_false : Option Value → Bool
bool_or_false none = false
bool_or_false (some w) = unwrap_or (as_bool w) false

abbrev pub is_ok : Option Value → Bool
is_ok none = false
is_ok (some v) = bool_or_false (Json.get (text "ok") v)

-- Every early return of `probe_record`.
abbrev pub unready :
    {F : Type 0} → Bool → Text → Bool → FederationNodeRecord → FederationNodeStatus F
unready enabled detail stale r = record {
  name = r.config.name;
  url = r.config.url;
  enabled = enabled;
  source = r.source;
  last_seen_iso = r.last_seen_iso;
  capabilities = r.config.capabilities;
  tenant_allow = r.config.tenant_allow;
  node_id = r.config.node_id;
  healthy = false;
  ready = false;
  worker_count = none;
  max_workers = none;
  route_queue_depth = none;
  prewarm_queue_depth = none;
  load_score = none;
  detail = detail;
  stale = stale;
}

abbrev pub is_http : Option Text → Bool
is_http none = false
is_http (some s) = text_eq s (text "http")

abbrev pub has_expired : ℕ → ℕ → Option ℕ → Bool
has_expired ttl now none = true
has_expired ttl now (some seen) = ltb ttl (now - seen)

unfoldable pub is_stale : ℕ → ℕ → FederationNodeRecord → Bool
is_stale ttl now r = text_eq r.source (text "heartbeat") && has_expired ttl now r.last_seen_at

abbrev pub or_zero : Option ℕ → ℕ
or_zero n = unwrap_or n 0

module _ {F : Type 0} (float : Float F) where
  abbrev pub worker_score : Option ℕ → Option ℕ → Option F
  worker_score none m = none
  worker_score (some current) none = none
  worker_score (some current) (some m) =
      if ltb 0 m then some (float.divide (float.of_nat current) (float.of_nat m)) else none

  abbrev pub penalty : Option ℕ → F
  penalty depth = float.divide (float.of_nat (or_zero depth)) (float.of_nat 100)

  unfoldable pub compute_load_score : Option ℕ → Option ℕ → Option ℕ → Option ℕ → Option F
  compute_load_score worker_count max_workers route_queue_depth prewarm_queue_depth =
      elim (worker_score worker_count max_workers) [
        | none ↦ none
        | some score ↦ some (
            float.plus (float.plus score (penalty route_queue_depth)) (penalty prewarm_queue_depth))
      ]

  unfoldable pub node_rank : FederationNodeConfig → FederationNodeStatus F → F
  node_rank node status =
      float.plus (unwrap_or status.load_score (float.of_nat 10))
        (float.recip (float.of_nat (max node.weight 1)))

  -- The rest of `probe_record`, once there is a host to ask.
  unfoldable pub asked : Option Value → Bool → Bool → FederationNodeRecord → FederationNodeStatus F
  unfolding compute_load_score
  asked statusz healthy ready r =
      let worker_count = count_at (text "worker_count") statusz in
      let max_workers = count_at (text "max_workers") statusz in
      let route_queue_depth = depth_at (text "route_queue") statusz in
      let prewarm_queue_depth = depth_at (text "prewarm_queue") statusz in
      record {
        name = r.config.name;
        url = r.config.url;
        enabled = true;
        source = r.source;
        last_seen_iso = r.last_seen_iso;
        capabilities = r.config.capabilities;
        tenant_allow = r.config.tenant_allow;
        node_id = r.config.node_id;
        healthy = healthy;
        ready = ready;
        worker_count = worker_count;
        max_workers = max_workers;
        route_queue_depth = route_queue_depth;
        prewarm_queue_depth = prewarm_queue_depth;
        load_score =
            compute_load_score worker_count max_workers route_queue_depth prewarm_queue_depth;
        detail = if healthy || ready then text "ok" else text "unreachable or unhealthy";
        stale = false;
      }

  abbrev pub answer_of : Network → Text → ℕ → Text → Option Value
  answer_of net host port path = to_option (net.fetch_json host port path)

  abbrev pub probe_host : Network → Uri → FederationNodeRecord → FederationNodeStatus F
  probe_host net uri r = elim uri.host [
    | none ↦ unready true (text "missing host") false r
    | some host ↦
        let port = unwrap_or uri.port 80 in
        asked (answer_of net host port (text "/statusz"))
          (is_ok (answer_of net host port (text "/healthz")))
          (is_ok (answer_of net host port (text "/readyz"))) r
  ]

  abbrev pub probe_uri : Network → Fallible Uri → FederationNodeRecord → FederationNodeStatus F
  probe_uri net (err e) r = unready true (text "invalid url: " ++ e) false r
  probe_uri net (ok uri) r =
      if is_http uri.scheme
      then probe_host net uri r
      else unready true (text "only http federation urls are currently supported") false r

  unfoldable pub probe_record : Network → ℕ → ℕ → FederationNodeRecord → FederationNodeStatus F
  unfolding is_stale asked
  probe_record net ttl now r =
      if not r.config.enabled
      then unready false (text "disabled") false r
      else if is_stale ttl now r
      then unready true (text "heartbeat expired") true r
      else probe_uri net (net.parse r.config.url) r

  unfoldable pub probe_nodes :
      Network → ℕ → ℕ → List FederationNodeRecord → List (FederationNodeStatus F)
  unfolding probe_record
  probe_nodes net ttl now = map (probe_record net ttl now)

  -- `filter_map`: the nodes whose probe is ready, with what it found.
  abbrev pub push_ready :
      FederationNodeConfig
      → FederationNodeStatus F
      → List (FederationNodeConfig × FederationNodeStatus F)
      → List (FederationNodeConfig × FederationNodeStatus F)
  push_ready node status rest = if status.ready then (node, status) ∷ rest else rest

  unfoldable pub ready_nodes :
      Network
      → ℕ
      → ℕ
      → List FederationNodeRecord
      → List (FederationNodeConfig × FederationNodeStatus F)
  unfolding probe_record
  ready_nodes net ttl now [] = []
  ready_nodes net ttl now (r ∷ rs) =
      push_ready r.config (probe_record net ttl now r) (ready_nodes net ttl now rs)

  abbrev pub ranks_before :
      FederationNodeConfig × FederationNodeStatus F
      → FederationNodeConfig × FederationNodeStatus F
      → Bool
  ranks_before x y = not (float.is_greater (node_rank x.0 x.1) (node_rank y.0 y.1))

  unfoldable pub choose_ready_nodes :
      Network
      → ℕ
      → ℕ
      → Option Text
      → Option Text
      → List FederationNodeRecord
      → List FederationNodeConfig
  unfolding ready_nodes node_rank sort supports_request
  choose_ready_nodes net ttl now method tenant nodes =
      map (λ (node, status). node)
        (sort ranks_before (
          ready_nodes net ttl now (
            filter (λ r. supports_request r.config method tenant)
              (filter (λ r. r.config.enabled) nodes))))

  abbrev pub first {ℓ} : {A : Type ℓ} → List A → Option A
  first [] = none
  first (x ∷ xs) = some x

  unfoldable pub choose_ready_node :
      Network
      → ℕ
      → ℕ
      → Option Text
      → Option Text
      → List FederationNodeRecord
      → Option FederationNodeConfig
  unfolding choose_ready_nodes
  choose_ready_node net ttl now method tenant nodes =
      first (choose_ready_nodes net ttl now method tenant nodes)
