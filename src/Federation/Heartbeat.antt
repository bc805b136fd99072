-- ===== src/Federation/Heartbeat.antt =====
-- router/mod.rs: the operations on the table of nodes, and when a node that sends heartbeats expires.
use ida_mcp.Base.{
  ℕ, ℕ_discrete, ◌-◌, ◌≡◌, ◌≢◌, refl, Option, some, List, [], ◌∷◌, Text, text, text_discrete,
  unwrap_or, ltb, All, arith, text_key,
}
use ida_mcp.Base.Map
use ida_mcp.Base.Map.{HasUniqueKeys}
use ida_mcp.Federation.{FederationNodeRecord, new, touch, is_stale}
use ida_mcp.Federation.Table.{
  Nodes, collect_nodes, load_node_map_from_env, register_federation_node, heartbeat_federation_node,
  unregister_federation_node,
}
use ida_mcp.Views.{FederationNodeConfig}

-- After a heartbeat, whatever the node was before, its record has the configuration that was
-- sent, it is stale exactly when more than the limit has passed since, and every other node is
-- as it was.
pub heartbeat_federation_node_lem :
    (node : FederationNodeConfig) (now : ℕ) (iso : Text) (nodes : Nodes)
    → let after = heartbeat_federation_node node now iso nodes in
      ((r : FederationNodeRecord) × (Map.get node.name after ≡ some r)
        × (r.config ≡ node)
        × ((ttl later : ℕ) → is_stale ttl later r ≡ ltb ttl (later - now)))
      × ((name : Text) → node.name ≢ name → Map.get name after ≡ Map.get name nodes)
unfolding heartbeat_federation_node is_stale text_discrete ℕ_discrete
heartbeat_federation_node_lem node now iso nodes = (
  (
    touched,
    Map.get-insert_self node.name touched (Map.remove node.name nodes),
    refl,
    λ ttl later. refl,
  ),
  λ name other. ground (
    arith,
    Map.get-insert node.name name touched (Map.remove node.name nodes),
    Map.get-remove node.name name nodes,
  ),
)
  where
    touched : FederationNodeRecord
    touched =
        touch now iso (record (unwrap_or (Map.get node.name nodes) (new node (text "heartbeat"))) {
          config = node;
          source = text "heartbeat";
        })

-- The calls on the table.
pub data NodeCall : Type 0 where
  registers : FederationNodeConfig → NodeCall
  heartbeats : FederationNodeConfig → ℕ → Text → NodeCall
  unregisters : Text → NodeCall

unfoldable pub node_step : NodeCall → Nodes → Nodes
unfolding register_federation_node heartbeat_federation_node unregister_federation_node
node_step (registers node) nodes = (register_federation_node node nodes).0
node_step (heartbeats node now iso) nodes = heartbeat_federation_node node now iso nodes
node_step (unregisters name) nodes = (unregister_federation_node name nodes).0

abbrev pub run_nodes : List NodeCall → Nodes → Nodes
run_nodes [] nodes = nodes
run_nodes (c ∷ cs) nodes = run_nodes cs (node_step c nodes)

-- A node stands once, under its own name.
pub record IsTable (nodes : Nodes) : Type 0 where
  pub unique : HasUniqueKeys nodes
  pub named : All (λ e. e.1.config.name ≡ e.0) nodes

insert-IsTable :
    (name : Text) (r : FederationNodeRecord) (nodes : Nodes)
    → r.config.name ≡ name
    → IsTable nodes
    → IsTable (Map.insert name r nodes)
insert-IsTable name r nodes e t = record {
  unique = Map.insert-HasUniqueKeys name r nodes t.unique;
  named = Map.All-insert _ name r nodes e t.named;
}

remove-IsTable : (name : Text) (nodes : Nodes) → IsTable nodes → IsTable (Map.remove name nodes)
remove-IsTable name nodes t = record {
  unique = Map.remove-HasUniqueKeys name nodes t.unique;
  named = Map.All-remove _ name nodes t.named;
}

collect_nodes-IsTable :
    (loaded : List FederationNodeConfig) (nodes : Nodes)
    → IsTable nodes
    → IsTable (collect_nodes loaded nodes)
collect_nodes-IsTable [] nodes t = t
collect_nodes-IsTable (node ∷ rest) nodes t =
    collect_nodes-IsTable rest (Map.insert node.name (new node (text "static")) nodes)
      (insert-IsTable node.name _ nodes refl t)

node_step-IsTable : (c : NodeCall) (nodes : Nodes) → IsTable nodes → IsTable (node_step c nodes)
unfolding node_step register_federation_node heartbeat_federation_node unregister_federation_node
node_step-IsTable (registers node) nodes t = insert-IsTable node.name _ nodes refl t
node_step-IsTable (heartbeats node now iso) nodes t =
    insert-IsTable node.name _ (Map.remove node.name nodes) refl (remove-IsTable node.name nodes t)
node_step-IsTable (unregisters name) nodes t = remove-IsTable name nodes t

run_nodes-of : (cs : List NodeCall) (nodes : Nodes) → IsTable nodes → IsTable (run_nodes cs nodes)
run_nodes-of [] nodes t = t
run_nodes-of (c ∷ cs) nodes t = run_nodes-of cs (node_step c nodes) (node_step-IsTable c nodes t)

-- From the nodes that the configuration file has, any sequence of registrations, heartbeats
-- and removals leaves a table in which a node stands once, under its own name.
pub run_nodes-IsTable :
    (loaded : Option (List FederationNodeConfig)) (cs : List NodeCall)
    → IsTable (run_nodes cs (load_node_map_from_env loaded))
unfolding load_node_map_from_env
run_nodes-IsTable loaded cs =
    run_nodes-of cs _
      (collect_nodes-IsTable (unwrap_or loaded []) [] (record { unique = tt; named = tt }))
