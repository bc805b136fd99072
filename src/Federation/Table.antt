-- ===== src/Federation/Table.antt =====
-- router/mod.rs and federation.rs: the table of nodes, read from a file, and its three operations.
use ida_mcp.Base.{
  ℕ, Bool, true, false, Option, none, some, List, [], ◌∷◌, Text, text, unwrap_or, HashMap, text_key,
}
use ida_mcp.Base.Map
use ida_mcp.Views.{FederationNodeConfig}
use ida_mcp.Federation.{FederationNodeRecord, new, touch}

-- The table of nodes of the router, by name: what `load_nodes` reads, and the three operations.
abbrev pub Nodes : Type 0
Nodes = HashMap Text FederationNodeRecord

abbrev pub collect_nodes : List FederationNodeConfig → Nodes → Nodes
collect_nodes [] nodes = nodes
collect_nodes (node ∷ rest) nodes =
    collect_nodes rest (Map.insert node.name (new node (text "static")) nodes)

-- The nodes of the file that the environment names, if it names one that can be read.
unfoldable pub load_node_map_from_env : Option (List FederationNodeConfig) → Nodes
load_node_map_from_env loaded = collect_nodes (unwrap_or loaded []) []

abbrev pub is_there : Option FederationNodeRecord → Bool
is_there none = false
is_there (some r) = true

unfoldable pub register_federation_node : FederationNodeConfig → Nodes → Nodes × Bool
register_federation_node node nodes =
    (Map.insert node.name (new node (text "dynamic")) nodes, is_there (Map.get node.name nodes))

unfoldable pub heartbeat_federation_node : FederationNodeConfig → ℕ → Text → Nodes → Nodes
heartbeat_federation_node node now iso nodes =
    let old = unwrap_or (Map.get node.name nodes) (new node (text "heartbeat")) in
    Map.insert node.name (touch now iso (record old { config = node; source = text "heartbeat" }))
      (Map.remove node.name nodes)

unfoldable pub unregister_federation_node : Text → Nodes → Nodes × Bool
unregister_federation_node name nodes = (Map.remove name nodes, is_there (Map.get name nodes))
