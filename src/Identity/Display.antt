-- ===== src/Identity/Display.antt =====
-- src/identity.rs: how ids are shown.
use attribute_graph.Common.{String}
use attribute_graph.Common.Format.{◌<>◌, decimal}
use attribute_graph.Identity.{GraphId, NodeId, SubgraphId}

unfoldable pub show_graph_id : GraphId → String
unfolding decimal
show_graph_id id = "g" <> decimal id

unfoldable pub show_node_id : NodeId → String
unfolding show_graph_id
show_node_id id = show_graph_id id.graph <> ":n" <> decimal id.local

unfoldable pub show_subgraph_id : SubgraphId → String
unfolding show_graph_id
show_subgraph_id id = show_graph_id id.graph <> ":s" <> decimal id.local
