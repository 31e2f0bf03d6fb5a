-- ===== src/Subgraph.antt =====
-- src/subgraph.rs
use attribute_graph.Common.{Option, List, sort}
use attribute_graph.Common.HashSet.{HashSet}
use attribute_graph.Identity.{NodeId, SubgraphId, node_id_key, subgraph_id_key}

pub record Subgraph : Type 0 where
  pub id : SubgraphId
  pub parent : Option SubgraphId
  pub children : HashSet SubgraphId
  pub nodes : HashSet NodeId

unfoldable pub children : Subgraph → List SubgraphId
unfolding sort
children subgraph = sort subgraph.children

unfoldable pub nodes : Subgraph → List NodeId
unfolding sort
nodes subgraph = sort subgraph.nodes

pub record SubgraphRemoval : Type 0 where
  pub subgraphs : List SubgraphId
  pub nodes : List NodeId
  pub dirtied_dependents : List NodeId
