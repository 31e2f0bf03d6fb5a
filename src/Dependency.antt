-- ===== src/Dependency.antt =====
-- src/dependency.rs
use attribute_graph.Common.{
  ◌≡◌, ap, Bool, Option, none, some, List, [], Key, pair_key, key_by, pair_beq, pair_lt, ◌==◌, ◌&&◌,
  refl, sort,
}
use attribute_graph.Common.HashSet.{HashSet}
use attribute_graph.Identity.{NodeId, node_id_key}

pub record Edge : Type 0 where
  pub dependency : NodeId
  pub dependent : NodeId

abbrev edge_fields : Edge → NodeId × NodeId
edge_fields edge = (edge.dependency, edge.dependent)

edge_injective : (a b : Edge) → edge_fields a ≡ edge_fields b → a ≡ b
edge_injective a b e =
    ap
      (λ (p : NodeId × NodeId).
        let edge : Edge = record { dependency = p.0; dependent = p.1 } in edge)
      e

instance unfoldable pub edge_key : Key Edge
unfolding node_id_key edge_injective pair_beq pair_lt
edge_key = key_by edge_fields edge_injective (pair_key node_id_key node_id_key)

abbrev pub edge : NodeId → NodeId → Edge
edge dependency dependent = record { dependency = dependency; dependent = dependent }

pub data EdgeState : Type 0 where
  inactive settled pending : EdgeState

pub record DependencyChangeSet : Type 0 where
  pub added : List NodeId
  pub removed : List NodeId
  pub retained : List NodeId

pub record UpdateOutcome : Type 0 where
  pub dependency_changes : DependencyChangeSet
  pub value_changed : Bool
  pub dirtied_dependents : List NodeId

abbrev pub no_update : UpdateOutcome
no_update = record {
  dependency_changes = record { added = []; removed = []; retained = [] };
  value_changed = Bool.false;
  dirtied_dependents = [];
}

unfoldable pub sorted_ids : Option (HashSet NodeId) → List NodeId
unfolding sort
sorted_ids none = []
sorted_ids (some ids) = sort ids

pub edge_key_lem : (a b c d : NodeId) → (edge a b == edge c d) ≡ ((a == c) && (b == d))
unfolding edge_key
edge_key_lem a b c d = refl
