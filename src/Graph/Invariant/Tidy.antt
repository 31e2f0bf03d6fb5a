-- ===== src/Graph/Invariant/Tidy.antt =====
-- What the methods do to the maps of sets: no key twice, and no member.
use attribute_graph.Common.{
  Bool, true, false, Option, none, some, List, [], ◌∷◌, if◌then◌else◌, ◌==◌, IsDistinct, ==-cases,
  inl, inr,
}
use mathlib.Core.Option
use attribute_graph.Common.HashSet
use attribute_graph.Common.HashSet.{HashSet}
use attribute_graph.Common.HashMap
use attribute_graph.Common.HashMap.{HashMap, get-insert, get-modify, get-remove, keys-modify}
use attribute_graph.Common.Distinct.{
  IsDistinct-insert, IsDistinct-remove, IsDistinct-keys-insert, IsDistinct-keys-remove,
}
use attribute_graph.Identity.{NodeId, node_id_key}
use attribute_graph.Graph.State.{AttributeGraph}
use attribute_graph.Graph.Commit.{
  ids_at, entry_insert, detach_one, detach_removed, attach_one, attach_added,
}

pub record IsTidyMap (m : HashMap NodeId (HashSet NodeId)) : Type 0 where
  pub keys : IsDistinct (HashMap.keys m)
  pub sets : (x : NodeId) → IsDistinct (ids_at (HashMap.get m x))

pub forget-IsTidyMap :
    (m : HashMap NodeId (HashSet NodeId)) (d y : NodeId)
    → IsTidyMap m
    → IsTidyMap (HashMap.modify m d (λ ids. HashSet.remove ids y))
forget-IsTidyMap m d y t = record {
  keys = rw (keys-modify m d (λ ids. HashSet.remove ids y)) t.keys;
  sets = λ x.
      rw (get-modify m d (λ ids. HashSet.remove ids y) x)
        (split (HashMap.get m x) (d == x) (t.sets x));
}
  where
    split :
        (o : Option (HashSet NodeId)) (b : Bool)
        → IsDistinct (ids_at o)
        → IsDistinct (ids_at (if b then Option.map (λ ids. HashSet.remove ids y) o else o))
    split none true h = tt
    split none false h = tt
    split (some ids) true h = IsDistinct-remove ids y h
    split (some ids) false h = h

pub entry_insert-IsTidyMap :
    (m : HashMap NodeId (HashSet NodeId)) (d y : NodeId)
    → IsTidyMap m
    → IsTidyMap (entry_insert m d y)
unfolding entry_insert
entry_insert-IsTidyMap m d y t =
    let set = HashSet.insert (ids_at (HashMap.get m d)) y in
    record {
      keys = IsDistinct-keys-insert m d set t.keys;
      sets = λ x. elim (==-cases d x) [
        | inl (same, b) ↦
            rw (get-insert m d set x, b) (IsDistinct-insert (ids_at (HashMap.get m d)) y (t.sets d))
        | inr b ↦ rw (get-insert m d set x, b) (t.sets x)
      ];
    }

pub remove-IsTidyMap :
    (m : HashMap NodeId (HashSet NodeId)) (d : NodeId)
    → IsTidyMap m
    → IsTidyMap (HashMap.remove m d)
remove-IsTidyMap m d t = record {
  keys = IsDistinct-keys-remove m d t.keys;
  sets = λ x. elim (==-cases d x) [
    | inl (same, b) ↦ rw (get-remove m d x, b) tt
    | inr b ↦ rw (get-remove m d x, b) (t.sets x)
  ];
}

pub detach_removed-IsTidyMap :
    (y : NodeId) (ds : List NodeId) (g : AttributeGraph)
    → IsTidyMap g.dependents
    → IsTidyMap (detach_removed y ds g).dependents
unfolding detach_removed detach_one
detach_removed-IsTidyMap y [] g t = t
detach_removed-IsTidyMap y (d ∷ rest) g t =
    detach_removed-IsTidyMap y rest (detach_one y d g) (forget-IsTidyMap g.dependents d y t)

pub attach_added-IsTidyMap :
    (y : NodeId) (ds : List NodeId) (g : AttributeGraph)
    → IsTidyMap g.dependents
    → IsTidyMap (attach_added y ds g).dependents
unfolding attach_added attach_one
attach_added-IsTidyMap y [] g t = t
attach_added-IsTidyMap y (d ∷ rest) g t =
    attach_added-IsTidyMap y rest (attach_one y d g) (entry_insert-IsTidyMap g.dependents d y t)
