-- ===== src/Diff/Render/Scopes.antt =====
-- diff/src/render.rs: what the two graph formats share, the walk over the nested subgraphs. A snapshot whose
-- subgraphs contain each other in a circle has no end of nesting; `none` is the end of the fuel.
use attribute_graph.Common.{
  ℕ, zero, suc, Bool, true, false, not, ◌&&◌, Option, none, some, List, [], ◌∷◌, map, String,
  if◌then◌else◌, is_some, length,
}
use attribute_graph.Common.HashMap
use attribute_graph.Common.Format.{◌<>◌, concat_all}
use attribute_graph.Identity.{NodeId, SubgraphId, node_id_key, subgraph_id_key}
use attribute_graph.Diff.Snapshot.{GraphSnapshot, NodeSnapshot, SubgraphSnapshot}

abbrev pub ◌<?>◌ : Option String → Option String → Option String
none <?> b = none
(some a) <?> none = none
(some a) <?> (some b) = some (a <> b)

infixr 64 ◌<?>◌
-- What a loop writes whose rounds may run out of fuel.
unfoldable pub write_all : {A : Type 0} → (A → Option String) → List A → Option String
write_all write [] = some ""
write_all write (x ∷ xs) = write x <?> write_all write xs

abbrev pub no_entries : {A : Type 0} → List A → Bool
no_entries [] = true
no_entries (_ ∷ _) = false

-- Whether the node or subgraph stands outside the subgraphs of the snapshot.
abbrev pub outside : GraphSnapshot → Option SubgraphId → Bool
outside snapshot none = true
outside snapshot (some id) = not (is_some (HashMap.get snapshot.subgraphs id))

abbrev pub if_any : Bool → String → String
if_any true text = text
if_any false text = ""

module _ (snapshot : GraphSnapshot) (opening : SubgraphSnapshot → String → String → String)
    (node_lines : NodeSnapshot → String → String) (placeholder : SubgraphSnapshot → String → String)
    (closing : String → String) where
  abbrev scope_nodes : String → List NodeId → String
  scope_nodes indent [] = ""
  scope_nodes indent (id ∷ rest) =
      (elim (HashMap.get snapshot.nodes id) [ none ↦ "" | some node ↦ node_lines node indent ])
      <> scope_nodes indent rest

  -- A subgraph, with its nodes, its children, and a mark if it has neither.
  unfoldable pub render_subgraph : ℕ → String → SubgraphSnapshot → Option String
  unfolding write_all
  render_subgraph zero indent subgraph = none
  render_subgraph (suc fuel) indent subgraph =
      let child_indent = indent <> "  " in
      some (opening subgraph indent child_indent <> scope_nodes child_indent subgraph.nodes)
      <?> write_all
          (λ child. elim (HashMap.get snapshot.subgraphs child) [
            | none ↦ some ""
            | some inner ↦ render_subgraph fuel child_indent inner
          ])
          subgraph.children
      <?> some (
          if_any (no_entries subgraph.nodes && no_entries subgraph.children)
            (placeholder subgraph child_indent)
          <> closing indent)

  -- The nodes and the subgraphs at the top. As many levels as there are subgraphs.
  unfoldable pub render_scopes : String → Option String
  render_scopes indent =
      some (
        concat_all (
          map
            (λ (node : NodeSnapshot).
              if_any (outside snapshot node.subgraph_id) (node_lines node indent))
            (HashMap.values snapshot.nodes)))
      <?> write_all
          (λ (subgraph : SubgraphSnapshot).
            if outside snapshot subgraph.parent
            then render_subgraph (length snapshot.subgraphs) indent subgraph
            else some "")
          (HashMap.values snapshot.subgraphs)
