-- ===== src/Examples/Values.antt =====
-- Values, graph ids and command lines: the theorems at examples.
use attribute_graph.Common.{
  ◌++◌, ◌∷◌, [], none, String, ◌≡◌, ◌↔◌, false, some, arith, IsDistinct, nat_key, List, ap, refl,
}
use attribute_graph.Diff.Args.{
  dot, subgraph, parsed, refused, unknown_argument, unknown_format, unknown_scenario,
  default_options, parse_args,
}
use attribute_graph.Diff.Args.Spelled.{
  Flag, IsNoFlag, apart_format, joined_scenario, spell_all, apply_all, parse_args-spell_all,
}
use attribute_graph.Identity.{node_id_key, GraphId}
use attribute_graph.Identity.Fresh.{graph_ids, graph_ids-IsDistinct}
use attribute_graph.Dependency.{edge_key}
use package.text.Mathlib.Text.{◌==◌ as str_eq}
use attribute_graph.Value.{bytewise, meaningfully_changed_from, unchanged_iff}
use attribute_graph.Value.Bytes.{big, InI64}
use attribute_graph.Value.Convert.{bool_value, i64_value, string_value}
use attribute_graph.Value.RoundTrip.{Faithful, AnyValue, attribute_values-Faithful}
use attribute_graph.Examples.{seven, eight}

unchanged_example :
    (meaningfully_changed_from seven (some eight) ≡ false)
    ↔ ((seven ≡ eight) × (seven.comparison ≡ bytewise))
unchanged_example = unchanged_iff seven eight

attribute_values_example :
    Faithful AnyValue bool_value × Faithful InI64 (i64_value big) × Faithful AnyValue string_value
attribute_values_example = attribute_values-Faithful big

graph_ids_example : (ids : List GraphId) × (graph_ids 3 1 ≡ some ids) × IsDistinct ⦃k = nat_key⦄ ids
graph_ids_example = graph_ids-IsDistinct 3 1 (omega arith)

abbrev flags : List Flag
flags = joined_scenario subgraph ∷ apart_format dot ∷ []

parse_args_example :
    (parse_args (spell_all flags) ≡ parsed (some (apply_all flags default_options)))
    × ((rest : List String)
        → (parse_args (spell_all flags ++ "-h" ∷ rest) ≡ parsed none)
          × (parse_args (spell_all flags ++ "--help" ∷ rest) ≡ parsed none))
    × (parse_args (spell_all flags ++ "--format" ∷ []) ≡ refused (unknown_format "<missing>"))
    × (parse_args (spell_all flags ++ "--scenario" ∷ []) ≡ refused (unknown_scenario "<missing>"))
    × ((arg : String) (rest : List String)
        → IsNoFlag arg
        → parse_args (spell_all flags ++ arg ∷ rest) ≡ refused (unknown_argument arg))
parse_args_example = parse_args-spell_all flags

-- There are arguments that are no flags.
verbose-IsNoFlag : IsNoFlag "--verbose"
verbose-IsNoFlag = record {
  no_help = (λ e. cc (ap (λ s. str_eq s "-h") e), λ e. cc (ap (λ s. str_eq s "--help") e));
  no_option =
      (λ e. cc (ap (λ s. str_eq s "--format") e), λ e. cc (ap (λ s. str_eq s "--scenario") e));
  no_joined = (refl, refl);
}
