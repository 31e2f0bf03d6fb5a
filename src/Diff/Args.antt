-- ===== src/Diff/Args.antt =====
-- diff/src/main.rs: the command line. Running the scenarios and printing are not part of it.
pub mod Spelled
use attribute_graph.Common.{
  ℕ, zero, suc, Bool, true, false, ◌||◌, List, [], ◌∷◌, Option, none, some, String, if◌then◌else◌,
}
use Prim.Native.String.{len, slice}
use package.text.Mathlib.Text.{◌==◌ as str_eq, starts_with}
use attribute_graph.Error.{GraphError}
use attribute_graph.Error.Display.{show_error}
use attribute_graph.Common.Format.{◌<>◌}
use attribute_graph.Diff.Snapshot.{GraphSnapshot}
use attribute_graph.Diff.Timeline.{DiffSession, latest_snapshot}

pub data OutputFormat : Type 0 where
  text mermaid dot all : OutputFormat

pub data Scenario : Type 0 where
  basic same_output conditional subgraph : Scenario

pub record CliOptions : Type 0 where
  pub format : OutputFormat
  pub scenario : Scenario

pub data CliError : Type 0 where
  graph : GraphError → CliError
  missing_latest_snapshot : CliError
  unknown_argument : String → CliError
  unknown_format : String → CliError
  unknown_scenario : String → CliError

-- `{:?}` of a text goes by tables of Unicode and is a parameter.
unfoldable pub show_cli_error : (String → String) → CliError → String
unfolding show_error
show_cli_error debug (graph error) = show_error error
show_cli_error debug missing_latest_snapshot = "diff session did not produce a snapshot"
show_cli_error debug (unknown_argument argument) = "unknown argument " <> debug argument
show_cli_error debug (unknown_format format) = "unknown format " <> debug format
show_cli_error debug (unknown_scenario scenario) = "unknown scenario " <> debug scenario

-- `Result<A, CliError>`
pub data Parsed (A : Type 0) : Type 0 where
  parsed : A → Parsed A
  refused : CliError → Parsed A

abbrev pub and_parse : {A B : Type 0} → Parsed A → (A → Parsed B) → Parsed B
and_parse (parsed a) f = f a
and_parse (refused e) f = refused e

unfoldable pub ensure_session_has_snapshots : DiffSession → Parsed Unit
unfolding latest_snapshot
ensure_session_has_snapshots session = elim (latest_snapshot session) [
  | none ↦ refused missing_latest_snapshot
  | some _ ↦ parsed tt
]

unfoldable pub parse_format : String → Parsed OutputFormat
parse_format value =
    if str_eq value "text"
    then parsed text
    else if str_eq value "mermaid"
    then parsed mermaid
    else if str_eq value "dot"
    then parsed dot
    else if str_eq value "all"
    then parsed all
    else refused (unknown_format value)

unfoldable pub parse_scenario : String → Parsed Scenario
parse_scenario value =
    if str_eq value "basic"
    then parsed basic
    else if str_eq value "same-output"
    then parsed same_output
    else if str_eq value "conditional"
    then parsed conditional
    else if str_eq value "subgraph"
    then parsed subgraph
    else refused (unknown_scenario value)

unfoldable pub scenario_name : Scenario → String
scenario_name basic = "basic"
scenario_name same_output = "same-output"
scenario_name conditional = "conditional"
scenario_name subgraph = "subgraph"

-- `str::trim_start_matches` takes the prefix off as often as it stands there; a prefix that is not empty
-- makes the text shorter, so the length is a bound on the rounds.
trim_rounds : String → ℕ → String → String
trim_rounds prefix zero value = value
trim_rounds prefix (suc rounds) value = elim (starts_with value prefix) [
  | true ↦ trim_rounds prefix rounds (slice value (len prefix) (len value))
  | false ↦ value
]

unfoldable pub trim_start_matches : String → String → String
unfolding trim_rounds
trim_start_matches value prefix = trim_rounds prefix (len value) value

-- Which arm of the `match` an argument takes.
pub data Argument : Type 0 where
  help format_next scenario_next other : Argument
  format_value scenario_value : String → Argument

unfoldable pub argument : String → Argument
unfolding trim_start_matches
argument arg =
    if str_eq arg "-h" || str_eq arg "--help"
    then help
    else if str_eq arg "--format"
    then format_next
    else if starts_with arg "--format="
    then format_value (trim_start_matches arg "--format=")
    else if str_eq arg "--scenario"
    then scenario_next
    else if starts_with arg "--scenario="
    then scenario_value (trim_start_matches arg "--scenario=")
    else other

abbrev pub with_format : OutputFormat → CliOptions → CliOptions
with_format format options = record options { format = format }

abbrev pub with_scenario : Scenario → CliOptions → CliOptions
with_scenario scenario options = record options { scenario = scenario }

-- What the next argument is taken for: one of its own, or the value that an arm asks for by `args.next()`.
pub data Awaited : Type 0 where
  nothing a_format a_scenario : Awaited

-- The loop over the arguments.
unfoldable pub parse_from : Awaited → List String → CliOptions → Parsed (Option CliOptions)
unfolding argument parse_format parse_scenario
parse_from nothing [] options = parsed (some options)
parse_from a_format [] options = refused (unknown_format "<missing>")
parse_from a_scenario [] options = refused (unknown_scenario "<missing>")
parse_from nothing (arg ∷ rest) options = elim (argument arg) [
  | help ↦ parsed none
  | format_next ↦ parse_from a_format rest options
  | scenario_next ↦ parse_from a_scenario rest options
  | other ↦ refused (unknown_argument arg)
  | format_value value ↦
      and_parse (parse_format value) λ format. parse_from nothing rest (with_format format options)
  | scenario_value value ↦
      and_parse (parse_scenario value)
        λ scenario. parse_from nothing rest (with_scenario scenario options)
]
parse_from a_format (value ∷ rest) options =
    and_parse (parse_format value) λ format. parse_from nothing rest (with_format format options)
parse_from a_scenario (value ∷ rest) options =
    and_parse (parse_scenario value)
      λ scenario. parse_from nothing rest (with_scenario scenario options)

abbrev pub default_options : CliOptions
default_options = record { format = all; scenario = basic }

-- The arguments behind the program's name.
unfoldable pub parse_args : List String → Parsed (Option CliOptions)
unfolding parse_from
parse_args args = parse_from nothing args default_options
