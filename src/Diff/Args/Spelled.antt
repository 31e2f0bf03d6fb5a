-- ===== src/Diff/Args/Spelled.antt =====
-- Command lines, and how they are read.
use attribute_graph.Common.{
  ◌≡◌, refl, sym, ap, ◌∙◌, List, [], ◌∷◌, ◌++◌, none, some, String, false, Bool-cases, inl, inr,
}
use package.text.Mathlib.Text.{◌==◌ as str_eq, starts_with}
use package.text.Mathlib.TextEquality.{eq_iff}
use mathlib.Core.List.{append_assoc, append-nil}
use attribute_graph.Common.Format.{◌<>◌}
use attribute_graph.Diff.Args.{
  OutputFormat, text, mermaid, dot, all, Scenario, basic, same_output, conditional, subgraph,
  CliOptions, unknown_argument, unknown_format, unknown_scenario, parsed, refused, scenario_name,
  other, argument, nothing, with_format, with_scenario, parse_from, default_options, parse_args,
}

abbrev format_name : OutputFormat → String
format_name text = "text"
format_name mermaid = "mermaid"
format_name dot = "dot"
format_name all = "all"

-- An option with its value, which is an argument of its own or joined by an equals sign.
pub data Flag : Type 0 where
  apart_format joined_format : OutputFormat → Flag
  apart_scenario joined_scenario : Scenario → Flag

abbrev pub spell : Flag → List String
unfolding scenario_name
spell (apart_format f) = "--format" ∷ format_name f ∷ []
spell (joined_format f) = ("--format=" <> format_name f) ∷ []
spell (apart_scenario s) = "--scenario" ∷ scenario_name s ∷ []
spell (joined_scenario s) = ("--scenario=" <> scenario_name s) ∷ []

abbrev pub spell_all : List Flag → List String
spell_all [] = []
spell_all (flag ∷ flags) = spell flag ++ spell_all flags

abbrev pub apply : Flag → CliOptions → CliOptions
apply (apart_format f) options = with_format f options
apply (joined_format f) options = with_format f options
apply (apart_scenario s) options = with_scenario s options
apply (joined_scenario s) options = with_scenario s options

-- From the first flag to the last.
abbrev pub apply_all : List Flag → CliOptions → CliOptions
apply_all [] options = options
apply_all (flag ∷ flags) options = apply_all flags (apply flag options)

parse_flag :
    (flag : Flag) (rest : List String) (options : CliOptions)
    → parse_from nothing (spell flag ++ rest) options ≡ parse_from nothing rest (apply flag options)
unfolding parse_from spell
parse_flag (apart_format text) rest options = refl
parse_flag (apart_format mermaid) rest options = refl
parse_flag (apart_format dot) rest options = refl
parse_flag (apart_format all) rest options = refl
parse_flag (joined_format text) rest options = refl
parse_flag (joined_format mermaid) rest options = refl
parse_flag (joined_format dot) rest options = refl
parse_flag (joined_format all) rest options = refl
parse_flag (apart_scenario basic) rest options = refl
parse_flag (apart_scenario same_output) rest options = refl
parse_flag (apart_scenario conditional) rest options = refl
parse_flag (apart_scenario subgraph) rest options = refl
parse_flag (joined_scenario basic) rest options = refl
parse_flag (joined_scenario same_output) rest options = refl
parse_flag (joined_scenario conditional) rest options = refl
parse_flag (joined_scenario subgraph) rest options = refl

parse_flags :
    (flags : List Flag) (rest : List String) (options : CliOptions)
    → parse_from nothing (spell_all flags ++ rest) options
      ≡ parse_from nothing rest (apply_all flags options)
parse_flags [] rest options = refl
parse_flags (flag ∷ flags) rest options =
    ap (λ args. parse_from nothing args options) (append_assoc (spell flag) (spell_all flags) rest)
    ∙ parse_flag flag (spell_all flags ++ rest) options
    ∙ parse_flags flags rest (apply flag options)

-- An argument that neither is one of the flags nor starts like one that carries its value.
pub record IsNoFlag (arg : String) : Type 0 where
  pub no_help : (¬ (arg ≡ "-h")) × (¬ (arg ≡ "--help"))
  pub no_option : (¬ (arg ≡ "--format")) × (¬ (arg ≡ "--scenario"))
  pub no_joined : (starts_with arg "--format=" ≡ false) × (starts_with arg "--scenario=" ≡ false)

str_eq-false : (s t : String) → ¬ (s ≡ t) → str_eq s t ≡ false
str_eq-false s t differ = elim (Bool-cases (str_eq s t)) [
  | inl same ↦ absurd (differ ((eq_iff s t).0 same))
  | inr unlike ↦ unlike
]

argument-IsNoFlag : (arg : String) → IsNoFlag arg → argument arg ≡ other
unfolding argument
argument-IsNoFlag arg n =
    rw
      (
        str_eq-false arg "-h" n.no_help.0,
        str_eq-false arg "--help" n.no_help.1,
        str_eq-false arg "--format" n.no_option.0,
        str_eq-false arg "--scenario" n.no_option.1,
        n.no_joined.0,
        n.no_joined.1,
      )
      refl

-- The command line of a list of flags is read as the default options with the flags applied from the first to
-- the last, however their values are spelled. Behind them, `-h` or `--help` asks for the usage, whatever
-- follows; `--format` or `--scenario` at the end is refused for its missing value; and an argument that
-- neither is one of these flags nor starts like one that carries its value is refused by its name.
pub parse_args-spell_all :
    (flags : List Flag)
    → (parse_args (spell_all flags) ≡ parsed (some (apply_all flags default_options)))
      × ((rest : List String)
          → (parse_args (spell_all flags ++ "-h" ∷ rest) ≡ parsed none)
            × (parse_args (spell_all flags ++ "--help" ∷ rest) ≡ parsed none))
      × (parse_args (spell_all flags ++ "--format" ∷ []) ≡ refused (unknown_format "<missing>"))
      × (parse_args (spell_all flags ++ "--scenario" ∷ []) ≡ refused (unknown_scenario "<missing>"))
      × ((arg : String) (rest : List String)
          → IsNoFlag arg
          → parse_args (spell_all flags ++ arg ∷ rest) ≡ refused (unknown_argument arg))
unfolding parse_args parse_from
parse_args-spell_all flags = (
  ap (λ args. parse_from nothing args default_options) (sym (append-nil (spell_all flags)))
      ∙ parse_flags flags [] default_options,
  λ rest. (
    parse_flags flags ("-h" ∷ rest) default_options,
    parse_flags flags ("--help" ∷ rest) default_options,
  ),
  parse_flags flags ("--format" ∷ []) default_options,
  parse_flags flags ("--scenario" ∷ []) default_options,
  λ arg rest n.
      parse_flags flags (arg ∷ rest) default_options
      ∙ rw (argument-IsNoFlag arg n, parse_from) refl,
)
