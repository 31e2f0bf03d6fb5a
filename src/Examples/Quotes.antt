-- ===== src/Examples/Quotes.antt =====
-- Quoted texts: a reader of them, and the theorem at an example.
use attribute_graph.Common.{◌≡◌, refl, Bool, true, false, Option, none, some, String}
use attribute_graph.Common.Format.{◌<>◌, replace}
use attribute_graph.Diff.Render.Names.{dot_escape}
use attribute_graph.Diff.Render.Quotes.{
  quote, backslash, is, is_break, before, DotReader, loose_backslashes, read-dot_escape,
}

-- The text up to the quote that ends it, and what follows, from inside a quoted text or behind a backslash.
read_quoted : Bool → String → Option (String × String)
read_quoted behind String.[] = none
read_quoted false (String.◌∷◌ c s) = elim (is quote c) [
  | true ↦ some ("", s)
  | false ↦ elim (is backslash c) [
    | true ↦ read_quoted true s
    | false ↦ before c (read_quoted false s)
  ]
]
read_quoted true (String.◌∷◌ c s) = elim (is quote c) [
  | true ↦ before quote (read_quoted false s)
  | false ↦ elim (is_break c) [
    | true ↦ read_quoted false s
    | false ↦ before backslash (before c (read_quoted false s))
  ]
]

reader : DotReader
unfolding read_quoted
reader = record {
  read = read_quoted false;
  ends = λ s. refl;
  escaped = λ s. refl;
  plain = λ c s n m. rw (n, m, read_quoted) refl;
  behind_backslash = λ c s n m k. rw (n, k, read_quoted) refl;
}

test_line_break : read_quoted false (dot_escape "a\\nb\"c" <> "\" ;") ≡ some ("a\\nb\"c", " ;")
unfolding read_quoted dot_escape replace
test_line_break = refl

-- A quote behind a backslash ends the text too early.
test_escaped_quote : read_quoted false (dot_escape "a\\\"b" <> "\" ;") ≡ some ("a\\\\", "b\" ;")
unfolding read_quoted dot_escape replace
test_escaped_quote = refl

quoted_loose : loose_backslashes false "a\\n\"b\"" ≡ true
unfolding loose_backslashes
quoted_loose = refl

quoted_example : reader.read (dot_escape "a\\n\"b\"" <> "\"" <> " ;") ≡ some ("a\\n\"b\"", " ;")
quoted_example = read-dot_escape reader "a\\n\"b\"" " ;" quoted_loose
