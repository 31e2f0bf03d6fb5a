-- ===== src/Diff/Render/Quotes.antt =====
-- What `dot_escape` makes of a text between quotes, for any reader of the DOT language that does what the
-- language's documentation says of quoted texts: a backslash before a quote stands for the quote, other
-- characters stay as they are, a backslash before another one included, and a quote that is left ends the
-- text. Of a backslash before a line break, which joins two lines, and of two backslashes nothing is assumed.
use Prim.Native.Char.{Char, code}
use attribute_graph.Common.{
  ◌≡◌, sym, ap, subst, ◌∙◌, Bool, true, false, not, ◌&&◌, ◌||◌, Option, none, some, String, eqb,
  eqb_iff, Bool-cases, inl, inr, arith,
}
use text.Mathlib.TextLemmas.{nil-append, cons-append, append_assoc}
use text.Mathlib.TextEquality.{Char-path}
use attribute_graph.Common.Format.{◌<>◌, replace}
use attribute_graph.Diff.Render.Names.{dot_escape}

abbrev pub quote : Char
quote = "\""

abbrev pub backslash : Char
backslash = "\\"

abbrev pub is : Char → Char → Bool
is d c = eqb (code c) (code d)

abbrev pub is_break : Char → Bool
is_break c = eqb (code c) 10 || eqb (code c) 13

abbrev pub before : Char → Option (String × String) → Option (String × String)
before c none = none
before c (some (content, rest)) = some (String.◌∷◌ c content, rest)

-- A reader gives the text up to the quote that ends it, and what follows, from behind the opening quote.
pub record DotReader : Type 0 where
  pub read : String → Option (String × String)
  pub ends : (s : String) → read (String.◌∷◌ quote s) ≡ some ("", s)
  pub escaped :
      (s : String) → read (String.◌∷◌ backslash (String.◌∷◌ quote s)) ≡ before quote (read s)
  pub plain :
      (c : Char) (s : String)
      → is quote c ≡ false
      → is backslash c ≡ false
      → read (String.◌∷◌ c s) ≡ before c (read s)
  pub behind_backslash :
      (c : Char) (s : String)
      → is quote c ≡ false
      → is backslash c ≡ false
      → is_break c ≡ false
      → read (String.◌∷◌ backslash (String.◌∷◌ c s)) ≡ before backslash (before c (read s))

-- No backslash stands at the end, before a quote, before another backslash or before a line break.
unfoldable pub loose_backslashes : Bool → String → Bool
loose_backslashes false String.[] = true
loose_backslashes true String.[] = false
loose_backslashes false (String.◌∷◌ c s) = loose_backslashes (is backslash c) s
loose_backslashes true (String.◌∷◌ c s) =
    (not (is quote c) && (not (is backslash c) && not (is_break c))) && loose_backslashes false s

quoted_end : (rest : String) → "\"" <> rest ≡ String.◌∷◌ quote rest
quoted_end rest = cons-append quote String.[] rest ∙ ap (String.◌∷◌ quote) (nil-append rest)

escape_nil : (t : String) → dot_escape String.[] <> t ≡ t
unfolding dot_escape replace
escape_nil t = nil-append t

escape_quote :
    (c : Char) (s t : String)
    → is quote c ≡ true
    → dot_escape (String.◌∷◌ c s) <> t ≡ String.◌∷◌ backslash (String.◌∷◌ quote (dot_escape s <> t))
unfolding dot_escape replace
escape_quote c s t e = rw e (
    append_assoc "\\\"" (dot_escape s) t
    ∙ cons-append backslash "\"" (dot_escape s <> t)
    ∙ ap (String.◌∷◌ backslash) (quoted_end (dot_escape s <> t)))

escape_other :
    (c : Char) (s t : String)
    → is quote c ≡ false
    → dot_escape (String.◌∷◌ c s) <> t ≡ String.◌∷◌ c (dot_escape s <> t)
unfolding dot_escape replace
escape_other c s t e = rw e (
    append_assoc (String.◌∷◌ c "") (dot_escape s) t
    ∙ cons-append c "" (dot_escape s <> t)
    ∙ ap (String.◌∷◌ c) (nil-append (dot_escape s <> t)))

same_char : (c d : Char) → is d c ≡ true → c ≡ d
same_char c d e = Char-path c d ((eqb_iff (code c) (code d)).0 e)

quote_no_backslash : (c : Char) → is quote c ≡ true → is backslash c ≡ false
quote_no_backslash c e = ground arith

loose_next :
    (q b n d : Bool)
    → ((not q && (not b && not n)) && d) ≡ true
    → (q ≡ false) × (b ≡ false) × (n ≡ false) × (d ≡ true)
loose_next q b n d h = ground arith

-- A text, or one behind a backslash.
abbrev kept : Bool → String → String
kept false v = v
kept true v = String.◌∷◌ backslash v

module _ (reader : DotReader) where
  read_escaped :
      (behind : Bool) (v rest : String)
      → loose_backslashes behind v ≡ true
      → reader.read (kept behind (dot_escape v <> "\"" <> rest)) ≡ some (kept behind v, rest)
  unfolding loose_backslashes
  read_escaped false String.[] rest h =
      rw (escape_nil ("\"" <> rest), quoted_end rest) (reader.ends rest)
  read_escaped true String.[] rest h = cc
  read_escaped false (String.◌∷◌ c s) rest h = elim (Bool-cases (is quote c)) [
    | inl q ↦ rw (escape_quote c s ("\"" <> rest) q) (
        reader.escaped (dot_escape s <> "\"" <> rest)
        ∙ ap (before quote) (
            read_escaped false s rest
              (subst (λ b. loose_backslashes b s ≡ true) (quote_no_backslash c q) h))
        ∙ ap (λ d. some (String.◌∷◌ d s, rest)) (sym (same_char c quote q)))
    | inr n ↦ rw (escape_other c s ("\"" <> rest) n) (elim (Bool-cases (is backslash c)) [
      | inl b ↦
          subst
            (λ d.
              reader.read (String.◌∷◌ d (dot_escape s <> "\"" <> rest))
              ≡ some (String.◌∷◌ d s, rest))
            (sym (same_char c backslash b))
            (read_escaped true s rest (subst (λ k. loose_backslashes k s ≡ true) b h))
      | inr m ↦
          reader.plain c (dot_escape s <> "\"" <> rest) n m
          ∙ ap (before c)
              (read_escaped false s rest (subst (λ k. loose_backslashes k s ≡ true) m h))
    ])
  ]
  read_escaped true (String.◌∷◌ c s) rest h =
      let (n, m, k, l) =
        loose_next (is quote c) (is backslash c) (is_break c) (loose_backslashes false s) h in
      rw (escape_other c s ("\"" <> rest) n) (
        reader.behind_backslash c (dot_escape s <> "\"" <> rest) n m k
        ∙ ap (λ r. before backslash (before c r)) (read_escaped false s rest l))

-- A text in which no backslash stands at the end, before a quote, before another backslash or before a line
-- break is read back from between quotes as it was, after `dot_escape`, and what follows the quotes is left;
-- by every reader that does what the DOT language's documentation says.
pub read-dot_escape :
    (reader : DotReader) (v rest : String)
    → loose_backslashes false v ≡ true
    → reader.read (dot_escape v <> "\"" <> rest) ≡ some (v, rest)
read-dot_escape reader v rest h = read_escaped reader false v rest h
