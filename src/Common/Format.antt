-- ===== src/Common/Format.antt =====
-- What `format!` and its kin write: numbers in decimal and bytes in hexadecimal, and texts that are joined
-- or have a character replaced.
use Prim.Native.Nat.{ℕ, zero, suc, ◌+◌, ◌/◌, ◌%◌}
use Prim.Native.Char.{Char, code}
use Prim.Native.String
use Prim.Native.String.{String, slice}
use mathlib.Core.Bool.{true, false}
use mathlib.Core.List.{List, [], ◌∷◌}
use attribute_graph.Common.Tests.{if◌then◌else◌, eqb, ltb}

infixr 65 ◌<>◌
abbrev pub ◌<>◌ : String → String → String
a <> b = String.◌++◌ a b

abbrev digit : ℕ → String
digit n = slice "0123456789abcdef" n (n + 1)

digits : ℕ → ℕ → String → String
digits zero n out = digit (n % 10) <> out
digits (suc rounds) n out = elim (ltb n 10) [
  | true ↦ digit n <> out
  | false ↦ digits rounds (n / 10) (digit (n % 10) <> out)
]

-- `{}` of an unsigned number. Each round divides it by ten, so it is itself a bound on the rounds.
unfoldable pub decimal : ℕ → String
unfolding digits
decimal n = digits n n ""

-- `{:02x}` of a byte.
unfoldable pub hex_byte : ℕ → String
hex_byte n = digit (n / 16) <> digit (n % 16)

unfoldable pub concat_all : List String → String
concat_all [] = ""
concat_all (x ∷ xs) = x <> concat_all xs

join_after : String → List String → String
join_after separator [] = ""
join_after separator (x ∷ xs) = separator <> x <> join_after separator xs

-- `slice::join`
unfoldable pub join : String → List String → String
unfolding join_after
join separator [] = ""
join separator (x ∷ xs) = x <> join_after separator xs

-- `str::replace` of a character.
unfoldable pub replace : Char → String → String → String
replace from to String.[] = ""
replace from to (String.◌∷◌ c s) =
    (if eqb (code c) (code from) then to else String.◌∷◌ c "") <> replace from to s
