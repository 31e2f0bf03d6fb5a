-- ===== src/Value.antt =====
-- src/value.rs: type-erased values. A byte is a number below 256.
pub mod Bytes
pub mod Convert
pub mod RoundTrip
use attribute_graph.Common.{
  ℕ, ◌≡◌, ◌↔◌, Bool, true, false, not, ◌&&◌, ◌||◌, Option, none, some, List, [], ◌∷◌, String, arith,
  eqb, length, if◌then◌else◌,
}
use text.Mathlib.Text.{◌==◌ as str_eq}
use text.Mathlib.TextEquality.{eq_iff}

pub record TypeDescriptor : Type 0 where
  pub name : String

unfoldable pub type_eqb : TypeDescriptor → TypeDescriptor → Bool
type_eqb a b = str_eq a.name b.name

pub data ValueComparison : Type 0 where
  bytewise always_changed : ValueComparison

pub record ValueStorage : Type 0 where
  pub value_type : TypeDescriptor
  pub bytes : List ℕ
  pub comparison : ValueComparison

unfoldable pub from_bytes : TypeDescriptor → List ℕ → ValueStorage
from_bytes value_type bytes = record {
  value_type = value_type;
  bytes = bytes;
  comparison = bytewise;
}

unfoldable pub with_comparison : ValueStorage → ValueComparison → ValueStorage
with_comparison value comparison = record value { comparison = comparison }

unfoldable pub bytes_eqb : List ℕ → List ℕ → Bool
bytes_eqb [] [] = true
bytes_eqb (x ∷ xs) (y ∷ ys) = eqb x y && bytes_eqb xs ys
bytes_eqb _ _ = false

-- The match on the two comparisons, the old value's first.
unfoldable pub changed_under : ValueComparison → ValueComparison → List ℕ → List ℕ → Bool
unfolding bytes_eqb
changed_under bytewise bytewise new old = not (bytes_eqb new old)
changed_under _ _ new old = true

unfoldable pub meaningfully_changed_from : ValueStorage → Option ValueStorage → Bool
unfolding type_eqb changed_under
meaningfully_changed_from new none = true
meaningfully_changed_from new (some old) =
    if not (type_eqb new.value_type old.value_type)
    then true
    else changed_under old.comparison new.comparison new.bytes old.bytes

pub type_eqb_iff : (a b : TypeDescriptor) → (type_eqb a b ≡ true) ↔ (a ≡ b)
unfolding type_eqb
type_eqb_iff a b = ground (arith, eq_iff a.name b.name)

pub bytes_eqb_iff : (a b : List ℕ) → (bytes_eqb a b ≡ true) ↔ (a ≡ b)
unfolding bytes_eqb
bytes_eqb_iff [] [] = ground arith
bytes_eqb_iff [] (y ∷ ys) = ground arith
bytes_eqb_iff (x ∷ xs) [] = ground arith
bytes_eqb_iff (x ∷ xs) (y ∷ ys) = ground (arith, bytes_eqb_iff xs ys)

-- A new value counts as unchanged against an old one exactly when the two are equal, comparison
-- included, and that comparison is bytewise.
pub unchanged_iff :
    (new old : ValueStorage)
    → (meaningfully_changed_from new (some old) ≡ false)
      ↔ ((new ≡ old) × (new.comparison ≡ bytewise))
unfolding meaningfully_changed_from
unchanged_iff new old =
    ground (arith, type_eqb_iff new.value_type old.value_type, bytes_eqb_iff new.bytes old.bytes)
