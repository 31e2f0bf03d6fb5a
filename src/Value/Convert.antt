-- ===== src/Value/Convert.antt =====
-- src/value.rs: the conversions of `bool`, `i64` and texts to values and back, and `AttributeValue`.
use attribute_graph.Common.{
  ℕ, Bool, not, ◌||◌, Option, none, some, List, [], ◌∷◌, if◌then◌else◌, eqb, length,
}
use attribute_graph.Value.{TypeDescriptor, ValueStorage, from_bytes, type_eqb}
use attribute_graph.Value.Bytes.{ℤ, Endian, to_ne_bytes, from_ne_bytes, Text, from_utf8}

abbrev pub bool_type : TypeDescriptor
bool_type = record { name = "bool" }

abbrev pub i64_type : TypeDescriptor
i64_type = record { name = "i64" }

abbrev pub static_str_type : TypeDescriptor
static_str_type = record { name = "&'static str" }

abbrev pub string_type : TypeDescriptor
string_type = record { name = "String" }

unfoldable pub from_bool : Bool → ValueStorage
unfolding from_bytes
from_bool b = from_bytes bool_type ((if b then 1 else 0) ∷ [])

unfoldable pub from_i64 : Endian → ℤ → ValueStorage
unfolding from_bytes
from_i64 target n = from_bytes i64_type (to_ne_bytes target n)

unfoldable pub from_static_str : Text → ValueStorage
unfolding from_bytes
from_static_str text = from_bytes static_str_type text.bytes

-- `bytes.len() == 1`, then `bytes[0] != 0`
abbrev single_byte : List ℕ → Option Bool
single_byte (b ∷ []) = some (not (eqb b 0))
single_byte _ = none

unfoldable pub as_bool : ValueStorage → Option Bool
unfolding type_eqb
as_bool value = if type_eqb value.value_type bool_type then single_byte value.bytes else none

unfoldable pub as_i64 : Endian → ValueStorage → Option ℤ
unfolding type_eqb
as_i64 target value =
    if not (type_eqb value.value_type i64_type) || not (eqb (length value.bytes) 8)
    then none
    else some (from_ne_bytes target value.bytes)

unfoldable pub as_static_str : ValueStorage → Option Text
unfolding type_eqb
as_static_str value =
    if type_eqb value.value_type static_str_type then from_utf8 value.bytes else none

-- The trait.
pub record AttributeValue (T : Type 0) : Type 0 where
  pub type_descriptor : TypeDescriptor
  pub into_storage : T → ValueStorage
  pub from_storage : ValueStorage → Option T

unfoldable pub bool_value : AttributeValue Bool
unfolding from_bool as_bool
bool_value = record {
  type_descriptor = bool_type;
  into_storage = from_bool;
  from_storage = as_bool;
}

unfoldable pub i64_value : Endian → AttributeValue ℤ
unfolding from_i64 as_i64
i64_value target = record {
  type_descriptor = i64_type;
  into_storage = from_i64 target;
  from_storage = as_i64 target;
}

unfoldable pub string_from_storage : ValueStorage → Option Text
unfolding type_eqb
string_from_storage value =
    if not (type_eqb value.value_type string_type) then none else from_utf8 value.bytes

unfoldable pub string_value : AttributeValue Text
unfolding from_bytes string_from_storage
string_value = record {
  type_descriptor = string_type;
  into_storage = λ text. from_bytes string_type text.bytes;
  from_storage = string_from_storage;
}
