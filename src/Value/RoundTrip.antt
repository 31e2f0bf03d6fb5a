-- ===== src/Value/RoundTrip.antt =====
-- The round trips of the three attribute types of src/value.rs.
use attribute_graph.Common.{
  ℕ, zero, suc, ◌/◌, ◌^◌, ◌<◌, ◌≡◌, refl, ap, ◌∙◌, Bool, true, false, some, List, [], ◌∷◌, ◌++◌,
  length, length-append, arith,
}
use mathlib.Core.List.{reverse, reverse-append, reverse-reverse}
use native.Mathlib.Nat.{pow-suc}
use attribute_graph.Value.{bytewise, from_bytes}
use attribute_graph.Value.Bytes.{
  ℤ, pos, negsuc, InI64, to_pattern, of_pattern, little_endian, of_little_endian, Endian, little,
  big, in_order, to_ne_bytes, from_ne_bytes, Text, from_utf8, is_utf8, checked,
}
use attribute_graph.Value.Convert.{
  from_bool, as_bool, from_i64, as_i64, AttributeValue, bool_value, i64_value, string_value,
  string_from_storage,
}

of_little_endian-little_endian : (k n : ℕ) → n < 256 ^ k → of_little_endian (little_endian k n) ≡ n
unfolding of_little_endian little_endian
of_little_endian-little_endian zero n h = omega arith
of_little_endian-little_endian (suc k) n h =
    let step = pow-suc 256 k in
    omega (arith, of_little_endian-little_endian k (n / 256) (omega arith))

length-little_endian : (k n : ℕ) → length (little_endian k n) ≡ k
unfolding little_endian
length-little_endian zero n = refl
length-little_endian (suc k) n = ap suc (length-little_endian k (n / 256))

of_pattern-to_pattern : (n : ℤ) → InI64 n → of_pattern (to_pattern n) ≡ n
unfolding of_pattern to_pattern
of_pattern-to_pattern (pos n) h = ground arith
of_pattern-to_pattern (negsuc n) h = ground arith

to_pattern-lt : (n : ℤ) → InI64 n → to_pattern n < 256 ^ 8
unfolding to_pattern
to_pattern-lt (pos n) h = omega arith
to_pattern-lt (negsuc n) h = omega arith

length-snoc : {A : Type 0} (xs : List A) (x : A) → length (xs ++ x ∷ []) ≡ suc (length xs)
length-snoc xs x = omega (arith, length-append xs (x ∷ []))

length-reverse : {A : Type 0} (xs : List A) → length (reverse xs) ≡ length xs
length-reverse [] = refl
length-reverse (x ∷ xs) =
    ap length (reverse-append (x ∷ []) xs) ∙ length-snoc (reverse xs) x ∙ ap suc (length-reverse xs)

length-in_order : (target : Endian) (bs : List ℕ) → length (in_order target bs) ≡ length bs
length-in_order little bs = refl
length-in_order big bs = length-reverse bs

in_order-in_order : (target : Endian) (bs : List ℕ) → in_order target (in_order target bs) ≡ bs
in_order-in_order little bs = refl
in_order-in_order big bs = reverse-reverse bs

pub from_ne_bytes-to_ne_bytes :
    (target : Endian) (n : ℤ) → InI64 n → from_ne_bytes target (to_ne_bytes target n) ≡ n
unfolding from_ne_bytes to_ne_bytes
from_ne_bytes-to_ne_bytes target n h = rw in_order-in_order (
    rw (of_little_endian-little_endian 8 (to_pattern n) (to_pattern-lt n h))
      (of_pattern-to_pattern n h))

length-to_ne_bytes : (target : Endian) (n : ℤ) → length (to_ne_bytes target n) ≡ 8
unfolding to_ne_bytes
length-to_ne_bytes target n =
    length-in_order target (little_endian 8 (to_pattern n)) ∙ length-little_endian 8 (to_pattern n)

as_i64-from_i64 : (target : Endian) (n : ℤ) → InI64 n → as_i64 target (from_i64 target n) ≡ some n
unfolding as_i64 from_i64
as_i64-from_i64 target n h =
    rw (length-to_ne_bytes target n) (ap some (from_ne_bytes-to_ne_bytes target n h))

as_bool-from_bool : (b : Bool) → as_bool (from_bool b) ≡ some b
unfolding as_bool from_bool
as_bool-from_bool true = refl
as_bool-from_bool false = refl

checked-bytes :
    (bs : List ℕ) (b : Bool) (e : is_utf8 bs ≡ b) (valid : is_utf8 bs ≡ true)
    → checked bs b e ≡ some (record { bytes = bs; valid = valid })
checked-bytes bs true e valid =
    let unique : IsProp (is_utf8 bs ≡ true) = hlevel in
    λ i. some (record { bytes = bs; valid = unique e valid i })
checked-bytes bs false e valid = cc

from_utf8-bytes : (text : Text) → from_utf8 text.bytes ≡ some text
unfolding from_utf8
from_utf8-bytes text = checked-bytes text.bytes (is_utf8 text.bytes) refl text.valid

-- A conversion that keeps the promise of the trait on the values that satisfy `P`.
pub record Faithful {T : Type 0} (P : T → Type 0) (v : AttributeValue T) : Type 0 where
  pub typed : (t : T) → (v.into_storage t).value_type ≡ v.type_descriptor
  pub read_back : (t : T) → P t → v.from_storage (v.into_storage t) ≡ some t
  pub compared : (t : T) → (v.into_storage t).comparison ≡ bytewise

abbrev pub AnyValue : {T : Type 0} → T → Type 0
AnyValue t = Unit {0}

pub bool-Faithful : Faithful AnyValue bool_value
unfolding bool_value from_bool from_bytes
bool-Faithful = record {
  typed = λ b. refl;
  read_back = λ b _. as_bool-from_bool b;
  compared = λ b. refl;
}

pub i64-Faithful : (target : Endian) → Faithful InI64 (i64_value target)
unfolding i64_value from_i64 from_bytes
i64-Faithful target = record {
  typed = λ n. refl;
  read_back = as_i64-from_i64 target;
  compared = λ n. refl;
}

pub string-Faithful : Faithful AnyValue string_value
unfolding string_value string_from_storage from_bytes
string-Faithful = record {
  typed = λ text. refl;
  read_back = λ text _. from_utf8-bytes text;
  compared = λ text. refl;
}

-- Each of the three implementations of `AttributeValue` stores values under its own type descriptor,
-- reads back every `bool`, every `i64` in range (on targets of either byte order) and every text as it
-- was stored, and compares bytewise.
pub attribute_values-Faithful :
    (target : Endian)
    → Faithful AnyValue bool_value
      × Faithful InI64 (i64_value target)
      × Faithful AnyValue string_value
attribute_values-Faithful target = (bool-Faithful, i64-Faithful target, string-Faithful)
