-- ===== src/Value/Bytes.antt =====
-- What src/value.rs takes from the standard library: the bytes of an `i64` and of a text.
use attribute_graph.Common.{
  ℕ, zero, suc, ◌+◌, ◌-◌, ◌*◌, ◌/◌, ◌%◌, ◌<◌, ◌≡◌, refl, Bool, true, false, ◌&&◌, Option, none,
  some, List, [], ◌∷◌, if◌then◌else◌, ltb, leb, eqb,
}
use mathlib.Core.List.{reverse}

-- A signed integer: `negsuc n` is -(n + 1).
pub data ℤ : Type 0 where
  pos : ℕ → ℤ
  negsuc : ℕ → ℤ

abbrev pub i64_half : ℕ
i64_half = 9223372036854775808

-- The values of an `i64`.
abbrev pub InI64 : ℤ → Type 0
InI64 (pos n) = n < i64_half
InI64 (negsuc n) = n < i64_half

-- Two's complement: the bit pattern, and the value that a pattern stands for.
unfoldable pub to_pattern : ℤ → ℕ
to_pattern (pos n) = n
to_pattern (negsuc n) = 2 * i64_half - 1 - n

unfoldable pub of_pattern : ℕ → ℤ
of_pattern p = if ltb p i64_half then pos p else negsuc (2 * i64_half - 1 - p)

-- `k` bytes, the least significant first.
unfoldable pub little_endian : ℕ → ℕ → List ℕ
little_endian zero n = []
little_endian (suc k) n = n % 256 ∷ little_endian k (n / 256)

unfoldable pub of_little_endian : List ℕ → ℕ
of_little_endian [] = 0
of_little_endian (b ∷ bs) = b + 256 * of_little_endian bs

-- The byte order of the target.
pub data Endian : Type 0 where
  little big : Endian

abbrev pub in_order : Endian → List ℕ → List ℕ
in_order little bs = bs
in_order big bs = reverse bs

-- `i64::to_ne_bytes` and `i64::from_ne_bytes`
unfoldable pub to_ne_bytes : Endian → ℤ → List ℕ
unfolding little_endian to_pattern
to_ne_bytes target n = in_order target (little_endian 8 (to_pattern n))

unfoldable pub from_ne_bytes : Endian → List ℕ → ℤ
unfolding of_little_endian of_pattern
from_ne_bytes target bs = of_pattern (of_little_endian (in_order target bs))

-- Where a scan of UTF-8 stands: how many continuation bytes are due, and the bounds of the next.
pub record Due : Type 0 where
  pub count : ℕ
  pub low : ℕ
  pub high : ℕ

abbrev due : ℕ → ℕ → ℕ → Option Due
due count low high = some (record { count = count; low = low; high = high })

abbrev between : ℕ → ℕ → ℕ → Bool
between low high b = leb low b && leb b high

-- Table 3-7 of the Unicode standard, on the first byte of a sequence.
unfoldable pub first_byte : ℕ → Option Due
first_byte b =
    if leb b 0x7F
    then due 0 0x80 0xBF
    else if between 0xC2 0xDF b
    then due 1 0x80 0xBF
    else if eqb b 0xE0
    then due 2 0xA0 0xBF
    else if eqb b 0xED
    then due 2 0x80 0x9F
    else if between 0xE1 0xEF b
    then due 2 0x80 0xBF
    else if eqb b 0xF0
    then due 3 0x90 0xBF
    else if between 0xF1 0xF3 b
    then due 3 0x80 0xBF
    else if eqb b 0xF4
    then due 3 0x80 0x8F
    else none

unfoldable pub next_byte : Due → ℕ → Option Due
unfolding first_byte
next_byte d b = elim d.count [
  | zero ↦ first_byte b
  | suc count ↦ if between d.low d.high b then due count 0x80 0xBF else none
]

unfoldable pub scan_utf8 : Option Due → List ℕ → Bool
unfolding next_byte
scan_utf8 none bs = false
scan_utf8 (some d) [] = eqb d.count 0
scan_utf8 (some d) (b ∷ bs) = scan_utf8 (next_byte d b) bs

-- Whether `str::from_utf8` accepts the bytes.
unfoldable pub is_utf8 : List ℕ → Bool
unfolding scan_utf8
is_utf8 = scan_utf8 (due 0 0x80 0xBF)

-- A Rust `String`: its bytes, which are UTF-8.
pub record Text : Type 0 where
  pub bytes : List ℕ
  pub valid : is_utf8 bytes ≡ true

-- `String::from_utf8(..).ok()`
abbrev pub checked : (bs : List ℕ) (b : Bool) → is_utf8 bs ≡ b → Option Text
checked bs true valid = some (record { bytes = bs; valid = valid })
checked bs false _ = none

unfoldable pub from_utf8 : List ℕ → Option Text
from_utf8 bs = checked bs (is_utf8 bs) refl
