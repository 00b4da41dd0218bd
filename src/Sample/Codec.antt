-- ===== src/Sample/Codec.antt =====
-- A concrete codec for values: little-endian bytes, two's complement, and the bit patterns of floats.
use rbase.Base.{
  ℕ, zero, suc, ◌+◌, ◌-◌, ◌*◌, ◌/◌, ◌%◌, ◌<◌, ◌≡◌, ◌≢◌, refl, ap, ◌∙◌, true, false, not, List, [],
  ◌∷◌, ltb, ◌==◌, if◌then◌else◌, arith,
}
use rbase.Base.Int.{ℤ, pos, negsuc}
use rbase.Entries.{
  EntryType, int8, int16, int32, int64, uint8, uint16, uint32, uint64, float, double, bool, string,
  get_size_of_type,
}
use rbase.Value.{Value, integer, float_bits, double_bits, truth, text, HasType, InRange}

-- The number of little-endian bytes.
abbrev pub from_bytes : List ℕ → ℕ
from_bytes [] = 0
from_bytes (b ∷ bs) = b % 256 + 256 * from_bytes bs

abbrev pub to_bytes : ℕ → ℕ → List ℕ
to_bytes zero n = []
to_bytes (suc k) n = n % 256 ∷ to_bytes k (n / 256)

-- 256 to the power of `k`.
abbrev values_of_bytes : ℕ → ℕ
values_of_bytes zero = 1
values_of_bytes (suc k) = 256 * values_of_bytes k

from_bytes-to_bytes : (k n : ℕ) → n < values_of_bytes k → from_bytes (to_bytes k n) ≡ n
from_bytes-to_bytes zero n h = omega arith
from_bytes-to_bytes (suc k) n h = omega (arith, from_bytes-to_bytes k (n / 256))

-- Two's complement, where `half` is the number of the values that are not negative.
abbrev signed : ℕ → ℕ → ℤ
signed half n = if ltb n half then pos n else negsuc (2 * half - 1 - n)

abbrev unsigned : ℕ → ℤ → ℕ
unsigned half (pos n) = n
unsigned half (negsuc n) = 2 * half - 1 - n

signed_range :
    (half n : ℕ) → n < 2 * half → InRange (negsuc (half - 1)) (pos (half - 1)) (signed half n)
signed_range half n h = ground arith

abbrev value_of : EntryType → ℕ → Value
value_of int8 n = integer (signed 0x80 (n % 0x100))
value_of int16 n = integer (signed 0x8000 (n % 0x1_0000))
value_of int32 n = integer (signed 0x8000_0000 (n % 0x1_0000_0000))
value_of int64 n = integer (signed 0x8000_0000_0000_0000 (n % 0x1_0000_0000_0000_0000))
value_of uint8 n = integer (pos (n % 0x100))
value_of uint16 n = integer (pos (n % 0x1_0000))
value_of uint32 n = integer (pos (n % 0x1_0000_0000))
value_of uint64 n = integer (pos (n % 0x1_0000_0000_0000_0000))
value_of float n = float_bits (n % 0x1_0000_0000)
value_of double n = double_bits (n % 0x1_0000_0000_0000_0000)
value_of bool n = truth (not (n == 0))
value_of string n = text ""

abbrev bits_of : EntryType → Value → ℕ
bits_of int8 (integer z) = unsigned 0x80 z
bits_of int16 (integer z) = unsigned 0x8000 z
bits_of int32 (integer z) = unsigned 0x8000_0000 z
bits_of int64 (integer z) = unsigned 0x8000_0000_0000_0000 z
bits_of t (integer z) = unsigned 0 z
bits_of t (float_bits b) = b
bits_of t (double_bits b) = b
bits_of t (truth true) = 1
bits_of t (truth false) = 0
bits_of t (text s) = 0

abbrev pub decode : EntryType → List ℕ → ℕ → Value
decode t bytes size = value_of t (from_bytes bytes)

unfoldable pub encode : EntryType → Value → List ℕ
unfolding get_size_of_type
encode t v = to_bytes (get_size_of_type t) (bits_of t v)

pub decode_typed :
    (t : EntryType) (bytes : List ℕ) (size : ℕ) → t ≢ string → HasType t (decode t bytes size)
decode_typed string bytes size ns = absurd (ns refl)
decode_typed int8 bytes size ns = signed_range 0x80 (from_bytes bytes % 0x100) (omega arith)
decode_typed int16 bytes size ns = signed_range 0x8000 (from_bytes bytes % 0x1_0000) (omega arith)
decode_typed int32 bytes size ns =
    signed_range 0x8000_0000 (from_bytes bytes % 0x1_0000_0000) (omega arith)
decode_typed int64 bytes size ns =
    signed_range 0x8000_0000_0000_0000 (from_bytes bytes % 0x1_0000_0000_0000_0000) (omega arith)
decode_typed _ bytes size ns = omega arith

value_of-bits_of :
    (t : EntryType) (v : Value) → HasType t v → t ≢ string → value_of t (bits_of t v) ≡ v
value_of-bits_of int8 (integer (pos n)) h ns = ground arith
value_of-bits_of int8 (integer (negsuc n)) h ns = ground arith
value_of-bits_of int16 (integer (pos n)) h ns = ground arith
value_of-bits_of int16 (integer (negsuc n)) h ns = ground arith
value_of-bits_of int32 (integer (pos n)) h ns = ground arith
value_of-bits_of int32 (integer (negsuc n)) h ns = ground arith
value_of-bits_of int64 (integer (pos n)) h ns = ground arith
value_of-bits_of int64 (integer (negsuc n)) h ns = ground arith
value_of-bits_of bool (truth true) h ns = refl
value_of-bits_of bool (truth false) h ns = refl
value_of-bits_of string (text s) h ns = absurd (ns refl)
value_of-bits_of _ (integer (pos n)) h ns = ground arith
value_of-bits_of _ (integer (negsuc n)) h ns = ground arith
value_of-bits_of _ _ h ns = ground arith

bits_of_lt :
    (t : EntryType) (v : Value)
    → HasType t v
    → t ≢ string
    → bits_of t v < values_of_bytes (get_size_of_type t)
unfolding get_size_of_type
bits_of_lt int8 (integer (pos n)) h ns = ground arith
bits_of_lt _ _ h ns = ground arith

-- Every value of an entry's type is read back as it was written.
pub decode-encode :
    (t : EntryType) (v : Value)
    → t ≢ string
    → HasType t v
    → decode t (encode t v) (get_size_of_type t) ≡ v
unfolding encode
decode-encode t v ns h =
    ap (value_of t) (from_bytes-to_bytes (get_size_of_type t) (bits_of t v) (bits_of_lt t v h ns))
    ∙ value_of-bits_of t v h ns
