-- ===== src/Value.antt =====
-- The value types of RRegistry/include/RRegistry/TypeConverter.hpp (`GetValueTypeOfEntryClass`), as
-- one type of tagged values, and the comparison `==` that the registry makes between them.
use rbase.Base.{
  ℕ, ◌%◌, ◌^◌, ◌<◌, ◌≡◌, ap, Bool, true, false, not, ◌&&◌, ◌||◌, String, arith, ltb, ◌==◌, str_eq,
  str_eq_iff,
}
use rbase.Base.Int.{ℤ, pos, negsuc, ◌≤ℤ◌, eqb_ℤ, eqb_ℤ_iff}
use rbase.Entries.{
  EntryType, int8, int16, int32, int64, uint8, uint16, uint32, uint64, float, double, bool, string,
}

-- The eight integer types share one constructor. A `float` or `double` is its IEEE 754 bit pattern.
pub data Value : Type 0 where
  integer : ℤ → Value
  float_bits : ℕ → Value
  double_bits : ℕ → Value
  truth : Bool → Value
  text : String → Value

-- The magnitude of a pattern is what is left without the sign bit. A NaN is above infinity.
abbrev pub is_nan32 : ℕ → Bool
is_nan32 b = ltb 0x7f80_0000 (b % 2 ^ 31)

abbrev pub is_nan64 : ℕ → Bool
is_nan64 b = ltb 0x7ff0_0000_0000_0000 (b % 2 ^ 63)

-- IEEE equality: a NaN equals nothing, and the two zeros are equal.
unfoldable pub float_eq : ℕ → ℕ → Bool
float_eq a b =
    not (is_nan32 a) && not (is_nan32 b) && (a == b || (a % 2 ^ 31 == 0 && b % 2 ^ 31 == 0))

unfoldable pub double_eq : ℕ → ℕ → Bool
double_eq a b =
    not (is_nan64 a) && not (is_nan64 b) && (a == b || (a % 2 ^ 63 == 0 && b % 2 ^ 63 == 0))

-- `get(property) == value`. Both sides have one C++ type, so the tags agree.
unfoldable pub value_eq : Value → Value → Bool
value_eq (integer a) (integer b) = eqb_ℤ a b
value_eq (float_bits a) (float_bits b) = float_eq a b
value_eq (double_bits a) (double_bits b) = double_eq a b
value_eq (truth true) (truth b) = b
value_eq (truth false) (truth b) = not b
value_eq (text a) (text b) = str_eq a b
value_eq _ _ = false

abbrev pub InRange : ℤ → ℤ → ℤ → Type 0
InRange lo hi z = (lo ≤ℤ z) × (z ≤ℤ hi)

-- `v` is a value of `GetValueTypeOfEntryClass<CLASS>::type`.
abbrev pub HasType : EntryType → Value → Type 0
HasType int8 (integer z) = InRange (negsuc 127) (pos 127) z
HasType int16 (integer z) = InRange (negsuc 32_767) (pos 32_767) z
HasType int32 (integer z) = InRange (negsuc 2_147_483_647) (pos 2_147_483_647) z
HasType int64 (integer z) = InRange (negsuc 0x7fff_ffff_ffff_ffff) (pos 0x7fff_ffff_ffff_ffff) z
HasType uint8 (integer z) = InRange (pos 0) (pos 255) z
HasType uint16 (integer z) = InRange (pos 0) (pos 65_535) z
HasType uint32 (integer z) = InRange (pos 0) (pos 0xffff_ffff) z
HasType uint64 (integer z) = InRange (pos 0) (pos 0xffff_ffff_ffff_ffff) z
HasType float (float_bits b) = b < 2 ^ 32
HasType double (double_bits b) = b < 2 ^ 64
HasType bool (truth b) = Unit {0}
HasType string (text s) = Unit {0}
HasType _ _ = ⊥

-- Values whose equality test is equality: all but the floating-point ones.
abbrev pub IsExact : Value → Type 0
IsExact (float_bits b) = ⊥
IsExact (double_bits b) = ⊥
IsExact _ = Unit {0}

pub value_eq-exact : (v w : Value) → IsExact v → value_eq v w ≡ true → v ≡ w
unfolding value_eq
value_eq-exact (integer a) (integer b) x h = ap integer ((eqb_ℤ_iff a b).0 h)
value_eq-exact (truth true) (truth b) x h = ground arith
value_eq-exact (truth false) (truth b) x h = ground arith
value_eq-exact (text a) (text b) x h = ap text ((str_eq_iff a b).0 h)
value_eq-exact _ _ x h = ground arith

-- A float that is no zero is equal to its own pattern only.
pub float_eq-nonzero : (a b : ℕ) → float_eq a b ≡ true → 0 < b % 2 ^ 31 → a ≡ b
unfolding float_eq
float_eq-nonzero a b h p = ground arith
