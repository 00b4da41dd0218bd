-- ===== src/Detail/Types/Traits.antt =====
-- The traits of each type agree with the values that it has.
use rbase.Base.{◌≡◌, ◌↔◌, ◌⊎◌, refl, true, some, arith}
use rbase.Base.Int.{pos, negsuc}
use rbase.Entries.{EntryType, int8, get_size_of_type}
use rbase.Value.{integer, float_bits, double_bits, truth, text, HasType}
use rbase.Detail.Types.{
  TypeDetail, get_type_detail, traits_and, trait_numeric, trait_integer, trait_signed,
  trait_unsigned, trait_boolean, trait_floating_point, trait_string, trait_long,
}

-- The detail is that of the type, and each trait says what values the type has: Unsigned, that 255 is
-- a value and -1 is none; Signed, that -1 or a floating-point number is one; Long, that it is an
-- integer type of 8 bytes; and so on.
pub record Agrees (t : EntryType) (d : TypeDetail) : Type 0 where
  pub same_type : d.type ≡ t
  pub unsigned_iff :
      (traits_and d.traits trait_unsigned ≡ true)
      ↔ (HasType t (integer (pos 255)) × (HasType t (integer (negsuc 0)) → ⊥))
  pub floating_iff :
      (traits_and d.traits trait_floating_point ≡ true)
      ↔ (HasType t (float_bits 0) ⊎ HasType t (double_bits 0))
  pub signed_iff :
      (traits_and d.traits trait_signed ≡ true)
      ↔ (HasType t (integer (negsuc 0)) ⊎ HasType t (float_bits 0) ⊎ HasType t (double_bits 0))
  pub numeric_iff : (traits_and d.traits trait_numeric ≡ true) ↔ (HasType t (text "") → ⊥)
  pub boolean_iff : (traits_and d.traits trait_boolean ≡ true) ↔ HasType t (truth true)
  pub string_iff : (traits_and d.traits trait_string ≡ true) ↔ HasType t (text "")
  pub integer_iff : (traits_and d.traits trait_integer ≡ true) ↔ HasType t (integer (pos 0))
  pub long_iff :
      (traits_and d.traits trait_long ≡ true)
      ↔ (HasType t (integer (pos 0)) × (get_size_of_type t ≡ 8))

-- Every type has a detail, whose traits agree with the values of the type.
pub type_detail-Agrees :
    (t : EntryType) → (d : TypeDetail) × (get_type_detail t ≡ some d) × Agrees t d
unfolding get_type_detail get_size_of_type
type_detail-Agrees int8 = (
  _,
  refl,
  record {
    same_type = refl;
    unsigned_iff = ground arith;
    floating_iff = ground arith;
    signed_iff = ground arith;
    numeric_iff = ground arith;
    boolean_iff = ground arith;
    string_iff = ground arith;
    integer_iff = ground arith;
    long_iff = ground arith;
  },
)
type_detail-Agrees _ = (
  _,
  refl,
  record {
    same_type = refl;
    unsigned_iff = ground arith;
    floating_iff = ground arith;
    signed_iff = ground arith;
    numeric_iff = ground arith;
    boolean_iff = ground arith;
    string_iff = ground arith;
    integer_iff = ground arith;
    long_iff = ground arith;
  },
)
