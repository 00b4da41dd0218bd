-- ===== src/Detail/Types.antt =====
-- RRegistry/include/RRegistry/Detail.hpp: what the registry says of its types.
pub mod Traits
use Prim.Native.Nat.{bit_and, bit_or}
use rbase.Base.{ℕ, ◌^◌, Bool, not, Option, List, [], ◌∷◌, String, get_elem?, ◌==◌}
use rbase.Entries.{
  EntryType, int8, int16, int32, int64, uint8, uint16, uint32, uint64, float, double, bool, string,
  type_num,
}

-- `enum class TypeTraits`; a combination is the number that `operator|` gives.
abbrev pub trait_numeric : ℕ
trait_numeric = 2 ^ 1

abbrev pub trait_integer : ℕ
trait_integer = 2 ^ 2

abbrev pub trait_signed : ℕ
trait_signed = 2 ^ 3

abbrev pub trait_unsigned : ℕ
trait_unsigned = 2 ^ 4

abbrev pub trait_boolean : ℕ
trait_boolean = 2 ^ 5

abbrev pub trait_floating_point : ℕ
trait_floating_point = 2 ^ 6

abbrev pub trait_string : ℕ
trait_string = 2 ^ 7

abbrev pub trait_long : ℕ
trait_long = 2 ^ 8

-- `operator|` of the traits.
abbrev pub traits_or : ℕ → ℕ → ℕ
traits_or a b = bit_or a b

-- `operator&` of the traits: whether they have a bit in common.
abbrev pub traits_and : ℕ → ℕ → Bool
traits_and a b = not (bit_and a b == 0)

-- `struct TypeDetail`.
pub record TypeDetail : Type 0 where
  pub name : String
  pub description : String
  pub sql_type : String
  pub traits : ℕ
  pub type : EntryType

-- The array `TypeDetail`.
abbrev pub type_details : List TypeDetail
type_details =
    record {
      name = "Int8";
      description = "8 bit wide signed integer.";
      sql_type = "INT";
      traits = traits_or (traits_or trait_numeric trait_signed) trait_integer;
      type = int8;
    }
    ∷ record {
      name = "Int16";
      description = "16 bit wide signed integer.";
      sql_type = "INT";
      traits = traits_or (traits_or trait_numeric trait_signed) trait_integer;
      type = int16;
    }
    ∷ record {
      name = "Int32";
      description = "32 bit wide signed integer.";
      sql_type = "INT";
      traits = traits_or (traits_or trait_numeric trait_signed) trait_integer;
      type = int32;
    }
    ∷ record {
      name = "Int64";
      description = "64 bit wide signed integer.";
      sql_type = "INT";
      traits =
          traits_or (traits_or (traits_or trait_numeric trait_signed) trait_integer) trait_long;
      type = int64;
    }
    ∷ record {
      name = "Uint8";
      description = "8 bit wide unsigned integer.";
      sql_type = "INT";
      traits = traits_or (traits_or trait_numeric trait_unsigned) trait_integer;
      type = uint8;
    }
    ∷ record {
      name = "Uint16";
      description = "16 bit wide unsigned integer.";
      sql_type = "INT";
      traits = traits_or (traits_or trait_numeric trait_unsigned) trait_integer;
      type = uint16;
    }
    ∷ record {
      name = "Uint32";
      description = "32 bit wide unsigned integer.";
      sql_type = "INT";
      traits = traits_or (traits_or trait_numeric trait_unsigned) trait_integer;
      type = uint32;
    }
    ∷ record {
      name = "Uint64";
      description = "64 bit wide unsigned integer.";
      sql_type = "INT";
      traits =
          traits_or (traits_or (traits_or trait_numeric trait_unsigned) trait_integer) trait_long;
      type = uint64;
    }
    ∷ record {
      name = "Float";
      description = "32 bit wide floating point number.";
      sql_type = "REAL";
      traits = traits_or (traits_or trait_numeric trait_floating_point) trait_signed;
      type = float;
    }
    ∷ record {
      name = "Double";
      description = "64 bit wide floating point number.";
      sql_type = "REAL";
      traits = traits_or (traits_or trait_numeric trait_floating_point) trait_signed;
      type = double;
    }
    ∷ record {
      name = "Bool";
      description = "Binary true/false value.";
      sql_type = "INT";
      traits = traits_or trait_numeric trait_boolean;
      type = bool;
    }
    ∷ record {
      name = "String";
      description = "String containing multiple letters.";
      sql_type = "TEXT";
      traits = trait_string;
      type = string;
    }
    ∷ []

-- `GetTypeDetail`.
unfoldable pub get_type_detail : EntryType → Option TypeDetail
get_type_detail t = get_elem? type_details (type_num t)
