-- ===== src/Persistency/Statements/Values.antt =====
-- What is bound for the value of a record.
use rbase.Base.{ℕ, ◌-◌, ◌^◌, ◌<◌, ◌≡◌, ◌≢◌, refl, true, false, not, some, ◌==◌, arith}
use rbase.Base.Int.{ℤ, pos, negsuc}
use rbase.Base.Outcome.{ok}
use rbase.Entries.{
  EntryType, int8, int16, int32, int64, uint8, uint16, uint32, uint64, float, double, bool, string,
  type_num, entry_count,
}
use rbase.Value.{Value, integer, float_bits, double_bits, truth, text, HasType, InRange}
use rbase.SubscriptionMap
use rbase.SubscriptionMap.Shape.{HasShape, get_in_bounds, entry_count_num}
use rbase.Registry
use rbase.Registry.{World}
use rbase.Persistency.Database.{Record, Database, new_record}
use rbase.Persistency.Database.Pushing.{new_record-made}
use rbase.Persistency.Statements.{
  Parameter, bind_int, bind_int64, bind_double, bind_text, value_parameter,
  set_nth_param_from_record, set_nth_param_from_registry,
}

-- The argument is an `int`, or a 64-bit integer.
abbrev pub Fits : Parameter → Type 0
Fits (bind_int z) = InRange (negsuc 0x7fff_ffff) (pos 0x7fff_ffff) z
Fits (bind_int64 z) = InRange (negsuc 0x7fff_ffff_ffff_ffff) (pos 0x7fff_ffff_ffff_ffff) z
Fits _ = Unit {0}

-- A stored integer as one of a `uint64_t`.
abbrev pub to_uint64 : ℤ → ℤ
to_uint64 (pos n) = pos n
to_uint64 (negsuc n) = pos (2 ^ 64 - 1 - n)

-- The value that a parameter was bound for, by its type.
abbrev pub read_back : EntryType → Parameter → Value
read_back uint64 (bind_int64 z) = integer (to_uint64 z)
read_back bool (bind_int (pos n)) = truth (not (n == 0))
read_back t (bind_int z) = integer z
read_back t (bind_int64 z) = integer z
read_back t (bind_double v) = v
read_back t (bind_text s) = text ""

-- A value of its type, but a string, is bound as a number that fits the call's argument, so that
-- nothing is cut off; and it can be read back from that number, where those of the type `Uint64`
-- are to be read as unsigned.
pub read_back-value_parameter :
    (t : EntryType) (v : Value)
    → HasType t v
    → t ≢ string
    → (par : Parameter) × (value_parameter t v ≡ some par) × Fits par × (read_back t par ≡ v)
unfolding value_parameter
read_back-value_parameter string v h ns = absurd (ns refl)
read_back-value_parameter uint64 (integer (pos n)) h ns = (_, refl, ground arith, ground arith)
read_back-value_parameter bool (truth true) h ns = (_, refl, omega arith, refl)
read_back-value_parameter bool (truth false) h ns = (_, refl, omega arith, refl)
read_back-value_parameter float (float_bits b) h ns = (_, refl, tt, refl)
read_back-value_parameter double (double_bits b) h ns = (_, refl, tt, refl)
read_back-value_parameter int64 (integer z) h ns = (_, refl, h, refl)
read_back-value_parameter uint32 (integer (pos n)) h ns = (_, refl, omega arith, refl)
read_back-value_parameter int8 (integer (pos n)) h ns = (_, refl, omega arith, refl)
read_back-value_parameter int8 (integer (negsuc n)) h ns = (_, refl, omega arith, refl)
read_back-value_parameter int16 (integer (pos n)) h ns = (_, refl, omega arith, refl)
read_back-value_parameter int16 (integer (negsuc n)) h ns = (_, refl, omega arith, refl)
read_back-value_parameter int32 (integer z) h ns = (_, refl, h, refl)
read_back-value_parameter uint8 (integer (pos n)) h ns = (_, refl, omega arith, refl)
read_back-value_parameter uint16 (integer (pos n)) h ns = (_, refl, omega arith, refl)
read_back-value_parameter _ _ h ns = ground arith

same_parameter :
    {B S : Type 0} (t : EntryType) (p : ℕ) (v : Value) (w : World B S)
    → t ≢ string
    → SubscriptionMap.get w.values (type_num t) p ≡ some v
    → set_nth_param_from_registry t p w ≡ ok (value_parameter t v)
unfolding set_nth_param_from_registry Registry.get
same_parameter string p v w ns e = absurd (ns refl)
same_parameter _ p v w ns e = rw e refl

-- For an entry but a string, what is bound from the registry is what is bound from a record that `push`
-- makes at that time.
pub from_registry-from_record :
    {B S : Type 0} (t : EntryType) (p client : ℕ) (w : World B S) (s : Database)
    → HasShape w.values
    → p < entry_count t
    → t ≢ string
    → (r : Record) × (new_record w.values client t p s ≡ ok r)
      × (set_nth_param_from_registry t p w ≡ ok (set_nth_param_from_record r))
unfolding set_nth_param_from_record
from_registry-from_record t p client w s shape within ns =
    let (v, e) =
      get_in_bounds w.values shape (type_num t) p (entry_count t) (entry_count_num t) within in
    (_, new_record-made w.values client t p s ns e, same_parameter t p v w ns e)
