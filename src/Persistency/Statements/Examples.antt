-- ===== src/Persistency/Statements/Examples.antt =====
-- Values that are bound, and texts of statements.
use rbase.Base.{◌≡◌, refl, some, arith}
use rbase.Base.Int.{pos, negsuc}
use rbase.Base.Text.{codes, to_string}
use rbase.Base.Outcome.{ok}
use rbase.Entries.{uint8, uint64}
use rbase.Detail.Types.{get_type_detail}
use rbase.Value.{integer}
use rbase.Sample.{world, world-IsWellFormed}
use rbase.Persistency.Database.{Record, new_database, new_record}
use rbase.Persistency.Statements.{
  Parameter, bind_int64, value_parameter, set_nth_param_from_record, set_nth_param_from_registry,
  insert_set,
}
use rbase.Persistency.Statements.Values.{
  Fits, read_back, read_back-value_parameter, from_registry-from_record,
}

read_back-value_parameter_example :
    (par : Parameter) × (value_parameter uint64 (integer (pos 0xffff_ffff_ffff_fff0)) ≡ some par)
    × Fits par
    × (read_back uint64 par ≡ integer (pos 0xffff_ffff_ffff_fff0))
read_back-value_parameter_example =
    read_back-value_parameter uint64 (integer (pos 0xffff_ffff_ffff_fff0)) (omega arith) (λ e. cc)

-- Such a value is stored as a negative number.
stored_negative :
    value_parameter uint64 (integer (pos 0xffff_ffff_ffff_fff0)) ≡ some (bind_int64 (negsuc 15))
unfolding value_parameter
stored_negative = refl

from_registry-from_record_example :
    (r : Record) × (new_record world.values 2 uint8 3 (new_database (pos 4)) ≡ ok r)
    × (set_nth_param_from_registry uint8 3 world ≡ ok (set_nth_param_from_record r))
from_registry-from_record_example =
    from_registry-from_record uint8 3 2 world (new_database (pos 4)) world-IsWellFormed.values_shape
      (omega arith) (λ e. cc)

uint8_statement :
    insert_set uint8
    ≡ codes "INSERT INTO setsUint8 (clientId, property, timestamp, value) VALUES (?1, ?2, ?3, ?4);"
unfolding insert_set get_type_detail
uint8_statement = refl

two_digits : to_string 15 ≡ codes "15"
unfolding to_string
two_digits = refl
