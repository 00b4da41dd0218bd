-- ===== src/Detail/Examples.antt =====
-- Entries of the tables, by name and by number.
use rbase.Base.{ℕ, ◌+◌, ◌≡◌, ◌≢◌, ◌⊎◌, refl, some, String, arith}
use rbase.Base.Int.{pos, negsuc}
use rbase.Entries.{int16, uint8, uint64}
use rbase.Value.{integer}
use rbase.Detail.Entry.{EntryDetail}
use rbase.Detail.Names.{get_name_of_entry_class, get_value_of_name}
use rbase.Detail.Names.Lookup.{get_value-get_name, get_value_of_name_cases}
use rbase.Detail.Types.{TypeDetail, get_type_detail}
use rbase.Detail.Types.Traits.{Agrees, type_detail-Agrees}
use rbase.Detail.Continuous.{
  get_full_entry_count, get_continuous_number, get_type_from_continuous_number,
  normalize_continuous_number, sum,
}
use rbase.Detail.Continuous.Locate.{offset}
use rbase.Detail.Continuous.Search.{continuous_number_found, continuous_number_roundtrip}
use rbase.Detail.Defaults.{IsConsistent, detail-IsConsistent}

get_value-get_name_example :
    (s : String) × (get_name_of_entry_class 4 2 ≡ some s) × (get_value_of_name 4 s ≡ 2)
get_value-get_name_example = get_value-get_name uint8 2 (omega arith)

get_value_of_name_cases_example :
    (get_name_of_entry_class 4 (get_value_of_name 4 "NO_SUCH_ENTRY") ≡ some "NO_SUCH_ENTRY")
    ⊎ (((p : ℕ) → get_name_of_entry_class 4 p ≢ some "NO_SUCH_ENTRY")
        × (get_value_of_name 4 "NO_SUCH_ENTRY" ≡ 16))
get_value_of_name_cases_example = get_value_of_name_cases uint8 "NO_SUCH_ENTRY"

continuous_number_found_example :
    (get_continuous_number get_full_entry_count 4 3 ≡ some (offset 4 + 3))
    × (get_type_from_continuous_number (pos (offset 4 + 3)) ≡ some 4)
    × (normalize_continuous_number (pos (offset 4 + 3)) ≡ some 3)
continuous_number_found_example =
    continuous_number_found 4 3 16 get_full_entry_count refl (omega arith) (omega arith)

continuous_number_roundtrip_example :
    (t : ℕ) × (p : ℕ) × (get_type_from_continuous_number (pos 20) ≡ some t)
    × (normalize_continuous_number (pos 20) ≡ some p)
    × (get_continuous_number get_full_entry_count t p ≡ some 20)
unfolding get_full_entry_count sum
continuous_number_roundtrip_example =
    continuous_number_roundtrip 20 get_full_entry_count (omega arith) (omega arith)

abbrev first_int16 : EntryDetail
first_int16 = record {
  name = "MVMT_STEER_DIRECTION";
  brief = "Direct steering direction.";
  detailed = "";
  def = integer (pos 0);
  min = integer (negsuc 32_766);
  max = integer (pos 32_767);
}

detail-IsConsistent_example : IsConsistent int16 first_int16
detail-IsConsistent_example = detail-IsConsistent int16 0 first_int16 refl

type_detail-Agrees_example : (d : TypeDetail) × (get_type_detail uint64 ≡ some d) × Agrees uint64 d
type_detail-Agrees_example = type_detail-Agrees uint64
