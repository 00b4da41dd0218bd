-- ===== src/Entries.antt =====
-- RRegistry/include/RRegistry/Entries.hpp and the counts and sizes of TypeConverter.hpp: the types
-- of registry entries and the enumeration of the entries of each type.
use rbase.Base.{ℕ, Option, List, [], ◌∷◌, map, get_elem?}

-- `enum class Type`; its sentinel `_COUNT` is `type_count`.
pub data EntryType : Type 0 where
  int8 int16 int32 int64 uint8 uint16 uint32 uint64 float double bool string : EntryType

abbrev pub type_count : ℕ
type_count = 12

-- The types in the order of their numbers, which is the order of the X-macro
-- `LRT_RREGISTRY_CPPTYPELIST_HELPER_INCLUDE_STRING`.
abbrev pub all_types : List EntryType
all_types =
    int8 ∷ int16 ∷ int32 ∷ int64 ∷ uint8 ∷ uint16 ∷ uint32 ∷ uint64 ∷ float ∷ double ∷ bool ∷ string
    ∷ []

-- `static_cast<size_t>(type)`.
abbrev pub type_num : EntryType → ℕ
type_num int8 = 0
type_num int16 = 1
type_num int32 = 2
type_num int64 = 3
type_num uint8 = 4
type_num uint16 = 5
type_num uint32 = 6
type_num uint64 = 7
type_num float = 8
type_num double = 9
type_num bool = 10
type_num string = 11

-- `static_cast<Type>(n)` as a `switch` reads it: `none` takes the `default` branch.
abbrev pub type_of_num : ℕ → Option EntryType
type_of_num n = get_elem? all_types n

-- `enum class Int8`.
pub data Int8Entry : Type 0 where

-- `enum class Int16`.
pub data Int16Entry : Type 0 where
  mvmt_steer_direction : Int16Entry
  mvmt_forward_velocity : Int16Entry
  mvmt_motor_pwm_fl : Int16Entry
  mvmt_motor_pwm_fr : Int16Entry
  mvmt_motor_pwm_rl : Int16Entry
  mvmt_motor_pwm_rr : Int16Entry
  mvmt_servo_output_pwm_fl : Int16Entry
  mvmt_servo_output_pwm_fr : Int16Entry
  mvmt_servo_output_pwm_rl : Int16Entry
  mvmt_servo_output_pwm_rr : Int16Entry

-- The number that `enum class Int16` gives an entry.
abbrev pub int16_num : Int16Entry → ℕ
int16_num mvmt_steer_direction = 0
int16_num mvmt_forward_velocity = 1
int16_num mvmt_motor_pwm_fl = 2
int16_num mvmt_motor_pwm_fr = 3
int16_num mvmt_motor_pwm_rl = 4
int16_num mvmt_motor_pwm_rr = 5
int16_num mvmt_servo_output_pwm_fl = 6
int16_num mvmt_servo_output_pwm_fr = 7
int16_num mvmt_servo_output_pwm_rl = 8
int16_num mvmt_servo_output_pwm_rr = 9

-- `enum class Int32`.
pub data Int32Entry : Type 0 where
  geom_distance_angle_point_center_fl_x : Int32Entry
  geom_distance_angle_point_center_fl_y : Int32Entry
  geom_distance_angle_point_center_fr_x : Int32Entry
  geom_distance_angle_point_center_fr_y : Int32Entry
  geom_distance_angle_point_center_rl_x : Int32Entry
  geom_distance_angle_point_center_rl_y : Int32Entry
  geom_distance_angle_point_center_rr_x : Int32Entry
  geom_distance_angle_point_center_rr_y : Int32Entry

-- The number that `enum class Int32` gives an entry.
abbrev pub int32_num : Int32Entry → ℕ
int32_num geom_distance_angle_point_center_fl_x = 0
int32_num geom_distance_angle_point_center_fl_y = 1
int32_num geom_distance_angle_point_center_fr_x = 2
int32_num geom_distance_angle_point_center_fr_y = 3
int32_num geom_distance_angle_point_center_rl_x = 4
int32_num geom_distance_angle_point_center_rl_y = 5
int32_num geom_distance_angle_point_center_rr_x = 6
int32_num geom_distance_angle_point_center_rr_y = 7

-- `enum class Int64`.
pub data Int64Entry : Type 0 where

-- `enum class Uint8`.
pub data Uint8Entry : Type 0 where
  mvmt_motor_fl_current_left : Uint8Entry
  mvmt_motor_fl_current_right : Uint8Entry
  mvmt_motor_fr_current_left : Uint8Entry
  mvmt_motor_fr_current_right : Uint8Entry
  mvmt_motor_rl_current_left : Uint8Entry
  mvmt_motor_rl_current_right : Uint8Entry
  mvmt_motor_rr_current_left : Uint8Entry
  mvmt_motor_rr_current_right : Uint8Entry
  mvmt_servo_fl_position : Uint8Entry
  mvmt_servo_fr_position : Uint8Entry
  mvmt_servo_rl_position : Uint8Entry
  mvmt_servo_rr_position : Uint8Entry
  regulation_kernel_frequency : Uint8Entry
  mvmt_servo_max_delta : Uint8Entry
  mvmt_servo_max_velocity : Uint8Entry
  sens_light_1 : Uint8Entry

-- The number that `enum class Uint8` gives an entry.
abbrev pub uint8_num : Uint8Entry → ℕ
uint8_num mvmt_motor_fl_current_left = 0
uint8_num mvmt_motor_fl_current_right = 1
uint8_num mvmt_motor_fr_current_left = 2
uint8_num mvmt_motor_fr_current_right = 3
uint8_num mvmt_motor_rl_current_left = 4
uint8_num mvmt_motor_rl_current_right = 5
uint8_num mvmt_motor_rr_current_left = 6
uint8_num mvmt_motor_rr_current_right = 7
uint8_num mvmt_servo_fl_position = 8
uint8_num mvmt_servo_fr_position = 9
uint8_num mvmt_servo_rl_position = 10
uint8_num mvmt_servo_rr_position = 11
uint8_num regulation_kernel_frequency = 12
uint8_num mvmt_servo_max_delta = 13
uint8_num mvmt_servo_max_velocity = 14
uint8_num sens_light_1 = 15

-- `enum class Uint16`.
pub data Uint16Entry : Type 0 where
  eec_motorcurrent_to_shuntvoltage_calibration_fl5 : Uint16Entry
  eec_motorcurrent_to_shuntvoltage_calibration_fr : Uint16Entry
  eec_motorcurrent_to_shuntvoltage_calibration_rl : Uint16Entry
  eec_motorcurrent_to_shuntvoltage_calibration_rr : Uint16Entry
  eec_motorcurrent_to_shuntvoltage_calibration_fl_aux : Uint16Entry
  eec_motorcurrent_to_shuntvoltage_calibration_fr_aux : Uint16Entry
  eec_motorcurrent_to_shuntvoltage_calibration_rl_aux : Uint16Entry
  eec_motorcurrent_to_shuntvoltage_calibration_rr_aux : Uint16Entry

-- The number that `enum class Uint16` gives an entry.
abbrev pub uint16_num : Uint16Entry → ℕ
uint16_num eec_motorcurrent_to_shuntvoltage_calibration_fl5 = 0
uint16_num eec_motorcurrent_to_shuntvoltage_calibration_fr = 1
uint16_num eec_motorcurrent_to_shuntvoltage_calibration_rl = 2
uint16_num eec_motorcurrent_to_shuntvoltage_calibration_rr = 3
uint16_num eec_motorcurrent_to_shuntvoltage_calibration_fl_aux = 4
uint16_num eec_motorcurrent_to_shuntvoltage_calibration_fr_aux = 5
uint16_num eec_motorcurrent_to_shuntvoltage_calibration_rl_aux = 6
uint16_num eec_motorcurrent_to_shuntvoltage_calibration_rr_aux = 7

-- `enum class Uint32`.
pub data Uint32Entry : Type 0 where

-- `enum class Uint64`.
pub data Uint64Entry : Type 0 where

-- `enum class Float`.
pub data FloatEntry : Type 0 where
  mvmt_speed_multiplier : FloatEntry

-- The number that `enum class Float` gives an entry.
abbrev pub float_num : FloatEntry → ℕ
float_num mvmt_speed_multiplier = 0

-- `enum class Double`.
pub data DoubleEntry : Type 0 where

-- `enum class Bool`.
pub data BoolEntry : Type 0 where
  test_rbreakout_communication : BoolEntry
  test_pipe_communication : BoolEntry
  redy_rbreakout : BoolEntry
  mvmt_parkbreak : BoolEntry
  brst_rbreakout_movement : BoolEntry
  pers_enable : BoolEntry
  pers_active : BoolEntry
  ctrl_reset_seq_numbers : BoolEntry

-- The number that `enum class Bool` gives an entry.
abbrev pub bool_num : BoolEntry → ℕ
bool_num test_rbreakout_communication = 0
bool_num test_pipe_communication = 1
bool_num redy_rbreakout = 2
bool_num mvmt_parkbreak = 3
bool_num brst_rbreakout_movement = 4
bool_num pers_enable = 5
bool_num pers_active = 6
bool_num ctrl_reset_seq_numbers = 7

-- `enum class String`.
pub data StringEntry : Type 0 where
  vers_arduino_prog : StringEntry

-- The number that `enum class String` gives an entry.
abbrev pub string_num : StringEntry → ℕ
string_num vers_arduino_prog = 0

-- `static_cast<size_t>(CLASS::_COUNT)`.
abbrev pub entry_count : EntryType → ℕ
entry_count int8 = 0
entry_count int16 = 10
entry_count int32 = 8
entry_count int64 = 0
entry_count uint8 = 16
entry_count uint16 = 8
entry_count uint32 = 0
entry_count uint64 = 0
entry_count float = 1
entry_count double = 0
entry_count bool = 8
entry_count string = 1

-- `GetEntryCountTypes`.
abbrev pub entry_count_types : List ℕ
entry_count_types = map entry_count all_types

-- `GetEntryCount(static_cast<Type>(n))`: an index outside of the array is a fault.
unfoldable pub get_entry_count : ℕ → Option ℕ
get_entry_count n = get_elem? entry_count_types n

-- `GetSizeOfType`, in bytes.
unfoldable pub get_size_of_type : EntryType → ℕ
get_size_of_type int8 = 1
get_size_of_type int16 = 2
get_size_of_type int32 = 4
get_size_of_type int64 = 8
get_size_of_type uint8 = 1
get_size_of_type uint16 = 2
get_size_of_type uint32 = 4
get_size_of_type uint64 = 8
get_size_of_type float = 4
get_size_of_type double = 8
get_size_of_type bool = 1
get_size_of_type string = 8
