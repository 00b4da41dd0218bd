-- ===== src/Support.antt =====
-- RSupport: the statuses and options of its C interface (RSupport/include/RSupport/RSupport.hpp and
-- RSupport/src/RSupport.cpp). The handle and its socket are in the children.
pub mod Client
pub mod Handle
use rbase.Base.{
  ℕ, Bool, Option, none, some, List, [], ◌∷◌, String, str_eq, get_elem?, ltb, if◌then◌else◌,
}

-- `RSupportStatus`.
pub data Status : Type 0 where
  could_not_open_socket connection_failed io_error socket_not_open_for_reading other_error
        invalid_option status_ok updates :
      Status

abbrev pub status_num : Status → ℕ
status_num could_not_open_socket = 0
status_num connection_failed = 1
status_num io_error = 2
status_num socket_not_open_for_reading = 3
status_num other_error = 4
status_num invalid_option = 5
status_num status_ok = 6
status_num updates = 7

-- `RSupportOption`; the C interface takes an option as a number.
abbrev pub auto_frequency : ℕ
auto_frequency = 0

abbrev pub auto_movement_burst : ℕ
auto_movement_burst = 1

abbrev pub option_count : ℕ
option_count = 2

-- `RSupportStatusNames`: adjacent literals are joined, and an element without an initialiser is null.
abbrev pub status_names : List (Option String)
status_names =
    some "Could not open Socket"
    ∷ some "Connection Failed"
    ∷ some "IO-Error"
    ∷ some "Socket not open for reading"
    ∷ some "Other Error"
    ∷ some "Invalid OptionOkay"
    ∷ some "Updates Received"
    ∷ none
    ∷ []

-- `RSupportOptionNames`.
abbrev pub option_names : List (Option String)
option_names = some "Automatic Frequency AdjustmentAutomatic Movement Updates" ∷ none ∷ []

-- `rsupport_status_msg` and `rsupport_option_msg`; the outer `none` is a read out of bounds.
pub status_msg : Status → Option (Option String)
status_msg s = get_elem? status_names (status_num s)

pub option_msg : ℕ → Option (Option String)
option_msg o = get_elem? option_names o

-- `rsupport_is_error`.
unfoldable pub is_error : Status → Bool
is_error s = ltb (status_num s) (status_num status_ok)

-- `getSocketPath`, for the path and what `getenv` gives; `none` is a null pointer.
pub get_socket_path : Option String → Option String → String
get_socket_path none none = "/tmp/lrt_rmaster.socket"
get_socket_path none (some env) = env
get_socket_path (some path) none = if str_eq path "" then "/tmp/lrt_rmaster.socket" else path
get_socket_path (some path) (some env) = if str_eq path "" then env else path
