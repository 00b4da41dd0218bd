-- ===== src/RCore.antt =====
-- What LiteCommAdapter.hpp uses of RCore, a submodule whose code is not in the repository: the
-- transmit buffer, the decoding of values, and the numbers of the message types. It is a parameter.
use rbase.Base.{ℕ, ◌<◌, ◌≢◌, Bool, List}
use rbase.Entries.{EntryType, string}
use rbase.Value.{Value, HasType}

-- `lrt_rcp_message_type_t`: the four that the adapter handles, and any other.
pub data MessageType : Type 0 where
  update request subscribe unsubscribe : MessageType
  other : ℕ → MessageType

-- `lrt_rcore_event_t`: the events that the repository names, and any other.
pub data Event : Type 0 where
  event_ok not_accepted not_subscribed transmit_error generic_acceptor_error : Event
  other_event : ℕ → Event

pub record RCore : Type 1 where
  -- `lrt_rcore_transmit_buffer`, with all that its callback `send` has transmitted.
  pub Buffer : Type 0
  -- `lrt_rcore_transmit_buffer_init`
  pub new_buffer : Buffer
  -- `lrt_rcore_transmit_buffer_send_<CLASS>`: type, property, value, acknowledged
  pub send_value : Buffer → ℕ → ℕ → Value → Bool → Buffer × Event
  -- `lrt_rcore_transmit_buffer_send_ctrl`
  pub send_ctrl : Buffer → ℕ → ℕ → MessageType → Bool → Buffer × Event
  -- `lrt_librcp_<CLASS>_from_data`: the bytes and the size of the value
  pub from_data : EntryType → List ℕ → ℕ → Value
  -- It returns a value of the C type of CLASS; there is none for strings.
  pub from_data_typed :
      (t : EntryType) (bytes : List ℕ) (size : ℕ) → t ≢ string → HasType t (from_data t bytes size)
  -- `LRT_RCP_MESSAGE_TYPE_COUNT` and `lrt_rcp_message_type_to_num`, which numbers below it
  pub message_type_count : ℕ
  pub message_type_to_num : MessageType → ℕ
  pub message_type_to_num_lt : (m : MessageType) → message_type_to_num m < message_type_count
