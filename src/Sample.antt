-- ===== src/Sample.antt =====
-- A small registry with two connections, and a transmit buffer that keeps what is sent: concrete
-- values for the parameters and the hypotheses of the theorems.
pub mod Codec
pub mod Wired
use rbase.Base.{ℕ, ◌<◌, ◌≡◌, ◌≢◌, refl, Bool, true, false, none, some, List, [], ◌∷◌, String, arith}
use rbase.Base.Int.{pos}
use rbase.Base.Outcome.{ok}
use rbase.Entries.{uint8, string}
use rbase.Value.{Value, integer}
use rbase.Sample.Codec.{decode, decode_typed}
use rbase.SubscriptionMap
use rbase.SubscriptionMap.{SubscriptionMap}
use rbase.SubscriptionMap.Shape.{init-HasShape, get-init}
use rbase.Dropper.{keep_all}
use rbase.RCore.{RCore, MessageType, update, request, subscribe, unsubscribe, other, event_ok}
use rbase.Adapter.{Adapter}
use rbase.Registry
use rbase.Registry.{World}
use rbase.Registry.Pointers.{AllShaped-cons, AllShaped-nil, registered}
use rbase.Registry.Store.{IsWellFormed}

-- What a buffer has sent, the last first.
pub data Sent : Type 0 where
  sent_value : ℕ → ℕ → Value → Bool → Sent
  sent_ctrl : ℕ → ℕ → MessageType → Bool → Sent

abbrev pub number_of : MessageType → ℕ
number_of update = 0
number_of request = 1
number_of subscribe = 2
number_of unsubscribe = 3
number_of (other n) = 4

pub number_of_lt : (m : MessageType) → number_of m < 5
number_of_lt (other n) = omega arith
number_of_lt _ = omega arith

abbrev pub loopback : RCore
loopback = record {
  Buffer = List Sent;
  new_buffer = [];
  send_value = λ b t p v ack. (sent_value t p v ack ∷ b, event_ok);
  send_ctrl = λ b t p m ack. (sent_ctrl t p m ack ∷ b, event_ok);
  from_data = decode;
  from_data_typed = decode_typed;
  message_type_count = 5;
  message_type_to_num = number_of;
  message_type_to_num_lt = number_of_lt;
}

abbrev pub connection : String → Adapter (List Sent)
connection name = record {
  has_registry = true;
  accept_property = true;
  adapter_name = name;
  subscriptions = SubscriptionMap.init true;
  subscriptions_remote = SubscriptionMap.init false;
  adapter_id = pos 1;
  message_callback = none ∷ none ∷ none ∷ none ∷ none ∷ [];
  dropper = some keep_all;
  buffer = [];
  current_reliability = 1;
  had_update = false;
}

-- Two connections, 1 and 2, and a pointer to a third that is gone.
abbrev pub world : World (List Sent) (Unit {0})
world = record {
  values = SubscriptionMap.init (integer (pos 0));
  adapter_refs = some 1 ∷ some 3 ∷ some 2 ∷ [];
  receivers = 8 ∷ 9 ∷ [];
  policy = none;
  adapters = (1, connection "left") ∷ (2, connection "right") ∷ [];
  updates = [];
  calls = [];
}

pub world-IsWellFormed : IsWellFormed world
unfolding registered
world-IsWellFormed = record {
  values_shape = init-HasShape (integer (pos 0));
  adapters_shape =
      AllShaped-cons 1 (connection "left") _ (init-HasShape true)
        (AllShaped-cons 2 (connection "right") [] (init-HasShape true) AllShaped-nil);
  refs_distinct = (refl, (refl, (refl, tt)));
}

pub world-uint8 : Registry.get world uint8 3 ≡ ok (integer (pos 0))
unfolding Registry.get
world-uint8 = rw (get-init (integer (pos 0)) 4 3 16 refl (omega arith)) refl

pub uint8_not_string : uint8 ≢ string
uint8_not_string e = cc
