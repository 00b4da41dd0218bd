-- ===== src/Sample/Wired.antt =====
-- A connection that loses nothing: the transmit buffer is the list of the messages sent, the first
-- first.
use rbase.Base.{
  ℕ, ◌%◌, ◌≡◌, ◌≢◌, refl, Bool, true, false, Option, none, some, ap, ◌∙◌, List, [], ◌∷◌, ◌++◌,
  length,
}
use rbase.Base.Int.{pos}
use rbase.Entries.{EntryType, type_of_num, type_num, string, get_size_of_type}
use rbase.Value.{Value, integer, HasType}
use rbase.SubscriptionMap
use rbase.Dropper.{keep_all}
use rbase.RCore.{RCore, MessageType, update, event_ok}
use rbase.Adapter.{Adapter}
use rbase.Registry.{World}
use rbase.Base.Assoc.{find}
use rbase.SubscriptionMap.Shape.{init-HasShape}
use rbase.Registry.Pointers.{registered, AllShaped-cons, AllShaped-nil}
use rbase.Registry.Store.{IsWellFormed}
use rbase.Receive.Ready.{IsReady}
use rbase.Receive.Serving.{IsServing, AllReady-cons, AllReady-nil}
use rbase.Receive.{Message}
use rbase.Link.{Wire, Carries}
use rbase.Detail.Names.Lookup.{type_of_num-type_num}
use rbase.Sample.{number_of, number_of_lt}
use rbase.Sample.Codec.{encode, decode, decode_typed, decode-encode}

abbrev pub encoded : Option EntryType → Value → List ℕ
encoded none v = []
encoded (some t) v = encode t v

abbrev pub message : List Message → ℕ → ℕ → MessageType → List ℕ → Bool → Message
message b type property k bytes ack = record {
  type = type;
  property = property;
  message_type = k;
  reliable = ack;
  seq_number = length b % 65_536;
  bytes = bytes;
}

abbrev pub wired : RCore
wired = record {
  Buffer = List Message;
  new_buffer = [];
  send_value =
      λ b t p v ack. (b ++ message b t p update (encoded (type_of_num t) v) ack ∷ [], event_ok);
  send_ctrl = λ b t p k ack. (b ++ message b t p k [] ack ∷ [], event_ok);
  from_data = decode;
  from_data_typed = decode_typed;
  message_type_count = 5;
  message_type_to_num = number_of;
  message_type_to_num_lt = number_of_lt;
}

pub sends_decoded :
    (b : List Message) (t : EntryType) (p : ℕ) (v : Value) (ack : Bool)
    → t ≢ string
    → HasType t v
    → (m : Message) × ((wired.send_value b (type_num t) p v ack).0 ≡ b ++ m ∷ [])
      × Carries wired t p v m
sends_decoded b t p v ack ns typed =
    let known = ap (λ o. encoded o v) (type_of_num-type_num t) in
    (
      message b (type_num t) p update (encoded (type_of_num (type_num t)) v) ack,
      refl,
      (
        (refl, refl, refl),
        ap (λ bytes. decode t bytes (get_size_of_type t)) known ∙ decode-encode t v ns typed,
      ),
    )

abbrev pub wire : Wire wired
wire = record {
  sent = λ b. b;
  sends_value = sends_decoded;
  sends_ctrl = λ b t p k ack. (message b (type_num t) p k [] ack, refl, (refl, refl, refl));
}

abbrev pub endpoint : Adapter (List Message)
endpoint = record {
  has_registry = true;
  accept_property = true;
  adapter_name = "end";
  subscriptions = SubscriptionMap.init true;
  subscriptions_remote = SubscriptionMap.init false;
  adapter_id = pos 1;
  message_callback = none ∷ none ∷ none ∷ none ∷ none ∷ [];
  dropper = some keep_all;
  buffer = [];
  current_reliability = 1;
  had_update = false;
}

-- A registry with the one adapter 1.
abbrev pub node : World (List Message) (Unit {0})
node = record {
  values = SubscriptionMap.init (integer (pos 0));
  adapter_refs = some 1 ∷ [];
  receivers = [];
  policy = none;
  adapters = (1, endpoint) ∷ [];
  updates = [];
  calls = [];
}

pub node-IsWellFormed : IsWellFormed node
unfolding registered
node-IsWellFormed = record {
  values_shape = init-HasShape (integer (pos 0));
  adapters_shape = AllShaped-cons 1 endpoint [] (init-HasShape true) AllShaped-nil;
  refs_distinct = (refl, tt);
}

pub endpoint-IsReady : IsReady wired endpoint
endpoint-IsReady = record {
  connected = refl;
  slots = refl;
  shaped = init-HasShape true;
  policy_shaped = tt;
}

pub node-IsServing : IsServing wired node
node-IsServing = record {
  values_shape = init-HasShape (integer (pos 0));
  refs_distinct = node-IsWellFormed.refs_distinct;
  all_ready = AllReady-cons wired 1 endpoint [] endpoint-IsReady (AllReady-nil wired);
}

pub node_found : find 1 node.adapters ≡ some endpoint
unfolding find
node_found = refl
