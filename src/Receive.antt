-- ===== src/Receive.antt =====
-- RComm/include/RComm/LiteCommAdapter.hpp: the `finished` callback of the transmit buffer, which
-- handles a message that an adapter has received.
pub mod Paths
pub mod Ready
pub mod Applying
pub mod Delivery
pub mod Subscriptions
pub mod Serving
pub mod Handled
pub mod Total
pub mod History
pub mod Kept
pub mod Typing
pub mod Runs
mod Examples
use rbase.Base.{
  ℕ, Bool, true, false, not, Option, none, some, List, [], ◌∷◌, ◌++◌, leb, if◌then◌else◌,
}
use rbase.Base.Int.{ℤ}
use rbase.Base.Outcome.{Outcome, ok, fault, or_fault, out_of_bounds, null_registry, dangling, ◌>>=◌}
use rbase.Base.Assoc.{find, replace}
use rbase.Entries.{EntryType, string, type_of_num, entry_count, get_size_of_type}
use rbase.Dropper.{Policy, should_be_dropped, to_uint16}
use rbase.Reliability.{default_reliability}
use rbase.RCore.{RCore, MessageType, update, request, subscribe, unsubscribe, other}
use rbase.Persistency.{PersistencyPolicy}
use rbase.Adapter
use rbase.Adapter.{Adapter}
use rbase.Registry
use rbase.Registry.{World, CallbackCall}

-- `lrt_rcore_transmit_buffer_entry_t`, as far as it is read: type and sequence number are 8 and 16
-- bits wide, and so on.
pub record Message : Type 0 where
  pub type : ℕ
  pub property : ℕ
  pub message_type : MessageType
  pub reliable : Bool
  pub seq_number : ℕ
  pub bytes : List ℕ

-- The policy's verdict on an update, if there is a policy, and the policy after it.
pub verdict : Option Policy → Message → ℤ → Option (Bool × Option Policy)
verdict none m id = some (false, none)
verdict (some policy) m id = elim (should_be_dropped policy m.type m.property m.seq_number id) [
  | none ↦ none
  | some (dropped, policy') ↦ some (dropped, some policy')
]

module _ {B S : Type 0} where
  -- The world with the adapter `r` changed.
  unfoldable pub with_adapter : ℕ → Adapter B → World B S → World B S
  with_adapter r a w = record w { adapters = replace r a w.adapters }

  pub adapter_at : ℕ → World B S → Outcome (Adapter B)
  adapter_at r w = or_fault (find r w.adapters) dangling

module _ (core : RCore) {S : Type 0} where
  open core use {Buffer, from_data}

  -- The value of an update, set in the registry; the `switch` has no case for strings.
  pub set_received : EntryType → Message → World Buffer S → Outcome (World Buffer S)
  set_received string m w = ok w
  set_received t m w =
      Registry.set core t m.property (from_data t m.bytes (get_size_of_type t)) default_reliability
        w

  -- An update that is not dropped: while the value is set, the adapter accepts none.
  pub apply_update :
      ℕ → EntryType → Message → Adapter Buffer → World Buffer S → Outcome (World Buffer S)
  unfolding set_received with_adapter adapter_at
  apply_update r t m a w = do
    let closed = with_adapter r (record a { had_update = true; accept_property = false }) w
    w' ← (if a.has_registry then set_received t m closed else ok closed)
    a' ← adapter_at r w'
    ok (with_adapter r (record a' { accept_property = true }) w')

  -- `setBack`: the answer to a request.
  pub set_back : ℕ → EntryType → ℕ → Adapter Buffer → World Buffer S → Outcome (World Buffer S)
  unfolding with_adapter
  set_back r t property a w = if not a.has_registry then fault null_registry else do
    v ← Registry.get w t property
    (event, a') ← Adapter.set core t property v default_reliability a
    ok (with_adapter r a' w)

  -- A subscription of the other end, or its end.
  pub subscribe_remote :
      ℕ → EntryType → ℕ → Bool → Adapter Buffer → World Buffer S → Outcome (World Buffer S)
  unfolding with_adapter
  subscribe_remote r t property b a w = do
    a' ← Adapter.set_subscribed t property b a
    ok (with_adapter r a' w)

-- The call of a message callback, if one is set.
pub calls_of : {B : Type 0} → Option ℕ → EntryType → Message → Adapter B → List CallbackCall
calls_of none t m a = []
calls_of (some f) t m a =
    (record {
      callback = f;
      adapter_name = a.adapter_name;
      message_type = m.message_type;
      type = t;
      property = m.property;
      with_registry = a.has_registry;
    })
    ∷ []

module _ (core : RCore) (policies : PersistencyPolicy) where
  open core use {Buffer}
  open policies use {State, push}

  -- `callMessageCallback`.
  pub call_message_callback :
      EntryType → Message → Adapter Buffer → World Buffer State → Outcome (World Buffer State)
  unfolding calls_of
  call_message_callback t m a w = do
    cb ← Adapter.callback_of core m.message_type a
    ok (record w { calls = w.calls ++ calls_of cb t m a })

  pub pushed : EntryType → ℕ → Adapter Buffer → World Buffer State → Option State → Option State
  pushed t property a w none = none
  pushed t property a w (some s) = some (push w.values (to_uint16 a.adapter_id) t property s)

  -- The push to the persistency policy, behind the pointer to the registry.
  pub push_to_policy :
      EntryType → ℕ → Adapter Buffer → World Buffer State → Outcome (World Buffer State)
  unfolding pushed
  push_to_policy t property a w =
      if not a.has_registry
      then fault null_registry
      else ok (record w { policy = pushed t property a w w.policy })

  -- What follows the `switch` on the message's type.
  pub finish : ℕ → EntryType → Message → World Buffer State → Outcome (World Buffer State)
  unfolding call_message_callback push_to_policy adapter_at
  finish r t m w = do
    a ← adapter_at r w
    w' ← call_message_callback t m a w
    push_to_policy t m.property a w'

  -- The case of an update. A dropped one returns at once.
  pub handle_update :
      ℕ → EntryType → Message → Adapter Buffer → World Buffer State → Outcome (World Buffer State)
  unfolding verdict apply_update finish with_adapter
  handle_update r t m a w = do
    (dropped, dropper) ← or_fault (verdict a.dropper m a.adapter_id) out_of_bounds
    let a' = record a { dropper = dropper }
    if dropped
        then ok (with_adapter r a' w)
        else do w' ← apply_update core r t m a' w; finish r t m w'

  -- The `switch` on the message's type, and what follows it.
  pub dispatch :
      MessageType
      → ℕ
      → EntryType
      → Message
      → Adapter Buffer
      → World Buffer State
      → Outcome (World Buffer State)
  unfolding handle_update set_back subscribe_remote finish
  dispatch update r t m a w = handle_update r t m a w
  dispatch request r t m a w = do w' ← set_back core r t m.property a w; finish r t m w'
  dispatch subscribe r t m a w = do
    w' ← subscribe_remote core r t m.property true a w
    finish r t m w'
  dispatch unsubscribe r t m a w = do
    w' ← subscribe_remote core r t m.property false a w
    finish r t m w'
  dispatch (other n) r t m a w = finish r t m w

  -- The callback, for the adapter `r`: first the checks of type and property.
  pub receive : ℕ → Message → World Buffer State → Outcome (World Buffer State)
  unfolding dispatch
  receive r m w = elim (type_of_num m.type) [
    | none ↦ ok w
    | some t ↦
        if leb (entry_count t) m.property
        then ok w
        else (do a ← adapter_at r w; dispatch m.message_type r t m a w)
  ]
