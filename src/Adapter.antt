-- ===== src/Adapter.antt =====
-- RComm/include/RComm/LiteCommAdapter.hpp: one end of a connection. The callback that handles a
-- received message is in Receive, since it needs the registry.
pub mod Told
pub mod Flags
use rbase.Base.{
  ℕ, zero, suc, length, Bool, true, false, not, Option, none, some, List, [], map, String,
  get_elem?, replicate, if◌then◌else◌,
}
use rbase.Base
use rbase.Base.Int.{ℤ}
use rbase.Base.Outcome.{◌>>=◌, Outcome, ok, fault, or_fault, out_of_bounds, assertion}
use rbase.Entries.{EntryType, string, type_num, type_of_num}
use rbase.Value.{Value}
use rbase.SubscriptionMap
use rbase.SubscriptionMap.{SubscriptionMap}
use rbase.Dropper.{Policy, keep_all}
use rbase.Reliability.{default_reliability, acknowledged, reliability_contains}
use rbase.RCore.{
  RCore, MessageType, request, subscribe, unsubscribe, Event, not_accepted, not_subscribed,
}

-- The members of `LiteCommAdapter`. `has_registry` is whether `m_registry` is set, and a message
-- callback is a number that stands for the function.
pub record Adapter (B : Type 0) : Type 0 where
  pub has_registry : Bool
  pub accept_property : Bool
  pub adapter_name : String
  pub subscriptions : SubscriptionMap Bool
  pub subscriptions_remote : SubscriptionMap Bool
  pub adapter_id : ℤ
  pub message_callback : List (Option ℕ)
  pub dropper : Option Policy
  pub buffer : B
  pub current_reliability : ℕ
  pub had_update : Bool

-- A write to a subscription map: out of bounds it is a fault.
unfoldable pub write_flag :
    SubscriptionMap Bool → EntryType → ℕ → Bool → Outcome (SubscriptionMap Bool)
write_flag m t property b = do
  old ← or_fault (SubscriptionMap.get m (type_num t) property) out_of_bounds
  ok (SubscriptionMap.put m (type_num t) property b)

module _ (core : RCore) where
  open core use {Buffer, new_buffer, send_value, send_ctrl, message_type_count, message_type_to_num}

  -- The constructor. `m_currentReliability` has no initial value there; it is written before each
  -- send.
  pub new_adapter : Bool → Bool → String → ℤ → Adapter Buffer
  new_adapter has_registry subscribed name id = record {
    has_registry = has_registry;
    accept_property = true;
    adapter_name = name;
    subscriptions = SubscriptionMap.init subscribed;
    subscriptions_remote = SubscriptionMap.init false;
    adapter_id = id;
    message_callback = replicate message_type_count none;
    dropper = some keep_all;
    buffer = new_buffer;
    current_reliability = default_reliability;
    had_update = false;
  }

  -- The rest of `set`, once the property is known to be subscribed.
  unfoldable pub send_set : EntryType → ℕ → Value → ℕ → Adapter Buffer → Event × Adapter Buffer
  send_set t property v reliability a =
      let (buffer, event) =
        send_value a.buffer (type_num t) property v
          (reliability_contains reliability acknowledged) in
      (event, record a { current_reliability = reliability; buffer = buffer })

  -- The test of the subscription in `set`.
  pub set_checked :
      Option Bool → EntryType → ℕ → Value → ℕ → Adapter Buffer → Outcome (Event × Adapter Buffer)
  set_checked none t property v reliability a = fault out_of_bounds
  set_checked (some false) t property v reliability a = ok (not_subscribed, a)
  set_checked (some true) t property v reliability a = ok (send_set t property v reliability a)

  -- `set` of the types other than `String`.
  pub set_value : EntryType → ℕ → Value → ℕ → Adapter Buffer → Outcome (Event × Adapter Buffer)
  unfolding set_checked send_set
  set_value t property v reliability a =
      if not a.accept_property
      then ok (not_accepted, a)
      else set_checked (SubscriptionMap.get a.subscriptions (type_num t) property) t property v
          reliability a

  -- `set`; the specialisation for `String` in RRegistry/Registry.hpp is `assert(false)`.
  unfoldable pub set : EntryType → ℕ → Value → ℕ → Adapter Buffer → Outcome (Event × Adapter Buffer)
  set string property v reliability a = fault assertion
  set t property v reliability a = set_value t property v reliability a

  -- `sendRequestSubscribeUpdate`.
  unfoldable pub send_request_subscribe_update :
      EntryType → ℕ → MessageType → ℕ → Adapter Buffer → Event × Adapter Buffer
  send_request_subscribe_update t property message_type reliability a =
      let (buffer, event) =
        send_ctrl a.buffer (type_num t) property message_type
          (reliability_contains reliability acknowledged) in
      (event, record a { current_reliability = reliability; buffer = buffer })

  -- `request`.
  unfoldable pub send_request : EntryType → ℕ → ℕ → Adapter Buffer → Event × Adapter Buffer
  unfolding send_request_subscribe_update
  send_request t property reliability a =
      send_request_subscribe_update t property request reliability a

  -- `subscribe`.
  unfoldable pub send_subscribe :
      EntryType → ℕ → ℕ → Adapter Buffer → Outcome (Event × Adapter Buffer)
  unfolding write_flag send_request_subscribe_update
  send_subscribe t property reliability a = do
    remote ← write_flag a.subscriptions_remote t property true
    ok (
        send_request_subscribe_update t property subscribe reliability
          (record a { subscriptions_remote = remote }))

  -- `unsubscribe`.
  unfoldable pub send_unsubscribe :
      EntryType → ℕ → ℕ → Adapter Buffer → Outcome (Event × Adapter Buffer)
  unfolding write_flag send_request_subscribe_update
  send_unsubscribe t property reliability a = do
    remote ← write_flag a.subscriptions_remote t property false
    ok (
        send_request_subscribe_update t property unsubscribe reliability
          (record a { subscriptions_remote = remote }))

  -- `requestByTypeVal`, `subscribeByTypeVal` and `unsubscribeByTypeVal`, with the type as a number:
  -- an unknown type does nothing.
  pub request_by_type_val : ℕ → ℕ → Adapter Buffer → Outcome (Adapter Buffer)
  unfolding send_request
  request_by_type_val type property a = elim (type_of_num type) [
    | none ↦ ok a
    | some t ↦ ok (send_request t property default_reliability a).1
  ]

  pub subscribe_by_type_val : ℕ → ℕ → Adapter Buffer → Outcome (Adapter Buffer)
  unfolding send_subscribe
  subscribe_by_type_val type property a = elim (type_of_num type) [
    | none ↦ ok a
    | some t ↦ (do (event, a') ← send_subscribe t property default_reliability a; ok a')
  ]

  pub unsubscribe_by_type_val : ℕ → ℕ → Adapter Buffer → Outcome (Adapter Buffer)
  unfolding send_unsubscribe
  unsubscribe_by_type_val type property a = elim (type_of_num type) [
    | none ↦ ok a
    | some t ↦ (do (event, a') ← send_unsubscribe t property default_reliability a; ok a')
  ]

  -- `setMessageCallback`.
  pub set_message_callback : MessageType → Option ℕ → Adapter Buffer → Adapter Buffer
  set_message_callback m cb a = record a {
    message_callback = Base.set a.message_callback (message_type_to_num m) cb;
  }

  -- The callback that `callMessageCallback` calls, if one is set.
  unfoldable pub callback_of : MessageType → Adapter Buffer → Outcome (Option ℕ)
  callback_of m a = or_fault (get_elem? a.message_callback (message_type_to_num m)) out_of_bounds

-- What the loops of `remoteUnsubscribeFromAll` work on: the map, and the variable `auto type`, which is
-- a copy of a row.
pub record Unsubscribing : Type 0 where
  pub rows : SubscriptionMap Bool
  pub type : List Bool

-- One round of the outer loop: the row is copied to `type`, and `entry`, of the inner loop, refers into
-- `type`.
unfoldable pub unsubscribe_row : ℕ → Unsubscribing → Unsubscribing
unsubscribe_row i s = elim (get_elem? s.rows i) [
  | none ↦ s
  | some row ↦ record s { type = map (λ _. false) row }
]

-- The outer loop, with the rounds that are left.
unfoldable pub unsubscribe_rows : ℕ → ℕ → Unsubscribing → Unsubscribing
unfolding unsubscribe_row
unsubscribe_rows zero i s = s
unsubscribe_rows (suc n) i s = unsubscribe_rows n (suc i) (unsubscribe_row i s)

module _ {B : Type 0} where
  -- `isSubscribed`, `setSubscribed` and `isSubscribedTo`.
  unfoldable pub is_subscribed : EntryType → ℕ → Adapter B → Outcome Bool
  is_subscribed t property a =
      or_fault (SubscriptionMap.get a.subscriptions (type_num t) property) out_of_bounds

  unfoldable pub set_subscribed : EntryType → ℕ → Bool → Adapter B → Outcome (Adapter B)
  unfolding write_flag
  set_subscribed t property b a = do
    subscriptions ← write_flag a.subscriptions t property b
    ok (record a { subscriptions = subscriptions })

  pub is_subscribed_to : EntryType → ℕ → Adapter B → Outcome Bool
  is_subscribed_to t property a =
      or_fault (SubscriptionMap.get a.subscriptions_remote (type_num t) property) out_of_bounds

  -- `remoteUnsubscribeFromAll`.
  unfoldable pub remote_unsubscribe_from_all : Adapter B → Adapter B
  unfolding unsubscribe_rows
  remote_unsubscribe_from_all a =
      let start : Unsubscribing = record { rows = a.subscriptions; type = [] } in
      record a { subscriptions = (unsubscribe_rows (length a.subscriptions) 0 start).rows }

  -- The plain setters.
  pub set_dropper_policy : Option Policy → Adapter B → Adapter B
  set_dropper_policy policy a = record a { dropper = policy }

  pub set_accept_property : Bool → Adapter B → Adapter B
  set_accept_property accept a = record a { accept_property = accept }

  unfoldable pub reset_had_update : Adapter B → Adapter B
  reset_had_update a = record a { had_update = false }

  pub set_adapter_name : String → Adapter B → Adapter B
  set_adapter_name name a = record a { adapter_name = name }

  pub set_adapter_id : ℤ → Adapter B → Adapter B
  set_adapter_id id a = record a { adapter_id = id }
