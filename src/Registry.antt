-- ===== src/Registry.antt =====
-- RRegistry/include/RRegistry/Registry.hpp: the registry, with the adapters and the receivers that
-- it tells of new values. The two removals are in Registry/Removal.
pub mod Removal
pub mod Pointers
pub mod Broadcast
pub mod Store
pub mod Defaults
pub mod Refinement
pub mod Typing
mod Examples
use rbase.Base.{
  ℕ, zero, suc, ◌%◌, ◌^◌, Bool, true, false, not, Option, none, some, List, [], ◌∷◌, ◌++◌, map,
  drop, length, String, get_elem?, ◌==◌, if◌then◌else◌,
}
use rbase.Base.Int.{ℤ}
use rbase.Base.Outcome.{Outcome, ok, fault, or_fault, out_of_bounds, ◌>>=◌}
use rbase.Base.Assoc.{find, replace}
use rbase.Entries.{EntryType, string, type_num, entry_count, all_types}
use rbase.Value.{Value, value_eq}
use rbase.SubscriptionMap
use rbase.SubscriptionMap.{SubscriptionMap}
use rbase.Detail.Names.{detail_of}
use rbase.Dropper.{to_uint16}
use rbase.Reliability.{basic_delivery, default_reliability}
use rbase.RCore.{RCore, MessageType}
use rbase.Persistency.{PersistencyPolicy}
use rbase.Adapter
use rbase.Adapter.{Adapter}

-- A call `receiver->onUpdate(type, property)`.
pub record Update : Type 0 where
  pub receiver : ℕ
  pub type : EntryType
  pub property : ℕ

-- A call of a message callback of an adapter; `with_registry` is whether it is given the registry.
pub record CallbackCall : Type 0 where
  pub callback : ℕ
  pub adapter_name : String
  pub message_type : MessageType
  pub type : EntryType
  pub property : ℕ
  pub with_registry : Bool

-- A `Registry`, with what it refers to. Adapters and receivers are known by numbers; an adapter
-- exists while `adapters` holds it. `m_adapters` holds weak pointers, where `none` is an empty one.
-- `updates` and `calls` are the calls of the receivers and of message callbacks so far.
pub record World (B S : Type 0) : Type 0 where
  pub values : SubscriptionMap Value
  pub adapter_refs : List (Option ℕ)
  pub receivers : List ℕ
  pub policy : Option S
  pub adapters : List (ℕ × Adapter B)
  pub updates : List Update
  pub calls : List CallbackCall

module _ {B S : Type 0} where
  -- `get`, over `getFromArray`: the property is what `static_cast<uint16_t>` gives.
  unfoldable pub get : World B S → EntryType → ℕ → Outcome Value
  get w t property = or_fault (SubscriptionMap.get w.values (type_num t) property) out_of_bounds

  -- `setToArray`.
  pub set_to_array : EntryType → ℕ → Value → World B S → World B S
  set_to_array t property v w = record w {
    values = SubscriptionMap.put w.values (type_num t) property v;
  }

  -- The loop over the receivers.
  pub notify : EntryType → ℕ → World B S → World B S
  notify t property w = record w {
    updates =
        w.updates ++ map (λ r. record { receiver = r; type = t; property = property }) w.receivers;
  }

  -- `registerAdapter` of an adapter that exists, by its number.
  pub register_adapter : ℕ → World B S → World B S
  register_adapter r w = record w { adapter_refs = w.adapter_refs ++ some r ∷ [] }

  pub add_receiver : ℕ → World B S → World B S
  add_receiver r w = record w { receivers = w.receivers ++ r ∷ [] }

  -- `setPersistencyPolicy`.
  pub set_persistency_policy : Option S → World B S → World B S
  set_persistency_policy policy w = record w { policy = policy }

-- `enablePersistencyPolicy` and `disablePersistencyPolicy`.
module _ {B : Type 0} (policies : PersistencyPolicy) where
  open policies use {State, enable, disable}

  pub enable_persistency_policy : String → World B State → World B State
  enable_persistency_policy file w = record w {
    policy = elim w.policy [ none ↦ none | some s ↦ some (enable file s) ];
  }

  pub disable_persistency_policy : World B State → World B State
  disable_persistency_policy w = record w {
    policy = elim w.policy [ none ↦ none | some s ↦ some (disable s) ];
  }

module _ (core : RCore) where
  open core use {Buffer}

  -- The loop over the adapters: `it->lock()`, then the adapter's `set`; a pointer to an adapter that
  -- is gone is erased. The pointers and the adapters after it.
  pub send_to_adapters :
      EntryType
      → ℕ
      → Value
      → ℕ
      → List (Option ℕ)
      → List (ℕ × Adapter Buffer)
      → Outcome (List (Option ℕ) × List (ℕ × Adapter Buffer))
  send_to_adapters t property v reliability [] live = ok ([], live)
  send_to_adapters t property v reliability (none ∷ refs) live =
      send_to_adapters t property v reliability refs live
  send_to_adapters t property v reliability (some r ∷ refs) live = elim (find r live) [
    | none ↦ send_to_adapters t property v reliability refs live
    | some a ↦ elim (Adapter.set core t property v reliability a) [
      | fault e ↦ fault e
      | ok (event, a') ↦ elim (send_to_adapters t property v reliability refs (replace r a' live)) [
        | fault e ↦ fault e
        | ok (refs', live') ↦ ok (some r ∷ refs', live')
      ]
    ]
  ]

module _ (core : RCore) {S : Type 0} where
  open core use {Buffer}

  -- What `set` does with a value that differs from the old one.
  pub store : EntryType → ℕ → Value → ℕ → World Buffer S → Outcome (World Buffer S)
  unfolding set_to_array notify send_to_adapters
  store t property v reliability w = do
    (refs, live) ← send_to_adapters core t property v reliability w.adapter_refs w.adapters
    ok (
        notify t property
          (record (set_to_array t property v w) { adapter_refs = refs; adapters = live }))

  -- `set` with a `Reliability`.
  pub set : EntryType → ℕ → Value → ℕ → World Buffer S → Outcome (World Buffer S)
  unfolding get store
  set t property v reliability w = do
    old ← get w t property
    if value_eq old v then ok w else store t property v reliability w

  -- `set` with a flag.
  pub set_with_flag : EntryType → ℕ → Value → Bool → World Buffer S → Outcome (World Buffer S)
  set_with_flag t property v reliable w =
      if reliable then set t property v default_reliability w else set t property v basic_delivery w

  -- `setIntProperty`, `getIntProperty`: the entry's number is an `int32_t`.
  pub set_int_property : EntryType → ℤ → Value → ℕ → World Buffer S → Outcome (World Buffer S)
  set_int_property t property v reliability w = set t (to_uint16 property) v reliability w

  pub get_int_property : EntryType → ℤ → World Buffer S → Outcome Value
  get_int_property t property w = get w t (to_uint16 property)

  -- One round of the loops of `initDefaults`; for a string its `switch` does nothing.
  pub init_default : EntryType → ℕ → World Buffer S → Outcome (World Buffer S)
  init_default string property w = ok w
  init_default t property w = do
    detail ← or_fault (get_elem? (detail_of t) property) out_of_bounds
    set t property detail.def default_reliability w

  -- The inner loop, with the rounds that are left.
  pub init_entries : EntryType → ℕ → ℕ → World Buffer S → Outcome (World Buffer S)
  unfolding init_default
  init_entries t zero property w = ok w
  init_entries t (suc n) property w = do
    w' ← init_default t property w
    init_entries t n (suc property) w'

  -- The outer loop, over the types that are left.
  pub init_types : List EntryType → World Buffer S → Outcome (World Buffer S)
  unfolding init_entries
  init_types [] w = ok w
  init_types (t ∷ ts) w = do w' ← init_entries t (entry_count t) 0 w; init_types ts w'

  -- `initDefaults`.
  pub init_defaults : World Buffer S → Outcome (World Buffer S)
  unfolding init_types
  init_defaults w = init_types all_types w

  -- The constructor: the arrays hold what was in memory, and are read before they are written.
  pub new_registry : SubscriptionMap Value → Outcome (World Buffer S)
  unfolding init_defaults
  new_registry memory = init_defaults (record {
    values = memory;
    adapter_refs = [];
    receivers = [];
    policy = none;
    adapters = [];
    updates = [];
    calls = [];
  })
