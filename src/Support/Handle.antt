-- ===== src/Support/Handle.antt =====
-- RSupport/src/RSupport.cpp: the handle, with the registry and the adapters that it creates.
pub mod Options
pub mod Service
pub mod Connecting
mod Examples
use rbase.Base.{
  ℕ, zero, suc, Bool, true, false, Option, none, some, List, [], ◌∷◌, get_elem?, leb, if◌then◌else◌,
}
use rbase.Base
use rbase.Base.Int.{ℤ, pos}
use rbase.Base.Outcome.{Outcome, ok, ◌>>=◌}
use rbase.Entries.{EntryType, uint8, bool}
use rbase.Value.{Value, truth}
use rbase.SubscriptionMap.{SubscriptionMap}
use rbase.Reliability.{default_reliability}
use rbase.RCore.{RCore}
use rbase.Adapter
use rbase.Adapter.{Adapter}
use rbase.Registry
use rbase.Registry.{World}
use rbase.Receive.{adapter_at, with_adapter}
use rbase.Support.{
  Status, status_ok, invalid_option, auto_frequency, auto_movement_burst, option_count,
}
use rbase.Support.Client
use rbase.Support.Client.{Client, Read}

-- `RSupportHandle`. The socket adapter is the adapter of that number, with its socket; the console
-- adapter is a number. `options` is the bit set. Points in time are nanoseconds since the clock's epoch.
pub record Handle (B S : Type 0) : Type 0 where
  pub world : World B S
  pub client : Option (ℕ × Client)
  pub console : Option ℕ
  pub options : List Bool
  pub frame_start : ℕ
  pub frame_time : ℕ

-- A bit of the bit set.
abbrev pub or_false : Option Bool → Bool
or_false none = false
or_false (some b) = b

module _ {B S : Type 0} where
  -- `rsupport_handle_set_option`. A null handle is `none`.
  pub set_option : ℕ → Bool → Option (Handle B S) → Status × Option (Handle B S)
  set_option option state none = (invalid_option, none)
  set_option option state (some h) =
      if leb option_count option
      then (invalid_option, some h)
      else (status_ok, some (record h { options = Base.set h.options option state }))

  -- `rsupport_handle_get_option`.
  pub get_option : ℕ → Option (Handle B S) → Bool
  get_option option none = false
  get_option option (some h) =
      if leb option_count option then false else or_false (get_elem? h.options option)

module _ (core : RCore) {S : Type 0} where
  open core use {Buffer}

  -- `rsupport_handle_create`: the new registry with the one adapter, and both options set. The first
  -- argument is what the clock says.
  pub handle_create : ℕ → Bool → Bool → SubscriptionMap Value → Outcome (Handle Buffer S)
  handle_create now console_only subscribed memory = do
    w ← Registry.new_registry core memory
    let a =
        Adapter.new_adapter core true (if console_only then true else subscribed) "Unnamed Adapter"
          (pos 0)
    let w' = Registry.register_adapter 0 (record w { adapters = (0, a) ∷ [] })
    ok (
        if console_only
        then record {
          world = w';
          client = none;
          console = some 0;
          options = true ∷ true ∷ [];
          frame_start = now;
          frame_time = 0;
        }
        else record {
          world = w';
          client = some (0, Client.new_client);
          console = none;
          options = true ∷ true ∷ [];
          frame_start = now;
          frame_time = 0;
        })

  -- The subscription that `rsupport_handle_connect` sends for `REGULATION_KERNEL_FREQUENCY`.
  pub subscribe_frequency : ℕ → World Buffer S → Outcome (World Buffer S)
  subscribe_frequency r w = do
    a ← adapter_at r w
    (event, a') ← Adapter.send_subscribe core uint8 12 default_reliability a
    ok (with_adapter r a' w)

  pub subscribe_if : Bool → ℕ → Handle Buffer S → Outcome (Status × Handle Buffer S)
  unfolding subscribe_frequency
  subscribe_if false r h = ok (status_ok, h)
  subscribe_if true r h = do
    w ← subscribe_frequency r h.world
    ok (status_ok, record h { world = w })

  pub after_connect : Status → ℕ → Handle Buffer S → Outcome (Status × Handle Buffer S)
  unfolding subscribe_if
  after_connect status_ok r h = subscribe_if (get_option auto_frequency (some h)) r h
  after_connect failure r h = ok (failure, h)

  pub connect_client :
      Option (ℕ × Client) → Option ℤ → Bool → Handle Buffer S → Outcome (Status × Handle Buffer S)
  unfolding after_connect
  connect_client none socket connected h = ok (status_ok, h)
  connect_client (some (r, c)) socket connected h =
      let (status, c') = Client.connect socket connected c in
      after_connect status r (record h { client = some (r, c') })

  -- `rsupport_handle_connect`, for what the operating system answers.
  pub handle_connect : Option ℤ → Bool → Handle Buffer S → Outcome (Status × Handle Buffer S)
  unfolding connect_client
  handle_connect socket connected h = connect_client h.client socket connected h

  -- `rsupport_handle_subscribe`, `_unsubscribe` and `_request`: the socket adapter, then the console.
  pub on_adapters :
      (Adapter Buffer → Outcome (Adapter Buffer)) → Handle Buffer S → Outcome (Handle Buffer S)
  on_adapters f h = do
    w ← on_one (elim h.client [ none ↦ none | some (r, c) ↦ some r ]) h.world
    w' ← on_one h.console w
    ok (record h { world = w' })
    where
      on_one : Option ℕ → World Buffer S → Outcome (World Buffer S)
      on_one none w = ok w
      on_one (some r) w = do a ← adapter_at r w; a' ← f a; ok (with_adapter r a' w)

  pub handle_subscribe : ℕ → ℕ → Handle Buffer S → Outcome (Handle Buffer S)
  handle_subscribe type property h =
      on_adapters (Adapter.subscribe_by_type_val core type property) h

  pub handle_unsubscribe : ℕ → ℕ → Handle Buffer S → Outcome (Handle Buffer S)
  handle_unsubscribe type property h =
      on_adapters (Adapter.unsubscribe_by_type_val core type property) h

  pub handle_request : ℕ → ℕ → Handle Buffer S → Outcome (Handle Buffer S)
  handle_request type property h = on_adapters (Adapter.request_by_type_val core type property) h

  -- The macros `GETTER` and `SETTER`.
  pub handle_get : EntryType → ℕ → Handle Buffer S → Outcome Value
  handle_get t property h = Registry.get h.world t property

  pub handle_set : EntryType → ℕ → Value → Handle Buffer S → Outcome (Handle Buffer S)
  handle_set t property v h = do
    w ← Registry.set core t property v default_reliability h.world
    ok (record h { world = w })
