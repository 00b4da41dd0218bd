-- ===== src/Support/Handle/Service.antt =====
-- RSupport/src/RSupport.cpp: the operations of the handle that pass on to the registry and the socket.
pub mod Pacing
mod Examples
use rbase.Base.{ℕ, Bool, Option, none, some, List, [], ◌∷◌, if◌then◌else◌, true, false}
use rbase.Base.Int.{ℤ, pos, ◌-ℤ◌}
use rbase.Base.Outcome.{Outcome, ok, ◌>>=◌}
use rbase.Entries.{bool, uint8}
use rbase.Value.{Value, truth}
use rbase.Detail.Continuous.{to_size_t}
use rbase.Reliability.{default_reliability}
use rbase.RCore.{RCore}
use rbase.Persistency.{PersistencyPolicy}
use rbase.Adapter
use rbase.Adapter.{Adapter}
use rbase.Receive.{Message, receive, adapter_at, with_adapter}
use rbase.Registry
use rbase.Registry.{World}
use rbase.Registry.Removal
use rbase.Support.{Status, status_ok, auto_frequency, auto_movement_burst}
use rbase.Support.Client
use rbase.Support.Client.{Client, Read}
use rbase.Support.Handle.{Handle, get_option}

module _ {B S : Type 0} where
  -- An operation of the socket, if there is one; else the status is ok.
  pub on_client : (Client → Status × Client) → Handle B S → Status × Handle B S
  on_client f h = elim h.client [
    | none ↦ (status_ok, h)
    | some (r, c) ↦ let (status, c') = f c in (status, record h { client = some (r, c') })
  ]

  -- `rsupport_handle_connect_create` and `rsupport_handle_disconnect`.
  pub handle_connect_create : Option ℤ → Bool → Handle B S → Status × Handle B S
  unfolding on_client
  handle_connect_create socket connected h = on_client (Client.connect socket connected) h

  pub handle_disconnect : Handle B S → Status × Handle B S
  unfolding on_client
  handle_disconnect h = on_client Client.disconnect h

  pub removed : Option ℕ → World B S → World B S
  removed none w = w
  removed (some r) w = Registry.Removal.remove_adapter r w

  -- `rsupport_handle_free`, up to the deletion: both adapters are removed from the registry.
  pub handle_free : Handle B S → Status × World B S
  unfolding removed
  handle_free h = (
    status_ok,
    removed h.console (removed (elim h.client [ none ↦ none | some (r, c) ↦ some r ]) h.world),
  )

module _ (core : RCore) {S : Type 0} where
  -- The entry `BRST_RBREAKOUT_MOVEMENT` is set, if the option asks for it.
  pub sync_movement : Handle core.Buffer S → Outcome (World core.Buffer S)
  unfolding get_option
  sync_movement h =
      if get_option auto_movement_burst (some h)
      then Registry.set core bool 4 (truth true) default_reliability h.world
      else ok h.world

-- What the clock says at the two points at which `rsupport_handle_service` asks it.
pub record Times : Type 0 where
  pub frame_end : ℕ
  pub next_start : ℕ

-- The argument of `sleep_for`: a second divided by the frequency, less the duration of the frame.
pub record Sleep : Type 0 where
  pub frequency : Value
  pub duration : ℤ

module _ (core : RCore) (policies : PersistencyPolicy) where
  open core use {Buffer}
  open policies use {State}

  -- The messages that one call of `read` of the console brings, first the first.
  pub receive_each : ℕ → List Message → World Buffer State → Outcome (World Buffer State)
  receive_each r [] w = ok w
  receive_each r (m ∷ ms) w = receive core policies r m w >>= receive_each r ms

  -- One round of the loop that waits for the console: `resetHadUpdate`, then `read`.
  pub read_console : ℕ → List Message → World Buffer State → Outcome (World Buffer State)
  unfolding receive_each with_adapter Adapter.reset_had_update
  read_console r ms w = do
    a ← adapter_at r w
    receive_each r ms (with_adapter r (Adapter.reset_had_update a) w)

  -- The loop, until `hadUpdate`: `none` is that it goes on when all that was read is used up.
  pub await_update :
      ℕ → List (List Message) → World Buffer State → Outcome (Option (World Buffer State))
  unfolding read_console
  await_update r [] w = ok none
  await_update r (ms ∷ rest) w = do
    w' ← read_console r ms w
    a ← adapter_at r w'
    elim a.had_update [ true ↦ ok (some w') | false ↦ await_update r rest w' ]

  -- The wait at the end of a frame: for the console, if there is one; else it sleeps.
  pub wait_for :
      Option ℕ
      → List (List Message)
      → Sleep
      → World Buffer State
      → Outcome (Option (World Buffer State × Option Sleep))
  unfolding await_update
  wait_for none reads sleep w = ok (some (w, some sleep))
  wait_for (some r) reads sleep w = do
    o ← await_update r reads w
    elim o [ none ↦ ok none | some w' ↦ ok (some (w', none)) ]

  -- The part under the option for the frequency.
  pub pace :
      Times
      → List (List Message)
      → Handle Buffer State
      → Outcome (Option (Handle Buffer State × Option Sleep))
  unfolding wait_for get_option
  pace times reads h =
      if get_option auto_frequency (some h)
      then (do
        let duration = pos times.frame_end -ℤ pos h.frame_start
        frequency ← Registry.get h.world uint8 12
        o ← wait_for h.console reads (record { frequency = frequency; duration = duration }) h.world
        elim o [
          | none ↦ ok none
          | some (w, sleep) ↦ ok (
              some (
                record h {
                  world = w;
                  frame_time = to_size_t duration;
                  frame_start = times.next_start;
                },
                sleep,
              ))
        ])
      else ok (some (h, none))

  -- `rsupport_handle_service`, with what it slept; `none` is that it waits for the console.
  pub handle_service :
      Read
      → Times
      → List (List Message)
      → Handle Buffer State
      → Outcome (Option ((Status × Handle Buffer State) × Option Sleep))
  unfolding sync_movement pace on_client
  handle_service r times reads h = do
    w ← sync_movement core h
    o ← pace times reads (record h { world = w })
    elim o [
      | none ↦ ok none
      | some (h', sleep) ↦ ok (some (on_client (Client.service r) h', sleep))
    ]
