-- ===== src/Support/Handle/Examples.antt =====
-- A handle whose socket adapter is the connection 1 of the sample registry.
use rbase.Base.{◌≡◌, refl, inl, true, false, none, some, List, [], ◌∷◌}
use rbase.Base.Int.{pos}
use rbase.Base.Outcome.{ok}
use rbase.Base.Assoc.{find}
use rbase.Entries.{uint8}
use rbase.SubscriptionMap.Shape.{init-HasShape}
use rbase.RCore.{event_ok}
use rbase.Adapter
use rbase.Adapter.{Adapter}
use rbase.Support.{Status, status_ok, is_error}
use rbase.Support.Client.{Client, transmit, new_client}
use rbase.Support.Handle.{Handle, get_option, handle_connect}
use rbase.Support.Handle.Connecting.{SubscribeSent, connect_subscribes, failed_connect_silent}
use rbase.Sample.{loopback, Sent, world, connection}

abbrev handle : Handle (List Sent) (Unit {0})
handle = record {
  world = world;
  client = some (1, new_client);
  console = none;
  options = true ∷ true ∷ [];
  frame_start = 0;
  frame_time = 0;
}

left_found : find 1 handle.world.adapters ≡ some (connection "left")
unfolding find
left_found = refl

auto_is_set : get_option 0 (some handle) ≡ true
unfolding get_option
auto_is_set = refl

connect_subscribes_example :
    (h' : Handle (List Sent) (Unit {0})) × (a' : Adapter (List Sent)) × (handle_connect loopback
        (some (pos 5))
        true
        handle
      ≡ ok (status_ok, h'))
    × (h'.client ≡ some (1, record new_client { fd = pos 5 }))
    × (h'.world.values ≡ handle.world.values)
    × (find 1 h'.world.adapters ≡ some a')
    × (Adapter.is_subscribed_to uint8 12 a' ≡ ok true)
    × SubscribeSent loopback (connection "left") a'
connect_subscribes_example =
    connect_subscribes loopback (pos 5) handle 1 new_client (connection "left") refl left_found
      (init-HasShape false) auto_is_set

failed_connect_silent_example :
    (status : Status) × (h' : Handle (List Sent) (Unit {0})) × (c' : Client) × (handle_connect
        loopback none true handle
      ≡ ok (status, h'))
    × (is_error status ≡ true)
    × (h'.world ≡ handle.world)
    × (h'.client ≡ some (1, c'))
    × (transmit true c' ≡ (event_ok, false))
failed_connect_silent_example =
    failed_connect_silent loopback none true true handle 1 new_client refl (inl refl)
