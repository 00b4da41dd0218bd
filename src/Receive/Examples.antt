-- ===== src/Receive/Examples.antt =====
-- Messages received by the connections of the sample registry.
use rbase.Base.{ℕ, ◌≡◌, ◌≢◌, refl, true, false, some, List, [], ◌∷◌, arith, if◌then◌else◌}
use rbase.Base.Outcome.{ok, fault, null_registry, assertion}
use rbase.Base.Assoc.{find}
use rbase.Base.Int.{pos}
use rbase.Entries.{uint8}
use rbase.Value.{Value, integer, value_eq}
use rbase.SubscriptionMap
use rbase.SubscriptionMap.Shape.{init-HasShape}
use rbase.Dropper.{should_be_dropped}
use rbase.RCore.{MessageType, update, request}
use rbase.Persistency.{no_persistency}
use rbase.Adapter.{Adapter}
use rbase.Adapter.Told.{told}
use rbase.Registry
use rbase.Registry.{World, new_registry}
use rbase.Registry.Pointers.{registered}
use rbase.Registry.Broadcast.{told_if_any}
use rbase.Reliability.{default_reliability}
use rbase.Receive.{Message, receive, verdict}
use rbase.Receive.Ready.{IsReady}
use rbase.Receive.Paths.{request_told, string_request_aborts}
use rbase.Receive.Delivery.{update_delivered, detached_update_faults}
use rbase.Receive.Runs.{Happening, received, assigned}
use rbase.Registry.Defaults.{new_registry-HoldsDefaults}
use rbase.Sample.{
  loopback, Sent, connection, world, world-IsWellFormed, world-uint8, uint8_not_string,
}

-- A message for the entry 3 of the type `Uint8`, with the value 9.
abbrev message : MessageType → Message
message k = record {
  type = 4;
  property = 3;
  message_type = k;
  reliable = true;
  seq_number = 1;
  bytes = 9 ∷ [];
}

abbrev left : Adapter (List Sent)
left = connection "left"

left-IsReady : IsReady loopback left
left-IsReady = record {
  connected = refl;
  slots = refl;
  shaped = init-HasShape true;
  policy_shaped = tt;
}

left_found : find 1 world.adapters ≡ some left
unfolding find
left_found = refl

left_keeps :
    (k : MessageType)
    → verdict left.dropper (message k) left.adapter_id ≡ some (false, left.dropper)
unfolding verdict should_be_dropped
left_keeps k = refl

update_delivered_example :
    (w' : World (List Sent) (Unit {0})) × (receive loopback no_persistency 1 (message update) world
      ≡ ok w')
    × (Registry.get w' uint8 3 ≡ ok (integer (pos 9)))
    × (find 1 w'.adapters ≡ some (record left { had_update = true }))
    × ((q : ℕ)
        → 1 ≢ q
        → find q w'.adapters ≡ (
            if registered q world.adapter_refs
            then told_if_any loopback uint8 3
                (integer (pos 9))
                default_reliability
                (find q world.adapters)
            else find q world.adapters))
    × (w'.updates
        ≡ record { receiver = 8; type = uint8; property = 3 }
          ∷ record { receiver = 9; type = uint8; property = 3 }
          ∷ [])
unfolding value_eq
update_delivered_example =
    update_delivered loopback no_persistency 1 uint8 (message update) world left left.dropper
      (integer (pos 0)) left_found refl (omega arith) uint8_not_string refl left-IsReady
      world-IsWellFormed (left_keeps update) world-uint8 refl

request_told_example :
    (v : Value) × (w' : World (List Sent) (Unit {0})) × (Registry.get world uint8 3 ≡ ok v)
    × (receive loopback no_persistency 1 (message request) world ≡ ok w')
    × (w'.values ≡ world.values)
    × (find 1 w'.adapters ≡ some (told loopback uint8 3 v default_reliability left))
request_told_example =
    request_told loopback no_persistency 1 uint8 (message request) world left left_found refl
      (omega arith) refl uint8_not_string (init-HasShape (integer (pos 0))) left-IsReady

-- A connection whose pointer to the registry is null.
abbrev detached_world : World (List Sent) (Unit {0})
detached_world = record world { adapters = (1, record left { has_registry = false }) ∷ [] }

detached_found : find 1 detached_world.adapters ≡ some (record left { has_registry = false })
unfolding find
detached_found = refl

detached_update_faults_example :
    receive loopback no_persistency 1 (message update) detached_world ≡ fault null_registry
detached_update_faults_example =
    detached_update_faults loopback no_persistency 1 uint8 (message update) detached_world
      (record left { has_registry = false }) left.dropper detached_found refl (omega arith) refl
      refl refl (left_keeps update)

string_request_aborts_example :
    receive loopback no_persistency 1 (record (message request) { type = 11; property = 0 }) world
    ≡ fault assertion
string_request_aborts_example =
    string_request_aborts loopback no_persistency 1
      (record (message request) { type = 11; property = 0 }) world left left_found refl
      (omega arith) refl refl (init-HasShape (integer (pos 0)))

-- A registry that is made over arrays full of zeros.
made :
    (w : World (List Sent) (Unit {0})) × (new_registry loopback
        (SubscriptionMap.init (integer (pos 0)))
      ≡ ok w)
made =
    let r =
      new_registry-HoldsDefaults loopback (SubscriptionMap.init (integer (pos 0)))
        (init-HasShape (integer (pos 0))) in
    (r.0, r.1)

abbrev happenings : List Happening
happenings =
    received 1 (message update)
    ∷ assigned uint8 3 (integer (pos 255)) 1
    ∷ received 2 (record (message update) { type = 200 })
    ∷ []

-- The registry with the adapters of the sample.
abbrev made_world : World (List Sent) (Unit {0})
made_world = record made.0 { adapters = world.adapters; adapter_refs = world.adapter_refs }
