-- ===== src/Link/Examples.antt =====
-- Two registries over a connection that loses nothing.
use rbase.Base.{◌≡◌, refl, true, false, some, List, [], ◌∷◌, arith}
use rbase.Base.Outcome.{ok}
use rbase.Base.Assoc.{find}
use rbase.Base.Int.{pos}
use rbase.Entries.{uint8}
use rbase.Value.{integer, value_eq}
use rbase.SubscriptionMap.Shape.{init-HasShape, get-init}
use rbase.RCore.{Event}
use rbase.Persistency.{no_persistency}
use rbase.Adapter
use rbase.Adapter.{Adapter, is_subscribed_to}
use rbase.Adapter.Flags.{subscribe_or}
use rbase.Registry
use rbase.Registry.{World}
use rbase.Registry.Pointers.{registered}
use rbase.Registry.Store.{set_new_value}
use rbase.Receive.{Message, receive}
use rbase.Receive.Kept.{keep_all-KeepsAll}
use rbase.Link.{Link, set_left, Reach, here, next, Arrives}
use rbase.Link.Sending.{IsSending}
use rbase.Link.Convergence.{Agree, catches_up}
use rbase.Link.Subscribing.{subscription_crosses}
use rbase.Sample.{uint8_not_string}
use rbase.Sample.Wired.{
  wired, wire, endpoint, node, node-IsWellFormed, endpoint-IsReady, node-IsServing, node_found,
}

node-IsSending : IsSending wired 1 uint8 3 node endpoint
unfolding registered
node-IsSending = record {
  well_formed = node-IsWellFormed;
  found = node_found;
  listed = refl;
  accepts = refl;
  subscribed = get-init true 4 3 16 refl (omega arith);
}

node-uint8 : Registry.get node uint8 3 ≡ ok (integer (pos 0))
unfolding Registry.get
node-uint8 = rw (get-init (integer (pos 0)) 4 3 16 refl (omega arith)) refl

-- 9 is no 0.
nine_is_new : value_eq (integer (pos 0)) (integer (pos 9)) ≡ false
unfolding value_eq
nine_is_new = refl

abbrev start : Link (List Message) (Unit {0})
start = record { left = node; right = node; arrived = 0 }

-- The left registry with the value 9, set with the reliability 1.
nine_set :
    (w' : World (List Message) (Unit {0})) × (Registry.set wired uint8 3 (integer (pos 9)) 1 node
      ≡ ok w')
nine_set =
    let r =
      set_new_value wired node uint8 3 (integer (pos 9)) 1 (integer (pos 0)) node-IsWellFormed
        uint8_not_string (omega arith) node-uint8 nine_is_new in
    (r.0, r.1)

abbrev after_set : Link (List Message) (Unit {0})
after_set = record start { left = nine_set.0 }

set_once : Reach wired wire no_persistency 1 1 start after_set
set_once = next here (
    set_left start uint8 3 (integer (pos 9)) 1 nine_set.0 uint8_not_string (omega arith)
      (omega arith) nine_set.1)

catches_up_example :
    (l' : Link (List Message) (Unit {0})) × Arrives wired wire no_persistency 1 1 after_set l'
    × (l'.left ≡ nine_set.0)
    × Agree wired wire no_persistency 1 1 uint8 3 [] l'
catches_up_example =
    catches_up wired wire no_persistency 1 1 uint8 3 start after_set endpoint endpoint (omega arith)
      node-IsSending node-IsServing node_found keep_all-KeepsAll refl refl set_once

subscription_crosses_example :
    (event : Event) × (here' : Adapter (List Message)) × (m : Message) × (w' : World
      (List Message)
      (Unit {0}))
    × (there' : Adapter (List Message)) × (subscribe_or wired false uint8 3 1 endpoint
        ≡ ok (event, here'))
    × (here'.buffer ≡ m ∷ [])
    × (receive wired no_persistency 1 m node ≡ ok w')
    × (find 1 w'.adapters ≡ some there')
    × (w'.values ≡ node.values)
    × (is_subscribed_to uint8 3 here' ≡ ok false)
    × (Adapter.is_subscribed uint8 3 there' ≡ ok false)
    × (is_subscribed_to uint8 4 here' ≡ is_subscribed_to uint8 4 endpoint)
    × (Adapter.is_subscribed uint8 4 there' ≡ Adapter.is_subscribed uint8 4 endpoint)
subscription_crosses_example =
    subscription_crosses wired wire no_persistency false 1 uint8 3 1 node endpoint endpoint uint8 4
      (init-HasShape false) (omega arith) node_found endpoint-IsReady (λ _ e. omega (arith, e))
