-- ===== src/Support/Handle/Service/Examples.antt =====
-- A console that reads nothing twice, and then an update.
use rbase.Base.{◌≡◌, refl, some, none, List, [], ◌∷◌, true, if◌then◌else◌, arith}
use rbase.Base.Outcome.{ok}
use rbase.Base.Int.{pos}
use rbase.Entries.{uint8}
use rbase.Value.{Value, integer, value_eq}
use rbase.RCore.{update}
use rbase.Persistency.{no_persistency}
use rbase.Registry
use rbase.Registry.{World}
use rbase.Receive.{Message}
use rbase.Receive.Serving.{IsServing}
use rbase.Receive.Kept.{keep_all-KeepsAll}
use rbase.Sample.{uint8_not_string}
use rbase.Sample.Wired.{wired, endpoint, node, node-IsServing, node_found}
use rbase.Support.Handle.Service.{await_update}
use rbase.Support.Handle.Service.Pacing.{await_update-ends}

abbrev message : Message
message = record {
  type = 4;
  property = 3;
  message_type = update;
  reliable = true;
  seq_number = 1;
  bytes = 9 ∷ [];
}

await_update-ends_example :
    (w' : World (List Message) (Unit {0})) × (old : Value) × (await_update wired no_persistency 1
        ([] ∷ [] ∷ [])
        node
      ≡ ok none)
    × (await_update wired no_persistency 1 ([] ∷ [] ∷ (message ∷ []) ∷ []) node ≡ ok (some w'))
    × IsServing wired w'
    × (Registry.get node uint8 3 ≡ ok old)
    × (Registry.get w' uint8 3
        ≡ ok (if value_eq old (integer (pos 9)) then old else integer (pos 9)))
await_update-ends_example =
    await_update-ends wired no_persistency 1 2 uint8 message [] node endpoint node-IsServing
      node_found uint8_not_string (omega arith) refl refl keep_all-KeepsAll
