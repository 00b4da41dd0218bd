-- ===== src/Registry/Examples.antt =====
-- The registry at concrete worlds.
use rbase.Base.{ℕ, ◌≡◌, refl, none, some, List, [], ◌∷◌, arith}
use rbase.Base.Outcome.{ok}
use rbase.Base.Assoc.{find}
use rbase.Entries.{EntryType, uint8}
use rbase.Value.{Value, integer, value_eq}
use rbase.Base.Int.{pos}
use rbase.Registry
use rbase.Registry.{World, Update, init_defaults, new_registry}
use rbase.Registry.Pointers.{alive}
use rbase.Registry.Broadcast.{Told}
use rbase.Registry.Removal.{
  remove_receiver, remove_adapter, remove_receiver-once, remove_adapter-once, points_to,
}
use rbase.Registry.Store.{IsWellFormed, set_new_value, get-set, set-IsWellFormed}
use rbase.Registry.Defaults.{HoldsDefaults, init_defaults-HoldsDefaults}
use rbase.Registry.Refinement.{table_set_all, set_all, set_all-refines}
use rbase.Sample.{
  loopback, Sent, world, world-IsWellFormed, world-uint8, uint8_not_string, connection,
}

abbrev nine : Value
nine = integer (pos 9)

set_new_value_example :
    (w' : World (List Sent) Unit) × (Registry.set loopback uint8 3 nine 1 world ≡ ok w')
    × (Registry.get w' uint8 3 ≡ ok nine)
    × Told loopback uint8 3 nine 1 world.adapter_refs world.adapters w'.adapters
    × (w'.adapter_refs ≡ some 1 ∷ some 2 ∷ [])
    × (w'.updates
        ≡ record { receiver = 8; type = uint8; property = 3 }
          ∷ record { receiver = 9; type = uint8; property = 3 }
          ∷ [])
unfolding alive find value_eq
set_new_value_example =
    set_new_value loopback world uint8 3 nine 1 (integer (pos 0)) world-IsWellFormed
      uint8_not_string (omega arith) world-uint8 refl

get-set_example :
    (w' : World (List Sent) Unit) × (Registry.set loopback uint8 3 nine 1 world ≡ ok w')
    × (Registry.get w' uint8 3 ≡ ok nine)
unfolding value_eq
get-set_example =
    get-set loopback world uint8 3 nine 1 (integer (pos 0)) world-IsWellFormed uint8_not_string
      (omega arith) world-uint8

set-IsWellFormed_example :
    (w' : World (List Sent) Unit) × (Registry.set loopback uint8 3 nine 1 world ≡ ok w')
    × IsWellFormed w'
    × (Registry.get w' uint8 4 ≡ Registry.get world uint8 4)
set-IsWellFormed_example =
    set-IsWellFormed loopback world uint8 3 nine 1 uint8 4 world-IsWellFormed uint8_not_string
      (omega arith) (λ _ e. omega (arith, e))

init_defaults-HoldsDefaults_example :
    (w' : World (List Sent) Unit) × (init_defaults loopback world ≡ ok w')
    × IsWellFormed w'
    × ((t : EntryType) → HoldsDefaults t w')
init_defaults-HoldsDefaults_example = init_defaults-HoldsDefaults loopback world world-IsWellFormed

remove_receiver-once_example : (remove_receiver 8 world).receivers ≡ 9 ∷ 9 ∷ []
remove_receiver-once_example = remove_receiver-once world 8 [] (9 ∷ []) refl tt (refl, tt)

remove_adapter-once_example : (remove_adapter 1 world).adapter_refs ≡ some 3 ∷ some 2 ∷ none ∷ []
unfolding points_to find
remove_adapter-once_example =
    remove_adapter-once world 1 (connection "left") [] (some 3 ∷ some 2 ∷ []) refl refl tt
      (refl, (refl, tt))

abbrev writes : List (EntryType × ℕ × Value)
writes = (uint8, 3, nine) ∷ (uint8, 4, nine) ∷ (uint8, 3, integer (pos 7)) ∷ []

set_all-refines_example :
    (w' : World (List Sent) (Unit {0})) × (set_all loopback writes world ≡ ok w')
    × IsWellFormed w'
    × ((u : EntryType) (q : ℕ)
        → Registry.get w' u q ≡ table_set_all writes (Registry.get world) u q)
set_all-refines_example = set_all-refines loopback writes world world-IsWellFormed (
  uint8_not_string,
  omega arith,
  (uint8_not_string, omega arith, (uint8_not_string, omega arith, tt)),
)
