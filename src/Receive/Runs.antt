-- ===== src/Receive/Runs.antt =====
-- The life of a registry after its constructor: received messages and values that the program sets,
-- in any order.
use rbase.Base.{ℕ, ◌<◌, ◌≡◌, ◌≢◌, some, List, [], ◌∷◌}
use rbase.Base.Outcome.{Outcome, ok, ◌>>=◌}
use rbase.Entries.{EntryType, string, type_of_num, entry_count}
use rbase.Value.{Value, HasType}
use rbase.SubscriptionMap.{SubscriptionMap}
use rbase.RCore.{RCore}
use rbase.Persistency.{PersistencyPolicy}
use rbase.Adapter.{Adapter}
use rbase.Registry
use rbase.Registry.{World}
use rbase.Registry.Typing.{AllTyped}
use rbase.Receive.{Message, receive}
use rbase.Receive.Serving.{Exists, Serves}

-- A message for the adapter `r`, or a `set` of the registry.
pub data Happening : Type 0 where
  received : ℕ → Message → Happening
  assigned : EntryType → ℕ → Value → ℕ → Happening

module _ (core : RCore) (policies : PersistencyPolicy) where
  open core use {Buffer}
  open policies use {State}

  pub happen : Happening → World Buffer State → Outcome (World Buffer State)
  happen (received r m) w = receive core policies r m w
  happen (assigned t p v rel) w = Registry.set core t p v rel w

  pub run : List Happening → World Buffer State → Outcome (World Buffer State)
  unfolding happen
  run [] w = ok w
  run (h ∷ hs) w = happen h w >>= run hs

  -- A message is for an adapter that exists, and not for the string; a value is of its entry's type, and
  -- not for the string.
  abbrev pub Allowed : List Happening → World Buffer State → Type 0
  Allowed [] w = Unit {0}
  Allowed (received r m ∷ hs) w =
      Exists core r w × (type_of_num m.type ≢ some string) × Allowed hs w
  Allowed (assigned t p v rel ∷ hs) w =
      (t ≢ string) × (p < entry_count t) × HasType t v × Allowed hs w

  -- A typed world, after one thing and then the others.
  Runs : List Happening → World Buffer State → Type 0
  Runs hs w = (w' : World Buffer State) × (run hs w ≡ ok w') × Serves core w w' × AllTyped w'.values
