-- ===== src/Receive/History.antt =====
-- Histories of received messages, of all connections in any interleaving.
use rbase.Base.{ℕ, ◌≡◌, ◌≢◌, refl, some, List, [], ◌∷◌}
use rbase.Base.Outcome.{Outcome, ok, ◌>>=◌}
use rbase.Entries.{string, type_of_num}
use rbase.RCore.{RCore, request}
use rbase.Persistency.{PersistencyPolicy}
use rbase.Registry.{World}
use rbase.Receive.{Message, receive}
use rbase.Receive.Serving.{IsServing, Exists, Serves, Serves-trans}
use rbase.Receive.Total.{receive-Serves}

module _ (core : RCore) (policies : PersistencyPolicy) where
  open core use {Buffer}
  open policies use {State}

  -- A history of received messages, the first first: each is for one of the connections.
  pub receive_all : List (ℕ × Message) → World Buffer State → Outcome (World Buffer State)
  receive_all [] w = ok w
  receive_all ((r, m) ∷ rest) w = receive core policies r m w >>= receive_all rest

  -- Each message is for a connection of `w`, and none requests a string.
  abbrev pub Addressed : List (ℕ × Message) → World Buffer State → Type 0
  Addressed [] w = Unit {0}
  Addressed ((r, m) ∷ rest) w =
      Exists core r w
      × (m.message_type ≡ request → type_of_num m.type ≢ some string)
      × Addressed rest w

  Addressed-Serves :
      (ms : List (ℕ × Message)) (w w' : World Buffer State)
      → Serves core w w'
      → Addressed ms w
      → Addressed ms w'
  Addressed-Serves [] w w' h all = tt
  Addressed-Serves ((r, m) ∷ rest) w w' h all =
      (h.1 r all.0, all.1, Addressed-Serves rest w w' h all.2)

  -- From a serving world, any history of messages to its connections, in any interleaving, is handled
  -- without a fault, unless it holds a request for a string; and the world in the end still serves.
  pub receive_all-Serves :
      (ms : List (ℕ × Message)) (w : World Buffer State)
      → IsServing core w
      → Addressed ms w
      → (w' : World Buffer State) × (receive_all ms w ≡ ok w') × Serves core w w'
  unfolding receive_all
  receive_all-Serves [] w s all = (w, refl, (s, λ q e. e))
  receive_all-Serves ((r, m) ∷ rest) w s all =
      let (w₁, e, h) = receive-Serves core policies r m w s all.0 all.1 in
      let (w', f, k) = receive_all-Serves rest w₁ h.0 (Addressed-Serves rest w w₁ h all.2) in
      (w', rw e f, Serves-trans core w w₁ w' h k)
