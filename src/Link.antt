-- ===== src/Link.antt =====
-- RComm/include/RComm/LiteCommAdapter.hpp and RRegistry/include/RRegistry/Registry.hpp, two of each:
-- a registry on the left and one on the right, whose adapters `i` and `j` are the ends of one
-- connection. What the left adapter's buffer transmits arrives at the right one, in order.
pub mod Pending
pub mod Sending
pub mod Agreement
pub mod Convergence
pub mod Subscribing
mod Examples
use rbase.Base.{ℕ, suc, ◌<◌, ◌≡◌, ◌≢◌, Bool, Option, none, some, List, [], ◌∷◌, ◌++◌, get_elem?}
use rbase.Base.Outcome.{ok}
use rbase.Base.Assoc.{find}
use rbase.Entries.{EntryType, string, type_num, entry_count, get_size_of_type}
use rbase.Value.{Value, HasType}
use rbase.RCore.{RCore, MessageType, update}
use rbase.Persistency.{PersistencyPolicy}
use rbase.Registry
use rbase.Registry.{World}
use rbase.Receive.{Message, receive}

module _ (core : RCore) where
  open core use {Buffer, send_value, send_ctrl, from_data}

  -- `m` is a message of the kind `k` for the entry `p` of the type `t`.
  abbrev pub IsFor : EntryType → ℕ → MessageType → Message → Type 0
  IsFor t p k m = (m.type ≡ type_num t) × (m.property ≡ p) × (m.message_type ≡ k)

  -- `m` is an update to the value `v`.
  abbrev pub Carries : EntryType → ℕ → Value → Message → Type 0
  Carries t p v m = IsFor t p update m × (from_data t m.bytes (get_size_of_type t) ≡ v)

  -- A transmit buffer over a connection that loses nothing: each send appends one message to all that
  -- was sent, and the other end decodes a value as it was encoded.
  pub record Wire : Type 0 where
    pub sent : Buffer → List Message
    pub sends_value :
        (b : Buffer) (t : EntryType) (p : ℕ) (v : Value) (ack : Bool)
        → t ≢ string
        → HasType t v
        → (m : Message) × (sent (send_value b (type_num t) p v ack).0 ≡ sent b ++ m ∷ [])
          × Carries t p v m
    pub sends_ctrl :
        (b : Buffer) (t : EntryType) (p : ℕ) (k : MessageType) (ack : Bool)
        → (m : Message) × (sent (send_ctrl b (type_num t) p k ack).0 ≡ sent b ++ m ∷ [])
          × IsFor t p k m

-- The two registries, and how many of the messages that the left end has sent have arrived.
pub record Link (B S : Type 0) : Type 0 where
  pub left : World B S
  pub right : World B S
  pub arrived : ℕ

module _ (core : RCore) (wire : Wire core) (policies : PersistencyPolicy) (i j : ℕ) where
  open core use {Buffer}
  open policies use {State}

  -- The first message that has not arrived yet.
  pub next_message : Link Buffer State → Option Message
  next_message l = elim (find i l.left.adapters) [
    | none ↦ none
    | some a ↦ get_elem? (wire.sent a.buffer) l.arrived
  ]

  -- Something sets a value of the left registry; or a message arrives, and the callback of the right
  -- adapter handles it.
  pub data Step : Link Buffer State → Link Buffer State → Type 0 where
    set_left :
        (l : Link Buffer State) (u : EntryType) (q : ℕ) (x : Value) (rel : ℕ)
        (w : World Buffer State)
        → u ≢ string
        → q < entry_count u
        → HasType u x
        → Registry.set core u q x rel l.left ≡ ok w
        → Step l (record l { left = w })
    arrive :
        (l : Link Buffer State) (m : Message) (w : World Buffer State)
        → next_message l ≡ some m
        → receive core policies j m l.right ≡ ok w
        → Step l (record l { right = w; arrived = suc l.arrived })

  -- Any number of steps.
  pub data Reach (l : Link Buffer State) : Link Buffer State → Type 0 where
    here : Reach l l
    next : {k k' : Link Buffer State} → Reach l k → Step k k' → Reach l k'

  -- Any number of arrivals, the first first: nothing is set meanwhile.
  pub data Arrives : Link Buffer State → Link Buffer State → Type 0 where
    done : (l : Link Buffer State) → Arrives l l
    one :
        (l : Link Buffer State) (m : Message) (w : World Buffer State) (l' : Link Buffer State)
        → next_message l ≡ some m
        → receive core policies j m l.right ≡ ok w
        → Arrives (record l { right = w; arrived = suc l.arrived }) l'
        → Arrives l l'
