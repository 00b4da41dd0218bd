-- ===== src/Receive/Ready.antt =====
-- Adapters that can handle messages, and the parts of the handling that cannot fail for them.
use rbase.Base.{
  ℕ, ◌<◌, ◌≡◌, refl, true, Option, none, some, List, ◌++◌, length, get_elem?_of_lt, arith,
  lt→leb_false,
}
use rbase.Base.Outcome.{ok}
use rbase.Base.Assoc.{find}
use rbase.Entries.{EntryType, type_of_num, entry_count}
use rbase.SubscriptionMap.Shape.{HasShape}
use rbase.Dropper.{Policy, keep_all, lossy}
use rbase.RCore.{RCore, MessageType}
use rbase.Persistency.{PersistencyPolicy}
use rbase.Adapter
use rbase.Adapter.{Adapter}
use rbase.Registry.{World, CallbackCall}
use rbase.Receive.{
  Message, adapter_at, call_message_callback, push_to_policy, finish, calls_of, pushed, dispatch,
  receive,
}

-- The records of a lossy policy have their shape.
abbrev pub PolicyShaped : Option Policy → Type 0
PolicyShaped none = Unit {0}
PolicyShaped (some keep_all) = Unit {0}
PolicyShaped (some (lossy records)) = HasShape records

module _ (core : RCore) where
  -- The adapter has a registry, a slot for the callback of every type of message, and maps and
  -- records for every entry.
  pub record IsReady (a : Adapter core.Buffer) : Type 0 where
    pub connected : a.has_registry ≡ true
    pub slots : length a.message_callback ≡ core.message_type_count
    pub shaped : HasShape a.subscriptions
    pub policy_shaped : PolicyShaped a.dropper

module _ {B S : Type 0} where
  pub adapter_at-found :
      (r : ℕ) (w : World B S) {a : Adapter B} → find r w.adapters ≡ some a → adapter_at r w ≡ ok a
  unfolding adapter_at
  adapter_at-found r w e = rw e refl

module _ (core : RCore) (policies : PersistencyPolicy) where
  open core use {Buffer}
  open policies use {State}

  pub callback_found :
      (m : MessageType) (a : Adapter Buffer)
      → length a.message_callback ≡ core.message_type_count
      → (cb : Option ℕ) × (Adapter.callback_of core m a ≡ ok cb)
  unfolding Adapter.callback_of
  callback_found m a e =
      let (cb, f) =
        get_elem?_of_lt a.message_callback (core.message_type_to_num m)
          (omega (arith, core.message_type_to_num_lt m)) in
      (cb, rw f refl)

  -- What follows the `switch` on the message's type only calls a callback and pushes to the policy.
  pub finish-ready :
      (r : ℕ) (t : EntryType) (m : Message) (w : World Buffer State) (a : Adapter Buffer)
      → find r w.adapters ≡ some a
      → a.has_registry ≡ true
      → length a.message_callback ≡ core.message_type_count
      → (c : List CallbackCall) × (s : Option State) × (finish core policies r t m w
          ≡ ok (record w { calls = c; policy = s }))
  unfolding finish push_to_policy call_message_callback
  finish-ready r t m w a found connected slots =
      let (cb, e) = callback_found m.message_type a slots in
      let w' = record w { calls = w.calls ++ calls_of cb t m a } in
      (
        w'.calls,
        pushed core policies t m.property a w' w.policy,
        rw (adapter_at-found r w found) (rw e (rw connected refl)),
      )

  -- A message for an entry reaches the `switch`.
  pub receive-dispatch :
      (r : ℕ) (t : EntryType) (m : Message) (w : World Buffer State) (a : Adapter Buffer)
      → find r w.adapters ≡ some a
      → type_of_num m.type ≡ some t
      → m.property < entry_count t
      → receive core policies r m w ≡ dispatch core policies m.message_type r t m a w
  unfolding receive
  receive-dispatch r t m w a found e within =
      rw (e, receive)
        (rw (lt→leb_false (entry_count t) m.property within, adapter_at-found r w found) refl)
