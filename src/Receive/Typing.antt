-- ===== src/Receive/Typing.antt =====
-- Received messages keep the values of the registry typed, whatever bytes they hold.
use rbase.Base.{
  ℕ, ◌≡◌, ◌≢◌, refl, sym, subst, Bool, true, false, not, if◌then◌else◌, leb, Option-cases, inl, inr,
}
use rbase.Base.Outcome.{Outcome, ok, fault, null_registry, or_fault, out_of_bounds, ◌>>=◌}
use rbase.Entries.{EntryType, string, type_of_num, entry_count, get_size_of_type}
use rbase.Reliability.{default_reliability}
use rbase.RCore.{RCore, MessageType, update, request, subscribe, unsubscribe, other}
use rbase.Persistency.{PersistencyPolicy}
use rbase.Adapter
use rbase.Adapter.{Adapter}
use rbase.Registry
use rbase.Registry.{World}
use rbase.Registry.Typing.{AllTyped, AllTyped-Stored, set_values}
use rbase.Receive.{
  Message, verdict, with_adapter, adapter_at, set_received, apply_update, set_back,
  subscribe_remote, finish, call_message_callback, push_to_policy, handle_update, dispatch, receive,
}
use rbase.Receive.Applying.{carried, set_received-set}
use rbase.Receive.Handled.{string_or_not}

-- An outcome whose world, if there is one, is typed.
abbrev TypedWorld : {B S : Type 0} → Outcome (World B S) → Type 0
TypedWorld (ok w) = AllTyped w.values
TypedWorld (fault e) = Unit {0}

-- A step that gives any value, and one that gives a world.
typed-then :
    {B S : Type 0} {A : Type 0} (m : Outcome A) (f : A → Outcome (World B S))
    → ((a : A) → TypedWorld (f a))
    → TypedWorld (m >>= f)
typed-then (ok a) f h = h a
typed-then (fault e) f h = tt

typed-next :
    {B S : Type 0} (m : Outcome (World B S)) (f : World B S → Outcome (World B S))
    → TypedWorld m
    → ((w : World B S) → AllTyped w.values → TypedWorld (f w))
    → TypedWorld (m >>= f)
typed-next (ok w) f g h = h w g
typed-next (fault e) f g h = tt

typed-if :
    {B S : Type 0} (b : Bool) (x y : Outcome (World B S))
    → TypedWorld x
    → TypedWorld y
    → TypedWorld (if b then x else y)
typed-if true x y g h = g
typed-if false x y g h = h

module _ (core : RCore) {S : Type 0} where
  open core use {Buffer, from_data_typed}

  set-typed :
      (t : EntryType) (m : Message) (w : World Buffer S) (o : Outcome (World Buffer S))
      → t ≢ string
      → AllTyped w.values
      → Registry.set core t m.property (carried core t m) default_reliability w ≡ o
      → TypedWorld o
  set-typed t m w (fault e) ns h f = tt
  set-typed t m w (ok w') ns h f =
      AllTyped-Stored t m.property (carried core t m) w.values w'.values
        (from_data_typed t m.bytes (get_size_of_type t) ns)
        (set_values core t m.property (carried core t m) default_reliability w w' f) h

  set_received-typed :
      (t : EntryType) (m : Message) (w : World Buffer S)
      → AllTyped w.values
      → TypedWorld (set_received core t m w)
  unfolding set_received
  set_received-typed t m w h = elim (string_or_not t) [
    | inl same ↦ subst (λ k. TypedWorld (set_received core k m w)) (sym same) h
    | inr ns ↦ subst TypedWorld (sym (set_received-set core t m w ns)) (set-typed t m w _ ns h refl)
  ]

  apply_update-typed :
      (r : ℕ) (t : EntryType) (m : Message) (a : Adapter Buffer) (w : World Buffer S)
      → AllTyped w.values
      → TypedWorld (apply_update core r t m a w)
  unfolding apply_update with_adapter
  apply_update-typed r t m a w h =
      let shut = with_adapter r (record a { had_update = true; accept_property = false }) w in
      typed-next (if a.has_registry then set_received core t m shut else ok shut) _
        (typed-if a.has_registry (set_received core t m shut) (ok shut)
          (set_received-typed t m shut h) h)
        (λ w' h'. typed-then (adapter_at r w') _ (λ a'. h'))

  set_back-typed :
      (r : ℕ) (t : EntryType) (p : ℕ) (a : Adapter Buffer) (w : World Buffer S)
      → AllTyped w.values
      → TypedWorld (set_back core r t p a w)
  unfolding set_back with_adapter
  set_back-typed r t p a w h = typed-if (not a.has_registry) (fault null_registry) _ tt (
      typed-then (Registry.get w t p) _
        (λ v. typed-then (Adapter.set core t p v default_reliability a) _ (λ x. h)))

  subscribe_remote-typed :
      (r : ℕ) (t : EntryType) (p : ℕ) (b : Bool) (a : Adapter Buffer) (w : World Buffer S)
      → AllTyped w.values
      → TypedWorld (subscribe_remote core r t p b a w)
  unfolding subscribe_remote with_adapter
  subscribe_remote-typed r t p b a w h = typed-then (Adapter.set_subscribed t p b a) _ (λ a'. h)

module _ (core : RCore) (policies : PersistencyPolicy) where
  open core use {Buffer}
  open policies use {State}

  finish-typed :
      (r : ℕ) (t : EntryType) (m : Message) (w : World Buffer State)
      → AllTyped w.values
      → TypedWorld (finish core policies r t m w)
  unfolding finish call_message_callback push_to_policy
  finish-typed r t m w h = typed-then (adapter_at r w) _ (λ a.
      typed-next (call_message_callback core policies t m a w) _
        (typed-then (Adapter.callback_of core m.message_type a) _ (λ cb. h))
        (λ w' h'. typed-if (not a.has_registry) (fault null_registry) _ tt h'))

  handle_update-typed :
      (r : ℕ) (t : EntryType) (m : Message) (a : Adapter Buffer) (w : World Buffer State)
      → AllTyped w.values
      → TypedWorld (handle_update core policies r t m a w)
  unfolding handle_update with_adapter
  handle_update-typed r t m a w h =
      typed-then (or_fault (verdict a.dropper m a.adapter_id) out_of_bounds) _ (λ (dropped, policy).
        (let a' = record a { dropper = policy } in
          typed-if dropped (ok (with_adapter r a' w)) _ h (
            typed-next (apply_update core r t m a' w) _ (apply_update-typed core r t m a' w h)
              (finish-typed r t m))))

  dispatch-typed :
      (k : MessageType) (r : ℕ) (t : EntryType) (m : Message) (a : Adapter Buffer)
      (w : World Buffer State)
      → AllTyped w.values
      → TypedWorld (dispatch core policies k r t m a w)
  unfolding dispatch
  dispatch-typed update r t m a w h = handle_update-typed r t m a w h
  dispatch-typed request r t m a w h =
      typed-next (set_back core r t m.property a w) _ (set_back-typed core r t m.property a w h)
        (finish-typed r t m)
  dispatch-typed subscribe r t m a w h =
      typed-next (subscribe_remote core r t m.property true a w) _
        (subscribe_remote-typed core r t m.property true a w h) (finish-typed r t m)
  dispatch-typed unsubscribe r t m a w h =
      typed-next (subscribe_remote core r t m.property false a w) _
        (subscribe_remote-typed core r t m.property false a w h) (finish-typed r t m)
  dispatch-typed (other n) r t m a w h = finish-typed r t m w h

  receive-typed :
      (r : ℕ) (m : Message) (w : World Buffer State)
      → AllTyped w.values
      → TypedWorld (receive core policies r m w)
  unfolding receive
  receive-typed r m w h = elim (Option-cases (type_of_num m.type)) [
    | inl e ↦ rw (e, receive) h
    | inr (t, e) ↦
        rw (e, receive)
          (typed-if (leb (entry_count t) m.property) (ok w) _ h
            (typed-then (adapter_at r w) _ (λ a. dispatch-typed m.message_type r t m a w h)))
  ]

  -- A message that is handled, of whatever bytes, leaves the values typed.
  pub receive-AllTyped :
      (r : ℕ) (m : Message) (w w' : World Buffer State)
      → receive core policies r m w ≡ ok w'
      → AllTyped w.values
      → AllTyped w'.values
  receive-AllTyped r m w w' e h = subst TypedWorld e (receive-typed r m w h)
