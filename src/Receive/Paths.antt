-- ===== src/Receive/Paths.antt =====
-- What a received message does, for each kind of message but the update that is kept.
use rbase.Base.{
  ℕ, ◌<◌, ◌≤◌, ◌≡◌, ◌≢◌, refl, ap, ◌∙◌, Bool, true, Option, none, some, length, ◌⊎◌, inl, inr,
  le→leb, if_not-true,
}
use rbase.Base.Outcome.{ok, fault, assertion}
use rbase.Base.Assoc.{find, find-replace_self}
use rbase.Entries.{EntryType, string, type_num, type_of_num, entry_count}
use rbase.Value.{Value}
use rbase.SubscriptionMap
use rbase.SubscriptionMap.{SubscriptionMap}
use rbase.SubscriptionMap.Shape.{HasShape, get_in_bounds, entry_count_num}
use rbase.Dropper.{Policy}
use rbase.Reliability.{default_reliability}
use rbase.RCore.{RCore, update, request}
use rbase.Persistency.{PersistencyPolicy}
use rbase.Adapter.{Adapter}
use rbase.Adapter.Told.{told, set-told, told_keeps, set-string}
use rbase.Registry
use rbase.Registry.{World}
use rbase.Registry.Store.{get_total}
use rbase.Receive.{Message, verdict, with_adapter, dispatch, receive, handle_update, set_back}
use rbase.Receive.Ready.{IsReady, finish-ready, receive-dispatch}

-- The message is for no entry: its type is unknown, or the type has no entry of that number.
abbrev pub IsUnknown : Message → Type 0
IsUnknown m =
    (type_of_num m.type ≡ none)
    ⊎ ((t : EntryType) × (type_of_num m.type ≡ some t) × (entry_count t ≤ m.property))

module _ (core : RCore) (policies : PersistencyPolicy) where
  open core use {Buffer}
  open policies use {State}

  -- A message for no entry changes nothing, whatever else it says.
  pub receive_unknown :
      (r : ℕ) (m : Message) (w : World Buffer State)
      → IsUnknown m
      → receive core policies r m w ≡ ok w
  unfolding receive
  receive_unknown r m w (inl e) = rw (e, receive) refl
  receive_unknown r m w (inr (t, e, beyond)) =
      rw (e, receive) (rw (le→leb (entry_count t) m.property beyond) refl)

  module _ (r : ℕ) (t : EntryType) (m : Message) (w : World Buffer State) (a : Adapter Buffer)
      (found : find r w.adapters ≡ some a) (known : type_of_num m.type ≡ some t)
      (within : m.property < entry_count t) where
    -- A dropped update changes the dropper's records, and nothing else: no value, no callback, no push.
    pub dropped_update :
        (policy : Option Policy)
        → m.message_type ≡ update
        → verdict a.dropper m a.adapter_id ≡ some (true, policy)
        → receive core policies r m w ≡ ok (with_adapter r (record a { dropper = policy }) w)
    unfolding dispatch handle_update
    dropped_update policy e v =
        receive-dispatch core policies r t m w a found known within
        ∙ ap (λ k. dispatch core policies k r t m a w) e
        ∙ rw v refl

    pub set_back-told :
        (v : Value) {b : Bool}
        → a.has_registry ≡ true
        → t ≢ string
        → Registry.get w t m.property ≡ ok v
        → SubscriptionMap.get a.subscriptions (type_num t) m.property ≡ some b
        → set_back core r t m.property a w
          ≡ ok (with_adapter r (told core t m.property v default_reliability a) w)
    unfolding set_back
    set_back-told v {b} connected ns was sub =
        let (event, done) = set-told core t m.property v default_reliability a {b = b} ns sub in
        if_not-true _ _ connected ∙ rw was (rw done refl)

    told_connected :
        (v : Value)
        → ((told core t m.property v default_reliability a).has_registry ≡ a.has_registry)
          × ((told core t m.property v default_reliability a).message_callback ≡ a.message_callback)
    told_connected v =
        let (b, q, e) = told_keeps core t m.property v default_reliability a in
        (
          ap (λ (x : Adapter Buffer). x.has_registry) e,
          ap (λ (x : Adapter Buffer). x.message_callback) e,
        )

    -- A request is answered as `told` has it: by the current value, if the adapter accepts values and
    -- the entry is subscribed to, else not at all. No value changes.
    pub request_told :
        m.message_type ≡ request
        → t ≢ string
        → HasShape w.values
        → IsReady core a
        → (v : Value) × (w' : World Buffer State) × (Registry.get w t m.property ≡ ok v)
          × (receive core policies r m w ≡ ok w')
          × (w'.values ≡ w.values)
          × (find r w'.adapters ≡ some (told core t m.property v default_reliability a))
    unfolding dispatch with_adapter
    request_told e ns shape ready =
        let counted = entry_count_num t in
        let (v, was) = get_total w t m.property shape within in
        let (b, sub) =
          get_in_bounds a.subscriptions ready.shaped (type_num t) m.property (entry_count t) counted
            within in
        let a' = told core t m.property v default_reliability a in
        let w₁ = with_adapter r a' w in
        let found' = find-replace_self r a' w.adapters found in
        let (same_registry, same_slots) = told_connected v in
        let (c, s, done) =
          finish-ready core policies r t m w₁ a' found' (same_registry ∙ ready.connected)
            (ap length same_slots ∙ ready.slots) in
        (
          v,
          record w₁ { calls = c; policy = s },
          was,
          receive-dispatch core policies r t m w a found known within
              ∙ ap (λ k. dispatch core policies k r t m a w) e
              ∙ rw (set_back-told v {b = b} ready.connected ns was sub) done,
          refl,
          found',
        )

  set_back-string :
      (r p : ℕ) (v : Value) (w : World Buffer State) (a : Adapter Buffer)
      → a.has_registry ≡ true
      → Registry.get w string p ≡ ok v
      → set_back core r string p a w ≡ fault assertion
  unfolding set_back
  set_back-string r p v w a connected was =
      if_not-true _ _ connected ∙ rw was (rw (set-string core p v default_reliability a) refl)

  -- A request for a string aborts the program, if the assertion is compiled in.
  pub string_request_aborts :
      (r : ℕ) (m : Message) (w : World Buffer State) (a : Adapter Buffer)
      → find r w.adapters ≡ some a
      → type_of_num m.type ≡ some string
      → m.property < entry_count string
      → m.message_type ≡ request
      → a.has_registry ≡ true
      → HasShape w.values
      → receive core policies r m w ≡ fault assertion
  unfolding dispatch
  string_request_aborts r m w a found known within e connected shape =
      let (v, was) = get_total w string m.property shape within in
      receive-dispatch core policies r string m w a found known within
      ∙ ap (λ k. dispatch core policies k r string m a w) e
      ∙ rw (set_back-string r m.property v w a connected was) refl
