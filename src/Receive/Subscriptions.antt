-- ===== src/Receive/Subscriptions.antt =====
-- Messages by which the other end of a connection subscribes to an entry, or ends that.
use rbase.Base.{ℕ, ◌<◌, ◌≡◌, ◌≢◌, refl, ap, ◌∙◌, Bool, true, false, some, if◌then◌else◌}
use rbase.Base.Outcome.{ok, or_fault, out_of_bounds, ◌>>=◌}
use rbase.Base.Assoc.{find, find-replace_self}
use rbase.Entries.{EntryType, type_num, type_of_num, entry_count}
use rbase.SubscriptionMap
use rbase.SubscriptionMap.{SubscriptionMap}
use rbase.SubscriptionMap.Shape.{get_in_bounds, entry_count_num, get-put_self, get-put_ne}
use rbase.RCore.{RCore, MessageType, subscribe, unsubscribe}
use rbase.Persistency.{PersistencyPolicy}
use rbase.Adapter
use rbase.Adapter.{Adapter}
use rbase.Registry.{World}
use rbase.Receive.{Message, with_adapter, finish, dispatch, receive, subscribe_remote}
use rbase.Receive.Ready.{IsReady, finish-ready, receive-dispatch}

module _ (core : RCore) (policies : PersistencyPolicy) where
  open core use {Buffer}
  open policies use {State}

  module _ (r : ℕ) (t : EntryType) (m : Message) (w : World Buffer State) (a : Adapter Buffer)
      (found : find r w.adapters ≡ some a) (known : type_of_num m.type ≡ some t)
      (within : m.property < entry_count t) (ready : IsReady core a) (b : Bool) where
    abbrev pub flagged : SubscriptionMap Bool
    flagged = SubscriptionMap.put a.subscriptions (type_num t) m.property b

    pub subscribe_step :
        subscribe_remote core r t m.property b a w
        ≡ ok (with_adapter r (record a { subscriptions = flagged }) w)
    unfolding subscribe_remote Adapter.set_subscribed Adapter.write_flag
    subscribe_step =
        let (old, sub) =
          get_in_bounds a.subscriptions ready.shaped (type_num t) m.property (entry_count t)
            (entry_count_num t) within in
        rw sub refl

    subscribe_done :
        dispatch core policies m.message_type r t m a w
          ≡ (subscribe_remote core r t m.property b a w >>= λ w'. finish core policies r t m w')
        → (w' : World Buffer State) × (receive core policies r m w ≡ ok w')
          × (w'.values ≡ w.values)
          × (find r w'.adapters ≡ some (record a { subscriptions = flagged }))
    unfolding with_adapter
    subscribe_done e =
        let a' = record a { subscriptions = flagged } in
        let w₁ = with_adapter r a' w in
        let found' = find-replace_self r a' w.adapters found in
        let (c, s, done) =
          finish-ready core policies r t m w₁ a' found' ready.connected ready.slots in
        (
          record w₁ { calls = c; policy = s },
          receive-dispatch core policies r t m w a found known within ∙ e ∙ rw subscribe_step done,
          refl,
          found',
        )

    is_subscribed_after :
        (u : EntryType) (q : ℕ)
        → (Adapter.is_subscribed t m.property (record a { subscriptions = flagged }) ≡ ok b)
          × ((type_num t ≡ type_num u → m.property ≢ q)
              → Adapter.is_subscribed u q (record a { subscriptions = flagged })
                ≡ Adapter.is_subscribed u q a)
    unfolding Adapter.is_subscribed
    is_subscribed_after u q =
        let (old, sub) =
          get_in_bounds a.subscriptions ready.shaped (type_num t) m.property (entry_count t)
            (entry_count_num t) within in
        (
          ap (λ o. or_fault o out_of_bounds)
              (get-put_self a.subscriptions (type_num t) m.property b sub),
          λ ne.
              ap (λ o. or_fault o out_of_bounds)
                (get-put_ne a.subscriptions (type_num t) m.property b (type_num u) q ne),
        )

  dispatch-subscription :
      (k : MessageType) (r : ℕ) (t : EntryType) (m : Message) (a : Adapter Buffer)
      (w : World Buffer State) (b : Bool)
      → k ≡ (if b then subscribe else unsubscribe)
      → dispatch core policies k r t m a w
        ≡ (subscribe_remote core r t m.property b a w >>= λ w'. finish core policies r t m w')
  unfolding dispatch
  dispatch-subscription k r t m a w true e = ap (λ k. dispatch core policies k r t m a w) e
  dispatch-subscription k r t m a w false e = ap (λ k. dispatch core policies k r t m a w) e

  -- A subscribe message sets the adapter's flag for the entry, an unsubscribe message clears it; the
  -- flags of all other entries and the values of the registry stay.
  pub subscription_recorded :
      (r : ℕ) (t : EntryType) (m : Message) (w : World Buffer State) (a : Adapter Buffer) (b : Bool)
      (u : EntryType) (q : ℕ)
      → find r w.adapters ≡ some a
      → type_of_num m.type ≡ some t
      → m.property < entry_count t
      → IsReady core a
      → m.message_type ≡ (if b then subscribe else unsubscribe)
      → (type_num t ≡ type_num u → m.property ≢ q)
      → (w' : World Buffer State) × (a' : Adapter Buffer) × (receive core policies r m w ≡ ok w')
        × (w'.values ≡ w.values)
        × (find r w'.adapters ≡ some a')
        × (Adapter.is_subscribed t m.property a' ≡ ok b)
        × (Adapter.is_subscribed u q a' ≡ Adapter.is_subscribed u q a)
  subscription_recorded r t m w a b u q found known within ready e ne =
      let (w', done, values, found') =
        subscribe_done r t m w a found known within ready b
          (dispatch-subscription m.message_type r t m a w b e) in
      let (self, rest) = is_subscribed_after r t m w a found known within ready b u q in
      (w', _, done, values, found', self, rest ne)
