-- ===== src/Link/Subscribing.antt =====
-- A subscription on the right, received on the left.
use rbase.Base.{ℕ, ◌<◌, ◌≡◌, ◌≢◌, sym, ap, subst, ◌∙◌, Bool, some, [], ◌∷◌, ◌++◌, if◌then◌else◌}
use rbase.Base.Outcome.{ok}
use rbase.Base.Assoc.{find}
use rbase.Entries.{EntryType, type_num, type_of_num, entry_count}
use rbase.Detail.Names.Lookup.{type_of_num-type_num}
use rbase.SubscriptionMap.Shape.{HasShape}
use rbase.Reliability.{acknowledged, reliability_contains}
use rbase.RCore.{RCore, Event, subscribe, unsubscribe}
use rbase.Persistency.{PersistencyPolicy}
use rbase.Adapter
use rbase.Adapter.{Adapter, is_subscribed_to}
use rbase.Adapter.Flags.{subscribe_or, is_subscribed_to-subscribe_or}
use rbase.Registry.{World}
use rbase.Receive.{Message, receive}
use rbase.Receive.Ready.{IsReady}
use rbase.Receive.Subscriptions.{subscription_recorded}
use rbase.Link.{Wire}

module _ (core : RCore) (wire : Wire core) (policies : PersistencyPolicy) where
  open core use {Buffer}
  open policies use {State}

  -- An adapter that subscribes to an entry, or ends that, sends one message. Where the other end
  -- receives it, `isSubscribed` there and `isSubscribedTo` here say the same of the entry; what they
  -- say of any other entry has not changed, and neither have the values of the receiving registry.
  pub subscription_crosses :
      (b : Bool) (i : ℕ) (t : EntryType) (p rel : ℕ) (w : World Buffer State)
      (here there : Adapter Buffer) (u : EntryType) (q : ℕ)
      → HasShape here.subscriptions_remote
      → p < entry_count t
      → find i w.adapters ≡ some there
      → IsReady core there
      → (type_num t ≡ type_num u → p ≢ q)
      → (event : Event) × (here' : Adapter Buffer) × (m : Message) × (w' : World Buffer State)
        × (there' : Adapter Buffer) × (subscribe_or core b t p rel here ≡ ok (event, here'))
        × (wire.sent here'.buffer ≡ wire.sent here.buffer ++ m ∷ [])
        × (receive core policies i m w ≡ ok w')
        × (find i w'.adapters ≡ some there')
        × (w'.values ≡ w.values)
        × (is_subscribed_to t p here' ≡ ok b)
        × (Adapter.is_subscribed t p there' ≡ ok b)
        × (is_subscribed_to u q here' ≡ is_subscribed_to u q here)
        × (Adapter.is_subscribed u q there' ≡ Adapter.is_subscribed u q there)
  subscription_crosses b i t p rel w here there u q shape within found ready ne =
      let k = if b then subscribe else unsubscribe in
      let ack = reliability_contains rel acknowledged in
      let (event, here', e, sends, self, rest) =
        is_subscribed_to-subscribe_or core b t p rel here u q shape within ne in
      let (m, sent, (kind, number, what)) = wire.sends_ctrl here.buffer t p k ack in
      let (w', there', done, values, found', self', rest') =
        subscription_recorded core policies i t m w there b u q found
          (ap type_of_num kind ∙ type_of_num-type_num t)
          (subst (λ n. n < entry_count t) (sym number) within) ready what
          (λ s f. ne s (sym number ∙ f)) in
      (
        event,
        here',
        m,
        w',
        there',
        e,
        ap wire.sent (sym (ap (λ (r : Buffer × Event). r.0) sends)) ∙ sent,
        done,
        found',
        values,
        self,
        subst (λ n. Adapter.is_subscribed t n there' ≡ ok b) number self',
        rest,
        rest',
      )
