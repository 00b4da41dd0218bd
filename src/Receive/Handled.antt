-- ===== src/Receive/Handled.antt =====
-- What each case of the callback for messages leaves: it ends, and the world serves on.
use rbase.Base.{ℕ, ◌<◌, ◌≡◌, ◌≢◌, refl, ap, ◌∙◌, Bool, true, false, Option, some, inl, inr, ◌⊎◌}
use rbase.Base.Outcome.{Outcome, ok, ◌>>=◌}
use rbase.Base.Assoc.{find, find-replace_self}
use rbase.Entries.{EntryType, string, type_num, type_of_num, entry_count}
use rbase.SubscriptionMap
use rbase.SubscriptionMap.Shape.{entry_count_num, get_in_bounds, put-HasShape}
use rbase.Reliability.{default_reliability}
use rbase.RCore.{RCore, MessageType, update, request, subscribe, unsubscribe, other}
use rbase.Persistency.{PersistencyPolicy}
use rbase.Dropper.{Policy}
use rbase.Adapter.{Adapter}
use rbase.Adapter.Told.{told}
use rbase.Registry.{World}
use rbase.Registry.Store.{get_total}
use rbase.Receive.{
  Message, verdict, with_adapter, finish, dispatch, handle_update, subscribe_remote, set_received,
}
use rbase.Receive.Ready.{IsReady, PolicyShaped, finish-ready}
use rbase.Receive.Paths.{set_back-told}
use rbase.Receive.Subscriptions.{subscribe_step}
use rbase.Receive.Applying.{
  carried, closed, reopened, apply_update-received, set_received-set, handle_update-kept,
}
use rbase.Receive.Serving.{
  IsServing, Serves, Serves-trans, Serves-logged, Serves-with_adapter, IsReady-told, set-Serves,
  verdict-PolicyShaped,
}

pub string_or_not : (t : EntryType) → (t ≡ string) ⊎ (t ≢ string)
string_or_not string = inl refl
string_or_not _ = inr (λ e. cc)

module _ (core : RCore) (policies : PersistencyPolicy) where
  open core use {Buffer}
  open policies use {State}

  -- After the `switch`: what the world has become is logged and pushed.
  finish-Serves :
      (r : ℕ) (t : EntryType) (m : Message) (w w₁ : World Buffer State) (a : Adapter Buffer)
      → Serves core w w₁
      → find r w₁.adapters ≡ some a
      → (w' : World Buffer State) × (finish core policies r t m w₁ ≡ ok w') × Serves core w w'
  finish-Serves r t m w w₁ a s found =
      let ready = s.0.all_ready r a found in
      let (c, p, e) = finish-ready core policies r t m w₁ a found ready.connected ready.slots in
      (record w₁ { calls = c; policy = p }, e, Serves-logged core w w₁ c p s)

  -- One case of the `switch`, and what follows it.
  step-Serves :
      (r : ℕ) (t : EntryType) (m : Message) (w : World Buffer State) (a a' : Adapter Buffer)
      (step : Outcome (World Buffer State))
      → IsServing core w
      → find r w.adapters ≡ some a
      → IsReady core a'
      → step ≡ ok (with_adapter r a' w)
      → (w' : World Buffer State) × ((step >>= λ x. finish core policies r t m x) ≡ ok w')
        × Serves core w w'
  unfolding with_adapter
  step-Serves r t m w a a' step s found ready e =
      let w₁ = with_adapter r a' w in
      let (w', f, h) =
        finish-Serves r t m w w₁ a' (Serves-with_adapter core r w a a' s found ready)
          (find-replace_self r a' w.adapters found) in
      (w', rw e f, h)

  module _ (r : ℕ) (t : EntryType) (m : Message) (w : World Buffer State) (a : Adapter Buffer)
      (s : IsServing core w) (found : find r w.adapters ≡ some a)
      (known : type_of_num m.type ≡ some t) (within : m.property < entry_count t) where
    found_at :
        (w₁ : World Buffer State) (c a' : Adapter Buffer)
        → find r w₁.adapters ≡ some c
        → find r (with_adapter r a' w₁).adapters ≡ some a'
    unfolding with_adapter
    found_at w₁ c a' e = find-replace_self r a' w₁.adapters e

    abbrev Handled : MessageType → Type 0
    Handled k =
        (w' : World Buffer State) × (dispatch core policies k r t m a w ≡ ok w') × Serves core w w'

    request-Handled : t ≢ string → Handled request
    unfolding dispatch
    request-Handled ns =
        let ready = s.all_ready r a found in
        let (v, was) = get_total w t m.property s.values_shape within in
        let (b, sub) =
          get_in_bounds a.subscriptions ready.shaped (type_num t) m.property (entry_count t)
            (entry_count_num t) within in
        step-Serves r t m w a (told core t m.property v default_reliability a) _ s found
          (IsReady-told core t m.property v default_reliability a ready)
          (set_back-told core policies r t m w a found known within v {b = b} ready.connected ns was
            sub)

    flagged-Handled :
        (b : Bool)
        → (w' : World Buffer State) × ((subscribe_remote core r t m.property b a w >>= λ x.
              finish core policies r t m x)
            ≡ ok w')
          × Serves core w w'
    flagged-Handled b =
        let ready = s.all_ready r a found in
        step-Serves r t m w a
          (record a {
            subscriptions = SubscriptionMap.put a.subscriptions (type_num t) m.property b;
          })
          _ s found
          (record {
            connected = ready.connected;
            slots = ready.slots;
            shaped = put-HasShape a.subscriptions (type_num t) m.property b ready.shaped;
            policy_shaped = ready.policy_shaped;
          })
          (subscribe_step core policies r t m w a found known within ready b)

    received-Serves :
        (c : Adapter Buffer) (w₀ : World Buffer State)
        → IsServing core w₀
        → c.accept_property ≡ false
        → find r w₀.adapters ≡ some c
        → (w₁ : World Buffer State) × (set_received core t m w₀ ≡ ok w₁)
          × Serves core w₀ w₁
          × (find r w₁.adapters ≡ some c)
    unfolding set_received
    received-Serves c w₀ s₀ shut found₀ = elim (string_or_not t) [
      | inl same ↦ (w₀, ap (λ k. set_received core k m w₀) same, (s₀, λ q e. e), found₀)
      | inr ns ↦
          let (w₁, e, h, stays) =
            set-Serves core w₀ t m.property (carried core t m) r c s₀ ns within shut found₀ in
          (w₁, set_received-set core t m w₀ ns ∙ e, h, stays)
    ]

    kept-Handled :
        (policy : Option Policy)
        → PolicyShaped policy
        → verdict a.dropper m a.adapter_id ≡ some (false, policy)
        → (w' : World Buffer State) × (handle_update core policies r t m a w ≡ ok w')
          × Serves core w w'
    kept-Handled policy shaped v =
        let ready = s.all_ready r a found in
        let ready' : (b c : Bool)
            → IsReady core (record a { dropper = policy; had_update = b; accept_property = c }) =
          λ b c. record {
            connected = ready.connected;
            slots = ready.slots;
            shaped = ready.shaped;
            policy_shaped = shaped;
          } in
        let c = closed core policy a in
        let a' = reopened core policy a in
        let shut = with_adapter r c w in
        let h₀ = Serves-with_adapter core r w a c s found (ready' true false) in
        let (w₁, e, h₁, stays) = received-Serves c shut h₀.0 refl (found_at w a c found) in
        let w₂ = with_adapter r a' w₁ in
        let h₂ = Serves-with_adapter core r w₁ c a' h₁.0 stays (ready' true true) in
        let (w', f, h) =
          finish-Serves r t m w w₂ a'
            (Serves-trans core w w₁ w₂ (Serves-trans core w shut w₁ h₀ h₁) h₂)
            (found_at w₁ c a' stays) in
        (
          w',
          handle_update-kept core policies r t m a policy w w₂ w' v
              (apply_update-received core r t m (record a { dropper = policy }) w w₁ c
                ready.connected e stays)
              f,
          h,
        )

    dropped-Handled :
        (policy : Option Policy)
        → PolicyShaped policy
        → verdict a.dropper m a.adapter_id ≡ some (true, policy)
        → (w' : World Buffer State) × (handle_update core policies r t m a w ≡ ok w')
          × Serves core w w'
    unfolding handle_update
    dropped-Handled policy shaped v =
        let ready = s.all_ready r a found in
        let a' = record a { dropper = policy } in
        (
          with_adapter r a' w,
          rw v refl,
          Serves-with_adapter core r w a a' s found (record {
            connected = ready.connected;
            slots = ready.slots;
            shaped = ready.shaped;
            policy_shaped = shaped;
          }),
        )

    update-Handled : Handled update
    unfolding dispatch
    update-Handled =
        let ready = s.all_ready r a found in
        let (dropped, policy, v, shaped) =
          verdict-PolicyShaped a.dropper m a.adapter_id t ready.policy_shaped known within in
        by_verdict dropped policy shaped v
      where
        by_verdict :
            (dropped : Bool) (policy : Option Policy)
            → PolicyShaped policy
            → verdict a.dropper m a.adapter_id ≡ some (dropped, policy)
            → Handled update
        by_verdict true policy shaped v = dropped-Handled policy shaped v
        by_verdict false policy shaped v = kept-Handled policy shaped v

    pub handled : (k : MessageType) → (k ≡ request → t ≢ string) → Handled k
    unfolding dispatch
    handled update ns = update-Handled
    handled request ns = request-Handled (ns refl)
    handled subscribe ns = flagged-Handled true
    handled unsubscribe ns = flagged-Handled false
    handled (other n) ns = finish-Serves r t m w w a (s, λ q e. e) found
