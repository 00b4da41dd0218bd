-- ===== src/Adapter/Flags.antt =====
-- The two subscription maps of an adapter.
use rbase.Base.{
  ℕ, zero, suc, Option-cases, inl, inr, get_elem?, length, ◌<◌, ◌≡◌, ◌≢◌, refl, ap, ◌∙◌, Bool, true,
  false, [], if◌then◌else◌,
}
use rbase.Base.Outcome.{Outcome, ok, or_fault, out_of_bounds}
use rbase.Entries.{EntryType, type_num, entry_count}
use rbase.SubscriptionMap
use rbase.SubscriptionMap.{SubscriptionMap}
use rbase.SubscriptionMap.Shape.{HasShape, get_in_bounds, entry_count_num, get-put_self, get-put_ne}
use rbase.Reliability.{acknowledged, reliability_contains}
use rbase.RCore.{RCore, Event, subscribe, unsubscribe}
use rbase.Adapter.{
  Adapter, write_flag, send_subscribe, send_unsubscribe, send_request_subscribe_update,
  is_subscribed_to, Unsubscribing, unsubscribe_row, unsubscribe_rows, remote_unsubscribe_from_all,
}

-- `subscribe`, or `unsubscribe`.
abbrev pub subscribe_or :
    (core : RCore)
    → Bool
    → EntryType
    → ℕ
    → ℕ
    → Adapter core.Buffer
    → Outcome (Event × Adapter core.Buffer)
subscribe_or core true t p rel a = send_subscribe core t p rel a
subscribe_or core false t p rel a = send_unsubscribe core t p rel a

module _ (core : RCore) (t : EntryType) (p rel : ℕ) (a : Adapter core.Buffer) where
  write_done :
      (b : Bool)
      → HasShape a.subscriptions_remote
      → p < entry_count t
      → write_flag a.subscriptions_remote t p b
        ≡ ok (SubscriptionMap.put a.subscriptions_remote (type_num t) p b)
  unfolding write_flag
  write_done b shape within =
      let (old, e) =
        get_in_bounds a.subscriptions_remote shape (type_num t) p (entry_count t)
          (entry_count_num t) within in
      rw e refl

  flag_read :
      (b : Bool) (u : EntryType) (q : ℕ) (a' : Adapter core.Buffer)
      → HasShape a.subscriptions_remote
      → p < entry_count t
      → a'.subscriptions_remote ≡ SubscriptionMap.put a.subscriptions_remote (type_num t) p b
      → (is_subscribed_to t p a' ≡ ok b)
        × ((type_num t ≡ type_num u → p ≢ q) → is_subscribed_to u q a' ≡ is_subscribed_to u q a)
  unfolding is_subscribed_to
  flag_read b u q a' shape within e =
      let (old, f) =
        get_in_bounds a.subscriptions_remote shape (type_num t) p (entry_count t)
          (entry_count_num t) within in
      let read : SubscriptionMap Bool → EntryType → ℕ → Outcome Bool =
        λ m k i. or_fault (SubscriptionMap.get m (type_num k) i) out_of_bounds in
      (
        ap (λ m. read m t p) e
            ∙ ap (λ o. or_fault o out_of_bounds)
                (get-put_self a.subscriptions_remote (type_num t) p b f),
        λ ne.
            ap (λ m. read m u q) e
            ∙ ap (λ o. or_fault o out_of_bounds)
                (get-put_ne a.subscriptions_remote (type_num t) p b (type_num u) q ne),
      )

  sent_to :
      (b : Bool)
      → HasShape a.subscriptions_remote
      → p < entry_count t
      → (event : Event) × (a' : Adapter core.Buffer) × (subscribe_or core b t p rel a
          ≡ ok (event, a'))
        × ((core.send_ctrl a.buffer
              (type_num t)
              p
              (if b then subscribe else unsubscribe)
              (reliability_contains rel acknowledged))
            ≡ (a'.buffer, event))
        × (a'.subscriptions_remote ≡ SubscriptionMap.put a.subscriptions_remote (type_num t) p b)
  unfolding send_subscribe send_unsubscribe send_request_subscribe_update
  sent_to b shape within =
      let flags = SubscriptionMap.put a.subscriptions_remote (type_num t) p b in
      let r =
        send_request_subscribe_update core t p (if b then subscribe else unsubscribe) rel
          (record a { subscriptions_remote = flags }) in
      (r.0, r.1, both b (write_done b shape within), refl, refl)
    where
      both :
          (b : Bool) {flags : SubscriptionMap Bool}
          → write_flag a.subscriptions_remote t p b ≡ ok flags
          → subscribe_or core b t p rel a
            ≡ ok (
                send_request_subscribe_update core t p
                  (if b then subscribe else unsubscribe)
                  rel
                  (record a { subscriptions_remote = flags }))
      both true e = rw e refl
      both false e = rw e refl

-- `subscribe` and `unsubscribe` of an entry send the one control message, and record the state of the
-- subscription for `isSubscribedTo`, which answers as before for every other entry.
pub is_subscribed_to-subscribe_or :
    (core : RCore) (b : Bool) (t : EntryType) (p rel : ℕ) (a : Adapter core.Buffer) (u : EntryType)
    (q : ℕ)
    → HasShape a.subscriptions_remote
    → p < entry_count t
    → (type_num t ≡ type_num u → p ≢ q)
    → (event : Event) × (a' : Adapter core.Buffer) × (subscribe_or core b t p rel a
        ≡ ok (event, a'))
      × ((core.send_ctrl a.buffer
            (type_num t)
            p
            (if b then subscribe else unsubscribe)
            (reliability_contains rel acknowledged))
          ≡ (a'.buffer, event))
      × (is_subscribed_to t p a' ≡ ok b)
      × (is_subscribed_to u q a' ≡ is_subscribed_to u q a)
is_subscribed_to-subscribe_or core b t p rel a u q shape within ne =
    let (event, a', e, sent, flags) = sent_to core t p rel a b shape within in
    let (self, rest) = flag_read core t p rel a b u q a' shape within flags in
    (event, a', e, sent, self, rest ne)

row_unchanged : (i : ℕ) (s : Unsubscribing) → (unsubscribe_row i s).rows ≡ s.rows
unfolding unsubscribe_row
row_unchanged i s = elim (Option-cases (get_elem? s.rows i)) [
  | inl e ↦ rw (unsubscribe_row, e) refl
  | inr (row, e) ↦ rw (unsubscribe_row, e) refl
]

rows_unchanged : (n i : ℕ) (s : Unsubscribing) → (unsubscribe_rows n i s).rows ≡ s.rows
unfolding unsubscribe_rows
rows_unchanged zero i s = refl
rows_unchanged (suc n) i s = rows_unchanged n (suc i) (unsubscribe_row i s) ∙ row_unchanged i s

-- `remoteUnsubscribeFromAll` leaves every adapter as it is: the rounds write to copies of the rows.
pub remote_unsubscribe_from_all_unchanged :
    {B : Type 0} (a : Adapter B) → remote_unsubscribe_from_all a ≡ a
unfolding remote_unsubscribe_from_all
remote_unsubscribe_from_all_unchanged a =
    ap (λ m. record a { subscriptions = m })
      (rows_unchanged (length a.subscriptions) 0 (record { rows = a.subscriptions; type = [] }))
