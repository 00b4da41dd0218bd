-- ===== src/Receive/Delivery.antt =====
-- An update that is kept: what the registry, the source and the other adapters are after it.
use rbase.Base.{
  ℕ, ◌<◌, ◌≡◌, ◌≢◌, refl, ap, ◌∙◌, true, false, Option, some, ◌++◌, map, length, if◌then◌else◌,
}
use rbase.Base.Outcome.{ok, fault, null_registry}
use rbase.Base.Assoc.{find, find-replace_self, find-replace_ne}
use rbase.Entries.{EntryType, string, type_of_num, entry_count}
use rbase.Value.{Value, value_eq}
use rbase.Dropper.{Policy}
use rbase.Reliability.{default_reliability}
use rbase.RCore.{RCore, update}
use rbase.Persistency.{PersistencyPolicy}
use rbase.Adapter.{Adapter}
use rbase.Registry
use rbase.Registry.{World, Update}
use rbase.Registry.Pointers.{AllShaped-replace, registered}
use rbase.Registry.Broadcast.{told_if_any}
use rbase.Registry.Store.{IsWellFormed, set_new_value}
use rbase.Receive.{
  Message, verdict, with_adapter, finish, dispatch, receive, push_to_policy, call_message_callback,
  handle_update,
}
use rbase.Receive.Ready.{IsReady, adapter_at-found, callback_found, finish-ready, receive-dispatch}
use rbase.Receive.Applying.{
  carried, closed, reopened, set_received-set, closed_stays, apply_update-received,
  handle_update-kept, apply_update-detached,
}

module _ (core : RCore) (policies : PersistencyPolicy) where
  open core use {Buffer}
  open policies use {State}

  -- An update of an entry other than the string that the source's policy keeps, with a value that is not
  -- the registry's; the source is able to handle messages, and the registry well formed, with no adapter
  -- registered twice: the value is
  -- stored; the source is told nothing, so that it does not send the value back, and accepts values
  -- afterwards; every other registered adapter has been told once, and no other has changed; and
  -- each receiver has been called once.
  pub update_delivered :
      (r : ℕ) (t : EntryType) (m : Message) (w : World Buffer State) (a : Adapter Buffer)
      (policy : Option Policy) (old : Value)
      → find r w.adapters ≡ some a
      → type_of_num m.type ≡ some t
      → m.property < entry_count t
      → t ≢ string
      → m.message_type ≡ update
      → IsReady core a
      → IsWellFormed w
      → verdict a.dropper m a.adapter_id ≡ some (false, policy)
      → Registry.get w t m.property ≡ ok old
      → value_eq old (carried core t m) ≡ false
      → (w' : World Buffer State) × (receive core policies r m w ≡ ok w')
        × (Registry.get w' t m.property ≡ ok (carried core t m))
        × (find r w'.adapters ≡ some (reopened core policy a))
        × ((q : ℕ)
            → r ≢ q
            → find q w'.adapters ≡ (
                if registered q w.adapter_refs
                then told_if_any core t m.property
                    (carried core t m)
                    default_reliability
                    (find q w.adapters)
                else find q w.adapters))
        × (w'.updates
            ≡ w.updates
              ++ map (λ i. record { receiver = i; type = t; property = m.property }) w.receivers)
  unfolding dispatch with_adapter Registry.get
  update_delivered r t m w a policy old found known within ns e ready wf v was new =
      let p = m.property in
      let val = carried core t m in
      let c = closed core policy a in
      let shut = with_adapter r c w in
      let found_c = find-replace_self r c w.adapters found in
      let wf_c : IsWellFormed shut = record {
        values_shape = wf.values_shape;
        adapters_shape = AllShaped-replace w.adapters r c found ready.shaped wf.adapters_shape;
        refs_distinct = wf.refs_distinct;
      } in
      let (w₁, done, got, h, refs, upd) =
        set_new_value core shut t p val default_reliability old wf_c ns within was new in
      let c_stays =
        closed_stays core t p val w.adapter_refs r c shut.adapters w₁.adapters refl found_c h in
      let a' = reopened core policy a in
      let w₂ = with_adapter r a' w₁ in
      let found' = find-replace_self r a' w₁.adapters c_stays in
      let (calls, state, fin) =
        finish-ready core policies r t m w₂ a' found' ready.connected ready.slots in
      (
        record w₂ { calls = calls; policy = state },
        receive-dispatch core policies r t m w a found known within
            ∙ ap (λ k. dispatch core policies k r t m a w) e
            ∙ handle_update-kept core policies r t m a policy w w₂ _ v
                (apply_update-received core r t m (record a { dropper = policy }) w w₁ c
                  ready.connected (set_received-set core t m shut ns ∙ done) c_stays)
                fin,
        got,
        found',
        λ q ne.
            find-replace_ne r q a' w₁.adapters ne
            ∙ h q
            ∙ ap
                (λ o.
                  if registered q w.adapter_refs
                  then told_if_any core t p val default_reliability o
                  else o)
                (find-replace_ne r q c w.adapters ne),
        upd,
      )

  finish-detached :
      (r : ℕ) (t : EntryType) (m : Message) (w : World Buffer State) (a : Adapter Buffer)
      → find r w.adapters ≡ some a
      → a.has_registry ≡ false
      → length a.message_callback ≡ core.message_type_count
      → finish core policies r t m w ≡ fault null_registry
  unfolding finish push_to_policy call_message_callback
  finish-detached r t m w a found detached slots =
      let (cb, e) = callback_found core policies m.message_type a slots in
      rw (adapter_at-found r w found) (rw e (rw detached refl))

  -- An adapter whose pointer to the registry is null: an update that its policy keeps passes the
  -- check of the pointer before the value is set, and then follows the null pointer all the same, to
  -- the persistency policy.
  pub detached_update_faults :
      (r : ℕ) (t : EntryType) (m : Message) (w : World Buffer State) (a : Adapter Buffer)
      (policy : Option Policy)
      → find r w.adapters ≡ some a
      → type_of_num m.type ≡ some t
      → m.property < entry_count t
      → m.message_type ≡ update
      → a.has_registry ≡ false
      → length a.message_callback ≡ core.message_type_count
      → verdict a.dropper m a.adapter_id ≡ some (false, policy)
      → receive core policies r m w ≡ fault null_registry
  unfolding dispatch with_adapter handle_update
  detached_update_faults r t m w a policy found known within e detached slots v =
      let c = closed core policy a in
      let shut = with_adapter r c w in
      let found_c = find-replace_self r c w.adapters found in
      let w₂ = with_adapter r (record c { accept_property = true }) shut in
      receive-dispatch core policies r t m w a found known within
      ∙ ap (λ k. dispatch core policies k r t m a w) e
      ∙ rw v (
          rw (apply_update-detached core r t m (record a { dropper = policy }) w c detached found_c)
            (finish-detached r t m w₂ (record c { accept_property = true })
              (find-replace_self r (record c { accept_property = true }) shut.adapters found_c)
              detached slots))
