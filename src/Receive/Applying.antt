-- ===== src/Receive/Applying.antt =====
-- RComm/include/RComm/LiteCommAdapter.hpp: the steps of an update that is kept.
use rbase.Base.{
  ℕ, ◌≡◌, ◌≢◌, refl, ap, ◌∙◌, true, false, Option, some, List, if◌then◌else◌, Bool-cases, inl, inr,
}
use rbase.Base.Outcome.{ok, ◌>>=◌}
use rbase.Base.Assoc.{find}
use rbase.Entries.{EntryType, string, get_size_of_type}
use rbase.Value.{Value}
use rbase.Dropper.{Policy}
use rbase.Reliability.{default_reliability}
use rbase.RCore.{RCore}
use rbase.Persistency.{PersistencyPolicy}
use rbase.Adapter.{Adapter}
use rbase.Adapter.Told.{told_unchanged}
use rbase.Registry
use rbase.Registry.{World, Update}
use rbase.Registry.Pointers.{registered}
use rbase.Registry.Broadcast.{Told}
use rbase.Receive.{
  Message, verdict, with_adapter, adapter_at, finish, handle_update, apply_update, set_received,
}
use rbase.Receive.Ready.{adapter_at-found}

module _ (core : RCore) where
  open core use {Buffer, from_data}

  -- The value that an update carries.
  abbrev pub carried : EntryType → Message → Value
  carried t m = from_data t m.bytes (get_size_of_type t)

  -- The source while the value is set.
  abbrev pub closed : Option Policy → Adapter Buffer → Adapter Buffer
  closed policy a = record a { dropper = policy; had_update = true; accept_property = false }

  -- The source after the update.
  abbrev pub reopened : Option Policy → Adapter Buffer → Adapter Buffer
  reopened policy a = record a { dropper = policy; had_update = true; accept_property = true }

  pub set_received-set :
      {S : Type 0} (t : EntryType) (m : Message) (w : World Buffer S)
      → t ≢ string
      → set_received core t m w ≡ Registry.set core t m.property (carried t m) default_reliability w
  unfolding set_received
  set_received-set string m w ns = absurd (ns refl)
  set_received-set _ m w ns = refl

  -- The round of the registry leaves an adapter that accepts no value as it is.
  pub closed_stays :
      (t : EntryType) (p : ℕ) (v : Value) (refs : List (Option ℕ)) (r : ℕ) (c : Adapter Buffer)
      (live live' : List (ℕ × Adapter Buffer))
      → c.accept_property ≡ false
      → find r live ≡ some c
      → Told core t p v default_reliability refs live live'
      → find r live' ≡ some c
  closed_stays t p v refs r c live live' shut found h =
      h r
      ∙ rw found (elim (Bool-cases (registered r refs)) [
        | inl e ↦ rw e (ap some (told_unchanged core t p v default_reliability c (inl shut)))
        | inr e ↦ rw e refl
      ])

module _ (core : RCore) {S : Type 0} (r : ℕ) (t : EntryType) (m : Message)
    (a : Adapter core.Buffer) where
  -- With a registry: the message's value is set while the adapter is closed, then it is opened.
  pub apply_update-received :
      (w w₁ : World core.Buffer S) (c : Adapter core.Buffer)
      → a.has_registry ≡ true
      → set_received core t m
          (with_adapter r (record a { had_update = true; accept_property = false }) w)
        ≡ ok w₁
      → find r w₁.adapters ≡ some c
      → apply_update core r t m a w ≡ ok (with_adapter r (record c { accept_property = true }) w₁)
  unfolding apply_update
  apply_update-received w w₁ c connected e found =
      let shut = with_adapter r (record a { had_update = true; accept_property = false }) w in
      ap
        (λ b. (if b then set_received core t m shut else ok shut) >>= λ w'.
          adapter_at r w' >>= λ a'. ok (with_adapter r (record a' { accept_property = true }) w'))
        connected
      ∙ rw e (rw (adapter_at-found r w₁ found) refl)

  pub apply_update-detached :
      (w : World core.Buffer S) (c : Adapter core.Buffer)
      → a.has_registry ≡ false
      → find r (with_adapter r (record a { had_update = true; accept_property = false }) w).adapters
        ≡ some c
      → apply_update core r t m a w
        ≡ ok (
            with_adapter r
              (record c { accept_property = true })
              (with_adapter r (record a { had_update = true; accept_property = false }) w))
  unfolding apply_update
  apply_update-detached w c detached found =
      let shut = with_adapter r (record a { had_update = true; accept_property = false }) w in
      ap
        (λ b. (if b then set_received core t m shut else ok shut) >>= λ w'.
          adapter_at r w' >>= λ a'. ok (with_adapter r (record a' { accept_property = true }) w'))
        detached
      ∙ rw (adapter_at-found r shut found) refl

module _ (core : RCore) (policies : PersistencyPolicy) where
  open core use {Buffer}
  open policies use {State}

  pub handle_update-kept :
      (r : ℕ) (t : EntryType) (m : Message) (a : Adapter Buffer) (policy : Option Policy)
      (w w₁ w₂ : World Buffer State)
      → verdict a.dropper m a.adapter_id ≡ some (false, policy)
      → apply_update core r t m (record a { dropper = policy }) w ≡ ok w₁
      → finish core policies r t m w₁ ≡ ok w₂
      → handle_update core policies r t m a w ≡ ok w₂
  unfolding handle_update
  handle_update-kept r t m a policy w w₁ w₂ v e f = rw v (rw e f)
