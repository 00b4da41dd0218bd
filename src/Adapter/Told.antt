-- ===== src/Adapter/Told.antt =====
-- What an adapter is after the registry has told it of a value.
use rbase.Base.{
  ℕ, ◌≡◌, ◌≢◌, refl, ap, Bool, true, false, not, Option, none, some, if◌then◌else◌, arith, ◌⊎◌,
}
use rbase.Base.Outcome.{ok, fault, assertion}
use rbase.Entries.{EntryType, string, type_num}
use rbase.Value.{Value}
use rbase.SubscriptionMap
use rbase.Reliability.{acknowledged, reliability_contains}
use rbase.RCore.{RCore, Event, not_accepted, not_subscribed}
use rbase.Adapter
use rbase.Adapter.{Adapter, send_set, set_checked, set_value}

module _ (core : RCore) (t : EntryType) (p : ℕ) (v : Value) (rel : ℕ) where
  open core use {Buffer, send_value}

  told_by : Bool → Option Bool → Adapter Buffer → Adapter Buffer
  told_by true (some true) a = (send_set core t p v rel a).1
  told_by _ _ a = a

  -- An adapter that accepts values, and whose other end has subscribed to the entry, sends it; any
  -- other stays as it is.
  pub told : Adapter Buffer → Adapter Buffer
  unfolding told_by
  told a = told_by a.accept_property (SubscriptionMap.get a.subscriptions (type_num t) p) a

  set_not_string :
      (u : EntryType) (a : Adapter Buffer)
      → u ≢ string
      → Adapter.set core u p v rel a ≡ set_value core u p v rel a
  unfolding Adapter.set
  set_not_string string a ns = absurd (ns refl)
  set_not_string _ a ns = refl

  set_by :
      (acc : Bool) (s : Option Bool) (a : Adapter Buffer) {b : Bool}
      → s ≡ some b
      → (e : Event) × ((if not acc then ok (not_accepted, a) else set_checked core s t p v rel a)
          ≡ ok (e, told_by acc s a))
  unfolding set_checked told_by
  set_by acc none a h = cc
  set_by true (some true) a h = ((send_set core t p v rel a).0, refl)
  set_by true (some false) a h = (not_subscribed, refl)
  set_by false (some b) a h = (not_accepted, refl)

  -- The adapter after `set`, which does not fault at an entry that the subscriptions have.
  pub set-told :
      (a : Adapter Buffer) {b : Bool}
      → t ≢ string
      → SubscriptionMap.get a.subscriptions (type_num t) p ≡ some b
      → (e : Event) × (Adapter.set core t p v rel a ≡ ok (e, told a))
  unfolding set_value told
  set-told a {b} ns sub =
      rw (set_not_string t a ns) (
        set_by a.accept_property (SubscriptionMap.get a.subscriptions (type_num t) p) a {b = b} sub)

  told_by-unchanged :
      (acc : Bool) (s : Option Bool) (a : Adapter Buffer)
      → (acc ≡ false) ⊎ (s ≡ some false)
      → told_by acc s a ≡ a
  unfolding told_by
  told_by-unchanged true (some true) a h = ground arith
  told_by-unchanged _ _ a h = refl

  -- Nothing changes where values are not accepted, or the entry is not subscribed to.
  pub told_unchanged :
      (a : Adapter Buffer)
      → (a.accept_property ≡ false)
        ⊎ (SubscriptionMap.get a.subscriptions (type_num t) p ≡ some false)
      → told a ≡ a
  unfolding told
  told_unchanged a h = told_by-unchanged a.accept_property _ a h

  told_by-sends :
      (acc : Bool) (s : Option Bool) (a : Adapter Buffer)
      → acc ≡ true
      → s ≡ some true
      → told_by acc s a ≡ (send_set core t p v rel a).1
  unfolding told_by
  told_by-sends true (some true) a h k = refl
  told_by-sends _ _ a h k = ground arith

  pub buffer-told :
      (a : Adapter Buffer)
      → a.accept_property ≡ true
      → SubscriptionMap.get a.subscriptions (type_num t) p ≡ some true
      → (told a).buffer
        ≡ (send_value a.buffer (type_num t) p v (reliability_contains rel acknowledged)).0
  unfolding told send_set
  buffer-told a acc sub =
      ap (λ (x : Adapter Buffer). x.buffer) (told_by-sends a.accept_property _ a acc sub)

  told_by-keeps :
      (acc : Bool) (s : Option Bool) (a : Adapter Buffer)
      → (b : Buffer) × (r : ℕ) × (told_by acc s a
          ≡ record a { buffer = b; current_reliability = r })
  unfolding told_by send_set
  told_by-keeps true (some true) a = (_, _, refl)
  told_by-keeps _ _ a = (a.buffer, a.current_reliability, refl)

  -- Only the buffer and the current reliability ever change.
  pub told_keeps :
      (a : Adapter Buffer)
      → (b : Buffer) × (r : ℕ) × (told a ≡ record a { buffer = b; current_reliability = r })
  unfolding told
  told_keeps a = told_by-keeps a.accept_property _ a

module _ (core : RCore) (p : ℕ) (v : Value) (rel : ℕ) where
  open core use {Buffer}

  pub set-string : (a : Adapter Buffer) → Adapter.set core string p v rel a ≡ fault assertion
  unfolding Adapter.set
  set-string a = refl
