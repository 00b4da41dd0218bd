-- ===== src/Registry/Broadcast.antt =====
-- Whom `Registry::set` tells of a new value.
pub mod After
use rbase.Base.{
  ℕ, ◌<◌, ◌≡◌, ◌≢◌, refl, sym, ap, ◌∙◌, subst, Bool, true, false, ◌||◌, Option, none, some, List,
  [], ◌∷◌, ◌==◌, if◌then◌else◌, Option-cases, Bool-cases, inl, inr, ==_iff, ==_refl,
}
use mathlib.Core.Bool.{false≢true}
use rbase.Base.Outcome.{ok}
use rbase.Base.Assoc.{find, replace, find-replace_self, find-replace_ne}
use rbase.Entries.{EntryType, string, type_num, entry_count}
use rbase.Value.{Value}
use rbase.SubscriptionMap.Shape.{HasShape, get_in_bounds, entry_count_num}
use rbase.RCore.{RCore, Event}
use rbase.Adapter
use rbase.Adapter.{Adapter}
use rbase.Adapter.Told.{told, set-told, told_keeps}
use rbase.Registry.{send_to_adapters}
use rbase.Registry.Pointers.{
  AllShaped, alive, registered, Distinct, alive-replace, AllShaped-replace,
}

module _ (core : RCore) (t : EntryType) (p : ℕ) (v : Value) (rel : ℕ) where
  open core use {Buffer}

  pub HasShape-told :
      (a : Adapter Buffer)
      → HasShape a.subscriptions
      → HasShape (told core t p v rel a).subscriptions
  HasShape-told a h = let (b, r, e) = told_keeps core t p v rel a in rw e h

  -- An adapter, if it exists, after it was told.
  abbrev pub told_if_any : Option (Adapter Buffer) → Option (Adapter Buffer)
  told_if_any none = none
  told_if_any (some a) = some (told core t p v rel a)

  -- The adapters after the round: those that the pointers reach have been told.
  abbrev pub Told : List (Option ℕ) → List (ℕ × Adapter Buffer) → List (ℕ × Adapter Buffer) → Type 0
  Told refs live live' =
      (r : ℕ)
      → find r live' ≡ (if registered r refs then told_if_any (find r live) else find r live)

  Told-gone :
      (r : ℕ) (refs : List (Option ℕ)) (live live' : List (ℕ × Adapter Buffer))
      → find r live ≡ none
      → Told refs live live'
      → Told (some r ∷ refs) live live'
  unfolding registered
  Told-gone r refs live live' dead h q = elim (Bool-cases (r == q)) [
    | inr other ↦ rw other (h q)
    | inl same ↦
        let e = (==_iff r q).0 same in
        let d : find q live ≡ none = subst (λ i. find i live ≡ none) e dead in
        rw (same, d) (h q ∙ rw d (both_none (registered q refs)))
  ]
    where
      both_none : (b : Bool) → (if b then told_if_any none else none) ≡ none
      both_none true = refl
      both_none false = refl

  Told-found :
      (r : ℕ) (refs : List (Option ℕ)) (live live' : List (ℕ × Adapter Buffer)) (a : Adapter Buffer)
      → find r live ≡ some a
      → registered r refs ≡ false
      → Told refs (replace r (told core t p v rel a) live) live'
      → Told (some r ∷ refs) live live'
  unfolding registered
  Told-found r refs live live' a found once h q = elim (Bool-cases (r == q)) [
    | inr other ↦ rw other (
        subst (λ o. find q live' ≡ (if registered q refs then told_if_any o else o))
          (find-replace_ne r q (told core t p v rel a) live
            (λ e. false≢true (sym other ∙ (==_iff r q).1 e)))
          (h q))
    | inl same ↦
        subst
          (λ i.
            find i live'
            ≡ (if r == i || registered i refs then told_if_any (find i live) else find i live))
          ((==_iff r q).0 same)
          (rw (==_refl r, found)
            (h r ∙ rw once (find-replace_self r (told core t p v rel a) live found)))
  ]

  send_gone :
      (r : ℕ) (refs : List (Option ℕ)) (live : List (ℕ × Adapter Buffer))
      → find r live ≡ none
      → send_to_adapters core t p v rel (some r ∷ refs) live
        ≡ send_to_adapters core t p v rel refs live
  unfolding send_to_adapters
  send_gone r refs live e = rw (e, send_to_adapters) refl

  send_found :
      (r : ℕ) (refs refs' : List (Option ℕ)) (live live' : List (ℕ × Adapter Buffer))
      (a a' : Adapter Buffer) (e : Event)
      → find r live ≡ some a
      → Adapter.set core t p v rel a ≡ ok (e, a')
      → send_to_adapters core t p v rel refs (replace r a' live) ≡ ok (refs', live')
      → send_to_adapters core t p v rel (some r ∷ refs) live ≡ ok (some r ∷ refs', live')
  unfolding send_to_adapters
  send_found r refs refs' live live' a a' e f g h =
      rw (f, send_to_adapters) (rw (g, send_to_adapters) (rw (h, send_to_adapters) refl))

  module _ (ns : t ≢ string) (within : p < entry_count t) where
    pub send_all :
        (refs : List (Option ℕ)) (live : List (ℕ × Adapter Buffer))
        → AllShaped live
        → Distinct refs
        → (live' : List (ℕ × Adapter Buffer)) × (send_to_adapters core t p v rel refs live
            ≡ ok (alive live refs, live'))
          × Told refs live live'
    unfolding send_to_adapters alive registered
    send_all [] live s d = (live, refl, λ r. refl)
    send_all (none ∷ refs) live s d = send_all refs live s d
    send_all (some r ∷ refs) live s d = elim (Option-cases (find r live)) [
      | inl gone ↦
          let (live', e, h) = send_all refs live s d.1 in
          (
            live',
            rw (gone, alive) (send_gone r refs live gone ∙ e),
            Told-gone r refs live live' gone h,
          )
      | inr (a, found) ↦
          let a' = told core t p v rel a in
          let shape = s.shaped r a found in
          let (b, sub) =
            get_in_bounds a.subscriptions shape (type_num t) p (entry_count t) (entry_count_num t)
              within in
          let (event, done) = set-told core t p v rel a ns sub in
          let s' = AllShaped-replace live r a' found (HasShape-told a shape) s in
          let (live', e, h) = send_all refs (replace r a' live) s' d.1 in
          (
            live',
            rw (found, alive)
                (send_found r refs (alive (replace r a' live) refs) live live' a a' event found done
                    e
                  ∙ ap (λ l. ok (some r ∷ l, live')) (alive-replace live r a' found refs)),
            Told-found r refs live live' a found d.0 h,
          )
    ]
