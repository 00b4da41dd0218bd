-- ===== src/Registry/Broadcast/After.antt =====
-- The adapters after the round of `Registry::set`, against those before it.
use rbase.Base.{
  ℕ, ◌≡◌, refl, sym, ap, ◌∙◌, subst, Bool, true, false, Option, some, List, if◌then◌else◌,
  Option-cases, Bool-cases, ◌⊎◌, inl, inr,
}
use rbase.Base.Assoc.{find}
use rbase.Entries.{EntryType}
use rbase.Value.{Value}
use rbase.SubscriptionMap.Shape.{HasShape}
use rbase.RCore.{RCore}
use rbase.Adapter.{Adapter}
use rbase.Adapter.Told.{told}
use rbase.Registry.Pointers.{AllShaped, registered}
use rbase.Registry.Broadcast.{told_if_any, Told, HasShape-told}

module _ (core : RCore) (t : EntryType) (p : ℕ) (v : Value) (rel : ℕ) (refs : List (Option ℕ)) where
  open core use {Buffer}

  -- Who is there after the round was there before, and has been told or not.
  pub Told-cases :
      (live live' : List (ℕ × Adapter Buffer)) (r : ℕ) (b : Adapter Buffer)
      → Told core t p v rel refs live live'
      → find r live' ≡ some b
      → (a : Adapter Buffer) × (find r live ≡ some a) × ((a ≡ b) ⊎ (told core t p v rel a ≡ b))
  Told-cases live live' r b h e = by_flag (registered r refs) (sym (h r) ∙ e)
    where
      by_flag :
          (flag : Bool)
          → (if flag then told_if_any core t p v rel (find r live) else find r live) ≡ some b
          → (a : Adapter Buffer) × (find r live ≡ some a) × ((a ≡ b) ⊎ (told core t p v rel a ≡ b))
      by_flag false e = (b, e, inl refl)
      by_flag true e = elim (Option-cases (find r live)) [
        | inl f ↦ cc (e, ap (told_if_any core t p v rel) f)
        | inr (a, f) ↦ (a, f, inr (cc (e, ap (told_if_any core t p v rel) f)))
      ]

  -- Who was there still is.
  pub Told-stays :
      (live live' : List (ℕ × Adapter Buffer)) (r : ℕ) (a : Adapter Buffer)
      → Told core t p v rel refs live live'
      → find r live ≡ some a
      → (b : Adapter Buffer) × (find r live' ≡ some b)
  Told-stays live live' r a h found = elim (Bool-cases (registered r refs)) [
    | inl e ↦ (told core t p v rel a, h r ∙ rw (found, e) refl)
    | inr e ↦ (a, h r ∙ rw (found, e) refl)
  ]

  -- Telling the adapters keeps the shape of their subscriptions.
  pub Told-AllShaped :
      (live live' : List (ℕ × Adapter Buffer))
      → Told core t p v rel refs live live'
      → AllShaped live
      → AllShaped live'
  Told-AllShaped live live' h s = record {
    shaped = λ r b e.
        (let (a, found, how) = Told-cases live live' r b h e in
          elim how [
            | inl same ↦
                subst (λ (x : Adapter Buffer). HasShape x.subscriptions) same (s.shaped r a found)
            | inr same ↦
                subst (λ (x : Adapter Buffer). HasShape x.subscriptions) same
                  (HasShape-told core t p v rel a (s.shaped r a found))
          ]);
  }
