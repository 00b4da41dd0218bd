-- ===== src/Registry/Pointers.antt =====
-- The registry's pointers to its adapters: who exists, who is registered, and that none is twice.
use rbase.Base.{
  ℕ, ◌≡◌, refl, ap, subst, Bool, true, false, ◌||◌, Option, none, some, List, [], ◌∷◌, ◌==◌,
  if◌then◌else◌, arith, Option-cases, inl, inr, ℕ_discrete,
}
use rbase.Base.Assoc.{find, replace, find-replace_self, find-replace_ne, find-replace_cases}
use rbase.SubscriptionMap.Shape.{HasShape}
use rbase.Adapter.{Adapter}

module _ {B : Type 0} where
  -- Every adapter has a subscription flag for every entry.
  pub record AllShaped (live : List (ℕ × Adapter B)) : Type 0 where
    pub shaped : (r : ℕ) (a : Adapter B) → find r live ≡ some a → HasShape a.subscriptions

  pub AllShaped-cons :
      (k : ℕ) (a : Adapter B) (live : List (ℕ × Adapter B))
      → HasShape a.subscriptions
      → AllShaped live
      → AllShaped ((k, a) ∷ live)
  unfolding find
  AllShaped-cons k a live h s = record { shaped = λ r b e. by_test (k == r) r b e }
    where
      by_test :
          (same : Bool) (r : ℕ) (b : Adapter B)
          → (if same then some a else find r live) ≡ some b
          → HasShape b.subscriptions
      by_test true r b e =
          let same : a ≡ b = cc in subst (λ (x : Adapter B). HasShape x.subscriptions) same h
      by_test false r b e = s.shaped r b e

  pub AllShaped-nil : AllShaped []
  unfolding find
  AllShaped-nil = record { shaped = λ r a e. cc }

  -- The pointers whose adapters exist.
  unfoldable pub alive : List (ℕ × Adapter B) → List (Option ℕ) → List (Option ℕ)
  alive live [] = []
  alive live (none ∷ refs) = alive live refs
  alive live (some r ∷ refs) = elim (find r live) [
    | none ↦ alive live refs
    | some a ↦ some r ∷ alive live refs
  ]

-- Whether `r` is among the pointers.
unfoldable pub registered : ℕ → List (Option ℕ) → Bool
registered r [] = false
registered r (none ∷ refs) = registered r refs
registered r (some q ∷ refs) = q == r || registered r refs

-- No adapter is registered twice.
abbrev pub Distinct : List (Option ℕ) → Type 0
Distinct [] = Unit {0}
Distinct (none ∷ refs) = Distinct refs
Distinct (some r ∷ refs) = (registered r refs ≡ false) × Distinct refs

module _ {B : Type 0} (live : List (ℕ × Adapter B)) (r : ℕ) (a' : Adapter B) {a : Adapter B}
    (found : find r live ≡ some a) where
  alive-step : (refs : List (Option ℕ)) → alive live (some r ∷ refs) ≡ some r ∷ alive live refs
  unfolding alive
  alive-step refs = rw (found, alive) refl

  -- Replacing an adapter does not change who exists.
  pub alive-replace : (refs : List (Option ℕ)) → alive (replace r a' live) refs ≡ alive live refs
  unfolding alive
  alive-replace [] = refl
  alive-replace (none ∷ refs) = alive-replace refs
  alive-replace (some q ∷ refs) = elim (ℕ_discrete r q) [
    | yes e ↦
        subst (λ q. alive (replace r a' live) (some q ∷ refs) ≡ alive live (some q ∷ refs)) e
          (rw (find-replace_self r a' live found, alive)
            (rw (found, alive) (ap (◌∷◌ (some r)) (alive-replace refs))))
    | no ne ↦
        rw (find-replace_ne r q a' live ne, alive)
          (elim (Option-cases (find q live)) [
            | inl e ↦ rw (e, alive) (alive-replace refs)
            | inr (b, e) ↦ rw (e, alive) (ap (◌∷◌ (some q)) (alive-replace refs))
          ])
  ]

  pub AllShaped-replace : HasShape a'.subscriptions → AllShaped live → AllShaped (replace r a' live)
  AllShaped-replace h s = record {
    shaped = λ q b e. elim (find-replace_cases r q a' live found e) [
      | inl same ↦ subst (λ (x : Adapter B). HasShape x.subscriptions) same h
      | inr old ↦ s.shaped q b old
    ];
  }

module _ {B : Type 0} (live : List (ℕ × Adapter B)) where
  alive-registered :
      (q : ℕ) (refs : List (Option ℕ))
      → registered q refs ≡ false
      → registered q (alive live refs) ≡ false
  unfolding alive registered
  alive-registered q [] h = refl
  alive-registered q (none ∷ refs) h = alive-registered q refs h
  alive-registered q (some r ∷ refs) h = ground (arith, alive-registered q refs)

  -- The pointers that stay are still distinct.
  pub alive-Distinct : (refs : List (Option ℕ)) → Distinct refs → Distinct (alive live refs)
  unfolding alive
  alive-Distinct [] d = tt
  alive-Distinct (none ∷ refs) d = alive-Distinct refs d
  alive-Distinct (some r ∷ refs) d = elim (Option-cases (find r live)) [
    | inl e ↦ rw (e, alive) (alive-Distinct refs d.1)
    | inr (a, e) ↦ rw (e, alive) (alive-registered r refs d.0, alive-Distinct refs d.1)
  ]

  -- A pointer to an adapter that exists stays.
  pub alive-registered_found :
      (q : ℕ) (refs : List (Option ℕ)) {a : Adapter B}
      → find q live ≡ some a
      → registered q refs ≡ true
      → registered q (alive live refs) ≡ true
  unfolding alive registered
  alive-registered_found q [] found h = h
  alive-registered_found q (none ∷ refs) found h = alive-registered_found q refs found h
  alive-registered_found q (some r ∷ refs) {a} found h =
      ground (arith, alive-registered_found q refs {a = a} found, subst (λ k. find k live ≡ some a))
