-- ===== src/Base/Assoc.antt =====
-- Objects by their identity: an association list with number keys.
use Prim.Native.Nat.{ℕ}
use mathlib.Core.Path.{◌≡◌, refl, sym, subst, ◌∙◌}
use mathlib.Core.Logic.{◌⊎◌, inl, inr}
use native.Mathlib.Decide.{ℕ_discrete}
use mathlib.Core.Option.{Option, none, some}
use mathlib.Core.List.{List, [], ◌∷◌}
use native.Mathlib.Omega.{arith}
use rbase.Base.Tests.{◌==◌, if◌then◌else◌}

module _ {ℓ} {A : Type ℓ} where
  unfoldable pub find : ℕ → List (ℕ × A) → Option A
  find k [] = none
  find k ((j, a) ∷ m) = let rest = find k m in if j == k then some a else rest

  -- Where `k` is there, its value becomes `a`.
  pub replace : ℕ → A → List (ℕ × A) → List (ℕ × A)
  replace k a [] = []
  replace k a ((j, b) ∷ m) =
      let rest = replace k a m in if j == k then (j, a) ∷ m else (j, b) ∷ rest

  pub find-replace_self :
      (k : ℕ) (a : A) (m : List (ℕ × A)) {b : A}
      → find k m ≡ some b
      → find k (replace k a m) ≡ some a
  unfolding find replace
  find-replace_self k a [] e = cc
  find-replace_self k a ((j, c) ∷ m) {b} e = ground (arith, find-replace_self k a m {b = b})

  pub find-replace_ne :
      (k j : ℕ) (a : A) (m : List (ℕ × A)) → (k ≡ j → ⊥) → find j (replace k a m) ≡ find j m
  unfolding find replace
  find-replace_ne k j a [] ne = refl
  find-replace_ne k j a ((i, c) ∷ m) ne = ground (arith, ne, find-replace_ne k j a m ne)

  pub replace_same : (k : ℕ) (a : A) (m : List (ℕ × A)) → find k m ≡ some a → replace k a m ≡ m
  unfolding find replace
  replace_same k a [] e = refl
  replace_same k a ((j, c) ∷ m) e = ground (arith, replace_same k a m)

  -- What is found after a replacement is the new value, or was there before.
  pub find-replace_cases :
      (k j : ℕ) (a : A) (m : List (ℕ × A)) {b c : A}
      → find k m ≡ some b
      → find j (replace k a m) ≡ some c
      → (a ≡ c) ⊎ (find j m ≡ some c)
  find-replace_cases k j a m {b} {c} e f = elim (ℕ_discrete k j) [
    | yes p ↦
        let g : find k (replace k a m) ≡ some c =
          subst (λ i. find i (replace k a m) ≡ some c) (sym p) f in
        inl (cc (find-replace_self k a m e, g))
    | no ne ↦ inr (sym (find-replace_ne k j a m ne) ∙ f)
  ]
