-- ===== src/SubscriptionMap.antt =====
-- RRegistry/include/RRegistry/SubscriptionMap.hpp: a vector of stores for each type. The value
-- arrays of the registry have the same shape, and are kept in the same form.
pub mod Shape
use rbase.Base.{ℕ, Option, none, some, List, map, get_elem?, replicate}
use rbase.Base
use rbase.Entries.{entry_count_types}

-- `std::array<std::vector<Store>, Type::_COUNT>`, by the numbers of the types.
abbrev pub SubscriptionMap {ℓ} : Type ℓ → Type ℓ
SubscriptionMap A = List (List A)

module _ {ℓ} {A : Type ℓ} where
  -- `m[type][property]`; `none` is an access out of bounds.
  unfoldable pub get : SubscriptionMap A → ℕ → ℕ → Option A
  get m type property = elim (get_elem? m type) [ none ↦ none | some row ↦ get_elem? row property ]

  -- `m[type][property] = v`, where that is in bounds.
  pub put : SubscriptionMap A → ℕ → ℕ → A → SubscriptionMap A
  put m type property v = elim (get_elem? m type) [
    | none ↦ m
    | some row ↦ Base.set m type (Base.set row property v)
  ]

  -- `InitSubscriptionMap`.
  unfoldable pub init : A → SubscriptionMap A
  init v = map (λ count. replicate count v) entry_count_types

  -- A loop that writes `v` to every store.
  pub fill : A → SubscriptionMap A → SubscriptionMap A
  fill v m = map (map (λ _. v)) m
