-- ===== src/Detail/Continuous.antt =====
-- RRegistry/include/RRegistry/Detail.hpp: one numbering of all entries, type after type.
pub mod Locate
pub mod Search
use rbase.Base.{
  ℕ, zero, suc, ◌+◌, ◌-◌, ◌^◌, Bool, not, ◌||◌, Option, none, some, List, [], ◌∷◌, ◌==◌,
  if◌then◌else◌,
}
use rbase.Base.Int.{ℤ, pos, negsuc, ◌-ℤ◌}
use rbase.Entries.{entry_count_types}

-- `GetFullEntryCount`: the sum over the array.
unfoldable pub sum : List ℕ → ℕ
sum [] = 0
sum (c ∷ cs) = c + sum cs

unfoldable pub get_full_entry_count : ℕ
unfolding sum
get_full_entry_count = sum entry_count_types

-- The loop of `GetTypeFromContinousNumber`, over the part of `GetEntryCountTypes` that is not yet
-- read. `none` is a read past its end.
pub type_loop : List ℕ → ℕ → ℤ → Option ℕ
type_loop cs type (negsuc k) = some type
type_loop [] type (pos n) = none
type_loop (c ∷ cs) type (pos n) = elim (pos n -ℤ pos c) [
  | pos m ↦ type_loop cs (suc type) (pos m)
  | negsuc k ↦ type_loop cs type (negsuc k)
]

pub get_type_from_continuous_number : ℤ → Option ℕ
unfolding type_loop ◌-ℤ◌
get_type_from_continuous_number i = type_loop entry_count_types 0 i

-- `for(n = 0; n < type; ++n) i -= GetEntryCount(n)`.
pub subtract_counts : ℕ → List ℕ → ℤ → Option ℤ
subtract_counts zero cs i = some i
subtract_counts (suc n) [] i = none
subtract_counts (suc n) (c ∷ cs) i = subtract_counts n cs (i -ℤ pos c)

-- The conversion of an `int` to `std::size_t`.
abbrev pub to_size_t : ℤ → ℕ
to_size_t (pos n) = n
to_size_t (negsuc k) = 2 ^ 64 - 1 - k

pub normalize_continuous_number : ℤ → Option ℕ
unfolding subtract_counts ◌-ℤ◌
normalize_continuous_number i = elim (get_type_from_continuous_number i) [
  | none ↦ none
  | some type ↦ elim (subtract_counts type entry_count_types i) [
    | none ↦ none
    | some r ↦ some (to_size_t r)
  ]
]

-- `property != Normalize(i) || type != TypeFrom(i)`; `none` is a fault in either call.
pub is_other : ℕ → ℕ → ℕ → Option Bool
is_other type property i = elim (normalize_continuous_number (pos i)) [
  | none ↦ none
  | some p ↦ elim (get_type_from_continuous_number (pos i)) [
    | none ↦ none
    | some t ↦ some (not (property == p) || not (type == t))
  ]
]

-- The loop of `GetContinuousNumberFromPropertyType`, on fuel. `none` is a fault or no fuel left.
pub search_from : ℕ → ℕ → ℕ → ℕ → Option ℕ
search_from zero type property i = none
search_from (suc f) type property i =
    let next = search_from f type property (suc i) in
    elim (is_other type property i) [ none ↦ none | some b ↦ if b then next else some i ]

pub get_continuous_number : ℕ → ℕ → ℕ → Option ℕ
unfolding search_from
get_continuous_number fuel type property = search_from fuel type property 0
