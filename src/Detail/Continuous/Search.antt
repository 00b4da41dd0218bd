-- ===== src/Detail/Continuous/Search.antt =====
-- `GetContinuousNumberFromPropertyType` finds the number of every entry, and of nothing else.
use rbase.Base.{
  le_or_lt, Bool-cases, ==_iff, ℕ, zero, suc, ◌+◌, ◌≤◌, ◌<◌, ◌≡◌, ◌≢◌, refl, ◌∙◌, inl, inr, ap,
  true, false, not, ◌||◌, none, some, get_elem?, ◌==◌, arith,
}
use rbase.Base.Int.{pos}
use rbase.Entries.{entry_count_types}
use rbase.Detail.Continuous.{
  get_type_from_continuous_number, normalize_continuous_number, get_full_entry_count, is_other,
  search_from, get_continuous_number,
}
use rbase.Detail.Continuous.Locate.{
  offset, Located, locate_entry, offset-lt, type-at, normalize-at, type_past_end,
}

is_other-at :
    (t p u q c : ℕ)
    → get_elem? entry_count_types u ≡ some c
    → q < c
    → is_other t p (offset u + q) ≡ some (not (p == q) || not (t == u))
unfolding is_other
is_other-at t p u q c e h =
    rw (normalize-at u q c e h, is_other) (rw (type-at u q c e h, is_other) refl)

is_other_past_end : (t p n : ℕ) → get_full_entry_count ≤ n → is_other t p n ≡ none
unfolding is_other normalize_continuous_number
is_other_past_end t p n h = rw (type_past_end n h, normalize_continuous_number, is_other) refl

differ : (t p u q : ℕ) → (t ≡ u → p ≢ q) → (not (p == q) || not (t == u)) ≡ true
differ t p u q ne = elim (Bool-cases (p == q)) [
  | inr e ↦ rw e refl
  | inl e ↦ elim (Bool-cases (t == u)) [
    | inr f ↦ ground arith
    | inl f ↦ absurd (ne ((==_iff t u).0 f) ((==_iff p q).0 e))
  ]
]

-- The test at a number below the full count, where the number is another entry's.
is_other-Located :
    (t p n : ℕ) (l : Located entry_count_types n)
    → (t ≡ l.type → p ≢ l.property)
    → is_other t p n ≡ some true
unfolding offset
is_other-Located t p n l ne = rw l.decomposed (
    is_other-at t p l.type l.property l.count l.counted l.within
    ∙ ap some (differ t p l.type l.property ne))

is_other_below :
    (t p n : ℕ) → n < get_full_entry_count → n ≢ offset t + p → is_other t p n ≡ some true
unfolding offset
is_other_below t p n h ne =
    let l = locate_entry n h in is_other-Located t p n l (λ e f. ne (rw (e, f) l.decomposed))

is_other_here :
    (t p c : ℕ)
    → get_elem? entry_count_types t ≡ some c
    → p < c
    → is_other t p (offset t + p) ≡ some false
is_other_here t p c e h = is_other-at t p t p c e h ∙ ap some (ground arith)

module _ (t p : ℕ) where
  search_finds :
      (c : ℕ)
      → get_elem? entry_count_types t ≡ some c
      → p < c
      → (fuel d i : ℕ) → offset t + p ≡ d + i
      → d < fuel
      → search_from fuel t p i ≡ some (offset t + p)
  unfolding search_from
  search_finds c counted within zero d i e h = elim h [ ]
  search_finds c counted within (suc f) zero i e h =
      let e' : i ≡ offset t + p = omega arith in
      rw (e', is_other_here t p c counted within, search_from) (ap some e')
  search_finds c counted within (suc f) (suc d) i e h =
      rw
        (
          is_other_below t p i (omega (arith, offset-lt t p c counted within)) (omega arith),
          search_from,
        )
        (search_finds c counted within f d (suc i) (omega arith) (omega arith))

  -- No number is found for a pair that is no entry: the search runs past the end of the counts.
  search_fails :
      ((c : ℕ) → get_elem? entry_count_types t ≡ some c → c ≤ p)
      → (fuel i : ℕ) → search_from fuel t p i ≡ none
  unfolding search_from
  search_fails beyond zero i = refl
  search_fails beyond (suc f) i = elim (le_or_lt get_full_entry_count i) [
    | inl past ↦ rw (is_other_past_end t p i past, search_from) refl
    | inr below ↦
        let l = locate_entry i below in
        rw
          (
            is_other-Located t p i l
                (λ e f. absurd (omega (arith, beyond l.count (rw e l.counted), l.within, f))),
            search_from,
          )
          (search_fails beyond f (suc i))
  ]

-- With fuel for the full count of entries, the search for entry `p` of type `t` returns its number.
pub continuous_number_found :
    (t p c fuel : ℕ)
    → get_elem? entry_count_types t ≡ some c
    → p < c
    → get_full_entry_count ≤ fuel
    → (get_continuous_number fuel t p ≡ some (offset t + p))
      × (get_type_from_continuous_number (pos (offset t + p)) ≡ some t)
      × (normalize_continuous_number (pos (offset t + p)) ≡ some p)
unfolding get_continuous_number
continuous_number_found t p c fuel e h f = (
  search_finds t p c e h fuel (offset t + p) 0 (omega arith) (omega (arith, offset-lt t p c e h)),
  type-at t p c e h,
  normalize-at t p c e h,
)

-- For a type and a property that are no entry the search finds no number, however long it goes on: in
-- the end it reads past the counts.
pub continuous_number_invalid :
    (t p fuel : ℕ)
    → ((c : ℕ) → get_elem? entry_count_types t ≡ some c → c ≤ p)
    → get_continuous_number fuel t p ≡ none
unfolding get_continuous_number
continuous_number_invalid t p fuel beyond = search_fails t p beyond fuel 0

-- Each number below the full count has a type and a number within it, and the search over these
-- returns the number again.
pub continuous_number_roundtrip :
    (n fuel : ℕ)
    → n < get_full_entry_count
    → get_full_entry_count ≤ fuel
    → (t : ℕ) × (p : ℕ) × (get_type_from_continuous_number (pos n) ≡ some t)
      × (normalize_continuous_number (pos n) ≡ some p)
      × (get_continuous_number fuel t p ≡ some n)
unfolding offset
continuous_number_roundtrip n fuel h f =
    let l = locate_entry n h in
    let found = continuous_number_found l.type l.property l.count fuel l.counted l.within f in
    (l.type, l.property, rw l.decomposed found.1, rw l.decomposed found.2, rw l.decomposed found.0)
