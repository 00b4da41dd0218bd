-- ===== src/Dropper/Burst.antt =====
-- Bursts of messages for one entry: the lossy policy lets through what is in order.
use rbase.Base.{
  ℕ, ◌+◌, ◌^◌, ◌≤◌, ◌<◌, ◌≡◌, ◌⊎◌, refl, ap, ◌∙◌, inl, inr, Bool, true, false, leb, Option, none,
  some, List, [], ◌∷◌, if◌then◌else◌, arith, Bool-cases, leb→le,
}
use rbase.Base.Int.{ℤ, pos}
use rbase.SubscriptionMap
use rbase.SubscriptionMap.Shape.{get-put_self}
use rbase.Dropper.{EntryRecord, judge, is_reset, should_be_dropped_lossy}
use rbase.Dropper.Order.{judge_drops_iff, judge_dropped_unchanged, judge-in_order}
use rbase.Dropper.Records.{Records, lossy_step}

-- The numbers of a burst that `shouldBeDropped`, called for one message after the other, lets
-- through, and the records in the end.
pub passed : Records → ℕ → ℕ → ℤ → List ℕ → Option (List ℕ × Records)
passed rs t p id [] = some ([], rs)
passed rs t p id (s ∷ rest) = elim (should_be_dropped_lossy rs t p s id) [
  | none ↦ none
  | some (dropped, rs') ↦ elim (passed rs' t p id rest) [
    | none ↦ none
    | some (kept, rs'') ↦ some (if dropped then kept else s ∷ kept, rs'')
  ]
]

-- What arrived in order: the numbers that are no smaller than all before them, and than `top`.
unfoldable pub rising : ℕ → List ℕ → List ℕ
rising top [] = []
rising top (s ∷ rest) =
    let later = rising s rest in
    let later' = rising top rest in if leb top s then s ∷ later else later'

-- The greatest of them.
unfoldable pub greatest : ℕ → List ℕ → ℕ
greatest top [] = top
greatest top (s ∷ rest) = greatest (if leb top s then s else top) rest

-- All numbers lie in a window of 51.
abbrev pub InWindow : ℕ → List ℕ → Type 0
InWindow lo [] = Unit {0}
InWindow lo (s ∷ rest) = (lo ≤ s) × (s ≤ lo + 50) × InWindow lo rest

-- The window that starts at `lo` lies in one half of the 16-bit range.
abbrev pub InHalf : ℕ → Type 0
InHalf lo = (lo + 50 < 2 ^ 15) ⊎ ((2 ^ 15 ≤ lo) × (lo + 50 < 2 ^ 16))

in_half :
    (lo s e : ℕ) → InHalf lo → lo ≤ s → e ≤ lo + 50 → (e < 2 ^ 16) × ((e < 2 ^ 15) ⊎ (2 ^ 15 ≤ s))
in_half lo s e (inl low) h g = (omega arith, inl (omega arith))
in_half lo s e (inr (high, fits)) h g = (omega arith, inr (omega arith))

passed_step :
    (rs rs' rs'' : Records) (t p s : ℕ) (id : ℤ) (rest kept : List ℕ) (dropped : Bool)
    → should_be_dropped_lossy rs t p s id ≡ some (dropped, rs')
    → passed rs' t p id rest ≡ some (kept, rs'')
    → passed rs t p id (s ∷ rest) ≡ some (if dropped then kept else s ∷ kept, rs'')
unfolding passed
passed_step rs rs' rs'' t p s id rest kept dropped e f = rw (e, passed) (rw (f, passed) refl)

module _ (t p : ℕ) (id : ℤ) (plain : is_reset t p ≡ false) (lo : ℕ) (half : InHalf lo) where
  passed_burst :
      (burst : List ℕ) (rs : Records) (e : EntryRecord)
      → SubscriptionMap.get rs t p ≡ some e
      → pos e.adapter_id ≡ id
      → lo ≤ e.sequent_number
      → e.sequent_number ≤ lo + 50
      → InWindow lo burst
      → (rs' : Records) × (passed rs t p id burst ≡ some (rising e.sequent_number burst, rs'))
        × (SubscriptionMap.get rs' t p
            ≡ some (record e { sequent_number = greatest e.sequent_number burst }))
  unfolding passed rising greatest
  passed_burst [] rs e found same low high w = (rs, refl, found)
  passed_burst (s ∷ rest) rs e found same low high w = elim (Bool-cases (leb e.sequent_number s)) [
    | inl newer ↦
        let e' = record e { sequent_number = s } in
        let rs₁ = SubscriptionMap.put rs t p e' in
        let step =
          lossy_step rs t p found s id plain
          ∙ ap (λ r. some (r.0, SubscriptionMap.put rs t p r.1))
              (judge-in_order e s id (leb→le e.sequent_number s newer)) in
        let (rs', q, g) =
          passed_burst rest rs₁ e' (get-put_self rs t p e' found) same w.0 w.1 w.2 in
        (
          rs',
          rw newer (passed_step rs rs₁ rs' t p s id rest (rising s rest) false step q),
          rw newer g,
        )
    | inr older ↦
        let rs₁ = SubscriptionMap.put rs t p e in
        let drop = (judge_drops_iff e s id (in_half lo s e.sequent_number half w.0 high).0).1 (
          inl (ground arith, omega arith, (in_half lo s e.sequent_number half w.0 high).1),
          same,
        ) in
        let step =
          lossy_step rs t p found s id plain
          ∙ ap (λ b. some (b, SubscriptionMap.put rs t p (judge e s id).1)) drop
          ∙ ap (λ r. some (true, SubscriptionMap.put rs t p r))
              (judge_dropped_unchanged e s id drop) in
        let (rs', q, g) = passed_burst rest rs₁ e (get-put_self rs t p e found) same low high w.2 in
        (
          rs',
          rw older
              (passed_step rs rs₁ rs' t p s id rest (rising e.sequent_number rest) true step q),
          rw older g,
        )
  ]

-- A burst for one entry, but the reset command, from the recorded adapter, within a window of 51 numbers
-- that holds the recorded one and lies below 2 ^ 15, or from 2 ^ 15 on: let through are exactly the messages that arrive in order,
-- and the greatest number is recorded.
pub burst_in_order :
    (rs : Records) (t p lo : ℕ) (id : ℤ) (e : EntryRecord) (burst : List ℕ)
    → is_reset t p ≡ false
    → InHalf lo
    → SubscriptionMap.get rs t p ≡ some e
    → pos e.adapter_id ≡ id
    → lo ≤ e.sequent_number
    → e.sequent_number ≤ lo + 50
    → InWindow lo burst
    → (rs' : Records) × (passed rs t p id burst ≡ some (rising e.sequent_number burst, rs'))
      × (SubscriptionMap.get rs' t p
          ≡ some (record e { sequent_number = greatest e.sequent_number burst }))
burst_in_order rs t p lo id e burst plain half found same low high w =
    passed_burst t p id plain lo half burst rs e found same low high w
