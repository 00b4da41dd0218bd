-- ===== src/Dropper/Order.antt =====
-- The verdict of the lossy policy on one message, from the record of the message's entry.
use rbase.Base.{ℕ, ◌+◌, ◌-◌, ◌^◌, ◌≤◌, ◌<◌, ◌≡◌, ◌↔◌, ◌⊎◌, inl, inr, true, false, arith}
use rbase.Base.Int.{ℤ, pos, negsuc, ◌-ℤ◌, eqb_ℤ_iff}
use rbase.Dropper.{EntryRecord, distance, judge}

-- The sequence number `s` is behind `e` by at most 50, as the signed 16-bit difference has it: both
-- lie in one half of the range, or `e` has wrapped around to `s` within 50 steps.
abbrev pub IsBehind : ℕ → ℕ → Type 0
IsBehind s e =
    ((s < e) × (e ≤ s + 50) × ((e < 2 ^ 15) ⊎ (2 ^ 15 ≤ s)))
    ⊎ ((s < 2 ^ 15) × (2 ^ 15 ≤ e) × (s + 2 ^ 16 ≤ e + 50))

distance_same_half :
    (s e : ℕ) → s < e → e < 2 ^ 16 → (e < 2 ^ 15) ⊎ (2 ^ 15 ≤ s) → distance s e ≡ e - s
unfolding distance ◌-ℤ◌
distance_same_half s e h w half = ground arith

distance_across : (s e : ℕ) → s < 2 ^ 15 → 2 ^ 15 ≤ e → e < 2 ^ 16 → distance s e ≡ s + 2 ^ 16 - e
unfolding distance ◌-ℤ◌
distance_across s e h k w = ground arith

IsBehind-iff : (s e : ℕ) → e < 2 ^ 16 → ((s < e) × (distance s e ≤ 50)) ↔ IsBehind s e
IsBehind-iff s e w = (to, from)
  where
    to : (s < e) × (distance s e ≤ 50) → IsBehind s e
    to (h, d) = elim halves [
      | inl same ↦ inl (h, omega (arith, distance_same_half s e h w same), same)
      | inr (low, high) ↦ inr (low, high, omega (arith, distance_across s e low high w))
    ]
      where
        halves : ((e < 2 ^ 15) ⊎ (2 ^ 15 ≤ s)) ⊎ ((s < 2 ^ 15) × (2 ^ 15 ≤ e))
        halves = ground arith

    from : IsBehind s e → (s < e) × (distance s e ≤ 50)
    from (inl (h, d, half)) = (h, omega (arith, distance_same_half s e h w half))
    from (inr (h, k, d)) = (omega arith, omega (arith, distance_across s e h k w))

-- `judge` drops in its last branch only.
dropped_tests :
    (e : EntryRecord) (s : ℕ) (id : ℤ)
    → (judge e s id).0 ≡ true
    → (s < e.sequent_number) × (distance s e.sequent_number ≤ 50) × (pos e.adapter_id ≡ id)
unfolding judge
dropped_tests e s id h = ground (arith, (eqb_ℤ_iff (pos e.adapter_id) id).0)

tests_dropped :
    (e : EntryRecord) (s : ℕ) (id : ℤ)
    → s < e.sequent_number
    → distance s e.sequent_number ≤ 50
    → pos e.adapter_id ≡ id
    → (judge e s id).0 ≡ true
unfolding judge
tests_dropped e s id h d same = ground (arith, (eqb_ℤ_iff (pos e.adapter_id) id).1)

-- A message is dropped exactly when its sequence number is behind the recorded one, in the sense of
-- `IsBehind`, and it comes from the recorded adapter.
pub judge_drops_iff :
    (e : EntryRecord) (s : ℕ) (id : ℤ)
    → e.sequent_number < 2 ^ 16
    → ((judge e s id).0 ≡ true) ↔ (IsBehind s e.sequent_number × (pos e.adapter_id ≡ id))
judge_drops_iff e s id w = (to, from)
  where
    near :
        ((s < e.sequent_number) × (distance s e.sequent_number ≤ 50)) ↔ IsBehind s e.sequent_number
    near = IsBehind-iff s e.sequent_number w

    to : (judge e s id).0 ≡ true → IsBehind s e.sequent_number × (pos e.adapter_id ≡ id)
    to h = let (l, d, same) = dropped_tests e s id h in (near.0 (l, d), same)

    from : IsBehind s e.sequent_number × (pos e.adapter_id ≡ id) → (judge e s id).0 ≡ true
    from (b, same) = let (l, d) = near.1 b in tests_dropped e s id l d same

-- A dropped message leaves the record as it was.
pub judge_dropped_unchanged :
    (e : EntryRecord) (s : ℕ) (id : ℤ) → (judge e s id).0 ≡ true → (judge e s id).1 ≡ e
unfolding judge
judge_dropped_unchanged e s id h = ground arith

-- A message at or after the recorded number is kept, and its number recorded.
pub judge-in_order :
    (e : EntryRecord) (s : ℕ) (id : ℤ)
    → e.sequent_number ≤ s
    → judge e s id ≡ (false, record e { sequent_number = s })
unfolding judge
judge-in_order e s id h = ground arith

-- A record keeps fitting in its two 16-bit fields.
pub record Fits (e : EntryRecord) : Type 0 where
  pub sequent_number_fits : e.sequent_number < 2 ^ 16
  pub adapter_id_fits : e.adapter_id < 2 ^ 16

pub judge-Fits : (e : EntryRecord) (s : ℕ) (id : ℤ) → s < 2 ^ 16 → Fits e → Fits (judge e s id).1
unfolding judge
judge-Fits e s (pos n) h f = ground arith
judge-Fits e s (negsuc n) h f = ground arith

pub judge_across :
    (e : EntryRecord) (s : ℕ) (id : ℤ)
    → s < 2 ^ 15
    → 2 ^ 15 ≤ e.sequent_number
    → e.sequent_number ≤ s + 50
    → judge e s id ≡ (false, record e { sequent_number = 0 })
unfolding judge distance ◌-ℤ◌
judge_across e s id low high near = ground arith
