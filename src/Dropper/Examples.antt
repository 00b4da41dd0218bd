-- ===== src/Dropper/Examples.antt =====
-- The lossy policy at concrete records and messages.
use rbase.Base.{inl, ℕ, ◌≡◌, ◌↔◌, refl, Bool, true, false, some, List, [], ◌∷◌, arith}
use rbase.Base.Int.{pos, negsuc, ◌-ℤ◌}
use rbase.Entries.{bool, type_num, bool_num, ctrl_reset_seq_numbers}
use rbase.SubscriptionMap
use rbase.SubscriptionMap.Shape.{get-init, init-HasShape}
use rbase.Dropper.{EntryRecord, judge, should_be_dropped_lossy, distance}
use rbase.Dropper.Order.{IsBehind}
use rbase.Dropper.Records.{
  Records, lossy_drops_iff, reset_restarts, wide_id_never_dropped, wrapped_number_dropped,
  late_across_half_kept,
}
use rbase.Dropper.Burst.{passed, rising, greatest, burst_in_order}

-- All entries have heard number 100 of adapter 7.
abbrev heard : EntryRecord
heard = record { sequent_number = 100; adapter_id = 7 }

abbrev heard_all : Records
heard_all = SubscriptionMap.init heard

found : SubscriptionMap.get heard_all 4 3 ≡ some heard
found = get-init heard 4 3 16 refl (omega arith)

-- All entries have heard a number near the end of the range.
abbrev late : EntryRecord
late = record { sequent_number = 65_520; adapter_id = 7 }

abbrev late_all : Records
late_all = SubscriptionMap.init late

found_late : SubscriptionMap.get late_all 4 3 ≡ some late
found_late = get-init late 4 3 16 refl (omega arith)

abbrev half : EntryRecord
half = record { sequent_number = 32_770; adapter_id = 7 }

abbrev half_all : Records
half_all = SubscriptionMap.init half

found_half : SubscriptionMap.get half_all 4 3 ≡ some half
found_half = get-init half 4 3 16 refl (omega arith)

lossy_drops_iff_example :
    (dropped : Bool) × (rs' : Records) × (should_be_dropped_lossy heard_all 4 3 90 (pos 7)
      ≡ some (dropped, rs'))
    × ((dropped ≡ true) ↔ (IsBehind 90 100 × (pos 7 ≡ pos 7)))
lossy_drops_iff_example = lossy_drops_iff heard_all 4 3 90 (pos 7) heard found (omega arith) refl

wrapped_number_dropped_example :
    (rs' : Records) × (should_be_dropped_lossy late_all 4 3 4 (pos 7) ≡ some (true, rs'))
wrapped_number_dropped_example =
    wrapped_number_dropped late_all 4 3 20 late found_late (omega arith) refl (omega arith)
      (omega arith)

late_across_half_kept_example :
    (rs' : Records) × (should_be_dropped_lossy half_all 4 3 32_760 (pos 7) ≡ some (false, rs'))
    × (SubscriptionMap.get rs' 4 3 ≡ some (record half { sequent_number = 0 }))
late_across_half_kept_example =
    late_across_half_kept half_all 4 3 32_760 half found_half refl (omega arith) (omega arith)
      (omega arith)

-- After the reset, the old number 3 of the adapter is kept.
reset_restarts_example :
    (rs' : Records) × (rs'' : Records) × (should_be_dropped_lossy heard_all
        (type_num bool)
        (bool_num ctrl_reset_seq_numbers)
        101
        (pos 7)
      ≡ some (true, rs'))
    × (should_be_dropped_lossy rs' 4 3 3 (pos 7) ≡ some (false, rs''))
reset_restarts_example =
    reset_restarts heard_all 101 (pos 7) 4 3 16 3 (pos 7) (init-HasShape heard) refl (omega arith)
      refl

-- The id of an adapter that has not been given one that fits.
wide_id_never_dropped_example :
    (rs' : Records) × (should_be_dropped_lossy heard_all 4 3 99 (negsuc 0) ≡ some (false, rs'))
wide_id_never_dropped_example =
    wide_id_never_dropped heard_all 4 3 99 (negsuc 0) heard found
      (record { sequent_number_fits = omega arith; adapter_id_fits = omega arith }) refl (λ n e. cc)

abbrev burst : List ℕ
burst = 101 ∷ 103 ∷ 102 ∷ 99 ∷ 110 ∷ []

burst_in_order_example :
    (rs' : Records) × (passed heard_all 4 3 (pos 7) burst ≡ some (101 ∷ 103 ∷ 110 ∷ [], rs'))
    × (SubscriptionMap.get rs' 4 3 ≡ some (record heard { sequent_number = 110 }))
unfolding rising greatest
burst_in_order_example =
    burst_in_order heard_all 4 3 80 (pos 7) heard burst refl (inl (omega arith)) found refl
      (omega arith) (omega arith) (omega arith)

-- Tests.
test_newer : judge heard 101 (pos 7) ≡ (false, record heard { sequent_number = 101 })
unfolding judge distance ◌-ℤ◌
test_newer = refl

test_older : judge heard 90 (pos 7) ≡ (true, heard)
unfolding judge distance ◌-ℤ◌
test_older = refl

test_far : judge heard 40 (pos 7) ≡ (false, record heard { sequent_number = 0 })
unfolding judge distance ◌-ℤ◌
test_far = refl

test_other_adapter :
    judge heard 90 (pos 8) ≡ (false, record { sequent_number = 90; adapter_id = 8 })
unfolding judge distance ◌-ℤ◌
test_other_adapter = refl
