-- ===== src/Dropper.antt =====
-- RComm/include/RComm/LiteCommDropper.hpp: which update messages an adapter drops.
pub mod Order
pub mod Records
pub mod Burst
mod Examples
use rbase.Base.{
  ℕ, ◌-◌, ◌%◌, ◌^◌, Bool, true, false, not, ◌&&◌, Option, none, some, ltb, leb, ◌==◌, if◌then◌else◌,
}
use rbase.Base.Int.{ℤ, pos, negsuc, ◌-ℤ◌, abs, eqb_ℤ}
use rbase.Entries.{bool, type_num, bool_num, ctrl_reset_seq_numbers}
use rbase.SubscriptionMap
use rbase.SubscriptionMap.{SubscriptionMap}

-- `LiteCommDropperLossyPolicy::EntryRecord`; both fields are `uint16_t`.
pub record EntryRecord : Type 0 where
  pub sequent_number : ℕ
  pub adapter_id : ℕ

-- `EntryRecord(init)`.
abbrev pub entry_record : ℕ → EntryRecord
entry_record init = record { sequent_number = init; adapter_id = init }

-- `static_cast<int16_t>` of a `uint16_t`.
abbrev pub to_int16 : ℕ → ℤ
to_int16 n = if ltb n (2 ^ 15) then pos n else negsuc (2 ^ 16 - n - 1)

-- The conversion of an `int` to `uint16_t`.
abbrev pub to_uint16 : ℤ → ℕ
to_uint16 (pos n) = n % 2 ^ 16
to_uint16 (negsuc n) = 2 ^ 16 - 1 - n % 2 ^ 16

-- `abs(static_cast<int16_t>(seq_number) - static_cast<int16_t>(entry.sequentNumber))`.
unfoldable pub distance : ℕ → ℕ → ℕ
distance seq_number sequent_number = abs (to_int16 seq_number -ℤ to_int16 sequent_number)

-- The branches below the reset, on the record of the message's entry.
unfoldable pub judge : EntryRecord → ℕ → ℤ → Bool × EntryRecord
unfolding distance
judge e seq_number adapter_id =
    if leb e.sequent_number seq_number
    then (false, record e { sequent_number = seq_number })
    else if ltb 50 (distance seq_number e.sequent_number)
    then (false, record e { sequent_number = 0 })
    else if not (eqb_ℤ (pos e.adapter_id) adapter_id)
    then (false, record { sequent_number = seq_number; adapter_id = to_uint16 adapter_id })
    else (true, e)

abbrev pub is_reset : ℕ → ℕ → Bool
is_reset type property = type == type_num bool && property == bool_num ctrl_reset_seq_numbers

-- `shouldBeDropped` of the lossy policy, with the records after it. `none` is an access out of
-- the bounds of the records.
pub should_be_dropped_lossy :
    SubscriptionMap EntryRecord → ℕ → ℕ → ℕ → ℤ → Option (Bool × SubscriptionMap EntryRecord)
unfolding judge
should_be_dropped_lossy records type property seq_number adapter_id =
    elim (SubscriptionMap.get records type property) [
      | none ↦ none
      | some entry ↦
          if is_reset type property
          then some (true, SubscriptionMap.fill (entry_record 0) records)
          else (let (dropped, entry') = judge entry seq_number adapter_id in
              some (dropped, SubscriptionMap.put records type property entry'))
    ]

-- The two policies, `LiteCommDropperPolicy` and `LiteCommDropperLossyPolicy`.
pub data Policy : Type 0 where
  keep_all : Policy
  lossy : SubscriptionMap EntryRecord → Policy

-- A new lossy policy.
pub lossy_policy : Policy
lossy_policy = lossy (SubscriptionMap.init (entry_record 0))

-- The virtual call. `reliable` is an argument that neither policy reads.
unfoldable pub should_be_dropped : Policy → ℕ → ℕ → ℕ → ℤ → Option (Bool × Policy)
should_be_dropped keep_all type property seq_number adapter_id = some (false, keep_all)
should_be_dropped (lossy records) type property seq_number adapter_id =
    elim (should_be_dropped_lossy records type property seq_number adapter_id) [
      | none ↦ none
      | some (dropped, records') ↦ some (dropped, lossy records')
    ]
