-- ===== src/Reliability.antt =====
-- RComm/include/RComm/LiteCommReliability.hpp: delivery options as bits.
use Prim.Native.Nat.{bit_and, bit_or}
use rbase.Base.{ℕ, ◌%◌, Bool, not, ◌==◌}

-- `enum Reliability`; a combination is the number that `operator|` gives.
abbrev pub basic_delivery : ℕ
basic_delivery = 1

abbrev pub ordered : ℕ
ordered = 2

abbrev pub acknowledged : ℕ
acknowledged = 4

-- `operator|`.
pub reliability_or : ℕ → ℕ → ℕ
reliability_or a b = bit_or a b

-- `DefaultReliability`.
abbrev pub default_reliability : ℕ
default_reliability = basic_delivery

-- Whether the two have a bit in common, of the lower eight.
unfoldable pub reliability_contains : ℕ → ℕ → Bool
reliability_contains hay needle = not (bit_and (hay % 256) (needle % 256) == 0)
