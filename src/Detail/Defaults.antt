-- ===== src/Detail/Defaults.antt =====
-- RRegistry/include/RRegistry/Detail.hpp: the tables are consistent.
use rbase.Base.{subst, ℕ, zero, suc, ◌≤◌, ◌≡◌, true, false, some, List, [], ◌∷◌, get_elem?, arith}
use rbase.Base.Int.{◌≤ℤ◌}
use rbase.Entries.{EntryType, int8, int16}
use rbase.Value.{Value, integer, float_bits, truth, HasType}
use rbase.Detail.Entry.{EntryDetail}
use rbase.Detail.Names.{detail_of}

-- The order of the values of one type. The order of two floats without a sign bit, and no NaN, is
-- that of their patterns.
abbrev pub ◌≤ᵛ◌ : Value → Value → Type 0
◌≤ᵛ◌ (integer a) (integer b) = a ≤ℤ b
◌≤ᵛ◌ (float_bits a) (float_bits b) = (a ≤ b) × (b ≤ 0x7f80_0000)
◌≤ᵛ◌ (truth false) (truth b) = Unit {0}
◌≤ᵛ◌ (truth true) (truth true) = Unit {0}
◌≤ᵛ◌ _ _ = ⊥

-- The three values of the entry are of its type, and the default lies between the bounds.
pub record IsConsistent (t : EntryType) (d : EntryDetail) : Type 0 where
  pub def_typed : HasType t d.def
  pub min_typed : HasType t d.min
  pub max_typed : HasType t d.max
  pub min_le : ◌≤ᵛ◌ d.min d.def
  pub le_max : ◌≤ᵛ◌ d.def d.max

abbrev AllConsistent : EntryType → List EntryDetail → Type 0
AllConsistent t [] = Unit {0}
AllConsistent t (d ∷ ds) = IsConsistent t d × AllConsistent t ds

at_index :
    (t : EntryType) (ds : List EntryDetail) (p : ℕ) (d : EntryDetail)
    → AllConsistent t ds
    → get_elem? ds p ≡ some d
    → IsConsistent t d
at_index t [] p d all e = cc
at_index t (x ∷ xs) zero d all e = let e' : x ≡ d = cc in subst (IsConsistent t) e' all.0
at_index t (x ∷ xs) (suc p) d all e = at_index t xs p d all.1 e

all_consistent : (t : EntryType) → AllConsistent t (detail_of t)
all_consistent int8 = tt
all_consistent int16 = omega arith
all_consistent _ = omega arith

-- In every table with defaults, every default is of the entry's type and within its bounds.
pub detail-IsConsistent :
    (t : EntryType) (p : ℕ) (d : EntryDetail)
    → get_elem? (detail_of t) p ≡ some d
    → IsConsistent t d
detail-IsConsistent t p d e = at_index t (detail_of t) p d (all_consistent t) e
