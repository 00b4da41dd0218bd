-- ===== src/Registry/Defaults/Tables.antt =====
-- RRegistry/include/RRegistry/Detail.hpp: what the loops of `initDefaults` rely on in the tables.
use rbase.Base.{
  ℕ, zero, suc, ◌%◌, ◌^◌, ◌<◌, ◌≡◌, ◌≢◌, refl, sym, ap, ◌∙◌, subst, true, some, List, [], ◌∷◌,
  arith, get_elem?, length,
}
use rbase.Entries.{EntryType, int8, string, type_num, type_of_num, entry_count, all_types}
use rbase.Value.{
  Value, integer, float_bits, double_bits, truth, text, value_eq, value_eq-exact, float_eq-nonzero,
}
use rbase.Detail.Entry.{EntryDetail}
use rbase.Detail.Names.{detail_of}

-- Only the value itself compares equal to it.
abbrev pub IsSharp : Value → Type 0
IsSharp (float_bits b) = 0 < b % 2 ^ 31
IsSharp (double_bits b) = ⊥
IsSharp _ = Unit {0}

pub value_eq-sharp : (old v : Value) → IsSharp v → value_eq old v ≡ true → old ≡ v
unfolding value_eq
value_eq-sharp (float_bits a) (float_bits b) s e = ap float_bits (float_eq-nonzero a b e s)
value_eq-sharp (double_bits a) (double_bits b) s e = absurd s
value_eq-sharp (integer a) v s e = value_eq-exact (integer a) v tt e
value_eq-sharp (truth a) v s e = value_eq-exact (truth a) v tt e
value_eq-sharp (text a) v s e = value_eq-exact (text a) v tt e
value_eq-sharp _ _ s e = ground arith

abbrev pub AllSharp : List EntryDetail → Type 0
AllSharp [] = Unit {0}
AllSharp (d ∷ ds) = IsSharp d.def × AllSharp ds

pub IsSharp-at :
    (ds : List EntryDetail) (p : ℕ) (d : EntryDetail)
    → AllSharp ds
    → get_elem? ds p ≡ some d
    → IsSharp d.def
IsSharp-at [] p d all e = cc
IsSharp-at (x ∷ xs) zero d all e =
    let same : x ≡ d = cc in subst (λ (y : EntryDetail). IsSharp y.def) same all.0
IsSharp-at (x ∷ xs) (suc p) d all e = IsSharp-at xs p d all.1 e

pub all_sharp : (t : EntryType) → AllSharp (detail_of t)
all_sharp int8 = tt
all_sharp _ = omega arith

pub length-detail_of : (t : EntryType) → t ≢ string → length (detail_of t) ≡ entry_count t
length-detail_of string ns = absurd (ns refl)
length-detail_of int8 ns = refl
length-detail_of _ ns = refl

pub type_num_injective : (t u : EntryType) → type_num t ≡ type_num u → t ≡ u
type_num_injective t u e = let h = sym (of_num t) ∙ ap type_of_num e ∙ of_num u in cc
  where
    of_num : (t : EntryType) → type_of_num (type_num t) ≡ some t
    of_num int8 = refl
    of_num _ = refl

pub listed : (u : EntryType) → get_elem? all_types (type_num u) ≡ some u
listed int8 = refl
listed _ = refl
