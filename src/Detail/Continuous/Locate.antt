-- ===== src/Detail/Continuous/Locate.antt =====
-- A continuous number is the offset of its type plus its number within the type.
use rbase.Base.{
  le_or_lt, ℕ, zero, suc, ◌+◌, ◌-◌, ◌≤◌, ◌<◌, ◌≡◌, refl, ap, ◌∙◌, inl, inr, none, some, List, [],
  ◌∷◌, take, get_elem?, arith,
}
use rbase.Base.Int.{pos, negsuc, ◌-ℤ◌}
use rbase.Entries.{entry_count_types}
use rbase.Detail.Continuous.{
  sum, type_loop, subtract_counts, get_type_from_continuous_number, normalize_continuous_number,
  get_full_entry_count,
}

-- The number of the entries of all types before type `t`.
unfoldable pub offset : ℕ → ℕ
unfolding sum
offset t = sum (take t entry_count_types)

pos-sub-le : (n c : ℕ) → c ≤ n → pos n -ℤ pos c ≡ pos (n - c)
unfolding ◌-ℤ◌
pos-sub-le n c h = ground arith

pos-sub-lt : (n c : ℕ) → n < c → pos n -ℤ pos c ≡ negsuc (c - n - 1)
unfolding ◌-ℤ◌
pos-sub-lt n c h = ground arith

-- One round of the loop.
type_loop_past :
    (cs : List ℕ) (c k n : ℕ)
    → c ≤ n
    → type_loop (c ∷ cs) k (pos n) ≡ type_loop cs (suc k) (pos (n - c))
unfolding type_loop
type_loop_past cs c k n h = rw (pos-sub-le n c h, type_loop)

type_loop_stop : (cs : List ℕ) (c k n : ℕ) → n < c → type_loop (c ∷ cs) k (pos n) ≡ some k
unfolding type_loop
type_loop_stop cs c k n h = rw (pos-sub-lt n c h, type_loop)

-- The loop stops at the type whose entries the number falls among.
type_loop-at :
    (cs : List ℕ) (k j p c : ℕ)
    → get_elem? cs j ≡ some c
    → p < c
    → type_loop cs k (pos (sum (take j cs) + p)) ≡ some (k + j)
unfolding sum
type_loop-at [] k j p c e h = cc
type_loop-at (c' ∷ cs) k zero p c e h = ground (arith, type_loop_stop cs c' k (0 + p))
type_loop-at (c' ∷ cs) k (suc j) p c e h =
    ground
      (arith, type_loop_past cs c' k (c' + sum (take j cs) + p), type_loop-at cs (suc k) j p c e h)

type_loop_end : (cs : List ℕ) (k n : ℕ) → sum cs ≤ n → type_loop cs k (pos n) ≡ none
unfolding sum type_loop
type_loop_end [] k n h = refl
type_loop_end (c ∷ cs) k n h =
    type_loop_past cs c k n (omega arith) ∙ type_loop_end cs (suc k) (n - c) (omega arith)

subtract_counts-at :
    (cs : List ℕ) (j p c : ℕ)
    → get_elem? cs j ≡ some c
    → subtract_counts j cs (pos (sum (take j cs) + p)) ≡ some (pos p)
unfolding sum subtract_counts
subtract_counts-at [] j p c e = cc
subtract_counts-at (c' ∷ cs) zero p c e = ap (λ n. some (pos n)) (omega arith)
subtract_counts-at (c' ∷ cs) (suc j) p c e =
    rw (pos-sub-le (c' + sum (take j cs) + p) c' (omega arith))
      (ground (arith, subtract_counts-at cs j p c e))

-- Every number below the sum falls among the entries of some type.
pub record Located (cs : List ℕ) (n : ℕ) : Type 0 where
  pub type : ℕ
  pub property : ℕ
  pub count : ℕ
  pub counted : get_elem? cs type ≡ some count
  pub within : property < count
  pub decomposed : n ≡ sum (take type cs) + property

locate-past : (c : ℕ) (cs : List ℕ) (n : ℕ) → c ≤ n → Located cs (n - c) → Located (c ∷ cs) n
unfolding sum
locate-past c cs n h l = record {
  type = suc l.type;
  property = l.property;
  count = l.count;
  counted = l.counted;
  within = l.within;
  decomposed = omega (arith, l.decomposed);
}

locate : (cs : List ℕ) (n : ℕ) → n < sum cs → Located cs n
unfolding sum
locate [] n h = elim h [ ]
locate (c ∷ cs) n h = elim (le_or_lt c n) [
  | inl past ↦ locate-past c cs n past (locate cs (n - c) (omega arith))
  | inr within ↦ record {
    type = 0;
    property = n;
    count = c;
    counted = refl;
    within = within;
    decomposed = omega arith;
  }
]

pub locate_entry : (n : ℕ) → n < get_full_entry_count → Located entry_count_types n
unfolding get_full_entry_count
locate_entry n h = locate entry_count_types n h

sum-take-lt :
    (cs : List ℕ) (j p c : ℕ) → get_elem? cs j ≡ some c → p < c → sum (take j cs) + p < sum cs
unfolding sum
sum-take-lt [] j p c e h = cc
sum-take-lt (c' ∷ cs) zero p c e h = ground arith
sum-take-lt (c' ∷ cs) (suc j) p c e h = omega (arith, sum-take-lt cs j p c e h)

pub offset-lt :
    (t p c : ℕ)
    → get_elem? entry_count_types t ≡ some c
    → p < c
    → offset t + p < get_full_entry_count
unfolding get_full_entry_count offset
offset-lt t p c e h = sum-take-lt entry_count_types t p c e h

module _ (t p c : ℕ) (counted : get_elem? entry_count_types t ≡ some c) (within : p < c) where
  -- The number at offset `t` plus `p` is of type `t`.
  pub type-at : get_type_from_continuous_number (pos (offset t + p)) ≡ some t
  unfolding get_type_from_continuous_number offset
  type-at = type_loop-at entry_count_types 0 t p c counted within ∙ ap some (omega arith)

  -- It is entry `p` of that type.
  pub normalize-at : normalize_continuous_number (pos (offset t + p)) ≡ some p
  unfolding normalize_continuous_number offset
  normalize-at =
      rw (type-at, normalize_continuous_number)
        (rw (subtract_counts-at entry_count_types t p c counted, normalize_continuous_number) refl)

-- From the full count on, the loop reads past the end of the array of counts.
pub type_past_end :
    (n : ℕ) → get_full_entry_count ≤ n → get_type_from_continuous_number (pos n) ≡ none
unfolding get_full_entry_count get_type_from_continuous_number
type_past_end n h = type_loop_end entry_count_types 0 n h
