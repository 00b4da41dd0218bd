-- ===== src/Detail/Names/Lookup.antt =====
-- Looking an entry up by its name inverts taking the name of an entry.
use native.Mathlib.Nat.{zero-add}
use rbase.Base.{
  ℕ, zero, suc, ◌+◌, ◌<◌, ◌≡◌, ◌≢◌, refl, ap, sym, get_elem?_of_lt, ◌∙◌, ◌⊎◌, inl, inr, Bool, true,
  false, ◌&&◌, not, some, List, [], ◌∷◌, String, str_eq, str_eq_iff, length, get_elem?, Bool-cases,
  arith,
}
use rbase.Entries.{EntryType, int8, entry_count, type_num, type_of_num}
use rbase.Detail.Names.{
  names_of, index_of_name, get_value_of_name_in, get_value_of_name, get_name_of_entry_class,
}

-- No name of the list is `s`.
abbrev lacks : String → List String → Bool
lacks s [] = true
lacks s (x ∷ xs) = not (str_eq s x) && lacks s xs

-- No name stands twice.
abbrev distinct : List String → Bool
distinct [] = true
distinct (x ∷ xs) = lacks x xs && distinct xs

lacks-get_elem? :
    (s x : String) (xs : List String) (i : ℕ)
    → lacks s xs ≡ true
    → get_elem? xs i ≡ some x
    → str_eq x s ≡ false
lacks-get_elem? s x [] i l e = cc
lacks-get_elem? s x (y ∷ ys) zero l e = ground (arith, str_eq_iff x s, str_eq_iff s y)
lacks-get_elem? s x (y ∷ ys) (suc i) l e = ground (arith, lacks-get_elem? s x ys i)

index_of_name-get_elem? :
    (name : String) (count : ℕ) (names : List String) (k i : ℕ)
    → distinct names ≡ true
    → get_elem? names i ≡ some name
    → index_of_name name count names k ≡ k + i
unfolding index_of_name
index_of_name-get_elem? name count [] k i d e = cc
index_of_name-get_elem? name count (s ∷ rest) k zero d e = ground (arith, str_eq_iff name s)
index_of_name-get_elem? name count (s ∷ rest) k (suc i) d e =
    ground (arith, lacks-get_elem? s name rest i, index_of_name-get_elem? name count rest (suc k) i)

index_of_name-missing :
    (name : String) (count : ℕ) (names : List String) (k : ℕ)
    → ((i : ℕ) → get_elem? names i ≢ some name)
    → index_of_name name count names k ≡ count
unfolding index_of_name
index_of_name-missing name count [] k m = refl
index_of_name-missing name count (s ∷ rest) k m =
    ground (
      arith,
      str_eq_iff name s,
      m 0,
      index_of_name-missing name count rest (suc k) (λ i. m (suc i)),
    )

names_distinct : (t : EntryType) → distinct (names_of t) ≡ true
names_distinct int8 = refl
names_distinct _ = refl

pub length-names : (t : EntryType) → length (names_of t) ≡ entry_count t
length-names int8 = refl
length-names _ = refl

pub type_of_num-type_num : (t : EntryType) → type_of_num (type_num t) ≡ some t
type_of_num-type_num int8 = refl
type_of_num-type_num _ = refl

-- `i` is where `name` stands in the list, counted from `k`; or it stands nowhere.
index_of_name-cases :
    (name : String) (count : ℕ) (names : List String) (k : ℕ)
    → ((i : ℕ) × (get_elem? names i ≡ some name) × (index_of_name name count names k ≡ k + i))
      ⊎ (((i : ℕ) → get_elem? names i ≢ some name) × (index_of_name name count names k ≡ count))
unfolding index_of_name
index_of_name-cases name count [] k = inr ((λ i e. cc), refl)
index_of_name-cases name count (s ∷ rest) k = elim (Bool-cases (str_eq name s)) [
  | inl same ↦ inl (0, ap some (sym ((str_eq_iff name s).0 same)), rw same (omega arith))
  | inr other ↦ elim (index_of_name-cases name count rest (suc k)) [
    | inl (i, e, f) ↦ inl (suc i, e, rw other (omega (arith, f)))
    | inr (m, f) ↦ inr (missing other m, rw other f)
  ]
]
  where
    missing :
        str_eq name s ≡ false
        → ((i : ℕ) → get_elem? rest i ≢ some name)
        → (i : ℕ) → get_elem? (s ∷ rest) i ≢ some name
    missing other m zero e = ground (arith, str_eq_iff name s)
    missing other m (suc i) e = m i e

pub get_name-num :
    (t : EntryType) (p : ℕ) → get_name_of_entry_class (type_num t) p ≡ get_elem? (names_of t) p
unfolding get_name_of_entry_class
get_name-num t p = rw (type_of_num-type_num t, get_name_of_entry_class) refl

get_value-num :
    (t : EntryType) (s : String) → get_value_of_name (type_num t) s ≡ get_value_of_name_in t s
unfolding get_value_of_name
get_value-num t s = rw (type_of_num-type_num t, get_value_of_name) refl

-- Every entry has a name, and looking the name up among the type's entries gives the entry again.
pub get_value-get_name :
    (t : EntryType) (p : ℕ)
    → p < entry_count t
    → (s : String) × (get_name_of_entry_class (type_num t) p ≡ some s)
      × (get_value_of_name (type_num t) s ≡ p)
unfolding get_value_of_name_in
get_value-get_name t p h =
    let (s, e) = get_elem?_of_lt (names_of t) p (rw length-names h) in
    (
      s,
      get_name-num t p ∙ e,
      get_value-num t s
          ∙ index_of_name-get_elem? s (entry_count t) (names_of t) 0 p (names_distinct t) e
          ∙ omega arith,
    )

-- Of any text, the lookup returns the entry that has it for its name, or `_COUNT` if none has.
pub get_value_of_name_cases :
    (t : EntryType) (s : String)
    → (get_name_of_entry_class (type_num t) (get_value_of_name (type_num t) s) ≡ some s)
      ⊎ (((p : ℕ) → get_name_of_entry_class (type_num t) p ≢ some s)
          × (get_value_of_name (type_num t) s ≡ entry_count t))
unfolding get_value_of_name_in
get_value_of_name_cases t s = elim (index_of_name-cases s (entry_count t) (names_of t) 0) [
  | inl (i, e, f) ↦
      inl (get_name-num t _ ∙ ap (get_elem? (names_of t)) (get_value-num t s ∙ f ∙ zero-add i) ∙ e)
  | inr (m, f) ↦ inr ((λ p e. m p (sym (get_name-num t p) ∙ e)), get_value-num t s ∙ f)
]
