-- ===== src/Persistency/Statements/Keys.antt =====
-- The rows of the general table: one for each entry, with a key of its own.
use rbase.Base.{
  ℕ, zero, suc, ◌+◌, ◌<◌, ◌≡◌, ◌≢◌, refl, sym, ap, subst, ◌∙◌, Bool, true, false, ◌&&◌, some, List,
  [], ◌∷◌, ◌++◌, map, get_elem?, get_elem?_of_lt, ◌==◌, if◌then◌else◌, arith,
}
use rbase.Base.Text.{codes}
use rbase.Base.Outcome.{ok, or_fault, out_of_bounds, ◌>>=◌}
use rbase.Entries.{EntryType, int8, type_num, all_types, entry_count}
use rbase.SubscriptionMap.Shape.{get_elem?-map}
use rbase.Detail.Types.{get_type_detail}
use rbase.Detail.Names.{names_of}
use rbase.Detail.Names.Lookup.{length-names, get_name-num}
use rbase.Registry.Defaults.Tables.{type_num_injective}
use rbase.Persistency.Statements.{type_name, general_key}

abbrev same_text : List ℕ → List ℕ → Bool
same_text [] [] = true
same_text (x ∷ xs) (y ∷ ys) = x == y && same_text xs ys
same_text _ _ = false

-- Where a text stands first in a table.
abbrev position : List ℕ → List (List ℕ) → ℕ
position x [] = 0
position x (y ∷ ys) = if same_text x y then 0 else suc (position x ys)

-- Every text stands first where it stands.
abbrev located : List (List ℕ) → List (List ℕ) → ℕ → Bool
located table [] i = true
located table (x ∷ xs) i = position x table == i && located table xs (suc i)

position-located :
    (table xs : List (List ℕ)) (i k : ℕ) (x : List ℕ)
    → located table xs i ≡ true
    → get_elem? xs k ≡ some x
    → position x table ≡ i + k
position-located table [] i k x h e = cc
position-located table (y ∷ ys) i zero x h e =
    let same : y ≡ x = cc in
    let here : position y table ≡ i + 0 = ground arith in
    subst (λ k. position k table ≡ i + 0) same here
position-located table (y ∷ ys) i (suc k) x h e =
    ground (arith, position-located table ys (suc i) k x)

abbrev code_names : EntryType → List (List ℕ)
code_names t = map codes (names_of t)

names_located : (t : EntryType) → located (code_names t) (code_names t) 0 ≡ true
names_located int8 = refl
names_located _ = refl

types_located : (t : EntryType) → position (type_name t) (map type_name all_types) ≡ type_num t
unfolding get_type_detail
types_located int8 = refl
types_located _ = refl

type_name_injective : (t u : EntryType) → type_name t ≡ type_name u → t ≡ u
type_name_injective t u e =
    type_num_injective t u
      (sym (types_located t) ∙ ap (λ x. position x (map type_name all_types)) e ∙ types_located u)

-- A text without a colon.
abbrev NoColon : List ℕ → Type 0
NoColon [] = Unit {0}
NoColon (c ∷ cs) = (c ≢ b':') × NoColon cs

NoColon-type_name : (t : EntryType) → NoColon (type_name t)
unfolding get_type_detail
NoColon-type_name int8 = ground arith
NoColon-type_name _ = ground arith

split_colon :
    (xs ys us vs : List ℕ)
    → NoColon xs
    → NoColon ys
    → xs ++ b':' ∷ us ≡ ys ++ b':' ∷ vs
    → (xs ≡ ys) × (us ≡ vs)
split_colon [] [] us vs h k e = (refl, cc)
split_colon [] (y ∷ ys) us vs h k e = ground (arith, k.0)
split_colon (x ∷ xs) [] us vs h k e = ground (arith, h.0)
split_colon (x ∷ xs) (y ∷ ys) us vs h k e = ground (arith, split_colon xs ys us vs h.1 k.1)

-- The key of an entry is the name of its type, two colons and its own name.
key_named :
    (t : EntryType) (p : ℕ)
    → p < entry_count t
    → (x : List ℕ) × (general_key t p ≡ ok (type_name t ++ b':' ∷ b':' ∷ x))
      × (position x (code_names t) ≡ p)
unfolding general_key
key_named t p within =
    let (s, e) = get_elem?_of_lt (names_of t) p (rw length-names within) in
    let found = get_name-num t p ∙ e in
    (
      codes s,
      ap (λ o. or_fault o out_of_bounds >>= λ name. ok (type_name t ++ b':' ∷ b':' ∷ codes name))
          found,
      position-located (code_names t) (code_names t) 0 p (codes s) (names_located t)
            (get_elem?-map codes (names_of t) p s e)
          ∙ omega arith,
    )

-- Every entry has a key, and no two entries have the same.
pub general_key_unique :
    (t u : EntryType) (p q : ℕ)
    → p < entry_count t
    → q < entry_count u
    → (k : List ℕ) × (l : List ℕ) × (general_key t p ≡ ok k)
      × (general_key u q ≡ ok l)
      × (k ≡ l → (t ≡ u) × (p ≡ q))
general_key_unique t u p q h g =
    let (x, e, at) = key_named t p h in
    let (y, f, there) = key_named u q g in
    (
      _,
      _,
      e,
      f,
      λ same.
          (let (types, rest) =
              split_colon (type_name t) (type_name u) (b':' ∷ x) (b':' ∷ y) (NoColon-type_name t)
                (NoColon-type_name u) same in
            let types' = type_name_injective t u types in
            let names : x ≡ y = cc in
            (
              types',
              sym at
                  ∙ ap (λ z. position z (code_names t)) names
                  ∙ ap (λ k. position y (code_names k)) types'
                  ∙ there,
            )),
    )
