-- ===== src/SubscriptionMap/Shape.antt =====
-- Laws of the maps, and the shape that every access in bounds rests on.
use rbase.Base.{
  ℕ, zero, suc, ◌≤◌, ◌<◌, ◌≡◌, ◌≢◌, refl, ap, sym, ◌∙◌, ◌⊎◌, inl, inr, Option, none, some, List, [],
  ◌∷◌, map, get_elem?, length, replicate, Option-cases, ◌==◌, ◌&&◌, if◌then◌else◌, length-set,
  length-replicate, get_elem?-set_self, get_elem?-set_outside, get_elem?-set_ne, get_elem?_of_lt,
  get_elem?-replicate, arith, ℕ_discrete, subst,
}
use rbase.Base
use mathlib.Core.Path.{ap₂}
use rbase.Entries.{EntryType, entry_count, entry_count_types, type_num, int8}
use rbase.SubscriptionMap.{SubscriptionMap, get, put, init, fill}

module _ {ℓ} {A : Type ℓ} where
  abbrev pub lengths : SubscriptionMap A → List ℕ
  lengths m = map length m

  -- A vector of `GetEntryCount(type)` stores for each type.
  abbrev pub HasShape : SubscriptionMap A → Type 0
  HasShape m = lengths m ≡ entry_count_types

  pub lt_of_get_elem? : (xs : List A) (i : ℕ) (v : A) → get_elem? xs i ≡ some v → i < length xs
  lt_of_get_elem? [] i v e = cc
  lt_of_get_elem? (x ∷ xs) zero v e = omega arith
  lt_of_get_elem? (x ∷ xs) (suc i) v e = omega (arith, lt_of_get_elem? xs i v e)

  set_same : (xs : List A) (i : ℕ) (v : A) → get_elem? xs i ≡ some v → Base.set xs i v ≡ xs
  set_same [] i v e = refl
  set_same (x ∷ xs) zero v e = ground arith
  set_same (x ∷ xs) (suc i) v e = ap (◌∷◌ x) (set_same xs i v e)

  pub get_elem?-map {κ} :
      {B : Type κ} (f : A → B) (xs : List A) (i : ℕ) (v : A)
      → get_elem? xs i ≡ some v
      → get_elem? (map f xs) i ≡ some (f v)
  get_elem?-map f [] i v e = cc
  get_elem?-map f (x ∷ xs) zero v e = ap (elim [ none ↦ none | some a ↦ some (f a) ]) e
  get_elem?-map f (x ∷ xs) (suc i) v e = get_elem?-map f xs i v e

  row_of_length :
      (m : SubscriptionMap A) (t c : ℕ)
      → get_elem? (lengths m) t ≡ some c
      → (row : List A) × (get_elem? m t ≡ some row) × (length row ≡ c)
  row_of_length [] t c e = cc
  row_of_length (r ∷ m) zero c e = (r, refl, ground arith)
  row_of_length (r ∷ m) (suc t) c e = row_of_length m t c e

module _ {ℓ} {A : Type ℓ} (m : SubscriptionMap A) where
  get_row : (t p : ℕ) (row : List A) → get_elem? m t ≡ some row → get m t p ≡ get_elem? row p
  unfolding get
  get_row t p row e = rw (e, get) refl

  get_no_row : (t p : ℕ) → get_elem? m t ≡ none → get m t p ≡ none
  unfolding get
  get_no_row t p e = rw (e, get) refl

  row_of_get :
      (t p : ℕ) (v : A)
      → get m t p ≡ some v
      → (row : List A) × (get_elem? m t ≡ some row) × (get_elem? row p ≡ some v)
  unfolding get
  row_of_get t p v e = elim (Option-cases (get_elem? m t)) [
    | inl f ↦ cc (e, get_no_row t p f)
    | inr (row, f) ↦ (row, f, sym (get_row t p row f) ∙ e)
  ]

module _ {ℓ} {A : Type ℓ} (m : SubscriptionMap A) (t p : ℕ) where
  put_row :
      (row : List A) (v : A)
      → get_elem? m t ≡ some row
      → put m t p v ≡ Base.set m t (Base.set row p v)
  unfolding put
  put_row row v e = rw (e, put) refl

  put_no_row : (v : A) → get_elem? m t ≡ none → put m t p v ≡ m
  unfolding put
  put_no_row v e = rw (e, put) refl

  pub get-put_self : (v : A) {w : A} → get m t p ≡ some w → get (put m t p v) t p ≡ some v
  get-put_self v {w} e =
      let (row, f, g) = row_of_get m t p w e in
      rw (put_row row v f) (
        get_row (Base.set m t (Base.set row p v)) t p (Base.set row p v)
          (get_elem?-set_self m t (Base.set row p v) (lt_of_get_elem? m t row f))
        ∙ get_elem?-set_self row p v (lt_of_get_elem? row p w g))

  get-put_ne_type : (v : A) (u q : ℕ) → t ≢ u → get (put m t p v) u q ≡ get m u q
  unfolding get put
  get-put_ne_type v u q ne = elim (Option-cases (get_elem? m t)) [
    | inl e ↦ rw (put_no_row v e) refl
    | inr (row, e) ↦ rw (put_row row v e) (
        ap (elim [ none ↦ none | some r ↦ get_elem? r q ])
          (get_elem?-set_ne m (Base.set row p v) ne))
  ]

  get-put_ne_property : (v : A) (q : ℕ) → p ≢ q → get (put m t p v) t q ≡ get m t q
  get-put_ne_property v q ne = elim (Option-cases (get_elem? m t)) [
    | inl e ↦ rw (put_no_row v e) refl
    | inr (row, e) ↦ rw (put_row row v e) (
        get_row (Base.set m t (Base.set row p v)) t q (Base.set row p v)
          (get_elem?-set_self m t (Base.set row p v) (lt_of_get_elem? m t row e))
        ∙ get_elem?-set_ne row v ne
        ∙ sym (get_row m t q row e))
  ]

  -- What is read where it was written is what was written.
  pub get-put_found : (v w : A) → get (put m t p v) t p ≡ some w → v ≡ w
  get-put_found v w e = elim (Option-cases (get m t p)) [
    | inr (old, f) ↦ cc (get-put_self v f)
    | inl f ↦ elim (Option-cases (get_elem? m t)) [
      | inl g ↦ cc (ap (λ k. get k t p) (put_no_row v g))
      | inr (row, g) ↦ cc (
        ap (λ k. get k t p) (put_row row v g),
        get_row (Base.set m t (Base.set row p v)) t p (Base.set row p v)
            (get_elem?-set_self m t (Base.set row p v) (lt_of_get_elem? m t row g)),
        get_elem?-set_outside row p v (sym (get_row m t p row g) ∙ f),
      )
    ]
  ]

  -- A write changes the one store.
  pub get-put_ne : (v : A) (u q : ℕ) → (t ≡ u → p ≢ q) → get (put m t p v) u q ≡ get m u q
  get-put_ne v u q ne = elim (ℕ_discrete t u) [
    | yes e ↦ subst (λ u. get (put m t p v) u q ≡ get m u q) e (get-put_ne_property v q (ne e))
    | no n ↦ get-put_ne_type v u q n
  ]

  lengths-set :
      (n : SubscriptionMap A) (i : ℕ) (row row' : List A)
      → get_elem? n i ≡ some row
      → length row' ≡ length row
      → lengths (Base.set n i row') ≡ lengths n
  lengths-set [] i row row' e h = refl
  lengths-set (x ∷ xs) zero row row' e h = ground arith
  lengths-set (x ∷ xs) (suc i) row row' e h = ap (◌∷◌ (length x)) (lengths-set xs i row row' e h)

  pub lengths-put : (v : A) → lengths (put m t p v) ≡ lengths m
  lengths-put v = elim (Option-cases (get_elem? m t)) [
    | inl e ↦ rw (put_no_row v e) refl
    | inr (row, e) ↦
        rw (put_row row v e) (lengths-set m t row (Base.set row p v) e (length-set row p v))
  ]

module _ {ℓ} {A : Type ℓ} (m : SubscriptionMap A) (shape : HasShape m) where
  pub get_in_bounds :
      (t p c : ℕ) → get_elem? entry_count_types t ≡ some c → p < c → (v : A) × (get m t p ≡ some v)
  get_in_bounds t p c counted within =
      let (row, e, l) =
        row_of_length m t c (subst (λ ls. get_elem? ls t ≡ some c) (sym shape) counted) in
      let (v, f) = get_elem?_of_lt row p (omega arith) in (v, get_row m t p row e ∙ f)

  -- Only an entry has a store.
  pub bounds_of_get :
      (t p : ℕ) (v : A)
      → get m t p ≡ some v
      → (c : ℕ) × (get_elem? entry_count_types t ≡ some c) × (p < c)
  bounds_of_get t p v e =
      let (row, f, g) = row_of_get m t p v e in
      (
        length row,
        subst (λ ls. get_elem? ls t ≡ some (length row)) shape (get_elem?-map length m t row f),
        lt_of_get_elem? row p v g,
      )

module _ {ℓ} {A : Type ℓ} (v : A) where
  pub get-fill :
      (m : SubscriptionMap A) (t p : ℕ) {w : A} → get m t p ≡ some w → get (fill v m) t p ≡ some v
  unfolding fill
  get-fill m t p {w} e =
      let (row, f, g) = row_of_get m t p w e in
      get_row (fill v m) t p (map (λ _. v) row) (get_elem?-map (map (λ _. v)) m t row f)
      ∙ get_elem?-map (λ _. v) row p w g

  length-map_const : (row : List A) → length (map (λ _. v) row) ≡ length row
  length-map_const [] = refl
  length-map_const (x ∷ row) = ap suc (length-map_const row)

  pub lengths-fill : (m : SubscriptionMap A) → lengths (fill v m) ≡ lengths m
  unfolding fill
  lengths-fill [] = refl
  lengths-fill (row ∷ m) = ap₂ ◌∷◌ (length-map_const row) (lengths-fill m)

  lengths-replicates : (cs : List ℕ) → map length (map (λ c. replicate c v) cs) ≡ cs
  lengths-replicates [] = refl
  lengths-replicates (c ∷ cs) = ap₂ ◌∷◌ (length-replicate c v) (lengths-replicates cs)

  pub init-HasShape : HasShape (init v)
  unfolding init
  init-HasShape = lengths-replicates entry_count_types

  -- Every store of a new map holds the default.
  pub get-init :
      (t p c : ℕ) → get_elem? entry_count_types t ≡ some c → p < c → get (init v) t p ≡ some v
  unfolding init
  get-init t p c counted within =
      get_row (init v) t p (replicate c v)
        (get_elem?-map (λ c. replicate c v) entry_count_types t c counted)
      ∙ get_elem?-replicate c p v within

module _ {ℓ} {A : Type ℓ} where
  pub put-HasShape : (m : SubscriptionMap A) (t p : ℕ) (v : A) → HasShape m → HasShape (put m t p v)
  put-HasShape m t p v h = lengths-put m t p v ∙ h

-- The count of a type is the entry of the array at its number.
pub entry_count_num :
    (t : EntryType) → get_elem? entry_count_types (type_num t) ≡ some (entry_count t)
entry_count_num int8 = refl
entry_count_num _ = refl
