-- ===== src/Persistency/Statements/Rows.antt =====
-- The rows that the loops over all entries insert.
use rbase.Base.{
  ℕ, zero, suc, ◌+◌, ◌≤◌, ◌<◌, ◌≡◌, refl, sym, ap, ◌≢◌, ℕ_discrete, subst, ◌∙◌, some, List, [], ◌∷◌,
  ◌++◌, map, length, get_elem?, length-append, arith,
}
use rbase.Base.Text.{to_string}
use rbase.Base.Outcome.{ok}
use rbase.Entries.{EntryType, type_num, all_types, entry_count}
use rbase.Detail.Names.Lookup.{type_of_num-type_num}
use rbase.Detail.Continuous.{sum, get_full_entry_count}
use rbase.Persistency.Statements.{
  general_key, general_row, general_rows_of, general_rows, SqlCall, insert_general, step, bind_text,
}
use rbase.Persistency.Statements.Keys.{general_key_unique}

row_made :
    (t : EntryType) (p : ℕ) → p < entry_count t → (row : SqlCall) × (general_row t p ≡ ok row)
unfolding general_row
row_made t p within =
    let (k, l, e, f, _) = general_key_unique t t p p within within in
    (step insert_general ((1, bind_text k) ∷ (2, bind_text (to_string p)) ∷ []), rw e refl)

get_elem?-append_left :
    (xs ys : List SqlCall) (i : ℕ) (x : SqlCall)
    → get_elem? xs i ≡ some x
    → get_elem? (xs ++ ys) i ≡ some x
get_elem?-append_left [] ys i x e = cc
get_elem?-append_left (z ∷ zs) ys zero x e = e
get_elem?-append_left (z ∷ zs) ys (suc i) x e = get_elem?-append_left zs ys i x e

get_elem?-append_right :
    (xs ys : List SqlCall) (i : ℕ) → get_elem? (xs ++ ys) (length xs + i) ≡ get_elem? ys i
get_elem?-append_right [] ys i = ap (get_elem? ys) (omega arith)
get_elem?-append_right (x ∷ xs) ys i =
    let count : suc (length xs) + i ≡ suc (length xs + i) = omega arith in
    ap (get_elem? (x ∷ (xs ++ ys))) count ∙ get_elem?-append_right xs ys i

-- The row of the entry is among the calls.
abbrev pub Has : EntryType → ℕ → List SqlCall → Type 0
Has t p rows =
    (i : ℕ) × (row : SqlCall) × (general_row t p ≡ ok row) × (get_elem? rows i ≡ some row)

below : (p q : ℕ) → p ≤ q → p ≢ q → suc p ≤ q
below p q h ne = ground arith

rows_of_type :
    (t : EntryType) (n p : ℕ)
    → p + n ≡ entry_count t
    → (rows : List SqlCall) × (general_rows_of t n p ≡ ok rows)
      × (length rows ≡ n)
      × ((q : ℕ) → p ≤ q → q < p + n → Has t q rows)
unfolding general_rows_of
rows_of_type t zero p e = ([], refl, refl, λ q h g. absurd (omega arith))
rows_of_type t (suc n) p e =
    let (row, f) = row_made t p (omega arith) in
    let (rows, g, count, all) = rows_of_type t n (suc p) (omega arith) in
    (
      row ∷ rows,
      rw f (rw g refl),
      ap suc count,
      λ q h g. elim (ℕ_discrete p q) [
        | yes same ↦ (0, row, subst (λ k. general_row t k ≡ ok row) same f, refl)
        | no ne ↦
            let (i, row', e', at) = all q (omega (arith, below p q h ne)) (omega arith) in
            (suc i, row', e', at)
      ],
    )

rows_of_types :
    (ts : List EntryType)
    → (rows : List SqlCall) × (general_rows ts ≡ ok rows)
      × (length rows ≡ sum (map entry_count ts))
      × ((k : ℕ) (t : EntryType) (p : ℕ)
          → get_elem? ts k ≡ some t
          → p < entry_count t
          → Has t p rows)
unfolding general_rows sum
rows_of_types [] = ([], refl, refl, λ k t p e h. cc)
rows_of_types (t ∷ ts) =
    let (rows, e, count, all) = rows_of_type t (entry_count t) 0 (omega arith) in
    let (rest, f, count', all') = rows_of_types ts in
    (
      rows ++ rest,
      rw e (rw f refl),
      length-append rows rest ∙ omega (arith, count, count'),
      at_place t ts rows rest all all',
    )
  where
    at_place :
        (t : EntryType) (ts : List EntryType) (rows rest : List SqlCall)
        → ((q : ℕ) → 0 ≤ q → q < 0 + entry_count t → Has t q rows)
        → ((k : ℕ) (u : EntryType) (p : ℕ)
            → get_elem? ts k ≡ some u
            → p < entry_count u
            → Has u p rest)
        → (k : ℕ) (u : EntryType) (p : ℕ) → get_elem? (t ∷ ts) k ≡ some u
        → p < entry_count u
        → Has u p (rows ++ rest)
    at_place t ts rows rest all all' zero u p e h =
        let same : t ≡ u = cc in
        let (i, row, made, at) = all p (omega arith) (omega (arith, ap entry_count same)) in
        (
          i,
          row,
          subst (λ k. general_row k p ≡ ok row) same made,
          get_elem?-append_left rows rest i row at,
        )
    at_place t ts rows rest all all' (suc k) u p e h =
        let (i, row, made, at) = all' k u p e h in
        (length rows + i, row, made, get_elem?-append_right rows rest i ∙ at)

-- The loops over all entries end without a fault; they insert as many rows as there are entries, and
-- each entry's among them; no two entries have the same key.
pub general_rows_complete :
    (rows : List SqlCall) × (general_rows all_types ≡ ok rows)
    × (length rows ≡ get_full_entry_count)
    × ((t : EntryType) (p : ℕ) → p < entry_count t → Has t p rows)
    × ((t u : EntryType) (p q : ℕ) (k l : List ℕ)
        → general_key t p ≡ ok k
        → general_key u q ≡ ok l
        → p < entry_count t
        → q < entry_count u
        → k ≡ l
        → (t ≡ u) × (p ≡ q))
unfolding get_full_entry_count
general_rows_complete =
    let (rows, e, count, all) = rows_of_types all_types in
    (
      rows,
      e,
      count,
      λ t p h. all (type_num t) t p (type_of_num-type_num t) h,
      λ t u p q k l e f h g same.
          (let (k', l', e', f', unique) = general_key_unique t u p q h g in
            let first : k' ≡ k = cc in
            let second : l' ≡ l = cc in unique (first ∙ same ∙ sym second)),
    )
