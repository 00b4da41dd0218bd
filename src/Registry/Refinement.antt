-- ===== src/Registry/Refinement.antt =====
-- The registry against what it promises: a table with one value for each entry.
use rbase.Base.{
  ℕ, ◌<◌, ◌≡◌, ◌≢◌, refl, sym, ap, ◌∙◌, subst, ℕ_discrete, Bool, true, false, ◌&&◌, List, [], ◌∷◌,
  ◌==◌, ==_iff, ==_refl, Bool-cases, inl, inr, if◌then◌else◌,
}
use rbase.Base.Outcome.{Outcome, ok, fault, ◌>>=◌}
use rbase.Entries.{EntryType, string, type_num, entry_count}
use rbase.Value.{Value, value_eq}
use rbase.Reliability.{default_reliability}
use rbase.RCore.{RCore}
use rbase.Registry
use rbase.Registry.{World}
use rbase.Registry.Store.{IsWellFormed, get_total, get-set, set-Told}
use rbase.Registry.Defaults.Tables.{type_num_injective}

-- The table: the value of each entry, or the fault of reading it.
abbrev pub Table : Type 0
Table = EntryType → ℕ → Outcome Value

-- A value is overwritten, unless it compares equal.
abbrev pub overwritten : Outcome Value → Value → Outcome Value
overwritten (fault e) v = fault e
overwritten (ok old) v = ok (if value_eq old v then old else v)

-- One entry of the table is overwritten.
abbrev pub table_set : EntryType → ℕ → Value → Table → Table
table_set t p v f u q = if type_num t == type_num u && p == q then overwritten (f t p) v else f u q

-- A list of writes, the first first: on the table, and by `Registry::set`.
pub table_set_all : List (EntryType × ℕ × Value) → Table → Table
table_set_all [] f = f
table_set_all ((t, p, v) ∷ rest) f = table_set_all rest (table_set t p v f)

pub set_all :
    (core : RCore) {S : Type 0}
    → List (EntryType × ℕ × Value)
    → World core.Buffer S
    → Outcome (World core.Buffer S)
set_all core [] w = ok w
set_all core ((t, p, v) ∷ rest) w =
    Registry.set core t p v default_reliability w >>= set_all core rest

-- Each write is to an entry, and none to a string.
abbrev pub AreEntries : List (EntryType × ℕ × Value) → Type 0
AreEntries [] = Unit {0}
AreEntries ((t, p, v) ∷ rest) = (t ≢ string) × (p < entry_count t) × AreEntries rest

test_ne : (a b : ℕ) → a ≢ b → (a == b) ≡ false
test_ne a b ne = elim (Bool-cases (a == b)) [ inl e ↦ absurd (ne ((==_iff a b).0 e)) | inr e ↦ e ]

and_false : (b : Bool) → (b && false) ≡ false
and_false true = refl
and_false false = refl

table_set-same :
    (t : EntryType) (p : ℕ) (v : Value) (f g : Table)
    → ((u : EntryType) (q : ℕ) → f u q ≡ g u q)
    → (u : EntryType) (q : ℕ) → table_set t p v f u q ≡ table_set t p v g u q
table_set-same t p v f g h u q =
    ap (λ o. if type_num t == type_num u && p == q then overwritten o v else f u q) (h t p)
    ∙ ap (λ o. if type_num t == type_num u && p == q then overwritten (g t p) v else o) (h u q)

module _ (core : RCore) {S : Type 0} where
  open core use {Buffer}

  abbrev reads : World Buffer S → Table
  reads w = Registry.get w

  set-table_set :
      (t : EntryType) (p : ℕ) (v : Value) (w : World Buffer S)
      → IsWellFormed w
      → t ≢ string
      → p < entry_count t
      → (w' : World Buffer S) × (Registry.set core t p v default_reliability w ≡ ok w')
        × IsWellFormed w'
        × ((u : EntryType) (q : ℕ) → reads w' u q ≡ table_set t p v (reads w) u q)
  set-table_set t p v w wf ns within =
      let (old, was) = get_total w t p wf.values_shape within in
      let (w₁, e₁, got) = get-set core w t p v default_reliability old wf ns within was in
      let (w', e, wf', told, frame) = set-Told core w t p v default_reliability wf ns within in
      let same : w₁ ≡ w' = cc in
      let self : reads w' t p ≡ overwritten (reads w t p) v =
        ap (λ x. reads x t p) (sym same) ∙ got ∙ ap (λ o. overwritten o v) (sym was) in
      (
        w',
        e,
        wf',
        λ u q. elim (ℕ_discrete (type_num t) (type_num u)) [
          | no ne ↦ rw (test_ne (type_num t) (type_num u) ne) (frame u q (λ s. absurd (ne s)))
          | yes s ↦ elim (ℕ_discrete p q) [
            | no ne ↦
                rw (test_ne p q ne, and_false (type_num t == type_num u)) (frame u q (λ _. ne))
            | yes r ↦
                subst (λ k. reads w' k q ≡ table_set t p v (reads w) k q) (type_num_injective t u s)
                  (subst (λ i. reads w' t i ≡ table_set t p v (reads w) t i) r
                    (rw (==_refl (type_num t), ==_refl p) self))
          ]
        ],
      )

  all_refined :
      (ms : List (EntryType × ℕ × Value)) (w : World Buffer S) (f : Table)
      → IsWellFormed w
      → AreEntries ms
      → ((u : EntryType) (q : ℕ) → reads w u q ≡ f u q)
      → (w' : World Buffer S) × (set_all core ms w ≡ ok w')
        × IsWellFormed w'
        × ((u : EntryType) (q : ℕ) → reads w' u q ≡ table_set_all ms f u q)
  unfolding set_all table_set_all
  all_refined [] w f wf all h = (w, refl, wf, h)
  all_refined ((t, p, v) ∷ rest) w f wf all h =
      let (w₁, e, wf₁, one) = set-table_set t p v w wf all.0 all.1 in
      let (w', g, wf', k) =
        all_refined rest w₁ (table_set t p v f) wf₁ all.2
          (λ u q. one u q ∙ table_set-same t p v (reads w) f h u q) in
      (w', rw e g, wf', k)

-- The registry, well formed, refines the table: after any list of writes by `set` to entries other than
-- the string, whatever the adapters and receivers that are told of them, `get` reads of every entry
-- what the same writes leave in the table.
pub set_all-refines :
    (core : RCore) {S : Type 0} (ms : List (EntryType × ℕ × Value)) (w : World core.Buffer S)
    → IsWellFormed w
    → AreEntries ms
    → (w' : World core.Buffer S) × (set_all core ms w ≡ ok w')
      × IsWellFormed w'
      × ((u : EntryType) (q : ℕ) → Registry.get w' u q ≡ table_set_all ms (Registry.get w) u q)
set_all-refines core ms w wf all = all_refined core ms w (Registry.get w) wf all (λ u q. refl)
