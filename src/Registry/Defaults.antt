-- ===== src/Registry/Defaults.antt =====
-- RRegistry/include/RRegistry/Registry.hpp: what `initDefaults`, and with it the constructor, leaves
-- in the arrays.
pub mod Tables
pub mod Loop
use rbase.Base.{
  ℕ, zero, suc, ◌≡◌, ◌≢◌, refl, sym, ap, ◌∙◌, subst, none, some, List, [], ◌∷◌, arith, get_elem?,
  ℕ_discrete,
}
use rbase.Base.Outcome.{ok}
use rbase.Entries.{EntryType, string, type_num, entry_count, all_types}
use rbase.Value.{Value}
use rbase.SubscriptionMap.{SubscriptionMap}
use rbase.SubscriptionMap.Shape.{HasShape}
use rbase.Detail.Entry.{EntryDetail}
use rbase.Detail.Names.{detail_of}
use rbase.RCore.{RCore}
use rbase.Registry
use rbase.Registry.{World, init_default, init_entries, init_types, init_defaults, new_registry}
use rbase.Registry.Pointers.{AllShaped-nil}
use rbase.Registry.Store.{IsWellFormed}
use rbase.Registry.Defaults.Tables.{type_num_injective, listed}
use rbase.Registry.Defaults.Loop.{entries_written}

module _ {B S : Type 0} where
  -- Every entry of the type that has a default holds it.
  abbrev pub HoldsDefaults : EntryType → World B S → Type 0
  HoldsDefaults t w =
      (p : ℕ) (d : EntryDetail) → get_elem? (detail_of t) p ≡ some d → Registry.get w t p ≡ ok d.def

module _ (core : RCore) {S : Type 0} where
  open core use {Buffer}

  strings_skipped : (n p : ℕ) (w : World Buffer S) → init_entries core string n p w ≡ ok w
  unfolding init_entries init_default
  strings_skipped zero p w = refl
  strings_skipped (suc n) p w = strings_skipped n (suc p) w

  HoldsDefaults-string : (w : World Buffer S) → HoldsDefaults string w
  HoldsDefaults-string w p d e = cc

  -- One round of the outer loop: the type holds its defaults, and any type that did still does.
  abbrev Written : EntryType → World Buffer S → World Buffer S → Type 0
  Written t w w' =
      IsWellFormed w'
      × HoldsDefaults t w'
      × ((u : EntryType) → HoldsDefaults u w → HoldsDefaults u w')

  values-Written :
      (t : EntryType) (w : World Buffer S)
      → IsWellFormed w
      → t ≢ string
      → (w' : World Buffer S) × (init_entries core t (entry_count t) 0 w ≡ ok w') × Written t w w'
  values-Written t w wf ns =
      let (w', e, wf', good, frame) =
        entries_written core t (entry_count t) 0 w wf ns (omega arith) in
      let holds : HoldsDefaults t w' = λ p d at. good p d (omega arith) at in
      (
        w',
        e,
        (
          wf',
          holds,
          λ u h. elim (ℕ_discrete (type_num t) (type_num u)) [
            | yes same ↦ subst (λ k. HoldsDefaults k w') (type_num_injective t u same) holds
            | no ne ↦ λ p d at. frame u p (λ s. absurd (ne s)) ∙ h p d at
          ],
        ),
      )

  type-Written :
      (t : EntryType) (w : World Buffer S)
      → IsWellFormed w
      → (w' : World Buffer S) × (init_entries core t (entry_count t) 0 w ≡ ok w') × Written t w w'
  type-Written t w wf = elim (ℕ_discrete (type_num t) (type_num string)) [
    | no ne ↦ values-Written t w wf (λ e. ne (ap type_num e))
    | yes e ↦
        subst
          (λ k.
            (w' : World Buffer S) × (init_entries core k (entry_count k) 0 w ≡ ok w')
            × Written k w w')
          (sym (type_num_injective t string e))
          (w, strings_skipped (entry_count string) 0 w, (wf, HoldsDefaults-string w, λ u h. h))
  ]

  init_types-step :
      (t : EntryType) (ts : List EntryType) (w w₁ : World Buffer S)
      → init_entries core t (entry_count t) 0 w ≡ ok w₁
      → init_types core (t ∷ ts) w ≡ init_types core ts w₁
  unfolding init_types
  init_types-step t ts w w₁ e = rw e refl

  types_written :
      (ts : List EntryType) (w : World Buffer S)
      → IsWellFormed w
      → (w' : World Buffer S) × (init_types core ts w ≡ ok w')
        × IsWellFormed w'
        × ((u : EntryType) → HoldsDefaults u w → HoldsDefaults u w')
        × ((i : ℕ) (u : EntryType) → get_elem? ts i ≡ some u → HoldsDefaults u w')
  unfolding init_types
  types_written [] w wf = (w, refl, wf, λ u h. h, λ i u e. absurd (none_no u e))
    where
      none_no : (u : EntryType) → none ≢ some u
      none_no u e = cc
  types_written (t ∷ ts) w wf =
      let (w₁, e, (wf₁, holds, keeps)) = type-Written t w wf in
      let (w', f, wf', keeps', rest) = types_written ts w₁ wf₁ in
      (
        w',
        init_types-step t ts w w₁ e ∙ f,
        wf',
        λ u h. keeps' u (keeps u h),
        at_place w₁ w' ts t holds keeps' rest,
      )
    where
      at_place :
          (w₁ w' : World Buffer S) (ts : List EntryType) (t : EntryType)
          → HoldsDefaults t w₁
          → ((u : EntryType) → HoldsDefaults u w₁ → HoldsDefaults u w')
          → ((i : ℕ) (u : EntryType) → get_elem? ts i ≡ some u → HoldsDefaults u w')
          → (i : ℕ) (u : EntryType) → get_elem? (t ∷ ts) i ≡ some u
          → HoldsDefaults u w'
      at_place w₁ w' ts t holds keeps' rest zero u e =
          let same : t ≡ u = cc in subst (λ k. HoldsDefaults k w') same (keeps' t holds)
      at_place w₁ w' ts t holds keeps' rest (suc i) u e = rest i u e

-- `initDefaults` of a well-formed registry ends, keeps it well formed, and leaves in every entry
-- that has a default that default, whatever the arrays held before.
pub init_defaults-HoldsDefaults :
    (core : RCore) {S : Type 0} (w : World core.Buffer S)
    → IsWellFormed w
    → (w' : World core.Buffer S) × (init_defaults core w ≡ ok w')
      × IsWellFormed w'
      × ((t : EntryType) → HoldsDefaults t w')
unfolding init_defaults
init_defaults-HoldsDefaults core w wf =
    let (w', e, wf', keeps, at) = types_written core all_types w wf in
    (w', e, wf', λ t. at (type_num t) t (listed t))

-- The constructor ends, and gives a well-formed registry that holds all defaults, whatever its
-- arrays, of the right sizes, held in memory.
pub new_registry-HoldsDefaults :
    (core : RCore) {S : Type 0} (memory : SubscriptionMap Value)
    → HasShape memory
    → (w : World core.Buffer S) × (new_registry core memory ≡ ok w)
      × IsWellFormed w
      × ((t : EntryType) → HoldsDefaults t w)
unfolding new_registry
new_registry-HoldsDefaults core memory shape =
    init_defaults-HoldsDefaults core _
      (record { values_shape = shape; adapters_shape = AllShaped-nil; refs_distinct = tt })
