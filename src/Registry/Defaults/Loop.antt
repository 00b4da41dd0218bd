-- ===== src/Registry/Defaults/Loop.antt =====
-- The inner loop of `initDefaults`, over the entries of one type.
use rbase.Base.{
  ℕ, zero, suc, ◌+◌, ◌≤◌, ◌<◌, ◌≡◌, ◌≢◌, refl, sym, ap, ◌∙◌, subst, some, Bool-cases, inl, inr,
  arith, get_elem?, get_elem?_of_lt, ℕ_discrete,
}
use rbase.Base.Outcome.{Outcome, ok}
use rbase.Entries.{EntryType, int8, int64, uint32, uint64, double, string, type_num, entry_count}
use rbase.Value.{Value, value_eq}
use rbase.SubscriptionMap.Shape.{lt_of_get_elem?}
use rbase.Detail.Entry.{EntryDetail}
use rbase.Detail.Names.{detail_of}
use rbase.Reliability.{default_reliability}
use rbase.RCore.{RCore}
use rbase.Registry
use rbase.Registry.{World, init_default, init_entries, init_types, init_defaults, new_registry}
use rbase.Registry.Store.{IsWellFormed, get-set, set-IsWellFormed, get_total}
use rbase.Registry.Defaults.Tables.{
  IsSharp, value_eq-sharp, IsSharp-at, all_sharp, length-detail_of,
}

module _ (core : RCore) {S : Type 0} where
  open core use {Buffer}

  same_world :
      (o : Outcome (World Buffer S)) (w w' : World Buffer S) → o ≡ ok w → o ≡ ok w' → w' ≡ w
  same_world o w w' e f = cc

  -- A sharp value that is set is the one that is read, and no other entry changes.
  set_effect :
      (w : World Buffer S) (t : EntryType) (p : ℕ) (v : Value)
      → IsWellFormed w
      → t ≢ string
      → p < entry_count t
      → IsSharp v
      → (w₁ : World Buffer S) × (Registry.set core t p v default_reliability w ≡ ok w₁)
        × IsWellFormed w₁
        × (Registry.get w₁ t p ≡ ok v)
        × ((u : EntryType) (q : ℕ)
            → (type_num t ≡ type_num u → p ≢ q)
            → Registry.get w₁ u q ≡ Registry.get w u q)
  set_effect w t p v wf ns within sharp =
      let (old, was) = get_total w t p wf.values_shape within in
      let (w₁, e, got) = get-set core w t p v default_reliability old wf ns within was in
      (
        w₁,
        e,
        (let (w', e', wf', same) =
              set-IsWellFormed core w t p v default_reliability t (suc p) wf ns within
                (λ _ f. omega (arith, f)) in
            subst IsWellFormed (same_world _ w₁ w' e e') wf'),
        got
            ∙ ap ok (elim (Bool-cases (value_eq old v)) [
              | inl h ↦ rw h (value_eq-sharp old v sharp h)
              | inr h ↦ rw h refl
            ]),
        λ u q ne.
            (let (w', e', wf', same) =
                set-IsWellFormed core w t p v default_reliability u q wf ns within ne in
              subst (λ x. Registry.get x u q ≡ Registry.get w u q) (same_world _ w₁ w' e e') same),
      )

  init_default-set :
      (t : EntryType) (p : ℕ) (w : World Buffer S) (d : EntryDetail)
      → t ≢ string
      → get_elem? (detail_of t) p ≡ some d
      → init_default core t p w ≡ Registry.set core t p d.def default_reliability w
  unfolding init_default
  init_default-set string p w d ns e = absurd (ns refl)
  init_default-set int8 p w d ns e = cc
  init_default-set int64 p w d ns e = cc
  init_default-set uint32 p w d ns e = cc
  init_default-set uint64 p w d ns e = cc
  init_default-set double p w d ns e = cc
  init_default-set _ p w d ns e = rw e refl

  init_entries-step :
      (t : EntryType) (n p : ℕ) (w w₁ : World Buffer S)
      → init_default core t p w ≡ ok w₁
      → init_entries core t (suc n) p w ≡ init_entries core t n (suc p) w₁
  unfolding init_entries
  init_entries-step t n p w w₁ e = rw e refl

  -- The inner loop writes the defaults of the entries that are left, and no other entry.
  pub entries_written :
      (t : EntryType) (n p : ℕ) (w : World Buffer S)
      → IsWellFormed w
      → t ≢ string
      → p + n ≡ entry_count t
      → (w' : World Buffer S) × (init_entries core t n p w ≡ ok w')
        × IsWellFormed w'
        × ((q : ℕ) (d : EntryDetail)
            → p ≤ q
            → get_elem? (detail_of t) q ≡ some d
            → Registry.get w' t q ≡ ok d.def)
        × ((u : EntryType) (q : ℕ)
            → (type_num t ≡ type_num u → q < p)
            → Registry.get w' u q ≡ Registry.get w u q)
  unfolding init_entries
  entries_written t zero p w wf ns all = (
    w,
    refl,
    wf,
    λ q d beyond e.
        absurd
          (omega (arith, lt_of_get_elem? (detail_of t) q d e, length-detail_of t ns, beyond, all)),
    λ u q h. refl,
  )
  entries_written t (suc n) p w wf ns all =
      let (d, at) = get_elem?_of_lt (detail_of t) p (omega (arith, length-detail_of t ns)) in
      let (w₁, e, wf₁, got, frame) =
        set_effect w t p d.def wf ns (omega arith)
          (IsSharp-at (detail_of t) p d (all_sharp t) at) in
      let (w', f, wf', good, frame') = entries_written t n (suc p) w₁ wf₁ ns (omega arith) in
      (
        w',
        init_entries-step t n p w w₁ (init_default-set t p w d ns at ∙ e) ∙ f,
        wf',
        λ q d' le at'. elim (ℕ_discrete p q) [
          | no ne ↦ good q d' (omega arith) at'
          | yes same ↦
              let at'' : get_elem? (detail_of t) p ≡ some d' =
                subst (λ i. get_elem? (detail_of t) i ≡ some d') (sym same) at' in
              let d_same : d ≡ d' = cc in
              subst (λ i. Registry.get w' t i ≡ ok d'.def) same
                (frame' t p (λ _. omega arith) ∙ got ∙ ap (λ (x : EntryDetail). ok x.def) d_same)
        ],
        λ u q h. frame' u q (λ s. omega (arith, h s)) ∙ frame u q (λ s k. omega (arith, h s, k)),
      )
