-- ===== src/Registry/Typing.antt =====
-- The values of the registry have the C++ types of their entries.
use rbase.Base.{
  ℕ, ◌≡◌, ◌≢◌, sym, ap, subst, ◌∙◌, ℕ_discrete, Bool, true, false, some, ◌⊎◌, inl, inr,
  get_elem?_of_lt, if◌then◌else◌, arith,
}
use rbase.Base.Outcome.{Outcome, ok, fault, ◌>>=◌}
use rbase.Entries.{EntryType, string, type_num, entry_count}
use rbase.Value.{Value, HasType, value_eq}
use rbase.SubscriptionMap
use rbase.SubscriptionMap.{SubscriptionMap}
use rbase.SubscriptionMap.Shape.{
  HasShape, bounds_of_get, entry_count_num, get-put_found, get-put_ne,
}
use rbase.Detail.Names.{detail_of}
use rbase.Detail.Defaults.{detail-IsConsistent}
use rbase.RCore.{RCore}
use rbase.Registry
use rbase.Registry.{World, store, send_to_adapters, set_to_array, notify}
use rbase.Registry.Defaults.{HoldsDefaults}
use rbase.Registry.Defaults.Tables.{type_num_injective, length-detail_of}

-- What follows a first part gives the whole result.
last_step :
    {A C : Type 0} {c : C} (first : Outcome A) (rest : A → Outcome C)
    → (first >>= rest) ≡ ok c
    → (x : A) × (rest x ≡ ok c)
last_step (ok x) rest e = (x, e)
last_step (fault why) rest e = cc

-- Every value that can be read is one of its entry's type; the strings are not covered.
abbrev pub AllTyped : SubscriptionMap Value → Type 0
AllTyped values =
    (t : EntryType) (p : ℕ) (v : Value)
    → t ≢ string
    → SubscriptionMap.get values (type_num t) p ≡ some v
    → HasType t v

-- What `set` may do to the values.
abbrev pub Stored : EntryType → ℕ → Value → SubscriptionMap Value → SubscriptionMap Value → Type 0
Stored t p v values values' =
    (values' ≡ values) ⊎ (values' ≡ SubscriptionMap.put values (type_num t) p v)

module _ (core : RCore) {S : Type 0} where
  open core use {Buffer}

  store_values :
      (t : EntryType) (p : ℕ) (v : Value) (rel : ℕ) (w w' : World Buffer S)
      → store core t p v rel w ≡ ok w'
      → w'.values ≡ SubscriptionMap.put w.values (type_num t) p v
  unfolding store set_to_array notify
  store_values t p v rel w w' e =
      let ((refs, live), g) =
        last_step (send_to_adapters core t p v rel w.adapter_refs w.adapters)
          (λ x.
            ok (notify t p (record (set_to_array t p v w) { adapter_refs = x.0; adapters = x.1 })))
          e in
      let h : (notify t p (record (set_to_array t p v w) { adapter_refs = refs; adapters = live }))
          ≡ w' =
        cc in
      sym (ap (λ (k : World Buffer S). k.values) h)

  pub set_values :
      (t : EntryType) (p : ℕ) (v : Value) (rel : ℕ) (w w' : World Buffer S)
      → Registry.set core t p v rel w ≡ ok w'
      → Stored t p v w.values w'.values
  unfolding Registry.set
  set_values t p v rel w w' e =
      let (old, g) =
        last_step (Registry.get w t p)
          (λ old. if value_eq old v then ok w else store core t p v rel w) e in
      by_test (value_eq old v) g
    where
      by_test :
          (b : Bool)
          → (if b then ok w else store core t p v rel w) ≡ ok w'
          → Stored t p v w.values w'.values
      by_test true g =
          let same : w ≡ w' = cc in inl (sym (ap (λ (k : World core.Buffer S). k.values) same))
      by_test false g = inr (store_values t p v rel w w' g)

-- A value of the entry's type keeps all values typed.
pub AllTyped-Stored :
    (t : EntryType) (p : ℕ) (v : Value) (values values' : SubscriptionMap Value)
    → HasType t v
    → Stored t p v values values'
    → AllTyped values
    → AllTyped values'
AllTyped-Stored t p v values values' typed (inl e) h = subst AllTyped (sym e) h
AllTyped-Stored t p v values values' typed (inr e) h = subst AllTyped (sym e) put_typed
  where
    put_typed : AllTyped (SubscriptionMap.put values (type_num t) p v)
    put_typed u q x ns got = elim (ℕ_discrete (type_num t) (type_num u)) [
      | no ne ↦
          h u q x ns
            (sym (get-put_ne values (type_num t) p v (type_num u) q (λ s. absurd (ne s))) ∙ got)
      | yes same ↦ elim (ℕ_discrete p q) [
        | no ne ↦
            h u q x ns (sym (get-put_ne values (type_num t) p v (type_num u) q (λ _. ne)) ∙ got)
        | yes here ↦
            let at : SubscriptionMap.get (SubscriptionMap.put values (type_num t) p v) (type_num t)
                  p
                ≡ some x =
              subst
                (λ i.
                  SubscriptionMap.get (SubscriptionMap.put values (type_num t) p v) (type_num t) i
                  ≡ some x)
                (sym here)
                (subst
                  (λ k.
                    SubscriptionMap.get (SubscriptionMap.put values (type_num t) p v) k q ≡ some x)
                  (sym same) got) in
            let v_x = get-put_found values (type_num t) p v x at in
            subst (HasType u) v_x (subst (λ k. HasType k v) (type_num_injective t u same) typed)
      ]
    ]

-- A registry that holds its defaults is typed.
pub HoldsDefaults-AllTyped :
    {B S : Type 0} (w : World B S)
    → HasShape w.values
    → ((t : EntryType) → HoldsDefaults t w)
    → AllTyped w.values
unfolding Registry.get
HoldsDefaults-AllTyped w shape holds t p v ns got =
    let (c, counted, within) = bounds_of_get w.values shape (type_num t) p v got in
    let same : entry_count t ≡ c = cc (entry_count_num t) in
    let (d, at) = get_elem?_of_lt (detail_of t) p (omega (arith, length-detail_of t ns, same)) in
    let def_v : d.def ≡ v = cc (holds t p d at) in
    subst (HasType t) def_v (detail-IsConsistent t p d at).def_typed
