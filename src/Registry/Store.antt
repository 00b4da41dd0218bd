-- ===== src/Registry/Store.antt =====
-- `Registry::set` and `Registry::get` on a well-formed registry.
use rbase.Base.{
  ℕ, ◌<◌, ◌≡◌, ◌≢◌, refl, ap, true, false, some, List, ◌++◌, map, ◌⊎◌, inl, inr, if◌then◌else◌,
  Bool-cases, arith,
}
use rbase.Base.Outcome.{ok, or_fault, out_of_bounds}
use rbase.Entries.{EntryType, string, type_num, entry_count}
use rbase.Value.{Value, value_eq}
use rbase.SubscriptionMap
use rbase.SubscriptionMap.Shape.{
  HasShape, get_in_bounds, entry_count_num, get-put_self, get-put_ne, put-HasShape,
}
use rbase.RCore.{RCore}
use rbase.Adapter.{Adapter}
use rbase.Registry
use rbase.Registry.{World, Update, store, set_to_array, notify}
use rbase.Registry.Pointers.{AllShaped, Distinct, alive, alive-Distinct}
use rbase.Registry.Broadcast.{Told, send_all}
use rbase.Registry.Broadcast.After.{Told-AllShaped}

module _ {B S : Type 0} where
  -- Every array and every subscription map has its size, and no adapter is registered twice.
  pub record IsWellFormed (w : World B S) : Type 0 where
    pub values_shape : HasShape w.values
    pub adapters_shape : AllShaped w.adapters
    pub refs_distinct : Distinct w.adapter_refs

  get_of_values :
      (w : World B S) (t : EntryType) (p : ℕ) (v : Value)
      → SubscriptionMap.get w.values (type_num t) p ≡ some v
      → Registry.get w t p ≡ ok v
  unfolding Registry.get
  get_of_values w t p v e = rw e refl

  values_of_get :
      (w : World B S) (t : EntryType) (p : ℕ) (v : Value)
      → Registry.get w t p ≡ ok v
      → SubscriptionMap.get w.values (type_num t) p ≡ some v
  unfolding Registry.get
  values_of_get w t p v e = ground arith

  -- Every entry can be read.
  pub get_total :
      (w : World B S) (t : EntryType) (p : ℕ)
      → HasShape w.values
      → p < entry_count t
      → (v : Value) × (Registry.get w t p ≡ ok v)
  get_total w t p shape within =
      let (v, e) =
        get_in_bounds w.values shape (type_num t) p (entry_count t) (entry_count_num t) within in
      (v, get_of_values w t p v e)

module _ (core : RCore) {S : Type 0} where
  open core use {Buffer}

  module _ (w : World Buffer S) (t : EntryType) (p : ℕ) (v : Value) (rel : ℕ) (old : Value)
      (wf : IsWellFormed w) (ns : t ≢ string) (within : p < entry_count t)
      (was : Registry.get w t p ≡ ok old) where
    pub set_same : value_eq old v ≡ true → Registry.set core t p v rel w ≡ ok w
    unfolding Registry.set
    set_same same = rw was (rw same refl)

    abbrev stored : List (ℕ × Adapter Buffer) → World Buffer S
    stored live = record w {
      values = SubscriptionMap.put w.values (type_num t) p v;
      adapter_refs = alive w.adapters w.adapter_refs;
      adapters = live;
      updates = w.updates ++ map (λ r. record { receiver = r; type = t; property = p }) w.receivers;
    }

    store_new :
        (live : List (ℕ × Adapter Buffer)) × (store core t p v rel w ≡ ok (stored live))
        × Told core t p v rel w.adapter_refs w.adapters live
    unfolding store
    store_new =
        let (live, e, h) =
          send_all core t p v rel ns within w.adapter_refs w.adapters wf.adapters_shape
            wf.refs_distinct in
        (live, rw e refl, h)

    set_new :
        value_eq old v ≡ false
        → (live : List (ℕ × Adapter Buffer)) × (Registry.set core t p v rel w ≡ ok (stored live))
          × Told core t p v rel w.adapter_refs w.adapters live
    unfolding Registry.set
    set_new new = let (live, e, h) = store_new in (live, rw was (rw new e), h)

-- In a well-formed registry, with no adapter registered twice, a value for an entry other than the
-- string, that differs from the old one, is stored. Then each adapter that a registered pointer reaches
-- has been told of it once, and no other has changed; the pointers to adapters that are gone are
-- erased; and each receiver has been called once, in order.
pub set_new_value :
    (core : RCore) {S : Type 0} (w : World core.Buffer S) (t : EntryType) (p : ℕ) (v : Value)
    (rel : ℕ) (old : Value)
    → IsWellFormed w
    → t ≢ string
    → p < entry_count t
    → Registry.get w t p ≡ ok old
    → value_eq old v ≡ false
    → (w' : World core.Buffer S) × (Registry.set core t p v rel w ≡ ok w')
      × (Registry.get w' t p ≡ ok v)
      × Told core t p v rel w.adapter_refs w.adapters w'.adapters
      × (w'.adapter_refs ≡ alive w.adapters w.adapter_refs)
      × (w'.updates
          ≡ w.updates ++ map (λ r. record { receiver = r; type = t; property = p }) w.receivers)
set_new_value core w t p v rel old wf ns within was new =
    let (live, e, h) = set_new core w t p v rel old wf ns within was new in
    (
      stored core w t p v rel old wf ns within was live,
      e,
      get_of_values (stored core w t p v rel old wf ns within was live) t p v
          (get-put_self w.values (type_num t) p v (values_of_get w t p old was)),
      h,
      refl,
      refl,
    )

-- What `get` returns after `set` of an entry other than the string, in a well-formed registry: the new
-- value, or the old one if the two compare equal.
pub get-set :
    (core : RCore) {S : Type 0} (w : World core.Buffer S) (t : EntryType) (p : ℕ) (v : Value)
    (rel : ℕ) (old : Value)
    → IsWellFormed w
    → t ≢ string
    → p < entry_count t
    → Registry.get w t p ≡ ok old
    → (w' : World core.Buffer S) × (Registry.set core t p v rel w ≡ ok w')
      × (Registry.get w' t p ≡ ok (if value_eq old v then old else v))
get-set core w t p v rel old wf ns within was = elim (Bool-cases (value_eq old v)) [
  | inl same ↦ (w, set_same core w t p v rel old wf ns within was same, rw same was)
  | inr new ↦
      let r = set_new_value core w t p v rel old wf ns within was new in (r.0, r.1, rw new r.2)
]

-- What `set` leaves: a well-formed registry, whose adapters are as before or have been told.
pub set-Told :
    (core : RCore) {S : Type 0} (w : World core.Buffer S) (t : EntryType) (p : ℕ) (v : Value)
    (rel : ℕ)
    → IsWellFormed w
    → t ≢ string
    → p < entry_count t
    → (w' : World core.Buffer S) × (Registry.set core t p v rel w ≡ ok w')
      × IsWellFormed w'
      × ((w.adapters ≡ w'.adapters) ⊎ Told core t p v rel w.adapter_refs w.adapters w'.adapters)
      × ((u : EntryType) (q : ℕ)
          → (type_num t ≡ type_num u → p ≢ q)
          → Registry.get w' u q ≡ Registry.get w u q)
unfolding Registry.get
set-Told core w t p v rel wf ns within =
    let (old, was) = get_total w t p wf.values_shape within in
    elim (Bool-cases (value_eq old v)) [
      | inl same ↦
          (w, set_same core w t p v rel old wf ns within was same, wf, inl refl, λ u q ne. refl)
      | inr new ↦
          let (live, e, h) = set_new core w t p v rel old wf ns within was new in
          (
            stored core w t p v rel old wf ns within was live,
            e,
            record {
              values_shape = put-HasShape w.values (type_num t) p v wf.values_shape;
              adapters_shape =
                  Told-AllShaped core t p v rel w.adapter_refs w.adapters live h wf.adapters_shape;
              refs_distinct = alive-Distinct w.adapters w.adapter_refs wf.refs_distinct;
            },
            inr h,
            λ u q ne.
                ap (λ o. or_fault o out_of_bounds)
                  (get-put_ne w.values (type_num t) p v (type_num u) q ne),
          )
    ]

-- `set` of an entry other than the string keeps the registry well formed, and every other entry's value.
pub set-IsWellFormed :
    (core : RCore) {S : Type 0} (w : World core.Buffer S) (t : EntryType) (p : ℕ) (v : Value)
    (rel : ℕ) (u : EntryType) (q : ℕ)
    → IsWellFormed w
    → t ≢ string
    → p < entry_count t
    → (type_num t ≡ type_num u → p ≢ q)
    → (w' : World core.Buffer S) × (Registry.set core t p v rel w ≡ ok w')
      × IsWellFormed w'
      × (Registry.get w' u q ≡ Registry.get w u q)
set-IsWellFormed core w t p v rel u q wf ns within ne =
    let (w', e, wf', told, frame) = set-Told core w t p v rel wf ns within in
    (w', e, wf', frame u q ne)
