-- ===== src/Receive/Serving.antt =====
-- Worlds in which every connection can handle every message, and what keeps a world such.
use rbase.Base.{
  ℕ, ◌<◌, ◌≡◌, ◌≢◌, refl, sym, ap, ◌∙◌, subst, ℕ_discrete, Bool, true, false, Option, none, some,
  List, [], ◌∷◌, ◌==◌, if◌then◌else◌, inl, inr,
}
use rbase.Base.Int.{ℤ}
use rbase.Base.Outcome.{ok}
use rbase.Base.Assoc.{find, replace, find-replace_self, find-replace_ne, find-replace_cases}
use rbase.Entries.{EntryType, string, type_of_num, entry_count, all_types}
use rbase.Value.{Value}
use rbase.SubscriptionMap.Shape.{HasShape, get_elem?-map}
use rbase.Dropper.{Policy, keep_all, lossy, should_be_dropped}
use rbase.Dropper.Records.{lossy-HasShape}
use rbase.Reliability.{default_reliability}
use rbase.RCore.{RCore}
use rbase.Adapter.{Adapter}
use rbase.Adapter.Told.{told, told_keeps}
use rbase.Registry
use rbase.Registry.{World, CallbackCall}
use rbase.Registry.Pointers.{Distinct}
use rbase.Registry.Broadcast.{Told}
use rbase.Registry.Broadcast.After.{Told-cases, Told-stays}
use rbase.Registry.Store.{IsWellFormed, set-Told}
use rbase.Receive.{Message, verdict, with_adapter}
use rbase.Receive.Ready.{IsReady, PolicyShaped}
use rbase.Receive.Applying.{closed_stays}

module _ (core : RCore) where
  open core use {Buffer}

  pub IsReady-told :
      (t : EntryType) (p : ℕ) (v : Value) (rel : ℕ) (a : Adapter Buffer)
      → IsReady core a
      → IsReady core (told core t p v rel a)
  IsReady-told t p v rel a ready =
      let (b, q, e) = told_keeps core t p v rel a in
      subst (IsReady core) (sym e) (record {
        connected = ready.connected;
        slots = ready.slots;
        shaped = ready.shaped;
        policy_shaped = ready.policy_shaped;
      })

module _ (core : RCore) where
  open core use {Buffer}

  -- Every adapter is ready.
  abbrev pub AllReady : List (ℕ × Adapter Buffer) → Type 0
  AllReady live = (r : ℕ) (a : Adapter Buffer) → find r live ≡ some a → IsReady core a

  pub AllReady-cons :
      (k : ℕ) (a : Adapter Buffer) (live : List (ℕ × Adapter Buffer))
      → IsReady core a
      → AllReady live
      → AllReady ((k, a) ∷ live)
  unfolding find
  AllReady-cons k a live h s r b e = by_test (k == r) e
    where
      by_test : (same : Bool) → (if same then some a else find r live) ≡ some b → IsReady core b
      by_test true e = let same : a ≡ b = cc in subst (IsReady core) same h
      by_test false e = s r b e

  pub AllReady-nil : AllReady []
  unfolding find
  AllReady-nil r a e = cc

module _ (core : RCore) {S : Type 0} where
  open core use {Buffer}

  -- Every adapter is ready, the values have their shape, and no adapter is registered twice.
  pub record IsServing (w : World Buffer S) : Type 0 where
    pub values_shape : HasShape w.values
    pub refs_distinct : Distinct w.adapter_refs
    pub all_ready : AllReady core w.adapters

  abbrev pub Exists : ℕ → World Buffer S → Type 0
  Exists r w = (a : Adapter Buffer) × (find r w.adapters ≡ some a)

  -- `w'` serves, and every adapter of `w` is still there.
  abbrev pub Serves : World Buffer S → World Buffer S → Type 0
  Serves w w' = IsServing w' × ((r : ℕ) → Exists r w → Exists r w')

  pub IsWellFormed-serving : (w : World Buffer S) → IsServing w → IsWellFormed w
  IsWellFormed-serving w s = record {
    values_shape = s.values_shape;
    adapters_shape = record { shaped = λ r a e. (s.all_ready r a e).shaped };
    refs_distinct = s.refs_distinct;
  }

  pub Serves-trans : (w w' w'' : World Buffer S) → Serves w w' → Serves w' w'' → Serves w w''
  Serves-trans w w' w'' h k = (k.0, λ r e. k.1 r (h.1 r e))

  -- Callbacks and pushes change nothing that the service rests on.
  pub Serves-logged :
      (w w' : World Buffer S) (c : List CallbackCall) (s : Option S)
      → Serves w w'
      → Serves w (record w' { calls = c; policy = s })
  Serves-logged w w' c s h = (
    record {
      values_shape = h.0.values_shape;
      refs_distinct = h.0.refs_distinct;
      all_ready = h.0.all_ready;
    },
    h.1,
  )

  pub Serves-with_adapter :
      (r : ℕ) (w : World Buffer S) (a a' : Adapter Buffer)
      → IsServing w
      → find r w.adapters ≡ some a
      → IsReady core a'
      → Serves w (with_adapter r a' w)
  unfolding with_adapter
  Serves-with_adapter r w a a' s found ready = (
    record {
      values_shape = s.values_shape;
      refs_distinct = s.refs_distinct;
      all_ready = λ q b e. elim (find-replace_cases r q a' w.adapters found e) [
        | inl same ↦ subst (IsReady core) same ready
        | inr old ↦ s.all_ready q b old
      ];
    },
    λ q e. elim (ℕ_discrete r q) [
      | yes same ↦ (
        a',
        subst (λ k. find k (replace r a' w.adapters) ≡ some a') same
            (find-replace_self r a' w.adapters found),
      )
      | no ne ↦ (e.0, find-replace_ne r q a' w.adapters ne ∙ e.1)
    ],
  )

  Serves-Told :
      (t : EntryType) (p : ℕ) (v : Value) (rel : ℕ) (w w' : World Buffer S)
      → IsServing w
      → IsWellFormed w'
      → Told core t p v rel w.adapter_refs w.adapters w'.adapters
      → Serves w w'
  Serves-Told t p v rel w w' s wf h = (
    record {
      values_shape = wf.values_shape;
      refs_distinct = wf.refs_distinct;
      all_ready = λ r b e.
          (let (a, found, how) =
              Told-cases core t p v rel w.adapter_refs w.adapters w'.adapters r b h e in
            elim how [
              | inl same ↦ subst (IsReady core) same (s.all_ready r a found)
              | inr same ↦
                  subst (IsReady core) same (IsReady-told core t p v rel a (s.all_ready r a found))
            ]);
    },
    λ r e. Told-stays core t p v rel w.adapter_refs w.adapters w'.adapters r e.0 h e.1,
  )

  Serves-same :
      (w w' : World Buffer S)
      → IsServing w
      → IsWellFormed w'
      → w.adapters ≡ w'.adapters
      → Serves w w'
  Serves-same w w' s wf e = (
    record {
      values_shape = wf.values_shape;
      refs_distinct = wf.refs_distinct;
      all_ready = λ r a f. s.all_ready r a (ap (find r) e ∙ f);
    },
    λ r (a, f). (a, ap (find r) (sym e) ∙ f),
  )

  -- `set` on a serving world: it still serves.
  pub any_set-Serves :
      (w : World Buffer S) (t : EntryType) (p : ℕ) (v : Value) (rel : ℕ)
      → IsServing w
      → t ≢ string
      → p < entry_count t
      → (w' : World Buffer S) × (Registry.set core t p v rel w ≡ ok w') × Serves w w'
  any_set-Serves w t p v rel s ns within =
      let (w', e, wf, how, frame) =
        set-Told core w t p v rel (IsWellFormed-serving w s) ns within in
      elim how [
        | inl same ↦ (w', e, Serves-same w w' s wf same)
        | inr h ↦ (w', e, Serves-Told t p v rel w w' s wf h)
      ]

  -- `set` on a serving world: it still serves, and an adapter that accepts no value is unchanged.
  pub set-Serves :
      (w : World Buffer S) (t : EntryType) (p : ℕ) (v : Value) (r : ℕ) (c : Adapter Buffer)
      → IsServing w
      → t ≢ string
      → p < entry_count t
      → c.accept_property ≡ false
      → find r w.adapters ≡ some c
      → (w' : World Buffer S) × (Registry.set core t p v default_reliability w ≡ ok w')
        × Serves w w'
        × (find r w'.adapters ≡ some c)
  set-Serves w t p v r c s ns within shut found =
      let (w', e, wf, how, frame) =
        set-Told core w t p v default_reliability (IsWellFormed-serving w s) ns within in
      elim how [
        | inl same ↦ (w', e, Serves-same w w' s wf same, ap (find r) (sym same) ∙ found)
        | inr h ↦ (
          w',
          e,
          Serves-Told t p v default_reliability w w' s wf h,
          closed_stays core t p v w.adapter_refs r c w.adapters w'.adapters shut found h,
        )
      ]

-- The policy has a verdict on every message for an entry, and keeps the shape of its records.
pub verdict-PolicyShaped :
    (d : Option Policy) (m : Message) (id : ℤ) (t : EntryType)
    → PolicyShaped d
    → type_of_num m.type ≡ some t
    → m.property < entry_count t
    → (dropped : Bool) × (d' : Option Policy) × (verdict d m id ≡ some (dropped, d'))
      × PolicyShaped d'
unfolding verdict should_be_dropped
verdict-PolicyShaped none m id t h known within = (false, none, refl, tt)
verdict-PolicyShaped (some keep_all) m id t h known within = (false, some keep_all, refl, tt)
verdict-PolicyShaped (some (lossy rs)) m id t h known within =
    let (dropped, rs', e, shape) =
      lossy-HasShape rs m.type m.property (entry_count t) m.seq_number id h
        (get_elem?-map entry_count all_types m.type t known) within in
    (dropped, some (lossy rs'), rw (e, verdict, should_be_dropped) refl, shape)
