-- ===== src/Receive/Kept.antt =====
-- An update received by an adapter whose policy drops none.
use rbase.Base.{ℕ, ◌<◌, ◌≡◌, ◌≢◌, refl, ap, subst, ◌∙◌, false, Option, some, if◌then◌else◌}
use rbase.Base.Int.{ℤ}
use rbase.Base.Outcome.{ok}
use rbase.Base.Assoc.{find, find-replace_self}
use rbase.Entries.{EntryType, string, type_num, type_of_num, entry_count}
use rbase.Value.{Value, value_eq}
use rbase.Dropper.{Policy, keep_all, should_be_dropped}
use rbase.Reliability.{default_reliability}
use rbase.RCore.{RCore, update}
use rbase.Persistency.{PersistencyPolicy}
use rbase.Adapter.{Adapter}
use rbase.Registry
use rbase.Registry.{World}
use rbase.Registry.Store.{get_total, get-set, set-Told}
use rbase.Receive.{Message, receive, verdict, with_adapter, dispatch}
use rbase.Receive.Ready.{finish-ready, receive-dispatch}
use rbase.Receive.Applying.{
  carried, closed, reopened, apply_update-received, set_received-set, handle_update-kept,
}
use rbase.Receive.Serving.{IsServing, IsWellFormed-serving, Serves-with_adapter, set-Serves}
use rbase.Receive.Total.{receive-Serves}

-- The policy drops no message, and stays as it is.
abbrev pub KeepsAll : Option Policy → Type 0
KeepsAll policy = (m : Message) (id : ℤ) → verdict policy m id ≡ some (false, policy)

pub keep_all-KeepsAll : KeepsAll (some keep_all)
unfolding verdict should_be_dropped
keep_all-KeepsAll m id = refl

module _ (core : RCore) (policies : PersistencyPolicy) where
  open core use {Buffer}
  open policies use {State}

  -- An update of an entry: its value is stored, or the old one stays if they compare equal; all other
  -- entries stay; and the adapter has sent nothing back.
  pub update_kept :
      (j : ℕ) (u : EntryType) (m : Message) (w : World Buffer State) (b : Adapter Buffer)
      → IsServing core w
      → find j w.adapters ≡ some b
      → u ≢ string
      → m.property < entry_count u
      → type_of_num m.type ≡ some u
      → m.message_type ≡ update
      → KeepsAll b.dropper
      → (w' : World Buffer State) × (old : Value) × (receive core policies j m w ≡ ok w')
        × IsServing core w'
        × (find j w'.adapters ≡ some (reopened core b.dropper b))
        × (Registry.get w u m.property ≡ ok old)
        × (Registry.get w' u m.property
            ≡ ok (if value_eq old (carried core u m) then old else carried core u m))
        × ((t : EntryType) (p : ℕ)
            → (type_num u ≡ type_num t → m.property ≢ p)
            → Registry.get w' t p ≡ Registry.get w t p)
  unfolding dispatch with_adapter Registry.get
  update_kept j u m w b s found ns within known is_update keeps =
      let p = m.property in
      let val = carried core u m in
      let ready = s.all_ready j b found in
      let c = closed core b.dropper b in
      let shut = with_adapter j c w in
      let s₀ =
        (Serves-with_adapter core j w b c s found (record {
          connected = ready.connected;
          slots = ready.slots;
          shaped = ready.shaped;
          policy_shaped = ready.policy_shaped;
        })).0 in
      let found_c = find-replace_self j c w.adapters found in
      let (w₁, e, serves, stays) = set-Serves core shut u p val j c s₀ ns within refl found_c in
      let wf = IsWellFormed-serving core shut s₀ in
      let (w₂, e₂, wf₂, how, frame) = set-Told core shut u p val default_reliability wf ns within in
      let (old, was) = get_total shut u p wf.values_shape within in
      let (w₃, e₃, got) = get-set core shut u p val default_reliability old wf ns within was in
      let told_same : w₂ ≡ w₁ = cc in
      let set_same : w₃ ≡ w₁ = cc in
      let a' = reopened core b.dropper b in
      let opened = with_adapter j a' w₁ in
      let found' = find-replace_self j a' w₁.adapters stays in
      let (calls, state, fin) =
        finish-ready core policies j u m opened a' found' ready.connected ready.slots in
      let w' = record opened { calls = calls; policy = state } in
      let done =
        receive-dispatch core policies j u m w b found known within
        ∙ ap (λ k. dispatch core policies k j u m b w) is_update
        ∙ handle_update-kept core policies j u m b b.dropper w opened w' (keeps m b.adapter_id)
            (apply_update-received core j u m b w w₁ c ready.connected
              (set_received-set core u m shut ns ∙ e) stays)
            fin in
      let (w'', e'', serves') =
        receive-Serves core policies j m w s (b, found) (λ k. cc (is_update, k)) in
      let same : w'' ≡ w' = cc in
      (
        w',
        old,
        done,
        subst (λ k. IsServing core k) same serves'.0,
        found',
        was,
        subst (λ k. Registry.get k u p ≡ ok (if value_eq old val then old else val)) set_same got,
        λ t q ne. subst (λ k. Registry.get k t q ≡ Registry.get w t q) told_same (frame t q ne),
      )
