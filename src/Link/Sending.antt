-- ===== src/Link/Sending.antt =====
-- `Registry::set` on the left, where the adapter of the connection may send an update.
use rbase.Base.{
  ℕ, ◌<◌, ◌≡◌, ◌≢◌, refl, sym, ap, subst, ◌∙◌, ℕ_discrete, Bool, true, false, some, List, [], ◌∷◌,
  ◌++◌, Bool-cases, ◌⊎◌, inl, inr,
}
use mathlib.Core.List.{append-nil}
use rbase.Base.Outcome.{ok}
use rbase.Base.Assoc.{find}
use rbase.Entries.{EntryType, string, type_num, entry_count}
use rbase.Value.{Value, HasType, value_eq}
use rbase.SubscriptionMap
use rbase.SubscriptionMap.Shape.{get_in_bounds, entry_count_num}
use rbase.Reliability.{acknowledged, reliability_contains}
use rbase.RCore.{RCore}
use rbase.Receive.{Message}
use rbase.Adapter.{Adapter}
use rbase.Adapter.Told.{told, told_keeps, told_unchanged, buffer-told}
use rbase.Registry
use rbase.Registry.{World}
use rbase.Registry.Pointers.{registered, alive-registered_found}
use rbase.Registry.Store.{IsWellFormed, get_total, set_same, set_new_value, set-Told}
use rbase.Registry.Defaults.Tables.{type_num_injective}
use rbase.Link.{Wire, Carries}
use rbase.Link.Pending.{AllUpdates, Replays, Replays-new, Replays-other, concerns_other}

module _ (core : RCore) {S : Type 0} (i : ℕ) (t : EntryType) (p : ℕ) where
  open core use {Buffer}

  -- The adapter `i` is registered and accepts values, and its other end has subscribed to the entry.
  pub record IsSending (w : World Buffer S) (a : Adapter Buffer) : Type 0 where
    pub well_formed : IsWellFormed w
    pub found : find i w.adapters ≡ some a
    pub listed : registered i w.adapter_refs ≡ true
    pub accepts : a.accept_property ≡ true
    pub subscribed : SubscriptionMap.get a.subscriptions (type_num t) p ≡ some true

-- Two entries are the same, or differ in type or number.
pub key_cases :
    (u t : EntryType) (q p : ℕ) → ((u ≡ t) × (q ≡ p)) ⊎ (type_num u ≡ type_num t → q ≢ p)
key_cases u t q p = elim (ℕ_discrete (type_num u) (type_num t)) [
  | no ne ↦ inr (λ e. absurd (ne e))
  | yes e ↦ elim (ℕ_discrete q p) [
    | no ne ↦ inr (λ _. ne)
    | yes f ↦ inl (type_num_injective u t e, f)
  ]
]

module _ (core : RCore) (wire : Wire core) where
  open core use {Buffer}

  -- What telling an adapter sends: the update, or nothing.
  sent-told :
      (u : EntryType) (q : ℕ) (x : Value) (rel : ℕ) (a : Adapter Buffer) (b : Bool)
      → u ≢ string
      → HasType u x
      → a.accept_property ≡ true
      → SubscriptionMap.get a.subscriptions (type_num u) q ≡ some b
      → ((m : Message) × (wire.sent (told core u q x rel a).buffer ≡ wire.sent a.buffer ++ m ∷ [])
          × Carries core u q x m)
        ⊎ ((b ≡ false) × (wire.sent (told core u q x rel a).buffer ≡ wire.sent a.buffer))
  sent-told u q x rel a true ns typed acc sub =
      let (m, e, c) =
        wire.sends_value a.buffer u q x (reliability_contains rel acknowledged) ns typed in
      inl (m, ap wire.sent (buffer-told core u q x rel a acc sub) ∙ e, c)
  sent-told u q x rel a false ns typed acc sub = inr (
    refl,
    ap (λ (c : Adapter Buffer). wire.sent c.buffer) (told_unchanged core u q x rel a (inr sub)),
  )

module _ (core : RCore) (wire : Wire core) {S : Type 0} (i : ℕ) (t : EntryType) (p : ℕ)
    (w : World core.Buffer S) (a : Adapter core.Buffer) (h : IsSending core i t p w a) (v : Value)
    (has : Registry.get w t p ≡ ok v) where
  open core use {Buffer}

  -- After `w` came `w'`, with the new value `v'` of the entry and the messages `ms`.
  abbrev pub After : World Buffer S → Adapter Buffer → List Message → Value → Type 0
  After w' a' ms v' =
      IsSending core i t p w' a'
      × (wire.sent a'.buffer ≡ wire.sent a.buffer ++ ms)
      × AllUpdates core ms
      × (Registry.get w' t p ≡ ok v')
      × ((x : Value) (pending : List Message)
          → Replays core t p x pending v
          → Replays core t p x (pending ++ ms) v')

  unchanged : After w a [] v
  unchanged = (
    h,
    sym (append-nil (wire.sent a.buffer)),
    tt,
    has,
    λ x ms r. subst (λ l. Replays core t p x l v) (sym (append-nil ms)) r,
  )

  module _ (u : EntryType) (q : ℕ) (x : Value) (rel : ℕ) (ns : u ≢ string)
      (within : q < entry_count u) (typed : HasType u x) where
    told_sends :
        (w' : World Buffer S)
        → IsWellFormed w'
        → find i w'.adapters ≡ some (told core u q x rel a)
        → registered i w'.adapter_refs ≡ true
        → IsSending core i t p w' (told core u q x rel a)
    told_sends w' wf found listed =
        let (b, r, e) = told_keeps core u q x rel a in
        record {
          well_formed = wf;
          found = found;
          listed = listed;
          accepts = ap (λ (c : Adapter Buffer). c.accept_property) e ∙ h.accepts;
          subscribed =
              ap (λ (c : Adapter Buffer). SubscriptionMap.get c.subscriptions (type_num t) p) e
              ∙ h.subscribed;
        }

    -- A new value of this entry is sent.
    this_sent :
        (w' : World Buffer S)
        → IsSending core i t p w' (told core u q x rel a)
        → Registry.get w' u q ≡ ok x
        → u ≡ t
        → q ≡ p
        → value_eq v x ≡ false
        → (ms : List Message) × After w' (told core u q x rel a) ms x
    this_sent w' s got same_type same new =
        let sub =
          subst (λ k. SubscriptionMap.get a.subscriptions (type_num k) q ≡ some true)
            (sym same_type)
            (subst (λ k. SubscriptionMap.get a.subscriptions (type_num t) k ≡ some true) (sym same)
              h.subscribed) in
        elim (sent-told core wire u q x rel a true ns typed h.accepts sub) [
          | inr (e, sent) ↦ cc
          | inl (m, sent, c) ↦
              let c' : Carries core t p x m =
                subst (λ k. Carries core k p x m) same_type
                  (subst (λ k. Carries core u k x m) same c) in
              (
                m ∷ [],
                (
                  s,
                  sent,
                  ((u, q, ns, within, c.0), tt),
                  subst (λ k. Registry.get w' k p ≡ ok x) same_type
                      (subst (λ k. Registry.get w' u k ≡ ok x) same got),
                  λ y ms r. Replays-new core t p y v x ms m r c' new,
                ),
              )
        ]

    -- A new value of another entry leaves this one as it is.
    other_sent :
        (w' : World Buffer S)
        → IsSending core i t p w' (told core u q x rel a)
        → Registry.get w' t p ≡ ok v
        → (type_num u ≡ type_num t → q ≢ p)
        → (ms : List Message) × After w' (told core u q x rel a) ms v
    other_sent w' s got ne =
        let (b, sub) =
          get_in_bounds a.subscriptions (h.well_formed.adapters_shape.shaped i a h.found)
            (type_num u) q (entry_count u) (entry_count_num u) within in
        elim (sent-told core wire u q x rel a b ns typed h.accepts sub) [
          | inr (e, sent) ↦ (
            [],
            (
              s,
              sent ∙ sym (append-nil (wire.sent a.buffer)),
              tt,
              got,
              λ y ms r. subst (λ l. Replays core t p y l v) (sym (append-nil ms)) r,
            ),
          )
          | inl (m, sent, c) ↦ (
            m ∷ [],
            (
              s,
              sent,
              ((u, q, ns, within, c.0), tt),
              got,
              λ y ms r. Replays-other core t p y v ms m r (concerns_other core t p u q m c.0 ne),
            ),
          )
        ]

    same_value : (old : Value) → u ≡ t → q ≡ p → Registry.get w u q ≡ ok old → old ≡ v
    same_value old same_type same was = cc (
        subst (λ k. Registry.get w k p ≡ ok old) same_type
          (subst (λ k. Registry.get w u k ≡ ok old) same was))

    new_sent :
        (old : Value)
        → Registry.get w u q ≡ ok old
        → value_eq old x ≡ false
        → (w' : World Buffer S) × (a' : Adapter Buffer) × (ms : List Message) × (v' : Value)
          × (Registry.set core u q x rel w ≡ ok w')
          × After w' a' ms v'
    new_sent old was new =
        let (w', e, got, tell, refs, calls) =
          set_new_value core w u q x rel old h.well_formed ns within was new in
        let (w'', e', wf, how, frame) = set-Told core w u q x rel h.well_formed ns within in
        let same_world : w'' ≡ w' = cc in
        let wf' = subst IsWellFormed same_world wf in
        let s = told_sends w' wf' (tell i ∙ rw (h.listed, h.found) refl) (
          subst (λ r. registered i r ≡ true) (sym refs)
            (alive-registered_found w.adapters i w.adapter_refs h.found h.listed)) in
        elim (key_cases u t q p) [
          | inl (same_type, same) ↦
              let v_old = same_value old same_type same was in
              let (ms, after) =
                this_sent w' s got same_type same (subst (λ k. value_eq k x ≡ false) v_old new) in
              (w', told core u q x rel a, ms, x, e, after)
          | inr ne ↦
              let (ms, after) =
                other_sent w' s
                  (subst (λ k. Registry.get k t p ≡ ok v) same_world (frame t p ne ∙ has)) ne in
              (w', told core u q x rel a, ms, v, e, after)
        ]

    -- A value that is set on the left: what the adapter sends keeps up with the entry.
    pub set_sent :
        (w' : World Buffer S) × (a' : Adapter Buffer) × (ms : List Message) × (v' : Value)
        × (Registry.set core u q x rel w ≡ ok w')
        × After w' a' ms v'
    set_sent =
        let (old, was) = get_total w u q h.well_formed.values_shape within in
        elim (Bool-cases (value_eq old x)) [
          | inl same ↦ (
            w,
            a,
            [],
            v,
            set_same core w u q x rel old h.well_formed ns within was same,
            unchanged,
          )
          | inr new ↦ new_sent old was new
        ]
