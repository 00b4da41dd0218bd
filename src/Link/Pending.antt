-- ===== src/Link/Pending.antt =====
-- What the messages that have not arrived yet make of one entry.
use rbase.Base.{
  ℕ, ◌<◌, ◌≡◌, ◌≢◌, Bool, true, false, ◌&&◌, List, [], ◌∷◌, ◌++◌, ◌==◌, if◌then◌else◌, Bool-cases,
  inl, inr, arith,
}
use rbase.Entries.{EntryType, string, type_num, entry_count}
use rbase.Value.{Value, value_eq}
use rbase.RCore.{RCore, update}
use rbase.Receive.{Message}
use rbase.Receive.Applying.{carried}
use rbase.Link.{IsFor, Carries}

-- An update of an entry that is no string.
abbrev pub IsUpdate : RCore → Message → Type 0
IsUpdate core m =
    (u : EntryType) × (q : ℕ) × (u ≢ string) × (q < entry_count u) × IsFor core u q update m

abbrev pub AllUpdates : RCore → List Message → Type 0
AllUpdates core [] = Unit {0}
AllUpdates core (m ∷ ms) = IsUpdate core m × AllUpdates core ms

pub AllUpdates-append :
    (core : RCore) (ms ns : List Message)
    → AllUpdates core ms
    → AllUpdates core ns
    → AllUpdates core (ms ++ ns)
AllUpdates-append core [] ns h k = k
AllUpdates-append core (m ∷ ms) ns h k = (h.0, AllUpdates-append core ms ns h.1 k)

either_way :
    (b : Bool) {A B C D : Type 0} → (A → C) → (B → D) → (if b then A else B) → (if b then C else D)
either_way true f g h = f h
either_way false f g h = g h

module _ (core : RCore) (t : EntryType) (p : ℕ) where
  -- Whether a message is for the entry.
  abbrev pub concerns : Message → Bool
  concerns m = m.type == type_num t && m.property == p

  -- The values that the messages bring to the entry, from `x` on, end with `v`, and each differs from
  -- the one before it.
  abbrev pub Replays : Value → List Message → Value → Type 0
  Replays x [] v = x ≡ v
  Replays x (m ∷ ms) v =
      if concerns m
      then (value_eq x (carried core t m) ≡ false) × Replays (carried core t m) ms v
      else Replays x ms v

  pub concerns_self : (m : Message) → IsFor core t p update m → concerns m ≡ true
  concerns_self m h = ground arith

  pub concerns_other :
      (u : EntryType) (q : ℕ) (m : Message)
      → IsFor core u q update m
      → (type_num u ≡ type_num t → q ≢ p)
      → concerns m ≡ false
  concerns_other u q m h ne = elim (Bool-cases (concerns m)) [
    | inr e ↦ e
    | inl e ↦ absurd (ne (omega (arith, first m e)) (omega (arith, second m e)))
  ]
    where
      first : (m : Message) → concerns m ≡ true → m.type ≡ type_num t
      first m e = ground arith

      second : (m : Message) → concerns m ≡ true → m.property ≡ p
      second m e = ground arith

  -- The first message, if it is for the entry, brings its value; else it brings nothing.
  pub Replays-this :
      (x v : Value) (m : Message) (ms : List Message)
      → concerns m ≡ true
      → Replays x (m ∷ ms) v
      → (value_eq x (carried core t m) ≡ false) × Replays (carried core t m) ms v
  Replays-this x v m ms e r = rw e at r

  pub Replays-skip :
      (x v : Value) (m : Message) (ms : List Message)
      → concerns m ≡ false
      → Replays x (m ∷ ms) v
      → Replays x ms v
  Replays-skip x v m ms e r = rw e at r

  pub Replays-new :
      (x v y : Value) (ms : List Message) (m : Message)
      → Replays x ms v
      → Carries core t p y m
      → value_eq v y ≡ false
      → Replays x (ms ++ m ∷ []) y
  Replays-new x v y [] m h c new = rw (concerns_self m c.0) (rw c.1 (rw h new), c.1)
  Replays-new x v y (k ∷ ms) m h c new =
      either_way (concerns k) (λ r. (r.0, Replays-new (carried core t k) v y ms m r.1 c new))
        (λ r. Replays-new x v y ms m r c new) h

  pub Replays-other :
      (x v : Value) (ms : List Message) (m : Message)
      → Replays x ms v
      → concerns m ≡ false
      → Replays x (ms ++ m ∷ []) v
  Replays-other x v [] m h e = rw e h
  Replays-other x v (k ∷ ms) m h e =
      either_way (concerns k) (λ r. (r.0, Replays-other (carried core t k) v ms m r.1 e))
        (λ r. Replays-other x v ms m r e) h
