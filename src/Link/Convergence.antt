-- ===== src/Link/Convergence.antt =====
-- The registry on the right catches up with the one on the left.
use rbase.Base.{ℕ, suc, ◌<◌, ◌≡◌, refl, sym, ap, ◌∙◌, some, List, [], ◌∷◌, ◌++◌, length}
use mathlib.Core.List.{append-nil}
use rbase.Base.Outcome.{ok}
use rbase.Base.Assoc.{find}
use rbase.Entries.{EntryType, entry_count}
use rbase.Value.{Value}
use rbase.RCore.{RCore}
use rbase.Persistency.{PersistencyPolicy}
use rbase.Adapter.{Adapter}
use rbase.Registry
use rbase.Registry.Store.{get_total}
use rbase.Receive.{Message}
use rbase.Receive.Serving.{IsServing}
use rbase.Receive.Kept.{KeepsAll}
use rbase.Link.{Wire, Link, Reach, Arrives, done, one}
use rbase.Link.Sending.{IsSending}
use rbase.Link.Agreement.{InStep, InStep-Reach, arrival}

module _ (core : RCore) (wire : Wire core) (policies : PersistencyPolicy) (i j : ℕ) (t : EntryType)
    (p : ℕ) where
  open core use {Buffer}
  open policies use {State}

  -- Nothing is on its way, the right end has sent nothing but `silence`, and both registries hold the
  -- same value.
  abbrev pub Agree : Buffer → Link Buffer State → Type 0
  Agree silence l =
      (a : Adapter Buffer) × (b : Adapter Buffer) × (v : Value) × (find i l.left.adapters ≡ some a)
      × (length (wire.sent a.buffer) ≡ l.arrived)
      × (find j l.right.adapters ≡ some b)
      × (b.buffer ≡ silence)
      × (Registry.get l.left t p ≡ ok v)
      × (Registry.get l.right t p ≡ ok v)

  at_rest :
      (silence : Buffer) (l : Link Buffer State) (h : InStep core wire policies i j t p silence l)
      → h.pending ≡ []
      → Agree silence l
  at_rest silence l h e = (
    h.source,
    h.target,
    h.set_value,
    h.sending.found,
    ap length (h.split ∙ ap (λ ms. h.sent ++ ms) e ∙ append-nil h.sent) ∙ h.count,
    h.target_found,
    h.silent,
    h.left_value,
    h.right_value ∙ ap ok (rw e at h.replays),
  )

  drain :
      (silence : Buffer) (ms : List Message) (l : Link Buffer State)
      (h : InStep core wire policies i j t p silence l)
      → h.pending ≡ ms
      → (l' : Link Buffer State) × Arrives core wire policies i j l l'
        × (l'.left ≡ l.left)
        × Agree silence l'
  drain silence [] l h e = (l, done l, refl, at_rest silence l h e)
  drain silence (m ∷ rest) l h e =
      let (w, e₁, e₂, h', f) = arrival core wire policies i j t p silence l h m rest e in
      let (l', arrives, same, agree) =
        drain silence rest (record l { right = w; arrived = suc l.arrived }) h' f in
      (l', one l m w l' e₁ e₂ arrives, same, agree)

  -- An adapter sends values of an entry that its other end has subscribed to, and the policy of that
  -- end drops nothing; both registries hold one value of the entry and nothing is on its way. Then,
  -- after any values were set on the left, and any messages arrived, the messages that are still on
  -- their way can all be handled, and after them both registries hold the same value of the entry
  -- again: that of the left. The right end has sent nothing back.
  pub catches_up :
      (l₀ l : Link Buffer State) (a b : Adapter Buffer)
      → p < entry_count t
      → IsSending core i t p l₀.left a
      → IsServing core l₀.right
      → find j l₀.right.adapters ≡ some b
      → KeepsAll b.dropper
      → length (wire.sent a.buffer) ≡ l₀.arrived
      → Registry.get l₀.right t p ≡ Registry.get l₀.left t p
      → Reach core wire policies i j l₀ l
      → (l' : Link Buffer State) × Arrives core wire policies i j l l'
        × (l'.left ≡ l.left)
        × Agree b.buffer l'
  catches_up l₀ l a b within sending serving found keeps rest same r =
      let (v, has) = get_total l₀.left t p sending.well_formed.values_shape within in
      let h : InStep core wire policies i j t p b.buffer l₀ = record {
        source = a;
        target = b;
        sent = wire.sent a.buffer;
        pending = [];
        set_value = v;
        shown_value = v;
        sending = sending;
        serving = serving;
        target_found = found;
        keeps = keeps;
        silent = refl;
        split = sym (append-nil (wire.sent a.buffer));
        count = rest;
        updates = tt;
        left_value = has;
        right_value = same ∙ has;
        replays = refl;
      } in
      let h' = InStep-Reach core wire policies i j t p b.buffer r h in
      drain b.buffer h'.pending l h' refl
