-- ===== src/Link/Agreement.antt =====
-- What holds of the two registries at all times: the messages on their way make the entry on the
-- right what it is on the left.
use rbase.Base.{
  ℕ, suc, ◌<◌, ◌≡◌, ◌≢◌, refl, sym, ap, subst, ◌∙◌, false, some, List, [], ◌∷◌, ◌++◌, length,
  get_elem?, if◌then◌else◌, inl, inr,
}
use mathlib.Core.List.{append_assoc}
use rbase.Base.Outcome.{ok}
use rbase.Base.Assoc.{find}
use rbase.Entries.{EntryType, string, type_num, type_of_num, entry_count}
use rbase.Value.{Value, HasType, value_eq}
use rbase.Detail.Names.Lookup.{type_of_num-type_num}
use rbase.RCore.{RCore, update}
use rbase.Persistency.{PersistencyPolicy}
use rbase.Adapter.{Adapter}
use rbase.Registry
use rbase.Registry.{World}
use rbase.Receive.{Message, receive}
use rbase.Receive.Applying.{carried, reopened}
use rbase.Receive.Serving.{IsServing}
use rbase.Receive.Kept.{KeepsAll, update_kept}
use rbase.Link.{IsFor, Wire, Link, next_message, Step, set_left, arrive, Reach, here, next}
use rbase.Link.Pending.{
  AllUpdates, AllUpdates-append, Replays, concerns_self, concerns_other, Replays-this, Replays-skip,
}
use rbase.Link.Sending.{IsSending, set_sent, key_cases}

get_elem?-append_length :
    {A : Type 0} (xs ys : List A) → get_elem? (xs ++ ys) (length xs) ≡ get_elem? ys 0
get_elem?-append_length [] ys = refl
get_elem?-append_length (x ∷ xs) ys = get_elem?-append_length xs ys

length-append_one : {A : Type 0} (xs : List A) (x : A) → length (xs ++ x ∷ []) ≡ suc (length xs)
length-append_one [] x = refl
length-append_one (y ∷ xs) x = ap suc (length-append_one xs x)

module _ (core : RCore) (wire : Wire core) (policies : PersistencyPolicy) (i j : ℕ) (t : EntryType)
    (p : ℕ) (silence : core.Buffer) where
  open core use {Buffer}
  open policies use {State}

  -- `source` and `target` are the two ends, `sent` has arrived, `pending` has not; `silence` is all
  -- that the right end has ever sent.
  pub record InStep (l : Link Buffer State) : Type 0 where
    pub source : Adapter Buffer
    pub target : Adapter Buffer
    pub sent : List Message
    pub pending : List Message
    pub set_value : Value
    pub shown_value : Value
    pub sending : IsSending core i t p l.left source
    pub serving : IsServing core l.right
    pub target_found : find j l.right.adapters ≡ some target
    pub keeps : KeepsAll target.dropper
    pub silent : target.buffer ≡ silence
    pub split : wire.sent source.buffer ≡ sent ++ pending
    pub count : length sent ≡ l.arrived
    pub updates : AllUpdates core pending
    pub left_value : Registry.get l.left t p ≡ ok set_value
    pub right_value : Registry.get l.right t p ≡ ok shown_value
    pub replays : Replays core t p shown_value pending set_value

  -- A value that is set on the left.
  InStep-set_left :
      (l : Link Buffer State) (u : EntryType) (q : ℕ) (x : Value) (rel : ℕ) (w : World Buffer State)
      → InStep l
      → u ≢ string
      → q < entry_count u
      → HasType u x
      → Registry.set core u q x rel l.left ≡ ok w
      → InStep (record l { left = w })
  InStep-set_left l u q x rel w h ns within typed e =
      let (w', a', ms, v', e', (s, more, ups, got, keep)) =
        set_sent core wire i t p l.left h.source h.sending h.set_value h.left_value u q x rel ns
          within typed in
      let same : w' ≡ w = cc in
      subst (λ k. InStep (record l { left = k })) same
        (record {
          source = a';
          target = h.target;
          sent = h.sent;
          pending = h.pending ++ ms;
          set_value = v';
          shown_value = h.shown_value;
          sending = s;
          serving = h.serving;
          target_found = h.target_found;
          keeps = h.keeps;
          silent = h.silent;
          split = more ∙ ap (λ l. l ++ ms) h.split ∙ append_assoc h.sent h.pending ms;
          count = h.count;
          updates = AllUpdates-append core h.pending ms h.updates ups;
          left_value = got;
          right_value = h.right_value;
          replays = keep h.shown_value h.pending h.replays;
        })

  pub next-first :
      (l : Link Buffer State) (h : InStep l)
      → next_message core wire policies i j l ≡ get_elem? h.pending 0
  unfolding next_message
  next-first l h =
      rw (h.sending.found, next_message)
        (ap (get_elem? (wire.sent h.source.buffer)) (sym h.count)
          ∙ ap (λ ms. get_elem? ms (length h.sent)) h.split
          ∙ get_elem?-append_length h.sent h.pending)

  -- The first pending message brings the entry on the right one step nearer.
  shown_next :
      (u : EntryType) (m : Message) (ms : List Message) (x v old : Value)
      (w w' : World Buffer State)
      → IsFor core u m.property update m
      → Registry.get w u m.property ≡ ok old
      → Registry.get w' u m.property
        ≡ ok (if value_eq old (carried core u m) then old else carried core u m)
      → ((t : EntryType) (p : ℕ)
          → (type_num u ≡ type_num t → m.property ≢ p)
          → Registry.get w' t p ≡ Registry.get w t p)
      → Registry.get w t p ≡ ok x
      → Replays core t p x (m ∷ ms) v
      → (x' : Value) × (Registry.get w' t p ≡ ok x') × Replays core t p x' ms v
  shown_next u m ms x v old w w' h was got frame shown r = elim (key_cases u t m.property p) [
    | inr ne ↦ (
      x,
      frame t p ne ∙ shown,
      Replays-skip core t p x v m ms (concerns_other core t p u m.property m h ne) r,
    )
    | inl (same_type, same) ↦
        let h' : IsFor core t p update m = (h.0 ∙ ap type_num same_type, same, h.2) in
        let (new, rest) = Replays-this core t p x v m ms (concerns_self core t p m h') r in
        let was' : Registry.get w t p ≡ ok old =
          subst (λ k. Registry.get w t k ≡ ok old) same
            (subst (λ k. Registry.get w k m.property ≡ ok old) same_type was) in
        let old_x : x ≡ old = cc in
        let got' =
          subst
            (λ q.
              Registry.get w' t q
              ≡ ok (if value_eq old (carried core t m) then old else carried core t m))
            same
            (subst
              (λ k.
                Registry.get w' k m.property
                ≡ ok (if value_eq old (carried core k m) then old else carried core k m))
              same_type got) in
        (
          carried core t m,
          got' ∙ rw (subst (λ k. value_eq k (carried core t m) ≡ false) old_x new) refl,
          rest,
        )
  ]

  -- A message that is on its way can arrive, and then all is still in step.
  pub arrival :
      (l : Link Buffer State) (h : InStep l) (m : Message) (rest : List Message)
      → h.pending ≡ m ∷ rest
      → (w : World Buffer State) × (next_message core wire policies i j l ≡ some m)
        × (receive core policies j m l.right ≡ ok w)
        × (h' : InStep (record l { right = w; arrived = suc l.arrived })) × (h'.pending ≡ rest)
  arrival l h m rest first =
      let ups = subst (AllUpdates core) first h.updates in
      let (u, q, ns, within, (kind, number, is_update)) = ups.0 in
      let within' = subst (λ k. k < entry_count u) (sym number) within in
      let (w, old, e, serves, found, was, got, frame) =
        update_kept core policies j u m l.right h.target h.serving h.target_found ns within'
          (ap type_of_num kind ∙ type_of_num-type_num u) is_update h.keeps in
      let (x', shown, rest_replays) =
        shown_next u m rest h.shown_value h.set_value old l.right w (kind, refl, is_update) was got
          frame h.right_value
          (subst (λ ms. Replays core t p h.shown_value ms h.set_value) first h.replays) in
      (
        w,
        next-first l h ∙ ap (λ ms. get_elem? ms 0) first,
        e,
        record {
          source = h.source;
          target = reopened core h.target.dropper h.target;
          sent = h.sent ++ m ∷ [];
          pending = rest;
          set_value = h.set_value;
          shown_value = x';
          sending = h.sending;
          serving = serves;
          target_found = found;
          keeps = h.keeps;
          silent = h.silent;
          split = h.split ∙ ap (λ ms. h.sent ++ ms) first ∙ sym (append_assoc h.sent (m ∷ []) rest);
          count = length-append_one h.sent m ∙ ap suc h.count;
          updates = ups.1;
          left_value = h.left_value;
          right_value = shown;
          replays = rest_replays;
        },
        refl,
      )

  -- A message that has arrived is the first one that was on its way.
  InStep-arrive :
      (l : Link Buffer State) (m : Message) (w : World Buffer State)
      → InStep l
      → next_message core wire policies i j l ≡ some m
      → receive core policies j m l.right ≡ ok w
      → InStep (record l { right = w; arrived = suc l.arrived })
  InStep-arrive l m w h e done = by_pending h.pending refl
    where
      by_pending :
          (ms : List Message)
          → h.pending ≡ ms
          → InStep (record l { right = w; arrived = suc l.arrived })
      by_pending [] f = cc (next-first l h, ap (λ ms. get_elem? ms 0) f)
      by_pending (k ∷ rest) f =
          let (w', g, e', h', _) = arrival l h k rest f in
          let first : k ≡ m = cc in
          let same : w' ≡ w = cc (ap (λ x. receive core policies j x l.right) first) in
          subst (λ x. InStep (record l { right = x; arrived = suc l.arrived })) same h'

  pub InStep-Step :
      {l l' : Link Buffer State} → Step core wire policies i j l l' → InStep l → InStep l'
  InStep-Step (set_left l u q x rel w ns within typed e) h =
      InStep-set_left l u q x rel w h ns within typed e
  InStep-Step (arrive l m w e done) h = InStep-arrive l m w h e done

  pub InStep-Reach :
      {l l' : Link Buffer State} → Reach core wire policies i j l l' → InStep l → InStep l'
  InStep-Reach here h = h
  InStep-Reach (next r s) h = InStep-Step s (InStep-Reach r h)
