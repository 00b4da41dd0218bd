-- ===== src/Dropper/Records.antt =====
-- The lossy policy on the records of all entries: one call, the reset, and bursts of messages.
use rbase.Base.{
  Bool-cases, ℕ, ◌+◌, ◌%◌, ◌^◌, ◌≤◌, ◌<◌, ◌≡◌, ◌≢◌, refl, sym, ap, ◌∙◌, ◌↔◌, inl, inr, Bool, true,
  false, some, get_elem?, arith,
}
use rbase.Base.Int.{ℤ, pos}
use rbase.Entries.{entry_count_types, bool, type_num, bool_num, ctrl_reset_seq_numbers}
use rbase.SubscriptionMap
use rbase.SubscriptionMap.{SubscriptionMap}
use rbase.SubscriptionMap.Shape.{
  HasShape, get_in_bounds, get-put_self, get-put_ne, put-HasShape, get-fill, lengths-fill,
}
use rbase.Dropper.{EntryRecord, entry_record, judge, is_reset, should_be_dropped_lossy}
use rbase.Dropper.Order.{IsBehind, Fits, judge_drops_iff, judge-in_order, judge_across}

abbrev pub Records : Type 0
Records = SubscriptionMap EntryRecord

module _ (rs : Records) (t p : ℕ) {e : EntryRecord}
    (found : SubscriptionMap.get rs t p ≡ some e) where
  -- A call for an entry other than the reset command judges by the entry's record alone.
  pub lossy_step :
      (s : ℕ) (id : ℤ)
      → is_reset t p ≡ false
      → should_be_dropped_lossy rs t p s id
        ≡ some ((judge e s id).0, SubscriptionMap.put rs t p (judge e s id).1)
  unfolding should_be_dropped_lossy
  lossy_step s id plain = rw (found, should_be_dropped_lossy) (rw plain refl)

  pub lossy_reset :
      (s : ℕ) (id : ℤ)
      → is_reset t p ≡ true
      → should_be_dropped_lossy rs t p s id ≡ some (true, SubscriptionMap.fill (entry_record 0) rs)
  unfolding should_be_dropped_lossy
  lossy_reset s id reset = rw (found, should_be_dropped_lossy) (rw reset refl)

-- For each entry but the reset command the policy answers, and it drops exactly the messages of the
-- recorded adapter whose number is smaller than the recorded one and at most 50 from it, where the
-- distance is that of the two numbers as signed 16-bit numbers: at most 50 behind in the same half of
-- the range, or so far behind that they are at most 50 ahead after a wrap.
pub lossy_drops_iff :
    (rs : Records) (t p s : ℕ) (id : ℤ) (e : EntryRecord)
    → SubscriptionMap.get rs t p ≡ some e
    → e.sequent_number < 2 ^ 16
    → is_reset t p ≡ false
    → (dropped : Bool) × (rs' : Records) × (should_be_dropped_lossy rs t p s id
        ≡ some (dropped, rs'))
      × ((dropped ≡ true) ↔ (IsBehind s e.sequent_number × (pos e.adapter_id ≡ id)))
lossy_drops_iff rs t p s id e found fits plain = (
  (judge e s id).0,
  SubscriptionMap.put rs t p (judge e s id).1,
  lossy_step rs t p found s id plain,
  judge_drops_iff e s id fits,
)

-- A message for one entry leaves the records of all others as they were, unless it is the reset.
pub lossy_frame :
    (rs : Records) (t p s u q : ℕ) (id : ℤ) (e : EntryRecord)
    → SubscriptionMap.get rs t p ≡ some e
    → is_reset t p ≡ false
    → (t ≡ u → p ≢ q)
    → (dropped : Bool) × (rs' : Records) × (should_be_dropped_lossy rs t p s id
        ≡ some (dropped, rs'))
      × (SubscriptionMap.get rs' u q ≡ SubscriptionMap.get rs u q)
lossy_frame rs t p s u q id e found plain ne = (
  (judge e s id).0,
  SubscriptionMap.put rs t p (judge e s id).1,
  lossy_step rs t p found s id plain,
  get-put_ne rs t p (judge e s id).1 u q ne,
)

-- After the reset command, which itself counts as dropped, the next message of every other entry
-- is kept, whatever its number and its adapter.
pub reset_restarts :
    (rs : Records) (s : ℕ) (id : ℤ) (t p c s' : ℕ) (id' : ℤ)
    → HasShape rs
    → get_elem? entry_count_types t ≡ some c
    → p < c
    → is_reset t p ≡ false
    → (rs' : Records) × (rs'' : Records) × (should_be_dropped_lossy rs
          (type_num bool)
          (bool_num ctrl_reset_seq_numbers)
          s
          id
        ≡ some (true, rs'))
      × (should_be_dropped_lossy rs' t p s' id' ≡ some (false, rs''))
reset_restarts rs s id t p c s' id' shape counted within plain =
    let rs' = SubscriptionMap.fill (entry_record 0) rs in
    let e' = judge (entry_record 0) s' id' in
    let (e, found) = get_in_bounds rs shape 10 7 8 refl (omega arith) in
    let (w, f) = get_in_bounds rs shape t p c counted within in
    (
      rs',
      SubscriptionMap.put rs' t p e'.1,
      lossy_reset rs 10 7 found s id refl,
      lossy_step rs' t p (get-fill (entry_record 0) rs t p f) s' id' plain
          ∙ ap (λ b. some (b, SubscriptionMap.put rs' t p e'.1))
              (ap (λ r. r.0) (judge-in_order (entry_record 0) s' id' (omega arith))),
    )

-- For every entry the policy answers, and the records keep their shape.
pub lossy-HasShape :
    (rs : Records) (t p c s : ℕ) (id : ℤ)
    → HasShape rs
    → get_elem? entry_count_types t ≡ some c
    → p < c
    → (dropped : Bool) × (rs' : Records) × (should_be_dropped_lossy rs t p s id
        ≡ some (dropped, rs'))
      × HasShape rs'
lossy-HasShape rs t p c s id shape counted within =
    let (e, found) = get_in_bounds rs shape t p c counted within in
    elim (Bool-cases (is_reset t p)) [
      | inl reset ↦ (
        true,
        SubscriptionMap.fill (entry_record 0) rs,
        lossy_reset rs t p found s id reset,
        lengths-fill (entry_record 0) rs ∙ shape,
      )
      | inr plain ↦ (
        (judge e s id).0,
        SubscriptionMap.put rs t p (judge e s id).1,
        lossy_step rs t p found s id plain,
        put-HasShape rs t p (judge e s id).1 shape,
      )
    ]

-- A wrapped number: when the 16-bit counter of the recorded adapter goes past its end, a message up to 50
-- steps after the recorded one is dropped as if it were late.
pub wrapped_number_dropped :
    (rs : Records) (t p d : ℕ) (e : EntryRecord)
    → SubscriptionMap.get rs t p ≡ some e
    → e.sequent_number < 2 ^ 16
    → is_reset t p ≡ false
    → d ≤ 50
    → 2 ^ 16 ≤ e.sequent_number + d
    → (rs' : Records) × (should_be_dropped_lossy rs t p
          ((e.sequent_number + d) % 2 ^ 16)
          (pos e.adapter_id)
        ≡ some (true, rs'))
wrapped_number_dropped rs t p d e found fits plain near wraps =
    let s = (e.sequent_number + d) % 2 ^ 16 in
    let behind : IsBehind s e.sequent_number = inr (omega arith, omega arith, omega arith) in
    (
      SubscriptionMap.put rs t p (judge e s (pos e.adapter_id)).1,
      lossy_step rs t p found s (pos e.adapter_id) plain
          ∙ ap (λ b. some (b, SubscriptionMap.put rs t p (judge e s (pos e.adapter_id)).1))
              ((judge_drops_iff e s (pos e.adapter_id) fits).1 (behind, refl)),
    )

-- A late message of the recorded adapter is kept, though its number is at most 50 behind, where the
-- two numbers lie on different sides of 2 ^ 15; and the entry's record restarts at 0.
pub late_across_half_kept :
    (rs : Records) (t p s : ℕ) (e : EntryRecord)
    → SubscriptionMap.get rs t p ≡ some e
    → is_reset t p ≡ false
    → s < 2 ^ 15
    → 2 ^ 15 ≤ e.sequent_number
    → e.sequent_number ≤ s + 50
    → (rs' : Records) × (should_be_dropped_lossy rs t p s (pos e.adapter_id) ≡ some (false, rs'))
      × (SubscriptionMap.get rs' t p ≡ some (record e { sequent_number = 0 }))
late_across_half_kept rs t p s e found plain low high near =
    let id = pos e.adapter_id in
    let judged = judge_across e s id low high near in
    (
      SubscriptionMap.put rs t p (record e { sequent_number = 0 }),
      lossy_step rs t p found s id plain
          ∙ ap (λ r. some (r.0, SubscriptionMap.put rs t p r.1)) judged,
      get-put_self rs t p (record e { sequent_number = 0 }) found,
    )

-- Where the records fit their 16-bit fields, an adapter whose id, an `int`, is no 16-bit number has no
-- message dropped but the reset command, however late.
pub wide_id_never_dropped :
    (rs : Records) (t p s : ℕ) (id : ℤ) (e : EntryRecord)
    → SubscriptionMap.get rs t p ≡ some e
    → Fits e
    → is_reset t p ≡ false
    → ((n : ℕ) → id ≡ pos n → 2 ^ 16 ≤ n)
    → (rs' : Records) × (should_be_dropped_lossy rs t p s id ≡ some (false, rs'))
wide_id_never_dropped rs t p s id e found fits plain wide = (
  SubscriptionMap.put rs t p (judge e s id).1,
  lossy_step rs t p found s id plain
      ∙ ap (λ b. some (b, SubscriptionMap.put rs t p (judge e s id).1)) kept,
)
  where
    kept : (judge e s id).0 ≡ false
    kept = elim (Bool-cases (judge e s id).0) [
      | inr k ↦ k
      | inl d ↦ absurd (
          omega (
            arith,
            wide e.adapter_id (sym ((judge_drops_iff e s id fits.sequent_number_fits).0 d).1),
            fits.adapter_id_fits,
          ))
    ]
