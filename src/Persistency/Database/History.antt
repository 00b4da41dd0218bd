-- ===== src/Persistency/Database/History.antt =====
-- No record is lost, and none changes places.
use mathlib.Core.List.{append-nil, append_assoc}
use rbase.Base.{
  ℕ, suc, inl, inr, ◌≡◌, refl, sym, ap, ◌∙◌, Bool, true, false, List, [], ◌∷◌, ◌++◌, String,
  if◌then◌else◌,
}
use rbase.Entries.{EntryType}
use rbase.Value.{Value}
use rbase.SubscriptionMap.{SubscriptionMap}
use rbase.Entries.{EntryType}
use rbase.Value.{Value}
use rbase.SubscriptionMap.{SubscriptionMap}
use rbase.Base.Outcome.{ok, fault, terminated}
use rbase.Persistency.Database.{
  Record, Database, new_database, enqueue, push, enable, start, notify, insert_record, exceeds,
  joinable,
}
use rbase.Persistency.Database.Pushing.{push-Pushed, begin_stop-stopping}
use rbase.Persistency.Database.Threads.{
  Works, Step, Reaches, accepted, inserts, enables, disables, works, created, steps, pushes,
}

-- What has been written, then what is queued.
abbrev pub all_records : Database → List Record
all_records s = s.database ++ s.records_queue

Works-all_records : (s s' : Database) → Works s s' → all_records s' ≡ all_records s
unfolding insert_record
Works-all_records _ _ (inserts s r rest e q) =
    append_assoc s.database (r ∷ []) rest ∙ ap (◌++◌ s.database) (sym q)
Works-all_records _ _ _ = refl

by_tests :
    (b c : Bool) (s s₁ s' : Database)
    → all_records s₁ ≡ all_records s
    → (if b then ok s else if c then fault terminated else ok s₁) ≡ ok s'
    → all_records s' ≡ all_records s
by_tests true c s s₁ s' e f = ap all_records (let same : s' ≡ s = cc in same)
by_tests false true s s₁ s' e f = cc
by_tests false false s s₁ s' e f = ap all_records (let same : s' ≡ s₁ = cc in same) ∙ e

enable-all_records :
    (dump file : String) (s s' : Database)
    → enable dump file s ≡ ok s'
    → all_records s' ≡ all_records s
unfolding enable start
enable-all_records dump file s s' e = by_tests s.running (joinable s.worker) s _ s' refl e

Step-all_records : (s s' : Database) → Step s s' → all_records s' ≡ all_records s
unfolding notify
Step-all_records _ _ (enables dump file s s' j e) = enable-all_records dump file s s' e
Step-all_records _ _ (disables s s' j o u e) = ap all_records (sym (begin_stop-stopping s s' e).1)
Step-all_records _ _ (works s s' w) = Works-all_records s s' w
Step-all_records _ _ _ = refl

either :
    (b : Bool) (x y : Database) (z : List Record)
    → all_records x ≡ z
    → all_records y ≡ z
    → all_records (if b then x else y) ≡ z
either true x y z e f = e
either false x y z e f = f

enqueue-all_records :
    (r : Record) (s : Database) → all_records (enqueue r s) ≡ all_records s ++ r ∷ []
unfolding enqueue notify
enqueue-all_records r s =
    let e = sym (append_assoc s.database s.records_queue (r ∷ [])) in
    either (exceeds (suc s.trigger_counter) s.trigger) _ _ _ e e

push-all_records :
    (s s' : Database) (values : SubscriptionMap Value) (client : ℕ) (t : EntryType) (property : ℕ)
    → push values client t property s ≡ ok s'
    → all_records s' ≡ all_records s ++ accepted values client t property s
push-all_records s s' values client t property e =
    elim (push-Pushed values client t property s s' e) [
      | inl (nothing, same) ↦
          ap all_records (sym same)
          ∙ sym (append-nil (all_records s))
          ∙ ap (◌++◌ (all_records s)) (sym nothing)
      | inr (r, one, queued) ↦
          ap all_records (sym queued)
          ∙ enqueue-all_records r s
          ∙ ap (◌++◌ (all_records s)) (sym one)
    ]

-- Whatever the two threads do, and in whatever order, as long as no call of the client faults, as a push
-- of a string or of a property out of bounds does: the records that were accepted are those that
-- have been written and those in the queue, in the order in which they were pushed. Restarts of the
-- worker, lost notifications and a database that could not be opened lose none.
pub history_kept :
    (h : List Record) (s : Database) → Reaches h s → h ≡ s.database ++ s.records_queue
unfolding new_database
history_kept _ _ (created trigger) = refl
history_kept _ _ (steps h s s' r st) = history_kept h s r ∙ sym (Step-all_records s s' st)
history_kept _ _ (pushes h s s' values client t property r j u e) =
    ap (λ l. l ++ accepted values client t property s) (history_kept h s r)
    ∙ sym (push-all_records s s' values client t property e)
