-- ===== src/Persistency/Database/Quiet.antt =====
-- The steps that write nothing, and neither begin nor end a transaction.
use rbase.Base.{
  ℕ, inl, inr, ◌≡◌, refl, sym, subst, Bool, true, false, [], ◌∷◌, ◌++◌, String, if◌then◌else◌,
}
use rbase.Base.Outcome.{ok, fault, terminated}
use rbase.Entries.{EntryType}
use rbase.Value.{Value}
use rbase.SubscriptionMap.{SubscriptionMap}
use rbase.Persistency.Database.{
  Record, Database, Worker, no_thread, writing, failed, returned, push, enqueue, notify, enable,
  start, begin_stop, insert_record, exceeds, joinable,
}
use rbase.Persistency.Database.Pushing.{push-Pushed, begin_stop-stopping}
use rbase.Persistency.Database.Threads.{has_returned}

abbrev pub is_writing : Worker → Bool
is_writing writing = true
is_writing _ = false

-- Neither the queue's transaction nor the written records change.
pub record Quiet (s s' : Database) : Type 0 where
  pub same_writing : is_writing s'.worker ≡ is_writing s.worker
  pub same_written : s'.database ≡ s.database

joinable_or_not : (w : Worker) → joinable w ≡ false → is_writing w ≡ false
joinable_or_not no_thread e = refl
joinable_or_not _ e = cc

pub returned_not_writing : (w : Worker) → has_returned w ≡ true → is_writing w ≡ false
returned_not_writing failed e = refl
returned_not_writing returned e = refl
returned_not_writing _ e = cc

by_tests :
    (b c : Bool) (s s₁ s' : Database)
    → (c ≡ false → Quiet s s₁)
    → (if b then ok s else if c then fault terminated else ok s₁) ≡ ok s'
    → Quiet s s'
by_tests true c s s₁ s' q e =
    subst (Quiet s) (let same : s ≡ s' = cc in same)
      (record { same_writing = refl; same_written = refl })
by_tests false true s s₁ s' q e = cc
by_tests false false s s₁ s' q e = subst (Quiet s) (let same : s₁ ≡ s' = cc in same) (q refl)

pub enable-Quiet : (dump file : String) (s s' : Database) → enable dump file s ≡ ok s' → Quiet s s'
unfolding enable start
enable-Quiet dump file s s' e =
    by_tests s.running (joinable s.worker) s _ s'
      (λ free. record { same_writing = sym (joinable_or_not s.worker free); same_written = refl }) e

either-Quiet : (b : Bool) (s x y : Database) → Quiet s x → Quiet s y → Quiet s (if b then x else y)
either-Quiet true s x y q r = q
either-Quiet false s x y q r = r

enqueue-Quiet : (r : Record) (s : Database) → Quiet s (enqueue r s)
unfolding enqueue notify
enqueue-Quiet r s =
    either-Quiet (exceeds _ s.trigger) s _ _ (record { same_writing = refl; same_written = refl })
      (record { same_writing = refl; same_written = refl })

pub push-Quiet :
    (values : SubscriptionMap Value) (client : ℕ) (t : EntryType) (property : ℕ) (s s' : Database)
    → push values client t property s ≡ ok s'
    → Quiet s s'
push-Quiet values client t property s s' e = elim (push-Pushed values client t property s s' e) [
  | inl (nothing, same) ↦ subst (Quiet s) same (record { same_writing = refl; same_written = refl })
  | inr (r, one, queued) ↦ subst (Quiet s) queued (enqueue-Quiet r s)
]

pub begin_stop-Quiet : (s s' : Database) → begin_stop s ≡ ok s' → Quiet s s'
unfolding notify
begin_stop-Quiet s s' e =
    subst (Quiet s) (begin_stop-stopping s s' e).1
      (record { same_writing = refl; same_written = refl })

-- A record that is inserted is the last that was written.
pub insert_record-written :
    (r : Record) (s : Database)
    → ((insert_record r s).worker ≡ s.worker)
      × ((insert_record r s).database ≡ s.database ++ r ∷ [])
unfolding insert_record
insert_record-written r s = (refl, refl)
