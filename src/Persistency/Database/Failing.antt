-- ===== src/Persistency/Database/Failing.antt =====
-- A database that cannot be opened.
use rbase.Base.{
  ℕ, suc, ◌≡◌, ◌≢◌, refl, sym, ◌∙◌, subst, ◌⊎◌, inl, inr, Bool, true, false, List, String,
  if◌then◌else◌,
}
use rbase.Base.Outcome.{ok, fault, terminated, system_error}
use rbase.Entries.{EntryType}
use rbase.Value.{Value}
use rbase.SubscriptionMap.{SubscriptionMap}
use rbase.Persistency.Database.{
  Record, Database, Worker, no_thread, starting, preparing, waiting, failed, enqueue, push, enable,
  start, notify, begin_stop, exceeds, joinable,
}
use rbase.Persistency.Database.Pushing.{push-Pushed, begin_stop-stopping}
use rbase.Persistency.Database.Threads.{
  Works, Step, Steps, begins, open_fails, prepares, sees_stop, passes, waits, wakes, inserts,
  commits, ends, passes_time, enables, disables, joins, wakes_spuriously, works, done, then_step,
  then_push,
}

-- The policy counts as running, but there is no worker.
record Dead (first : List Record) (s : Database) : Type 0 where
  on : s.running ≡ true
  gone : (s.worker ≡ failed) ⊎ (s.worker ≡ no_thread)
  same : s.database ≡ first

dead_enable :
    (b c : Bool) (s s₁ s' : Database)
    → b ≡ true
    → (if b then ok s else if c then fault terminated else ok s₁) ≡ ok s'
    → s ≡ s'
dead_enable true c s s₁ s' e f = cc
dead_enable false c s s₁ s' e f = cc

dead_worker :
    (s : Database) (w : Worker)
    → w ≢ failed
    → w ≢ no_thread
    → (s.worker ≡ failed) ⊎ (s.worker ≡ no_thread)
    → s.worker ≢ w
dead_worker s w n m (inl e) f = n (sym f ∙ e)
dead_worker s w n m (inr e) f = m (sym f ∙ e)

Dead-Works : (first : List Record) (s s' : Database) → Dead first s → Works s s' → ⊥
Dead-Works _ _ _ h (begins s e) = dead_worker s _ (λ x. cc) (λ x. cc) h.gone e
Dead-Works _ _ _ h (open_fails s e) = dead_worker s _ (λ x. cc) (λ x. cc) h.gone e
Dead-Works _ _ _ h (prepares s e) = dead_worker s _ (λ x. cc) (λ x. cc) h.gone e
Dead-Works _ _ _ h (sees_stop s e f) = dead_worker s _ (λ x. cc) (λ x. cc) h.gone e
Dead-Works _ _ _ h (passes s e f) = dead_worker s _ (λ x. cc) (λ x. cc) h.gone e
Dead-Works _ _ _ h (waits s e) = dead_worker s _ (λ x. cc) (λ x. cc) h.gone e
Dead-Works _ _ _ h (wakes s e f) = dead_worker s _ (λ x. cc) (λ x. cc) h.gone e
Dead-Works _ _ _ h (inserts s r rest e f) = dead_worker s _ (λ x. cc) (λ x. cc) h.gone e
Dead-Works _ _ _ h (commits s e f) = dead_worker s _ (λ x. cc) (λ x. cc) h.gone e
Dead-Works _ _ _ h (ends s e) = dead_worker s _ (λ x. cc) (λ x. cc) h.gone e

Dead-Step : (first : List Record) (s s' : Database) → Dead first s → Step s s' → Dead first s'
unfolding notify enable start
Dead-Step first _ _ h (passes_time n s) = record { on = h.on; gone = h.gone; same = h.same }
Dead-Step first _ _ h (enables dump file s s' free e) =
    subst (Dead first) (dead_enable s.running (joinable s.worker) s _ s' h.on e) h
Dead-Step first _ _ h (disables s s' free on out e) =
    subst (Dead first) (begin_stop-stopping s s' e).1
      (record { on = h.on; gone = h.gone; same = h.same })
Dead-Step first _ _ h (joins s j back) = record { on = h.on; gone = inr refl; same = h.same }
Dead-Step first _ _ h (wakes_spuriously s at) =
    absurd (dead_worker s waiting (λ x. cc) (λ x. cc) h.gone at)
Dead-Step first _ _ h (works s s' w) = absurd (Dead-Works first s s' h w)

either : (P : Database → Type 0) (b : Bool) (x y : Database) → P x → P y → P (if b then x else y)
either P true x y p q = p
either P false x y p q = q

Dead-enqueue :
    (first : List Record) (r : Record) (s : Database) → Dead first s → Dead first (enqueue r s)
unfolding enqueue notify
Dead-enqueue first r s h =
    either (Dead first) (exceeds (suc s.trigger_counter) s.trigger) _ _
      (record { on = h.on; gone = h.gone; same = h.same })
      (record { on = h.on; gone = h.gone; same = h.same })

Dead-push :
    (first : List Record) (s s' : Database) (values : SubscriptionMap Value) (client : ℕ)
    (t : EntryType) (property : ℕ)
    → Dead first s
    → push values client t property s ≡ ok s'
    → Dead first s'
Dead-push first s s' values client t property h e =
    elim (push-Pushed values client t property s s' e) [
      | inl (nothing, same) ↦ subst (Dead first) same h
      | inr (r, one, queued) ↦ subst (Dead first) queued (Dead-enqueue first r s h)
    ]

Dead-Steps : (first : List Record) (s s' : Database) → Dead first s → Steps s s' → Dead first s'
Dead-Steps first _ _ h (done s) = h
Dead-Steps first _ _ h (then_step s s' s'' st rest) =
    Dead-Steps first s' s'' (Dead-Step first s s' h st) rest
Dead-Steps first _ _ h (then_push s s' s'' values client t property free out e rest) =
    Dead-Steps first s' s'' (Dead-push first s s' values client t property h e) rest

-- A worker that has begun, and then could not open the database.
failed-Dead :
    (s a b : Database)
    → s.worker ≡ starting
    → Works s a
    → Works a b
    → b.worker ≡ failed
    → Dead s.database b
failed-Dead s a b at st st' f = second a b st' f (first s a st at)
  where
    first :
        (s a : Database)
        → Works s a
        → s.worker ≡ starting
        → (a.worker ≡ preparing) × (a.running ≡ true) × (a.database ≡ s.database)
    first _ _ (begins s e) at = (refl, refl, refl)
    first _ _ (open_fails s e) at = cc (e, at)
    first _ _ (prepares s e) at = cc (e, at)
    first _ _ (sees_stop s e g) at = cc (e, at)
    first _ _ (passes s e g) at = cc (e, at)
    first _ _ (waits s e) at = cc (e, at)
    first _ _ (wakes s e g) at = cc (e, at)
    first _ _ (inserts s r rest e g) at = cc (e, at)
    first _ _ (commits s e g) at = cc (e, at)
    first _ _ (ends s e) at = cc (e, at)

    second :
        (a b : Database)
        → Works a b
        → b.worker ≡ failed
        → (a.worker ≡ preparing) × (a.running ≡ true) × (a.database ≡ s.database)
        → Dead s.database b
    second _ _ (open_fails a e) f (at, on, same) = record { on = on; gone = inl refl; same = same }
    second _ _ (begins a e) f (at, on, same) = cc (e, at)
    second _ _ (prepares a e) f (at, on, same) = cc f
    second _ _ (sees_stop a e g) f (at, on, same) = cc f
    second _ _ (passes a e g) f (at, on, same) = cc f
    second _ _ (waits a e) f (at, on, same) = cc f
    second _ _ (wakes a e g) f (at, on, same) = cc f
    second _ _ (inserts a r rest e g) f (at, on, same) = cc (e, at)
    second _ _ (commits a e g) f (at, on, same) = cc f
    second _ _ (ends a e) f (at, on, same) = cc f

-- A worker that begins and then cannot open the database returns with `m_running` set. Whatever steps
-- of either thread follow, pushes and `disable` among them: nothing is written any more, `enable`
-- changes nothing, and a `disable` throws, unless the worker is still to be joined.
pub failed_open_ends_capture :
    (s a b z : Database) (dump file : String)
    → s.worker ≡ starting
    → Works s a
    → Works a b
    → b.worker ≡ failed
    → Steps b z
    → (z.database ≡ s.database)
      × (z.running ≡ true)
      × (enable dump file z ≡ ok z)
      × ((z.worker ≡ failed) ⊎ (begin_stop z ≡ fault system_error))
unfolding enable begin_stop
failed_open_ends_capture s a b z dump file at st st' f rest =
    let h = Dead-Steps s.database b z (failed-Dead s a b at st st' f) rest in
    (
      h.same,
      h.on,
      rw h.on refl,
      elim h.gone [ inl still ↦ inl still | inr gone ↦ inr (rw gone refl) ],
    )
