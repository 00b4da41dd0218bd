-- ===== src/Persistency/Database/Hanging.antt =====
-- `disable` between the worker's test of `m_stop` and its wait.
use rbase.Base.{◌≡◌, ◌≢◌, refl, ap, ◌⊎◌, inl, inr, true, false}
use rbase.Persistency.Database.{Database, passed, waiting, writing, notify, begin_stop}
use rbase.Persistency.Database.Pushing.{stopping}
use rbase.Persistency.Database.Threads.{
  Works, Step, Steps, begins, open_fails, prepares, sees_stop, passes, waits, wakes, inserts,
  commits, ends, passes_time, enables, disables, joins, wakes_spuriously, works, done, then_step,
  has_returned,
}

-- The client joins a worker that waits and has not been notified.
pub record Stuck (s : Database) : Type 0 where
  pub at_wait : s.worker ≡ waiting
  pub client_joins : s.joining ≡ true
  pub unnotified : s.notified ≡ false

Stuck-Works : (s s' : Database) → Stuck s → Works s s' → ⊥
Stuck-Works _ _ h (begins s e) = cc (h.at_wait, e)
Stuck-Works _ _ h (open_fails s e) = cc (h.at_wait, e)
Stuck-Works _ _ h (prepares s e) = cc (h.at_wait, e)
Stuck-Works _ _ h (sees_stop s e f) = cc (h.at_wait, e)
Stuck-Works _ _ h (passes s e f) = cc (h.at_wait, e)
Stuck-Works _ _ h (waits s e) = cc (h.at_wait, e)
Stuck-Works _ _ h (inserts s r rest e f) = cc (h.at_wait, e)
Stuck-Works _ _ h (commits s e f) = cc (h.at_wait, e)
Stuck-Works _ _ h (ends s e) = cc (h.at_wait, e)
Stuck-Works _ _ h (wakes s e f) = cc (h.unnotified, f)

Stuck-Step :
    (s s' : Database) → Stuck s → Step s s' → Stuck s' ⊎ (s' ≡ record s { worker = writing })
Stuck-Step _ _ h (passes_time n s) =
    inl (record { at_wait = h.at_wait; client_joins = h.client_joins; unnotified = h.unnotified })
Stuck-Step _ _ h (enables dump file s s' free e) = cc (h.client_joins, free)
Stuck-Step _ _ h (disables s s' free on out e) = cc (h.client_joins, free)
Stuck-Step _ _ h (joins s j back) = cc (ap has_returned h.at_wait, back)
Stuck-Step _ _ h (wakes_spuriously s at) = inr refl
Stuck-Step _ _ h (works s s' w) = absurd (Stuck-Works s s' h w)

-- `disable` while the worker is between its test of `m_stop` and its wait: the notification can be
-- lost, and then the client is in `join` and the worker in `wait`; whatever step follows, they stay
-- there, unless the wait ends by itself.
pub stop_can_hang :
    (s : Database)
    → s.worker ≡ passed
    → s.running ≡ true
    → s.joining ≡ false
    → (z : Database) × Steps s z
      × Stuck z
      × ((z' : Database) → Step z z' → Stuck z' ⊎ (z' ≡ record z { worker = writing }))
unfolding begin_stop notify
stop_can_hang s at on free =
    let a = stopping s in
    let z = record a { worker = waiting; notified = false } in
    let stuck : Stuck z = record { at_wait = refl; client_joins = refl; unnotified = refl } in
    (
      z,
      then_step s a z (disables s a free on (not_writing s at) (rw at refl))
          (then_step a z z (works a z (waits a at)) (done z)),
      stuck,
      λ z' st. Stuck-Step z z' stuck st,
    )
  where
    not_writing : (s : Database) → s.worker ≡ passed → s.worker ≢ writing
    not_writing s e f = cc
