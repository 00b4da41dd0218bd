-- ===== src/Persistency/Database/Threads.antt =====
-- The steps of the two threads, and the states that they reach.
use rbase.Base.{ℕ, ◌≡◌, ◌≢◌, Bool, true, false, List, [], ◌∷◌, ◌++◌, String, if◌then◌else◌}
use rbase.Base.Int.{ℤ}
use rbase.Base.Outcome.{ok, fault}
use rbase.Entries.{EntryType}
use rbase.Value.{Value}
use rbase.SubscriptionMap.{SubscriptionMap}
use rbase.Persistency.Database.{
  Record, Database, Worker, no_thread, starting, preparing, testing, ending, passed, waiting,
  writing, failed, returned, new_database, new_record, push, enable, begin_stop, insert_record,
}

-- A step of `run`.
pub data Works : Database → Database → Type 0 where
  begins :
      (s : Database)
      → s.worker ≡ starting
      → Works s (record s { worker = preparing; running = true })
  open_fails : (s : Database) → s.worker ≡ preparing → Works s (record s { worker = failed })
  prepares : (s : Database) → s.worker ≡ preparing → Works s (record s { worker = testing })
  sees_stop :
      (s : Database) → s.worker ≡ testing → s.stop ≡ true → Works s (record s { worker = ending })
  passes :
      (s : Database) → s.worker ≡ testing → s.stop ≡ false → Works s (record s { worker = passed })
  waits :
      (s : Database) → s.worker ≡ passed → Works s (record s { worker = waiting; notified = false })
  wakes :
      (s : Database)
      → s.worker ≡ waiting
      → s.notified ≡ true
      → Works s (record s { worker = writing })
  inserts :
      (s : Database) (r : Record) (rest : List Record)
      → s.worker ≡ writing
      → s.records_queue ≡ r ∷ rest
      → Works s (insert_record r (record s { records_queue = rest }))
  commits :
      (s : Database)
      → s.worker ≡ writing
      → s.records_queue ≡ []
      → Works s (record s { worker = testing })
  ends :
      (s : Database) → s.worker ≡ ending → Works s (record s { worker = returned; running = false })

abbrev pub has_returned : Worker → Bool
has_returned failed = true
has_returned returned = true
has_returned _ = false

-- A step of either thread but a push. The client takes none while it joins, and none that needs the
-- mutex while the worker holds it.
pub data Step : Database → Database → Type 0 where
  passes_time : (n : ℕ) (s : Database) → Step s (record s { now = n })
  enables :
      (dump file : String) (s s' : Database)
      → s.joining ≡ false
      → enable dump file s ≡ ok s'
      → Step s s'
  disables :
      (s s' : Database)
      → s.joining ≡ false
      → s.running ≡ true
      → s.worker ≢ writing
      → begin_stop s ≡ ok s'
      → Step s s'
  joins :
      (s : Database)
      → s.joining ≡ true
      → has_returned s.worker ≡ true
      → Step s (record s { joining = false; worker = no_thread })
  -- a waiting thread may wake without a notification
  wakes_spuriously : (s : Database) → s.worker ≡ waiting → Step s (record s { worker = writing })
  works : (s s' : Database) → Works s s' → Step s s'

-- The record that a push accepts, if it accepts one.
abbrev pub accepted : SubscriptionMap Value → ℕ → EntryType → ℕ → Database → List Record
accepted values client t property s =
    if s.stop
    then []
    else elim (new_record values client t property s) [ ok r ↦ r ∷ [] | fault e ↦ [] ]

-- The states that are reached with a history of records that pushes have accepted.
pub data Reaches : List Record → Database → Type 0 where
  created : (trigger : ℤ) → Reaches [] (new_database trigger)
  steps : (h : List Record) (s s' : Database) → Reaches h s → Step s s' → Reaches h s'
  pushes :
      (h : List Record) (s s' : Database) (values : SubscriptionMap Value) (client : ℕ)
      (t : EntryType) (property : ℕ)
      → Reaches h s
      → s.joining ≡ false
      → s.worker ≢ writing
      → push values client t property s ≡ ok s'
      → Reaches (h ++ accepted values client t property s) s'

-- Any number of steps and pushes.
pub data Steps : Database → Database → Type 0 where
  done : (s : Database) → Steps s s
  then_step : (s s' s'' : Database) → Step s s' → Steps s' s'' → Steps s s''
  then_push :
      (s s' s'' : Database) (values : SubscriptionMap Value) (client : ℕ) (t : EntryType)
      (property : ℕ)
      → s.joining ≡ false
      → s.worker ≢ writing
      → push values client t property s ≡ ok s'
      → Steps s' s''
      → Steps s s''
