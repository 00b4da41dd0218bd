-- ===== src/Persistency/Database/Session.antt =====
-- A capture that has written one value, and what it asked of SQLite.
use rbase.Base.{◌≡◌, refl, true, false, List, [], ◌∷◌, ◌++◌}
use rbase.Base.Int.{pos}
use rbase.Base.Outcome.{ok}
use rbase.Entries.{uint8}
use rbase.Value.{Value, integer}
use rbase.SubscriptionMap
use rbase.SubscriptionMap.{SubscriptionMap}
use rbase.Persistency.Database.{
  Record, Database, starting, preparing, testing, passed, waiting, writing, new_database,
  new_record, push, enqueue, notify, enable, start, insert_record,
}
use rbase.Persistency.Database.Threads.{
  Reaches, begins, prepares, passes, waits, wakes, inserts, enables, works, created, steps, pushes,
}
use rbase.Persistency.Statements.{SqlCall, set_up}
use rbase.Persistency.Statements.Sessions.{run_calls}
use rbase.Persistency.Statements.Sessions.Transactions.{Part, calls_of, records_of, open_calls}
use rbase.Persistency.Statements.Sessions.Runs.{run_calls-InParts}

abbrev values : SubscriptionMap Value
values = SubscriptionMap.init (integer (pos 0))

abbrev new : Database
new = new_database (pos 0)

abbrev at_start : Database
at_start = record new { db_file = "dump.db"; stop = false; worker = starting }

abbrev at_wait : Database
at_wait = record at_start { worker = waiting; running = true; notified = false }

waits_at_last : Reaches [] at_wait
unfolding new_database enable start
waits_at_last =
    let a = record at_start { worker = preparing; running = true } in
    let b = record a { worker = testing } in
    let c = record a { worker = passed } in
    steps [] c at_wait
      (steps [] b c
        (steps [] a b
          (steps [] at_start a
            (steps [] new at_start (created (pos 0)) (enables "dump.db" "" new at_start refl refl))
            (works at_start a (begins at_start refl)))
          (works a b (prepares a refl)))
        (works b c (passes b refl refl)))
      (works c at_wait (waits c refl))

abbrev captured : Record
captured = record {
  time_since_start = 0;
  client_id = 1;
  registry_type = uint8;
  property = 3;
  value = integer (pos 0);
}

abbrev at_write : Database
at_write = record at_wait { worker = writing; notified = true; records_queue = captured ∷ [] }

abbrev written : Database
written = insert_record captured (record at_write { records_queue = [] })

one_written : Reaches (captured ∷ []) written
unfolding new_database new_record push enqueue notify SubscriptionMap.get SubscriptionMap.init
one_written =
    let pushed = record at_wait { notified = true; records_queue = captured ∷ [] } in
    steps (captured ∷ []) at_write written
      (steps (captured ∷ []) pushed at_write
        (pushes [] at_wait pushed values 1 uint8 3 waits_at_last refl (λ e. cc) refl)
        (works pushed at_write (wakes pushed refl refl)))
      (works at_write written (inserts at_write captured [] refl refl))

run_calls-InParts_example :
    (c l : List SqlCall) × (parts : List Part) × (pending : List Record) × (set_up ≡ ok c)
    × (run_calls (captured ∷ []) written one_written ≡ ok l)
    × (l ≡ calls_of c parts ++ open_calls true pending)
    × (captured ∷ [] ≡ (records_of parts ++ pending) ++ [])
unfolding insert_record
run_calls-InParts_example = run_calls-InParts (captured ∷ []) written one_written
