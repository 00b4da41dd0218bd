-- ===== src/Persistency/Database/Examples.antt =====
-- A capture of one value.
use rbase.Base.{◌≡◌, refl, ◌⊎◌, true, false, [], ◌∷◌, ◌++◌}
use rbase.Base.Int.{pos}
use rbase.Entries.{uint8, string}
use rbase.Base.Outcome.{ok, fault, unconstructed, system_error}
use rbase.Persistency.Database.{
  Record, Database, waiting, writing, passed, failed, starting, preparing, begin_stop, enqueue,
  new_database, new_record, push, enable, start,
}
use rbase.Persistency.Database.Threads.{
  Reaches, Step, Steps, created, steps, pushes, enables, done, then_step, passes_time, begins,
  open_fails,
}
use rbase.Persistency.Database.History.{history_kept}
use rbase.Persistency.Database.Stopping.{Prompt, Flushed, stop_flushes}
use rbase.Persistency.Database.Hanging.{Stuck, stop_can_hang}
use rbase.Persistency.Database.Failing.{failed_open_ends_capture}
use rbase.Value.{Value, integer}
use rbase.SubscriptionMap
use rbase.SubscriptionMap.{SubscriptionMap}

abbrev values : SubscriptionMap Value
values = SubscriptionMap.init (integer (pos 0))

abbrev new : Database
new = new_database (pos 50)

abbrev enabled : Database
enabled = record new { db_file = "dump.db"; stop = false; worker = starting }

enabled_reached : Reaches [] enabled
unfolding new_database enable start
enabled_reached =
    steps [] new enabled (created (pos 50)) (enables "dump.db" "" new enabled refl refl)

abbrev captured : Record
captured = record {
  time_since_start = 0;
  client_id = 1;
  registry_type = uint8;
  property = 3;
  value = integer (pos 0);
}

abbrev one_pushed : Database
one_pushed = record enabled { trigger_counter = 1; records_queue = captured ∷ [] }

pushed_reached : Reaches (captured ∷ []) one_pushed
unfolding new_database push enqueue new_record SubscriptionMap.get SubscriptionMap.init
pushed_reached = pushes [] enabled one_pushed values 1 uint8 3 enabled_reached refl (λ e. cc) refl

history_kept_example : captured ∷ [] ≡ one_pushed.database ++ one_pushed.records_queue
history_kept_example = history_kept (captured ∷ []) one_pushed pushed_reached

-- A string that is pushed is assigned to a member that was never constructed.
string_pushed : push values 1 string 0 enabled ≡ fault unconstructed
unfolding new_database push new_record
string_pushed = refl

abbrev at_wait : Database
at_wait = record enabled { worker = waiting; running = true; records_queue = captured ∷ [] }

stop_flushes_example :
    (a : Database) × (z : Database) × (begin_stop at_wait ≡ ok a) × Prompt a z × Flushed at_wait z
stop_flushes_example = stop_flushes at_wait refl

abbrev past_test : Database
past_test = record at_wait { worker = passed }

stop_can_hang_example :
    (z : Database) × Steps past_test z
    × Stuck z
    × ((z' : Database) → Step z z' → Stuck z' ⊎ (z' ≡ record z { worker = writing }))
unfolding new_database
stop_can_hang_example = stop_can_hang past_test refl refl refl

abbrev begun : Database
begun = record enabled { worker = preparing; running = true }

abbrev not_opened : Database
not_opened = record begun { worker = failed }

later : Steps not_opened (record not_opened { now = 7 })
later = then_step not_opened _ _ (passes_time 7 not_opened) (done (record not_opened { now = 7 }))

failed_open_ends_capture_example :
    ((record not_opened { now = 7 }).database ≡ enabled.database)
    × ((record not_opened { now = 7 }).running ≡ true)
    × (enable "dump.db" "" (record not_opened { now = 7 }) ≡ ok (record not_opened { now = 7 }))
    × (((record not_opened { now = 7 }).worker ≡ failed)
        ⊎ (begin_stop (record not_opened { now = 7 }) ≡ fault system_error))
failed_open_ends_capture_example =
    failed_open_ends_capture enabled begun not_opened (record not_opened { now = 7 }) "dump.db" ""
      refl (begins enabled refl) (open_fails begun refl) refl later
