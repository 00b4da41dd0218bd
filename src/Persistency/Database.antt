-- ===== src/Persistency/Database.antt =====
-- RRegistry/include/RRegistry/DBPersistencyPolicy.hpp and RRegistry/src/DBPersistencyPolicy.cpp: the
-- policy that captures entries in a database. Its methods run in one client thread, the loop of `run`
-- in a worker thread. What SQLite does with a record is not modelled: `database` holds the records that
-- `insertRecord` was called with.
pub mod Threads
pub mod Pushing
pub mod History
pub mod Quiet
pub mod Stopping
pub mod Hanging
pub mod Failing
mod Examples
mod Session
use rbase.Base.{
  ℕ, suc, Bool, true, false, ◌||◌, List, [], ◌∷◌, ◌++◌, String, str_eq, ltb, if◌then◌else◌,
}
use rbase.Base.Int.{ℤ, pos, negsuc}
use rbase.Base.Outcome.{
  ◌>>=◌, Outcome, ok, fault, or_fault, out_of_bounds, terminated, unconstructed, system_error,
}
use rbase.Entries.{EntryType, string, type_num}
use rbase.Value.{Value}
use rbase.SubscriptionMap
use rbase.SubscriptionMap.{SubscriptionMap}

-- `DBPersistencyPolicy::Record`, with its union as the value of its type.
pub record Record : Type 0 where
  pub time_since_start : ℕ
  pub client_id : ℕ
  pub registry_type : EntryType
  pub property : ℕ
  pub value : Value

-- Where the worker stands: no thread; before `m_running = true`; before the loop; before the test of
-- `m_stop`; after it, when it holds; after it, when the loop goes on; in `wait`; in the loop over the
-- queue, with the mutex; returned early, since the database could not be opened; returned.
pub data Worker : Type 0 where
  no_thread starting preparing testing ending passed waiting writing failed returned : Worker

-- The members, with the worker. `notified` is whether the waiting worker has been notified, and
-- `joining` whether the client is in `m_workerThread.join()`. `now` is the time since `m_startTime`.
pub record Database : Type 0 where
  pub running : Bool
  pub stop : Bool
  pub trigger : ℤ
  pub trigger_counter : ℕ
  pub records_queue : List Record
  pub db_file : String
  pub database : List Record
  pub worker : Worker
  pub notified : Bool
  pub joining : Bool
  pub now : ℕ

-- The constructor.
unfoldable pub new_database : ℤ → Database
new_database trigger = record {
  running = false;
  stop = true;
  trigger = trigger;
  trigger_counter = 0;
  records_queue = [];
  db_file = "";
  database = [];
  worker = no_thread;
  notified = false;
  joining = false;
  now = 0;
}

abbrev pub is_waiting : Worker → Bool
is_waiting waiting = true
is_waiting _ = false

-- A notification is lost unless the worker waits.
pub notify : Database → Database
notify s = record s { notified = s.notified || is_waiting s.worker }

-- `n > trigger`.
abbrev pub exceeds : ℕ → ℤ → Bool
exceeds n (pos k) = ltb k n
exceeds n (negsuc k) = true

-- The record that `push` fills. For a string it assigns to `data_String`, a member of the union that no
-- constructor of `Record` has constructed; a property out of bounds is read from outside the array.
unfoldable pub new_record : SubscriptionMap Value → ℕ → EntryType → ℕ → Database → Outcome Record
new_record values client string property s = fault unconstructed
new_record values client t property s = do
  v ← or_fault (SubscriptionMap.get values (type_num t) property) out_of_bounds
  ok (record {
    time_since_start = s.now;
    client_id = client;
    registry_type = t;
    property = property;
    value = v;
  })

-- The part of `push` under the mutex.
pub enqueue : Record → Database → Database
unfolding notify
enqueue r s =
    let s' = record s { records_queue = s.records_queue ++ r ∷ [] } in
    if exceeds (suc s.trigger_counter) s.trigger
    then record (notify s') { trigger_counter = 0 }
    else record s' { trigger_counter = suc s.trigger_counter }

-- `push`.
pub push : SubscriptionMap Value → ℕ → EntryType → ℕ → Database → Outcome Database
unfolding enqueue new_record
push values client t property s =
    if s.stop then ok s else (do r ← new_record values client t property s; ok (enqueue r s))

-- `std::thread::joinable`.
abbrev pub joinable : Worker → Bool
joinable no_thread = false
joinable _ = true

-- `start`; `dump` is the name that it makes of the time and the home directory. A thread that is
-- joinable may not be assigned to: that terminates the program.
pub start : String → String → Database → Outcome Database
start dump file s =
    if joinable s.worker
    then fault terminated
    else ok (record s {
      db_file = if str_eq file "" then dump else file;
      stop = false;
      worker = starting;
    })

-- `enable`.
pub enable : String → String → Database → Outcome Database
unfolding start
enable dump file s = if s.running then ok s else start dump file s

-- `stop` and `disable`, behind the tests of `m_running` and up to the join. A thread that is not joinable may not be joined: that throws.
pub begin_stop : Database → Outcome Database
unfolding notify
begin_stop s =
    if joinable s.worker
    then ok (record (notify (record s { stop = true })) { joining = true })
    else fault system_error

-- `insertRecord`.
pub insert_record : Record → Database → Database
insert_record r s = record s { database = s.database ++ r ∷ [] }
