-- ===== src/Persistency/Database/Stopping.antt =====
-- `disable` while the worker waits: the queue is written.
use mathlib.Core.List.{append-nil, append_assoc}
use rbase.Base.{◌≡◌, refl, sym, ◌∙◌, Bool, true, false, ◌||◌, List, [], ◌∷◌, ◌++◌}
use rbase.Persistency.Database.{
  Record, Database, Worker, no_thread, testing, ending, waiting, writing, returned, notify,
  begin_stop, insert_record, is_waiting,
}
use rbase.Persistency.Database.Threads.{
  Works, sees_stop, wakes, inserts, commits, ends, has_returned,
}
use rbase.Persistency.Database.Pushing.{stopping}
use rbase.Base.Outcome.{ok}

-- Steps of the worker, and the return of the client's join. No wait ends by itself.
pub data Prompt : Database → Database → Type 0 where
  finished : (s : Database) → Prompt s s
  by_worker : (s s' s'' : Database) → Works s s' → Prompt s' s'' → Prompt s s''
  by_join :
      (s s' : Database)
      → s.joining ≡ true
      → has_returned s.worker ≡ true
      → Prompt (record s { joining = false; worker = no_thread }) s'
      → Prompt s s'

-- From `s` the records `rest` have been written, under the mutex.
record Drained (s : Database) (rest : List Record) (s' : Database) : Type 0 where
  written : s'.database ≡ s.database ++ rest
  empty : s'.records_queue ≡ []
  still : s'.worker ≡ writing
  same_stop : s'.stop ≡ s.stop
  same_joining : s'.joining ≡ s.joining

-- The worker writes the whole queue; what is reached from there is reached from `s`.
drain :
    (P : Database → Type 0) (rest : List Record) (s : Database)
    → s.worker ≡ writing
    → s.records_queue ≡ rest
    → ((s' : Database) → Drained s rest s' → (z : Database) × Prompt s' z × P z)
    → (z : Database) × Prompt s z × P z
unfolding insert_record
drain P [] s at e k = k s (record {
  written = sym (append-nil s.database);
  empty = e;
  still = at;
  same_stop = refl;
  same_joining = refl;
})
drain P (r ∷ rest) s at e k =
    let (z, st, h) =
      drain P rest (insert_record r (record s { records_queue = rest })) at refl (λ s' d.
        k s' (record {
          written = d.written ∙ append_assoc s.database (r ∷ []) rest;
          empty = d.empty;
          still = d.still;
          same_stop = d.same_stop;
          same_joining = d.same_joining;
        })) in
    (z, by_worker s _ z (inserts s r rest at e) st, h)

-- All that was queued in `s` has been written, and the worker has been joined.
pub record Flushed (s z : Database) : Type 0 where
  pub all_written : z.database ≡ s.database ++ s.records_queue
  pub queue_empty : z.records_queue ≡ []
  pub not_running : z.running ≡ false
  pub joined : z.worker ≡ no_thread
  pub free : z.joining ≡ false

finish_round :
    (s s' : Database)
    → s'.database ≡ s.database ++ s.records_queue
    → s'.records_queue ≡ []
    → s'.worker ≡ writing
    → s'.stop ≡ true
    → s'.joining ≡ true
    → (z : Database) × Prompt s' z × Flushed s z
finish_round s s' written empty at stopped joining =
    let a = record s' { worker = testing } in
    let b = record s' { worker = ending } in
    let c = record s' { worker = returned; running = false } in
    let z = record s' { worker = no_thread; running = false; joining = false } in
    (
      z,
      by_worker s' a z (commits s' at empty) (
          by_worker a b z (sees_stop a refl stopped)
            (by_worker b c z (ends b refl) (by_join c z joining refl (finished z)))),
      record {
        all_written = written;
        queue_empty = empty;
        not_running = refl;
        joined = refl;
        free = refl;
      },
    )

notified_waiting : (w : Worker) (b : Bool) → w ≡ waiting → (b || is_waiting w) ≡ true
notified_waiting waiting true e = refl
notified_waiting waiting false e = refl
notified_waiting _ b e = cc

-- `disable` of a running policy while the worker waits: it notifies the worker, which can then write the whole queue, in
-- order, and end, so that the client's join returns; no wait need end by itself.
pub stop_flushes :
    (s : Database)
    → s.worker ≡ waiting
    → (a : Database) × (z : Database) × (begin_stop s ≡ ok a) × Prompt a z × Flushed s z
unfolding begin_stop notify
stop_flushes s at =
    let a = stopping s in
    let b = record a { worker = writing } in
    let (z, st, h) =
      drain (Flushed s) s.records_queue b refl refl
        (λ s' d. finish_round s s' d.written d.empty d.still d.same_stop d.same_joining) in
    (a, z, rw at refl, by_worker a b z (wakes a at (notified_waiting s.worker s.notified at)) st, h)
