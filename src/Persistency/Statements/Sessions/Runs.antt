-- ===== src/Persistency/Statements/Sessions/Runs.antt =====
-- The calls of any run of the two threads.
use mathlib.Core.List.{append-nil}
use rbase.Base.{◌≡◌, refl, sym, ap, ◌∙◌, subst, Bool, List, [], ◌++◌}
use rbase.Base.Outcome.{Outcome, ok, ◌>>=◌}
use rbase.Persistency.Database.{Record, Database, Worker, new_database}
use rbase.Persistency.Database.Threads.{
  Works, Step, Reaches, disables, begins, open_fails, prepares, sees_stop, passes, waits, wakes,
  inserts, commits, ends, passes_time, enables, joins, wakes_spuriously, works, created, steps,
  pushes,
}
use rbase.Persistency.Database.History.{history_kept}
use rbase.Persistency.Database.Quiet.{
  is_writing, Quiet, returned_not_writing, enable-Quiet, push-Quiet, begin_stop-Quiet,
  insert_record-written,
}
use rbase.Persistency.Statements.{SqlCall, set_up}
use rbase.Persistency.Statements.Rows.{general_rows_complete}
use rbase.Persistency.Statements.Sessions.{works_calls, step_calls, run_calls}
use rbase.Persistency.Statements.Sessions.Transactions.{
  Part, calls_of, records_of, open_calls, open_records, InParts, opens, adds, closes, prepared,
}

module _ (c l : List SqlCall) where
  asks_nothing : {b : Bool} {d : List Record} → InParts c l b d → InParts c (l ++ []) b d
  asks_nothing {b} {d} i = subst (λ x. InParts c x b d) (sym (append-nil l)) i

  stays :
      (s s' : Database)
      → Quiet s s'
      → InParts c l (is_writing s.worker) s.database
      → InParts c (l ++ []) (is_writing s'.worker) s'.database
  stays s s' q i = rw (q.same_writing, q.same_written) (asks_nothing i)

  standing :
      {w : Worker} (s : Database)
      → s.worker ≡ w
      → InParts c l (is_writing s.worker) s.database
      → InParts c l (is_writing w) s.database
  standing s e i = subst (λ v. InParts c l (is_writing v) s.database) e i

  worker_split :
      (s s' : Database) (w : Works s s')
      → set_up ≡ ok c
      → InParts c l (is_writing s.worker) s.database
      → (more : List SqlCall) × (works_calls s s' w ≡ ok more)
        × InParts c (l ++ more) (is_writing s'.worker) s'.database
  unfolding works_calls
  worker_split _ _ (begins s e) u i = ([], refl, asks_nothing (standing s e i))
  worker_split _ _ (open_fails s e) u i = ([], refl, asks_nothing (standing s e i))
  worker_split _ _ (prepares s e) u i = (c, u, prepared c l s.database (standing s e i))
  worker_split _ _ (sees_stop s e f) u i = ([], refl, asks_nothing (standing s e i))
  worker_split _ _ (passes s e f) u i = ([], refl, asks_nothing (standing s e i))
  worker_split _ _ (waits s e) u i = ([], refl, asks_nothing (standing s e i))
  worker_split _ _ (wakes s e n) u i = (_, refl, opens c l s.database (standing s e i))
  worker_split _ _ (inserts s r rest e q) u i =
      let (at, written) = insert_record-written r (record s { records_queue = rest }) in
      (_, refl, rw (at, written, e) (adds c l s.database r (standing s e i)))
  worker_split _ _ (commits s e q) u i = (_, refl, closes c l s.database (standing s e i))
  worker_split _ _ (ends s e) u i = ([], refl, asks_nothing (standing s e i))

  steps_split :
      (s s' : Database) (st : Step s s')
      → set_up ≡ ok c
      → InParts c l (is_writing s.worker) s.database
      → (more : List SqlCall) × (step_calls s s' st ≡ ok more)
        × InParts c (l ++ more) (is_writing s'.worker) s'.database
  unfolding step_calls
  steps_split _ _ (passes_time n s) u i = ([], refl, asks_nothing i)
  steps_split _ _ (enables dump file s s' j e) u i =
      ([], refl, stays s s' (enable-Quiet dump file s s' e) i)
  steps_split _ _ (disables s s' j o f e) u i = ([], refl, stays s s' (begin_stop-Quiet s s' e) i)
  steps_split _ _ (joins s j e) u i = (
    [],
    refl,
    asks_nothing (subst (λ b. InParts c l b s.database) (returned_not_writing s.worker e) i),
  )
  steps_split _ _ (wakes_spuriously s e) u i = (_, refl, opens c l s.database (standing s e i))
  steps_split _ _ (works s s' w) u i = worker_split s s' w u i

run_parts :
    (c : List SqlCall) (h : List Record) (s : Database) (r : Reaches h s)
    → set_up ≡ ok c
    → (l : List SqlCall) × (run_calls h s r ≡ ok l) × InParts c l (is_writing s.worker) s.database
unfolding run_calls new_database calls_of
run_parts c _ _ (created trigger) u =
    ([], refl, record { parts = []; pending = []; calls_split = refl; records_split = refl })
run_parts c _ _ (steps h s s' r st) u =
    let (l, e, i) = run_parts c h s r u in
    let (more, f, i') = steps_split c l s s' st u i in (l ++ more, rw e (rw f refl), i')
run_parts c _ _ (pushes h s s' values client t property r j u done) up =
    let (l, e, i) = run_parts c h s r up in
    let q = push-Quiet values client t property s s' done in
    (l, e, rw (q.same_writing, q.same_written) i)

mapped :
    {A B : Type 0} (o : Outcome A) (f : A → B) (x : A)
    → o ≡ ok x
    → (y : B) × ((o >>= λ z. ok (f z)) ≡ ok y)
mapped o f x e = (f x, rw e refl)

set_up_made : (c : List SqlCall) × (set_up ≡ ok c)
unfolding set_up
set_up_made = let (rows, e, _, _, _) = general_rows_complete in mapped _ _ rows e

-- Whatever the two threads do, and in whatever order, as long as no call of the client faults, as a push
-- of a string or of a property out of bounds does: the texts of all calls of SQLite since the policy was
-- created are built without a fault. The calls are set-ups of the database and whole transactions, one
-- after the other, and at the end an open transaction while the worker is writing. The records that were
-- accepted are those that these transactions insert, and then those in the queue, in the order in which
-- they were pushed.
pub run_calls-InParts :
    (h : List Record) (s : Database) (r : Reaches h s)
    → (c l : List SqlCall) × (parts : List Part) × (pending : List Record) × (set_up ≡ ok c)
      × (run_calls h s r ≡ ok l)
      × (l ≡ calls_of c parts ++ open_calls (is_writing s.worker) pending)
      × (h ≡ (records_of parts ++ open_records (is_writing s.worker) pending) ++ s.records_queue)
run_calls-InParts h s r =
    let (c, u) = set_up_made in
    let (l, e, i) = run_parts c h s r u in
    (
      c,
      l,
      i.parts,
      i.pending,
      u,
      e,
      i.calls_split,
      history_kept h s r ∙ ap (λ d. d ++ s.records_queue) i.records_split,
    )
