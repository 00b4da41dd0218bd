-- ===== src/Persistency/Statements/Sessions.antt =====
-- RRegistry/src/DBPersistencyPolicy.cpp: what a run of the two threads asks of SQLite from its beginning.
pub mod Transactions
pub mod Runs
use rbase.Base.{ℕ, List, [], ◌∷◌, ◌++◌}
use rbase.Base.Outcome.{Outcome, ok, ◌>>=◌}
use rbase.Persistency.Database.{Database, Record}
use rbase.Persistency.Database.Threads.{
  Works, Step, Reaches, prepares, wakes, inserts, commits, wakes_spuriously, works, created, steps,
  pushes,
}
use rbase.Persistency.Statements.{SqlCall, begin_transaction, commit, set_up, insert_record_call}

-- The calls in a step of `run`. A database that cannot be opened is asked nothing.
unfoldable pub works_calls : (s s' : Database) → Works s s' → Outcome (List SqlCall)
works_calls _ _ (prepares s e) = set_up
works_calls _ _ (wakes s e n) = ok (begin_transaction ∷ [])
works_calls _ _ (inserts s r rest e q) = ok (insert_record_call r ∷ [])
works_calls _ _ (commits s e q) = ok (commit ∷ [])
works_calls _ _ _ = ok []

-- The calls in a step of either thread: the client makes none.
unfoldable pub step_calls : (s s' : Database) → Step s s' → Outcome (List SqlCall)
unfolding works_calls
step_calls _ _ (wakes_spuriously s e) = ok (begin_transaction ∷ [])
step_calls _ _ (works s s' w) = works_calls s s' w
step_calls _ _ _ = ok []

-- The calls since the policy was created, in order.
unfoldable pub run_calls : (h : List Record) (s : Database) → Reaches h s → Outcome (List SqlCall)
unfolding step_calls
run_calls _ _ (created trigger) = ok []
run_calls _ _ (steps h s s' r st) = do
  before ← run_calls h s r
  more ← step_calls s s' st
  ok (before ++ more)
run_calls _ _ (pushes h s s' values client t property r j u e) = run_calls h s r
