-- ===== src/Persistency/Statements.antt =====
-- RRegistry/src/DBPersistencyPolicy.cpp: what the worker asks of SQLite, as a list of calls. A text is the
-- list of its character codes. What SQLite does with a call, and whether it succeeds, is not modelled.
pub mod Keys
pub mod Rows
pub mod Values
pub mod Sessions
mod Examples
use rbase.Base.{
  ℕ, zero, suc, ◌+◌, ◌-◌, ◌^◌, Bool, true, false, Option, none, some, List, [], ◌∷◌, ◌++◌, map, ltb,
  if◌then◌else◌,
}
use rbase.Base.Int.{ℤ, pos, negsuc}
use rbase.Base.Outcome.{◌>>=◌, Outcome, ok, or_fault, out_of_bounds}
use rbase.Base.Text.{codes, to_string}
use rbase.Entries.{EntryType, int64, uint32, uint64, string, type_num, all_types, entry_count}
use rbase.Value.{Value, integer, float_bits, double_bits, truth}
use rbase.Detail.Types.{get_type_detail}
use rbase.Detail.Names.{get_name_of_entry_class}
use rbase.Registry
use rbase.Registry.{World}
use rbase.Persistency.Database.{Record}

-- The calls `sqlite3_bind_int`, `sqlite3_bind_int64`, `sqlite3_bind_double` and `sqlite3_bind_text`. The
-- argument of the third is the number that a `float` or `double` stands for; the conversion of a `float`
-- to `double` keeps that number.
pub data Parameter : Type 0 where
  bind_int bind_int64 : ℤ → Parameter
  bind_double : Value → Parameter
  bind_text : List ℕ → Parameter

-- The conversion of a `uint64_t` to `sqlite3_int64`.
unfoldable pub to_int64 : ℤ → ℤ
to_int64 (negsuc n) = negsuc n
to_int64 (pos n) = if ltb n (2 ^ 63) then pos n else negsuc (2 ^ 64 - 1 - n)

abbrev pub to_int : Bool → ℤ
to_int true = pos 1
to_int false = pos 0

-- The `switch` of `setNthParamFromRecord` and of `setNthParamFromRegistry`: what is bound to the value,
-- which is nothing for a string.
unfoldable pub value_parameter : EntryType → Value → Option Parameter
unfolding to_int64
value_parameter int64 (integer z) = some (bind_int64 z)
value_parameter uint32 (integer z) = some (bind_int64 z)
value_parameter uint64 (integer z) = some (bind_int64 (to_int64 z))
value_parameter string v = none
value_parameter t (integer z) = some (bind_int z)
value_parameter t (truth b) = some (bind_int (to_int b))
value_parameter t (float_bits b) = some (bind_double (float_bits b))
value_parameter t (double_bits b) = some (bind_double (double_bits b))
value_parameter t v = none

-- `setNthParamFromRecord`.
pub set_nth_param_from_record : Record → Option Parameter
unfolding value_parameter
set_nth_param_from_record r = value_parameter r.registry_type r.value

-- `setNthParamFromRegistry`, which reads the registry itself.
pub set_nth_param_from_registry :
    {B S : Type 0} → EntryType → ℕ → World B S → Outcome (Option Parameter)
unfolding value_parameter
set_nth_param_from_registry string property w = ok none
set_nth_param_from_registry t property w = do
  v ← Registry.get w t property
  ok (value_parameter t v)

-- The calls of SQLite: a statement that is executed at once, one that is prepared, and one step of a
-- prepared statement with the parameters that were bound since it was reset.
pub data SqlCall : Type 0 where
  exec : List ℕ → SqlCall
  prepare : List ℕ → SqlCall
  step : List ℕ → List (ℕ × Parameter) → SqlCall

-- `GetTypeDetail(type).name` and `.sqlType`.
abbrev pub type_name : EntryType → List ℕ
type_name t = elim (get_type_detail t) [ none ↦ [] | some d ↦ codes d.name ]

abbrev pub sql_type : EntryType → List ℕ
sql_type t = elim (get_type_detail t) [ none ↦ [] | some d ↦ codes d.sql_type ]

pub create_general : List ℕ
create_general = codes "CREATE TABLE IF NOT EXISTS general (key TEXT PRIMARY KEY, value TEXT)"

pub create_set : EntryType → List ℕ
create_set t =
    codes "CREATE TABLE IF NOT EXISTS sets"
    ++ type_name t
    ++ codes " ( clientId INTEGER, property INTEGER,  timestamp BIGINT, value "
    ++ sql_type t
    ++ codes ");"

pub insert_set : EntryType → List ℕ
insert_set t =
    codes "INSERT INTO sets"
    ++ type_name t
    ++ codes " (clientId, property, timestamp, value) VALUES (?1, ?2, ?3, ?4);"

pub insert_general : List ℕ
insert_general = codes "INSERT INTO general (key, value) VALUES (?1, ?2)"

abbrev pub begin_statement : List ℕ
begin_statement = codes "BEGIN TRANSACTION;"

abbrev pub commit_statement : List ℕ
commit_statement = codes "COMMIT;"

-- `beginTransaction` and `commit`.
abbrev pub begin_transaction : SqlCall
begin_transaction = step begin_statement []

abbrev pub commit : SqlCall
commit = step commit_statement []

-- The key of an entry: "Type::NAME". A name out of the table's bounds is a fault.
unfoldable pub general_key : EntryType → ℕ → Outcome (List ℕ)
general_key t property = do
  name ← or_fault (get_name_of_entry_class (type_num t) property) out_of_bounds
  ok (type_name t ++ b':' ∷ b':' ∷ codes name)

-- The body of the loops over all entries.
pub general_row : EntryType → ℕ → Outcome SqlCall
unfolding general_key to_string
general_row t property = do
  key ← general_key t property
  ok (step insert_general ((1, bind_text key) ∷ (2, bind_text (to_string property)) ∷ []))

-- The inner loop, with the rounds that are left.
pub general_rows_of : EntryType → ℕ → ℕ → Outcome (List SqlCall)
unfolding general_row
general_rows_of t zero property = ok []
general_rows_of t (suc n) property = do
  row ← general_row t property
  rest ← general_rows_of t n (suc property)
  ok (row ∷ rest)

-- The outer loop.
pub general_rows : List EntryType → Outcome (List SqlCall)
unfolding general_rows_of
general_rows [] = ok []
general_rows (t ∷ ts) = do
  rows ← general_rows_of t (entry_count t) 0
  rest ← general_rows ts
  ok (rows ++ rest)

-- What `run` does with an open database before its loop.
pub set_up : Outcome (List SqlCall)
unfolding general_rows
set_up = do
  rows ← general_rows all_types
  ok (
      exec create_general ∷ map (λ t. exec (create_set t)) all_types
      ++ map (λ t. prepare (insert_set t)) all_types
      ++ prepare begin_statement
        ∷ prepare commit_statement
        ∷ prepare insert_general
        ∷ begin_transaction
        ∷ rows
      ++ commit ∷ [])

abbrev pub parameter_4 : Option Parameter → List (ℕ × Parameter)
parameter_4 none = []
parameter_4 (some v) = (4, v) ∷ []

-- `insertRecord`, with the time in nanoseconds. A string leaves the fourth parameter as it is.
pub insert_record_call : Record → SqlCall
unfolding set_nth_param_from_record
insert_record_call r = step (insert_set r.registry_type) (
    (1, bind_int (pos r.client_id))
    ∷ (2, bind_int (pos r.property))
    ∷ (3, bind_int64 (pos r.time_since_start))
    ∷ parameter_4 (set_nth_param_from_record r))

-- One round of the loop of `run`, over the records of the queue.
pub round_calls : List Record → List SqlCall
unfolding insert_record_call
round_calls rs = begin_transaction ∷ map insert_record_call rs ++ commit ∷ []
