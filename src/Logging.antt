-- ===== src/Logging.antt =====
-- RUtil/src/Logging.cpp and RUtil/include/RUtil/Logging.hpp: the set-up of boost.log and the formats of the
-- lines. A text is the list of its character codes. Whether a call of boost throws is an argument of `init`.
pub mod Lines
mod Examples
use rbase.Base.{
  ℕ, Bool, true, false, not, none, some, List, [], ◌∷◌, ◌++◌, map, get_elem?, if◌then◌else◌,
}
use rbase.Base.Text.{codes, to_string}
use rbase.Base.Outcome.{Outcome, ok, fault, assertion, dangling, ◌>>=◌}

-- `Logging::Severity`, and its numbers.
pub data Severity : Type 0 where
  trace debug info warning alert error failure fatal : Severity

abbrev pub severity_num : Severity → ℕ
severity_num trace = 0
severity_num debug = 1
severity_num info = 2
severity_num warning = 3
severity_num alert = 4
severity_num error = 5
severity_num failure = 6
severity_num fatal = 7

abbrev pub strings : List (List ℕ)
strings =
    codes "Trace"
    ∷ codes "Debug"
    ∷ codes "Info"
    ∷ codes "Warning"
    ∷ codes "Alert"
    ∷ codes "Error"
    ∷ codes "Failure"
    ∷ codes "Fatal"
    ∷ []

abbrev pub uncolorised_strings : List (List ℕ)
uncolorised_strings =
    codes "TRCE"
    ∷ codes "DEBG"
    ∷ codes "INFO"
    ∷ codes "WARN"
    ∷ codes "ALRT"
    ∷ codes "ERRR"
    ∷ codes "FAIL"
    ∷ codes "FTAL"
    ∷ []

-- The table's string, or the number where the level lies beyond the table.
abbrev pub string_or_number : List (List ℕ) → ℕ → List ℕ
string_or_number table level = elim (get_elem? table level) [ none ↦ to_string level | some s ↦ s ]

-- `operator<<` for a `std::ostream`.
unfoldable pub severity_name : ℕ → List ℕ
severity_name level = string_or_number strings level

-- `operator<<` for the console's format: `strings` points to the uncolorised ones from the start, so
-- that the branch which asks for the terminal is never taken.
unfoldable pub severity_tag : ℕ → List ℕ
severity_tag level = string_or_number uncolorised_strings level

-- Where a record is written to.
pub data Sink : Type 0 where
  file_sink : List ℕ → Sink
  console_sink : Sink

-- The place and the time of a record.
pub record Location : Type 0 where
  pub file : List ℕ
  pub function : List ℕ
  pub line : ℕ
  pub timestamp : List ℕ

-- The static members, and the core of boost.log: whether `init` has added the global attributes, the
-- sinks, and what was written to them.
pub record Core : Type 0 where
  pub initialised : Bool
  pub attributes : Bool
  pub sinks : List Sink
  pub written : List (Sink × List ℕ)

-- The members of a `Logging`.
pub record Logging : Type 0 where
  pub log_dir : List ℕ
  pub main_log_path : List ℕ
  pub file_out : Bool
  pub console_out : Bool

-- The constructor.
pub new_logging : Logging
new_logging = record {
  log_dir = [];
  main_log_path = codes "rmaster.log";
  file_out = true;
  console_out = true;
}

pub set_console_out : Bool → Logging → Logging
set_console_out enabled l = record l { console_out = enabled }

-- The two formats.
pub format : Sink → Location → Severity → List ℕ → List ℕ
unfolding severity_name severity_tag
format (file_sink path) at level message =
    codes "["
    ++ at.timestamp
    ++ codes "] ["
    ++ severity_name (severity_num level)
    ++ codes "] ("
    ++ at.file
    ++ codes ":"
    ++ to_string at.line
    ++ codes ") ("
    ++ at.function
    ++ codes "): "
    ++ message
format console_sink at level message =
    codes "["
    ++ at.timestamp
    ++ codes "] ["
    ++ severity_tag (severity_num level)
    ++ codes "] "
    ++ message

-- `mainLogger` and `rcommLogger`.
unfoldable pub logger : Core → Outcome (Unit {0})
logger core = if core.initialised then ok tt else fault assertion

-- `LRT_SEV_LOG`: the location is written to attributes that `init` adds, then the record goes to every
-- sink.
pub sev_log : Location → Severity → List ℕ → Core → Outcome Core
unfolding logger format
sev_log at level message core =
    if not core.attributes
    then fault dangling
    else logger core >>= λ _. ok (record core {
      written = core.written ++ map (λ s. (s, format s at level message)) core.sinks;
    })

-- Which of the calls of boost in `init` throw.
pub record Throws : Type 0 where
  pub attributes : Bool
  pub file_log : Bool
  pub console_log : Bool

-- A step that may throw: then the rest is not done.
abbrev pub attempt : Bool → Core → (Core → Outcome (Core × Bool)) → Core → Outcome (Core × Bool)
attempt true new rest old = ok (old, true)
attempt false new rest old = rest new

-- The first and the last part of `init`.
pub add_attributes : Core → Core
add_attributes core = record core { attributes = true }

pub add_sink : Sink → Core → Core
add_sink s core = record core { sinks = core.sinks ++ s ∷ [] }

pub finish_init : Bool → Location → Core → Outcome (Core × Bool)
unfolding sev_log
finish_init console_out at core =
    let core' = record core { initialised = true } in
    if console_out
    then (do c ← sev_log at debug (codes "Initialized Logging.") core'; ok (c, false))
    else ok (core', false)

-- A sink, if it is asked for.
pub optional_sink :
    Bool → Sink → Bool → (Core → Outcome (Core × Bool)) → Core → Outcome (Core × Bool)
unfolding add_sink
optional_sink wanted s throws rest core =
    if wanted then attempt throws (add_sink s core) rest core else rest core

-- The path of the log file.
pub log_path : List ℕ → List ℕ
log_path dir = dir ++ codes "/rmaster.log"

-- `init` over the core, with whether it has thrown.
pub init_core : Throws → Location → List ℕ → Bool → Bool → Core → Outcome (Core × Bool)
unfolding add_attributes optional_sink finish_init log_path
init_core throws at dir file_out console_out core =
    attempt throws.attributes (add_attributes core)
      (optional_sink file_out (file_sink (log_path dir)) throws.file_log
        (optional_sink console_out console_sink throws.console_log (finish_init console_out at)))
      core

-- `init` over the members.
pub init_members : List ℕ → Bool → Bool → Logging → Logging
unfolding log_path
init_members dir file_out console_out l = record {
  log_dir = dir;
  main_log_path = log_path dir;
  file_out = file_out;
  console_out = console_out;
}
