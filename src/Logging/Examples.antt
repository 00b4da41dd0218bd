-- ===== src/Logging/Examples.antt =====
-- A log file and the console.
use rbase.Base.{◌≡◌, refl, Bool, true, false, not, []}
use rbase.Base.Outcome.{ok}
use rbase.Base.Text.{codes}
use rbase.Logging.{Location, Core, Throws, init_core, format, console_sink, warning, severity_tag}
use rbase.Logging.Lines.{Logs, asked, init_core-Logs}

abbrev place : Location
place = record {
  file = codes "main.cpp";
  function = codes "main";
  line = 12;
  timestamp = codes "now";
}

abbrev fresh : Core
fresh = record { initialised = false; attributes = false; sinks = []; written = [] }

abbrev no_console : Throws
no_console = record { attributes = false; file_log = false; console_log = true }

init_core-Logs_example :
    (core' : Core) × (thrown : Bool) × (init_core no_console place (codes "logs") true true fresh
      ≡ ok (core', thrown))
    × (thrown ≡ true)
    × (core'.initialised ≡ not thrown)
    × (thrown ≡ false → Logs core' × (core'.sinks ≡ asked (codes "logs") true true))
init_core-Logs_example = init_core-Logs place (codes "logs") fresh no_console true true

warning_line : format console_sink place warning (codes "low") ≡ codes "[now] [WARN] low"
unfolding format severity_tag
warning_line = refl
