-- ===== src/Logging/Lines.antt =====
-- When lines can be logged, and where they go.
use rbase.Base.{
  ℕ, ◌≡◌, refl, sym, Bool, true, false, not, ◌&&◌, ◌||◌, List, [], ◌∷◌, ◌++◌, map, if◌then◌else◌,
  arith,
}
use mathlib.Core.List.{append-nil, append_assoc}
use rbase.Base.Outcome.{ok}
use rbase.Logging.{
  Severity, Sink, file_sink, console_sink, Location, Core, Throws, format, logger, sev_log,
  add_attributes, add_sink, finish_init, optional_sink, log_path, init_core,
}

-- The sinks that `init` is asked for.
abbrev pub asked : List ℕ → Bool → Bool → List Sink
asked dir file_out console_out =
    (if file_out then file_sink (log_path dir) ∷ [] else [])
    ++ (if console_out then console_sink ∷ [] else [])

-- A record reaches every sink once, in its own format.
abbrev pub Logs : Core → Type 0
Logs core =
    (at : Location) (level : Severity) (message : List ℕ)
    → sev_log at level message core
      ≡ ok (record core {
        written = core.written ++ map (λ s. (s, format s at level message)) core.sinks;
      })

module _ (at : Location) (dir : List ℕ) (core : Core) where
  abbrev Ends : Bool → Bool → Bool → Bool → Bool → Type 0
  Ends a f c file_out console_out =
      (core' : Core) × (thrown : Bool) × (init_core
          (record { attributes = a; file_log = f; console_log = c }) at dir file_out console_out
          core
        ≡ ok (core', thrown))
      × (thrown ≡ (a || (file_out && f) || (console_out && c)))
      × (core'.initialised ≡ (core.initialised || not thrown))
      × (thrown ≡ false → Logs core' × (core'.sinks ≡ core.sinks ++ asked dir file_out console_out))

  ends : (a f c file_out console_out : Bool) → Ends a f c file_out console_out
  unfolding init_core optional_sink add_sink add_attributes finish_init sev_log logger
  ends true f c file_out console_out = (core, true, refl, refl, ground arith, λ e. cc)
  ends false f c false false = (
    record core { initialised = true; attributes = true },
    false,
    refl,
    refl,
    ground arith,
    λ e. (λ at' level message. refl, sym (append-nil core.sinks)),
  )
  ends false f true false true =
      (record core { attributes = true }, true, refl, refl, ground arith, λ e. cc)
  ends false f false false true =
      (_, false, refl, refl, ground arith, λ e. (λ at' level message. refl, refl))
  ends false true c true console_out =
      (record core { attributes = true }, true, refl, refl, ground arith, λ e. cc)
  ends false false c true false =
      (_, false, refl, refl, ground arith, λ e. (λ at' level message. refl, refl))
  ends false false true true true = (_, true, refl, refl, ground arith, λ e. cc)
  ends false false false true true = (
    _,
    false,
    refl,
    refl,
    ground arith,
    λ e. (
      λ at' level message. refl,
      append_assoc core.sinks (file_sink (log_path dir) ∷ []) (console_sink ∷ []),
    ),
  )

  -- `init` ends, whatever throws; it throws exactly if a call of boost does that it makes, and then
  -- leaves `m_initialised` as it was. If nothing throws, the sinks are the old ones, the log file and
  -- the console, each if it is asked for, and from then on every record reaches each sink once, in the
  -- sink's own format.
  pub init_core-Logs :
      (throws : Throws) (file_out console_out : Bool)
      → (core' : Core) × (thrown : Bool) × (init_core throws at dir file_out console_out core
          ≡ ok (core', thrown))
        × (thrown ≡ (
            throws.attributes
            || (file_out && throws.file_log)
            || (console_out && throws.console_log)))
        × (core'.initialised ≡ (core.initialised || not thrown))
        × (thrown ≡ false
            → Logs core' × (core'.sinks ≡ core.sinks ++ asked dir file_out console_out))
  init_core-Logs throws file_out console_out =
      ends throws.attributes throws.file_log throws.console_log file_out console_out
