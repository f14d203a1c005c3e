-- ===== src/Logger/Client/Spec.antt =====
-- What a client of the loggers (pans/src/Logger/Logger.cc) can set and see: a configuration for each
-- name.
use mathlib.Core.Option
use pans.Base.{
  ℕ, Bool, true, false, Option, none, some, List, [], ◌∷◌, ◌++◌, Bytes, equal, if◌then◌else◌,
}
use pans.Formatter.Pattern.{Constructed, constructed, make_formatter}
use pans.LogLevel.{Level}
use pans.Logger.{LoggerImpl, erase}
use pans.Logger.Client.{Call, set_level_to, set_pattern, add, remove, clear}
use pans.Logger.Manager.{Manager, find, default_log_pattern}
use pans.Macros.{Build}

-- What a client can set of a logger.
pub record Config : Type 0 where
  pub level : Level
  pub pattern_text : Bytes
  pub appenders : List ℕ

abbrev pub default_config : Config
default_config = record { level = Level.debug; pattern_text = default_log_pattern; appenders = [] }

abbrev pub is_accepted : Constructed → Bool
is_accepted (constructed formatter failed) = true
is_accepted _ = false

-- The calls on a configuration: a pattern that does not parse, a null appender, a record that is logged
-- and the two that empty buffers change nothing.
abbrev pub apply : Call → Config → Config
apply (set_level_to level) c = record c { level = level }
apply (set_pattern pattern_text) c =
    if is_accepted (make_formatter Build.release_build pattern_text)
    then record c { pattern_text = pattern_text }
    else c
apply (add none) c = c
apply (add (some appender)) c = record c { appenders = c.appenders ++ appender ∷ [] }
apply (remove appender) c = record c { appenders = erase appender c.appenders }
apply clear c = record c { appenders = [] }
apply _ c = c

abbrev pub or_default : Option Config → Config
or_default none = default_config
or_default (some c) = c

abbrev pub assign : Bytes → Config → (Bytes → Option Config) → Bytes → Option Config
assign name c f other = if equal name other then some c else f other

-- The calls on a function from names to configurations; a name that is new starts with the default.
abbrev pub replay : List (Bytes × Call) → (Bytes → Option Config) → Bytes → Option Config
replay [] f = f
replay ((name, call) ∷ calls) f = replay calls (assign name (apply call (or_default (f name))) f)

abbrev pub config_of : LoggerImpl → Config
config_of impl = record {
  level = impl.level;
  pattern_text = impl.formatter.pattern_text;
  appenders = impl.appenders;
}

-- The configurations behind the map and the heap.
abbrev pub configs : Manager → Bytes → Option Config
configs m name = Option.map (λ id. config_of (m.world.loggers id)) (find name m.entries)
