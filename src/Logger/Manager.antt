-- ===== src/Logger/Manager.antt =====
-- `LoggerManager` of pans/src/Logger/Logger.cc: loggers by name, each linked to the root logger.
pub mod Names
pub mod Links
pub mod Threads
use mathlib.Core.Option
use pans.Appender.{Outputs, Made, made, make_stdout_appender}
use pans.Base.{
  ℕ, suc, Bool, true, false, Option, none, some, List, [], ◌∷◌, ◌++◌, Bytes, codes, equal,
  if◌then◌else◌, is_empty,
}
use pans.Formatter.{DateCache, empty_cache}
use pans.Formatter.Pattern.{
  Constructed, constructed, invalid_argument, construction_aborted, make_formatter,
}
use pans.LogLevel.{Level}
use pans.Logger.{LoggerImpl, World, set_logger}
use pans.Macros.{Build, Assertion, empty_logger_name}

-- `DEFAULT_LOG_PATTERN`.
abbrev pub default_log_pattern : Bytes
default_log_pattern = codes "%d{%Y-%m-%d %H:%M:%S}.%u%Tthread=%t%Tfiber=%F%T[%p]%T%f:%l%T%m%n"

-- `Logger::Impl::Impl` behind the test of the name; `none` is an exception.
unfoldable pub with_formatter : Bytes → Constructed → Option LoggerImpl
with_formatter name (constructed formatter failed) = some (record {
  name = name;
  level = Level.debug;
  formatter = formatter;
  appenders = [];
  root = none;
})
with_formatter name (invalid_argument failed) = none
with_formatter name (construction_aborted failed) = none

unfoldable pub make_logger : Build → Bytes → Option LoggerImpl
unfolding with_formatter
make_logger build name =
    if is_empty name then none else with_formatter name (make_formatter build default_log_pattern)

-- `loggers_` and `root_`, with the heaps that they point into.
pub record Manager : Type 0 where
  pub world : World
  pub entries : List (Bytes × ℕ)
  pub root : ℕ

-- `loggers_.find(name)`.
abbrev pub find : Bytes → List (Bytes × ℕ) → Option ℕ
find name [] = none
find name ((other, id) ∷ entries) = if equal other name then some id else find name entries

-- `LoggerManager()`, with the standard output appender that it makes for the root logger.
abbrev pub root_name : Bytes
root_name = codes "root"

unfoldable pub with_root : Option LoggerImpl → Made → Option Manager
with_root (some impl) (made appender outputs) = some (record {
  world = record {
    loggers = λ _. record impl { appenders = appender ∷ [] };
    logger_count = 1;
    outputs = outputs;
    cache = empty_cache;
    failed = [];
  };
  entries = (root_name, 0) ∷ [];
  root = 0;
})
with_root _ _ = none

unfoldable pub make_manager : Build → Outputs → Option Manager
unfolding with_root
make_manager build o = with_root (make_logger build root_name) (make_stdout_appender o)

-- What `getLogger` ends with: a pointer, which may be null, or an exception, or an abort.
pub data Got : Type 0 where
  got : Option ℕ → Manager → Got
  got_exception : Manager → Got
  got_aborted : Manager → Got

-- ASSERT_RETVAL2 on an empty name.
abbrev pub no_name : Build → Manager → Got
no_name Build.release_build m =
    got none
      (record m { world = record m.world { failed = m.world.failed ++ empty_logger_name ∷ [] } })
no_name Build.debug_build m =
    got_aborted
      (record m { world = record m.world { failed = m.world.failed ++ empty_logger_name ∷ [] } })

-- `LoggerAccess::SetRoot`.
abbrev pub set_root : ℕ → LoggerImpl → LoggerImpl
set_root root impl = record impl { root = some root }

-- A new logger takes the next place of the heap, is linked to the root logger, and enters the map.
abbrev pub register : Bytes → LoggerImpl → Manager → Manager
register name impl m = record m {
  world = record (set_logger m.world.logger_count (set_root m.root impl) m.world) {
    logger_count = suc m.world.logger_count;
  };
  entries = (name, m.world.logger_count) ∷ m.entries;
}

unfoldable pub create_logger : Bytes → Option LoggerImpl → Manager → Got
create_logger name none m = got_exception m
create_logger name (some impl) m = got (some m.world.logger_count) (register name impl m)

unfoldable pub found_or_created : Build → Bytes → Option ℕ → Manager → Got
unfolding create_logger
found_or_created build name (some id) m = got (some id) m
found_or_created build name none m = create_logger name (make_logger build name) m

-- `getLogger`.
unfoldable pub get_logger : Build → Bytes → Manager → Got
unfolding found_or_created
get_logger build name m =
    if is_empty name then no_name build m else found_or_created build name (find name m.entries) m

-- `getRoot`.
abbrev pub get_root : Manager → ℕ
get_root m = m.root
