-- ===== src/Logger/Client.antt =====
-- The public methods of `Logger` (pans/src/Logger/Logger.cc) as a client calls them: on the
-- logger that `GetLogger` gives for a name.
pub mod Spec
pub mod Records
pub mod Method
pub mod After
pub mod Ends
pub mod Refinement
pub mod Query
pub mod Start
pub mod Session
pub mod Output
pub mod Written
pub mod Logging
mod Tests
use pans.Appender.{Locked, unlocked, system_error}
use pans.Base.{ℕ, suc, length, Bool, Option, none, some, List, [], ◌∷◌, Bytes}
use pans.Buffer.{Allocator}
use pans.Formatter.{TimeLibrary}
use pans.Formatter.Pattern.{
  Constructed, constructed, invalid_argument, construction_aborted, make_formatter,
}
use pans.LogLevel.{Level, fatal}
use pans.LogLine.Assertion.{Site, assert_record, log_if_root, submit_logging}
use pans.Logger.{
  World, Submitted, submitted, submit_aborted, out_of_fuel, should_log, flush, sync, Called,
  returned, threw_invalid_argument, call_aborted, set_level, set_formatter, add_appender,
  remove_appender, clear_appenders,
}
use pans.Logger.Manager.{Manager, Got, got, get_logger}
use pans.Macros.{Build, Assertion, null_appender}
use pans.Record.{LogRecordView}

pub data Call : Type 0 where
  set_level_to : Level → Call
  set_pattern : Bytes → Call
  add : Option ℕ → Call
  remove : Option ℕ → Call
  clear : Call
  flush_all : Call
  sync_all : Call
  log : LogRecordView → Call

-- The world after a method. A client goes on behind an exception; `none` is an abort, or the end of the
-- fuel, which is for the two loggers of a record and one more for that of a failed assertion.
abbrev pub after_called : Called → Option World
after_called (returned w) = some w
after_called (threw_invalid_argument w) = some w
after_called (call_aborted w) = none

abbrev pub after_locked : World → Option Locked → Option World
after_locked w none = none
after_locked w (some (unlocked o)) = some (record w { outputs = o })
after_locked w (some (system_error o)) = some (record w { outputs = o })

abbrev pub after_submit : Submitted → Option World
after_submit (submitted w) = some w
after_submit (submit_aborted w) = none
after_submit out_of_fuel = none

abbrev pub with_world : Manager → Option World → Option Manager
with_world m none = none
with_world m (some w) = some (record m { world = w })

abbrev pub and_go_on : (Manager → Option Manager) → Option Manager → Option Manager
and_go_on again none = none
and_go_on again (some m) = again m

abbrev pub and_then : (World → Option World) → Option World → Option World
and_then again none = none
and_then again (some w) = again w

-- The assertions that fail in the constructor of a formatter.
abbrev pub failed_of : Constructed → List Assertion
failed_of (constructed formatter failed) = failed
failed_of (invalid_argument failed) = failed
failed_of (construction_aborted failed) = failed

-- `site` is what failed assertions find: those of formatting by the depth of their `submit`, below 3, the
-- others from 3 on in their order. `root` is the root logger.
module _ (locks : ℕ → Bool) {Tm : Type 0} (time : TimeLibrary Tm) (alloc : Allocator)
    (build : Build) (site : ℕ → Assertion → Site) (root : ℕ) where
  -- `LoggerAccess::Submit`: a record, the root logger, and the record of a failed assertion.
  abbrev pub submit_record : World → ℕ → LogRecordView → Submitted
  submit_record w id r = submit_logging locks time alloc build site root 3 w id r

  -- The record of a failed assertion outside of formatting.
  abbrev pub log_failed : ℕ → Assertion → World → Submitted
  log_failed place which w =
      log_if_root locks time alloc build site root
        (λ w'. submit_record w' root (assert_record alloc root which (site place which) w')) w
        (should_log 2 w root fatal)

  -- Those of several, one after the other.
  unfoldable pub log_all : ℕ → List Assertion → World → Option World
  log_all place [] w = some w
  log_all place (which ∷ later) w =
      and_then (log_all (suc place) later) (after_submit (log_failed place which w))

  -- `Logger::setLevel`, `setFormatter`, `addAppender`, `removeAppender`, `clearAppenders`, `flush` and
  -- `sync`, and `LoggerAccess::Submit`. A failed assertion is logged to the root logger, before the
  -- formatter is installed or the exception is thrown.
  unfoldable pub perform : Call → ℕ → World → Option World
  unfolding log_all
  perform (set_level_to level) id w = some (set_level id level w)
  perform (set_pattern pattern_text) id w =
      and_then (λ w'. after_called (set_formatter build id pattern_text w'))
        (log_all 3 (failed_of (make_formatter build pattern_text)) w)
  perform (add none) id w =
      and_then (λ w'. after_called (add_appender build id none w'))
        (log_all 3 (null_appender ∷ []) w)
  perform (add (some appender)) id w = after_called (add_appender build id (some appender) w)
  perform (remove appender) id w = some (remove_appender id appender w)
  perform clear id w = some (clear_appenders id w)
  perform flush_all id w = after_locked w (flush locks 2 w id)
  perform sync_all id w = after_locked w (sync locks 2 w id)
  perform (log r) id w = after_submit (submit_record w id r)

module _ (locks : ℕ → Bool) {Tm : Type 0} (time : TimeLibrary Tm) (alloc : Allocator)
    (build : Build) where
  -- The method on what `getLogger` ends with; a client has no use for a null pointer.
  unfoldable pub call_on : (ℕ → Assertion → Site) → Call → Got → Option Manager
  unfolding perform
  call_on site call (got (some id) m) =
      with_world m (perform locks time alloc build site m.root call id m.world)
  call_on site call _ = none

  -- `GetLogger(name)->method(...)`, any number of times; `sites` is by the number of calls to come.
  unfoldable pub run : (ℕ → ℕ → Assertion → Site) → List (Bytes × Call) → Manager → Option Manager
  unfolding call_on
  run sites [] m = some m
  run sites ((name, call) ∷ calls) m =
      and_go_on (run sites calls) (call_on (sites (length calls)) call (get_logger build name m))
