-- ===== src/Logger.antt =====
-- pans/src/Logger/Logger.cc: loggers filter records by level, format them and hand them to their
-- appenders, or to the root logger where they have none. A pointer to a logger is its place in a heap.
pub mod Manager
pub mod Delivery
pub mod Submit
pub mod Release
pub mod Flush
pub mod Client
pub mod Threads
pub mod Samples
mod Tests
use pans.Appender
use pans.Appender.{Outputs, update, Locked, unlocked, system_error}
use pans.Base.{
  ℕ, zero, suc, Bool, true, false, not, Option, none, some, List, [], ◌∷◌, ◌++◌, Bytes, codes, ltb,
  ◌==◌, if◌then◌else◌, is_empty, length,
}
use pans.Buffer.{Allocator, view, empty_buffer}
use pans.Formatter.{
  TimeLibrary, DateCache, FormatState, Flow, next, threw, aborted, format,
  formatted_record_inline_capacity,
}
use pans.Formatter.Pattern.{
  Formatter, Constructed, constructed, invalid_argument, construction_aborted, make_formatter,
}
use pans.LogLevel.{Level, to_u8}
use pans.Macros.{
  Build, Control, aborts, assert_retval, Assertion, null_formatter, null_appender,
  empty_logger_name,
}
use pans.Record.{LogRecordView}

-- `Logger::Impl`. The pointer to the root logger may be null; the pointers in `appenders_` are not,
-- since `addAppender` refuses a null pointer.
pub record LoggerImpl : Type 0 where
  pub name : Bytes
  pub level : Level
  pub formatter : Formatter
  pub appenders : List ℕ
  pub root : Option ℕ

-- The heap of loggers, what the appenders write to, the date cache of the running thread, and the
-- assertions that failed.
pub record World : Type 0 where
  pub loggers : ℕ → LoggerImpl
  pub logger_count : ℕ
  pub outputs : Outputs
  pub cache : DateCache
  pub failed : List Assertion

abbrev pub set_logger : ℕ → LoggerImpl → World → World
set_logger id impl w = record w { loggers = update w.loggers id impl }

-- What follows the link to the root logger, if there is one.
abbrev pub at_root {ℓ} : {A : Type ℓ} → Option ℕ → A → (ℕ → A) → A
at_root none otherwise again = otherwise
at_root (some root) otherwise again = again root

-- `shouldLog`, with fuel for the links to root loggers; `none` is the end of the fuel.
unfoldable pub should_log : ℕ → World → ℕ → Level → Option Bool
should_log zero w id level = none
should_log (suc fuel) w id level =
    let impl = w.loggers id in
    if ltb (to_u8 level) (to_u8 impl.level)
    then some false
    else if not (is_empty impl.appenders)
    then some true
    else at_root impl.root (some false) (λ root. should_log fuel w root level)

-- What handing in a record ends with.
pub data Submitted : Type 0 where
  submitted : World → Submitted
  submit_aborted : World → Submitted
  out_of_fuel : Submitted

abbrev pub format_failed_message : Bytes
format_failed_message = codes "pans logger : record formatting failed\n"

-- An exception leaves a loop over appenders.
abbrev pub next_appender : (Outputs → Locked) → Locked → Locked
next_appender again (unlocked o) = again o
next_appender again (system_error o) = system_error o

module _ (locks : ℕ → Bool) where
  -- The loop over `appenders_`, with one formatted record.
  unfoldable pub deliver : List ℕ → Level → Bytes → Outputs → Outputs
  deliver [] level text o = o
  deliver (appender ∷ appenders) level text o =
      deliver appenders level text (Appender.append_to locks (some appender) level text o)

  module _ {Tm : Type 0} (time : TimeLibrary Tm) (alloc : Allocator) (build : Build) where
    -- Behind `formatter_->format(record, formatted_record)`: the record is delivered, or the exception
    -- is caught and a message goes to the standard error output.
    unfoldable pub after_format : List ℕ → Level → World → Flow → Submitted
    unfolding deliver
    after_format appenders level w (next s) = submitted (record w {
      outputs = deliver appenders level (view s.output) w.outputs;
      cache = s.cache;
      failed = s.failed;
    })
    after_format appenders level w (threw s) = submitted (record w {
      outputs = record w.outputs { error_output = w.outputs.error_output ++ format_failed_message };
      cache = s.cache;
      failed = s.failed;
    })
    after_format appenders level w (aborted s) =
        submit_aborted (record w { cache = s.cache; failed = s.failed })

    -- `submit`, with fuel as for `shouldLog`. An assertion that fails in an item is noted here; the record
    -- that it logs to the root logger is what `submit_logging` of LogLine/Assertion adds.
    unfoldable pub submit : ℕ → World → ℕ → LogRecordView → Submitted
    unfolding after_format
    submit zero w id r = out_of_fuel
    submit (suc fuel) w id r =
        let impl = w.loggers id in
        if ltb (to_u8 r.level) (to_u8 impl.level)
        then submitted w
        else if is_empty impl.appenders
        then at_root impl.root (submitted w) (λ root. submit fuel w root r)
        else after_format impl.appenders r.level w (
            format time alloc build impl.formatter.items r (record {
              cache = w.cache;
              output = empty_buffer formatted_record_inline_capacity;
              failed = w.failed;
            }))

  -- `appender->flush()` for each appender.
  unfoldable pub flush_each : (ℕ → Outputs → Locked) → List ℕ → Outputs → Locked
  flush_each call [] o = unlocked o
  flush_each call (id ∷ appenders) o = next_appender (flush_each call appenders) (call id o)

  -- `flush` and `sync`, which differ in what they call on an appender.
  unfoldable pub for_appenders : (ℕ → Outputs → Locked) → ℕ → World → ℕ → Option Locked
  unfolding flush_each
  for_appenders call zero w id = none
  for_appenders call (suc fuel) w id =
      let impl = w.loggers id in
      if is_empty impl.appenders
      then at_root impl.root (some (unlocked w.outputs)) (λ root. for_appenders call fuel w root)
      else some (flush_each call impl.appenders w.outputs)

  abbrev pub flush : ℕ → World → ℕ → Option Locked
  flush = for_appenders (Appender.flush locks)

  abbrev pub sync : ℕ → World → ℕ → Option Locked
  sync = for_appenders (Appender.sync locks)

-- `setLevel`, `getLevel` and `getName`.
abbrev pub set_level : ℕ → Level → World → World
set_level id level w = set_logger id (record (w.loggers id) { level = level }) w

abbrev pub get_level : ℕ → World → Level
get_level id w = (w.loggers id).level

abbrev pub get_name : ℕ → World → Bytes
get_name id w = (w.loggers id).name

-- A call that may fail an assertion, or throw `std::invalid_argument`.
pub data Called : Type 0 where
  returned : World → Called
  threw_invalid_argument : World → Called
  call_aborted : World → Called

-- A failed ASSERT_RETNONE2 of a method.
abbrev pub assertion_failed : Build → Assertion → World → Called
assertion_failed Build.release_build which w =
    returned (record w { failed = w.failed ++ which ∷ [] })
assertion_failed Build.debug_build which w =
    call_aborted (record w { failed = w.failed ++ which ∷ [] })

-- `Logger::setFormatter`: a pattern that does not parse throws, and the formatter stays.
unfoldable pub install_formatter : ℕ → World → Constructed → Called
install_formatter id w (constructed formatter failed) =
    returned (record (set_logger id (record (w.loggers id) { formatter = formatter }) w) {
      failed = w.failed ++ failed;
    })
install_formatter id w (invalid_argument failed) =
    threw_invalid_argument (record w { failed = w.failed ++ failed })
install_formatter id w (construction_aborted failed) =
    call_aborted (record w { failed = w.failed ++ failed })

unfoldable pub set_formatter : Build → ℕ → Bytes → World → Called
unfolding install_formatter
set_formatter build id pattern_text w = install_formatter id w (make_formatter build pattern_text)

-- `getFormatterPattern`.
abbrev pub get_formatter_pattern : ℕ → World → Bytes
get_formatter_pattern id w = (w.loggers id).formatter.pattern_text

-- `addAppender`.
unfoldable pub add_appender : Build → ℕ → Option ℕ → World → Called
add_appender build id none w = assertion_failed build null_appender w
add_appender build id (some appender) w = returned (
    set_logger id (record (w.loggers id) { appenders = (w.loggers id).appenders ++ appender ∷ [] })
      w)

-- `std::erase(appenders_, appender)`: no pointer of the vector equals a null pointer.
abbrev pub erase : Option ℕ → List ℕ → List ℕ
erase appender [] = []
erase none (x ∷ xs) = x ∷ erase none xs
erase (some appender) (x ∷ xs) =
    let rest = erase (some appender) xs in if x == appender then rest else x ∷ rest

-- `removeAppender` and `clearAppenders`.
unfoldable pub remove_appender : ℕ → Option ℕ → World → World
remove_appender id appender w =
    set_logger id (record (w.loggers id) { appenders = erase appender (w.loggers id).appenders }) w

unfoldable pub clear_appenders : ℕ → World → World
clear_appenders id w = set_logger id (record (w.loggers id) { appenders = [] }) w
