-- ===== src/LogLine/Assertion.antt =====
-- The record that a failed assertion logs to the root logger (pans/include/pans/macros.h), where it
-- fails while a record is formatted (pans/src/Logger/formatter.cc) on its way through
-- `Logger::Impl::submit` (pans/src/Logger/Logger.cc).
pub mod Records
pub mod Recursion
pub mod Quiet
pub mod Ending
pub mod Ends
pub mod Keeping
pub mod Samples
mod Tests
use pans.Appender.{Outputs}
use pans.Base.{
  ℕ, zero, suc, Bool, true, false, Option, none, some, List, [], ◌∷◌, ◌++◌, Bytes, codes, ltb,
  if◌then◌else◌, is_empty,
}
use pans.Buffer.{Allocator, InlineBuffer, view, empty_buffer}
use pans.Formatter.{
  TimeLibrary, FormatItem, FormatState, Flow, next, threw, aborted, format_item,
  formatted_record_inline_capacity,
}
use pans.LogLevel.{Level, fatal, to_u8}
use pans.LogLine.{Origin, make_log_line, get_record, put_texts}
use pans.Logger.{
  World, Submitted, submitted, submit_aborted, out_of_fuel, should_log, at_root, deliver,
  format_failed_message,
}
use pans.Macros.{
  Build, Assertion, trans_to_chars_failed, local_time_failed, date_format_failed,
  incomplete_directive, missing_close_brace, null_format_item, unknown_directive, null_formatter,
  null_appender, empty_logger_name,
}
use pans.Record.{LogRecordView}

-- `#x`, the condition as it is written.
abbrev pub condition : Assertion → Bytes
condition trans_to_chars_failed = codes "result.ec == std::errc()"
condition local_time_failed = codes "result != nullptr"
condition date_format_failed = codes "size != 0"
condition incomplete_directive = codes "index + 1 < pattern_.size()"
condition missing_close_brace =
    codes "closing_brace != std::string::npos && closing_brace != (index + 2)"
condition null_format_item = codes "item != nullptr"
condition (unknown_directive c) = codes "it != factories.end()"
condition null_formatter = codes "formatter != nullptr"
condition null_appender = codes "appender != nullptr"
condition empty_logger_name = codes "!name.empty()"

-- `w`, the operands of the second argument; `value` is the number that was not converted.
abbrev pub info : Assertion → Bytes → List Bytes
info trans_to_chars_failed value = codes "trans " ∷ value ∷ codes "to chars failed" ∷ []
info local_time_failed value = codes "failed to convert log time to local time" ∷ []
info date_format_failed value = codes "failed to format log time" ∷ []
info incomplete_directive value =
    codes "logger format pattern ends with an incomplete directive" ∷ []
info missing_close_brace value = codes "missing a close brace or empty" ∷ []
info null_format_item value = codes "logger formatter contains a null format item" ∷ []
info (unknown_directive c) value = codes "unknown logger format directive: " ∷ (c ∷ []) ∷ []
info null_formatter value = codes "logger formatter cannot be null" ∷ []
info null_appender value = codes "logger appender cannot be null" ∷ []
info empty_logger_name value = codes "logger name cannot be empty" ∷ []

-- What the macro finds where it is used: the clocks and the thread, `__LINE__` and `__FILE__`, the text
-- of a number, and the result of `GetBacktrace`.
pub record Site : Type 0 where
  pub origin : Origin
  pub line : ℕ
  pub file_name : Bytes
  pub value : Bytes
  pub backtrace : Bytes

-- The operands that PANS_ASSERT2 writes to the stream of its line.
abbrev pub operands : Assertion → Site → List Bytes
operands which site =
    codes "Assert "
    ∷ condition which
    ∷ codes " failed. ["
    ∷ (info which site.value ++ codes "].\nStacktrace:\n" ∷ site.backtrace ∷ [])

-- The record of that line, which is one for the root logger.
abbrev pub assert_record : Allocator → ℕ → Assertion → Site → World → LogRecordView
assert_record alloc root which site w = get_record w (
    put_texts alloc (operands which site)
      (make_log_line site.origin root fatal site.line site.file_name))

-- The assertion behind those that failed before.
abbrev pub new_assertion : List Assertion → List Assertion → Option Assertion
new_assertion [] [] = none
new_assertion [] (which ∷ _) = some which
new_assertion (_ ∷ _) [] = none
new_assertion (_ ∷ before) (_ ∷ after) = new_assertion before after

-- What formatting ends with, with the world.
pub data Formatted : Type 0 where
  formatted : World → InlineBuffer → Formatted
  format_threw : World → Formatted
  format_aborted : World → Formatted
  format_out_of_fuel : Formatted

-- The thread's cache and the assertions go from an item back to the world.
abbrev pub take_back : World → FormatState → World
take_back w s = record w { cache = s.cache; failed = s.failed }

-- Behind the record of a failed assertion, in a release and in a debug build.
abbrev pub and_continue : (World → Formatted) → Submitted → Formatted
and_continue again (submitted w) = again w
and_continue again (submit_aborted w) = format_aborted w
and_continue again out_of_fuel = format_out_of_fuel

-- An item that fails an assertion logs it at once, and ends.
abbrev pub log_new :
    (Assertion → World → Submitted) → (World → Formatted) → World → Option Assertion → Formatted
log_new log again w none = again w
log_new log again w (some which) = and_continue again (log which w)

-- What follows an item.
abbrev pub after_item :
    (Assertion → World → Submitted) → (World → InlineBuffer → Formatted) → World → Flow → Formatted
after_item log again w (next s) =
    log_new log (λ w'. again w' s.output) (take_back w s) (new_assertion w.failed s.failed)
after_item log again w (threw s) = format_threw (take_back w s)
after_item log again w (aborted s) =
    log_new log format_aborted (take_back w s) (new_assertion w.failed s.failed)

module _ (locks : ℕ → Bool) {Tm : Type 0} (time : TimeLibrary Tm) (alloc : Allocator)
    (build : Build) (site : ℕ → Assertion → Site) (root : ℕ) where
  -- `Formatter::format`, by what a failed assertion does.
  unfoldable pub format_logging :
      (Assertion → World → Submitted)
      → List FormatItem
      → LogRecordView
      → World
      → InlineBuffer
      → Formatted
  format_logging log [] r w output = formatted w output
  format_logging log (item ∷ items) r w output = after_item log (format_logging log items r) w (
      format_item time alloc build item r
        (record { cache = w.cache; output = output; failed = w.failed }))

  -- Behind the formatting in `submit`.
  unfoldable pub after_formatted : List ℕ → Level → Formatted → Submitted
  after_formatted appenders level (formatted w b) =
      submitted (record w { outputs = deliver locks appenders level (view b) w.outputs })
  after_formatted appenders level (format_threw w) = submitted (record w {
    outputs = record w.outputs { error_output = w.outputs.error_output ++ format_failed_message };
  })
  after_formatted appenders level (format_aborted w) = submit_aborted w
  after_formatted appenders level format_out_of_fuel = out_of_fuel

  -- `PANS_LOG_FATAL(PANS_LOG_ROOT()) << ...`, by what `shouldLog` answers.
  abbrev pub log_if_root : (World → Submitted) → World → Option Bool → Submitted
  log_if_root log w none = out_of_fuel
  log_if_root log w (some false) = submitted w
  log_if_root log w (some true) = log w

  -- `submit`, with fuel for each `submit` inside: that of a root logger and that of a failed assertion.
  unfoldable pub submit_logging : ℕ → World → ℕ → LogRecordView → Submitted
  unfolding format_logging after_formatted
  submit_logging zero w id r = out_of_fuel
  submit_logging (suc fuel) w id r =
      let impl = w.loggers id in
      if ltb (to_u8 r.level) (to_u8 impl.level)
      then submitted w
      else if is_empty impl.appenders
      then at_root impl.root (submitted w) (λ above. submit_logging fuel w above r)
      else after_formatted impl.appenders r.level (
          format_logging
            (λ which w'.
              log_if_root
                (λ w''.
                  submit_logging fuel w'' root
                    (assert_record alloc root which (site fuel which) w''))
                w' (should_log (suc fuel) w' root fatal))
            impl.formatter.items r w (empty_buffer formatted_record_inline_capacity))
