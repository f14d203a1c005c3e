-- ===== src/LogLine.antt =====
-- pans/src/Logger/LogLine.cc and the macros of pans/include/pans/Logger/Log.h: a line collects a
-- message in a stream and submits one record to its logger when it is destroyed. The clocks, the
-- thread's data and `vsnprintf` are parameters.
pub mod Printf
pub mod Guard
pub mod Assertion
mod Tests
use pans.Base.Int.{ℤ, pos, negsuc}
use pans.Base.{
  ℕ, ◌+◌, Bool, true, false, Option, none, some, List, [], ◌∷◌, Bytes, codes, ltb, if◌then◌else◌,
  take,
}
use pans.Buffer.{Allocator, view, empty_buffer}
use pans.Buffer.Stream.{OutputStream, write}
use pans.Formatter.{TimeLibrary}
use pans.LogLevel.{Level}
use pans.Logger.{World, Submitted, submitted, out_of_fuel, should_log, submit}
use pans.Macros.{Build}
use pans.Record.{LogRecordView}

abbrev pub log_message_inline_capacity : ℕ
log_message_inline_capacity = 128

abbrev pub printf_format_inline_capacity : ℕ
printf_format_inline_capacity = 128

-- What the constructor of a line reads: the clocks, and the ids and the name of the thread.
pub record Origin : Type 0 where
  pub timestamp : ℤ
  pub elapsed : ℤ
  pub thread_id : ℕ
  pub fiber_id : ℕ
  pub thread_name : Bytes

-- `LogLine::Impl`; the stream holds the inline buffer.
pub record LogLineImpl : Type 0 where
  pub logger : ℕ
  pub level : Level
  pub line : ℕ
  pub file_name : Bytes
  pub origin : Origin
  pub stream : OutputStream

abbrev pub make_log_line : Origin → ℕ → Level → ℕ → Bytes → LogLineImpl
make_log_line origin logger level line file_name = record {
  logger = logger;
  level = level;
  line = line;
  file_name = file_name;
  origin = origin;
  stream = record { buffer = empty_buffer log_message_inline_capacity; bad = false };
}

-- `getRecord`.
abbrev pub get_record : World → LogLineImpl → LogRecordView
get_record w impl = record {
  level = impl.level;
  logger_name = (w.loggers impl.logger).name;
  message = view impl.stream.buffer;
  timestamp = impl.origin.timestamp;
  elapsed = impl.origin.elapsed;
  thread_id = impl.origin.thread_id;
  fiber_id = impl.origin.fiber_id;
  thread_name = impl.origin.thread_name;
  file_name = impl.file_name;
  line = impl.line;
}

-- A text written to the stream of a line.
abbrev pub put_text : Allocator → Bytes → LogLineImpl → LogLineImpl
put_text alloc text impl = record impl {
  stream = write alloc log_message_inline_capacity impl.stream text;
}

-- Texts written to a line, one after the other.
abbrev pub put_texts : Allocator → List Bytes → LogLineImpl → LogLineImpl
put_texts alloc [] impl = impl
put_texts alloc (text ∷ texts) impl = put_texts alloc texts (put_text alloc text impl)

-- What `LogPrintf` ends with: a return, or the exception of the vector; the line is submitted in both.
pub data Printed : Type 0 where
  printed : Submitted → Printed
  bad_alloc : Submitted → Printed

module _ (locks : ℕ → Bool) {Tm : Type 0} (time : TimeLibrary Tm) (alloc : Allocator)
    (build : Build) (fuel : ℕ) where
  -- The destructor of a line.
  unfoldable pub destroy : World → LogLineImpl → Submitted
  destroy w impl = submit locks time alloc build fuel w impl.logger (get_record w impl)

  -- The second call of `vsnprintf`, into a vector.
  abbrev pub print_overflow : World → LogLineImpl → ℕ → ℤ × Bytes → Printed
  print_overflow w impl message_size (negsuc n, bytes) =
      printed (destroy w (put_text alloc (codes "<format-error>") impl))
  print_overflow w impl message_size (pos n, bytes) =
      printed (destroy w (put_text alloc (take message_size bytes) impl))

  -- Behind the first call, which gave the size and what the array of 128 bytes holds.
  abbrev pub print_sized : (ℕ → ℤ × Bytes) → World → LogLineImpl → ℤ × Bytes → Printed
  print_sized vsnprintf w impl (negsuc n, bytes) =
      printed (destroy w (put_text alloc (codes "<format-error>") impl))
  print_sized vsnprintf w impl (pos message_size, bytes) =
      if ltb message_size printf_format_inline_capacity
      then printed (destroy w (put_text alloc (take message_size bytes) impl))
      else if alloc.grants (message_size + 1)
      then print_overflow w impl message_size (vsnprintf (message_size + 1))
      else bad_alloc (destroy w impl)

  -- `LogPrintf`. `vsnprintf` stands for the format with its arguments: for the size of an array it
  -- gives the result and what the array holds; `none` is a null format.
  unfoldable pub log_printf : Option (ℕ → ℤ × Bytes) → World → LogLineImpl → Printed
  log_printf none w impl = printed (destroy w (put_text alloc (codes "<null-format>") impl))
  log_printf (some vsnprintf) w impl =
      print_sized vsnprintf w impl (vsnprintf printf_format_inline_capacity)

  -- `PANS_LOG_LEVEL(logger, level) << ...`, by what `shouldLog` answers.
  abbrev pub log_if : World → LogLineImpl → List Bytes → Option Bool → Submitted
  log_if w impl texts none = out_of_fuel
  log_if w impl texts (some false) = submitted w
  log_if w impl texts (some true) = destroy w (put_texts alloc texts impl)

  unfoldable pub log_level : Origin → World → Option ℕ → Level → ℕ → Bytes → List Bytes → Submitted
  log_level origin w none level line file_name texts = submitted w
  log_level origin w (some logger) level line file_name texts =
      log_if w (make_log_line origin logger level line file_name) texts
        (should_log fuel w logger level)

  -- `PANS_LOG_FMT_LEVEL(logger, level, format, ...)`, by what `shouldLog` answers.
  abbrev pub print_if : World → LogLineImpl → Option (ℕ → ℤ × Bytes) → Option Bool → Printed
  print_if w impl vsnprintf none = printed out_of_fuel
  print_if w impl vsnprintf (some false) = printed (submitted w)
  print_if w impl vsnprintf (some true) = log_printf vsnprintf w impl

  unfoldable pub log_fmt_level :
      Origin → World → Option ℕ → Level → ℕ → Bytes → Option (ℕ → ℤ × Bytes) → Printed
  log_fmt_level origin w none level line file_name vsnprintf = printed (submitted w)
  log_fmt_level origin w (some logger) level line file_name vsnprintf =
      print_if w (make_log_line origin logger level line file_name) vsnprintf
        (should_log fuel w logger level)
