-- ===== src/Formatter.antt =====
-- pans/src/Logger/formatter.h and formatter.cc: a pattern is parsed to a list of items, and a record
-- is formatted by letting each item append its text to a buffer. `strftime`, `localtime_r` and the
-- allocator are parameters.
pub mod Pattern
pub mod Loop
pub mod Release
pub mod Items
pub mod Printing
pub mod RoundTrip
pub mod Clock
pub mod Output
pub mod Render
pub mod Samples
mod Tests
pub use pans.Base.{c_string}
use pans.Base.Int.{ℤ, pos, negsuc, pos_part, eqb_ℤ, quot, rem, sub_ℕ}
use pans.Base.{
  ℕ, zero, suc, ◌+◌, ◌-◌, Bool, true, false, not, ◌&&◌, Option, none, some, List, [], ◌∷◌, ◌++◌,
  Bytes, codes, ◌==◌, if◌then◌else◌, replicate,
}
use pans.Buffer.{Allocator, Outcome, done, bad_alloc, InlineBuffer, append}
use pans.Decimal.{to_chars, to_chars_signed, fill_digits}
use pans.LogLevel.{to_string}
use pans.Macros.{
  Build, Control, falls_through, returns, continues, breaks, aborts, Effect, assert_retval,
  Assertion, trans_to_chars_failed, local_time_failed, date_format_failed,
}
use pans.Record.{LogRecordView}

-- The classes derived from `FormatItem`, with what they hold.
pub data FormatItem : Type 0 where
  literal : Bytes → FormatItem
  level elapsed logger_name thread_id new_line : FormatItem
  date_time : Bytes → FormatItem
  microseconds file_name line tab fiber_id thread_name message : FormatItem

-- The clock functions of the C library. `strftime` gives its result, and what the array of twenty
-- bytes holds afterwards.
pub record TimeLibrary (Tm : Type 0) : Type 0 where
  pub localtime_r : ℤ → Option Tm
  pub strftime : Bytes → Tm → ℕ × Bytes

-- The two `thread_local` variables of `DateTimeFormatItem::format`, shared by all its objects.
pub record DateCache : Type 0 where
  pub last_second : ℤ
  pub cached_date_time : Bytes

abbrev pub empty_cache : DateCache
empty_cache = record { last_second = pos 0; cached_date_time = replicate 20 0 }

-- What formatting works on: the thread's cache, the output, and the assertions that failed so far.
pub record FormatState : Type 0 where
  pub cache : DateCache
  pub output : InlineBuffer
  pub failed : List Assertion

pub data Flow : Type 0 where
  next : FormatState → Flow
  threw : FormatState → Flow  -- std::bad_alloc
  aborted : FormatState → Flow

infixl 5 ◌>>=◌
abbrev pub ◌>>=◌ : Flow → (FormatState → Flow) → Flow
◌>>=◌ (next s) f = f s
◌>>=◌ (threw s) f = threw s
◌>>=◌ (aborted s) f = aborted s

-- Nanoseconds in a second, a millisecond and a microsecond.
abbrev pub second_ns : ℕ
second_ns = 1000000000

abbrev pub millisecond_ns : ℕ
millisecond_ns = 1000000

abbrev pub microsecond_ns : ℕ
microsecond_ns = 1000

-- `FORMATTED_RECORD_INLINE_CAPACITY`.
abbrev pub formatted_record_inline_capacity : ℕ
formatted_record_inline_capacity = 256

-- `AppendInteger` writes into an array of this size.
abbrev pub integer_buffer_size : ℕ
integer_buffer_size = 24

-- `if (microseconds < 0) microseconds += 1000000`, and the cast to u32.
abbrev pub raise_negative : ℤ → ℕ
raise_negative (pos n) = n
raise_negative (negsuc n) = 1000000 - suc n

-- The microseconds within the second that `MicrosecondsFormatItem` writes.
unfoldable pub microseconds_of : ℤ → ℕ
microseconds_of timestamp = raise_negative (rem (quot timestamp microsecond_ns) 1000000)

-- The second that `DateTimeFormatItem` asks the C library about.
unfoldable pub seconds_of : ℤ → ℤ
seconds_of timestamp = quot timestamp second_ns

abbrev pub note : Assertion → FormatState → FormatState
note which s = record s { failed = s.failed ++ which ∷ [] }

-- A use of ASSERT_RETNONE2 in an item: what is left of the item runs, or control returns from it.
abbrev pub resume : Control (Unit {0}) → Assertion → FormatState → Flow → Flow
resume falls_through which s rest = rest
resume aborts which s rest = aborted (note which s)
resume _ which s rest = next (note which s)

abbrev pub assert_retnone : Build → Bool → Assertion → FormatState → Flow → Flow
assert_retnone build x which s rest = resume (assert_retval build x tt).control which s rest

abbrev pub keep_output : FormatState → Outcome InlineBuffer → Flow
keep_output s (done b) = next (record s { output = b })
keep_output s (bad_alloc b) = threw (record s { output = b })

module _ {Tm : Type 0} (time : TimeLibrary Tm) (alloc : Allocator) (build : Build) where
  open time use {localtime_r, strftime}

  -- `output.append(text)`.
  unfoldable pub emit : Bytes → FormatState → Flow
  emit text s = keep_output s (append alloc formatted_record_inline_capacity s.output text)

  -- The end of `AppendInteger`, at the result of `std::to_chars`.
  unfoldable pub append_digits : Option Bytes → FormatState → Flow
  unfolding emit
  append_digits none s = assert_retnone build false trans_to_chars_failed s (next s)
  append_digits (some text) s = assert_retnone build true trans_to_chars_failed s (emit text s)

  -- `AppendInteger`.
  unfoldable pub append_integer : ℤ → FormatState → Flow
  unfolding append_digits
  append_integer value s = append_digits (to_chars_signed integer_buffer_size value) s

  -- The rest of `DateTimeFormatItem::format` behind `strftime`: the array is written in any case,
  -- the second is noted only if the text fitted.
  unfoldable pub store_date_time : ℤ → ℕ × Bytes → FormatState → Flow
  unfolding emit
  store_date_time current_second (size, bytes) s =
      let written : FormatState = record s {
        cache = record { last_second = s.cache.last_second; cached_date_time = bytes };
      } in
      let stored : FormatState = record s {
        cache = record { last_second = current_second; cached_date_time = bytes };
      } in
      assert_retnone build (not (size == 0)) date_format_failed written
        (emit (c_string bytes) stored)

  -- `DateTimeFormatItem::format` for a second that is not the cached one.
  unfoldable pub refresh_date_time : Bytes → ℤ → Option Tm → FormatState → Flow
  unfolding store_date_time
  refresh_date_time format current_second none s =
      assert_retnone build false local_time_failed s (next s)
  refresh_date_time format current_second (some tm) s =
      store_date_time current_second (strftime format tm) s

  -- `DateTimeFormatItem::format`: an array that serves for the same second is appended as it is.
  unfoldable pub append_date_time : Bytes → ℤ → FormatState → Flow
  unfolding emit refresh_date_time
  append_date_time format timestamp s =
      if eqb_ℤ (seconds_of timestamp) s.cache.last_second
      then emit (c_string s.cache.cached_date_time) s
      else refresh_date_time format (seconds_of timestamp) (localtime_r (seconds_of timestamp)) s

  -- The overrides of `FormatItem::format`, one clause for each class.
  unfoldable pub format_item : FormatItem → LogRecordView → FormatState → Flow
  unfolding emit append_integer append_date_time
  format_item (literal value) r = emit value
  format_item level r = emit (to_string r.level)
  format_item elapsed r = append_integer (quot r.elapsed millisecond_ns)
  format_item logger_name r = emit r.logger_name
  format_item thread_id r = append_integer (pos r.thread_id)
  format_item new_line r = emit (b'\n' ∷ [])
  format_item (date_time format) r = append_date_time format r.timestamp
  format_item microseconds r = emit (fill_digits 6 (microseconds_of r.timestamp) [])
  format_item file_name r = emit r.file_name
  format_item line r = append_integer (pos r.line)
  format_item tab r = emit (b'\t' ∷ [])
  format_item fiber_id r = append_integer (pos r.fiber_id)
  format_item thread_name r = emit r.thread_name
  format_item message r = emit r.message

  -- `Formatter::format`.
  unfoldable pub format : List FormatItem → LogRecordView → FormatState → Flow
  unfolding format_item
  format [] r s = next s
  format (item ∷ items) r s = format_item item r s >>= format items r
