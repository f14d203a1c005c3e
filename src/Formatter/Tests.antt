-- ===== src/Formatter/Tests.antt =====
-- Runs of the formatter of pans/src/Logger/formatter.cc, and its theorems at concrete values.
use mathlib.Core.Bool.{false≢true}
use mathlib.Core.List.{flatten}
use pans.Base.Int.{negsuc, neg_part}
use pans.Base.{suc, ◌+◌, ◌*◌, ◌/◌, ◌≡◌, ◌≢◌, refl, List, [], ◌∷◌, codes, arith, length}
use pans.Buffer.{empty_buffer}
use pans.Buffer.Store.{empty_buffer-IsValid}
use pans.Decimal.{fill_digits}
use pans.Decimal.Value.{value_from}
use pans.Formatter.{
  FormatItem, FormatState, empty_cache, format, formatted_record_inline_capacity, microseconds_of,
  seconds_of,
}
use pans.Formatter.Clock.{IsSecondPart, microseconds-six_digits, seconds_of-late}
use pans.Formatter.Loop.{parse-ne-out_of_fuel}
use pans.Formatter.Output.{record_text, Emits, IsFresh}
use pans.Formatter.Pattern.{parse, parsed, refused, out_of_fuel, format_item_factory}
use pans.Formatter.Render.{format-Emits}
use pans.Formatter.Printing.{print_onto, merge}
use pans.Formatter.RoundTrip.{parse-print_onto}
use pans.Formatter.Samples.{clock, none_left, log_record, answer, log_record-InRange}
use pans.LogLevel.{to_string}
use pans.Macros.{Build, Assertion}

parse_example :
    parse Build.release_build (codes "a%%b%d{%Y:%S}%p%n")
    ≡ parsed
        (FormatItem.literal (codes "a%b")
          ∷ FormatItem.date_time (codes "%Y:%S")
          ∷ FormatItem.level
          ∷ FormatItem.new_line
          ∷ [])
        []
unfolding parse format_item_factory
parse_example = refl

parse_errors :
    (parse Build.release_build (codes "abc%") ≡ refused 1 (Assertion.incomplete_directive ∷ []))
    × (parse Build.release_build (codes "%d{x") ≡ refused 2 (Assertion.missing_close_brace ∷ []))
    × (parse Build.release_build (codes "%d{}") ≡ refused 2 (Assertion.missing_close_brace ∷ []))
    × (parse Build.release_build (codes "%x")
        ≡ refused 3 (Assertion.unknown_directive b'x' ∷ Assertion.null_format_item ∷ []))
unfolding parse format_item_factory
parse_errors = (refl, refl, refl, refl)

abbrev items : List FormatItem
items =
    FormatItem.date_time (codes "%H")
    ∷ FormatItem.literal (codes "100%")
    ∷ FormatItem.level
    ∷ FormatItem.literal (codes " ")
    ∷ FormatItem.message
    ∷ []

parse-print_onto_example :
    parse Build.debug_build (print_onto items []) ≡ parsed (merge [] items) []
parse-print_onto_example =
    parse-print_onto Build.debug_build items (refl, (refl, (refl, (refl, (refl, tt)))))

parse-ne-out_of_fuel_example : parse Build.release_build (codes "%d{%%") ≢ out_of_fuel
parse-ne-out_of_fuel_example = parse-ne-out_of_fuel Build.release_build (codes "%d{%%")

microseconds-six_digits_example :
    (length (fill_digits 6 (microseconds_of (negsuc 1499)) []) ≡ 6)
    × IsSecondPart (negsuc 1499) (value_from 0 (fill_digits 6 (microseconds_of (negsuc 1499)) []))
microseconds-six_digits_example = microseconds-six_digits (negsuc 1499)

-- Half a second before the epoch.
seconds_of-late_example :
    microseconds_of (negsuc 499999999) + suc 499999999 / 1000
    ≡ (neg_part (seconds_of (negsuc 499999999)) + 1) * 1000000
seconds_of-late_example = seconds_of-late 499999999 (omega arith)

abbrev start : FormatState
start = record {
  cache = empty_cache;
  output = empty_buffer formatted_record_inline_capacity;
  failed = [];
}

format-Emits_example :
    Emits
      (record_text (codes "09") log_record items)
      (IsFresh (codes "09") log_record)
      start
      (format clock none_left Build.debug_build items log_record start)
unfolding seconds_of flatten to_string
format-Emits_example =
    format-Emits clock none_left Build.debug_build (codes "%H") log_record answer log_record-InRange
      items start (refl, tt) (empty_buffer-IsValid formatted_record_inline_capacity)
      (λ e. absurd (false≢true e)) (omega arith)
