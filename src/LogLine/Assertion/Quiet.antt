-- ===== src/LogLine/Assertion/Quiet.antt =====
-- Where every date is printed, no assertion fails while a record is formatted
-- (pans/src/Logger/formatter.cc), and `submit` logs nothing of its own.
use pans.Base.Int.{ℤ, pos, eqb_ℤ}
use pans.Base.{
  ℕ, zero, suc, Bool, false, ◌≡◌, refl, ap, ◌∙◌, none, some, List, [], ◌∷◌, Bytes, ltb, is_empty,
  ◌==◌, Option-cases, Bool-cases, inl, inr, arith, ◌^◌, ◌<◌,
}
use pans.Buffer.{Allocator, InlineBuffer, empty_buffer, Outcome, done, bad_alloc, append}
use pans.Formatter.{
  TimeLibrary, FormatItem, date_time, elapsed, thread_id, line, fiber_id, FormatState, Flow, next,
  threw, aborted, ◌>>=◌, format_item, format, seconds_of, keep_output, emit, append_integer,
  append_digits, append_date_time, refresh_date_time, store_date_time,
  formatted_record_inline_capacity, c_string,
}
use pans.Formatter.Output.{InRange, magnitude, to_chars_signed_fits, magnitude-quot_le}
use pans.LogLevel.{to_u8}
use pans.LogLine.Assertion.{
  Site, new_assertion, Formatted, formatted, format_threw, format_aborted, take_back, after_item,
  format_logging, submit_logging, after_formatted,
}
use pans.Logger.{World, Submitted, submit, after_format}
use pans.Macros.{Build, Assertion}
use pans.Record.{LogRecordView}

abbrev failed_in : Flow → List Assertion
failed_in (next s) = s.failed
failed_in (threw s) = s.failed
failed_in (aborted s) = s.failed

-- Each date is printed at the second of the time stamp.
abbrev pub DatesFit : {Tm : Type 0} → TimeLibrary Tm → ℤ → List FormatItem → Type 0
DatesFit time timestamp [] = Unit
DatesFit {Tm} time timestamp (date_time f ∷ items) =
    ((tm : Tm) × (time.localtime_r (seconds_of timestamp) ≡ some tm)
      × (((time.strftime f tm).0 == 0) ≡ false))
    × DatesFit time timestamp items
DatesFit time timestamp (_ ∷ items) = DatesFit time timestamp items

module _ {Tm : Type 0} (time : TimeLibrary Tm) (alloc : Allocator) (build : Build) where
  emit-quiet :
      (text : Bytes) (s : FormatState) → failed_in (emit time alloc build text s) ≡ s.failed
  unfolding emit
  emit-quiet text s = kept (append alloc formatted_record_inline_capacity s.output text)
    where
      kept : (out : Outcome InlineBuffer) → failed_in (keep_output s out) ≡ s.failed
      kept (done b) = refl
      kept (bad_alloc b) = refl

  append_integer-quiet :
      (value : ℤ) (s : FormatState)
      → magnitude value < 2 ^ 64
      → failed_in (append_integer time alloc build value s) ≡ s.failed
  unfolding append_integer append_digits
  append_integer-quiet value s word = rw (to_chars_signed_fits value word) (emit-quiet _ s)

  append_date_time-quiet :
      (f : Bytes) (r : LogRecordView) (s : FormatState) (tm : Tm)
      → time.localtime_r (seconds_of r.timestamp) ≡ some tm
      → ((time.strftime f tm).0 == 0) ≡ false
      → failed_in (append_date_time time alloc build f r.timestamp s) ≡ s.failed
  unfolding append_date_time refresh_date_time store_date_time
  append_date_time-quiet f r s tm got fits =
      elim (Bool-cases (eqb_ℤ (seconds_of r.timestamp) s.cache.last_second)) [
        | inl cached ↦ rw cached (emit-quiet (c_string s.cache.cached_date_time) s)
        | inr stale ↦ rw (stale, got, fits) (emit-quiet _ _)
      ]

  module _ (r : LogRecordView) (words : InRange r) where
    open words use {thread_id_word, fiber_id_word, line_word, elapsed_word}

    format_item-quiet :
        (item : FormatItem) (items : List FormatItem) (s : FormatState)
        → DatesFit time r.timestamp (item ∷ items)
        → failed_in (format_item time alloc build item r s) ≡ s.failed
    unfolding format_item
    format_item-quiet elapsed items s fit =
        append_integer-quiet _ s (omega (arith, elapsed_word, magnitude-quot_le r.elapsed))
    format_item-quiet thread_id items s fit =
        append_integer-quiet (pos r.thread_id) s (omega (arith, thread_id_word))
    format_item-quiet line items s fit =
        append_integer-quiet (pos r.line) s (omega (arith, line_word))
    format_item-quiet fiber_id items s fit =
        append_integer-quiet (pos r.fiber_id) s (omega (arith, fiber_id_word))
    format_item-quiet (date_time f) items s ((tm, got, fits), _) =
        append_date_time-quiet f r s tm got fits
    format_item-quiet item items s fit = emit-quiet _ s

    DatesFit-tail :
        (item : FormatItem) (items : List FormatItem)
        → DatesFit time r.timestamp (item ∷ items)
        → DatesFit time r.timestamp items
    DatesFit-tail (date_time f) items fit = fit.1
    DatesFit-tail _ items fit = fit

new_assertion-same : (failed : List Assertion) → new_assertion failed failed ≡ none
new_assertion-same [] = refl
new_assertion-same (_ ∷ failed) = new_assertion-same failed

new_assertion-kept :
    (before after : List Assertion) → after ≡ before → new_assertion before after ≡ none
new_assertion-kept before after kept = ap (new_assertion before) kept ∙ new_assertion-same before

-- What `submit` makes of a flow, before the text is delivered.
abbrev pub with_world : World → Flow → Formatted
with_world w (next s) = formatted (take_back w s) s.output
with_world w (threw s) = format_threw (take_back w s)
with_world w (aborted s) = format_aborted (take_back w s)

with_world-take_back :
    (w : World) (s : FormatState) (flow : Flow)
    → with_world (take_back w s) flow ≡ with_world w flow
with_world-take_back w s (next s') = refl
with_world-take_back w s (threw s') = refl
with_world-take_back w s (aborted s') = refl

abbrev state_of : World → InlineBuffer → FormatState
state_of w output = record { cache = w.cache; output = output; failed = w.failed }

-- An item that fails nothing is followed by the others.
after_item-quiet :
    (log : Assertion → World → Submitted) (again : World → InlineBuffer → Formatted)
    (f : FormatState → Flow) (w : World) (flow : Flow)
    → failed_in flow ≡ w.failed
    → ((s : FormatState) → again (take_back w s) s.output ≡ with_world (take_back w s) (f s))
    → after_item log again w flow ≡ with_world w (flow >>= f)
after_item-quiet log again f w (next s) kept later =
    rw (new_assertion-kept w.failed s.failed kept) (later s ∙ with_world-take_back w s (f s))
after_item-quiet log again f w (threw s) kept later = refl
after_item-quiet log again f w (aborted s) kept later =
    rw (new_assertion-kept w.failed s.failed kept) refl

module _ (locks : ℕ → Bool) {Tm : Type 0} (time : TimeLibrary Tm) (alloc : Allocator)
    (build : Build) (site : ℕ → Assertion → Site) (root : ℕ) (r : LogRecordView)
    (words : InRange r) where
  pub format_logging-quiet :
      (log : Assertion → World → Submitted) (items : List FormatItem) (w : World)
      (output : InlineBuffer)
      → DatesFit time r.timestamp items
      → format_logging locks time alloc build site root log items r w output
        ≡ with_world w (format time alloc build items r (state_of w output))
  unfolding format_logging format
  format_logging-quiet log [] w output fit = refl
  format_logging-quiet log (item ∷ items) w output fit =
      after_item-quiet log (format_logging locks time alloc build site root log items r)
        (format time alloc build items r) w
        (format_item time alloc build item r (state_of w output))
        (format_item-quiet time alloc build r words item items (state_of w output) fit)
        (λ s.
          format_logging-quiet log items (take_back w s) s.output
            (DatesFit-tail time alloc build r words item items fit))

  pub after_formatted-with_world :
      (appenders : List ℕ) (w : World) (flow : Flow)
      → after_formatted locks time alloc build site root appenders r.level (with_world w flow)
        ≡ after_format locks time alloc build appenders r.level w flow
  unfolding after_formatted after_format
  after_formatted-with_world appenders w (next s) = refl
  after_formatted-with_world appenders w (threw s) = refl
  after_formatted-with_world appenders w (aborted s) = refl

  -- At a logger with appenders its own dates are enough.
  pub submit_logging-served :
      (fuel : ℕ) (w : World) (id : ℕ)
      → is_empty (w.loggers id).appenders ≡ false
      → DatesFit time r.timestamp (w.loggers id).formatter.items
      → submit_logging locks time alloc build site root (suc fuel) w id r
        ≡ submit locks time alloc build (suc fuel) w id r
  unfolding submit_logging submit
  submit_logging-served fuel w id served fit =
      elim (Bool-cases (ltb (to_u8 r.level) (to_u8 (w.loggers id).level))) [
        | inl below ↦ rw below refl
        | inr passes ↦
            rw (passes, served)
              (rw
                (format_logging-quiet _ (w.loggers id).formatter.items w
                  (empty_buffer formatted_record_inline_capacity) fit)
                (after_formatted-with_world (w.loggers id).appenders w _))
      ]

  -- Where the C library prints each date of each logger at the second of a record of machine words,
  -- the record is submitted as if assertions logged nothing.
  pub submit_logging-submit :
      (fuel : ℕ) (w : World) (id : ℕ)
      → ((other : ℕ) → DatesFit time r.timestamp (w.loggers other).formatter.items)
      → submit_logging locks time alloc build site root fuel w id r
        ≡ submit locks time alloc build fuel w id r
  unfolding submit_logging submit
  submit_logging-submit zero w id fit = refl
  submit_logging-submit (suc fuel) w id fit =
      elim (Bool-cases (is_empty (w.loggers id).appenders)) [
        | inr served ↦ submit_logging-served fuel w id served (fit id)
        | inl bare ↦ elim (Bool-cases (ltb (to_u8 r.level) (to_u8 (w.loggers id).level))) [
          | inl below ↦ rw below refl
          | inr passes ↦ elim (Option-cases (w.loggers id).root) [
            | inl alone ↦ rw (passes, bare, alone) refl
            | inr (above, linked) ↦
                rw (passes, bare, linked) (submit_logging-submit fuel w above fit)
          ]
        ]
      ]
