-- ===== src/LogLine/Assertion/Recursion.antt =====
-- A root logger whose pattern begins with a date that cannot be printed: each record that it formats
-- fails the assertion of pans/src/Logger/formatter.cc, which logs a record to the root logger.
use mathlib.Core.Path.{subst}
use pans.Base.Int.{ℤ, eqb_ℤ}
use pans.Base.{
  ℕ, zero, suc, Bool, true, false, ◌≡◌, refl, sym, ap, ◌∙◌, some, List, [], ◌∷◌, ◌++◌, ◌⊎◌, Bytes,
  ltb, is_empty, Option-cases, inl, inr,
}
use pans.Buffer.{Allocator, InlineBuffer, empty_buffer}
use pans.Formatter.{
  TimeLibrary, FormatItem, date_time, FormatState, Flow, next, aborted, format_item, seconds_of,
  formatted_record_inline_capacity, assert_retnone, append_date_time, refresh_date_time,
  store_date_time, note,
}
use pans.LogLevel.{fatal, to_u8}
use pans.LogLine.{Origin, make_log_line}
use pans.LogLine.Assertion.{
  Site, operands, assert_record, new_assertion, format_out_of_fuel, format_logging, submit_logging,
  log_if_root, after_formatted,
}
use pans.LogLine.Assertion.Records.{put_texts-kept}
use pans.Logger.{World, LoggerImpl, Submitted, out_of_fuel, should_log}
use pans.Macros.{
  Build, debug_build, release_build, Assertion, local_time_failed, date_format_failed,
}
use pans.Record.{LogRecordView}

new_assertion-last :
    (before : List Assertion) (which : Assertion)
    → new_assertion before (before ++ which ∷ []) ≡ some which
new_assertion-last [] which = refl
new_assertion-last (_ ∷ before) which = new_assertion-last before which

assert_retnone-fails :
    (build : Build) (which : Assertion) (s : FormatState) (rest : Flow)
    → (assert_retnone build false which s rest ≡ next (note which s))
      ⊎ (assert_retnone build false which s rest ≡ aborted (note which s))
assert_retnone-fails debug_build which s rest = inr refl
assert_retnone-fails release_build which s rest = inl refl

-- The C library has no date for the second, or the text does not fit into the array of twenty bytes.
abbrev pub IsRefused : {Tm : Type 0} → TimeLibrary Tm → Bytes → ℤ → Type 0
IsRefused time format second =
    (tm : _) → time.localtime_r second ≡ some tm → (time.strftime format tm).0 ≡ 0

module _ {Tm : Type 0} (time : TimeLibrary Tm) (alloc : Allocator) (build : Build)
    (format : Bytes) where
  -- The array of the cache is written, its second is not.
  abbrev rewritten : Assertion → Bytes → FormatState → FormatState
  rewritten which bytes s =
      note which (record s { cache = record s.cache { cached_date_time = bytes } })

  -- An item that fails one assertion.
  abbrev Fails : FormatState → Flow → Type 0
  Fails s flow =
      (which : Assertion) × (bytes : Bytes) × ((flow ≡ next (rewritten which bytes s))
        ⊎ (flow ≡ aborted (rewritten which bytes s)))

  date_time-Fails :
      (r : LogRecordView) (s : FormatState)
      → IsRefused time format (seconds_of r.timestamp)
      → eqb_ℤ (seconds_of r.timestamp) s.cache.last_second ≡ false
      → Fails s (format_item time alloc build (date_time format) r s)
  unfolding format_item append_date_time refresh_date_time store_date_time
  date_time-Fails r s refused late =
      elim (Option-cases (time.localtime_r (seconds_of r.timestamp))) [
        | inl no_time ↦ (
          local_time_failed,
          s.cache.cached_date_time,
          rw (late, no_time) (assert_retnone-fails build local_time_failed s (next s)),
        )
        | inr (tm, got) ↦ (
          date_format_failed,
          (time.strftime format tm).1,
          rw (late, got, refused tm got)
              (assert_retnone-fails build date_format_failed
                (record s {
                  cache = record s.cache { cached_date_time = (time.strftime format tm).1 };
                })
                _),
        )
      ]

module _ (locks : ℕ → Bool) {Tm : Type 0} (time : TimeLibrary Tm) (alloc : Allocator)
    (build : Build) (site : ℕ → Assertion → Site) (root : ℕ) (impl : LoggerImpl) (format : Bytes)
    (rest : List FormatItem) where
  -- The root logger, at whose pattern a failed assertion comes again.
  pub record Again (w : World) : Type 0 where
    pub logger : w.loggers root ≡ impl
    pub late :
        (n : ℕ) (which : Assertion)
        → eqb_ℤ (seconds_of (Origin.timestamp (Site.origin (site n which)))) w.cache.last_second
          ≡ false

  module _ (passes : ltb (to_u8 fatal) (to_u8 impl.level) ≡ false)
      (served : is_empty impl.appenders ≡ false)
      (pattern_items : impl.formatter.items ≡ date_time format ∷ rest)
      (refused : (n : ℕ) (which : Assertion)
        → IsRefused time format (seconds_of (Origin.timestamp (Site.origin (site n which))))) where
    should_log-again :
        (fuel : ℕ) (w : World)
        → w.loggers root ≡ impl
        → should_log (suc fuel) w root fatal ≡ some true
    unfolding should_log
    should_log-again fuel w logger = rw (logger, passes, served) refl

    -- The assertion that fails ends the formatting if the record that it logs does not.
    format_logging-stuck :
        (log : Assertion → World → Submitted) (r : LogRecordView) (w : World)
        (output : InlineBuffer)
        → IsRefused time format (seconds_of r.timestamp)
        → eqb_ℤ (seconds_of r.timestamp) w.cache.last_second ≡ false
        → ((which : Assertion) (bytes : Bytes)
            → log which (record w {
              cache = record w.cache { cached_date_time = bytes };
              failed = w.failed ++ which ∷ [];
            })
              ≡ out_of_fuel)
        → format_logging locks time alloc build site root log (date_time format ∷ rest) r w output
          ≡ format_out_of_fuel
    unfolding format_logging
    format_logging-stuck log r w output unfit late stuck =
        let state : FormatState = record { cache = w.cache; output = output; failed = w.failed } in
        let (which, bytes, ends) = date_time-Fails time alloc build format r state unfit late in
        elim ends [
          | inl e ↦ rw (e, new_assertion-last w.failed which, stuck which bytes) refl
          | inr e ↦ rw (e, new_assertion-last w.failed which, stuck which bytes) refl
        ]

    failed-Again :
        (w : World) (which : Assertion) (bytes : Bytes)
        → Again w
        → Again (record w {
          cache = record w.cache { cached_date_time = bytes };
          failed = w.failed ++ which ∷ [];
        })
    failed-Again w which bytes a = record { logger = a.logger; late = a.late }

    -- The record of a failed assertion is one more that does not come to an end.
    log-stuck :
        (fuel : ℕ) (inner : World → LogRecordView → Submitted)
        → ((w : World) (r : LogRecordView)
            → Again w
            → ltb (to_u8 r.level) (to_u8 impl.level) ≡ false
            → IsRefused time format (seconds_of r.timestamp)
            → eqb_ℤ (seconds_of r.timestamp) w.cache.last_second ≡ false
            → inner w r ≡ out_of_fuel)
        → (w : World) (which : Assertion) → Again w
        → log_if_root locks time alloc build site root
            (λ w'. inner w' (assert_record alloc root which (site fuel which) w'))
            w
            (should_log (suc fuel) w root fatal)
          ≡ out_of_fuel
    log-stuck fuel inner stuck w which a =
        let here = site fuel which in
        let (same_level, same_origin, same_line) =
          put_texts-kept alloc (operands which here)
            (make_log_line here.origin root fatal here.line here.file_name) in
        rw (should_log-again fuel w a.logger) (
          stuck w (assert_record alloc root which here w) a (rw same_level passes)
            (subst (λ o. IsRefused time format (seconds_of (Origin.timestamp o))) (sym same_origin)
              (refused fuel which))
            (ap (λ o. eqb_ℤ (seconds_of (Origin.timestamp o)) w.cache.last_second) same_origin
              ∙ a.late fuel which))

    -- A root logger that has appenders and logs FATAL, and whose pattern begins with a date that the C
    -- library refuses at the seconds in question, never finishes a record that it lets through, in either
    -- build: the assertion that fails logs a record to it, which fails the assertion again, and so on
    -- past any depth. None of the seconds is the one in the cache.
    pub submit_logging-never_ends :
        (fuel : ℕ) (w : World) (r : LogRecordView)
        → Again w
        → ltb (to_u8 r.level) (to_u8 impl.level) ≡ false
        → IsRefused time format (seconds_of r.timestamp)
        → eqb_ℤ (seconds_of r.timestamp) w.cache.last_second ≡ false
        → submit_logging locks time alloc build site root fuel w root r ≡ out_of_fuel
    unfolding submit_logging after_formatted
    submit_logging-never_ends zero w r a high unfit late = refl
    submit_logging-never_ends (suc fuel) w r a high unfit late =
        rw
          (
            a.logger,
            high,
            served,
            pattern_items,
            format_logging-stuck _ r w (empty_buffer formatted_record_inline_capacity) unfit late
                (λ which bytes.
                  log-stuck fuel
                    (λ w'. submit_logging locks time alloc build site root fuel w' root)
                    (submit_logging-never_ends fuel) _ which (failed-Again w which bytes a)),
          )
          refl
