-- ===== src/LogLine/Assertion/Ending.antt =====
-- A `submit` (pans/src/Logger/Logger.cc) ends where the records of its failed assertions do.
use pans.Formatter.{FormatState, format_item, format}
use pans.Formatter.Items.{IsNoAbort, format_item-IsNoAbort, format-IsNoAbort}
use pans.Base.{refl, ◌⊎◌, inl, inr, ℕ, ◌≡◌, ◌≢◌, Bool, Option, none, some, List, [], ◌∷◌}
use pans.Buffer.{Allocator, InlineBuffer}
use pans.Formatter.{TimeLibrary, FormatItem, Flow, next, threw, aborted}
use pans.LogLevel.{Level}
use pans.LogLine.Assertion.{
  Site, new_assertion, Formatted, formatted, format_threw, format_aborted, format_out_of_fuel,
  take_back, log_new, after_item, format_logging, after_formatted, and_continue,
}
use pans.Logger.{World, LoggerImpl, Submitted, submitted, submit_aborted, out_of_fuel, after_format}
use pans.Macros.{Build, Assertion}
use pans.Record.{LogRecordView}

-- The build, the loggers and their number, and what the end of the fuel means.
pub record Bound : Type 1 where
  pub build : Build
  pub loggers : ℕ → LoggerImpl
  pub count : ℕ
  pub exhausted : Type 0

-- The loggers are those.
abbrev pub Kept : Bound → World → Type 0
Kept bound w = (w.loggers ≡ bound.loggers) × (w.logger_count ≡ bound.count)

-- An end, which leaves the loggers; only a debug build aborts.
abbrev pub Ends : Bound → Submitted → Type 0
Ends bound (submitted w) = Kept bound w
Ends bound (submit_aborted w) = bound.build ≡ Build.debug_build
Ends bound out_of_fuel = bound.exhausted

abbrev pub FormatEnds : Bound → Formatted → Type 0
FormatEnds bound (formatted w output) = Kept bound w
FormatEnds bound (format_threw w) = Kept bound w
FormatEnds bound (format_aborted w) = bound.build ≡ Build.debug_build
FormatEnds bound format_out_of_fuel = bound.exhausted

pub Ends-ne :
    (bound : Bound) (s : Submitted) → (bound.exhausted → ⊥) → Ends bound s → s ≢ out_of_fuel
Ends-ne bound (submitted w) never e p = cc
Ends-ne bound (submit_aborted w) never e p = cc
Ends-ne bound out_of_fuel never e p = never e

-- A flow that is no abort, but in a debug build.
abbrev pub MayAbort : Bound → Flow → Type 0
MayAbort bound flow = IsNoAbort flow ⊎ (bound.build ≡ Build.debug_build)

in_debug :
    (bound : Bound) (s : FormatState) → MayAbort bound (aborted s) → bound.build ≡ Build.debug_build
in_debug bound s (inl no_abort) = absurd no_abort
in_debug bound s (inr debug) = debug

-- What formatting does, in either build.
format_item-may :
    (build : Build) {Tm : Type 0} (time : TimeLibrary Tm) (alloc : Allocator) (item : FormatItem)
    (r : LogRecordView) (s : FormatState)
    → IsNoAbort (format_item time alloc build item r s) ⊎ (build ≡ Build.debug_build)
format_item-may Build.release_build time alloc item r s =
    inl (format_item-IsNoAbort time alloc item r s)
format_item-may Build.debug_build time alloc item r s = inr refl

pub format-may :
    (build : Build) {Tm : Type 0} (time : TimeLibrary Tm) (alloc : Allocator)
    (items : List FormatItem) (r : LogRecordView) (s : FormatState)
    → IsNoAbort (format time alloc build items r s) ⊎ (build ≡ Build.debug_build)
format-may Build.release_build time alloc items r s = inl (format-IsNoAbort time alloc items r s)
format-may Build.debug_build time alloc items r s = inr refl

module _ (bound : Bound) where
  and_continue-FormatEnds :
      (again : World → Formatted) (s : Submitted)
      → ((w : World) → Kept bound w → FormatEnds bound (again w))
      → Ends bound s
      → FormatEnds bound (and_continue again s)
  and_continue-FormatEnds again (submitted w) later e = later w e
  and_continue-FormatEnds again (submit_aborted w) later e = e
  and_continue-FormatEnds again out_of_fuel later e = e

  module _ (log : Assertion → World → Submitted)
      (logs : (which : Assertion) (w : World) → Kept bound w → Ends bound (log which w)) where
    log_new-FormatEnds :
        (again : World → Formatted) (w : World) (found : Option Assertion)
        → ((w' : World) → Kept bound w' → FormatEnds bound (again w'))
        → Kept bound w
        → FormatEnds bound (log_new log again w found)
    log_new-FormatEnds again w none later e = later w e
    log_new-FormatEnds again w (some which) later e =
        and_continue-FormatEnds again (log which w) later (logs which w e)

    after_item-FormatEnds :
        (again : World → InlineBuffer → Formatted) (w : World) (flow : Flow)
        → MayAbort bound flow
        → ((w' : World) (b : InlineBuffer) → Kept bound w' → FormatEnds bound (again w' b))
        → Kept bound w
        → FormatEnds bound (after_item log again w flow)
    after_item-FormatEnds again w (next s) may later e =
        log_new-FormatEnds (λ w'. again w' s.output) (take_back w s)
          (new_assertion w.failed s.failed) (λ w'. later w' s.output) e
    after_item-FormatEnds again w (threw s) may later e = e
    after_item-FormatEnds again w (aborted s) may later e =
        log_new-FormatEnds format_aborted (take_back w s) (new_assertion w.failed s.failed)
          (λ w' _. in_debug bound s may) e

    module _ (locks : ℕ → Bool) {Tm : Type 0} (time : TimeLibrary Tm) (alloc : Allocator)
        (site : ℕ → Assertion → Site) (root : ℕ) where
      pub format_logging-FormatEnds :
          (items : List FormatItem) (r : LogRecordView) (w : World) (output : InlineBuffer)
          → Kept bound w
          → FormatEnds bound
              (format_logging locks time alloc bound.build site root log items r w output)
      unfolding format_logging
      format_logging-FormatEnds [] r w output e = e
      format_logging-FormatEnds (item ∷ items) r w output e =
          after_item-FormatEnds (format_logging locks time alloc bound.build site root log items r)
            w _ (format_item-may bound.build time alloc item r _)
            (λ w' b. format_logging-FormatEnds items r w' b) e

  module _ (locks : ℕ → Bool) {Tm : Type 0} (time : TimeLibrary Tm) (alloc : Allocator)
      (site : ℕ → Assertion → Site) (root : ℕ) where
    pub after_formatted-Ends :
        (appenders : List ℕ) (level : Level) (f : Formatted)
        → FormatEnds bound f
        → Ends bound (after_formatted locks time alloc bound.build site root appenders level f)
    unfolding after_formatted
    after_formatted-Ends appenders level (formatted w b) e = e
    after_formatted-Ends appenders level (format_threw w) e = e
    after_formatted-Ends appenders level (format_aborted w) e = e
    after_formatted-Ends appenders level format_out_of_fuel e = e

    pub after_format-Ends :
        (appenders : List ℕ) (level : Level) (w : World) (flow : Flow)
        → MayAbort bound flow
        → Kept bound w
        → Ends bound (after_format locks time alloc bound.build appenders level w flow)
    unfolding after_format
    after_format-Ends appenders level w (next s) may e = e
    after_format-Ends appenders level w (threw s) may e = e
    after_format-Ends appenders level w (aborted s) may e = in_debug bound s may
