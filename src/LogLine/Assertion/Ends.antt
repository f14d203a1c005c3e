-- ===== src/LogLine/Assertion/Ends.antt =====
-- Where the root logger can print the records of failed assertions, `submit`
-- (pans/src/Logger/Logger.cc) ends on every record, whatever fails while it is formatted.
use mathlib.Core.Path.{subst}
use pans.Base.{
  ℕ, suc, ◌<◌, ◌≡◌, ◌≢◌, refl, sym, ap, ◌∙◌, Bool, true, false, none, some, ltb, is_empty,
  Bool-cases, Option-cases, inl, inr,
}
use pans.Buffer.{Allocator, empty_buffer}
use pans.Formatter.{TimeLibrary, formatted_record_inline_capacity}
use pans.Formatter.Output.{InRange}
use pans.LogLevel.{Level, fatal, to_u8}
use pans.LogLine.Assertion.{Site, assert_record, log_if_root, submit_logging}
use pans.LogLine.Assertion.Quiet.{DatesFit, format_logging-quiet, after_formatted-with_world}
use pans.LogLine.Assertion.Records.{AreWords, assert_record-InRange, assert_record-timestamp}
use pans.Logger.{World, LoggerImpl, out_of_fuel, should_log}
use pans.Logger.Manager.{Manager}
use pans.Logger.Manager.Links.{at_most_one_link}
use pans.Logger.Manager.Names.{IsValid}
use pans.Macros.{Build, Assertion}
use pans.Record.{LogRecordView}
use pans.LogLine.Assertion.Ending.{
  Bound, Kept, Ends, Ends-ne, format-may, format_logging-FormatEnds, after_formatted-Ends,
  after_format-Ends,
}

module _ (locks : ℕ → Bool) {Tm : Type 0} (time : TimeLibrary Tm) (alloc : Allocator)
    (site : ℕ → Assertion → Site) (root : ℕ) (bound : Bound)
    (alone : (bound.loggers root).root ≡ none)
    (words : (n : ℕ) (which : Assertion) → AreWords (site n which).origin (site n which).line)
    (fits : (n : ℕ) (which : Assertion)
      → DatesFit time (site n which).origin.timestamp (bound.loggers root).formatter.items) where
  -- The root logger ends on the record of a failed assertion.
  pub root-Ends :
      (fuel n : ℕ) (which : Assertion) (w : World)
      → Kept bound w
      → Ends bound (
          submit_logging locks time alloc bound.build site root
            (suc fuel)
            w
            root
            (assert_record alloc root which (site n which) w))
  unfolding submit_logging
  root-Ends fuel n which w e =
      elim (Bool-cases (ltb (to_u8 r.level) (to_u8 (w.loggers root).level))) [
        | inl below ↦ rw below e
        | inr passes ↦ elim (Bool-cases (is_empty (w.loggers root).appenders)) [
          | inl bare ↦ rw (passes, bare, ap (λ l. LoggerImpl.root (l root)) e.0 ∙ alone) e
          | inr served ↦
              rw (passes, served)
                (rw
                  (
                    format_logging-quiet locks time alloc bound.build site root r word _
                        (w.loggers root).formatter.items w
                        (empty_buffer formatted_record_inline_capacity) fit,
                    after_formatted-with_world locks time alloc bound.build site root r word
                        (w.loggers root).appenders w _,
                  )
                  (after_format-Ends bound locks time alloc site root (w.loggers root).appenders
                    r.level w _ (format-may bound.build time alloc _ r _) e))
        ]
      ]
    where
      r : LogRecordView
      r = assert_record alloc root which (site n which) w

      word : InRange r
      word = assert_record-InRange alloc root which (site n which) w (words n which)

      fit : DatesFit time r.timestamp (w.loggers root).formatter.items
      fit =
          subst (λ t. DatesFit time t (w.loggers root).formatter.items)
            (sym (assert_record-timestamp alloc root which (site n which) w))
            (subst
              (λ (l : ℕ → LoggerImpl).
                DatesFit time (site n which).origin.timestamp (l root).formatter.items)
              (sym e.0) (fits n which))

  -- `shouldLog` of the root logger follows no link.
  pub should_log-root :
      (fuel : ℕ) (w : World) (level : Level)
      → Kept bound w
      → (b : Bool) × (should_log (suc fuel) w root level ≡ some b)
  unfolding should_log
  should_log-root fuel w level e =
      elim (Bool-cases (ltb (to_u8 level) (to_u8 (w.loggers root).level))) [
        | inl below ↦ (false, rw below refl)
        | inr passes ↦ elim (Bool-cases (is_empty (w.loggers root).appenders)) [
          | inr served ↦ (true, rw (passes, served) refl)
          | inl bare ↦
              (false, rw (passes, bare, ap (λ l. LoggerImpl.root (l root)) e.0 ∙ alone) refl)
        ]
      ]

  log-Ends :
      (fuel : ℕ) (which : Assertion) (w : World)
      → Kept bound w
      → Ends bound (
          log_if_root locks time alloc bound.build site root
            (λ w'.
              submit_logging locks time alloc bound.build site root
                (suc fuel)
                w'
                root
                (assert_record alloc root which (site (suc fuel) which) w'))
            w
            (should_log (suc (suc fuel)) w root fatal))
  log-Ends fuel which w e =
      let (answer, answered) = should_log-root (suc fuel) w fatal e in
      elim (Bool-cases answer) [
        | inl logs ↦ rw (answered, logs) (root-Ends fuel (suc fuel) which w e)
        | inr refuses ↦ rw (answered, refuses) e
      ]

  -- A logger with appenders ends on any record.
  served-Ends :
      (fuel : ℕ) (w : World) (id : ℕ) (r : LogRecordView)
      → Kept bound w
      → is_empty (w.loggers id).appenders ≡ false
      → Ends bound (submit_logging locks time alloc bound.build site root (suc (suc fuel)) w id r)
  unfolding submit_logging
  served-Ends fuel w id r e served =
      elim (Bool-cases (ltb (to_u8 r.level) (to_u8 (w.loggers id).level))) [
        | inl below ↦ rw below e
        | inr passes ↦
            rw (passes, served)
              (after_formatted-Ends bound locks time alloc site root (w.loggers id).appenders
                r.level _
                (format_logging-FormatEnds bound _ (λ which w' e'. log-Ends fuel which w' e') locks
                  time alloc site root (w.loggers id).formatter.items r w
                  (empty_buffer formatted_record_inline_capacity) e))
      ]

  -- A logger without appenders hands the record on, at most once where the links end there.
  bare-Ends :
      (fuel : ℕ) (w : World) (id : ℕ) (r : LogRecordView)
      → Kept bound w
      → is_empty (w.loggers id).appenders ≡ true
      → ((above : ℕ)
          → (w.loggers id).root ≡ some above
          → Ends bound (submit_logging locks time alloc bound.build site root fuel w above r))
      → Ends bound (submit_logging locks time alloc bound.build site root (suc fuel) w id r)
  unfolding submit_logging
  bare-Ends fuel w id r e bare up =
      elim (Bool-cases (ltb (to_u8 r.level) (to_u8 (w.loggers id).level))) [
        | inl below ↦ rw below e
        | inr passes ↦ elim (Option-cases (w.loggers id).root) [
          | inl unlinked ↦ rw (passes, bare, unlinked) e
          | inr (above, linked) ↦ rw (passes, bare, linked) (up above linked)
        ]
      ]

  pub submit_logging-Ends :
      (w : World) (id : ℕ) (r : LogRecordView)
      → Kept bound w
      → ((above : ℕ) → (w.loggers id).root ≡ some above → (w.loggers above).root ≡ none)
      → Ends bound (submit_logging locks time alloc bound.build site root 3 w id r)
  submit_logging-Ends w id r e one_link = elim (Bool-cases (is_empty (w.loggers id).appenders)) [
    | inr served ↦ served-Ends 1 w id r e served
    | inl bare ↦ bare-Ends 2 w id r e bare λ above linked.
        elim (Bool-cases (is_empty (w.loggers above).appenders)) [
          | inr served ↦ served-Ends 0 w above r e served
          | inl also_bare ↦
              bare-Ends 1 w above r e also_bare
                λ next_one further. absurd cc (one_link above linked, further)
        ]
  ]

-- With a valid manager whose root logger has only dates that the C library prints where assertions may
-- fail, and there with numbers that are machine words, every record ends on every logger, whatever
-- fails while it is formatted: three loggers deep is enough, the last one for the record of a failed
-- assertion.
pub three_submits_suffice :
    (locks : ℕ → Bool) {Tm : Type 0} (time : TimeLibrary Tm) (alloc : Allocator) (build : Build)
    (site : ℕ → Assertion → Site) (m : Manager)
    → IsValid m
    → ((n : ℕ) (which : Assertion) → AreWords (site n which).origin (site n which).line)
    → ((n : ℕ) (which : Assertion)
        → DatesFit time (site n which).origin.timestamp (m.world.loggers m.root).formatter.items)
    → (id : ℕ) (r : LogRecordView) → id < m.world.logger_count
    → submit_logging locks time alloc build site m.root 3 m.world id r ≢ out_of_fuel
three_submits_suffice locks time alloc build site m v words fits id r known =
    Ends-ne bound _ (λ never. never)
      (submit_logging-Ends locks time alloc site m.root bound v.root_alone words fits m.world id r
        (refl, refl) (at_most_one_link v id known))
  where
    bound : Bound
    bound = record {
      build = build;
      loggers = m.world.loggers;
      count = m.world.logger_count;
      exhausted = ⊥;
    }
