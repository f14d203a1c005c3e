-- ===== src/Logger/Client/Records.antt =====
-- The records of failed assertions around a method of `Logger` (pans/src/Logger/Logger.cc), in a release
-- build: they change no logger, and end where the root logger prints its dates.
use pans.Base.{
  ℕ, suc, ◌≡◌, refl, sym, ap, ◌∙◌, Bool, none, some, List, [], ◌∷◌, Option-cases, Bool-cases, inl,
  inr,
}
use pans.Buffer.{Allocator}
use pans.Formatter.{TimeLibrary}
use pans.LogLevel.{fatal}
use pans.LogLine.Assertion.{Site, assert_record, submit_logging}
use pans.LogLine.Assertion.Ending.{Bound, Kept, Ends}
use pans.LogLine.Assertion.Ends.{root-Ends, should_log-root, submit_logging-Ends}
use pans.LogLine.Assertion.Keeping.{submit_logging-Keeps, log_if_root-Keeps}
use pans.LogLine.Assertion.Quiet.{DatesFit}
use pans.LogLine.Assertion.Records.{AreWords}
use pans.Logger.{World, Submitted, submitted, submit_aborted, out_of_fuel, should_log}
use pans.Logger.Client.{after_submit, submit_record, log_failed, log_all}
use pans.Macros.{Build, Assertion}
use pans.Record.{LogRecordView}

abbrev release : World → Type 0 → Bound
release w exhausted = record {
  build = Build.release_build;
  loggers = w.loggers;
  count = w.logger_count;
  exhausted = exhausted;
}

-- The loggers of the first world.
abbrev pub SameAs : World → World → Type 0
SameAs w0 w = Kept (release w0 Unit) w

after_submit-Kept :
    (w0 : World) (result : Submitted) {w : World}
    → Ends (release w0 Unit) result
    → after_submit result ≡ some w
    → SameAs w0 w
after_submit-Kept w0 (submitted w') {w} (loggers, count) e =
    let same : w' ≡ w = cc in
    (
      ap (λ (w : World). w.loggers) (sym same) ∙ loggers,
      ap (λ (w : World). w.logger_count) (sym same) ∙ count,
    )
after_submit-Kept w0 (submit_aborted w') ended e = absurd cc
after_submit-Kept w0 out_of_fuel ended e = absurd cc

world_after :
    (w0 : World) (result : Submitted)
    → Ends (release w0 ⊥) result
    → (w : World) × (after_submit result ≡ some w) × SameAs w0 w
world_after w0 (submitted w') kept = (w', refl, kept)
world_after w0 (submit_aborted w') ended = absurd cc
world_after w0 out_of_fuel ended = absurd ended

module _ (locks : ℕ → Bool) {Tm : Type 0} (time : TimeLibrary Tm) (alloc : Allocator)
    (site : ℕ → Assertion → Site) (root : ℕ) (w0 : World) where
  pub submit_record-Kept :
      (w : World) (id : ℕ) (r : LogRecordView) {w' : World}
      → SameAs w0 w
      → after_submit (submit_record locks time alloc Build.release_build site root w id r) ≡ some w'
      → SameAs w0 w'
  submit_record-Kept w id r kept e =
      after_submit-Kept w0 _
        (submit_logging-Keeps locks time alloc site root (release w0 Unit) tt 3 w id r kept) e

  pub log_all-Kept :
      (failed : List Assertion) (place : ℕ) (w : World)
      → SameAs w0 w
      → (w' : World)
      → log_all locks time alloc Build.release_build site root place failed w ≡ some w'
      → SameAs w0 w'
  unfolding log_all
  log_all-Kept [] place w kept w' e =
      let same : w ≡ w' = cc in
      (
        ap (λ (w : World). w.loggers) (sym same) ∙ kept.0,
        ap (λ (w : World). w.logger_count) (sym same) ∙ kept.1,
      )
  log_all-Kept (which ∷ later) place w kept w' e =
      elim (Option-cases
        (after_submit (log_failed locks time alloc Build.release_build site root place which w))) [
          | inl ended ↦ absurd cc (rw ended at e)
          | inr (w1, logged) ↦
              log_all-Kept later (suc place) w1
                (after_submit-Kept w0 _
                  (log_if_root-Keeps locks time alloc site root (release w0 Unit) tt
                    (λ w'.
                      submit_logging locks time alloc Build.release_build site root 3 w' root
                        (assert_record alloc root which (site place which) w'))
                    w (should_log 2 w root fatal) kept
                    (submit_logging-Keeps locks time alloc site root (release w0 Unit) tt 3 w root _
                      kept))
                  logged)
                w' (rw logged at e)
        ]

  module _ (alone : (w0.loggers root).root ≡ none)
      (words : (n : ℕ) (which : Assertion) → AreWords (site n which).origin (site n which).line)
      (fits : (n : ℕ) (which : Assertion)
        → DatesFit time (site n which).origin.timestamp (w0.loggers root).formatter.items) where
    log_failed-Ends :
        (place : ℕ) (which : Assertion) (w : World)
        → SameAs w0 w
        → Ends
            (release w0 ⊥)
            (log_failed locks time alloc Build.release_build site root place which w)
    log_failed-Ends place which w kept =
        let (answer, answered) =
          should_log-root locks time alloc site root (release w0 ⊥) alone words fits 1 w fatal
            kept in
        elim (Bool-cases answer) [
          | inl logs ↦
              rw (answered, logs)
                (root-Ends locks time alloc site root (release w0 ⊥) alone words fits 2 place which
                  w kept)
          | inr refuses ↦ rw (answered, refuses) kept
        ]

    pub log_all_ends :
        (failed : List Assertion) (place : ℕ) (w : World)
        → SameAs w0 w
        → (w' : World) × (log_all locks time alloc Build.release_build site root place failed w
            ≡ some w')
    unfolding log_all
    log_all_ends [] place w kept = (w, refl)
    log_all_ends (which ∷ later) place w kept =
        let (w1, logged, kept1) = world_after w0 _ (log_failed-Ends place which w kept) in
        let (w2, ended) = log_all_ends later (suc place) w1 kept1 in (w2, rw logged ended)

    pub submit_record_ends :
        (id : ℕ) (r : LogRecordView)
        → ((above : ℕ) → (w0.loggers id).root ≡ some above → (w0.loggers above).root ≡ none)
        → (w' : World) × (after_submit
              (submit_record locks time alloc Build.release_build site root w0 id r)
            ≡ some w')
    submit_record_ends id r one_link =
        let (w1, ended, kept) = world_after w0 _ (
          submit_logging-Ends locks time alloc site root (release w0 ⊥) alone words fits w0 id r
            (refl, refl) one_link) in
        (w1, ended)
