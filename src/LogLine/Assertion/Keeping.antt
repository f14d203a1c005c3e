-- ===== src/LogLine/Assertion/Keeping.antt =====
-- Whatever is logged while a record is submitted (pans/src/Logger/Logger.cc), no logger changes.
use pans.Base.{
  ℕ, zero, suc, Bool, none, some, Option, true, false, ltb, is_empty, Bool-cases, Option-cases, inl,
  inr,
}
use pans.Buffer.{Allocator, empty_buffer}
use pans.Formatter.{TimeLibrary, formatted_record_inline_capacity}
use pans.LogLevel.{fatal, to_u8}
use pans.LogLine.Assertion.{Site, assert_record, log_if_root, submit_logging}
use pans.LogLine.Assertion.Ending.{
  Bound, Kept, Ends, format_logging-FormatEnds, after_formatted-Ends,
}
use pans.Logger.{World, Submitted, should_log}
use pans.Macros.{Assertion}
use pans.Record.{LogRecordView}

-- Here the end of the fuel is an end.
module _ (locks : ℕ → Bool) {Tm : Type 0} (time : TimeLibrary Tm) (alloc : Allocator)
    (site : ℕ → Assertion → Site) (root : ℕ) (bound : Bound) (given : bound.exhausted) where
  pub log_if_root-Keeps :
      (log : World → Submitted) (w : World) (answer : Option Bool)
      → Kept bound w
      → Ends bound (log w)
      → Ends bound (log_if_root locks time alloc bound.build site root log w answer)
  log_if_root-Keeps log w none e ended = given
  log_if_root-Keeps log w (some false) e ended = e
  log_if_root-Keeps log w (some true) e ended = ended

  pub submit_logging-Keeps :
      (fuel : ℕ) (w : World) (id : ℕ) (r : LogRecordView)
      → Kept bound w
      → Ends bound (submit_logging locks time alloc bound.build site root fuel w id r)
  unfolding submit_logging
  submit_logging-Keeps zero w id r e = given
  submit_logging-Keeps (suc fuel) w id r e =
      elim (Bool-cases (ltb (to_u8 r.level) (to_u8 (w.loggers id).level))) [
        | inl below ↦ rw below e
        | inr passes ↦ elim (Bool-cases (is_empty (w.loggers id).appenders)) [
          | inr served ↦
              rw (passes, served)
                (after_formatted-Ends bound locks time alloc site root (w.loggers id).appenders
                  r.level _
                  (format_logging-FormatEnds bound
                    (λ which w'.
                      log_if_root locks time alloc bound.build site root
                        (λ w''.
                          submit_logging locks time alloc bound.build site root fuel w'' root
                            (assert_record alloc root which (site fuel which) w''))
                        w' (should_log (suc fuel) w' root fatal))
                    (λ which w' e'.
                      log_if_root-Keeps
                        (λ w''.
                          submit_logging locks time alloc bound.build site root fuel w'' root
                            (assert_record alloc root which (site fuel which) w''))
                        w' (should_log (suc fuel) w' root fatal) e'
                        (submit_logging-Keeps fuel w' root
                          (assert_record alloc root which (site fuel which) w') e'))
                    locks time alloc site root (w.loggers id).formatter.items r w
                    (empty_buffer formatted_record_inline_capacity) e))
          | inl bare ↦ elim (Option-cases (w.loggers id).root) [
            | inl unlinked ↦ rw (passes, bare, unlinked) e
            | inr (above, linked) ↦
                rw (passes, bare, linked) (submit_logging-Keeps fuel w above r e)
          ]
        ]
      ]
