-- ===== src/Logger/Threads/Tests.antt =====
-- Three threads that use a logger, and the theorems on them at their run.
use pans.Base.Turns.{own}
use pans.Base.{ℕ, true, false, ◌≡◌, refl, some, [], ◌∷◌, List, arith}
use pans.Formatter.Pattern.{Formatter}
use pans.LogLevel.{Level}
use pans.Logger.Samples.{root_logger}
use pans.Logger.Threads.{
  submit_job, flush_job, remove_appender, Event, began, did, finished, changed, System, initial,
  Runs, start, turn, call_submit, call_flush, call_change, lock_shared, start_loop, call_appender,
  end_loop, unlock_shared, lock_unique, do_change, unlock_unique,
}
use pans.Logger.Threads.Progress.{in_call, is_undefined, CanMove, threads_progress}
use pans.Logger.Threads.Replay.{threads_snapshot}
use pans.Logger.Threads.Trace.{Owed, Trace, Found, Kept, formatter_after, appenders_after}
use pans.Formatter.Samples.{log_record}

abbrev formatter : Formatter
formatter = root_logger.formatter

abbrev first : System
first = initial Level.info formatter (3 ∷ 4 ∷ [])

abbrev flushed_log : List (ℕ × Event)
flushed_log =
    (1, changed (remove_appender (some 3)))
    ∷ (0, finished)
    ∷ (0, did flush_job formatter (some 4))
    ∷ (0, did flush_job formatter (some 3))
    ∷ (0, began flush_job formatter (3 ∷ 4 ∷ []))
    ∷ []

abbrev log : List (ℕ × Event)
log =
    (2, did (submit_job log_record) formatter (some 4))
    ∷ (2, began (submit_job log_record) formatter (4 ∷ []))
    ∷ flushed_log

-- Thread 0 flushes while thread 1 waits to remove the first appender; then thread 1 waits no longer.
abbrev removed : (s : System) × Runs first flushed_log s
removed = (
  _,
  turn 1
      (turn 1
        (turn 0
          (turn 0
            (turn 0
              (turn 0
                (turn 1
                  (turn 0 (turn 0 (turn 0 start call_flush) (lock_shared flush_job refl))
                    (start_loop flush_job refl refl))
                  (call_change (remove_appender (some 3))))
                (call_appender flush_job formatter 0 2 (omega arith)))
              (call_appender flush_job formatter 1 2 (omega arith)))
            (end_loop flush_job formatter 2 2 refl))
          unlock_shared)
        (lock_unique (remove_appender (some 3)) refl refl))
      (do_change (remove_appender (some 3))),
)

-- Thread 2 submits a record, for which it waits until thread 1 is done.
abbrev submitting : (s : System) × Runs first log s
submitting = (
  _,
  turn 2
      (turn 2
        (turn 2 (turn 1 (turn 2 removed.1 (call_submit log_record refl)) unlock_unique)
          (lock_shared (submit_job log_record) refl))
        (start_loop (submit_job log_record) refl refl))
      (call_appender (submit_job log_record) formatter 0 1 (omega arith)),
)

threads_snapshot_example :
    Found formatter (3 ∷ 4 ∷ []) log
    × (owed : Owed) × Trace (own 2 log) owed
    × Kept (formatter_after formatter log) (appenders_after (3 ∷ 4 ∷ []) log) owed
threads_snapshot_example = threads_snapshot 2 submitting.1

all_defined : (j : ℕ) → is_undefined (submitting.0.pc j) ≡ false
all_defined j = ground arith

threads_progress_example :
    (j : ℕ) × (in_call (submitting.0.pc j) ≡ true)
    × CanMove j submitting.0.shared (submitting.0.pc j)
threads_progress_example = threads_progress 2 submitting.1 all_defined refl
