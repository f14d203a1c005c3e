-- ===== src/Appender/Threads/Tests.antt =====
-- Two threads that share an appender, and the theorems on them at their run.
use pans.Appender.{Outputs, stdout, stream_of, empty_sink}
use pans.Appender.History.{run, append_text}
use pans.Appender.Threads.{
  append_job, flush_job, Event, called, locked, System, Runs, start, turn, call_append, call_flush,
  take_lock, write_some, write_done, unlock,
}
use pans.Appender.Threads.Last.{IsEnd, last_text}
use pans.Appender.Threads.Sequential.{threads_sequential}
use pans.Appender.Threads.Written.{threads_written}
use pans.Base.{ℕ, false, true, ◌≡◌, refl, List, [], ◌∷◌, ◌++◌, Bytes, codes}
use pans.LogLevel.{Level}

-- One appender, to the standard output.
abbrev outputs : Outputs
outputs = record {
  cout = empty_sink;
  error_output = [];
  files = λ _. empty_sink;
  file_count = 0;
  impls = λ _. record { target = stdout; level = Level.debug };
  impl_count = 1;
}

abbrev log : List (ℕ × Event)
log =
    (1, locked (append_job Level.warn (codes "cd")))
    ∷ (2, called flush_job)
    ∷ (1, called (append_job Level.warn (codes "cd")))
    ∷ (0, locked (append_job Level.info (codes "ab")))
    ∷ (0, called (append_job Level.info (codes "ab")))
    ∷ []

-- Threads 1 and 2 come while thread 0 has the mutex, and thread 1 takes it next and writes a byte.
abbrev shared : (s : System) × Runs 0 stdout outputs log s
shared = (
  _,
  turn 1
      (turn 1
        (turn 0
          (turn 0
            (turn 0
              (turn 0
                (turn 2
                  (turn 1
                    (turn 0 (turn 0 start (call_append Level.info (codes "ab") refl))
                      (take_lock (append_job Level.info (codes "ab")) refl))
                    (call_append Level.warn (codes "cd") refl))
                  call_flush)
                (write_some Level.info (codes "ab") (codes "a") (codes "b") refl))
              (write_some Level.info (codes "b") (codes "b") [] refl))
            (write_done Level.info))
          unlock)
        (take_lock (append_job Level.warn (codes "cd")) refl))
      (write_some Level.warn (codes "cd") (codes "c") (codes "d") refl),
)

-- Thread 1 is done.
abbrev rested : (s : System) × Runs 0 stdout outputs log s
rested = (
  _,
  turn 1
      (turn 1 (turn 1 shared.1 (write_some Level.warn (codes "d") (codes "d") [] refl))
        (write_done Level.warn))
      unlock,
)

threads_written_example :
    (rest : Bytes) × ((stream_of stdout shared.0.outputs).written ++ rest ≡ codes "abcd")
    × IsEnd rest (last_text log)
    × (shared.0.held ≡ false → rest ≡ [])
threads_written_example = threads_written 0 stdout outputs shared.1

threads_sequential_example :
    rested.0.outputs
    ≡ run
        (λ _. true)
        (λ _. true)
        (append_text 0 Level.info (codes "ab") ∷ append_text 0 Level.warn (codes "cd") ∷ [])
        outputs
threads_sequential_example = threads_sequential 0 stdout (λ _. true) outputs refl rested.1 tt refl
