-- ===== src/Logger/Threads.antt =====
-- One logger of pans/src/Logger/Logger.cc used by any number of threads: the steps of
-- `Logger::Impl::submit`, `flush`, `sync`, `shouldLog`, `getFormatter`, `setLevel`, `setFormatter`, `addAppender`, `removeAppender` and
-- `clearAppenders`, which come in any order. The shared mutex is modelled by who holds it.
pub mod Trace
pub mod Held
pub mod Snapshot
pub mod Replay
pub mod Progress
mod Tests
use pans.Base.Turns.{update_pc, note}
use pans.Base.{
  ℕ, suc, Bool, true, false, not, ◌||◌, ◌≡◌, ◌==◌, ◌<◌, Option, none, some, List, [], ◌∷◌, ◌++◌,
  ltb, if◌then◌else◌, is_empty, length, get_elem?,
}
use pans.Formatter.Pattern.{Formatter}
use pans.LogLevel.{Level, to_u8}
use pans.Logger.{erase}
use pans.Record.{LogRecordView}

-- A call that locks the mutex for reading.
pub data Job : Type 0 where
  submit_job : LogRecordView → Job
  flush_job : Job
  sync_job : Job
  should_log_job : Level → Job
  get_formatter_job : Job

-- A call that locks it for writing.
pub data Change : Type 0 where
  set_formatter : Formatter → Change
  add_appender : ℕ → Change
  remove_appender : Option ℕ → Change
  clear_appenders : Change

-- Where a thread stands: outside; before the constructor of its `shared_lock`, before the test for no
-- appenders, in the loop over the appenders, with the formatter that has formatted the record, the
-- iterator and the end, or before the destructor; before `root_->...`; before the constructor of its
-- `unique_lock`, before the change, or before the destructor. A thread that locks the mutex again while
-- it holds it is at `undefined`, and stays there.
pub data Pc : Type 0 where
  outside : Pc
  wants_shared : Job → Pc
  testing : Job → Pc
  looping : Job → Formatter → ℕ → ℕ → Pc
  leaving : Pc
  passing : Job → Pc
  wants_unique : Change → Pc
  changing : Change → Pc
  leaving_unique : Pc
  undefined : Job → Pc

-- `level_`, `formatter_`, `appenders_`, and the threads that hold `mutex_`, shared or not.
pub record Shared : Type 0 where
  pub level : Level
  pub formatter : Formatter
  pub appenders : List ℕ
  pub sharers : List ℕ
  pub owner : Option ℕ

-- What is done under the `unique_lock`.
abbrev pub change : Change → Shared → Shared
change (set_formatter formatter) s = record s { formatter = formatter }
change (add_appender appender) s = record s { appenders = s.appenders ++ appender ∷ [] }
change (remove_appender appender) s = record s { appenders = erase appender s.appenders }
change clear_appenders s = record s { appenders = [] }

-- Only `submit` catches what formatting throws, and only `flush` and `sync` of an appender throw.
abbrev pub is_submit : Job → Bool
is_submit (submit_job r) = true
is_submit _ = false

-- `getFormatter`, which is no concern of the root logger.
abbrev pub is_own : Job → Bool
is_own get_formatter_job = true
is_own _ = false

-- What answers under the lock: `getFormatter`, and `shouldLog` where there are appenders.
abbrev pub is_query : Job → Bool
is_query (should_log_job level) = true
is_query get_formatter_job = true
is_query _ = false

-- What is noted of a step: what a shared lock finds, one call on the appender at the iterator, the end
-- of the loop, an answer, an exception, a call handed on, and a change. `none` is an iterator past the end.
pub data Event : Type 0 where
  began : Job → Formatter → List ℕ → Event
  did : Job → Formatter → Option ℕ → Event
  finished : Event
  answered : Event
  threw : Event
  handed_on : Job → Event
  changed : Change → Event

-- One step of thread `i`. Where the logger is the root logger, an item whose assertion fails logs a record
-- to the logger that formats it: `shouldLog` then locks the mutex again that the thread holds, which is
-- undefined behaviour, and the step is `reenters`. Where it is another logger, that record goes to the
-- root logger's mutex, and formatting goes on. A step is from what the threads share and its place to those afterwards.
pub data Move (i : ℕ) (s : Shared) : Pc → Option Event → Shared → Pc → Type 0 where
  submit_below :
      (r : LogRecordView)
      → ltb (to_u8 r.level) (to_u8 s.level) ≡ true
      → Move i s outside none s outside
  call_submit :
      (r : LogRecordView)
      → ltb (to_u8 r.level) (to_u8 s.level) ≡ false
      → Move i s outside none s (wants_shared (submit_job r))
  call_flush : Move i s outside none s (wants_shared flush_job)
  call_sync : Move i s outside none s (wants_shared sync_job)
  should_log_below :
      (level : Level) → ltb (to_u8 level) (to_u8 s.level) ≡ true → Move i s outside none s outside
  call_should_log :
      (level : Level)
      → ltb (to_u8 level) (to_u8 s.level) ≡ false
      → Move i s outside none s (wants_shared (should_log_job level))
  call_get_formatter : Move i s outside none s (wants_shared get_formatter_job)
  call_set_level : (level : Level) → Move i s outside none (record s { level = level }) outside
  call_change : (c : Change) → Move i s outside none s (wants_unique c)
  lock_shared :
      (job : Job)
      → s.owner ≡ none
      → Move i s
          (wants_shared job)
          (some (began job s.formatter s.appenders))
          (record s { sharers = i ∷ s.sharers })
          (testing job)
  no_appenders :
      (job : Job)
      → is_own job ≡ false
      → is_empty s.appenders ≡ true
      → Move i s
          (testing job)
          (some (handed_on job))
          (record s { sharers = erase (some i) s.sharers })
          (passing job)
  hand_on : (job : Job) → Move i s (passing job) none s outside
  answer_it :
      (job : Job)
      → is_query job ≡ true
      → is_own job || not (is_empty s.appenders) ≡ true
      → Move i s (testing job) (some answered) s leaving
  reenters :
      (r : LogRecordView)
      → is_empty s.appenders ≡ false
      → Move i s (testing (submit_job r)) none s (undefined (submit_job r))
  format_throws :
      (r : LogRecordView)
      → is_empty s.appenders ≡ false
      → Move i s (testing (submit_job r)) (some threw) s leaving
  start_loop :
      (job : Job)
      → is_query job ≡ false
      → is_empty s.appenders ≡ false
      → Move i s (testing job) none s (looping job s.formatter 0 (length s.appenders))
  call_appender :
      (job : Job) (formatter : Formatter) (k end : ℕ)
      → k < end
      → Move i s
          (looping job formatter k end)
          (some (did job formatter (get_elem? s.appenders k)))
          s
          (looping job formatter (suc k) end)
  appender_throws :
      (job : Job) (formatter : Formatter) (k end : ℕ)
      → k < end
      → is_submit job ≡ false
      → Move i s (looping job formatter k end) (some threw) s leaving
  end_loop :
      (job : Job) (formatter : Formatter) (k end : ℕ)
      → k ≡ end
      → Move i s (looping job formatter k end) (some finished) s leaving
  unlock_shared : Move i s leaving none (record s { sharers = erase (some i) s.sharers }) outside
  lock_unique :
      (c : Change)
      → s.owner ≡ none
      → s.sharers ≡ []
      → Move i s (wants_unique c) none (record s { owner = some i }) (changing c)
  do_change : (c : Change) → Move i s (changing c) (some (changed c)) (change c s) leaving_unique
  unlock_unique : Move i s leaving_unique none (record s { owner = none }) outside

pub record System : Type 0 where
  pub shared : Shared
  pub pc : ℕ → Pc

-- Nobody holds the mutex, and every thread is outside.
abbrev pub initial : Level → Formatter → List ℕ → System
initial level formatter appenders = record {
  shared = record {
    level = level;
    formatter = formatter;
    appenders = appenders;
    sharers = [];
    owner = none;
  };
  pc = λ _. outside;
}

pub data Runs (s0 : System) : List (ℕ × Event) → System → Type 0 where
  start : Runs s0 [] s0
  turn :
      (i : ℕ) {log : List (ℕ × Event)} {s : System} {event : Option Event} {after : Shared} {q : Pc}
      → Runs s0 log s
      → Move i s.shared (s.pc i) event after q
      → Runs s0 (note i event log) (record { shared = after; pc = update_pc s.pc i q })
