-- ===== src/Appender/Threads.antt =====
-- One appender of pans/src/Logger/apender.cc used by any number of threads: the steps of
-- `Appender::Impl::append`, `flush`, `sync` and `setLevel`, which come in any order, with the
-- bytes of a record written a few at a time.
pub mod Finish
pub mod Atomic
pub mod Last
pub mod Written
pub mod Sequential
mod Tests
use pans.Appender.{
  Outputs, Target, is_fatal, write_unlocked, flush_unlocked, sync_unlocked, set_level,
  append_failed_message, size_of_string_view,
}
use pans.Base.Turns.{update_pc, note}
use pans.Base.{
  ℕ, Bool, true, false, ◌≡◌, ◌==◌, Option, none, some, List, [], ◌∷◌, ◌++◌, Bytes, ltb,
  if◌then◌else◌, take,
}
use pans.LogLevel.{Level, to_u8}

-- A call that locks the mutex.
pub data Job : Type 0 where
  append_job : Level → Bytes → Job
  flush_job : Job
  sync_job : Job

-- Where a thread stands: outside, before the constructor of its `lock_guard`, in `writeUnlocked` with
-- the bytes that are left, before `flushUnlocked` or `syncUnlocked`, or before the destructor.
pub data Pc : Type 0 where
  outside : Pc
  waiting : Job → Pc
  writing : Level → Bytes → Pc
  flushing : Pc
  syncing : Pc
  leaving : Pc

-- Behind the constructor of the `lock_guard`.
abbrev pub enter : Job → Pc
enter (append_job level text) = writing level text
enter flush_job = flushing
enter sync_job = syncing

-- Behind `writeUnlocked`.
abbrev pub after_write : Level → Pc
after_write level = if is_fatal level then flushing else leaving

-- What a call comes to where the mutex throws: `append` writes a message, the others let the exception
-- go to the caller.
abbrev pub lock_threw : Job → Outputs → Outputs
lock_threw (append_job level text) o = record o {
  error_output = o.error_output ++ take size_of_string_view append_failed_message;
}
lock_threw _ o = o

-- What is noted of a step: a call that passes the test of the level, the lock it takes or the
-- exception it gets, and a level that is set.
pub data Event : Type 0 where
  called : Job → Event
  locked : Job → Event
  lock_failed : Job → Event
  level_set : Level → Event

pub record System : Type 0 where
  pub outputs : Outputs
  pub held : Bool
  pub pc : ℕ → Pc

-- The appender, and what its class writes to.
module _ (id : ℕ) (target : Target) where
  -- One step of a thread, from the mutex, the outputs and its place to those afterwards.
  pub data Move (held : Bool) (o : Outputs) : Pc → Option Event → Bool → Outputs → Pc → Type 0 where
    call_below :
        (level : Level) (text : Bytes)
        → ltb (to_u8 level) (to_u8 (o.impls id).level) ≡ true
        → Move held o outside none held o outside
    call_append :
        (level : Level) (text : Bytes)
        → ltb (to_u8 level) (to_u8 (o.impls id).level) ≡ false
        → Move held o outside
            (some (called (append_job level text)))
            held
            o
            (waiting (append_job level text))
    call_flush : Move held o outside (some (called flush_job)) held o (waiting flush_job)
    call_sync : Move held o outside (some (called sync_job)) held o (waiting sync_job)
    call_set_level :
        (level : Level)
        → Move held o outside (some (level_set level)) held (set_level id level o) outside
    take_lock :
        (job : Job)
        → held ≡ false
        → Move held o (waiting job) (some (locked job)) true o (enter job)
    throw_up :
        (job : Job)
        → Move held o (waiting job) (some (lock_failed job)) held (lock_threw job o) outside
    write_some :
        (level : Level) (text chunk rest : Bytes)
        → text ≡ chunk ++ rest
        → Move held o
            (writing level text)
            none
            held
            (write_unlocked chunk target o)
            (writing level rest)
    write_done : (level : Level) → Move held o (writing level []) none held o (after_write level)
    flush_it : Move held o flushing none held (flush_unlocked target o) leaving
    sync_it : Move held o syncing none held (sync_unlocked target o) leaving
    unlock : Move held o leaving none false o outside

  -- The threads take turns, from outputs where the mutex is free and every thread is outside.
  pub data Runs (o : Outputs) : List (ℕ × Event) → System → Type 0 where
    start : Runs o [] (record { outputs = o; held = false; pc = λ _. outside })
    turn :
        (i : ℕ) {log : List (ℕ × Event)} {s : System} {event : Option Event} {held' : Bool}
        {o' : Outputs} {q : Pc}
        → Runs o log s
        → Move s.held s.outputs (s.pc i) event held' o' q
        → Runs o (note i event log) (record { outputs = o'; held = held'; pc = update_pc s.pc i q })
