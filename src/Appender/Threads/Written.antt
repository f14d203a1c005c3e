-- ===== src/Appender/Threads/Written.antt =====
-- The bytes that threads write through a shared appender (pans/src/Logger/apender.cc).
use pans.Appender.{
  Outputs, Target, stdout, file, stream_of, is_fatal, write_unlocked, flush_unlocked, sync_unlocked,
}
use pans.Appender.Threads.{
  append_job, flush_job, sync_job, Pc, outside, waiting, writing, flushing, syncing, leaving, Event,
  called, locked, lock_failed, level_set, System, Runs,
}
use pans.Appender.Threads.Last.{left, last_text, IsEnd, Runs-IsEnd}
use pans.Appender.Threads.Atomic.{idle, busy, Runs-Settled}
use pans.Appender.Threads.Finish.{finish, aside, replay}
use pans.Base.{
  ℕ, false, ◌≡◌, refl, sym, ap, ◌∙◌, ==_iff, List, [], ◌∷◌, ◌++◌, Bytes, append-nil, append_assoc,
  Bool-cases, inl, inr,
}

-- The records whose calls have taken the mutex, in the order in which they did.
abbrev pub texts : List (ℕ × Event) → Bytes
texts [] = []
texts ((i, locked (append_job level text)) ∷ log) = texts log ++ text
texts (_ ∷ log) = texts log

write_unlocked-written :
    (target : Target) (text : Bytes) (o : Outputs)
    → (stream_of target (write_unlocked text target o)).written
      ≡ (stream_of target o).written ++ text
unfolding write_unlocked
write_unlocked-written stdout text o = refl
write_unlocked-written (file h) text o = rw ((==_iff h h).1 refl) refl

flush_unlocked-written :
    (target : Target) (o : Outputs)
    → (stream_of target (flush_unlocked target o)).written ≡ (stream_of target o).written
unfolding flush_unlocked
flush_unlocked-written stdout o = refl
flush_unlocked-written (file h) o = rw ((==_iff h h).1 refl) refl

sync_unlocked-written :
    (target : Target) (o : Outputs)
    → (stream_of target (sync_unlocked target o)).written ≡ (stream_of target o).written
unfolding flush_unlocked sync_unlocked
sync_unlocked-written stdout o = refl
sync_unlocked-written (file h) o = rw ((==_iff h h).1 refl) refl

finish-written :
    (target : Target) (p : Pc) (o : Outputs)
    → (stream_of target (finish target p o)).written ≡ (stream_of target o).written ++ left p
finish-written target (writing level rest) o = elim (Bool-cases (is_fatal level)) [
  | inl dies ↦ rw dies (flush_unlocked-written target _ ∙ write_unlocked-written target rest o)
  | inr lives ↦ rw lives (write_unlocked-written target rest o)
]
finish-written target flushing o = flush_unlocked-written target o ∙ sym (append-nil _)
finish-written target syncing o = sync_unlocked-written target o ∙ sym (append-nil _)
finish-written target outside o = sym (append-nil _)
finish-written target (waiting job) o = sym (append-nil _)
finish-written target leaving o = sym (append-nil _)

-- Threads outside of the mutex write nothing to the stream.
aside-written :
    (target : Target) (id : ℕ) (event : Event) (o : Outputs)
    → (stream_of target (aside id event o)).written ≡ (stream_of target o).written
aside-written stdout id (lock_failed (append_job level text)) o = refl
aside-written (file h) id (lock_failed (append_job level text)) o = refl
aside-written target id (lock_failed flush_job) o = refl
aside-written target id (lock_failed sync_job) o = refl
aside-written stdout id (level_set level) o = refl
aside-written (file h) id (level_set level) o = refl
aside-written target id (called job) o = refl
aside-written target id (locked job) o = refl

replay-written :
    (target : Target) (id : ℕ) (log : List (ℕ × Event)) (o : Outputs)
    → (stream_of target (replay target id log o)).written
      ≡ (stream_of target o).written ++ texts log
replay-written target id [] o = sym (append-nil _)
replay-written target id ((i, locked (append_job level text)) ∷ log) o =
    finish-written target (writing level text) (replay target id log o)
    ∙ ap (λ t. t ++ text) (replay-written target id log o)
    ∙ append_assoc (stream_of target o).written (texts log) text
replay-written target id ((i, locked flush_job) ∷ log) o =
    flush_unlocked-written target _ ∙ replay-written target id log o
replay-written target id ((i, locked sync_job) ∷ log) o =
    sync_unlocked-written target _ ∙ replay-written target id log o
replay-written target id ((i, called job) ∷ log) o = replay-written target id log o
replay-written target id ((i, lock_failed job) ∷ log) o =
    aside-written target id (lock_failed job) _ ∙ replay-written target id log o
replay-written target id ((i, level_set level) ∷ log) o =
    aside-written target id (level_set level) _ ∙ replay-written target id log o

-- However threads use an appender at once, the records come to its stream whole, behind what was there
-- and in the order in which their calls took the mutex: all of them where the mutex is free, and all
-- but an end of the text of the call that took it last, still to be written, where it is held.
pub threads_written :
    (id : ℕ) (target : Target) (o : Outputs) {log : List (ℕ × Event)} {s : System}
    → Runs id target o log s
    → (rest : Bytes) × ((stream_of target s.outputs).written ++ rest
        ≡ (stream_of target o).written ++ texts log)
      × IsEnd rest (last_text log)
      × (s.held ≡ false → rest ≡ [])
threads_written id target o {log} {s} r = elim (Runs-Settled target id o r) [
  | idle free nobody e ↦ (
    [],
    append-nil _ ∙ ap (λ o'. (stream_of target o').written) e ∙ replay-written target id log o,
    (last_text log, append-nil (last_text log)),
    λ _. refl,
  )
  | busy i held at unique e ↦ (
    left (s.pc i),
    sym (finish-written target (s.pc i) s.outputs)
        ∙ ap (λ o'. (stream_of target o').written) e
        ∙ replay-written target id log o,
    Runs-IsEnd id target o i r at,
    λ free. absurd cc (held, free),
  )
]
