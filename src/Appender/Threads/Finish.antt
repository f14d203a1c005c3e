-- ===== src/Appender/Threads/Finish.antt =====
-- What a thread under the mutex of an appender (pans/src/Logger/apender.cc) still does to the outputs,
-- and that the threads outside do not interfere.
use mathlib.Core.Path.{fun_ext}
use pans.Appender.{
  write_sink, flush_sink, sync_sink, on_target, Outputs, Sink, Target, stdout, file, update,
  is_fatal, write_unlocked, flush_unlocked, sync_unlocked, set_level,
}
use pans.Appender.Threads.{
  Job, append_job, flush_job, sync_job, Pc, outside, waiting, writing, flushing, syncing, leaving,
  enter, after_write, lock_threw, Event, called, locked, lock_failed, level_set,
}
use pans.Base.{
  ℕ, Bool, true, false, ◌≡◌, refl, ap, ◌∙◌, ◌==◌, ==_iff, List, [], ◌∷◌, ◌++◌, Bytes, append-nil,
  append_assoc, if◌then◌else◌, Bool-cases, inl, inr,
}
use pans.LogLevel.{Level}

-- Between the constructor of the `lock_guard` and its destructor.
abbrev pub is_inside : Pc → Bool
is_inside outside = false
is_inside (waiting job) = false
is_inside _ = true

module _ (target : Target) where
  -- What a thread at a place under the mutex still does to the outputs.
  abbrev pub finish : Pc → Outputs → Outputs
  finish (writing level rest) o =
      if is_fatal level
      then flush_unlocked target (write_unlocked rest target o)
      else write_unlocked rest target o
  finish flushing o = flush_unlocked target o
  finish syncing o = sync_unlocked target o
  finish _ o = o

-- Two updates at one place, and an update by what is there.
update_twice {ℓ} :
    {A : Type ℓ} (f : ℕ → A) (h : ℕ) (a b : A) → update (update f h a) h b ≡ update f h b
update_twice f h a b =
    fun_ext λ j. elim (Bool-cases (h == j)) [ inl same ↦ rw same refl | inr other ↦ rw other refl ]

update_self {ℓ} : {A : Type ℓ} (f : ℕ → A) (h : ℕ) → update f h (f h) ≡ f
update_self f h = fun_ext λ j. elim (Bool-cases (h == j)) [
  | inl same ↦ rw same (ap f ((==_iff h j).0 same))
  | inr other ↦ rw other refl
]

write_sink-append :
    (chunk rest : Bytes) (sink : Sink)
    → write_sink rest (write_sink chunk sink) ≡ write_sink (chunk ++ rest) sink
write_sink-append chunk rest sink =
    ap (λ text. record sink { written = text }) (append_assoc sink.written chunk rest)

write_sink-nil : (sink : Sink) → write_sink [] sink ≡ sink
write_sink-nil sink = ap (λ text. record sink { written = text }) (append-nil sink.written)

write_unlocked-append :
    (target : Target) (chunk rest : Bytes) (o : Outputs)
    → write_unlocked rest target (write_unlocked chunk target o)
      ≡ write_unlocked (chunk ++ rest) target o
unfolding write_unlocked
write_unlocked-append stdout chunk rest o =
    ap (λ sink. record o { cout = sink }) (write_sink-append chunk rest o.cout)
write_unlocked-append (file h) chunk rest o =
    ap (λ files. record o { files = files })
      (rw ((==_iff h h).1 refl) (
        update_twice o.files h _ _
        ∙ ap (update o.files h) (write_sink-append chunk rest (o.files h))))

write_unlocked-nil : (target : Target) (o : Outputs) → write_unlocked [] target o ≡ o
unfolding write_unlocked
write_unlocked-nil stdout o = ap (λ sink. record o { cout = sink }) (write_sink-nil o.cout)
write_unlocked-nil (file h) o =
    ap (λ files. record o { files = files })
      (ap (update o.files h) (write_sink-nil (o.files h)) ∙ update_self o.files h)

-- What a thread outside of the mutex does to the outputs.
abbrev pub aside : ℕ → Event → Outputs → Outputs
aside id (lock_failed job) o = lock_threw job o
aside id (level_set level) o = set_level id level o
aside id _ o = o

-- A thread in a file does not see it.
on_target-threw :
    (f : Sink → Sink) (target : Target) (job : Job) (o : Outputs)
    → on_target f target (lock_threw job o) ≡ lock_threw job (on_target f target o)
on_target-threw f stdout (append_job level text) o = refl
on_target-threw f (file h) (append_job level text) o = refl
on_target-threw f target flush_job o = refl
on_target-threw f target sync_job o = refl

on_target-set_level :
    (f : Sink → Sink) (target : Target) (id : ℕ) (level : Level) (o : Outputs)
    → on_target f target (set_level id level o) ≡ set_level id level (on_target f target o)
on_target-set_level f stdout id level o = refl
on_target-set_level f (file h) id level o = refl

on_target-aside :
    (f : Sink → Sink) (target : Target) (id : ℕ) (event : Event) (o : Outputs)
    → on_target f target (aside id event o) ≡ aside id event (on_target f target o)
on_target-aside f target id (called job) o = refl
on_target-aside f target id (locked job) o = refl
on_target-aside f target id (lock_failed job) o = on_target-threw f target job o
on_target-aside f target id (level_set level) o = on_target-set_level f target id level o

sync_unlocked-aside :
    (target : Target) (id : ℕ) (event : Event) (o : Outputs)
    → sync_unlocked target (aside id event o) ≡ aside id event (sync_unlocked target o)
unfolding flush_unlocked sync_unlocked
sync_unlocked-aside stdout id event o = on_target-aside flush_sink stdout id event o
sync_unlocked-aside (file h) id event o =
    ap (on_target sync_sink (file h)) (on_target-aside flush_sink (file h) id event o)
    ∙ on_target-aside sync_sink (file h) id event (on_target flush_sink (file h) o)

-- It does not matter to the thread under the mutex.
pub finish-aside :
    (target : Target) (id : ℕ) (event : Event) (p : Pc) (o : Outputs)
    → finish target p (aside id event o) ≡ aside id event (finish target p o)
unfolding write_unlocked flush_unlocked
finish-aside target id event (writing level rest) o = elim (Bool-cases (is_fatal level)) [
  | inl dies ↦
      rw (dies, on_target-aside (write_sink rest) target id event o)
        (on_target-aside flush_sink target id event _)
  | inr lives ↦ rw lives (on_target-aside (write_sink rest) target id event o)
]
finish-aside target id event flushing o = on_target-aside flush_sink target id event o
finish-aside target id event syncing o = sync_unlocked-aside target id event o
finish-aside target id event outside o = refl
finish-aside target id event (waiting job) o = refl
finish-aside target id event leaving o = refl

pub finish-write :
    (target : Target) (level : Level) (chunk rest : Bytes) (o : Outputs)
    → finish target (writing level rest) (write_unlocked chunk target o)
      ≡ finish target (writing level (chunk ++ rest)) o
finish-write target level chunk rest o = rw (write_unlocked-append target chunk rest o) refl

pub finish-after_write :
    (target : Target) (level : Level) (o : Outputs)
    → finish target (after_write level) o ≡ finish target (writing level []) o
finish-after_write target level o = elim (Bool-cases (is_fatal level)) [
  | inl dies ↦ rw (dies, write_unlocked-nil target o) refl
  | inr lives ↦ rw (lives, write_unlocked-nil target o) refl
]

-- What an event does to the outputs where a call is done at once.
abbrev pub commit : Target → ℕ → Event → Outputs → Outputs
commit target id (locked job) o = finish target (enter job) o
commit target id event o = aside id event o

-- The events one after the other.
abbrev pub replay : Target → ℕ → List (ℕ × Event) → Outputs → Outputs
replay target id [] o = o
replay target id ((i, event) ∷ log) o = commit target id event (replay target id log o)
