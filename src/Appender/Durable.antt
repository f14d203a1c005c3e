-- ===== src/Appender/Durable.antt =====
-- What `append`, `flush` and `sync` of an appender (pans/src/Logger/apender.cc) guarantee of the bytes
-- that were written.
use pans.Appender.{
  Sink, flush_sink, write_sink, sync_sink, Target, stdout, file, Outputs, on_target, write_unlocked,
  flush_unlocked, stream_of, sync_unlocked, unlocked, system_error, append, append_failed_message,
  sync,
}
use pans.Base.{
  ℕ, ◌≡◌, ◌≢◌, refl, ap, ◌∙◌, Bool, true, false, Bytes, ◌++◌, length, ltb, arith, Bool-cases, inl,
  inr, ◌⊎◌, codes, length-append,
}
use pans.LogLevel.{Level, fatal, to_u8}

pub on_target-stream_of :
    (f : Sink → Sink) (t : Target) (o : Outputs) → stream_of t (on_target f t o) ≡ f (stream_of t o)
on_target-stream_of f stdout o = refl
on_target-stream_of f (file h) o = ground arith

module _ (locks : ℕ → Bool) (id : ℕ) (o : Outputs) where
  abbrev target : Target
  target = (o.impls id).target

  append-fatal_stream :
      (text : Bytes)
      → locks id ≡ true
      → ltb (to_u8 fatal) (to_u8 (o.impls id).level) ≡ false
      → stream_of target (append locks id fatal text o)
        ≡ flush_sink (write_sink text (stream_of target o))
  unfolding append write_unlocked flush_unlocked
  append-fatal_stream text open_lock passes =
      rw (passes, open_lock)
        (on_target-stream_of flush_sink target (on_target (write_sink text) target o)
          ∙ ap flush_sink (on_target-stream_of (write_sink text) target o))

  -- A FATAL record that the appender lets through, with its mutex locked, stands behind all earlier
  -- bytes of its stream, and every byte of the stream has been handed to the system.
  pub append_fatal_flushes :
      (text : Bytes)
      → locks id ≡ true
      → ltb (to_u8 fatal) (to_u8 (o.impls id).level) ≡ false
      → ((stream_of target (append locks id fatal text o)).written
          ≡ (stream_of target o).written ++ text)
        × ((stream_of target (append locks id fatal text o)).flushed
            ≡ length (stream_of target (append locks id fatal text o)).written)
  append_fatal_flushes text open_lock passes =
      rw (append-fatal_stream text open_lock passes) (refl, refl)

  sync-stream_of :
      (h : ℕ) → stream_of (file h) (sync_unlocked (file h) o) ≡ sync_sink (flush_sink (o.files h))
  unfolding sync_unlocked flush_unlocked
  sync-stream_of h =
      on_target-stream_of sync_sink (file h) (on_target flush_sink (file h) o)
      ∙ ap sync_sink (on_target-stream_of flush_sink (file h) o)

  -- A `sync` of a file's appender throws and changes nothing, which is where the mutex cannot be
  -- locked, or it returns, and then all bytes that the file was given are on the disk, and none was
  -- added.
  pub sync_durable :
      (h : ℕ)
      → target ≡ file h
      → ((locks id ≡ false) × (sync locks id o ≡ system_error o))
        ⊎ ((o' : Outputs) × (sync locks id o ≡ unlocked o')
            × ((o'.files h).written ≡ (o.files h).written)
            × ((o'.files h).synced ≡ length (o'.files h).written))
  unfolding sync
  sync_durable h e = elim (Bool-cases (locks id)) [
    | inl open_lock ↦ inr (
      sync_unlocked (file h) o,
      rw (open_lock, e) refl,
      ap (λ (s : Sink). s.written) (sync-stream_of h),
      rw (sync-stream_of h) refl,
    )
    | inr stuck ↦ inl (stuck, rw stuck refl)
  ]

  -- Where the mutex cannot be locked, the record is dropped and the message for that is cut short:
  -- the standard error output gets the first 16 of its 39 bytes.
  append_lock_failed :
      (level : Level) (text : Bytes)
      → locks id ≡ false
      → ltb (to_u8 level) (to_u8 (o.impls id).level) ≡ false
      → (append locks id level text o
          ≡ record o { error_output = o.error_output ++ codes "pans logger: app" })
        × ((append locks id level text o).error_output ≢ o.error_output ++ append_failed_message)
  unfolding append
  append_lock_failed level text stuck passes =
      rw (passes, stuck)
        (
          refl,
          λ e. absurd (
              omega (
                arith,
                length-append o.error_output (codes "pans logger: app"),
                length-append o.error_output append_failed_message,
                ap length e,
              )),
        )
