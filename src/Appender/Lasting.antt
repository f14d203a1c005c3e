-- ===== src/Appender/Lasting.antt =====
-- What a FATAL record and a `sync` of an appender (pans/src/Logger/apender.cc) guarantee for good.
use pans.Appender
use pans.Appender.{
  Outputs, Sink, empty_sink, write_sink, flush_sink, sync_sink, stream_of, Target, stdout, file,
  AppenderImpl, update, on_target, write_unlocked, flush_unlocked, sync_unlocked, Locked, unlocked,
  system_error, is_fatal, append, append_failed_message, size_of_string_view, Made, made,
  invalid_argument, open_failed, make_stdout_appender, make_file_appender, close_file, add_impl,
}
use pans.Base.{
  ℕ, ◌≡◌, ◌≤◌, ◌∙◌, sym, ap, length, true, false, Bool, List, ◌∷◌, ◌++◌, Bytes, ltb, arith, inl,
  inr,
}
use pans.LogLevel.{fatal, to_u8}
use mathlib.Core.Path.{subst}
use pans.Appender.Durable.{append_fatal_flushes, sync_durable}
use pans.Appender.Streams.{AllSound, IsOpened-Later, IsOpened}
use pans.Appender.History.{
  Event, append_text, sync_one, run, after_locked, append-Later, sync-Later, run-Later,
}

-- What becomes of the bytes that a stream held: they stay in place, and were handed to the system.
pub record Handed (held : Bytes) (later : Sink) : Type 0 where
  pub added : Bytes
  pub kept : later.written ≡ held ++ added
  pub handed : length held ≤ later.flushed

module _ (locks : ℕ → Bool) (opens : Bytes → Bool) (o : Outputs) (s : AllSound o) (id : ℕ)
    (locked : locks id ≡ true) (opened : IsOpened o (o.impls id).target) where
  -- A FATAL record that an appender with its mutex lets through stands behind all earlier bytes of its
  -- stream and has been handed to the system with them, and so it stays whatever is called afterwards.
  pub append-fatal_lasts :
      (text : Bytes) (events : List Event)
      → ltb (to_u8 fatal) (to_u8 (o.impls id).level) ≡ false
      → Handed
          ((stream_of (o.impls id).target o).written ++ text)
          (stream_of (o.impls id).target (run locks opens (append_text id fatal text ∷ events) o))
  unfolding run
  append-fatal_lasts text events passes =
      let first = append-Later locks o s id fatal text in
      let c =
        (run-Later locks opens events (append locks id fatal text o) first.all_sound).continues
          (o.impls id).target (IsOpened-Later first (o.impls id).target opened) in
      let (written, flushed) = append_fatal_flushes locks id o text locked passes in
      record {
        added = c.added;
        kept = c.grown ∙ ap (λ held. held ++ c.added) written;
        handed = omega (arith, c.handed, flushed, ap length written);
      }

  -- After a `sync` of a file's appender with its mutex, every byte that the file had is on the disk, in
  -- its place, and so it stays whatever is called afterwards.
  pub sync_lasts :
      (h : ℕ) (events : List Event)
      → (o.impls id).target ≡ file h
      → Handed (o.files h).written ((run locks opens (sync_one id ∷ events) o).files h)
        × (length (o.files h).written ≤ ((run locks opens (sync_one id ∷ events) o).files h).synced)
  unfolding run
  sync_lasts h events e = elim (sync_durable locks id o h e) [
    | inl (stuck, threw) ↦ absurd cc (locked, stuck)
    | inr (o', synced, same, all) ↦
        let first = sync-Later locks o s id in
        let c =
          (run-Later locks opens events after first.all_sound).continues (file h)
            (IsOpened-Later first (file h) (subst (IsOpened o) e opened)) in
        let here : after.files h ≡ o'.files h = ap (λ l. (after_locked l).files h) synced in
        let written : (after.files h).written ≡ (o.files h).written =
          ap (λ (sink : Sink). sink.written) here ∙ same in
        (
          record {
            added = c.added;
            kept = c.grown ∙ ap (λ held. held ++ c.added) written;
            handed =
                omega (
                  arith,
                  c.stored,
                  c.sound.synced_le,
                  c.sound.flushed_le,
                  disk o' here all written,
                );
          },
          omega (arith, c.stored, disk o' here all written),
        )
  ]
    where
      after : Outputs
      after = after_locked (Appender.sync locks id o)

      disk :
          (o' : Outputs)
          → after.files h ≡ o'.files h
          → (o'.files h).synced ≡ length (o'.files h).written
          → (after.files h).written ≡ (o.files h).written
          → (after.files h).synced ≡ length (o.files h).written
      disk o' here all written =
          ap (λ (sink : Sink). sink.synced) here
          ∙ all
          ∙ ap (λ (sink : Sink). length sink.written) (sym here)
          ∙ ap length written
