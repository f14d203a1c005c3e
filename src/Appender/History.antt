-- ===== src/Appender/History.antt =====
-- What the appenders of pans/src/Logger/apender.cc do to their streams over any sequence of calls.
use pans.Appender
use pans.Appender.{
  Outputs, Sink, empty_sink, write_sink, flush_sink, sync_sink, stream_of, Target, stdout, file,
  AppenderImpl, update, on_target, write_unlocked, flush_unlocked, sync_unlocked, Locked, unlocked,
  system_error, is_fatal, append, append_failed_message, size_of_string_view, Made, made,
  invalid_argument, open_failed, make_stdout_appender, make_file_appender, close_file, add_impl,
}
use pans.Base.{
  ℕ, suc, ◌≡◌, refl, Bool, List, [], ◌∷◌, ◌++◌, take, Bytes, ltb, ◌==◌, ==_iff, if◌then◌else◌,
  is_empty, arith, Bool-cases, inl, inr,
}
use pans.LogLevel.{Level, to_u8}
use pans.Appender.Streams.{
  AllSound, Continues, Continues-self, IsOpened, Later, Later-self, Later-trans, same-Later,
  on_target-Later, flush_sink-Continues, write_unlocked-Later, flush_unlocked-Later,
  sync_unlocked-Later,
}

-- A call of a client, or the end of a file's appender.
pub data Event : Type 0 where
  append_text : ℕ → Level → Bytes → Event
  flush_one : ℕ → Event
  sync_one : ℕ → Event
  set_level_of : ℕ → Level → Event
  make_stdout : Event
  make_file : Bytes → Event
  destroy_file : ℕ → Event

-- What an exception leaves behind.
abbrev pub after_locked : Locked → Outputs
after_locked (unlocked o) = o
after_locked (system_error o) = o

abbrev after_made : Outputs → Made → Outputs
after_made o (made id o') = o'
after_made o _ = o

-- `locks` says whether a mutex can be locked, `opens` whether a file can be opened.
unfoldable pub step : (ℕ → Bool) → (Bytes → Bool) → Event → Outputs → Outputs
step locks opens (append_text id level text) o = append locks id level text o
step locks opens (flush_one id) o = after_locked (Appender.flush locks id o)
step locks opens (sync_one id) o = after_locked (Appender.sync locks id o)
step locks opens (set_level_of id level) o = Appender.set_level id level o
step locks opens make_stdout o = after_made o (make_stdout_appender o)
step locks opens (make_file file_name) o = after_made o (make_file_appender opens file_name o)
step locks opens (destroy_file h) o = close_file h o

unfoldable pub run : (ℕ → Bool) → (Bytes → Bool) → List Event → Outputs → Outputs
unfolding step
run locks opens [] o = o
run locks opens (event ∷ events) o = run locks opens events (step locks opens event o)

module _ (locks : ℕ → Bool) (o : Outputs) (s : AllSound o) where
  pub append-Later :
      (id : ℕ) (level : Level) (text : Bytes) → Later o (append locks id level text o)
  unfolding append
  append-Later id level text = elim (Bool-cases (ltb (to_u8 level) (to_u8 (o.impls id).level))) [
    | inl below ↦ rw below (Later-self o s)
    | inr passes ↦ elim (Bool-cases (locks id)) [
      | inr fails ↦
          rw (passes, fails)
            (same-Later o _
              (same_streams (o.error_output ++ take size_of_string_view append_failed_message)) refl
              s)
      | inl locked ↦ elim (Bool-cases (is_fatal level)) [
        | inl dies ↦
            rw (passes, locked, dies)
              (Later-trans wrote (flush_unlocked-Later _ wrote.all_sound (o.impls id).target))
        | inr lives ↦ rw (passes, locked, lives) wrote
      ]
    ]
  ]
    where
      wrote : Later o (write_unlocked text (o.impls id).target o)
      wrote = write_unlocked-Later o s (o.impls id).target text

      same_streams :
          (e : Bytes) (target : Target)
          → stream_of target (record o { error_output = e }) ≡ stream_of target o
      same_streams e stdout = refl
      same_streams e (file h) = refl

  locked-Later :
      (id : ℕ) (o' : Outputs)
      → Later o o'
      → Later o (after_locked (if locks id then unlocked o' else system_error o))
  locked-Later id o' l = elim (Bool-cases (locks id)) [
    | inl locked ↦ rw locked l
    | inr fails ↦ rw fails (Later-self o s)
  ]

  flush-Later : (id : ℕ) → Later o (after_locked (Appender.flush locks id o))
  unfolding Appender.flush
  flush-Later id = locked-Later id _ (flush_unlocked-Later o s (o.impls id).target)

  pub sync-Later : (id : ℕ) → Later o (after_locked (Appender.sync locks id o))
  unfolding Appender.sync
  sync-Later id = locked-Later id _ (sync_unlocked-Later o s (o.impls id).target)

-- A file that is opened gets a stream of its own.
module _ (o : Outputs) (s : AllSound o) where
  abbrev with_file : Outputs
  with_file = record o {
    files = update o.files o.file_count empty_sink;
    file_count = suc o.file_count;
  }

  add_impl-streams :
      (t : Target) (o' : Outputs) (target : Target)
      → stream_of target (add_impl t o') ≡ stream_of target o'
  add_impl-streams t o' stdout = refl
  add_impl-streams t o' (file h) = refl

  with_file-Later : Later o with_file
  with_file-Later = record { continues = continues; all_sound = all_sound; stays = omega arith }
    where
      continues :
          (target : Target)
          → IsOpened o target
          → Continues (stream_of target o) (stream_of target with_file)
      continues stdout h = Continues-self o.cout (s stdout)
      continues (file g) h = elim (Bool-cases (o.file_count == g)) [
        | inl same ↦ absurd (omega (arith, (==_iff o.file_count g).0 same))
        | inr other ↦ rw other (Continues-self (o.files g) (s (file g)))
      ]

      all_sound : AllSound with_file
      all_sound stdout = s stdout
      all_sound (file g) = elim (Bool-cases (o.file_count == g)) [
        | inl same ↦ rw same (record { synced_le = omega arith; flushed_le = omega arith })
        | inr other ↦ rw other (s (file g))
      ]

  make_file-Later :
      (opens : Bytes → Bool) (file_name : Bytes)
      → Later o (after_made o (make_file_appender opens file_name o))
  unfolding make_file_appender
  make_file-Later opens file_name = elim (Bool-cases (is_empty file_name)) [
    | inl nameless ↦ rw nameless (Later-self o s)
    | inr named ↦ elim (Bool-cases (opens file_name)) [
      | inr fails ↦ rw (named, fails) (Later-self o s)
      | inl opened ↦
          rw (named, opened)
            (Later-trans with_file-Later (
              same-Later with_file _ (add_impl-streams (file o.file_count) with_file) refl
                with_file-Later.all_sound))
    ]
  ]

module _ (locks : ℕ → Bool) (opens : Bytes → Bool) where
  step-Later : (event : Event) (o : Outputs) → AllSound o → Later o (step locks opens event o)
  unfolding step make_stdout_appender
  step-Later (append_text id level text) o s = append-Later locks o s id level text
  step-Later (flush_one id) o s = flush-Later locks o s id
  step-Later (sync_one id) o s = sync-Later locks o s id
  step-Later (set_level_of id level) o s = same-Later o _ (λ target. leveled target) refl s
    where
      leveled :
          (target : Target) → stream_of target (Appender.set_level id level o) ≡ stream_of target o
      leveled stdout = refl
      leveled (file h) = refl
  step-Later make_stdout o s = same-Later o _ (add_impl-streams o s stdout o) refl s
  step-Later (make_file file_name) o s = make_file-Later o s opens file_name
  step-Later (destroy_file h) o s = on_target-Later flush_sink (file h) o flush_sink-Continues s

  -- Over any sequence of calls, whichever mutexes and files fail, each stream that exists keeps its
  -- bytes in place and only gets more behind them; what was handed to the system, or is on the disk,
  -- stays so; and in every stream the bytes on the disk are among those handed over, and these among
  -- those written.
  pub run-Later :
      (events : List Event) (o : Outputs) → AllSound o → Later o (run locks opens events o)
  unfolding run
  run-Later [] o s = Later-self o s
  run-Later (event ∷ events) o s =
      let first = step-Later event o s in
      Later-trans first (run-Later events (step locks opens event o) first.all_sound)
