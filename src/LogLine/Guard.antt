-- ===== src/LogLine/Guard.antt =====
-- The test in the logging macros of pans/include/pans/Logger/Log.h and the one in
-- `Logger::Impl::submit`.
use pans.Base.{ℕ, ◌≡◌, ◌≢◌, refl, sym, Bool, true, false, Option, none, some, List, [], ◌∷◌, Bytes}
use pans.Buffer.{Allocator}
use pans.Formatter.{TimeLibrary}
use pans.LogLevel.{Level}
use pans.Logger.{World, Submitted, should_log}
use pans.Logger.Submit.{submit-should_log}
use pans.LogLine.{
  Origin, LogLineImpl, make_log_line, put_text, put_texts, destroy, log_if, log_level,
}
use pans.Macros.{Build}

module _ (locks : ℕ → Bool) {Tm : Type 0} (time : TimeLibrary Tm) (alloc : Allocator)
    (build : Build) (fuel : ℕ) where
  level-put_texts :
      (texts : List Bytes) (impl : LogLineImpl)
      → (LogLineImpl.level (put_texts alloc texts impl) ≡ LogLineImpl.level impl)
        × (LogLineImpl.logger (put_texts alloc texts impl) ≡ LogLineImpl.logger impl)
  level-put_texts [] impl = (refl, refl)
  level-put_texts (text ∷ texts) impl = level-put_texts texts (put_text alloc text impl)

  refused :
      (w : World) (impl : LogLineImpl)
      → should_log fuel w impl.logger impl.level ≡ some false
      → destroy locks time alloc build fuel w impl ≡ Submitted.submitted w
  unfolding destroy
  refused w impl e = submit-should_log locks time alloc build fuel w impl.logger _ e

  guarded :
      (w : World) (impl : LogLineImpl) (texts : List Bytes) (answer : Option Bool)
      → should_log fuel w impl.logger impl.level ≡ answer
      → answer ≢ none
      → log_if locks time alloc build fuel w impl texts answer
        ≡ destroy locks time alloc build fuel w (put_texts alloc texts impl)
  guarded w impl texts none e known = absurd (known refl)
  guarded w impl texts (some true) e known = refl
  guarded w impl texts (some false) e known =
      let (same_level, same_logger) = level-put_texts texts impl in
      sym (refused w _ (rw (same_level, same_logger) e))

  -- The test of a logging statement only saves work: where `shouldLog` ends, the statement ends as if
  -- it made its line, wrote its texts and submitted the record without asking `shouldLog`.
  pub log_level-unguarded :
      (origin : Origin) (w : World) (logger : ℕ) (level : Level) (line : ℕ) (file_name : Bytes)
      (texts : List Bytes)
      → should_log fuel w logger level ≢ none
      → log_level locks time alloc build fuel origin w (some logger) level line file_name texts
        ≡ destroy locks time alloc build fuel w
            (put_texts alloc texts (make_log_line origin logger level line file_name))
  unfolding log_level
  log_level-unguarded origin w logger level line file_name texts ends =
      guarded w (make_log_line origin logger level line file_name) texts
        (should_log fuel w logger level) refl ends
