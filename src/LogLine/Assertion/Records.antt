-- ===== src/LogLine/Assertion/Records.antt =====
-- The record that a failed assertion logs (pans/include/pans/macros.h), by where it fails.
use pans.Base.{ℕ, ◌≡◌, refl, sym, ap, List, [], ◌∷◌, Bytes, ◌<◌, ◌≤◌, ◌^◌}
use pans.Buffer.{Allocator}
use pans.Formatter.Output.{InRange, magnitude}
use pans.LogLevel.{fatal}
use pans.LogLine.{Origin, LogLineImpl, make_log_line, put_text, put_texts}
use pans.LogLine.Assertion.{Site, operands, assert_record}
use pans.Logger.{World}
use pans.Macros.{Assertion}
use pans.Record.{LogRecordView}
use mathlib.Core.Path.{subst}

-- What is written to a line leaves the rest of it.
pub put_texts-kept :
    (alloc : Allocator) (texts : List Bytes) (impl : LogLineImpl)
    → (LogLineImpl.level (put_texts alloc texts impl) ≡ impl.level)
      × (LogLineImpl.origin (put_texts alloc texts impl) ≡ impl.origin)
      × (LogLineImpl.line (put_texts alloc texts impl) ≡ impl.line)
put_texts-kept alloc [] impl = (refl, refl, refl)
put_texts-kept alloc (text ∷ texts) impl = put_texts-kept alloc texts (put_text alloc text impl)

-- The numbers of a site are machine words.
abbrev pub AreWords : Origin → ℕ → Type 0
AreWords origin line =
    (magnitude origin.elapsed ≤ 2 ^ 63)
    × (origin.thread_id < 2 ^ 64)
    × (origin.fiber_id < 2 ^ 64)
    × (line < 2 ^ 32)

module _ (alloc : Allocator) (root : ℕ) (which : Assertion) (site : Site) (w : World) where
  pub assert_record-InRange :
      AreWords site.origin site.line → InRange (assert_record alloc root which site w)
  assert_record-InRange words =
      let (same_level, same_origin, same_line) =
        put_texts-kept alloc (operands which site)
          (make_log_line site.origin root fatal site.line site.file_name) in
      let (elapsed, thread, fiber, line) =
        subst (λ o. AreWords o (assert_record alloc root which site w).line) (sym same_origin)
          (subst (AreWords site.origin) (sym same_line) words) in
      record {
        elapsed_word = elapsed;
        thread_id_word = thread;
        fiber_id_word = fiber;
        line_word = line;
      }

  pub assert_record-timestamp :
      LogRecordView.timestamp (assert_record alloc root which site w) ≡ site.origin.timestamp
  assert_record-timestamp =
      ap Origin.timestamp
        (put_texts-kept alloc (operands which site)
          (make_log_line site.origin root fatal site.line site.file_name)).1
