-- ===== src/Logger/Client/Output.antt =====
-- What clients that log (pans/src/Logger/Logger.cc) find in the streams of the appenders.
use pans.Appender.{Outputs, Target, stream_of}
use pans.Base.Int.{ℤ, eqb_ℤ_eq}
use pans.Base.{
  ℕ, suc, ◌≤◌, ◌≡◌, refl, sym, ap, ◌∙◌, Bool, true, false, Option, none, some, List, [], ◌∷◌, ◌++◌,
  Bytes, is_empty, length, ltb, if◌then◌else◌, append-nil, ◌==◌, Bool-cases, inl, inr,
}
use pans.Buffer.{Allocator}
use pans.Formatter.{
  FormatItem, date_time, TimeLibrary, DateCache, c_string, seconds_of,
  formatted_record_inline_capacity,
}
use pans.Formatter.Output.{record_text, InRange, DateAnswer, IsKept}
use pans.Formatter.Render.{UseFormat}
use pans.LogLevel.{to_u8}
use pans.Logger.{World, LoggerImpl, Submitted, submitted, at_root, deliver}
use pans.Logger.Client.{Call, log}
use pans.Logger.Manager.{Manager, find}
use pans.Logger.Delivery.{copies, deliver-written, deliver-impls}
use pans.Logger.Submit.{submit_keeps}
use pans.LogLine.Assertion.{Site, submit_logging}
use pans.LogLine.Assertion.Quiet.{DatesFit, submit_logging-served}
use pans.Macros.{Build, Assertion}
use pans.Record.{LogRecordView}

-- The text of a record, where `printed` is the text of each second.
abbrev pub line_text : (ℤ → Bytes) → LogRecordView → List FormatItem → Bytes
line_text printed r items = record_text (printed (seconds_of r.timestamp)) r items

-- What a logger writes to a target for a record; `rest` is written where it has no appender.
abbrev pub line_of :
    (ℕ → Bool) → (ℤ → Bytes) → LoggerImpl → Outputs → Target → LogRecordView → Bytes → Bytes
line_of locks printed impl o target r rest =
    if ltb (to_u8 r.level) (to_u8 impl.level)
    then []
    else if is_empty impl.appenders
    then rest
    else copies locks o target r.level (line_text printed r impl.formatter.items) impl.appenders

abbrev pub own_line : (ℕ → Bool) → (ℤ → Bytes) → World → Target → LogRecordView → ℕ → Bytes → Bytes
own_line locks printed w target r id rest =
    line_of locks printed (w.loggers id) w.outputs target r rest

-- The cache holds the text of its second.
abbrev pub Holds : (ℤ → Bytes) → DateCache → Type 0
Holds printed cache = c_string cache.cached_date_time ≡ printed cache.last_second

-- A record of machine words, at a second that the C library prints.
pub record Printable {Tm : Type 0} (time : TimeLibrary Tm) (f : Bytes) (printed : ℤ → Bytes)
    (r : LogRecordView) : Type 0 where
  pub ranges : InRange r
  pub answer : DateAnswer time f r
  pub prints : c_string answer.bytes ≡ printed (seconds_of r.timestamp)

-- A logger's date items have the format, and the record fits the array of the buffer.
abbrev pub HasRoom : Bytes → (ℤ → Bytes) → LogRecordView → LoggerImpl → Type 0
HasRoom f printed r impl =
    UseFormat f impl.formatter.items
    × (length (line_text printed r impl.formatter.items) ≤ formatted_record_inline_capacity)

Holds-IsKept :
    {Tm : Type 0} {time : TimeLibrary Tm} {f : Bytes} {printed : ℤ → Bytes} {r : LogRecordView}
    (p : Printable time f printed r)
    → IsKept p.answer (Holds printed)
Holds-IsKept {printed = printed} p = record {
  fresh = λ cache holds same.
      holds ∙ ap printed (sym (eqb_ℤ_eq _ cache.last_second same)) ∙ sym p.prints;
  stored = p.prints;
}

-- The dates of one format are printed where that is.
UseFormat-fits :
    {Tm : Type 0} {time : TimeLibrary Tm} {f : Bytes} {r : LogRecordView}
    (answer : DateAnswer time f r) (items : List FormatItem)
    → UseFormat f items
    → DatesFit time r.timestamp items
UseFormat-fits answer [] dates = tt
UseFormat-fits {time = time} {f} {r} answer (date_time g ∷ items) (same, dates) = (
  (
    answer.tm,
    answer.local_time,
    ap (λ h. (time.strftime h answer.tm).0 == 0) same
        ∙ ap (λ (printed : ℕ × Bytes). printed.0 == 0) answer.formatted
        ∙ answer.fitted,
  ),
  UseFormat-fits answer items dates,
)
UseFormat-fits answer (_ ∷ items) dates = UseFormat-fits answer items dates

module _ (locks : ℕ → Bool) {Tm : Type 0} (time : TimeLibrary Tm) (alloc : Allocator) (f : Bytes)
    (printed : ℤ → Bytes) where
  -- A record has been submitted, and `lines` were written to the targets.
  pub record Wrote (w : World) (lines : Target → Bytes) (result : Submitted) : Type 0 where
    pub outputs : Outputs
    pub cache : DateCache
    pub ended : result ≡ submitted (record w { outputs = outputs; cache = cache })
    pub impls_same : outputs.impls ≡ w.outputs.impls
    pub holds : Holds printed cache
    pub written :
        (target : Target)
        → (stream_of target outputs).written ≡ (stream_of target w.outputs).written ++ lines target

  pub resulted :
      {w : World} {lines lines' : Target → Bytes} {result result' : Submitted}
      → Wrote w lines result
      → ((target : Target) → lines' target ≡ lines target)
      → result' ≡ result
      → Wrote w lines' result'
  resulted {w} wrote same ends = record {
    outputs = wrote.outputs;
    cache = wrote.cache;
    ended = ends ∙ wrote.ended;
    impls_same = wrote.impls_same;
    holds = wrote.holds;
    written = λ target.
        wrote.written target
        ∙ ap (λ line. (stream_of target w.outputs).written ++ line) (sym (same target));
  }

  pub nothing-Wrote : (w : World) → Holds printed w.cache → Wrote w (λ target. []) (submitted w)
  nothing-Wrote w holds = record {
    outputs = w.outputs;
    cache = w.cache;
    ended = refl;
    impls_same = refl;
    holds = holds;
    written = λ target. sym (append-nil (stream_of target w.outputs).written);
  }

  module _ (site : ℕ → Assertion → Site) (log_root : ℕ) (r : LogRecordView)
      (p : Printable time f printed r) (w : World) (id : ℕ) (holds : Holds printed w.cache) where
    abbrev text : Bytes
    text = line_text printed r (w.loggers id).formatter.items

    -- A logger that lets the record through and has appenders.
    delivered :
        (fuel : ℕ)
        → is_empty (w.loggers id).appenders ≡ false
        → HasRoom f printed r (w.loggers id)
        → ltb (to_u8 r.level) (to_u8 (w.loggers id).level) ≡ false
        → Wrote w
            (λ target. copies locks w.outputs target r.level text (w.loggers id).appenders)
            (submit_logging locks time alloc Build.release_build site log_root (suc fuel) w id r)
    delivered fuel served (dates, short) passes =
        let (cache, holds', ended) =
          submit_keeps locks time alloc Build.release_build w id r f p.answer (Holds printed)
            (Holds-IsKept p) fuel passes served dates p.ranges holds (rw p.prints short) in
        record {
          outputs = deliver locks (w.loggers id).appenders r.level text w.outputs;
          cache = cache;
          ended =
              submit_logging-served locks time alloc Build.release_build site log_root r p.ranges
                fuel w id served (UseFormat-fits p.answer (w.loggers id).formatter.items dates)
              ∙ ended
              ∙ ap
                  (λ date. submitted (record w {
                    outputs =
                        deliver locks (w.loggers id).appenders r.level
                          (record_text date r (w.loggers id).formatter.items) w.outputs;
                    cache = cache;
                  }))
                  p.prints;
          impls_same = deliver-impls locks (w.loggers id).appenders r.level text w.outputs;
          holds = holds';
          written = λ target.
              deliver-written locks (w.loggers id).appenders r.level text w.outputs target;
        }

    -- One logger: the record is below its level, or goes on to the root logger, or is delivered.
    pub at_logger :
        (fuel : ℕ) (rest : Target → Bytes)
        → (is_empty (w.loggers id).appenders ≡ false → HasRoom f printed r (w.loggers id))
        → (is_empty (w.loggers id).appenders ≡ true
            → Wrote w rest (
                at_root (w.loggers id).root (submitted w) (λ root.
                  submit_logging locks time alloc Build.release_build site log_root fuel w root r)))
        → Wrote w
            (λ target. own_line locks printed w target r id (rest target))
            (submit_logging locks time alloc Build.release_build site log_root (suc fuel) w id r)
    unfolding submit_logging
    at_logger fuel rest room bare =
        elim (Bool-cases (ltb (to_u8 r.level) (to_u8 (w.loggers id).level))) [
          | inl below ↦ resulted (nothing-Wrote w holds) (λ target. rw below refl) (rw below refl)
          | inr passes ↦ elim (Bool-cases (is_empty (w.loggers id).appenders)) [
            | inl none_there ↦
                resulted (bare none_there) (λ target. rw (passes, none_there) refl)
                  (rw (passes, none_there) refl)
            | inr served ↦
                resulted (delivered fuel served (room served) passes)
                  (λ target. rw (passes, served) refl) refl
          ]
        ]

-- What a call of a client writes: the logger of the name, or the root logger.
abbrev pub line_from :
    (ℕ → Bool) → (ℤ → Bytes) → Manager → Target → LogRecordView → Option ℕ → Bytes
line_from locks printed m target r none = own_line locks printed m.world target r m.root []
line_from locks printed m target r (some id) =
    own_line locks printed m.world target r id (own_line locks printed m.world target r m.root [])

-- What the calls write, one after the other.
abbrev pub session_text :
    (ℕ → Bool) → (ℤ → Bytes) → Manager → Target → List (Bytes × LogRecordView) → Bytes
session_text locks printed m target [] = []
session_text locks printed m target ((name, r) ∷ calls) =
    line_from locks printed m target r (find name m.entries)
    ++ session_text locks printed m target calls

abbrev pub as_calls : List (Bytes × LogRecordView) → List (Bytes × Call)
as_calls [] = []
as_calls ((name, r) ∷ calls) = (name, log r) ∷ as_calls calls

pub own_line_bare :
    (locks : ℕ → Bool) (printed : ℤ → Bytes) (w : World) (target : Target) (r : LogRecordView)
    (id : ℕ)
    → is_empty (w.loggers id).appenders ≡ true
    → own_line locks printed w target r id [] ≡ []
own_line_bare locks printed w target r id bare =
    elim (Bool-cases (ltb (to_u8 r.level) (to_u8 (w.loggers id).level))) [
      | inl below ↦ rw below refl
      | inr passes ↦ rw (passes, bare) refl
    ]
