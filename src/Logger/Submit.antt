-- ===== src/Logger/Submit.antt =====
-- `Logger::Impl::submit` and `shouldLog` of pans/src/Logger/Logger.cc together.
use pans.Base.{
  ℕ, zero, suc, ◌≤◌, ◌≡◌, refl, ap, ◌∙◌, Bool, true, false, Option, some, Bytes, [], ◌++◌, ltb,
  is_empty, arith, inl, inr, Bool-cases, Option-cases, length,
}
use pans.Buffer.{Allocator, view, empty_buffer}
use pans.Buffer.Store.{empty_buffer-IsValid}
use pans.Formatter.{
  TimeLibrary, DateCache, c_string, FormatState, Flow, next, threw, aborted,
  formatted_record_inline_capacity,
}
use pans.Formatter.Output.{record_text, InRange, Emits, DateAnswer, IsFresh, IsKept, IsFresh-IsKept}
use pans.Formatter.Render.{UseFormat, format-keeps}
use pans.LogLevel.{to_u8}
use pans.Logger.{World, should_log, submitted, deliver, after_format, submit}
use pans.Macros.{Build}
use pans.Record.{LogRecordView}

module _ (locks : ℕ → Bool) {Tm : Type 0} (time : TimeLibrary Tm) (alloc : Allocator)
    (build : Build) where
  -- A record of a level that `shouldLog` refuses changes nothing when it is submitted: neither a
  -- logger's own level lets it through, nor is there an appender at the root for it.
  pub submit-should_log :
      (fuel : ℕ) (w : World) (id : ℕ) (r : LogRecordView)
      → should_log fuel w id r.level ≡ some false
      → submit locks time alloc build fuel w id r ≡ submitted w
  unfolding should_log submit
  submit-should_log zero w id r e = cc
  submit-should_log (suc fuel) w id r e =
      elim (Bool-cases (ltb (to_u8 r.level) (to_u8 (w.loggers id).level))) [
        | inl below ↦ rw below refl
        | inr passes ↦ elim (Bool-cases (is_empty (w.loggers id).appenders)) [
          | inl bare ↦ elim (Option-cases (w.loggers id).root) [
            | inl alone ↦ rw (passes, bare, alone) refl
            | inr (root, linked) ↦
                rw (passes, bare, linked)
                  (submit-should_log fuel w root r (rw (passes, bare, linked) at e))
          ]
          | inr served ↦ absurd (no_false (rw (passes, served) at e))
        ]
      ]
    where
      no_false : ◌≡◌ {A = Option Bool} (some true) (some false) → ⊥
      no_false h = cc

  -- A logger with no appenders of its own hands the record to the root logger, unchanged.
  pub submit_to_root :
      (fuel : ℕ) (w : World) (id root : ℕ) (r : LogRecordView)
      → ltb (to_u8 r.level) (to_u8 (w.loggers id).level) ≡ false
      → is_empty (w.loggers id).appenders ≡ true
      → (w.loggers id).root ≡ some root
      → submit locks time alloc build (suc fuel) w id r
        ≡ submit locks time alloc build fuel w root r
  unfolding submit
  submit_to_root fuel w id root r passes bare linked = rw (passes, bare, linked) refl

  module _ (w : World) (id : ℕ) (r : LogRecordView) (f : Bytes) (answer : DateAnswer time f r)
      (keep : DateCache → Type 0) (kept : IsKept answer keep) where
    abbrev text : Bytes
    text = record_text (c_string answer.bytes) r (w.loggers id).formatter.items

    -- A record whose text fits the array of the buffer.
    after_format-Emits :
        (flow : Flow) (s : FormatState)
        → s.failed ≡ w.failed
        → length text ≤ formatted_record_inline_capacity
        → view s.output ≡ []
        → Emits text keep s flow
        → (cache : DateCache) × keep cache
          × (after_format locks time alloc build (w.loggers id).appenders r.level w flow
              ≡ submitted (record w {
                outputs = deliver locks (w.loggers id).appenders r.level text w.outputs;
                cache = cache;
              }))
    unfolding after_format
    after_format-Emits (next s') s failed short nothing (v, e, same, fresh) = (
      s'.cache,
      fresh,
      λ i. submitted (record w {
        outputs = deliver locks (w.loggers id).appenders r.level (written i) w.outputs;
        cache = s'.cache;
        failed = unfailed i;
      }),
    )
      where
        written : view s'.output ≡ text
        written = e ∙ ap (λ held. held ++ text) nothing

        unfailed : s'.failed ≡ w.failed
        unfailed = same ∙ failed
    after_format-Emits (threw s') s failed short nothing (v, more) =
        absurd (omega (arith, ap length nothing))
    after_format-Emits (aborted s') s failed short nothing h = absurd h

    -- The same with what is kept of the cache left open.
    pub submit_keeps :
        (fuel : ℕ)
        → ltb (to_u8 r.level) (to_u8 (w.loggers id).level) ≡ false
        → is_empty (w.loggers id).appenders ≡ false
        → UseFormat f (w.loggers id).formatter.items
        → InRange r
        → keep w.cache
        → length text ≤ formatted_record_inline_capacity
        → (cache : DateCache) × keep cache
          × (submit locks time alloc build (suc fuel) w id r
              ≡ submitted (record w {
                outputs = deliver locks (w.loggers id).appenders r.level text w.outputs;
                cache = cache;
              }))
    unfolding submit
    submit_keeps fuel passes served dates ranges fresh short =
        rw (passes, served)
          (after_format-Emits _ start refl short refl (
            format-keeps time alloc build f r answer ranges keep kept (w.loggers id).formatter.items
              start dates (empty_buffer-IsValid formatted_record_inline_capacity) fresh
              (omega arith)))
      where
        start : FormatState
        start = record {
          cache = w.cache;
          output = empty_buffer formatted_record_inline_capacity;
          failed = w.failed;
        }

  -- A logger that lets a record through and has appenders formats it once and hands the text to
  -- each of them in order; the other loggers, the names and the assertions stay. It does so with
  -- whatever memory is granted, as the text is at most the 256 bytes of the buffer's array. The
  -- record is one of machine words, the date items have the format `f`, which the C library prints
  -- at the record's second, and the thread's cache is not stale.
  pub submit_delivers :
      (w : World) (id : ℕ) (r : LogRecordView) (f : Bytes) (answer : DateAnswer time f r) (fuel : ℕ)
      → ltb (to_u8 r.level) (to_u8 (w.loggers id).level) ≡ false
      → is_empty (w.loggers id).appenders ≡ false
      → UseFormat f (w.loggers id).formatter.items
      → InRange r
      → IsFresh (c_string answer.bytes) r w.cache
      → length (record_text (c_string answer.bytes) r (w.loggers id).formatter.items)
        ≤ formatted_record_inline_capacity
      → (cache : DateCache) × IsFresh (c_string answer.bytes) r cache
        × (submit locks time alloc build (suc fuel) w id r
            ≡ submitted (record w {
              outputs =
                  deliver locks
                    (w.loggers id).appenders
                    r.level
                    (record_text (c_string answer.bytes) r (w.loggers id).formatter.items)
                    w.outputs;
              cache = cache;
            }))
  submit_delivers w id r f answer =
      submit_keeps w id r f answer (IsFresh (c_string answer.bytes) r) (IsFresh-IsKept answer)
