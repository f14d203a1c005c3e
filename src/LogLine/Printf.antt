-- ===== src/LogLine/Printf.antt =====
-- `LogPrintf` (pans/src/Logger/LogLine.cc) submits the whole formatted text, or an empty message.
use mathlib.Core.Path.{subst}
use pans.Base.Int.{ℤ, pos}
use pans.Base.{
  ℕ, ◌+◌, ◌-◌, ◌^◌, ◌<◌, ◌≤◌, ◌≡◌, refl, sym, ap, ◌∙◌, Bool, true, false, some, [], ◌∷◌, Bytes, ltb,
  take, length, min, take-length, ltb→lt, Bool-cases, inl, inr, ◌⊎◌, arith,
}
use pans.Buffer.{Allocator, Outcome, done, bad_alloc, InlineBuffer, view, empty_buffer}
use pans.Buffer.Stream.{OutputStream, write, xsputn, after_put, return_after}
use pans.Buffer.Store.{empty_buffer-IsValid}
use pans.Buffer.Refused.{IsBlamed, append-IsBlamed}
use pans.Buffer.View.{Appends, append_lem}
use pans.Formatter.{TimeLibrary}
use pans.Logger.{World, Submitted, submit}
use pans.LogLine.{
  LogLineImpl, get_record, Printed, printed, put_text, destroy, log_printf,
  log_message_inline_capacity, printf_format_inline_capacity,
}
use pans.Macros.{Build}
use pans.Record.{LogRecordView}

-- `vsnprintf` of a format that prints `text`: the length of the text, and as much of it as fits the
-- array in front of the terminating zero.
pub record PrintsText (vsnprintf : ℕ → ℤ × Bytes) (text : Bytes) : Type 0 where
  pub bytes : ℕ → Bytes
  pub answer : (size : ℕ) → 0 < size → vsnprintf size ≡ (pos (length text), bytes size)
  pub held :
      (size : ℕ)
      → 0 < size
      → take (min (length text) (size - 1)) (bytes size) ≡ take (size - 1) text

abbrev pub IsEmpty : LogLineImpl → Type 0
IsEmpty impl =
    impl.stream ≡ record { buffer = empty_buffer log_message_inline_capacity; bad = false }

-- A request for memory that is not granted.
abbrev pub IsRefused : Allocator → Type 0
IsRefused alloc = (count : ℕ) × (alloc.grants count ≡ false)

-- The text a new stream holds after one write: all of it, or nothing if it does not fit the array and
-- memory is refused.
abbrev Holds : Allocator → Bytes → OutputStream → Type 0
Holds alloc text stream =
    (view stream.buffer ≡ text)
    ⊎ ((view stream.buffer ≡ []) × (log_message_inline_capacity < length text) × IsRefused alloc)

write-Holds :
    (alloc : Allocator) (text : Bytes)
    → length text < 2 ^ 64
    → Holds alloc text (
        write alloc log_message_inline_capacity
          (record { buffer = empty_buffer log_message_inline_capacity; bad = false })
          text)
unfolding write xsputn
write-Holds alloc [] small = inl refl
write-Holds alloc (x ∷ xs) small = rw (take-length (length xs) xs (omega arith)) (
    settled _ _
      (append_lem alloc (empty_buffer log_message_inline_capacity)
        (empty_buffer-IsValid log_message_inline_capacity) (x ∷ xs) (omega arith))
      (append-IsBlamed alloc log_message_inline_capacity (empty_buffer log_message_inline_capacity)
        (x ∷ xs)))
  where
    settled :
        (result : ℤ) (out : Outcome InlineBuffer)
        → Appends log_message_inline_capacity
            (empty_buffer log_message_inline_capacity)
            (x ∷ xs)
            out
        → IsBlamed alloc out
        → Holds alloc (x ∷ xs) (after_put (return_after result out))
    settled result (done b) (v, e) blamed = inl e
    settled result (bad_alloc b) (v, e, more) refused = inr (e, omega arith, refused)

abbrev pub with_message : Bytes → LogRecordView → LogRecordView
with_message text r = record r { message = text }

module _ (locks : ℕ → Bool) {Tm : Type 0} (time : TimeLibrary Tm) (alloc : Allocator)
    (build : Build) (fuel : ℕ) (w : World) (impl : LogLineImpl) (new : IsEmpty impl) where
  abbrev submit_message : Bytes → Submitted
  submit_message text =
      submit locks time alloc build fuel w impl.logger (with_message text (get_record w impl))

  -- One text put into a new line, which is then destroyed.
  destroy-put_text :
      (text : Bytes)
      → length text < 2 ^ 64
      → (destroy locks time alloc build fuel w (put_text alloc text impl) ≡ submit_message text)
        ⊎ ((destroy locks time alloc build fuel w (put_text alloc text impl) ≡ submit_message [])
            × (log_message_inline_capacity < length text)
            × IsRefused alloc)
  unfolding destroy
  destroy-put_text text small = elim held [
    | inl e ↦ inl (ap submit_message e)
    | inr (e, more, refused) ↦ inr (ap submit_message e, more, refused)
  ]
    where
      held : Holds alloc text (write alloc log_message_inline_capacity impl.stream text)
      held =
          subst (λ stream. Holds alloc text (write alloc log_message_inline_capacity stream text))
            (sym new) (write-Holds alloc text small)

  empty-submit : destroy locks time alloc build fuel w impl ≡ submit_message []
  unfolding destroy
  empty-submit = ap (λ stream. submit_message (view (OutputStream.buffer stream))) new

  module _ (vsnprintf : ℕ → ℤ × Bytes) (text : Bytes) (prints : PrintsText vsnprintf text) where
    abbrev ended : Printed
    ended = log_printf locks time alloc build fuel (some vsnprintf) w impl

    abbrev put_whole : Submitted
    put_whole = destroy locks time alloc build fuel w (put_text alloc text impl)

    whole : (size : ℕ) → length text < size → take (length text) (prints.bytes size) ≡ text
    whole size room =
        ap (λ n. take n (prints.bytes size)) all
        ∙ prints.held size (omega arith)
        ∙ take-length (size - 1) text (omega arith)
      where
        all : length text ≡ min (length text) (size - 1)
        all = omega arith

    inline_case : ltb (length text) printf_format_inline_capacity ≡ true → ended ≡ printed put_whole
    unfolding log_printf
    inline_case fits =
        rw (prints.answer 128 (omega arith), fits, whole 128 (ltb→lt (length text) 128 fits)) refl

    vector_case :
        ltb (length text) printf_format_inline_capacity ≡ false
        → alloc.grants (length text + 1) ≡ true
        → ended ≡ printed put_whole
    unfolding log_printf
    vector_case spills granted =
        rw
          (
            prints.answer 128 (omega arith),
            spills,
            granted,
            prints.answer (length text + 1) (omega arith),
            whole (length text + 1) (omega arith),
          )
          refl

    refused_case :
        ltb (length text) printf_format_inline_capacity ≡ false
        → alloc.grants (length text + 1) ≡ false
        → ended ≡ Printed.bad_alloc (submit_message [])
    unfolding log_printf
    refused_case spills refused =
        rw (prints.answer 128 (omega arith), spills, refused) (ap Printed.bad_alloc empty-submit)

    -- `LogPrintf` of a format that prints `text` submits one record, and its message is the whole text
    -- or empty. It is empty only if the text has 128 bytes or more and a request for memory is refused; an
    -- exception leaves `LogPrintf` only then. The text is shorter than 2 ^ 31.
    pub log_printf-whole :
        length text < 2 ^ 31
        → (log_printf locks time alloc build fuel (some vsnprintf) w impl
            ≡ printed (submit_message text))
          ⊎ ((printf_format_inline_capacity ≤ length text)
              × IsRefused alloc
              × ((log_printf locks time alloc build fuel (some vsnprintf) w impl
                    ≡ printed (submit_message []))
                  ⊎ (log_printf locks time alloc build fuel (some vsnprintf) w impl
                      ≡ Printed.bad_alloc (submit_message []))))
    log_printf-whole short = elim (Bool-cases (ltb (length text) printf_format_inline_capacity)) [
      | inl fits ↦ finish (inline_case fits)
      | inr spills ↦ elim (Bool-cases (alloc.grants (length text + 1))) [
        | inl granted ↦ finish (vector_case spills granted)
        | inr refused ↦ inr (ground arith, (_, refused), inr (refused_case spills refused))
      ]
    ]
      where
        finish :
            ended ≡ printed put_whole
            → (ended ≡ printed (submit_message text))
              ⊎ ((printf_format_inline_capacity ≤ length text)
                  × IsRefused alloc
                  × ((ended ≡ printed (submit_message []))
                      ⊎ (ended ≡ Printed.bad_alloc (submit_message []))))
        finish e = elim (destroy-put_text text (omega arith)) [
          | inl d ↦ inl (e ∙ ap printed d)
          | inr (d, more, refused) ↦ inr (omega arith, refused, inl (e ∙ ap printed d))
        ]
