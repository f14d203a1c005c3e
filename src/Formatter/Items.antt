-- ===== src/Formatter/Items.antt =====
-- `Formatter::format` (pans/src/Logger/formatter.cc) in a release build: a failed assertion of an item
-- only ends that item.
use pans.Base.Int.{ℤ, eqb_ℤ, pos, quot}
use pans.Base.{ℕ, ◌==◌, Option, none, some, List, [], ◌∷◌, Bytes, Bool-cases, inl, inr}
use pans.Buffer.{Allocator, Outcome, done, bad_alloc, InlineBuffer, append}
use pans.Decimal.{to_chars_signed}
use pans.Formatter.{
  FormatItem, elapsed, thread_id, line, fiber_id, date_time, TimeLibrary, FormatState, Flow, next,
  threw, aborted, ◌>>=◌, keep_output, emit, append_digits, append_integer, store_date_time,
  refresh_date_time, append_date_time, format_item, format, seconds_of, c_string, millisecond_ns,
  integer_buffer_size, formatted_record_inline_capacity,
}
use pans.Macros.{Build}
use pans.Record.{LogRecordView}

abbrev pub IsNoAbort : Flow → Type 0
IsNoAbort (aborted s) = ⊥
IsNoAbort _ = Unit

keep_output-IsNoAbort :
    (s : FormatState) (out : Outcome InlineBuffer) → IsNoAbort (keep_output s out)
keep_output-IsNoAbort s (done b) = tt
keep_output-IsNoAbort s (bad_alloc b) = tt

>>=-IsNoAbort :
    (flow : Flow) (f : FormatState → Flow)
    → IsNoAbort flow
    → ((s : FormatState) → IsNoAbort (f s))
    → IsNoAbort (flow >>= f)
>>=-IsNoAbort (next s) f h later = later s
>>=-IsNoAbort (threw s) f h later = tt
>>=-IsNoAbort (aborted s) f h later = h

module _ {Tm : Type 0} (time : TimeLibrary Tm) (alloc : Allocator) where
  emit-IsNoAbort :
      (text : Bytes) (s : FormatState) → IsNoAbort (emit time alloc Build.release_build text s)
  unfolding emit
  emit-IsNoAbort text s =
      keep_output-IsNoAbort s (append alloc formatted_record_inline_capacity s.output text)

  append_digits-IsNoAbort :
      (text : Option Bytes) (s : FormatState)
      → IsNoAbort (append_digits time alloc Build.release_build text s)
  unfolding append_digits
  append_digits-IsNoAbort none s = tt
  append_digits-IsNoAbort (some text) s = emit-IsNoAbort text s

  append_integer-IsNoAbort :
      (value : ℤ) (s : FormatState)
      → IsNoAbort (append_integer time alloc Build.release_build value s)
  unfolding append_integer
  append_integer-IsNoAbort value s =
      append_digits-IsNoAbort (to_chars_signed integer_buffer_size value) s

  store_date_time-IsNoAbort :
      (second : ℤ) (answer : ℕ × Bytes) (s : FormatState)
      → IsNoAbort (store_date_time time alloc Build.release_build second answer s)
  unfolding store_date_time
  store_date_time-IsNoAbort second (size, bytes) s = elim (Bool-cases (size == 0)) [
    | inl empty ↦ rw empty tt
    | inr fitted ↦ rw fitted (emit-IsNoAbort (c_string bytes) _)
  ]

  refresh_date_time-IsNoAbort :
      (f : Bytes) (second : ℤ) (tm : Option Tm) (s : FormatState)
      → IsNoAbort (refresh_date_time time alloc Build.release_build f second tm s)
  unfolding refresh_date_time
  refresh_date_time-IsNoAbort f second none s = tt
  refresh_date_time-IsNoAbort f second (some tm) s =
      store_date_time-IsNoAbort second (time.strftime f tm) s

  append_date_time-IsNoAbort :
      (f : Bytes) (timestamp : ℤ) (s : FormatState)
      → IsNoAbort (append_date_time time alloc Build.release_build f timestamp s)
  unfolding append_date_time
  append_date_time-IsNoAbort f timestamp s =
      elim (Bool-cases (eqb_ℤ (seconds_of timestamp) s.cache.last_second)) [
        | inl cached ↦ rw cached (emit-IsNoAbort (c_string s.cache.cached_date_time) s)
        | inr stale ↦ rw stale (
            refresh_date_time-IsNoAbort f (seconds_of timestamp)
              (time.localtime_r (seconds_of timestamp)) s)
      ]

  pub format_item-IsNoAbort :
      (item : FormatItem) (r : LogRecordView) (s : FormatState)
      → IsNoAbort (format_item time alloc Build.release_build item r s)
  unfolding format_item
  format_item-IsNoAbort elapsed r s = append_integer-IsNoAbort (quot r.elapsed millisecond_ns) s
  format_item-IsNoAbort thread_id r s = append_integer-IsNoAbort (pos r.thread_id) s
  format_item-IsNoAbort line r s = append_integer-IsNoAbort (pos r.line) s
  format_item-IsNoAbort fiber_id r s = append_integer-IsNoAbort (pos r.fiber_id) s
  format_item-IsNoAbort (date_time f) r s = append_date_time-IsNoAbort f r.timestamp s
  format_item-IsNoAbort item r s = emit-IsNoAbort _ s

  pub format-IsNoAbort :
      (items : List FormatItem) (r : LogRecordView) (s : FormatState)
      → IsNoAbort (format time alloc Build.release_build items r s)
  unfolding format
  format-IsNoAbort [] r s = tt
  format-IsNoAbort (item ∷ items) r s =
      >>=-IsNoAbort (format_item time alloc Build.release_build item r s)
        (format time alloc Build.release_build items r) (format_item-IsNoAbort item r s)
        (format-IsNoAbort items r)
