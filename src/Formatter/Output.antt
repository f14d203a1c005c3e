-- ===== src/Formatter/Output.antt =====
-- What `Formatter::format` (pans/src/Logger/formatter.cc) writes for a record.
use mathlib.Core.List.{map, flatten}
use pans.Base.Int.{ℤ, pos, negsuc, pos_part, neg_part, neg, eqb_ℤ, quot}
use pans.Base.{
  ℕ, zero, suc, ◌+◌, ◌/◌, ◌^◌, ◌<◌, ◌≤◌, ◌≡◌, refl, true, false, Option, none, some, List, Bytes,
  [], ◌∷◌, ◌++◌, length, arith, Bool-cases, inl, inr, ◌==◌,
}
use pans.Buffer.{Allocator, Outcome, done, bad_alloc, InlineBuffer, view, append}
use pans.Buffer.Store.{IsValid, length-view}
use pans.Buffer.View.{Appends, append_lem}
use pans.Decimal.{to_chars_signed, fill_digits}
use pans.Decimal.Value.{to_chars-Prints}
use pans.Formatter.{
  FormatItem, literal, level, elapsed, logger_name, thread_id, new_line, date_time, microseconds,
  file_name, line, tab, fiber_id, thread_name, message, TimeLibrary, DateCache, c_string,
  FormatState, Flow, next, threw, aborted, seconds_of, microseconds_of, millisecond_ns,
  integer_buffer_size, emit, append_integer, append_date_time, format, keep_output,
  formatted_record_inline_capacity,
}
use pans.LogLevel.{to_string}
use pans.Macros.{Build}
use pans.Record.{LogRecordView}

-- The text of a number; empty if it does not fit the array of `AppendInteger`.
abbrev pub text_or_nil : Option Bytes → Bytes
text_or_nil none = []
text_or_nil (some text) = text

abbrev pub integer_text : ℤ → Bytes
integer_text value = text_or_nil (to_chars_signed integer_buffer_size value)

-- What an item stands for, where `date` is the text of the record's second.
abbrev pub item_text : Bytes → LogRecordView → FormatItem → Bytes
item_text date r (literal value) = value
item_text date r level = to_string r.level
item_text date r elapsed = integer_text (quot r.elapsed millisecond_ns)
item_text date r logger_name = r.logger_name
item_text date r thread_id = integer_text (pos r.thread_id)
item_text date r new_line = b'\n' ∷ []
item_text date r (date_time format) = date
item_text date r microseconds = fill_digits 6 (microseconds_of r.timestamp) []
item_text date r file_name = r.file_name
item_text date r line = integer_text (pos r.line)
item_text date r tab = b'\t' ∷ []
item_text date r fiber_id = integer_text (pos r.fiber_id)
item_text date r thread_name = r.thread_name
item_text date r message = r.message

abbrev pub record_text : Bytes → LogRecordView → List FormatItem → Bytes
record_text date r items = flatten (map (item_text date r) items)

abbrev pub magnitude : ℤ → ℕ
magnitude z = pos_part z + neg_part z

-- The numbers of a record are machine words.
pub record InRange (r : LogRecordView) : Type 0 where
  pub elapsed_word : magnitude r.elapsed ≤ 2 ^ 63
  pub thread_id_word : r.thread_id < 2 ^ 64
  pub fiber_id_word : r.fiber_id < 2 ^ 64
  pub line_word : r.line < 2 ^ 32

magnitude-neg : (n : ℕ) → magnitude (neg n) ≡ n
magnitude-neg zero = refl
magnitude-neg (suc n) = omega arith

pub magnitude-quot_le : (z : ℤ) → magnitude (quot z millisecond_ns) ≤ magnitude z
magnitude-quot_le (pos a) = omega arith
magnitude-quot_le (negsuc a) = omega (arith, magnitude-neg (suc a / millisecond_ns))

-- The array of `AppendInteger` has room for every number of 64 bits.
pub to_chars_signed_fits :
    (z : ℤ) → magnitude z < 2 ^ 64 → to_chars_signed integer_buffer_size z ≡ some (integer_text z)
unfolding to_chars_signed
to_chars_signed_fits (pos n) h = let p = to_chars-Prints 23 n (omega arith) in rw p.written refl
to_chars_signed_fits (negsuc n) h =
    let p = to_chars-Prints 22 (suc n) (omega arith) in rw p.written refl

-- What writing a text at a state ends with: the text behind what the output held, the assertions and
-- the cache as `keep` says; or an exception, which needs more room than the array has.
abbrev pub Emits : Bytes → (DateCache → Type 0) → FormatState → Flow → Type 0
Emits text keep s (next s') =
    IsValid formatted_record_inline_capacity s'.output
    × (view s'.output ≡ view s.output ++ text)
    × (s'.failed ≡ s.failed)
    × keep s'.cache
Emits text keep s (threw s') =
    IsValid formatted_record_inline_capacity s'.output
    × (formatted_record_inline_capacity < length (view s.output) + length text)
Emits text keep s (aborted s') = ⊥

module _ {Tm : Type 0} (time : TimeLibrary Tm) (alloc : Allocator) (build : Build) where
  pub emit-Emits :
      (text : Bytes) (keep : DateCache → Type 0) (s : FormatState)
      → IsValid formatted_record_inline_capacity s.output
      → keep s.cache
      → length (view s.output) + length text < 2 ^ 64
      → Emits text keep s (emit time alloc build text s)
  unfolding emit
  emit-Emits text keep s v k small =
      settled (append alloc formatted_record_inline_capacity s.output text)
        (append_lem alloc s.output v text (omega (arith, length-view s.output v)))
    where
      settled :
          (out : Outcome InlineBuffer)
          → Appends formatted_record_inline_capacity s.output text out
          → Emits text keep s (keep_output s out)
      settled (done b) (v', e) = (v', e, refl, k)
      settled (bad_alloc b) (v', e, more) = (v', omega (arith, length-view s.output v))

  pub append_integer-Emits :
      (value : ℤ) (keep : DateCache → Type 0) (s : FormatState)
      → magnitude value < 2 ^ 64
      → IsValid formatted_record_inline_capacity s.output
      → keep s.cache
      → length (view s.output) + length (integer_text value) < 2 ^ 64
      → Emits (integer_text value) keep s (append_integer time alloc build value s)
  unfolding append_integer
  append_integer-Emits value keep s word v k small =
      rw (to_chars_signed_fits value word) (emit-Emits (integer_text value) keep s v k small)

-- A step may set the cache before it writes.
Emits-cached :
    (text : Bytes) (keep : DateCache → Type 0) (s : FormatState) (cache : DateCache) (flow : Flow)
    → Emits text keep (record s { cache = cache }) flow
    → Emits text keep s flow
Emits-cached text keep s cache (next s') h = h
Emits-cached text keep s cache (threw s') h = h
Emits-cached text keep s cache (aborted s') h = h

-- The date format `f` at the second of the record: what the C library answers, in `size` bytes.
pub record DateAnswer {Tm : Type 0} (time : TimeLibrary Tm) (f : Bytes) (r : LogRecordView)
    : Type 0 where
  pub tm : Tm
  pub size : ℕ
  pub bytes : Bytes
  pub local_time : time.localtime_r (seconds_of r.timestamp) ≡ some tm
  pub formatted : time.strftime f tm ≡ (size, bytes)
  pub fitted : (size == 0) ≡ false

-- If the cache is for the record's second, it holds the text of the date format there.
abbrev pub IsFresh : Bytes → LogRecordView → DateCache → Type 0
IsFresh date r cache =
    eqb_ℤ (seconds_of r.timestamp) cache.last_second ≡ true → c_string cache.cached_date_time ≡ date

-- What is asked of a predicate on the cache, that printing a date keeps: it holds of no cache with
-- another text for the record's second, and it holds of the cache that is stored.
pub record IsKept {Tm : Type 0} {time : TimeLibrary Tm} {f : Bytes} {r : LogRecordView}
    (answer : DateAnswer time f r) (keep : DateCache → Type 0) : Type 0 where
  pub fresh : (cache : DateCache) → keep cache → IsFresh (c_string answer.bytes) r cache
  pub stored :
      keep (record { last_second = seconds_of r.timestamp; cached_date_time = answer.bytes })

pub IsFresh-IsKept :
    {Tm : Type 0} {time : TimeLibrary Tm} {f : Bytes} {r : LogRecordView}
    (answer : DateAnswer time f r)
    → IsKept answer (IsFresh (c_string answer.bytes) r)
IsFresh-IsKept answer = record { fresh = λ cache k. k; stored = λ e. refl }

module _ {Tm : Type 0} (time : TimeLibrary Tm) (alloc : Allocator) (build : Build) (f : Bytes)
    (r : LogRecordView) (answer : DateAnswer time f r) (keep : DateCache → Type 0)
    (kept : IsKept answer keep) where
  open answer use {bytes, local_time, formatted, fitted}

  abbrev pub date : Bytes
  date = c_string bytes

  pub append_date_time-Emits :
      (s : FormatState)
      → IsValid formatted_record_inline_capacity s.output
      → keep s.cache
      → length (view s.output) + length date < 2 ^ 64
      → Emits date keep s (append_date_time time alloc build f r.timestamp s)
  unfolding append_date_time
  append_date_time-Emits s v k small =
      elim (Bool-cases (eqb_ℤ (seconds_of r.timestamp) s.cache.last_second)) [
        | inl cached ↦
            rw (cached, kept.fresh s.cache k cached)
              (emit-Emits time alloc build date keep s v k small)
        | inr stale ↦
            rw (stale, local_time, formatted, fitted)
              (Emits-cached date keep s stored _ (
                emit-Emits time alloc build date keep (record s { cache = stored }) v kept.stored
                  small))
      ]
    where
      stored : DateCache
      stored = record { last_second = seconds_of r.timestamp; cached_date_time = bytes }
