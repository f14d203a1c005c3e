-- ===== src/Formatter/Render.antt =====
-- `Formatter::format` (pans/src/Logger/formatter.cc) writes the texts of its items, one after the
-- other.
use mathlib.Core.List.{flatten}
use pans.Base.Int.{pos}
use pans.Base.{
  ◌+◌, ◌^◌, ◌<◌, ◌≡◌, refl, sym, ap, ◌∙◌, List, Bytes, [], ◌∷◌, ◌++◌, length, arith, append-nil,
  append_assoc, length-append,
}
use pans.Buffer.{Allocator, view}
use pans.Buffer.Store.{IsValid}
use pans.Formatter.{
  FormatItem, elapsed, thread_id, date_time, line, fiber_id, TimeLibrary, DateCache, c_string,
  FormatState, Flow, next, threw, aborted, ◌>>=◌, format_item, format,
  formatted_record_inline_capacity,
}
use pans.Formatter.Output.{
  item_text, record_text, InRange, Emits, emit-Emits, append_integer-Emits, append_date_time-Emits,
  magnitude-quot_le, DateAnswer, IsFresh, IsKept, IsFresh-IsKept,
}
use pans.Macros.{Build}
use pans.Record.{LogRecordView}

-- Every date item has the format `f`.
abbrev pub UseFormat : Bytes → List FormatItem → Type 0
UseFormat f [] = Unit
UseFormat f (date_time g ∷ items) = (g ≡ f) × UseFormat f items
UseFormat f (item ∷ items) = UseFormat f items

-- Two steps in a row.
Emits-bind :
    (t u : Bytes) (keep : DateCache → Type 0) (s : FormatState) (flow : Flow)
    (again : FormatState → Flow)
    → Emits t keep s flow
    → ((s' : FormatState) → Emits t keep s (next s') → Emits u keep s' (again s'))
    → Emits (t ++ u) keep s (flow >>= again)
Emits-bind t u keep s (next s') again h then_emits = joined (again s') (then_emits s' h)
  where
    joined : (flow : Flow) → Emits u keep s' flow → Emits (t ++ u) keep s flow
    joined (next s'') (v, e, failed, k) = (v, e ∙ rw (h.1, append_assoc) refl, failed ∙ h.2, k)
    joined (threw s'') (v, more) =
        (v, omega (arith, length-append t u, ap length h.1, length-append (view s.output) t))
    joined (aborted s'') e = e
Emits-bind t u keep s (threw s') again (v, more) then_emits = (v, omega (arith, length-append t u))
Emits-bind t u keep s (aborted s') again h then_emits = h

module _ {Tm : Type 0} (time : TimeLibrary Tm) (alloc : Allocator) (build : Build) (f : Bytes)
    (r : LogRecordView) (answer : DateAnswer time f r) (ranges : InRange r)
    (keep : DateCache → Type 0) (kept : IsKept answer keep) where
  open ranges use {elapsed_word, thread_id_word, fiber_id_word, line_word}

  abbrev at_second : Bytes
  at_second = c_string answer.bytes

  format_item-Emits :
      (item : FormatItem) (s : FormatState)
      → UseFormat f (item ∷ [])
      → IsValid formatted_record_inline_capacity s.output
      → keep s.cache
      → length (view s.output) + length (item_text at_second r item) < 2 ^ 64
      → Emits (item_text at_second r item) keep s (format_item time alloc build item r s)
  unfolding format_item
  format_item-Emits elapsed s u v k small =
      append_integer-Emits time alloc build _ keep s
        (omega (arith, elapsed_word, magnitude-quot_le r.elapsed)) v k small
  format_item-Emits thread_id s u v k small =
      append_integer-Emits time alloc build (pos r.thread_id) keep s (omega (arith, thread_id_word))
        v k small
  format_item-Emits line s u v k small =
      append_integer-Emits time alloc build (pos r.line) keep s (omega (arith, line_word)) v k small
  format_item-Emits fiber_id s u v k small =
      append_integer-Emits time alloc build (pos r.fiber_id) keep s (omega (arith, fiber_id_word)) v
        k small
  format_item-Emits (date_time g) s u v k small =
      rw u.0 (append_date_time-Emits time alloc build f r answer keep kept s v k small)
  format_item-Emits item s u v k small =
      emit-Emits time alloc build (item_text at_second r item) keep s v k small

  UseFormat-head :
      (item : FormatItem) (items : List FormatItem)
      → UseFormat f (item ∷ items)
      → UseFormat f (item ∷ [])
  UseFormat-head (date_time g) items u = (u.0, tt)
  UseFormat-head _ items u = tt

  UseFormat-tail :
      (item : FormatItem) (items : List FormatItem) → UseFormat f (item ∷ items) → UseFormat f items
  UseFormat-tail (date_time g) items u = u.1
  UseFormat-tail _ items u = u

  -- The same with what is kept of the cache left open.
  pub format-keeps :
      (items : List FormatItem) (s : FormatState)
      → UseFormat f items
      → IsValid formatted_record_inline_capacity s.output
      → keep s.cache
      → length (view s.output) + length (record_text at_second r items) < 2 ^ 64
      → Emits (record_text at_second r items) keep s (format time alloc build items r s)
  unfolding format flatten
  format-keeps [] s u v k small = (v, sym (append-nil (view s.output)), refl, k)
  format-keeps (item ∷ items) s u v k small =
      Emits-bind text rest keep s (format_item time alloc build item r s)
        (format time alloc build items r)
        (format_item-Emits item s (UseFormat-head item items u) v k
          (omega (arith, length-append text rest)))
        (λ s' h. format-keeps items s' (UseFormat-tail item items u) h.0 h.3 (
          omega
            (arith, length-append text rest, ap length h.1, length-append (view s.output) text)))
    where
      text : Bytes
      text = item_text at_second r item

      rest : Bytes
      rest = record_text at_second r items

-- A record is formatted to the texts of the items in order, behind what the output holds; no
-- assertion fails; and the allocator can stop it only if the record needs more than the 256 bytes
-- of the array. This is for a record of machine words, items whose date formats are all `f`, which
-- the C library prints at the record's second, a cache that is either of another second or holds
-- the text of `f` there, and sizes below 2 ^ 64.
pub format-Emits :
    {Tm : Type 0} (time : TimeLibrary Tm) (alloc : Allocator) (build : Build) (f : Bytes)
    (r : LogRecordView) (answer : DateAnswer time f r)
    → InRange r
    → (items : List FormatItem) (s : FormatState) → UseFormat f items
    → IsValid formatted_record_inline_capacity s.output
    → IsFresh (c_string answer.bytes) r s.cache
    → length (view s.output) + length (record_text (c_string answer.bytes) r items) < 2 ^ 64
    → Emits
        (record_text (c_string answer.bytes) r items)
        (IsFresh (c_string answer.bytes) r)
        s
        (format time alloc build items r s)
format-Emits time alloc build f r answer ranges =
    format-keeps time alloc build f r answer ranges (IsFresh (c_string answer.bytes) r)
      (IsFresh-IsKept answer)
