-- ===== src/Buffer/Messages.antt =====
-- What a stream over a `SmallStreamBuffer` (pans/src/Logger/buffer.h) leaves in its `InlineBuffer`.
use mathlib.Core.List.{flatten}
use mathlib.Core.Bool.{false≢true}
use pans.Base.Int.{ℤ, pos}
use pans.Base.{
  ℕ, suc, ◌+◌, ◌%◌, ◌^◌, ◌<◌, ◌≡◌, refl, sym, ap, ◌∙◌, true, false, List, [], ◌∷◌, ◌++◌, append-nil,
  append_assoc, arith, Bytes, length, take, take-length, length-append, Bool-cases, inl, inr,
}
use pans.Buffer.{Allocator, Outcome, done, bad_alloc, InlineBuffer, view, append}
use pans.Buffer.Store.{IsValid, length-view}
use pans.Buffer.View.{Appends, append_lem}
use pans.Buffer.Stream.{OutputStream, write, put, xsputn, overflow, after_put, return_after}

-- A run of writes, one after the other.
unfoldable pub write_all : Allocator → ℕ → OutputStream → List Bytes → OutputStream
write_all alloc inline_capacity stream [] = stream
write_all alloc inline_capacity stream (bytes ∷ rest) =
    write_all alloc inline_capacity (write alloc inline_capacity stream bytes) rest

after_put_ignores :
    (r s : ℤ) (out : Outcome InlineBuffer)
    → after_put (return_after r out) ≡ after_put (return_after s out)
after_put_ignores r s (done b) = refl
after_put_ignores r s (bad_alloc b) = refl

-- A byte put through `overflow` is written as the text of that byte is through `xsputn`.
put-write :
    (alloc : Allocator) (inline_capacity : ℕ) (stream : OutputStream) (character : ℕ)
    → character < 256
    → put alloc inline_capacity stream character
      ≡ write alloc inline_capacity stream (character ∷ [])
unfolding put write overflow xsputn
put-write alloc inline_capacity stream character h = elim (Bool-cases stream.bad) [
  | inl bad ↦ rw bad refl
  | inr good ↦
      rw (good, byte)
        (after_put_ignores (pos character) (pos 1)
          (append alloc inline_capacity stream.buffer (character ∷ [])))
]
  where
    byte : character % 256 ≡ character
    byte = omega arith

-- One write: the whole text, or nothing of it and the bad bit.
pub record Writes (inline_capacity : ℕ) (before : OutputStream) (bytes : Bytes)
    (after : OutputStream) : Type 0 where
  pub valid : IsValid inline_capacity after.buffer
  pub kept : after.bad ≡ true → view after.buffer ≡ view before.buffer
  pub added :
      after.bad ≡ false → (before.bad ≡ false) × (view after.buffer ≡ view before.buffer ++ bytes)

write_all_bad :
    (alloc : Allocator) (inline_capacity : ℕ) (texts : List Bytes) (stream : OutputStream)
    → stream.bad ≡ true
    → write_all alloc inline_capacity stream texts ≡ stream
unfolding write_all write
write_all_bad alloc inline_capacity [] stream e = refl
write_all_bad alloc inline_capacity (bytes ∷ rest) stream e =
    rw e (write_all_bad alloc inline_capacity rest _ refl)

module _ (alloc : Allocator) {inline_capacity : ℕ} where
  put-Writes :
      (before : OutputStream) (bytes : Bytes) (result : ℤ)
      → before.bad ≡ false
      → (out : Outcome InlineBuffer) → Appends inline_capacity before.buffer bytes out
      → Writes inline_capacity before bytes (after_put (return_after result out))
  put-Writes before bytes result good (done b) (v, e) = record {
    valid = v;
    kept = λ f. cc;
    added = λ _. (good, e);
  }
  put-Writes before bytes result good (bad_alloc b) (v, e, more) = record {
    valid = v;
    kept = λ _. e;
    added = λ f. cc;
  }

  -- `write` on a valid buffer, whatever is granted.
  pub write-Writes :
      (before : OutputStream)
      → IsValid inline_capacity before.buffer
      → (bytes : Bytes) → before.buffer.size + length bytes < 2 ^ 64
      → Writes inline_capacity before bytes (write alloc inline_capacity before bytes)
  unfolding write xsputn
  write-Writes before v bytes small = elim (Bool-cases before.bad) [
    | inl bad ↦ rw bad (record { valid = v; kept = λ _. refl; added = λ f. cc })
    | inr good ↦ simp good (written bytes small good)
  ]
    where
      written :
          (bytes : Bytes)
          → before.buffer.size + length bytes < 2 ^ 64
          → before.bad ≡ false
          → Writes inline_capacity before bytes
              (after_put (xsputn alloc inline_capacity before.buffer bytes (pos (length bytes))))
      written [] small good = record {
        valid = v;
        kept = λ f. cc;
        added = λ _. (good, sym (append-nil _));
      }
      written (x ∷ xs) small good =
          rw (take-length (length xs) xs (omega arith))
            (put-Writes before (x ∷ xs) _ good _ (append_lem alloc before.buffer v (x ∷ xs) small))

  -- However the allocator answers, the buffer of a stream ends with a whole number of the texts that
  -- were written, the first ones in order, and with all of them if the stream is good. Their
  -- lengths together stay below 2 ^ 64.
  pub write_all_prefix :
      (texts : List Bytes) (stream : OutputStream)
      → IsValid inline_capacity stream.buffer
      → stream.buffer.size + length (flatten texts) < 2 ^ 64
      → (count : ℕ) × (view (write_all alloc inline_capacity stream texts).buffer
          ≡ view stream.buffer ++ flatten (take count texts))
        × ((write_all alloc inline_capacity stream texts).bad ≡ false → count ≡ length texts)
  unfolding write_all flatten
  write_all_prefix [] stream v small = (0, sym (append-nil (view stream.buffer)), λ _. refl)
  write_all_prefix (bytes ∷ rest) stream v small = elim (Bool-cases next.bad) [
    | inl bad ↦ rw (write_all_bad alloc inline_capacity rest next bad) (
      0,
      w.kept bad ∙ sym (append-nil (view stream.buffer)),
      λ good. absurd (false≢true (sym good ∙ bad)),
    )
    | inr good ↦
        let (count, held, all) = write_all_prefix rest next w.valid (measure good) in
        (suc count, held ∙ rw ((w.added good).1, append_assoc), λ f. ap suc (all f))
  ]
    where
      start : stream.buffer.size + length bytes < 2 ^ 64
      start = omega (arith, small, length-append bytes (flatten rest))

      next : OutputStream
      next = write alloc inline_capacity stream bytes

      w : Writes inline_capacity stream bytes next
      w = write-Writes stream v bytes start

      measure : next.bad ≡ false → next.buffer.size + length (flatten rest) < 2 ^ 64
      measure good = omega (
        arith,
        length-append bytes (flatten rest),
        length-view next.buffer w.valid,
        length-view stream.buffer v,
        ap length (w.added good).1,
        length-append (view stream.buffer) bytes,
      )
