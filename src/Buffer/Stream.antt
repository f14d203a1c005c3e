-- ===== src/Buffer/Stream.antt =====
-- `SmallStreamBuffer` of pans/src/Logger/buffer.h, and the output stream of the library that writes
-- through it: an exception of the stream buffer sets the stream's bad bit, and a stream with that bit
-- writes nothing more.
use pans.Base.Int.{ℤ, pos, negsuc}
use pans.Base.{
  ℕ, zero, suc, ◌-◌, ◌%◌, Bool, true, false, [], ◌∷◌, Bytes, length, take, if◌then◌else◌,
}
use pans.Buffer.{Allocator, Outcome, done, bad_alloc, InlineBuffer, append}

-- What a call of the stream buffer ends with.
pub data Put : Type 0 where
  returned : InlineBuffer → ℤ → Put
  thrown : InlineBuffer → Put

-- `traits_type::eof()`.
abbrev pub eof : ℤ
eof = negsuc 0

-- `traits_type::to_char_type`, as an unsigned byte.
abbrev pub to_char_type : ℤ → ℕ
to_char_type (pos n) = n % 256
to_char_type (negsuc n) = 255 - n % 256

abbrev pub return_after : ℤ → Outcome InlineBuffer → Put
return_after result (done b) = returned b result
return_after result (bad_alloc b) = thrown b

module _ (alloc : Allocator) (inline_capacity : ℕ) where
  -- `xsputn`: a size that is not positive writes nothing.
  unfoldable pub xsputn : InlineBuffer → Bytes → ℤ → Put
  xsputn b bytes (negsuc n) = returned b (pos 0)
  xsputn b bytes (pos zero) = returned b (pos 0)
  xsputn b bytes (pos (suc n)) =
      return_after (pos (suc n)) (append alloc inline_capacity b (take (suc n) bytes))

  -- `overflow`. `not_eof` of the end-of-file value is 0.
  unfoldable pub overflow : InlineBuffer → ℤ → Put
  overflow b (negsuc zero) = returned b (pos 0)
  overflow b character =
      return_after character (append alloc inline_capacity b (to_char_type character ∷ []))

-- `std::ostream` over the buffer.
pub record OutputStream : Type 0 where
  pub buffer : InlineBuffer
  pub bad : Bool

abbrev pub after_put : Put → OutputStream
after_put (returned b result) = record { buffer = b; bad = false }
after_put (thrown b) = record { buffer = b; bad = true }

-- `stream.write(bytes, size)`, and `stream << text`.
unfoldable pub write : Allocator → ℕ → OutputStream → Bytes → OutputStream
write alloc inline_capacity stream bytes =
    if stream.bad
    then stream
    else after_put (xsputn alloc inline_capacity stream.buffer bytes (pos (length bytes)))

-- `stream.put(character)`, for a byte.
unfoldable pub put : Allocator → ℕ → OutputStream → ℕ → OutputStream
put alloc inline_capacity stream character =
    if stream.bad
    then stream
    else after_put (overflow alloc inline_capacity stream.buffer (pos character))
