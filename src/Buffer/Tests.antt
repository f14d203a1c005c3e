-- ===== src/Buffer/Tests.antt =====
-- Runs of the buffer, and its theorems with concrete allocators.
use mathlib.Core.List.{flatten}
use pans.Base.{
  ℕ, ◌+◌, true, false, ◌≡◌, refl, List, [], ◌∷◌, ◌++◌, Bytes, codes, arith, length, take,
}
use pans.Buffer.{
  Allocator, move_inline, reserve, insert_end, memcpy, append, view, empty_buffer, after,
}
use pans.Buffer.Store.{empty_buffer-IsValid}
use pans.Buffer.View.{Appends, append_lem}
use pans.Buffer.Stream.{OutputStream}
use pans.Buffer.Messages.{write_all, write_all_prefix}

abbrev generous : Allocator
generous = record {
  grants = λ _. true;
  growth = λ old needed. old + needed;
  growth_le = λ old needed. omega arith;
}

abbrev exhausted : Allocator
exhausted = record {
  grants = λ _. false;
  growth = λ old needed. old + needed;
  growth_le = λ old needed. omega arith;
}

-- Four bytes fit, two more spill.
spilled :
    view (
      after (
        append generous 4 (after (append generous 4 (empty_buffer 4) (codes "abcd"))) (codes "ef")))
    ≡ codes "abcdef"
unfolding append move_inline reserve insert_end memcpy
spilled = refl

append_lem_example :
    Appends 4
      (empty_buffer 4)
      (codes "abcdef")
      (append generous 4 (empty_buffer 4) (codes "abcdef"))
append_lem_example =
    append_lem generous (empty_buffer 4) (empty_buffer-IsValid 4) (codes "abcdef") (omega arith)

abbrev stream : OutputStream
stream = record { buffer = empty_buffer 4; bad = false }

abbrev texts : List Bytes
texts = codes "abc" ∷ codes "de" ∷ codes "f" ∷ []

write_all_prefix_example :
    (count : ℕ) × (view (write_all exhausted 4 stream texts).buffer
      ≡ view stream.buffer ++ flatten (take count texts))
    × ((write_all exhausted 4 stream texts).bad ≡ false → count ≡ length texts)
unfolding flatten
write_all_prefix_example =
    write_all_prefix exhausted texts stream (empty_buffer-IsValid 4) (omega arith)
