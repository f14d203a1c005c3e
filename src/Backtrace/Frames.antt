-- ===== src/Backtrace/Frames.antt =====
-- `GetBacktrace` (pans/src/utils/system_utils.cc) as one line for each frame.
use pans.Base.Int.{ℤ, pos, negsuc}
use pans.Base.{
  ℕ, zero, suc, ◌+◌, ◌-◌, ◌≤◌, ◌≡◌, refl, sym, ap, ◌∙◌, Option, some, List, [], ◌∷◌, ◌++◌, Bytes,
  length, take, drop, drop-length, get_elem?-drop, arith,
}
use pans.Backtrace.{Demangle, Dwfl, StackLibrary, frame_line, write_frames, get_backtrace, clamp}

-- What the C library promises for an array of `size` places: `count` of them hold frames, one at least,
-- and there is a string for each.
pub record StackAnswer (library : StackLibrary) (size : ℕ) : Type 0 where
  pub count : ℕ
  pub frames : List ℕ
  pub symbols : List (Option Bytes)
  pub found : library.backtrace size ≡ (pos (suc count), frames)
  pub described : library.backtrace_symbols (take (suc count) frames) ≡ some symbols
  pub room : suc count ≤ length frames
  pub counted : length symbols ≡ suc count

clamp-le : (skip : ℤ) (n : ℕ) → clamp skip n ≤ n
clamp-le (pos skip) n = omega arith
clamp-le (negsuc skip) n = omega arith

module _ {Line : Type 0} (demangle : Demangle) (dwfl : Dwfl Line) (prefix : Bytes) where
  -- One line for each frame: the lines are numbered from `number`, the frames from `i`.
  abbrev pub frame_lines : ℕ → ℕ → List ℕ → List (Option Bytes) → Bytes
  frame_lines number i (frame ∷ frames) (symbol ∷ symbols) =
      frame_line demangle dwfl prefix number i frame symbol
      ++ frame_lines (suc number) (suc i) frames symbols
  frame_lines number i _ _ = []

  frame_lines-nil : (number i : ℕ) (frames : List ℕ) → frame_lines number i frames [] ≡ []
  frame_lines-nil number i [] = refl
  frame_lines-nil number i (frame ∷ frames) = refl

  -- The loop reads the frames from `i` on within the arrays.
  write_frames-frame_lines :
      (rounds i first_frame : ℕ) (frames : List ℕ) (symbols : List (Option Bytes))
      → first_frame ≤ i
      → i + rounds ≤ length frames
      → length symbols ≡ i + rounds
      → write_frames demangle dwfl prefix frames symbols first_frame i rounds
        ≡ some (frame_lines (i - first_frame) i (drop i frames) (drop i symbols))
  unfolding write_frames
  write_frames-frame_lines zero i first_frame frames symbols from room all =
      rw (drop-length i symbols (omega arith))
        (ap some (sym (frame_lines-nil (i - first_frame) i (drop i frames))))
  write_frames-frame_lines (suc rounds) i first_frame frames symbols from room all =
      let (frame, frame_read, frames_left) = get_elem?-drop i frames (omega arith) in
      let (symbol, symbol_read, symbols_left) = get_elem?-drop i symbols (omega arith) in
      let rest =
        write_frames-frame_lines rounds (suc i) first_frame frames symbols (omega arith)
          (omega arith) (omega arith) in
      let next_number : suc i - first_frame ≡ suc (i - first_frame) = omega arith in
      rw (frame_read, symbol_read, frames_left, symbols_left, rest, next_number) refl

  -- With a library that keeps its promise, `GetBacktrace` reads nothing behind the end of an array and
  -- gives one line for each frame from the `skip`-th on, numbered from 0; a `skip` that is negative
  -- stands for 0, and one beyond the frames leaves none.
  pub get_backtrace-frame_lines :
      (library : StackLibrary) (size : ℕ) (skip : ℤ) (answer : StackAnswer library (suc size))
      → get_backtrace demangle dwfl prefix library (pos (suc size)) skip
        ≡ some (
            frame_lines 0
              (clamp skip (suc answer.count))
              (drop (clamp skip (suc answer.count)) answer.frames)
              (drop (clamp skip (suc answer.count)) answer.symbols))
  unfolding get_backtrace
  get_backtrace-frame_lines library size skip answer =
      rw (answer.found, answer.described)
        (write_frames-frame_lines (n - c) c c answer.frames answer.symbols (omega arith)
            (omega (arith, below, answer.room)) (omega (arith, below, answer.counted))
          ∙ ap (λ k. some (frame_lines k c (drop c answer.frames) (drop c answer.symbols))) same)
    where
      n : ℕ
      n = suc answer.count

      c : ℕ
      c = clamp skip n

      below : c ≤ n
      below = clamp-le skip n

      same : c - c ≡ 0
      same = omega arith
