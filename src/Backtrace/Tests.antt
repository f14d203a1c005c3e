-- ===== src/Backtrace/Tests.antt =====
-- Runs of the backtraces, and their theorems at concrete libraries.
use pans.Base.Int.{pos, negsuc}
use pans.Base.{
  ℕ, true, ◌≡◌, refl, Option, none, some, List, [], ◌∷◌, ◌++◌, Bytes, codes, inl, arith, drop,
}
use pans.Backtrace.{
  Demangle, readable, Dwfl, StackLibrary, demangle_backtrace_symbol, parse_location, get_backtrace,
  frame_line, write_frames,
}
use pans.Backtrace.Frames.{StackAnswer, frame_lines, get_backtrace-frame_lines}
use pans.Backtrace.Symbols.{demangle_backtrace_symbol-named}
use pans.Decimal.{to_chars}

-- A demangler that knows no name.
abbrev raw : Demangle
raw name = (none, negsuc 1)

-- Debug information with one line, for addresses of any frame.
abbrev dwfl : Dwfl Unit
dwfl = record {
  begins = true;
  proc_report = pos 0;
  report_end = pos 0;
  getsrc = λ address. some tt;
  lineinfo = λ line. (some (codes "a.cc"), pos 42);
}

abbrev frames : List ℕ
frames = 4096 ∷ 8192 ∷ 0 ∷ []

abbrev symbols : List (Option Bytes)
symbols = some (codes "./a(f+0x2) [0x1000]") ∷ some (codes "./a(+0x5) [0x2000]") ∷ []

abbrev library : StackLibrary
library = record { backtrace = λ size. (pos 2, frames); backtrace_symbols = λ found. some symbols }

-- No space stands in front of "at".
one_frame :
    get_backtrace raw dwfl (codes "  ") library (pos 64) (pos 1)
    ≡ some (codes "  #0 ./a(+0x5) [0x2000]ata.cc:42" ++ b'\n' ∷ [])
unfolding get_backtrace write_frames frame_line demangle_backtrace_symbol parse_location to_chars
one_frame = refl

no_size : get_backtrace raw dwfl [] library (negsuc 0) (pos 1) ≡ some []
unfolding get_backtrace
no_size = refl

abbrev answer : StackAnswer library 3
answer = record {
  count = 1;
  frames = frames;
  symbols = symbols;
  found = refl;
  described = refl;
  room = omega arith;
  counted = refl;
}

get_backtrace-frame_lines_example :
    get_backtrace raw dwfl [] library (pos 3) (pos 1)
    ≡ some (frame_lines raw dwfl [] 0 1 (drop 1 frames) (drop 1 symbols))
get_backtrace-frame_lines_example = get_backtrace-frame_lines raw dwfl [] library 2 (pos 1) answer

demangle_backtrace_symbol-named_example :
    demangle_backtrace_symbol raw
      (some (codes "./a" ++ b'(' ∷ [] ++ (codes "_Z1fv" ++ b'+' ∷ codes "0x25) [0x40]")))
    ≡ readable (codes "_Z1fv") (raw (codes "_Z1fv"))
demangle_backtrace_symbol-named_example =
    demangle_backtrace_symbol-named raw (codes "./a") (codes "_Z1fv") (codes "0x25) [0x40]") b'+'
      refl refl (inl refl) (omega arith)
