-- ===== src/Backtrace.antt =====
-- pans/src/utils/system_utils.cc: the text of a call stack, from the frames, symbols and source lines
-- that the C library, the C++ ABI and libdwfl give, which are parameters.
pub mod Symbols
pub mod Frames
mod Tests
use pans.Base.Int.{ℤ, pos, negsuc}
use pans.Base.{
  ℕ, zero, suc, ◌+◌, ◌-◌, Bool, true, false, ◌&&◌, Option, none, some, List, [], ◌∷◌, ◌++◌, Bytes,
  codes, ltb, ◌==◌, if◌then◌else◌, is_empty, drop, take, get_elem?, find_from, index_of, min,
}
use pans.Decimal.{to_chars}

-- The text of a number that an `int` holds, as `std::to_string` and a stream write it.
abbrev pub text_of : Option Bytes → Bytes
text_of none = []
text_of (some text) = text

abbrev pub int_text : ℕ → Bytes
int_text n = text_of (to_chars 10 n)

-- `std::string_view` of a pointer that may be null.
abbrev pub symbol_text : Option Bytes → Bytes
symbol_text none = []
symbol_text (some text) = text

-- `abi::__cxa_demangle`: the new string, or a null pointer, and the status.
abbrev pub Demangle : Type 0
Demangle = Bytes → Option Bytes × ℤ

-- The name that is returned for what the demangler gave.
abbrev pub readable : Bytes → Option Bytes × ℤ → Bytes
readable mangled_name (some demangled_name, pos zero) = demangled_name
readable mangled_name (_, status) = mangled_name

abbrev pub end_or : Option ℕ → Option ℕ → Option ℕ
end_or none name_end = name_end
end_or (some plus) name_end = some plus

module _ (demangle : Demangle) where
  -- From the test of `name_end` on.
  abbrev pub name_at : Bytes → ℕ → Option ℕ → Bytes
  name_at text mangled_begin none = text
  name_at text mangled_begin (some name_end) =
      if name_end == mangled_begin
      then text
      else (let mangled_name = take (name_end - mangled_begin) (drop mangled_begin text) in
          readable mangled_name (demangle mangled_name))

  abbrev pub symbol_at : Bytes → Option ℕ → Bytes
  symbol_at text none = text
  symbol_at text (some name_begin) =
      name_at text (name_begin + 1)
        (end_or (find_from b'+' text (name_begin + 1)) (find_from b')' text (name_begin + 1)))

  -- `DemangleBacktraceSymbol`.
  unfoldable pub demangle_backtrace_symbol : Option Bytes → Bytes
  demangle_backtrace_symbol symbol =
      symbol_at (symbol_text symbol) (index_of b'(' (symbol_text symbol))

-- libdwfl: whether a session begins, the results of the two reports, the line of an address, and the
-- file name, which may be null, and number of a line.
pub record Dwfl (Line : Type 0) : Type 0 where
  pub begins : Bool
  pub proc_report : ℤ
  pub report_end : ℤ
  pub getsrc : ℕ → Option Line
  pub lineinfo : Line → Option Bytes × ℤ

abbrev pub succeeds : ℤ → Bool
succeeds (pos zero) = true
succeeds _ = false

-- The text of a source line; a missing name or a number that is not positive gives none.
abbrev pub location_text : Option Bytes × ℤ → Bytes
location_text (some file_name, pos (suc n)) = file_name ++ b':' ∷ int_text (suc n)
location_text _ = []

module _ {Line : Type 0} (dwfl : Dwfl Line) where
  open dwfl use {begins, proc_report, report_end, getsrc, lineinfo}

  -- The constructor of `SourceLocationParser`: whether it keeps its session.
  abbrev pub has_session : Bool
  has_session = begins && (succeeds proc_report && succeeds report_end)

  -- A return address is behind the call.
  abbrev pub call_address : ℕ → Bool → ℕ
  call_address frame is_return_address =
      if is_return_address && ltb 0 frame then frame - 1 else frame

  abbrev pub line_text : Option Line → Bytes
  line_text none = []
  line_text (some line) = location_text (lineinfo line)

  -- `SourceLocationParser::parse`.
  unfoldable pub parse_location : ℕ → Bool → Bytes
  parse_location frame is_return_address =
      if has_session then line_text (getsrc (call_address frame is_return_address)) else []

-- `backtrace` with an array of so many places: its result, and the array afterwards.
-- `backtrace_symbols` of the first frames of the array: the array of strings, or a null pointer.
pub record StackLibrary : Type 0 where
  pub backtrace : ℕ → ℤ × List ℕ
  pub backtrace_symbols : List ℕ → Option (List (Option Bytes))

-- `std::clamp(skip, 0, frame_count)`.
abbrev pub clamp : ℤ → ℕ → ℕ
clamp (pos n) frame_count = min n frame_count
clamp (negsuc n) frame_count = 0

abbrev pub location_part : Bytes → Bytes
location_part source_location =
    if is_empty source_location then [] else codes "at" ++ source_location

-- A line in front of the others.
abbrev pub join : Option Bytes → Option Bytes → Option Bytes
join (some line) (some lines) = some (line ++ lines)
join _ _ = none

module _ {Line : Type 0} (demangle : Demangle) (dwfl : Dwfl Line) (prefix : Bytes) where
  -- What a round of the loop writes, for the frame `i` with the number that is printed.
  unfoldable pub frame_line : ℕ → ℕ → ℕ → Option Bytes → Bytes
  frame_line number i frame symbol =
      prefix
      ++ (b'#'
          ∷ (int_text number
              ++ (b' '
                  ∷ (demangle_backtrace_symbol demangle symbol
                      ++ (location_part (parse_location dwfl frame (ltb 0 i)) ++ b'\n' ∷ [])))))

  -- The two reads of a round; `none` is a read behind the end of an array.
  abbrev pub line_of : ℕ → ℕ → Option ℕ → Option (Option Bytes) → Option Bytes
  line_of number i (some frame) (some symbol) = some (frame_line number i frame symbol)
  line_of number i _ _ = none

  -- The loop, with the rounds that are left.
  unfoldable pub write_frames : List ℕ → List (Option Bytes) → ℕ → ℕ → ℕ → Option Bytes
  write_frames frames symbols first_frame i zero = some []
  write_frames frames symbols first_frame i (suc rounds) =
      let rest = write_frames frames symbols first_frame (suc i) rounds in
      join (line_of (i - first_frame) i (get_elem? frames i) (get_elem? symbols i)) rest

  abbrev pub write_symbols : ℤ → List ℕ → ℕ → Option (List (Option Bytes)) → Option Bytes
  write_symbols skip frames frame_count none = some []
  write_symbols skip frames frame_count (some symbols) =
      write_frames frames symbols (clamp skip frame_count) (clamp skip frame_count)
        (frame_count - clamp skip frame_count)

  module _ (library : StackLibrary) where
    abbrev pub write_stack : ℤ → ℤ × List ℕ → Option Bytes
    write_stack skip (pos (suc n), frames) =
        write_symbols skip frames (suc n) (library.backtrace_symbols (take (suc n) frames))
    write_stack skip (_, frames) = some []

    -- `GetBacktrace`; `none` is a read behind the end of an array.
    unfoldable pub get_backtrace : ℤ → ℤ → Option Bytes
    get_backtrace (pos (suc n)) skip = write_stack skip (library.backtrace (suc n))
    get_backtrace size skip = some []

-- `GetFiberId`.
abbrev pub get_fiber_id : ℕ
get_fiber_id = 0
