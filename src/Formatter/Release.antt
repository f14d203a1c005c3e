-- ===== src/Formatter/Release.antt =====
-- The constructor of `Formatter` (pans/src/Logger/formatter.cc) in a release build, where no assertion
-- aborts.
use pans.Base.{
  ℕ, zero, suc, ◌≡◌, refl, Option, none, some, List, [], ◌∷◌, Bytes, ◌==◌, Bool-cases, inl, inr,
  length,
}
use pans.Formatter.{FormatItem}
use pans.Formatter.Loop.{parse-ne-out_of_fuel}
use pans.Formatter.Pattern.{
  Parser, Parsed, parsed, refused, parse_aborted, out_of_fuel, Round, go_on, stop, follow,
  create_format_item, finish_directive, take_format, add_literal, format_item_factory,
  parse_directive, parse_round, parse_loop, parse, finish_parse, collect_items, empty_parser,
  Constructed, constructed, invalid_argument, settle, make_formatter,
}
use pans.Macros.{Build}

abbrev IsNoAbort : Parsed → Type 0
IsNoAbort (parse_aborted failed) = ⊥
IsNoAbort _ = Unit

abbrev Goes : Round → Type 0
Goes (go_on rest p) = Unit
Goes (stop result) = IsNoAbort result

create_format_item-Goes :
    (c : ℕ) (found : Option (Bytes → FormatItem)) (item_format rest : Bytes) (p : Parser)
    → Goes (create_format_item Build.release_build c found item_format rest p)
unfolding create_format_item
create_format_item-Goes c (some make) item_format rest p = tt
create_format_item-Goes c none item_format rest p = tt

finish_directive-Goes :
    (c : ℕ) (found : Option (Bytes × Bytes)) (p : Parser)
    → Goes (finish_directive Build.release_build c found p)
unfolding finish_directive
finish_directive-Goes c none p = tt
finish_directive-Goes c (some (item_format, rest)) p =
    create_format_item-Goes c (format_item_factory c) item_format rest p

parse_directive-Goes :
    (rest : Bytes) (p : Parser) → Goes (parse_directive Build.release_build rest p)
unfolding parse_directive
parse_directive-Goes [] p = tt
parse_directive-Goes (c ∷ rest) p = elim (Bool-cases (c == b'%')) [
  | inl percent ↦ rw percent tt
  | inr other ↦ rw other (finish_directive-Goes c (take_format rest) (add_literal p))
]

finish_parse-IsNoAbort :
    (items : Option (List FormatItem)) (p : Parser)
    → IsNoAbort (finish_parse Build.release_build items p)
unfolding finish_parse
finish_parse-IsNoAbort none p = tt
finish_parse-IsNoAbort (some items) p = tt

parse_round-Goes : (rest : Bytes) (p : Parser) → Goes (parse_round Build.release_build rest p)
unfolding parse_round
parse_round-Goes [] p = finish_parse-IsNoAbort (collect_items (add_literal p).items) (add_literal p)
parse_round-Goes (c ∷ rest) p = elim (Bool-cases (c == b'%')) [
  | inl percent ↦ rw percent (parse_directive-Goes rest p)
  | inr other ↦ rw other tt
]

follow-IsNoAbort :
    (again : Bytes → Parser → Parsed) (round : Round)
    → ((rest : Bytes) (p : Parser) → IsNoAbort (again rest p))
    → Goes round
    → IsNoAbort (follow again round)
follow-IsNoAbort again (go_on rest p) later h = later rest p
follow-IsNoAbort again (stop result) later h = h

parse_loop-IsNoAbort :
    (fuel : ℕ) (rest : Bytes) (p : Parser) → IsNoAbort (parse_loop Build.release_build fuel rest p)
unfolding parse_loop
parse_loop-IsNoAbort zero rest p = tt
parse_loop-IsNoAbort (suc fuel) rest p =
    follow-IsNoAbort (parse_loop Build.release_build fuel) (parse_round Build.release_build rest p)
      (parse_loop-IsNoAbort fuel) (parse_round-Goes rest p)

-- A formatter of the pattern, or the exception.
abbrev pub IsBuilt : Bytes → Constructed → Type 0
IsBuilt pattern_text (constructed formatter failed) = formatter.pattern_text ≡ pattern_text
IsBuilt pattern_text (invalid_argument failed) = Unit
IsBuilt pattern_text _ = ⊥

settle-IsBuilt :
    (pattern_text : Bytes) (result : Parsed)
    → IsNoAbort result
    → (result ≡ out_of_fuel → ⊥)
    → IsBuilt pattern_text (settle pattern_text result)
unfolding settle
settle-IsBuilt pattern_text (parsed items failed) goes ends = refl
settle-IsBuilt pattern_text (refused code failed) goes ends = tt
settle-IsBuilt pattern_text (parse_aborted failed) goes ends = goes
settle-IsBuilt pattern_text out_of_fuel goes ends = ends refl

-- In a release build the constructor of `Formatter` ends for every pattern with a formatter that keeps
-- the pattern or with `std::invalid_argument`; no assertion of `parse` ends the program.
pub make_formatter-IsBuilt :
    (pattern_text : Bytes) → IsBuilt pattern_text (make_formatter Build.release_build pattern_text)
unfolding make_formatter
make_formatter-IsBuilt pattern_text =
    settle-IsBuilt pattern_text (parse Build.release_build pattern_text)
      (parse_loop-IsNoAbort (suc (length pattern_text)) pattern_text empty_parser)
      (parse-ne-out_of_fuel Build.release_build pattern_text)
