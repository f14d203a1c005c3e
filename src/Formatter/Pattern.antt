-- ===== src/Formatter/Pattern.antt =====
-- `Formatter::parse`, `CreateFormatItem` and the constructor of pans/src/Logger/formatter.cc. The
-- loop's index is read as the part of the pattern that it still has in front of it.
use mathlib.Core.Option
use pans.Base.{
  ℕ, zero, suc, not, Option, none, some, List, [], ◌∷◌, ◌++◌, Bytes, ◌==◌, if◌then◌else◌, index_of,
  take, drop, is_empty, length,
}
use pans.Formatter.{
  FormatItem, literal, level, elapsed, logger_name, thread_id, new_line, date_time, microseconds,
  file_name, line, tab, fiber_id, thread_name, message,
}
use pans.Macros.{
  Build, Assertion, incomplete_directive, missing_close_brace, null_format_item, unknown_directive,
}

-- `GetFormatItemFactories().find(directive)`, applied to the format.
unfoldable pub format_item_factory : ℕ → Option (Bytes → FormatItem)
format_item_factory c =
    if c == b'm'
    then some (λ _. message)
    else if c == b'p'
    then some (λ _. level)
    else if c == b'r'
    then some (λ _. elapsed)
    else if c == b'c'
    then some (λ _. logger_name)
    else if c == b't'
    then some (λ _. thread_id)
    else if c == b'n'
    then some (λ _. new_line)
    else if c == b'd'
    then some date_time
    else if c == b'u'
    then some (λ _. microseconds)
    else if c == b'f'
    then some (λ _. file_name)
    else if c == b'l'
    then some (λ _. line)
    else if c == b'T'
    then some (λ _. tab)
    else if c == b'F'
    then some (λ _. fiber_id)
    else if c == b'N'
    then some (λ _. thread_name)
    else none

-- The locals of `parse` and the items so far. A null pointer among these is `none`.
pub record Parser : Type 0 where
  pub literal_text : Bytes
  pub items : List (Option FormatItem)
  pub failed : List Assertion

-- What `parse` ends with: its result 0, the negated value of a failure, or an abort.
pub data Parsed : Type 0 where
  parsed : List FormatItem → List Assertion → Parsed
  refused : ℕ → List Assertion → Parsed
  parse_aborted : List Assertion → Parsed
  out_of_fuel : Parsed

-- What a round of the loop ends with.
pub data Round : Type 0 where
  go_on : Bytes → Parser → Round
  stop : Parsed → Round

abbrev pub note_parse : Assertion → Parser → Parser
note_parse which p = record p { failed = p.failed ++ which ∷ [] }

-- A failed ASSERT_RETVAL2 in the loop.
abbrev pub fail_parse : Build → ℕ → Assertion → Parser → Parsed
fail_parse Build.release_build code which p = refused code (note_parse which p).failed
fail_parse Build.debug_build code which p = parse_aborted (note_parse which p).failed

-- `addLiteral`: the text moves into an item, unless it is empty.
unfoldable pub add_literal : Parser → Parser
add_literal p = if is_empty p.literal_text then p else record {
  literal_text = [];
  items = p.items ++ some (literal p.literal_text) ∷ [];
  failed = p.failed;
}

abbrev pub push_item : Option FormatItem → Parser → Parser
push_item item p = record p { items = p.items ++ item ∷ [] }

-- At the first closing brace behind an opening one.
unfoldable pub braced_format : Option ℕ → Bytes → Option (Bytes × Bytes)
braced_format none cs = none
braced_format (some zero) cs = none
braced_format (some (suc i)) cs = some (take (suc i) cs, drop (suc (suc i)) cs)

-- The format in braces behind a directive, and what follows it. `none` is a missing closing brace, or
-- nothing between the braces.
unfoldable pub take_format : Bytes → Option (Bytes × Bytes)
unfolding braced_format
take_format [] = some ([], [])
take_format (c ∷ cs) = if c == b'{' then braced_format (index_of b'}' cs) cs else some ([], c ∷ cs)

-- `CreateFormatItem`, whose result is pushed, null or not.
unfoldable pub create_format_item :
    Build → ℕ → Option (Bytes → FormatItem) → Bytes → Bytes → Parser → Round
create_format_item build c (some make) item_format rest p =
    go_on rest (push_item (some (make item_format)) p)
create_format_item Build.release_build c none item_format rest p =
    go_on rest (push_item none (note_parse (unknown_directive c) p))
create_format_item Build.debug_build c none item_format rest p =
    stop (parse_aborted (note_parse (unknown_directive c) p).failed)

unfoldable pub finish_directive : Build → ℕ → Option (Bytes × Bytes) → Parser → Round
unfolding create_format_item
finish_directive build c none p = stop (fail_parse build 2 missing_close_brace p)
finish_directive build c (some (item_format, rest)) p =
    create_format_item build c (format_item_factory c) item_format rest p

-- Behind a '%'.
unfoldable pub parse_directive : Build → Bytes → Parser → Round
unfolding finish_directive add_literal take_format
parse_directive build [] p = stop (fail_parse build 1 incomplete_directive p)
parse_directive build (c ∷ rest) p =
    if c == b'%'
    then go_on rest (record p { literal_text = p.literal_text ++ b'%' ∷ [] })
    else finish_directive build c (take_format rest) (add_literal p)

-- All the items, unless one is a null pointer.
unfoldable pub collect_items : List (Option FormatItem) → Option (List FormatItem)
collect_items [] = some []
collect_items (none ∷ items) = none
collect_items (some item ∷ items) = Option.map (◌∷◌ item) (collect_items items)

-- Behind the loop.
unfoldable pub finish_parse : Build → Option (List FormatItem) → Parser → Parsed
finish_parse build none p = fail_parse build 3 null_format_item p
finish_parse build (some items) p = parsed items p.failed

-- A round of the loop at what is left of the pattern.
unfoldable pub parse_round : Build → Bytes → Parser → Round
unfolding parse_directive finish_parse collect_items add_literal
parse_round build [] p =
    stop (finish_parse build (collect_items (add_literal p).items) (add_literal p))
parse_round build (c ∷ rest) p =
    if not (c == b'%')
    then go_on rest (record p { literal_text = p.literal_text ++ c ∷ [] })
    else parse_directive build rest p

abbrev pub follow : (Bytes → Parser → Parsed) → Round → Parsed
follow again (go_on rest p) = again rest p
follow again (stop result) = result

-- The loop, with a round for each unit of fuel.
unfoldable pub parse_loop : Build → ℕ → Bytes → Parser → Parsed
unfolding parse_round
parse_loop build zero rest p = out_of_fuel
parse_loop build (suc fuel) rest p = follow (parse_loop build fuel) (parse_round build rest p)

abbrev pub empty_parser : Parser
empty_parser = record { literal_text = []; items = []; failed = [] }

-- `parse`. A round takes a byte at least, and the last one finds none.
unfoldable pub parse : Build → Bytes → Parsed
unfolding parse_loop
parse build pattern_text = parse_loop build (suc (length pattern_text)) pattern_text empty_parser

-- A `Formatter`: `pattern_` and `items_`.
pub record Formatter : Type 0 where
  pub pattern_text : Bytes
  pub items : List FormatItem

pub data Constructed : Type 0 where
  constructed : Formatter → List Assertion → Constructed
  invalid_argument : List Assertion → Constructed
  construction_aborted : List Assertion → Constructed

-- The constructor: a result of `parse` other than 0 is thrown as `std::invalid_argument`.
unfoldable pub settle : Bytes → Parsed → Constructed
settle pattern_text (parsed items failed) =
    constructed (record { pattern_text = pattern_text; items = items }) failed
settle pattern_text (refused code failed) = invalid_argument failed
settle pattern_text (parse_aborted failed) = construction_aborted failed
settle pattern_text out_of_fuel = construction_aborted []

unfoldable pub make_formatter : Build → Bytes → Constructed
unfolding settle parse
make_formatter build pattern_text = settle pattern_text (parse build pattern_text)
